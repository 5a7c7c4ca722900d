-- ===== src/Paper/Sweep.antt =====
-- internal/venue/paper.go: the loop over the positions of a symbol at a new mark price.
use cyp_agent.Base.{
  none_apart, ◌≡◌, ◌≢◌, refl, sym, ◌∙◌, inl, inr, Bool, true, false, ◌&&◌, ◌||◌, Option, none, some,
  List, [], ◌∷◌, arith, if◌then◌else◌, All, is_some, Option-cases, Bool-cases, Text, text_eq,
  text_eq→eq, lookup, insert, lookup-insert,
}
use cyp_agent.Decimal.{Decimal}
use cyp_agent.Models.{ProtectiveOrder, ExecutionResult, Position}
use cyp_agent.Risk.{Platform}
use cyp_agent.Paper.Keys.{Key, find, remove, key_eq, key_eq_iff, find-remove}
use cyp_agent.Paper.{Paper, record_fill, settle, close_position, close_at_price, next_id}
use cyp_agent.Paper.Place.{orders_at}
use cyp_agent.Paper.Trigger.{
  first_hit, trigger_id, fire, fire_first, trigger_found, trigger_key, trigger_keys,
}

abbrev pub hit_of :
    Decimal → Option Position → Option (List ProtectiveOrder) → Option ProtectiveOrder
hit_of mark none orders = none
hit_of mark (some position) orders = first_hit position mark (orders_at orders)

-- The order of the position at a key that a mark price triggers first.
abbrev pub hit_order : Decimal → Paper → Key → Option ProtectiveOrder
hit_order mark v key = hit_of mark (find key v.positions) (find key v.protective)

-- The fills that the orders which the price triggers would record are new, and differ between the
-- positions of the symbol.
pub record IsFresh (symbol : Text) (mark : Decimal) (v : Paper) : Type 0 where
  pub unused :
      (key : Key) (order : ProtectiveOrder)
      → text_eq key.symbol symbol ≡ true
      → hit_order mark v key ≡ some order
      → lookup (trigger_id order) v.fills ≡ none
  pub apart :
      (k j : Key) (o p : ProtectiveOrder)
      → text_eq k.symbol symbol ≡ true
      → text_eq j.symbol symbol ≡ true
      → hit_order mark v k ≡ some o
      → hit_order mark v j ≡ some p
      → trigger_id o ≡ trigger_id p
      → k ≡ j

-- The venue `w` is `v` without what stood at `key`, and with one more fill at `id`.
record IsClosed (key : Key) (id : Text) (v w : Paper) : Type 0 where
  positions : w.positions ≡ remove key v.positions
  protective : w.protective ≡ remove key v.protective
  result : ExecutionResult
  fills : w.fills ≡ insert id result v.fills

-- Some key of the list is this one.
abbrev pub holds_key : Key → List Key → Bool
holds_key j [] = false
holds_key j (key ∷ keys) = key_eq key j || holds_key j keys

other_key : (k j : Key) → key_eq k j ≡ false → k ≢ j
other_key k j h e = ground (arith, key_eq_iff k j)

module _ (platform : Platform) (mark : Decimal) where
  close_position-IsClosed :
      (v : Paper) (key : Key) (position : Position) (id order_id : Text)
      → IsClosed key id v (
          record_fill id
            (close_position platform v key position mark id order_id).1
            (close_position platform v key position mark id order_id).0)
  unfolding close_position settle next_id
  close_position-IsClosed v key position id [] = record {
    positions = refl;
    protective = refl;
    result = _;
    fills = refl;
  }
  close_position-IsClosed v key position id (c ∷ s) = record {
    positions = refl;
    protective = refl;
    result = _;
    fills = refl;
  }

  hit_of-some :
      (found : Option Position) (orders : Option (List ProtectiveOrder)) (order : ProtectiveOrder)
      → hit_of mark found orders ≡ some order
      → (position : Position) × (found ≡ some position)
  hit_of-some none orders order h = absurd (none_apart order h)
  hit_of-some (some position) orders order h = (position, refl)

  fire-IsClosed :
      (v : Paper) (key : Key) (order : ProtectiveOrder) (position : Position)
      → find key v.positions ≡ some position
      → lookup (trigger_id order) v.fills ≡ none
      → IsClosed key (trigger_id order) v (fire platform v mark key order)
  unfolding fire close_at_price
  fire-IsClosed v key order position found new =
      rw (new, found) (close_position-IsClosed v key position (trigger_id order) order.order_id)

  trigger_key-fire :
      (v : Paper) (key : Key)
      → trigger_key platform mark key v ≡ fire_first platform v mark key (hit_order mark v key)
  unfolding trigger_key
  trigger_key-fire v key = go (find key v.positions)
    where
      go :
          (found : Option Position)
          → trigger_found platform mark key v found
            ≡ fire_first platform v mark key (hit_of mark found (find key v.protective))
      go none = unfold fire_first in refl
      go (some position) = refl

  -- What one pass of the loop leaves at each key.
  record IsSwept (key : Key) (v w : Paper) : Type 0 where
    positions :
        (j : Key)
        → find j w.positions
          ≡ (if key_eq key j && is_some (hit_order mark v j) then none else find j v.positions)
    protective :
        (j : Key)
        → find j w.protective
          ≡ (if key_eq key j && is_some (hit_order mark v j) then none else find j v.protective)

  unhit-IsSwept : (v : Paper) (key : Key) → hit_order mark v key ≡ none → IsSwept key v v
  unhit-IsSwept v key e = record {
    positions = λ j. ground (arith, key_eq_iff key j);
    protective = λ j. ground (arith, key_eq_iff key j);
  }

  hit-IsSwept :
      (v w : Paper) (key : Key) (id : Text) (order : ProtectiveOrder)
      → hit_order mark v key ≡ some order
      → IsClosed key id v w
      → IsSwept key v w
  hit-IsSwept v w key id order e c = record {
    positions = λ j. rw (c.positions, find-remove) (ground (arith, key_eq_iff key j));
    protective = λ j. rw (c.protective, find-remove) (ground (arith, key_eq_iff key j));
  }

  hit_of_cut :
      (b : Bool) (found : Option Position) (orders : Option (List ProtectiveOrder))
      (hit : Option ProtectiveOrder)
      → hit_of mark found orders ≡ hit
      → hit_of mark
          (if b && is_some hit then none else found)
          (if b && is_some hit then none else orders)
        ≡ (if b then none else hit)
  hit_of_cut true found orders none e = e
  hit_of_cut true found orders (some order) e = refl
  hit_of_cut false found orders hit e = e

  IsSwept-hit_order :
      (v w : Paper) (key j : Key)
      → IsSwept key v w
      → hit_order mark w j ≡ (if key_eq key j then none else hit_order mark v j)
  IsSwept-hit_order v w key j s =
      rw (s.positions j, s.protective j)
        (hit_of_cut (key_eq key j) (find j v.positions) (find j v.protective) (hit_order mark v j)
          refl)

  -- A hit after a pass was a hit before it, at another key.
  IsSwept-hit :
      (v w : Paper) (key j : Key) (order : ProtectiveOrder)
      → IsSwept key v w
      → hit_order mark w j ≡ some order
      → (key_eq key j ≡ false) × (hit_order mark v j ≡ some order)
  IsSwept-hit v w key j order s h =
      let e = IsSwept-hit_order v w key j s in
      elim (Bool-cases (key_eq key j)) [
        | inl same ↦ absurd (none_apart order (sym (rw same at e) ∙ h))
        | inr other ↦ (other, sym (rw other at e) ∙ h)
      ]

  module _ (symbol : Text) where
    closed-IsFresh :
        (v w : Paper) (key : Key) (order : ProtectiveOrder)
        → text_eq key.symbol symbol ≡ true
        → IsFresh symbol mark v
        → hit_order mark v key ≡ some order
        → IsSwept key v w
        → IsClosed key (trigger_id order) v w
        → IsFresh symbol mark w
    closed-IsFresh v w key order on fresh e s c = record {
      unused = λ j o at_symbol h.
          let (other, old) = IsSwept-hit v w key j o s h in
          rw (c.fills, lookup-insert)
            (elim (Bool-cases (text_eq (trigger_id order) (trigger_id o))) [
              | inl same ↦
                  let k =
                    fresh.apart key j order o on at_symbol e old
                      (text_eq→eq (trigger_id order) (trigger_id o) same) in
                  absurd (other_key key j other k)
              | inr new ↦ rw new (fresh.unused j o at_symbol old)
            ]);
      apart = λ k j o p a b h g.
          fresh.apart k j o p a b (IsSwept-hit v w key k o s h).1 (IsSwept-hit v w key j p s g).1;
    }

    pass_lem :
        (v : Paper) (key : Key)
        → text_eq key.symbol symbol ≡ true
        → IsFresh symbol mark v
        → IsSwept key v (trigger_key platform mark key v)
          × IsFresh symbol mark (trigger_key platform mark key v)
    unfolding fire_first
    pass_lem v key on fresh = rw trigger_key-fire (elim (Option-cases (hit_order mark v key)) [
      | inl e ↦ rw e (unhit-IsSwept v key e, fresh)
      | inr (order, e) ↦
          let (position, found) =
            hit_of-some (find key v.positions) (find key v.protective) order e in
          let w = fire platform v mark key order in
          let c = fire-IsClosed v key order position found (fresh.unused key order on e) in
          let s = hit-IsSwept v w key (trigger_id order) order e c in
          rw e (s, closed-IsFresh v w key order on fresh e s c)
    ])

    pub trigger_keys_lem :
        (keys : List Key) (v : Paper)
        → All (λ key. text_eq key.symbol symbol ≡ true) keys
        → IsFresh symbol mark v
        → (j : Key)
        → find j (trigger_keys platform mark keys v).positions
          ≡ (if holds_key j keys && is_some (hit_order mark v j) then none else find j v.positions)
    unfolding trigger_keys
    trigger_keys_lem [] v on fresh j = refl
    trigger_keys_lem (key ∷ keys) v on fresh j =
        let w = trigger_key platform mark key v in
        let (s, fresh') = pass_lem v key on.0 fresh in
        let rest = trigger_keys_lem keys w on.1 fresh' j in
        rest ∙ rw (IsSwept-hit_order v w key j s, s.positions j) (ground arith)
