-- ===== src/Paper/Stops.antt =====
-- internal/venue/paper.go: a new mark price closes exactly the positions whose orders it triggers.
use cyp_agent.Paper.Sweep.{hit_of, hit_order, IsFresh, holds_key, trigger_keys_lem}
use cyp_agent.Base.{
  else_eq, ◌≡◌, refl, sym, ap, ◌∙◌, Bool, true, ◌&&◌, ◌||◌, not, Option, none, some, List, [], ◌∷◌,
  arith, if◌then◌else◌, All, is_some, Text, text_eq, insert,
}
use cyp_agent.Decimal.{Decimal, is_positive}
use cyp_agent.Models.{ProtectiveOrder, Position}
use cyp_agent.Risk.{Platform}
use cyp_agent.Paper.Keys.{Key, KeyMap, find, key_eq, key_eq_iff}
use cyp_agent.Paper.{Paper}
use cyp_agent.Paper.Place.{is_blank}
use cyp_agent.Paper.Trigger.{
  trigger_keys, keys_of, insert_key, sort_keys, trigger_protective, set_mark_price,
}

holds_key-insert_key :
    (j key : Key) (keys : List Key)
    → holds_key j (insert_key key keys) ≡ (key_eq key j || holds_key j keys)
unfolding insert_key
holds_key-insert_key j key [] = refl
holds_key-insert_key j key (other ∷ keys) = ground (arith, holds_key-insert_key j key keys)

holds_key-sort_keys : (j : Key) (keys : List Key) → holds_key j (sort_keys keys) ≡ holds_key j keys
unfolding sort_keys
holds_key-sort_keys j [] = refl
holds_key-sort_keys j (key ∷ keys) =
    rw (holds_key-insert_key j key (sort_keys keys), holds_key-sort_keys j keys) refl

holds_key-keys_of :
    (j : Key) (symbol : Text) (positions : KeyMap Position)
    → holds_key j (keys_of symbol positions)
      ≡ (text_eq j.symbol symbol && is_some (find j positions))
unfolding keys_of find
holds_key-keys_of j symbol [] = ground arith
holds_key-keys_of j symbol ((key, position) ∷ positions) =
    ground (arith, holds_key-keys_of j symbol positions, key_eq_iff key j)

abbrev AllAt : Text → List Key → Type 0
AllAt symbol keys = All (λ key. text_eq key.symbol symbol ≡ true) keys

keys_of-AllAt :
    (symbol : Text) (positions : KeyMap Position) → AllAt symbol (keys_of symbol positions)
unfolding keys_of
keys_of-AllAt symbol [] = tt
keys_of-AllAt symbol ((key, position) ∷ positions) = ground (arith, keys_of-AllAt symbol positions)

insert_key-AllAt :
    (symbol : Text) (key : Key) (keys : List Key)
    → text_eq key.symbol symbol ≡ true
    → AllAt symbol keys
    → AllAt symbol (insert_key key keys)
unfolding insert_key
insert_key-AllAt symbol key [] e h = (e, tt)
insert_key-AllAt symbol key (other ∷ keys) e h =
    ground (arith, insert_key-AllAt symbol key keys e h.1)

sort_keys-AllAt :
    (symbol : Text) (keys : List Key) → AllAt symbol keys → AllAt symbol (sort_keys keys)
unfolding sort_keys
sort_keys-AllAt symbol [] h = tt
sort_keys-AllAt symbol (key ∷ keys) h =
    insert_key-AllAt symbol key (sort_keys keys) h.0 (sort_keys-AllAt symbol keys h.1)

hit_of-found :
    (mark : Decimal) (at_symbol : Bool) (found : Option Position)
    (orders : Option (List ProtectiveOrder))
    → (if (at_symbol && is_some found) && is_some (hit_of mark found orders) then none else found)
      ≡ (if at_symbol && is_some (hit_of mark found orders) then none else found)
hit_of-found mark at_symbol none orders = ground arith
hit_of-found mark at_symbol (some position) orders = ground arith

-- When `SetMarkPrice` accepts a price, and the fills that its triggered orders record are new and
-- differ between positions, then a position is gone afterwards exactly when it is of that symbol
-- and the price triggers one of its protective orders, a stop loss or a take profit; every other
-- position stands as before.
pub set_mark_price-closes :
    (platform : Platform) (v w : Paper) (symbol : Text) (price : Decimal)
    → set_mark_price platform v symbol price ≡ some w
    → IsFresh symbol price v
    → (key : Key)
    → find key w.positions ≡ (
        if text_eq key.symbol symbol && is_some (hit_order price v key)
        then none
        else find key v.positions)
unfolding set_mark_price trigger_protective
set_mark_price-closes platform v w symbol price h fresh key =
    let u = record v { marks = insert symbol price v.marks } in
    let keys = sort_keys (keys_of symbol v.positions) in
    let at_symbol =
      sort_keys-AllAt symbol (keys_of symbol v.positions) (keys_of-AllAt symbol v.positions) in
    let swept =
      trigger_keys_lem platform price symbol keys u at_symbol
        (record { unused = fresh.unused; apart = fresh.apart }) key in
    let same : trigger_keys platform price keys u ≡ w =
      else_eq (is_blank symbol || not (is_positive price)) _ w h in
    ap (λ (x : Paper). find key x.positions) (sym same)
    ∙ swept
    ∙ rw
        (
          holds_key-sort_keys key (keys_of symbol v.positions),
          holds_key-keys_of key symbol v.positions,
        )
        (hit_of-found price (text_eq key.symbol symbol) (find key v.positions)
          (find key v.protective))
