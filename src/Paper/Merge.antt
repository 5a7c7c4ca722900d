-- ===== src/Paper/Merge.antt =====
-- internal/venue/paper.go: the orders that `conservativeProtectiveOrders` keeps protect a position
-- as well as all of those that it was given.
use cyp_agent.Base.{
  ◌+◌, ◌≤◌, ◌≡◌, refl, sym, ◌∙◌, ◌≢◌, if_both, text_eq_refl, ◌⊎◌, inl, inr, Bool, true, false, ◌||◌,
  not, Option, none, some, List, [], ◌∷◌, ◌++◌, arith, if◌then◌else◌, All, All-append, length,
  is_some,
}
use cyp_agent.Int.{ℤ}
use cyp_agent.Decimal.{Decimal, cmp, cmp_ℤ, gt_zero, lt_zero}
use cyp_agent.Decimal.Exact.{IsScaled, places, units}
use cyp_agent.Decimal.Compare.{cmp-units}
use cyp_agent.Models.{Side, long, short, flat, other_side, ProtectiveOrder, Position}
use cyp_agent.Paper.Protect.{
  is_stop, is_take, stop_loss_kind, take_profit_kind, tighter_stop, nearer_take, choose_kind,
  choose, choose_all, listed, conservative_protective, protective_hit,
}
use cyp_agent.Paper.Trigger.{first_hit}

higher_ℤ :
    (a b m : ℤ)
    → not (gt_zero (cmp_ℤ m (if gt_zero (cmp_ℤ a b) then a else b)))
      ≡ (not (gt_zero (cmp_ℤ m b)) || not (gt_zero (cmp_ℤ m a)))
unfolding cmp_ℤ
higher_ℤ a b m = ground arith

lower_ℤ :
    (a b m : ℤ)
    → not (lt_zero (cmp_ℤ m (if lt_zero (cmp_ℤ a b) then a else b)))
      ≡ (not (lt_zero (cmp_ℤ m b)) || not (lt_zero (cmp_ℤ m a)))
unfolding cmp_ℤ
lower_ℤ a b m = ground arith

module _ (a b m : Decimal) (sa : IsScaled a) (sb : IsScaled b) (sm : IsScaled m) where
  -- A price is at most the higher of two exactly when it is at most one of them.
  higher :
      (if gt_zero (cmp a b) then not (gt_zero (cmp m a)) else not (gt_zero (cmp m b)))
      ≡ (not (gt_zero (cmp m b)) || not (gt_zero (cmp m a)))
  higher =
      let k = places a + places b + places m in
      rw
        (
          cmp-units k a b sa sb (omega arith) (omega arith),
          cmp-units k m a sm sa (omega arith) (omega arith),
          cmp-units k m b sm sb (omega arith) (omega arith),
        )
        (ground (arith, higher_ℤ (units k a) (units k b) (units k m)))

  lower :
      (if lt_zero (cmp a b) then not (lt_zero (cmp m a)) else not (lt_zero (cmp m b)))
      ≡ (not (lt_zero (cmp m b)) || not (lt_zero (cmp m a)))
  lower =
      let k = places a + places b + places m in
      rw
        (
          cmp-units k a b sa sb (omega arith) (omega arith),
          cmp-units k m a sm sa (omega arith) (omega arith),
          cmp-units k m b sm sb (omega arith) (omega arith),
        )
        (ground (arith, lower_ℤ (units k a) (units k b) (units k m)))

-- A stop loss or a take profit at a price that is scaled.
pub record IsTrigger (order : ProtectiveOrder) : Type 0 where
  pub kind : (order.kind ≡ stop_loss_kind) ⊎ (order.kind ≡ take_profit_kind)
  pub scaled : IsScaled order.trigger_price

abbrev hit_by : Side → Decimal → Option ProtectiveOrder → Bool
hit_by side mark none = false
hit_by side mark (some order) = protective_hit side order mark

abbrev any_of : Side → Decimal → Option ProtectiveOrder × Option ProtectiveOrder → Bool
any_of side mark (stop, take) = hit_by side mark stop || hit_by side mark take

false_apart : false ≢ true
false_apart h = cc

-- What the two kept orders are.
abbrev IsStop : Option ProtectiveOrder → Type 0
IsStop none = Unit
IsStop (some order) = (is_stop order ≡ true) × IsScaled order.trigger_price

abbrev IsTake : Option ProtectiveOrder → Type 0
IsTake none = Unit
IsTake (some order) =
    (is_stop order ≡ false) × (is_take order ≡ true) × IsScaled order.trigger_price

module _ (mark : Decimal) (scaled : IsScaled mark) where
  stop_step :
      (side : Side) (order : ProtectiveOrder) (stop : Option ProtectiveOrder)
      → (side ≡ long) ⊎ (side ≡ short)
      → is_stop order ≡ true
      → IsScaled order.trigger_price
      → IsStop stop
      → hit_by side mark (if tighter_stop side order stop then some order else stop)
        ≡ (hit_by side mark stop || protective_hit side order mark)
  unfolding protective_hit
  stop_step side order none d s t h = refl
  stop_step long order (some stop) d s t h =
      ground (arith, higher order.trigger_price stop.trigger_price mark t h.1 scaled)
  stop_step short order (some stop) d s t h =
      ground (arith, lower order.trigger_price stop.trigger_price mark t h.1 scaled)
  stop_step flat order (some stop) d s t h = elim d [ inl e ↦ cc | inr e ↦ cc ]
  stop_step (other_side name) order (some stop) d s t h = elim d [ inl e ↦ cc | inr e ↦ cc ]

  take_step :
      (side : Side) (order : ProtectiveOrder) (take : Option ProtectiveOrder)
      → (side ≡ long) ⊎ (side ≡ short)
      → is_stop order ≡ false
      → IsScaled order.trigger_price
      → IsTake take
      → hit_by side mark (if nearer_take side order take then some order else take)
        ≡ (hit_by side mark take || protective_hit side order mark)
  unfolding protective_hit
  take_step side order none d s t h = refl
  take_step long order (some take) d s t h =
      ground (arith, lower order.trigger_price take.trigger_price mark t h.2 scaled)
  take_step short order (some take) d s t h =
      ground (arith, higher order.trigger_price take.trigger_price mark t h.2 scaled)
  take_step flat order (some take) d s t h = elim d [ inl e ↦ cc | inr e ↦ cc ]
  take_step (other_side name) order (some take) d s t h = elim d [ inl e ↦ cc | inr e ↦ cc ]

abbrev AreKept : Option ProtectiveOrder × Option ProtectiveOrder → Type 0
AreKept (stop, take) = IsStop stop × IsTake take

-- The kind of a trigger, as the two tests see it.
abbrev IsKind : Bool → Bool → ProtectiveOrder → Type 0
IsKind stops takes order =
    (is_stop order ≡ stops) × (is_take order ≡ takes) × ((stops || takes) ≡ true)

IsTrigger-IsKind :
    (order : ProtectiveOrder) → IsTrigger order → IsKind (is_stop order) (is_take order) order
IsTrigger-IsKind order h = (
  refl,
  refl,
  elim h.kind [
    | inl e ↦ rw (e, text_eq_refl stop_loss_kind) refl
    | inr e ↦ rw (e, text_eq_refl take_profit_kind) refl
  ],
)

choose_kind-AreKept :
    (stops takes : Bool) (side : Side) (order : ProtectiveOrder)
    (kept : Option ProtectiveOrder × Option ProtectiveOrder)
    → IsKind stops takes order
    → IsScaled order.trigger_price
    → AreKept kept
    → AreKept (choose_kind stops takes side order kept)
choose_kind-AreKept true takes side order (stop, take) k h (s, t) =
    (if_both IsStop (tighter_stop side order stop) (some order) stop (k.0, h) s, t)
choose_kind-AreKept false true side order (stop, take) k h (s, t) =
    (s, if_both IsTake (nearer_take side order take) (some order) take (k.0, k.1, h) t)
choose_kind-AreKept false false side order (stop, take) k h (s, t) = (s, t)

-- Some order of the list is hit.
abbrev any_hit : Side → Decimal → List ProtectiveOrder → Bool
any_hit side mark [] = false
any_hit side mark (order ∷ orders) = protective_hit side order mark || any_hit side mark orders

module _ (side : Side) (directed : (side ≡ long) ⊎ (side ≡ short)) (mark : Decimal)
    (scaled : IsScaled mark) where
  choose_kind_any :
      (stops takes : Bool) (order : ProtectiveOrder)
      (kept : Option ProtectiveOrder × Option ProtectiveOrder)
      → IsKind stops takes order
      → IsScaled order.trigger_price
      → AreKept kept
      → any_of side mark (choose_kind stops takes side order kept)
        ≡ (any_of side mark kept || protective_hit side order mark)
  choose_kind_any true takes order (stop, take) k h (s, t) =
      ground (arith, stop_step mark scaled side order stop directed k.0 h s)
  choose_kind_any false true order (stop, take) k h (s, t) =
      ground (arith, take_step mark scaled side order take directed k.0 h t)
  choose_kind_any false false order (stop, take) k h (s, t) = absurd (false_apart k.2)

  choose_all_any :
      (orders : List ProtectiveOrder) (kept : Option ProtectiveOrder × Option ProtectiveOrder)
      → All IsTrigger orders
      → AreKept kept
      → any_of side mark (choose_all side orders kept)
        ≡ (any_of side mark kept || any_hit side mark orders)
  unfolding choose_all choose
  choose_all_any [] kept h k = ground arith
  choose_all_any (order ∷ orders) kept (first, rest) k =
      let next = choose side order kept in
      let kind = IsTrigger-IsKind order first in
      let stops = is_stop order in
      let takes = is_take order in
      ground (
        arith,
        choose_all_any orders next rest
            (choose_kind-AreKept stops takes side order kept kind first.scaled k),
        choose_kind_any stops takes order kept kind first.scaled k,
      )

first_hit-any_hit :
    (position : Position) (mark : Decimal) (orders : List ProtectiveOrder)
    → is_some (first_hit position mark orders) ≡ any_hit position.side mark orders
unfolding first_hit
first_hit-any_hit position mark [] = refl
first_hit-any_hit position mark (order ∷ orders) =
    ground (arith, first_hit-any_hit position mark orders)

listed-any_hit :
    (side : Side) (mark : Decimal) (kept : Option ProtectiveOrder × Option ProtectiveOrder)
    → any_hit side mark (listed kept.0 ++ listed kept.1) ≡ any_of side mark kept
listed-any_hit side mark (none, none) = refl
listed-any_hit side mark (none, some take) = ground arith
listed-any_hit side mark (some stop, none) = ground arith
listed-any_hit side mark (some stop, some take) = ground arith

listed-length :
    (kept : Option ProtectiveOrder × Option ProtectiveOrder)
    → length (listed kept.0 ++ listed kept.1) ≤ 2
listed-length (none, none) = omega arith
listed-length (none, some take) = omega arith
listed-length (some stop, none) = omega arith
listed-length (some stop, some take) = omega arith

-- For a long or a short position, and stop losses and take profits at prices whose scale is between
-- 0 and 2^31 - 1: the orders that an add-on keeps are at most two, and a mark price of such a scale
-- triggers one of them exactly when it triggers one of the orders that stood before or came with
-- the add-on.
pub conservative_protective-hits :
    (position : Position) (mark : Decimal) (existing added : List ProtectiveOrder)
    → (position.side ≡ long) ⊎ (position.side ≡ short)
    → IsScaled mark
    → All IsTrigger existing
    → All IsTrigger added
    → (length (conservative_protective position.side existing added) ≤ 2)
      × (is_some (first_hit position mark (conservative_protective position.side existing added))
          ≡ is_some (first_hit position mark (existing ++ added)))
unfolding conservative_protective
conservative_protective-hits position mark existing added d scaled h k =
    let side = position.side in
    let orders = existing ++ added in
    let kept = choose_all side orders (none, none) in
    (
      listed-length kept,
      first_hit-any_hit position mark (listed kept.0 ++ listed kept.1)
          ∙ listed-any_hit side mark kept
          ∙ choose_all_any side d mark scaled orders (none, none)
              (All-append IsTrigger existing added h k) (tt, tt)
          ∙ sym (first_hit-any_hit position mark orders),
    )
