-- ===== src/Paper/Cash.antt =====
-- internal/venue/paper.go: an order that opens or adds is paid from the cash that is there.
use cyp_agent.Base.{
  ℕ, ◌+◌, ◌-◌, ◌^◌, ◌≤◌, ◌<◌, ◌≡◌, refl, sym, ◌∙◌, Bool, true, false, ◌&&◌, ◌||◌, not, Option, none,
  some, List, [], ◌∷◌, arith, Text, if_both, lookup, ltb,
}
use cyp_agent.Int.{ℤ, pos_part, neg_part, ◌-ℤ◌, -ℤ_parts, *ℤ_pos_part, *ℤ_neg_part}
use cyp_agent.Decimal.{
  Decimal, DecimalError, Result, ok, err, cmp_ℤ, sub, is_negative, is_positive, lt_zero,
}
use cyp_agent.Decimal.Exact.{IsScaled, places, units, units-sub}
use cyp_agent.Decimal.Compare.{cmp-units, pow_pos, ltb-mul}
use cyp_agent.Paper.Place.{
  is_side, Placed, commit, finish, open_with, next_position, orders_at, open_order, place_reported,
  place_new, place_once, place, is_blank, affordable, open_terms, Terms,
}
use cyp_agent.Paper.Check.{Check, passes, refuses, fails, Gives}
use cyp_agent.Decimal.Places.{IsWithin, IsWithin-IsScaled}
use cyp_agent.Models.{OrderIntent, Position, ProtectiveOrder, ExecutionResult}
use cyp_agent.Risk.{Platform}
use cyp_agent.Paper.{
  Paper, Report, is_flat, key_of, next_id, remember_rejected, resolve_side, normalize_intent,
  preflight_locked,
}
use cyp_agent.Paper.Cost.{IsPaid, open_terms-IsPaid}
use cyp_agent.Paper.Keys.{find}
use cyp_agent.Paper.Protect.{make_takes, make_stop, make_protective}

module _ (k : ℕ) (d : Decimal) where
  is_negative-units : is_negative d ≡ ltb 0 (neg_part (units k d))
  unfolding units
  is_negative-units =
      let m = 10 ^ (k - places d) in
      let p : 0 < m = pow_pos (k - places d) in
      rw *ℤ_neg_part (ground (arith, ltb-mul 0 (neg_part d.coefficient) m p))

  is_positive-units : is_positive d ≡ ltb 0 (pos_part (units k d))
  unfolding units
  is_positive-units =
      let m = 10 ^ (k - places d) in
      let p : 0 < m = pow_pos (k - places d) in
      rw *ℤ_pos_part (ground (arith, ltb-mul 0 (pos_part d.coefficient) m p))

paid_ℤ :
    (free required : ℤ)
    → ltb 0 (neg_part free) ≡ false
    → not (ltb 0 (pos_part required) && lt_zero (cmp_ℤ free required)) ≡ true
    → ltb 0 (neg_part (free -ℤ required)) ≡ false
unfolding cmp_ℤ
paid_ℤ free required h g = ground (arith, -ℤ_parts free required)

-- What is paid is at most the cash.
sub-nonneg :
    (free required : Decimal)
    → IsScaled free
    → IsScaled required
    → is_negative free ≡ false
    → affordable free required ≡ true
    → is_negative (sub free required) ≡ false
sub-nonneg free required v w h g =
    let k = places free + places required + places (sub free required) in
    let e = cmp-units k free required v w (omega arith) (omega arith) in
    rw
      (
        is_negative-units k (sub free required),
        units-sub k free required v w (omega arith) (omega arith),
      )
      (paid_ℤ (units k free) (units k required) (sym (is_negative-units k free) ∙ h)
        (rw (e, is_positive-units k required) at g))

abbrev Solvent : Paper × Placed → Type 0
Solvent (w, answer) = is_negative w.free_quote ≡ false

make_takes-free :
    (intent : OrderIntent) (prices : List Decimal) (v : Paper)
    → (make_takes intent prices v).0.free_quote ≡ v.free_quote
unfolding make_takes next_id
make_takes-free intent [] v = refl
make_takes-free intent (price ∷ prices) v = make_takes-free intent prices _

make_stop-free :
    (intent : OrderIntent) (price : Option Decimal) (v : Paper)
    → (make_stop intent price v).0.free_quote ≡ v.free_quote
unfolding make_stop next_id
make_stop-free intent none v = refl
make_stop-free intent (some price) v = refl

make_protective-free :
    (v : Paper) (intent : OrderIntent) → (make_protective v intent).0.free_quote ≡ v.free_quote
unfolding make_protective
make_protective-free v intent =
    make_takes-free intent intent.take_profit _ ∙ make_stop-free intent intent.stop_loss v

finish-Solvent :
    (w : Paper) (intent : OrderIntent) (report : Report) (terms : Terms)
    (check : Check (Position × List ProtectiveOrder))
    → is_negative w.free_quote ≡ false
    → is_negative (sub w.free_quote terms.required) ≡ false
    → Solvent (finish w intent report terms check)
unfolding commit next_id remember_rejected
finish-Solvent w intent report terms (fails e) h g = h
finish-Solvent w intent report terms (refuses message) h g = h
finish-Solvent w intent report terms (passes (position, protective)) h g = g

module _ (platform : Platform) (describe : DecimalError → Text) (n : ℕ) (few : 28 ≤ n)
    (many : n + n < 2 ^ 31) (v : Paper) (rated : IsWithin n v.fee_rate)
    (scaled : IsScaled v.free_quote) (solvent : is_negative v.free_quote ≡ false)
    (intent : OrderIntent) (sized : IsWithin n intent.size_quote) where
  open_with-Solvent :
      (report : Report) (check : Check Terms)
      → Gives (IsPaid n v) check
      → Solvent (open_with v intent report check)
  unfolding remember_rejected
  open_with-Solvent report (fails e) h = solvent
  open_with-Solvent report (refuses message) h = solvent
  open_with-Solvent report (passes terms) (paid, within) =
      let w = (make_protective v intent).0 in
      let e = make_protective-free v intent in
      let left =
        sub-nonneg v.free_quote terms.required scaled
          (IsWithin-IsScaled (n + n) terms.required many within) solvent paid in
      let next =
        next_position (find (key_of intent) v.positions)
          (orders_at (find (key_of intent) v.protective)) intent report terms
          (make_protective v intent).1 in
      finish-Solvent w intent report terms next (rw e solvent) (rw e left)

  place_reported-Solvent :
      (report : Result Report)
      → (intent.reduce_only || is_flat intent.side) ≡ false
      → Solvent (place_reported platform describe v intent report)
  unfolding remember_rejected open_order
  place_reported-Solvent (err e) opens = solvent
  place_reported-Solvent (ok report) opens = if_both Solvent (not report.passed) _ _ solvent (
      rw opens (
        open_with-Solvent report (open_terms platform describe v intent report)
          (open_terms-IsPaid platform describe n few many intent sized v report rated)))

  place_new-Solvent :
      (intent.reduce_only || is_flat intent.side) ≡ false
      → Solvent (place_new platform describe v intent)
  unfolding place_new
  place_new-Solvent opens =
      place_reported-Solvent (preflight_locked platform describe v intent) opens

opening :
    (v : Paper) (intent : OrderIntent)
    → intent.reduce_only ≡ false
    → is_side intent.side ≡ true
    → resolve_side v (normalize_intent intent) ≡ normalize_intent intent
unfolding resolve_side normalize_intent
opening v intent e s = ground arith

opening_flags :
    (intent : OrderIntent)
    → intent.reduce_only ≡ false
    → is_side intent.side ≡ true
    → ((normalize_intent intent).reduce_only || is_flat (normalize_intent intent).side) ≡ false
unfolding normalize_intent
opening_flags intent e s = ground arith

place_once-Solvent :
    (platform : Platform) (describe : DecimalError → Text) (v : Paper) (intent : OrderIntent)
    (found : Option ExecutionResult)
    → is_negative v.free_quote ≡ false
    → Solvent (place_new platform describe v (resolve_side v (normalize_intent intent)))
    → Solvent (place_once platform describe v intent found)
place_once-Solvent platform describe v intent none solvent h = h
place_once-Solvent platform describe v intent (some result) solvent h = solvent

-- An order on the long or the short side that is not reduce-only never takes the cash below zero,
-- whatever the market, the position that it adds to and the outcome: if the cash is not negative
-- before a call of `Place`, it is not negative after it. The size and the fee rate have at most n
-- places, for some n between 28 and 2^30 - 1, and the scale of the cash is between 0 and 2^31 - 1.
pub place_solvent :
    (platform : Platform) (describe : DecimalError → Text) (n : ℕ) (v : Paper) (done : Bool)
    (intent : OrderIntent)
    → 28 ≤ n
    → n + n < 2 ^ 31
    → IsWithin n v.fee_rate
    → IsScaled v.free_quote
    → is_negative v.free_quote ≡ false
    → IsWithin n intent.size_quote
    → intent.reduce_only ≡ false
    → is_side intent.side ≡ true
    → is_negative (place platform describe v done intent).0.free_quote ≡ false
unfolding place
place_solvent platform describe n v done intent few many rated scaled solvent sized e s =
    let i = normalize_intent intent in
    let opened : Solvent (place_new platform describe v (resolve_side v i)) =
      rw (opening v intent e s) (
        place_new-Solvent platform describe n few many v rated scaled solvent i
          (unfold normalize_intent in sized) (opening_flags intent e s)) in
    if_both Solvent done _ _ solvent (
      if_both Solvent (is_blank intent.client_id) _ _ solvent (
        place_once-Solvent platform describe v intent (lookup intent.client_id v.fills) solvent
          opened))
