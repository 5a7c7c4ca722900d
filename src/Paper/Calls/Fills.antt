-- ===== src/Paper/Calls/Fills.antt =====
-- What each part of the simulated venue does to the recorded fills.
use mathlib.Core.Path.{subst}
use cyp_agent.Base.{
  ◌≡◌, refl, ap, ◌∙◌, not, ◌||◌, Option, none, some, List, [], ◌∷◌, Text, Dict, insert, if_both,
}
use cyp_agent.Decimal.{Decimal, DecimalError, Result, ok, err}
use cyp_agent.Models.{OrderIntent, ProtectiveOrder, ExecutionResult, Position}
use cyp_agent.Risk.{Platform}
use cyp_agent.Paper.Keys.{Key, find}
use cyp_agent.Paper.{
  Paper, Report, next_id, remember_rejected, settle, close_position, close_found, close_at_price,
  preflight_locked, is_flat, key_of,
}
use cyp_agent.Paper.Protect.{make_stop, make_takes, make_protective}
use cyp_agent.Paper.Check.{Check, passes, refuses, fails}
use cyp_agent.Paper.Place.{
  placed_with, finish, open_with, closed_with, place_reported, join_reasons, Placed, placed,
  place_failed, place_new, commit, open_order, open_terms, next_position, orders_at, Terms,
}

next_id-fills : (prefix : Text) (v : Paper) → (next_id prefix v).0.fills ≡ v.fills
unfolding next_id
next_id-fills prefix v = refl

make_stop-fills :
    (intent : OrderIntent) (price : Option Decimal) (v : Paper)
    → (make_stop intent price v).0.fills ≡ v.fills
unfolding make_stop
make_stop-fills intent none v = refl
make_stop-fills intent (some price) v = next_id-fills _ v

make_takes-fills :
    (intent : OrderIntent) (prices : List Decimal) (v : Paper)
    → (make_takes intent prices v).0.fills ≡ v.fills
unfolding make_takes next_id
make_takes-fills intent [] v = refl
make_takes-fills intent (price ∷ prices) v = make_takes-fills intent prices _

make_protective-fills :
    (v : Paper) (intent : OrderIntent) → (make_protective v intent).0.fills ≡ v.fills
unfolding make_protective
make_protective-fills v intent =
    make_takes-fills intent intent.take_profit _ ∙ make_stop-fills intent intent.stop_loss v

module _ (platform : Platform) (v : Paper) (key : Key) (price : Decimal) (client_id : Text) where
  close_position-fills :
      (position : Position) (order_id : Text)
      → (close_position platform v key position price client_id order_id).0.fills ≡ v.fills
  unfolding close_position settle next_id
  close_position-fills position [] = refl
  close_position-fills position (c ∷ s) = refl

  close_found-fills :
      (order_id : Text) (found : Option Position)
      → (close_found platform v key price client_id order_id found).0.fills ≡ v.fills
  close_found-fills order_id none = refl
  close_found-fills order_id (some position) = close_position-fills position order_id

  pub close_at_price-fills :
      (order_id : Text) → (close_at_price platform v key price client_id order_id).0.fills ≡ v.fills
  unfolding close_at_price
  close_at_price-fills order_id = close_found-fills order_id (find key v.positions)

-- A call of `Place` records its result under the client id, and nothing else; a failure records
-- nothing.
abbrev pub Records : Dict ExecutionResult → Text → Paper × Placed → Type 0
Records fills id (w, placed result) = w.fills ≡ insert id result fills
Records fills id (w, place_failed e) = w.fills ≡ fills

module _ (platform : Platform) (describe : DecimalError → Text) where
  remember_rejected-Records :
      (v : Paper) (id message : Text)
      → Records v.fills id (placed_with (remember_rejected v id message))
  unfolding remember_rejected
  remember_rejected-Records v id message = refl

  finish-Records :
      (v : Paper) (intent : OrderIntent) (report : Report) (terms : Terms)
      (check : Check (Position × List ProtectiveOrder))
      → Records v.fills intent.client_id (finish v intent report terms check)
  finish-Records v intent report terms (fails e) = refl
  finish-Records v intent report terms (refuses message) =
      remember_rejected-Records v intent.client_id message
  finish-Records v intent report terms (passes (position, protective)) =
      unfold commit next_id in refl

  open_with-Records :
      (v : Paper) (intent : OrderIntent) (report : Report) (check : Check Terms)
      → Records v.fills intent.client_id (open_with v intent report check)
  open_with-Records v intent report (fails e) = refl
  open_with-Records v intent report (refuses message) =
      remember_rejected-Records v intent.client_id message
  open_with-Records v intent report (passes terms) =
      let w = (make_protective v intent).0 in
      let attached = (make_protective v intent).1 in
      let next =
        next_position (find (key_of intent) v.positions)
          (orders_at (find (key_of intent) v.protective)) intent report terms attached in
      subst (λ fills. Records fills intent.client_id (finish w intent report terms next))
        (make_protective-fills v intent) (finish-Records w intent report terms next)

  close-Records :
      (v : Paper) (id : Text) (closed : Paper × ExecutionResult)
      → closed.0.fills ≡ v.fills
      → Records v.fills id (closed_with id closed)
  close-Records v id (w, result) h = ap (insert id result) h

  place_reported-Records :
      (v : Paper) (intent : OrderIntent) (report : Result Report)
      → Records v.fills intent.client_id (place_reported platform describe v intent report)
  unfolding open_order
  place_reported-Records v intent (err e) = refl
  place_reported-Records v intent (ok report) =
      let P = λ (r : Paper × Placed). Records v.fills intent.client_id r in
      let closed = close_at_price platform v (key_of intent) report.est_price intent.client_id [] in
      if_both P (not report.passed) _ _
        (remember_rejected-Records v intent.client_id (join_reasons report.reasons))
        (if_both P (intent.reduce_only || is_flat intent.side) _ _
          (close-Records v intent.client_id closed
            (close_at_price-fills platform v (key_of intent) report.est_price intent.client_id []))
          (open_with-Records v intent report (open_terms platform describe v intent report)))

  pub place_new-Records :
      (v : Paper) (intent : OrderIntent)
      → Records v.fills intent.client_id (place_new platform describe v intent)
  unfolding place_new
  place_new-Records v intent =
      place_reported-Records v intent (preflight_locked platform describe v intent)
