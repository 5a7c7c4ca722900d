-- ===== src/Tracker/Once.antt =====
-- internal/riskstate/tracker.go: a close that is reported again.
use mathlib.Core.Path.{subst}
use cyp_agent.Base.{
  ℕ, ◌≡◌, refl, ap, ◌∙◌, Bool, true, false, not, Option, none, some, if◌then◌else◌, Text,
  text_eq_refl, codes, arith,
}
use cyp_agent.Decimal.{Decimal}
use cyp_agent.Models.{ExecutionResult, Position, filled}
use cyp_agent.Orders.{status_eq}
use cyp_agent.Tracker.{
  TradeRecord, PersistedState, Repository, closed_by, close_record, has_trade_locked, first_trade,
}
use cyp_agent.Tracker.Record.{
  Answer, recorded, nothing, commit, record_close, close_priced, close_at, recorded_or,
}
use cyp_agent.Tracker.Newest.{
  closed_by-IsNewest, recorded_eq, nothing_apart, first-has, newest-WasRecorded, WasRecorded, shut,
}

module _ (store : Repository) where
  open store use {Disk}

  -- The answer for an execution whose close is among the trades.
  answer_again :
      (has_repository : Bool) (step reference : Text) (position : Position)
      (execution : ExecutionResult) (equity price : Decimal) (now : ℕ) (state : PersistedState)
      (disk : Disk) (trade : TradeRecord)
      → status_eq execution.status filled ≡ true
      → execution.avg_price ≡ some price
      → has_trade_locked execution.client_id (codes "close") state.trades ≡ true
      → first_trade execution.client_id (codes "close") state.trades ≡ some trade
      → record_close store has_repository step reference position execution equity now state disk
        ≡ (recorded trade true, state, disk)
  unfolding record_close
  answer_again has_repository step reference position execution equity price now state disk trade s
        p h f =
      rw (s, p, h, f) refl

  module _ (has_repository : Bool) (step reference : Text) (position : Position)
      (execution : ExecutionResult) (equity : Decimal) (now : ℕ) (state after : PersistedState)
      (disk saved : Disk) (trade : TradeRecord) where
    abbrev Goal : Type 0
    Goal = WasRecorded execution after.trades trade

    abbrev result : Answer × PersistedState × Disk
    result = (recorded trade true, after, saved)

    abbrev fresh : Decimal → Answer × PersistedState × Disk
    fresh price =
        close_at store has_repository step reference position execution equity now state disk price

    abbrev new_trade : Decimal → TradeRecord
    new_trade price = close_record reference position execution price now

    -- A trade that was booked now is there if it was saved.
    by_save :
        (price : Decimal) (ok : Bool)
        → status_eq execution.status filled ≡ true
        → execution.avg_price ≡ some price
        → has_trade_locked execution.client_id shut state.trades ≡ false
        → recorded (new_trade price) ok ≡ recorded trade true
        → (if ok then closed_by (new_trade price) equity now state else state) ≡ after
        → Goal
    unfolding close_record
    by_save price false s p h e a =
        absurd (ground (arith, (recorded_eq (new_trade price) trade false true e).1))
    by_save price true s p h e a =
        subst (λ t. WasRecorded execution after.trades t)
          (recorded_eq (new_trade price) trade true true e).0
          (subst (λ x. WasRecorded execution x.trades (new_trade price)) a
            (newest-WasRecorded execution price (new_trade price) _ s p
              (ground (arith, text_eq_refl execution.client_id))
              (closed_by-IsNewest (new_trade price) equity now state h)))

    -- A trade that was booked before is there as well.
    by_has :
        (price : Decimal) (has : Bool)
        → status_eq execution.status filled ≡ true
        → execution.avg_price ≡ some price
        → has_trade_locked execution.client_id shut state.trades ≡ has
        → (if has
            then recorded_or store state disk
                (fresh price)
                (first_trade execution.client_id shut state.trades)
            else fresh price)
          ≡ result
        → Goal
    unfolding commit
    by_has price false s p has h = by_save price _ s p has (ap (λ r. r.0) h) (ap (λ r. r.1) h)
    by_has price true s p has h =
        let (t, first) = first-has execution.client_id shut state.trades has in
        let known : (recorded t true, state, disk) ≡ result = rw first at h in
        let same = (recorded_eq t trade true true (ap (λ r. r.0) known)).0 in
        let kept : state ≡ after = ap (λ r. r.1) known in
        subst (λ x. WasRecorded execution x.trades trade) kept
          (record {
            is_filled = s;
            price = price;
            priced = p;
            has = has;
            first = first ∙ ap some same;
          })

    by_price :
        (price : Option Decimal)
        → status_eq execution.status filled ≡ true
        → execution.avg_price ≡ price
        → close_priced store has_repository step reference position execution equity now state disk
            price
          ≡ result
        → Goal
    by_price none s p h = absurd (nothing_apart trade true (ap (λ r. r.0) h))
    by_price (some price) s p h =
        by_has price (has_trade_locked execution.client_id shut state.trades) s p refl h

    by_status :
        (b : Bool)
        → status_eq execution.status filled ≡ b
        → (if not b
            then (nothing, state, disk)
            else close_priced store has_repository step reference position execution equity now
                state disk execution.avg_price)
          ≡ result
        → Goal
    by_status false s h = absurd (nothing_apart trade true (ap (λ r. r.0) h))
    by_status true s h = by_price execution.avg_price s refl h

    record_close-WasRecorded :
        record_close store has_repository step reference position execution equity now state disk
          ≡ (recorded trade true, after, saved)
        → WasRecorded execution after.trades trade
    unfolding record_close
    record_close-WasRecorded h = by_status (status_eq execution.status filled) refl h

  -- If `RecordClose` returns a trade and no error, then the same execution reported once more before
  -- any other call, with whatever reference, position, equity and time, returns that trade and
  -- changes neither the state nor what is saved.
  pub record_close_once :
      (has_repository : Bool) (step reference again : Text) (position other : Position)
      (execution : ExecutionResult) (equity later : Decimal) (now once_more : ℕ)
      (state after : PersistedState) (disk saved : Disk) (trade : TradeRecord)
      → record_close store has_repository step reference position execution equity now state disk
        ≡ (recorded trade true, after, saved)
      → record_close store has_repository step again other execution later once_more after saved
        ≡ (recorded trade true, after, saved)
  record_close_once has_repository step reference again position other execution equity later now
        once_more state after disk saved trade h =
      let was =
        record_close-WasRecorded has_repository step reference position execution equity now state
          after disk saved trade h in
      answer_again has_repository step again other execution later was.price once_more after saved
        trade was.is_filled was.priced was.has was.first
