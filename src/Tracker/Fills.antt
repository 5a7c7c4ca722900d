-- ===== src/Tracker/Fills.antt =====
-- internal/riskstate/tracker.go: the realized profit is that of the fills that the calls recorded.
use mathlib.Core.Path.{subst}
use cyp_agent.Base.{
  if_both, ℕ, ◌≡◌, refl, sym, Bool, true, false, ◌&&◌, not, Option, none, some, List, [], ◌∷◌, ◌++◌,
  if◌then◌else◌, Text, codes, All, append-nil,
}
use cyp_agent.Decimal.{Decimal, is_positive, sub}
use cyp_agent.Decimal.Exact.{IsScaled}
use cyp_agent.Models.{TradeProposal, ExecutionResult, Position, filled}
use cyp_agent.Orders.{status_eq}
use cyp_agent.Tracker.{
  TradeRecord, PersistedState, Repository, trim_locked, observe_locked, record_order_locked, opened,
  closed_by, open_record, close_record, has_trade_locked, first_trade, is_fill, max_trades,
}
use cyp_agent.Tracker.Record.{
  persist_locked, Answer, done, failed_save, recorded, nothing, commit, observe_equity, record_open,
  record_close, close_priced, close_at, recorded_or,
}
use cyp_agent.Tracker.Reconcile.{reconcile_positions, append_repairs, repairs, repaired}
use cyp_agent.Tracker.Restore.{new_state}
use cyp_agent.Tracker.Calls.{
  Call, observe_call, open_call, close_call, reconcile_call, Reports, Setting, answer_call,
  run_calls,
}
use cyp_agent.Tracker.Ledger.{
  append_assoc, HasLedger, booked, observed, trim_to-HasLedger, append-HasLedger, repairs-observed,
}
use cyp_agent.Tracker.Newest.{first-has, shut}
use cyp_agent.Tracker.Invariant.{IsValid, run_calls-IsValid}

-- The fill of a call that is answered without an error.
abbrev pub if_done : Answer → TradeRecord → List TradeRecord
if_done done fill = fill ∷ []
if_done _ fill = []

abbrev pub if_recorded : Answer → List TradeRecord
if_recorded (recorded fill true) = fill ∷ []
if_recorded _ = []

-- The fill that a call records on a state, as its arguments and its answer show it: an opening that
-- is a fill and not yet held, or the trade of a close that is not yet held.
unfoldable pub call_fills : Call → PersistedState → Answer → List TradeRecord
call_fills (observe_call equity now) s answer = []
call_fills (open_call run_id proposal execution equity now) s answer =
    if is_fill execution && not (has_trade_locked execution.client_id (codes "open") s.trades)
    then if_done answer (open_record run_id proposal execution now)
    else []
call_fills (close_call reference position execution equity now) s answer =
    if has_trade_locked execution.client_id (codes "close") s.trades then [] else if_recorded answer
call_fills (reconcile_call positions now) s answer = []

abbrev Books : List TradeRecord → PersistedState → Type 0
Books fills s = HasLedger fills s.realized_pnl s.trades

new_state-Books : (initial : Decimal) (now : ℕ) → Books [] (new_state initial now)
unfolding new_state booked observed
new_state-Books initial now = record { sums = refl; latest = ([], refl) }

observe_locked-Books :
    (fills : List TradeRecord) (equity : Decimal) (now : ℕ) (s : PersistedState)
    → Books fills s
    → Books fills (observe_locked equity now s)
unfolding observe_locked trim_locked
observe_locked-Books fills equity now s v =
    trim_to-HasLedger fills s.realized_pnl max_trades s.trades v

opened-Books :
    (fills : List TradeRecord) (run_id : Text) (proposal : TradeProposal)
    (execution : ExecutionResult) (equity : Decimal) (now : ℕ) (s : PersistedState)
    → Books fills s
    → Books
        (fills ++ (open_record run_id proposal execution now ∷ []))
        (opened run_id proposal execution equity now s)
unfolding opened open_record booked observed sub observe_locked trim_locked record_order_locked
opened-Books fills run_id proposal execution equity now s v =
    let fill = open_record run_id proposal execution now in
    trim_to-HasLedger _ _ max_trades _ (
      trim_to-HasLedger _ _ max_trades _
        (append-HasLedger fills s.realized_pnl s.trades (fill ∷ []) v))

closed_by-Books :
    (fills : List TradeRecord) (reference : Text) (position : Position)
    (execution : ExecutionResult) (price equity : Decimal) (now : ℕ) (s : PersistedState)
    → Books fills s
    → let fill = close_record reference position execution price now in
      Books (fills ++ (fill ∷ [])) (closed_by fill equity now s)
unfolding closed_by close_record booked observed observe_locked trim_locked record_order_locked
closed_by-Books fills reference position execution price equity now s v =
    let fill = close_record reference position execution price now in
    trim_to-HasLedger _ _ max_trades _ (
      trim_to-HasLedger _ _ max_trades _
        (append-HasLedger fills s.realized_pnl s.trades (fill ∷ []) v))

repaired-Books :
    (fills records : List TradeRecord) (s : PersistedState)
    → observed records ≡ []
    → Books fills s
    → Books fills (repaired records s)
unfolding trim_locked booked
repaired-Books fills records s none_seen v =
    trim_to-HasLedger fills s.realized_pnl max_trades (s.trades ++ records) (
      subst (λ l. HasLedger l s.realized_pnl (s.trades ++ records)) (append-nil fills)
        (subst (λ o. HasLedger (fills ++ o) (booked s.realized_pnl o) (s.trades ++ records))
          none_seen (append-HasLedger fills s.realized_pnl s.trades records v)))

-- A call that books nothing.
no_fill : (fills : List TradeRecord) (s : PersistedState) → Books fills s → Books (fills ++ []) s
no_fill fills s v = subst (λ l. Books l s) (sym (append-nil fills)) v

-- A close that is booked if it was saved.
saved_close :
    (fills : List TradeRecord) (s t : PersistedState) (fill : TradeRecord)
    → Books fills s
    → Books (fills ++ (fill ∷ [])) t
    → (ok : Bool) → Books (fills ++ if_recorded (recorded fill ok)) (if ok then t else s)
saved_close fills s t fill v w true = w
saved_close fills s t fill v w false = no_fill fills s v

module _ (store : Repository) (setting : Setting) where
  open store use {Disk}

  -- The fills that a run records, in the order of the calls.
  unfoldable pub run_fills : List Call → PersistedState → Disk → List TradeRecord
  run_fills [] s disk = []
  run_fills (call ∷ rest) s disk =
      let (answer, s', disk') = answer_call store setting call s disk in
      call_fills call s answer ++ run_fills rest s' disk'

  observe_call-Books :
      (fills : List TradeRecord) (equity : Decimal) (now : ℕ) (s : PersistedState) (disk : Disk)
      → Books fills s
      → Books fills (observe_equity store setting.has_repository setting.step equity now s disk).1
  unfolding observe_equity commit
  observe_call-Books fills equity now s disk v =
      if_both (λ (r : Answer × PersistedState × Disk). Books fills r.1) (not (is_positive equity))
        (done, s, disk) _ v
        (if_both (Books fills) saved (observe_locked equity now s) s
          (observe_locked-Books fills equity now s v) v)
    where
      saved : Bool
      saved =
          (persist_locked store setting.has_repository setting.step disk
            (observe_locked equity now s)).0

  append_repairs-Books :
      (fills records : List TradeRecord) (s : PersistedState) (disk : Disk)
      → observed records ≡ []
      → Books fills s
      → Books fills (append_repairs store setting.has_repository setting.step s disk records).1
  unfolding commit
  append_repairs-Books fills [] s disk none_seen v = v
  append_repairs-Books fills (first ∷ rest) s disk none_seen v =
      if_both (Books fills) saved (repaired (first ∷ rest) s) s
        (repaired-Books fills (first ∷ rest) s none_seen v) v
    where
      saved : Bool
      saved =
          (persist_locked store setting.has_repository setting.step disk
            (repaired (first ∷ rest) s)).0

  close_call-Books :
      (fills : List TradeRecord) (reference : Text) (position : Position)
      (execution : ExecutionResult) (equity : Decimal) (now : ℕ) (s : PersistedState) (disk : Disk)
      → Books fills s
      → let r =
          record_close store setting.has_repository setting.step reference position execution equity
            now s disk in
        Books
          (fills
            ++ (if has_trade_locked execution.client_id (codes "close") s.trades
                then []
                else if_recorded r.0))
          r.1
  unfolding record_close commit
  close_call-Books fills reference position execution equity now s disk v =
      by_status (status_eq execution.status filled)
    where
      has : Bool
      has = has_trade_locked execution.client_id shut s.trades

      Booked : Answer × PersistedState × Disk → Type 0
      Booked r = Books (fills ++ (if has then [] else if_recorded r.0)) r.1

      fresh : Decimal → Answer × PersistedState × Disk
      fresh price =
          close_at store setting.has_repository setting.step reference position execution equity now
            s disk price

      nothing_booked : Booked (nothing, s, disk)
      nothing_booked =
          if_both (λ l. Books (fills ++ l) s) has [] [] (no_fill fills s v) (no_fill fills s v)

      by_held :
          (price : Decimal) (held : Bool)
          → has ≡ held
          → let r =
              if held
              then recorded_or store s disk
                  (fresh price)
                  (first_trade execution.client_id shut s.trades)
              else fresh price in
            Books (fills ++ (if held then [] else if_recorded r.0)) r.1
      by_held price true e =
          subst (λ o. Books (fills ++ []) (recorded_or store s disk (fresh price) o).1)
            (sym (first-has execution.client_id shut s.trades e).1) (no_fill fills s v)
      by_held price false e =
          let fill = close_record reference position execution price now in
          let t = closed_by fill equity now s in
          saved_close fills s t fill v
            (closed_by-Books fills reference position execution price equity now s v)
            (persist_locked store setting.has_repository setting.step disk t).0

      by_price :
          (price : Option Decimal)
          → Booked (
              close_priced store setting.has_repository setting.step reference position execution
                equity now s disk price)
      by_price none = nothing_booked
      by_price (some price) = by_held price has refl

      by_status :
          (is_filled : Bool)
          → Booked (
              if not is_filled
              then (nothing, s, disk)
              else close_priced store setting.has_repository setting.step reference position
                  execution equity now s disk execution.avg_price)
      by_status false = nothing_booked
      by_status true = by_price execution.avg_price

  answer_call-Books :
      (fills : List TradeRecord) (call : Call) (s : PersistedState) (disk : Disk)
      → Books fills s
      → let r = answer_call store setting call s disk in Books (fills ++ call_fills call s r.0) r.1
  unfolding answer_call call_fills record_open reconcile_positions commit
  answer_call-Books fills (observe_call equity now) s disk v =
      no_fill fills (observe_equity store setting.has_repository setting.step equity now s disk).1
        (observe_call-Books fills equity now s disk v)
  answer_call-Books fills (open_call run_id proposal execution equity now) s disk v =
      let t = opened run_id proposal execution equity now s in
      by_guards (is_fill execution) (has_trade_locked execution.client_id (codes "open") s.trades)
        (persist_locked store setting.has_repository setting.step disk t)
    where
      by_guards :
          (is_new held : Bool) (saved : Bool × Disk)
          → let t = opened run_id proposal execution equity now s in
            let r : Answer × PersistedState × Disk =
              if not is_new
              then (done, s, disk)
              else if held
              then (done, s, disk)
              else (if saved.0 then done else failed_save, if saved.0 then t else s, saved.1) in
            Books
              (fills
                ++ (if is_new && not held
                    then if_done r.0 (open_record run_id proposal execution now)
                    else []))
              r.1
      by_guards false held saved = no_fill fills s v
      by_guards true true saved = no_fill fills s v
      by_guards true false (true, disk') =
          opened-Books fills run_id proposal execution equity now s v
      by_guards true false (false, disk') = no_fill fills s v
  answer_call-Books fills (close_call reference position execution equity now) s disk v =
      close_call-Books fills reference position execution equity now s disk v
  answer_call-Books fills (reconcile_call positions now) s disk v =
      let records =
        repairs setting.upper setting.walk_states setting.walk_active positions now s.trades in
      no_fill fills (append_repairs store setting.has_repository setting.step s disk records).1 (
        append_repairs-Books fills records s disk
          (repairs-observed setting.upper setting.walk_states setting.walk_active positions now
            s.trades)
          v)

  run_calls-Books :
      (calls : List Call) (fills : List TradeRecord) (s : PersistedState) (disk : Disk)
      → Books fills s
      → Books (fills ++ run_fills calls s disk) (run_calls store setting calls s disk).0
  unfolding run_calls run_fills
  run_calls-Books [] fills s disk v = no_fill fills s v
  run_calls-Books (call ∷ rest) fills s disk v =
      let (answer, s', disk') = answer_call store setting call s disk in
      subst (λ l. Books l (run_calls store setting rest s' disk').0)
        (append_assoc fills (call_fills call s answer) (run_fills rest s' disk'))
        (run_calls-Books rest (fills ++ call_fills call s answer) s' disk'
          (answer_call-Books fills call s disk v))

  -- After any run of calls of a new tracker whose first equity and reported equities have scales
  -- between 0 and 2^31 - 1, whichever calls are refused or fail to be saved: no more than 512
  -- points and 1000 trades are held, the equity is at most its peak, the realized profit is the sum
  -- of the profits of the fills that the calls recorded, and the observed trades that are held are
  -- the last ones of these fills.
  pub run_calls-books :
      (initial : Decimal) (now : ℕ) (calls : List Call) (disk : Disk)
      → IsScaled initial
      → All (Reports IsScaled) calls
      → let start = new_state initial now in
        let state = (run_calls store setting calls start disk).0 in
        IsValid state × HasLedger (run_fills calls start disk) state.realized_pnl state.trades
  run_calls-books initial now calls disk scaled reports = (
    run_calls-IsValid store setting initial now calls disk scaled reports,
    run_calls-Books calls [] (new_state initial now) disk (new_state-Books initial now),
  )
