-- ===== src/Tracker/Record.antt =====
-- internal/riskstate/tracker.go: the calls that change a tracker and save its state.
use cyp_agent.Base.{ℕ, Bool, true, not, Option, none, some, if◌then◌else◌, Text, codes}
use cyp_agent.Decimal.{Decimal, is_positive}
use cyp_agent.Models.{filled, TradeProposal, ExecutionResult, Position}
use cyp_agent.Orders.{status_eq}
use cyp_agent.Tracker.{
  TradeRecord, PersistedState, Repository, observe_locked, has_trade_locked, first_trade,
  close_record, opened, closed_by, is_fill,
}

pub data Answer : Type 0 where
  done : Answer
  failed_save : Answer
  -- The trade of `RecordClose`, whether the save failed, and no trade.
  recorded : TradeRecord → Bool → Answer
  nothing : Answer

-- A tracker: its repository, if any, the step of its checkpoint and its state.
module _ (store : Repository) where
  open store use {Disk, save_checkpoint}

  -- `persistLocked`, which reports whether there was no error.
  unfoldable pub persist_locked : Bool → Text → Disk → PersistedState → Bool × Disk
  persist_locked has_repository step disk state =
      if has_repository then save_checkpoint disk step state else (true, disk)

  -- The end of an operation: the new state if it was saved, and else the one before.
  unfoldable pub commit :
      Bool → Text → Disk → PersistedState → PersistedState → Bool × PersistedState × Disk
  commit has_repository step disk before state =
      let (saved, disk') = persist_locked has_repository step disk state in
      (saved, if saved then state else before, disk')

  abbrev pub answer_saved : Bool × PersistedState × Disk → Answer × PersistedState × Disk
  answer_saved (saved, state, disk) = (if saved then done else failed_save, state, disk)

  abbrev pub answer_trade :
      TradeRecord → Bool × PersistedState × Disk → Answer × PersistedState × Disk
  answer_trade trade (saved, state, disk) = (recorded trade saved, state, disk)

  -- `ObserveEquity`.
  unfoldable pub observe_equity :
      Bool → Text → Decimal → ℕ → PersistedState → Disk → Answer × PersistedState × Disk
  observe_equity has_repository step equity now state disk =
      if not (is_positive equity)
      then (done, state, disk)
      else answer_saved (commit has_repository step disk state (observe_locked equity now state))

  -- `RecordOpen`.
  unfoldable pub record_open :
      Bool
      → Text
      → Text
      → TradeProposal
      → ExecutionResult
      → Decimal
      → ℕ
      → PersistedState
      → Disk
      → Answer × PersistedState × Disk
  record_open has_repository step run_id proposal execution equity now state disk =
      if not (is_fill execution)
      then (done, state, disk)
      else if has_trade_locked execution.client_id (codes "open") state.trades
      then (done, state, disk)
      else answer_saved (
          commit has_repository step disk state (opened run_id proposal execution equity now state))

  abbrev pub close_at :
      Bool
      → Text
      → Text
      → Position
      → ExecutionResult
      → Decimal
      → ℕ
      → PersistedState
      → Disk
      → Decimal
      → Answer × PersistedState × Disk
  close_at has_repository step reference position execution equity now state disk price =
      let trade = close_record reference position execution price now in
      answer_trade trade (commit has_repository step disk state (closed_by trade equity now state))

  -- The answer for a trade that the loop finds, and else another answer.
  abbrev pub recorded_or :
      PersistedState
      → Disk
      → Answer × PersistedState × Disk
      → Option TradeRecord
      → Answer × PersistedState × Disk
  recorded_or state disk fresh none = fresh
  recorded_or state disk fresh (some trade) = (recorded trade true, state, disk)

  -- `RecordClose`, of an execution with a price.
  abbrev pub close_priced :
      Bool
      → Text
      → Text
      → Position
      → ExecutionResult
      → Decimal
      → ℕ
      → PersistedState
      → Disk
      → Option Decimal
      → Answer × PersistedState × Disk
  close_priced has_repository step reference position execution equity now state disk none =
      (nothing, state, disk)
  close_priced has_repository step reference position execution equity now state disk (some price) =
      if has_trade_locked execution.client_id (codes "close") state.trades
      then recorded_or state disk
          (close_at has_repository step reference position execution equity now state disk price)
          (first_trade execution.client_id (codes "close") state.trades)
      else close_at has_repository step reference position execution equity now state disk price

  unfoldable pub record_close :
      Bool
      → Text
      → Text
      → Position
      → ExecutionResult
      → Decimal
      → ℕ
      → PersistedState
      → Disk
      → Answer × PersistedState × Disk
  record_close has_repository step reference position execution equity now state disk =
      if not (status_eq execution.status filled)
      then (nothing, state, disk)
      else close_priced has_repository step reference position execution equity now state disk
          execution.avg_price
