-- ===== src/Tracker/Calls.antt =====
-- internal/riskstate/tracker.go: the calls of a tracker one after another, each under its mutex.
use cyp_agent.Base.{ℕ, Bool, List, [], ◌∷◌, Text, Dict}
use cyp_agent.Decimal.{Decimal}
use cyp_agent.Models.{TradeProposal, ExecutionResult, Position}
use cyp_agent.Tracker.{PersistedState, Repository}
use cyp_agent.Tracker.Record.{Answer, observe_equity, record_open, record_close}
use cyp_agent.Tracker.Reconcile.{OpenState, reconcile_positions}

-- A call with its clock.
pub data Call : Type 0 where
  observe_call : Decimal → ℕ → Call
  open_call : Text → TradeProposal → ExecutionResult → Decimal → ℕ → Call
  close_call : Text → Position → ExecutionResult → Decimal → ℕ → Call
  reconcile_call : List Position → ℕ → Call

-- A property of the equity that a call reports.
abbrev pub Reports : (Decimal → Type 0) → Call → Type 0
Reports P (observe_call equity now) = P equity
Reports P (open_call run_id proposal execution equity now) = P equity
Reports P (close_call reference position execution equity now) = P equity
Reports P (reconcile_call positions now) = Unit

-- A tracker that has a repository or none, and the orders in which it walks its maps.
pub record Setting : Type 0 where
  pub has_repository : Bool
  pub step : Text
  pub upper : ℕ → ℕ
  pub walk_states : Dict OpenState → Dict OpenState
  pub walk_active : Dict Position → Dict Position

module _ (store : Repository) (setting : Setting) where
  open store use {Disk}

  unfoldable pub answer_call : Call → PersistedState → Disk → Answer × PersistedState × Disk
  answer_call (observe_call equity now) state disk =
      observe_equity store setting.has_repository setting.step equity now state disk
  answer_call (open_call run_id proposal execution equity now) state disk =
      record_open store setting.has_repository setting.step run_id proposal execution equity now
        state disk
  answer_call (close_call reference position execution equity now) state disk =
      record_close store setting.has_repository setting.step reference position execution equity now
        state disk
  answer_call (reconcile_call positions now) state disk =
      reconcile_positions store setting.has_repository setting.step setting.upper
        setting.walk_states setting.walk_active positions now state disk

  unfoldable pub run_calls : List Call → PersistedState → Disk → PersistedState × Disk
  run_calls [] state disk = (state, disk)
  run_calls (call ∷ rest) state disk =
      let (answer, state', disk') = answer_call call state disk in run_calls rest state' disk'
