-- ===== src/Approval/Calls.antt =====
-- Calls of `Decide` that wait while the gate is used by others: every interleaving of the steps
-- that the lock and the channels of internal/approval/pending.go order.
pub mod Live
pub mod Steps
pub mod Faithful
use cyp_agent.Base.{ℕ, Bool, Option, none, some, List, [], ◌∷◌, ◌==◌, if◌then◌else◌, Text}
use cyp_agent.Models.{Float, TradeProposal, ApprovalRequest}
use cyp_agent.Risk.Assess.{Assessment}
use cyp_agent.Approval.{
  Gate, DecisionResult, Outcome, done, failed_with, begin_decide, resolve, receive, give_up,
}

-- A call of `Decide` that has passed its checks.
pub record Call : Type 0 where
  pub run_id : Text
  pub proposal : TradeProposal

-- The gate with the calls that wait and those that have returned, by the address of their entry.
pub record System : Type 0 where
  pub gate : Gate
  pub waiting : ℕ → Option Call
  pub returned : ℕ → Option (Call × DecisionResult)

abbrev pub set_at {ℓ} : {A : Type ℓ} → ℕ → A → (ℕ → A) → ℕ → A
set_at address value f a = if a == address then value else f a

abbrev pub start : Gate → System
start gate = record { gate = gate; waiting = λ a. none; returned = λ a. none }

-- Someone calls `Decide` or `Resolve`, a waiting call takes the result of its channel, or it is
-- woken by its timer or its context.
pub data Action : Type 0 where
  ask : Text → TradeProposal → Assessment → Action
  answer : ℕ → Text → ApprovalRequest → Action
  wake : ℕ → Action
  time_out : ℕ → Text → ℕ → Action

abbrev pub asked : Text → TradeProposal → Outcome ℕ × Gate → System → System
asked run_id proposal (failed_with e, gate) system = record system { gate = gate }
asked run_id proposal (done address, gate) system = record system {
  gate = gate;
  waiting = set_at address (some (record { run_id = run_id; proposal = proposal })) system.waiting;
}

-- A `Resolve` that blocks on its send would stop the system.
abbrev pub answered : {A : Type 0} → Option (A × Gate) → System → System
answered none system = system
answered (some (e, gate)) system = record system { gate = gate }

abbrev pub leave : ℕ → Call → Option (DecisionResult × Gate) → System → System
leave address call none system = system
leave address call (some (result, gate)) system = record system {
  gate = gate;
  waiting = set_at address none system.waiting;
  returned = set_at address (some (call, result)) system.returned;
}

unfoldable pub step : (Float → Float → Bool) → Action → System → System
step differs (ask run_id proposal assessment) system =
    asked run_id proposal (begin_decide differs run_id proposal assessment system.gate) system
step differs (answer now run_id request) system =
    answered (resolve now run_id request system.gate) system
step differs (wake address) system = elim (system.waiting address) [
  | none ↦ system
  | some call ↦ leave address call (receive address system.gate) system
]
step differs (time_out now note address) system = elim (system.waiting address) [
  | none ↦ system
  | some call ↦
      leave address call (give_up now note call.run_id address call.proposal system.gate) system
]

unfoldable pub run : (Float → Float → Bool) → List Action → System → System
unfolding step
run differs [] system = system
run differs (action ∷ rest) system = run differs rest (step differs action system)
