-- ===== src/Runtime/Safety.antt =====
-- internal/runtime/safety.go: the state that forbids new positions until a reconciliation succeeds.
-- A nil `*SafetyState` is `none`; of the report only `OK` is read, of an error only that there is
-- one.
use cyp_agent.Base.{
  ℕ, ◌+◌, ◌%◌, ◌^◌, Bool, true, false, not, Option, none, some, [], ◌∷◌, ◌==◌, if◌then◌else◌, Text,
  codes, trim_space, text_eq, ◌||◌, ◌&&◌,
}
use cyp_agent.Runtime.Mode.{
  ExecutionTarget, paper_mode, live_mode, RuntimeState, resolve_mode_policy, validate_execution,
  execution_target,
}

pub record SafetyState : Type 0 where
  pub frozen : Bool
  pub reason : Text
  pub reconcile_active : Bool
  pub freeze_generation : ℕ
  pub reconcile_generation : ℕ
  pub last_reconciled : ℕ

pub record SafetySnapshot : Type 0 where
  pub is_frozen : Bool
  pub why : Text
  pub last : ℕ
  pub active : Bool

pub data SafetyError : Type 0 where
  live_execution_disabled kill_switch_error reconciliation_failed : SafetyError
  reconciliation_frozen : Text → SafetyError

unfoldable pub new_safety_state : SafetyState
new_safety_state = record {
  frozen = true;
  reason = codes "startup reconciliation required";
  reconcile_active = false;
  freeze_generation = 0;
  reconcile_generation = 0;
  last_reconciled = 0;
}

unfoldable pub begin_reconcile : SafetyState → SafetyState
begin_reconcile state = record state {
  frozen = true;
  reason = codes "reconciliation in progress";
  reconcile_active = true;
  reconcile_generation = state.freeze_generation;
}

-- `CompleteReconcile` on a state; `failed` says whether the error is set, `now` is the clock.
unfoldable pub complete_reconcile : ℕ → Bool → Bool → SafetyState → Option SafetyError × SafetyState
complete_reconcile now report_ok failed state =
    let ended = record state { reconcile_active = false } in
    if not (state.freeze_generation == state.reconcile_generation)
    then (
      some (reconciliation_frozen (codes "a newer safety freeze occurred during reconciliation")),
      ended,
    )
    else if failed
    then (
      some reconciliation_failed,
      record ended { frozen = true; reason = codes "reconciliation failed" },
    )
    else if not report_ok
    then (
      some reconciliation_failed,
      record ended {
        frozen = true;
        reason = codes "reconciliation reported unresolved differences";
      },
    )
    else (none, record ended { frozen = false; reason = []; last_reconciled = now })

-- `CompleteReconcile` on a nil state.
abbrev pub complete_nil : SafetyError
complete_nil = reconciliation_frozen []

abbrev or_manual : Text → Text
or_manual [] = codes "manually frozen"
or_manual (c ∷ s) = c ∷ s

unfoldable pub freeze : Text → SafetyState → SafetyState
freeze reason state = record state {
  frozen = true;
  reason = or_manual (trim_space reason);
  freeze_generation = (state.freeze_generation + 1) % 2 ^ 64;
}

unfoldable pub snapshot : Option SafetyState → SafetySnapshot
snapshot none = record {
  is_frozen = true;
  why = codes "safety state is unavailable";
  last = 0;
  active = false;
}
snapshot (some state) = record {
  is_frozen = state.frozen;
  why = state.reason;
  last = state.last_reconciled;
  active = state.reconcile_active;
}

unfoldable pub check_new_position : (ℕ → ℕ) → Option SafetyState → RuntimeState → Option SafetyError
check_new_position lower state runtime = elim (resolve_mode_policy lower runtime.mode) [
  | none ↦ some live_execution_disabled
  | some policy ↦
      let seen = snapshot state in
      if not (validate_execution policy (execution_target runtime))
      then some live_execution_disabled
      else if runtime.kill
      then some kill_switch_error
      else if seen.is_frozen
      then some (reconciliation_frozen seen.why)
      else none
]

-- `ValidateExecutionVenue` on the identity of the venue; `none` is a nil venue, `false` an error.
unfoldable pub validate_execution_venue : Option ExecutionTarget → Bool
validate_execution_venue none = false
validate_execution_venue (some target) =
    validate_execution paper_mode target || validate_execution live_mode target

-- `ValidatePaperVenue`.
unfoldable pub validate_paper_venue : Text → Text → Bool
validate_paper_venue kind id = text_eq kind (codes "paper") && text_eq id (codes "paper")
