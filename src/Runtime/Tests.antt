-- ===== src/Runtime/Tests.antt =====
-- The modes and the safety state on sample accounts.
use cyp_agent.Base.{
  ◌↔◌, none, ℕ, ◌≡◌, refl, true, false, not, some, List, [], ◌∷◌, codes, arith, trim_space,
}
use cyp_agent.Runtime.Mode.{
  paper_mode, ExecutionTarget, cex, demo, validate_execution, RuntimeState, resolve_mode_policy,
  execution_target,
}
use cyp_agent.Runtime.Isolation.{risk_state_scope-separates}
use cyp_agent.Runtime.Safety.{SafetyState, new_safety_state, check_new_position}
use cyp_agent.Runtime.Authority.{
  Call, begin_call, complete_call, freeze_call, run_calls, meaning, nothing_yet, run_calls-meaning,
  check_new_position-meaning,
}

abbrev okx_demo : ExecutionTarget
okx_demo = record { venue_id = codes "okx"; kind = cex; environment = demo; writable = true }

risk_state_scope-separates_example : (paper_mode ≡ paper_mode) × (okx_demo ≡ okx_demo)
unfolding validate_execution
risk_state_scope-separates_example =
    risk_state_scope-separates paper_mode paper_mode okx_demo okx_demo refl refl refl

-- A freeze while a reconciliation runs, and a second, clean one.
abbrev calls : List Call
calls =
    begin_call
    ∷ freeze_call []
    ∷ complete_call 4 true false
    ∷ begin_call
    ∷ complete_call 5 true false
    ∷ []

authorized_now : (meaning calls nothing_yet).authorized ≡ true
unfolding meaning
authorized_now = refl

run_calls-meaning_example :
    (run_calls calls new_safety_state).frozen ≡ not (meaning calls nothing_yet).authorized
run_calls-meaning_example = run_calls-meaning calls (omega arith)

abbrev same_rune : ℕ → ℕ
same_rune c = c

abbrev paper_runtime : RuntimeState
paper_runtime = record {
  mode = codes " paper";
  execution_venue = codes "paper";
  execution_demo = false;
  execution_live = false;
  kill = false;
}

abbrev reconciled : SafetyState
reconciled = record {
  frozen = false;
  reason = [];
  reconcile_active = false;
  freeze_generation = 0;
  reconcile_generation = 0;
  last_reconciled = 5;
}

check_new_position-meaning_example :
    (check_new_position same_rune (some (run_calls calls new_safety_state)) paper_runtime ≡ none)
    ↔ ((validate_execution paper_mode (execution_target paper_runtime) ≡ true)
        × (false ≡ false)
        × ((meaning calls nothing_yet).authorized ≡ true))
unfolding resolve_mode_policy trim_space
check_new_position-meaning_example =
    check_new_position-meaning same_rune calls paper_runtime paper_mode (omega arith) refl
