-- ===== src/Runtime/Authority.antt =====
-- Only a reconciliation without a freeze since it began authorizes new positions.
use cyp_agent.Base.{
  ℕ, suc, ◌+◌, ◌^◌, ◌≤◌, ◌<◌, ◌≡◌, refl, Bool, true, false, ◌&&◌, not, none, some, List, [], ◌∷◌,
  ◌==◌, if◌then◌else◌, Text, ◌↔◌, arith,
}
use cyp_agent.Runtime.Mode.{
  RuntimeState, ModePolicy, validate_execution, execution_target, resolve_mode_policy,
}
use cyp_agent.Runtime.Safety.{
  SafetyState, new_safety_state, begin_reconcile, complete_reconcile, freeze, snapshot,
  check_new_position,
}

-- The calls that change the state.
pub data Call : Type 0 where
  begin_call : Call
  complete_call : ℕ → Bool → Bool → Call
  freeze_call : Text → Call

abbrev call_once : Call → SafetyState → SafetyState
call_once begin_call state = begin_reconcile state
call_once (complete_call now report_ok failed) state =
    (complete_reconcile now report_ok failed state).1
call_once (freeze_call reason) state = freeze reason state

unfoldable pub run_calls : List Call → SafetyState → SafetyState
run_calls [] state = state
run_calls (c ∷ rest) state = run_calls rest (call_once c state)

abbrev pub count_freezes : List Call → ℕ
count_freezes [] = 0
count_freezes (freeze_call _ ∷ rest) = suc (count_freezes rest)
count_freezes (_ ∷ rest) = count_freezes rest

-- What the calls mean, without generations: whether a freeze has come since a reconciliation last
-- began, and whether new positions are authorized.
pub record Meaning : Type 0 where
  pub frozen_since : Bool
  pub authorized : Bool

abbrev mean_once : Call → Meaning → Meaning
mean_once begin_call m = record { frozen_since = false; authorized = false }
mean_once (complete_call now report_ok failed) m =
    if m.frozen_since then m else record m { authorized = report_ok && not failed }
mean_once (freeze_call reason) m = record { frozen_since = true; authorized = false }

unfoldable pub meaning : List Call → Meaning → Meaning
meaning [] m = m
meaning (c ∷ rest) m = meaning rest (mean_once c m)

abbrev pub nothing_yet : Meaning
nothing_yet = record { frozen_since = false; authorized = false }

-- The generations count the freezes, n of them so far.
record Agrees (n : ℕ) (state : SafetyState) (m : Meaning) : Type 0 where
  counted : state.freeze_generation ≡ n
  behind : state.reconcile_generation ≤ n
  since : (state.freeze_generation == state.reconcile_generation) ≡ not m.frozen_since
  opened : state.frozen ≡ not m.authorized
  sound : m.frozen_since ≡ true → m.authorized ≡ false

begin-Agrees :
    (n : ℕ) (state : SafetyState) (m : Meaning)
    → Agrees n state m
    → Agrees n (call_once begin_call state) (mean_once begin_call m)
unfolding begin_reconcile
begin-Agrees n state m a = record {
  counted = a.counted;
  behind = ground arith;
  since = ground arith;
  opened = refl;
  sound = λ h. refl;
}

complete-Agrees :
    (n now : ℕ) (ok failed : Bool) (state : SafetyState) (m : Meaning)
    → Agrees n state m
    → Agrees n
        (call_once (complete_call now ok failed) state)
        (mean_once (complete_call now ok failed) m)
unfolding complete_reconcile
complete-Agrees n now ok failed state m a = record {
  counted = ground arith;
  behind = ground arith;
  since = ground arith;
  opened = ground arith;
  sound = ground arith;
}

freeze-Agrees :
    (n : ℕ) (reason : Text) (state : SafetyState) (m : Meaning)
    → suc n < 2 ^ 64
    → Agrees n state m
    → Agrees (suc n) (call_once (freeze_call reason) state) (mean_once (freeze_call reason) m)
unfolding freeze
freeze-Agrees n reason state m small a = record {
  counted = ground arith;
  behind = ground arith;
  since = ground arith;
  opened = refl;
  sound = λ h. refl;
}

run_calls-Agrees :
    (n : ℕ) (calls : List Call) (state : SafetyState) (m : Meaning)
    → n + count_freezes calls < 2 ^ 64
    → Agrees n state m
    → (run_calls calls state).frozen ≡ not (meaning calls m).authorized
unfolding run_calls meaning
run_calls-Agrees n [] state m small a = a.opened
run_calls-Agrees n (begin_call ∷ rest) state m small a =
    run_calls-Agrees n rest (call_once begin_call state) (mean_once begin_call m) small
      (begin-Agrees n state m a)
run_calls-Agrees n (complete_call now ok failed ∷ rest) state m small a =
    let c = complete_call now ok failed in
    run_calls-Agrees n rest (call_once c state) (mean_once c m) small
      (complete-Agrees n now ok failed state m a)
run_calls-Agrees n (freeze_call reason ∷ rest) state m small a =
    let c = freeze_call reason in
    run_calls-Agrees (suc n) rest (call_once c state) (mean_once c m) (omega (arith, small))
      (freeze-Agrees n reason state m (omega (arith, small)) a)

-- After any calls with fewer than 2^64 freezes, the state is frozen exactly when the calls do not
-- authorize new positions: a completed reconciliation authorizes them if its report is clean, it
-- has no error and no freeze came since the last one began; a freeze or a new reconciliation takes
-- the authority away, and so does a completed one that is not clean.
pub run_calls-meaning :
    (calls : List Call)
    → count_freezes calls < 2 ^ 64
    → (run_calls calls new_safety_state).frozen ≡ not (meaning calls nothing_yet).authorized
unfolding new_safety_state
run_calls-meaning calls small =
    run_calls-Agrees 0 calls new_safety_state nothing_yet (omega (arith, small)) (record {
      counted = refl;
      behind = omega arith;
      since = refl;
      opened = refl;
      sound = λ h. refl;
    })

-- After any calls with fewer than 2^64 freezes, and in a mode that is known, `CheckNewPosition` lets
-- a position through exactly when the mode accepts the target, the kill switch is off and the calls
-- authorize new positions: the last completed reconciliation that counts was clean, and neither a
-- freeze nor a new reconciliation came after it.
pub check_new_position-meaning :
    (lower : ℕ → ℕ) (calls : List Call) (runtime : RuntimeState) (policy : ModePolicy)
    → count_freezes calls < 2 ^ 64
    → resolve_mode_policy lower runtime.mode ≡ some policy
    → (check_new_position lower (some (run_calls calls new_safety_state)) runtime ≡ none) ↔ (
        (validate_execution policy (execution_target runtime) ≡ true)
        × (runtime.kill ≡ false)
        × ((meaning calls nothing_yet).authorized ≡ true))
unfolding check_new_position snapshot
check_new_position-meaning lower calls runtime policy small known =
    ground (arith, run_calls-meaning calls small)
