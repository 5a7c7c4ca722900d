-- ===== src/Approval/Tests.antt =====
-- The gate on a sample proposal that a person makes smaller.
use cyp_agent.Base.{
  ◌≡◌, ◌≢◌, refl, ℕ, Bool, true, false, none, some, List, [], ◌∷◌, codes, Text, dec_lt, trim_space,
  lookup, insert, erase,
}
use cyp_agent.Decimal.Text.{to_text, digits_text, digits_loop}
use cyp_agent.Models.{Float, approved, modify, ApprovalRequest}
use cyp_agent.Models.Validate.{
  validate_proposal, validate_assessment, validate_leverage_plan, validate_add_on, in_unit_range,
}
use cyp_agent.Risk.{literal}
use cyp_agent.Risk.Assess.{Assessment}
use cyp_agent.Samples.{btc_proposal, zero_float}
use cyp_agent.Approval.{
  DecisionResult, begin_decide, register, resolve, result_for, receive, send, give_up,
  remove_if_current, new_pending_gate,
}
use cyp_agent.Approval.Calls.{Call, Action, ask, answer, time_out, start, step, run}
use cyp_agent.Approval.Calls.Steps.{run-never_blocks}
use cyp_agent.Approval.Calls.Faithful.{IsFaithful, run-IsFaithful}

abbrev never_differs : Float → Float → Bool
never_differs x y = false

abbrev accepted : Assessment
accepted = record {
  verdict = approved;
  hard_violations = [];
  adjusted_size_quote = none;
  risk_score = zero_float;
  llm_reviewed = false;
}

abbrev to_1000 : ApprovalRequest
to_1000 = record {
  decision = modify;
  size = some (literal 100050 2);
  note = [];
  operator = codes " eve ";
}

abbrev session : List Action
session =
    ask (codes "r1") btc_proposal accepted
    ∷ ask (codes "r1") btc_proposal accepted
    ∷ answer 5 (codes "r1") to_1000
    ∷ time_out 6 (codes "late") 0
    ∷ []

abbrev smaller_result : DecisionResult
smaller_result = record {
  decision = record {
    decision = modify;
    modified = some (record btc_proposal { size_quote = literal 100050 2 });
    operator = codes "eve";
    ts = 5;
    note = codes "改规模至 1000.50";
  };
  final_proposal = record btc_proposal { size_quote = literal 100050 2 };
  requires_revalidation = true;
}

abbrev first_call : Call
first_call = record { run_id = codes "r1"; proposal = btc_proposal }

session_returns :
    (run never_differs session (start (new_pending_gate 0 (some [])))).returned 0
    ≡ some (first_call, smaller_result)
unfolding run step begin_decide register resolve result_for receive send give_up remove_if_current
    new_pending_gate validate_proposal validate_assessment validate_leverage_plan validate_add_on
    in_unit_range to_text digits_text digits_loop lookup insert erase trim_space dec_lt
session_returns = refl

run-IsFaithful_example : IsFaithful btc_proposal smaller_result
run-IsFaithful_example =
    run-IsFaithful never_differs session 0 (some []) 0 first_call smaller_result session_returns

run-never_blocks_example :
    ((now : ℕ) (note : Text) (a : ℕ) (call : Call)
      → (run never_differs session (start (new_pending_gate 0 (some [])))).waiting a ≡ some call
      → give_up now note call.run_id a call.proposal
          (run never_differs session (start (new_pending_gate 0 (some [])))).gate
        ≢ none)
    × ((now : ℕ) (run_id : Text) (request : ApprovalRequest)
        → resolve now run_id request
            (run never_differs session (start (new_pending_gate 0 (some [])))).gate
          ≢ none)
run-never_blocks_example = run-never_blocks never_differs session 0 (some [])
