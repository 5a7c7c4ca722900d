-- ===== src/Approval/Calls/Faithful.antt =====
-- What a call of `Decide` may return: its own proposal, or that proposal with another size.
use cyp_agent.Base.{
  ℕ, ◌≡◌, refl, inl, inr, Bool, true, false, Option, none, some, List, [], ◌∷◌, ◌==◌, Text, lookup,
  erase, Option-cases, Bool-cases, arith,
}
use cyp_agent.Decimal.{is_positive}
use cyp_agent.Models.{Float, TradeProposal, ApprovalRequest}
use cyp_agent.Approval.{
  Gate, DecisionResult, PendingEntry, done, result_for, rejection, Announcement, add_entry,
  new_pending_gate, receive,
}
use cyp_agent.Risk.Assess.{Assessment}
use cyp_agent.Approval.Calls.{
  asked, Call, System, set_at, start, Action, ask, answer, wake, time_out, leave, step, run,
}
use cyp_agent.Approval.Calls.Live.{IsLive, begin_decide_result}
use cyp_agent.Approval.Calls.Steps.{
  resolve_result, give_up_result, answered_gate, step-IsLive, new_gate-IsLive,
}

-- Only the size of the proposal may differ; it does not without revalidation, and with it the new
-- size is positive.
pub record IsFaithful (proposal : TradeProposal) (result : DecisionResult) : Type 0 where
  pub only_size :
      result.final_proposal ≡ record proposal { size_quote = result.final_proposal.size_quote }
  pub kept : result.requires_revalidation ≡ false → result.final_proposal ≡ proposal
  pub positive :
      result.requires_revalidation ≡ true → is_positive result.final_proposal.size_quote ≡ true

result_for-IsFaithful :
    (gate : Gate) (now : ℕ) (proposal : TradeProposal) (request : ApprovalRequest)
    {result : DecisionResult}
    → result_for gate now proposal request ≡ done result
    → IsFaithful proposal result
unfolding result_for
result_for-IsFaithful gate now proposal request h = record {
  only_size = ground arith;
  kept = λ r. ground arith;
  positive = λ r. ground arith;
}

rejection-IsFaithful :
    (gate : Gate) (now : ℕ) (proposal : TradeProposal) (note : Text)
    → IsFaithful proposal (rejection gate now proposal note)
unfolding rejection
rejection-IsFaithful gate now proposal note = record {
  only_size = refl;
  kept = λ _. refl;
  positive = λ h. cc;
}

-- Results in the channels of waiting calls, and those that were returned.
record IsTrue (system : System) : Type 0 where
  sent :
      (a : ℕ) (call : Call) (result : DecisionResult)
      → system.waiting a ≡ some call
      → system.gate.channels a ≡ some result
      → IsFaithful call.proposal result
  back :
      (a : ℕ) (call : Call) (result : DecisionResult)
      → system.returned a ≡ some (call, result)
      → IsFaithful call.proposal result

module _ (system : System) (inv : IsLive system.gate system.waiting)
    (true_so_far : IsTrue system) where
  open true_so_far use {sent, back}

  asked-IsTrue :
      (run_id : Text) (proposal : TradeProposal) (assessment : Assessment)
      → IsTrue (
          asked run_id proposal
            (done system.gate.next_address, add_entry run_id proposal assessment system.gate)
            system)
  asked-IsTrue run_id proposal assessment = record {
    sent = λ a call result w c.
        sent a call result (ground (arith, inv.fresh system.gate.next_address)) c;
    back = back;
  }

  answered-IsTrue :
      (now : ℕ) (run_id : Text) (request : ApprovalRequest) (entry : PendingEntry)
      (result : DecisionResult)
      → lookup run_id system.gate.pending ≡ some entry
      → result_for system.gate now entry.proposal request ≡ done result
      → IsTrue (record system { gate = answered_gate run_id entry result system.gate })
  answered-IsTrue now run_id request entry result l r =
      let faithful =
        result_for-IsFaithful system.gate now entry.proposal request {result = result} r in
      record {
        sent = λ a call res w c. elim (Bool-cases (a == entry.address)) [
          | inl at ↦
              let owner = (inv.owned run_id entry l).0 in
              let p : call.proposal ≡ entry.proposal = ground arith in
              let q : res ≡ result = ground arith in rw (p, q) faithful
          | inr n ↦ sent a call res w (ground arith)
        ];
        back = back;
      }

  left-IsTrue :
      (a : ℕ) (call : Call) (result : DecisionResult) (gate : Gate)
      → ((b : ℕ) (r : DecisionResult)
          → (b == a) ≡ false
          → gate.channels b ≡ some r
          → system.gate.channels b ≡ some r)
      → IsFaithful call.proposal result
      → IsTrue (leave a call (some (result, gate)) system)
  left-IsTrue a call result gate fewer faithful = record {
    sent = λ b other r w c.
        let n : (b == a) ≡ false = ground arith in sent b other r (ground arith) (fewer b r n c);
    back = λ b other r h. elim (Bool-cases (b == a)) [
      | inl at ↦
          let p : call ≡ other = ground arith in
          let q : result ≡ r = ground arith in rw (← p, ← q) faithful
      | inr n ↦ back b other r (ground arith)
    ];
  }

received_fewer :
    (gate : Gate) (a b : ℕ) (r : DecisionResult)
    → (b == a) ≡ false
    → set_at a none gate.channels b ≡ some r
    → gate.channels b ≡ some r
received_fewer gate a b r n c = ground arith

step-IsTrue :
    (differs : Float → Float → Bool) (action : Action) (system : System)
    → IsLive system.gate system.waiting
    → IsTrue system
    → IsTrue (step differs action system)
unfolding step receive
step-IsTrue differs (ask run_id proposal assessment) system inv t =
    elim (begin_decide_result differs run_id proposal assessment system.gate) [
      | inl (e, r) ↦ rw (r, step) (record { sent = t.sent; back = t.back })
      | inr (l, r) ↦ rw (r, step) (asked-IsTrue system inv t run_id proposal assessment)
    ]
step-IsTrue differs (answer now run_id request) system inv t =
    elim (resolve_result now run_id request system.gate system.waiting inv) [
      | inl (e, r) ↦ rw (r, step) (record { sent = t.sent; back = t.back })
      | inr (entry, l, result, f, r) ↦
          rw (r, step) (answered-IsTrue system inv t now run_id request entry result l f)
    ]
step-IsTrue differs (wake a) system inv t = elim (Option-cases (system.waiting a)) [
  | inl w ↦ rw (w, step) t
  | inr (call, w) ↦ elim (Option-cases (system.gate.channels a)) [
    | inl c ↦ rw (w, c, step, receive) t
    | inr (result, c) ↦
        rw (w, c, step, receive)
          (left-IsTrue system inv t a call result
            (record system.gate { channels = set_at a none system.gate.channels })
            (received_fewer system.gate a) (t.sent a call result w c))
  ]
]
step-IsTrue differs (time_out now note a) system inv t = elim (Option-cases (system.waiting a)) [
  | inl w ↦ rw (w, step) t
  | inr (call, w) ↦ elim (give_up_result now note a call system.gate system.waiting inv w) [
    | inl (entry, l, at, e) ↦
        rw (w, step, e)
          (left-IsTrue system inv t a call (rejection system.gate now call.proposal note)
            (record system.gate { pending = erase call.run_id system.gate.pending }) (λ b r n c. c)
            (rejection-IsFaithful system.gate now call.proposal note))
    | inr (result, c, e) ↦
        rw (w, step, e)
          (left-IsTrue system inv t a call result
            (record system.gate { channels = set_at a none system.gate.channels })
            (received_fewer system.gate a) (t.sent a call result w c))
  ]
]

run-IsTrue :
    (differs : Float → Float → Bool) (actions : List Action) (system : System)
    → IsLive system.gate system.waiting
    → IsTrue system
    → IsTrue (run differs actions system)
unfolding run
run-IsTrue differs [] system inv t = t
run-IsTrue differs (action ∷ rest) system inv t =
    run-IsTrue differs rest (step differs action system) (step-IsLive differs action system inv)
      (step-IsTrue differs action system inv t)

-- Whatever happened since a new gate was made, and in whatever order: every result that a call of
-- `Decide` has returned carries the proposal that was asked about with at most its size changed,
-- exactly that proposal unless it requires revalidation, and a positive size if it does.
pub run-IsFaithful :
    (differs : Float → Float → Bool) (actions : List Action) (timeout : ℕ)
    (bus : Option (List Announcement)) (a : ℕ) (call : Call) (result : DecisionResult)
    → (run differs actions (start (new_pending_gate timeout bus))).returned a ≡ some (call, result)
    → IsFaithful call.proposal result
run-IsFaithful differs actions timeout bus =
    (run-IsTrue differs actions (start (new_pending_gate timeout bus)) (new_gate-IsLive timeout bus)
      (record { sent = λ a call result w. cc; back = λ a call result h. cc })).back
