-- ===== src/Approval/Calls/Steps.antt =====
-- How the steps of the waiting calls end: none of them blocks.
use cyp_agent.Base.{
  ℕ, ◌≡◌, ◌≢◌, ◌⊎◌, refl, inl, inr, Bool, true, false, Option, none, some, List, [], ◌∷◌, ◌==◌,
  Text, lookup, erase, Option-cases, arith,
}
use cyp_agent.Models.{Float, ApprovalRequest}
use cyp_agent.Approval.{
  Gate, DecisionResult, PendingEntry, Outcome, done, failed_with, GateError, Announcement,
  deliver_result, not_pending, rejection, resolve, receive, give_up, send, result_for,
  remove_if_current, new_pending_gate,
}
use cyp_agent.Approval.Calls.{
  Call, System, set_at, start, Action, ask, answer, wake, time_out, leave, step, run,
}
use cyp_agent.Approval.Calls.Live.{
  IsLive, begin_decide_result, removed-IsLive, received-IsLive, sent-IsLive, added-IsLive,
}

pub Outcome-cases :
    {A : Type 0} (o : Outcome A)
    → ((x : A) × (o ≡ done x)) ⊎ ((e : GateError) × (o ≡ failed_with e))
Outcome-cases (done x) = inl (x, refl)
Outcome-cases (failed_with e) = inr (e, refl)

-- The gate after an answer that is delivered.
abbrev pub answered_gate : Text → PendingEntry → DecisionResult → Gate → Gate
answered_gate run_id entry result gate = record gate {
  pending = erase run_id gate.pending;
  channels = set_at entry.address (some result) gate.channels;
}

-- `Resolve` reports an error and changes nothing, or delivers to an empty channel.
pub resolve_result :
    (now : ℕ) (run_id : Text) (request : ApprovalRequest) (gate : Gate) (waiting : ℕ → Option Call)
    → IsLive gate waiting
    → ((e : GateError) × (resolve now run_id request gate ≡ some (some e, gate)))
      ⊎ ((entry : PendingEntry) × (lookup run_id gate.pending ≡ some entry)
          × (result : DecisionResult) × (result_for gate now entry.proposal request ≡ done result)
          × (resolve now run_id request gate ≡ some (none, answered_gate run_id entry result gate)))
unfolding resolve send
resolve_result now run_id request gate waiting inv =
    elim (Option-cases (lookup run_id gate.pending)) [
      | inl l ↦ inl (not_pending, ground arith)
      | inr (entry, l) ↦ elim (Outcome-cases (result_for gate now entry.proposal request)) [
        | inr (e, r) ↦ inl (e, rw (l, r, resolve) refl)
        | inl (result, r) ↦
            let c = (inv.owned run_id entry l).1 in
            inr (entry, l, result, r, rw (l, r, c, resolve, deliver_result, send) refl)
      ]
    ]

-- A call that gives up takes its entry away, or finds a result in its channel.
pub give_up_result :
    (now : ℕ) (note : Text) (a : ℕ) (call : Call) (gate : Gate) (waiting : ℕ → Option Call)
    → IsLive gate waiting
    → waiting a ≡ some call
    → ((entry : PendingEntry) × (lookup call.run_id gate.pending ≡ some entry)
        × (entry.address ≡ a)
        × (give_up now note call.run_id a call.proposal gate
            ≡ some (
              rejection gate now call.proposal note,
              record gate { pending = erase call.run_id gate.pending },
            )))
      ⊎ ((result : DecisionResult) × (gate.channels a ≡ some result)
          × (give_up now note call.run_id a call.proposal gate
              ≡ some (result, record gate { channels = set_at a none gate.channels })))
unfolding give_up remove_if_current receive
give_up_result now note a call gate waiting inv w = elim (inv.live a call w) [
  | inl (entry, l, at) ↦
      let m : (entry.address == a) ≡ true = ground arith in
      inl (entry, l, at, rw (l, m, give_up, remove_if_current) refl)
  | inr (result, c) ↦ inr (
    result,
    c,
    elim (Option-cases (lookup call.run_id gate.pending)) [
      | inl l ↦ rw (l, c, give_up, remove_if_current, receive) refl
      | inr (entry, l) ↦
          let n : (entry.address == a) ≡ false = ground (arith, inv.owned call.run_id entry l) in
          rw (l, n, c, give_up, remove_if_current, receive) refl
    ],
  )
]

leave-IsLive :
    (now : ℕ) (note : Text) (a : ℕ) (call : Call) (system : System)
    → IsLive system.gate system.waiting
    → system.waiting a ≡ some call
    → let next = leave a call (give_up now note call.run_id a call.proposal system.gate) system in
      IsLive next.gate next.waiting
leave-IsLive now note a call system inv w =
    elim (give_up_result now note a call system.gate system.waiting inv w) [
      | inl (entry, l, at, e) ↦
          rw (e, ← at) (removed-IsLive system.gate system.waiting inv call.run_id entry l)
      | inr (result, c, e) ↦ rw e (received-IsLive system.gate system.waiting inv a result c)
    ]

pub step-IsLive :
    (differs : Float → Float → Bool) (action : Action) (system : System)
    → IsLive system.gate system.waiting
    → let next = step differs action system in IsLive next.gate next.waiting
unfolding step receive
step-IsLive differs (ask run_id proposal assessment) system inv =
    elim (begin_decide_result differs run_id proposal assessment system.gate) [
      | inl (e, r) ↦ rw (r, step) inv
      | inr (l, r) ↦
          rw (r, step) (added-IsLive system.gate system.waiting inv run_id proposal assessment l)
    ]
step-IsLive differs (answer now run_id request) system inv =
    elim (resolve_result now run_id request system.gate system.waiting inv) [
      | inl (e, r) ↦ rw (r, step) inv
      | inr (entry, l, result, _, r) ↦
          rw (r, step) (sent-IsLive system.gate system.waiting inv run_id entry result l)
    ]
step-IsLive differs (wake a) system inv = elim (Option-cases (system.waiting a)) [
  | inl w ↦ rw (w, step) inv
  | inr (call, w) ↦ elim (Option-cases (system.gate.channels a)) [
    | inl c ↦ rw (w, c, step, receive) inv
    | inr (result, c) ↦
        rw (w, c, step, receive) (received-IsLive system.gate system.waiting inv a result c)
  ]
]
step-IsLive differs (time_out now note a) system inv = elim (Option-cases (system.waiting a)) [
  | inl w ↦ rw (w, step) inv
  | inr (call, w) ↦ rw (w, step) (leave-IsLive now note a call system inv w)
]

pub new_gate-IsLive :
    (timeout : ℕ) (bus : Option _) → IsLive (new_pending_gate timeout bus) (λ a. none)
unfolding new_pending_gate lookup
new_gate-IsLive timeout bus = record {
  fresh = λ a l. (refl, refl);
  owned = λ id e h. cc;
  live = λ a call h. cc;
}

pub run-IsLive :
    (differs : Float → Float → Bool) (actions : List Action) (system : System)
    → IsLive system.gate system.waiting
    → let last = run differs actions system in IsLive last.gate last.waiting
unfolding run
run-IsLive differs [] system inv = inv
run-IsLive differs (action ∷ rest) system inv =
    run-IsLive differs rest (step differs action system) (step-IsLive differs action system inv)

-- Whatever calls, answers, wake-ups and time-outs a new gate has seen, in whatever order: every
-- waiting call that its timer or its context wakes returns a result at once, and no `Resolve`
-- blocks on the channel that it sends to while it holds the lock.
pub run-never_blocks :
    (differs : Float → Float → Bool) (actions : List Action) (timeout : ℕ)
    (bus : Option (List Announcement))
    → let last = run differs actions (start (new_pending_gate timeout bus)) in
      ((now : ℕ) (note : Text) (a : ℕ) (call : Call)
        → last.waiting a ≡ some call
        → give_up now note call.run_id a call.proposal last.gate ≢ none)
      × ((now : ℕ) (run_id : Text) (request : ApprovalRequest)
          → resolve now run_id request last.gate ≢ none)
run-never_blocks differs actions timeout bus =
    let last = run differs actions (start (new_pending_gate timeout bus)) in
    let inv =
      run-IsLive differs actions (start (new_pending_gate timeout bus))
        (new_gate-IsLive timeout bus) in
    (
      λ now note a call w none_e.
          elim (give_up_result now note a call last.gate last.waiting inv w) [
            | inl (entry, l, at, e) ↦ absurd (cc (e, none_e))
            | inr (result, c, e) ↦ absurd (cc (e, none_e))
          ],
      λ now run_id request none_e.
          elim (resolve_result now run_id request last.gate last.waiting inv) [
            | inl (error, e) ↦ absurd (cc (e, none_e))
            | inr (entry, l, result, r, e) ↦ absurd (cc (e, none_e))
          ],
    )
