-- ===== src/Approval/Calls/Live.antt =====
-- No call is stranded: what holds of the gate and the waiting calls at every point of a run.
use cyp_agent.Base.{
  ℕ, ◌≤◌, ◌≡◌, ◌⊎◌, inl, inr, Bool, false, Option, none, some, ◌==◌, Text, text_eq, text_eq→eq,
  text_eq_iff, lookup, erase, lookup-insert, lookup-erase, Option-cases, Bool-cases, arith, Dict,
}
use cyp_agent.Models.{Float, TradeProposal}
use cyp_agent.Models.Validate.{validate_proposal, validate_assessment}
use cyp_agent.Risk.Assess.{Assessment}
use cyp_agent.Approval.{
  Gate, DecisionResult, PendingEntry, done, failed_with, GateError, empty_run_id, duplicate_run_id,
  invalid_proposal, invalid_assessment, is_blank_id, new_entry, add_entry, register, begin_decide,
}
use cyp_agent.Approval.Calls.{Call, set_at}

-- The entry of a call is still pending, or its channel holds a result.
abbrev pub HasEntry : Dict PendingEntry → Text → ℕ → Type 0
HasEntry pending run_id address =
    (entry : PendingEntry) × (lookup run_id pending ≡ some entry) × (entry.address ≡ address)

abbrev pub HasResult : (ℕ → Option DecisionResult) → ℕ → Type 0
HasResult channels address = (result : DecisionResult) × (channels address ≡ some result)

pub record IsLive (gate : Gate) (waiting : ℕ → Option Call) : Type 0 where
  pub fresh : (a : ℕ) → gate.next_address ≤ a → (waiting a ≡ none) × (gate.channels a ≡ none)
  pub owned :
      (run_id : Text) (entry : PendingEntry)
      → lookup run_id gate.pending ≡ some entry
      → (waiting entry.address ≡ some (record { run_id = run_id; proposal = entry.proposal }))
        × (gate.channels entry.address ≡ none)
  pub live :
      (a : ℕ) (call : Call)
      → waiting a ≡ some call
      → HasEntry gate.pending call.run_id a ⊎ HasResult gate.channels a

module _ (gate : Gate) (waiting : ℕ → Option Call) (inv : IsLive gate waiting) where
  open inv use {fresh, owned, live}

  -- Entries of different runs have different addresses.
  entries_apart :
      (run_id id : Text) (entry e : PendingEntry)
      → lookup run_id gate.pending ≡ some entry
      → lookup id gate.pending ≡ some e
      → text_eq run_id id ≡ false
      → (e.address == entry.address) ≡ false
  entries_apart run_id id entry e h k n =
      ground (arith, owned id e k, owned run_id entry h, text_eq_iff run_id id)

  -- What is left of the entries after one is erased.
  erased_entry :
      (run_id id : Text) (entry e : PendingEntry)
      → lookup run_id gate.pending ≡ some entry
      → lookup id (erase run_id gate.pending) ≡ some e
      → (lookup id gate.pending ≡ some e) × ((e.address == entry.address) ≡ false)
  erased_entry run_id id entry e h k =
      let both : (text_eq run_id id ≡ false) × (lookup id gate.pending ≡ some e) =
        ground (arith, lookup-erase run_id id gate.pending) in
      (both.1, entries_apart run_id id entry e h both.1 both.0)

  -- A call with an entry keeps it when the entry at another address is erased.
  kept_entry :
      (run_id : Text) (entry : PendingEntry) (a : ℕ) (id : Text)
      → lookup run_id gate.pending ≡ some entry
      → (a == entry.address) ≡ false
      → HasEntry gate.pending id a
      → HasEntry (erase run_id gate.pending) id a
  kept_entry run_id entry a id h n (e, k, at) =
      (e, ground (arith, lookup-erase run_id id gate.pending, text_eq→eq run_id id), at)

  pub removed-IsLive :
      (run_id : Text) (entry : PendingEntry)
      → lookup run_id gate.pending ≡ some entry
      → IsLive
          (record gate { pending = erase run_id gate.pending })
          (set_at entry.address none waiting)
  removed-IsLive run_id entry h = record {
    fresh = λ a l. ground (arith, fresh a l);
    owned =
        λ id e k. let (p, n) = erased_entry run_id id entry e h k in ground (arith, owned id e p);
    live = λ a call w.
        let (n, v) : ((a == entry.address) ≡ false) × (waiting a ≡ some call) = ground arith in
        elim (live a call v) [
          | inl has ↦ inl (kept_entry run_id entry a call.run_id h n has)
          | inr result ↦ inr result
        ];
  }

  pub received-IsLive :
      (a : ℕ) (result : DecisionResult)
      → gate.channels a ≡ some result
      → IsLive (record gate { channels = set_at a none gate.channels }) (set_at a none waiting)
  received-IsLive a result h = record {
    fresh = λ b l. ground (arith, fresh b l);
    owned = λ id e p. ground (arith, owned id e p);
    live = λ b call w.
        let (n, v) : ((b == a) ≡ false) × (waiting b ≡ some call) = ground arith in
        elim (live b call v) [ inl has ↦ inl has | inr (r, k) ↦ inr (r, ground arith) ];
  }

  pub sent-IsLive :
      (run_id : Text) (entry : PendingEntry) (result : DecisionResult)
      → lookup run_id gate.pending ≡ some entry
      → IsLive
          (record gate {
            pending = erase run_id gate.pending;
            channels = set_at entry.address (some result) gate.channels;
          })
          waiting
  sent-IsLive run_id entry result h = record {
    fresh = λ a l. ground (arith, fresh a l, owned run_id entry h, fresh entry.address);
    owned =
        λ id e k. let (p, n) = erased_entry run_id id entry e h k in ground (arith, owned id e p);
    live = λ a call w. elim (Bool-cases (a == entry.address)) [
      | inl at ↦ inr (result, ground arith)
      | inr n ↦ elim (live a call w) [
        | inl has ↦ inl (kept_entry run_id entry a call.run_id h n has)
        | inr (r, k) ↦ inr (r, ground arith)
      ]
    ];
  }

  pub added-IsLive :
      (run_id : Text) (proposal : TradeProposal) (assessment : Assessment)
      → lookup run_id gate.pending ≡ none
      → IsLive (add_entry run_id proposal assessment gate) (
          set_at gate.next_address (some (record { run_id = run_id; proposal = proposal })) waiting)
  added-IsLive run_id proposal assessment h =
      let entry = new_entry proposal assessment gate in
      let found : (id : Text) → _ = λ id. lookup-insert run_id id entry gate.pending in
      record {
        fresh = λ a l. ground (arith, fresh a);
        owned = λ id e k.
            ground (arith, found id, text_eq→eq run_id id, owned id e, fresh gate.next_address);
        live = λ a call w. elim (Bool-cases (a == gate.next_address)) [
          | inl at ↦ inl (
            entry,
            ground (arith, found call.run_id, text_eq_iff run_id call.run_id),
            ground arith,
          )
          | inr n ↦ elim (live a call (ground arith)) [
            | inl (e, k, at) ↦
                inl (e, ground (arith, found call.run_id, text_eq→eq run_id call.run_id), at)
            | inr result ↦ inr result
          ]
        ];
      }

pub begin_decide_result :
    (differs : Float → Float → Bool) (run_id : Text) (proposal : TradeProposal)
    (assessment : Assessment) (gate : Gate)
    → ((e : GateError) × (begin_decide differs run_id proposal assessment gate
          ≡ (failed_with e, gate)))
      ⊎ ((lookup run_id gate.pending ≡ none)
          × (begin_decide differs run_id proposal assessment gate
              ≡ (done gate.next_address, add_entry run_id proposal assessment gate)))
unfolding begin_decide register
begin_decide_result differs run_id proposal assessment gate =
    elim (Bool-cases (is_blank_id run_id)) [
      | inl b ↦ inl (empty_run_id, ground arith)
      | inr b ↦ elim (Option-cases (validate_proposal differs proposal)) [
        | inr (e, p) ↦ inl (invalid_proposal e, ground arith)
        | inl p ↦ elim (Option-cases (validate_assessment assessment)) [
          | inr (e, a) ↦ inl (invalid_assessment e, ground arith)
          | inl a ↦ elim (Option-cases (lookup run_id gate.pending)) [
            | inr (entry, l) ↦ inl (duplicate_run_id, ground arith)
            | inl l ↦ inr (l, ground arith)
          ]
        ]
      ]
    ]
