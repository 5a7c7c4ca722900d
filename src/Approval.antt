-- ===== src/Approval.antt =====
-- internal/approval/pending.go: the gate that holds a proposal until a person decides.
-- A result channel has room for one result; it stands for its entry, whose address tells entries
-- apart where the source compares pointers. Copies of values need no counterpart, and the bus is
-- the list of what was emitted, the latest first, if there is a bus.
pub mod Calls
mod Tests
use cyp_agent.Base.{
  ℕ, ◌+◌, ◌%◌, ◌^◌, Bool, true, false, ◌&&◌, not, Option, none, some, List, [], ◌∷◌, ◌++◌, ltb,
  ◌==◌, if◌then◌else◌, Text, codes, trim_space, Dict, lookup, insert, erase, length,
}
use cyp_agent.Decimal.{Decimal, is_positive}
use cyp_agent.Decimal.Text.{to_text}
use cyp_agent.Models.{
  Float, TradeProposal, ApprovalAction, approve, reject, modify, ApprovalRequest, ApprovalDecision,
}
use cyp_agent.Models.Validate.{InvalidModel, validate_proposal, validate_assessment}
use cyp_agent.Risk.Assess.{Assessment}

-- The errors of the gate; `format_panicked` is the panic of `Decimal.String`.
pub data GateError : Type 0 where
  empty_run_id duplicate_run_id not_pending invalid_decision modify_size_needed : GateError
  format_panicked : GateError
  invalid_proposal invalid_assessment : InvalidModel → GateError

pub data Outcome (A : Type 0) : Type 0 where
  done : A → Outcome A
  failed_with : GateError → Outcome A

pub record DecisionResult : Type 0 where
  pub decision : ApprovalDecision
  pub final_proposal : TradeProposal
  pub requires_revalidation : Bool

pub record PendingEntry : Type 0 where
  pub address : ℕ
  pub sequence : ℕ
  pub proposal : TradeProposal
  pub assessment : Assessment

pub record Announcement : Type 0 where
  pub run_id : Text
  pub proposal : TradeProposal
  pub assessment : Assessment

-- `pending`, `nextSequence`, `timeout`, `defaultOperator` and `events`; `channels` and
-- `next_address` are the heap.
pub record Gate : Type 0 where
  pub pending : Dict PendingEntry
  pub next_sequence : ℕ
  pub timeout : ℕ
  pub default_operator : Text
  pub events : Option (List Announcement)
  pub channels : ℕ → Option DecisionResult
  pub next_address : ℕ

abbrev default_timeout : ℕ
default_timeout = 1800000000000

-- `WithDefaultOperator`.
abbrev pub with_default_operator : Text → Gate → Gate
with_default_operator operator gate = elim (trim_space operator) [
  | [] ↦ gate
  | c ∷ s ↦ record gate { default_operator = c ∷ s }
]

-- `NewPendingGate` without options; a timeout of 0 stands for one that is not positive.
unfoldable pub new_pending_gate : ℕ → Option (List Announcement) → Gate
new_pending_gate timeout bus = record {
  pending = [];
  next_sequence = 0;
  timeout = if timeout == 0 then default_timeout else timeout;
  default_operator = codes "dashboard";
  events = bus;
  channels = λ a. none;
  next_address = 0;
}

abbrev pub is_blank_id : Text → Bool
is_blank_id s = elim (trim_space s) [ [] ↦ true | _ ∷ _ ↦ false ]

abbrev or_text : Text → Text → Text
or_text [] otherwise = otherwise
or_text (c ∷ s) otherwise = c ∷ s

abbrev emit : Announcement → Option (List Announcement) → Option (List Announcement)
emit a none = none
emit a (some sent) = some (a ∷ sent)

abbrev pub new_entry : TradeProposal → Assessment → Gate → PendingEntry
new_entry proposal assessment gate = record {
  address = gate.next_address;
  sequence = (gate.next_sequence + 1) % 2 ^ 64;
  proposal = proposal;
  assessment = assessment;
}

-- The gate with a new entry, and the event that `Decide` emits.
abbrev pub add_entry : Text → TradeProposal → Assessment → Gate → Gate
add_entry run_id proposal assessment gate =
    let entry = new_entry proposal assessment gate in
    record gate {
      pending = insert run_id entry gate.pending;
      next_sequence = entry.sequence;
      events =
          emit (record { run_id = run_id; proposal = proposal; assessment = assessment })
            gate.events;
      next_address = gate.next_address + 1;
    }

-- What `Decide` does under its lock: the entry's address.
unfoldable pub register : Text → TradeProposal → Assessment → Gate → Outcome ℕ × Gate
register run_id proposal assessment gate = elim (lookup run_id gate.pending) [
  | some _ ↦ (failed_with duplicate_run_id, gate)
  | none ↦ (done gate.next_address, add_entry run_id proposal assessment gate)
]

-- `Decide` up to its `select`; `differs` is the one operation on floats that `Validate` uses.
unfoldable pub begin_decide :
    (Float → Float → Bool) → Text → TradeProposal → Assessment → Gate → Outcome ℕ × Gate
begin_decide differs run_id proposal assessment gate =
    if is_blank_id run_id
    then (failed_with empty_run_id, gate)
    else elim (validate_proposal differs proposal) [
      | some e ↦ (failed_with (invalid_proposal e), gate)
      | none ↦ elim (validate_assessment assessment) [
        | some e ↦ (failed_with (invalid_assessment e), gate)
        | none ↦ register run_id proposal assessment gate
      ]
    ]

-- `resultFor`; `now` is the clock.
abbrev decision_of : Gate → ℕ → ApprovalRequest → Option TradeProposal → Text → ApprovalDecision
decision_of gate now request modified note = record {
  decision = request.decision;
  modified = modified;
  operator = or_text (trim_space request.operator) gate.default_operator;
  ts = now;
  note = or_text request.note note;
}

abbrev modified_note : Text → Option Text → Option Text
modified_note (c ∷ s) size = some (c ∷ s)
modified_note [] none = none
modified_note [] (some size) = some (codes "改规模至 " ++ size)

abbrev modified_result :
    Gate → ℕ → TradeProposal → ApprovalRequest → Decimal → Outcome DecisionResult
modified_result gate now proposal request size =
    let modified = record proposal { size_quote = size } in
    if not (is_positive size)
    then failed_with modify_size_needed
    else elim (modified_note request.note (to_text size)) [
      | none ↦ failed_with format_panicked
      | some note ↦ done (record {
        decision = decision_of gate now request (some modified) note;
        final_proposal = modified;
        requires_revalidation = true;
      })
    ]

unfoldable pub result_for : Gate → ℕ → TradeProposal → ApprovalRequest → Outcome DecisionResult
result_for gate now proposal request = elim request.decision [
  | approve ↦ done (record {
    decision = decision_of gate now request none (codes "仪表盘批准");
    final_proposal = proposal;
    requires_revalidation = false;
  })
  | reject ↦ done (record {
    decision = decision_of gate now request none (codes "仪表盘拒绝");
    final_proposal = proposal;
    requires_revalidation = false;
  })
  | modify ↦ elim request.size [
    | none ↦ failed_with modify_size_needed
    | some size ↦ modified_result gate now proposal request size
  ]
  | _ ↦ failed_with invalid_decision
]

-- A send to the channel at an address; `none` where it is full, so that the sender blocks.
unfoldable pub send :
    ℕ → DecisionResult → (ℕ → Option DecisionResult) → Option (ℕ → Option DecisionResult)
send address result channels = elim (channels address) [
  | some _ ↦ none
  | none ↦ some (λ a. if a == address then some result else channels a)
]

-- `Resolve`: its error, if any, and the gate after it; `none` where it would block on its send.
abbrev pub deliver_result :
    Text → PendingEntry → Outcome DecisionResult → Gate → Option (Option GateError × Gate)
deliver_result run_id entry (failed_with e) gate = some (some e, gate)
deliver_result run_id entry (done result) gate = elim (send entry.address result gate.channels) [
  | none ↦ none
  | some channels ↦
      some (none, record gate { pending = erase run_id gate.pending; channels = channels })
]

unfoldable pub resolve : ℕ → Text → ApprovalRequest → Gate → Option (Option GateError × Gate)
resolve now run_id request gate = elim (lookup run_id gate.pending) [
  | none ↦ some (some not_pending, gate)
  | some entry ↦ deliver_result run_id entry (result_for gate now entry.proposal request) gate
]

-- `rejection`.
unfoldable pub rejection : Gate → ℕ → TradeProposal → Text → DecisionResult
rejection gate now proposal note = record {
  decision = record {
    decision = reject;
    modified = none;
    operator = gate.default_operator;
    ts = now;
    note = note;
  };
  final_proposal = proposal;
  requires_revalidation = false;
}

-- `removeIfCurrent`.
unfoldable pub remove_if_current : Text → ℕ → Gate → Bool × Gate
remove_if_current run_id address gate = elim (lookup run_id gate.pending) [
  | none ↦ (false, gate)
  | some entry ↦
      if entry.address == address
      then (true, record gate { pending = erase run_id gate.pending })
      else (false, gate)
]

-- A receive from the channel at an address; `none` where it is empty, so that the receiver blocks.
unfoldable pub receive : ℕ → Gate → Option (DecisionResult × Gate)
receive address gate = elim (gate.channels address) [
  | none ↦ none
  | some result ↦
      some (result, record gate { channels = λ a. if a == address then none else gate.channels a })
]

-- The two other branches of the `select`, on the timer and on the context; `note` tells which.
unfoldable pub give_up : ℕ → Text → Text → ℕ → TradeProposal → Gate → Option (DecisionResult × Gate)
give_up now note run_id address proposal gate =
    let (removed, gate') = remove_if_current run_id address gate in
    if removed then some (rejection gate now proposal note, gate') else receive address gate

-- `ListPending` in the order of the sequence numbers, and `PendingCount`.
unfoldable pub insert_by_sequence :
    Text × PendingEntry → List (Text × PendingEntry) → List (Text × PendingEntry)
insert_by_sequence item [] = item ∷ []
insert_by_sequence item (first ∷ rest) =
    let later = insert_by_sequence item rest in
    if ltb first.1.sequence item.1.sequence then first ∷ later else item ∷ first ∷ rest

unfoldable pub list_pending : Dict PendingEntry → List (Text × PendingEntry)
unfolding insert_by_sequence
list_pending [] = []
list_pending (item ∷ rest) = insert_by_sequence item (list_pending rest)

abbrev pub pending_count : Gate → ℕ
pending_count gate = length gate.pending
