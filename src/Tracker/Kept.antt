-- ===== src/Tracker/Kept.antt =====
-- internal/riskstate/tracker.go: a property of the state that every change keeps holds after every
-- run of calls, whichever of them are refused or fail to be saved.
use mathlib.Core.Path.{subst}
use cyp_agent.Base.{
  ℕ, ◌≡◌, refl, inl, inr, true, not, Option, none, some, List, [], ◌∷◌, if_both, Text, codes, All,
  Bool-cases,
}
use cyp_agent.Decimal.{Decimal, is_positive}
use cyp_agent.Models.{TradeProposal, ExecutionResult, Position, filled}
use cyp_agent.Orders.{status_eq}
use cyp_agent.Tracker.{
  TradeRecord, PersistedState, Repository, observe_locked, opened, closed_by, close_record,
  has_trade_locked, first_trade, is_fill,
}
use cyp_agent.Tracker.Record.{
  Answer, commit, observe_equity, record_open, record_close, close_priced, close_at, recorded_or,
}
use cyp_agent.Tracker.Reconcile.{reconcile_positions, append_repairs, repairs, repaired}
use cyp_agent.Tracker.Calls.{
  Call, observe_call, open_call, close_call, reconcile_call, Reports, Setting, answer_call,
  run_calls,
}

-- A change of the state that a call makes, given `Q` of the equity that the call reports.
pub data Change (Q : Decimal → Type 0) (setting : Setting) (s : PersistedState)
    : PersistedState → Type 0 where
  observing :
      (equity : Decimal) (now : ℕ)
      → is_positive equity ≡ true
      → Q equity
      → Change Q setting s (observe_locked equity now s)
  opening :
      (run_id : Text) (proposal : TradeProposal) (execution : ExecutionResult) (equity : Decimal)
      (now : ℕ)
      → Q equity
      → Change Q setting s (opened run_id proposal execution equity now s)
  closing :
      (reference : Text) (position : Position) (execution : ExecutionResult)
      (price equity : Decimal) (now : ℕ)
      → Q equity
      → Change Q setting s
          (closed_by (close_record reference position execution price now) equity now s)
  repairing :
      (positions : List Position) (now : ℕ)
      → Change Q setting s (
          repaired
            (repairs setting.upper setting.walk_states setting.walk_active positions now s.trades)
            s)

-- What every commit of a change keeps, every run of calls keeps.
module _ (store : Repository) (setting : Setting) (Q : Decimal → Type 0)
    (R : PersistedState → Repository.Disk store → Type 0)
    (on_commit : (s t : PersistedState) (disk : Repository.Disk store)
      → Change Q setting s t
      → R s disk
      → let r = commit store setting.has_repository setting.step disk s t in R r.1 r.2) where
  open store use {Disk}

  abbrev Holds : Answer × PersistedState × Disk → Type 0
  Holds r = R r.1 r.2

  close_at-kept :
      (reference : Text) (position : Position) (execution : ExecutionResult) (equity : Decimal)
      (now : ℕ) (s : PersistedState) (disk : Disk) (price : Decimal)
      → Q equity
      → R s disk
      → Holds (
          close_at store setting.has_repository setting.step reference position execution equity now
            s disk price)
  close_at-kept reference position execution equity now s disk price q p =
      on_commit s _ disk (closing reference position execution price equity now q) p

  close_priced-kept :
      (reference : Text) (position : Position) (execution : ExecutionResult) (equity : Decimal)
      (now : ℕ) (s : PersistedState) (disk : Disk) (price : Option Decimal)
      → Q equity
      → R s disk
      → Holds (
          close_priced store setting.has_repository setting.step reference position execution equity
            now s disk price)
  close_priced-kept reference position execution equity now s disk none q p = p
  close_priced-kept reference position execution equity now s disk (some price) q p =
      if_both Holds (has_trade_locked execution.client_id (codes "close") s.trades)
        (recorded_or store s disk fresh (first_trade execution.client_id (codes "close") s.trades))
        fresh (by_first (first_trade execution.client_id (codes "close") s.trades)) at_last
    where
      fresh : Answer × PersistedState × Disk
      fresh =
          close_at store setting.has_repository setting.step reference position execution equity now
            s disk price

      at_last : Holds fresh
      at_last = close_at-kept reference position execution equity now s disk price q p

      by_first : (first : Option TradeRecord) → Holds (recorded_or store s disk fresh first)
      by_first none = at_last
      by_first (some trade) = p

  answer_call-kept :
      (call : Call) (s : PersistedState) (disk : Disk)
      → Reports Q call
      → R s disk
      → Holds (answer_call store setting call s disk)
  unfolding answer_call observe_equity record_open record_close reconcile_positions
  answer_call-kept (observe_call equity now) s disk q p = elim (Bool-cases (is_positive equity)) [
    | inl above ↦
        if_both Holds (not (is_positive equity)) _ _ p
          (on_commit s _ disk (observing equity now above q) p)
    | inr below ↦ rw below p
  ]
  answer_call-kept (open_call run_id proposal execution equity now) s disk q p =
      if_both Holds (not (is_fill execution)) _ _ p (
        if_both Holds (has_trade_locked execution.client_id (codes "open") s.trades) _ _ p
          (on_commit s _ disk (opening run_id proposal execution equity now q) p))
  answer_call-kept (close_call reference position execution equity now) s disk q p =
      if_both Holds (not (status_eq execution.status filled)) _ _ p
        (close_priced-kept reference position execution equity now s disk execution.avg_price q p)
  answer_call-kept (reconcile_call positions now) s disk q p =
      appended
        (repairs setting.upper setting.walk_states setting.walk_active positions now s.trades) refl
    where
      appended :
          (records : List TradeRecord)
          → repairs setting.upper setting.walk_states setting.walk_active positions now s.trades
            ≡ records
          → Holds (append_repairs store setting.has_repository setting.step s disk records)
      appended [] e = p
      appended (first ∷ rest) e =
          on_commit s _ disk
            (subst (λ r. Change Q setting s (repaired r s)) e (repairing positions now)) p

  pub run_calls-kept :
      (calls : List Call) (s : PersistedState) (disk : Disk)
      → All (Reports Q) calls
      → R s disk
      → (let r = run_calls store setting calls s disk in R r.0 r.1)
  unfolding run_calls
  run_calls-kept [] s disk q p = p
  run_calls-kept (call ∷ rest) s disk q p =
      let next = answer_call store setting call s disk in
      run_calls-kept rest next.1 next.2 q.1 (answer_call-kept call s disk q.0 p)

-- A property of the state alone is kept if every change keeps it.
pub run_calls-state :
    (store : Repository) (setting : Setting) (Q : Decimal → Type 0) (P : PersistedState → Type 0)
    → ((s t : PersistedState) → Change Q setting s t → P s → P t)
    → (calls : List Call) (s : PersistedState) (disk : Repository.Disk store)
    → All (Reports Q) calls
    → P s
    → P (run_calls store setting calls s disk).0
unfolding commit
run_calls-state store setting Q P keeps =
    run_calls-kept store setting Q (λ s disk. P s)
      (λ s t disk c p. if_both P _ t s (keeps s t c p) p)
