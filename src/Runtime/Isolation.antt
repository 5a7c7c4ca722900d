-- ===== src/Runtime/Isolation.antt =====
-- The modes never share an account or its risk state.
use cyp_agent.Base.{
  ◌≡◌, ◌⊎◌, refl, sym, ap, ◌∙◌, inl, inr, true, codes, Text, text_eq→eq, text_eq_apart, ◌≢◌, arith,
}
use cyp_agent.Runtime.Mode.{
  ModePolicy, paper_mode, live_mode, ExecutionTarget, Kind, paper_kind, cex, Environment,
  paper_environment, demo, live_environment, validate_execution, risk_state_scope,
}

-- The three accounts that are accepted at all.
abbrev target_of : Text → Kind → Environment → ExecutionTarget
target_of venue_id kind environment = record {
  venue_id = venue_id;
  kind = kind;
  environment = environment;
  writable = true;
}

accepted_paper :
    (t : ExecutionTarget)
    → validate_execution paper_mode t ≡ true
    → (t ≡ target_of (codes "paper") paper_kind paper_environment)
      ⊎ (t ≡ target_of (codes "okx") cex demo)
unfolding validate_execution
accepted_paper t h =
    ground (arith, text_eq→eq t.venue_id (codes "paper"), text_eq→eq t.venue_id (codes "okx"))

accepted_live :
    (t : ExecutionTarget)
    → validate_execution live_mode t ≡ true
    → t ≡ target_of (codes "okx") cex live_environment
unfolding validate_execution
accepted_live t h = ground (arith, text_eq→eq t.venue_id (codes "okx"))

paper_scope :
    (t : ExecutionTarget)
    → validate_execution paper_mode t ≡ true
    → ((t ≡ target_of (codes "paper") paper_kind paper_environment)
        × (risk_state_scope paper_mode t ≡ codes "paper"))
      ⊎ ((t ≡ target_of (codes "okx") cex demo)
          × (risk_state_scope paper_mode t ≡ codes "demo:okx"))
unfolding risk_state_scope
paper_scope t h = elim (accepted_paper t h) [
  | inl a ↦ inl (a, ap (risk_state_scope paper_mode) a)
  | inr a ↦ inr (a, ap (risk_state_scope paper_mode) a)
]

live_scope :
    (t : ExecutionTarget)
    → validate_execution live_mode t ≡ true
    → risk_state_scope live_mode t ≡ codes "live:okx"
unfolding risk_state_scope
live_scope t h = ap (risk_state_scope live_mode) (accepted_live t h)

paper_live_apart :
    (t u : ExecutionTarget)
    → validate_execution paper_mode t ≡ true
    → validate_execution live_mode u ≡ true
    → risk_state_scope paper_mode t ≢ risk_state_scope live_mode u
paper_live_apart t u h k s =
    let q = live_scope u k in
    elim (paper_scope t h) [
      | inl (a, p) ↦ text_eq_apart (codes "paper") (codes "live:okx") refl (sym p ∙ s ∙ q)
      | inr (a, p) ↦ text_eq_apart (codes "demo:okx") (codes "live:okx") refl (sym p ∙ s ∙ q)
    ]

-- Two executions that their modes accept and that have the same risk scope have the same mode and
-- the same account.
pub risk_state_scope-separates :
    (m n : ModePolicy) (t u : ExecutionTarget)
    → validate_execution m t ≡ true
    → validate_execution n u ≡ true
    → risk_state_scope m t ≡ risk_state_scope n u
    → (m ≡ n) × (t ≡ u)
risk_state_scope-separates paper_mode paper_mode t u h k s = elim (paper_scope t h) [
  | inl (a, p) ↦ elim (paper_scope u k) [
    | inl (b, q) ↦ (refl, cc)
    | inr (b, q) ↦ absurd (text_eq_apart (codes "paper") (codes "demo:okx") refl (sym p ∙ s ∙ q))
  ]
  | inr (a, p) ↦ elim (paper_scope u k) [
    | inl (b, q) ↦ absurd (text_eq_apart (codes "demo:okx") (codes "paper") refl (sym p ∙ s ∙ q))
    | inr (b, q) ↦ (refl, cc)
  ]
]
risk_state_scope-separates paper_mode live_mode t u h k s = absurd (paper_live_apart t u h k s)
risk_state_scope-separates live_mode paper_mode t u h k s =
    absurd (paper_live_apart u t k h (sym s))
risk_state_scope-separates live_mode live_mode t u h k s =
    let a = accepted_live t h in let b = accepted_live u k in (refl, cc)
