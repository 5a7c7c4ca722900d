-- ===== src/Runtime/Mode.antt =====
-- internal/runtime/mode.go: the mode policies. `strings.ToLower` is not code of the program: `lower`
-- is its effect on one code point. A string type has one more constructor for any other text.
use cyp_agent.Base.{
  ℕ, Bool, true, false, ◌&&◌, ◌||◌, Option, none, some, ◌++◌, if◌then◌else◌, map, Text, text_eq,
  codes, trim_space,
}

pub data Kind : Type 0 where
  paper_kind cex onchain : Kind
  other_kind : Text → Kind

pub data Environment : Type 0 where
  paper_environment demo live_environment : Environment
  other_environment : Text → Environment

pub record ExecutionTarget : Type 0 where
  pub venue_id : Text
  pub kind : Kind
  pub environment : Environment
  pub writable : Bool

pub data ModePolicy : Type 0 where
  paper_mode live_mode : ModePolicy

pub record RuntimeState : Type 0 where
  pub mode : Text
  pub execution_venue : Text
  pub execution_demo : Bool
  pub execution_live : Bool
  pub kill : Bool

-- `ResolveModePolicy`; `none` is its error.
unfoldable pub resolve_mode_policy : (ℕ → ℕ) → Text → Option ModePolicy
resolve_mode_policy lower mode =
    let name = map lower (trim_space mode) in
    if text_eq name (codes "paper")
    then some paper_mode
    else if text_eq name (codes "live")
    then some live_mode
    else none

unfoldable pub name : ModePolicy → Text
name paper_mode = codes "paper"
name live_mode = codes "live"

abbrev is_paper_kind : Kind → Bool
is_paper_kind paper_kind = true
is_paper_kind _ = false

abbrev is_cex : Kind → Bool
is_cex cex = true
is_cex _ = false

abbrev is_paper : Environment → Bool
is_paper paper_environment = true
is_paper _ = false

abbrev is_demo : Environment → Bool
is_demo demo = true
is_demo _ = false

abbrev is_live : Environment → Bool
is_live live_environment = true
is_live _ = false

-- `ValidateExecution` of the two policies; `false` is the error of `unsupportedExecution`.
unfoldable pub validate_execution : ModePolicy → ExecutionTarget → Bool
validate_execution paper_mode target =
    (is_paper target.environment
      && is_paper_kind target.kind
      && text_eq target.venue_id (codes "paper")
      && target.writable)
    || (is_demo target.environment
        && is_cex target.kind
        && text_eq target.venue_id (codes "okx")
        && target.writable)
validate_execution live_mode target =
    is_live target.environment
    && is_cex target.kind
    && text_eq target.venue_id (codes "okx")
    && target.writable

abbrev environment_text : Environment → Text
environment_text paper_environment = codes "paper"
environment_text demo = codes "demo"
environment_text live_environment = codes "live"
environment_text (other_environment s) = s

-- `RiskStateScope` of the two policies.
unfoldable pub risk_state_scope : ModePolicy → ExecutionTarget → Text
risk_state_scope paper_mode target = elim target.environment [
  | paper_environment ↦ codes "paper"
  | demo ↦ codes "demo:" ++ target.venue_id
  | live_environment ↦ codes "paper:live:" ++ target.venue_id
  | other_environment s ↦ codes "paper:" ++ (s ++ (codes ":" ++ target.venue_id))
]
risk_state_scope live_mode target = codes "live:" ++ target.venue_id

-- `RuntimeState.executionTarget`.
unfoldable pub execution_target : RuntimeState → ExecutionTarget
execution_target state =
    if text_eq state.execution_venue (codes "paper")
    then record {
      venue_id = state.execution_venue;
      kind = paper_kind;
      environment = paper_environment;
      writable = true;
    }
    else if state.execution_demo
    then record {
      venue_id = state.execution_venue;
      kind = cex;
      environment = demo;
      writable = true;
    }
    else record {
      venue_id = state.execution_venue;
      kind = cex;
      environment = live_environment;
      writable = state.execution_live;
    }
