-- ===== src/Tracker/Restore.antt =====
-- internal/riskstate/tracker.go: `NewScoped`, which starts a tracker from its checkpoint.
-- `strings.ToLower` is not code of the program: `lower` is its effect on one code point.
use cyp_agent.Base.{
  ℕ, Bool, false, ◌&&◌, ◌||◌, not, Option, none, some, [], ◌∷◌, ◌++◌, map, leb, ◌==◌, if◌then◌else◌,
  Text, text_eq, codes, trim_space,
}
use cyp_agent.Decimal.{Decimal, zero_decimal, is_positive}
use cyp_agent.Tracker.{
  PersistedState, Checkpoint, no_checkpoint, unreadable, checkpoint, Repository, day_key, week_key,
}

abbrev is_scope_char : ℕ → Bool
is_scope_char c = (leb b'a' c && leb c b'z') || (leb b'0' c && leb c b'9') || c == b'-' || c == b'_'

-- The loop of `normalizeScope`, after some characters were written or none.
unfoldable pub scope_loop : Bool → Text → Text
scope_loop written [] = []
scope_loop written (c ∷ rest) =
    let later = scope_loop (is_scope_char c || written) rest in
    if is_scope_char c then c ∷ later else if written then b'-' ∷ later else later

unfoldable pub trim_left_dashes : Text → Text
trim_left_dashes [] = []
trim_left_dashes (c ∷ rest) =
    let trimmed = trim_left_dashes rest in if c == b'-' then trimmed else c ∷ rest

-- The text without the dashes at its end.
unfoldable pub trim_right_dashes : Text → Text
trim_right_dashes [] = []
trim_right_dashes (c ∷ rest) = elim (trim_right_dashes rest) [
  | [] ↦ if c == b'-' then [] else c ∷ []
  | d ∷ more ↦ c ∷ d ∷ more
]

unfoldable pub normalize_scope : (ℕ → ℕ) → Text → Text
normalize_scope lower value =
    trim_right_dashes (trim_left_dashes (scope_loop false (map lower (trim_space value))))

unfoldable pub new_state : Decimal → ℕ → PersistedState
new_state initial now = record {
  version = 1;
  initial_equity = initial;
  current_equity = initial;
  peak_equity = initial;
  day_start_equity = initial;
  week_start_equity = initial;
  day = some (day_key now);
  week = some (week_key now);
  consecutive_losses = 0;
  realized_pnl = zero_decimal;
  orders = [];
  equity_points = record { ts = now; equity = initial } ∷ [];
  trades = [];
}

abbrev pub or_else : Decimal → Decimal → Decimal
or_else d fallback = if is_positive d then d else fallback

abbrev pub key_or : Option ℕ → ℕ → Option ℕ
key_or none key = some key
key_or (some key) _ = some key

unfoldable pub normalize_state : PersistedState → Decimal → ℕ → PersistedState
normalize_state state fallback now =
    let current = or_else state.current_equity fallback in
    record state {
      current_equity = current;
      peak_equity = or_else state.peak_equity current;
      day_start_equity = or_else state.day_start_equity current;
      week_start_equity = or_else state.week_start_equity current;
      day = key_or state.day (day_key now);
      week = key_or state.week (week_key now);
    }

abbrev pub checkpoint_step : Text
checkpoint_step = codes "current"

unfoldable pub step_of : Text → Text
step_of [] = checkpoint_step
step_of (c ∷ scope) = checkpoint_step ++ (b':' ∷ c ∷ scope)

abbrev pub or_legacy : Text → (Text → Checkpoint) → Checkpoint → Checkpoint
or_legacy scope checkpoints no_checkpoint =
    if text_eq scope (codes "paper") then checkpoints checkpoint_step else no_checkpoint
or_legacy scope checkpoints unreadable = unreadable
or_legacy scope checkpoints (checkpoint state) = checkpoint state

-- The checkpoint of a scope: only that of the paper account may be the one without a scope.
unfoldable pub raw_checkpoint : Text → (Text → Checkpoint) → Checkpoint
raw_checkpoint scope checkpoints = or_legacy scope checkpoints (checkpoints (step_of scope))

-- What `NewScoped` returns: a tracker with its step and state, or an error.
pub data Started : Type 0 where
  equity_not_positive load_failed decode_failed : Started
  tracker : Text → PersistedState → Started

unfoldable pub restored : Text → Decimal → ℕ → Checkpoint → Started
restored step initial now no_checkpoint = tracker step (new_state initial now)
restored step initial now unreadable = decode_failed
restored step initial now (checkpoint state) = tracker step (
    if state.version == 1 && is_positive state.initial_equity
    then normalize_state state initial now
    else new_state initial now)

unfoldable pub start_from : Text → Decimal → ℕ → Option (Text → Checkpoint) → Started
start_from name initial now none = load_failed
start_from name initial now (some checkpoints) =
    restored (step_of name) initial now (raw_checkpoint name checkpoints)

module _ (store : Repository) where
  open store use {Disk, load_checkpoints}

  unfoldable pub new_scoped : (ℕ → ℕ) → Bool → Decimal → Text → ℕ → Disk → Started
  new_scoped lower has_repository initial scope now disk =
      let name = normalize_scope lower scope in
      if not (is_positive initial)
      then equity_not_positive
      else if not has_repository
      then tracker (step_of name) (new_state initial now)
      else start_from name initial now (load_checkpoints disk)
