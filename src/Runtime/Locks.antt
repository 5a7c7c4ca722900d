-- ===== src/Runtime/Locks.antt =====
-- internal/runtime/symbols.go: the locks by symbol, and callers of `Do` whose steps interleave.
-- `strings.ToUpper` is not code of the program: `upper` is its effect on one code point. An entry of
-- the map is a pointer, here a number under which its semaphore and its references are kept.
pub mod Invariant
pub mod Steps
pub mod Leave
pub mod Reached
pub mod Exclusion
mod Tests
use cyp_agent.Base.{
  ◌≡◌, replicate, ℕ, ◌+◌, ◌-◌, Bool, true, false, ◌&&◌, Option, none, some, List, [], ◌∷◌, ◌==◌,
  if◌then◌else◌, map, Text, trim_space, Dict, lookup, insert, erase, get_elem?, set,
}

-- Where a caller of `Do` stands: before the call or after it, in the `select`, in its operation, or
-- in the deferred `release`.
pub data Phase : Type 0 where
  idle : Phase
  waiting running leaving : Text → ℕ → Phase

pub record Locks : Type 0 where
  pub locks : Dict ℕ
  pub held : ℕ → Bool
  pub references : ℕ → ℕ
  pub next : ℕ
  pub callers : List Phase

abbrev pub update {ℓ} : {A : Type ℓ} → (ℕ → A) → ℕ → A → ℕ → A
update f e a j = if e == j then a else f j

unfoldable pub new_symbol_locks : List Phase → Locks
new_symbol_locks callers = record {
  locks = [];
  held = λ e. false;
  references = λ e. 0;
  next = 0;
  callers = callers;
}

-- The entry of a symbol, made where it is missing, with one more reference.
unfoldable pub take_entry : Locks → Text → Option ℕ → Locks × ℕ
take_entry s symbol (some e) =
    (record s { references = update s.references e (s.references e + 1) }, e)
take_entry s symbol none = (
  record s {
    locks = insert symbol s.next s.locks;
    held = update s.held s.next false;
    references = update s.references s.next 1;
    next = s.next + 1;
  },
  s.next,
)

abbrev pub move : Locks → ℕ → Phase → Locks
move s n phase = record s { callers = set s.callers n phase }

-- `entryFor`, under the mutex; `none` is its error, a symbol of spaces.
abbrev pub enter_symbol : Locks → ℕ → Text → Option Locks
enter_symbol s n [] = none
enter_symbol s n (c ∷ symbol) =
    let (t, e) = take_entry s (c ∷ symbol) (lookup (c ∷ symbol) s.locks) in
    some (move t n (waiting (c ∷ symbol) e))

abbrev pub is_entry : Option ℕ → ℕ → Bool
is_entry none e = false
is_entry (some f) e = f == e

-- `release`, under the mutex.
unfoldable pub release : Locks → Text → ℕ → Locks
release s symbol e =
    let left = s.references e - 1 in
    record s {
      references = update s.references e left;
      locks =
          if left == 0 && is_entry (lookup symbol s.locks) e then erase symbol s.locks else s.locks;
    }

pub data Move : Type 0 where
  -- The call of `Do` for a symbol, up to the `select`.
  enter : ℕ → Text → Move
  -- The semaphore takes the caller, or its context is done.
  acquire cancel : ℕ → Move
  -- The operation ends and the semaphore is freed; then `release` runs.
  finish leave : ℕ → Move

abbrev pub enter_from : (ℕ → ℕ) → Locks → ℕ → Text → Option Phase → Option Locks
enter_from upper s n symbol (some idle) = enter_symbol s n (map upper (trim_space symbol))
enter_from upper s n symbol _ = none

abbrev pub acquire_from : Locks → ℕ → Option Phase → Option Locks
acquire_from s n (some (waiting k e)) =
    if s.held e
    then none
    else some (move (record s { held = update s.held e true }) n (running k e))
acquire_from s n _ = none

abbrev pub cancel_from : Locks → ℕ → Option Phase → Option Locks
cancel_from s n (some (waiting k e)) = some (move s n (leaving k e))
cancel_from s n _ = none

abbrev pub finish_from : Locks → ℕ → Option Phase → Option Locks
finish_from s n (some (running k e)) =
    some (move (record s { held = update s.held e false }) n (leaving k e))
finish_from s n _ = none

abbrev pub leave_from : Locks → ℕ → Option Phase → Option Locks
leave_from s n (some (leaving k e)) = some (move (release s k e) n idle)
leave_from s n _ = none

-- A step of the caller with a number; `none` where the caller cannot take it.
unfoldable pub step : (ℕ → ℕ) → Locks → Move → Option Locks
step upper s (enter n symbol) = enter_from upper s n symbol (get_elem? s.callers n)
step upper s (acquire n) = acquire_from s n (get_elem? s.callers n)
step upper s (cancel n) = cancel_from s n (get_elem? s.callers n)
step upper s (finish n) = finish_from s n (get_elem? s.callers n)
step upper s (leave n) = leave_from s n (get_elem? s.callers n)

-- The states that some interleaving of callers, all idle at first, can reach.
pub data Reach (upper : ℕ → ℕ) (n : ℕ) : Locks → Type 0 where
  start : {s : Locks} → s ≡ new_symbol_locks (replicate n idle) → Reach upper n s
  after : {s t : Locks} → Reach upper n s → (m : Move) → step upper s m ≡ some t → Reach upper n t
