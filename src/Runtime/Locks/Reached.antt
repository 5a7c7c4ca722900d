-- ===== src/Runtime/Locks/Reached.antt =====
-- internal/runtime/symbols.go: the invariant of the locks at every reachable state.
use mathlib.Core.Path.{subst}
use cyp_agent.Base.{
  ℕ, ◌≡◌, refl, sym, inl, inr, Option, none, some, [], ◌∷◌, Bool-cases, none_apart, some_eq, Text,
  map, trim_space, lookup, get_elem?,
}
use cyp_agent.Runtime.Locks.{
  Phase, idle, waiting, running, leaving, Locks, take_entry, move, Move, enter, acquire, cancel,
  finish, leave, enter_symbol, enter_from, acquire_from, cancel_from, finish_from, leave_from, step,
  Reach, start, after,
}
use cyp_agent.Runtime.Locks.Invariant.{IsValid, start-IsValid}
use cyp_agent.Runtime.Locks.Steps.{
  create-IsValid, join-IsValid, acquire-IsValid, cancel-IsValid, finish-IsValid,
}
use cyp_agent.Runtime.Locks.Leave.{release-IsValid}

taken-IsValid :
    (s : Locks) (n c : ℕ) (k : Text)
    → IsValid s
    → (o : Option ℕ) → lookup (c ∷ k) s.locks ≡ o
    → get_elem? s.callers n ≡ some idle
    → IsValid (move (take_entry s (c ∷ k) o).0 n (waiting (c ∷ k) (take_entry s (c ∷ k) o).1))
unfolding take_entry
taken-IsValid s n c k v none e at = create-IsValid s n (c ∷ k) v at e
taken-IsValid s n c k v (some x) e at = join-IsValid s n (c ∷ k) x v at e

-- The steps of the caller with number `n`, by where it stands.
module _ (s t : Locks) (n : ℕ) (v : IsValid s) where
  entered : (k : Text) → get_elem? s.callers n ≡ some idle → enter_symbol s n k ≡ some t → IsValid t
  entered [] at h = absurd (none_apart t h)
  entered (c ∷ k) at h =
      subst IsValid (some_eq _ t h) (taken-IsValid s n c k v (lookup (c ∷ k) s.locks) refl at)

  enter_case :
      (upper : ℕ → ℕ) (symbol : Text) (o : Option Phase)
      → get_elem? s.callers n ≡ o
      → enter_from upper s n symbol o ≡ some t
      → IsValid t
  enter_case upper symbol none at h = absurd (none_apart t h)
  enter_case upper symbol (some idle) at h = entered (map upper (trim_space symbol)) at h
  enter_case upper symbol (some (waiting k e)) at h = absurd (none_apart t h)
  enter_case upper symbol (some (running k e)) at h = absurd (none_apart t h)
  enter_case upper symbol (some (leaving k e)) at h = absurd (none_apart t h)

  acquire_case :
      (o : Option Phase) → get_elem? s.callers n ≡ o → acquire_from s n o ≡ some t → IsValid t
  acquire_case none at h = absurd (none_apart t h)
  acquire_case (some idle) at h = absurd (none_apart t h)
  acquire_case (some (waiting k e)) at h = elim (Bool-cases (s.held e)) [
    | inl taken ↦ absurd (none_apart t (rw taken at h))
    | inr free ↦ subst IsValid (some_eq _ t (rw free at h)) (acquire-IsValid s n k e v at free)
  ]
  acquire_case (some (running k e)) at h = absurd (none_apart t h)
  acquire_case (some (leaving k e)) at h = absurd (none_apart t h)

  cancel_case :
      (o : Option Phase) → get_elem? s.callers n ≡ o → cancel_from s n o ≡ some t → IsValid t
  cancel_case none at h = absurd (none_apart t h)
  cancel_case (some idle) at h = absurd (none_apart t h)
  cancel_case (some (waiting k e)) at h =
      subst IsValid (some_eq _ t h) (cancel-IsValid s n k e v at)
  cancel_case (some (running k e)) at h = absurd (none_apart t h)
  cancel_case (some (leaving k e)) at h = absurd (none_apart t h)

  finish_case :
      (o : Option Phase) → get_elem? s.callers n ≡ o → finish_from s n o ≡ some t → IsValid t
  finish_case none at h = absurd (none_apart t h)
  finish_case (some idle) at h = absurd (none_apart t h)
  finish_case (some (waiting k e)) at h = absurd (none_apart t h)
  finish_case (some (running k e)) at h =
      subst IsValid (some_eq _ t h) (finish-IsValid s n k e v at)
  finish_case (some (leaving k e)) at h = absurd (none_apart t h)

  leave_case :
      (o : Option Phase) → get_elem? s.callers n ≡ o → leave_from s n o ≡ some t → IsValid t
  leave_case none at h = absurd (none_apart t h)
  leave_case (some idle) at h = absurd (none_apart t h)
  leave_case (some (waiting k e)) at h = absurd (none_apart t h)
  leave_case (some (running k e)) at h = absurd (none_apart t h)
  leave_case (some (leaving k e)) at h =
      subst IsValid (some_eq _ t h) (release-IsValid s n k e v at)

-- Every step that a caller can take keeps the invariant.
pub step-IsValid :
    (upper : ℕ → ℕ) (s t : Locks) (m : Move) → IsValid s → step upper s m ≡ some t → IsValid t
unfolding step
step-IsValid upper s t (enter n symbol) v h =
    enter_case s t n v upper symbol (get_elem? s.callers n) refl h
step-IsValid upper s t (acquire n) v h = acquire_case s t n v (get_elem? s.callers n) refl h
step-IsValid upper s t (cancel n) v h = cancel_case s t n v (get_elem? s.callers n) refl h
step-IsValid upper s t (finish n) v h = finish_case s t n v (get_elem? s.callers n) refl h
step-IsValid upper s t (leave n) v h = leave_case s t n v (get_elem? s.callers n) refl h

-- Whatever the callers do, in whatever order, the invariant holds.
pub Reach-IsValid : (upper : ℕ → ℕ) (n : ℕ) (s : Locks) → Reach upper n s → IsValid s
Reach-IsValid upper n s (start e) = subst IsValid (sym e) (start-IsValid n)
Reach-IsValid upper n t (after {s} r m e) = step-IsValid upper s t m (Reach-IsValid upper n s r) e
