-- ===== src/Runtime/Locks/Leave.antt =====
-- internal/runtime/symbols.go: `release` keeps the invariant of the locks.
use mathlib.Core.Path.{subst}
use cyp_agent.Base.{
  ℕ, ◌-◌, ◌≤◌, ◌≡◌, refl, sym, ◌∙◌, inl, inr, ◌&&◌, none, some, List, arith, ◌==◌, if◌then◌else◌,
  All, Bool-cases, none_apart, Text, text_eq_refl, Dict, lookup, erase, lookup-erase, get_elem?,
  set, total-set,
}
use cyp_agent.Runtime.Locks.{Phase, idle, leaving, Locks, update, release, move, is_entry}
use cyp_agent.Runtime.Locks.Invariant.{
  refers, runs, IsFound, IsValid, All-set, All-get, All-IsFound-erase,
}
use cyp_agent.Runtime.Locks.Steps.{erased}

-- What a caller that leaves owes to the map that it leaves behind.
record IsLeft (s : Locks) (e : ℕ) (m : Dict ℕ) (callers : List Phase) : Type 0 where
  found : All (IsFound m) callers
  older : (j : Text) (f : ℕ) → lookup j m ≡ some f → lookup j s.locks ≡ some f
  used : (j : Text) (f : ℕ) → lookup j m ≡ some f → f ≡ e → 1 ≤ s.references e - 1

left-IsValid :
    (s : Locks) (n : ℕ) (k : Text) (e : ℕ) (m : Dict ℕ)
    → IsValid s
    → get_elem? s.callers n ≡ some (leaving k e)
    → IsLeft s e m (set s.callers n idle)
    → IsValid (
        move
          (record s { references = update s.references e (s.references e - 1); locks = m })
          n
          idle)
left-IsValid s n k e m v at left = record {
  counted =
      λ f. ground (arith, v.counted f, total-set (refers f) s.callers n (leaving k e) idle at);
  single = λ f. omega (arith, v.single f, total-set (runs f) s.callers n (leaving k e) idle at);
  found = left.found;
  fresh = λ j f h. v.fresh j f (left.older j f h);
  apart = λ i j f h g. v.apart i j f (left.older i f h) (left.older j f g);
  used = λ j f h. ground (arith, left.used j f h, v.used j f (left.older j f h));
}

last-IsLeft :
    (s : Locks) (n : ℕ) (k : Text) (e : ℕ)
    → IsValid s
    → get_elem? s.callers n ≡ some (leaving k e)
    → lookup k s.locks ≡ some e
    → s.references e ≡ 1
    → IsLeft s e (erase k s.locks) (set s.callers n idle)
last-IsLeft s n k e v at known one = record {
  found =
      All-IsFound-erase s.locks k e (set s.callers n idle) known
        (ground (arith, v.counted e, total-set (refers e) s.callers n (leaving k e) idle at))
        (All-set (IsFound s.locks) s.callers n idle v.found tt);
  older = λ j f h. erased k j f s.locks h;
  used = λ j f h same.
      let held : lookup j s.locks ≡ some e = rw same at (erased k j f s.locks h) in
      absurd (none_apart f (sym (gone j (v.apart j k e held known)) ∙ h));
}
  where
    gone : (j : Text) → j ≡ k → lookup j (erase k s.locks) ≡ none
    gone j same = rw (same, lookup-erase, text_eq_refl) refl

-- A caller leaves an entry: the last one takes it out of the map.
pub release-IsValid :
    (s : Locks) (n : ℕ) (k : Text) (e : ℕ)
    → IsValid s
    → get_elem? s.callers n ≡ some (leaving k e)
    → IsValid (move (release s k e) n idle)
unfolding release
release-IsValid s n k e v at = elim (Bool-cases (s.references e - 1 == 0)) [
  | inl last ↦
      by_map (erase k s.locks) (last-IsLeft s n k e v at known (ground (arith, v.used k e known)))
        (ground (arith, known))
  | inr more ↦
      by_map s.locks
        (record {
          found = All-set (IsFound s.locks) s.callers n idle v.found tt;
          older = λ j f h. h;
          used = λ j f h same. ground arith;
        })
        (ground arith)
]
  where
    known : lookup k s.locks ≡ some e
    known = All-get (IsFound s.locks) s.callers n (leaving k e) v.found at

    result : Dict ℕ → Locks
    result m =
        move (record s { references = update s.references e (s.references e - 1); locks = m }) n
          idle

    by_map :
        (m : Dict ℕ)
        → IsLeft s e m (set s.callers n idle)
        → m ≡ (
            if s.references e - 1 == 0 && is_entry (lookup k s.locks) e
            then erase k s.locks
            else s.locks)
        → IsValid (move (release s k e) n idle)
    by_map m left eq = subst (λ t. IsValid (result t)) eq (left-IsValid s n k e m v at left)
