-- ===== src/Runtime/Locks/Exclusion.antt =====
-- internal/runtime/symbols.go: what the locks by symbol promise to the callers of `Do`.
use cyp_agent.Base.{
  ℕ, zero, suc, ◌+◌, ◌≤◌, ◌≡◌, ◌≢◌, refl, sym, ap, ◌∙◌, ◌⊎◌, inl, inr, true, false, none, some,
  List, [], ◌∷◌, arith, ◌==◌, All, Bool-cases, Option-cases, none_apart, some_eq, Text, lookup,
  get_elem?, set, total,
}
use cyp_agent.Runtime.Locks.{
  Phase, idle, waiting, running, leaving, Locks, update, move, acquire, finish, step, Reach,
}
use cyp_agent.Runtime.Locks.Invariant.{refers, runs, IsFound, IsValid, All-get}
use cyp_agent.Runtime.Locks.Reached.{Reach-IsValid}

-- Each place of a list counts in its total.
le-total :
    (w : Phase → ℕ) (xs : List Phase) (i : ℕ) (x : Phase)
    → get_elem? xs i ≡ some x
    → w x ≤ total w xs
le-total w [] i x h = absurd (none_apart x h)
le-total w (y ∷ xs) zero x h = rw (some_eq y x h) (omega arith)
le-total w (y ∷ xs) (suc i) x h = omega (arith, le-total w xs i x h)

both-le-total :
    (w : Phase → ℕ) (xs : List Phase) (i j : ℕ) (x y : Phase)
    → get_elem? xs i ≡ some x
    → get_elem? xs j ≡ some y
    → i ≢ j
    → w x + w y ≤ total w xs
both-le-total w [] i j x y h g d = absurd (none_apart x h)
both-le-total w (z ∷ xs) zero zero x y h g d = absurd (d refl)
both-le-total w (z ∷ xs) zero (suc j) x y h g d =
    rw (sym (some_eq z x h)) (omega (arith, le-total w xs j y g))
both-le-total w (z ∷ xs) (suc i) zero x y h g d =
    rw (sym (some_eq z y g)) (omega (arith, le-total w xs i x h))
both-le-total w (z ∷ xs) (suc i) (suc j) x y h g d =
    omega (arith, both-le-total w xs i j x y h g (λ e. d (ap suc e)))

-- Callers that all stand outside `Do` have no weight.
idle_weightless :
    (w : Phase → ℕ) (xs : List Phase) → w idle ≡ 0 → All (λ p. p ≡ idle) xs → total w xs ≡ 0
idle_weightless w [] z h = refl
idle_weightless w (p ∷ xs) z (e, h) = rw e (omega (arith, idle_weightless w xs z h))

-- An entry under which somebody runs has such a caller in the list.
runner :
    (e : ℕ) (xs : List Phase)
    → 1 ≤ total (runs e) xs
    → (j : ℕ) × ((k : Text) × (get_elem? xs j ≡ some (running k e)))
runner e [] h = ground arith
runner e (idle ∷ xs) h = let (j, r) = runner e xs (omega (arith, h)) in (suc j, r)
runner e (waiting k f ∷ xs) h = let (j, r) = runner e xs (omega (arith, h)) in (suc j, r)
runner e (leaving k f ∷ xs) h = let (j, r) = runner e xs (omega (arith, h)) in (suc j, r)
runner e (running k f ∷ xs) h = elim (Bool-cases (f == e)) [
  | inl same ↦ (zero, (k, ground arith))
  | inr other ↦ let (j, r) = runner e xs (ground arith) in (suc j, r)
]

get-set_other :
    (xs : List Phase) (i j : ℕ) (v : Phase) → i ≢ j → get_elem? (set xs i v) j ≡ get_elem? xs j
get-set_other [] i j v d = refl
get-set_other (x ∷ xs) zero zero v d = absurd (d refl)
get-set_other (x ∷ xs) zero (suc j) v d = refl
get-set_other (x ∷ xs) (suc i) zero v d = refl
get-set_other (x ∷ xs) (suc i) (suc j) v d = get-set_other xs i j v (λ e. d (ap suc e))

pub acquired :
    (upper : ℕ → ℕ) (s : Locks) (i : ℕ) (k : Text) (e : ℕ)
    → get_elem? s.callers i ≡ some (waiting k e)
    → s.held e ≡ false
    → step upper s (acquire i)
      ≡ some (move (record s { held = update s.held e true }) i (running k e))
unfolding step
acquired upper s i k e h free = rw (h, free) refl

pub finished :
    (upper : ℕ → ℕ) (s : Locks) (j : ℕ) (k : Text) (e : ℕ)
    → get_elem? s.callers j ≡ some (running k e)
    → step upper s (finish j)
      ≡ some (move (record s { held = update s.held e false }) j (leaving k e))
unfolding step
finished upper s j k e h = rw h refl

-- The caller that waits is another than the one that runs.
waiting_other :
    (xs : List Phase) (i j : ℕ) (k l : Text) (e f : ℕ)
    → get_elem? xs i ≡ some (waiting k e)
    → get_elem? xs j ≡ some (running l f)
    → j ≢ i
waiting_other xs i j k l e f h g same = cc

module _ (upper : ℕ → ℕ) (n : ℕ) (s : Locks) (reached : Reach upper n s) where
  -- Two callers that run an operation for one symbol, in a state that some interleaving of calls of
  -- `Do` can reach, are one and the same caller.
  pub do_alone :
      (i j : ℕ) (symbol : Text) (e f : ℕ)
      → get_elem? s.callers i ≡ some (running symbol e)
      → get_elem? s.callers j ≡ some (running symbol f)
      → i ≡ j
  do_alone i j symbol e f h g =
      let v = Reach-IsValid upper n s reached in
      let at = All-get (IsFound s.locks) s.callers i (running symbol e) v.found h in
      let same =
        some_eq e f (sym at ∙ All-get (IsFound s.locks) s.callers j (running symbol f) v.found g) in
      elim (Bool-cases (i == j)) [
        | inl equal ↦ ground (arith, equal)
        | inr apart ↦ absurd (
            ground (
              arith,
              same,
              apart,
              v.single e,
              both-le-total (runs e) s.callers i j (running symbol e) (running symbol f) h g
                  (λ q. ground arith),
            ))
      ]

  -- When every caller has returned, the map of locks is empty: no entry is left behind.
  pub locks_no_leak : All (λ p. p ≡ idle) s.callers → (symbol : Text) → lookup symbol s.locks ≡ none
  locks_no_leak h symbol = elim (Option-cases (lookup symbol s.locks)) [
    | inl e ↦ e
    | inr (e, at) ↦
        let v = Reach-IsValid upper n s reached in
        absurd (
          omega
            (arith, v.used symbol e at, v.counted e, idle_weightless (refers e) s.callers refl h))
  ]

  -- A caller that waits for a symbol can take its lock at once, or else another caller runs an
  -- operation for the same symbol, and the waiting caller can take the lock when that one ends.
  pub acquire_not_stuck :
      (i : ℕ) (symbol : Text) (e : ℕ)
      → get_elem? s.callers i ≡ some (waiting symbol e)
      → ((t : Locks) × (step upper s (acquire i) ≡ some t))
        ⊎ ((j : ℕ) × ((get_elem? s.callers j ≡ some (running symbol e))
              × ((t : Locks) × ((step upper s (finish j) ≡ some t)
                    × ((u : Locks) × (step upper t (acquire i) ≡ some u))))))
  acquire_not_stuck i symbol e h = elim (Bool-cases (s.held e)) [
    | inr free ↦ inl (_, acquired upper s i symbol e h free)
    | inl taken ↦
        let (j, (k, r)) = runner e s.callers (ground (arith, v.single e)) in
        let same =
          v.apart k symbol e (All-get (IsFound s.locks) s.callers j (running k e) v.found r)
            (All-get (IsFound s.locks) s.callers i (waiting symbol e) v.found h) in
        let now : get_elem? s.callers j ≡ some (running symbol e) = rw same at r in
        let apart = waiting_other s.callers i j symbol symbol e e h now in
        inr (
          j,
          (
            now,
            (
              _,
              (
                finished upper s j symbol e now,
                (
                  _,
                  acquired upper _ i symbol e
                      (get-set_other s.callers j i (leaving symbol e) apart ∙ h) (ground arith),
                ),
              ),
            ),
          ),
        )
  ]
    where
      v : IsValid s
      v = Reach-IsValid upper n s reached
