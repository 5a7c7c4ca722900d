-- ===== src/Runtime/Locks/Invariant.antt =====
-- internal/runtime/symbols.go: what holds whenever no caller is inside the mutex.
use mathlib.Core.Path.{subst}
use cyp_agent.Base.{
  ℕ, zero, suc, ◌≤◌, ◌<◌, ◌≡◌, refl, sym, Bool, true, false, none, some, List, [], ◌∷◌, arith, ◌==◌,
  All, none_apart, some_eq, Text, text_eq_iff, Dict, lookup, insert, erase, lookup-insert,
  lookup-erase, get_elem?, set, total, replicate,
}
use cyp_agent.Runtime.Locks.{Phase, idle, waiting, running, leaving, Locks, new_symbol_locks}

abbrev pub tick : Bool → ℕ
tick true = 1
tick false = 0

-- Whether a caller refers to an entry, and whether it runs under it.
abbrev pub refers : ℕ → Phase → ℕ
refers e idle = 0
refers e (waiting k f) = tick (f == e)
refers e (running k f) = tick (f == e)
refers e (leaving k f) = tick (f == e)

abbrev pub runs : ℕ → Phase → ℕ
runs e (running k f) = tick (f == e)
runs e _ = 0

-- A caller inside `Do` finds its entry in the map.
abbrev pub IsFound : Dict ℕ → Phase → Type 0
IsFound locks idle = Unit
IsFound locks (waiting k e) = lookup k locks ≡ some e
IsFound locks (running k e) = lookup k locks ≡ some e
IsFound locks (leaving k e) = lookup k locks ≡ some e

pub record IsValid (s : Locks) : Type 0 where
  pub counted : (e : ℕ) → s.references e ≡ total (refers e) s.callers
  pub single : (e : ℕ) → total (runs e) s.callers ≡ tick (s.held e)
  pub found : All (IsFound s.locks) s.callers
  pub fresh : (k : Text) (e : ℕ) → lookup k s.locks ≡ some e → e < s.next
  pub apart : (k j : Text) (e : ℕ) → lookup k s.locks ≡ some e → lookup j s.locks ≡ some e → k ≡ j
  pub used : (k : Text) (e : ℕ) → lookup k s.locks ≡ some e → 1 ≤ s.references e

pub All-set :
    {A : Type 0} (P : A → Type 0) (xs : List A) (n : ℕ) (v : A)
    → All P xs
    → P v
    → All P (set xs n v)
All-set P [] n v h p = tt
All-set P (x ∷ xs) zero v h p = (p, h.1)
All-set P (x ∷ xs) (suc n) v h p = (h.0, All-set P xs n v h.1 p)

pub All-get :
    {A : Type 0} (P : A → Type 0) (xs : List A) (n : ℕ) (x : A)
    → All P xs
    → get_elem? xs n ≡ some x
    → P x
All-get P [] n x h e = absurd (none_apart x e)
All-get P (y ∷ xs) zero x h e = subst P (some_eq y x e) h.0
All-get P (y ∷ xs) (suc n) x h e = All-get P xs n x h.1 e

pub runs-le-refers : (e : ℕ) (xs : List Phase) → total (runs e) xs ≤ total (refers e) xs
runs-le-refers e [] = omega arith
runs-le-refers e (idle ∷ xs) = omega (arith, runs-le-refers e xs)
runs-le-refers e (waiting k f ∷ xs) = omega (arith, runs-le-refers e xs)
runs-le-refers e (running k f ∷ xs) = omega (arith, runs-le-refers e xs)
runs-le-refers e (leaving k f ∷ xs) = omega (arith, runs-le-refers e xs)

-- A weight that an idle caller does not have is not had by idle callers.
total-idle : (w : Phase → ℕ) (n : ℕ) → w idle ≡ 0 → total w (replicate n idle) ≡ 0
total-idle w zero z = refl
total-idle w (suc n) z = omega (arith, z, total-idle w n z)

idle-IsFound : (n : ℕ) → All (IsFound []) (replicate n idle)
idle-IsFound zero = tt
idle-IsFound (suc n) = (tt, idle-IsFound n)

pub start-IsValid : (n : ℕ) → IsValid (new_symbol_locks (replicate n idle))
unfolding new_symbol_locks lookup
start-IsValid n = record {
  counted = λ e. sym (total-idle (refers e) n refl);
  single = λ e. total-idle (runs e) n refl;
  found = idle-IsFound n;
  fresh = λ k e h. absurd (none_apart e h);
  apart = λ k j e h g. absurd (none_apart e h);
  used = λ k e h. absurd (none_apart e h);
}

-- A number that no entry of the map has is referred to by no caller.
pub refers-unborn :
    (locks : Dict ℕ) (next : ℕ) (xs : List Phase)
    → ((k : Text) (e : ℕ) → lookup k locks ≡ some e → e < next)
    → All (IsFound locks) xs
    → total (refers next) xs ≡ 0
refers-unborn locks next [] fresh h = refl
refers-unborn locks next (idle ∷ xs) fresh (p, h) =
    ground (arith, refers-unborn locks next xs fresh h)
refers-unborn locks next (waiting k e ∷ xs) fresh (p, h) =
    ground (arith, fresh k e p, refers-unborn locks next xs fresh h)
refers-unborn locks next (running k e ∷ xs) fresh (p, h) =
    ground (arith, fresh k e p, refers-unborn locks next xs fresh h)
refers-unborn locks next (leaving k e ∷ xs) fresh (p, h) =
    ground (arith, fresh k e p, refers-unborn locks next xs fresh h)

-- A new symbol in the map hides no entry.
pub IsFound-insert :
    (locks : Dict ℕ) (symbol : Text) (next : ℕ) (p : Phase)
    → lookup symbol locks ≡ none
    → IsFound locks p
    → IsFound (insert symbol next locks) p
IsFound-insert locks symbol next idle new h = tt
IsFound-insert locks symbol next (waiting k e) new h =
    rw lookup-insert (ground (arith, text_eq_iff symbol k))
IsFound-insert locks symbol next (running k e) new h =
    rw lookup-insert (ground (arith, text_eq_iff symbol k))
IsFound-insert locks symbol next (leaving k e) new h =
    rw lookup-insert (ground (arith, text_eq_iff symbol k))

pub All-map :
    {A : Type 0} (P Q : A → Type 0) (xs : List A) → ((x : A) → P x → Q x) → All P xs → All Q xs
All-map P Q [] f h = tt
All-map P Q (x ∷ xs) f h = (f x h.0, All-map P Q xs f h.1)

-- An entry to which no caller refers is found by none, and may go.
IsFound-erase :
    (locks : Dict ℕ) (symbol : Text) (e : ℕ) (p : Phase)
    → lookup symbol locks ≡ some e
    → refers e p ≡ 0
    → IsFound locks p
    → IsFound (erase symbol locks) p
IsFound-erase locks symbol e idle at z h = tt
IsFound-erase locks symbol e (waiting k f) at z h =
    rw lookup-erase (ground (arith, text_eq_iff symbol k))
IsFound-erase locks symbol e (running k f) at z h =
    rw lookup-erase (ground (arith, text_eq_iff symbol k))
IsFound-erase locks symbol e (leaving k f) at z h =
    rw lookup-erase (ground (arith, text_eq_iff symbol k))

pub All-IsFound-erase :
    (locks : Dict ℕ) (symbol : Text) (e : ℕ) (xs : List Phase)
    → lookup symbol locks ≡ some e
    → total (refers e) xs ≡ 0
    → All (IsFound locks) xs
    → All (IsFound (erase symbol locks)) xs
All-IsFound-erase locks symbol e [] at z h = tt
All-IsFound-erase locks symbol e (p ∷ xs) at z h = (
  IsFound-erase locks symbol e p at (omega arith) h.0,
  All-IsFound-erase locks symbol e xs at (omega arith) h.1,
)
