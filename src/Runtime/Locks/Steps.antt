-- ===== src/Runtime/Locks/Steps.antt =====
-- internal/runtime/symbols.go: every step of a caller keeps the invariant of the locks.
use cyp_agent.Base.{
  ℕ, ◌≡◌, sym, ◌∙◌, ◌⊎◌, inl, inr, true, false, none, some, arith, Bool-cases, none_apart, some_eq,
  Text, text_eq, text_eq→eq, Dict, lookup, insert, erase, lookup-insert, lookup-insert_self,
  lookup-erase, get_elem?, total-set,
}
use cyp_agent.Runtime.Locks.{idle, waiting, running, leaving, Locks, update, take_entry, move}
use cyp_agent.Runtime.Locks.Invariant.{
  refers, runs, IsFound, IsValid, All-set, All-get, runs-le-refers, refers-unborn, IsFound-insert,
  All-map,
}

-- What a map with a new key holds was written now or was held before.
inserted :
    (k j : Text) (v e : ℕ) (m : Dict ℕ)
    → lookup j (insert k v m) ≡ some e
    → ((k ≡ j) × (v ≡ e)) ⊎ (lookup j m ≡ some e)
inserted k j v e m h = elim (Bool-cases (text_eq k j)) [
  | inl t ↦ inl (text_eq→eq k j t, some_eq v e (ground (arith, lookup-insert k j v m)))
  | inr f ↦ inr (ground (arith, lookup-insert k j v m))
]

-- What a map without a key holds, it held before.
pub erased : (k j : Text) (e : ℕ) (m : Dict ℕ) → lookup j (erase k m) ≡ some e → lookup j m ≡ some e
erased k j e m h = elim (Bool-cases (text_eq k j)) [
  | inl t ↦ absurd (none_apart e (ground (arith, lookup-erase k j m)))
  | inr f ↦ ground (arith, lookup-erase k j m)
]

-- A caller joins an entry that the map has.
pub join-IsValid :
    (s : Locks) (n : ℕ) (symbol : Text) (e : ℕ)
    → IsValid s
    → get_elem? s.callers n ≡ some idle
    → lookup symbol s.locks ≡ some e
    → IsValid (move (take_entry s symbol (some e)).0 n (waiting symbol e))
unfolding take_entry
join-IsValid s n symbol e v at known = record {
  counted =
      λ f. ground (arith, v.counted f, total-set (refers f) s.callers n idle (waiting symbol e) at);
  single =
      λ f. omega (arith, v.single f, total-set (runs f) s.callers n idle (waiting symbol e) at);
  found = All-set (IsFound s.locks) s.callers n (waiting symbol e) v.found known;
  fresh = v.fresh;
  apart = v.apart;
  used = λ k f h. ground (arith, v.used k f h);
}

-- A caller makes the entry that the map lacks.
pub create-IsValid :
    (s : Locks) (n : ℕ) (symbol : Text)
    → IsValid s
    → get_elem? s.callers n ≡ some idle
    → lookup symbol s.locks ≡ none
    → IsValid (move (take_entry s symbol none).0 n (waiting symbol s.next))
unfolding take_entry
create-IsValid s n symbol v at new =
    let unborn = refers-unborn s.locks s.next s.callers v.fresh v.found in
    record {
      counted = λ f. ground (
        arith,
        v.counted f,
        unborn,
        total-set (refers f) s.callers n idle (waiting symbol s.next) at,
      );
      single = λ f. ground (
        arith,
        v.single f,
        unborn,
        runs-le-refers s.next s.callers,
        total-set (runs f) s.callers n idle (waiting symbol s.next) at,
      );
      found =
          All-set (IsFound (insert symbol s.next s.locks)) s.callers n (waiting symbol s.next)
            (All-map (IsFound s.locks) (IsFound (insert symbol s.next s.locks)) s.callers
              (λ p h. IsFound-insert s.locks symbol s.next p new h) v.found)
            (lookup-insert_self symbol s.next s.locks);
      fresh = λ k e h. elim (inserted symbol k s.next e s.locks h) [
        | inl w ↦ omega (arith, w.1)
        | inr old ↦ omega (arith, v.fresh k e old)
      ];
      apart = λ k j e h g. elim (inserted symbol k s.next e s.locks h) [
        | inl w ↦ elim (inserted symbol j s.next e s.locks g) [
          | inl u ↦ sym w.0 ∙ u.0
          | inr old ↦ absurd (omega (arith, w.1, v.fresh j e old))
        ]
        | inr old ↦ elim (inserted symbol j s.next e s.locks g) [
          | inl u ↦ absurd (omega (arith, u.1, v.fresh k e old))
          | inr old_too ↦ v.apart k j e old old_too
        ]
      ];
      used = λ k e h. elim (inserted symbol k s.next e s.locks h) [
        | inl w ↦ ground (arith, w.1)
        | inr old ↦ ground (arith, v.used k e old, v.fresh k e old)
      ];
    }

-- A caller takes the semaphore.
pub acquire-IsValid :
    (s : Locks) (n : ℕ) (k : Text) (e : ℕ)
    → IsValid s
    → get_elem? s.callers n ≡ some (waiting k e)
    → s.held e ≡ false
    → IsValid (move (record s { held = update s.held e true }) n (running k e))
acquire-IsValid s n k e v at free = record {
  counted = λ f.
      omega (arith, v.counted f, total-set (refers f) s.callers n (waiting k e) (running k e) at);
  single = λ f.
      ground (arith, v.single f, total-set (runs f) s.callers n (waiting k e) (running k e) at);
  found =
      All-set (IsFound s.locks) s.callers n (running k e) v.found
        (All-get (IsFound s.locks) s.callers n (waiting k e) v.found at);
  fresh = v.fresh;
  apart = v.apart;
  used = v.used;
}

-- The context of a caller is done before the semaphore takes it.
pub cancel-IsValid :
    (s : Locks) (n : ℕ) (k : Text) (e : ℕ)
    → IsValid s
    → get_elem? s.callers n ≡ some (waiting k e)
    → IsValid (move s n (leaving k e))
cancel-IsValid s n k e v at = record {
  counted = λ f.
      omega (arith, v.counted f, total-set (refers f) s.callers n (waiting k e) (leaving k e) at);
  single =
      λ f. omega (arith, v.single f, total-set (runs f) s.callers n (waiting k e) (leaving k e) at);
  found =
      All-set (IsFound s.locks) s.callers n (leaving k e) v.found
        (All-get (IsFound s.locks) s.callers n (waiting k e) v.found at);
  fresh = v.fresh;
  apart = v.apart;
  used = v.used;
}

-- The operation of a caller ends.
pub finish-IsValid :
    (s : Locks) (n : ℕ) (k : Text) (e : ℕ)
    → IsValid s
    → get_elem? s.callers n ≡ some (running k e)
    → IsValid (move (record s { held = update s.held e false }) n (leaving k e))
finish-IsValid s n k e v at = record {
  counted = λ f.
      omega (arith, v.counted f, total-set (refers f) s.callers n (running k e) (leaving k e) at);
  single = λ f.
      ground (arith, v.single f, total-set (runs f) s.callers n (running k e) (leaving k e) at);
  found =
      All-set (IsFound s.locks) s.callers n (leaving k e) v.found
        (All-get (IsFound s.locks) s.callers n (running k e) v.found at);
  fresh = v.fresh;
  apart = v.apart;
  used = v.used;
}
