-- ===== src/Runtime/Locks/Tests.antt =====
-- The locks by symbol with two callers of `Do`, both for one symbol.
use cyp_agent.Base.{
  ℕ, ◌-◌, ◌≡◌, ◌⊎◌, refl, Option, none, some, replicate, lookup, insert, erase, codes, get_elem?,
  trim_space, if◌then◌else◌, leb, ◌&&◌, List, [], ◌∷◌,
}
use cyp_agent.Runtime.Locks.{
  idle, running, Locks, new_symbol_locks, take_entry, release, Move, enter, acquire, finish, leave,
  step, Reach, start, after,
}
use cyp_agent.Runtime.Locks.Exclusion.{do_alone, locks_no_leak, acquire_not_stuck}

abbrev to_upper : ℕ → ℕ
to_upper c = if leb 97 c && leb c 122 then c - 32 else c

abbrev made_or : Locks → Option Locks → Locks
made_or s none = s
made_or s (some t) = t

abbrev moved : Locks → List Move → Locks
moved s [] = s
moved s (m ∷ rest) = moved (made_or s (step to_upper s m)) rest

abbrev at_first : Locks
at_first = new_symbol_locks (replicate 2 idle)

abbrev both_called : List Move
both_called = enter 0 (codes "btc") ∷ acquire 0 ∷ enter 1 (codes " BTC") ∷ []

abbrev one_waits : Locks
one_waits = moved at_first both_called

abbrev all_left : Locks
all_left = moved one_waits (finish 0 ∷ acquire 1 ∷ leave 0 ∷ finish 1 ∷ leave 1 ∷ [])

Made : Locks → List Move → Type 0
Made s [] = Unit
Made s (m ∷ rest) =
    (step to_upper s m ≡ some (made_or s (step to_upper s m)))
    × Made (made_or s (step to_upper s m)) rest

moved-Reach :
    (ms : List Move) (s : Locks) → Reach to_upper 2 s → Made s ms → Reach to_upper 2 (moved s ms)
unfolding Made
moved-Reach [] s r h = r
moved-Reach (m ∷ rest) s r h = moved-Reach rest _ (after r m h.0) h.1

one_waits-Reach : Reach to_upper 2 one_waits
unfolding new_symbol_locks take_entry step lookup insert trim_space Made
one_waits-Reach = moved-Reach both_called at_first (start refl) (refl, (refl, (refl, tt)))

all_left-Reach : Reach to_upper 2 all_left
unfolding new_symbol_locks take_entry release step lookup insert erase trim_space Made
all_left-Reach =
    moved-Reach (finish 0 ∷ acquire 1 ∷ leave 0 ∷ finish 1 ∷ leave 1 ∷ []) one_waits one_waits-Reach
      (refl, (refl, (refl, (refl, (refl, tt)))))

abbrev first : ℕ
first = 0

do_alone_example : first ≡ first
unfolding new_symbol_locks take_entry step lookup insert trim_space
do_alone_example =
    do_alone to_upper 2 one_waits one_waits-Reach first first (codes "BTC") 0 0 refl refl

locks_no_leak_example : lookup (codes "BTC") all_left.locks ≡ none
unfolding new_symbol_locks take_entry release step lookup insert erase trim_space
locks_no_leak_example =
    locks_no_leak to_upper 2 all_left all_left-Reach (refl, (refl, tt)) (codes "BTC")

acquire_not_stuck_example :
    ((t : Locks) × (step to_upper one_waits (acquire 1) ≡ some t))
    ⊎ ((j : ℕ) × ((get_elem? one_waits.callers j ≡ some (running (codes "BTC") 0))
          × ((t : Locks) × ((step to_upper one_waits (finish j) ≡ some t)
                × ((u : Locks) × (step to_upper t (acquire 1) ≡ some u))))))
unfolding new_symbol_locks take_entry step lookup insert trim_space
acquire_not_stuck_example =
    acquire_not_stuck to_upper 2 one_waits one_waits-Reach 1 (codes "BTC") 0 refl
