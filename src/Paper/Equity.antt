-- ===== src/Paper/Equity.antt =====
-- internal/venue/paper.go: the equity that `Balances` reports, in units of 10^-3n.
use mathlib.Core.Path.{subst}
use cyp_agent.Base.{
  none_apart, some_eq, ℕ, ◌+◌, ◌^◌, ◌≤◌, ◌<◌, ◌≡◌, if_both, refl, inl, inr, none, some, [], ◌∷◌,
  arith, All, Bool-cases, Dict,
}
use cyp_agent.Int.{ℤ, pos, ◌+ℤ◌, int_laws, +ℤ_assoc}
use cyp_agent.Decimal.{Decimal, add}
use cyp_agent.Decimal.Exact.{units, units-add_decimal}
use cyp_agent.Decimal.Places.{IsWithin, IsWithin-IsScaled, add-IsWithin}
use cyp_agent.Models.{Position}
use cyp_agent.Risk.{Platform}
use cyp_agent.Paper.Keys.{Key, KeyMap, find, remove, key_eq, key_eq_iff}
use cyp_agent.Paper.{profit_at, locked}
use cyp_agent.Paper.Worth.{
  no_balance_apart, mark_of, grown_by, add_worth_lem, IsFine, locked-IsWithin, profit_at-IsWithin,
}
use cyp_agent.Paper.Account.{Balance, balance, no_balance, add_worth, total_worth}

-- Every key stands once.
abbrev pub IsDistinct : {V : Type 0} → KeyMap V → Type 0
IsDistinct [] = Unit
IsDistinct ((key, x) ∷ m) = (find key m ≡ none) × IsDistinct m

remove_absent : {V : Type 0} (key : Key) (m : KeyMap V) → find key m ≡ none → remove key m ≡ m
unfolding find remove
remove_absent key [] h = refl
remove_absent key ((j, x) ∷ m) h = ground (arith, remove_absent key m)

abbrev pub AllFine : ℕ → Dict Decimal → KeyMap Position → Type 0
AllFine n marks positions = All (λ entry. IsFine n marks entry.1) positions

swap_ℤ : (a b c : ℤ) → a +ℤ (b +ℤ c) ≡ b +ℤ (a +ℤ c)
swap_ℤ a b c = omega int_laws

pub units_sum :
    (m : ℕ) (d e : Decimal)
    → m < 2 ^ 31
    → IsWithin m d
    → IsWithin m e
    → units m (add d e) ≡ units m d +ℤ units m e
units_sum m d e b p q =
    units-add_decimal m d e (IsWithin-IsScaled m d b p) (IsWithin-IsScaled m e b q) p.at_most
      q.at_most

total_worth-counted :
    (platform : Platform) (marks : Dict Decimal) (positions : KeyMap Position)
    (sum : Balance Decimal) (total : Decimal)
    → total_worth platform marks positions sum ≡ balance total
    → (equity : Decimal) × (sum ≡ balance equity)
unfolding total_worth
total_worth-counted platform marks positions (balance equity) total h = (equity, refl)
total_worth-counted platform marks [] (no_balance e) total h = absurd (no_balance_apart h)
total_worth-counted platform marks (entry ∷ positions) (no_balance e) total h =
    absurd (no_balance_apart h)

module _ (n : ℕ) (few : 28 ≤ n) (many : n + n + n < 2 ^ 31) (platform : Platform)
    (marks : Dict Decimal) where
  -- The worth of a position in units of 10^-3n, and their sum.
  abbrev pub worth : Position → ℤ
  worth position =
      units (n + n + n) (locked platform position)
      +ℤ units (n + n + n) (profit_at position (mark_of marks position))

  abbrev pub sum_worth : KeyMap Position → ℤ
  sum_worth [] = pos 0
  sum_worth ((key, position) ∷ positions) = worth position +ℤ sum_worth positions

  pub sum_worth-remove :
      (positions : KeyMap Position) (key : Key) (position : Position)
      → IsDistinct positions
      → find key positions ≡ some position
      → sum_worth positions ≡ worth position +ℤ sum_worth (remove key positions)
  unfolding find remove
  sum_worth-remove [] key position d h = absurd (none_apart position h)
  sum_worth-remove ((j, p) ∷ positions) key position (fresh, d) h =
      elim (Bool-cases (key_eq j key)) [
        | inl same ↦
            let k : j ≡ key = (key_eq_iff j key).0 same in
            let gone : remove key positions ≡ positions =
              remove_absent key positions (subst (λ i. find i positions ≡ none) k fresh) in
            let p_eq : p ≡ position = some_eq p position (rw same at h) in
            rw (same, gone, p_eq) refl
        | inr other ↦
            let rest = sum_worth-remove positions key position d (rw other at h) in
            rw (other, rest) (swap_ℤ (worth p) (worth position) (sum_worth (remove key positions)))
      ]

  grown_by_lem :
      (equity : Decimal) (position : Position)
      → IsWithin (n + n + n) equity
      → IsFine n marks position
      → IsWithin (n + n + n) (grown_by platform marks equity position)
        × (units (n + n + n) (grown_by platform marks equity position)
            ≡ units (n + n + n) equity +ℤ worth position)
  grown_by_lem equity position w fine =
      let m = n + n + n in
      let l = locked platform position in
      let p = profit_at position (mark_of marks position) in
      let wl = locked-IsWithin n few many platform position fine.size fine.entry in
      let wp =
        profit_at-IsWithin n few many platform position (mark_of marks position) fine.size
          fine.entry fine.mark in
      let w1 = add-IsWithin m equity l many w wl in
      (
        add-IsWithin m (add equity l) p many w1 wp,
        rw (units_sum m (add equity l) p many w1 wp, units_sum m equity l many w wl)
            (+ℤ_assoc (units m equity) (units m l) (units m p)),
      )

  abbrev pub IsCounted : Key × Position → Type 0
  IsCounted entry =
      (equity : Decimal)
      → add_worth platform marks equity entry.1 ≡ balance (grown_by platform marks equity entry.1)

  pub total_worth-IsCounted :
      (positions : KeyMap Position) (equity total : Decimal)
      → total_worth platform marks positions (balance equity) ≡ balance total
      → All IsCounted positions
  unfolding total_worth
  total_worth-IsCounted [] equity total h = tt
  total_worth-IsCounted ((key, position) ∷ positions) equity total h =
      let (before, counted) =
        total_worth-counted platform marks positions (add_worth platform marks equity position)
          total h in
      let added = add_worth_lem platform marks position equity before counted in
      (
        added,
        total_worth-IsCounted positions (grown_by platform marks equity position) total
            (rw (added equity) at h),
      )

  pub total_worth_lem :
      (positions : KeyMap Position) (equity : Decimal)
      → AllFine n marks positions
      → All IsCounted positions
      → IsWithin (n + n + n) equity
      → (sum : Decimal) × (total_worth platform marks positions (balance equity) ≡ balance sum)
        × (units (n + n + n) sum ≡ units (n + n + n) equity +ℤ sum_worth positions)
  unfolding total_worth
  total_worth_lem [] equity fine counted w = (equity, refl, omega int_laws)
  total_worth_lem ((key, position) ∷ positions) equity (first, fine) (added, counted) w =
      let g = grown_by platform marks equity position in
      let (wg, eg) = grown_by_lem equity position w first in
      let (sum, e, u) = total_worth_lem positions g fine counted wg in
      (
        sum,
        rw (added equity) e,
        rw (u, eg) (+ℤ_assoc (units (n + n + n) equity) (worth position) (sum_worth positions)),
      )

pub All-remove :
    {V : Type 0} (P : Key × V → Type 0) (key : Key) (m : KeyMap V) → All P m → All P (remove key m)
unfolding remove
All-remove P key [] h = tt
All-remove P key ((j, x) ∷ m) (first, rest) =
    if_both (All P) (key_eq j key) _ _ (All-remove P key m rest) (first, All-remove P key m rest)

pub All-find :
    {V : Type 0} (P : Key × V → Type 0) (key : Key) (x : V) (m : KeyMap V)
    → All P m
    → find key m ≡ some x
    → P (key, x)
unfolding find
All-find P key x [] h e = absurd (none_apart x e)
All-find P key x ((j, y) ∷ m) (first, rest) e = elim (Bool-cases (key_eq j key)) [
  | inl same ↦
      let y_eq : y ≡ x = some_eq y x (rw same at e) in
      subst (λ i. P (i, x)) ((key_eq_iff j key).0 same) (subst (λ z. P (j, z)) y_eq first)
  | inr other ↦ All-find P key x m rest (rw other at e)
]
