-- ===== src/Portfolio/Sums.antt =====
-- The totals of a snapshot are the sums over the positions that they are about.
use cyp_agent.Base.{
  ℕ, ◌^◌, ◌<◌, ◌≡◌, refl, ap, ◌∙◌, inl, inr, Bool, true, ◌&&◌, not, List, [], ◌∷◌, if◌then◌else◌,
  Text, text_eq, text_eq→eq, Dict, lookup, lookup-insert, All, Bool-cases, arith,
}
use cyp_agent.Int.{ℤ, pos, ◌+ℤ◌, +ℤ_assoc, int_laws}
use cyp_agent.Decimal.{Decimal, add, zero_decimal}
use cyp_agent.Decimal.Exact.{units, units-add_decimal}
use cyp_agent.Decimal.Room.{units-zero_decimal}
use cyp_agent.Decimal.Places.{IsWithin, IsWithin-IsScaled, add-IsWithin}
use cyp_agent.Models.{Side, Position, notional_at}
use cyp_agent.Risk.{is_short}
use cyp_agent.Portfolio.{
  Totals, price_of, cluster_of, add_position, add_positions, no_totals, build,
  correlated_directional, directional_or_zero, add_directional,
}

-- The notional of a position at its mark or entry price.
abbrev pub notional_of : Dict Decimal → Position → Decimal
notional_of marks position = notional_at position (price_of marks position)

-- The sum of the notionals of the positions that pass a test, in units of 10^-k.
unfoldable pub sum_units : ℕ → Dict Decimal → (Position → Bool) → List Position → ℤ
sum_units k marks test [] = pos 0
sum_units k marks test (position ∷ rest) =
    let more = sum_units k marks test rest in
    if test position then units k (notional_of marks position) +ℤ more else more

-- In the cluster of a symbol, and on a side.
abbrev pub same_bet : (ℕ → ℕ) → Text → Side → Position → Bool
same_bet upper symbol side p =
    text_eq (cluster_of upper p.symbol) (cluster_of upper symbol)
    && (if is_short side then is_short p.side else not (is_short p.side))

module _ (upper : ℕ → ℕ) (k : ℕ) (small : k < 2 ^ 31) (marks : Dict Decimal) where
  sum_step :
      (d n : Decimal) (rest : ℤ)
      → IsWithin k d
      → IsWithin k n
      → units k (add d n) +ℤ rest ≡ units k d +ℤ (units k n +ℤ rest)
  sum_step d n rest v w =
      ap (λ z. z +ℤ rest)
        (units-add_decimal k d n (IsWithin-IsScaled k d small v) (IsWithin-IsScaled k n small w)
          v.at_most w.at_most)
      ∙ +ℤ_assoc (units k d) (units k n) rest

  -- A total that each position changes by its notional where it passes the test.
  add_positions-sum :
      (total : Totals → Decimal) (test : Position → Bool)
      → ((p : Position) (t : Totals)
          → total (add_position upper marks p t)
            ≡ (if test p then add (total t) (notional_of marks p) else total t))
      → (positions : List Position) (t : Totals)
      → All (λ p. IsWithin k (notional_of marks p)) positions
      → IsWithin k (total t)
      → units k (total (add_positions upper marks positions t))
        ≡ units k (total t) +ℤ sum_units k marks test positions
  unfolding add_positions sum_units
  add_positions-sum total test changes [] t within v = omega int_laws
  add_positions-sum total test changes (p ∷ rest) t within v =
      let t' = add_position upper marks p t in
      let more = sum_units k marks test rest in
      elim (Bool-cases (test p)) [
        | inl y ↦
            let e : total t' ≡ add (total t) (notional_of marks p) = rw y at (changes p t) in
            let w : IsWithin k (total t') =
              rw e (add-IsWithin k (total t) (notional_of marks p) small v within.0) in
            rw y (
              add_positions-sum total test changes rest t' within.1 w
              ∙ ap (λ d. units k d +ℤ more) e
              ∙ sum_step (total t) (notional_of marks p) more v within.0)
        | inr n ↦
            let e : total t' ≡ total t = rw n at (changes p t) in
            rw n (
              add_positions-sum total test changes rest t' within.1 (rw e v)
              ∙ ap (λ d. units k d +ℤ more) e)
      ]

  zero-IsWithin : IsWithin k zero_decimal
  zero-IsWithin = record { nonneg = refl; at_most = omega arith }

  units-zero : (z : ℤ) → units k zero_decimal +ℤ z ≡ z
  units-zero z = rw (units-zero_decimal k) (omega int_laws)

  -- For marks and positions whose notionals have 0 to k decimal places, k below 2^31, the gross
  -- exposure of the snapshot is the sum of the notionals of all positions, in units of 10^-k.
  pub build-gross :
      (positions : List Position) (equity correlated : Decimal)
      → All (λ p. IsWithin k (notional_of marks p)) positions
      → units k (build upper positions marks equity correlated).gross
        ≡ sum_units k marks (λ p. true) positions
  unfolding build add_position
  build-gross positions equity correlated within =
      add_positions-sum (λ t. t.gross) (λ p. true) (λ p t. refl) positions (no_totals upper) within
        zero-IsWithin
      ∙ units-zero (sum_units k marks (λ p. true) positions)

  abbrev bet_of : Text → Side → Totals → Decimal
  bet_of cluster side t =
      let d = directional_or_zero (lookup cluster t.clusters) in
      if is_short side then d.short else d.long

  bet_changes :
      (symbol : Text) (side : Side) (p : Position) (t : Totals)
      → bet_of (cluster_of upper symbol) side (add_position upper marks p t) ≡ (
          if same_bet upper symbol side p
          then add (bet_of (cluster_of upper symbol) side t) (notional_of marks p)
          else bet_of (cluster_of upper symbol) side t)
  unfolding add_position
  bet_changes symbol side p t =
      let c = cluster_of upper p.symbol in
      let d = directional_or_zero (lookup c t.clusters) in
      let v = add_directional p.side (notional_of marks p) d in
      ground (
        arith,
        lookup-insert c (cluster_of upper symbol) v t.clusters,
        text_eq→eq c (cluster_of upper symbol),
      )

  no_bet :
      (symbol : Text) (side : Side)
      → bet_of (cluster_of upper symbol) side (no_totals upper) ≡ zero_decimal
  unfolding lookup
  no_bet symbol side = ground arith

  -- For marks and positions whose notionals have 0 to k decimal places, k below 2^31, the
  -- correlated exposure of a symbol and a side is the sum of the notionals of the positions in the
  -- symbol's cluster on that side, where every side but `short` counts as long, in units of 10^-k.
  pub build-correlated :
      (positions : List Position) (equity correlated : Decimal) (symbol : Text) (side : Side)
      → All (λ p. IsWithin k (notional_of marks p)) positions
      → units k
          (correlated_directional upper (build upper positions marks equity correlated) symbol side)
        ≡ sum_units k marks (same_bet upper symbol side) positions
  unfolding build correlated_directional
  build-correlated positions equity correlated symbol side within =
      let start = no_bet symbol side in
      add_positions-sum (bet_of (cluster_of upper symbol) side) (same_bet upper symbol side)
        (bet_changes symbol side) positions (no_totals upper) within (rw start zero-IsWithin)
      ∙ ap (λ d. units k d +ℤ sum_units k marks (same_bet upper symbol side) positions) start
      ∙ units-zero (sum_units k marks (same_bet upper symbol side) positions)
