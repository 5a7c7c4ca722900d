-- ===== src/Portfolio/Tests.antt =====
-- The views of three positions, one of them short.
use cyp_agent.Base.{ℕ, ◌≡◌, refl, true, none, List, [], ◌∷◌, codes, arith, All, Text, lookup}
use cyp_agent.Int.{◌+ℤ◌}
use cyp_agent.Decimal.{mul}
use cyp_agent.Decimal.Exact.{units}
use cyp_agent.Decimal.Places.{IsWithin}
use cyp_agent.Models.{Side, long, short, perp, Position}
use cyp_agent.Risk.{literal}
use cyp_agent.Samples.{zero_float}
use cyp_agent.Portfolio.{price_of, build, correlated_directional}
use cyp_agent.Portfolio.Sums.{sum_units, same_bet, build-gross, build-correlated, notional_of}

abbrev holding : Text → Side → ℕ → ℕ → Position
holding symbol side size price = record {
  symbol = symbol;
  venue = codes "paper";
  side = side;
  instrument = perp;
  size_base = literal size 1;
  entry_price = literal price 2;
  leverage = zero_float;
  liq_price = none;
  margin_mode = none;
  chain = none;
  tx_hash = none;
}

abbrev same_rune : ℕ → ℕ
same_rune c = c

abbrev book : List Position
book =
    holding (codes "BTC/USDT") long 5 100
    ∷ holding (codes "ETH/USDT") short 7 250
    ∷ holding (codes "SOL/USDT") long 9 300
    ∷ []

fits : All (λ p. IsWithin 3 (notional_of [] p)) book
unfolding price_of lookup mul ◌+ℤ◌
fits = (
  record { nonneg = refl; at_most = omega arith },
  (
    record { nonneg = refl; at_most = omega arith },
    (record { nonneg = refl; at_most = omega arith }, tt),
  ),
)

build-gross_example :
    units 3 (build same_rune book [] (literal 100 0) (literal 5 1)).gross
    ≡ sum_units 3 [] (λ p. true) book
build-gross_example =
    build-gross same_rune 3 (omega arith) [] book (literal 100 0) (literal 5 1) fits

build-correlated_example :
    units 3 (
      correlated_directional same_rune
        (build same_rune book [] (literal 100 0) (literal 5 1))
        (codes "BTC/USDT")
        short)
    ≡ sum_units 3 [] (same_bet same_rune (codes "BTC/USDT") short) book
build-correlated_example =
    build-correlated same_rune 3 (omega arith) [] book (literal 100 0) (literal 5 1)
      (codes "BTC/USDT") short fits
