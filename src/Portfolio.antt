-- ===== src/Portfolio.antt =====
-- internal/portfolio/view.go: the exposure views built from the positions.
-- `strings.ToUpper` is not code of the program: `upper` is its effect on one code point.
pub mod Sums
mod Tests
use cyp_agent.Base.{
  ℕ, suc, ◌+◌, Bool, true, false, ◌||◌, not, Option, none, some, List, [], ◌∷◌, ◌==◌, if◌then◌else◌,
  length, map, Text, text_eq, codes, trim_space, Dict, lookup, insert, is_some,
}
use cyp_agent.Decimal.{Decimal, zero_decimal, add, mul, is_positive}
use cyp_agent.Models.{Side, short, Position, notional_at}
use cyp_agent.Risk.{is_short}

pub record Directional : Type 0 where
  pub long : Decimal
  pub short : Decimal

pub record SymbolExposure : Type 0 where
  pub symbol : Text
  pub cluster : Text
  pub long : Decimal
  pub short : Decimal

pub record Snapshot : Type 0 where
  pub equity : Decimal
  pub n_positions : ℕ
  pub gross : Decimal
  pub clusters : Dict Directional
  pub by_symbol : List SymbolExposure
  pub correlated_limit : Decimal

-- The price of a position: its mark if there is a positive one, else its entry price.
unfoldable pub price_of : Dict Decimal → Position → Decimal
price_of marks position = elim (lookup position.symbol marks) [
  | none ↦ position.entry_price
  | some price ↦ if is_positive price then price else position.entry_price
]

-- The text before the first `/`: `strings.SplitN(symbol, "/", 2)[0]`.
unfoldable pub before_slash : Text → Text
before_slash [] = []
before_slash (c ∷ s) = let rest = before_slash s in if c == b'/' then [] else c ∷ rest

-- The entry of a map, or the zero value.
abbrev pub directional_or_zero : Option Directional → Directional
directional_or_zero none = record { long = zero_decimal; short = zero_decimal }
directional_or_zero (some d) = d

abbrev pub exposure_or_new : Text → Text → Option SymbolExposure → SymbolExposure
exposure_or_new symbol cluster none = record {
  symbol = symbol;
  cluster = cluster;
  long = zero_decimal;
  short = zero_decimal;
}
exposure_or_new symbol cluster (some e) =
    if text_eq e.symbol []
    then record { symbol = symbol; cluster = cluster; long = zero_decimal; short = zero_decimal }
    else e

-- A notional added on the position's side.
abbrev pub add_directional : Side → Decimal → Directional → Directional
add_directional side notional d =
    if is_short side
    then record d { short = add d.short notional }
    else record d { long = add d.long notional }

abbrev pub add_exposure : Side → Decimal → SymbolExposure → SymbolExposure
add_exposure side notional e =
    if is_short side
    then record e { short = add e.short notional }
    else record e { long = add e.long notional }

-- What the first loop of `Build` accumulates.
pub record Totals : Type 0 where
  pub clusters : Dict Directional
  pub by_symbol : Dict SymbolExposure
  pub gross : Decimal

module _ (upper : ℕ → ℕ) where
  unfoldable pub cluster_of : Text → Text
  unfolding before_slash
  cluster_of symbol =
      let base = map upper (trim_space (before_slash symbol)) in
      if text_eq base (codes "BTC") || text_eq base (codes "ETH")
      then codes "major"
      else codes "alt"

  -- One pass of the first loop of `Build`.
  unfoldable pub add_position : Dict Decimal → Position → Totals → Totals
  add_position marks position totals =
      let notional = notional_at position (price_of marks position) in
      let cluster = cluster_of position.symbol in
      record {
        clusters =
            insert cluster
              (add_directional position.side notional
                (directional_or_zero (lookup cluster totals.clusters)))
              totals.clusters;
        by_symbol =
            insert position.symbol
              (add_exposure position.side notional
                (exposure_or_new position.symbol cluster (lookup position.symbol totals.by_symbol)))
              totals.by_symbol;
        gross = add totals.gross notional;
      }

  unfoldable pub add_positions : Dict Decimal → List Position → Totals → Totals
  add_positions marks [] totals = totals
  add_positions marks (position ∷ rest) totals =
      add_positions marks rest (add_position marks position totals)

  abbrev pub no_totals : Totals
  no_totals = record {
    clusters =
        (codes "major", record { long = zero_decimal; short = zero_decimal })
        ∷ (codes "alt", record { long = zero_decimal; short = zero_decimal })
        ∷ [];
    by_symbol = [];
    gross = zero_decimal;
  }

  abbrev pub entry_or_empty : Option SymbolExposure → SymbolExposure
  entry_or_empty none = record {
    symbol = [];
    cluster = [];
    long = zero_decimal;
    short = zero_decimal;
  }
  entry_or_empty (some e) = e

  -- The second loop: the exposures in the order in which their symbols appear first.
  unfoldable pub order_exposures :
      Dict SymbolExposure → Dict Bool → List Position → List SymbolExposure
  order_exposures by_symbol seen [] = []
  order_exposures by_symbol seen (position ∷ rest) = elim (lookup position.symbol seen) [
    | some _ ↦ order_exposures by_symbol seen rest
    | none ↦
        entry_or_empty (lookup position.symbol by_symbol)
        ∷ order_exposures by_symbol (insert position.symbol true seen) rest
  ]

  unfoldable pub build : List Position → Dict Decimal → Decimal → Decimal → Snapshot
  build positions marks equity max_correlated_exposure =
      let totals = add_positions marks positions no_totals in
      record {
        equity = equity;
        n_positions = length positions;
        gross = totals.gross;
        clusters = totals.clusters;
        by_symbol = order_exposures totals.by_symbol [] positions;
        correlated_limit = mul equity max_correlated_exposure;
      }

  -- `CorrelatedDirectional`.
  unfoldable pub correlated_directional : Snapshot → Text → Side → Decimal
  correlated_directional snapshot symbol side =
      let d = directional_or_zero (lookup (cluster_of symbol) snapshot.clusters) in
      if is_short side then d.short else d.long

-- `SymbolNotional`.
unfoldable pub find_exposure : Text → List SymbolExposure → Decimal
find_exposure symbol [] = zero_decimal
find_exposure symbol (e ∷ rest) =
    let later = find_exposure symbol rest in
    if text_eq e.symbol symbol then add e.long e.short else later

abbrev pub symbol_notional : Snapshot → Text → Decimal
symbol_notional snapshot symbol = find_exposure symbol snapshot.by_symbol
