-- ===== src/Risk.antt =====
-- internal/risk/engine.go: the policy, the results of the rules and what all rules share.
-- The text of a reason is kept as its kind and the values that it shows.
pub mod Account
pub mod Margin
pub mod Chain
pub mod Exposure
pub mod Assess
pub mod Verdict
pub mod Limit
pub mod Caps
pub mod Bounds
pub mod Closing
mod Tests
use cyp_agent.Base.{ℕ, Bool, true, false, Option, none, some, List, [], Text}
use cyp_agent.Int.{ℤ, pos}
use cyp_agent.Decimal.{Decimal, Result, ok, err, zero_decimal, cmp, gt_zero, lt_zero, of_int64}
use cyp_agent.Decimal.Quotient.{quo}
use cyp_agent.Decimal.Parse.{parse_decimal}
use cyp_agent.Models.{Float, Side, long, short, TradeProposal, Instrument, perp, MarginMode}

pub record Limits : Type 0 where
  pub max_risk_per_trade : Decimal
  pub max_position_pct : Decimal
  pub max_gross_exposure : Decimal
  pub max_symbol_concentration : Decimal
  pub max_correlated_exposure : Decimal
  pub max_cvar_pct : Decimal
  pub max_orders_per_hour : ℤ
  pub max_slippage_bps : Decimal
  pub max_leverage : Decimal
  pub max_margin_pct : Decimal
  pub leverage_step : Decimal
  pub min_liquidation_buffer : Decimal
  pub stop_loss_buffer_multiple : Decimal
  pub volatility_buffer_multiple : Decimal
  pub liquidation_reserve_pct : Decimal
  pub force_isolated : Bool
  pub min_margin_ratio : Decimal
  pub max_price_impact : Decimal
  pub max_gas_quote : Decimal
  pub min_pool_tvl : Decimal
  pub contract_whitelist : List Text
  pub require_private_mempool : Bool
  pub daily_drawdown_limit : Decimal
  pub weekly_drawdown_limit : Decimal
  pub max_drawdown_limit : Decimal
  pub max_consecutive_losses : ℤ

-- `MustDecimal` of a literal with `places` digits behind the point.
abbrev pub literal : ℕ → ℕ → Decimal
literal digits places = record {
  coefficient = pos digits;
  scale = pos places;
  negative_zero = false;
}

unfoldable pub default_limits : Limits
default_limits = record {
  max_risk_per_trade = literal 1 2;
  max_position_pct = literal 20 2;
  max_gross_exposure = literal 100 2;
  max_symbol_concentration = literal 30 2;
  max_correlated_exposure = literal 50 2;
  max_cvar_pct = literal 3 2;
  max_orders_per_hour = pos 10;
  max_slippage_bps = literal 30 0;
  max_leverage = literal 3 0;
  max_margin_pct = literal 10 2;
  leverage_step = literal 1 0;
  min_liquidation_buffer = literal 30 2;
  stop_loss_buffer_multiple = literal 2 0;
  volatility_buffer_multiple = literal 3 0;
  liquidation_reserve_pct = literal 2 2;
  force_isolated = true;
  min_margin_ratio = literal 5 2;
  max_price_impact = literal 1 2;
  max_gas_quote = literal 20 0;
  min_pool_tvl = literal 1000000 0;
  contract_whitelist = [];
  require_private_mempool = true;
  daily_drawdown_limit = literal 3 2;
  weekly_drawdown_limit = literal 8 2;
  max_drawdown_limit = literal 15 2;
  max_consecutive_losses = pos 4;
}

pub data Rule : Type 0 where
  kill_switch reconciling drawdown_circuit consecutive_losses order_rate stop_loss_required : Rule
  leverage margin_budget liq_buffer margin_mode maintenance_margin slippage price_impact : Rule
  infinite_approval contract_whitelist min_pool_tvl gas_cap mev_route per_trade_risk : Rule
  position_cap gross_exposure symbol_concentration correlated_exposure cvar_limit : Rule

pub data Reason : Type 0 where
  no_reason kill_switch_on reconciliation_open stop_loss_missing long_stop_not_below : Reason
  short_stop_not_above leverage_invalid margin_failed approval_unlimited mev_unprotected : Reason
  stop_distance_zero : Reason
  total_drawdown weekly_drawdown daily_drawdown : Decimal → Decimal → Reason
  losses orders : ℤ → ℤ → Reason
  leverage_above : Float → Decimal → Reason
  margin_full : Decimal → Reason
  margin_above : Decimal → Decimal → Decimal → Reason
  buffer_below ratio_below slippage_above impact_above approval_above tvl_below gas_above :
      Decimal → Decimal → Reason
  mode_not_isolated : MarginMode → Reason
  not_whitelisted : Option Text → Reason
  risk_above : Decimal → Decimal → Decimal → Reason
  position_full gross_full symbol_full correlated_full : Decimal → Reason
  position_above gross_above symbol_above correlated_above cvar_above : Decimal → Decimal → Reason

pub data Action : Type 0 where
  action_ok action_reject action_downsize : Action

pub record RuleResult : Type 0 where
  pub rule : Rule
  pub action : Action
  pub reason : Reason
  pub max_size : Option Decimal

-- `ok` and the two other forms of `ruleResult`.
abbrev pub pass : Rule → RuleResult
pass r = record { rule = r; action = action_ok; reason = no_reason; max_size = none }

abbrev pub refuse : Rule → Reason → RuleResult
refuse r why = record { rule = r; action = action_reject; reason = why; max_size = none }

abbrev pub downsize : Rule → Reason → Decimal → RuleResult
downsize r why size = record {
  rule = r;
  action = action_downsize;
  reason = why;
  max_size = some size;
}

-- What the engine takes from Go's libraries: `strconv.FormatFloat(x, 'g', -1, 64)`, the value of
-- `big.Rat.Float64` when it is finite, `math.Max`, `math.Min`, 0.0, 1.0 and `unicode.ToLower`.
pub record Platform : Type 0 where
  pub format_g : Float → Text
  pub of_ratio : ℤ → ℕ → Option Float
  pub float_max : Float → Float → Float
  pub float_min : Float → Float → Float
  pub float_zero : Float
  pub float_one : Float
  pub lower_rune : ℕ → ℕ

abbrev is_open_side : Side → Bool
is_open_side long = true
is_open_side short = true
is_open_side _ = false

unfoldable pub is_open : TradeProposal → Bool
is_open proposal = is_open_side proposal.side

abbrev pub is_long : Side → Bool
is_long long = true
is_long _ = false

abbrev pub is_short : Side → Bool
is_short short = true
is_short _ = false

abbrev pub is_perp : Instrument → Bool
is_perp perp = true
is_perp _ = false

-- `d.Cmp(e) > 0`, `d.Cmp(e) < 0` and `d.Cmp(e) >= 0`.
abbrev pub above : Decimal → Decimal → Bool
above d e = gt_zero (cmp d e)

abbrev pub below : Decimal → Decimal → Bool
below d e = lt_zero (cmp d e)

abbrev value_or_zero : Result Decimal → Decimal
value_or_zero (ok value) = value
value_or_zero (err _) = zero_decimal

unfoldable pub must_quo : Decimal → Decimal → Decimal
must_quo numerator denominator = value_or_zero (quo numerator denominator)

-- `contracts.ParseDecimal(strconv.FormatFloat(leverage, 'g', -1, 64))`.
unfoldable pub parse_leverage : Platform → Float → Result Decimal
parse_leverage platform x = parse_decimal (platform.format_g x)
