-- ===== src/Risk/Tests.antt =====
-- The engine on a sample proposal: 5000 of an account of 10000 of which 9000 are in use.
use mathlib.Core.Path.{subst}
use cyp_agent.Base.{ℕ, ◌≤◌, some_eq, ◌≡◌, ◌≢◌, refl, true, none, false, some, arith, trim_space}
use cyp_agent.Int.{◌+ℤ◌, ◌-ℤ◌, neg, ◌*ℤ◌}
use cyp_agent.Decimal.{
  Decimal, of_int64, cmp_ℤ, rescale, common_scale, align_decimals, add, neg_decimal, sub, mul,
  abs_decimal, cmp,
}
use cyp_agent.Decimal.Quotient.{
  scaled_parts, round_away, round_quotient, quo_rounded, quo_scale, normalize_loop, normalize, quo,
}
use cyp_agent.Decimal.Parse.{
  cut, ascii_digits, digits_value, parse_int32, split_exponent, split_point, trim_zeros, of_digits,
  at_scale, parse_decimal,
}
use cyp_agent.Models.{approved, downsized, rejected, flat, TradeProposal, RiskContext}
use cyp_agent.Risk.{action_ok, literal, default_limits, must_quo, parse_leverage, is_open}
use cyp_agent.Risk.Account.{
  rule_kill_switch, rule_reconciling, rule_drawdown, rule_consecutive_losses, rule_order_rate,
  rule_stop_loss,
}
use cyp_agent.Risk.Margin.{
  rule_leverage, rule_margin_budget, rule_liquidation_buffer, rule_margin_mode,
  rule_maintenance_margin,
}
use cyp_agent.Risk.Chain.{
  rule_slippage, rule_price_impact, rule_infinite_approval, rule_contract_whitelist,
  rule_min_pool_tvl, rule_gas_cap, rule_mev_route,
}
use cyp_agent.Risk.Exposure.{
  stop_fraction, rule_per_trade_risk, rule_position_cap, rule_gross_exposure,
  rule_symbol_concentration, rule_correlated_exposure, rule_cvar,
}
use cyp_agent.Risk.Assess.{assess, all_rules, rejects, violations, adjust, conclude}
use cyp_agent.Risk.Verdict.{IsCleared, assess-IsCleared}
use cyp_agent.Risk.Limit.{final_size}
use cyp_agent.Decimal.Places.{IsWithin}
use cyp_agent.Samples.{two_platform, btc_proposal, busy_account}
use cyp_agent.Risk.Caps.{InputsInRange}
use cyp_agent.Risk.Closing.{assess-closing}
use cyp_agent.Risk.Bounds.{IsInsideLimits, assess-IsInsideLimits}

sample_verdict : (assess two_platform btc_proposal busy_account default_limits).verdict ≡ downsized
unfolding assess all_rules rejects violations adjust conclude rule_kill_switch rule_reconciling
    rule_drawdown rule_consecutive_losses rule_order_rate rule_stop_loss rule_leverage
    rule_margin_budget rule_liquidation_buffer rule_margin_mode rule_maintenance_margin
    rule_slippage rule_price_impact rule_infinite_approval rule_contract_whitelist rule_min_pool_tvl
    rule_gas_cap rule_mev_route stop_fraction rule_per_trade_risk rule_position_cap
    rule_gross_exposure rule_symbol_concentration rule_correlated_exposure rule_cvar default_limits
    must_quo parse_leverage is_open cmp_ℤ rescale common_scale align_decimals add neg_decimal sub
    mul abs_decimal cmp scaled_parts round_away round_quotient quo_rounded quo_scale normalize_loop
    normalize quo cut ascii_digits digits_value parse_int32 split_exponent split_point trim_zeros
    of_digits at_scale parse_decimal ◌+ℤ◌ ◌-ℤ◌ neg ◌*ℤ◌ trim_space of_int64
sample_verdict = refl

sample_size :
    final_size (assess two_platform btc_proposal busy_account default_limits) (literal 5000 0)
    ≡ literal 99950 2
unfolding assess all_rules rejects violations adjust conclude rule_kill_switch rule_reconciling
    rule_drawdown rule_consecutive_losses rule_order_rate rule_stop_loss rule_leverage
    rule_margin_budget rule_liquidation_buffer rule_margin_mode rule_maintenance_margin
    rule_slippage rule_price_impact rule_infinite_approval rule_contract_whitelist rule_min_pool_tvl
    rule_gas_cap rule_mev_route stop_fraction rule_per_trade_risk rule_position_cap
    rule_gross_exposure rule_symbol_concentration rule_correlated_exposure rule_cvar default_limits
    must_quo parse_leverage is_open cmp_ℤ rescale common_scale align_decimals add neg_decimal sub
    mul abs_decimal cmp scaled_parts round_away round_quotient quo_rounded quo_scale normalize_loop
    normalize quo cut ascii_digits digits_value parse_int32 split_exponent split_point trim_zeros
    of_digits at_scale parse_decimal ◌+ℤ◌ ◌-ℤ◌ neg ◌*ℤ◌ trim_space of_int64
sample_size = refl

sample_opens : is_open btc_proposal ≡ true
unfolding is_open
sample_opens = refl

sample_passes : (assess two_platform btc_proposal busy_account default_limits).verdict ≢ rejected
sample_passes h = ground (arith, sample_verdict)

few_places : (n s : ℕ) → s ≤ 10000 → IsWithin 10000 (literal n s)
few_places n s h = record { nonneg = refl; at_most = h }

few_places_option :
    (n s : ℕ) → s ≤ 10000 → (d : Decimal) → some (literal n s) ≡ some d → IsWithin 10000 d
few_places_option n s h d e = subst (IsWithin 10000) (some_eq (literal n s) d e) (few_places n s h)

sample_inputs : InputsInRange btc_proposal busy_account default_limits
unfolding default_limits
sample_inputs = record {
  size = few_places 5000 0 (omega arith);
  existing = few_places 0 0 (omega arith);
  equity = few_places 10000 0 (omega arith);
  gross = few_places 9000 0 (omega arith);
  symbol = few_places 0 0 (omega arith);
  correlated = few_places_option 40005 1 (omega arith);
  margin_pct = few_places 10 2 (omega arith);
  position_pct = few_places 20 2 (omega arith);
  gross_pct = few_places 100 2 (omega arith);
  symbol_pct = few_places 30 2 (omega arith);
  correlated_pct = few_places 50 2 (omega arith);
}

assess-IsInsideLimits_example :
    IsInsideLimits btc_proposal busy_account default_limits
      (final_size (assess two_platform btc_proposal busy_account default_limits) (literal 5000 0))
assess-IsInsideLimits_example =
    assess-IsInsideLimits two_platform btc_proposal busy_account default_limits sample_inputs
      sample_opens sample_passes

assess-IsCleared_example : IsCleared two_platform btc_proposal busy_account default_limits
assess-IsCleared_example =
    assess-IsCleared two_platform btc_proposal busy_account default_limits sample_opens
      sample_passes

abbrev closing_proposal : TradeProposal
closing_proposal = record btc_proposal { side = flat; stop_loss = none }

abbrev killed_account : RiskContext
killed_account = record busy_account { kill = true; reconciling = true }

closing_opens_nothing : is_open closing_proposal ≡ false
unfolding is_open
closing_opens_nothing = refl

closing_slippage : (rule_slippage killed_account default_limits).action ≡ action_ok
unfolding rule_slippage default_limits cmp_ℤ rescale common_scale align_decimals cmp must_quo ◌-ℤ◌
closing_slippage = refl

closing_impact : (rule_price_impact killed_account default_limits).action ≡ action_ok
unfolding rule_price_impact
closing_impact = refl

closing_gas : (rule_gas_cap killed_account default_limits).action ≡ action_ok
unfolding rule_gas_cap
closing_gas = refl

assess-closing_example :
    ((assess two_platform closing_proposal killed_account default_limits).verdict ≡ approved)
    × ((assess two_platform closing_proposal killed_account default_limits).adjusted_size_quote
        ≡ none)
assess-closing_example =
    assess-closing two_platform closing_proposal killed_account default_limits closing_opens_nothing
      closing_slippage closing_impact closing_gas
