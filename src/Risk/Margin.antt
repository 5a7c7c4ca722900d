-- ===== src/Risk/Margin.antt =====
-- internal/risk/engine.go: the rules on leverage, margin and the distance to liquidation.
use cyp_agent.Base.{Bool, true, false, ◌&&◌, ◌||◌, not, Option, none, some, if◌then◌else◌}
use cyp_agent.Decimal.{
  Decimal, Result, ok, err, add, sub, mul, abs_decimal, is_positive, zero_decimal,
}
use cyp_agent.Decimal.Quotient.{quo}
use cyp_agent.Models.{
  TradeProposal, RiskContext, AddOnPlan, LeveragePlan, MarginMode, isolated, Float,
}
use cyp_agent.Risk.{
  Limits, RuleResult, Platform, pass, refuse, downsize, leverage, margin_budget, liq_buffer,
  margin_mode, maintenance_margin, leverage_above, leverage_invalid, margin_failed, margin_full,
  margin_above, buffer_below, mode_not_isolated, ratio_below, is_open, is_perp, above, below,
  must_quo, parse_leverage,
}

abbrev pub is_isolated : MarginMode → Bool
is_isolated isolated = true
is_isolated _ = false

-- The existing notional of an add-on, 0 for a first entry.
abbrev pub existing_notional : Option AddOnPlan → Decimal
existing_notional none = zero_decimal
existing_notional (some plan) = plan.existing_notional_quote

-- The size with the existing notional added where there is an add-on plan.
abbrev pub with_existing : Option AddOnPlan → Decimal → Decimal
with_existing none size = size
with_existing (some plan) size = add size plan.existing_notional_quote

abbrev check_leverage : Float → Limits → Result Decimal → RuleResult
check_leverage shown limits (err _) = refuse leverage (leverage_above shown limits.max_leverage)
check_leverage shown limits (ok value) =
    if above value limits.max_leverage
    then refuse leverage (leverage_above shown limits.max_leverage)
    else pass leverage

unfoldable pub rule_leverage : Platform → TradeProposal → Limits → RuleResult
rule_leverage platform proposal limits =
    if not (is_open proposal)
    then pass leverage
    else check_leverage proposal.leverage limits (parse_leverage platform proposal.leverage)

-- The comparison of the margin with the budget.
abbrev pub check_margin : TradeProposal → Decimal → Decimal → Result Decimal → RuleResult
check_margin proposal budget value (err _) = refuse margin_budget margin_failed
check_margin proposal budget value (ok margin) =
    let max_size = sub (mul budget value) (existing_notional proposal.add_on_plan) in
    if above margin budget
    then if not (is_positive max_size)
      then refuse margin_budget (margin_full budget)
      else downsize margin_budget (margin_above margin budget max_size) max_size
    else pass margin_budget

abbrev pub check_margin_leverage :
    TradeProposal → RiskContext → Limits → Result Decimal → RuleResult
check_margin_leverage proposal ctx limits (err _) = refuse margin_budget leverage_invalid
check_margin_leverage proposal ctx limits (ok value) =
    if not (is_positive value)
    then refuse margin_budget leverage_invalid
    else check_margin proposal (mul ctx.equity_quote limits.max_margin_pct) value
        (quo (with_existing proposal.add_on_plan proposal.size_quote) value)

unfoldable pub rule_margin_budget : Platform → TradeProposal → RiskContext → Limits → RuleResult
rule_margin_budget platform proposal ctx limits =
    if not (is_open proposal)
      || not (is_perp proposal.instrument)
      || not (is_positive ctx.equity_quote)
      || not (is_positive limits.max_margin_pct)
    then pass margin_budget
    else check_margin_leverage proposal ctx limits (parse_leverage platform proposal.leverage)

-- The larger of the policy's buffer and the plan's.
abbrev required_buffer : Limits → Option LeveragePlan → Decimal
required_buffer limits none = add limits.min_liquidation_buffer limits.liquidation_reserve_pct
required_buffer limits (some plan) =
    let required = add limits.min_liquidation_buffer limits.liquidation_reserve_pct in
    if above plan.required_liquidation_buffer required
    then plan.required_liquidation_buffer
    else required

abbrev check_buffer : TradeProposal → RiskContext → Limits → Option Decimal → RuleResult
check_buffer proposal ctx limits none = pass liq_buffer
check_buffer proposal ctx limits (some price) =
    let buffer = must_quo (abs_decimal (sub ctx.ref_price price)) ctx.ref_price in
    let required = required_buffer limits proposal.leverage_plan in
    if below buffer required
    then refuse liq_buffer (buffer_below buffer required)
    else pass liq_buffer

unfoldable pub rule_liquidation_buffer : TradeProposal → RiskContext → Limits → RuleResult
rule_liquidation_buffer proposal ctx limits =
    if not (is_open proposal)
      || not (is_perp proposal.instrument)
      || not (is_positive ctx.ref_price)
    then pass liq_buffer
    else check_buffer proposal ctx limits ctx.estimated_liquidation_price

unfoldable pub rule_margin_mode : TradeProposal → Limits → RuleResult
rule_margin_mode proposal limits =
    if is_open proposal
      && is_perp proposal.instrument
      && limits.force_isolated
      && not (is_isolated proposal.margin_mode)
    then refuse margin_mode (mode_not_isolated proposal.margin_mode)
    else pass margin_mode

unfoldable pub rule_maintenance_margin : TradeProposal → RiskContext → Limits → RuleResult
rule_maintenance_margin proposal ctx limits = elim ctx.margin_ratio [
  | none ↦ pass maintenance_margin
  | some ratio ↦
      if is_open proposal && is_perp proposal.instrument && below ratio limits.min_margin_ratio
      then refuse maintenance_margin (ratio_below ratio limits.min_margin_ratio)
      else pass maintenance_margin
]
