-- ===== src/Risk/Exposure.antt =====
-- internal/risk/engine.go: the rules that bound the size of the position.
use cyp_agent.Base.{◌&&◌, ◌||◌, not, none, some, if◌then◌else◌}
use cyp_agent.Decimal.{Decimal, sub, mul, abs_decimal, is_positive}
use cyp_agent.Models.{TradeProposal, RiskContext}
use cyp_agent.Risk.{
  Limits, RuleResult, Rule, Reason, pass, refuse, downsize, per_trade_risk, position_cap,
  gross_exposure, symbol_concentration, correlated_exposure, cvar_limit, stop_distance_zero,
  risk_above, position_full, position_above, gross_full, gross_above, symbol_full, symbol_above,
  correlated_full, correlated_above, cvar_above, is_open, above, must_quo,
}
use cyp_agent.Risk.Margin.{existing_notional, with_existing}

-- The distance of the stop as a fraction of the price.
unfoldable pub stop_fraction : RiskContext → Decimal → Decimal
stop_fraction ctx stop = must_quo (abs_decimal (sub ctx.ref_price stop)) ctx.ref_price

unfoldable pub rule_per_trade_risk : TradeProposal → RiskContext → Limits → RuleResult
rule_per_trade_risk proposal ctx limits = elim proposal.stop_loss [
  | none ↦ pass per_trade_risk
  | some stop ↦
      let fraction = stop_fraction ctx stop in
      let risk_quote = mul proposal.size_quote fraction in
      let budget = mul ctx.equity_quote limits.max_risk_per_trade in
      let max_size = must_quo budget fraction in
      if not (is_open proposal) || not (is_positive ctx.ref_price)
      then pass per_trade_risk
      else if not (is_positive fraction)
      then refuse per_trade_risk stop_distance_zero
      else if above risk_quote budget
      then downsize per_trade_risk (risk_above risk_quote budget max_size) max_size
      else pass per_trade_risk
]

unfoldable pub rule_position_cap : TradeProposal → RiskContext → Limits → RuleResult
rule_position_cap proposal ctx limits =
    let limit = mul ctx.equity_quote limits.max_position_pct in
    let notional = with_existing proposal.add_on_plan proposal.size_quote in
    let max_size = sub limit (existing_notional proposal.add_on_plan) in
    if not (is_open proposal)
    then pass position_cap
    else if above notional limit
    then if not (is_positive max_size)
      then refuse position_cap (position_full limit)
      else downsize position_cap (position_above notional limit) max_size
    else pass position_cap

-- The two comparisons that the three exposure rules share: no room, and too little room.
abbrev pub check_room :
    Rule
    → (Decimal → Reason)
    → (Decimal → Decimal → Reason)
    → Decimal
    → Decimal
    → Decimal
    → RuleResult
check_room rule full over limit room size =
    if not (is_positive room)
    then refuse rule (full limit)
    else if above size room
    then downsize rule (over limit room) room
    else pass rule

unfoldable pub rule_gross_exposure : TradeProposal → RiskContext → Limits → RuleResult
rule_gross_exposure proposal ctx limits =
    let limit = mul ctx.equity_quote limits.max_gross_exposure in
    let room = sub limit ctx.gross_exposure_quote in
    if not (is_open proposal)
    then pass gross_exposure
    else check_room gross_exposure gross_full gross_above limit room proposal.size_quote

unfoldable pub rule_symbol_concentration : TradeProposal → RiskContext → Limits → RuleResult
rule_symbol_concentration proposal ctx limits =
    let limit = mul ctx.equity_quote limits.max_symbol_concentration in
    let room = sub limit ctx.symbol_exposure_quote in
    if not (is_open proposal)
    then pass symbol_concentration
    else check_room symbol_concentration symbol_full symbol_above limit room proposal.size_quote

unfoldable pub rule_correlated_exposure : TradeProposal → RiskContext → Limits → RuleResult
rule_correlated_exposure proposal ctx limits = elim ctx.correlated_exposure_quote [
  | none ↦ pass correlated_exposure
  | some exposure ↦
      let limit = mul ctx.equity_quote limits.max_correlated_exposure in
      let room = sub limit exposure in
      if not (is_open proposal)
      then pass correlated_exposure
      else check_room correlated_exposure correlated_full correlated_above limit room
          proposal.size_quote
]

unfoldable pub rule_cvar : TradeProposal → RiskContext → Limits → RuleResult
rule_cvar proposal ctx limits = elim ctx.portfolio_cvar_quote [
  | none ↦ pass cvar_limit
  | some cvar ↦
      let limit = mul ctx.equity_quote limits.max_cvar_pct in
      if is_open proposal && above cvar limit
      then refuse cvar_limit (cvar_above cvar limit)
      else pass cvar_limit
]
