-- ===== src/Risk/Assess.antt =====
-- internal/risk/engine.go: `Assess`, and the score of `baseRiskScore`.
use cyp_agent.Base.{
  Bool, true, false, ◌&&◌, ◌||◌, not, Option, none, some, List, [], ◌∷◌, ◌++◌, if◌then◌else◌,
}
use cyp_agent.Decimal.{Decimal, Result, ok, err, add, mul, is_positive, pow10}
use cyp_agent.Decimal.Quotient.{quo}
use cyp_agent.Models.{Float, Verdict, approved, downsized, rejected, TradeProposal, RiskContext}
use cyp_agent.Risk.{
  Limits, RuleResult, Rule, Reason, Action, action_reject, action_downsize, Platform, is_open,
  is_perp, below, must_quo, parse_leverage,
}
use cyp_agent.Risk.Account.{
  rule_kill_switch, rule_reconciling, rule_drawdown, rule_consecutive_losses, rule_order_rate,
  rule_stop_loss,
}
use cyp_agent.Risk.Margin.{
  rule_leverage, rule_margin_budget, rule_liquidation_buffer, rule_margin_mode,
  rule_maintenance_margin, with_existing,
}
use cyp_agent.Risk.Chain.{
  rule_slippage, rule_price_impact, rule_infinite_approval, rule_contract_whitelist,
  rule_min_pool_tvl, rule_gas_cap, rule_mev_route,
}
use cyp_agent.Risk.Exposure.{
  rule_per_trade_risk, rule_position_cap, rule_gross_exposure, rule_symbol_concentration,
  rule_correlated_exposure, rule_cvar, stop_fraction,
}

-- `contracts.RiskAssessment` as `Assess` fills it; a violation is a rule with its reason, and the
-- notes stay empty.
pub record Assessment : Type 0 where
  pub verdict : Verdict
  pub hard_violations : List (Rule × Reason)
  pub adjusted_size_quote : Option Decimal
  pub risk_score : Float
  pub llm_reviewed : Bool

unfoldable pub all_rules : Platform → TradeProposal → RiskContext → Limits → List RuleResult
all_rules platform proposal ctx limits =
    rule_kill_switch proposal ctx
    ∷ rule_reconciling proposal ctx
    ∷ rule_drawdown proposal ctx limits
    ∷ rule_consecutive_losses proposal ctx limits
    ∷ rule_order_rate proposal ctx limits
    ∷ rule_stop_loss proposal ctx
    ∷ rule_leverage platform proposal limits
    ∷ rule_margin_budget platform proposal ctx limits
    ∷ rule_liquidation_buffer proposal ctx limits
    ∷ rule_margin_mode proposal limits
    ∷ rule_maintenance_margin proposal ctx limits
    ∷ rule_slippage ctx limits
    ∷ rule_price_impact ctx limits
    ∷ rule_infinite_approval proposal ctx
    ∷ rule_contract_whitelist platform proposal ctx limits
    ∷ rule_min_pool_tvl proposal ctx limits
    ∷ rule_gas_cap ctx limits
    ∷ rule_mev_route proposal ctx limits
    ∷ rule_per_trade_risk proposal ctx limits
    ∷ rule_position_cap proposal ctx limits
    ∷ rule_gross_exposure proposal ctx limits
    ∷ rule_symbol_concentration proposal ctx limits
    ∷ rule_correlated_exposure proposal ctx limits
    ∷ rule_cvar proposal ctx limits
    ∷ []

abbrev pub is_reject : Action → Bool
is_reject action_reject = true
is_reject _ = false

abbrev pub is_downsize : Action → Bool
is_downsize action_downsize = true
is_downsize _ = false

-- The two loops over the results.
unfoldable pub rejects : List RuleResult → List (Rule × Reason)
rejects [] = []
rejects (r ∷ rest) =
    let more = rejects rest in if is_reject r.action then (r.rule, r.reason) ∷ more else more

unfoldable pub violations : List RuleResult → List (Rule × Reason)
violations [] = []
violations (r ∷ rest) =
    let more = violations rest in if is_downsize r.action then (r.rule, r.reason) ∷ more else more

abbrev pub smaller : Option Decimal → Decimal → Decimal
smaller none adjusted = adjusted
smaller (some size) adjusted = if below size adjusted then size else adjusted

unfoldable pub adjust : List RuleResult → Decimal → Decimal
adjust [] adjusted = adjusted
adjust (r ∷ rest) adjusted =
    adjust rest (if is_downsize r.action then smaller r.max_size adjusted else adjusted)

-- `Decimal.Float64`.
unfoldable pub to_float : Platform → Decimal → Option Float
to_float platform d = platform.of_ratio d.coefficient (pow10 d.scale)

-- `append` under a condition.
abbrev when : Bool → Decimal → List Decimal
when true ratio = ratio ∷ []
when false ratio = []

abbrev leverage_ratio : Limits → Result Decimal → List Decimal
leverage_ratio limits (err _) = []
leverage_ratio limits (ok value) =
    when (is_positive limits.max_leverage) (must_quo value limits.max_leverage)

abbrev margin_of : Decimal → Result Decimal → List Decimal
margin_of limit (err _) = []
margin_of limit (ok margin) = when (is_positive limit) (must_quo margin limit)

abbrev margin_ratio_of :
    TradeProposal → RiskContext → Limits → Decimal → Result Decimal → List Decimal
margin_ratio_of proposal ctx limits size (err _) = []
margin_ratio_of proposal ctx limits size (ok value) =
    if is_perp proposal.instrument && is_positive limits.max_margin_pct && is_positive value
    then margin_of (mul ctx.equity_quote limits.max_margin_pct)
        (quo (with_existing proposal.add_on_plan size) value)
    else []

abbrev stop_ratio : RiskContext → Limits → Decimal → Option Decimal → List Decimal
stop_ratio ctx limits size none = []
stop_ratio ctx limits size (some stop) =
    let budget = mul ctx.equity_quote limits.max_risk_per_trade in
    when (is_positive ctx.ref_price && is_positive limits.max_risk_per_trade && is_positive budget)
      (must_quo (mul size (stop_fraction ctx stop)) budget)

abbrev cvar_ratio : RiskContext → Limits → Option Decimal → List Decimal
cvar_ratio ctx limits none = []
cvar_ratio ctx limits (some cvar) =
    let limit = mul ctx.equity_quote limits.max_cvar_pct in
    when (is_positive limits.max_cvar_pct && is_positive limit) (must_quo cvar limit)

unfoldable pub score_ratios :
    Platform → TradeProposal → RiskContext → Limits → Decimal → List Decimal
score_ratios platform proposal ctx limits size =
    let value = parse_leverage platform proposal.leverage in
    let position_limit = mul ctx.equity_quote limits.max_position_pct in
    let gross_limit = mul ctx.equity_quote limits.max_gross_exposure in
    leverage_ratio limits value
    ++ (when (is_positive limits.max_position_pct && is_positive position_limit)
          (must_quo (with_existing proposal.add_on_plan size) position_limit)
        ++ (margin_ratio_of proposal ctx limits size value
            ++ (stop_ratio ctx limits size proposal.stop_loss
                ++ (when (is_positive limits.max_gross_exposure && is_positive gross_limit)
                      (must_quo (add ctx.gross_exposure_quote size) gross_limit)
                    ++ cvar_ratio ctx limits ctx.portfolio_cvar_quote))))

abbrev max_with : Platform → Float → Option Float → Float
max_with platform maximum none = maximum
max_with platform maximum (some value) = platform.float_max maximum value

-- The last loop of `baseRiskScore`.
unfoldable pub maximum_ratio : Platform → Float → List Decimal → Float
maximum_ratio platform maximum [] = maximum
maximum_ratio platform maximum (ratio ∷ rest) =
    maximum_ratio platform (max_with platform maximum (to_float platform ratio)) rest

unfoldable pub base_risk_score : Platform → TradeProposal → RiskContext → Limits → Decimal → Float
base_risk_score platform proposal ctx limits size =
    if not (is_open proposal) || not (is_positive ctx.equity_quote)
    then platform.float_zero
    else platform.float_max platform.float_zero (
        platform.float_min platform.float_one (
          maximum_ratio platform platform.float_zero
            (score_ratios platform proposal ctx limits size)))

abbrev is_nil : List (Rule × Reason) → Bool
is_nil [] = true
is_nil (_ ∷ _) = false

-- `Assess`, on the results of the rules.
unfoldable pub conclude :
    Platform → TradeProposal → RiskContext → Limits → List RuleResult → Assessment
conclude platform proposal ctx limits results =
    let adjusted = adjust results proposal.size_quote in
    if not (is_nil (rejects results))
    then record {
      verdict = rejected;
      hard_violations = rejects results;
      adjusted_size_quote = none;
      risk_score = platform.float_one;
      llm_reviewed = false;
    }
    else if not (is_nil (violations results))
    then record {
      verdict = downsized;
      hard_violations = violations results;
      adjusted_size_quote = some adjusted;
      risk_score = base_risk_score platform proposal ctx limits adjusted;
      llm_reviewed = false;
    }
    else record {
      verdict = approved;
      hard_violations = [];
      adjusted_size_quote = none;
      risk_score = base_risk_score platform proposal ctx limits proposal.size_quote;
      llm_reviewed = false;
    }

unfoldable pub assess : Platform → TradeProposal → RiskContext → Limits → Assessment
assess platform proposal ctx limits =
    conclude platform proposal ctx limits (all_rules platform proposal ctx limits)
