-- ===== src/Risk/Closing.antt =====
-- A proposal that opens nothing is not held back by the rules for opening.
use cyp_agent.Base.{◌≡◌, refl, false, none, List, [], ◌∷◌, arith, All}
use cyp_agent.Models.{approved, TradeProposal, RiskContext}
use cyp_agent.Risk.{Limits, RuleResult, action_ok, Platform, is_open}
use cyp_agent.Risk.Account.{
  rule_kill_switch, rule_reconciling, rule_drawdown, rule_consecutive_losses, rule_order_rate,
  rule_stop_loss,
}
use cyp_agent.Risk.Margin.{
  rule_leverage, rule_margin_budget, rule_liquidation_buffer, rule_margin_mode,
  rule_maintenance_margin,
}
use cyp_agent.Risk.Chain.{
  rule_slippage, rule_price_impact, rule_infinite_approval, rule_contract_whitelist,
  rule_min_pool_tvl, rule_gas_cap, rule_mev_route,
}
use cyp_agent.Risk.Exposure.{
  rule_per_trade_risk, rule_position_cap, rule_gross_exposure, rule_symbol_concentration,
  rule_correlated_exposure, rule_cvar,
}
use cyp_agent.Risk.Assess.{all_rules, rejects, violations, conclude, assess}

abbrev Passes : RuleResult → Type 0
Passes r = r.action ≡ action_ok

rejects-Passes :
    (results : List RuleResult)
    → All Passes results
    → (rejects results ≡ []) × (violations results ≡ [])
unfolding rejects violations
rejects-Passes [] h = (refl, refl)
rejects-Passes (r ∷ rest) h = ground (arith, rejects-Passes rest)

conclude-Passes :
    (platform : Platform) (proposal : TradeProposal) (ctx : RiskContext) (limits : Limits)
    (results : List RuleResult)
    → All Passes results
    → ((conclude platform proposal ctx limits results).verdict ≡ approved)
      × ((conclude platform proposal ctx limits results).adjusted_size_quote ≡ none)
unfolding conclude
conclude-Passes platform proposal ctx limits results h =
    let (r, v) = rejects-Passes results h in ground arith

module _ (platform : Platform) (proposal : TradeProposal) (ctx : RiskContext) (limits : Limits)
    (closes : is_open proposal ≡ false) where
  account-Passes :
      Passes (rule_kill_switch proposal ctx)
      × Passes (rule_reconciling proposal ctx)
      × Passes (rule_drawdown proposal ctx limits)
      × Passes (rule_consecutive_losses proposal ctx limits)
      × Passes (rule_order_rate proposal ctx limits)
      × Passes (rule_stop_loss proposal ctx)
  unfolding rule_kill_switch rule_reconciling rule_drawdown rule_consecutive_losses rule_order_rate
      rule_stop_loss
  account-Passes =
      (ground arith, ground arith, ground arith, ground arith, ground arith, ground arith)

  margin-Passes :
      Passes (rule_leverage platform proposal limits)
      × Passes (rule_margin_budget platform proposal ctx limits)
      × Passes (rule_liquidation_buffer proposal ctx limits)
      × Passes (rule_margin_mode proposal limits)
  unfolding rule_leverage rule_margin_budget rule_liquidation_buffer rule_margin_mode
  margin-Passes = (ground arith, ground arith, ground arith, ground arith)

  chain-Passes :
      Passes (rule_infinite_approval proposal ctx)
      × Passes (rule_contract_whitelist platform proposal ctx limits)
      × Passes (rule_min_pool_tvl proposal ctx limits)
      × Passes (rule_mev_route proposal ctx limits)
  unfolding rule_infinite_approval rule_contract_whitelist rule_min_pool_tvl rule_mev_route
  chain-Passes = (ground arith, ground arith, ground arith, ground arith)

  exposure-Passes :
      Passes (rule_per_trade_risk proposal ctx limits)
      × Passes (rule_position_cap proposal ctx limits)
      × Passes (rule_gross_exposure proposal ctx limits)
      × Passes (rule_symbol_concentration proposal ctx limits)
      × Passes (rule_correlated_exposure proposal ctx limits)
      × Passes (rule_cvar proposal ctx limits)
  unfolding rule_per_trade_risk rule_position_cap rule_gross_exposure rule_symbol_concentration
      rule_correlated_exposure rule_cvar
  exposure-Passes =
      (ground arith, ground arith, ground arith, ground arith, ground arith, ground arith)

  maintenance-Passes : Passes (rule_maintenance_margin proposal ctx limits)
  unfolding rule_maintenance_margin
  maintenance-Passes = ground arith

-- A proposal that opens no position is approved at the size it asks for, with no size adjusted,
-- whenever the rules on slippage, price impact and gas pass: the kill switch, an unfinished
-- reconciliation, a drawdown, a losing streak, the order rate, a missing stop loss and every rule
-- on margin, leverage, exposure and the chain never hold it back.
pub assess-closing :
    (platform : Platform) (proposal : TradeProposal) (ctx : RiskContext) (limits : Limits)
    → is_open proposal ≡ false
    → Passes (rule_slippage ctx limits)
    → Passes (rule_price_impact ctx limits)
    → Passes (rule_gas_cap ctx limits)
    → ((assess platform proposal ctx limits).verdict ≡ approved)
      × ((assess platform proposal ctx limits).adjusted_size_quote ≡ none)
unfolding assess all_rules
assess-closing platform proposal ctx limits closes slippage impact gas =
    let (a1, a2, a3, a4, a5, a6) = account-Passes platform proposal ctx limits closes in
    let (m1, m2, m3, m4) = margin-Passes platform proposal ctx limits closes in
    let (c1, c2, c3, c4) = chain-Passes platform proposal ctx limits closes in
    let (e1, e2, e3, e4, e5, e6) = exposure-Passes platform proposal ctx limits closes in
    let kept = maintenance-Passes platform proposal ctx limits closes in
    conclude-Passes platform proposal ctx limits (all_rules platform proposal ctx limits) (
      a1,
      (
        a2,
        (
          a3,
          (
            a4,
            (
              a5,
              (
                a6,
                (
                  m1,
                  (
                    m2,
                    (
                      m3,
                      (
                        m4,
                        (
                          kept,
                          (
                            slippage,
                            (
                              impact,
                              (c1, (c2, (c3, (gas, (c4, (e1, (e2, (e3, (e4, (e5, (e6, tt))))))))))),
                            ),
                          ),
                        ),
                      ),
                    ),
                  ),
                ),
              ),
            ),
          ),
        ),
      ),
    )
