-- ===== src/Risk/Caps.antt =====
-- The caps that the rules set are decimals in range, for inputs of at most 10000 places.
use cyp_agent.Base.{◌≡◌, refl, none, some, arith, All, Option-cases, inl, inr}
use cyp_agent.Decimal.{Decimal, Result, ok, err, Result-cases, mul, sub}
use cyp_agent.Decimal.Quotient.{quo}
use cyp_agent.Decimal.Parse.{parse_decimal-IsParsed}
use cyp_agent.Decimal.Exact.{IsScaled}
use cyp_agent.Decimal.Places.{IsWithin, IsWithin-IsScaled, sub-IsWithin, mul-IsWithin, quo-IsWithin}
use cyp_agent.Models.{TradeProposal, RiskContext}
use cyp_agent.Risk.{Limits, RuleResult, Rule, Reason, Platform, must_quo, parse_leverage}
use cyp_agent.Risk.Account.{
  rule_kill_switch, rule_reconciling, rule_drawdown, rule_consecutive_losses, rule_order_rate,
  rule_stop_loss,
}
use cyp_agent.Risk.Margin.{
  rule_leverage, rule_margin_budget, rule_liquidation_buffer, rule_margin_mode,
  rule_maintenance_margin, existing_notional, with_existing, check_margin,
}
use cyp_agent.Risk.Chain.{
  rule_slippage, rule_price_impact, rule_infinite_approval, rule_contract_whitelist,
  rule_min_pool_tvl, rule_gas_cap, rule_mev_route,
}
use cyp_agent.Risk.Exposure.{
  rule_per_trade_risk, rule_position_cap, rule_gross_exposure, rule_symbol_concentration,
  rule_correlated_exposure, rule_cvar, check_room, stop_fraction,
}
use cyp_agent.Risk.Assess.{all_rules}
use cyp_agent.Risk.Limit.{IsScaledResult}

-- What parsing gives: between 0 and 10000 places.
abbrev pub InRange : Decimal → Type 0
InRange = IsWithin 10000

pub record InputsInRange (proposal : TradeProposal) (ctx : RiskContext) (limits : Limits)
    : Type 0 where
  pub size : InRange proposal.size_quote
  pub existing : InRange (existing_notional proposal.add_on_plan)
  pub equity : InRange ctx.equity_quote
  pub gross : InRange ctx.gross_exposure_quote
  pub symbol : InRange ctx.symbol_exposure_quote
  pub correlated : (d : Decimal) → ctx.correlated_exposure_quote ≡ some d → InRange d
  pub margin_pct : InRange limits.max_margin_pct
  pub position_pct : InRange limits.max_position_pct
  pub gross_pct : InRange limits.max_gross_exposure
  pub symbol_pct : InRange limits.max_symbol_concentration
  pub correlated_pct : InRange limits.max_correlated_exposure

pub must_quo-IsScaled : (d e : Decimal) → IsScaled (must_quo d e)
unfolding must_quo
must_quo-IsScaled d e = elim (Result-cases (quo d e)) [
  | inl (q, h) ↦ rw h (IsWithin-IsScaled 28 q (omega arith) (quo-IsWithin d e h))
  | inr (error, h) ↦ rw h (record { nonneg = refl; bounded = omega arith })
]

-- A limit on the equity less what is used of it.
pub room-IsScaled :
    (equity pct used : Decimal)
    → InRange equity
    → InRange pct
    → InRange used
    → IsScaled (sub (mul equity pct) used)
room-IsScaled equity pct used v w x =
    IsWithin-IsScaled 20000 (sub (mul equity pct) used) (omega arith) (
      sub-IsWithin 20000 (mul equity pct) used (omega arith)
        (mul-IsWithin 10000 10000 equity pct (omega arith) v w)
        (record { nonneg = x.nonneg; at_most = omega arith }))

check_room-IsScaledResult :
    (rule : Rule) (full : Decimal → Reason) (over : Decimal → Decimal → Reason)
    (limit room size : Decimal)
    → IsScaled room
    → IsScaledResult (check_room rule full over limit room size)
check_room-IsScaledResult rule full over limit room size v m e = ground arith

module _ (platform : Platform) (proposal : TradeProposal) (ctx : RiskContext)
    (limits : Limits) where
  -- Most rules set no cap.
  kill_switch-uncapped : (rule_kill_switch proposal ctx).max_size ≡ none
  unfolding rule_kill_switch
  kill_switch-uncapped = ground arith

  reconciling-uncapped : (rule_reconciling proposal ctx).max_size ≡ none
  unfolding rule_reconciling
  reconciling-uncapped = ground arith

  drawdown-uncapped : (rule_drawdown proposal ctx limits).max_size ≡ none
  unfolding rule_drawdown
  drawdown-uncapped = ground arith

  consecutive_losses-uncapped : (rule_consecutive_losses proposal ctx limits).max_size ≡ none
  unfolding rule_consecutive_losses
  consecutive_losses-uncapped = ground arith

  order_rate-uncapped : (rule_order_rate proposal ctx limits).max_size ≡ none
  unfolding rule_order_rate
  order_rate-uncapped = ground arith

  stop_loss-uncapped : (rule_stop_loss proposal ctx).max_size ≡ none
  unfolding rule_stop_loss
  stop_loss-uncapped = ground arith

  leverage-uncapped : (rule_leverage platform proposal limits).max_size ≡ none
  unfolding rule_leverage
  leverage-uncapped = ground arith

  liquidation_buffer-uncapped : (rule_liquidation_buffer proposal ctx limits).max_size ≡ none
  unfolding rule_liquidation_buffer
  liquidation_buffer-uncapped = ground arith

  margin_mode-uncapped : (rule_margin_mode proposal limits).max_size ≡ none
  unfolding rule_margin_mode
  margin_mode-uncapped = ground arith

  maintenance_margin-uncapped : (rule_maintenance_margin proposal ctx limits).max_size ≡ none
  unfolding rule_maintenance_margin
  maintenance_margin-uncapped = ground arith

  slippage-uncapped : (rule_slippage ctx limits).max_size ≡ none
  unfolding rule_slippage
  slippage-uncapped = ground arith

  price_impact-uncapped : (rule_price_impact ctx limits).max_size ≡ none
  unfolding rule_price_impact
  price_impact-uncapped = ground arith

  infinite_approval-uncapped : (rule_infinite_approval proposal ctx).max_size ≡ none
  unfolding rule_infinite_approval
  infinite_approval-uncapped = ground arith

  contract_whitelist-uncapped :
      (rule_contract_whitelist platform proposal ctx limits).max_size ≡ none
  unfolding rule_contract_whitelist
  contract_whitelist-uncapped = ground arith

  min_pool_tvl-uncapped : (rule_min_pool_tvl proposal ctx limits).max_size ≡ none
  unfolding rule_min_pool_tvl
  min_pool_tvl-uncapped = ground arith

  gas_cap-uncapped : (rule_gas_cap ctx limits).max_size ≡ none
  unfolding rule_gas_cap
  gas_cap-uncapped = ground arith

  mev_route-uncapped : (rule_mev_route proposal ctx limits).max_size ≡ none
  unfolding rule_mev_route
  mev_route-uncapped = ground arith

  cvar-uncapped : (rule_cvar proposal ctx limits).max_size ≡ none
  unfolding rule_cvar
  cvar-uncapped = ground arith

  uncapped : (r : RuleResult) → r.max_size ≡ none → IsScaledResult r
  uncapped r h m e = ground arith

  check_margin-IsScaledResult :
      (budget value : Decimal) (margin : Result Decimal)
      → IsScaled (sub (mul budget value) (existing_notional proposal.add_on_plan))
      → IsScaledResult (check_margin proposal budget value margin)
  check_margin-IsScaledResult budget value (err x) v m e = ground arith
  check_margin-IsScaledResult budget value (ok margin) v m e = ground arith

  module _ (inputs : InputsInRange proposal ctx limits) where
    open inputs use {size, existing, equity}

    per_trade_risk-IsScaledResult : IsScaledResult (rule_per_trade_risk proposal ctx limits)
    unfolding rule_per_trade_risk
    per_trade_risk-IsScaledResult m e = elim (Option-cases proposal.stop_loss) [
      | inl h ↦ ground arith
      | inr (stop, h) ↦ ground (
        arith,
        must_quo-IsScaled (mul ctx.equity_quote limits.max_risk_per_trade) (stop_fraction ctx stop),
      )
    ]

    position_cap-IsScaledResult : IsScaledResult (rule_position_cap proposal ctx limits)
    unfolding rule_position_cap
    position_cap-IsScaledResult m e = ground (
      arith,
      room-IsScaled ctx.equity_quote limits.max_position_pct
          (existing_notional proposal.add_on_plan) equity inputs.position_pct existing,
    )

    gross_exposure-IsScaledResult : IsScaledResult (rule_gross_exposure proposal ctx limits)
    unfolding rule_gross_exposure
    gross_exposure-IsScaledResult m e = ground (
      arith,
      room-IsScaled ctx.equity_quote limits.max_gross_exposure ctx.gross_exposure_quote equity
          inputs.gross_pct inputs.gross,
    )

    symbol_concentration-IsScaledResult :
        IsScaledResult (rule_symbol_concentration proposal ctx limits)
    unfolding rule_symbol_concentration
    symbol_concentration-IsScaledResult m e = ground (
      arith,
      room-IsScaled ctx.equity_quote limits.max_symbol_concentration ctx.symbol_exposure_quote
          equity inputs.symbol_pct inputs.symbol,
    )

    correlated_exposure-IsScaledResult :
        IsScaledResult (rule_correlated_exposure proposal ctx limits)
    unfolding rule_correlated_exposure
    correlated_exposure-IsScaledResult m e = elim (Option-cases ctx.correlated_exposure_quote) [
      | inl h ↦ ground arith
      | inr (exposure, h) ↦ ground (
        arith,
        room-IsScaled ctx.equity_quote limits.max_correlated_exposure exposure equity
            inputs.correlated_pct (inputs.correlated exposure h),
      )
    ]

    margin_room-IsScaled :
        (value : Decimal)
        → parse_leverage platform proposal.leverage ≡ ok value
        → IsScaled (
            sub
              (mul (mul ctx.equity_quote limits.max_margin_pct) value)
              (existing_notional proposal.add_on_plan))
    unfolding parse_leverage
    margin_room-IsScaled value h =
        let p = parse_decimal-IsParsed (platform.format_g proposal.leverage) h in
        let budget =
          mul-IsWithin 10000 10000 ctx.equity_quote limits.max_margin_pct (omega arith) equity
            inputs.margin_pct in
        let product =
          mul-IsWithin 20000 10000 (mul ctx.equity_quote limits.max_margin_pct) value (omega arith)
            budget (record { nonneg = p.nonneg; at_most = p.bounded }) in
        IsWithin-IsScaled 30000
          (sub (mul (mul ctx.equity_quote limits.max_margin_pct) value)
            (existing_notional proposal.add_on_plan))
          (omega arith)
          (sub-IsWithin 30000 (mul (mul ctx.equity_quote limits.max_margin_pct) value)
            (existing_notional proposal.add_on_plan) (omega arith) product
            (record { nonneg = existing.nonneg; at_most = omega arith }))

    margin_budget-IsScaledResult : IsScaledResult (rule_margin_budget platform proposal ctx limits)
    unfolding rule_margin_budget
    margin_budget-IsScaledResult m e =
        elim (Result-cases (parse_leverage platform proposal.leverage)) [
          | inr (error, h) ↦ ground arith
          | inl (value, h) ↦
              let budget = mul ctx.equity_quote limits.max_margin_pct in
              ground (
                arith,
                check_margin-IsScaledResult budget value
                    (quo (with_existing proposal.add_on_plan proposal.size_quote) value)
                    (margin_room-IsScaled value h) m,
              )
        ]

    -- Every cap that a rule sets is in range.
    pub all_rules-IsScaledResult : All IsScaledResult (all_rules platform proposal ctx limits)
    unfolding all_rules
    all_rules-IsScaledResult = (
      uncapped (rule_kill_switch proposal ctx) kill_switch-uncapped,
      (
        uncapped (rule_reconciling proposal ctx) reconciling-uncapped,
        (
          uncapped (rule_drawdown proposal ctx limits) drawdown-uncapped,
          (
            uncapped (rule_consecutive_losses proposal ctx limits) consecutive_losses-uncapped,
            (
              uncapped (rule_order_rate proposal ctx limits) order_rate-uncapped,
              (
                uncapped (rule_stop_loss proposal ctx) stop_loss-uncapped,
                (
                  uncapped (rule_leverage platform proposal limits) leverage-uncapped,
                  (
                    margin_budget-IsScaledResult,
                    (
                      uncapped (rule_liquidation_buffer proposal ctx limits)
                          liquidation_buffer-uncapped,
                      (
                        uncapped (rule_margin_mode proposal limits) margin_mode-uncapped,
                        (
                          uncapped (rule_maintenance_margin proposal ctx limits)
                              maintenance_margin-uncapped,
                          (
                            uncapped (rule_slippage ctx limits) slippage-uncapped,
                            (
                              uncapped (rule_price_impact ctx limits) price_impact-uncapped,
                              (
                                uncapped (rule_infinite_approval proposal ctx)
                                    infinite_approval-uncapped,
                                (
                                  uncapped (rule_contract_whitelist platform proposal ctx limits)
                                      contract_whitelist-uncapped,
                                  (
                                    uncapped (rule_min_pool_tvl proposal ctx limits)
                                        min_pool_tvl-uncapped,
                                    (
                                      uncapped (rule_gas_cap ctx limits) gas_cap-uncapped,
                                      (
                                        uncapped (rule_mev_route proposal ctx limits)
                                            mev_route-uncapped,
                                        (
                                          per_trade_risk-IsScaledResult,
                                          (
                                            position_cap-IsScaledResult,
                                            (
                                              gross_exposure-IsScaledResult,
                                              (
                                                symbol_concentration-IsScaledResult,
                                                (
                                                  correlated_exposure-IsScaledResult,
                                                  (
                                                    uncapped (rule_cvar proposal ctx limits)
                                                        cvar-uncapped,
                                                    tt,
                                                  ),
                                                ),
                                              ),
                                            ),
                                          ),
                                        ),
                                      ),
                                    ),
                                  ),
                                ),
                              ),
                            ),
                          ),
                        ),
                      ),
                    ),
                  ),
                ),
              ),
            ),
          ),
        ),
      ),
    )
