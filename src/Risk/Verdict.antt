-- ===== src/Risk/Verdict.antt =====
-- What a verdict of `Assess` guarantees of the proposal and of the account.
use cyp_agent.Base.{
  ◌≡◌, ◌≢◌, inl, inr, true, false, none, some, List, [], ◌∷◌, arith, All, Option-cases,
}
use cyp_agent.Int.{◌<ℤ◌}
use cyp_agent.Decimal.{Decimal, ok, Result-cases}
use cyp_agent.Models.{rejected, long, short, TradeProposal, RiskContext}
use cyp_agent.Risk.{Limits, RuleResult, Platform, is_open, is_perp, above, below, parse_leverage}
use cyp_agent.Risk.Account.{
  rule_kill_switch, rule_reconciling, rule_drawdown, rule_consecutive_losses, rule_order_rate,
  rule_stop_loss,
}
use cyp_agent.Risk.Margin.{rule_leverage, rule_margin_mode, is_isolated}
use cyp_agent.Risk.Assess.{all_rules, is_reject, rejects, conclude, assess}

-- No rule of the list rejects.
abbrev pub NoneRejects : List RuleResult → Type 0
NoneRejects = All (λ r. is_reject r.action ≡ false)

rejects_none : (results : List RuleResult) → rejects results ≡ [] → NoneRejects results
unfolding rejects
rejects_none [] h = tt
rejects_none (r ∷ rest) h = ground (arith, rejects_none rest)

conclude-NoneRejects :
    (platform : Platform) (proposal : TradeProposal) (ctx : RiskContext) (limits : Limits)
    (results : List RuleResult)
    → (conclude platform proposal ctx limits results).verdict ≢ rejected
    → rejects results ≡ []
unfolding conclude
conclude-NoneRejects platform proposal ctx limits results h = ground arith

pub assess-NoneRejects :
    (platform : Platform) (proposal : TradeProposal) (ctx : RiskContext) (limits : Limits)
    → (assess platform proposal ctx limits).verdict ≢ rejected
    → NoneRejects (all_rules platform proposal ctx limits)
unfolding assess
assess-NoneRejects platform proposal ctx limits h =
    rejects_none (all_rules platform proposal ctx limits)
      (conclude-NoneRejects platform proposal ctx limits (all_rules platform proposal ctx limits) h)

-- What holds of an account and an opening proposal that the engine lets through.
pub record IsCleared (platform : Platform) (proposal : TradeProposal) (ctx : RiskContext)
    (limits : Limits) : Type 0 where
  pub not_killed : ctx.kill ≡ false
  pub reconciled : ctx.reconciling ≡ false
  pub total_within : below ctx.total_drawdown limits.max_drawdown_limit ≡ true
  pub weekly_within : below ctx.weekly_drawdown limits.weekly_drawdown_limit ≡ true
  pub daily_within : below ctx.daily_drawdown limits.daily_drawdown_limit ≡ true
  pub losses_within : ctx.consecutive_losses <ℤ limits.max_consecutive_losses
  pub orders_within : ctx.orders_last_hour <ℤ limits.max_orders_per_hour
  pub stopped :
      (stop : Decimal) × (proposal.stop_loss ≡ some stop)
      × (proposal.side ≡ long → below stop ctx.ref_price ≡ true)
      × (proposal.side ≡ short → above stop ctx.ref_price ≡ true)
  pub levered :
      (value : Decimal) × (parse_leverage platform proposal.leverage ≡ ok value)
      × (above value limits.max_leverage ≡ false)
  pub isolated :
      is_perp proposal.instrument ≡ true
      → limits.force_isolated ≡ true
      → is_isolated proposal.margin_mode ≡ true

module _ (proposal : TradeProposal) (ctx : RiskContext) (limits : Limits)
    (opens : is_open proposal ≡ true) where
  kill_switch_lem : is_reject (rule_kill_switch proposal ctx).action ≡ false → ctx.kill ≡ false
  unfolding rule_kill_switch
  kill_switch_lem h = ground arith

  reconciling_lem :
      is_reject (rule_reconciling proposal ctx).action ≡ false → ctx.reconciling ≡ false
  unfolding rule_reconciling
  reconciling_lem h = ground arith

  drawdown_lem :
      is_reject (rule_drawdown proposal ctx limits).action ≡ false
      → (below ctx.total_drawdown limits.max_drawdown_limit ≡ true)
        × (below ctx.weekly_drawdown limits.weekly_drawdown_limit ≡ true)
        × (below ctx.daily_drawdown limits.daily_drawdown_limit ≡ true)
  unfolding rule_drawdown
  drawdown_lem h = ground arith

  losses_lem :
      is_reject (rule_consecutive_losses proposal ctx limits).action ≡ false
      → ctx.consecutive_losses <ℤ limits.max_consecutive_losses
  unfolding rule_consecutive_losses
  losses_lem h = ground arith

  orders_lem :
      is_reject (rule_order_rate proposal ctx limits).action ≡ false
      → ctx.orders_last_hour <ℤ limits.max_orders_per_hour
  unfolding rule_order_rate
  orders_lem h = ground arith

  stop_missing : is_reject (rule_stop_loss proposal ctx).action ≡ false → proposal.stop_loss ≢ none
  unfolding rule_stop_loss
  stop_missing h e = ground arith

  stop_lem :
      is_reject (rule_stop_loss proposal ctx).action ≡ false
      → (stop : Decimal) × (proposal.stop_loss ≡ some stop)
        × (proposal.side ≡ long → below stop ctx.ref_price ≡ true)
        × (proposal.side ≡ short → above stop ctx.ref_price ≡ true)
  unfolding rule_stop_loss
  stop_lem h = elim (Option-cases proposal.stop_loss) [
    | inl e ↦ absurd (stop_missing h e)
    | inr (stop, e) ↦ (stop, e, λ l. ground arith, λ l. ground arith)
  ]

  leverage_lem :
      (platform : Platform)
      → is_reject (rule_leverage platform proposal limits).action ≡ false
      → (value : Decimal) × (parse_leverage platform proposal.leverage ≡ ok value)
        × (above value limits.max_leverage ≡ false)
  unfolding rule_leverage
  leverage_lem platform h = elim (Result-cases (parse_leverage platform proposal.leverage)) [
    | inl (value, e) ↦ (value, e, ground arith)
    | inr (error, e) ↦ ground arith
  ]

  isolated_lem :
      is_reject (rule_margin_mode proposal limits).action ≡ false
      → is_perp proposal.instrument ≡ true
      → limits.force_isolated ≡ true
      → is_isolated proposal.margin_mode ≡ true
  unfolding rule_margin_mode
  isolated_lem h p f = ground arith

-- If the verdict on an opening proposal is not `rejected`, then the kill switch is off,
-- reconciliation is done, the total, weekly and daily drawdowns, the loss streak and the orders of
-- the last hour are below their limits, there is a stop loss, below the price for a long and above
-- it for a short, the leverage parses to at most the maximum, and a perpetual has isolated margin
-- where the policy forces it.
pub assess-IsCleared :
    (platform : Platform) (proposal : TradeProposal) (ctx : RiskContext) (limits : Limits)
    → is_open proposal ≡ true
    → (assess platform proposal ctx limits).verdict ≢ rejected
    → IsCleared platform proposal ctx limits
unfolding all_rules
assess-IsCleared platform proposal ctx limits opens h =
    let r = assess-NoneRejects platform proposal ctx limits h in
    let drawdowns = drawdown_lem proposal ctx limits opens r.1.1.0 in
    record {
      not_killed = kill_switch_lem proposal ctx limits opens r.0;
      reconciled = reconciling_lem proposal ctx limits opens r.1.0;
      total_within = drawdowns.0;
      weekly_within = drawdowns.1;
      daily_within = drawdowns.2;
      losses_within = losses_lem proposal ctx limits opens r.1.1.1.0;
      orders_within = orders_lem proposal ctx limits opens r.1.1.1.1.0;
      stopped = stop_lem proposal ctx limits opens r.1.1.1.1.1.0;
      levered = leverage_lem proposal ctx limits opens platform r.1.1.1.1.1.1.0;
      isolated = isolated_lem proposal ctx limits opens r.1.1.1.1.1.1.1.1.1.0;
    }
