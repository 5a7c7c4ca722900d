-- ===== src/Risk/Account.antt =====
-- internal/risk/engine.go: the rules on the state of the account and on the stop loss.
use cyp_agent.Base.{◌&&◌, not, none, some, if◌then◌else◌}
use cyp_agent.Int.{leb_ℤ}
use cyp_agent.Models.{TradeProposal, RiskContext}
use cyp_agent.Risk.{
  Limits, RuleResult, pass, refuse, kill_switch, reconciling, drawdown_circuit, consecutive_losses,
  order_rate, stop_loss_required, kill_switch_on, reconciliation_open, total_drawdown,
  weekly_drawdown, daily_drawdown, losses, orders, stop_loss_missing, long_stop_not_below,
  short_stop_not_above, is_open, is_long, is_short, above, below,
}

unfoldable pub rule_kill_switch : TradeProposal → RiskContext → RuleResult
rule_kill_switch proposal ctx =
    if ctx.kill && is_open proposal then refuse kill_switch kill_switch_on else pass kill_switch

unfoldable pub rule_reconciling : TradeProposal → RiskContext → RuleResult
rule_reconciling proposal ctx =
    if ctx.reconciling && is_open proposal
    then refuse reconciling reconciliation_open
    else pass reconciling

unfoldable pub rule_drawdown : TradeProposal → RiskContext → Limits → RuleResult
rule_drawdown proposal ctx limits =
    if not (is_open proposal)
    then pass drawdown_circuit
    else if not (below ctx.total_drawdown limits.max_drawdown_limit)
    then refuse drawdown_circuit (total_drawdown ctx.total_drawdown limits.max_drawdown_limit)
    else if not (below ctx.weekly_drawdown limits.weekly_drawdown_limit)
    then refuse drawdown_circuit (weekly_drawdown ctx.weekly_drawdown limits.weekly_drawdown_limit)
    else if not (below ctx.daily_drawdown limits.daily_drawdown_limit)
    then refuse drawdown_circuit (daily_drawdown ctx.daily_drawdown limits.daily_drawdown_limit)
    else pass drawdown_circuit

unfoldable pub rule_consecutive_losses : TradeProposal → RiskContext → Limits → RuleResult
rule_consecutive_losses proposal ctx limits =
    if is_open proposal && leb_ℤ limits.max_consecutive_losses ctx.consecutive_losses
    then refuse consecutive_losses (losses ctx.consecutive_losses limits.max_consecutive_losses)
    else pass consecutive_losses

unfoldable pub rule_order_rate : TradeProposal → RiskContext → Limits → RuleResult
rule_order_rate proposal ctx limits =
    if is_open proposal && leb_ℤ limits.max_orders_per_hour ctx.orders_last_hour
    then refuse order_rate (orders ctx.orders_last_hour limits.max_orders_per_hour)
    else pass order_rate

unfoldable pub rule_stop_loss : TradeProposal → RiskContext → RuleResult
rule_stop_loss proposal ctx =
    if not (is_open proposal) then pass stop_loss_required else elim proposal.stop_loss [
      | none ↦ refuse stop_loss_required stop_loss_missing
      | some stop ↦
          if is_long proposal.side && not (below stop ctx.ref_price)
          then refuse stop_loss_required long_stop_not_below
          else if is_short proposal.side && not (above stop ctx.ref_price)
          then refuse stop_loss_required short_stop_not_above
          else pass stop_loss_required
    ]
