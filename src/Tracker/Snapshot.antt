-- ===== src/Tracker/Snapshot.antt =====
-- internal/riskstate/tracker.go: what the risk engine reads, but for the CVaR.
use cyp_agent.Base.{ℕ, ◌||◌, not, if◌then◌else◌, length}
use cyp_agent.Decimal.{
  Decimal, ok, err, zero_decimal, is_positive, is_negative, sub, cmp, gt_zero, lt_zero,
}
use cyp_agent.Decimal.Quotient.{quo}
use cyp_agent.Tracker.{PersistedState, day_key, week_key, is_key, recent_orders}

-- `drawdown`.
unfoldable pub drawdown : Decimal → Decimal → Decimal
drawdown baseline equity =
    if not (is_positive baseline) || not (lt_zero (cmp equity baseline))
    then zero_decimal
    else elim (quo (sub baseline equity) baseline) [
      | err _ ↦ zero_decimal
      | ok value ↦ if is_negative value then zero_decimal else value
    ]

pub record Snapshot : Type 0 where
  pub current_equity : Decimal
  pub daily_drawdown : Decimal
  pub weekly_drawdown : Decimal
  pub total_drawdown : Decimal
  pub orders_last_hour : ℕ
  pub consecutive_losses : ℕ
  pub realized_pnl : Decimal

-- `Snapshot`, but for the CVaR.
unfoldable pub snapshot : Decimal → ℕ → PersistedState → Snapshot
snapshot equity now state =
    let current = if is_positive equity then equity else state.current_equity in
    let day_start = if is_key (day_key now) state.day then state.day_start_equity else current in
    let week_start =
      if is_key (week_key now) state.week then state.week_start_equity else current in
    let peak = if gt_zero (cmp current state.peak_equity) then current else state.peak_equity in
    record {
      current_equity = current;
      daily_drawdown = drawdown day_start current;
      weekly_drawdown = drawdown week_start current;
      total_drawdown = drawdown peak current;
      orders_last_hour = length (recent_orders now state.orders);
      consecutive_losses = state.consecutive_losses;
      realized_pnl = state.realized_pnl;
    }
