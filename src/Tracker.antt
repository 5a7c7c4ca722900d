-- ===== src/Tracker.antt =====
-- internal/riskstate/tracker.go: the account statistics that the risk engine consumes.
-- A time is a number of nanoseconds since 1970. A key of a day or a week is the number of the day
-- that it prints, counted from Monday, 29 December 1969; `none` is the empty key. The receiver is
-- never nil, and the CVaR, which is computed with floats, is left out of the snapshot.
-- The repository is the interface `Repository` over whatever it keeps.
pub mod Record
pub mod Snapshot
pub mod Restore
pub mod Reconcile
pub mod Calls
pub mod Ledger
pub mod Kept
pub mod Invariant
pub mod Fills
pub mod Newest
pub mod Once
pub mod Steady
pub mod Json
pub mod Durable
mod Tests
use cyp_agent.Base.{
  ℕ, ◌+◌, ◌-◌, ◌*◌, ◌/◌, ◌%◌, Bool, true, false, ◌&&◌, ◌||◌, not, Option, none, some, List, [], ◌∷◌,
  ◌++◌, ltb, ◌==◌, if◌then◌else◌, length, drop, Text, text_eq, codes,
}
use cyp_agent.Decimal.{
  Decimal, Result, ok, err, zero_decimal, is_positive, is_negative, add, sub, mul, neg_decimal, cmp,
  gt_zero, lt_zero, equal,
}
use cyp_agent.Decimal.Quotient.{quo}
use cyp_agent.Models.{
  Side, Instrument, OrderStatus, filled, partially_filled, TradeProposal, ExecutionResult, Position,
}
use cyp_agent.Orders.{status_eq}
use cyp_agent.Risk.{is_short}

abbrev pub max_equity_points : ℕ
max_equity_points = 512

abbrev pub max_trades : ℕ
max_trades = 1000

abbrev pub hour : ℕ
hour = 3600000000000

pub record EquityPoint : Type 0 where
  pub ts : ℕ
  pub equity : Decimal

pub record TradeRecord : Type 0 where
  pub client_id : Text
  pub run_id : Text
  pub kind : Text
  pub symbol : Text
  pub side : Side
  pub instrument : Instrument
  pub price : Decimal
  pub size_base : Decimal
  pub fee_quote : Decimal
  pub pnl_quote : Decimal
  pub ts : ℕ

pub record PersistedState : Type 0 where
  pub version : ℕ
  pub initial_equity : Decimal
  pub current_equity : Decimal
  pub peak_equity : Decimal
  pub day_start_equity : Decimal
  pub week_start_equity : Decimal
  pub day : Option ℕ
  pub week : Option ℕ
  pub consecutive_losses : ℕ
  pub realized_pnl : Decimal
  pub orders : List ℕ
  pub equity_points : List EquityPoint
  pub trades : List TradeRecord

-- What a repository answers for a step of the checkpoints of a run.
pub data Checkpoint : Type 0 where
  no_checkpoint unreadable : Checkpoint
  checkpoint : PersistedState → Checkpoint

-- `Repository`: what it holds, its answer to a save under a step, and what it loads, where `none`
-- is an error.
pub record Repository : Type 1 where
  pub Disk : Type 0
  pub save_checkpoint : Disk → Text → PersistedState → Bool × Disk
  pub load_checkpoints : Disk → Option (Text → Checkpoint)

unfoldable pub day_key : ℕ → ℕ
day_key now = now / (24 * hour) + 3

-- The Monday of the week; Sunday is the weekday 0.
unfoldable pub week_key : ℕ → ℕ
unfolding day_key
week_key now = day_key now - ((day_key now + 1) % 7 + 6) % 7

abbrev pub is_key : ℕ → Option ℕ → Bool
is_key key none = false
is_key key (some other) = key == other

-- The last entries of a list, no more than `limit`.
unfoldable pub trim_to {ℓ} : {A : Type ℓ} → ℕ → List A → List A
trim_to limit xs = if ltb limit (length xs) then drop (length xs - limit) xs else xs

-- `trimLocked`.
unfoldable pub trim_locked : PersistedState → PersistedState
trim_locked state = record state {
  equity_points = trim_to max_equity_points state.equity_points;
  trades = trim_to max_trades state.trades;
}

-- Whether the equity of the last point is the given one.
abbrev pub ends_at : Decimal → List EquityPoint → Bool
ends_at equity [] = false
ends_at equity (point ∷ []) = equal point.equity equity
ends_at equity (point ∷ next ∷ rest) = ends_at equity (next ∷ rest)

-- `observeLocked`.
unfoldable pub observe_locked : Decimal → ℕ → PersistedState → PersistedState
observe_locked equity now state =
    let same_day = is_key (day_key now) state.day in
    let same_week = is_key (week_key now) state.week in
    trim_locked (record state {
      day = if same_day then state.day else some (day_key now);
      day_start_equity = if same_day then state.day_start_equity else equity;
      week = if same_week then state.week else some (week_key now);
      week_start_equity = if same_week then state.week_start_equity else equity;
      current_equity = equity;
      peak_equity = if gt_zero (cmp equity state.peak_equity) then equity else state.peak_equity;
      equity_points =
          if ends_at equity state.equity_points
          then state.equity_points
          else state.equity_points ++ (record { ts = now; equity = equity } ∷ []);
    })

-- The orders that are no older than an hour: `!order.Before(now.Add(-time.Hour))`.
unfoldable pub recent_orders : ℕ → List ℕ → List ℕ
recent_orders now [] = []
recent_orders now (order ∷ rest) =
    let kept = recent_orders now rest in if ltb (order + hour) now then kept else order ∷ kept

-- `recordOrderLocked`.
unfoldable pub record_order_locked : ℕ → PersistedState → PersistedState
record_order_locked now state = record state {
  orders = recent_orders now state.orders ++ (now ∷ []);
}

abbrev pub is_trade : Text → Text → TradeRecord → Bool
is_trade client_id kind trade = text_eq trade.client_id client_id && text_eq trade.kind kind

-- `hasTradeLocked`, which looks for any such trade.
unfoldable pub has_trade_locked : Text → Text → List TradeRecord → Bool
has_trade_locked client_id kind [] = false
has_trade_locked client_id kind (trade ∷ rest) =
    is_trade client_id kind trade || has_trade_locked client_id kind rest

-- The first such trade, the loop of `RecordClose`.
unfoldable pub first_trade : Text → Text → List TradeRecord → Option TradeRecord
first_trade client_id kind [] = none
first_trade client_id kind (trade ∷ rest) =
    if is_trade client_id kind trade then some trade else first_trade client_id kind rest

abbrev pub price_or_zero : Option Decimal → Decimal
price_or_zero none = zero_decimal
price_or_zero (some price) = price

unfoldable pub open_record : Text → TradeProposal → ExecutionResult → ℕ → TradeRecord
open_record run_id proposal execution now = record {
  client_id = execution.client_id;
  run_id = run_id;
  kind = codes "open";
  symbol = proposal.symbol;
  side = proposal.side;
  instrument = proposal.instrument;
  price = price_or_zero execution.avg_price;
  size_base = execution.filled_base;
  fee_quote = execution.fee_quote;
  pnl_quote = neg_decimal execution.fee_quote;
  ts = now;
}

-- The profit of a close, after the fee.
unfoldable pub close_pnl : Position → ExecutionResult → Decimal → Decimal
close_pnl position execution price =
    let gain = mul position.size_base (sub price position.entry_price) in
    sub (if is_short position.side then neg_decimal gain else gain) execution.fee_quote

unfoldable pub close_record : Text → Position → ExecutionResult → Decimal → ℕ → TradeRecord
close_record reference position execution price now = record {
  client_id = execution.client_id;
  run_id = reference;
  kind = codes "close";
  symbol = position.symbol;
  side = position.side;
  instrument = position.instrument;
  price = price;
  size_base = execution.filled_base;
  fee_quote = execution.fee_quote;
  pnl_quote = close_pnl position execution price;
  ts = now;
}

-- The losses in a row after one more profit.
abbrev pub losses_after : Decimal → ℕ → ℕ
losses_after pnl losses =
    if is_negative pnl then losses + 1 else if is_positive pnl then 0 else losses

-- The part of both records that follows the trade.
abbrev pub observe_fill : Decimal → ℕ → PersistedState → PersistedState
observe_fill equity now state =
    trim_locked (observe_locked equity now (record_order_locked now state))

unfoldable pub opened :
    Text → TradeProposal → ExecutionResult → Decimal → ℕ → PersistedState → PersistedState
opened run_id proposal execution equity now state = observe_fill equity now (record state {
  realized_pnl = sub state.realized_pnl execution.fee_quote;
  trades = state.trades ++ (open_record run_id proposal execution now ∷ []);
})

unfoldable pub closed_by : TradeRecord → Decimal → ℕ → PersistedState → PersistedState
closed_by trade equity now state = observe_fill equity now (record state {
  realized_pnl = add state.realized_pnl trade.pnl_quote;
  consecutive_losses = losses_after trade.pnl_quote state.consecutive_losses;
  trades = state.trades ++ (trade ∷ []);
})

-- The guard of `RecordOpen`.
abbrev pub is_fill : ExecutionResult → Bool
is_fill execution =
    is_positive execution.filled_base
    && (status_eq execution.status filled || status_eq execution.status partially_filled)
