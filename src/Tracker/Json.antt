-- ===== src/Tracker/Json.antt =====
-- The checkpoint of internal/riskstate/tracker.go in the file of internal/persistence.
-- `encoding/json` writes the state field by field and reads it back; the mask changes nothing, since
-- no key holds one of its hints. A raw message is kept as the state that it encodes, and only the
-- steps of the tracker's run are.
use cyp_agent.Base.{
  ◌≡◌, refl, Option, none, some, All, Text, trim_space, if◌then◌else◌, Dict, lookup, insert,
}
use cyp_agent.Decimal.Json.{
  and_then, decimal_json, list_json, IsPrintable, decimal_json_same, list_json_same,
}
use cyp_agent.Orders.Journal.{is_blank}
use cyp_agent.Persistence.File.{Writes, mutate}
use cyp_agent.Tracker.{
  EquityPoint, TradeRecord, PersistedState, Checkpoint, no_checkpoint, unreadable, checkpoint,
  Repository,
}

unfoldable pub point_json : EquityPoint → Option EquityPoint
point_json point =
    and_then (decimal_json point.equity) (λ equity. some (record point { equity = equity }))

unfoldable pub trade_json : TradeRecord → Option TradeRecord
trade_json trade = and_then (decimal_json trade.price) (λ price.
    and_then (decimal_json trade.size_base) (λ size. and_then (decimal_json trade.fee_quote) (λ fee.
      and_then (decimal_json trade.pnl_quote) (λ pnl.
        some
          (record trade { price = price; size_base = size; fee_quote = fee; pnl_quote = pnl })))))

unfoldable pub state_json : PersistedState → Option PersistedState
state_json s = and_then (decimal_json s.initial_equity) (λ initial.
    and_then (decimal_json s.current_equity) (λ current.
      and_then (decimal_json s.peak_equity) (λ peak.
        and_then (decimal_json s.day_start_equity) (λ day_start.
          and_then (decimal_json s.week_start_equity) (λ week_start.
            and_then (decimal_json s.realized_pnl) (λ realized.
              and_then (list_json point_json s.equity_points) (λ points.
                and_then (list_json trade_json s.trades) (λ trades. some (record s {
                  initial_equity = initial;
                  current_equity = current;
                  peak_equity = peak;
                  day_start_equity = day_start;
                  week_start_equity = week_start;
                  realized_pnl = realized;
                  equity_points = points;
                  trades = trades;
                })))))))))

abbrev pub decoded : Option PersistedState → Checkpoint
decoded none = unreadable
decoded (some s) = checkpoint s

-- What the tracker reads back of a state that it saved.
unfoldable pub read_back : PersistedState → Checkpoint
read_back s = decoded (state_json s)

-- `saveCheckpoint`, on the steps of the run; `none` is its error.
unfoldable pub save_step :
    Text → PersistedState → Dict PersistedState → Option (Dict PersistedState)
save_step step s steps = if is_blank step then none else some (insert (trim_space step) s steps)

abbrev pub found_step : Option PersistedState → Checkpoint
found_step none = no_checkpoint
found_step (some s) = read_back s

-- `SaveCheckpoint` and `LoadCheckpoints` of the file.
abbrev pub file_checkpoints : Repository
file_checkpoints = record {
  Disk = Writes × Dict PersistedState;
  save_checkpoint = λ disk step s. mutate (save_step step s disk.1) disk;
  load_checkpoints = λ disk. some (λ step. found_step (lookup step disk.1));
}

pub record IsPrintableTrade (trade : TradeRecord) : Type 0 where
  pub price : IsPrintable trade.price
  pub size : IsPrintable trade.size_base
  pub fee : IsPrintable trade.fee_quote
  pub pnl : IsPrintable trade.pnl_quote

-- Every decimal of a state can be printed and read again.
pub record IsPrintableState (s : PersistedState) : Type 0 where
  pub initial : IsPrintable s.initial_equity
  pub current : IsPrintable s.current_equity
  pub peak : IsPrintable s.peak_equity
  pub day_start : IsPrintable s.day_start_equity
  pub week_start : IsPrintable s.week_start_equity
  pub realized : IsPrintable s.realized_pnl
  pub points : All (λ point. IsPrintable point.equity) s.equity_points
  pub trades : All IsPrintableTrade s.trades

point_json_same : (point : EquityPoint) → IsPrintable point.equity → point_json point ≡ some point
unfolding point_json
point_json_same point v = rw (decimal_json_same point.equity v) refl

trade_json_same : (trade : TradeRecord) → IsPrintableTrade trade → trade_json trade ≡ some trade
unfolding trade_json
trade_json_same trade v =
    rw
      (
        decimal_json_same trade.price v.price,
        decimal_json_same trade.size_base v.size,
        decimal_json_same trade.fee_quote v.fee,
        decimal_json_same trade.pnl_quote v.pnl,
      )
      refl

pub read_back_same : (s : PersistedState) → IsPrintableState s → read_back s ≡ checkpoint s
unfolding read_back state_json
read_back_same s v =
    rw
      (
        decimal_json_same s.initial_equity v.initial,
        decimal_json_same s.current_equity v.current,
        decimal_json_same s.peak_equity v.peak,
        decimal_json_same s.day_start_equity v.day_start,
        decimal_json_same s.week_start_equity v.week_start,
        decimal_json_same s.realized_pnl v.realized,
        list_json_same point_json (λ point. IsPrintable point.equity) point_json_same
            s.equity_points v.points,
        list_json_same trade_json IsPrintableTrade trade_json_same s.trades v.trades,
      )
      refl
