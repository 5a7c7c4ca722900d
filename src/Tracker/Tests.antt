-- ===== src/Tracker/Tests.antt =====
-- A tracker on the file of the repository, whose next writes may fail.
use cyp_agent.Base.{
  ℕ, ◌≡◌, ◌⊎◌, refl, true, false, none, some, List, [], ◌∷◌, codes, lookup, insert, arith,
  trim_space, trim_left,
}
use cyp_agent.Int.{◌+ℤ◌, ◌-ℤ◌, ◌*ℤ◌, neg}
use cyp_agent.Decimal.{Decimal, sub, mul}
use cyp_agent.Risk.{literal}
use cyp_agent.Samples.{zero_float}
use cyp_agent.Models.{ExecutionResult, Position, filled, long, perp}
use cyp_agent.Tracker.{
  PersistedState, close_record, has_trade_locked, closed_by, close_pnl, trim_locked, trim_to,
  observe_locked, record_order_locked,
}
use cyp_agent.Tracker.Record.{
  Answer, recorded, record_close, observe_equity, commit, persist_locked,
}
use cyp_agent.Tracker.Restore.{
  new_state, tracker, new_scoped, start_from, restored, raw_checkpoint, normalize_scope, step_of,
  scope_loop, trim_left_dashes, trim_right_dashes,
}
use cyp_agent.Tracker.Calls.{
  Call, observe_call, close_call, reconcile_call, Setting, run_calls, answer_call,
}
use cyp_agent.Tracker.Reconcile.{
  reconcile_positions, repairs, open_states, active_positions, close_missing, open_missing,
  opens_position, closes_position, position_key,
}
use cyp_agent.Tracker.Invariant.{IsValid}
use cyp_agent.Tracker.Ledger.{HasLedger}
use cyp_agent.Tracker.Fills.{run_fills, run_calls-books}
use cyp_agent.Tracker.Json.{file_checkpoints, save_step, IsPrintableState}
use cyp_agent.Persistence.File.{mutate}
use cyp_agent.Orders.Journal.{is_blank}
use cyp_agent.Decimal.Json.{whole-IsPrintable}
use cyp_agent.Decimal.Text.{digits_text, digits_loop}
use cyp_agent.Decimal.{
  zero_decimal, add, neg_decimal, align_decimals, rescale, common_scale, cmp, cmp_ℤ,
}
use cyp_agent.Int.{negsuc, pos}
use cyp_agent.Tracker.Reconcile.{reconcile_open}
use cyp_agent.Tracker.{recent_orders, day_key, week_key}
use cyp_agent.Base.{dec_lt}
use cyp_agent.Tracker.Once.{record_close_once}
use cyp_agent.Tracker.Durable.{run_calls-restarts}

abbrev capital : Decimal
capital = literal 1000 0

abbrev position : Position
position = record {
  symbol = codes "BTC/USDT";
  venue = codes "paper";
  side = long;
  instrument = perp;
  size_base = literal 10 0;
  entry_price = literal 100 0;
  leverage = zero_float;
  liq_price = none;
  margin_mode = none;
  chain = none;
  tx_hash = none;
}

-- The close of the position at 90 with a fee of 1.
abbrev execution : ExecutionResult
execution = record {
  client_id = codes "close-1";
  order_id = none;
  status = filled;
  filled_base = literal 10 0;
  avg_price = some (literal 90 0);
  fee_quote = literal 1 0;
  slippage_bps = none;
  protective_orders = [];
  error = none;
  chain = none;
  tx_hash = none;
  gas_used = none;
}

abbrev start : PersistedState
start = new_state capital 0

-- The first save works, the second does not.
abbrev disk : file_checkpoints.Disk
disk = (true ∷ false ∷ [], [])

abbrev setting : Setting
setting = record {
  has_repository = true;
  step = codes "current:paper";
  upper = λ c. c;
  walk_states = λ m. m;
  walk_active = λ m. m;
}

-- A close, an observation that is not saved, and a position that the venue reports.
abbrev calls : List Call
calls =
    close_call (codes "exit-1") position execution (literal 899 0) 1
    ∷ observe_call (literal 950 0) 2
    ∷ reconcile_call (position ∷ []) 3
    ∷ []

abbrev ran : PersistedState × file_checkpoints.Disk
ran = run_calls file_checkpoints setting calls start disk

-- The close is a loss of 101, and the observation is not kept.
ran_losses : (ran.0.consecutive_losses ≡ 1) × (ran.0.current_equity ≡ literal 899 0)
unfolding run_calls answer_call record_close observe_equity reconcile_positions commit
    persist_locked has_trade_locked new_state closed_by close_record close_pnl trim_locked trim_to
    observe_locked record_order_locked repairs open_states active_positions close_missing
    open_missing reconcile_open insert lookup opens_position closes_position position_key trim_space
    trim_left sub add neg_decimal align_decimals rescale common_scale ◌+ℤ◌ ◌-ℤ◌ mul ◌*ℤ◌ neg cmp
    cmp_ℤ mutate save_step is_blank digits_text digits_loop recent_orders day_key week_key dec_lt
ran_losses = (refl, refl)

run_calls-books_example :
    IsValid ran.0
    × HasLedger
        (run_fills file_checkpoints setting calls start disk)
        ran.0.realized_pnl
        ran.0.trades
run_calls-books_example =
    run_calls-books file_checkpoints setting capital 0 calls disk
      (record { nonneg = refl; bounded = omega arith })
      (
        record { nonneg = refl; bounded = omega arith },
        (record { nonneg = refl; bounded = omega arith }, (tt, tt)),
      )

abbrev closed_once : Answer × PersistedState × file_checkpoints.Disk
closed_once =
    record_close file_checkpoints true (codes "current") (codes "exit-1") position execution
      (literal 899 0) 1 start disk

record_close_once_example :
    record_close file_checkpoints true
      (codes "current")
      (codes "again")
      position
      execution
      (literal 700 0)
      2
      closed_once.1
      closed_once.2
    ≡ (
      recorded (close_record (codes "exit-1") position execution (literal 90 0) 1) true,
      closed_once.1,
      closed_once.2,
    )
unfolding record_close commit persist_locked has_trade_locked new_state mutate save_step is_blank
    trim_space
record_close_once_example =
    record_close_once file_checkpoints true (codes "current") (codes "exit-1") (codes "again")
      position position execution (literal 899 0) (literal 700 0) 1 2 start closed_once.1 disk
      closed_once.2 (close_record (codes "exit-1") position execution (literal 90 0) 1) refl

abbrev loss : Decimal
loss = record { coefficient = negsuc 100; scale = pos 0; negative_zero = false }

ran-IsPrintableState : IsPrintableState ran.0
unfolding run_calls answer_call record_close observe_equity reconcile_positions commit
    persist_locked has_trade_locked new_state closed_by close_record close_pnl trim_locked trim_to
    observe_locked record_order_locked repairs open_states active_positions close_missing
    open_missing reconcile_open insert lookup opens_position closes_position position_key trim_space
    trim_left sub add neg_decimal align_decimals rescale common_scale ◌+ℤ◌ ◌-ℤ◌ mul ◌*ℤ◌ neg cmp
    cmp_ℤ mutate save_step is_blank digits_text digits_loop recent_orders day_key week_key dec_lt
ran-IsPrintableState = record {
  initial = whole-IsPrintable (literal 1000 0) refl refl refl;
  current = whole-IsPrintable (literal 899 0) refl refl refl;
  peak = whole-IsPrintable (literal 1000 0) refl refl refl;
  day_start = whole-IsPrintable (literal 1000 0) refl refl refl;
  week_start = whole-IsPrintable (literal 1000 0) refl refl refl;
  realized = whole-IsPrintable loss refl refl refl;
  points = (
    whole-IsPrintable (literal 1000 0) refl refl refl,
    (whole-IsPrintable (literal 899 0) refl refl refl, tt),
  );
  trades = (
    record {
      price = whole-IsPrintable (literal 90 0) refl refl refl;
      size = whole-IsPrintable (literal 10 0) refl refl refl;
      fee = whole-IsPrintable (literal 1 0) refl refl refl;
      pnl = whole-IsPrintable loss refl refl refl;
    },
    (
      record {
        price = whole-IsPrintable (literal 100 0) refl refl refl;
        size = whole-IsPrintable (literal 10 0) refl refl refl;
        fee = whole-IsPrintable zero_decimal refl refl refl;
        pnl = whole-IsPrintable zero_decimal refl refl refl;
      },
      tt,
    ),
  );
}

run_calls-restarts_example :
    ((later : ℕ)
      → new_scoped file_checkpoints (λ c. c) true capital (codes "paper") later ran.1
        ≡ tracker setting.step ran.0)
    ⊎ ((ran.0 ≡ start)
        × (file_checkpoints.load_checkpoints ran.1 ≡ file_checkpoints.load_checkpoints disk))
unfolding new_scoped start_from restored raw_checkpoint normalize_scope step_of scope_loop
    trim_left_dashes trim_right_dashes trim_space trim_left lookup
run_calls-restarts_example =
    run_calls-restarts (λ c. c) capital (codes "paper") setting 0 disk start calls refl refl refl
      (refl, (refl, (tt, tt))) ran-IsPrintableState
