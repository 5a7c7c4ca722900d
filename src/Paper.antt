-- ===== src/Paper.antt =====
-- internal/venue/paper.go: the simulated venue, its state and the parts that its calls share.
-- `format_g` of the platform is `strconv.FormatFloat(x, 'g', -1, 64)`, and `describe` the text of an
-- error of `ParseDecimal`, which quotes its input by `fmt`. A call holds the venue's lock from start
-- to end, so that it is one step. Values are immutable, so that the copies are not modelled.
pub mod Keys
pub mod Check
pub mod Protect
pub mod Place
pub mod Trigger
pub mod Account
pub mod Merge
pub mod Sweep
pub mod Stops
pub mod Cost
pub mod Cash
pub mod Flat
pub mod Worth
pub mod Equity
pub mod Closing
mod Tests
pub mod Calls
use cyp_agent.Base.{
  ℕ, ◌+◌, ◌%◌, ◌^◌, Bool, true, false, ◌&&◌, ◌||◌, not, Option, none, some, List, [], ◌∷◌, ◌++◌,
  leb, ltb, ◌==◌, if◌then◌else◌, Text, codes, Dict, lookup, insert,
}
use cyp_agent.Int.{pos}
use cyp_agent.Decimal.{
  Decimal, DecimalError, Result, ok, err, zero_decimal, add, sub, mul, neg_decimal, cmp,
  is_positive, of_int64, lt_zero, gt_zero,
}
use cyp_agent.Decimal.Quotient.{quo}
use cyp_agent.Decimal.Text.{digits_text}
use cyp_agent.Models.{
  Float, Side, long, short, flat, other_side, Instrument, spot, perp, other_instrument, MarginMode,
  isolated, cross, EntryType, market, OrderIntent, ProtectiveOrder, ExecutionResult, Position,
  order_rejected, filled,
}
use cyp_agent.Models.MarginMode.{other_mode}
use cyp_agent.Models.EntryType.{other_entry}
use cyp_agent.Risk.{Platform, is_long, is_short, parse_leverage}
use cyp_agent.Paper.Keys.{Key, KeyMap, find, put, remove}

-- `PaperVenue` without its lock.
pub record Paper : Type 0 where
  pub quote_ccy : Text
  pub free_quote : Decimal
  pub slippage_bps : Decimal
  pub fee_rate : Decimal
  pub marks : Dict Decimal
  pub positions : KeyMap Position
  pub protective : KeyMap (List ProtectiveOrder)
  pub fills : Dict ExecutionResult
  pub sequence : ℕ

-- `PreflightReport`.
pub record Report : Type 0 where
  pub passed : Bool
  pub est_price : Decimal
  pub est_slippage_bps : Option Decimal
  pub est_liquidation_price : Option Decimal
  pub est_price_impact : Option Decimal
  pub reasons : List Text

pub data LeverageError : Type 0 where
  below_one : LeverageError
  unreadable : DecimalError → LeverageError

pub data Leverage : Type 0 where
  leverage_ok : Decimal → Leverage
  leverage_err : LeverageError → Leverage

abbrev pub one : Decimal
one = record { coefficient = pos 1; scale = pos 0; negative_zero = false }

abbrev ten_thousand : Decimal
ten_thousand = record { coefficient = pos 10000; scale = pos 0; negative_zero = false }

infixl 5 ◌>>=◌
abbrev pub ◌>>=◌ : {A B : Type 0} → Result A → (A → Result B) → Result B
ok a >>= f = f a
err e >>= f = err e

-- `math.IsNaN(x) || math.IsInf(x, 0) || x < 1` is false for the bit patterns from 1 up to infinity.
abbrev pub is_leverage : Float → Bool
is_leverage x = leb 0x3ff0000000000000 x.bits && ltb x.bits 0x7ff0000000000000

abbrev lift_leverage : Result Decimal → Leverage
lift_leverage (ok d) = leverage_ok d
lift_leverage (err e) = leverage_err (unreadable e)

unfoldable pub leverage_decimal : Platform → Float → Leverage
leverage_decimal platform x =
    if is_leverage x then lift_leverage (parse_leverage platform x) else leverage_err below_one

abbrev pub leverage_message : (DecimalError → Text) → LeverageError → Text
leverage_message describe below_one = codes "杠杆必须是大于等于 1 的有限数"
leverage_message describe (unreadable e) = describe e

-- `normalizeIntent`, field by field; a float is 0 with either sign.
abbrev normal_instrument : Instrument → Instrument
normal_instrument (other_instrument []) = spot
normal_instrument i = i

abbrev normal_order_type : EntryType → EntryType
normal_order_type (other_entry []) = market
normal_order_type t = t

abbrev normal_leverage : Float → Float
normal_leverage x =
    if x.bits == 0 || x.bits == 2 ^ 63 then record { bits = 0x3ff0000000000000 } else x

abbrev normal_margin_mode : MarginMode → MarginMode
normal_margin_mode (other_mode []) = isolated
normal_margin_mode m = m

abbrev normal_venue : Text → Text
normal_venue [] = codes "paper"
normal_venue (c ∷ s) = c ∷ s

unfoldable pub normalize_intent : OrderIntent → OrderIntent
normalize_intent intent = record intent {
  instrument = normal_instrument intent.instrument;
  order_type = normal_order_type intent.order_type;
  leverage = normal_leverage intent.leverage;
  margin_mode = normal_margin_mode intent.margin_mode;
  venue = normal_venue intent.venue;
}

abbrev pub key_of : OrderIntent → Key
key_of intent = record { symbol = intent.symbol; instrument = intent.instrument }

abbrev pub is_flat : Side → Bool
is_flat flat = true
is_flat _ = false

abbrev pub is_perp_instrument : Instrument → Bool
is_perp_instrument perp = true
is_perp_instrument _ = false

abbrev pub is_spot_instrument : Instrument → Bool
is_spot_instrument spot = true
is_spot_instrument _ = false

-- The side of a position that is held, and the intent's otherwise.
abbrev pub held_or : Side → Side → Side
held_or side (other_side []) = side
held_or side held = held

abbrev pub held_side : Side → Option Position → Side
held_side side none = side
held_side side (some position) = held_or side position.side

-- `if (intent.ReduceOnly || intent.Side == SideFlat) && v.positions[key].Side != "" { … }`.
unfoldable pub resolve_side : Paper → OrderIntent → OrderIntent
resolve_side v intent =
    if intent.reduce_only || is_flat intent.side
    then record intent { side = held_side intent.side (find (key_of intent) v.positions) }
    else intent

-- The liquidation price at an entry and the inverse of the leverage.
abbrev pub liquidation_at : Side → Decimal → Decimal → Decimal
liquidation_at side entry inverse =
    if is_long side then mul entry (sub one inverse) else mul entry (add one inverse)

abbrev refused_report : Decimal → Text → Report
refused_report price reason = record {
  passed = false;
  est_price = price;
  est_slippage_bps = none;
  est_liquidation_price = none;
  est_price_impact = none;
  reasons = reason ∷ [];
}

abbrev passed_report : Decimal → Decimal → Option Decimal → Report
passed_report price slippage liquidation = record {
  passed = true;
  est_price = price;
  est_slippage_bps = some slippage;
  est_liquidation_price = liquidation;
  est_price_impact = none;
  reasons = [];
}

-- `adverseUp`: the order buys.
abbrev pub buys : OrderIntent → Bool
buys intent =
    (is_long intent.side && not intent.reduce_only) || (is_short intent.side && intent.reduce_only)

abbrev report_leverage :
    (DecimalError → Text) → OrderIntent → Decimal → Decimal → Leverage → Result Report
report_leverage describe intent slippage price (leverage_err e) =
    ok (refused_report price (leverage_message describe e))
report_leverage describe intent slippage price (leverage_ok value) = quo one value >>= λ inverse.
    ok (passed_report price slippage (some (liquidation_at intent.side price inverse)))

-- The report at a mark price that is positive.
unfoldable pub preflight_at :
    Platform → (DecimalError → Text) → Paper → OrderIntent → Decimal → Result Report
preflight_at platform describe v intent mark = quo v.slippage_bps ten_thousand >>= λ slip.
    (let price = if buys intent then mul mark (add one slip) else mul mark (sub one slip) in
      if is_perp_instrument intent.instrument
      then report_leverage describe intent v.slippage_bps price
          (leverage_decimal platform intent.leverage)
      else ok (passed_report price v.slippage_bps none))

abbrev no_mark : Report
no_mark = refused_report zero_decimal (codes "无 mark price")

abbrev preflight_marked :
    Platform → (DecimalError → Text) → Paper → OrderIntent → Option Decimal → Result Report
preflight_marked platform describe v intent none = ok no_mark
preflight_marked platform describe v intent (some mark) =
    if is_positive mark then preflight_at platform describe v intent mark else ok no_mark

unfoldable pub preflight_locked :
    Platform → (DecimalError → Text) → Paper → OrderIntent → Result Report
preflight_locked platform describe v intent =
    preflight_marked platform describe v intent (lookup intent.symbol v.marks)

-- `nextIDLocked`: the counter is a `uint64`.
unfoldable pub next_id : Text → Paper → Paper × Text
next_id prefix v =
    let n = (v.sequence + 1) % 2 ^ 64 in
    (record v { sequence = n }, codes "paper-" ++ (prefix ++ (b'-' ∷ digits_text n)))

abbrev pub rejected_result : Text → Text → ExecutionResult
rejected_result client_id message = record {
  client_id = client_id;
  order_id = none;
  status = order_rejected;
  filled_base = zero_decimal;
  avg_price = none;
  fee_quote = zero_decimal;
  slippage_bps = none;
  protective_orders = [];
  error = some message;
  chain = none;
  tx_hash = none;
  gas_used = none;
}

abbrev pub filled_result :
    Text → Text → Decimal → Decimal → Decimal → Decimal → List ProtectiveOrder → ExecutionResult
filled_result client_id order_id base price fee slippage orders = record {
  client_id = client_id;
  order_id = some order_id;
  status = filled;
  filled_base = base;
  avg_price = some price;
  fee_quote = fee;
  slippage_bps = some slippage;
  protective_orders = orders;
  error = none;
  chain = none;
  tx_hash = none;
  gas_used = none;
}

-- `v.fills[clientID] = result`.
abbrev pub record_fill : Text → ExecutionResult → Paper → Paper
record_fill client_id result v = record v { fills = insert client_id result v.fills }

unfoldable pub remember_rejected : Paper → Text → Text → Paper × ExecutionResult
remember_rejected v client_id message =
    let result = rejected_result client_id message in (record_fill client_id result v, result)

-- The profit of a position at a price.
unfoldable pub profit_at : Position → Decimal → Decimal
profit_at position price =
    let change = mul position.size_base (sub price position.entry_price) in
    if is_short position.side then neg_decimal change else change

abbrev pub entry_notional : Position → Decimal
entry_notional position = mul position.size_base position.entry_price

abbrev pub value_or : Decimal → Result Decimal → Decimal
value_or full (ok margin) = margin
value_or full (err _) = full

abbrev pub margin_or : Decimal → Position → Leverage → Decimal
margin_or full position (leverage_err _) = full
margin_or full position (leverage_ok value) = value_or full (quo (entry_notional position) value)

-- What the position locks: its margin, or all of its entry value.
abbrev pub locked : Platform → Position → Decimal
locked platform position =
    if is_perp_instrument position.instrument
    then margin_or (entry_notional position) position (leverage_decimal platform position.leverage)
    else entry_notional position

-- What the position is worth at a price, before the fee.
unfoldable pub proceeds_at : Platform → Position → Decimal → Decimal
proceeds_at platform position price = add (locked platform position) (profit_at position price)

abbrev pub close_fee : Paper → Position → Decimal → Decimal
close_fee v position price = mul (mul position.size_base price) v.fee_rate

abbrev close_id : Text → Paper → Paper × Text
close_id [] v = next_id (codes "close") v
close_id (c ∷ s) v = (v, c ∷ s)

-- The venue without the position, and its proceeds paid.
unfoldable pub settle : Platform → Paper → Key → Position → Decimal → Paper
settle platform v key position price = record v {
  positions = remove key v.positions;
  protective = remove key v.protective;
  free_quote =
      sub (add v.free_quote (proceeds_at platform position price)) (close_fee v position price);
}

unfoldable pub close_position :
    Platform → Paper → Key → Position → Decimal → Text → Text → Paper × ExecutionResult
close_position platform v key position price client_id order_id =
    let (w, id) = close_id order_id (settle platform v key position price) in
    (
      w,
      filled_result client_id id position.size_base price (close_fee v position price)
          v.slippage_bps [],
    )

-- `closeAtPriceLocked`.
abbrev pub close_found :
    Platform → Paper → Key → Decimal → Text → Text → Option Position → Paper × ExecutionResult
close_found platform v key price client_id order_id none =
    (v, rejected_result client_id (codes "无持仓可平"))
close_found platform v key price client_id order_id (some position) =
    close_position platform v key position price client_id order_id

unfoldable pub close_at_price :
    Platform → Paper → Key → Decimal → Text → Text → Paper × ExecutionResult
close_at_price platform v key price client_id order_id =
    close_found platform v key price client_id order_id (find key v.positions)
