-- ===== src/Paper/Place.antt =====
-- internal/venue/paper.go: `Place`.
use cyp_agent.Base.{
  Bool, true, false, ◌&&◌, ◌||◌, not, Option, none, some, List, [], ◌∷◌, ◌++◌, if◌then◌else◌, Text,
  text_eq, codes, trim_space, lookup,
}
use cyp_agent.Decimal.{
  Decimal, DecimalError, Result, ok, err, add, sub, mul, cmp, is_positive, is_zero, is_negative,
  lt_zero,
}
use cyp_agent.Decimal.Quotient.{quo}
use cyp_agent.Decimal.Text.{to_text}
use cyp_agent.Models.{
  Side, long, short, flat, other_side, OrderIntent, ProtectiveOrder, ExecutionResult, Position,
}
use cyp_agent.Risk.{Platform, is_long, is_short}
use cyp_agent.Paper.Keys.{find, put}
use cyp_agent.Paper.{
  Paper, Report, leverage_decimal, one, normalize_intent, key_of, is_flat, is_perp_instrument,
  is_spot_instrument, resolve_side, liquidation_at, preflight_locked, next_id, filled_result,
  record_fill, remember_rejected, entry_notional, close_at_price,
}
use cyp_agent.Paper.Protect.{make_protective, conservative_protective}
use cyp_agent.Paper.Check.{
  Check, passes, refuses, fails, ◌>>=◌, ◌>>◌, check_result, check_leverage, check_that,
}

pub data PlaceError : Type 0 where
  canceled client_id_required : PlaceError
  failed_with : DecimalError → PlaceError

pub data Placed : Type 0 where
  placed : ExecutionResult → Placed
  place_failed : PlaceError → Placed

abbrev pub is_side : Side → Bool
is_side side = is_long side || is_short side

abbrev pub same_side : Side → Side → Bool
same_side long long = true
same_side short short = true
same_side flat flat = true
same_side (other_side s) (other_side t) = text_eq s t
same_side _ _ = false

-- What an opening order needs: the leverage as a decimal, the cash with the fee, and the size.
pub record Terms : Type 0 where
  pub leverage : Decimal
  pub fee : Decimal
  pub required : Decimal
  pub size_base : Decimal

-- The added margin of a position that is held.
unfoldable pub add_on_cost : Decimal → Decimal → OrderIntent → Decimal → Check Decimal
add_on_cost existing_notional existing_leverage intent leverage = do
  existing_margin ← check_result (quo existing_notional existing_leverage)
  new_total_margin ← check_result (quo (add existing_notional intent.size_quote) leverage)
  passes (sub new_total_margin existing_margin)

abbrev pub base_cost : OrderIntent → Decimal → Check Decimal
base_cost intent leverage =
    if is_perp_instrument intent.instrument
    then check_result (quo intent.size_quote leverage)
    else passes intent.size_quote

abbrev pub held_cost :
    Platform → (DecimalError → Text) → OrderIntent → Decimal → Position → Decimal → Check Decimal
held_cost platform describe intent leverage position cost =
    if is_perp_instrument intent.instrument
    then (do
      existing_leverage ← check_leverage describe (leverage_decimal platform position.leverage)
      add_on_cost (entry_notional position) existing_leverage intent leverage)
    else passes cost

unfoldable pub order_cost :
    Platform → (DecimalError → Text) → OrderIntent → Decimal → Option Position → Check Decimal
order_cost platform describe intent leverage none = base_cost intent leverage
order_cost platform describe intent leverage (some position) = do
  cost ← base_cost intent leverage
  check_that (same_side position.side intent.side) (codes "该标的已有反向持仓")
  held_cost platform describe intent leverage position cost

-- The text of a decimal; `String` of a decimal with a negative scale panics, which has none here.
abbrev shown : Decimal → Text
shown d = elim (to_text d) [ none ↦ [] | some text ↦ text ]

abbrev short_of : Decimal → Decimal → Text
short_of required free = codes "可用余额不足：需要 " ++ (shown required ++ (codes "，当前 " ++ shown free))

-- `required.IsPositive() && v.freeQuote.Cmp(required) < 0` refuses.
abbrev pub affordable : Decimal → Decimal → Bool
affordable free required = not (is_positive required && lt_zero (cmp free required))

-- The checks of `Place` on an order that opens or adds.
unfoldable pub open_terms :
    Platform → (DecimalError → Text) → Paper → OrderIntent → Report → Check Terms
open_terms platform describe v intent report = do
  check_that (is_side intent.side) (codes "无效的开仓方向")
  check_that (is_spot_instrument intent.instrument || is_perp_instrument intent.instrument)
      (codes "无效的交易品种")
  check_that (not (is_zero intent.size_quote || is_negative intent.size_quote)) (codes "开仓金额必须大于 0")
  leverage ← check_leverage describe (leverage_decimal platform intent.leverage)
  cost ← order_cost platform describe intent leverage (find (key_of intent) v.positions)
  let fee = mul intent.size_quote v.fee_rate
  let required = add cost fee
  check_that (affordable v.free_quote required) (short_of required v.free_quote)
  size_base ← check_result (quo intent.size_quote report.est_price)
  passes (record { leverage = leverage; fee = fee; required = required; size_base = size_base })

abbrev new_position : OrderIntent → Report → Decimal → Position
new_position intent report size_base = record {
  symbol = intent.symbol;
  venue = codes "paper";
  side = intent.side;
  instrument = intent.instrument;
  size_base = size_base;
  entry_price = report.est_price;
  leverage = intent.leverage;
  liq_price = report.est_liquidation_price;
  margin_mode = if is_perp_instrument intent.instrument then some intent.margin_mode else none;
  chain = none;
  tx_hash = none;
}

-- The position after an add-on, at its average entry.
abbrev grown : Position → OrderIntent → Decimal → Decimal → Position
grown existing intent total_base average = record existing {
  size_base = total_base;
  entry_price = average;
  leverage = intent.leverage;
}

abbrev regeared : Position → OrderIntent → Decimal → Decimal → Position
regeared position intent average inverse = record position {
  margin_mode = some intent.margin_mode;
  liq_price = some (liquidation_at intent.side average inverse);
}

unfoldable pub add_position : Position → OrderIntent → Report → Terms → Check Position
add_position existing intent report terms =
    let total_base = add existing.size_base terms.size_base in
    let total_entry_notional =
      add (entry_notional existing) (mul terms.size_base report.est_price) in
    do
      average ← check_result (quo total_entry_notional total_base)
      (if is_perp_instrument intent.instrument
          then (do
            inverse ← check_result (quo one terms.leverage)
            passes (regeared (grown existing intent total_base average) intent average inverse))
          else passes (grown existing intent total_base average))

-- The position and the protective orders that the order leaves, from those that it attaches.
unfoldable pub next_position :
    Option Position
    → List ProtectiveOrder
    → OrderIntent
    → Report
    → Terms
    → List ProtectiveOrder
    → Check (Position × List ProtectiveOrder)
next_position none current intent report terms attached =
    passes (new_position intent report terms.size_base, attached)
next_position (some existing) current intent report terms attached =
    add_position existing intent report terms >>= λ position.
    passes (position, conservative_protective existing.side current attached)

abbrev pub orders_at : Option (List ProtectiveOrder) → List ProtectiveOrder
orders_at none = []
orders_at (some orders) = orders

-- The end of `Place`: the order is filled.
unfoldable pub commit :
    Paper → OrderIntent → Report → Terms → Position → List ProtectiveOrder → Paper × ExecutionResult
commit v intent report terms position protective =
    let (w, order_id) = next_id (codes "ord") v in
    let result =
      filled_result intent.client_id order_id terms.size_base report.est_price terms.fee
        w.slippage_bps protective in
    (
      record w {
        free_quote = sub w.free_quote terms.required;
        positions = put (key_of intent) position w.positions;
        protective = put (key_of intent) protective w.protective;
        fills = (record_fill intent.client_id result w).fills;
      },
      result,
    )

abbrev pub placed_with : Paper × ExecutionResult → Paper × Placed
placed_with (v, result) = (v, placed result)

abbrev pub finish :
    Paper → OrderIntent → Report → Terms → Check (Position × List ProtectiveOrder) → Paper × Placed
finish v intent report terms (fails e) = (v, place_failed (failed_with e))
finish v intent report terms (refuses message) =
    placed_with (remember_rejected v intent.client_id message)
finish v intent report terms (passes (position, protective)) =
    placed_with (commit v intent report terms position protective)

abbrev pub open_with : Paper → OrderIntent → Report → Check Terms → Paper × Placed
open_with v intent report (fails e) = (v, place_failed (failed_with e))
open_with v intent report (refuses message) =
    placed_with (remember_rejected v intent.client_id message)
open_with v intent report (passes terms) =
    let (w, attached) = make_protective v intent in
    finish w intent report terms (
      next_position (find (key_of intent) v.positions)
        (orders_at (find (key_of intent) v.protective)) intent report terms attached)

-- An order that opens or adds.
unfoldable pub open_order :
    Platform → (DecimalError → Text) → Paper → OrderIntent → Report → Paper × Placed
open_order platform describe v intent report =
    open_with v intent report (open_terms platform describe v intent report)

-- `strings.Join(reasons, "; ")`.
unfoldable pub join_reasons : List Text → Text
join_reasons [] = []
join_reasons (reason ∷ []) = reason
join_reasons (reason ∷ next ∷ rest) = reason ++ (codes "; " ++ join_reasons (next ∷ rest))

abbrev pub closed_with : Text → Paper × ExecutionResult → Paper × Placed
closed_with client_id (v, result) = (record_fill client_id result v, placed result)

abbrev pub place_reported :
    Platform → (DecimalError → Text) → Paper → OrderIntent → Result Report → Paper × Placed
place_reported platform describe v intent (err e) = (v, place_failed (failed_with e))
place_reported platform describe v intent (ok report) =
    if not report.passed
    then placed_with (remember_rejected v intent.client_id (join_reasons report.reasons))
    else if intent.reduce_only || is_flat intent.side
    then closed_with intent.client_id
        (close_at_price platform v (key_of intent) report.est_price intent.client_id [])
    else open_order platform describe v intent report

-- `Place` on a client id that has no result yet, with the intent normalized and its side resolved.
unfoldable pub place_new : Platform → (DecimalError → Text) → Paper → OrderIntent → Paper × Placed
place_new platform describe v intent =
    place_reported platform describe v intent (preflight_locked platform describe v intent)

abbrev pub is_blank : Text → Bool
is_blank s = elim (trim_space s) [ [] ↦ true | _ ∷ _ ↦ false ]

abbrev pub place_once :
    Platform → (DecimalError → Text) → Paper → OrderIntent → Option ExecutionResult → Paper × Placed
place_once platform describe v intent (some existing) = (v, placed existing)
place_once platform describe v intent none =
    place_new platform describe v (resolve_side v (normalize_intent intent))

-- `Place`; `done` says that the context is canceled.
unfoldable pub place :
    Platform → (DecimalError → Text) → Paper → Bool → OrderIntent → Paper × Placed
place platform describe v done intent =
    if done
    then (v, place_failed canceled)
    else if is_blank intent.client_id
    then (v, place_failed client_id_required)
    else place_once platform describe v intent (lookup intent.client_id v.fills)
