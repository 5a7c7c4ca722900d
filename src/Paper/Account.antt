-- ===== src/Paper/Account.antt =====
-- internal/venue/paper.go: the constructor, and the calls that read the account or cancel orders.
use cyp_agent.Base.{
  Bool, ◌||◌, Option, none, some, List, [], ◌∷◌, if◌then◌else◌, Text, text_eq, text_lt, codes, Dict,
  lookup, trim_space,
}
use cyp_agent.Decimal.{Decimal, Result, ok, err, add, is_negative}
use cyp_agent.Decimal.Quotient.{quo}
use cyp_agent.Models.{OrderIntent, ProtectiveOrder, ExecutionResult, Position}
use cyp_agent.Risk.{Platform, literal}
use cyp_agent.Paper.Keys.{KeyMap, instrument_text}
use cyp_agent.Paper.{
  Paper, Report, Leverage, LeverageError, leverage_ok, leverage_err, leverage_decimal, profit_at,
  entry_notional, is_perp_instrument, preflight_locked, normalize_intent, resolve_side,
}
use cyp_agent.Decimal.{DecimalError}

pub data PaperOption : Type 0 where
  initial_quote : Decimal → PaperOption
  quote_currency : Text → PaperOption
  slippage_option : Decimal → PaperOption
  fee_option : Decimal → PaperOption

abbrev default_venue : Paper
default_venue = record {
  quote_ccy = codes "USDT";
  free_quote = literal 10000 0;
  slippage_bps = literal 5 0;
  fee_rate = literal 4 4;
  marks = [];
  positions = [];
  protective = [];
  fills = [];
  sequence = 0;
}

abbrev with_currency : Text → Paper → Paper
with_currency [] v = v
with_currency (c ∷ s) v = record v { quote_ccy = c ∷ s }

unfoldable pub apply_option : PaperOption → Paper → Paper
apply_option (initial_quote value) v = record v { free_quote = value }
apply_option (quote_currency value) v = with_currency (trim_space value) v
apply_option (slippage_option value) v = record v { slippage_bps = value }
apply_option (fee_option value) v = record v { fee_rate = value }

unfoldable pub apply_options : List PaperOption → Paper → Paper
apply_options [] v = v
apply_options (option ∷ options) v = apply_options options (apply_option option v)

-- `NewPaperVenue`; `none` is one of its panics.
unfoldable pub new_paper_venue : List PaperOption → Option Paper
new_paper_venue options =
    let v = apply_options options default_venue in
    if is_negative v.free_quote || is_negative v.slippage_bps || is_negative v.fee_rate
    then none
    else some v

pub data BalanceError : Type 0 where
  leverage_failed : LeverageError → BalanceError
  decimal_failed : DecimalError → BalanceError
  context_done : BalanceError

pub data Balance (A : Type 0) : Type 0 where
  balance : A → Balance A
  no_balance : BalanceError → Balance A

-- The mark of a position, or its entry price.
abbrev pub mark_or_entry : Position → Option Decimal → Decimal
mark_or_entry position none = position.entry_price
mark_or_entry position (some mark) = mark

abbrev pub with_margin : Decimal → Position → Decimal → Result Decimal → Balance Decimal
with_margin equity position unrealized (err e) = no_balance (decimal_failed e)
with_margin equity position unrealized (ok margin) = balance (add (add equity margin) unrealized)

abbrev pub with_leverage : Decimal → Position → Decimal → Leverage → Balance Decimal
with_leverage equity position unrealized (leverage_err e) = no_balance (leverage_failed e)
with_leverage equity position unrealized (leverage_ok value) =
    with_margin equity position unrealized (quo (entry_notional position) value)

-- One pass of the loop of `Balances`: the unrealized profit is that of the close at the mark.
unfoldable pub add_worth : Platform → Dict Decimal → Decimal → Position → Balance Decimal
add_worth platform marks equity position =
    let mark = mark_or_entry position (lookup position.symbol marks) in
    let unrealized = profit_at position mark in
    if is_perp_instrument position.instrument
    then with_leverage equity position unrealized (leverage_decimal platform position.leverage)
    else balance (add (add equity (entry_notional position)) unrealized)

unfoldable pub total_worth :
    Platform → Dict Decimal → KeyMap Position → Balance Decimal → Balance Decimal
total_worth platform marks [] total = total
total_worth platform marks (_ ∷ positions) (no_balance e) = no_balance e
total_worth platform marks ((key, position) ∷ positions) (balance equity) =
    total_worth platform marks positions (add_worth platform marks equity position)

pub record Balances : Type 0 where
  pub currency : Text
  pub free : Decimal
  pub total : Decimal

abbrev pub report_balances : Paper → Balance Decimal → Balance Balances
report_balances v (no_balance e) = no_balance e
report_balances v (balance equity) =
    balance (record { currency = v.quote_ccy; free = v.free_quote; total = equity })

-- `Balances`; the entries of the map come in any order, here in that of the list.
unfoldable pub balances : Platform → Paper → Bool → Balance Balances
balances platform v done =
    if done
    then no_balance context_done
    else report_balances v (total_worth platform v.marks v.positions (balance v.free_quote))

-- `Positions`, sorted by symbol and instrument.
abbrev before : Position → Position → Bool
before p q =
    if text_eq p.symbol q.symbol
    then text_lt (instrument_text p.instrument) (instrument_text q.instrument)
    else text_lt p.symbol q.symbol

unfoldable pub insert_position : Position → List Position → List Position
insert_position p [] = p ∷ []
insert_position p (q ∷ rest) = if before q p then q ∷ insert_position p rest else p ∷ (q ∷ rest)

unfoldable pub sorted_positions : KeyMap Position → List Position
sorted_positions [] = []
sorted_positions ((key, p) ∷ rest) = insert_position p (sorted_positions rest)

-- `ProtectiveFor`, sorted by the order id.
unfoldable pub insert_protective : ProtectiveOrder → List ProtectiveOrder → List ProtectiveOrder
insert_protective o [] = o ∷ []
insert_protective o (p ∷ rest) =
    if text_lt p.order_id o.order_id then p ∷ insert_protective o rest else o ∷ (p ∷ rest)

unfoldable pub insert_all : List ProtectiveOrder → List ProtectiveOrder → List ProtectiveOrder
insert_all [] sorted = sorted
insert_all (o ∷ orders) sorted = insert_protective o (insert_all orders sorted)

unfoldable pub protective_for : Text → KeyMap (List ProtectiveOrder) → List ProtectiveOrder
protective_for symbol [] = []
protective_for symbol ((key, orders) ∷ rest) =
    let more = protective_for symbol rest in
    if text_eq key.symbol symbol then insert_all orders more else more

unfoldable pub drop_symbol : Text → KeyMap (List ProtectiveOrder) → KeyMap (List ProtectiveOrder)
drop_symbol symbol [] = []
drop_symbol symbol ((key, orders) ∷ rest) =
    let more = drop_symbol symbol rest in
    if text_eq key.symbol symbol then more else (key, orders) ∷ more

-- `CancelProtectiveOrders`; a canceled context is its error, and changes nothing.
unfoldable pub cancel_protective_orders : Paper → Bool → Text → Paper
cancel_protective_orders v done symbol =
    if done then v else record v { protective = drop_symbol symbol v.protective }

-- `FetchTicker`; `none` is an error, a canceled context or no mark.
abbrev pub fetch_ticker : Paper → Bool → Text → Option Decimal
fetch_ticker v done symbol = if done then none else lookup symbol v.marks

-- `ProtectiveOrders`; `none` is a canceled context.
abbrev pub protective_orders_of : Paper → Bool → Text → Option (List ProtectiveOrder)
protective_orders_of v done symbol =
    if done then none else some (protective_for symbol v.protective)

abbrev pub fill_of : Paper → Text → Option ExecutionResult
fill_of v client_id = lookup client_id v.fills

-- `ReconcileOrder`; `none` is a canceled context, `some none` that there is no fill.
abbrev pub reconcile_order : Paper → Bool → OrderIntent → Option (Option ExecutionResult)
reconcile_order v done intent = if done then none else some (lookup intent.client_id v.fills)

-- `Preflight`, which changes nothing; `none` is a canceled context.
unfoldable pub preflight :
    Platform → (DecimalError → Text) → Paper → Bool → OrderIntent → Option (Result Report)
preflight platform describe v done intent =
    if done
    then none
    else some (preflight_locked platform describe v (resolve_side v (normalize_intent intent)))
