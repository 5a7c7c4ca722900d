-- ===== src/Paper/Tests.antt =====
-- A simulated venue with one long position in BTC at 100, a stop loss at 95 and a target at 120.
use cyp_agent.Base.{
  ℕ, ◌≤◌, ◌≡◌, ◌∙◌, refl, sym, inl, inr, true, false, none, some, List, [], ◌∷◌, ◌&&◌, arith, Text,
  codes, is_some, text_eq, lookup, insert, if◌then◌else◌, length, ◌++◌, dec_lt, trim_space,
  trim_left,
}
use cyp_agent.Int.{◌+ℤ◌, ◌-ℤ◌, neg, ◌*ℤ◌}
use cyp_agent.Decimal.{
  DecimalError, of_int64, cmp_ℤ, rescale, common_scale, align_decimals, add, neg_decimal, sub, mul,
  cmp, is_negative,
}
use cyp_agent.Decimal.Exact.{units}
use cyp_agent.Decimal.Text.{digits_text, digits_loop}
use cyp_agent.Decimal.Quotient.{
  scaled_parts, round_away, round_quotient, quo_rounded, quo_scale, normalize_loop, normalize, quo,
}
use cyp_agent.Decimal.Parse.{
  cut, ascii_digits, digits_value, parse_int32, split_exponent, split_point, trim_zeros, of_digits,
  at_scale, parse_decimal,
}
use cyp_agent.Models.{
  Float, long, flat, spot, isolated, market, OrderIntent, ProtectiveOrder, Position,
  ExecutionResult, filled,
}
use cyp_agent.Risk.{literal, parse_leverage}
use cyp_agent.Samples.{two_platform}
use cyp_agent.Paper.Keys.{Key, find, put, remove, key_eq, key_eq_iff}
use cyp_agent.Paper
use cyp_agent.Paper.{
  normalize_intent, resolve_side, preflight_locked, preflight_at, leverage_decimal, next_id,
  close_at_price, close_position, settle, proceeds_at, profit_at, remember_rejected, key_of,
}
use cyp_agent.Paper.Place.{
  placed, place, place_new, open_order, open_terms, order_cost, next_position, commit,
}
use cyp_agent.Paper.Protect.{
  make_stop, make_takes, make_protective, protective_hit, conservative_protective, stop_loss_kind,
  take_profit_kind,
}
use cyp_agent.Paper.Trigger.{
  set_mark_price, first_hit, trigger_protective, trigger_keys, trigger_key, fire, fire_first,
  keys_of, sort_keys, insert_key,
}
use cyp_agent.Paper.Account.{Balances, balance, balances, total_worth, add_worth}
use cyp_agent.Paper.Calls.{mark_call, run}
use cyp_agent.Paper.Calls.Once.{place_answers_once}
use cyp_agent.Paper.Merge.{conservative_protective-hits}
use cyp_agent.Paper.Sweep.{IsFresh, hit_order}
use cyp_agent.Paper.Stops.{set_mark_price-closes}
use cyp_agent.Paper.Cash.{place_solvent}
use cyp_agent.Paper.Flat.{flat_order_adds, at_side}
use cyp_agent.Paper.Equity.{IsDistinct, AllFine}
use cyp_agent.Paper.Closing.{close_at_price-balances}

abbrev no_text : DecimalError → Text
no_text e = []

abbrev btc : Text
btc = codes "BTC/USDT"

abbrev two_times : Float
two_times = record { bits = 0x4000000000000000 }

abbrev order : OrderIntent
order = record {
  client_id = codes "run-1";
  symbol = btc;
  venue = codes "paper";
  side = long;
  instrument = spot;
  order_type = market;
  size_quote = literal 1000 0;
  price = none;
  leverage = two_times;
  margin_mode = isolated;
  reduce_only = false;
  stop_loss = some (literal 95 0);
  take_profit = literal 120 0 ∷ [];
  chain = none;
  approval_amount = none;
}

abbrev marked_venue : Paper.Paper
marked_venue = record {
  quote_ccy = codes "USDT";
  free_quote = literal 10000 0;
  slippage_bps = literal 0 0;
  fee_rate = literal 1 3;
  marks = (btc, literal 100 0) ∷ [];
  positions = [];
  protective = [];
  fills = [];
  sequence = 0;
}

abbrev spot_key : Key
spot_key = record { symbol = btc; instrument = spot }

abbrev position : Position
position = record {
  symbol = btc;
  venue = codes "paper";
  side = long;
  instrument = spot;
  size_base = literal 10 0;
  entry_price = literal 100 0;
  leverage = two_times;
  liq_price = none;
  margin_mode = none;
  chain = none;
  tx_hash = none;
}

abbrev guard : Text → Text → ℕ → ProtectiveOrder
guard kind id price = record {
  kind = kind;
  order_id = id;
  client_id = codes "run-1";
  position_side = long;
  trigger_price = literal price 0;
  size_base = literal 0 0;
  reduce_only = true;
  full_close = true;
}

abbrev guards : List ProtectiveOrder
guards =
    guard stop_loss_kind (codes "paper-sl-1") 95
    ∷ guard take_profit_kind (codes "paper-tp-2") 120
    ∷ []

abbrev held_venue : Paper.Paper
held_venue = record marked_venue {
  free_quote = literal 8999000 3;
  positions = (spot_key, position) ∷ [];
  protective = (spot_key, guards) ∷ [];
  sequence = 3;
}

abbrev fill : ExecutionResult
fill = record {
  client_id = codes "run-1";
  order_id = some (codes "paper-ord-3");
  status = filled;
  filled_base = literal 10 0;
  avg_price = some (literal 100 0);
  fee_quote = literal 1000 3;
  slippage_bps = some (literal 0 0);
  protective_orders = guards;
  error = none;
  chain = none;
  tx_hash = none;
  gas_used = none;
}

abbrev filled_venue : Paper.Paper
filled_venue = record held_venue { fills = (codes "run-1", fill) ∷ [] }

-- The order is filled at 100, for 1000 and a fee of 1.
order_filled : place two_platform no_text marked_venue false order ≡ (filled_venue, placed fill)
unfolding place place_new open_order open_terms order_cost next_position commit make_protective
    make_stop make_takes next_id resolve_side normalize_intent preflight_locked preflight_at
    leverage_decimal find put insert lookup quo parse_leverage parse_decimal split_exponent
    split_point at_scale of_digits trim_zeros parse_int32 digits_value ascii_digits cut scaled_parts
    round_away round_quotient quo_rounded quo_scale normalize_loop normalize digits_text digits_loop
    of_int64 cmp_ℤ rescale common_scale align_decimals add neg_decimal sub mul cmp ◌+ℤ◌ ◌-ℤ◌ neg
    ◌*ℤ◌ dec_lt trim_space trim_left key_eq
order_filled = refl

place_answers_once_example :
    place two_platform no_text
      (run two_platform no_text (mark_call btc (literal 94 0) ∷ []) filled_venue)
      false
      order
    ≡ (run two_platform no_text (mark_call btc (literal 94 0) ∷ []) filled_venue, placed fill)
place_answers_once_example =
    place_answers_once two_platform no_text marked_venue filled_venue order fill order_filled
      (mark_call btc (literal 94 0) ∷ []) order refl

abbrev tighter : List ProtectiveOrder
tighter = guard stop_loss_kind (codes "paper-sl-4") 97 ∷ []

conservative_protective-hits_example :
    (length (conservative_protective long guards tighter) ≤ 2)
    × (is_some (first_hit position (literal 96 0) (conservative_protective long guards tighter))
        ≡ is_some (first_hit position (literal 96 0) (guards ++ tighter)))
conservative_protective-hits_example =
    conservative_protective-hits position (literal 96 0) guards tighter (inl refl) (omega arith)
      (
        record { kind = inl refl; scaled = omega arith },
        (record { kind = inr refl; scaled = omega arith }, tt),
      )
      (record { kind = inl refl; scaled = omega arith }, tt)

place_solvent_example :
    is_negative (place two_platform no_text marked_venue false order).0.free_quote ≡ false
place_solvent_example =
    place_solvent two_platform no_text 28 marked_venue false order (omega arith) (omega arith)
      (omega arith) (omega arith) refl (omega arith) refl refl

abbrev flat_order : OrderIntent
flat_order = record order { side = flat; client_id = codes "run-2" }

flat_order_adds_example :
    place two_platform no_text held_venue false flat_order
    ≡ place two_platform no_text held_venue false (at_side flat_order long)
flat_order_adds_example =
    flat_order_adds two_platform no_text held_venue false flat_order position refl refl refl
      (unfold normalize_intent find key_eq in refl)

held-IsDistinct : IsDistinct held_venue.positions
unfolding find
held-IsDistinct = (refl, tt)

held_fine : AllFine 28 held_venue.marks held_venue.positions
unfolding lookup
held_fine = (record { size = omega arith; entry = omega arith; mark = omega arith }, tt)

held_found : find spot_key held_venue.positions ≡ some position
unfolding find key_eq
held_found = refl

held_marked : lookup position.symbol held_venue.marks ≡ some (literal 100 0)
unfolding lookup
held_marked = refl

abbrev held_balances : Balances
held_balances = record {
  currency = codes "USDT";
  free = literal 8999000 3;
  total = literal 9999000 3;
}

held_reports : balances two_platform held_venue false ≡ balance held_balances
unfolding balances total_worth add_worth lookup profit_at add sub neg_decimal mul align_decimals
    rescale common_scale ◌+ℤ◌ ◌-ℤ◌ neg ◌*ℤ◌
held_reports = refl

close_at_price-balances_example :
    let (w, result) = close_at_price two_platform held_venue spot_key (literal 100 0) [] [] in
    (after : Balances) × (balances two_platform w false ≡ balance after)
    × (units 84 after.total +ℤ units 84 result.fee_quote ≡ units 84 (literal 9999000 3))
close_at_price-balances_example =
    close_at_price-balances 28 two_platform held_venue spot_key position (literal 100 0) [] []
      held_balances (omega arith) (omega arith) held-IsDistinct held_fine (omega arith)
      (omega arith) held_found held_marked held_reports

abbrev stopped_id : Text
stopped_id = codes "paper-sl-1-trigger"

abbrev stopped_venue : Paper.Paper
stopped_venue = record held_venue {
  marks = (btc, literal 94 0) ∷ [];
  free_quote = literal 9938060 3;
  positions = [];
  protective = [];
  fills =
      (
        stopped_id,
        record fill {
          client_id = stopped_id;
          order_id = some (codes "paper-sl-1");
          avg_price = some (literal 94 0);
          fee_quote = literal 940 3;
          protective_orders = [];
        },
      )
      ∷ [];
}

-- At 94 the stop loss at 95 closes the position.
stop_fires : set_mark_price two_platform held_venue btc (literal 94 0) ≡ some stopped_venue
unfolding set_mark_price trigger_protective trigger_keys trigger_key fire fire_first first_hit
    protective_hit keys_of sort_keys insert_key close_at_price close_position settle proceeds_at
    profit_at find remove key_eq lookup insert cmp cmp_ℤ add sub neg_decimal mul align_decimals
    rescale common_scale ◌+ℤ◌ ◌-ℤ◌ neg ◌*ℤ◌ trim_space trim_left
stop_fires = refl

only_key :
    (key : Key) (o : ProtectiveOrder)
    → hit_order (literal 94 0) held_venue key ≡ some o
    → key ≡ spot_key
unfolding find
only_key key o h = ground (arith, key_eq_iff spot_key key)

held-IsFresh : IsFresh btc (literal 94 0) held_venue
unfolding lookup
held-IsFresh = record {
  unused = λ key o at_symbol h. refl;
  apart = λ k j o p a b h g e. only_key k o h ∙ sym (only_key j p g);
}

set_mark_price-closes_example : find spot_key stopped_venue.positions ≡ (
    if text_eq spot_key.symbol btc && is_some (hit_order (literal 94 0) held_venue spot_key)
    then none
    else find spot_key held_venue.positions)
set_mark_price-closes_example =
    set_mark_price-closes two_platform held_venue stopped_venue btc (literal 94 0) stop_fires
      held-IsFresh spot_key
