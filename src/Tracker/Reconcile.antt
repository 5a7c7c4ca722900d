-- ===== src/Tracker/Reconcile.antt =====
-- internal/riskstate/tracker.go: `OpenTrade`, and `ReconcilePositions`, which repairs the markers of
-- open positions. A Go map is walked in any order: `walk_states` and `walk_active` are the orders of
-- the two loops. `strings.ToUpper` is not code of the program: `upper` is its effect on one code
-- point. A number is printed by `strconv`, in base 36 or 10.
use cyp_agent.Base.{
  ℕ, zero, suc, ◌+◌, ◌-◌, ◌/◌, ◌%◌, Bool, true, false, ◌&&◌, ◌||◌, not, Option, none, some, List,
  [], ◌∷◌, ◌++◌, map, ltb, if◌then◌else◌, Text, text_eq, codes, trim_space, Dict, lookup, insert,
  dec_lt,
}
use cyp_agent.Decimal.{zero_decimal, equal}
use cyp_agent.Models.{Instrument, Position}
use cyp_agent.Paper.Keys.{same_instrument, instrument_text}
use cyp_agent.Paper.Place.{same_side}
use cyp_agent.Tracker.{TradeRecord, PersistedState, Repository, trim_locked}
use cyp_agent.Tracker.Record.{Answer, done, commit, answer_saved}

unfoldable pub opens_position : Text → Bool
opens_position kind = text_eq kind (codes "open") || text_eq kind (codes "reconcile_open")

unfoldable pub closes_position : Text → Bool
closes_position kind = text_eq kind (codes "close") || text_eq kind (codes "reconcile_close")

abbrev is_of : Text → Instrument → TradeRecord → Bool
is_of symbol instrument trade =
    text_eq trade.symbol symbol && same_instrument trade.instrument instrument

abbrev later_or :
    Option (Option TradeRecord) → Option (Option TradeRecord) → Option (Option TradeRecord)
later_or (some answer) earlier = some answer
later_or none earlier = earlier

-- What a trade says of an open position: nothing, that it is closed, or that it is this one.
abbrev marker_of : Text → Instrument → TradeRecord → Option (Option TradeRecord)
marker_of symbol instrument trade =
    if not (is_of symbol instrument trade)
    then none
    else if closes_position trade.kind
    then some none
    else if opens_position trade.kind
    then some (some trade)
    else none

-- The loop of `OpenTrade`, which starts at the last trade.
unfoldable pub last_marker : Text → Instrument → List TradeRecord → Option (Option TradeRecord)
last_marker symbol instrument [] = none
last_marker symbol instrument (trade ∷ rest) =
    later_or (last_marker symbol instrument rest) (marker_of symbol instrument trade)

abbrev opened_trade : Option (Option TradeRecord) → Option TradeRecord
opened_trade none = none
opened_trade (some answer) = answer

unfoldable pub open_trade : Text → Instrument → PersistedState → Option TradeRecord
open_trade symbol instrument state = opened_trade (last_marker symbol instrument state.trades)

unfoldable pub position_key : (ℕ → ℕ) → Text → Instrument → Text
position_key upper symbol instrument =
    map upper (trim_space symbol) ++ (0 ∷ instrument_text instrument)

unfoldable pub position_matches_trade : Position → TradeRecord → Bool
position_matches_trade position trade =
    same_side position.side trade.side
    && equal position.size_base trade.size_base
    && equal position.entry_price trade.price

abbrev digit_of : ℕ → ℕ
digit_of d = if ltb d 10 then b'0' + d else b'a' + (d - 10)

-- The digits of a number in a base of two or more, on fuel.
unfoldable pub format_loop : ℕ → ℕ → ℕ → Text → Text
format_loop zero base n later = later
format_loop (suc fuel) base n later = elim (dec_lt n base) [
  | yes _ ↦ digit_of n ∷ later
  | no _ ↦ format_loop fuel base (n / base) (digit_of (n % base) ∷ later)
]

unfoldable pub format_int : ℕ → ℕ → Text
format_int n base = format_loop (suc n) base n []

unfoldable pub reconcile_client_id : Text → ℕ → ℕ → Text
reconcile_client_id kind now sequence =
    codes "reconcile-" ++ (kind ++ (b'-' ∷ format_int now 36 ++ (b'-' ∷ format_int sequence 10)))

pub record OpenState : Type 0 where
  pub trade : TradeRecord
  pub is_open : Bool

unfoldable pub open_states : (ℕ → ℕ) → Dict OpenState → List TradeRecord → Dict OpenState
open_states upper states [] = states
open_states upper states (trade ∷ rest) =
    let key = position_key upper trade.symbol trade.instrument in
    let next =
      if opens_position trade.kind
      then insert key (record { trade = trade; is_open = true }) states
      else if closes_position trade.kind
      then insert key (record { trade = trade; is_open = false }) states
      else states in
    open_states upper next rest

unfoldable pub active_positions : (ℕ → ℕ) → Dict Position → List Position → Dict Position
active_positions upper active [] = active
active_positions upper active (position ∷ rest) =
    active_positions upper
      (insert (position_key upper position.symbol position.instrument) position active) rest

unfoldable pub reconcile_close : ℕ → ℕ → TradeRecord → TradeRecord
reconcile_close now sequence trade = record trade {
  client_id = reconcile_client_id (codes "close") now sequence;
  kind = codes "reconcile_close";
  fee_quote = zero_decimal;
  pnl_quote = zero_decimal;
  ts = now;
}

unfoldable pub reconcile_open : ℕ → ℕ → Position → TradeRecord
reconcile_open now sequence position = record {
  client_id = reconcile_client_id (codes "open") now sequence;
  run_id = codes "reconciled";
  kind = codes "reconcile_open";
  symbol = position.symbol;
  side = position.side;
  instrument = position.instrument;
  price = position.entry_price;
  size_base = position.size_base;
  fee_quote = zero_decimal;
  pnl_quote = zero_decimal;
  ts = now;
}

abbrev pub still_open : OpenState → Option Position → Bool
still_open state none = false
still_open state (some position) = position_matches_trade position state.trade

abbrev pub known_open : Position → Option OpenState → Bool
known_open position none = false
known_open position (some state) = state.is_open && position_matches_trade position state.trade

-- The first loop: the markers that no position of the venue matches, closed.
unfoldable pub close_missing : Dict Position → ℕ → ℕ → Dict OpenState → List TradeRecord × ℕ
close_missing active now sequence [] = ([], sequence)
close_missing active now sequence ((key, state) ∷ rest) =
    let skip = not state.is_open || still_open state (lookup key active) in
    let (more, last) = close_missing active now (if skip then sequence else sequence + 1) rest in
    (if skip then more else reconcile_close now (sequence + 1) state.trade ∷ more, last)

-- The second loop: the positions of the venue that no marker matches, opened.
unfoldable pub open_missing : Dict OpenState → ℕ → ℕ → Dict Position → List TradeRecord
open_missing states now sequence [] = []
open_missing states now sequence ((key, position) ∷ rest) =
    let skip = known_open position (lookup key states) in
    let more = open_missing states now (if skip then sequence else sequence + 1) rest in
    if skip then more else reconcile_open now (sequence + 1) position ∷ more

-- The records that both loops append.
unfoldable pub repairs :
    (ℕ → ℕ)
    → (Dict OpenState → Dict OpenState)
    → (Dict Position → Dict Position)
    → List Position
    → ℕ
    → List TradeRecord
    → List TradeRecord
repairs upper walk_states walk_active positions now trades =
    let states = open_states upper [] trades in
    let active = active_positions upper [] positions in
    let (closes, sequence) = close_missing active now 0 (walk_states states) in
    closes ++ open_missing states now sequence (walk_active active)

abbrev pub repaired : List TradeRecord → PersistedState → PersistedState
repaired records state = trim_locked (record state { trades = state.trades ++ records })

module _ (store : Repository) where
  open store use {Disk}

  abbrev pub append_repairs :
      Bool → Text → PersistedState → Disk → List TradeRecord → Answer × PersistedState × Disk
  append_repairs has_repository step state disk [] = (done, state, disk)
  append_repairs has_repository step state disk (first ∷ rest) =
      answer_saved store
        (commit store has_repository step disk state (repaired (first ∷ rest) state))

  unfoldable pub reconcile_positions :
      Bool
      → Text
      → (ℕ → ℕ)
      → (Dict OpenState → Dict OpenState)
      → (Dict Position → Dict Position)
      → List Position
      → ℕ
      → PersistedState
      → Disk
      → Answer × PersistedState × Disk
  reconcile_positions has_repository step upper walk_states walk_active positions now state disk =
      append_repairs has_repository step state disk
        (repairs upper walk_states walk_active positions now state.trades)
