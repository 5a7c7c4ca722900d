-- ===== src/Paper/Trigger.antt =====
-- internal/venue/paper.go: `SetMarkPrice`, and the protective orders that a price triggers.
use cyp_agent.Base.{
  ◌||◌, not, Option, none, some, List, [], ◌∷◌, ◌++◌, if◌then◌else◌, Text, text_eq, text_lt, codes,
  lookup, insert, is_some,
}
use cyp_agent.Decimal.{Decimal, is_positive}
use cyp_agent.Models.{ProtectiveOrder, Position}
use cyp_agent.Risk.{Platform}
use cyp_agent.Paper.Keys.{Key, KeyMap, find, instrument_text}
use cyp_agent.Paper.{Paper, record_fill, close_at_price}
use cyp_agent.Paper.Protect.{protective_hit}
use cyp_agent.Paper.Place.{is_blank, orders_at}

-- The first order that the price hits; the loop ends at it.
unfoldable pub first_hit : Position → Decimal → List ProtectiveOrder → Option ProtectiveOrder
first_hit position mark [] = none
first_hit position mark (order ∷ orders) =
    let rest = first_hit position mark orders in
    if protective_hit position.side order mark then some order else rest

abbrev pub trigger_id : ProtectiveOrder → Text
trigger_id order = order.order_id ++ codes "-trigger"

-- The close by an order that is hit, unless its fill is recorded already.
unfoldable pub fire : Platform → Paper → Decimal → Key → ProtectiveOrder → Paper
fire platform v mark key order =
    if is_some (lookup (trigger_id order) v.fills)
    then v
    else let (w, result) = close_at_price platform v key mark (trigger_id order) order.order_id in
      record_fill (trigger_id order) result w

unfoldable pub fire_first : Platform → Paper → Decimal → Key → Option ProtectiveOrder → Paper
fire_first platform v mark key none = v
fire_first platform v mark key (some order) = fire platform v mark key order

abbrev pub trigger_found : Platform → Decimal → Key → Paper → Option Position → Paper
trigger_found platform mark key v none = v
trigger_found platform mark key v (some position) =
    fire_first platform v mark key (first_hit position mark (orders_at (find key v.protective)))

-- One pass of the loop over the keys.
unfoldable pub trigger_key : Platform → Decimal → Key → Paper → Paper
trigger_key platform mark key v = trigger_found platform mark key v (find key v.positions)

unfoldable pub trigger_keys : Platform → Decimal → List Key → Paper → Paper
trigger_keys platform mark [] v = v
trigger_keys platform mark (key ∷ keys) v =
    trigger_keys platform mark keys (trigger_key platform mark key v)

unfoldable pub keys_of : Text → KeyMap Position → List Key
keys_of symbol [] = []
keys_of symbol ((key, position) ∷ positions) =
    let rest = keys_of symbol positions in if text_eq key.symbol symbol then key ∷ rest else rest

-- `sort.Slice` by the instrument: the keys of one symbol have different instruments.
unfoldable pub insert_key : Key → List Key → List Key
insert_key key [] = key ∷ []
insert_key key (other ∷ keys) =
    if text_lt (instrument_text other.instrument) (instrument_text key.instrument)
    then other ∷ insert_key key keys
    else key ∷ (other ∷ keys)

unfoldable pub sort_keys : List Key → List Key
sort_keys [] = []
sort_keys (key ∷ keys) = insert_key key (sort_keys keys)

-- `triggerProtectiveLocked`.
unfoldable pub trigger_protective : Platform → Text → Decimal → Paper → Paper
trigger_protective platform symbol mark v =
    trigger_keys platform mark (sort_keys (keys_of symbol v.positions)) v

-- `SetMarkPrice`; `none` is its error.
unfoldable pub set_mark_price : Platform → Paper → Text → Decimal → Option Paper
set_mark_price platform v symbol price =
    if is_blank symbol || not (is_positive price)
    then none
    else some (
        trigger_protective platform symbol price (record v { marks = insert symbol price v.marks }))
