-- ===== src/Persistence/Events.antt =====
-- internal/persistence/repository.go: an order event on its way into the store.
-- `encoding/json` writes the records of internal/orders and internal/contracts field by field and
-- reads them back; it refuses a float that is infinite or no number. The mask of
-- `sanitizeCheckpoint` changes nothing, since no key of these records holds one of its hints.
use cyp_agent.Base.{
  ℕ, ◌-◌, ◌/◌, ◌%◌, ◌^◌, Bool, false, ◌||◌, not, Option, none, some, List, [], ◌∷◌, ◌++◌, ltb, ◌==◌,
  if◌then◌else◌, Text, text_eq, trim_space, rune_len,
}
use cyp_agent.Decimal.Json.{and_then, decimal_json, list_json, pointer_json}
use cyp_agent.Models.{
  Float, OrderStatus, other_status, OrderIntent, ProtectiveOrder, ExecutionResult,
}
use cyp_agent.Orders.Journal.{Event, is_blank, equivalent_event}
use cyp_agent.Persistence.{compact_order_events}

abbrev pub max_order_events : ℕ
max_order_events = 20000

-- Whether the exponent of a float is not the one of infinities and of what is no number.
abbrev pub is_finite : Float → Bool
is_finite x = not (x.bits / 2 ^ 52 % 2 ^ 11 == 2047)

unfoldable pub intent_json : OrderIntent → Option OrderIntent
intent_json intent =
    if not (is_finite intent.leverage)
    then none
    else and_then (decimal_json intent.size_quote) (λ size.
      and_then (pointer_json decimal_json intent.price) (λ price.
        and_then (pointer_json decimal_json intent.stop_loss) (λ stop.
          and_then (list_json decimal_json intent.take_profit) (λ takes.
            and_then (pointer_json decimal_json intent.approval_amount) (λ amount.
              some (record intent {
                size_quote = size;
                price = price;
                stop_loss = stop;
                take_profit = takes;
                approval_amount = amount;
              }))))))

unfoldable pub protective_json : ProtectiveOrder → Option ProtectiveOrder
protective_json order = and_then (decimal_json order.trigger_price) (λ price.
    and_then (decimal_json order.size_base)
      (λ size. some (record order { trigger_price = price; size_base = size })))

unfoldable pub result_json : ExecutionResult → Option ExecutionResult
result_json result = and_then (decimal_json result.filled_base) (λ base.
    and_then (pointer_json decimal_json result.avg_price) (λ price.
      and_then (decimal_json result.fee_quote) (λ fee.
        and_then (pointer_json decimal_json result.slippage_bps) (λ slippage.
          and_then (list_json protective_json result.protective_orders) (λ orders.
            and_then (pointer_json decimal_json result.gas_used) (λ gas. some (record result {
              filled_base = base;
              avg_price = price;
              fee_quote = fee;
              slippage_bps = slippage;
              protective_orders = orders;
              gas_used = gas;
            })))))))

unfoldable pub event_json : Event → Option Event
event_json event = and_then (pointer_json intent_json event.intent) (λ intent.
    and_then (pointer_json result_json event.result)
      (λ result. some (record event { intent = intent; result = result })))

abbrev pub is_blank_status : OrderStatus → Bool
is_blank_status (other_status s) = is_blank s
is_blank_status _ = false

-- The longest beginning of a note with no more than so many bytes. Where the cut falls inside a
-- character, Go also keeps the first bytes of that character, which are no text by themselves.
unfoldable pub cut_note : ℕ → Text → Text
cut_note room [] = []
cut_note room (c ∷ s) =
    let rest = cut_note (room - rune_len c) s in if ltb room (rune_len c) then [] else c ∷ rest

unfoldable pub trimmed_event : Event → Event
trimmed_event event = record event {
  event_id = trim_space event.event_id;
  client_id = trim_space event.client_id;
  note = cut_note 1000 (trim_space event.note);
}

-- `normalizeOrderEvent`; `none` is an error, and the zero time is 0.
unfoldable pub normalize_order_event : Event → Option Event
normalize_order_event event =
    if (is_blank event.event_id || is_blank event.client_id)
      || (is_blank_status event.status || event.ts == 0)
    then none
    else and_then (event_json event) (λ read. some (trimmed_event read))

-- The first event with an id, where the loop of `appendOrderEvent` ends.
unfoldable pub find_event : Text → List Event → Option Event
find_event id [] = none
find_event id (event ∷ rest) =
    let later = find_event id rest in if text_eq event.event_id id then some event else later

module _ (deep_equal : Event → Event → Bool) where
  abbrev pub append_normalized : List Event → Event → Option Event → Option (List Event)
  append_normalized events event none =
      some (compact_order_events max_order_events (events ++ (event ∷ [])))
  append_normalized events event (some existing) =
      if equivalent_event deep_equal existing event then some events else none

  -- `appendOrderEvent`: the events afterwards, `none` for an error.
  unfoldable pub append_order_event : List Event → Event → Option (List Event)
  append_order_event events event =
      and_then (normalize_order_event event)
        (λ normalized. append_normalized events normalized (find_event normalized.event_id events))
