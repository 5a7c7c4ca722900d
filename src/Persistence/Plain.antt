-- ===== src/Persistence/Plain.antt =====
-- The order events that the store of internal/persistence keeps as they are.
use cyp_agent.Base.{
  ℕ, ◌-◌, ◌≤◌, ◌<◌, ◌≡◌, refl, sym, ap, Bool, true, false, ◌||◌, Option, none, some, List, [], ◌∷◌,
  ◌++◌, ◌==◌, arith, All, Text, text_eq, trim_space, rune_len, byte_len, length, length-append,
}
use cyp_agent.Decimal.Json.{
  decimal_json, Held, IsPrintable, decimal_json_same, list_json_same, pointer_json_same,
}
use cyp_agent.Models.{OrderIntent, ProtectiveOrder, ExecutionResult}
use cyp_agent.Orders.Journal.{Event, is_blank}
use cyp_agent.Orders.Journal.Durable.{IsFaithful}
use cyp_agent.Persistence.{compact_order_events}
use cyp_agent.Persistence.Events.{
  is_finite, intent_json, protective_json, result_json, event_json, is_blank_status, cut_note,
  trimmed_event, normalize_order_event, find_event, append_order_event, max_order_events,
}
use cyp_agent.Persistence.File.{Writes, mutate, file_events}

pub record IsPlainIntent (intent : OrderIntent) : Type 0 where
  pub leverage : is_finite intent.leverage ≡ true
  pub size : IsPrintable intent.size_quote
  pub price : Held IsPrintable intent.price
  pub stop_loss : Held IsPrintable intent.stop_loss
  pub take_profit : All IsPrintable intent.take_profit
  pub amount : Held IsPrintable intent.approval_amount

abbrev pub IsPlainOrder : ProtectiveOrder → Type 0
IsPlainOrder order = IsPrintable order.trigger_price × IsPrintable order.size_base

pub record IsPlainResult (result : ExecutionResult) : Type 0 where
  pub filled_base : IsPrintable result.filled_base
  pub avg_price : Held IsPrintable result.avg_price
  pub fee : IsPrintable result.fee_quote
  pub slippage : Held IsPrintable result.slippage_bps
  pub protective_orders : All IsPlainOrder result.protective_orders
  pub gas : Held IsPrintable result.gas_used

-- An event with a time and a status, whose ids and note have no spaces around them, whose note is
-- short, and whose numbers can be printed and read again.
pub record IsPlain (event : Event) : Type 0 where
  pub named : (is_blank event.event_id || is_blank event.client_id) ≡ false
  pub dated : (is_blank_status event.status || event.ts == 0) ≡ false
  pub event_id : trim_space event.event_id ≡ event.event_id
  pub client_id : trim_space event.client_id ≡ event.client_id
  pub note : trim_space event.note ≡ event.note
  pub short : byte_len event.note ≤ 1000
  pub intent : Held IsPlainIntent event.intent
  pub result : Held IsPlainResult event.result

intent_json_same : (intent : OrderIntent) → IsPlainIntent intent → intent_json intent ≡ some intent
unfolding intent_json
intent_json_same intent v =
    rw
      (
        v.leverage,
        decimal_json_same intent.size_quote v.size,
        pointer_json_same decimal_json IsPrintable decimal_json_same intent.price v.price,
        pointer_json_same decimal_json IsPrintable decimal_json_same intent.stop_loss v.stop_loss,
        list_json_same decimal_json IsPrintable decimal_json_same intent.take_profit v.take_profit,
        pointer_json_same decimal_json IsPrintable decimal_json_same intent.approval_amount
            v.amount,
      )
      refl

protective_json_same :
    (order : ProtectiveOrder) → IsPlainOrder order → protective_json order ≡ some order
unfolding protective_json
protective_json_same order (p, s) =
    rw (decimal_json_same order.trigger_price p, decimal_json_same order.size_base s) refl

result_json_same :
    (result : ExecutionResult) → IsPlainResult result → result_json result ≡ some result
unfolding result_json
result_json_same result v =
    rw
      (
        decimal_json_same result.filled_base v.filled_base,
        pointer_json_same decimal_json IsPrintable decimal_json_same result.avg_price v.avg_price,
        decimal_json_same result.fee_quote v.fee,
        pointer_json_same decimal_json IsPrintable decimal_json_same result.slippage_bps v.slippage,
        list_json_same protective_json IsPlainOrder protective_json_same result.protective_orders
            v.protective_orders,
        pointer_json_same decimal_json IsPrintable decimal_json_same result.gas_used v.gas,
      )
      refl

cut_note_short : (room : ℕ) (note : Text) → byte_len note ≤ room → cut_note room note ≡ note
unfolding cut_note
cut_note_short room [] h = refl
cut_note_short room (c ∷ note) h =
    let rest = cut_note_short (room - rune_len c) note (omega (arith, h)) in ground (arith, rest)

pub event_json_plain : (event : Event) → IsPlain event → event_json event ≡ some event
unfolding event_json
event_json_plain event v =
    rw
      (
        pointer_json_same intent_json IsPlainIntent intent_json_same event.intent v.intent,
        pointer_json_same result_json IsPlainResult result_json_same event.result v.result,
      )
      refl

pub normalize_order_event_plain :
    (event : Event) → IsPlain event → normalize_order_event event ≡ some event
unfolding normalize_order_event trimmed_event
normalize_order_event_plain event v =
    rw
      (
        v.named,
        v.dated,
        event_json_plain event v,
        v.event_id,
        v.client_id,
        v.note,
        cut_note_short 1000 event.note v.short,
      )
      refl

-- No event with an id is found among others.
find_event-none :
    (id : Text) (events : List Event)
    → All (λ old. text_eq old.event_id id ≡ false) events
    → find_event id events ≡ none
unfolding find_event
find_event-none id [] h = refl
find_event-none id (old ∷ events) h = rw (h.0, find_event-none id events h.1) refl

compact_order_events_small :
    (events : List Event)
    → length events ≤ max_order_events
    → compact_order_events max_order_events events ≡ events
unfolding compact_order_events
compact_order_events_small events h = ground arith

append_order_event_plain :
    (deep_equal : Event → Event → Bool) (events : List Event) (event : Event)
    → IsPlain event
    → All (λ old. text_eq old.event_id event.event_id ≡ false) events
    → length events < max_order_events
    → append_order_event deep_equal events event ≡ some (events ++ (event ∷ []))
unfolding append_order_event
append_order_event_plain deep_equal events event v fresh small =
    rw
      (
        normalize_order_event_plain event v,
        find_event-none event.event_id events fresh,
        compact_order_events_small (events ++ (event ∷ []))
            (omega (arith, small, length-append events (event ∷ []))),
      )
      refl

mutate_written :
    {A : Type 0} (next : A) (disk : Writes × A)
    → (mutate (some next) disk).0 ≡ true
    → (mutate (some next) disk).1.1 ≡ next
unfolding mutate
mutate_written next ([], state) h = refl
mutate_written next (true ∷ writes, state) h = refl
mutate_written next (false ∷ writes, state) h = cc

-- A change that was made is what the operation gave.
pub mutate_saved :
    {A : Type 0} (next : Option A) (disk : Writes × A)
    → (mutate next disk).0 ≡ true
    → next ≡ some (mutate next disk).1.1
unfolding mutate
mutate_saved none (writes, state) h = cc
mutate_saved (some next) disk h = ap some (sym (mutate_written next disk h))

pub mutate_refused :
    {A : Type 0} (next : Option A) (disk : Writes × A)
    → (mutate next disk).0 ≡ false
    → (mutate next disk).1.1 ≡ disk.1
unfolding mutate
mutate_refused none (writes, state) h = refl
mutate_refused (some next) ([], state) h = cc
mutate_refused (some next) (true ∷ writes, state) h = cc
mutate_refused (some next) (false ∷ writes, state) h = refl

-- The file keeps plain events until it would compact them.
pub file_events-IsFaithful :
    (deep_equal : Event → Event → Bool)
    → IsFaithful (file_events deep_equal) IsPlain max_order_events
file_events-IsFaithful deep_equal = record {
  appended = λ disk event plain fresh small ok.
      let kept = append_order_event_plain deep_equal disk.1 event plain fresh small in
      rw kept (mutate_written (disk.1 ++ (event ∷ [])) disk (rw kept at ok));
  refused =
      λ disk event failed. mutate_refused (append_order_event deep_equal disk.1 event) disk failed;
}
