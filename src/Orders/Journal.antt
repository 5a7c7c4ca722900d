-- ===== src/Orders/Journal.antt =====
-- internal/orders/journal.go: the append-only journal of order events and the view built from it.
-- `reflect.DeepEqual` and the event store are not code of the program: the former is a test on
-- events, the latter the interface `EventStore` over whatever the store keeps.
pub mod Invariant
pub mod Recovery
pub mod Durable
use cyp_agent.Base.{
  ℕ, Bool, true, false, ◌&&◌, ◌||◌, not, Option, none, some, List, [], ◌∷◌, ◌++◌, if◌then◌else◌,
  Text, trim_space, text_lt, Dict, lookup, insert, is_some,
}
use cyp_agent.Models.{OrderStatus, new, protective_placed, OrderIntent, ExecutionResult}
use cyp_agent.Orders.{OrderError, status_eq, is_terminal, validate_transition}

pub record Event : Type 0 where
  pub event_id : Text
  pub client_id : Text
  pub ts : ℕ
  pub status : OrderStatus
  pub intent : Option OrderIntent
  pub result : Option ExecutionResult
  pub note : Text

pub record Order : Type 0 where
  pub client_id : Text
  pub status : OrderStatus
  pub intent : OrderIntent
  pub result : Option ExecutionResult
  pub events : List Event

-- `orders` and `applied`; whether the store is nil is an argument of the methods.
pub record Journal : Type 0 where
  pub orders : Dict Order
  pub applied : Dict Event

pub data JournalError : Type 0 where
  context_required event_id_required client_id_required event_id_reused : JournalError
  order_does_not_exist intent_required order_already_exists persist_failed : JournalError
  bad_transition : OrderError → JournalError

unfoldable pub new_journal : Journal
new_journal = record { orders = []; applied = [] }

-- `strings.TrimSpace(s) == ""`.
unfoldable pub is_blank : Text → Bool
is_blank s = elim (trim_space s) [ [] ↦ true | _ ∷ _ ↦ false ]

abbrev pub lift_transition : Option OrderError → Option JournalError
lift_transition none = none
lift_transition (some e) = some (bad_transition e)

-- `validateLocked`, on the order that the client id finds.
unfoldable pub validate_event : Option Order → Event → Option JournalError
validate_event none event =
    if not (status_eq event.status new)
    then some order_does_not_exist
    else elim event.intent [ none ↦ some intent_required | some _ ↦ none ]
validate_event (some current) event =
    if status_eq event.status new
    then some order_already_exists
    else lift_transition (validate_transition current.status event.status)

unfoldable pub validate_locked : Journal → Event → Option JournalError
unfolding validate_event
validate_locked journal event = validate_event (lookup event.client_id journal.orders) event

abbrev pub keep_result : Option ExecutionResult → Option ExecutionResult → Option ExecutionResult
keep_result none old = old
keep_result (some result) old = some result

-- The order after the event. Without an order and an intent the source would dereference nil;
-- `validate_locked` has excluded that.
unfoldable pub next_order : Option Order → Event → Option Order
next_order (some current) event = some (record current {
  status = event.status;
  result = keep_result event.result current.result;
  events = current.events ++ (event ∷ []);
})
next_order none event = elim event.intent [
  | none ↦ none
  | some intent ↦ some (record {
    client_id = event.client_id;
    status = new;
    intent = intent;
    result = none;
    events = event ∷ [];
  })
]

abbrev pub store_order : Text → Option Order → Dict Order → Dict Order
store_order id none orders = orders
store_order id (some order) orders = insert id order orders

unfoldable pub apply_locked : Journal → Event → Journal
apply_locked journal event = record {
  orders =
      store_order event.client_id (next_order (lookup event.client_id journal.orders) event)
        journal.orders;
  applied = insert event.event_id event journal.applied;
}

-- `EventStore`: what the store holds, its answer to an append, and what it loads.
pub record EventStore : Type 1 where
  pub Disk : Type 0
  pub append : Disk → Event → Bool × Disk
  pub load : Disk → List Event

abbrev pub without_ts : Event → Event
without_ts event = record event { ts = 0 }

-- The events that `OpenContext` and `TransitionContext` build; `now` is the clock.
unfoldable pub open_event : Text → ℕ → OrderIntent → Event
open_event event_id now intent = record {
  event_id = event_id;
  client_id = intent.client_id;
  ts = now;
  status = new;
  intent = some intent;
  result = none;
  note = [];
}

unfoldable pub transition_event :
    Text → Text → ℕ → OrderStatus → Option ExecutionResult → Text → Event
transition_event event_id client_id now status result note = record {
  event_id = event_id;
  client_id = client_id;
  ts = now;
  status = status;
  intent = none;
  result = result;
  note = note;
}

module _ (deep_equal : Event → Event → Bool) where
  unfoldable pub equivalent_event : Event → Event → Bool
  equivalent_event left right = deep_equal (without_ts left) (without_ts right)

  -- `ApplyContext` up to the write: `some none` for an event that was applied before.
  unfoldable pub check_event : Bool → Journal → Event → Option (Option JournalError)
  check_event has_context journal event =
      if not has_context
      then some (some context_required)
      else if is_blank event.event_id
      then some (some event_id_required)
      else if is_blank event.client_id
      then some (some client_id_required)
      else elim (lookup event.event_id journal.applied) [
        | some existing ↦
            if equivalent_event existing event then some none else some (some event_id_reused)
        | none ↦ elim (validate_locked journal event) [ some e ↦ some (some e) | none ↦ none ]
      ]

  -- `ApplyContext` with a nil store, which is `Apply` of a journal that `NewJournal` made.
  unfoldable pub apply : Bool → Journal → Event → Option JournalError × Journal
  apply has_context journal event = elim (check_event has_context journal event) [
    | some answer ↦ (answer, journal)
    | none ↦ (none, apply_locked journal event)
  ]

  -- The loop of `Replay`; the number of the failing event is left out of the error.
  unfoldable pub replay_from : Journal → List Event → Option JournalError × Journal
  replay_from journal [] = (none, journal)
  replay_from journal (event ∷ rest) =
      let (e, journal') = apply true journal event in
      let more = replay_from journal' rest in
      elim e [ some error ↦ (some error, journal') | none ↦ more ]

  unfoldable pub replay : List Event → Option JournalError × Journal
  replay events = replay_from new_journal events

  module _ (store : EventStore) where
    open store use {Disk, append, load}

    -- `ApplyContext` with a store: the write comes before the change of the view.
    unfoldable pub apply_durable :
        Bool → Journal → Disk → Event → Option JournalError × Journal × Disk
    apply_durable has_context journal disk event = elim (check_event has_context journal event) [
      | some answer ↦ (answer, journal, disk)
      | none ↦
          let (written, disk') = append disk event in
          if written
          then (none, apply_locked journal event, disk')
          else (some persist_failed, journal, disk')
    ]

    unfoldable pub open_context :
        Bool → Text → ℕ → OrderIntent → Journal → Disk → Option JournalError × Journal × Disk
    open_context has_context event_id now intent journal disk =
        if is_blank intent.client_id
        then (some client_id_required, journal, disk)
        else apply_durable has_context journal disk (open_event event_id now intent)

    unfoldable pub transition_context :
        Bool
        → Text
        → Text
        → ℕ
        → OrderStatus
        → Option ExecutionResult
        → Text
        → Journal
        → Disk
        → Option JournalError × Journal × Disk
    transition_context has_context event_id client_id now status result note journal disk =
        apply_durable has_context journal disk
          (transition_event event_id client_id now status result note)

    -- `NewDurableJournal` of a store that loads.
    unfoldable pub open_durable : Disk → Option JournalError × Journal
    open_durable disk = replay (load disk)

-- `Get`.
unfoldable pub get : Journal → Text → Option Order
get journal client_id = lookup client_id journal.orders

-- The selection of `Unresolved`.
unfoldable pub is_unresolved : Order → Bool
is_unresolved order = not (is_terminal order.status || status_eq order.status protective_placed)

unfoldable pub select_unresolved : Dict Order → List Order
unfolding is_unresolved
select_unresolved [] = []
select_unresolved ((id, order) ∷ rest) =
    let more = select_unresolved rest in if is_unresolved order then order ∷ more else more

-- `sort.Slice` by client id; the ids differ, so the sorted list is the only one.
unfoldable pub insert_by_id : Order → List Order → List Order
insert_by_id order [] = order ∷ []
insert_by_id order (first ∷ rest) =
    let later = insert_by_id order rest in
    if text_lt first.client_id order.client_id then first ∷ later else order ∷ first ∷ rest

unfoldable pub sort_by_id : List Order → List Order
unfolding insert_by_id
sort_by_id [] = []
sort_by_id (order ∷ rest) = insert_by_id order (sort_by_id rest)

unfoldable pub unresolved : Journal → List Order
unfolding select_unresolved sort_by_id
unresolved journal = sort_by_id (select_unresolved journal.orders)
