-- ===== src/Orders/Journal/Recovery.antt =====
-- Retries and errors: what `ApplyContext` does to the journal.
use cyp_agent.Base.{
  ◌≡◌, ◌≢◌, refl, ◌∙◌, inl, inr, Bool, true, false, Option, none, some, List, [], ◌∷◌, ◌++◌, arith,
  Text, text_eq, text_eq→eq, Dict, lookup, lookup-insert, lookup-insert_self, Bool-cases,
  Option-cases,
}
use cyp_agent.Orders.{validate_transition, is_terminal}
use cyp_agent.Orders.Journal.{
  Event, Order, Journal, JournalError, validate_event, validate_locked, next_order, store_order,
  apply_locked, check_event, apply, replay_from, equivalent_event, without_ts,
}
use cyp_agent.Orders.Journal.Invariant.{check_event-validates}

-- An order in a terminal status lets no event of its own through.
terminal_event_rejected :
    (order : Order) (event : Event)
    → is_terminal order.status ≡ true
    → validate_event (some order) event ≢ none
unfolding validate_event validate_transition
terminal_event_rejected order event t h = ground arith

lookup-store_order_ne :
    (id j : Text) (next : Option Order) (orders : Dict Order)
    → text_eq id j ≡ false
    → lookup j (store_order id next orders) ≡ lookup j orders
lookup-store_order_ne id j none orders n = refl
lookup-store_order_ne id j (some o) orders n = rw (lookup-insert, n)

apply_locked-lookup_ne :
    (journal : Journal) (event : Event) (id : Text)
    → text_eq event.client_id id ≡ false
    → lookup id (apply_locked journal event).orders ≡ lookup id journal.orders
unfolding apply_locked
apply_locked-lookup_ne journal event id n =
    lookup-store_order_ne event.client_id id
      (next_order (lookup event.client_id journal.orders) event) journal.orders n

-- A valid event is about another order than a terminal one.
valid_event-not_terminal :
    (journal : Journal) (event : Event) (id : Text) (order : Order)
    → lookup id journal.orders ≡ some order
    → is_terminal order.status ≡ true
    → validate_locked journal event ≡ none
    → text_eq event.client_id id ≡ false
unfolding validate_locked
valid_event-not_terminal journal event id order h t v =
    elim (Bool-cases (text_eq event.client_id id)) [
      | inr n ↦ n
      | inl e ↦
          absurd
            (terminal_event_rejected order event t (rw (text_eq→eq event.client_id id e, h) at v))
    ]

module _ (deep_equal : Event → Event → Bool) where
  -- A call of `Apply` that returns an error leaves the journal as it was, whatever the context and
  -- the comparison of events.
  apply_error_unchanged :
      (has_context : Bool) (journal : Journal) (event : Event) {e : JournalError}
      → (apply deep_equal has_context journal event).0 ≡ some e
      → (apply deep_equal has_context journal event).1 ≡ journal
  unfolding apply
  apply_error_unchanged has_context journal event h = ground arith

  -- An order that the journal holds in a terminal status is the same after every call of `Apply`,
  -- whichever event, about this or another order, it is given.
  terminal_frozen :
      (has_context : Bool) (journal : Journal) (event : Event) (id : Text) (order : Order)
      → lookup id journal.orders ≡ some order
      → is_terminal order.status ≡ true
      → lookup id (apply deep_equal has_context journal event).1.orders ≡ some order
  unfolding apply
  terminal_frozen has_context journal event id order h t =
      elim (Option-cases (check_event deep_equal has_context journal event)) [
        | inl e ↦
            let v = (check_event-validates deep_equal has_context journal event e).2 in
            let other = valid_event-not_terminal journal event id order h t v in
            rw (e, apply) (apply_locked-lookup_ne journal event id other ∙ h)
        | inr (answer, e) ↦ rw (e, apply) h
      ]

  pub apply_accepted :
      (journal : Journal) (event : Event)
      → check_event deep_equal true journal event ≡ none
      → apply deep_equal true journal event ≡ (none, apply_locked journal event)
  unfolding apply
  apply_accepted journal event h = rw (h, apply)

  pub apply_known :
      (journal : Journal) (event : Event)
      → check_event deep_equal true journal event ≡ some none
      → apply deep_equal true journal event ≡ (none, journal)
  unfolding apply
  apply_known journal event h = rw (h, apply)

  apply_locked-applied :
      (journal : Journal) (event : Event)
      → lookup event.event_id (apply_locked journal event).applied ≡ some event
  unfolding apply_locked
  apply_locked-applied journal event = lookup-insert_self event.event_id event journal.applied

  known_event :
      (journal journal' : Journal) (event : Event)
      → deep_equal (without_ts event) (without_ts event) ≡ true
      → check_event deep_equal true journal event ≡ none
      → lookup event.event_id journal'.applied ≡ some event
      → check_event deep_equal true journal' event ≡ some none
  unfolding check_event equivalent_event
  known_event journal journal' event same h l = ground arith

  -- If the comparison of events finds an event without its time equal to itself, and the journal
  -- lets the event through, then applying the event a second time succeeds and changes nothing.
  pub apply_idempotent :
      (journal : Journal) (event : Event)
      → deep_equal (without_ts event) (without_ts event) ≡ true
      → check_event deep_equal true journal event ≡ none
      → let journal' = (apply deep_equal true journal event).1 in
        apply deep_equal true journal' event ≡ (none, journal')
  apply_idempotent journal event same h =
      let again = apply_known (apply_locked journal event) event (
        known_event journal (apply_locked journal event) event same h
          (apply_locked-applied journal event)) in
      rw (apply_accepted journal event h) again

  -- Replaying one more event after a log that replays.
  pub replay_from-append :
      (journal journal' : Journal) (events : List Event) (event : Event)
      → replay_from deep_equal journal events ≡ (none, journal')
      → check_event deep_equal true journal' event ≡ none
      → replay_from deep_equal journal (events ++ (event ∷ []))
        ≡ (none, apply_locked journal' event)
  unfolding replay_from
  replay_from-append journal journal' [] event h c = ground (arith, apply_accepted journal' event)
  replay_from-append journal journal' (e ∷ rest) event h c =
      ground (arith, replay_from-append (apply deep_equal true journal e).1 journal' rest event)
