-- ===== src/Orders/Journal/Invariant.antt =====
-- Every order of the journal carries a legal history that ends in its status.
use cyp_agent.Base.{
  ◌≡◌, ◌⊎◌, refl, inl, inr, Bool, true, Option, none, some, List, [], ◌∷◌, ◌++◌, arith,
  if◌then◌else◌, Text, text_eq→eq, Dict, lookup, lookup-insert, Option-cases,
}
use cyp_agent.Models.{OrderStatus, new}
use cyp_agent.Orders.{validate_transition, status_eq}
use cyp_agent.Orders.Journal.{
  Event, Order, Journal, new_journal, validate_event, validate_locked, next_order, store_order,
  apply_locked, check_event, apply, replay_from, replay,
}

-- The status after a run of legal changes.
unfoldable pub status_after : OrderStatus → List Event → Option OrderStatus
status_after s [] = some s
status_after s (event ∷ rest) =
    let more = status_after event.status rest in
    elim (validate_transition s event.status) [ none ↦ more | some _ ↦ none ]

-- The status after a whole history, which opens the order and changes it legally.
unfoldable pub history_status : List Event → Option OrderStatus
unfolding status_after
history_status [] = none
history_status (event ∷ rest) = if status_eq event.status new then status_after new rest else none

pub record IsSoundOrder (id : Text) (order : Order) : Type 0 where
  pub named : order.client_id ≡ id
  pub history : history_status order.events ≡ some order.status

abbrev pub IsSound : Journal → Type 0
IsSound journal =
    (id : Text) (order : Order) → lookup id journal.orders ≡ some order → IsSoundOrder id order

status_after-append :
    (s t : OrderStatus) (events : List Event) (event : Event)
    → status_after s events ≡ some t
    → validate_transition t event.status ≡ none
    → status_after s (events ++ (event ∷ [])) ≡ some event.status
unfolding status_after
status_after-append s t [] event h v = ground arith
status_after-append s t (e ∷ rest) event h v =
    ground (arith, status_after-append e.status t rest event)

history_status-append :
    (t : OrderStatus) (events : List Event) (event : Event)
    → history_status events ≡ some t
    → validate_transition t event.status ≡ none
    → history_status (events ++ (event ∷ [])) ≡ some event.status
unfolding history_status
history_status-append t [] event h v = cc
history_status-append t (e ∷ rest) event h v = ground (arith, status_after-append new t rest event)

opened-IsSoundOrder :
    (id : Text) (event : Event) {order : Order}
    → event.client_id ≡ id
    → validate_event none event ≡ none
    → next_order none event ≡ some order
    → IsSoundOrder id order
unfolding next_order validate_event history_status
opened-IsSoundOrder id event e v h = ground arith

extended-IsSoundOrder :
    (id : Text) (current : Order) (event : Event) {order : Order}
    → IsSoundOrder id current
    → validate_event (some current) event ≡ none
    → next_order (some current) event ≡ some order
    → IsSoundOrder id order
unfolding next_order validate_event
extended-IsSoundOrder id current event sound v h =
    ground (arith, history_status-append current.status current.events event)

-- An event that validates opens a sound history, or extends one.
next_order-IsSoundOrder :
    (id : Text) (current : Option Order) (event : Event) {order : Order}
    → event.client_id ≡ id
    → ((o : Order) → current ≡ some o → IsSoundOrder id o)
    → validate_event current event ≡ none
    → next_order current event ≡ some order
    → IsSoundOrder id order
next_order-IsSoundOrder id none event e sound v h = opened-IsSoundOrder id event e v h
next_order-IsSoundOrder id (some current) event e sound v h =
    extended-IsSoundOrder id current event (sound current refl) v h

lookup-store_order :
    (id j : Text) (next : Option Order) (orders : Dict Order) {order : Order}
    → lookup j (store_order id next orders) ≡ some order
    → ((id ≡ j) × (next ≡ some order)) ⊎ (lookup j orders ≡ some order)
lookup-store_order id j none orders h = inr h
lookup-store_order id j (some o) orders h =
    ground (arith, lookup-insert id j o orders, text_eq→eq id j)

-- Applying a valid event keeps the orders sound.
pub apply_locked-IsSound :
    (journal : Journal) (event : Event)
    → IsSound journal
    → validate_locked journal event ≡ none
    → IsSound (apply_locked journal event)
unfolding apply_locked
apply_locked-IsSound journal event sound v id order h =
    let current = lookup event.client_id journal.orders in
    elim (lookup-store_order event.client_id id (next_order current event) journal.orders h) [
      | inl (e, n) ↦
          next_order-IsSoundOrder id current event e (λ o c. sound id o (rw (← e) c))
            (unfold validate_locked in v) n
      | inr old ↦ sound id order old
    ]

pub new_journal-IsSound : IsSound new_journal
unfolding new_journal lookup
new_journal-IsSound id order h = cc

module _ (deep_equal : Event → Event → Bool) where
  -- What `check_event` lets through was validated.
  pub check_event-validates :
      (has_context : Bool) (journal : Journal) (event : Event)
      → check_event deep_equal has_context journal event ≡ none
      → (has_context ≡ true)
        × (lookup event.event_id journal.applied ≡ none)
        × (validate_locked journal event ≡ none)
  unfolding check_event
  check_event-validates has_context journal event h = ground arith

  pub apply-IsSound :
      (has_context : Bool) (journal : Journal) (event : Event)
      → IsSound journal
      → IsSound (apply deep_equal has_context journal event).1
  unfolding apply
  apply-IsSound has_context journal event sound =
      elim (Option-cases (check_event deep_equal has_context journal event)) [
        | inl e ↦
            rw (e, apply)
              (apply_locked-IsSound journal event sound
                (check_event-validates has_context journal event e).2)
        | inr (answer, e) ↦ rw (e, apply) sound
      ]

  replay_from-IsSound :
      (journal : Journal) (events : List Event)
      → IsSound journal
      → IsSound (replay_from deep_equal journal events).1
  unfolding replay_from
  replay_from-IsSound journal [] sound = sound
  replay_from-IsSound journal (event ∷ rest) sound =
      let (e, journal') = apply deep_equal true journal event in
      let sound' = apply-IsSound true journal event sound in
      elim (Option-cases e) [
        | inl none_e ↦ rw (none_e, replay_from) (replay_from-IsSound journal' rest sound')
        | inr (error, some_e) ↦ rw (some_e, replay_from) sound'
      ]

  -- Whatever events are replayed, in whatever order and with whatever repeats, every order of the
  -- journal has a history that opens it once, changes it only by legal transitions, and ends in
  -- its status.
  pub replay-IsSound : (events : List Event) → IsSound (replay deep_equal events).1
  unfolding replay
  replay-IsSound events = replay_from-IsSound new_journal events new_journal-IsSound
