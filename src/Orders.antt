-- ===== src/Orders.antt =====
-- internal/orders/machine.go: the legal changes of an order's status.
pub mod Lifecycle
pub mod Journal
mod Tests
use cyp_agent.Base.{
  ℕ, Bool, true, false, ◌||◌, not, Option, none, some, List, [], ◌∷◌, ◌==◌, if◌then◌else◌, text_eq,
}
use cyp_agent.Models.{
  OrderStatus, new, preflight, submitting, acknowledged, partially_filled, filled,
  protective_placed, closed, canceled, order_rejected, failed, unknown, protective_failed,
  flattening, other_status,
}

pub data OrderError : Type 0 where
  status_terminal illegal_transition : OrderError

-- `transitions`; a status that is no key of the map has none.
unfoldable pub transitions : OrderStatus → List OrderStatus
transitions new = preflight ∷ submitting ∷ canceled ∷ order_rejected ∷ []
transitions preflight = submitting ∷ order_rejected ∷ canceled ∷ []
transitions submitting =
    acknowledged ∷ partially_filled ∷ filled ∷ canceled ∷ order_rejected ∷ failed ∷ unknown ∷ []
transitions acknowledged = partially_filled ∷ filled ∷ canceled ∷ failed ∷ unknown ∷ []
transitions partially_filled =
    partially_filled ∷ filled ∷ canceled ∷ unknown ∷ protective_placed ∷ protective_failed
    ∷ flattening ∷ []
transitions filled = protective_placed ∷ protective_failed ∷ flattening ∷ closed ∷ []
transitions protective_placed = flattening ∷ closed ∷ []
transitions protective_failed = protective_placed ∷ flattening ∷ closed ∷ []
transitions flattening = closed ∷ failed ∷ unknown ∷ []
transitions unknown =
    acknowledged ∷ partially_filled ∷ filled ∷ canceled ∷ order_rejected ∷ failed ∷ closed ∷ []
transitions _ = []

abbrev status_tag : OrderStatus → ℕ
status_tag new = 0
status_tag preflight = 1
status_tag submitting = 2
status_tag acknowledged = 3
status_tag partially_filled = 4
status_tag filled = 5
status_tag protective_placed = 6
status_tag closed = 7
status_tag canceled = 8
status_tag order_rejected = 9
status_tag failed = 10
status_tag unknown = 11
status_tag protective_failed = 12
status_tag flattening = 13
status_tag (other_status _) = 14

-- `==` on the strings.
abbrev pub status_eq : OrderStatus → OrderStatus → Bool
status_eq (other_status s) (other_status t) = text_eq s t
status_eq a b = status_tag a == status_tag b

-- The loop of `CanTransition`.
unfoldable pub contains_status : OrderStatus → List OrderStatus → Bool
contains_status to [] = false
contains_status to (allowed ∷ rest) = status_eq allowed to || contains_status to rest

unfoldable pub can_transition : OrderStatus → OrderStatus → Bool
unfolding transitions contains_status
can_transition from to = contains_status to (transitions from)

unfoldable pub is_terminal : OrderStatus → Bool
is_terminal closed = true
is_terminal canceled = true
is_terminal order_rejected = true
is_terminal failed = true
is_terminal _ = false

unfoldable pub validate_transition : OrderStatus → OrderStatus → Option OrderError
unfolding is_terminal can_transition
validate_transition from to =
    if is_terminal from
    then some status_terminal
    else if not (can_transition from to)
    then some illegal_transition
    else none
