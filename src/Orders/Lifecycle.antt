-- ===== src/Orders/Lifecycle.antt =====
-- What the table of machine.go guarantees of an order's life.
use cyp_agent.Base.{ℕ, ◌<◌, ◌≡◌, ◌≢◌, ◌⊎◌, refl, Bool, true, false, none, arith}
use cyp_agent.Models.{
  OrderStatus, new, preflight, submitting, acknowledged, partially_filled, filled,
  protective_placed, closed, canceled, order_rejected, failed, unknown, protective_failed,
  flattening, other_status,
}
use cyp_agent.Orders.{is_terminal, validate_transition}

-- How far an order has come; `unknown` stands outside.
abbrev pub rank : OrderStatus → ℕ
rank new = 0
rank preflight = 1
rank submitting = 2
rank acknowledged = 3
rank partially_filled = 4
rank filled = 5
rank protective_failed = 6
rank protective_placed = 7
rank flattening = 8
rank unknown = 9
rank closed = 10
rank canceled = 10
rank order_rejected = 10
rank failed = 10
rank (other_status _) = 11

-- A legal change from a status other than `unknown` moves an order forward in the ranking above,
-- or repeats a partial fill.
pub transition_forward :
    (from to : OrderStatus)
    → validate_transition from to ≡ none
    → from ≢ unknown
    → (rank from < rank to) ⊎ ((from ≡ partially_filled) × (to ≡ partially_filled))
unfolding validate_transition
transition_forward new to h u = ground arith
transition_forward _ to h u = ground arith

-- A sequence of legal changes.
pub data LegalPath : OrderStatus → OrderStatus → Type 0 where
  here : {s : OrderStatus} → LegalPath s s
  next : {s t u : OrderStatus} → LegalPath s t → validate_transition t u ≡ none → LegalPath s u

-- The same, never through `unknown`.
pub data KnownPath : OrderStatus → OrderStatus → Type 0 where
  here : {s : OrderStatus} → KnownPath s s
  next :
      {s t u : OrderStatus}
      → KnownPath s t
      → validate_transition t u ≡ none
      → u ≢ unknown
      → KnownPath s u

abbrev holds_position : OrderStatus → Bool
holds_position filled = true
holds_position protective_placed = true
holds_position protective_failed = true
holds_position flattening = true
holds_position closed = true
holds_position failed = true
holds_position _ = false

holds_position_step :
    (s t : OrderStatus)
    → holds_position s ≡ true
    → validate_transition s t ≡ none
    → t ≢ unknown
    → holds_position t ≡ true
unfolding validate_transition
holds_position_step new t h v u = ground arith
holds_position_step _ t h v u = ground arith

filled-KnownPath :
    {s t : OrderStatus} → KnownPath s t → holds_position s ≡ true → holds_position t ≡ true
filled-KnownPath here h = h
filled-KnownPath (next {t = t} {u = u} p v n) h = holds_position_step t u (filled-KnownPath p h) v n

-- Along legal changes that never enter `unknown` a filled order becomes neither canceled nor
-- rejected.
filled_not_canceled : {t : OrderStatus} → KnownPath filled t → (t ≢ canceled) × (t ≢ order_rejected)
filled_not_canceled p = let h = filled-KnownPath p refl in (λ e. ground arith, λ e. ground arith)

one_step : (s t : OrderStatus) → validate_transition s t ≡ none → LegalPath s t
one_step s t v = next here v

-- From every status that is a constant of the program some terminal status can be reached by legal
-- changes.
pub terminal_reachable :
    (s : OrderStatus)
    → ((name : _) → s ≢ other_status name)
    → (t : OrderStatus) × (is_terminal t ≡ true) × LegalPath s t
unfolding validate_transition
terminal_reachable new h = (canceled, refl, one_step new canceled refl)
terminal_reachable preflight h = (canceled, refl, one_step preflight canceled refl)
terminal_reachable submitting h = (canceled, refl, one_step submitting canceled refl)
terminal_reachable acknowledged h = (canceled, refl, one_step acknowledged canceled refl)
terminal_reachable partially_filled h = (canceled, refl, one_step partially_filled canceled refl)
terminal_reachable filled h = (closed, refl, one_step filled closed refl)
terminal_reachable protective_placed h = (closed, refl, one_step protective_placed closed refl)
terminal_reachable protective_failed h = (closed, refl, one_step protective_failed closed refl)
terminal_reachable flattening h = (closed, refl, one_step flattening closed refl)
terminal_reachable unknown h = (closed, refl, one_step unknown closed refl)
terminal_reachable closed h = (closed, refl, here)
terminal_reachable canceled h = (canceled, refl, here)
terminal_reachable order_rejected h = (order_rejected, refl, here)
terminal_reachable failed h = (failed, refl, here)
terminal_reachable (other_status name) h = absurd (h name refl)
