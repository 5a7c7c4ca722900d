-- ===== src/Paper/Calls.antt =====
-- The calls of the simulated venue that change it, one after the other.
pub mod Fills
pub mod Once
use cyp_agent.Base.{Bool, Option, none, some, List, [], ◌∷◌, Text}
use cyp_agent.Decimal.{Decimal, DecimalError}
use cyp_agent.Models.{OrderIntent}
use cyp_agent.Risk.{Platform}
use cyp_agent.Paper.{Paper}
use cyp_agent.Paper.Place.{place}
use cyp_agent.Paper.Trigger.{set_mark_price}
use cyp_agent.Paper.Account.{cancel_protective_orders}

-- `Place`, `SetMarkPrice` and `CancelProtectiveOrders`; the flag says that the context is canceled.
pub data Call : Type 0 where
  place_call : Bool → OrderIntent → Call
  mark_call : Text → Decimal → Call
  cancel_call : Bool → Text → Call

abbrev pub or_same : Paper → Option Paper → Paper
or_same v none = v
or_same v (some w) = w

unfoldable pub step : Platform → (DecimalError → Text) → Paper → Call → Paper
step platform describe v (place_call done intent) = (place platform describe v done intent).0
step platform describe v (mark_call symbol price) =
    or_same v (set_mark_price platform v symbol price)
step platform describe v (cancel_call done symbol) = cancel_protective_orders v done symbol

unfoldable pub run : Platform → (DecimalError → Text) → List Call → Paper → Paper
run platform describe [] v = v
run platform describe (call ∷ calls) v = run platform describe calls (step platform describe v call)
