-- ===== src/Orders/Tests.antt =====
-- The status machine and the journal on sample orders.
use cyp_agent.Base.{
  ◌<◌, ◌≡◌, ◌⊎◌, refl, Bool, true, false, none, some, [], ◌∷◌, arith, text_eq, ◌&&◌, codes,
  trim_space, lookup,
}
use cyp_agent.Int.{pos}
use cyp_agent.Models.{
  OrderStatus, new, submitting, acknowledged, partially_filled, filled, closed, canceled,
  protective_failed, OrderIntent, long, spot, market, isolated,
}
use cyp_agent.Orders.{is_terminal, validate_transition}
use cyp_agent.Orders.Lifecycle.{
  rank, transition_forward, LegalPath, KnownPath, here, next, terminal_reachable,
}
use cyp_agent.Orders.Journal.{
  Event, Order, Journal, new_journal, is_blank, validate_event, validate_locked, check_event, apply,
  replay,
}
use cyp_agent.Orders.Journal.Invariant.{IsSound, replay-IsSound}
use cyp_agent.Orders.Journal.Recovery.{apply_idempotent}

transition_forward_example :
    (rank submitting < rank filled)
    ⊎ ((submitting ≡ partially_filled) × (filled ≡ partially_filled))
unfolding validate_transition
transition_forward_example = transition_forward submitting filled refl (λ e. ground arith)

-- A filled order whose protection fails and that is closed.
protected_path : KnownPath filled closed
unfolding validate_transition
protected_path =
    next {t = protective_failed} (next here refl (λ e. ground arith)) refl (λ e. ground arith)

terminal_reachable_example : (t : OrderStatus) × (is_terminal t ≡ true) × LegalPath acknowledged t
terminal_reachable_example = terminal_reachable acknowledged (λ name e. ground arith)

abbrev small_intent : OrderIntent
small_intent = record {
  client_id = codes "c1";
  symbol = codes "BTC/USDT";
  venue = codes "binance";
  side = long;
  instrument = spot;
  order_type = market;
  size_quote = record { coefficient = pos 100; scale = pos 0; negative_zero = false };
  price = none;
  leverage = record { bits = 0 };
  margin_mode = isolated;
  reduce_only = false;
  stop_loss = none;
  take_profit = [];
  chain = none;
  approval_amount = none;
}

-- A test on the ids stands for the comparison of whole events.
abbrev same_ids : Event → Event → Bool
same_ids a b = text_eq a.event_id b.event_id && text_eq a.client_id b.client_id

abbrev opening : Event
opening = record {
  event_id = codes "e1";
  client_id = codes "c1";
  ts = 7;
  status = new;
  intent = some small_intent;
  result = none;
  note = [];
}

abbrev canceling : Event
canceling = record opening { event_id = codes "e2"; status = canceled; intent = none }

abbrev nameless : Event
nameless = record opening { event_id = [] }

abbrev canceled_order : Order
canceled_order = record {
  client_id = codes "c1";
  status = canceled;
  intent = small_intent;
  result = none;
  events = opening ∷ canceling ∷ [];
}

abbrev canceled_journal : Journal
canceled_journal = record {
  orders = (codes "c1", canceled_order) ∷ [];
  applied = (codes "e2", canceling) ∷ (codes "e1", opening) ∷ [];
}

opening_accepted : check_event same_ids true new_journal opening ≡ none
unfolding check_event validate_locked validate_event lookup new_journal is_blank trim_space
opening_accepted = refl

apply_idempotent_example :
    let journal' = (apply same_ids true new_journal opening).1 in
    apply same_ids true journal' opening ≡ (none, journal')
apply_idempotent_example = apply_idempotent same_ids new_journal opening refl opening_accepted

replay-IsSound_example : IsSound (replay same_ids (opening ∷ canceling ∷ opening ∷ [])).1
replay-IsSound_example = replay-IsSound same_ids (opening ∷ canceling ∷ opening ∷ [])
