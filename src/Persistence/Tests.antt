-- ===== src/Persistence/Tests.antt =====
-- Compaction of an ended order and an open one.
use cyp_agent.Base.{
  Bool, some, false, ◌&&◌, text_eq, trim_space, trim_left, dec_lt, arith, ℕ, ◌≡◌, ◌⊎◌, refl, true,
  none, List, [], ◌∷◌, Text, codes, lookup, insert,
}
use cyp_agent.Models.{
  OrderStatus, new, canceled, acknowledged, OrderIntent, long, spot, market, isolated,
}
use cyp_agent.Orders.{is_terminal}
use cyp_agent.Orders.Journal.{Event, new_journal, is_blank, open_durable, replay, replay_from}
use cyp_agent.Orders.Journal.Durable.{run_durable}
use cyp_agent.Decimal.Json.{whole-IsPrintable, list_json}
use cyp_agent.Decimal.Text.{digits_text, digits_loop}
use cyp_agent.Risk.{literal}
use cyp_agent.Samples.{zero_float}
use cyp_agent.Persistence.File.{Writes, file_events, load_file_events, check_stored}
use cyp_agent.Persistence.Plain.{IsPlain}
use cyp_agent.Persistence.Restart.{run_durable-restarts}
use cyp_agent.Persistence.{
  compact_order_events, group_events, candidates, sort_groups, insert_group, to_remove, contains,
  keep_events,
}
use cyp_agent.Persistence.Compaction.{history_of, has_ended, compact_order_events-histories}

abbrev event_of : Text → Text → ℕ → OrderStatus → Event
event_of id client_id ts status = record {
  event_id = id;
  client_id = client_id;
  ts = ts;
  status = status;
  intent = none;
  result = none;
  note = [];
}

abbrev stored : List Event
stored =
    event_of (codes "e1") (codes "a") 1 new
    ∷ event_of (codes "e2") (codes "b") 2 new
    ∷ event_of (codes "e3") (codes "a") 3 canceled
    ∷ event_of (codes "e4") (codes "b") 4 acknowledged
    ∷ []

kept_two :
    compact_order_events 3 stored
    ≡ event_of (codes "e2") (codes "b") 2 new
      ∷ event_of (codes "e4") (codes "b") 4 acknowledged
      ∷ []
unfolding compact_order_events group_events candidates sort_groups insert_group to_remove contains
    keep_events lookup insert is_terminal
kept_two = refl

compact_order_events-histories_example :
    let kept = history_of (codes "a") (compact_order_events 3 stored) in
    (kept ≡ history_of (codes "a") stored)
    ⊎ ((kept ≡ []) × (has_ended (history_of (codes "a") stored) ≡ true))
compact_order_events-histories_example = compact_order_events-histories (codes "a") 3 stored

abbrev intent : OrderIntent
intent = record {
  client_id = codes "a";
  symbol = codes "BTC/USDT";
  venue = codes "paper";
  side = long;
  instrument = spot;
  order_type = market;
  size_quote = literal 100 0;
  price = none;
  leverage = zero_float;
  margin_mode = isolated;
  reduce_only = false;
  stop_loss = some (literal 95 0);
  take_profit = [];
  chain = none;
  approval_amount = none;
}

abbrev opening : Event
opening = record (event_of (codes "e1") (codes "a") 1 new) { intent = some intent }

abbrev ending : Event
ending = event_of (codes "e2") (codes "a") 2 canceled

opening-IsPlain : IsPlain opening
unfolding is_blank trim_space trim_left digits_text digits_loop dec_lt
opening-IsPlain = record {
  named = refl;
  dated = refl;
  event_id = refl;
  client_id = refl;
  note = refl;
  short = omega arith;
  intent = record {
    leverage = refl;
    size = whole-IsPrintable (literal 100 0) refl refl refl;
    price = tt;
    stop_loss = whole-IsPrintable (literal 95 0) refl refl refl;
    take_profit = tt;
    amount = tt;
  };
  result = tt;
}

ending-IsPlain : IsPlain ending
unfolding is_blank trim_space trim_left
ending-IsPlain = record {
  named = refl;
  dated = refl;
  event_id = refl;
  client_id = refl;
  note = refl;
  short = omega arith;
  intent = tt;
  result = tt;
}

abbrev same_ids : Event → Event → Bool
same_ids a b = text_eq a.event_id b.event_id && text_eq a.client_id b.client_id

-- The second write fails, and the third, of the same event, works.
abbrev calls : List (Bool × Event)
calls = (true, opening) ∷ (true, ending) ∷ (true, ending) ∷ (false, ending) ∷ []

abbrev empty_file : Writes × List Event
empty_file = (true ∷ false ∷ [], [])

run_durable-restarts_example :
    let (journal', disk') =
      run_durable same_ids (file_events same_ids) calls new_journal empty_file in
    (load_file_events same_ids disk'.1 ≡ some disk'.1)
    × (open_durable same_ids (file_events same_ids) disk' ≡ (none, journal'))
unfolding open_durable replay replay_from load_file_events check_stored list_json
run_durable-restarts_example =
    run_durable-restarts same_ids calls new_journal empty_file
      (opening-IsPlain, (ending-IsPlain, (ending-IsPlain, (ending-IsPlain, tt)))) (omega arith) refl
      refl
