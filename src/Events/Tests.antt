-- ===== src/Events/Tests.antt =====
-- The bus on three events, with numbers as their payload.
use cyp_agent.Base.{ℕ, ◌≡◌, refl, Bool, true, false, some, List, [], ◌∷◌, codes, arith}
use cyp_agent.Events.{
  BusEvent, Bus, last_n, new_bus, close, publish, unsubscribe, stamp, subscribe_replay,
  replay_locked, events_after, append_history,
}
use cyp_agent.Events.Log.{
  Use, publishing, subscribing, cancelling, receiving, run, run-history, run-close,
}
use cyp_agent.Events.Delivery.{newest, publish_each, subscribe_replay-delivers}

abbrev nobody : ℕ → Bool
nobody id = false

abbrev event_of : ℕ → BusEvent ℕ
event_of n = record { kind = codes "order"; run_id = codes "r1"; ts = n; data_map = n }

abbrev two_events : Bus ℕ
two_events = record (new_bus 2) { history = event_of 1 ∷ event_of 2 ∷ [] }

abbrev uses : List (Use ℕ)
uses =
    publishing nobody 9 (event_of 1)
    ∷ subscribing 1 5 0
    ∷ publishing nobody 9 (event_of 0)
    ∷ receiving 1
    ∷ publishing nobody 9 (event_of 3)
    ∷ cancelling 1
    ∷ []

-- The event without a time takes the clock's.
last_two : (run uses (new_bus 2) []).0.history ≡ record (event_of 0) { ts = 9 } ∷ event_of 3 ∷ []
unfolding run publish subscribe_replay unsubscribe stamp append_history new_bus
last_two = refl

run-history_example : let (bus, log) = run uses (new_bus 2) [] in bus.history ≡ last_n 2 log
run-history_example = run-history 2 uses

run-close_example :
    let (bus', log') = run uses (close two_events) [] in
    (bus'.closed ≡ true) × (bus'.history ≡ two_events.history) × (log' ≡ [])
run-close_example = run-close uses two_events []

subscribe_replay-delivers_example :
    newest (
      publish_each nobody
        ((9, event_of 3) ∷ (9, event_of 0) ∷ [])
        (subscribe_replay 2 1 0 two_events).1)
    ≡ some (record {
      id = 1;
      capacity = 3;
      queue = event_of 2 ∷ event_of 3 ∷ record (event_of 0) { ts = 9 } ∷ [];
      dropped = 0;
      live = true;
    })
unfolding replay_locked events_after stamp new_bus
subscribe_replay-delivers_example =
    subscribe_replay-delivers nobody 2 1 0 two_events ((9, event_of 3) ∷ (9, event_of 0) ∷ []) refl
      (omega arith)
