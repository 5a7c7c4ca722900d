-- ===== src/Events.antt =====
-- internal/events/bus.go: the in-process bus with its bounded history.
-- The payload of an event is a type `D`; copies of values need no counterpart. A time is a number
-- of nanoseconds, 0 for the zero time. A subscription is its channel, kept by its id: `queue` holds
-- what was sent and not yet taken, a value handed to a waiting receiver included.
pub mod Log
pub mod Delivery
mod Tests
use cyp_agent.Base.{
  ℕ, suc, ◌+◌, ◌-◌, ◌%◌, ◌^◌, Bool, true, false, ◌&&◌, ◌||◌, not, Option, none, some, List, [], ◌∷◌,
  ◌++◌, ltb, leb, ◌==◌, if◌then◌else◌, length, drop, Text, text_eq,
}

pub record BusEvent (D : Type 0) : Type 0 where
  pub kind : Text
  pub run_id : Text
  pub ts : ℕ
  pub data_map : D

pub record Subscriber (D : Type 0) : Type 0 where
  pub id : ℕ
  pub capacity : ℕ
  pub queue : List (BusEvent D)
  pub dropped : ℕ
  pub live : Bool

-- `subscribers` keeps the cancelled ones too, no longer live, since their holders still read them.
pub record Bus (D : Type 0) : Type 0 where
  pub subscribers : List (Subscriber D)
  pub next_id : ℕ
  pub history : List (BusEvent D)
  pub history_limit : ℕ
  pub closed : Bool

-- The last `n` of a list: `list[len(list)-n:]` where it is longer.
abbrev pub last_n {ℓ} : {A : Type ℓ} → ℕ → List A → List A
last_n n l = drop (length l - n) l

module _ {D : Type 0} where
  -- `NewBus`; a limit below 0 is 0.
  unfoldable pub new_bus : ℕ → Bus D
  new_bus limit = record {
    subscribers = [];
    next_id = 0;
    history = [];
    history_limit = limit;
    closed = false;
  }

  -- The loop of `replayLocked`.
  unfoldable pub events_after : ℕ → List (BusEvent D) → List (BusEvent D)
  events_after after [] = []
  events_after after (event ∷ rest) =
      let more = events_after after rest in
      if not (after == 0) && not (ltb after event.ts) then more else event ∷ more

  unfoldable pub replay_locked : ℕ → ℕ → Bus D → List (BusEvent D)
  replay_locked limit after bus =
      if limit == 0 then [] else last_n limit (events_after after bus.history)

  -- `SubscribeReplay`: the id of the subscription, none on a closed bus.
  unfoldable pub subscribe_replay : ℕ → ℕ → ℕ → Bus D → Option ℕ × Bus D
  subscribe_replay buffer limit after bus =
      let replay = replay_locked limit after bus in
      let id = (bus.next_id + 1) % 2 ^ 64 in
      if bus.closed then (none, bus) else (
        some id,
        record bus {
          next_id = id;
          subscribers =
              record {
                id = id;
                capacity = buffer + length replay;
                queue = replay;
                dropped = 0;
                live = true;
              }
              ∷ bus.subscribers;
        },
      )

  abbrev pub subscribe : ℕ → Bus D → Option ℕ × Bus D
  subscribe buffer bus = subscribe_replay buffer 0 0 bus

  unfoldable pub append_history : ℕ → BusEvent D → List (BusEvent D) → List (BusEvent D)
  append_history limit event history =
      if limit == 0
      then history
      else if length history == limit
      then drop 1 history ++ (event ∷ [])
      else history ++ (event ∷ [])

  -- `event.TS` where it is set, else the clock.
  unfoldable pub stamp : ℕ → BusEvent D → BusEvent D
  stamp now event = if event.ts == 0 then record event { ts = now } else event

  -- The `select` of `Publish` for one subscriber; `ready` says whose empty channel has a receiver
  -- waiting.
  abbrev pub accepts : (ℕ → Bool) → Subscriber D → Bool
  accepts ready s = ltb (length s.queue) s.capacity || (ready s.id && length s.queue == 0)

  unfoldable pub deliver : (ℕ → Bool) → BusEvent D → Subscriber D → Subscriber D
  deliver ready event s =
      if not s.live
      then s
      else if accepts ready s
      then record s { queue = s.queue ++ (event ∷ []) }
      else record s { dropped = (s.dropped + 1) % 2 ^ 64 }

  unfoldable pub deliver_all : (ℕ → Bool) → BusEvent D → List (Subscriber D) → List (Subscriber D)
  unfolding deliver
  deliver_all ready event [] = []
  deliver_all ready event (s ∷ rest) = deliver ready event s ∷ deliver_all ready event rest

  unfoldable pub publish : (ℕ → Bool) → ℕ → BusEvent D → Bus D → Bool × Bus D
  publish ready now event bus =
      let stamped = stamp now event in
      if bus.closed then (false, bus) else (
        true,
        record bus {
          history = append_history bus.history_limit stamped bus.history;
          subscribers = deliver_all ready stamped bus.subscribers;
        },
      )

  -- `Emit`.
  abbrev pub emit : (ℕ → Bool) → ℕ → Text → Text → D → Bus D → BusEvent D × Bus D
  emit ready now kind run_id payload bus =
      let event : BusEvent D = record {
        kind = kind;
        run_id = run_id;
        ts = now;
        data_map = payload;
      } in
      (event, (publish ready now event bus).1)

  -- The loop of `History`, and `History`.
  unfoldable pub events_of : Text → List (BusEvent D) → List (BusEvent D)
  events_of run_id [] = []
  events_of run_id (event ∷ rest) =
      let more = events_of run_id rest in
      if text_eq run_id [] || text_eq event.run_id run_id then event ∷ more else more

  unfoldable pub history_of : Text → ℕ → Bus D → List (BusEvent D)
  history_of run_id limit bus =
      let matched = events_of run_id bus.history in
      if ltb 0 limit then last_n limit matched else matched

  unfoldable pub count_open : List (Subscriber D) → ℕ
  count_open [] = 0
  count_open (s ∷ rest) = let more = count_open rest in if s.live then suc more else more

  -- `unsubscribe`, which `Cancel` calls at most once.
  unfoldable pub cancel_one : ℕ → List (Subscriber D) → List (Subscriber D)
  cancel_one id [] = []
  cancel_one id (s ∷ rest) =
      let more = cancel_one id rest in
      if s.id == id && s.live then record s { live = false } ∷ rest else s ∷ more

  unfoldable pub unsubscribe : ℕ → Bus D → Bus D
  unsubscribe id bus = record bus { subscribers = cancel_one id bus.subscribers }

  unfoldable pub close_all : List (Subscriber D) → List (Subscriber D)
  close_all [] = []
  close_all (s ∷ rest) = record s { live = false } ∷ close_all rest

  unfoldable pub close : Bus D → Bus D
  close bus =
      if bus.closed
      then bus
      else record bus { closed = true; subscribers = close_all bus.subscribers }

  -- A receiver takes the first value of its channel.
  unfoldable pub take_one : ℕ → List (Subscriber D) → List (Subscriber D)
  take_one id [] = []
  take_one id (s ∷ rest) =
      let more = take_one id rest in
      if s.id == id then record s { queue = drop 1 s.queue } ∷ rest else s ∷ more
