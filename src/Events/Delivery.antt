-- ===== src/Events/Delivery.antt =====
-- What a subscriber receives: nothing is lost between the replay and live delivery, and the
-- headroom that was asked for is kept.
use cyp_agent.Base.{
  ℕ, ◌+◌, ◌%◌, ◌^◌, ◌≤◌, ◌≡◌, refl, ap, ◌∙◌, Bool, true, false, Option, none, some, List, [], ◌∷◌,
  ◌++◌, length, length-append, arith, ltb, append-nil,
}
use cyp_agent.Events.{
  BusEvent, Subscriber, Bus, stamp, deliver, deliver_all, publish, subscribe_replay, replay_locked,
}

-- The subscription that was made last.
abbrev pub newest : {D : Type 0} → Bus D → Option (Subscriber D)
newest bus = elim bus.subscribers [ [] ↦ none | s ∷ _ ↦ some s ]

module _ {D : Type 0} where
  -- The clock and the event of each call of `Publish`, one after another.
  unfoldable pub publish_each : (ℕ → Bool) → List (ℕ × BusEvent D) → Bus D → Bus D
  publish_each ready [] bus = bus
  publish_each ready ((now, event) ∷ rest) bus =
      publish_each ready rest (publish ready now event bus).1

  abbrev pub stamp_each : List (ℕ × BusEvent D) → List (BusEvent D)
  stamp_each [] = []
  stamp_each ((now, event) ∷ rest) = stamp now event ∷ stamp_each rest

  append_assoc : (a b c : List (BusEvent D)) → (a ++ b) ++ c ≡ a ++ (b ++ c)
  append_assoc [] b c = refl
  append_assoc (x ∷ a) b c = ap (λ t. x ∷ t) (append_assoc a b c)

  publish_each-newest :
      (ready : ℕ → Bool) (events : List (ℕ × BusEvent D)) (bus : Bus D) (s : Subscriber D)
      (others : List (Subscriber D))
      → bus.closed ≡ false
      → bus.subscribers ≡ s ∷ others
      → s.live ≡ true
      → length s.queue + length events ≤ s.capacity
      → newest (publish_each ready events bus)
        ≡ some (record s { queue = s.queue ++ stamp_each events })
  unfolding publish_each publish deliver_all deliver
  publish_each-newest ready [] bus s others o e l h = rw (e, append-nil s.queue) refl
  publish_each-newest ready ((now, event) ∷ rest) bus s others o e l h =
      let st = stamp now event in
      let bus' = (publish ready now event bus).1 in
      let s' : Subscriber D = record s { queue = s.queue ++ (st ∷ []) } in
      let room : ltb (length s.queue) s.capacity ≡ true = ground arith in
      let got : deliver ready st s ≡ s' = rw (l, room, deliver) refl in
      let subs : bus'.subscribers ≡ s' ∷ deliver_all ready st others =
        rw (o, publish, e) (ap (λ t. t ∷ deliver_all ready st others) got) in
      let still : bus'.closed ≡ false = rw (o, publish) refl in
      let fits : length s'.queue + length rest ≤ s.capacity =
        omega (arith, length-append s.queue (st ∷ []), h) in
      publish_each-newest ready rest bus' s' (deliver_all ready st others) still subs l fits
      ∙ ap (λ q. some (record s { queue = q })) (append_assoc s.queue (st ∷ []) (stamp_each rest))

  -- On a bus that is not closed, a subscriber that asked for room for `buffer` events has in its
  -- channel, after the events replayed to it, each of the next events that are published, up to
  -- `buffer` of them, in order and without a drop, if it takes none meanwhile.
  pub subscribe_replay-delivers :
      (ready : ℕ → Bool) (buffer limit after : ℕ) (bus : Bus D) (events : List (ℕ × BusEvent D))
      → bus.closed ≡ false
      → length events ≤ buffer
      → newest (publish_each ready events (subscribe_replay buffer limit after bus).1)
        ≡ some (record {
          id = (bus.next_id + 1) % 2 ^ 64;
          capacity = buffer + length (replay_locked limit after bus);
          queue = replay_locked limit after bus ++ stamp_each events;
          dropped = 0;
          live = true;
        })
  unfolding subscribe_replay
  subscribe_replay-delivers ready buffer limit after bus events o h =
      publish_each-newest ready events (subscribe_replay buffer limit after bus).1
        (record {
          id = (bus.next_id + 1) % 2 ^ 64;
          capacity = buffer + length (replay_locked limit after bus);
          queue = replay_locked limit after bus;
          dropped = 0;
          live = true;
        })
        bus.subscribers (rw (o, subscribe_replay) refl) (rw (o, subscribe_replay) refl) refl
        (omega (arith, h))
