-- ===== src/Orders/Journal/Durable.antt =====
-- internal/orders/journal.go: crashes. What a journal has in memory is what its store replays to.
use mathlib.Core.Path.{subst}
use cyp_agent.Base.{
  ℕ, ◌+◌, ◌≤◌, ◌<◌, ◌≡◌, refl, sym, ap, ◌∙◌, inl, inr, Bool, true, false, none, some, List, [], ◌∷◌,
  ◌++◌, arith, text_eq, text_eq→eq, lookup, lookup-insert, lookup-insert_self, none_apart, is_some,
  All, All-append, length, length-append, Option-cases,
}
use cyp_agent.Orders.Journal.{
  Event, Journal, EventStore, new_journal, apply_locked, check_event, apply, replay_from, replay,
  apply_durable, open_durable,
}
use cyp_agent.Orders.Journal.Invariant.{check_event-validates}
use cyp_agent.Orders.Journal.Recovery.{replay_from-append}

-- An event whose id the journal has applied.
abbrev pub IsKnown : Journal → Event → Type 0
IsKnown journal event = is_some (lookup event.event_id journal.applied) ≡ true

apply_locked-IsKnown :
    (journal : Journal) (event : Event)
    → IsKnown (apply_locked journal event) event
      × ((other : Event) → IsKnown journal other → IsKnown (apply_locked journal event) other)
unfolding apply_locked
apply_locked-IsKnown journal event = (
  rw lookup-insert_self refl,
  λ other h. ground (arith, lookup-insert event.event_id other.event_id event journal.applied),
)

all-IsKnown :
    (journal journal' : Journal) (events : List Event)
    → ((other : Event) → IsKnown journal other → IsKnown journal' other)
    → All (IsKnown journal) events
    → All (IsKnown journal') events
all-IsKnown journal journal' [] f h = tt
all-IsKnown journal journal' (e ∷ events) f h = (f e h.0, all-IsKnown journal journal' events f h.1)

-- An event with another id than every known one.
new_id :
    (journal : Journal) (event : Event) (events : List Event)
    → lookup event.event_id journal.applied ≡ none
    → All (IsKnown journal) events
    → All (λ old. text_eq old.event_id event.event_id ≡ false) events
new_id journal event [] n h = tt
new_id journal event (old ∷ events) n h = (
  ground (arith, text_eq→eq old.event_id event.event_id, n, h.0),
  new_id journal event events n h.1,
)

module _ (deep_equal : Event → Event → Bool) where
  -- An event that needs no write was applied before.
  IsKnown-answer :
      (journal : Journal) (event : Event)
      → check_event deep_equal true journal event ≡ some none
      → IsKnown journal event
  unfolding check_event
  IsKnown-answer journal event h = ground arith

  apply-IsKnown :
      (journal : Journal) (event : Event)
      → (apply deep_equal true journal event).0 ≡ none
      → IsKnown (apply deep_equal true journal event).1 event
        × ((other : Event)
            → IsKnown journal other
            → IsKnown (apply deep_equal true journal event).1 other)
  unfolding apply
  apply-IsKnown journal event h = elim (Option-cases (check_event deep_equal true journal event)) [
    | inl e ↦ rw (e, apply) (apply_locked-IsKnown journal event)
    | inr (answer, e) ↦
        let fine : answer ≡ none = rw (e, apply) at h in
        rw (e, apply) (IsKnown-answer journal event (e ∙ ap some fine), λ other k. k)
  ]

  -- A journal knows the events that it replayed.
  replay_from-IsKnown :
      (events : List Event) (journal journal' : Journal)
      → replay_from deep_equal journal events ≡ (none, journal')
      → All (IsKnown journal') events
        × ((other : Event) → IsKnown journal other → IsKnown journal' other)
  unfolding replay_from
  replay_from-IsKnown [] journal journal' h =
      (tt, λ other k. subst (λ j. IsKnown j other) (ap (λ r. r.1) h) k)
  replay_from-IsKnown (event ∷ rest) journal journal' h =
      elim (Option-cases (apply deep_equal true journal event).0) [
        | inr (error, e) ↦
            absurd (none_apart error (sym (ap (λ r. r.0) (rw (e, replay_from) at h))))
        | inl e ↦
            let one = apply-IsKnown journal event e in
            let more =
              replay_from-IsKnown rest (apply deep_equal true journal event).1 journal'
                (rw (e, replay_from) at h) in
            ((more.1 event one.0, more.0), λ other k. more.1 other (one.1 other k))
      ]

-- What recovery needs of a store, as long as it loads fewer events than `limit`: an event that fits
-- it and whose id is new is added at the end by a successful append, and a failed append adds
-- nothing.
pub record IsFaithful (store : EventStore) (Fits : Event → Type 0) (limit : ℕ) : Type 0 where
  pub appended :
      (disk : store.Disk) (event : Event)
      → Fits event
      → All (λ old. text_eq old.event_id event.event_id ≡ false) (store.load disk)
      → length (store.load disk) < limit
      → (store.append disk event).0 ≡ true
      → store.load (store.append disk event).1 ≡ store.load disk ++ (event ∷ [])
  pub refused :
      (disk : store.Disk) (event : Event)
      → (store.append disk event).0 ≡ false
      → store.load (store.append disk event).1 ≡ store.load disk

module _ (deep_equal : Event → Event → Bool) (store : EventStore) where
  open store use {Disk, append, load}

  -- A run of calls, with or without a context, on the journal and its store.
  unfoldable pub run_durable : List (Bool × Event) → Journal → Disk → Journal × Disk
  run_durable [] journal disk = (journal, disk)
  run_durable ((has_context, event) ∷ rest) journal disk =
      let (_, journal', disk') = apply_durable deep_equal store has_context journal disk event in
      run_durable rest journal' disk'

  -- The store replays to the journal, which knows every event that is loaded, and what is loaded
  -- satisfies `Keeps`.
  pub record IsRecovered (Keeps : List Event → Type 0) (journal : Journal) (disk : Disk)
      : Type 0 where
    pub replays : open_durable deep_equal store disk ≡ (none, journal)
    pub kept : Keeps (load disk)
    pub known : All (IsKnown journal) (load disk)

  pub start-IsRecovered :
      (Keeps : List Event → Type 0) (journal : Journal) (disk : Disk)
      → Keeps (load disk)
      → open_durable deep_equal store disk ≡ (none, journal)
      → IsRecovered Keeps journal disk
  unfolding open_durable replay
  start-IsRecovered Keeps journal disk kept h = record {
    replays = h;
    kept = kept;
    known = (replay_from-IsKnown deep_equal (load disk) new_journal journal h).0;
  }

  next_replays :
      (journal : Journal) (disk disk' : Disk) (event : Event)
      → open_durable deep_equal store disk ≡ (none, journal)
      → check_event deep_equal true journal event ≡ none
      → load disk' ≡ load disk ++ (event ∷ [])
      → open_durable deep_equal store disk' ≡ (none, apply_locked journal event)
  unfolding open_durable replay
  next_replays journal disk disk' event h c l =
      rw l (replay_from-append deep_equal new_journal journal (load disk) event h c)

  same_replays :
      (journal : Journal) (disk disk' : Disk)
      → open_durable deep_equal store disk ≡ (none, journal)
      → load disk' ≡ load disk
      → open_durable deep_equal store disk' ≡ (none, journal)
  unfolding open_durable
  same_replays journal disk disk' h l = rw l h

  -- `Keeps` is a property of what is loaded that a new event which fits the store does not break.
  module _ (Fits : Event → Type 0) (limit : ℕ) (law : IsFaithful store Fits limit)
      (Keeps : List Event → Type 0)
      (grows : (events : List Event) (event : Event)
        → Fits event
        → All (λ old. text_eq old.event_id event.event_id ≡ false) events
        → Keeps events
        → Keeps (events ++ (event ∷ []))) where
    apply_durable-IsRecovered :
        (has_context : Bool) (journal : Journal) (disk : Disk) (event : Event)
        → Fits event
        → length (load disk) < limit
        → IsRecovered Keeps journal disk
        → let (_, journal', disk') =
            apply_durable deep_equal store has_context journal disk event in
          IsRecovered Keeps journal' disk' × (length (load disk') ≤ length (load disk) + 1)
    unfolding apply_durable
    apply_durable-IsRecovered has_context journal disk event fits small v =
        elim (Option-cases (check_event deep_equal has_context journal event)) [
          | inr (answer, e) ↦ rw (e, apply_durable) (v, omega arith)
          | inl e ↦
              let (c, fresh, valid) =
                check_event-validates deep_equal has_context journal event e in
              by_write e c fresh (append disk event).0 refl
        ]
      where
        disk' : Disk
        disk' = (append disk event).1

        by_write :
            check_event deep_equal has_context journal event ≡ none
            → has_context ≡ true
            → lookup event.event_id journal.applied ≡ none
            → (ok : Bool) → (append disk event).0 ≡ ok
            → let (_, journal', disk'') =
                apply_durable deep_equal store has_context journal disk event in
              IsRecovered Keeps journal' disk'' × (length (load disk'') ≤ length (load disk) + 1)
        by_write e c fresh false w =
            let same = law.refused disk event w in
            rw (e, w, apply_durable)
              (
                record {
                  replays = same_replays journal disk disk' v.replays same;
                  kept = rw same v.kept;
                  known = rw same v.known;
                },
                omega (arith, ap length same),
              )
        by_write e c fresh true w =
            let others = new_id journal event (load disk) fresh v.known in
            let more = law.appended disk event fits others small w in
            let locked = apply_locked-IsKnown journal event in
            rw (e, w, apply_durable)
              (
                record {
                  replays = next_replays journal disk disk' event v.replays (rw c at e) more;
                  kept = rw more (grows (load disk) event fits others v.kept);
                  known = rw more (
                      All-append (IsKnown (apply_locked journal event)) (load disk) (event ∷ [])
                        (all-IsKnown journal (apply_locked journal event) (load disk) locked.1
                          v.known)
                        (locked.0, tt));
                },
                omega (arith, ap length more, length-append (load disk) (event ∷ [])),
              )

    pub run_durable-recovers :
        (calls : List (Bool × Event)) (journal : Journal) (disk : Disk)
        → All (λ call. Fits call.1) calls
        → length (load disk) + length calls ≤ limit
        → IsRecovered Keeps journal disk
        → let (journal', disk') = run_durable calls journal disk in IsRecovered Keeps journal' disk'
    unfolding run_durable
    run_durable-recovers [] journal disk fits small v = v
    run_durable-recovers ((c, event) ∷ rest) journal disk fits small v =
        let next = apply_durable-IsRecovered c journal disk event fits.0 (omega (arith, small)) v in
        let (_, journal', disk') = apply_durable deep_equal store c journal disk event in
        run_durable-recovers rest journal' disk' fits.1 (omega (arith, small, next.1)) next.0
