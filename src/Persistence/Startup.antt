-- ===== src/Persistence/Startup.antt =====
-- internal/persistence/file.go: what a new process makes of the events that the file holds.
use mathlib.Core.Path.{subst}
use cyp_agent.Base.{
  ◌≡◌, refl, sym, ap, some_eq, inl, inr, Bool, false, Option, none, some, List, [], ◌∷◌, ◌++◌,
  none_apart, All, Dict, lookup, insert, lookup-insert, text_eq, Option-cases, Bool-cases,
}
use cyp_agent.Decimal.Json.{list_json}
use cyp_agent.Orders.Journal.{Event}
use cyp_agent.Persistence.Events.{event_json, normalize_order_event}
use cyp_agent.Persistence.File.{conflicts, check_stored, load_file_events}
use cyp_agent.Persistence.Plain.{IsPlain, event_json_plain, normalize_order_event_plain}

-- What is decoded of the events and one more.
list_json-append :
    (events read : List Event) (event : Event)
    → event_json event ≡ some event
    → list_json event_json events ≡ some read
    → list_json event_json (events ++ (event ∷ [])) ≡ some (read ++ (event ∷ []))
unfolding list_json
list_json-append [] read event e h = rw e (ap (λ r. some (r ++ (event ∷ []))) (some_eq [] read h))
list_json-append (first ∷ rest) read event e h = elim (Option-cases (event_json first)) [
  | inl bad ↦ absurd (none_apart read (rw bad at h))
  | inr (one, first_read) ↦ elim (Option-cases (list_json event_json rest)) [
    | inl bad ↦ absurd (none_apart read (rw (first_read, bad) at h))
    | inr (more, rest_read) ↦
        rw (first_read, list_json-append rest more event e rest_read)
          (ap (λ r. some (r ++ (event ∷ [])))
            (some_eq (one ∷ more) read (rw (first_read, rest_read) at h)))
  ]
]

module _ (deep_equal : Event → Event → Bool) where
  -- What is made of the events and one more, whose id is new.
  check_stored-append :
      (seen : Dict Event) (read events : List Event) (event : Event)
      → IsPlain event
      → lookup event.event_id seen ≡ none
      → All (λ old. text_eq old.event_id event.event_id ≡ false) events
      → check_stored deep_equal seen read ≡ some events
      → check_stored deep_equal seen (read ++ (event ∷ [])) ≡ some (events ++ (event ∷ []))
  unfolding check_stored
  check_stored-append seen [] events event plain new others h =
      rw (normalize_order_event_plain event plain, new)
        (ap (λ r. some (r ++ (event ∷ []))) (some_eq [] events h))
  check_stored-append seen (first ∷ rest) events event plain new others h =
      elim (Option-cases (normalize_order_event first)) [
        | inl bad ↦ absurd (none_apart events (rw bad at h))
        | inr (one, fine) ↦
            elim (Bool-cases (conflicts deep_equal one (lookup one.event_id seen))) [
              | inl bad ↦ absurd (none_apart events (rw (fine, bad) at h))
              | inr agrees ↦ elim (Option-cases (later one)) [
                | inl bad ↦ absurd (none_apart events (rw (fine, agrees, bad) at h))
                | inr (more, e) ↦
                    let same : one ∷ more ≡ events =
                      some_eq (one ∷ more) events (rw (fine, agrees, e) at h) in
                    let apart =
                      subst (All (λ old. text_eq old.event_id event.event_id ≡ false)) (sym same)
                        others in
                    rw
                      (
                        fine,
                        agrees,
                        check_stored-append (insert one.event_id one seen) rest more event plain
                            (rw (lookup-insert, apart.0) new) apart.1 e,
                      )
                      (ap (λ r. some (r ++ (event ∷ []))) same)
              ]
            ]
      ]
    where
      later : Event → Option (List Event)
      later one = check_stored deep_equal (insert one.event_id one seen) rest

  -- A file that a new process takes as it is, with a new event at its end.
  pub load_file_events-append :
      (events : List Event) (event : Event)
      → IsPlain event
      → All (λ old. text_eq old.event_id event.event_id ≡ false) events
      → load_file_events deep_equal events ≡ some events
      → load_file_events deep_equal (events ++ (event ∷ [])) ≡ some (events ++ (event ∷ []))
  unfolding load_file_events lookup
  load_file_events-append events event plain others h =
      elim (Option-cases (list_json event_json events)) [
        | inl bad ↦ absurd (none_apart events (rw bad at h))
        | inr (read, e) ↦
            rw (list_json-append events read event (event_json_plain event plain) e)
              (check_stored-append [] read events event plain refl others (rw e at h))
      ]
