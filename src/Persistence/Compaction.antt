-- ===== src/Persistence/Compaction.antt =====
-- Compaction drops whole histories of ended orders, and nothing else.
use cyp_agent.Base.{
  ℕ, ◌-◌, ◌≡◌, ◌≢◌, ◌⊎◌, refl, sym, ap, ◌∙◌, inl, inr, Bool, true, false, ◌||◌, Option, none, some,
  List, [], ◌∷◌, if◌then◌else◌, ◌==◌, leb, length, Text, text_eq, text_eq→eq, text_eq_iff, Dict,
  lookup, insert, lookup-insert, Bool-cases, arith,
}
use cyp_agent.Orders.{is_terminal}
use cyp_agent.Orders.Journal.{Event}
use cyp_agent.Persistence.{
  Group, count_event, group_events, candidates, insert_group, sort_groups, to_remove, contains,
  keep_events, keep_others, removed_clients, compact_order_events,
}

-- The events of one client.
unfoldable pub history_of : Text → List Event → List Event
history_of id [] = []
history_of id (event ∷ rest) =
    let more = history_of id rest in if text_eq event.client_id id then event ∷ more else more

-- Whether the last event of a history ends its order.
abbrev pub ended_after : Bool → List Event → Bool
ended_after ended [] = ended
ended_after ended (event ∷ rest) = ended_after (is_terminal event.status) rest

abbrev pub has_ended : List Event → Bool
has_ended history = ended_after false history

-- Every key stands once, with a group of its name.
abbrev Keyed : Dict Group → Type 0
Keyed [] = Unit
Keyed ((id, group) ∷ rest) = (group.client_id ≡ id) × (lookup id rest ≡ none) × Keyed rest

abbrev is_ended : Option Group → Bool
is_ended none = false
is_ended (some group) = group.terminal

insert-Keyed :
    (id : Text) (group : Group) (groups : Dict Group)
    → group.client_id ≡ id
    → Keyed groups
    → Keyed (insert id group groups)
unfolding insert lookup
insert-Keyed id group [] e k = (e, refl, tt)
insert-Keyed id group ((j, h) ∷ rest) e (n, l, k) = elim (Bool-cases (text_eq j id)) [
  | inl same ↦ rw same (e ∙ sym (text_eq→eq j id same), l, k)
  | inr other ↦
      let m : lookup j (insert id group rest) ≡ none =
        ground (arith, lookup-insert id j group rest, text_eq_iff id j, text_eq_iff j id) in
      rw other (n, m, insert-Keyed id group rest e k)
]

lookup-Keyed :
    (id : Text) (groups : Dict Group) {group : Group}
    → Keyed groups
    → lookup id groups ≡ some group
    → group.client_id ≡ id
unfolding lookup
lookup-Keyed id [] k l = cc
lookup-Keyed id ((j, h) ∷ rest) {group} (n, _, k) l =
    ground (arith, text_eq→eq j id, lookup-Keyed id rest {group = group} k)

count_event-client_id :
    (event : Event) (group : Option Group)
    → ((g : Group) → group ≡ some g → g.client_id ≡ event.client_id)
    → (count_event event group).client_id ≡ event.client_id
count_event-client_id event none h = refl
count_event-client_id event (some g) h = h g refl

group_events-Keyed :
    (groups : Dict Group) (events : List Event) → Keyed groups → Keyed (group_events groups events)
unfolding group_events
group_events-Keyed groups [] k = k
group_events-Keyed groups (event ∷ rest) k =
    group_events-Keyed
      (insert event.client_id (count_event event (lookup event.client_id groups)) groups) rest
      (insert-Keyed event.client_id (count_event event (lookup event.client_id groups)) groups
        (count_event-client_id event (lookup event.client_id groups)
          (λ g l. lookup-Keyed event.client_id groups k l))
        k)

count_event-is_ended :
    (event : Event) (group : Option Group)
    → (count_event event group).terminal ≡ is_terminal event.status
count_event-is_ended event none = refl
count_event-is_ended event (some group) = refl

-- A group ends as the history of its client does.
group_events-is_ended :
    (id : Text) (groups : Dict Group) (events : List Event)
    → is_ended (lookup id (group_events groups events))
      ≡ ended_after (is_ended (lookup id groups)) (history_of id events)
unfolding group_events history_of
group_events-is_ended id groups [] = refl
group_events-is_ended id groups (event ∷ rest) =
    let group = count_event event (lookup event.client_id groups) in
    let next = insert event.client_id group groups in
    let found = lookup-insert event.client_id id group groups in
    elim (Bool-cases (text_eq event.client_id id)) [
      | inl same ↦
          let e : is_ended (lookup id next) ≡ is_terminal event.status =
            rw (found, same) (count_event-is_ended event (lookup event.client_id groups)) in
          rw same
            (group_events-is_ended id next rest ∙ ap (λ b. ended_after b (history_of id rest)) e)
      | inr other ↦
          let e : lookup id next ≡ lookup id groups = rw (found, other) refl in
          rw other (
            group_events-is_ended id next rest
            ∙ ap (λ l. ended_after (is_ended l) (history_of id rest)) e)
    ]

-- A group of that name is among the groups.
unfoldable names : Text → List Group → Bool
names id [] = false
names id (group ∷ rest) = text_eq group.client_id id || names id rest

to_remove-names :
    (id : Text) (limit remaining : ℕ) (groups : List Group)
    → contains id (to_remove limit remaining groups) ≡ true
    → names id groups ≡ true
unfolding contains to_remove names
to_remove-names id limit remaining [] h = h
to_remove-names id limit remaining (group ∷ rest) h =
    ground (arith, to_remove-names id limit (remaining - group.count) rest)

insert_group-names :
    (id : Text) (group : Group) (groups : List Group)
    → names id (insert_group group groups) ≡ (text_eq group.client_id id || names id groups)
unfolding insert_group names
insert_group-names id group [] = refl
insert_group-names id group (first ∷ rest) = ground (arith, insert_group-names id group rest)

sort_groups-names :
    (id : Text) (groups : List Group) → names id (sort_groups groups) ≡ names id groups
unfolding sort_groups names
sort_groups-names id [] = refl
sort_groups-names id (group ∷ rest) =
    ground (arith, insert_group-names id group (sort_groups rest), sort_groups-names id rest)

not_ended : (group : Option Group) → group ≡ none → is_ended group ≢ true
not_ended group e h = ground arith

candidates-names :
    (id : Text) (groups : Dict Group)
    → Keyed groups
    → names id (candidates groups) ≡ true
    → is_ended (lookup id groups) ≡ true
unfolding candidates names lookup
candidates-names id [] k h = ground arith
candidates-names id ((j, group) ∷ rest) (n, l, k) h = elim (Bool-cases (text_eq j id)) [
  | inl same ↦ elim (Bool-cases group.terminal) [
    | inl y ↦ rw same y
    | inr open_end ↦
        let there : is_ended (lookup id rest) ≡ true = candidates-names id rest k (ground arith) in
        let gone : lookup id rest ≡ none = rw (← text_eq→eq j id same) l in
        absurd (not_ended (lookup id rest) gone there)
  ]
  | inr other ↦ rw other (candidates-names id rest k (ground arith))
]

history_of-keep_events :
    (id : Text) (removed : List Text) (events : List Event)
    → history_of id (keep_events removed events)
      ≡ (if contains id removed then [] else history_of id events)
unfolding history_of keep_events
history_of-keep_events id removed [] = ground arith
history_of-keep_events id removed (event ∷ rest) =
    ground (arith, history_of-keep_events id removed rest, text_eq→eq event.client_id id)

history_of-keep_others :
    (id : Text) (removed : List Text) (events : List Event)
    → history_of id (keep_others removed events)
      ≡ (if contains id removed then [] else history_of id events)
unfolding contains
history_of-keep_others id [] events = refl
history_of-keep_others id (first ∷ rest) events = history_of-keep_events id (first ∷ rest) events

removed_clients-has_ended :
    (id : Text) (limit : ℕ) (events : List Event)
    → contains id (removed_clients limit events) ≡ true
    → has_ended (history_of id events) ≡ true
unfolding lookup
removed_clients-has_ended id limit events h =
    let groups = group_events [] events in
    let named = to_remove-names id limit (length events) (sort_groups (candidates groups)) h in
    let listed = sym (sort_groups-names id (candidates groups)) ∙ named in
    sym (group_events-is_ended id [] events)
    ∙ candidates-names id groups (group_events-Keyed [] events tt) listed

-- Compaction keeps the whole history of a client id, or removes all of it, and then its last event
-- is in a terminal status.
pub compact_order_events-histories :
    (id : Text) (limit : ℕ) (events : List Event)
    → let kept = history_of id (compact_order_events limit events) in
      (kept ≡ history_of id events) ⊎ ((kept ≡ []) × (has_ended (history_of id events) ≡ true))
unfolding compact_order_events
compact_order_events-histories id limit events =
    let removed = removed_clients limit events in
    elim (Bool-cases (limit == 0 || leb (length events) limit)) [
      | inl small ↦ inl (rw (small, compact_order_events) refl)
      | inr large ↦ elim (Bool-cases (contains id removed)) [
        | inl gone ↦ inr (
          rw (large, compact_order_events, history_of-keep_others id removed events, gone) refl,
          removed_clients-has_ended id limit events gone,
        )
        | inr stays ↦
            inl (
              rw (large, compact_order_events, history_of-keep_others id removed events, stays)
                refl)
      ]
    ]
