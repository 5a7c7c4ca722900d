-- ===== src/Persistence.antt =====
-- internal/persistence/repository.go: the compaction of the stored order events.
-- A Go map is an association list; the sort makes the order in which it is read immaterial.
pub mod Compaction
pub mod Events
pub mod File
pub mod Plain
pub mod Startup
pub mod Restart
mod Tests
use cyp_agent.Base.{
  ℕ, ◌+◌, ◌-◌, Bool, true, false, ◌&&◌, ◌||◌, not, Option, none, some, List, [], ◌∷◌, ltb, leb,
  ◌==◌, if◌then◌else◌, length, Text, text_eq, text_lt, Dict, lookup, insert,
}
use cyp_agent.Orders.{is_terminal}
use cyp_agent.Orders.Journal.{Event}

-- The events of one client id: the time and the end of the last one, and their number.
pub record Group : Type 0 where
  pub client_id : Text
  pub last : ℕ
  pub count : ℕ
  pub terminal : Bool

abbrev pub count_event : Event → Option Group → Group
count_event event none = record {
  client_id = event.client_id;
  last = event.ts;
  count = 1;
  terminal = is_terminal event.status;
}
count_event event (some group) = record group {
  last = event.ts;
  count = group.count + 1;
  terminal = is_terminal event.status;
}

unfoldable pub group_events : Dict Group → List Event → Dict Group
group_events groups [] = groups
group_events groups (event ∷ rest) =
    group_events (insert event.client_id (count_event event (lookup event.client_id groups)) groups)
      rest

unfoldable pub candidates : Dict Group → List Group
candidates [] = []
candidates ((id, group) ∷ rest) =
    let more = candidates rest in if group.terminal then group ∷ more else more

-- The order of the sort.
abbrev pub older : Group → Group → Bool
older a b = if a.last == b.last then text_lt a.client_id b.client_id else ltb a.last b.last

unfoldable pub insert_group : Group → List Group → List Group
insert_group group [] = group ∷ []
insert_group group (first ∷ rest) =
    let later = insert_group group rest in
    if older first group then first ∷ later else group ∷ first ∷ rest

unfoldable pub sort_groups : List Group → List Group
sort_groups [] = []
sort_groups (group ∷ rest) = insert_group group (sort_groups rest)

-- The clients to remove, until no more than `limit` events remain.
unfoldable pub to_remove : ℕ → ℕ → List Group → List Text
to_remove limit remaining [] = []
to_remove limit remaining (group ∷ rest) =
    let more = to_remove limit (remaining - group.count) rest in
    if leb remaining limit then [] else group.client_id ∷ more

unfoldable pub contains : Text → List Text → Bool
contains id [] = false
contains id (first ∷ rest) = text_eq first id || contains id rest

unfoldable pub keep_events : List Text → List Event → List Event
keep_events removed [] = []
keep_events removed (event ∷ rest) =
    let more = keep_events removed rest in
    if contains event.client_id removed then more else event ∷ more

abbrev pub removed_clients : ℕ → List Event → List Text
removed_clients limit events =
    to_remove limit (length events) (sort_groups (candidates (group_events [] events)))

-- The end of `compactOrderEvents`.
abbrev pub keep_others : List Text → List Event → List Event
keep_others [] events = events
keep_others (id ∷ ids) events = keep_events (id ∷ ids) events

-- `compactOrderEvents`; a limit of 0 stands for one that is not positive.
unfoldable pub compact_order_events : ℕ → List Event → List Event
compact_order_events limit events =
    if limit == 0 || leb (length events) limit
    then events
    else keep_others (removed_clients limit events) events
