-- ===== src/Persistence/File.antt =====
-- internal/persistence/file.go: a change of the repository, which counts only once it is written.
-- The file system is not code of the program: `Writes` are the answers to the next writes, of the
-- file system or of a context that has ended, after which every write works. A write that fails
-- leaves the file as it was, or as a backup that the next start puts back. The reads copy what they
-- return.
use cyp_agent.Base.{
  Bool, true, false, not, Option, none, some, List, [], ◌∷◌, if◌then◌else◌, Dict, lookup, insert,
}
use cyp_agent.Decimal.Json.{and_then, list_json}
use cyp_agent.Orders.Journal.{Event, EventStore, equivalent_event}
use cyp_agent.Persistence.Events.{append_order_event, event_json, normalize_order_event}

abbrev pub Writes : Type 0
Writes = List Bool

-- `FileRepository.mutate`, on what the operation gives; `none` is its error.
unfoldable pub mutate {ℓ} : {A : Type ℓ} → Option A → Writes × A → Bool × (Writes × A)
mutate none (writes, state) = (false, (writes, state))
mutate (some next) ([], state) = (true, ([], next))
mutate (some next) (true ∷ writes, state) = (true, (writes, next))
mutate (some next) (false ∷ writes, state) = (false, (writes, state))

-- `AppendOrderEvent` and `LoadOrderEvents`.
abbrev pub file_events : (Event → Event → Bool) → EventStore
file_events deep_equal = record {
  Disk = Writes × List Event;
  append = λ disk event. mutate (append_order_event deep_equal disk.1 event) disk;
  load = λ disk. disk.1;
}

module _ (deep_equal : Event → Event → Bool) where
  abbrev pub conflicts : Event → Option Event → Bool
  conflicts event none = false
  conflicts event (some existing) = not (equivalent_event deep_equal existing event)

  -- The loop at the end of `loadFileState`; `none` is an error.
  unfoldable pub check_stored : Dict Event → List Event → Option (List Event)
  check_stored seen [] = some []
  check_stored seen (event ∷ rest) = and_then (normalize_order_event event) (λ normalized.
      let later = check_stored (insert normalized.event_id normalized seen) rest in
      if conflicts normalized (lookup normalized.event_id seen)
      then none
      else and_then later (λ more. some (normalized ∷ more)))

  -- The order events that a new process has of a file: `loadFileState` decodes and checks them.
  unfoldable pub load_file_events : List Event → Option (List Event)
  load_file_events events = and_then (list_json event_json events) (check_stored [])
