-- ===== src/Persistence/Restart.antt =====
-- A restart on the file of internal/persistence gives the journal of internal/orders back.
use cyp_agent.Base.{◌+◌, ◌≤◌, ◌≡◌, Bool, none, some, List, All, length}
use cyp_agent.Orders.Journal.{Event, Journal, open_durable}
use cyp_agent.Orders.Journal.Durable.{run_durable, run_durable-recovers, start-IsRecovered}
use cyp_agent.Persistence.Events.{max_order_events}
use cyp_agent.Persistence.File.{Writes, file_events, load_file_events}
use cyp_agent.Persistence.Plain.{IsPlain, file_events-IsFaithful}
use cyp_agent.Persistence.Startup.{load_file_events-append}

-- Take a file whose order events a new process loads as they are and replays to a journal, and any
-- run of calls of `ApplyContext` on events that have a time and a status, ids and a note without
-- spaces around them, a note of at most 1000 bytes and numbers that can be printed and read again.
-- As long as the events in the file and the calls are no more than 20000, and whichever calls are
-- refused or fail to be written, a new process loads the events of the file after the run as they
-- are, and replaying them succeeds and gives the journal in memory.
pub run_durable-restarts :
    (deep_equal : Event → Event → Bool) (calls : List (Bool × Event)) (journal : Journal)
    (disk : Writes × List Event)
    → All (λ call. IsPlain call.1) calls
    → length disk.1 + length calls ≤ max_order_events
    → load_file_events deep_equal disk.1 ≡ some disk.1
    → open_durable deep_equal (file_events deep_equal) disk ≡ (none, journal)
    → let (journal', disk') = run_durable deep_equal (file_events deep_equal) calls journal disk in
      (load_file_events deep_equal disk'.1 ≡ some disk'.1)
      × (open_durable deep_equal (file_events deep_equal) disk' ≡ (none, journal'))
run_durable-restarts deep_equal calls journal disk plain small loads h =
    let v =
      run_durable-recovers deep_equal (file_events deep_equal) IsPlain max_order_events
        (file_events-IsFaithful deep_equal)
        (λ events. load_file_events deep_equal events ≡ some events)
        (load_file_events-append deep_equal) calls journal disk plain small
        (start-IsRecovered deep_equal (file_events deep_equal) _ journal disk loads h) in
    (v.kept, v.replays)
