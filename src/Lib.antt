-- ===== src/Lib.antt =====
-- The verification library of cyp-agent, a trading agent written in Go whose language models only
-- propose: a deterministic risk engine, a human approval gate, an order state machine with a durable
-- journal and a safety state decide what is traded.
--
-- How the parts interact. A proposal (internal/contracts) is assessed by the risk engine
-- (internal/risk) against a risk context, part of which the portfolio view (internal/portfolio)
-- computes from the positions and part the risk state tracker (internal/riskstate) from the
-- account's equity and trades. An assessed proposal waits in the approval gate
-- (internal/approval), which announces it on the event bus (internal/events). An approved one
-- becomes an order intent whose life is a sequence of events in the journal (internal/orders),
-- checked against the status table and written to a store (internal/persistence) before the
-- journal in memory changes. The runtime (internal/runtime) lets a new position through only for a
-- known mode, an account that the mode accepts and a state that was reconciled, and callers for
-- one symbol take turns by its lock. All money is computed with the decimal numbers of
-- internal/contracts.
--
-- The files and the code that they model:
--   Base, Int           shared names; texts as lists of code points; maps; integers over native numbers
--   Decimal             internal/contracts/decimal.go: the number, alignment, + - * and comparison;
--                       Decimal.Quotient: QuoScale, Quo, Normalize; Decimal.Parse: ParseDecimal;
--                       Decimal.Text: String; Decimal.Json: MarshalJSON and then UnmarshalJSON.
--                       Exact, Compare, Order, Places, Room, Rounding,
--                       Division and Normal prove what the operations mean; Digits, Shape,
--                       Reading and RoundTrip that printing and parsing agree
--   Models              internal/contracts/models.go: the exchanged records; Models.Validate: Validate
--   Orders              internal/orders/machine.go; Orders.Lifecycle: what its table guarantees
--   Orders.Journal      internal/orders/journal.go; Orders.Journal.Invariant: sound histories;
--                       Orders.Journal.Recovery: errors and retries; Orders.Journal.Durable:
--                       crashes, over any store that keeps what it is given
--   Risk                internal/risk/engine.go: policy and results; the rules are in Risk.Account,
--                       Risk.Margin, Risk.Chain and Risk.Exposure, Assess and the score in
--                       Risk.Assess; Verdict, Limit, Caps, Bounds and Closing
--                       prove what a verdict means
--   Portfolio           internal/portfolio/view.go; Portfolio.Sums: the totals as sums
--   Approval            internal/approval/pending.go; Approval.Calls: its calls as sequences of
--                       steps; Live, Steps and Faithful prove that none blocks and what they return
--   Events              internal/events/bus.go; Events.Log: the history; Events.Delivery: the queues
--   Runtime             internal/runtime/mode.go and safety.go; Runtime.Isolation: accounts and
--                       scopes; Runtime.Authority: when positions are authorized
--   Runtime.Locks       internal/runtime/symbols.go: the locks by symbol; Invariant, Steps, Leave
--                       and Reached: what every step of every caller keeps; Runtime.Locks.Exclusion:
--                       what callers may rely on
--   Watchlist           internal/control/watchlist.go: the normalization of a watchlist;
--                       Watchlist.Symbols and Watchlist.Complete: what it lets through and keeps
--   Persistence         internal/persistence/repository.go: the compaction of stored order events;
--                       Persistence.Events: their normalization and append; Persistence.File: the
--                       file of internal/persistence/file.go; Compaction: what compaction drops;
--                       Plain, Startup and Restart: what the file keeps as it is, what a new
--                       process loads of it and what a journal reads back
--   Paper               internal/venue/paper.go: the state of the simulated venue, its preflight and
--                       its close; Paper.Place, Paper.Protect, Paper.Trigger and Paper.Account the
--                       other calls; Paper.Calls their sequences and Paper.Calls.Once what a client
--                       id gets; Paper.Merge, Stops, Cash, Flat and Closing the theorems on
--                       protective orders, stop losses, cash, flat orders and equity
--   Tracker             internal/riskstate/tracker.go: the account statistics; Tracker.Record and
--                       Tracker.Reconcile the calls that change them, Restore the start from a
--                       checkpoint, Snapshot what the risk engine reads, Calls the sequences of
--                       calls, Json the checkpoint in internal/persistence/file.go; Kept, Ledger,
--                       Invariant, Fills, Newest, Once, Steady and Durable prove what calls keep,
--                       what a report again does and what a restart reads back
--   Samples, Tests      sample values, and the theorems on them
--
-- How state and code correspond. A struct is a record, a method that changes it a function to the
-- new record. Fallible functions return an option of an error, or a result type. An operation that
-- holds a mutex from start to end is one step; where a call gives the lock up while it waits, as
-- `Decide` of the approval gate does, the steps in between are separate and a theorem about a run
-- is about every sequence of them. Channels are options or bounded lists, and an entry that is
-- shared by pointer has an address. `big.Int` is the integers; a decimal's scale is an `int32`
-- whose sums and differences wrap, and theorems name the range of scales in which nothing wraps. A
-- float is its bits: it is compared by them, and other float operations are parameters
-- (`Risk.Platform`). The interface `Orders.Journal.EventStore` stands for any store; a restart of
-- the journal and one of the tracker are proved for the file of internal/persistence, for records
-- that JSON keeps (printable decimals, texts that normalization leaves as they are) and below the
-- limits of its compaction. Times are numbers of nanoseconds, and the clock is an argument.
--
-- Counts, such as the references of a lock or the losses in a row, are natural numbers: an `int` of
-- 64 bits holds all that a process can count.
--
-- Fuel. `Decimal.Text.digits_loop` and `Tracker.Reconcile.format_loop` run on fuel of one more than
-- the number that they print, which has no more digits than that; every other loop is structural,
-- `Normalize` on the scale.
--
-- Not modelled: the text of errors (but for what the simulated venue records) and of risk reasons
-- (kept as constructors with their values), JSON but for what the records of the file read back as,
-- deep copies of values, `Journal.Orders`, and the parts around the core: the orchestrator, the
-- CVaR of the risk state tracker, the settings update, the Postgres store and the rest of the
-- file's records, the exchange adapters, the language model clients, market data, backtests,
-- configuration, the HTTP API and the dashboard.
pub mod Base
pub mod Int
pub mod Decimal
pub mod Models
pub mod Orders
pub mod Risk
pub mod Portfolio
pub mod Approval
pub mod Events
pub mod Runtime
pub mod Watchlist
pub mod Persistence
pub mod Paper
pub mod Tracker
pub mod Samples
