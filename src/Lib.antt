-- ===== src/Lib.antt =====
-- sundial: a job scheduler for a cluster of Go processes that share a storage. A model of the
-- package and the theorems about it.
--
-- The parts of the program, and the files that model them:
--   * schedule.go, cron.go: what fires when, and the iterator of missed fires
--     (Schedule; its theorems in Schedule/Window).
--   * job.go, and the job options of sundial.go: Job.
--   * storage.go: the rows and the Storage interface (Storage/Types), MemoryStorage
--     (Storage/Memory and its children), and the contract of the interface as an abstract table of
--     next fire times (Storage/Laws), which both backends fill (Storage/Memory/Lawful and
--     Storage/Postgres/Lawful) and over which nodes race for a fire (Storage/Race).
--     PostgresStorage is in Storage/Postgres: the statements that it sends are functions on the rows
--     of a table, and the server that runs them is a parameter (Storage/Sql, with its laws in
--     Storage/ServerLaws). Its children are named for the operations, and Update for the UPDATE
--     that ClaimJob and ScheduleRetry share. Sessions is ClaimJob call by call, in any number of
--     sessions whose transactions overlap.
--   * leader.go: the Leader interface, MemoryLeader and PostgresLeader (Leader; the
--     nodes of a cluster over one lock server in Leader/Nodes, theorems in Leader/Memory and
--     Leader/Locks, and in Leader/Stale for sessions that die).
--   * telemetry.go: the instruments and the spans, as what has been called on them (Telemetry), and how
--     `newTelemetry` makes the instruments (Telemetry/Instruments), over OpenTelemetry's meters
--     (`Meter`). The spans of attempts are followed in Dispatcher/Trace and Scheduler/Run/Traced.
--   * dispatcher.go: Dispatcher/State (the dispatcher with what it shares), Dispatcher/Load
--     (`computeNextFire`, `loadScheduleFromDue`), Dispatcher/Execute (`execute`, phase by phase) and
--     Dispatcher/Dispatch (`maybeDispatch`, `runAllMissed`, `tick`, `run`). Cluster is any number of nodes, each
--     with its dispatcher, over one storage. The other children hold the theorems, named for what
--     they are about.
--   * sundial.go: Scheduler (`New`, the options, `Schedule`, `Jobs`, `Stop`, `AutoNodeID`) and
--     Scheduler/Run (`Run`, with `drain` of dispatcher.go); theorems in Scheduler/Asked, Scheduler/Setup,
--     Scheduler/Registry, Scheduler/Run and Scheduler/Run/Persisted. Scheduler/Live is the loop of
--     Run with calls of Schedule and Stop in between.
--   * examples/hello/main.go: Hello, with theorems in Hello/Redacted, Hello/Ready and
--     Hello/Clean.
-- Base holds what they share; Errors the error values and Go's (value, error) results; Clock the
-- instants; Examples and its children the concrete inputs and tests.
--
-- How the state is modelled: each method is a function from a state to its results and the next
-- state. The dispatcher's state holds the storage, the leader, the retry counters, the goroutines
-- that it has started, those whose handlers are running, the count of `inFlight`, the telemetry and
-- the world outside the package, which handlers change and which the clock and the random numbers are
-- read from. The loop of `run` is a list of events in any order: ticks, leader renewals, and the two
-- steps of a started goroutine, so that handlers overlap: its attempt begins, and later its handler
-- comes back. Several nodes are several states over one storage, which take their steps in any order,
-- row by row of their ticks (Dispatcher/Cluster).
--
-- Assumptions and bounds: an instant is an integer number of nanoseconds since Go's zero Time and a
-- duration an int64, whose saturating `Sub` and wrapping product are written out; attempt counters
-- and metrics are unbounded; a Go map is the list of its entries in the order in which a range meets
-- them; a text is a list of bytes. No function needs fuel: the iterator of missed fires counts its
-- limit down (`maxCatchupInstants` is 256), and the sort, the replay and the waits recurse on lists.
-- Parameters with named hypotheses where a theorem needs them: the cron parser and the text formats
-- of package time (`Formats`, `FormatLaws`), float64 (`Float`, `FloatLaws`), the clock, random
-- numbers and error texts (`World`), the connection pool with the advisory locks (`LockServer`,
-- `LockLaws`), the pool with its statements and transactions (`Server`, `ServerLaws`, and `ClaimLaws`
-- of Sessions/Frame), the meters of
-- OpenTelemetry (`Meter`), and in New the default logger and the Postgres backends (`Defaults`).
-- A method of PostgresStorage is one step (but for Sessions), and a timestamp column keeps the instant
-- that is stored, where Postgres keeps microseconds; columns that the package never reads are left out.
--
-- Not modelled: the migrations (SQL), log output, the expiry of a handler's context while it runs,
-- handlers that outlive the shutdown grace, and of examples/hello the signals and the printing.
pub mod Base
pub mod Errors
pub mod Clock
pub mod Schedule
pub mod Hello
pub mod Job
pub mod Storage
pub mod Leader
pub mod Telemetry
pub mod Dispatcher
pub mod Scheduler
pub mod Examples
