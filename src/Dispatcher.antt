-- ===== src/Dispatcher.antt =====
-- dispatcher.go, by its parts: the state and what it is run with (`State`), stored schedules
-- (`Load`), one handler attempt (`Execute`), the decision about a due job (`Dispatch`).
pub mod State
pub mod Load
pub mod Execute
pub mod Dispatch
pub mod InFlight
pub mod Balance
pub mod Stored
pub mod Expired
pub mod Retry
pub mod Backoff
pub mod Budget
pub mod Valid
pub mod Trace
pub mod Cluster
pub mod Fire
pub mod Replay
pub mod Interval
pub mod Skip
pub mod Deadline
