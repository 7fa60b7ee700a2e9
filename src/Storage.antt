-- ===== src/Storage.antt =====
-- storage.go, by its parts: the interface (`Types`) with its contract (`Laws`, and nodes in a `Race`),
-- MemoryStorage (`Memory`), and PostgresStorage (`Postgres`) over the server that it talks to (`Sql`,
-- `ServerLaws`).
pub mod Types
pub mod Memory
pub mod Laws
pub mod Race
pub mod Sql
pub mod ServerLaws
pub mod Postgres
