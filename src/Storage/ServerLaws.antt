-- ===== src/Storage/ServerLaws.antt =====
-- What is documented of Postgres and pgx, as far as PostgresStorage (storage.go) relies on it, for one
-- table of jobs. A method of the storage is one step: the advisory lock and the row lock of its UPDATE
-- keep other sessions from the row until the transaction ends.
use mathlib.Core.List.{Memᴰ}
use sundial.Base.{
  ◌≤◌, ◌<◌, ◌≡◌, ◌≢◌, ◌⊎◌, ℤ, pos_part, true, List, [], ◌∷◌, Option, none, some, Text, All, length,
}
use sundial.Base.Sort.{IsSorted}
use sundial.Errors.{Error, Result, ok, err}
use sundial.Clock.{after}
use sundial.Storage.Sql.{JobRow, RunRow, Statement, Select, Rows, Server}

-- A uuid that no row has.
abbrev pub IsFresh : Text → List JobRow → Type 0
IsFresh u rows = All (λ r. u ≢ r.id) rows

-- A statement answers by the table and leaves what it makes of it. If the connection fails, it has
-- run or it has not.
abbrev pub Executes : {A : Type 0} → Statement A → List JobRow → Result A → List JobRow → Type 0
Executes f rows (ok a) rows' = (u : Text) × IsFresh u rows × (f u rows ≡ (a, rows'))
Executes f rows (err e) rows' =
    (rows' ≡ rows) ⊎ ((u : Text) × IsFresh u rows × ((f u rows).1 ≡ rows'))

-- The rows that a SELECT may choose: LIMIT drops rows only when there are too many.
pub record IsSelection (q : Select) (rows found : List JobRow) : Type 0 where
  pub chosen : All (λ r. (q.where_test r ≡ true) × Memᴰ r rows) found
  pub ordered : IsSorted (λ a b. after (q.order_by a) (q.order_by b)) found
  pub within : length found ≤ pos_part q.limit
  pub complete :
      length found < pos_part q.limit
      → (r : JobRow) → Memᴰ r rows
      → q.where_test r ≡ true
      → Memᴰ r found

-- The rows come one after the other, until the connection breaks; a row may fail to be scanned.
abbrev pub Scans : List JobRow → List (Result JobRow) → Option Error → Type 0
Scans found [] none = found ≡ []
Scans found [] (some e) = Unit
Scans [] (x ∷ xs) broken = ⊥
Scans (r ∷ rs) (ok q ∷ xs) broken = (q ≡ r) × Scans rs xs broken
Scans (r ∷ rs) (err e ∷ xs) broken = Scans rs xs broken

abbrev pub Selects : Select → List JobRow → Result Rows → Type 0
Selects q rows (err e) = Unit
Selects q rows (ok out) =
    (found : List JobRow) × IsSelection q rows found × Scans found out.scanned out.broken

pub record ServerLaws {Tx P : Type 0} (server : Server Tx P) (table : Text) : Type 1 where
  -- The rows that are committed, and those that a transaction sees.
  pub jobs : P → List JobRow
  pub pending : Tx → P → List JobRow
  pub exec-Executes :
      {A : Type 0} (f : Statement A) (p : P)
      → Executes f (jobs p) (server.exec table f p).0 (jobs (server.exec table f p).1)
  pub query-Selects : (q : Select) (p : P) → Selects q (jobs p) (server.query table q p).0
  pub query-jobs : (q : Select) (p : P) → jobs (server.query table q p).1 ≡ jobs p
  pub insert_run-jobs :
      (runs : Text) (r : RunRow) (p : P) → jobs (server.insert_run runs r p).1 ≡ jobs p
  pub begin-pending :
      (tx : Tx) (p : P) → (server.begin p).0 ≡ ok tx → pending tx (server.begin p).1 ≡ jobs p
  pub begin-jobs : (p : P) → jobs (server.begin p).1 ≡ jobs p
  pub lock-pending :
      (key : ℤ) (tx : Tx) (p : P) → pending tx (server.try_xact_lock key tx p).1 ≡ pending tx p
  pub lock-jobs : (key : ℤ) (tx : Tx) (p : P) → jobs (server.try_xact_lock key tx p).1 ≡ jobs p
  pub exec_in-pending :
      {A : Type 0} (f : Statement A) (tx : Tx) (p : P) (a : A)
      → (server.exec_in table f tx p).0 ≡ ok a
      → (u : Text) × (f u (pending tx p) ≡ (a, pending tx (server.exec_in table f tx p).1))
  pub exec_in-jobs :
      {A : Type 0} (f : Statement A) (tx : Tx) (p : P)
      → jobs (server.exec_in table f tx p).1 ≡ jobs p
  pub commit-ok :
      (tx : Tx) (p : P)
      → (server.commit tx p).0 ≡ ok tt
      → jobs (server.commit tx p).1 ≡ pending tx p
  pub commit-err :
      (e : Error) (tx : Tx) (p : P)
      → (server.commit tx p).0 ≡ err e
      → (jobs (server.commit tx p).1 ≡ jobs p) ⊎ (jobs (server.commit tx p).1 ≡ pending tx p)
  pub rollback-jobs : (tx : Tx) (p : P) → jobs (server.rollback tx p) ≡ jobs p
