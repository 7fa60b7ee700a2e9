-- ===== src/Storage/Sql.antt =====
-- What PostgresStorage (storage.go) takes from Postgres and pgx: the rows of its two tables, the meaning
-- of the statements that it sends, and the calls that send them. How the server behaves is stated in
-- the laws; the columns that the package never reads are left out.
use sundial.Base.{ℕ, suc, ℤ, Bool, List, [], ◌∷◌, Option, Text, if◌then◌else◌}
use sundial.Errors.{Error, Result}
use sundial.Clock.{Time}

pub record JobRow : Type 0 where
  pub id : Text
  pub name : Text
  pub schedule : Text
  pub schedule_kind : Text
  pub next_fire_time : Time

pub record RunRow : Type 0 where
  pub job_id : Text
  pub fire_time : Time
  pub started_at : Time
  pub finished_at : Time
  pub attempt : ℤ
  pub status : Text
  -- NULL is `none`.
  pub error : Option Text
  pub node_id : Text

-- UPDATE … SET … WHERE …, with the number of rows that it has met.
unfoldable pub update_where : (JobRow → Bool) → (JobRow → JobRow) → List JobRow → ℕ × List JobRow
update_where p f [] = (0, [])
update_where p f (r ∷ rs) =
    let (n, rest) = update_where p f rs in if p r then (suc n, f r ∷ rest) else (n, r ∷ rest)

-- What a statement makes of a table: an answer and the table afterwards. It is handed a new uuid.
abbrev pub Statement : Type 0 → Type 0
Statement A = Text → List JobRow → A × List JobRow

-- SELECT … WHERE … ORDER BY … LIMIT …
pub record Select : Type 0 where
  pub where_test : JobRow → Bool
  pub order_by : JobRow → Time
  pub limit : ℤ

-- Rows as `rows.Next` and `rows.Scan` give them, and `rows.Err` after the last.
pub record Rows : Type 0 where
  pub scanned : List (Result JobRow)
  pub broken : Option Error

-- The pool, of state `P`, and its transactions. A table is named by a text.
pub record Server (Tx P : Type 0) : Type 1 where
  -- `pool.QueryRow` and `pool.Exec`: a statement by itself.
  pub exec : {A : Type 0} → Text → Statement A → P → Result A × P
  pub query : Text → Select → P → Result Rows × P
  pub insert_run : Text → RunRow → P → Result (Unit {0}) × P
  -- `pool.Begin`, and a transaction's `pg_try_advisory_xact_lock`, `Exec`, `Commit` and `Rollback`.
  pub begin : P → Result Tx × P
  pub try_xact_lock : ℤ → Tx → P → Result Bool × P
  pub exec_in : {A : Type 0} → Text → Statement A → Tx → P → Result A × P
  pub commit : Tx → P → Result (Unit {0}) × P
  pub rollback : Tx → P → P
