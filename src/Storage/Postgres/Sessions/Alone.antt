-- ===== src/Storage/Postgres/Sessions/Alone.antt =====
-- A claim of PostgresStorage (storage.go), call by call, that no other session interrupts.
use sundial.Base.{ℕ, ◌≡◌, ◌≤◌, Bool, Text}
use sundial.Errors.{Result}
use sundial.Clock.{Time}
use sundial.Storage.Memory.Rows.{IsDistinct}
use sundial.Storage.Sql.{Server}
use sundial.Storage.ServerLaws.{ServerLaws}
use sundial.Storage.Postgres.{PostgresStorage, jobs_table, claim_job_pg}
use sundial.Storage.Postgres.Update.{row_ids, view_rows}
use sundial.Storage.Postgres.Granted.{IsGranted, Agrees, granted_spec, claim_job_pg-granted_spec}
use sundial.Storage.Postgres.Sessions.{waiting, over, next_calls, next_calls-claim_job_pg}

module _ {Tx P : Type 0} (server : Server Tx P) (s : PostgresStorage)
    (laws : ServerLaws server (jobs_table server s)) where
  open laws use {jobs}

  -- On a lawful server whose rows have distinct ids, when the lock is granted and no call fails: a
  -- claim that no other session interrupts is over after four calls or more. It has won exactly when
  -- the row exists and is before the new fire time; then the row has that time, else no fire time is
  -- changed.
  pub next_calls-granted_spec :
      (n : ℕ) (i : Text) (t : Time) (p : P)
      → 4 ≤ n
      → IsDistinct (row_ids (jobs p))
      → IsGranted server s laws i t p
      → (r : Result Bool) × (p' : P) × (next_calls server s n i t (waiting, p) ≡ (over r, p'))
        × Agrees
            (granted_spec i t (view_rows (jobs p)) (view_rows (jobs p) i))
            r
            (view_rows (jobs p'))
  next_calls-granted_spec n i t p h d g =
      let o = claim_job_pg server s i t p in
      (
        o.0,
        o.1,
        next_calls-claim_job_pg server s n i t p h,
        claim_job_pg-granted_spec server s laws i t p d g,
      )
