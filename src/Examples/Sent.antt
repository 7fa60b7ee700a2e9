-- ===== src/Examples/Sent.antt =====
-- Tests of PostgresStorage, on a server in memory.
use sundial.Base.{Bool, ◌≡◌, ◌≢◌, refl, pos, true, [], ◌∷◌, some, Text, text, text_eq, arith}
use sundial.Errors.{Result, ok}
use sundial.Clock.{Time}
use sundial.Storage.Laws.{Claims, Retries}
use sundial.Storage.Memory.Rows.{IsDistinct}
use sundial.Storage.Sql.{JobRow, update_where}
use sundial.Storage.Postgres.{
  PostgresStorage, new_postgres_storage, jobs_table, advisory_key, advance, ensure_job_pg,
  claim_job_pg, schedule_retry_pg,
}
use sundial.Storage.Postgres.Update.{row_ids, view_rows}
use sundial.Storage.Postgres.Ensure.{Ensures, ensure_job_pg_lem}
use sundial.Storage.Postgres.Granted.{IsGranted, Agrees, granted_spec, claim_job_pg-granted_spec}
use sundial.Storage.Postgres.Sessions.{waiting, over, next_calls}
use sundial.Storage.Postgres.Sessions.Alone.{next_calls-granted_spec}
use sundial.Storage.Postgres.Lawful.{postgres_updates}
use sundial.Storage.Postgres.Key.{one_byte_apart}
use sundial.Examples.{good}
use sundial.Examples.Server.{Pool, server, server_laws}

abbrev pub storage : PostgresStorage
storage = record { schema = text "public" }

schema_default : new_postgres_storage [] ≡ storage
unfolding new_postgres_storage
schema_default = refl

abbrev row : Text → Text → Time → JobRow
row i n t = record {
  id = i;
  name = n;
  schedule = text "1h0m0s";
  schedule_kind = text "every";
  next_fire_time = t;
}

abbrev row_one : JobRow
row_one = row (text "id1") (text "a") (pos 1000)

abbrev pool : Pool
pool = record {
  kept = row_one ∷ row (text "id2") (text "b") (pos 5000) ∷ [];
  draft = [];
  runs = [];
}

pool-IsDistinct : IsDistinct (row_ids pool.kept)
pool-IsDistinct = (((λ e. ground arith), tt), (tt, tt))

postgres_updates_example :
    Claims
      (text "id1")
      (pos 2000)
      (view_rows pool.kept)
      (claim_job_pg server storage (text "id1") (pos 2000) pool).0
      (view_rows (claim_job_pg server storage (text "id1") (pos 2000) pool).1.kept)
    × Retries
        (text "id1")
        (pos 2000)
        (view_rows pool.kept)
        (view_rows (schedule_retry_pg server storage (text "id1") (pos 2000) pool).1.kept)
unfolding server_laws
postgres_updates_example =
    postgres_updates server storage (server_laws (jobs_table server storage)) (text "id1")
      (pos 2000) pool pool-IsDistinct

-- The claim of a due row wins.
claims_once : (claim_job_pg server storage (text "id1") (pos 2000) pool).0 ≡ ok true
unfolding claim_job_pg advance update_where text_eq
claims_once = refl

id1-IsGranted :
    IsGranted server storage (server_laws (jobs_table server storage)) (text "id1") (pos 2000) pool
unfolding server_laws advance update_where text_eq
id1-IsGranted = record {
  tx = tt;
  opened = _;
  held = _;
  written = _;
  n = 1;
  begins = refl;
  locks = refl;
  updates = refl;
  commits = refl;
}

claim_job_pg-granted_spec_example :
    Agrees
      (granted_spec
        (text "id1")
        (pos 2000)
        (view_rows pool.kept)
        (view_rows pool.kept (text "id1")))
      (claim_job_pg server storage (text "id1") (pos 2000) pool).0
      (view_rows (claim_job_pg server storage (text "id1") (pos 2000) pool).1.kept)
unfolding server_laws
claim_job_pg-granted_spec_example =
    claim_job_pg-granted_spec server storage (server_laws (jobs_table server storage)) (text "id1")
      (pos 2000) pool pool-IsDistinct id1-IsGranted

next_calls-granted_spec_example :
    (r : Result Bool) × (p : Pool) × (next_calls server storage 5
        (text "id1")
        (pos 2000)
        (waiting, pool)
      ≡ (over r, p))
    × Agrees
        (granted_spec
          (text "id1")
          (pos 2000)
          (view_rows pool.kept)
          (view_rows pool.kept (text "id1")))
        r
        (view_rows p.kept)
unfolding server_laws
next_calls-granted_spec_example =
    next_calls-granted_spec server storage (server_laws (jobs_table server storage)) 5 (text "id1")
      (pos 2000) pool (omega arith) pool-IsDistinct id1-IsGranted

ensure_job_pg_lem_example :
    IsDistinct (row_ids (ensure_job_pg server storage (some good) (pos 7) pool).1.kept)
    × Ensures good
        (pos 7)
        pool.kept
        (ensure_job_pg server storage (some good) (pos 7) pool).0
        (ensure_job_pg server storage (some good) (pos 7) pool).1.kept
unfolding server_laws
ensure_job_pg_lem_example =
    ensure_job_pg_lem good (pos 7) server storage (server_laws (jobs_table server storage)) pool
      pool-IsDistinct

one_byte_apart_example : advisory_key (text "id1") ≢ advisory_key (text "id2")
one_byte_apart_example =
    one_byte_apart (text "id") [] 49 50 tt (omega arith) (omega arith) (λ e. omega (arith, e))
