-- ===== src/Storage/Postgres.antt =====
-- storage.go: PostgresStorage. A method is one step, whatever statements it sends (but for
-- Sessions).
pub mod Key
pub mod Update
pub mod Claim
pub mod DueRows
pub mod Fetch
pub mod Ensure
pub mod Granted
pub mod Sessions
pub mod Lawful
use Prim.Native.Nat.{bit_xor}
use sundial.Base.{
  ℕ, zero, suc, ◌+◌, ◌*◌, ◌%◌, ◌^◌, ◌==◌, ℤ, pos, ltb_ℤ, Bool, true, false, not, ◌&&◌, List, [],
  ◌∷◌, ◌++◌, Option, none, some, Text, text, text_eq, if◌then◌else◌,
}
use sundial.Errors.{Error, Result, ok, err, ◌>>=◌, wrap_err, nil_job, storage_failed}
use sundial.Clock.{Time, before, wrap64}
use sundial.Job.{Job}
use sundial.Storage.Types.{
  DueJob, RunOutcome, run_succeeded, run_failed, run_dead_letter, RunRecord, Storage,
}
use sundial.Storage.Memory.{fill_run}
use sundial.Storage.Sql.{JobRow, RunRow, Statement, Select, Rows, Server, update_where}

-- The struct, less its pool, which is the state of its methods.
pub record PostgresStorage : Type 0 where
  pub schema : Text

unfoldable pub new_postgres_storage : Text → PostgresStorage
new_postgres_storage [] = record { schema = text "public" }
new_postgres_storage (c ∷ cs) = record { schema = c ∷ cs }

unfoldable pub qualify : PostgresStorage → Text → Text
qualify s table = s.schema ++ text "." ++ table

abbrev fnv_prime : ℕ
fnv_prime = 0x100000001b3

abbrev pub fnv_step : ℕ → ℕ → ℕ
fnv_step h b = bit_xor h b * fnv_prime % 2 ^ 64

unfoldable pub fnv_from : ℕ → Text → ℕ
fnv_from h [] = h
fnv_from h (b ∷ bs) = fnv_from (fnv_step h b) bs

-- The last line, `int64(h)`, keeps the bits.
unfoldable pub advisory_key : Text → ℤ
unfolding fnv_from wrap64
advisory_key id = wrap64 (pos (fnv_from 0xcbf29ce484222325 id))

abbrev pub find_row : Text → List JobRow → Option JobRow
find_row n [] = none
find_row n (r ∷ rs) = if text_eq r.name n then some r else find_row n rs

-- INSERT … ON CONFLICT (name) DO UPDATE … RETURNING id, by what the table holds under the name.
abbrev pub upsert_found : Text → Text → Text → Time → Option JobRow → Statement Text
upsert_found name expr kind first_fire (some r) uuid rows = (
  r.id,
  (update_where (λ q. text_eq q.name name) (λ q. record q { schedule = expr; schedule_kind = kind })
      rows).1,
)
upsert_found name expr kind first_fire none uuid rows = (
  uuid,
  record {
    id = uuid;
    name = name;
    schedule = expr;
    schedule_kind = kind;
    next_fire_time = first_fire;
  }
      ∷ rows,
)

abbrev pub upsert : Text → Text → Text → Time → Statement Text
upsert name expr kind first_fire uuid rows =
    upsert_found name expr kind first_fire (find_row name rows) uuid rows

-- SET next_fire_time = $2 WHERE id = $1 AND next_fire_time < $2
unfoldable pub advance : Text → Time → Statement ℕ
advance i t uuid rows =
    update_where (λ r. text_eq r.id i && before r.next_fire_time t)
      (λ r. record r { next_fire_time = t }) rows

-- SET next_fire_time = $2 WHERE id = $1 AND $2 < next_fire_time
unfoldable pub pull_back : Text → Time → Statement ℕ
pull_back i t uuid rows =
    update_where (λ r. text_eq r.id i && before t r.next_fire_time)
      (λ r. record r { next_fire_time = t }) rows

abbrev pub select_due : Time → ℤ → Select
select_due now limit = record {
  where_test = λ r. not (before now r.next_fire_time);
  order_by = λ r. r.next_fire_time;
  limit = limit;
}

abbrev pub due_of : JobRow → DueJob
due_of r = record {
  id = r.id;
  name = r.name;
  next_fire_time = r.next_fire_time;
  schedule_expr = r.schedule;
  schedule_kind = r.schedule_kind;
}

-- The loop over `rows.Next`.
unfoldable pub scan_due : List (Result JobRow) → Option Error → Result (List DueJob)
scan_due [] none = ok []
scan_due [] (some e) = err (storage_failed (text "iterate due") e)
scan_due (err e ∷ rs) broken = err (storage_failed (text "scan due") e)
scan_due (ok r ∷ rs) broken = scan_due rs broken >>= λ ds. ok (due_of r ∷ ds)

abbrev status_text : RunOutcome → Text
status_text run_succeeded = text "success"
status_text run_failed = text "failed"
status_text run_dead_letter = text "dead-letter"

-- NULLIF($7, '')
abbrev null_if_empty : Text → Option Text
null_if_empty [] = none
null_if_empty (c ∷ cs) = some (c ∷ cs)

abbrev run_row : RunRecord → RunRow
run_row r = record {
  job_id = r.job_id;
  fire_time = r.fire_time;
  started_at = r.started_at;
  finished_at = r.finished_at;
  attempt = r.attempt;
  status = status_text r.outcome;
  error = null_if_empty r.error;
  node_id = r.node_id;
}

abbrev pub failing : {A P : Type 0} → Text → Result A × P → Result A × P
failing what (r, p) = (wrap_err (storage_failed what) r, p)

module _ {Tx P : Type 0} (server : Server Tx P) (s : PostgresStorage) where
  abbrev pub jobs_table : Text
  jobs_table = qualify s (text "sundial_jobs")

  unfoldable pub ensure_job_pg : {F W : Type 0} → Option (Job F W) → Time → P → Result Text × P
  ensure_job_pg none first_fire p = (err nil_job, p)
  ensure_job_pg (some j) first_fire p =
      failing (text "ensure job")
        (server.exec jobs_table (upsert j.name j.schedule.string j.schedule.kind first_fire) p)

  abbrev pub fetched : Result Rows × P → Result (List DueJob) × P
  fetched (err e, p) = (err (storage_failed (text "fetch due") e), p)
  fetched (ok rows, p) = (scan_due rows.scanned rows.broken, p)

  unfoldable pub fetch_due_pg : Time → ℤ → P → Result (List DueJob) × P
  fetch_due_pg now limit p =
      let n = (if ltb_ℤ (pos 0) limit then limit else pos 32) in
      fetched (server.query jobs_table (select_due now n) p)

  -- The phases of `ClaimJob`, each on what the call before it has returned. Rollback is deferred.
  abbrev pub committed : Tx → Result (Unit {0}) × P → Result Bool × P
  committed tx (err e, p) = (err (storage_failed (text "commit claim") e), server.rollback tx p)
  committed tx (ok _, p) = (ok true, server.rollback tx p)

  abbrev pub advanced : Tx → Result ℕ × P → Result Bool × P
  advanced tx (err e, p) = (err (storage_failed (text "advance next_fire") e), server.rollback tx p)
  advanced tx (ok zero, p) = (ok false, server.rollback tx p)
  advanced tx (ok (suc n), p) = committed tx (server.commit tx p)

  abbrev pub locked : Text → Time → Tx → Result Bool × P → Result Bool × P
  locked i t tx (err e, p) = (err (storage_failed (text "advisory lock") e), server.rollback tx p)
  locked i t tx (ok false, p) = (ok false, server.rollback tx p)
  locked i t tx (ok true, p) = advanced tx (server.exec_in jobs_table (advance i t) tx p)

  abbrev pub begun : Text → Time → Result Tx × P → Result Bool × P
  begun i t (err e, p) = (err (storage_failed (text "begin claim tx") e), p)
  begun i t (ok tx, p) = locked i t tx (server.try_xact_lock (advisory_key i) tx p)

  unfoldable pub claim_job_pg : Text → Time → P → Result Bool × P
  claim_job_pg i t p = begun i t (server.begin p)

  abbrev pub retried : Result ℕ × P → Result (Unit {0}) × P
  retried (err e, p) = (err (storage_failed (text "schedule retry") e), p)
  retried (ok n, p) = (ok tt, p)

  unfoldable pub schedule_retry_pg : Text → Time → P → Result (Unit {0}) × P
  schedule_retry_pg i t p = retried (server.exec jobs_table (pull_back i t) p)

  unfoldable pub record_run_pg : RunRecord → Time → P → Result (Unit {0}) × P
  record_run_pg r now p =
      failing (text "record run")
        (server.insert_run (qualify s (text "sundial_runs")) (run_row (fill_run now r)) p)

  -- PostgresStorage satisfies the interface.
  unfoldable pub postgres_storage : (F W : Type 0) → Storage F W P
  unfolding ensure_job_pg fetch_due_pg claim_job_pg schedule_retry_pg record_run_pg
  postgres_storage F W = record {
    ensure_job = ensure_job_pg;
    fetch_due = fetch_due_pg;
    claim_job = claim_job_pg;
    record_run = record_run_pg;
    schedule_retry = schedule_retry_pg;
  }
