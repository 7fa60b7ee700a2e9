-- ===== src/Storage/Postgres/Lawful.antt =====
-- PostgresStorage (storage.go) meets the contract of the Storage interface.
use sundial.Base.{
  ℕ, suc, ◌≡◌, ap, sym, subst, ◌∙◌, ◌⊎◌, inl, inr, Bool, true, List, Text, if◌then◌else◌, arith, ℤ,
  pos, ltb_ℤ,
}
use sundial.Errors.{Error, Result, ok, err}
use sundial.Clock.{Time, before}
use sundial.Storage.Types.{RunRecord}
use sundial.Storage.Laws.{Claims, Retries, StorageLaws}
use sundial.Storage.Memory.Rows.{IsDistinct}
use sundial.Storage.Sql.{JobRow, Rows, Server}
use sundial.Storage.ServerLaws.{ServerLaws, Executes}
use sundial.Storage.Postgres.{
  PostgresStorage, jobs_table, select_due, pull_back, fetched, retried, fetch_due_pg, claim_job_pg,
  schedule_retry_pg, record_run_pg, postgres_storage,
}
use sundial.Storage.Postgres.Update.{
  row_ids, view_rows, retime, retime-IsDistinct, Retimes, retime_lem,
}
use sundial.Storage.Postgres.Claim.{Claimed, claim_job_pg-Claimed}
use sundial.Storage.Postgres.Fetch.{fetched-Fetches}

pub Claimed-Claims :
    (i : Text) (t : Time) (rows rows' : List JobRow) (r : Result Bool)
    → IsDistinct (row_ids rows)
    → Claimed i t rows r rows'
    → Claims i t (view_rows rows) r (view_rows rows')
Claimed-Claims i t rows rows' r d (inl (lost, same)) =
    inr (inl (lost, λ k. ap (λ x. view_rows x k) same))
Claimed-Claims i t rows rows' r d (inr (answer, n, hit)) =
    by_update answer
      (subst (Retimes (λ w. before w t) i t rows) hit (retime_lem (λ w. before w t) i t rows d))
  where
    by_update :
        (r ≡ ok true) ⊎ ((e : Error) × (r ≡ err e))
        → Retimes (λ w. before w t) i t rows (suc n, rows')
        → Claims i t (view_rows rows) r (view_rows rows')
    by_update a (inl (z, same, miss)) = absurd (omega (arith, z))
    by_update (inl won) (inr (one, u, v, b, upd)) = inl (won, (u, v, ground (arith, b), upd))
    by_update (inr (e, q)) (inr (one, u, v, b, upd)) =
        inr (inr (e, q, (u, v, ground (arith, b), upd)))

pub Claimed-IsDistinct :
    (i : Text) (t : Time) (rows rows' : List JobRow) (r : Result Bool)
    → IsDistinct (row_ids rows)
    → Claimed i t rows r rows'
    → IsDistinct (row_ids rows')
Claimed-IsDistinct i t rows rows' r d (inl (lost, same)) =
    subst (λ x. IsDistinct (row_ids x)) (sym same) d
Claimed-IsDistinct i t rows rows' r d (inr (answer, n, hit)) =
    subst (λ x. IsDistinct (row_ids x.1)) hit (retime-IsDistinct (λ w. before w t) i t rows d)

-- The UPDATE of a retry has run, or it has not.
abbrev pub IsRetried : Text → Time → List JobRow → List JobRow → Type 0
IsRetried i t rows rows' = (rows' ≡ rows) ⊎ ((retime (before t) i t rows).1 ≡ rows')

Executes-IsRetried :
    (i : Text) (t : Time) (rows rows' : List JobRow) (r : Result ℕ)
    → Executes (pull_back i t) rows r rows'
    → IsRetried i t rows rows'
unfolding pull_back
Executes-IsRetried i t rows rows' (ok n) (u, f, e) = inr (ap (λ o. o.1) e)
Executes-IsRetried i t rows rows' (err x) (inl same) = inl same
Executes-IsRetried i t rows rows' (err x) (inr (u, f, e)) = inr e

pub IsRetried-Retries :
    (i : Text) (t : Time) (rows rows' : List JobRow)
    → IsDistinct (row_ids rows)
    → IsRetried i t rows rows'
    → Retries i t (view_rows rows) (view_rows rows')
IsRetried-Retries i t rows rows' d (inl same) = inr (λ k. ap (λ x. view_rows x k) same)
IsRetried-Retries i t rows rows' d (inr e) = by_update (retime_lem (before t) i t rows d)
  where
    by_update :
        Retimes (before t) i t rows (retime (before t) i t rows)
        → Retries i t (view_rows rows) (view_rows rows')
    by_update (inl (z, same, miss)) = inr (λ k. ap (λ x. view_rows x k) (sym e ∙ same))
    by_update (inr (one, u, v, b, upd)) =
        inl (u, v, ground (arith, b), λ k. ap (λ x. view_rows x k) (sym e) ∙ upd k)

pub IsRetried-IsDistinct :
    (i : Text) (t : Time) (rows rows' : List JobRow)
    → IsDistinct (row_ids rows)
    → IsRetried i t rows rows'
    → IsDistinct (row_ids rows')
IsRetried-IsDistinct i t rows rows' d (inl same) = subst (λ x. IsDistinct (row_ids x)) (sym same) d
IsRetried-IsDistinct i t rows rows' d (inr e) =
    subst (λ x. IsDistinct (row_ids x)) e (retime-IsDistinct (before t) i t rows d)

module _ {Tx P : Type 0} (server : Server Tx P) (s : PostgresStorage)
    (laws : ServerLaws server (jobs_table server s)) where
  open laws use {jobs}

  -- FetchDue only reads.
  pub fetch_due_pg-jobs :
      (now : Time) (limit : ℤ) (p : P) → jobs (fetch_due_pg server s now limit p).1 ≡ jobs p
  unfolding fetch_due_pg
  fetch_due_pg-jobs now limit p =
      let n = (if ltb_ℤ (pos 0) limit then limit else pos 32) in
      by_rows (server.query (jobs_table server s) (select_due now n) p)
        (laws.query-jobs (select_due now n) p)
    where
      by_rows : (o : Result Rows × P) → jobs o.1 ≡ jobs p → jobs (fetched server s o).1 ≡ jobs p
      by_rows (ok rows, p') h = h
      by_rows (err x, p') h = h

  pub retry-IsRetried :
      (i : Text) (t : Time) (p : P)
      → IsRetried i t (jobs p) (jobs (schedule_retry_pg server s i t p).1)
  unfolding schedule_retry_pg
  retry-IsRetried i t p =
      by_answer (server.exec (jobs_table server s) (pull_back i t) p)
        (Executes-IsRetried i t (jobs p) _ _ (laws.exec-Executes (pull_back i t) p))
    where
      by_answer :
          (o : Result ℕ × P)
          → IsRetried i t (jobs p) (jobs o.1)
          → IsRetried i t (jobs p) (jobs (retried server s o).1)
      by_answer (ok n, p') h = h
      by_answer (err x, p') h = h

  pub record_run_pg-jobs :
      (r : RunRecord) (now : Time) (p : P) → jobs (record_run_pg server s r now p).1 ≡ jobs p
  unfolding record_run_pg
  record_run_pg-jobs r now p = laws.insert_run-jobs _ _ p

  abbrev pub IsKeyed : P → Type 0
  IsKeyed p = IsDistinct (row_ids (jobs p))

  abbrev keyed : {p p' : P} → jobs p' ≡ jobs p → IsKeyed p → IsKeyed p'
  keyed e d = subst (λ x. IsDistinct (row_ids x)) (sym e) d

  -- The contract holds, with the ids of the rows distinct, as a primary key has it.
  unfoldable pub postgres_laws : (F W : Type 0) → StorageLaws (postgres_storage server s F W)
  unfolding postgres_storage fetch_due_pg
  postgres_laws F W = record {
    Valid = IsKeyed;
    table = λ p. view_rows (jobs p);
    fetch_due-Valid = λ now limit p d. keyed (fetch_due_pg-jobs now limit p) d;
    fetch_due-table = λ now limit p k. ap (λ x. view_rows x k) (fetch_due_pg-jobs now limit p);
    fetch_due-Fetches =
        λ now limit p d. fetched-Fetches server s now _ (jobs p) _ d (laws.query-Selects _ p);
    claim_job-Valid =
        λ i t p d. Claimed-IsDistinct i t _ _ _ d (claim_job_pg-Claimed server s laws i t p);
    claim_job-Claims =
        λ i t p d. Claimed-Claims i t _ _ _ d (claim_job_pg-Claimed server s laws i t p);
    schedule_retry-Valid = λ i t p d. IsRetried-IsDistinct i t _ _ d (retry-IsRetried i t p);
    schedule_retry-Retries = λ i t p d. IsRetried-Retries i t _ _ d (retry-IsRetried i t p);
    record_run-Valid = λ r now p d. keyed (record_run_pg-jobs r now p) d;
    record_run-table = λ r now p k. ap (λ x. view_rows x k) (record_run_pg-jobs r now p);
  }

  -- On a lawful server whose rows have distinct ids: ClaimJob wins only if the row's fire time was
  -- earlier, and then moves it; otherwise it changes no fire time, but that a claim whose answer is lost
  -- may have moved it. ScheduleRetry changes no fire time, or pulls the row's back.
  pub postgres_updates :
      (i : Text) (t : Time) (p : P)
      → IsKeyed p
      → Claims i t
          (view_rows (jobs p))
          (claim_job_pg server s i t p).0
          (view_rows (jobs (claim_job_pg server s i t p).1))
        × Retries i t (view_rows (jobs p)) (view_rows (jobs (schedule_retry_pg server s i t p).1))
  postgres_updates i t p d = (
    Claimed-Claims i t _ _ _ d (claim_job_pg-Claimed server s laws i t p),
    IsRetried-Retries i t _ _ d (retry-IsRetried i t p),
  )
