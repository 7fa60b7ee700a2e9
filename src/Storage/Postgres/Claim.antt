-- ===== src/Storage/Postgres/Claim.antt =====
-- ClaimJob of PostgresStorage (storage.go), call by call.
use sundial.Base.{
  ℕ, zero, suc, ◌≡◌, ◌≢◌, refl, ap, sym, subst, ◌∙◌, ◌⊎◌, inl, inr, Bool, true, false, List, Text,
}
use sundial.Errors.{Error, Result, ok, err}
use sundial.Clock.{Time, before}
use sundial.Storage.Sql.{JobRow, Server}
use sundial.Storage.ServerLaws.{ServerLaws}
use sundial.Storage.Postgres.{
  PostgresStorage, advisory_key, advance, jobs_table, begun, locked, advanced, committed,
  claim_job_pg,
}
use sundial.Storage.Postgres.Update.{retime}

-- The rows are as they were, or the UPDATE has met its row; then the claim has won, or the answer to
-- the commit was lost.
abbrev pub Claimed : Text → Time → List JobRow → Result Bool → List JobRow → Type 0
Claimed i t rows r rows' =
    ((r ≢ ok true) × (rows' ≡ rows))
    ⊎ (((r ≡ ok true) ⊎ ((e : Error) × (r ≡ err e)))
        × (n : ℕ) × (retime (λ w. before w t) i t rows ≡ (suc n, rows')))

module _ {Tx P : Type 0} (server : Server Tx P) (s : PostgresStorage)
    (laws : ServerLaws server (jobs_table server s)) where
  open laws use {jobs, pending}

  abbrev Out : Text → Time → List JobRow → Result Bool × P → Type 0
  Out i t rows o = Claimed i t rows o.0 (jobs o.1)

  committed-Claimed :
      (i : Text) (t : Time) (tx : Tx) (n : ℕ) (p : P) (rows : List JobRow)
      (r : Result (Unit {0}) × P)
      → server.commit tx p ≡ r
      → jobs p ≡ rows
      → retime (λ w. before w t) i t rows ≡ (suc n, pending tx p)
      → Out i t rows (committed server s tx r)
  committed-Claimed i t tx n p rows (ok tt, p') e same hit =
      let won = ap (λ r. r.0) e in
      let kept : jobs (server.rollback tx p') ≡ pending tx p =
        laws.rollback-jobs tx p'
        ∙ subst (λ r. jobs r.1 ≡ pending tx p) e (laws.commit-ok tx p won) in
      inr (inl refl, n, hit ∙ ap (λ x. (suc n, x)) (sym kept))
  committed-Claimed i t tx n p rows (err x, p') e same hit =
      by_commit (laws.commit-err x tx p (ap (λ r. r.0) e))
    where
      after : jobs (server.rollback tx p') ≡ jobs (server.commit tx p).1
      after = laws.rollback-jobs tx p' ∙ ap (λ r. jobs r.1) (sym e)

      by_commit :
          (jobs (server.commit tx p).1 ≡ jobs p) ⊎ (jobs (server.commit tx p).1 ≡ pending tx p)
          → Out i t rows (committed server s tx (err x, p'))
      by_commit (inl q) = inl (λ h. cc, after ∙ q ∙ same)
      by_commit (inr q) = inr (inr (_, refl), n, hit ∙ ap (λ y. (suc n, y)) (sym (after ∙ q)))

  advanced-Claimed :
      (i : Text) (t : Time) (tx : Tx) (p : P) (rows : List JobRow) (r : Result ℕ × P)
      → server.exec_in (jobs_table server s) (advance i t) tx p ≡ r
      → jobs p ≡ rows
      → pending tx p ≡ rows
      → Out i t rows (advanced server s tx r)
  unfolding advance
  advanced-Claimed i t tx p rows (err x, p') e same seen = inl (
    λ h. cc,
    laws.rollback-jobs tx p' ∙ ap (λ r. jobs r.1) (sym e) ∙ laws.exec_in-jobs _ tx p ∙ same,
  )
  advanced-Claimed i t tx p rows (ok zero, p') e same seen = inl (
    λ h. cc,
    laws.rollback-jobs tx p' ∙ ap (λ r. jobs r.1) (sym e) ∙ laws.exec_in-jobs _ tx p ∙ same,
  )
  advanced-Claimed i t tx p rows (ok (suc n), p') e same seen =
      let (u, hit) = laws.exec_in-pending (advance i t) tx p (suc n) (ap (λ r. r.0) e) in
      committed-Claimed i t tx n p' rows (server.commit tx p') refl
        (ap (λ r. jobs r.1) (sym e) ∙ laws.exec_in-jobs _ tx p ∙ same)
        (ap (λ x. retime (λ w. before w t) i t x) (sym seen)
          ∙ hit
          ∙ ap (λ r. (suc n, pending tx r.1)) e)

  locked-Claimed :
      (i : Text) (t : Time) (tx : Tx) (p : P) (rows : List JobRow) (r : Result Bool × P)
      → server.try_xact_lock (advisory_key i) tx p ≡ r
      → jobs p ≡ rows
      → pending tx p ≡ rows
      → Out i t rows (locked server s i t tx r)
  locked-Claimed i t tx p rows (err x, p') e same seen = inl (
    λ h. cc,
    laws.rollback-jobs tx p' ∙ ap (λ r. jobs r.1) (sym e) ∙ laws.lock-jobs _ tx p ∙ same,
  )
  locked-Claimed i t tx p rows (ok false, p') e same seen = inl (
    λ h. cc,
    laws.rollback-jobs tx p' ∙ ap (λ r. jobs r.1) (sym e) ∙ laws.lock-jobs _ tx p ∙ same,
  )
  locked-Claimed i t tx p rows (ok true, p') e same seen =
      advanced-Claimed i t tx p' rows (server.exec_in (jobs_table server s) (advance i t) tx p')
        refl (ap (λ r. jobs r.1) (sym e) ∙ laws.lock-jobs _ tx p ∙ same)
        (ap (λ r. pending tx r.1) (sym e) ∙ laws.lock-pending _ tx p ∙ seen)

  pub claim_job_pg-Claimed :
      (i : Text) (t : Time) (p : P)
      → Claimed i t (jobs p) (claim_job_pg server s i t p).0 (jobs (claim_job_pg server s i t p).1)
  unfolding claim_job_pg
  claim_job_pg-Claimed i t p = by_begin (server.begin p) refl
    where
      by_begin : (r : Result Tx × P) → server.begin p ≡ r → Out i t (jobs p) (begun server s i t r)
      by_begin (err x, p') e = inl (λ h. cc, ap (λ r. jobs r.1) (sym e) ∙ laws.begin-jobs p)
      by_begin (ok tx, p') e =
          locked-Claimed i t tx p' (jobs p) (server.try_xact_lock (advisory_key i) tx p') refl
            (ap (λ r. jobs r.1) (sym e) ∙ laws.begin-jobs p)
            (ap (λ r. pending tx r.1) (sym e) ∙ laws.begin-pending tx p (ap (λ r. r.0) e))
