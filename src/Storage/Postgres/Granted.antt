-- ===== src/Storage/Postgres/Granted.antt =====
-- ClaimJob of PostgresStorage (storage.go) when every call of its transaction succeeds.
use sundial.Base.{
  ℕ, zero, suc, ◌≡◌, refl, ap, sym, subst, ◌∙◌, inl, inr, Bool, true, false, Option, none, some,
  List, Text, arith, Option-cases,
}
use sundial.Errors.{Result, ok, err}
use sundial.Clock.{Time, before}
use sundial.Storage.Laws.{Table}
use sundial.Storage.Memory.Claim.{claim_spec}
use sundial.Storage.Memory.Rows.{IsDistinct}
use sundial.Storage.Sql.{JobRow, Server}
use sundial.Storage.ServerLaws.{ServerLaws}
use sundial.Storage.Postgres.{
  PostgresStorage, advisory_key, advance, jobs_table, begun, locked, advanced, committed,
  claim_job_pg,
}
use sundial.Storage.Postgres.Update.{row_ids, view_rows, retime, Retimes, retime_lem}

-- The claim that MemoryStorage implements, but that an id without a row is lost, and no error.
abbrev pub granted_spec : Text → Time → Table → Option Time → Result Bool × Table
granted_spec i t v none = (ok false, v)
granted_spec i t v (some u) = claim_spec i t v (some u)

abbrev pub Agrees : Result Bool × Table → Result Bool → Table → Type 0
Agrees spec r v = (r ≡ spec.0) × ((k : Text) → v k ≡ spec.1 k)

-- The rows that an UPDATE has met decide whether the claim has won.
abbrev met : ℕ → Bool
met zero = false
met (suc n) = true

Retimes-Agrees :
    (i : Text) (t : Time) (rows rows' : List JobRow) (n : ℕ)
    → Retimes (λ w. before w t) i t rows (n, rows')
    → Agrees (granted_spec i t (view_rows rows) (view_rows rows i)) (ok (met n)) (view_rows rows')
Retimes-Agrees i t rows rows' n (inl (z, same, miss)) = elim (Option-cases (view_rows rows i)) [
  | inl e ↦ rw e (ground (arith, z), λ k. ap (λ x. view_rows x k) same)
  | inr (u, e) ↦ rw (e, miss u e) (ground (arith, z), λ k. ap (λ x. view_rows x k) same)
]
Retimes-Agrees i t rows rows' n (inr (one, u, e, b, upd)) = rw (e, b) (ground (arith, one), upd)

module _ {Tx P : Type 0} (server : Server Tx P) (s : PostgresStorage)
    (laws : ServerLaws server (jobs_table server s)) where
  open laws use {jobs, pending}

  -- The lock is granted, and no call fails; `n` rows have met the UPDATE.
  pub record IsGranted (i : Text) (t : Time) (p : P) : Type 0 where
    pub tx : Tx
    pub opened : P
    pub held : P
    pub written : P
    pub n : ℕ
    pub begins : server.begin p ≡ (ok tx, opened)
    pub locks : server.try_xact_lock (advisory_key i) tx opened ≡ (ok true, held)
    pub updates : server.exec_in (jobs_table server s) (advance i t) tx held ≡ (ok n, written)
    pub commits : (server.commit tx written).0 ≡ ok tt

  abbrev Ends : Text → Time → List JobRow → Result Bool × P → Type 0
  Ends i t rows o =
      Agrees (granted_spec i t (view_rows rows) (view_rows rows i)) o.0 (view_rows (jobs o.1))

  committed-Ends :
      (i : Text) (t : Time) (tx : Tx) (p : P) (rows : List JobRow) (r : Result (Unit {0}) × P)
      → server.commit tx p ≡ r
      → r.0 ≡ ok tt
      → Agrees
          (granted_spec i t (view_rows rows) (view_rows rows i))
          (ok true)
          (view_rows (pending tx p))
      → Ends i t rows (committed server s tx r)
  committed-Ends i t tx p rows (err x, p') e c h = absurd cc
  committed-Ends i t tx p rows (ok tt, p') e c h =
      let kept : jobs (server.rollback tx p') ≡ pending tx p =
        laws.rollback-jobs tx p'
        ∙ ap (λ r. jobs r.1) (sym e)
        ∙ laws.commit-ok tx p (ap (λ r. r.0) e) in
      (h.0, λ k. ap (λ x. view_rows x k) kept ∙ h.1 k)

  advanced-Ends :
      (i : Text) (t : Time) (tx : Tx) (p : P) (rows : List JobRow) (n : ℕ)
      → (server.commit tx p).0 ≡ ok tt
      → jobs p ≡ rows
      → Retimes (λ w. before w t) i t rows (n, pending tx p)
      → Ends i t rows (advanced server s tx (ok n, p))
  advanced-Ends i t tx p rows zero c same (inr (one, u, e, b, upd)) = absurd (omega (arith, one))
  advanced-Ends i t tx p rows zero c same (inl (z, unmet, miss)) =
      let h = Retimes-Agrees i t rows rows 0 (inl (refl, refl, miss)) in
      (h.0, λ k. ap (λ x. view_rows x k) (laws.rollback-jobs tx p ∙ same) ∙ h.1 k)
  advanced-Ends i t tx p rows (suc n) c same r =
      committed-Ends i t tx p rows (server.commit tx p) refl c
        (Retimes-Agrees i t rows (pending tx p) (suc n) r)

  -- On a lawful server whose rows have distinct ids, when the lock is granted and no call fails:
  -- ClaimJob answers as the claim of MemoryStorage's specification does, and leaves the same fire times;
  -- an id without a row is not claimed, where MemoryStorage reports an error.
  pub claim_job_pg-granted_spec :
      (i : Text) (t : Time) (p : P)
      → IsDistinct (row_ids (jobs p))
      → IsGranted i t p
      → Agrees
          (granted_spec i t (view_rows (jobs p)) (view_rows (jobs p) i))
          (claim_job_pg server s i t p).0
          (view_rows (jobs (claim_job_pg server s i t p).1))
  unfolding claim_job_pg advance
  claim_job_pg-granted_spec i t p d g =
      let tx = g.tx in
      let lock = laws.lock-jobs (advisory_key i) tx g.opened in
      let opened : jobs g.opened ≡ jobs p = ap (λ r. jobs r.1) (sym g.begins) ∙ laws.begin-jobs p in
      let held : jobs g.held ≡ jobs p = ap (λ r. jobs r.1) (sym g.locks) ∙ lock ∙ opened in
      let written : jobs g.written ≡ jobs p =
        ap (λ r. jobs r.1) (sym g.updates) ∙ laws.exec_in-jobs (advance i t) tx g.held ∙ held in
      let seen : pending tx g.held ≡ jobs p =
        ap (λ r. pending tx r.1) (sym g.locks)
        ∙ laws.lock-pending (advisory_key i) tx g.opened
        ∙ ap (λ r. pending tx r.1) (sym g.begins)
        ∙ laws.begin-pending tx p (ap (λ r. r.0) g.begins) in
      let (u, ran) = laws.exec_in-pending (advance i t) tx g.held g.n (ap (λ r. r.0) g.updates) in
      let hit : retime (λ w. before w t) i t (jobs p) ≡ (g.n, pending tx g.written) =
        ap (λ x. retime (λ w. before w t) i t x) (sym seen)
        ∙ ran
        ∙ ap (λ r. (g.n, pending tx r.1)) g.updates in
      let ends = advanced-Ends i t tx g.written (jobs p) g.n g.commits written (
        subst (Retimes (λ w. before w t) i t (jobs p)) hit
          (retime_lem (λ w. before w t) i t (jobs p) d)) in
      let a = subst (λ r. Ends i t (jobs p) (advanced server s tx r)) (sym g.updates) ends in
      let b = subst (λ r. Ends i t (jobs p) (locked server s i t tx r)) (sym g.locks) a in
      subst (λ r. Ends i t (jobs p) (begun server s i t r)) (sym g.begins) b
