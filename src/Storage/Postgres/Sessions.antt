-- ===== src/Storage/Postgres/Sessions.antt =====
-- Transactions of ClaimJob of PostgresStorage (storage.go) that overlap: a claim call by call, and the
-- claims of one job by several sessions over one server, one call at a time.
pub mod Frame
pub mod Quit
pub mod Commit
pub mod Calls
pub mod Exclusive
pub mod Alone
use sundial.Base.{
  ℕ, zero, suc, ◌==◌, ◌≡◌, ◌≢◌, refl, ◌⊎◌, Bool, true, false, List, [], ◌∷◌, Option, none, some,
  Text, text, if◌then◌else◌, ◌<ℤ◌, ◌≤◌, ◌-◌, ◌∙◌, sym, ap, arith,
}
use sundial.Errors.{Error, Result, ok, err, storage_failed}
use sundial.Clock.{Time}
use sundial.Storage.Sql.{Server}
use sundial.Storage.Postgres.{
  PostgresStorage, advisory_key, advance, jobs_table, begun, locked, advanced, committed,
  claim_job_pg,
}

-- Where a claim stands: before its `Begin`, its lock, its UPDATE or its `Commit`, or at its end.
pub data Phase (Tx : Type 0) : Type 0 where
  waiting : Phase Tx
  opened holding written : Tx → Phase Tx
  over : Result Bool → Phase Tx

module _ {Tx P : Type 0} (server : Server Tx P) (s : PostgresStorage) where
  abbrev pub ended : Result Bool × P → Phase Tx × P
  ended (r, p) = (over r, p)

  -- What follows a call that has returned, up to the next call. Rollback is deferred.
  abbrev pub on_begin : Result Tx × P → Phase Tx × P
  on_begin (err e, p) = (over (err (storage_failed (text "begin claim tx") e)), p)
  on_begin (ok tx, p) = (opened tx, p)

  abbrev pub on_lock : Tx → Result Bool × P → Phase Tx × P
  on_lock tx (err e, p) =
      (over (err (storage_failed (text "advisory lock") e)), server.rollback tx p)
  on_lock tx (ok false, p) = (over (ok false), server.rollback tx p)
  on_lock tx (ok true, p) = (holding tx, p)

  abbrev pub on_update : Tx → Result ℕ × P → Phase Tx × P
  on_update tx (err e, p) =
      (over (err (storage_failed (text "advance next_fire") e)), server.rollback tx p)
  on_update tx (ok zero, p) = (over (ok false), server.rollback tx p)
  on_update tx (ok (suc n), p) = (written tx, p)

  -- The next call of a claim of job `i` for fire time `t`.
  unfoldable pub next_call : Text → Time → Phase Tx → P → Phase Tx × P
  next_call i t waiting p = on_begin (server.begin p)
  next_call i t (opened tx) p = on_lock tx (server.try_xact_lock (advisory_key i) tx p)
  next_call i t (holding tx) p =
      on_update tx (server.exec_in (jobs_table server s) (advance i t) tx p)
  next_call i t (written tx) p = ended (committed server s tx (server.commit tx p))
  next_call i t (over r) p = (over r, p)

  unfoldable pub next_calls : ℕ → Text → Time → Phase Tx × P → Phase Tx × P
  next_calls zero i t o = o
  next_calls (suc n) i t o = next_calls n i t (next_call i t o.0 o.1)

  -- What the claim comes to, if no other session runs.
  abbrev finish : Text → Time → Phase Tx × P → Result Bool × P
  finish i t (waiting, p) = begun server s i t (server.begin p)
  finish i t (opened tx, p) = locked server s i t tx (server.try_xact_lock (advisory_key i) tx p)
  finish i t (holding tx, p) =
      advanced server s tx (server.exec_in (jobs_table server s) (advance i t) tx p)
  finish i t (written tx, p) = committed server s tx (server.commit tx p)
  finish i t (over r, p) = (r, p)

  finish-next_call :
      (i : Text) (t : Time) (o : Phase Tx × P) → finish i t (next_call i t o.0 o.1) ≡ finish i t o
  unfolding next_call
  finish-next_call i t (waiting, p) = by_begin (server.begin p)
    where
      by_begin : (r : Result Tx × P) → finish i t (on_begin r) ≡ begun server s i t r
      by_begin (err e, q) = refl
      by_begin (ok tx, q) = refl
  finish-next_call i t (opened tx, p) = by_lock (server.try_xact_lock (advisory_key i) tx p)
    where
      by_lock : (r : Result Bool × P) → finish i t (on_lock tx r) ≡ locked server s i t tx r
      by_lock (err e, q) = refl
      by_lock (ok false, q) = refl
      by_lock (ok true, q) = refl
  finish-next_call i t (holding tx, p) =
      by_update (server.exec_in (jobs_table server s) (advance i t) tx p)
    where
      by_update : (r : Result ℕ × P) → finish i t (on_update tx r) ≡ advanced server s tx r
      by_update (err e, q) = refl
      by_update (ok zero, q) = refl
      by_update (ok (suc n), q) = refl
  finish-next_call i t (written tx, p) = refl
  finish-next_call i t (over r, p) = refl

  -- The calls that are left at most.
  abbrev left : Phase Tx → ℕ
  left waiting = 4
  left (opened tx) = 3
  left (holding tx) = 2
  left (written tx) = 1
  left (over r) = 0

  left-next_call :
      (i : Text) (t : Time) (ph : Phase Tx) (p : P) → left (next_call i t ph p).0 ≤ left ph - 1
  unfolding next_call
  left-next_call i t waiting p = by_begin (server.begin p)
    where
      by_begin : (r : Result Tx × P) → left (on_begin r).0 ≤ 3
      by_begin (err e, q) = omega arith
      by_begin (ok tx, q) = omega arith
  left-next_call i t (opened tx) p = by_lock (server.try_xact_lock (advisory_key i) tx p)
    where
      by_lock : (r : Result Bool × P) → left (on_lock tx r).0 ≤ 2
      by_lock (err e, q) = omega arith
      by_lock (ok false, q) = omega arith
      by_lock (ok true, q) = omega arith
  left-next_call i t (holding tx) p =
      by_update (server.exec_in (jobs_table server s) (advance i t) tx p)
    where
      by_update : (r : Result ℕ × P) → left (on_update tx r).0 ≤ 1
      by_update (err e, q) = omega arith
      by_update (ok zero, q) = omega arith
      by_update (ok (suc n), q) = omega arith
  left-next_call i t (written tx) p = omega arith
  left-next_call i t (over r) p = omega arith

  calls-finish :
      (n : ℕ) (i : Text) (t : Time) (o : Phase Tx × P)
      → left o.0 ≤ n
      → next_calls n i t o ≡ ended (finish i t o)
  unfolding next_calls
  calls-finish zero i t (over r, p) h = refl
  calls-finish zero i t (waiting, p) h = absurd (omega arith)
  calls-finish zero i t (opened tx, p) h = absurd (omega arith)
  calls-finish zero i t (holding tx, p) h = absurd (omega arith)
  calls-finish zero i t (written tx, p) h = absurd (omega arith)
  calls-finish (suc n) i t o h =
      calls-finish n i t (next_call i t o.0 o.1) (omega (arith, left-next_call i t o.0 o.1))
      ∙ ap ended (finish-next_call i t o)

  -- With enough calls, the claim in calls and the claim in one step are the same.
  pub next_calls-claim_job_pg :
      (n : ℕ) (i : Text) (t : Time) (p : P)
      → 4 ≤ n
      → next_calls n i t (waiting, p) ≡ ended (claim_job_pg server s i t p)
  unfolding claim_job_pg
  next_calls-claim_job_pg n i t p h = calls-finish n i t (waiting, p) (omega arith)

-- The sessions by their numbers: the fire time that each asks for, and where its claim stands.
pub record Sessions (Tx P : Type 0) : Type 0 where
  pub asked : ℕ → Time
  pub phases : ℕ → Phase Tx
  pub server_state : P

abbrev pub put : {Tx : Type 0} → ℕ → Phase Tx → (ℕ → Phase Tx) → ℕ → Phase Tx
put k ph f j = if k == j then ph else f j

module _ {Tx P : Type 0} (server : Server Tx P) (s : PostgresStorage) (i : Text) where
  abbrev pub moved : ℕ → Sessions Tx P → Phase Tx × P → Sessions Tx P
  moved k n (ph, p) = record n { phases = put k ph n.phases; server_state = p }

  -- One call of one session.
  unfoldable pub session_step : Sessions Tx P → ℕ → Sessions Tx P
  session_step n k = moved k n (next_call server s i (n.asked k) (n.phases k) n.server_state)

  unfoldable pub session_steps : Sessions Tx P → List ℕ → Sessions Tx P
  session_steps n [] = n
  session_steps n (k ∷ ks) = session_steps (session_step n k) ks

  abbrev pub fresh_sessions : (ℕ → Time) → P → Sessions Tx P
  fresh_sessions asked p = record { asked = asked; phases = λ k. waiting; server_state = p }
