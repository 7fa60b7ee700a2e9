-- ===== src/Dispatcher/Cluster/Ticks.antt =====
-- What a tick (dispatcher.go) of a node with jobs that are not retried does to one fire time of one job.
use sundial.Base.{
  ◌+◌, ◌≤◌, ◌≡◌, refl, ap, sym, subst, inl, inr, pos, Bool, true, false, ◌&&◌, List, [], ◌∷◌, ◌++◌,
  Option, none, some, Text, text_eq, if◌then◌else◌, arith, All, Bool-cases, eqb_ℤ, if_both,
}
use sundial.Errors.{Result, ok, err}
use sundial.Clock.{Time, is_zero}
use sundial.Job.{Context, Job}
use sundial.Storage.Types.{DueJob}
use sundial.Storage.Laws.{StorageLaws, Claims, is_won}
use sundial.Storage.Race.{HasPassed, passed_step, passed_lost, counted_passed}
use sundial.Dispatcher.State.{Env, State, Task, lookup, read_clock}
use sundial.Dispatcher.Load.{compute_next_fire}
use sundial.Dispatcher.Dispatch.{
  started, skip_to, run_all_missed, dispatch_at, dispatch_job, dispatch_due, maybe_dispatch,
  dispatch_all, tick, is_missed, is_skip, is_run_all, is_follower,
}
use sundial.Dispatcher.InFlight.{run_all_missed-Same, skip_to-Same}
use sundial.Dispatcher.Valid.{maybe_dispatch-Valid}
use sundial.Dispatcher.Cluster.{starts, Runs, Runs-trans}
use sundial.Dispatcher.Cluster.Quiet.{NotRetried, advance_past-HasPast, run_all_missed-HasPast}

starts-append :
    {F W : Type 0} (i : Text) (t : Time) (xs : List (Task F W)) (x : Task F W)
    → starts i t (xs ++ x ∷ [])
      ≡ starts i t xs + (if text_eq x.due.id i && eqb_ℤ x.claimed_for t then 1 else 0)
unfolding starts
starts-append i t [] x = ground arith
starts-append i t (y ∷ xs) x = ground (arith, starts-append i t xs x)

pub lookup-All :
    {F W : Type 0} (P : Job F W → Type 0) (n : Text) (js : List (Job F W)) (j : Job F W)
    → All P js
    → lookup n js ≡ some j
    → P j
unfolding lookup
lookup-All P n [] j h e = absurd cc
lookup-All P n (x ∷ js) j h e = elim (Bool-cases (text_eq x.name n)) [
  | inl q ↦ let same : x ≡ j = ground (arith, q, e) in subst P same h.0
  | inr q ↦ lookup-All P n js j h.1 (ground (arith, q, e))
]

module _ {F W S L : Type 0} (env : Env F W S L) (laws : StorageLaws env.storage_ops) (i : Text)
    (t : Time) where
  open laws use {Valid, table, claim_job-Claims, fetch_due-Valid, fetch_due-table}

  Runs-refl : (d : State F W S L) → Runs laws i t d d
  Runs-refl d = (λ h. h, inl (omega arith))

  started-Runs :
      (job : Job F W) (dj : DueJob) (u : Time) (r : Result Bool) (s : S) (d : State F W S L)
      → Claims dj.id u (table d.storage) r (table s)
      → Runs laws i t d (started env job dj u (r, record d { storage = s }))
  unfolding is_won
  started-Runs job dj u (err e) s d c =
      (passed_step i dj.id t u (table d.storage) (table s) (err e) c, inl (omega arith))
  started-Runs job dj u (ok false) s d c =
      (passed_step i dj.id t u (table d.storage) (table s) (ok false) c, inl (omega arith))
  started-Runs job dj u (ok true) s d c =
      let v = table d.storage in
      let x : Task F W = record { job = job; due = dj; claimed_for = u } in
      let more = starts-append i t d.spawned x in
      (
        passed_step i dj.id t u v (table s) (ok true) c,
        elim (Bool-cases (text_eq dj.id i && eqb_ℤ u t)) [
          | inl e ↦
              let counts : (text_eq dj.id i && eqb_ℤ u t && true) ≡ true = ground (arith, e) in
              inr (
                ground (arith, e, more),
                λ h. ground (arith, e, passed_lost i dj.id t u v (table s) (ok true) c h),
                counted_passed i dj.id t u v (table s) (ok true) c counts,
              )
          | inr e ↦ inl (ground (arith, e, more))
        ],
      )

  module _ (ctx : Context) (once : All NotRetried env.registry) where
    pub maybe_dispatch-Runs :
        (dj : DueJob) (now : Time) (d : State F W S L)
        → Valid d.storage
        → Runs laws i t d (maybe_dispatch env ctx dj now d)
    unfolding maybe_dispatch
    maybe_dispatch-Runs dj now d v = by_job (lookup dj.name env.registry) refl
      where
        P : State F W S L → Type 0
        P = Runs laws i t d

        same_starts :
            (d' : State F W S L)
            → d'.spawned ≡ d.spawned
            → starts i t d'.spawned ≤ starts i t d.spawned
        same_starts d' e = omega (arith, ap (starts i t) e)

        skipped : (r : Result Time) → P (skip_to env dj r d)
        skipped (err e) = Runs-refl d
        skipped (ok u) = (
          advance_past-HasPast env laws i t dj u d v,
          inl (same_starts (skip_to env dj (ok u) d) (skip_to-Same env dj (ok u) d).1),
        )

        by_next :
            (job : Job F W) (r : Result Time)
            → NotRetried job
            → P (dispatch_at env ctx job dj now r d)
        by_next job (err e) q = Runs-refl d
        by_next job (ok u) q =
            let missed = is_missed env.opts.tick_interval dj now in
            let answer = env.storage_ops.claim_job dj.id u d.storage in
            if_both P (is_zero u) (Runs-refl d) (
              if_both P (missed && is_skip job.options.missed_fire)
                (skipped (compute_next_fire env.formats dj now))
                (if_both P (missed && is_run_all job.options.missed_fire)
                  (if_both P (is_follower env d.leader) (Runs-refl d) (
                    run_all_missed-HasPast env laws i t ctx job dj now d q v,
                    inl (
                        same_starts (run_all_missed env ctx job dj now d)
                          (run_all_missed-Same env ctx job dj now d).1),
                  ))
                  (started-Runs job dj u answer.0 answer.1 d
                    (claim_job-Claims dj.id u d.storage v))))

        by_job :
            (o : Option (Job F W))
            → lookup dj.name env.registry ≡ o
            → P (dispatch_job env ctx o dj now d)
        by_job none l = Runs-refl d
        by_job (some job) l =
            if_both P (job.options.leader_only && is_follower env d.leader) (Runs-refl d) (
              by_next job (compute_next_fire env.formats dj now)
                (lookup-All NotRetried dj.name env.registry job once l))

    dispatch_all-Runs :
        (djs : List DueJob) (now : Time) (d : State F W S L)
        → Valid d.storage
        → Runs laws i t d (dispatch_all env ctx djs now d)
    unfolding dispatch_all
    dispatch_all-Runs [] now d v = Runs-refl d
    dispatch_all-Runs (dj ∷ djs) now d v =
        let d' = maybe_dispatch env ctx dj now d in
        Runs-trans laws i t d d' (dispatch_all env ctx djs now d') (maybe_dispatch-Runs dj now d v)
          (dispatch_all-Runs djs now d' (maybe_dispatch-Valid env laws ctx dj now d v))

    pub tick-Runs : (d : State F W S L) → Valid d.storage → Runs laws i t d (tick env ctx d)
    unfolding tick read_clock
    tick-Runs d v =
        let (now, w) = env.world_ops.now d.world in
        let fetched = env.storage_ops.fetch_due now (pos 64) d.storage in
        let d' : State F W S L = record d { storage = fetched.1; world = w } in
        let seen : Runs laws i t d d' = (
          subst (HasPassed i t) (sym (fetch_due-table now (pos 64) d.storage i)),
          inl (omega arith),
        ) in
        Runs-trans laws i t d d' (dispatch_due env ctx now fetched.0 d') seen
          (by_rows fetched.0 d' now (fetch_due-Valid now (pos 64) d.storage v))
      where
        by_rows :
            (r : Result (List DueJob)) (x : State F W S L) (now : Time)
            → Valid x.storage
            → Runs laws i t x (dispatch_due env ctx now r x)
        by_rows (err e) x now h = Runs-refl x
        by_rows (ok due) x now h = dispatch_all-Runs due now x h
