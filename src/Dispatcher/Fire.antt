-- ===== src/Dispatcher/Fire.antt =====
-- dispatcher.go: when a handler is started, on one node and on two that share a storage.
use sundial.Base.{
  ◌≡◌, ◌≢◌, refl, ap, sym, subst, ◌∙◌, ◌⊎◌, inl, inr, ◌<ℤ◌, Bool, true, false, ◌&&◌, List, [], ◌∷◌,
  ◌++◌, Option, none, some, text_eq_refl, arith, if_both, if◌then◌else◌,
}
use sundial.Errors.{Result, ok, err}
use sundial.Clock.{Time, is_zero}
use sundial.Job.{Context, Job, MissedFirePolicy, run_once, skip, run_all}
use sundial.Storage.Types.{DueJob}
use sundial.Storage.Laws.{StorageLaws, Claims}
use sundial.Dispatcher.Load.{compute_next_fire}
use sundial.Dispatcher.State.{Env, State, Options, lookup}
use sundial.Dispatcher.Dispatch.{
  started, claim, skip_to, run_all_missed, dispatch_at, dispatch_job, maybe_dispatch, is_missed,
  is_skip, is_run_all, is_follower,
}
use sundial.Dispatcher.Valid.{maybe_dispatch-Valid}
use sundial.Dispatcher.InFlight.{run_all_missed-Same, skip_to-Same}

module _ {F W S L : Type 0} (env : Env F W S L) (laws : StorageLaws env.storage_ops) where
  open laws use {Valid, table, claim_job-Claims}

  -- A goroutine for the job has been started, and its row was moved from `u` to `t` for it.
  abbrev pub HasFired : DueJob → Time → State F W S L → State F W S L → Type 0
  HasFired dj t d d' =
      (job : Job F W) × (u : Time) × (lookup dj.name env.registry ≡ some job)
      × (d'.spawned ≡ d.spawned ++ record { job = job; due = dj; claimed_for = t } ∷ [])
      × (table d.storage dj.id ≡ some u)
      × (u <ℤ t)
      × (table d'.storage dj.id ≡ some t)

  -- What a due row does when all its missed fires are run.
  abbrev pub Replays : Context → DueJob → Time → State F W S L → State F W S L → Type 0
  Replays ctx dj now d d' =
      (job : Job F W) × (lookup dj.name env.registry ≡ some job)
      × (job.options.missed_fire ≡ run_all)
      × (is_missed env.opts.tick_interval dj now ≡ true)
      × (is_follower env d.leader ≡ false)
      × (d' ≡ run_all_missed env ctx job dj now d)

  -- What one due row can do to the goroutines and to the world that the handlers read and change.
  abbrev pub Fires : Context → DueJob → Time → State F W S L → State F W S L → Type 0
  Fires ctx dj now d d' =
      ((d'.spawned ≡ d.spawned) × (d'.world ≡ d.world))
      ⊎ ((d'.spawned ≡ d.spawned) × Replays ctx dj now d d')
      ⊎ ((t : Time) × (compute_next_fire env.formats dj now ≡ ok t)
          × HasFired dj t d d'
          × (d'.world ≡ d.world))

  started-Fires :
      (ctx : Context) (job : Job F W) (dj : DueJob) (now t : Time) (r : Result Bool) (s : S)
      → (d : State F W S L) → lookup dj.name env.registry ≡ some job
      → compute_next_fire env.formats dj now ≡ ok t
      → Claims dj.id t (table d.storage) r (table s)
      → Fires ctx dj now d (started env job dj t (r, record d { storage = s }))
  started-Fires ctx job dj now t (err e) s d l n c = inl (refl, refl)
  started-Fires ctx job dj now t (ok false) s d l n c = inl (refl, refl)
  started-Fires ctx job dj now t (ok true) s d l n (inr (inl (lost, same))) = absurd (lost refl)
  started-Fires ctx job dj now t (ok true) s d l n (inr (inr (x, q, moves))) = absurd cc
  started-Fires ctx job dj now t (ok true) s d l n (inl (won, (u, e, lt, upd))) =
      inr (inr (t, n, (job, u, l, refl, e, lt, upd dj.id ∙ (rw (text_eq_refl dj.id) refl)), refl))

  world-skip_to :
      (dj : DueJob) (r : Result Time) (d : State F W S L) → (skip_to env dj r d).world ≡ d.world
  world-skip_to dj (err e) d = refl
  world-skip_to dj (ok t) d = ground arith

  both_true : (a b : Bool) → a && b ≡ true → (a ≡ true) × (b ≡ true)
  both_true a b h = ground arith

  is_run_all-true : (p : MissedFirePolicy) → is_run_all p ≡ true → p ≡ run_all
  is_run_all-true run_once h = cc
  is_run_all-true skip h = cc
  is_run_all-true run_all h = refl

  pub maybe_dispatch-Fires :
      (ctx : Context) (dj : DueJob) (now : Time) (d : State F W S L)
      → Valid d.storage
      → Fires ctx dj now d (maybe_dispatch env ctx dj now d)
  unfolding maybe_dispatch
  maybe_dispatch-Fires ctx dj now d v = by_job (lookup dj.name env.registry) refl
    where
      P : State F W S L → Type 0
      P = Fires ctx dj now d

      missed : Bool
      missed = is_missed env.opts.tick_interval dj now

      by_leader :
          (job : Job F W) (follower : Bool)
          → lookup dj.name env.registry ≡ some job
          → (missed ≡ true) × (is_run_all job.options.missed_fire ≡ true)
          → is_follower env d.leader ≡ follower
          → P (if follower then d else run_all_missed env ctx job dj now d)
      by_leader job true l m f = inl (refl, refl)
      by_leader job false l m f =
          let (_, same, _, _) = run_all_missed-Same env ctx job dj now d in
          inr (inl (same, (job, l, is_run_all-true job.options.missed_fire m.1, m.0, f, refl)))

      by_policy :
          (job : Job F W) (t : Time) (all : Bool)
          → lookup dj.name env.registry ≡ some job
          → compute_next_fire env.formats dj now ≡ ok t
          → missed && is_run_all job.options.missed_fire ≡ all
          → P (
              if all
              then (if is_follower env d.leader then d else run_all_missed env ctx job dj now d)
              else started env job dj t (claim env dj t d))
      by_policy job t true l c m =
          by_leader job (is_follower env d.leader) l
            (both_true missed (is_run_all job.options.missed_fire) m) refl
      by_policy job t false l c m =
          let answer = env.storage_ops.claim_job dj.id t d.storage in
          started-Fires ctx job dj now t answer.0 answer.1 d l c
            (claim_job-Claims dj.id t d.storage v)

      by_next :
          (job : Job F W) (r : Result Time)
          → lookup dj.name env.registry ≡ some job
          → compute_next_fire env.formats dj now ≡ r
          → P (dispatch_at env ctx job dj now r d)
      by_next job (err e) l c = inl (refl, refl)
      by_next job (ok t) l c =
          let r = compute_next_fire env.formats dj now in
          if_both P (is_zero t) (inl (refl, refl)) (
            if_both P (missed && is_skip job.options.missed_fire)
              (inl ((skip_to-Same env dj r d).1, world-skip_to dj r d))
              (by_policy job t (missed && is_run_all job.options.missed_fire) l c refl))

      by_job :
          (o : Option (Job F W))
          → lookup dj.name env.registry ≡ o
          → P (dispatch_job env ctx o dj now d)
      by_job none l = inl (refl, refl)
      by_job (some job) l =
          if_both P (job.options.leader_only && is_follower env d.leader) (inl (refl, refl))
            (by_next job (compute_next_fire env.formats dj now) l refl)

-- No goroutine is started, and no handler is run.
abbrev pub IsIdle : {F W S L : Type 0} → State F W S L → State F W S L → Type 0
IsIdle d d' = (d'.spawned ≡ d.spawned) × (d'.world ≡ d.world)

-- The job, if there is one, has another policy than RunAll.
abbrev pub IsNotReplayed : {F W : Type 0} → Option (Job F W) → Type 0
IsNotReplayed none = Unit
IsNotReplayed (some job) = job.options.missed_fire ≢ run_all

-- Another node of the cluster: the same code, storage and libraries, its own jobs and options.
abbrev pub node : {F W S L : Type 0} → Env F W S L → List (Job F W) → Options → Env F W S L
node env registry opts = record env { registry = registry; opts = opts }

module _ {F W S L : Type 0} (env : Env F W S L) (laws : StorageLaws env.storage_ops) where
  -- With no RunAll policy for the row's job, a due row starts a goroutine after a claim or nothing.
  IsIdle-or_fired :
      (ctx : Context) (dj : DueJob) (now : Time) (d d' : State F W S L)
      → IsNotReplayed (lookup dj.name env.registry)
      → Fires env laws ctx dj now d d'
      → IsIdle d d'
        ⊎ ((t : Time) × (compute_next_fire env.formats dj now ≡ ok t) × HasFired env laws dj t d d')
  IsIdle-or_fired ctx dj now d d' n (inl idle) = inl idle
  IsIdle-or_fired ctx dj now d d' n (inr (inl (_, (job, l, all, _, _, _)))) =
      absurd (subst IsNotReplayed l n all)
  IsIdle-or_fired ctx dj now d d' n (inr (inr (t, c, h, _))) = inr (t, c, h)

module _ {F W S L : Type 0} (env : Env F W S L) (laws : StorageLaws env.storage_ops) where
  open laws use {Valid, table, claim_job-Valid}

  -- On a storage that keeps the contract and is valid: two nodes that fetched the same due row and
  -- compute the same next fire for it, and have no job with the RunAll policy for it, dispatch it one
  -- after the other on the shared storage; one of the two, at least, starts no goroutine and runs no
  -- handler.
  pub same_fire_once :
      (ctx : Context) (dj : DueJob) (now later t : Time) (d e : State F W S L)
      → (registry : List (Job F W)) (opts : Options) → Valid d.storage
      → IsNotReplayed (lookup dj.name env.registry)
      → IsNotReplayed (lookup dj.name registry)
      → compute_next_fire env.formats dj now ≡ ok t
      → compute_next_fire env.formats dj later ≡ ok t
      → e.storage ≡ (maybe_dispatch env ctx dj now d).storage
      → IsIdle d (maybe_dispatch env ctx dj now d)
        ⊎ IsIdle e (maybe_dispatch (node env registry opts) ctx dj later e)
  same_fire_once ctx dj now later t d e registry opts v n n' c c' shared =
      let other = node env registry opts in
      let d' = maybe_dispatch env ctx dj now d in
      let e' = maybe_dispatch other ctx dj later e in
      both
        (IsIdle-or_fired env laws ctx dj now d d' n (maybe_dispatch-Fires env laws ctx dj now d v))
        (IsIdle-or_fired other laws ctx dj later e e' n' (
          maybe_dispatch-Fires other laws ctx dj later e
            (subst Valid (sym shared) (maybe_dispatch-Valid env laws ctx dj now d v))))
    where
      both :
          IsIdle d (maybe_dispatch env ctx dj now d)
            ⊎ ((u : Time) × (compute_next_fire env.formats dj now ≡ ok u)
                × HasFired env laws dj u d (maybe_dispatch env ctx dj now d))
          → IsIdle e (maybe_dispatch (node env registry opts) ctx dj later e)
            ⊎ ((u : Time) × (compute_next_fire env.formats dj later ≡ ok u)
                × HasFired
                    (node env registry opts)
                    laws
                    dj
                    u
                    e
                    (maybe_dispatch (node env registry opts) ctx dj later e))
          → IsIdle d (maybe_dispatch env ctx dj now d)
            ⊎ IsIdle e (maybe_dispatch (node env registry opts) ctx dj later e)
      both (inl idle) second = inl idle
      both (inr first) (inl idle) = inr idle
      both (inr (t1, c1, (j1, u1, l1, s1, e1, lt1, a1)))
            (inr (t2, c2, (j2, u2, l2, s2, e2, lt2, a2))) =
          absurd (ground (arith, ap (λ s. table s dj.id) shared))
