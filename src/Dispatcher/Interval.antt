-- ===== src/Dispatcher/Interval.antt =====
-- dispatcher.go with schedule.go: nodes whose clocks differ, on an interval schedule.
use sundial.Base.{
  ℕ, ◌<◌, ◌≡◌, refl, ap, sym, subst, ◌∙◌, pos, ◌+ℤ◌, ◌≤ℤ◌, ◌<ℤ◌, Bool, true, false, ◌&&◌, List, [],
  ◌∷◌, ◌++◌, some, Text, text_eq_refl, if◌then◌else◌, arith, int_laws, +ℤ_parts,
}
use sundial.Errors.{Result, ok}
use sundial.Clock.{Time, is_zero, zero_time, before}
use sundial.Job.{Context, Job, run_once}
use sundial.Storage.Types.{DueJob}
use sundial.Storage.Memory.{MemoryStorage, memory_storage, claim_job}
use sundial.Storage.Memory.Rows.{IsWf}
use sundial.Storage.Memory.Claim.{view, claim_job_lem}
use sundial.Storage.Memory.Lawful.{claim_job-IsWf}
use sundial.Dispatcher.Load.{compute_next_fire}
use sundial.Dispatcher.State.{Env, State, Options, lookup}
use sundial.Dispatcher.Dispatch.{
  maybe_dispatch, dispatch_job, dispatch_at, started, claim, is_missed, is_skip, is_run_all,
  is_follower, skip_to, run_all_missed,
}
use sundial.Dispatcher.Budget.{on_memory}
use sundial.Dispatcher.Fire.{node}

-- A plain job: run on every node, one catch-up fire.
abbrev pub IsPlain : {F W : Type 0} → Job F W → Type 0
IsPlain job = (job.options.leader_only ≡ false) × (job.options.missed_fire ≡ run_once)

module _ {F W S L : Type 0} (any_env : Env F W S L) where
  abbrev env : Env F W MemoryStorage L
  env = on_memory any_env

  pub claim_wins :
      (i : Text) (t u : Time) (m : MemoryStorage)
      → IsWf m
      → view m i ≡ some u
      → u <ℤ t
      → ((claim_job i t m).0 ≡ ok true) × (view (claim_job i t m).1 i ≡ some t)
  claim_wins i t u m w e lt =
      let (a, b) = claim_job_lem i t m w in
      let sooner : before u t ≡ true = ground arith in
      (a ∙ (rw (e, sooner) refl), b i ∙ (rw (e, sooner, text_eq_refl i) refl))

  dispatch_at-plain :
      (ctx : Context) (dj : DueJob) (job : Job F W) (now t : Time) (d : State F W MemoryStorage L)
      → job.options.missed_fire ≡ run_once
      → is_zero t ≡ false
      → dispatch_at env ctx job dj now (ok t) d ≡ started env job dj t (claim env dj t d)
  dispatch_at-plain ctx dj job now t d once z = by_miss (is_missed env.opts.tick_interval dj now)
    where
      by_miss :
          (missed : Bool)
          → (if is_zero t
              then d
              else if missed && is_skip job.options.missed_fire
              then skip_to env dj (compute_next_fire env.formats dj now) d
              else if missed && is_run_all job.options.missed_fire
              then (if is_follower env d.leader then d else run_all_missed env ctx job dj now d)
              else started env job dj t (claim env dj t d))
            ≡ started env job dj t (claim env dj t d)
      by_miss true = rw (z, once) refl
      by_miss false = rw z refl

  -- A plain job whose row is before the next fire is claimed and started.
  dispatch_starts :
      (ctx : Context) (dj : DueJob) (job : Job F W) (now t u : Time) (d : State F W MemoryStorage L)
      → IsPlain job
      → IsWf d.storage
      → lookup dj.name env.registry ≡ some job
      → compute_next_fire env.formats dj now ≡ ok t
      → is_zero t ≡ false
      → view d.storage dj.id ≡ some u
      → u <ℤ t
      → let d' = maybe_dispatch env ctx dj now d in
        (d'.spawned ≡ d.spawned ++ record { job = job; due = dj; claimed_for = t } ∷ [])
        × (view d'.storage dj.id ≡ some t)
        × IsWf d'.storage
  unfolding maybe_dispatch memory_storage
  dispatch_starts ctx dj job now t u d (every_node, once) w l c z e lt =
      let (won, moved) = claim_wins dj.id t u d.storage w e lt in
      let r = claim_job dj.id t d.storage in
      let steps : maybe_dispatch env ctx dj now d ≡ started env job dj t (claim env dj t d) =
        ap (λ o. dispatch_job env ctx o dj now d) l
        ∙ unguarded job.options.leader_only every_node
        ∙ ap (λ a. dispatch_at env ctx job dj now a d) c
        ∙ dispatch_at-plain ctx dj job now t d once z in
      subst
        (λ (x : State F W MemoryStorage L).
          (x.spawned ≡ d.spawned ++ record { job = job; due = dj; claimed_for = t } ∷ [])
          × (view x.storage dj.id ≡ some t)
          × IsWf x.storage)
        (sym steps)
        (by_answer r.0 won, moved' r.0 won moved, kept r.0 won (claim_job-IsWf dj.id t d.storage w))
    where
      unguarded :
          (b : Bool)
          → b ≡ false
          → (if b && is_follower env d.leader
              then d
              else dispatch_at env ctx job dj now (compute_next_fire env.formats dj now) d)
            ≡ dispatch_at env ctx job dj now (compute_next_fire env.formats dj now) d
      unguarded true h = cc
      unguarded false h = refl

      after : Result Bool → State F W MemoryStorage L
      after a = started env job dj t (a, record d { storage = (claim_job dj.id t d.storage).1 })

      by_answer :
          (a : Result Bool)
          → a ≡ ok true
          → (after a).spawned ≡ d.spawned ++ record { job = job; due = dj; claimed_for = t } ∷ []
      by_answer a h = rw h refl

      moved' :
          (a : Result Bool)
          → a ≡ ok true
          → view (claim_job dj.id t d.storage).1 dj.id ≡ some t
          → view (after a).storage dj.id ≡ some t
      moved' a h m = rw h m

      kept :
          (a : Result Bool)
          → a ≡ ok true
          → IsWf (claim_job dj.id t d.storage).1
          → IsWf (after a).storage
      kept a h k = rw h k

positive : (now : Time) (gap : ℕ) → 0 < gap → zero_time ≤ℤ now → is_zero (now +ℤ pos gap) ≡ false
positive now gap g z = ground (arith, +ℤ_parts now (pos gap))

module _ {F W S L : Type 0} (any_env : Env F W S L) where
  -- Over MemoryStorage, two nodes fetch the same due row of an interval job that runs on every
  -- node with RunOnce, and dispatch it one after the other, the second with a clock that reads
  -- later: both claims win, and both nodes start the handler.
  pub interval_fires_twice :
      (ctx : Context) (dj : DueJob) (job other : Job F W) (gap : ℕ) (now later : Time)
      → (d e : State F W MemoryStorage L) (registry : List (Job F W)) (opts : Options) → IsPlain job
      → IsPlain other
      → IsWf d.storage
      → lookup dj.name any_env.registry ≡ some job
      → lookup dj.name registry ≡ some other
      → compute_next_fire any_env.formats dj now ≡ ok (now +ℤ pos gap)
      → compute_next_fire any_env.formats dj later ≡ ok (later +ℤ pos gap)
      → 0 < gap
      → zero_time ≤ℤ now
      → now <ℤ later
      → view d.storage dj.id ≡ some dj.next_fire_time
      → dj.next_fire_time ≤ℤ now
      → e.storage ≡ (maybe_dispatch (on_memory any_env) ctx dj now d).storage
      → ((maybe_dispatch (on_memory any_env) ctx dj now d).spawned
          ≡ d.spawned ++ record { job = job; due = dj; claimed_for = now +ℤ pos gap } ∷ [])
        × ((maybe_dispatch (node (on_memory any_env) registry opts) ctx dj later e).spawned
            ≡ e.spawned ++ record { job = other; due = dj; claimed_for = later +ℤ pos gap } ∷ [])
  interval_fires_twice ctx dj job other gap now later d e registry opts p q w l m c c' g z lt v due
        shared =
      let (first, moved, w') =
        dispatch_starts any_env ctx dj job now (now +ℤ pos gap) dj.next_fire_time d p w l c
          (positive now gap g z) v (omega int_laws) in
      let (second, _, _) =
        dispatch_starts (node any_env registry opts) ctx dj other later (later +ℤ pos gap)
          (now +ℤ pos gap) e q (subst IsWf (sym shared) w') m c'
          (positive later gap g (omega arith)) (ap (λ s. view s dj.id) shared ∙ moved)
          (omega int_laws) in
      (first, second)
