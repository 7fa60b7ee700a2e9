-- ===== src/Dispatcher/Valid.antt =====
-- dispatcher.go: every step of a node keeps a lawful storage valid.
use sundial.Base.{
  sym, subst, ◌∙◌, inl, inr, ℤ, pos, ltb_ℤ, Bool, true, false, not, ◌&&◌, ◌+◌, List, [], ◌∷◌,
  Option, none, some, if◌then◌else◌, Bool-cases, if_both,
}
use sundial.Errors.{Error, Result, ok, err}
use sundial.Clock.{Time, is_zero}
use sundial.Schedule.{Schedule, iterate_schedule}
use sundial.Job.{Context, Job}
use sundial.Storage.Types.{DueJob}
use sundial.Storage.Laws.{StorageLaws}
use sundial.Dispatcher.Load.{load_schedule_from_due, compute_next_fire}
use sundial.Dispatcher.State.{Env, State, Task, Active, lookup, read_clock, forget_attempt}
use sundial.Dispatcher.Execute.{
  Begun, resumed, Ended, begin_attempt, run_attempt, end_attempt, settle, retry_later,
  record_outcome, execute, execute_at_fire,
}
use sundial.Dispatcher.Dispatch.{
  Event, ticks, renews, handles, begins, returns, pick, replay, run_all_missed, maybe_dispatch,
  dispatch_all, tick, maybe_renew_leader, step, run_events, run, replay_or_once, replay_schedule,
  skip_to, started, dispatch_at, dispatch_job, dispatch_due, begin_picked, return_picked,
  max_catchup_instants, advance_past, is_missed, is_skip, is_run_all, is_follower,
}
use sundial.Dispatcher.Retry.{begin_attempt-count, run_attempt-count}

module _ {F W S L : Type 0} (env : Env F W S L) (laws : StorageLaws env.storage_ops) where
  open laws use {Valid, fetch_due-Valid, claim_job-Valid, schedule_retry-Valid, record_run-Valid}

  settle-Valid :
      (job : Job F W) (dj : DueJob) (n : ℤ) (e : Option Error) (d : State F W S L)
      → Valid d.storage
      → Valid (settle env job dj n e d).1.storage
  unfolding settle retry_later read_clock forget_attempt
  settle-Valid job dj n none d v = v
  settle-Valid job dj n (some e) d v = elim (Bool-cases (ltb_ℤ n job.options.retry.max_attempts)) [
    | inl t ↦ rw (t, if◌then◌else◌) (schedule_retry-Valid _ _ _ v)
    | inr t ↦ rw (t, if◌then◌else◌) v
  ]

  end_attempt-Valid :
      (job : Job F W) (dj : DueJob) (t : Time) (n : ℤ) (r : Ended F W S L)
      → Valid r.state.storage
      → Valid (end_attempt env job dj t n r).storage
  unfolding end_attempt record_outcome
  end_attempt-Valid job dj t n r v =
      record_run-Valid _ _ _ (settle-Valid job dj n r.error r.state v)

  execute-Valid :
      (ctx : Context) (job : Job F W) (dj : DueJob) (d : State F W S L)
      → Valid d.storage
      → Valid (execute env ctx job dj d).storage
  unfolding execute
  execute-Valid ctx job dj d v =
      let b = begin_attempt env ctx job dj d in
      let (_, _, begun) = begin_attempt-count env ctx job dj d in
      let (_, ran) = run_attempt-count env job dj b in
      end_attempt-Valid job dj b.started b.attempt (run_attempt env job dj b)
        (subst Valid (sym (ran ∙ begun)) v)

  pub execute_at_fire-Valid :
      (ctx : Context) (job : Job F W) (dj : DueJob) (d : State F W S L)
      → Valid d.storage
      → Valid (execute_at_fire env ctx job dj d).storage
  unfolding execute_at_fire
  execute_at_fire-Valid ctx job dj d v =
      execute-Valid ctx job dj (record d { in_flight = d.in_flight + 1 }) v

  pub replay-Valid :
      (ctx : Context) (job : Job F W) (dj : DueJob) (ts : List Time) (d : State F W S L)
      → Valid d.storage
      → Valid (replay env ctx job dj ts d).storage
  unfolding replay
  replay-Valid ctx job dj [] d v = v
  replay-Valid ctx job dj (t ∷ ts) d v =
      replay-Valid ctx job dj ts _
        (execute_at_fire-Valid ctx job (record dj { next_fire_time = t }) d v)

  abbrev IsValid : State F W S L → Type 0
  IsValid d = Valid d.storage

  advance_past-Valid :
      (dj : DueJob) (t : Time) (d : State F W S L) → IsValid d → IsValid (advance_past env dj t d)
  advance_past-Valid dj t d v =
      if_both IsValid (not (is_zero t)) (claim_job-Valid dj.id t d.storage v) v

  run_all_missed-Valid :
      (ctx : Context) (job : Job F W) (dj : DueJob) (now : Time) (d : State F W S L)
      → IsValid d
      → IsValid (run_all_missed env ctx job dj now d)
  unfolding run_all_missed
  run_all_missed-Valid ctx job dj now d v = by_schedule (load_schedule_from_due env.formats dj)
    where
      by_instants :
          (sched : Schedule) (ts : List Time)
          → IsValid (replay_or_once env ctx job dj (sched.next now) ts d)
      by_instants sched [] = execute_at_fire-Valid ctx job dj d v
      by_instants sched (t ∷ ts) =
          advance_past-Valid dj (sched.next now) (replay env ctx job dj (t ∷ ts) d)
            (replay-Valid ctx job dj (t ∷ ts) d v)

      by_schedule : (r : Result Schedule) → IsValid (replay_schedule env ctx job dj now r d)
      by_schedule (err e) = v
      by_schedule (ok sched) =
          by_instants sched
            (iterate_schedule (some sched) dj.next_fire_time now max_catchup_instants)

  started-Valid :
      (job : Job F W) (dj : DueJob) (t : Time) (r : Result Bool) (d : State F W S L)
      → IsValid d
      → IsValid (started env job dj t (r, d))
  started-Valid job dj t (err e) d v = v
  started-Valid job dj t (ok false) d v = v
  started-Valid job dj t (ok true) d v = v

  pub maybe_dispatch-Valid :
      (ctx : Context) (dj : DueJob) (now : Time) (d : State F W S L)
      → IsValid d
      → IsValid (maybe_dispatch env ctx dj now d)
  unfolding maybe_dispatch
  maybe_dispatch-Valid ctx dj now d v = by_job (lookup dj.name env.registry)
    where
      skipped : (r : Result Time) → IsValid (skip_to env dj r d)
      skipped (err e) = v
      skipped (ok t) = advance_past-Valid dj t d v

      by_next : (job : Job F W) (r : Result Time) → IsValid (dispatch_at env ctx job dj now r d)
      by_next job (err e) = v
      by_next job (ok t) =
          let missed = is_missed env.opts.tick_interval dj now in
          let answer = env.storage_ops.claim_job dj.id t d.storage in
          if_both IsValid (is_zero t) v (
            if_both IsValid (missed && is_skip job.options.missed_fire)
              (skipped (compute_next_fire env.formats dj now))
              (if_both IsValid (missed && is_run_all job.options.missed_fire)
                (if_both IsValid (is_follower env d.leader) v
                  (run_all_missed-Valid ctx job dj now d v))
                (started-Valid job dj t answer.0 (record d { storage = answer.1 })
                  (claim_job-Valid dj.id t d.storage v))))

      by_job : (o : Option (Job F W)) → IsValid (dispatch_job env ctx o dj now d)
      by_job none = v
      by_job (some job) =
          if_both IsValid (job.options.leader_only && is_follower env d.leader) v
            (by_next job (compute_next_fire env.formats dj now))

  dispatch_all-Valid :
      (ctx : Context) (djs : List DueJob) (now : Time) (d : State F W S L)
      → IsValid d
      → IsValid (dispatch_all env ctx djs now d)
  unfolding dispatch_all
  dispatch_all-Valid ctx [] now d v = v
  dispatch_all-Valid ctx (dj ∷ djs) now d v =
      dispatch_all-Valid ctx djs now _ (maybe_dispatch-Valid ctx dj now d v)

  pub tick-Valid : (ctx : Context) (d : State F W S L) → IsValid d → IsValid (tick env ctx d)
  unfolding tick read_clock
  tick-Valid ctx d v = by_rows _ (fetch_due-Valid _ (pos 64) d.storage v)
    where
      by_rows :
          (r : Result (List DueJob) × S)
          → Valid r.1
          → IsValid (
              dispatch_due env ctx
                (env.world_ops.now d.world).0
                r.0
                (record d { storage = r.1; world = (env.world_ops.now d.world).1 }))
      by_rows (err e, s) h = h
      by_rows (ok due, s) h = dispatch_all-Valid ctx due (env.world_ops.now d.world).0 _ h

  begin_picked-Valid :
      (ctx : Context) (o : Option (Task F W × List (Task F W))) (d : State F W S L)
      → IsValid d
      → IsValid (begin_picked env ctx o d)
  unfolding begin_picked
  begin_picked-Valid ctx none d v = v
  begin_picked-Valid ctx (some (t, rest)) d v =
      let (_, _, begun) = begin_attempt-count env ctx t.job t.due (record d { spawned = rest }) in
      subst Valid (sym begun) v

  pub return_picked-Valid :
      (o : Option (Active F W × List (Active F W))) (d : State F W S L)
      → IsValid d
      → IsValid (return_picked env o d)
  unfolding return_picked
  return_picked-Valid none d v = v
  return_picked-Valid (some (a, rest)) d v =
      let b : Begun F W S L = resumed a (record d { active = rest }) in
      let (_, ran) = run_attempt-count env a.job a.due b in
      end_attempt-Valid a.job a.due a.started a.attempt (run_attempt env a.job a.due b)
        (subst Valid (sym ran) v)

  pub step-Valid :
      (ctx : Context) (d : State F W S L) (e : Event) → IsValid d → IsValid (step env ctx d e)
  unfolding step maybe_renew_leader
  step-Valid ctx d ticks v = tick-Valid ctx d v
  step-Valid ctx d renews v = v
  step-Valid ctx d (handles (begins n)) v = begin_picked-Valid ctx (pick n d.spawned) d v
  step-Valid ctx d (handles (returns n)) v = return_picked-Valid (pick n d.active) d v

  run_events-Valid :
      (ctx : Context) (d : State F W S L) (es : List Event)
      → IsValid d
      → IsValid (run_events env ctx d es)
  unfolding run_events
  run_events-Valid ctx d [] v = v
  run_events-Valid ctx d (e ∷ es) v =
      run_events-Valid ctx (step env ctx d e) es (step-Valid ctx d e v)

  -- Whatever a node does, in any order, a storage that keeps the contract and is valid at the
  -- start stays valid.
  run-Valid :
      (ctx : Context) (es : List Event) (d : State F W S L) → IsValid d → IsValid (run env ctx es d)
  unfolding run maybe_renew_leader
  run-Valid ctx es d v = run_events-Valid ctx _ es (tick-Valid ctx _ v)
