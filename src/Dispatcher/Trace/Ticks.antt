-- ===== src/Dispatcher/Trace/Ticks.antt =====
-- What a tick (dispatcher.go) does to the spans: the replay of missed fires runs its attempts to their
-- ends, one after the other.
use sundial.Base.{
  ◌+◌, pos, Bool, true, false, not, ◌&&◌, List, [], ◌∷◌, Option, none, some, if_both,
}
use sundial.Errors.{Result, ok, err}
use sundial.Clock.{Time, is_zero}
use sundial.Schedule.{Schedule, iterate_schedule}
use sundial.Job.{Context, Job}
use sundial.Storage.Types.{DueJob}
use sundial.Telemetry.{claimed_inc}
use sundial.Dispatcher.State.{Env, State, lookup, read_clock}
use sundial.Dispatcher.Load.{load_schedule_from_due, compute_next_fire}
use sundial.Dispatcher.Execute.{execute_at_fire}
use sundial.Dispatcher.Dispatch.{
  replay, replay_or_once, replay_schedule, run_all_missed, skip_to, started, dispatch_at,
  dispatch_job, maybe_dispatch, dispatch_all, dispatch_due, tick, max_catchup_instants, is_missed,
  is_skip, is_run_all, is_follower, advance_past,
}
use sundial.Dispatcher.Trace.Attempts.{Adds, Adds-refl, Adds-trans, execute-Adds}

module _ {F W S L : Type 0} (env : Env F W S L) (ctx : Context) where
  -- From a state to another, by attempts that have come to their ends.
  abbrev AddsTo : State F W S L → State F W S L → Type 0
  AddsTo d d' = Adds d.telemetry.spans d'.telemetry.spans

  unchanged : (d : State F W S L) → AddsTo d d
  unchanged d = Adds-refl d.telemetry.spans

  at_fire-Adds :
      (job : Job F W) (dj : DueJob) (d : State F W S L)
      → AddsTo d (execute_at_fire env ctx job dj d)
  unfolding execute_at_fire
  at_fire-Adds job dj d = execute-Adds env ctx job dj (record d { in_flight = d.in_flight + 1 })

  replay-Adds :
      (job : Job F W) (dj : DueJob) (ts : List Time) (d : State F W S L)
      → AddsTo d (replay env ctx job dj ts d)
  unfolding replay
  replay-Adds job dj [] d = unchanged d
  replay-Adds job dj (t ∷ ts) d =
      let d' = execute_at_fire env ctx job (record dj { next_fire_time = t }) d in
      Adds-trans d.telemetry.spans d'.telemetry.spans (replay env ctx job dj ts d').telemetry.spans
        (at_fire-Adds job (record dj { next_fire_time = t }) d) (replay-Adds job dj ts d')

  advance-Adds :
      (dj : DueJob) (t : Time) (d d' : State F W S L)
      → AddsTo d d'
      → AddsTo d (advance_past env dj t d')
  advance-Adds dj t d d' h = if_both (AddsTo d) (not (is_zero t)) h h

  run_all_missed-Adds :
      (job : Job F W) (dj : DueJob) (now : Time) (d : State F W S L)
      → AddsTo d (run_all_missed env ctx job dj now d)
  unfolding run_all_missed
  run_all_missed-Adds job dj now d = by_schedule (load_schedule_from_due env.formats dj)
    where
      by_instants :
          (sched : Schedule) (ts : List Time)
          → AddsTo d (replay_or_once env ctx job dj (sched.next now) ts d)
      by_instants sched [] = at_fire-Adds job dj d
      by_instants sched (t ∷ ts) =
          advance-Adds dj (sched.next now) d (replay env ctx job dj (t ∷ ts) d)
            (replay-Adds job dj (t ∷ ts) d)

      by_schedule : (r : Result Schedule) → AddsTo d (replay_schedule env ctx job dj now r d)
      by_schedule (err e) = unchanged d
      by_schedule (ok sched) =
          by_instants sched
            (iterate_schedule (some sched) dj.next_fire_time now max_catchup_instants)

  started-Adds :
      (job : Job F W) (dj : DueJob) (t : Time) (r : Result Bool) (d : State F W S L)
      → AddsTo d (started env job dj t (r, d))
  unfolding claimed_inc
  started-Adds job dj t (err e) d = unchanged d
  started-Adds job dj t (ok false) d = unchanged d
  started-Adds job dj t (ok true) d = unchanged d

  maybe_dispatch-Adds :
      (dj : DueJob) (now : Time) (d : State F W S L) → AddsTo d (maybe_dispatch env ctx dj now d)
  unfolding maybe_dispatch
  maybe_dispatch-Adds dj now d = by_job (lookup dj.name env.registry)
    where
      skipped : (r : Result Time) → AddsTo d (skip_to env dj r d)
      skipped (err e) = unchanged d
      skipped (ok t) = advance-Adds dj t d d (unchanged d)

      by_next : (job : Job F W) (r : Result Time) → AddsTo d (dispatch_at env ctx job dj now r d)
      by_next job (err e) = unchanged d
      by_next job (ok t) =
          let missed = is_missed env.opts.tick_interval dj now in
          let answer = env.storage_ops.claim_job dj.id t d.storage in
          if_both (AddsTo d) (is_zero t) (unchanged d) (
            if_both (AddsTo d) (missed && is_skip job.options.missed_fire)
              (skipped (compute_next_fire env.formats dj now))
              (if_both (AddsTo d) (missed && is_run_all job.options.missed_fire)
                (if_both (AddsTo d) (is_follower env d.leader) (unchanged d)
                  (run_all_missed-Adds job dj now d))
                (started-Adds job dj t answer.0 (record d { storage = answer.1 }))))

      by_job : (o : Option (Job F W)) → AddsTo d (dispatch_job env ctx o dj now d)
      by_job none = unchanged d
      by_job (some job) =
          if_both (AddsTo d) (job.options.leader_only && is_follower env d.leader) (unchanged d)
            (by_next job (compute_next_fire env.formats dj now))

  dispatch_all-Adds :
      (djs : List DueJob) (now : Time) (d : State F W S L)
      → AddsTo d (dispatch_all env ctx djs now d)
  unfolding dispatch_all
  dispatch_all-Adds [] now d = unchanged d
  dispatch_all-Adds (dj ∷ djs) now d =
      let d' = maybe_dispatch env ctx dj now d in
      Adds-trans d.telemetry.spans d'.telemetry.spans
        (dispatch_all env ctx djs now d').telemetry.spans (maybe_dispatch-Adds dj now d)
        (dispatch_all-Adds djs now d')

  pub tick-Adds : (d : State F W S L) → Adds d.telemetry.spans (tick env ctx d).telemetry.spans
  unfolding tick read_clock
  tick-Adds d = by_rows (env.storage_ops.fetch_due (env.world_ops.now d.world).0 (pos 64) d.storage)
    where
      by_rows :
          (r : Result (List DueJob) × S)
          → AddsTo d (
              dispatch_due env ctx
                (env.world_ops.now d.world).0
                r.0
                (record d { storage = r.1; world = (env.world_ops.now d.world).1 }))
      by_rows (err e, s) = unchanged d
      by_rows (ok due, s) = dispatch_all-Adds due (env.world_ops.now d.world).0 _
