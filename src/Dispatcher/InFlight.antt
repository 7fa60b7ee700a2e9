-- ===== src/Dispatcher/InFlight.antt =====
-- dispatcher.go: what a handler attempt and the replay do to the in-flight WaitGroup, the running
-- gauge and the started goroutines.
use sundial.Base.{
  ◌+◌, ◌-◌, ◌≡◌, refl, ◌∙◌, ℤ, pos, negsuc, ◌+ℤ◌, List, [], ◌∷◌, Option, some, arith, int_laws,
}
use sundial.Errors.{Error, Result, ok, err}
use sundial.Clock.{Time}
use sundial.Schedule.{Schedule, iterate_schedule}
use sundial.Job.{Context, Job}
use sundial.Storage.Types.{DueJob}
use sundial.Telemetry.{
  start_run_span, record_error, end_span, record_lag, record_duration, add_running,
}
use sundial.Dispatcher.State.{Env, State, Active, read_clock, bump_attempt}
use sundial.Dispatcher.Load.{load_schedule_from_due}
use sundial.Dispatcher.Execute.{
  Begun, resumed, Ended, begin_attempt, run_attempt, end_attempt, attempt_context, run_handler,
  retry_later, settle, record_outcome, execute, execute_at_fire,
}
use sundial.Dispatcher.Dispatch.{
  replay, replay_or_once, replay_schedule, skip_to, started, max_catchup_instants, run_all_missed,
  return_picked,
}

-- The counters and the goroutines are as they were.
abbrev pub Same : {F W S L : Type 0} → State F W S L → State F W S L → Type 0
Same d d' =
    (d'.in_flight ≡ d.in_flight)
    × (d'.spawned ≡ d.spawned)
    × (d'.active ≡ d.active)
    × (d'.telemetry.jobs_running ≡ d.telemetry.jobs_running)

module _ {F W S L : Type 0} (env : Env F W S L) where
  settle-Same :
      (job : Job F W) (dj : DueJob) (attempt : ℤ) (e : Option Error) (d : State F W S L)
      → Same d (settle env job dj attempt e d).1
  unfolding settle retry_later read_clock
  settle-Same job dj attempt e d = ground arith

  pub begin_attempt-Same :
      (ctx : Context) (job : Job F W) (dj : DueJob) (d : State F W S L)
      → let d' = (begin_attempt env ctx job dj d).state in
        (d'.in_flight ≡ d.in_flight)
        × (d'.spawned ≡ d.spawned)
        × (d'.active ≡ d.active)
        × (d'.telemetry.jobs_running ≡ d.telemetry.jobs_running +ℤ pos 1)
  unfolding begin_attempt attempt_context read_clock bump_attempt record_lag add_running
      start_run_span
  begin_attempt-Same ctx job dj d = ground arith

  pub run_attempt-Same :
      (job : Job F W) (dj : DueJob) (b : Begun F W S L)
      → Same b.state (run_attempt env job dj b).state
  unfolding run_attempt run_handler read_clock record_duration record_error
  run_attempt-Same job dj b = ground arith

  pub end_attempt-Same :
      (job : Job F W) (dj : DueJob) (started : Time) (attempt : ℤ) (r : Ended F W S L)
      → let d' = end_attempt env job dj started attempt r in
        (d'.in_flight ≡ r.state.in_flight - 1)
        × (d'.spawned ≡ r.state.spawned)
        × (d'.active ≡ r.state.active)
        × (d'.telemetry.jobs_running ≡ r.state.telemetry.jobs_running +ℤ negsuc 0)
  unfolding end_attempt record_outcome add_running end_span
  end_attempt-Same job dj started attempt r =
      ground (arith, settle-Same job dj attempt r.error r.state)

  up_down : (n : ℤ) → n +ℤ pos 1 +ℤ negsuc 0 ≡ n
  up_down n = omega int_laws

  pub execute-Same :
      (ctx : Context) (job : Job F W) (dj : DueJob) (d : State F W S L)
      → ((execute env ctx job dj d).in_flight ≡ d.in_flight - 1)
        × ((execute env ctx job dj d).spawned ≡ d.spawned)
        × ((execute env ctx job dj d).active ≡ d.active)
        × ((execute env ctx job dj d).telemetry.jobs_running ≡ d.telemetry.jobs_running)
  unfolding execute
  execute-Same ctx job dj d =
      let b = begin_attempt env ctx job dj d in
      let r = run_attempt env job dj b in
      ground (
        arith,
        begin_attempt-Same ctx job dj d,
        run_attempt-Same job dj b,
        end_attempt-Same job dj b.started b.attempt r,
        up_down d.telemetry.jobs_running,
      )

  execute_at_fire-Same :
      (ctx : Context) (job : Job F W) (dj : DueJob) (d : State F W S L)
      → Same d (execute_at_fire env ctx job dj d)
  unfolding execute_at_fire
  execute_at_fire-Same ctx job dj d =
      ground (arith, execute-Same ctx job dj (record d { in_flight = d.in_flight + 1 }))

  replay-Same :
      (ctx : Context) (job : Job F W) (dj : DueJob) (ts : List Time) (d : State F W S L)
      → Same d (replay env ctx job dj ts d)
  unfolding replay
  replay-Same ctx job dj [] d = (refl, refl, refl, refl)
  replay-Same ctx job dj (t ∷ ts) d =
      let once = record dj { next_fire_time = t } in
      ground (
        arith,
        execute_at_fire-Same ctx job once d,
        replay-Same ctx job dj ts (execute_at_fire env ctx job once d),
      )

  pub run_all_missed-Same :
      (ctx : Context) (job : Job F W) (dj : DueJob) (now : Time) (d : State F W S L)
      → Same d (run_all_missed env ctx job dj now d)
  unfolding run_all_missed
  run_all_missed-Same ctx job dj now d = by_schedule (load_schedule_from_due env.formats dj)
    where
      by_instants :
          (sched : Schedule) (ts : List Time)
          → Same d (replay_or_once env ctx job dj (sched.next now) ts d)
      by_instants sched [] = execute_at_fire-Same ctx job dj d
      by_instants sched (t ∷ ts) = ground (arith, replay-Same ctx job dj (t ∷ ts) d)

      by_schedule : (r : Result Schedule) → Same d (replay_schedule env ctx job dj now r d)
      by_schedule (err e) = (refl, refl, refl, refl)
      by_schedule (ok sched) =
          by_instants sched
            (iterate_schedule (some sched) dj.next_fire_time now max_catchup_instants)

  pub skip_to-Same :
      (dj : DueJob) (r : Result Time) (d : State F W S L) → Same d (skip_to env dj r d)
  skip_to-Same dj (err e) d = (refl, refl, refl, refl)
  skip_to-Same dj (ok t) d = ground arith

  pub active-return_picked :
      (a : Active F W) (rest : List (Active F W)) (d : State F W S L)
      → (return_picked env (some (a, rest)) d).active ≡ rest
  unfolding return_picked
  active-return_picked a rest d =
      let b : Begun F W S L = resumed a (record d { active = rest }) in
      let (_, _, q, _) = run_attempt-Same a.job a.due b in
      let (_, _, q', _) =
        end_attempt-Same a.job a.due a.started a.attempt (run_attempt env a.job a.due b) in
      q' ∙ q
