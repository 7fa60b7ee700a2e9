-- ===== src/Dispatcher/Dispatch.antt =====
-- dispatcher.go: the decision about a due job, the replay of missed fires, a tick and the loop.
use sundial.Base.{
  ℕ, zero, suc, ◌+◌, ℤ, pos, ◌+ℤ◌, ltb_ℤ, Bool, true, false, not, ◌&&◌, List, [], ◌∷◌, ◌++◌, Option,
  none, some, if◌then◌else◌,
}
use sundial.Errors.{Result, ok, err}
use sundial.Clock.{Time, Duration, is_zero, sub, wrap64}
use sundial.Schedule.{Schedule, iterate_schedule}
use sundial.Job.{Context, Job, MissedFirePolicy, skip, run_all}
use sundial.Storage.Types.{DueJob}
use sundial.Telemetry.{claimed_inc}
use sundial.Dispatcher.Load.{load_schedule_from_due, compute_next_fire}
use sundial.Dispatcher.State.{Env, State, Task, Active, lookup, read_clock}
use sundial.Dispatcher.Execute.{
  Begun, resumed, begin_attempt, run_attempt, end_attempt, execute_at_fire,
}

abbrev pub max_catchup_instants : ℤ
max_catchup_instants = pos 256

abbrev pub is_skip : MissedFirePolicy → Bool
is_skip skip = true
is_skip _ = false

abbrev pub is_run_all : MissedFirePolicy → Bool
is_run_all run_all = true
is_run_all _ = false

-- `3 * TickInterval`, in int64
unfoldable pub miss_threshold : Duration → Duration
miss_threshold tick = wrap64 (tick +ℤ tick +ℤ tick)

unfoldable pub is_missed : Duration → DueJob → Time → Bool
is_missed tick dj now = ltb_ℤ (miss_threshold tick) (sub now dj.next_fire_time)

-- What a started goroutine does, by its place among its like: its attempt begins, or its handler
-- comes back and the attempt comes to its end.
pub data HandlerEvent : Type 0 where
  begins returns : ℕ → HandlerEvent

-- What the loop's `select` and the goroutines do, one at a time.
pub data Event : Type 0 where
  ticks renews : Event
  handles : HandlerEvent → Event

unfoldable pub pick : {A : Type 0} → ℕ → List A → Option (A × List A)
pick n [] = none
pick zero (t ∷ ts) = some (t, ts)
pick (suc n) (t ∷ ts) = elim (pick n ts) [ none ↦ none | some (u, us) ↦ some (u, t ∷ us) ]

module _ {F W S L : Type 0} (env : Env F W S L) where
  open env use {storage_ops, leader_ops, formats, registry, opts}

  -- `d.leader != nil && !d.leader.IsLeader()`
  unfoldable pub is_follower : Option L → Bool
  is_follower none = false
  is_follower (some l) = not (leader_ops.is_leader l)

  -- `ClaimJob`, with its answer.
  abbrev pub claim : DueJob → Time → State F W S L → Result Bool × State F W S L
  claim dj t d =
      let (r, s) = storage_ops.claim_job dj.id t d.storage in (r, record d { storage = s })

  unfoldable pub replay : Context → Job F W → DueJob → List Time → State F W S L → State F W S L
  replay ctx job dj [] d = d
  replay ctx job dj (t ∷ ts) d =
      replay ctx job dj ts (execute_at_fire env ctx job (record dj { next_fire_time = t }) d)

  abbrev pub advance_past : DueJob → Time → State F W S L → State F W S L
  advance_past dj future d = if not (is_zero future) then (claim dj future d).1 else d

  abbrev pub replay_or_once :
      Context → Job F W → DueJob → Time → List Time → State F W S L → State F W S L
  replay_or_once ctx job dj future [] d = execute_at_fire env ctx job dj d
  replay_or_once ctx job dj future (t ∷ ts) d =
      advance_past dj future (replay ctx job dj (t ∷ ts) d)

  abbrev pub replay_schedule :
      Context → Job F W → DueJob → Time → Result Schedule → State F W S L → State F W S L
  replay_schedule ctx job dj now (err e) d = d
  replay_schedule ctx job dj now (ok sched) d =
      replay_or_once ctx job dj (sched.next now)
        (iterate_schedule (some sched) dj.next_fire_time now max_catchup_instants) d

  unfoldable pub run_all_missed : Context → Job F W → DueJob → Time → State F W S L → State F W S L
  run_all_missed ctx job dj now d =
      replay_schedule ctx job dj now (load_schedule_from_due formats dj) d

  abbrev pub skip_to : DueJob → Result Time → State F W S L → State F W S L
  skip_to dj (err e) d = d
  skip_to dj (ok future) d = advance_past dj future d

  -- The regular path after the claim: `d.inFlight.Add(1); go d.execute(…)`.
  abbrev pub started : Job F W → DueJob → Time → Result Bool × State F W S L → State F W S L
  started job dj next_fire (err e, d) = d
  started job dj next_fire (ok false, d) = d
  started job dj next_fire (ok true, d) = record d {
    telemetry = claimed_inc dj.name d.telemetry;
    in_flight = d.in_flight + 1;
    spawned = d.spawned ++ record { job = job; due = dj; claimed_for = next_fire } ∷ [];
  }

  abbrev pub dispatch_at :
      Context → Job F W → DueJob → Time → Result Time → State F W S L → State F W S L
  dispatch_at ctx job dj now (err e) d = d
  dispatch_at ctx job dj now (ok next_fire) d =
      let missed = is_missed opts.tick_interval dj now in
      if is_zero next_fire
      then d
      else if missed && is_skip job.options.missed_fire
      then skip_to dj (compute_next_fire formats dj now) d
      else if missed && is_run_all job.options.missed_fire
      then (if is_follower d.leader then d else run_all_missed ctx job dj now d)
      else started job dj next_fire (claim dj next_fire d)

  abbrev pub dispatch_job :
      Context → Option (Job F W) → DueJob → Time → State F W S L → State F W S L
  dispatch_job ctx none dj now d = d
  dispatch_job ctx (some job) dj now d =
      if job.options.leader_only && is_follower d.leader
      then d
      else dispatch_at ctx job dj now (compute_next_fire formats dj now) d

  unfoldable pub maybe_dispatch : Context → DueJob → Time → State F W S L → State F W S L
  maybe_dispatch ctx dj now d = dispatch_job ctx (lookup dj.name registry) dj now d

  unfoldable pub dispatch_all : Context → List DueJob → Time → State F W S L → State F W S L
  dispatch_all ctx [] now d = d
  dispatch_all ctx (dj ∷ djs) now d = dispatch_all ctx djs now (maybe_dispatch ctx dj now d)

  abbrev pub dispatch_due : Context → Time → Result (List DueJob) → State F W S L → State F W S L
  dispatch_due ctx now (err e) d = d
  dispatch_due ctx now (ok due) d = dispatch_all ctx due now d

  unfoldable pub tick : Context → State F W S L → State F W S L
  tick ctx d =
      let (now, d') = read_clock env d in
      let (r, s) = storage_ops.fetch_due now (pos 64) d'.storage in
      dispatch_due ctx now r (record d' { storage = s })

  abbrev pub renewed : Option L → Option L
  renewed none = none
  renewed (some l) = some (leader_ops.try_acquire opts.node_id l).1

  -- Both the answer and the error of `TryAcquire` are only logged.
  unfoldable pub maybe_renew_leader : State F W S L → State F W S L
  maybe_renew_leader d = record d { leader = renewed d.leader }

  -- `execute` of a goroutine up to the call of the handler.
  unfoldable pub begin_picked :
      Context → Option (Task F W × List (Task F W)) → State F W S L → State F W S L
  begin_picked ctx none d = d
  begin_picked ctx (some (t, rest)) d =
      let b = begin_attempt env ctx t.job t.due (record d { spawned = rest }) in
      let a : Active F W = record {
        job = t.job;
        due = t.due;
        ctx = b.ctx;
        started = b.started;
        attempt = b.attempt;
        span = b.span;
      } in
      record b.state { active = b.state.active ++ a ∷ [] }

  -- The rest of `execute`. What the handler does to the world, it does when it comes back.
  unfoldable pub return_picked :
      Option (Active F W × List (Active F W)) → State F W S L → State F W S L
  return_picked none d = d
  return_picked (some (a, rest)) d =
      let b : Begun F W S L = resumed a (record d { active = rest }) in
      end_attempt env a.job a.due a.started a.attempt (run_attempt env a.job a.due b)

  unfoldable pub step : Context → State F W S L → Event → State F W S L
  step ctx d ticks = tick ctx d
  step ctx d renews = maybe_renew_leader d
  step ctx d (handles (begins n)) = begin_picked ctx (pick n d.spawned) d
  step ctx d (handles (returns n)) = return_picked (pick n d.active) d

  unfoldable pub run_events : Context → State F W S L → List Event → State F W S L
  run_events ctx d [] = d
  run_events ctx d (e ∷ es) = run_events ctx (step ctx d e) es

  -- `run` up to its `select` loop: an attempt at leadership and one tick; then any events, in any
  -- order.
  unfoldable pub run : Context → List Event → State F W S L → State F W S L
  run ctx es d = run_events ctx (tick ctx (maybe_renew_leader d)) es
