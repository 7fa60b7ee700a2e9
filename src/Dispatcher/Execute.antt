-- ===== src/Dispatcher/Execute.antt =====
-- dispatcher.go: one handler attempt, from the deadline to the record of the run.
use sundial.Base.{
  ℕ, ◌+◌, ◌-◌, ℤ, pos, negsuc, ◌+ℤ◌, ltb_ℤ, [], Option, none, some, Text, if◌then◌else◌,
}
use sundial.Errors.{Error, handler_panicked}
use sundial.Clock.{Time, Duration, before, sub}
use sundial.Job.{Context, HandlerEnd, returned, panicked, HandlerFunc, RetryPolicy, Job, Float}
use sundial.Storage.Types.{
  DueJob, RunOutcome, run_succeeded, run_failed, run_dead_letter, RunRecord,
}
use sundial.Telemetry.{
  start_run_span, record_error, end_span, record_lag, record_duration, add_running,
}
use sundial.Dispatcher.State.{Env, State, Active, bump_attempt, forget_attempt, read_clock}

-- The deferred `recover` of `safeRun`.
abbrev pub recovered : HandlerEnd → Option Error
recovered (returned e) = e
recovered (panicked r) = some (handler_panicked r)

unfoldable pub safe_run : {W : Type 0} → Context → HandlerFunc W → W → Option Error × W
safe_run ctx h w = let (end, w') = h ctx w in (recovered end, w')

-- The random number is uniform in [0, 1).
unfoldable pub compute_backoff : {F : Type 0} → Float F → RetryPolicy F → ℤ → F → Duration
compute_backoff fl p attempt random =
    let n = (if ltb_ℤ attempt (pos 1) then pos 1 else attempt) in
    let grown =
      fl.mul_float (fl.of_int p.initial_backoff)
        (fl.pow_float p.multiplier (fl.of_int (n +ℤ negsuc 0))) in
    let base =
      (if fl.gt_float grown (fl.of_int p.max_backoff) then fl.of_int p.max_backoff else grown) in
    fl.to_duration (fl.mul_float base (fl.add_float fl.half random))

-- `context.WithTimeout` on a context: the earlier of the two deadlines.
abbrev pub earlier : Option Time → Time → Option Time
earlier none t = some t
earlier (some u) t = if before u t then some u else some t

abbrev pub outcome_of : Option Error → RunOutcome
outcome_of none = run_succeeded
outcome_of (some _) = run_failed

abbrev pub error_text : (Error → Text) → Option Error → Text
error_text message none = []
error_text message (some e) = message e

-- An attempt whose handler is about to be called, and one whose handler has come back.
pub record Begun (F W S L : Type 0) : Type 0 where
  pub ctx : Context
  pub started : Time
  pub attempt : ℤ
  pub span : ℕ
  pub state : State F W S L

pub record Ended (F W S L : Type 0) : Type 0 where
  pub error : Option Error
  pub finished : Time
  pub span : ℕ
  pub state : State F W S L

-- The attempt of a goroutine whose handler is running.
abbrev pub resumed : {F W S L : Type 0} → Active F W → State F W S L → Begun F W S L
resumed a d = record {
  ctx = a.ctx;
  started = a.started;
  attempt = a.attempt;
  span = a.span;
  state = d;
}

module _ {F W S L : Type 0} (env : Env F W S L) where
  open env use {storage_ops, world_ops, floats, opts}

  unfoldable pub attempt_context : Context → Duration → State F W S L → Context × State F W S L
  attempt_context parent timeout d =
      let (t, d') = read_clock env d in
      if ltb_ℤ (pos 0) timeout
      then (record { deadline = earlier parent.deadline (t +ℤ timeout) }, d')
      else (parent, d)

  unfoldable pub run_handler : Context → Job F W → State F W S L → Option Error × State F W S L
  unfolding safe_run
  run_handler ctx job d =
      let (e, w) = safe_run ctx job.handler d.world in (e, record d { world = w })

  -- `ScheduleRetry` at now plus the backoff; its error is only logged.
  unfoldable pub retry_later : Job F W → DueJob → ℤ → State F W S L → State F W S L
  unfolding compute_backoff
  retry_later job dj attempt d =
      let (random, w) = world_ops.float64 d.world in
      let backoff = compute_backoff floats job.options.retry attempt random in
      let (t, d') = read_clock env (record d { world = w }) in
      record d' { storage = (storage_ops.schedule_retry dj.id (t +ℤ backoff) d'.storage).1 }

  -- After the handler: retry, give up, or start afresh. The result is the outcome to record.
  unfoldable pub settle :
      Job F W → DueJob → ℤ → Option Error → State F W S L → RunOutcome × State F W S L
  unfolding forget_attempt
  settle job dj attempt none d = (run_succeeded, forget_attempt dj.id d)
  settle job dj attempt (some e) d =
      if ltb_ℤ attempt job.options.retry.max_attempts
      then (run_failed, retry_later job dj attempt d)
      else (run_dead_letter, forget_attempt dj.id d)

  -- `RecordRun`; its error is only logged. It looks at the clock only if `finished_at` is zero.
  unfoldable pub record_outcome : RunRecord → State F W S L → State F W S L
  record_outcome r d = record d {
    storage = (storage_ops.record_run r (world_ops.now d.world).0 d.storage).1;
  }

  abbrev pub run_record : DueJob → Time → Time → ℤ → RunOutcome → Option Error → RunRecord
  run_record dj started finished attempt outcome e = record {
    job_id = dj.id;
    fire_time = dj.next_fire_time;
    started_at = started;
    finished_at = finished;
    node_id = opts.node_id;
    attempt = attempt;
    outcome = outcome;
    error = error_text world_ops.message e;
  }

  -- `d.telemetry.jobsRunning.Add`
  abbrev running : ℤ → State F W S L → State F W S L
  running n d = record d { telemetry = add_running n d.telemetry }

  -- The deferred `span.End()`, `d.telemetry.jobsRunning.Add(parent, -1)` and `d.inFlight.Done()`.
  abbrev done : ℕ → State F W S L → State F W S L
  done span d = record d {
    in_flight = d.in_flight - 1;
    telemetry = add_running (negsuc 0) (end_span span d.telemetry);
  }

  -- `startRunSpan`
  abbrev tracing : DueJob → State F W S L → ℕ × State F W S L
  tracing dj d =
      let (span, t) =
        start_run_span dj.name dj.id opts.node_id dj.schedule_kind dj.next_fire_time d.telemetry in
      (span, record d { telemetry = t })

  abbrev lagging : DueJob → Time → State F W S L → State F W S L
  lagging dj started d = record d {
    telemetry = record_lag dj.name dj.next_fire_time started d.telemetry;
  }

  -- `span.RecordError`, if the handler failed, and `recordDuration`
  abbrev lasting : ℕ → DueJob → Duration → Option Error → State F W S L → State F W S L
  lasting span dj dur e d = record d {
    telemetry = record_duration span dj.name dur (outcome_of e) (record_error span e d.telemetry);
  }

  -- Up to the call of the handler.
  unfoldable pub begin_attempt : Context → Job F W → DueJob → State F W S L → Begun F W S L
  begin_attempt parent job dj d =
      let (span, d0) = tracing dj (running (pos 1) d) in
      let (ctx, d1) = attempt_context parent job.options.timeout d0 in
      let (started, d2) = read_clock env d1 in
      let (attempt, d3) = bump_attempt dj.id (lagging dj started d2) in
      record { ctx = ctx; started = started; attempt = attempt; span = span; state = d3 }

  -- The handler, and the measure of how long it took.
  unfoldable pub run_attempt : Job F W → DueJob → Begun F W S L → Ended F W S L
  run_attempt job dj b =
      let (e, d1) = run_handler b.ctx job b.state in
      let (finished, d2) = read_clock env d1 in
      record {
        error = e;
        finished = finished;
        span = b.span;
        state = lasting b.span dj (sub finished b.started) e d2;
      }

  -- The retry, the record of the run, and the deferred calls.
  unfoldable pub end_attempt : Job F W → DueJob → Time → ℤ → Ended F W S L → State F W S L
  end_attempt job dj started attempt r =
      let (outcome, d) = settle job dj attempt r.error r.state in
      done r.span (record_outcome (run_record dj started r.finished attempt outcome r.error) d)

  unfoldable pub execute : Context → Job F W → DueJob → State F W S L → State F W S L
  execute parent job dj d =
      let b = begin_attempt parent job dj d in
      end_attempt job dj b.started b.attempt (run_attempt job dj b)

  -- The caller has to have added 1 to `in_flight`, which `executeAtFire` does.
  unfoldable pub execute_at_fire : Context → Job F W → DueJob → State F W S L → State F W S L
  execute_at_fire ctx job dj d = execute ctx job dj (record d { in_flight = d.in_flight + 1 })
