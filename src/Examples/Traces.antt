-- ===== src/Examples/Traces.antt =====
-- Tests of the spans: a run with two jobs, one of which panics, and a drain without a grace.
use sundial.Base.{ℕ, ◌≡◌, refl, List, [], ◌∷◌, none, some, text, pos, arith}
use sundial.Leader.{MemoryLeader}
use sundial.Storage.Memory.{MemoryStorage}
use sundial.Telemetry.{Span, status_ok, span_ended}
use sundial.Dispatcher.State.{Env, State}
use sundial.Dispatcher.Dispatch.{Event, ticks, renews, handles, begins, returns, run}
use sundial.Dispatcher.Trace.{span_at, IsComplete}
use sundial.Scheduler.Run.{drain, dispatcher}
use sundial.Scheduler.Run.Traced.{run-IsComplete}
use sundial.Scheduler.Run.{wait_all, execute_all, return_all}
use sundial.Dispatcher.Dispatch.{
  run_events, step, return_picked, pick, maybe_renew_leader, begin_picked, tick, dispatch_all,
  maybe_dispatch, is_follower, is_missed, miss_threshold,
}
use sundial.Storage.Memory.{
  memory_storage, fetch_due, claim_job, collect_due, due_gt, effective_limit, fill_run, find_id,
  record_run, schedule_retry, set_next_fire,
}
use sundial.Base.Sort.{insertion_sort, sink, sort_from}
use sundial.Dispatcher.State.{
  read_clock, attempts_of, bump, bump_attempt, forget, forget_attempt, lookup,
}
use sundial.Base.{text_lt, ◌+ℤ◌, text_eq, ◌-ℤ◌}
use sundial.Clock.{sub, wrap64}
use sundial.Dispatcher.Execute.{
  attempt_context, begin_attempt, compute_backoff, end_attempt, execute, record_outcome,
  retry_later, run_attempt, run_handler, safe_run, settle,
}
use sundial.Dispatcher.Load.{compute_next_fire}
use sundial.Schedule.{every, interval_schedule}
use sundial.Telemetry.{
  add_running, add_scheduled, new_telemetry, claimed_inc, end_span, on_span, record_duration,
  record_error, record_lag, start_run_span,
}
use sundial.Examples.{cluster, options, good, bad, two_rows, no_deadline}

abbrev graceless : Env ℕ ℕ MemoryStorage MemoryLeader
graceless = record cluster { opts = record options { shutdown_grace = pos 0 } }

abbrev loop_events : List Event
loop_events = handles (begins 0) ∷ ticks ∷ handles (begins 0) ∷ handles (returns 1) ∷ renews ∷ []

abbrev at_end : State ℕ ℕ MemoryStorage MemoryLeader
at_end = drain graceless no_deadline (returns 0 ∷ []) (
    run graceless no_deadline loop_events
      (dispatcher graceless (good ∷ bad ∷ []) two_rows none 2000))

abbrev first_span : Span
first_span = record {
  job_name = text "a";
  job_id = text "mem-job-1";
  schedule_kind = text "every";
  node_id = text "n1";
  fire_time = pos 1000;
  span_calls = status_ok ∷ span_ended ∷ [];
}

first_seen : span_at 0 at_end.telemetry.spans ≡ some first_span
unfolding span_at drain run wait_all execute_all return_all run_events step return_picked pick
    maybe_renew_leader begin_picked tick memory_storage fetch_due dispatch_all insertion_sort
    read_clock text_lt maybe_dispatch ◌+ℤ◌ sink sort_from text_eq sub wrap64 is_follower is_missed
    miss_threshold attempt_context begin_attempt compute_backoff end_attempt execute record_outcome
    retry_later run_attempt run_handler safe_run settle compute_next_fire attempts_of bump
    bump_attempt forget forget_attempt lookup every interval_schedule claim_job collect_due due_gt
    effective_limit fill_run find_id record_run schedule_retry set_next_fire add_running
    add_scheduled new_telemetry claimed_inc end_span on_span record_duration record_error record_lag
    start_run_span ◌-ℤ◌
first_seen = refl

run-IsComplete_example : IsComplete first_span
run-IsComplete_example =
    run-IsComplete graceless no_deadline loop_events (returns 0 ∷ []) (good ∷ bad ∷ []) two_rows
      none 2000 0 first_span (ground arith) first_seen
