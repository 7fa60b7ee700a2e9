-- ===== src/Examples/Clusters.antt =====
-- Tests of a cluster of nodes over one MemoryStorage.
use sundial.Base.{
  ℕ, ◌-ℤ◌, ◌≡◌, ◌≤◌, refl, List, [], ◌∷◌, pos, ◌+ℤ◌, arith, All, ◌==◌, if◌then◌else◌,
}
use sundial.Leader.{MemoryLeader}
use sundial.Job.{Job}
use sundial.Clock.{Time}
use sundial.Storage.Memory.{MemoryStorage, memory_storage}
use sundial.Storage.Memory.Lawful.{memory_laws}
use sundial.Dispatcher.State.{Env}
use sundial.Dispatcher.Dispatch.{ticks, handles, begins, returns}
use sundial.Dispatcher.Cluster.{
  Turn, acts, fetches, dispatches, fetch_rows, Cluster, total_starts, starts, cluster_step,
}
use sundial.Dispatcher.Cluster.Quiet.{NotRetried}
use sundial.Dispatcher.Cluster.Once.{IsCalm, total_starts-le-one}
use sundial.Dispatcher.Dispatch.{
  run_events, step, return_picked, pick, maybe_renew_leader, begin_picked, tick, dispatch_all,
  maybe_dispatch, is_follower, is_missed, miss_threshold,
}
use sundial.Storage.Memory.{
  fetch_due, claim_job, collect_due, due_gt, effective_limit, fill_run, find_id, record_run,
  schedule_retry, set_next_fire,
}
use sundial.Base.Sort.{insertion_sort, sink, sort_from}
use sundial.Dispatcher.State.{
  read_clock, attempts_of, bump, bump_attempt, forget, forget_attempt, lookup,
}
use sundial.Base.{text_lt, text_eq}
use sundial.Clock.{sub, wrap64}
use sundial.Dispatcher.Execute.{
  attempt_context, begin_attempt, compute_backoff, end_attempt, execute, record_outcome,
  retry_later, run_attempt, run_handler, safe_run, settle,
}
use sundial.Dispatcher.Load.{compute_next_fire}
use sundial.Schedule.{every, interval_schedule}
use sundial.Telemetry.{
  add_running, new_telemetry, claimed_inc, end_span, on_span, record_duration, record_error,
  record_lag, start_run_span,
}
use sundial.Examples.{cluster, good, bad, two_rows, due_a, due_b, fresh, no_deadline, id_a}
use sundial.Examples.Stores.{two_rows-Valid}

-- A job with one attempt.
abbrev single : Job ℕ ℕ → Job ℕ ℕ
single j = record j {
  options = record j.options { retry = record j.options.retry { max_attempts = pos 1 } };
}

-- Node 0 has both jobs, and the others have one.
abbrev jobs_of_node : ℕ → List (Job ℕ ℕ)
jobs_of_node k = if k == 0 then single good ∷ single bad ∷ [] else single good ∷ []

abbrev envs : ℕ → Env ℕ ℕ MemoryStorage MemoryLeader
envs k = record cluster { registry = jobs_of_node k }

abbrev start : Cluster ℕ ℕ MemoryStorage MemoryLeader
start = record { nodes = λ k. fresh; shared = two_rows }

abbrev turns : List (ℕ × Turn)
turns =
    (1, fetches)
    ∷ (0, fetches)
    ∷ (1, dispatches due_a (pos 2000))
    ∷ (0, dispatches due_a (pos 2000))
    ∷ (1, acts (handles (begins 0)))
    ∷ (0, dispatches due_b (pos 2000))
    ∷ (1, acts (handles (returns 0)))
    ∷ (2, acts ticks)
    ∷ []

abbrev next_fire : Time
next_fire = pos 3600000002000

started_once : total_starts (memory_storage ℕ ℕ) envs no_deadline id_a next_fire turns start ≡ 1
unfolding total_starts fetch_rows run_events step return_picked pick maybe_renew_leader begin_picked
    tick memory_storage fetch_due dispatch_all insertion_sort read_clock text_lt maybe_dispatch ◌+ℤ◌
    sink sort_from text_eq sub wrap64 is_follower is_missed miss_threshold attempt_context
    begin_attempt compute_backoff end_attempt execute record_outcome retry_later run_attempt
    run_handler safe_run settle compute_next_fire attempts_of bump bump_attempt forget
    forget_attempt lookup every interval_schedule claim_job collect_due due_gt effective_limit
    fill_run find_id record_run schedule_retry set_next_fire add_running new_telemetry claimed_inc
    end_span on_span record_duration record_error record_lag start_run_span starts cluster_step ◌-ℤ◌
started_once = refl

not_retried : (k : ℕ) → All NotRetried (envs k).registry
not_retried k = ground arith

start-IsCalm : IsCalm (memory_storage ℕ ℕ) (memory_laws ℕ ℕ) envs no_deadline not_retried start
start-IsCalm = record { valid = two_rows-Valid; quiet = λ k. record { waiting = tt; running = tt } }

total_starts-le-one_example :
    total_starts (memory_storage ℕ ℕ) envs no_deadline id_a next_fire turns start ≤ 1
total_starts-le-one_example =
    total_starts-le-one (memory_storage ℕ ℕ) (memory_laws ℕ ℕ) envs no_deadline not_retried id_a
      next_fire turns start start-IsCalm
