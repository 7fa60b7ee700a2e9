-- ===== src/Examples/Setups.antt =====
-- Tests of the scheduler's set-up and registry.
use sundial.Base.{
  ℕ, ◌≡◌, ◌⊎◌, refl, true, false, List, [], ◌∷◌, map, Option, none, some, Text, text, text_lt,
  arith, pos, ◌<ℤ◌, Perm,
}
use sundial.Base.Sort.{IsSorted}
use sundial.Errors.{ok}
use sundial.Job.{with_leader_only}
use sundial.Leader.{MemoryLeader, new_memory_leader}
use sundial.Storage.Memory.{MemoryStorage, new_memory_storage}
use sundial.Dispatcher.State.{lookup}
use sundial.Scheduler.{
  Scheduler, Defaults, with_storage, with_leader, apply_options, fill_options, new, schedule,
  jobs_of, job_names,
}
use sundial.Scheduler.Setup.{storage_choice, leader_choice, chosen, IsReady, new-IsReady}
use sundial.Scheduler.Registry.{IsRegistry, Schedules, schedule-Schedules, jobs_of_lem}
use sundial.Dispatcher.Dispatch.{ticks, renews, begins, returns}
use sundial.Dispatcher.Balance.{IsBalanced}
use sundial.Dispatcher.Budget.{on_memory}
use sundial.Errors.{already_running}
use sundial.Scheduler.Run.{run, failed, drain, drain-IsBalanced, run-ends, ensure_all}
use sundial.Scheduler.Run.Persisted.{AllStored, ensure_all-stored}
use sundial.Examples.{floats, options, good, bad, hourly, two_rows, cluster, fresh, no_deadline}
use sundial.Examples.Nodes.{fresh-IsBalanced}

abbrev pub defaults : Defaults MemoryStorage MemoryLeader ℕ
defaults = record {
  default_logger = 0;
  postgres_storage = λ schema. new_memory_storage;
  postgres_leader = new_memory_leader;
}

-- A scheduler with no jobs.
abbrev ready :
    Option MemoryStorage → Option MemoryLeader → Scheduler ℕ ℕ MemoryStorage MemoryLeader ℕ
ready st le = record {
  has_pool = true;
  storage = st;
  leader = le;
  logger = 0;
  opts = options;
  jobs = [];
  running = false;
  stopped = false;
}

abbrev pub both : Scheduler ℕ ℕ MemoryStorage MemoryLeader ℕ
both = record (ready (some two_rows) none) { jobs = bad ∷ good ∷ [] }

made :
    new defaults true options
      (map chosen (storage_choice (some two_rows) ∷ leader_choice (some new_memory_leader) ∷ []))
    ≡ ok (ready (some two_rows) (some new_memory_leader))
unfolding new fill_options with_storage with_leader apply_options new_memory_leader
made = refl

new-IsReady_example : IsReady options (ready (some two_rows) (some new_memory_leader))
new-IsReady_example =
    new-IsReady defaults true options
      (storage_choice (some two_rows) ∷ leader_choice (some new_memory_leader) ∷ [])
      (ready (some two_rows) (some new_memory_leader)) made

pub both-IsRegistry : IsRegistry both.jobs
both-IsRegistry = ((λ e. ground arith, tt), (tt, tt))

schedule-Schedules_example :
    Schedules floats
      (text "c")
      (some hourly)
      (some good.handler)
      (with_leader_only ∷ [])
      both
      (schedule floats (text "c") (some hourly) (some good.handler) (with_leader_only ∷ []) both)
schedule-Schedules_example =
    schedule-Schedules floats (text "c") (some hourly) (some good.handler) (with_leader_only ∷ [])
      both both-IsRegistry

jobs_of_lem_example :
    Perm (jobs_of both) (map some both.jobs)
    × ((names : List Text) × Perm names (job_names both.jobs)
        × IsSorted (λ a b. text_lt b a) names
        × (jobs_of both ≡ map (λ n. lookup n both.jobs) names))
jobs_of_lem_example = jobs_of_lem both both-IsRegistry

drain-IsBalanced_example :
    let d' = drain cluster no_deadline (begins 1 ∷ returns 0 ∷ []) fresh in
    IsBalanced cluster d'
    × ((pos 0 <ℤ cluster.opts.shutdown_grace)
        ⊎ ((d'.spawned ≡ []) × (d'.active ≡ []) × (d'.in_flight ≡ 0)))
drain-IsBalanced_example =
    drain-IsBalanced cluster no_deadline (begins 1 ∷ returns 0 ∷ []) fresh fresh-IsBalanced

run-ends_example :
    let (end, sc', w') = run cluster no_deadline (renews ∷ ticks ∷ []) (begins 0 ∷ []) 2000 both in
    ((both.running ≡ true) × (end ≡ failed already_running) × (sc' ≡ both) × (w' ≡ 2000))
    ⊎ ((both.running ≡ false)
        × (sc'.running ≡ false)
        × (sc'.jobs ≡ both.jobs)
        × (sc'.opts ≡ both.opts)
        × (sc'.stopped ≡ both.stopped))
run-ends_example =
    run-ends cluster no_deadline (renews ∷ ticks ∷ []) (begins 0 ∷ []) 2000 both two_rows refl

ensure_all-stored_example :
    let (e, m') = ensure_all (on_memory cluster) (good ∷ bad ∷ []) (pos 2000) new_memory_storage in
    (e ≡ none) × AllStored cluster (pos 2000) m' (good ∷ bad ∷ [])
ensure_all-stored_example =
    ensure_all-stored cluster (good ∷ bad ∷ []) (pos 2000) new_memory_storage
      ((λ e. ground arith, tt), (tt, tt))
