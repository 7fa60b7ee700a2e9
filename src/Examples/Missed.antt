-- ===== src/Examples/Missed.antt =====
-- Tests of the dispatcher: missed fires under the RunAll and the Skip policy.
use sundial.Base.{
  true, false, ◌-ℤ◌, ℕ, ◌≡◌, refl, [], ◌∷◌, ◌++◌, map, none, some, text_eq, pos, ◌+ℤ◌, Text,
  if◌then◌else◌, ◌&&◌,
}
use sundial.Errors.{ok}
use sundial.Schedule.{every, interval_schedule, iterate_schedule, fires_from}
use sundial.Leader.{MemoryLeader}
use sundial.Storage.Memory.{MemoryStorage, find_id}
use sundial.Storage.Memory.Claim.{view, claim_spec}
use sundial.Dispatcher.State.{Env, lookup}
use sundial.Dispatcher.Load.{load_schedule_from_due, compute_next_fire}
use sundial.Dispatcher.Execute.{safe_run, run_handler, run_attempt}
use sundial.Dispatcher.Dispatch.{maybe_dispatch, run_all_missed, max_catchup_instants}
use sundial.Dispatcher.Retry.{error_of}
use sundial.Dispatcher.Budget.{on_memory}
use sundial.Dispatcher.Fire.{node}
use sundial.Dispatcher.Replay.{fire_of, replayed, run_all_missed-fires, run_all_missed_stays}
use sundial.Dispatcher.Dispatch.{is_missed, is_follower, miss_threshold}
use sundial.Dispatcher.Skip.{maybe_dispatch-skips}
use sundial.Job.{Job, skip}
use sundial.Clock.{sub, wrap64}
use sundial.Examples.{
  hourly, good, bad, options, cluster, fresh, id_a, due_a, due_b, two_rows, no_deadline,
}
use sundial.Examples.Stores.{two_rows-IsWf}

loaded : load_schedule_from_due (on_memory cluster).formats due_b ≡ ok hourly
unfolding load_schedule_from_due text_eq every interval_schedule
loaded = refl

run_all_missed-fires_example :
    map fire_of
      (run_all_missed
        (on_memory cluster)
        no_deadline
        bad
        due_b
        (pos 7200000005000)
        fresh).storage.runs
    ≡ map fire_of two_rows.runs
      ++ map
          (λ t. (due_b.id, t))
          (replayed
            (pos 1000)
            (iterate_schedule (some hourly) (pos 1000) (pos 7200000005000) max_catchup_instants))
run_all_missed-fires_example =
    run_all_missed-fires cluster no_deadline bad due_b (pos 7200000005000) fresh hourly loaded

loaded_a : load_schedule_from_due (on_memory cluster).formats due_a ≡ ok hourly
unfolding load_schedule_from_due text_eq every interval_schedule
loaded_a = refl

none_missed : iterate_schedule (some hourly) (pos 1000) (pos 5000000000) max_catchup_instants ≡ []
unfolding iterate_schedule fires_from interval_schedule ◌+ℤ◌
none_missed = refl

good_succeeds :
    error_of (on_memory cluster) no_deadline good due_a (record fresh { in_flight = 1 }) ≡ none
unfolding error_of run_attempt run_handler safe_run
good_succeeds = refl

run_all_missed_stays_example :
    let d' = run_all_missed (on_memory cluster) no_deadline good due_a (pos 5000000000) fresh in
    (d'.storage.jobs ≡ two_rows.jobs)
    × (map fire_of d'.storage.runs ≡ map fire_of two_rows.runs ++ (id_a, pos 1000) ∷ [])
run_all_missed_stays_example =
    run_all_missed_stays cluster no_deadline good due_a (pos 5000000000) fresh hourly loaded_a
      none_missed good_succeeds

-- A node on which job a has the Skip policy.
abbrev lazy : Job ℕ ℕ
lazy = record good {
  options = record {
    timeout = pos 0;
    leader_only = false;
    missed_fire = skip;
    retry = good.options.retry;
  };
}

abbrev skipper : Env ℕ ℕ MemoryStorage MemoryLeader
skipper = node cluster (lazy ∷ []) options

lazy_found : lookup due_a.name (on_memory skipper).registry ≡ some lazy
unfolding lookup text_eq
lazy_found = refl

late : is_missed (on_memory skipper).opts.tick_interval due_a (pos 5000000000) ≡ true
unfolding is_missed miss_threshold wrap64 sub ◌+ℤ◌ ◌-ℤ◌
late = refl

next_hour :
    compute_next_fire (on_memory skipper).formats due_a (pos 5000000000) ≡ ok (pos 3605000000000)
unfolding compute_next_fire text_eq every interval_schedule ◌+ℤ◌
next_hour = refl

row_a_stored : view two_rows id_a ≡ some (pos 1000)
unfolding view find_id text_eq
row_a_stored = refl

maybe_dispatch-skips_example :
    let d' = maybe_dispatch (on_memory skipper) no_deadline due_a (pos 5000000000) fresh in
    (d'.spawned ≡ fresh.spawned)
    × (d'.in_flight ≡ fresh.in_flight)
    × (d'.storage.runs ≡ two_rows.runs)
    × (d'.world ≡ fresh.world)
    × ((k : Text)
        → view d'.storage k ≡ (
            if lazy.options.leader_only && is_follower (on_memory skipper) fresh.leader
            then view two_rows k
            else (claim_spec id_a (pos 3605000000000) (view two_rows) (view two_rows id_a)).1 k))
maybe_dispatch-skips_example =
    maybe_dispatch-skips skipper no_deadline due_a lazy (pos 5000000000) (pos 3605000000000) fresh
      two_rows-IsWf lazy_found refl late next_hour refl
