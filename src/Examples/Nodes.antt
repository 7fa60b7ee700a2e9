-- ===== src/Examples/Nodes.antt =====
-- Tests of the dispatcher: nodes of the cluster, its clocks and its handlers.
use sundial.Base.{
  ℕ, ◌≡◌, ◌≢◌, ◌⊎◌, none, refl, sym, subst, List, [], ◌∷◌, map, some, text, text_eq, arith,
  int_laws, pos, negsuc, ◌+ℤ◌,
}
use sundial.Errors.{ok, handler_panicked}
use sundial.Clock.{Time, Duration}
use sundial.Schedule.{at, every, interval_schedule}
use sundial.Job.{Job}
use sundial.Leader.{MemoryLeader}
use sundial.Telemetry.{new_telemetry}
use sundial.Storage.Types.{run_failed, run_dead_letter}
use sundial.Storage.Memory.{MemoryStorage, find_id, find_name, ensure_job, fetch_due}
use sundial.Storage.Memory.Claim.{view}
use sundial.Storage.Memory.Lawful.{memory_laws}
use sundial.Dispatcher.State.{State, attempts_of, lookup}
use sundial.Dispatcher.Load.{load_schedule_from_due, compute_next_fire}
use sundial.Dispatcher.Dispatch.{ticks, renews, handles, begins, returns, maybe_dispatch, run}
use sundial.Dispatcher.Balance.{IsBalanced, run-IsBalanced}
use sundial.Dispatcher.Stored.{
  FormatLaws, by_every, Agrees, compute_next_fire-load, load_schedule-made,
}
use sundial.Dispatcher.Expired.{Returns, at_never_runs}
use sundial.Dispatcher.Budget.{AlwaysFails, attempt_of, execute_times, on_memory, retry_budget}
use sundial.Dispatcher.Fire.{IsIdle, IsNotReplayed, node, same_fire_once}
use sundial.Dispatcher.Interval.{interval_fires_twice}
use sundial.Examples.{
  formats, hourly, good, bad, options, cluster, fresh, id_a, due_a, due_b, two_rows, no_deadline,
}
use sundial.Examples.Stores.{two_rows-IsWf, two_rows-Valid}

-- Storage, leadership and the world after node n1 has dispatched job a at 2000.
abbrev dispatched : State ℕ ℕ MemoryStorage MemoryLeader
dispatched = maybe_dispatch cluster no_deadline due_a (pos 2000) fresh

abbrev second_node : State ℕ ℕ MemoryStorage MemoryLeader
second_node = record fresh { storage = dispatched.storage }

formats-FormatLaws : FormatLaws formats
formats-FormatLaws = record {
  duration_back = λ d l h. back d;
  time_back = λ t z y. (t, back t, omega int_laws, omega int_laws);
}
  where
    back : (d : Duration) → formats.parse_duration (formats.format_duration d) ≡ ok d
    back (pos n) = refl
    back (negsuc n) = refl

-- The next fire of an hourly row is an hour from the reading of the clock.
next_of : (now : Time) → compute_next_fire cluster.formats due_a now ≡ ok (now +ℤ pos 3600000000000)
unfolding compute_next_fire text_eq every interval_schedule
next_of now = refl

good_found : lookup due_a.name (on_memory cluster).registry ≡ some good
unfolding lookup text_eq
good_found = refl

good-IsNotReplayed :
    (registry : List (Job ℕ ℕ))
    → lookup due_a.name registry ≡ some good
    → IsNotReplayed (lookup due_a.name registry)
good-IsNotReplayed registry e = subst IsNotReplayed (sym e) (λ q. cc)

good_second : lookup due_a.name (bad ∷ good ∷ []) ≡ some good
unfolding lookup text_eq
good_second = refl

same_fire_once_example :
    IsIdle fresh dispatched
    ⊎ IsIdle second_node (
        maybe_dispatch
          (node cluster (bad ∷ good ∷ []) options)
          no_deadline
          due_a
          (pos 2000)
          second_node)
same_fire_once_example =
    same_fire_once cluster (memory_laws ℕ ℕ) no_deadline due_a (pos 2000) (pos 2000)
      (pos 2000 +ℤ pos 3600000000000) fresh second_node (bad ∷ good ∷ []) options two_rows-Valid
      (good-IsNotReplayed cluster.registry good_found)
      (good-IsNotReplayed (bad ∷ good ∷ []) good_second) (next_of (pos 2000)) (next_of (pos 2000))
      refl

pub fresh-IsBalanced : IsBalanced cluster fresh
unfolding new_telemetry
fresh-IsBalanced = record { counted = refl; gauged = refl }

run-IsBalanced_example :
    IsBalanced cluster (
      run cluster no_deadline
        (renews ∷ handles (begins 0) ∷ ticks ∷ handles (returns 0) ∷ [])
        fresh)
run-IsBalanced_example =
    run-IsBalanced cluster no_deadline
      (renews ∷ handles (begins 0) ∷ ticks ∷ handles (returns 0) ∷ []) fresh fresh-IsBalanced

compute_next_fire-load_example :
    Agrees
      (pos 2000)
      (load_schedule_from_due formats due_a)
      (compute_next_fire formats due_a (pos 2000))
compute_next_fire-load_example = compute_next_fire-load formats due_a (pos 2000)

hourly_made : every formats (pos 3600000000000) ≡ ok hourly
unfolding every
hourly_made = refl

load_schedule-made_example : load_schedule_from_due formats due_a ≡ ok hourly
unfolding interval_schedule
load_schedule-made_example =
    load_schedule-made formats hourly due_a formats-FormatLaws
      (by_every (pos 3600000000000) (omega arith) hourly_made) refl refl

-- A job at the instant 1000, under a name that has no row.
abbrev once_at : Job ℕ ℕ
once_at = record good { name = text "once"; schedule = at formats (pos 1000) }

once_free : find_name (text "once") two_rows.jobs ≡ none
unfolding find_name text_eq
once_free = refl

at_never_runs_example :
    Returns
      (λ dj.
        (text "once" ≢ dj.name)
        ⊎ (maybe_dispatch (on_memory cluster) no_deadline dj (pos 2000) fresh ≡ fresh))
      (fetch_due (pos 2000) (pos 64) (ensure_job (some once_at) (pos 1000) two_rows).1).0
at_never_runs_example =
    at_never_runs cluster no_deadline once_at (pos 1000) (pos 2000) (pos 64) two_rows fresh
      formats-FormatLaws (omega arith) (omega arith) refl once_free

bad-AlwaysFails : AlwaysFails cluster bad
bad-AlwaysFails c w = (handler_panicked (text "no"), refl)

retry_budget_example :
    let d' = execute_times (on_memory cluster) no_deadline bad due_b 2 fresh in
    (map attempt_of d'.storage.runs ≡ (pos 1, run_failed) ∷ (pos 2, run_dead_letter) ∷ [])
    × (attempts_of due_b.id d'.attempts ≡ 0)
unfolding attempts_of
retry_budget_example = retry_budget cluster no_deadline bad due_b 1 fresh bad-AlwaysFails refl refl

good_found_alone : lookup due_a.name (good ∷ []) ≡ some good
unfolding lookup text_eq
good_found_alone = refl

row_a_stored : view two_rows id_a ≡ some (pos 1000)
unfolding view find_id text_eq
row_a_stored = refl

abbrev on_second : State ℕ ℕ MemoryStorage MemoryLeader
on_second = record fresh {
  storage = (maybe_dispatch (on_memory cluster) no_deadline due_a (pos 2000) fresh).storage;
}

interval_fires_twice_example :
    ((maybe_dispatch (on_memory cluster) no_deadline due_a (pos 2000) fresh).spawned
      ≡ record { job = good; due = due_a; claimed_for = pos 2000 +ℤ pos 3600000000000 } ∷ [])
    × ((maybe_dispatch
          (node (on_memory cluster) (good ∷ []) options)
          no_deadline
          due_a
          (pos 2001)
          on_second).spawned
        ≡ record { job = good; due = due_a; claimed_for = pos 2001 +ℤ pos 3600000000000 } ∷ [])
interval_fires_twice_example =
    interval_fires_twice cluster no_deadline due_a good good 3600000000000 (pos 2000) (pos 2001)
      fresh on_second (good ∷ []) options (refl, refl) (refl, refl) two_rows-IsWf good_found
      good_found_alone (next_of (pos 2000)) (next_of (pos 2001)) (omega arith) (omega arith)
      (omega arith) row_a_stored (omega arith) refl
