-- ===== src/Examples/Changes.antt =====
-- Tests of a run during which jobs are scheduled and the scheduler is stopped.
use sundial.Base.{ℕ, none, ◌≡◌, refl, List, [], ◌∷◌, ◌++◌, some, text, pos, text_eq}
use sundial.Job.{with_leader_only}
use sundial.Storage.Memory.{fetch_due, find_name}
use sundial.Storage.Memory.Lawful.{memory_laws}
use sundial.Dispatcher.State.{lookup}
use sundial.Dispatcher.Dispatch.{ticks, renews, handles, begins, returns}
use sundial.Dispatcher.Budget.{on_memory}
use sundial.Scheduler.{schedule, stop, job_names}
use sundial.Scheduler.Live.{
  Happening, loops, schedules, stops, happen, happen_all, IsSound, Extends, happen_all-IsSound,
}
use sundial.Scheduler.Live.Late.{Misses, late_job_lem}
use sundial.Examples.{hourly, good, two_rows, cluster, fresh, no_deadline}
use sundial.Examples.Stores.{two_rows-IsWf, two_rows-Valid}
use sundial.Examples.Nodes.{fresh-IsBalanced}
use sundial.Examples.Setups.{both, both-IsRegistry}

-- A tick, a new job, two more ticks with the attempt of a handler, and jobs around a Stop.
abbrev happenings : List (Happening ℕ ℕ)
happenings =
    loops ticks
    ∷ schedules (text "c") (some hourly) (some good.handler) (with_leader_only ∷ [])
    ∷ loops (handles (begins 0))
    ∷ loops renews
    ∷ loops ticks
    ∷ schedules (text "d") (some hourly) (some good.handler) []
    ∷ stops
    ∷ schedules (text "e") (some hourly) (some good.handler) []
    ∷ loops (handles (returns 0))
    ∷ loops ticks
    ∷ []

-- What the calls of Schedule in it leave.
names_after :
    job_names (happen_all cluster no_deadline happenings (both, fresh)).0.jobs
    ≡ text "d" ∷ text "c" ∷ job_names both.jobs
unfolding happen_all happen schedule lookup stop text_eq
names_after = refl

IsSound-start : IsSound cluster no_deadline (memory_laws ℕ ℕ) (both, fresh)
IsSound-start = record {
  keys = both-IsRegistry;
  balanced = record { counted = fresh-IsBalanced.counted; gauged = fresh-IsBalanced.gauged };
  valid = two_rows-Valid;
}

happen_all-IsSound_example :
    IsSound cluster no_deadline
      (memory_laws ℕ ℕ)
      (happen_all cluster no_deadline happenings (both, fresh))
    × Extends cluster no_deadline both (happen_all cluster no_deadline happenings (both, fresh)).0
    × ((happen_all cluster no_deadline (happenings ++ stops ∷ happenings) (both, fresh)).0.jobs
        ≡ (happen_all cluster no_deadline happenings (both, fresh)).0.jobs)
happen_all-IsSound_example =
    happen_all-IsSound cluster no_deadline (memory_laws ℕ ℕ) happenings happenings (both, fresh)
      IsSound-start

no_row : find_name (text "c") two_rows.jobs ≡ none
unfolding find_name text_eq
no_row = refl

late_job_lem_example :
    Misses
      (text "c")
      (fetch_due
        (pos 900000)
        (pos 64)
        (happen_all (on_memory cluster) no_deadline happenings (both, fresh)).1.storage).0
late_job_lem_example =
    late_job_lem cluster no_deadline (text "c") happenings both fresh (pos 900000) (pos 64)
      two_rows-IsWf no_row
