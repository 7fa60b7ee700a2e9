-- ===== src/Examples/Greeting.antt =====
-- Tests of examples/hello.
use sundial.Base.{ℕ, ◌≡◌, refl, false, [], ◌∷◌, ◌++◌, none, some, map, pos, text, arith}
use sundial.Errors.{ok}
use sundial.Leader.{MemoryLeader, memory_leader}
use sundial.Storage.Memory.{MemoryStorage, new_memory_storage, memory_storage}
use sundial.Dispatcher.State.{Env}
use sundial.Dispatcher.Dispatch.{ticks, renews, handles, begins, returns}
use sundial.Dispatcher.Budget.{on_memory}
use sundial.Hello.{last_at, redacted, hostname_or, Hits, set_up, run_set_up}
use sundial.Hello.Clean.{shown, hello_jobs, run_set_up_lem}
use sundial.Scheduler.{Scheduler}
use sundial.Examples.{formats, floats, options, no_deadline}
use sundial.Examples.Setups.{defaults}
use sundial.Hello.Redacted.{redacted_lem}

redacted_lem_example :
    redacted (text "postgres" ++ text "://" ++ text "u:p@ss" ++ 64 ∷ text "db/x")
    ≡ text "postgres" ++ text "://***@" ++ text "db/x"
redacted_lem_example =
    redacted_lem (text "postgres") (text "u:p@ss") (text "db/x") (ground arith) (ground arith)

-- A connection string of keywords has no '@', and is shown as it is.
shown_whole :
    redacted (text "host=db user=u password=secret") ≡ text "host=db user=u password=secret"
unfolding redacted last_at
shown_whole = refl

host_known : hostname_or (ok (text "h")) (text "fallback") ≡ text "h"
unfolding hostname_or
host_known = refl

abbrev no_hits : Hits
no_hits = record { hourly_hits = pos 0; probe_hits = pos 0 }

-- A clock that stands still.
abbrev demo : Env ℕ Hits MemoryStorage MemoryLeader
demo = record {
  storage_ops = memory_storage ℕ Hits;
  leader_ops = memory_leader;
  world_ops = record {
    now = λ w. (pos 2000, w);
    float64 = λ w. (1, w);
    message = λ e. text "error";
  };
  floats = floats;
  formats = formats;
  registry = [];
  opts = options;
}

run_set_up_lem_example :
    let made =
      set_up formats floats defaults
        (λ url. ok tt)
        new_memory_storage
        1
        []
        (pos 0)
        (ok (text "localhost"))
        []
        none in
    (sc : Scheduler ℕ Hits MemoryStorage MemoryLeader ℕ) × (made ≡ ok sc)
    × (sc.storage ≡ some new_memory_storage)
    × (map shown sc.jobs ≡ hello_jobs formats (pos 0))
    × ((run_set_up
          (on_memory demo)
          (λ e. false)
          no_deadline
          (ticks ∷ handles (begins 0) ∷ renews ∷ ticks ∷ [])
          (returns 0 ∷ [])
          no_hits
          made).0
        ≡ 0)
run_set_up_lem_example =
    run_set_up_lem demo formats floats defaults (λ e. false) (λ url. ok tt) new_memory_storage 1
      (pos 0) (ok (text "localhost")) [] none no_deadline
      (ticks ∷ handles (begins 0) ∷ renews ∷ ticks ∷ []) (returns 0 ∷ []) no_hits
