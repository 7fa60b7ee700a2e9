-- ===== src/Hello/Clean.antt =====
-- How examples/hello/main.go ends without a database.
use sundial.Base.{
  ℕ, ◌≡◌, ◌≢◌, refl, ap, ◌∙◌, Bool, true, false, List, [], ◌∷◌, Option, none, some, map, pos, ◌+ℤ◌,
  Text, text, text_eq, if◌then◌else◌, arith,
}
use sundial.Errors.{Error, Result, ok}
use sundial.Clock.{Time}
use sundial.Schedule.{Formats, every, interval_schedule}
use sundial.Job.{
  Context, Float, Job, MissedFirePolicy, run_once, with_leader_only, with_missed_fire,
  with_defaults, zero_options,
}
use sundial.Schedule.{at}
use sundial.Storage.Memory.{MemoryStorage}
use sundial.Dispatcher.State.{Env, lookup}
use sundial.Dispatcher.Dispatch.{Event, HandlerEvent}
use sundial.Dispatcher.Budget.{on_memory}
use sundial.Scheduler.{
  Scheduler, Defaults, auto_node_id, new, with_storage, with_logger, apply_options, fill_options,
  schedule,
}
use sundial.Scheduler.Setup.{auto_node_id-ne-nil}
use sundial.Scheduler.Run.{run, cancelled, after_ensure, ensure_all, on_storage}
use sundial.Scheduler.Run.Persisted.{DistinctJobs, ensure_all-stored}
use sundial.Hello.{Hits, set_up, set_up_as, register_or_exit, run_set_up, exit_code}

module _ {F W L Lg : Type 0} (any_env : Env F W MemoryStorage L) where
  -- A scheduler over MemoryStorage whose jobs have different names runs until it is cancelled.
  run-cancelled :
      (ctx : Context) (es : List Event) (order : List HandlerEvent) (w : W)
      → (sc : Scheduler F W MemoryStorage L Lg) (m : MemoryStorage) → sc.running ≡ false
      → sc.storage ≡ some m
      → DistinctJobs any_env sc.jobs
      → (run (on_memory any_env) ctx es order w sc).0 ≡ cancelled
  unfolding run
  run-cancelled ctx es order w sc m idle stored d =
      rw (idle, if◌then◌else◌, stored, on_storage)
        (by_ensured (ensure_all (on_memory any_env) sc.jobs (any_env.world_ops.now w).0 m)
          (ensure_all-stored any_env sc.jobs (any_env.world_ops.now w).0 m d).0)
    where
      by_ensured :
          (r : Option Error × MemoryStorage)
          → r.0 ≡ none
          → (after_ensure
              (on_memory any_env)
              ctx
              es
              order
              (any_env.world_ops.now w).1
              (record sc { running = true })
              r).0
            ≡ cancelled
      by_ensured (none, s) e = refl
      by_ensured (some x, s) e = absurd cc

-- What a job is registered as: its name, the kind and text of its schedule, whether it is for the
-- leader only, and its missed-fire policy.
abbrev pub Shown : Type 0
Shown = Text × Text × Text × Bool × MissedFirePolicy

abbrev pub shown : {F : Type 0} → Job F Hits → Shown
shown j = (j.name, j.schedule.kind, j.schedule.string, j.options.leader_only, j.options.missed_fire)

-- The jobs of the example, the last one first.
abbrev pub hello_jobs : Formats → Time → List Shown
hello_jobs formats now =
    (
      text "send-launch-email",
      text "at",
      formats.format_time (now +ℤ pos 86400000000000),
      false,
      run_once,
    )
    ∷ (
      text "health-probe-5s",
      text "every",
      formats.format_duration (pos 5000000000),
      false,
      run_once,
    )
    ∷ (
      text "report-every-12s",
      text "every",
      formats.format_duration (pos 12000000000),
      true,
      run_once,
    )
    ∷ []

module _ {F L Lg : Type 0} (any_env : Env F Hits MemoryStorage L) (formats : Formats) (fl : Float F)
    (df : Defaults MemoryStorage L Lg) where
  -- What the set-up comes to without a URL.
  set_up_as-made :
      (pgxpool_new : Text → Result (Unit {0})) (memory : MemoryStorage) (logger : Lg) (now : Time)
      → (node_id : Text) → node_id ≢ []
      → (sc : Scheduler F Hits MemoryStorage L Lg) × (set_up_as formats fl df pgxpool_new memory
            logger [] now node_id
          ≡ ok sc)
        × (sc.running ≡ false)
        × (sc.storage ≡ some memory)
        × DistinctJobs any_env sc.jobs
        × (map shown sc.jobs ≡ hello_jobs formats now)
  unfolding set_up_as register_or_exit schedule new fill_options with_storage with_logger
      apply_options every interval_schedule at lookup text_eq with_leader_only with_missed_fire
      with_defaults zero_options
  set_up_as-made pgxpool_new memory logger now [] h = absurd (h refl)
  set_up_as-made pgxpool_new memory logger now (x ∷ xs) h = (
    _,
    refl,
    refl,
    refl,
    ((λ e. ground arith, (λ e. ground arith, tt)), ((λ e. ground arith, tt), (tt, tt))),
    refl,
  )

  -- Without DATABASE_URL the example's set-up succeeds, whatever the host and the random source
  -- say, with a scheduler over the storage in memory and the three jobs: a report every 12 s on the
  -- leader only, a probe every 5 s and an e-mail at an instant a day ahead, each with RunOnce. From
  -- there the program, when it is stopped by the cancellation of its context, exits with code 0,
  -- whatever happens in the loop and in whatever order its handlers come back.
  pub run_set_up_lem :
      (is_canceled : Error → Bool) (pgxpool_new : Text → Result (Unit {0})) (memory : MemoryStorage)
      → (logger : Lg) (now : Time) (hostname : Result Text) (env : Text) (random : Option (List ℕ))
      → (ctx : Context) (es : List Event) (order : List HandlerEvent) (w : Hits)
      → let made = set_up formats fl df pgxpool_new memory logger [] now hostname env random in
        (sc : Scheduler F Hits MemoryStorage L Lg) × (made ≡ ok sc)
        × (sc.storage ≡ some memory)
        × (map shown sc.jobs ≡ hello_jobs formats now)
        × ((run_set_up (on_memory any_env) is_canceled ctx es order w made).0 ≡ 0)
  unfolding set_up run_set_up
  run_set_up_lem is_canceled pgxpool_new memory logger now hostname env random ctx es order w =
      let (sc, made, idle, stored, d, jobs) =
        set_up_as-made pgxpool_new memory logger now (auto_node_id hostname env random)
          (auto_node_id-ne-nil hostname env random) in
      (
        sc,
        made,
        stored,
        jobs,
        ap (λ r. (run_set_up (on_memory any_env) is_canceled ctx es order w r).0) made
            ∙ ap (exit_code is_canceled) (
                run-cancelled (record any_env { registry = sc.jobs; opts = sc.opts }) ctx es order w
                  sc memory idle stored d),
      )
