-- ===== src/Scheduler/Run.antt =====
-- sundial.go: `Scheduler.Run`, with the drain of dispatcher.go that ends it.
pub mod Persisted
pub mod Traced
use mathlib.Core.List.{append-nil}
use sundial.Base.{
  ℕ, zero, suc, ◌+◌, ◌-◌, ◌≡◌, refl, ap, sym, subst, ◌∙◌, ◌⊎◌, inl, inr, ℤ, pos, ltb_ℤ, ◌<ℤ◌, Bool,
  true, false, List, [], ◌∷◌, map, Option, none, some, Text, if◌then◌else◌, arith, length, if_both,
  Bool-cases,
}
use sundial.Errors.{Error, Result, ok, err, ensure, already_running}
use sundial.Clock.{Time, Duration, is_zero}
use sundial.Job.{Context, Job}
use sundial.Telemetry.{new_telemetry, add_scheduled}
use sundial.Dispatcher.State.{Env, State, Task, Active}
use sundial.Dispatcher.Execute.{execute}
use sundial.Dispatcher.Dispatch.{
  Event, HandlerEvent, handles, return_picked, run_events, run as run_loop,
}
use sundial.Dispatcher.Balance.{
  IsBalanced, return_picked-IsBalanced, run_events-IsBalanced, run-IsBalanced,
}
use sundial.Dispatcher.InFlight.{execute-Same, active-return_picked}
use sundial.Scheduler.{Scheduler, mark_stopped}

-- How Run comes back: with an error, with `ctx.Err()`, or not at all, by a nil storage.
pub data RunEnd : Type 0 where
  failed : Error → RunEnd
  cancelled nil_storage : RunEnd

abbrev next_ensure :
    {S : Type 0} → Text → (S → Option Error × S) → Result Text × S → Option Error × S
next_ensure name later (err e, s) = (some (ensure name e), s)
next_ensure name later (ok i, s) = later s

module _ {F W S L : Type 0} (env : Env F W S L) where
  -- The loop over the jobs before the first tick.
  unfoldable pub ensure_all : List (Job F W) → Time → S → Option Error × S
  ensure_all [] now s = (none, s)
  ensure_all (j ∷ js) now s =
      let next = j.schedule.next now in
      let later : S → Option Error × S = λ s'. ensure_all js now s' in
      if is_zero next
      then later s
      else next_ensure j.name later (env.storage_ops.ensure_job (some j) next s)

  -- `inFlight.Wait()`: the handlers that are running come back, and the goroutines that are left run
  -- from their beginnings to their ends.
  unfoldable pub return_all : List (Active F W) → State F W S L → State F W S L
  return_all [] d = d
  return_all (a ∷ rest) d = return_all rest (return_picked env (some (a, rest)) d)

  unfoldable pub execute_all : Context → List (Task F W) → State F W S L → State F W S L
  execute_all ctx [] d = d
  execute_all ctx (t ∷ ts) d =
      execute_all ctx ts (execute env ctx t.job t.due (record d { spawned = ts }))

  unfoldable pub wait_all : Context → State F W S L → State F W S L
  wait_all ctx d = let d' = return_all d.active d in execute_all ctx d'.spawned d'

  -- The events are what the goroutines do, in their order, before the grace elapses; without a grace
  -- the drain waits for what is left as well.
  unfoldable pub drain : Context → List HandlerEvent → State F W S L → State F W S L
  drain ctx order d =
      let d' = run_events env ctx d (map handles order) in
      if ltb_ℤ (pos 0) env.opts.shutdown_grace then d' else wait_all ctx d'

  abbrev released : Option L → Option L
  released none = none
  released (some l) = some (env.leader_ops.release l).1

  abbrev pub dispatcher : List (Job F W) → S → Option L → W → State F W S L
  dispatcher jobs s l w = record {
    storage = s;
    leader = l;
    attempts = [];
    in_flight = 0;
    spawned = [];
    active = [];
    telemetry = add_scheduled (pos (length jobs)) new_telemetry;
    world = w;
  }

  abbrev pub after_ensure :
      {Lg : Type 0}
      → Context
      → List Event
      → List HandlerEvent
      → W
      → Scheduler F W S L Lg
      → Option Error × S
      → RunEnd × Scheduler F W S L Lg × W
  after_ensure ctx es order w sc (some e, s) =
      (failed e, mark_stopped (record sc { storage = some s }), w)
  after_ensure ctx es order w sc (none, s) =
      let d = drain ctx order (run_loop env ctx es (dispatcher sc.jobs s sc.leader w)) in
      (
        cancelled,
        mark_stopped (record sc { storage = some d.storage; leader = released d.leader }),
        d.world,
      )

  abbrev pub on_storage :
      {Lg : Type 0}
      → Context
      → List Event
      → List HandlerEvent
      → W
      → Option S
      → Scheduler F W S L Lg
      → RunEnd × Scheduler F W S L Lg × W
  on_storage ctx es order w none sc = (nil_storage, sc, w)
  on_storage ctx es order w (some s) sc =
      let (now, w') = env.world_ops.now w in
      after_ensure ctx es order w' sc (ensure_all sc.jobs now s)

  -- `Scheduler.Run`, whose registry and options are those of the environment, with the events of its
  -- loop and what the goroutines do within the grace. Handlers that outlive the grace go on after it.
  unfoldable pub run :
      {Lg : Type 0}
      → Context
      → List Event
      → List HandlerEvent
      → W
      → Scheduler F W S L Lg
      → RunEnd × Scheduler F W S L Lg × W
  run ctx es order w sc =
      if sc.running
      then (failed already_running, sc, w)
      else on_storage ctx es order w sc.storage (record sc { running = true })

  return_all-IsBalanced :
      (rest : List (Active F W)) (d : State F W S L)
      → d.active ≡ rest
      → IsBalanced env d
      → IsBalanced env (return_all rest d) × ((return_all rest d).active ≡ [])
  unfolding return_all
  return_all-IsBalanced [] d e b = (b, e)
  return_all-IsBalanced (a ∷ rest) d e b =
      return_all-IsBalanced rest (return_picked env (some (a, rest)) d)
        (active-return_picked env a rest d)
        (return_picked-IsBalanced env (some (a, rest)) d (ap length e) b)

  execute_all-IsBalanced :
      (ctx : Context) (ts : List (Task F W)) (d : State F W S L)
      → d.spawned ≡ ts
      → d.active ≡ []
      → IsBalanced env d
      → let d' = execute_all ctx ts d in IsBalanced env d' × (d'.spawned ≡ []) × (d'.active ≡ [])
  unfolding execute_all
  execute_all-IsBalanced ctx [] d e q b = (b, e, q)
  execute_all-IsBalanced ctx (t ∷ ts) d e q b =
      let (i, s, a, j) = execute-Same env ctx t.job t.due (record d { spawned = ts }) in
      execute_all-IsBalanced ctx ts (execute env ctx t.job t.due (record d { spawned = ts })) s
        (a ∙ q)
        (record {
          counted = omega (arith, b.counted, i, ap length s, ap length e, ap length a);
          gauged = j ∙ b.gauged ∙ ap (λ xs. pos (length xs)) (sym a);
        })

  wait_all-IsBalanced :
      (ctx : Context) (d : State F W S L)
      → IsBalanced env d
      → let d' = wait_all ctx d in IsBalanced env d' × (d'.spawned ≡ []) × (d'.active ≡ [])
  unfolding wait_all
  wait_all-IsBalanced ctx d b =
      let d' = return_all d.active d in
      let (b', q) = return_all-IsBalanced d.active d refl b in
      execute_all-IsBalanced ctx d'.spawned d' refl q b'

  -- If `inFlight` counts the started goroutines before the drain, it does so after it; and if
  -- there is no grace, the drain ends with no handler in flight.
  pub drain-IsBalanced :
      (ctx : Context) (order : List HandlerEvent) (d : State F W S L)
      → IsBalanced env d
      → let d' = drain ctx order d in
        IsBalanced env d'
        × ((pos 0 <ℤ env.opts.shutdown_grace)
            ⊎ ((d'.spawned ≡ []) × (d'.active ≡ []) × (d'.in_flight ≡ 0)))
  unfolding drain
  drain-IsBalanced ctx order d b =
      let d' = run_events env ctx d (map handles order) in
      let b' = run_events-IsBalanced env ctx d (map handles order) b in
      elim (Bool-cases (ltb_ℤ (pos 0) env.opts.shutdown_grace)) [
        | inl e ↦ rw (e, if◌then◌else◌) (b', inl (ground arith))
        | inr e ↦
            let (w, idle, quiet) = wait_all-IsBalanced ctx d' b' in
            rw (e, if◌then◌else◌)
              (w, inr (idle, quiet, omega (arith, w.counted, ap length idle, ap length quiet)))
      ]

  -- A scheduler that is running refuses Run and is not changed. Any other that has a storage comes
  -- back from Run not running, with the jobs, the options and the stop flag that it had.
  pub run-ends :
      {Lg : Type 0} (ctx : Context) (es : List Event) (order : List HandlerEvent) (w : W)
      → (sc : Scheduler F W S L Lg) (s : S) → sc.storage ≡ some s
      → let (end, sc', w') = run ctx es order w sc in
        ((sc.running ≡ true) × (end ≡ failed already_running) × (sc' ≡ sc) × (w' ≡ w))
        ⊎ ((sc.running ≡ false)
            × (sc'.running ≡ false)
            × (sc'.jobs ≡ sc.jobs)
            × (sc'.opts ≡ sc.opts)
            × (sc'.stopped ≡ sc.stopped))
  unfolding run mark_stopped
  run-ends {Lg} ctx es order w sc s e = elim (Bool-cases sc.running) [
    | inl b ↦ rw (b, if◌then◌else◌) (inl (refl, refl, refl, refl))
    | inr b ↦
        let (a, j, o, t) = idle (ensure_all sc.jobs (env.world_ops.now w).0 s) in
        rw (b, if◌then◌else◌, e, on_storage) (inr (refl, a, j, o, t))
  ]
    where
      idle :
          (r : Option Error × S)
          → let (end, sc', w') =
              after_ensure ctx es order (env.world_ops.now w).1 (record sc { running = true }) r in
            (sc'.running ≡ false)
            × (sc'.jobs ≡ sc.jobs)
            × (sc'.opts ≡ sc.opts)
            × (sc'.stopped ≡ sc.stopped)
      idle (some x, s') = (refl, refl, refl, refl)
      idle (none, s') = (refl, refl, refl, refl)
