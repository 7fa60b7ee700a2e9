-- ===== src/Dispatcher/Balance.antt =====
-- dispatcher.go: the in-flight WaitGroup and the running gauge against the started goroutines.
use sundial.Base.{
  ℕ, zero, suc, ◌+◌, ◌≡◌, refl, ap, sym, negsuc, ◌+ℤ◌, int_laws, ◌∙◌, pos, Bool, true, false, List,
  [], ◌∷◌, ◌++◌, Option, none, some, length, length-append, arith,
}
use sundial.Errors.{Result, ok, err}
use sundial.Clock.{Time}
use sundial.Job.{Context, Job}
use sundial.Storage.Types.{DueJob}
use sundial.Telemetry.{claimed_inc}
use sundial.Dispatcher.State.{Env, State, Task, Active, read_clock, lookup}
use sundial.Dispatcher.Load.{compute_next_fire}
use sundial.Dispatcher.Dispatch.{
  started, dispatch_at, dispatch_job, dispatch_due, begin_picked, return_picked, claim,
  maybe_dispatch, dispatch_all, tick, maybe_renew_leader, step, run_events, run, Event, ticks,
  renews, handles, begins, returns, pick,
}
use sundial.Dispatcher.Execute.{Begun, resumed, begin_attempt, run_attempt}
use sundial.Dispatcher.InFlight.{
  Same, begin_attempt-Same, run_attempt-Same, end_attempt-Same, run_all_missed-Same, skip_to-Same,
}

-- One of the goroutines is picked and the others are left.
abbrev pub Picks : {A : Type 0} → List A → Option (A × List A) → Type 0
Picks xs none = Unit
Picks xs (some (x, rest)) = length xs ≡ suc (length rest)

length-pick : {A : Type 0} (n : ℕ) (xs : List A) → Picks xs (pick n xs)
unfolding pick
length-pick n [] = tt
length-pick zero (x ∷ xs) = refl
length-pick {A} (suc n) (x ∷ xs) = later (pick n xs) (length-pick n xs)
  where
    later :
        (o : Option (A × List A))
        → Picks xs o
        → Picks (x ∷ xs) (elim o [ none ↦ none | some (u, us) ↦ some (u, x ∷ us) ])
    later none h = tt
    later (some (u, us)) h = ap suc h

count_up : (n : ℕ) → pos n +ℤ pos 1 ≡ pos (suc n)
count_up n = omega int_laws

count_down : (n : ℕ) → pos (suc n) +ℤ negsuc 0 ≡ pos n
count_down n = omega int_laws

module _ {F W S L : Type 0} (env : Env F W S L) where
  -- As many goroutines are added as the counter is raised by.
  abbrev Grows : State F W S L → State F W S L → Type 0
  Grows d d' =
      (d'.in_flight + length d.spawned ≡ d.in_flight + length d'.spawned)
      × (d'.active ≡ d.active)
      × (d'.telemetry.jobs_running ≡ d.telemetry.jobs_running)

  Same-Grows : (d d' : State F W S L) → Same d d' → Grows d d'
  Same-Grows d d' (a, b, q, c) = (omega (arith, a, ap length b), q, c)

  started-Grows :
      (job : Job F W) (dj : DueJob) (t : Time) (r : Result Bool) (d : State F W S L)
      → Grows d (started env job dj t (r, d))
  unfolding claimed_inc
  started-Grows job dj t (err e) d = (refl, refl, refl)
  started-Grows job dj t (ok false) d = (refl, refl, refl)
  started-Grows job dj t (ok true) d = (
    omega (arith, length-append d.spawned (record { job = job; due = dj; claimed_for = t } ∷ [])),
    refl,
    refl,
  )

  pub maybe_dispatch-Grows :
      (ctx : Context) (dj : DueJob) (now : Time) (d : State F W S L)
      → Grows d (maybe_dispatch env ctx dj now d)
  unfolding maybe_dispatch
  maybe_dispatch-Grows ctx dj now d = by_job (lookup dj.name env.registry)
    where
      by_next : (job : Job F W) (r : Result Time) → Grows d (dispatch_at env ctx job dj now r d)
      by_next job (err e) = (refl, refl, refl)
      by_next job (ok t) = ground (
        arith,
        Same-Grows d _ (skip_to-Same env dj (compute_next_fire env.formats dj now) d),
        Same-Grows d _ (run_all_missed-Same env ctx job dj now d),
        started-Grows job dj t (claim env dj t d).0 (claim env dj t d).1,
      )

      by_job : (o : Option (Job F W)) → Grows d (dispatch_job env ctx o dj now d)
      by_job none = (refl, refl, refl)
      by_job (some job) = ground (arith, by_next job (compute_next_fire env.formats dj now))

  dispatch_all-Grows :
      (ctx : Context) (djs : List DueJob) (now : Time) (d : State F W S L)
      → Grows d (dispatch_all env ctx djs now d)
  unfolding dispatch_all
  dispatch_all-Grows ctx [] now d = (refl, refl, refl)
  dispatch_all-Grows ctx (dj ∷ djs) now d =
      let d' = maybe_dispatch env ctx dj now d in
      let (a, q, b) = maybe_dispatch-Grows ctx dj now d in
      let (a', q', b') = dispatch_all-Grows ctx djs now d' in (omega arith, q' ∙ q, b' ∙ b)

  pub tick-Grows : (ctx : Context) (d : State F W S L) → Grows d (tick env ctx d)
  unfolding tick read_clock
  tick-Grows ctx d =
      by_rows (env.storage_ops.fetch_due (env.world_ops.now d.world).0 (pos 64) d.storage)
    where
      by_rows :
          (r : Result (List DueJob) × S)
          → Grows d (
              dispatch_due env ctx
                (env.world_ops.now d.world).0
                r.0
                (record d { storage = r.1; world = (env.world_ops.now d.world).1 }))
      by_rows (err e, s) = (refl, refl, refl)
      by_rows (ok due, s) = dispatch_all-Grows ctx due (env.world_ops.now d.world).0 _

  -- The WaitGroup counts the goroutines that have not come to their end, and the gauge those of them
  -- whose attempts have begun.
  pub record IsBalanced (d : State F W S L) : Type 0 where
    pub counted : d.in_flight ≡ length d.spawned + length d.active
    pub gauged : d.telemetry.jobs_running ≡ pos (length d.active)

  Grows-IsBalanced : (d d' : State F W S L) → Grows d d' → IsBalanced d → IsBalanced d'
  Grows-IsBalanced d d' (a, q, r) b = record {
    counted = omega (arith, b.counted, ap length q);
    gauged = r ∙ b.gauged ∙ ap (λ xs. pos (length xs)) (sym q);
  }

  pushed-IsBalanced :
      (x : State F W S L) (a : Active F W)
      → x.in_flight ≡ suc (length x.spawned + length x.active)
      → x.telemetry.jobs_running ≡ pos (suc (length x.active))
      → IsBalanced (record x { active = x.active ++ a ∷ [] })
  pushed-IsBalanced x a n e =
      let more = length-append x.active (a ∷ []) in
      record {
        counted = omega (arith, n, more);
        gauged =
            e
            ∙ ap pos (
                let m : suc (length x.active) ≡ length (x.active ++ a ∷ []) = omega (arith, more) in
                m);
      }

  begin_picked-IsBalanced :
      (ctx : Context) (o : Option (Task F W × List (Task F W))) (d : State F W S L)
      → Picks d.spawned o
      → IsBalanced d
      → IsBalanced (begin_picked env ctx o d)
  unfolding begin_picked
  begin_picked-IsBalanced ctx none d h b = b
  begin_picked-IsBalanced ctx (some (t, rest)) d h b =
      let (i, s, a, j) = begin_attempt-Same env ctx t.job t.due (record d { spawned = rest }) in
      let x = (begin_attempt env ctx t.job t.due (record d { spawned = rest })).state in
      pushed-IsBalanced x _ (omega (arith, b.counted, i, ap length s, ap length a, h)) (
        j
        ∙ ap (λ n. n +ℤ pos 1) b.gauged
        ∙ count_up (length d.active)
        ∙ ap (λ xs. pos (suc (length xs))) (sym a))

  pub return_picked-IsBalanced :
      (o : Option (Active F W × List (Active F W))) (d : State F W S L)
      → Picks d.active o
      → IsBalanced d
      → IsBalanced (return_picked env o d)
  unfolding return_picked
  return_picked-IsBalanced none d h b = b
  return_picked-IsBalanced (some (a, rest)) d h b =
      let x : Begun F W S L = resumed a (record d { active = rest }) in
      let r = run_attempt env a.job a.due x in
      let (i, s, q, j) = run_attempt-Same env a.job a.due x in
      let (i', s', q', j') = end_attempt-Same env a.job a.due a.started a.attempt r in
      record {
        counted =
            omega
              (arith, b.counted, i, i', ap length s, ap length s', ap length q, ap length q', h);
        gauged =
            j'
            ∙ ap (λ n. n +ℤ negsuc 0) (j ∙ b.gauged ∙ ap pos h)
            ∙ count_down (length rest)
            ∙ ap (λ xs. pos (length xs)) (sym (q' ∙ q));
      }

  pub step-IsBalanced :
      (ctx : Context) (d : State F W S L) (e : Event) → IsBalanced d → IsBalanced (step env ctx d e)
  unfolding step maybe_renew_leader
  step-IsBalanced ctx d ticks b = Grows-IsBalanced d (tick env ctx d) (tick-Grows ctx d) b
  step-IsBalanced ctx d renews b = record { counted = b.counted; gauged = b.gauged }
  step-IsBalanced ctx d (handles (begins n)) b =
      begin_picked-IsBalanced ctx (pick n d.spawned) d (length-pick n d.spawned) b
  step-IsBalanced ctx d (handles (returns n)) b =
      return_picked-IsBalanced (pick n d.active) d (length-pick n d.active) b

  pub run_events-IsBalanced :
      (ctx : Context) (d : State F W S L) (es : List Event)
      → IsBalanced d
      → IsBalanced (run_events env ctx d es)
  unfolding run_events
  run_events-IsBalanced ctx d [] b = b
  run_events-IsBalanced ctx d (e ∷ es) b =
      run_events-IsBalanced ctx (step env ctx d e) es (step-IsBalanced ctx d e b)

  -- If it is so at the beginning, then after the start and any ticks, renewals, attempts that begin
  -- and handlers that come back, in any order, `inFlight` is the number of goroutines that have been
  -- started and have not ended, and the running gauge is the number of those whose attempts have
  -- begun.
  pub run-IsBalanced :
      (ctx : Context) (es : List Event) (d : State F W S L)
      → IsBalanced d
      → IsBalanced (run env ctx es d)
  unfolding run maybe_renew_leader
  run-IsBalanced ctx es d b =
      let d' = maybe_renew_leader env d in
      run_events-IsBalanced ctx (tick env ctx d') es (
        Grows-IsBalanced d' (tick env ctx d') (tick-Grows ctx d')
          (record { counted = b.counted; gauged = b.gauged }))
