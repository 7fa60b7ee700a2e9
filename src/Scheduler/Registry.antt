-- ===== src/Scheduler/Registry.antt =====
-- The registry of sundial.go: what `Schedule` adds, and what `Jobs` lists.
use mathlib.Core.List.Perm
use sundial.Base.{
  ◌≡◌, ◌≢◌, refl, ap, subst, ◌⊎◌, inl, inr, Bool, true, false, List, [], ◌∷◌, map, Option, none,
  some, Text, text_eq, text_eq_iff, text_eq_refl, text_lt, text_lt_asymm, text_le_trans,
  if◌then◌else◌, arith, All, Perm, Bool-cases,
}
use sundial.Base.Sort.{insertion_sort, insertion_sort-perm, insertion_sort-IsSorted, IsSorted}
use sundial.Errors.{
  Error, Result, ok, err, empty_job_name, nil_schedule, nil_handler, scheduler_stopped,
  job_name_taken,
}
use sundial.Schedule.{Schedule}
use sundial.Job.{HandlerFunc, JobOptions, Job, Float, with_defaults, zero_options}
use sundial.Dispatcher.State.{lookup}
use sundial.Storage.Memory.Rows.{IsDistinct}
use sundial.Scheduler.Asked.{asked, IsAsked, schedule_options}
use sundial.Scheduler.{
  apply_job_options, Scheduler, schedule, jobs_of, job_names, name_gt, register,
}

-- Names are keys of the registry.
abbrev pub IsRegistry : {F W : Type 0} → List (Job F W) → Type 0
IsRegistry js = IsDistinct (job_names js)

lookup-none :
    {F W : Type 0} (n : Text) (js : List (Job F W))
    → lookup n js ≡ none
    → All (λ k. n ≢ k) (job_names js)
unfolding lookup
lookup-none n [] h = tt
lookup-none n (j ∷ js) h =
    (λ e. ground (arith, text_eq_iff j.name n), lookup-none n js (ground arith))

module _ {F W St Le Lg : Type 0} (fl : Float F) where
  -- Why nothing is registered.
  abbrev pub Refuses :
      Text → Option Schedule → Option (HandlerFunc W) → Scheduler F W St Le Lg → Error → Type 0
  Refuses name s fn sc e =
      ((name ≡ []) × (e ≡ empty_job_name))
      ⊎ ((s ≡ none) × (e ≡ nil_schedule))
      ⊎ ((fn ≡ none) × (e ≡ nil_handler))
      ⊎ ((sc.stopped ≡ true) × (e ≡ scheduler_stopped))
      ⊎ ((taken : Job F W) × (lookup name sc.jobs ≡ some taken) × (e ≡ job_name_taken name))

  -- The scheduler is unchanged, or has one more job, of what is asked for under a name that was free.
  abbrev pub Schedules :
      Text
      → Option Schedule
      → Option (HandlerFunc W)
      → List (JobOptions F → JobOptions F)
      → Scheduler F W St Le Lg
      → Result (Job F W) × Scheduler F W St Le Lg
      → Type 0
  Schedules name s fn opts sc out =
      (((e : Error) × (out.0 ≡ err e) × Refuses name s fn sc e) × (out.1 ≡ sc))
      ⊎ ((job : Job F W) × (out.0 ≡ ok job)
          × (name ≢ [])
          × (sc.stopped ≡ false)
          × (job.name ≡ name)
          × (s ≡ some job.schedule)
          × (fn ≡ some job.handler)
          × IsAsked fl (asked fl opts) job.options
          × (lookup name sc.jobs ≡ none)
          × (out.1 ≡ record sc { jobs = job ∷ sc.jobs })
          × ((k : Text)
              → lookup k out.1.jobs ≡ (if text_eq name k then some job else lookup k sc.jobs))
          × IsRegistry out.1.jobs)

  register-Schedules :
      (name : Text) (s : Schedule) (fn : HandlerFunc W) (opts : List (JobOptions F → JobOptions F))
      → (sc : Scheduler F W St Le Lg) (taken : Option (Job F W)) → IsRegistry sc.jobs
      → name ≢ []
      → sc.stopped ≡ false
      → lookup name sc.jobs ≡ taken
      → Schedules name (some s) (some fn) opts sc (
          register fl name s fn
            (with_defaults fl (apply_job_options opts (zero_options fl)))
            taken
            sc)
  unfolding lookup
  register-Schedules name s fn opts sc (some j) d named open_still e =
      inl ((_, refl, inr (inr (inr (inr (j, e, refl))))), refl)
  register-Schedules name s fn opts sc none d named open_still e = inr (
    _,
    refl,
    named,
    open_still,
    refl,
    refl,
    refl,
    schedule_options fl opts,
    e,
    refl,
    λ k. refl,
    (lookup-none name sc.jobs e, d),
  )

  -- With the names as keys of the registry: Schedule either changes nothing and returns the error
  -- for an empty name, no schedule, no handler, a stopped scheduler or a taken name, where that is so;
  -- or it adds one job of the given name, schedule and handler, with the options as asked and the
  -- defaults for the zero fields of its retry policy, under a name that was free, to a scheduler that
  -- is not stopped. Lookup then finds that job, and what it found under every other name; the names
  -- stay keys.
  pub schedule-Schedules :
      (name : Text) (s : Option Schedule) (fn : Option (HandlerFunc W))
      → (opts : List (JobOptions F → JobOptions F)) (sc : Scheduler F W St Le Lg)
      → IsRegistry sc.jobs
      → Schedules name s fn opts sc (schedule fl name s fn opts sc)
  unfolding schedule
  schedule-Schedules [] s fn opts sc d = inl ((_, refl, inl (refl, refl)), refl)
  schedule-Schedules (c ∷ cs) none fn opts sc d = inl ((_, refl, inr (inl (refl, refl))), refl)
  schedule-Schedules (c ∷ cs) (some s) none opts sc d =
      inl ((_, refl, inr (inr (inl (refl, refl)))), refl)
  schedule-Schedules (c ∷ cs) (some s) (some fn) opts sc d = by_stop sc.stopped refl
    where
      by_stop :
          (b : Bool)
          → sc.stopped ≡ b
          → Schedules (c ∷ cs) (some s) (some fn) opts sc (
              if b
              then (err scheduler_stopped, sc)
              else register fl
                  (c ∷ cs)
                  s
                  fn
                  (with_defaults fl (apply_job_options opts (zero_options fl)))
                  (lookup (c ∷ cs) sc.jobs)
                  sc)
      by_stop true h = inl ((_, refl, inr (inr (inr (inl (h, refl))))), refl)
      by_stop false h =
          register-Schedules (c ∷ cs) s fn opts sc (lookup (c ∷ cs) sc.jobs) d (λ e. cc) h refl

abbrev tail_of : {A : Type 0} → List A → List A
tail_of [] = []
tail_of (x ∷ xs) = xs

-- Names in order, and the jobs under them.
found_later :
    {F W : Type 0} (j : Job F W) (all js : List (Job F W))
    → All (λ k. j.name ≢ k) (job_names js)
    → map (λ n. lookup n all) (job_names js) ≡ map some js
    → map (λ n. lookup n (j ∷ all)) (job_names js) ≡ map some js
unfolding lookup
found_later j all [] d h = refl
found_later j all (y ∷ js) d h =
    let rest = found_later j all js d.1 (ap (λ xs. tail_of xs) h) in
    elim (Bool-cases (text_eq j.name y.name)) [
      | inl e ↦ ground (arith, text_eq_iff j.name y.name)
      | inr e ↦ ground (arith)
    ]

lookup_names :
    {F W : Type 0} (js : List (Job F W))
    → IsRegistry js
    → map (λ n. lookup n js) (job_names js) ≡ map some js
unfolding lookup
lookup_names [] d = refl
lookup_names (j ∷ js) d =
    let later = found_later j js js d.0 (lookup_names js d.1) in
    rw (text_eq_refl j.name, if◌then◌else◌) (ap (λ xs. some j ∷ xs) later)

name_gt_trans : (a b c : Text) → name_gt a b ≡ false → name_gt b c ≡ false → name_gt a c ≡ false
name_gt_trans a b c h k = ground (arith, text_le_trans a b c)

-- With the names as keys of the registry: Jobs lists every registered job once and no nil pointer,
-- under the registered names, of which none stands behind one that is greater as a text.
pub jobs_of_lem :
    {F W St Le Lg : Type 0} (sc : Scheduler F W St Le Lg)
    → IsRegistry sc.jobs
    → Perm (jobs_of sc) (map some sc.jobs)
      × ((names : List Text) × Perm names (job_names sc.jobs)
          × IsSorted (λ a b. text_lt b a) names
          × (jobs_of sc ≡ map (λ n. lookup n sc.jobs) names))
unfolding jobs_of
jobs_of_lem sc d =
    let names = insertion_sort name_gt (job_names sc.jobs) in
    (
      subst (Perm (jobs_of sc)) (lookup_names sc.jobs d)
          (Perm.map (λ n. lookup n sc.jobs) (insertion_sort-perm name_gt (job_names sc.jobs))),
      (
        names,
        insertion_sort-perm name_gt (job_names sc.jobs),
        insertion_sort-IsSorted name_gt (λ a b h. text_lt_asymm b a h) name_gt_trans
            (job_names sc.jobs),
        refl,
      ),
    )
