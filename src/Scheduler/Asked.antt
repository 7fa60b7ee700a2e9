-- ===== src/Scheduler/Asked.antt =====
-- The options of a job as `Schedule` of sundial.go makes them, and a zero option's default.
use sundial.Base.{
  ◌≡◌, ◌≢◌, refl, subst, ◌⊎◌, inl, inr, ℤ, pos, eqb_ℤ, false, List, [], ◌∷◌, if◌then◌else◌, arith,
  Bool-cases,
}
use sundial.Job.{JobOptions, Float, run_once, with_defaults, zero_options}
use sundial.Scheduler.{apply_job_options}

-- An option as asked, or the default if that is zero.
abbrev pub IsFilled : ℤ → ℤ → ℤ → Type 0
IsFilled default asked got = ((asked ≡ pos 0) × (got ≡ default)) ⊎ ((asked ≢ pos 0) × (got ≡ asked))

pub or_default-IsFilled : (d n : ℤ) → IsFilled d n (if eqb_ℤ n (pos 0) then d else n)
or_default-IsFilled d n = elim (Bool-cases (eqb_ℤ n (pos 0))) [
  | inl e ↦ inl (ground (arith, e), rw (e, if◌then◌else◌) refl)
  | inr e ↦ inr (λ z. ground (arith, e, z), rw (e, if◌then◌else◌) refl)
]

module _ {F : Type 0} (fl : Float F) where
  abbrev asked_from : List (JobOptions F → JobOptions F) → JobOptions F → JobOptions F
  asked_from [] o = o
  asked_from (f ∷ fs) o = asked_from fs (f o)

  -- The options that a list of them asks for, the first applied first, to the zero options.
  abbrev pub asked : List (JobOptions F → JobOptions F) → JobOptions F
  asked opts = asked_from opts (record {
    timeout = pos 0;
    leader_only = false;
    missed_fire = run_once;
    retry = record {
      max_attempts = pos 0;
      initial_backoff = pos 0;
      max_backoff = pos 0;
      multiplier = fl.zero_float;
    };
  })

  -- Options as asked, but for a retry policy's zero fields.
  abbrev pub IsAsked : JobOptions F → JobOptions F → Type 0
  IsAsked a o =
      (o.timeout ≡ a.timeout)
      × (o.leader_only ≡ a.leader_only)
      × (o.missed_fire ≡ a.missed_fire)
      × IsFilled (pos 3) a.retry.max_attempts o.retry.max_attempts
      × IsFilled (pos 1000000000) a.retry.initial_backoff o.retry.initial_backoff
      × IsFilled (pos 300000000000) a.retry.max_backoff o.retry.max_backoff
      × (o.retry.multiplier
          ≡ (if fl.eq_float a.retry.multiplier fl.zero_float then fl.two else a.retry.multiplier))

  asked_from-apply :
      (opts : List (JobOptions F → JobOptions F)) (o : JobOptions F)
      → apply_job_options opts o ≡ asked_from opts o
  asked_from-apply [] o = refl
  asked_from-apply (f ∷ fs) o = asked_from-apply fs (f o)

  with_defaults-IsAsked : (a : JobOptions F) → IsAsked a (with_defaults fl a)
  unfolding with_defaults
  with_defaults-IsAsked a = (
    refl,
    refl,
    refl,
    or_default-IsFilled (pos 3) a.retry.max_attempts,
    or_default-IsFilled (pos 1000000000) a.retry.initial_backoff,
    or_default-IsFilled (pos 300000000000) a.retry.max_backoff,
    refl,
  )

  pub schedule_options :
      (opts : List (JobOptions F → JobOptions F))
      → IsAsked (asked opts) (with_defaults fl (apply_job_options opts (zero_options fl)))
  unfolding zero_options
  schedule_options opts =
      subst (λ o. IsAsked o (with_defaults fl (apply_job_options opts (zero_options fl))))
        (asked_from-apply opts (zero_options fl))
        (with_defaults-IsAsked (apply_job_options opts (zero_options fl)))
