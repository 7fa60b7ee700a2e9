-- ===== src/Job.antt =====
-- job.go, and the job options of sundial.go. A float64 is of a type `F`, and a handler is a function
-- on the state `W` of the world outside the package, which it reads and changes.
use sundial.Base.{ℤ, pos, eqb_ℤ, Bool, true, false, Option, Text, if◌then◌else◌}
use sundial.Errors.{Error}
use sundial.Clock.{Time, Duration, second}
use sundial.Schedule.{Schedule}

-- The context of a handler: the instant at which it expires, if it does.
pub record Context : Type 0 where
  pub deadline : Option Time

-- How a handler comes back: with an error or nil, or by a panic.
pub data HandlerEnd : Type 0 where
  returned : Option Error → HandlerEnd
  panicked : Text → HandlerEnd

abbrev pub HandlerFunc : Type 0 → Type 0
HandlerFunc W = Context → W → HandlerEnd × W

pub data MissedFirePolicy : Type 0 where
  run_once skip run_all : MissedFirePolicy

pub record RetryPolicy (F : Type 0) : Type 0 where
  pub max_attempts : ℤ
  pub initial_backoff : Duration
  pub max_backoff : Duration
  pub multiplier : F

pub record JobOptions (F : Type 0) : Type 0 where
  pub timeout : Duration
  pub leader_only : Bool
  pub missed_fire : MissedFirePolicy
  pub retry : RetryPolicy F

pub record Job (F W : Type 0) : Type 0 where
  pub name : Text
  pub schedule : Schedule
  pub handler : HandlerFunc W
  pub options : JobOptions F

-- The float64 operations that the package uses.
pub record Float (F : Type 0) : Type 0 where
  pub zero_float : F
  pub two : F
  pub half : F
  pub eq_float : F → F → Bool
  pub gt_float : F → F → Bool
  pub add_float : F → F → F
  pub mul_float : F → F → F
  pub pow_float : F → F → F
  -- `float64(n)`, and `time.Duration(x)`
  pub of_int : ℤ → F
  pub to_duration : F → Duration

module _ {F : Type 0} (fl : Float F) where
  open fl use {zero_float, two, eq_float}

  abbrev or_default : ℤ → ℤ → ℤ
  or_default n d = if eqb_ℤ n (pos 0) then d else n

  unfoldable pub with_defaults : JobOptions F → JobOptions F
  with_defaults o = record o {
    retry = record r {
      max_attempts = or_default r.max_attempts (pos 3);
      initial_backoff = or_default r.initial_backoff second;
      max_backoff = or_default r.max_backoff (pos 300000000000);
      multiplier = if eq_float r.multiplier zero_float then two else r.multiplier;
    };
  }
    where
      open o use {retry as r}

  -- The zero value, `JobOptions{}`.
  unfoldable pub zero_options : JobOptions F
  zero_options = record {
    timeout = pos 0;
    leader_only = false;
    missed_fire = run_once;
    retry = record {
      max_attempts = pos 0;
      initial_backoff = pos 0;
      max_backoff = pos 0;
      multiplier = zero_float;
    };
  }

module _ {F : Type 0} where
  unfoldable pub with_timeout : Duration → JobOptions F → JobOptions F
  with_timeout d o = record o { timeout = d }

  unfoldable pub with_leader_only : JobOptions F → JobOptions F
  with_leader_only o = record o { leader_only = true }

  unfoldable pub with_missed_fire : MissedFirePolicy → JobOptions F → JobOptions F
  with_missed_fire p o = record o { missed_fire = p }

  unfoldable pub with_retry : RetryPolicy F → JobOptions F → JobOptions F
  with_retry r o = record o { retry = r }
