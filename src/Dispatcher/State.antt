-- ===== src/Dispatcher/State.antt =====
-- dispatcher.go: the dispatcher's state, and what it is run with. The world outside the package has
-- a state `W` that handlers change and that clock readings and random numbers come from.
use sundial.Base.{ℕ, ◌+◌, ℤ, pos, List, [], ◌∷◌, Option, none, some, Text, text_eq, if◌then◌else◌}
use sundial.Errors.{Error}
use sundial.Clock.{Time, Duration}
use sundial.Schedule.{Formats}
use sundial.Job.{Context, Job, Float}
use sundial.Storage.Types.{Storage, DueJob}
use sundial.Leader.{Leader}
use sundial.Telemetry.{Telemetry}

pub record World (F W : Type 0) : Type 0 where
  -- `time.Now()` and `rand.Float64()`
  pub now : W → Time × W
  pub float64 : W → F × W
  -- `err.Error()`
  pub message : Error → Text

-- Options (sundial.go)
pub record Options : Type 0 where
  pub node_id : Text
  pub tick_interval : Duration
  pub shutdown_grace : Duration
  pub schema : Text
  pub leader_renew_interval : Duration

-- What the dispatcher reads and never writes: the scheduler's registry and options, and the code
-- behind the interfaces.
pub record Env (F W S L : Type 0) : Type 0 where
  pub storage_ops : Storage F W S
  pub leader_ops : Leader L
  pub world_ops : World F W
  pub floats : Float F
  pub formats : Formats
  pub registry : List (Job F W)
  pub opts : Options

-- A goroutine that has been started and has not run: `go d.execute(ctx, job, dj, nextFire)`.
pub record Task (F W : Type 0) : Type 0 where
  pub job : Job F W
  pub due : DueJob
  pub claimed_for : Time

-- A goroutine whose attempt has begun and whose handler has not come back: the locals of `execute`.
pub record Active (F W : Type 0) : Type 0 where
  pub job : Job F W
  pub due : DueJob
  pub ctx : Context
  pub started : Time
  pub attempt : ℤ
  pub span : ℕ

-- The dispatcher, with what it shares: the storage, its leader (nil is `none`), the world, and the
-- goroutines that it has started, before and after the beginning of their attempts. Log output is
-- left out.
pub record State (F W S L : Type 0) : Type 0 where
  pub storage : S
  pub leader : Option L
  pub attempts : List (Text × ℕ)
  pub in_flight : ℕ
  pub spawned : List (Task F W)
  pub active : List (Active F W)
  pub telemetry : Telemetry
  pub world : W

-- `d.attempts[jobID]`, 0 if it has no entry
unfoldable pub attempts_of : Text → List (Text × ℕ) → ℕ
attempts_of i [] = 0
attempts_of i ((k, n) ∷ rest) = if text_eq k i then n else attempts_of i rest

unfoldable pub bump : Text → List (Text × ℕ) → List (Text × ℕ)
bump i [] = (i, 1) ∷ []
bump i ((k, n) ∷ rest) = if text_eq k i then (k, n + 1) ∷ rest else (k, n) ∷ bump i rest

unfoldable pub forget : Text → List (Text × ℕ) → List (Text × ℕ)
forget i [] = []
forget i ((k, n) ∷ rest) = if text_eq k i then forget i rest else (k, n) ∷ forget i rest

-- `Scheduler.lookup`
unfoldable pub lookup : {F W : Type 0} → Text → List (Job F W) → Option (Job F W)
lookup name [] = none
lookup name (j ∷ js) = if text_eq j.name name then some j else lookup name js

module _ {F W S L : Type 0} where
  unfoldable pub bump_attempt : Text → State F W S L → ℤ × State F W S L
  bump_attempt i d =
      let counts = bump i d.attempts in (pos (attempts_of i counts), record d { attempts = counts })

  unfoldable pub forget_attempt : Text → State F W S L → State F W S L
  forget_attempt i d = record d { attempts = forget i d.attempts }

  -- A reading of the clock.
  unfoldable pub read_clock : Env F W S L → State F W S L → Time × State F W S L
  read_clock env d = let (t, w) = env.world_ops.now d.world in (t, record d { world = w })
