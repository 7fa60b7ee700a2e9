-- ===== src/Errors.antt =====
-- The error values of the package (sundial.go, storage.go, schedule.go, leader.go) and Go's
-- (value, error) results. A wrapped error is a constructor that holds the wrapped one.
use sundial.Base.{ℤ, Text}

pub data Error : Type 0 where
  -- sundial.go
  empty_node_id : Error
  tick_too_small : ℤ → Error
  job_name_taken : Text → Error
  empty_job_name : Error
  nil_handler : Error
  nil_schedule : Error
  scheduler_stopped : Error
  storage_required : Error
  already_running : Error
  ensure : Text → Error → Error
  -- storage.go
  nil_job : Error
  job_not_found : Error
  storage_failed : Text → Error → Error
  -- schedule.go, cron.go and the parsing of a stored schedule in dispatcher.go
  invalid_schedule : Text → Error
  parse : Text → Error → Error
  unknown_kind : Text → Error
  -- leader.go
  leader_node_id : Error
  -- dispatcher.go: `safeRun`
  handler_panicked : Text → Error
  -- an error of a handler, of a library or of a backend
  other : Text → Error

pub data Result {ℓ} (A : Type ℓ) : Type ℓ where
  ok : A → Result A
  err : Error → Result A

infixl 5 ◌>>=◌
abbrev pub ◌>>=◌ {ℓ κ} : {A : Type ℓ} {B : Type κ} → Result A → (A → Result B) → Result B
ok a >>= f = f a
err e >>= f = err e

-- `fmt.Errorf("…: %w", err)` on the error path.
abbrev pub wrap_err {ℓ} : {A : Type ℓ} → (Error → Error) → Result A → Result A
wrap_err w (ok a) = ok a
wrap_err w (err e) = err (w e)
