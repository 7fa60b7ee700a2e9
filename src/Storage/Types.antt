-- ===== src/Storage/Types.antt =====
-- storage.go: the rows that storage and dispatcher exchange, and the Storage interface.
use sundial.Base.{ℤ, List, Bool, Option, Text}
use sundial.Errors.{Result}
use sundial.Clock.{Time}
use sundial.Job.{Job}

pub record DueJob : Type 0 where
  pub id : Text
  pub name : Text
  pub next_fire_time : Time
  pub schedule_expr : Text
  pub schedule_kind : Text

pub data RunOutcome : Type 0 where
  run_succeeded run_failed run_dead_letter : RunOutcome

pub record RunRecord : Type 0 where
  pub job_id : Text
  pub fire_time : Time
  pub started_at : Time
  pub finished_at : Time
  pub node_id : Text
  pub attempt : ℤ
  pub outcome : RunOutcome
  pub error : Text

-- The interface, over the states `S` of an implementation. A nil `*Job` is `none`. `record_run` may
-- read the clock: it is handed the reading.
pub record Storage (F W S : Type 0) : Type 0 where
  pub ensure_job : Option (Job F W) → Time → S → Result Text × S
  pub fetch_due : Time → ℤ → S → Result (List DueJob) × S
  pub claim_job : Text → Time → S → Result Bool × S
  pub record_run : RunRecord → Time → S → Result (Unit {0}) × S
  pub schedule_retry : Text → Time → S → Result (Unit {0}) × S
