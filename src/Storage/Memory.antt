-- ===== src/Storage/Memory.antt =====
-- storage.go: MemoryStorage. A method runs under the mutex and is one step. The map of rows is the
-- list of its rows, in the order in which a `range` over the map meets them; a row's key is its name.
pub mod Rows
pub mod Claim
pub mod Due
pub mod Fetch
pub mod Order
pub mod Lawful
use sundial.Base.{
  ℕ, suc, ◌+◌, ℤ, pos, pos_part, ltb_ℤ, eqb_ℤ, Bool, true, false, not, ◌&&◌, ◌||◌, List, [], ◌∷◌,
  ◌++◌, map, Option, none, some, Text, text, text_eq, text_lt, if◌then◌else◌, leb, length, take,
  ltb,
}
use sundial.Base.Decimal.{decimal}
use sundial.Base.Sort.{insertion_sort}
use sundial.Errors.{Error, Result, ok, err, nil_job, job_not_found}
use sundial.Clock.{Time, is_zero, before, after}
use sundial.Job.{Job}
use sundial.Storage.Types.{DueJob, RunRecord, Storage}

pub record MemJob : Type 0 where
  pub id : Text
  pub name : Text
  pub next_fire_time : Time
  pub schedule : Text
  pub schedule_kind : Text
  pub locked : Bool

pub record MemoryStorage : Type 0 where
  pub jobs : List MemJob
  pub runs : List RunRecord
  pub next : ℕ

unfoldable pub new_memory_storage : MemoryStorage
new_memory_storage = record { jobs = []; runs = []; next = 0 }

-- `m.jobs[name]`
unfoldable pub find_name : Text → List MemJob → Option MemJob
find_name n [] = none
find_name n (j ∷ js) = if text_eq j.name n then some j else find_name n js

-- The row that a loop `for _, j := range m.jobs { if j.ID == jobID { … return } }` stops at.
unfoldable pub find_id : Text → List MemJob → Option MemJob
find_id i [] = none
find_id i (j ∷ js) = if text_eq j.id i then some j else find_id i js

-- A write through that row's pointer.
unfoldable pub set_next_fire : Text → Time → List MemJob → List MemJob
set_next_fire i t [] = []
set_next_fire i t (j ∷ js) =
    if text_eq j.id i then record j { next_fire_time = t } ∷ js else j ∷ set_next_fire i t js

unfoldable pub set_schedule : Text → Text → Text → List MemJob → List MemJob
set_schedule n expr kind [] = []
set_schedule n expr kind (j ∷ js) =
    if text_eq j.name n
    then record j { schedule = expr; schedule_kind = kind } ∷ js
    else j ∷ set_schedule n expr kind js

-- `fmt.Sprintf("mem-job-%d", n)`
unfoldable pub mem_id : ℕ → Text
mem_id n = text "mem-job-" ++ decimal n

unfoldable pub insert_job : Text → Text → Text → Time → MemoryStorage → Result Text × MemoryStorage
unfolding mem_id
insert_job name expr kind first_fire m =
    let n = m.next + 1 in
    let row : MemJob = record {
      id = mem_id n;
      name = name;
      next_fire_time = first_fire;
      schedule = expr;
      schedule_kind = kind;
      locked = false;
    } in
    (ok row.id, record m { jobs = row ∷ m.jobs; next = n })

unfoldable pub ensure_job :
    {F W : Type 0} → Option (Job F W) → Time → MemoryStorage → Result Text × MemoryStorage
unfolding insert_job
ensure_job none first_fire m = (err nil_job, m)
ensure_job (some j) first_fire m = elim (find_name j.name m.jobs) [
  | some existing ↦ (
    ok existing.id,
    record m { jobs = set_schedule j.name j.schedule.string j.schedule.kind m.jobs },
  )
  | none ↦ insert_job j.name j.schedule.string j.schedule.kind first_fire m
]

abbrev pub to_due : MemJob → DueJob
to_due j = record {
  id = j.id;
  name = j.name;
  next_fire_time = j.next_fire_time;
  schedule_expr = j.schedule;
  schedule_kind = j.schedule_kind;
}

-- The rows whose `!j.NextFireTime.After(now)`.
unfoldable pub collect_due : Time → List MemJob → List DueJob
collect_due now [] = []
collect_due now (j ∷ js) =
    if not (after j.next_fire_time now) then to_due j ∷ collect_due now js else collect_due now js

-- The test by which the sort swaps neighbours: later first, or the same time and the greater name.
unfoldable pub due_gt : DueJob → DueJob → Bool
due_gt a b =
    after a.next_fire_time b.next_fire_time
    || (eqb_ℤ a.next_fire_time b.next_fire_time && text_lt b.name a.name)

unfoldable pub effective_limit : ℤ → ℕ
effective_limit limit = if ltb_ℤ (pos 0) limit then pos_part limit else 32

unfoldable pub fetch_due : Time → ℤ → MemoryStorage → Result (List DueJob) × MemoryStorage
unfolding collect_due due_gt effective_limit
fetch_due now limit m =
    let out = insertion_sort due_gt (collect_due now m.jobs) in
    let n = effective_limit limit in (ok (if ltb n (length out) then take n out else out), m)

unfoldable pub claim_job : Text → Time → MemoryStorage → Result Bool × MemoryStorage
claim_job job_id next_fire m = elim (find_id job_id m.jobs) [
  | none ↦ (err job_not_found, m)
  | some j ↦
      if j.locked
      then (ok false, m)
      else if not (before j.next_fire_time next_fire)
      then (ok false, m)
      else (ok true, record m { jobs = set_next_fire job_id next_fire m.jobs })
]

unfoldable pub schedule_retry : Text → Time → MemoryStorage → Result (Unit {0}) × MemoryStorage
schedule_retry job_id retry_at m = elim (find_id job_id m.jobs) [
  | none ↦ (err job_not_found, m)
  | some j ↦
      if before retry_at j.next_fire_time
      then (ok tt, record m { jobs = set_next_fire job_id retry_at m.jobs })
      else (ok tt, m)
]

-- The defaults of `RecordRun`, which both implementations apply in turn.
unfoldable pub fill_run : Time → RunRecord → RunRecord
fill_run now r =
    let finished = (if is_zero r.finished_at then now else r.finished_at) in
    record r {
      finished_at = finished;
      started_at = if is_zero r.started_at then finished else r.started_at;
      attempt = if ltb_ℤ r.attempt (pos 1) then pos 1 else r.attempt;
    }

unfoldable pub record_run : RunRecord → Time → MemoryStorage → Result (Unit {0}) × MemoryStorage
unfolding fill_run
record_run r now m = (ok tt, record m { runs = m.runs ++ fill_run now r ∷ [] })

-- MemoryStorage satisfies the interface.
unfoldable pub memory_storage : (F W : Type 0) → Storage F W MemoryStorage
memory_storage F W = record {
  ensure_job = ensure_job;
  fetch_due = fetch_due;
  claim_job = claim_job;
  record_run = record_run;
  schedule_retry = schedule_retry;
}
