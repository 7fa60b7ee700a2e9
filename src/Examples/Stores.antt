-- ===== src/Examples/Stores.antt =====
-- Tests of the storage, the schedules and the leader.
use sundial.Base.{
  ◌≤ℤ◌, ◌⊎◌, ℕ, ◌≡◌, ◌≤◌, int_laws, ◌/◌, ◌-◌, min, refl, inr, List, [], ◌∷◌, some, Text, text, take,
  arith, pos, ◌+ℤ◌, pos_part, length,
}
use sundial.Errors.{ok}
use sundial.Schedule.{iterate_schedule, interval_schedule, fires_from}
use sundial.Schedule.Window.{
  Advances, IsWindow, IsExhausted, progression, iterate_schedule_lem, iterate_schedule-every,
}
use sundial.Storage.Types.{DueJob}
use sundial.Storage.Memory.{MemoryStorage, mem_id, claim_job, schedule_retry, ensure_job, fetch_due}
use sundial.Base.Decimal.{decimal}
use sundial.Storage.Memory.Rows.{IsWf, ensure_job-IsWf}
use sundial.Storage.Memory.Claim.{view, claim_spec, retry_spec, claim_job_lem, schedule_retry_lem}
use mathlib.Core.List.Perm
use mathlib.Core.List.{Perm}
use sundial.Storage.Memory.Order.{fetch_due-perm}
use sundial.Storage.Memory.Fetch.{Collects, InOrder, fetch_due_lem}
use sundial.Storage.Laws.{IsLimit}
use sundial.Storage.Memory.Lawful.{memory_laws}
use sundial.Examples.{formats, hourly, good, id_a, id_b, row_a, two_rows}

pub two_rows-IsWf : IsWf two_rows
unfolding mem_id decimal
two_rows-IsWf = record {
  names_distinct = ((λ e. ground arith, tt), (tt, tt));
  ids_distinct = ((λ e. ground arith, tt), (tt, tt));
  ids_issued = ((2, omega arith, refl), ((1, omega arith, refl), tt));
  unlocked = (refl, (refl, tt));
}

hourly-Advances : Advances hourly.next
unfolding interval_schedule
hourly-Advances t = inr (omega int_laws)

iterate_schedule_lem_example :
    let ts = iterate_schedule (some hourly) (pos 0) (pos 9000000000000) (pos 256) in
    IsWindow hourly.next (pos 0) (pos 9000000000000) ts
    × (length ts ≤ pos_part (pos 256))
    × ((pos 9000000000000 ≤ℤ pos 0)
        ⊎ (length ts ≡ pos_part (pos 256))
        ⊎ IsExhausted hourly.next (pos 0) (pos 9000000000000) ts)
iterate_schedule_lem_example =
    iterate_schedule_lem hourly (pos 0) (pos 9000000000000) (pos 256) hourly-Advances

two_listed : length (iterate_schedule (some hourly) (pos 0) (pos 9000000000000) (pos 256)) ≡ 2
unfolding iterate_schedule fires_from interval_schedule ◌+ℤ◌
two_listed = refl

iterate_schedule-every_example :
    iterate_schedule (some (interval_schedule formats (pos 10))) (pos 5) (pos 5 +ℤ pos 35) (pos 256)
    ≡ progression 10 (pos 5) (min 256 ((35 - 1) / 10))
iterate_schedule-every_example =
    iterate_schedule-every formats 10 35 256 (pos 5) (omega arith) (omega arith) (omega arith)

claim_job_lem_example :
    let spec = claim_spec id_a (pos 5000) (view two_rows) (view two_rows id_a) in
    ((claim_job id_a (pos 5000) two_rows).0 ≡ spec.0)
    × ((k : Text) → view (claim_job id_a (pos 5000) two_rows).1 k ≡ spec.1 k)
claim_job_lem_example = claim_job_lem id_a (pos 5000) two_rows two_rows-IsWf

schedule_retry_lem_example :
    let spec = retry_spec id_a (pos 500) (view two_rows) (view two_rows id_a) in
    ((schedule_retry id_a (pos 500) two_rows).0 ≡ spec.0)
    × ((k : Text) → view (schedule_retry id_a (pos 500) two_rows).1 k ≡ spec.1 k)
schedule_retry_lem_example = schedule_retry_lem id_a (pos 500) two_rows

ensure_job-IsWf_example : IsWf (ensure_job (some good) (pos 7) two_rows).1
ensure_job-IsWf_example = ensure_job-IsWf (some good) (pos 7) two_rows two_rows-IsWf

fetch_due_lem_example :
    (found ordered : List DueJob) × (n : ℕ) × Collects (pos 2000) two_rows.jobs found
    × Perm ordered found
    × InOrder ordered
    × IsLimit (pos 1) n
    × (fetch_due (pos 2000) (pos 1) two_rows ≡ (ok (take n ordered), two_rows))
fetch_due_lem_example = fetch_due_lem (pos 2000) (pos 1) two_rows

-- The same rows, met in the other order.
abbrev swapped : MemoryStorage
swapped = record two_rows { jobs = row_a ∷ record row_a { id = id_b; name = text "b" } ∷ [] }

fetch_due-perm_example :
    (fetch_due (pos 2000) (pos 0) two_rows).0 ≡ (fetch_due (pos 2000) (pos 0) swapped).0
fetch_due-perm_example =
    fetch_due-perm (pos 2000) (pos 0) two_rows swapped two_rows-IsWf
      (Perm.swap row_a (record row_a { id = id_b; name = text "b" }) [])

pub two_rows-Valid : (memory_laws ℕ ℕ).Valid two_rows
unfolding memory_laws
two_rows-Valid = two_rows-IsWf
