-- ===== src/Storage/Memory/Lawful.antt =====
-- MemoryStorage (storage.go) meets the contract of the Storage interface.
use sundial.Base.{
  ◌≡◌, refl, sym, subst, inl, inr, Bool, Text, Option, none, some, if◌then◌else◌, arith, ℤ,
  Bool-cases, Option-cases,
}
use sundial.Errors.{Result}
use sundial.Clock.{Time, before}
use sundial.Storage.Types.{RunRecord}
use sundial.Storage.Laws.{Table, Claims, Retries, Fetches, StorageLaws}
use sundial.Storage.Memory.{
  MemoryStorage, fetch_due, claim_job, schedule_retry, record_run, memory_storage, find_id,
}
use sundial.Storage.Memory.Rows.{IsWf, set_next_fire-IsWf}
use sundial.Storage.Memory.Claim.{view, claim_spec, claim_job_lem, retry_spec, schedule_retry_lem}
use sundial.Storage.Memory.Fetch.{fetch_due-IsFetch}

pub claim_spec-Claims :
    (i : Text) (t : Time) (v v' : Table) (r : Result Bool) (entry : Option Time)
    → v i ≡ entry
    → r ≡ (claim_spec i t v entry).0
    → ((k : Text) → v' k ≡ (claim_spec i t v entry).1 k)
    → Claims i t v r v'
claim_spec-Claims i t v v' r none e a b = inr (inl (λ c. cc, b))
claim_spec-Claims i t v v' r (some u) e a b = elim (Bool-cases (before u t)) [
  | inl lt ↦ inl (ground arith, (u, e, ground arith, λ k. ground (arith, b k)))
  | inr ge ↦ inr (inl (λ c. ground arith, λ k. ground (arith, b k)))
]

pub retry_spec-Retries :
    (i : Text) (t : Time) (v v' : Table) (entry : Option Time)
    → v i ≡ entry
    → ((k : Text) → v' k ≡ (retry_spec i t v entry).1 k)
    → Retries i t v v'
retry_spec-Retries i t v v' none e b = inr b
retry_spec-Retries i t v v' (some u) e b = elim (Bool-cases (before t u)) [
  | inl lt ↦ inl (u, e, ground arith, λ k. ground (arith, b k))
  | inr ge ↦ inr (λ k. ground (arith, b k))
]

-- ClaimJob keeps the invariant.
pub claim_job-IsWf : (i : Text) (t : Time) (m : MemoryStorage) → IsWf m → IsWf (claim_job i t m).1
unfolding claim_job
claim_job-IsWf i t m w = elim (Option-cases (find_id i m.jobs)) [
  | inl e ↦ rw (e, claim_job) w
  | inr (j, e) ↦ elim (Bool-cases j.locked) [
    | inl l ↦ rw (e, claim_job, l, if◌then◌else◌) w
    | inr l ↦ elim (Bool-cases (before j.next_fire_time t)) [
      | inl b ↦ rw (e, claim_job, l, b, if◌then◌else◌) (set_next_fire-IsWf m i t w)
      | inr b ↦ rw (e, claim_job, l, b, if◌then◌else◌) w
    ]
  ]
]

-- ScheduleRetry keeps the invariant.
pub schedule_retry-IsWf :
    (i : Text) (t : Time) (m : MemoryStorage) → IsWf m → IsWf (schedule_retry i t m).1
unfolding schedule_retry
schedule_retry-IsWf i t m w = elim (Option-cases (find_id i m.jobs)) [
  | inl e ↦ rw (e, schedule_retry) w
  | inr (j, e) ↦ elim (Bool-cases (before t j.next_fire_time)) [
    | inl b ↦ rw (e, schedule_retry, b, if◌then◌else◌) (set_next_fire-IsWf m i t w)
    | inr b ↦ rw (e, schedule_retry, b, if◌then◌else◌) w
  ]
]

pub record_run-IsWf :
    (r : RunRecord) (now : Time) (m : MemoryStorage) → IsWf m → IsWf (record_run r now m).1
unfolding record_run
record_run-IsWf r now m w = record {
  names_distinct = w.names_distinct;
  ids_distinct = w.ids_distinct;
  ids_issued = w.ids_issued;
  unlocked = w.unlocked;
}

pub fetches :
    (now : Time) (limit : ℤ) (m : MemoryStorage)
    → IsWf m
    → Fetches now (view m) (fetch_due now limit m).0
fetches now limit m w =
    let (ds, e, f) = fetch_due-IsFetch now limit m w in
    subst (λ r. Fetches now (view m) r.0) (sym e) f.due

-- The contract holds, with well-formed rows for the valid states.
unfoldable pub memory_laws : (F W : Type 0) → StorageLaws (memory_storage F W)
unfolding memory_storage fetch_due record_run view
memory_laws F W = record {
  Valid = IsWf;
  table = view;
  fetch_due-Valid = λ now limit m w. w;
  fetch_due-table = λ now limit m k. refl;
  fetch_due-Fetches = fetches;
  claim_job-Valid = claim_job-IsWf;
  claim_job-Claims = λ i t m w.
      let (a, b) = claim_job_lem i t m w in
      claim_spec-Claims i t (view m) (view (claim_job i t m).1) _ (view m i) refl a b;
  schedule_retry-Valid = schedule_retry-IsWf;
  schedule_retry-Retries = λ i t m w.
      let (a, b) = schedule_retry_lem i t m in
      retry_spec-Retries i t (view m) (view (schedule_retry i t m).1) (view m i) refl b;
  record_run-Valid = record_run-IsWf;
  record_run-table = λ r now m k. refl;
}
