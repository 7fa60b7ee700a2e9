-- ===== src/Storage/Memory/Claim.antt =====
-- ClaimJob and ScheduleRetry of MemoryStorage (storage.go) against a table of next fire times.
use sundial.Base.{
  ◌≡◌, inl, inr, Bool, true, false, List, [], ◌∷◌, Option, none, some, Text, text_eq_iff,
  if◌then◌else◌, arith, Option-cases,
}
use sundial.Errors.{Result, ok, err, job_not_found}
use sundial.Clock.{Time, before}
use sundial.Storage.Laws.{Table, update}
use sundial.Storage.Memory.{
  MemJob, MemoryStorage, find_id, set_next_fire, claim_job, schedule_retry,
}
use sundial.Storage.Memory.Rows.{IsWf, IsUnlocked, find_id-set_next_fire}

abbrev fire_time : Option MemJob → Option Time
fire_time none = none
fire_time (some j) = some j.next_fire_time

-- What each id is to fire next, and nothing else of the rows.
unfoldable pub view : MemoryStorage → Table
view m i = fire_time (find_id i m.jobs)

-- A claim by this table: it wins exactly when the entry exists and is before the new time.
abbrev pub claim_spec : Text → Time → Table → Option Time → Result Bool × Table
claim_spec i t v none = (err job_not_found, v)
claim_spec i t v (some u) = if before u t then (ok true, update v i t) else (ok false, v)

-- A retry by this table: the earlier of the entry and the new time.
abbrev pub retry_spec : Text → Time → Table → Option Time → Result (Unit {0}) × Table
retry_spec i t v none = (err job_not_found, v)
retry_spec i t v (some u) = (ok tt, if before t u then update v i t else v)

view-set_next_fire :
    (m : MemoryStorage) (i : Text) (t : Time) (j : MemJob)
    → find_id i m.jobs ≡ some j
    → (k : Text) → view (record m { jobs = set_next_fire i t m.jobs }) k ≡ update (view m) i t k
unfolding view
view-set_next_fire m i t j e k = ground (arith, find_id-set_next_fire i k t m.jobs, text_eq_iff i k)

find_id-unlocked :
    (i : Text) (js : List MemJob) (j : MemJob)
    → IsUnlocked js
    → find_id i js ≡ some j
    → j.locked ≡ false
unfolding find_id
find_id-unlocked i [] j u h = cc
find_id-unlocked i (x ∷ js) j u h = ground (arith, find_id-unlocked i js j u.1)

-- On well-formed rows ClaimJob implements the claim on the table of next fire times: the same
-- answer, and the same table afterwards.
pub claim_job_lem :
    (i : Text) (t : Time) (m : MemoryStorage)
    → IsWf m
    → let spec = claim_spec i t (view m) (view m i) in
      ((claim_job i t m).0 ≡ spec.0) × ((k : Text) → view (claim_job i t m).1 k ≡ spec.1 k)
unfolding claim_job view
claim_job_lem i t m w = elim (Option-cases (find_id i m.jobs)) [
  | inl e ↦ (ground arith, λ k. ground arith)
  | inr (j, e) ↦
      let free = find_id-unlocked i m.jobs j w.unlocked e in
      (ground arith, λ k. ground (arith, view-set_next_fire m i t j e k))
]

-- ScheduleRetry implements the retry on the table: it only ever pulls a fire time back.
pub schedule_retry_lem :
    (i : Text) (t : Time) (m : MemoryStorage)
    → let spec = retry_spec i t (view m) (view m i) in
      ((schedule_retry i t m).0 ≡ spec.0)
      × ((k : Text) → view (schedule_retry i t m).1 k ≡ spec.1 k)
unfolding schedule_retry view
schedule_retry_lem i t m = elim (Option-cases (find_id i m.jobs)) [
  | inl e ↦ (ground arith, λ k. ground arith)
  | inr (j, e) ↦ (ground arith, λ k. ground (arith, view-set_next_fire m i t j e k))
]
