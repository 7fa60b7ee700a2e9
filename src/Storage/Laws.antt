-- ===== src/Storage/Laws.antt =====
-- The contract of the Storage interface (storage.go) that the dispatcher relies on: an abstract
-- table of next fire times, and what each operation may do to it. A backend may also fail.
use sundial.Base.{
  ℕ, ◌+◌, ◌≡◌, ◌≢◌, ◌⊎◌, Bool, true, false, ◌&&◌, List, [], ◌∷◌, Option, some, Text, text_eq,
  if◌then◌else◌, All, ◌≤ℤ◌, ◌<ℤ◌, ℤ, pos, eqb_ℤ,
}
use sundial.Errors.{Error, Result, ok, err}
use sundial.Clock.{Time}
use sundial.Storage.Types.{DueJob, RunRecord, Storage}

-- What each job id is to fire next.
abbrev pub Table : Type 0
Table = Text → Option Time

abbrev pub update : Table → Text → Time → Table
update v i t k = if text_eq i k then some t else v k

-- An entry that is before a time moves to it.
abbrev pub Moves : Text → Time → Table → Table → Type 0
Moves i t v v' = (u : Time) × (v i ≡ some u) × (u <ℤ t) × ((k : Text) → v' k ≡ update v i t k)

-- A claim that wins finds an earlier fire time and advances it. Any other changes nothing, but that a
-- claim whose answer is lost on the way may have advanced it.
abbrev pub Claims : Text → Time → Table → Result Bool → Table → Type 0
Claims i t v r v' =
    ((r ≡ ok true) × Moves i t v v')
    ⊎ (r ≢ ok true) × ((k : Text) → v' k ≡ v k)
    ⊎ ((e : Error) × (r ≡ err e) × Moves i t v v')

-- A retry changes nothing, or pulls the fire time back.
abbrev pub Retries : Text → Time → Table → Table → Type 0
Retries i t v v' =
    ((u : Time) × (v i ≡ some u) × (t <ℤ u) × ((k : Text) → v' k ≡ update v i t k))
    ⊎ ((k : Text) → v' k ≡ v k)

-- A fetched row shows its entry of the table, which is due.
abbrev pub IsDue : Time → Table → DueJob → Type 0
IsDue now v d = (v d.id ≡ some d.next_fire_time) × (d.next_fire_time ≤ℤ now)

abbrev pub Fetches : Time → Table → Result (List DueJob) → Type 0
Fetches now v (ok ds) = All (IsDue now v) ds
Fetches now v (err e) = Unit

pub record StorageLaws {F W S : Type 0} (st : Storage F W S) : Type 1 where
  pub Valid : S → Type 0
  pub table : S → Table
  pub fetch_due-Valid :
      (now : Time) (limit : ℤ) (s : S) → Valid s → Valid (st.fetch_due now limit s).1
  pub fetch_due-table :
      (now : Time) (limit : ℤ) (s : S) (k : Text) → table (st.fetch_due now limit s).1 k ≡ table s k
  pub fetch_due-Fetches :
      (now : Time) (limit : ℤ) (s : S)
      → Valid s
      → Fetches now (table s) (st.fetch_due now limit s).0
  pub claim_job-Valid : (i : Text) (t : Time) (s : S) → Valid s → Valid (st.claim_job i t s).1
  pub claim_job-Claims :
      (i : Text) (t : Time) (s : S)
      → Valid s
      → Claims i t (table s) (st.claim_job i t s).0 (table (st.claim_job i t s).1)
  pub schedule_retry-Valid :
      (i : Text) (t : Time) (s : S) → Valid s → Valid (st.schedule_retry i t s).1
  pub schedule_retry-Retries :
      (i : Text) (t : Time) (s : S)
      → Valid s
      → Retries i t (table s) (table (st.schedule_retry i t s).1)
  pub record_run-Valid :
      (r : RunRecord) (now : Time) (s : S) → Valid s → Valid (st.record_run r now s).1
  pub record_run-table :
      (r : RunRecord) (now : Time) (s : S) (k : Text)
      → table (st.record_run r now s).1 k ≡ table s k

unfoldable pub is_won : Result Bool → Bool
is_won (ok b) = b
is_won (err e) = false

module _ {F W S : Type 0} (st : Storage F W S) where
  -- Claims by any nodes, in the order in which the backend runs them; the count is of the claims
  -- of job `i` for fire time `t` that won.
  unfoldable pub wins : Text → Time → List (Text × Time) → S → ℕ
  unfolding is_won
  wins i t [] s = 0
  wins i t ((k, u) ∷ cs) s =
      let (r, s') = st.claim_job k u s in
      (if text_eq k i && eqb_ℤ u t && is_won r then 1 else 0) + wins i t cs s'

-- How many rows a limit admits.
abbrev pub IsLimit : ℤ → ℕ → Type 0
IsLimit limit n = ((pos 0 <ℤ limit) × (limit ≡ pos n)) ⊎ ((limit ≤ℤ pos 0) × (n ≡ 32))
