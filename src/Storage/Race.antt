-- ===== src/Storage/Race.antt =====
-- Nodes that race for a fire through ClaimJob (storage.go), over any lawful storage.
use sundial.Base.{
  ◌≤◌, ◌≡◌, refl, inl, inr, Bool, true, false, ◌&&◌, List, [], ◌∷◌, Option, none, some, Text,
  text_eq, text_eq_iff, if◌then◌else◌, arith, ◌≤ℤ◌, eqb_ℤ, eqb_ℤ→eq, Bool-cases,
}
use sundial.Errors.{Result, ok, err}
use sundial.Clock.{Time}
use sundial.Storage.Types.{Storage}
use sundial.Storage.Laws.{Table, Claims, StorageLaws, is_won, wins}

-- The entry of `i` is at `t` or later.
abbrev pub HasPassed : Text → Time → Option Time → Type 0
HasPassed i t none = ⊥
HasPassed i t (some u) = t ≤ℤ u

-- No claim takes an entry back.
pub passed_step :
    (i k : Text) (t u : Time) (v v' : Table) (r : Result Bool)
    → Claims k u v r v'
    → HasPassed i t (v i)
    → HasPassed i t (v' i)
passed_step i k t u v v' r (inl (won, (w, e, lt, upd))) h = ground (arith, upd i, text_eq_iff k i)
passed_step i k t u v v' r (inr (inl (lost, same))) h = rw (same i) h
passed_step i k t u v v' r (inr (inr (x, q, (w, e, lt, upd)))) h =
    ground (arith, upd i, text_eq_iff k i)

pub passed_lost :
    (i k : Text) (t u : Time) (v v' : Table) (r : Result Bool)
    → Claims k u v r v'
    → HasPassed i t (v i)
    → (text_eq k i && eqb_ℤ u t && is_won r) ≡ false
unfolding is_won
passed_lost i k t u v v' (ok false) c h = ground arith
passed_lost i k t u v v' (err x) c h = ground arith
passed_lost i k t u v v' (ok true) (inr (inl (lost, same))) h = absurd (lost refl)
passed_lost i k t u v v' (ok true) (inr (inr (x, q, moves))) h = absurd cc
passed_lost i k t u v v' (ok true) (inl (won, (w, e, lt, upd))) h =
    ground (arith, text_eq_iff k i, eqb_ℤ→eq u t)

-- A claim that counts leaves the entry at its fire time.
pub counted_passed :
    (i k : Text) (t u : Time) (v v' : Table) (r : Result Bool)
    → Claims k u v r v'
    → (text_eq k i && eqb_ℤ u t && is_won r) ≡ true
    → HasPassed i t (v' i)
unfolding is_won
counted_passed i k t u v v' (ok false) c h = ground arith
counted_passed i k t u v v' (err x) c h = ground arith
counted_passed i k t u v v' (ok true) (inr (inl (lost, same))) h = absurd (lost refl)
counted_passed i k t u v v' (ok true) (inr (inr (x, q, moves))) h = absurd cc
counted_passed i k t u v v' (ok true) (inl (won, (w, e, lt, upd))) h =
    ground (arith, text_eq_iff k i, upd i, eqb_ℤ→eq u t)

module _ {F W S : Type 0} (st : Storage F W S) (laws : StorageLaws st) where
  open laws use {Valid, table, claim_job-Valid, claim_job-Claims}

  wins-passed :
      (i : Text) (t : Time) (cs : List (Text × Time)) (s : S)
      → Valid s
      → HasPassed i t (table s i)
      → wins st i t cs s ≡ 0
  unfolding wins
  wins-passed i t [] s v h = refl
  wins-passed i t ((k, u) ∷ cs) s v h =
      let c = claim_job-Claims k u s v in
      let after = (st.claim_job k u s).1 in
      rw (passed_lost i k t u (table s) (table after) _ c h, if◌then◌else◌)
        (omega (
          arith,
          wins-passed i t cs after (claim_job-Valid k u s v)
              (passed_step i k t u (table s) (table after) _ c h),
        ))

  -- On a storage that keeps the contract and is valid: however many nodes claim a job for the same
  -- fire time, and whatever else is claimed in between, at most one of those claims wins.
  wins-le-one :
      (i : Text) (t : Time) (cs : List (Text × Time)) (s : S) → Valid s → wins st i t cs s ≤ 1
  unfolding wins
  wins-le-one i t [] s v = omega arith
  wins-le-one i t ((k, u) ∷ cs) s v =
      let c = claim_job-Claims k u s v in
      let after = (st.claim_job k u s).1 in
      let v' = claim_job-Valid k u s v in
      elim (Bool-cases (text_eq k i && eqb_ℤ u t && is_won (st.claim_job k u s).0)) [
        | inl e ↦
            let later =
              wins-passed i t cs after v' (counted_passed i k t u (table s) (table after) _ c e) in
            rw (e, if◌then◌else◌, later) (omega arith)
        | inr e ↦ rw (e, if◌then◌else◌) (omega (arith, wins-le-one i t cs after v'))
      ]
