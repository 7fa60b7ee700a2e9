-- ===== src/Storage/Postgres/Update.antt =====
-- The UPDATE statements of PostgresStorage (storage.go) against a table of next fire times.
use sundial.Base.{
  ℕ, suc, ◌≡◌, ◌≢◌, refl, ap, sym, subst, ◌⊎◌, inl, inr, Bool, true, false, ◌&&◌, List, [], ◌∷◌,
  map, none, some, Text, text_eq, text_eq_iff, if◌then◌else◌, arith, All, Bool-cases,
}
use sundial.Clock.{Time}
use sundial.Storage.Laws.{Table, update}
use sundial.Storage.Memory.Rows.{IsDistinct}
use sundial.Storage.Sql.{JobRow, update_where}

abbrev pub row_ids : List JobRow → List Text
row_ids = map λ r. r.id

-- The next fire time of an id: that of its row.
unfoldable pub view_rows : List JobRow → Table
view_rows [] k = none
view_rows (r ∷ rs) k = if text_eq r.id k then some r.next_fire_time else view_rows rs k

-- A write of one row's fire time, if the time that it has passes a test.
abbrev pub retime : (Time → Bool) → Text → Time → List JobRow → ℕ × List JobRow
retime test i t =
    update_where (λ r. text_eq r.id i && test r.next_fire_time)
      (λ r. record r { next_fire_time = t })

row_ids-retime :
    (test : Time → Bool) (i : Text) (t : Time) (rs : List JobRow)
    → row_ids (retime test i t rs).1 ≡ row_ids rs
unfolding update_where
row_ids-retime test i t [] = refl
row_ids-retime test i t (r ∷ rs) = ground (arith, row_ids-retime test i t rs)

pub retime-IsDistinct :
    (test : Time → Bool) (i : Text) (t : Time) (rs : List JobRow)
    → IsDistinct (row_ids rs)
    → IsDistinct (row_ids (retime test i t rs).1)
retime-IsDistinct test i t rs d = rw (row_ids-retime test i t rs) d

retime_none :
    (test : Time → Bool) (i : Text) (t : Time) (rs : List JobRow)
    → All (λ k. i ≢ k) (row_ids rs)
    → retime test i t rs ≡ (0, rs)
unfolding update_where
retime_none test i t [] d = refl
retime_none test i t (r ∷ rs) d = ground (arith, retime_none test i t rs d.1, text_eq_iff r.id i)

-- Either no row passes, and nothing changes, or one does, and its entry alone moves.
abbrev pub Retimes : (Time → Bool) → Text → Time → List JobRow → ℕ × List JobRow → Type 0
Retimes test i t rs (n, rs') =
    ((n ≡ 0) × (rs' ≡ rs) × ((u : Time) → view_rows rs i ≡ some u → test u ≡ false))
    ⊎ ((n ≡ 1)
        × (u : Time) × (view_rows rs i ≡ some u)
        × (test u ≡ true)
        × ((k : Text) → view_rows rs' k ≡ update (view_rows rs) i t k))

retime_other :
    (test : Time → Bool) (i : Text) (t : Time) (r : JobRow) (rs : List JobRow)
    → text_eq r.id i ≡ false
    → retime test i t (r ∷ rs) ≡ ((retime test i t rs).0, r ∷ (retime test i t rs).1)
unfolding update_where
retime_other test i t r rs e = rw (e, if◌then◌else◌) refl

retime_own :
    (test : Time → Bool) (i : Text) (t : Time) (r : JobRow) (rs : List JobRow)
    → text_eq r.id i ≡ true
    → retime test i t rs ≡ (0, rs)
    → retime test i t (r ∷ rs)
      ≡ (if test r.next_fire_time then (1, record r { next_fire_time = t } ∷ rs) else (0, r ∷ rs))
unfolding update_where
retime_own test i t r rs e h = elim (Bool-cases (test r.next_fire_time)) [
  | inl y ↦ rw (e, y) (ap (λ o. (suc o.0, record r { next_fire_time = t } ∷ o.1)) h)
  | inr y ↦ rw (e, y) (ap (λ o. (o.0, r ∷ o.1)) h)
]

Retimes-later :
    (test : Time → Bool) (i : Text) (t : Time) (r : JobRow) (rs : List JobRow)
    (out : ℕ × List JobRow)
    → text_eq r.id i ≡ false
    → Retimes test i t rs out
    → Retimes test i t (r ∷ rs) (out.0, r ∷ out.1)
unfolding view_rows
Retimes-later test i t r rs out e (inl (a, b, miss)) =
    inl (a, ap (λ xs. r ∷ xs) b, λ u. rw (e, if◌then◌else◌) (miss u))
Retimes-later test i t r rs out e (inr (a, u, b, c, w)) = inr (
  a,
  u,
  (rw (e, if◌then◌else◌) b),
  c,
  λ k. ground (arith, w k, text_eq_iff r.id i, text_eq_iff r.id k, text_eq_iff i k),
)

Retimes-own :
    (test : Time → Bool) (i : Text) (t : Time) (r : JobRow) (rs : List JobRow)
    → text_eq r.id i ≡ true
    → Retimes test i t
        (r ∷ rs)
        (if test r.next_fire_time then (1, record r { next_fire_time = t } ∷ rs) else (0, r ∷ rs))
unfolding view_rows
Retimes-own test i t r rs e = by_test (test r.next_fire_time) refl
  where
    by_test :
        (b : Bool)
        → test r.next_fire_time ≡ b
        → Retimes test i t
            (r ∷ rs)
            (if b then (1, record r { next_fire_time = t } ∷ rs) else (0, r ∷ rs))
    by_test true y = inr (
      refl,
      r.next_fire_time,
      (rw (e, if◌then◌else◌) refl),
      y,
      λ k. ground (arith, text_eq_iff r.id i, text_eq_iff r.id k, text_eq_iff i k),
    )
    by_test false y = inl (refl, refl, λ u. rw (e, if◌then◌else◌) (λ h. ground arith))

-- An UPDATE of one id's fire time, on rows with distinct ids.
pub retime_lem :
    (test : Time → Bool) (i : Text) (t : Time) (rs : List JobRow)
    → IsDistinct (row_ids rs)
    → Retimes test i t rs (retime test i t rs)
unfolding update_where view_rows
retime_lem test i t [] d = inl (refl, refl, λ u h. cc)
retime_lem test i t (r ∷ rs) d = elim (Bool-cases (text_eq r.id i)) [
  | inl e ↦
      let same : r.id ≡ i = (text_eq_iff r.id i).0 e in
      let rest = retime_none test i t rs (subst (λ x. All (λ k. x ≢ k) (row_ids rs)) same d.0) in
      subst (Retimes test i t (r ∷ rs)) (sym (retime_own test i t r rs e rest))
        (Retimes-own test i t r rs e)
  | inr e ↦
      subst (Retimes test i t (r ∷ rs)) (sym (retime_other test i t r rs e))
        (Retimes-later test i t r rs (retime test i t rs) e (retime_lem test i t rs d.1))
]
