-- ===== src/Storage/Postgres/DueRows.antt =====
-- The rows that FetchDue of PostgresStorage (storage.go) reads, and how they are shown.
use mathlib.Core.List.{Memᴰ}
use sundial.Base.{
  ℕ, zero, suc, negsuc, pos_part, length, ltb, ◌≤◌, ◌≤ℤ◌, ◌<ℤ◌, ◌≡◌, refl, ◌⊎◌, inl, inr, ℤ, pos,
  ltb_ℤ, map, true, false, List, [], ◌∷◌, if◌then◌else◌, arith, All, Bool-cases,
}
use sundial.Base.Sort.{IsSorted}
use sundial.Clock.{Time, before, after}
use sundial.Storage.Types.{DueJob}
use sundial.Storage.Laws.{IsLimit}
use sundial.Storage.Sql.{JobRow}
use sundial.Storage.ServerLaws.{IsSelection}
use sundial.Storage.Postgres.{select_due, due_of}

-- Earlier rows first.
abbrev pub Rising : List JobRow → Type 0
Rising [] = Unit
Rising (r ∷ rs) = All (λ q. r.next_fire_time ≤ℤ q.next_fire_time) rs × Rising rs

-- The due rows show the columns of the rows, one by one.
abbrev pub ShowAll : List JobRow → List DueJob → Type 0
ShowAll [] [] = Unit
ShowAll [] (d ∷ ds) = ⊥
ShowAll (r ∷ rs) [] = ⊥
ShowAll (r ∷ rs) (d ∷ ds) =
    ((d.id ≡ r.id)
      × (d.name ≡ r.name)
      × (d.next_fire_time ≡ r.next_fire_time)
      × (d.schedule_expr ≡ r.schedule)
      × (d.schedule_kind ≡ r.schedule_kind))
    × ShowAll rs ds

-- What the rows are that FetchDue reads: due rows of the table, earlier ones first, at most `limit` (32,
-- if that is not positive), and all that are due if they are fewer.
abbrev pub IsDueRows : Time → ℤ → List JobRow → List JobRow → Type 0
IsDueRows now limit rows found =
    (n : ℕ) × IsLimit limit n
    × All (λ r. (r.next_fire_time ≤ℤ now) × Memᴰ r rows) found
    × Rising found
    × (length found ≤ n)
    × ((length found ≡ n) ⊎ All (λ r. (now <ℤ r.next_fire_time) ⊎ Memᴰ r found) rows)

rising_after :
    (r : JobRow) (rs : List JobRow)
    → All (λ q. after r.next_fire_time q.next_fire_time ≡ false) rs
    → All (λ q. r.next_fire_time ≤ℤ q.next_fire_time) rs
rising_after r [] h = tt
rising_after r (q ∷ rs) h = (ground (arith, h.0), rising_after r rs h.1)

sorted-Rising :
    (rs : List JobRow)
    → IsSorted (λ (a b : JobRow). after a.next_fire_time b.next_fire_time) rs
    → Rising rs
sorted-Rising [] h = tt
sorted-Rising (r ∷ rs) h = (rising_after r rs h.0, sorted-Rising rs h.1)

pub show_all : (rs : List JobRow) → ShowAll rs (map due_of rs)
show_all [] = tt
show_all (r ∷ rs) = ((refl, refl, refl, refl, refl), show_all rs)

chosen-due :
    (now : Time) (limit : ℤ) (rows found : List JobRow)
    → All (λ r. ((select_due now limit).where_test r ≡ true) × Memᴰ r rows) found
    → All (λ r. (r.next_fire_time ≤ℤ now) × Memᴰ r rows) found
chosen-due now limit rows [] h = tt
chosen-due now limit rows (r ∷ rs) ((t, m), h) =
    ((ground (arith, t), m), chosen-due now limit rows rs h)

-- What the SELECT finds of some rows of the table.
found_all :
    (now : Time) (limit : ℤ) (rows found some_rows : List JobRow)
    → ((r : JobRow) → Memᴰ r some_rows → Memᴰ r rows)
    → ((r : JobRow) → Memᴰ r rows → (select_due now limit).where_test r ≡ true → Memᴰ r found)
    → All (λ r. (now <ℤ r.next_fire_time) ⊎ Memᴰ r found) some_rows
found_all now limit rows found [] inside all = tt
found_all now limit rows found (r ∷ rs) inside all = (
  elim (Bool-cases (before now r.next_fire_time)) [
    | inl e ↦ inl (ground (arith, e))
    | inr e ↦ inr (all r (inside r (Memᴰ.head refl)) (rw e refl))
  ],
  found_all now limit rows found rs (λ q m. inside q (Memᴰ.tail m)) all,
)

-- 32 rows, unless the limit is positive.
abbrev pub row_limit : ℤ → ℤ
row_limit limit = if ltb_ℤ (pos 0) limit then limit else pos 32

row_limit-IsLimit : (limit : ℤ) → IsLimit limit (pos_part (row_limit limit))
row_limit-IsLimit (pos zero) = inr (omega arith, refl)
row_limit-IsLimit (pos (suc n)) = inl (omega arith, ground arith)
row_limit-IsLimit (negsuc n) = inr (omega arith, ground arith)

pub selection-IsDueRows :
    (now : Time) (limit : ℤ) (rows found : List JobRow)
    → IsSelection (select_due now (row_limit limit)) rows found
    → IsDueRows now limit rows found
selection-IsDueRows now limit rows found sel =
    let n = pos_part (row_limit limit) in
    (
      n,
      row_limit-IsLimit limit,
      chosen-due now (row_limit limit) rows found sel.chosen,
      sorted-Rising found sel.ordered,
      sel.within,
      elim (Bool-cases (ltb (length found) n)) [
        | inl e ↦ inr (
            found_all now (row_limit limit) rows found rows (λ r m. m)
              (sel.complete (ground (arith, e))))
        | inr e ↦ inl (ground (arith, e, sel.within))
      ],
    )
