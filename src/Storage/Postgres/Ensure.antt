-- ===== src/Storage/Postgres/Ensure.antt =====
-- EnsureJob of PostgresStorage (storage.go): the upsert of a job's row.
use sundial.Base.{
  ◌≡◌, ◌≢◌, refl, sym, subst, ◌⊎◌, inl, inr, List, [], ◌∷◌, Option, none, some, Text, text, text_eq,
  text_eq_refl, text_eq_iff, arith, All,
}
use sundial.Errors.{Result, ok, err}
use sundial.Clock.{Time}
use sundial.Job.{Job}
use sundial.Storage.Laws.{update}
use sundial.Storage.Memory.Rows.{IsDistinct}
use sundial.Storage.Sql.{JobRow, Server, Statement, update_where}
use sundial.Storage.ServerLaws.{ServerLaws, Executes, IsFresh}
use sundial.Storage.Postgres.{
  PostgresStorage, jobs_table, find_row, upsert, upsert_found, failing, ensure_job_pg,
}
use sundial.Storage.Postgres.Update.{row_ids, view_rows}

ids_apart : (u : Text) (rows : List JobRow) → IsFresh u rows → All (λ k. u ≢ k) (row_ids rows)
ids_apart u [] f = tt
ids_apart u (r ∷ rs) f = (f.0, ids_apart u rs f.1)

view_absent : (u : Text) (rows : List JobRow) → IsFresh u rows → view_rows rows u ≡ none
unfolding view_rows
view_absent u [] f = refl
view_absent u (r ∷ rs) f = ground (arith, f.0, view_absent u rs f.1, text_eq_iff r.id u)

-- The DO UPDATE of the upsert.
abbrev reschedule : Text → Text → Text → List JobRow → List JobRow
reschedule n expr kind rows =
    (update_where (λ q. text_eq q.name n) (λ q. record q { schedule = expr; schedule_kind = kind })
      rows).1

row_ids-reschedule :
    (n expr kind : Text) (rows : List JobRow) → row_ids (reschedule n expr kind rows) ≡ row_ids rows
unfolding update_where
row_ids-reschedule n expr kind [] = refl
row_ids-reschedule n expr kind (r ∷ rs) = ground (arith, row_ids-reschedule n expr kind rs)

view-reschedule :
    (n expr kind : Text) (rows : List JobRow) (k : Text)
    → view_rows (reschedule n expr kind rows) k ≡ view_rows rows k
unfolding update_where view_rows
view-reschedule n expr kind [] k = refl
view-reschedule n expr kind (r ∷ rs) k = ground (arith, view-reschedule n expr kind rs k)

find-reschedule :
    (n expr kind : Text) (rows : List JobRow) (r : JobRow)
    → find_row n rows ≡ some r
    → find_row n (reschedule n expr kind rows)
      ≡ some (record r { schedule = expr; schedule_kind = kind })
unfolding update_where
find-reschedule n expr kind [] r e = absurd cc
find-reschedule n expr kind (q ∷ rs) r e = ground (arith, find-reschedule n expr kind rs r)

-- The job's row afterwards: it has the job's schedule and the id that is returned. If there was a row
-- of the name, its id and fire time are kept, and no fire time changes; else the id is new, and gets
-- the first fire time.
abbrev pub IsEnsured : Text → Text → Text → Time → List JobRow → Text → List JobRow → Type 0
IsEnsured n expr kind first rows i rows' =
    (r : JobRow) × (find_row n rows' ≡ some r)
    × (r.id ≡ i)
    × (r.schedule ≡ expr)
    × (r.schedule_kind ≡ kind)
    × (((o : JobRow) × (find_row n rows ≡ some o)
          × (o.id ≡ i)
          × (r.next_fire_time ≡ o.next_fire_time)
          × ((k : Text) → view_rows rows' k ≡ view_rows rows k))
        ⊎ ((find_row n rows ≡ none)
            × (r.next_fire_time ≡ first)
            × (view_rows rows i ≡ none)
            × ((k : Text) → view_rows rows' k ≡ update (view_rows rows) i first k)))

upsert-IsEnsured :
    (n expr kind : Text) (first : Time) (u : Text) (rows : List JobRow)
    → IsFresh u rows
    → IsEnsured n expr kind first rows
        (upsert n expr kind first u rows).0
        (upsert n expr kind first u rows).1
unfolding view_rows
upsert-IsEnsured n expr kind first u rows f = by_row (find_row n rows) refl
  where
    by_row :
        (o : Option JobRow)
        → find_row n rows ≡ o
        → IsEnsured n expr kind first rows
            (upsert_found n expr kind first o u rows).0
            (upsert_found n expr kind first o u rows).1
    by_row (some r) e = (
      record r { schedule = expr; schedule_kind = kind },
      find-reschedule n expr kind rows r e,
      refl,
      refl,
      refl,
      inl (r, e, refl, refl, view-reschedule n expr kind rows),
    )
    by_row none e = (
      record { id = u; name = n; schedule = expr; schedule_kind = kind; next_fire_time = first },
      (rw (text_eq_refl n) refl),
      refl,
      refl,
      refl,
      inr (e, refl, view_absent u rows f, λ k. refl),
    )

upsert-IsDistinct :
    (n expr kind : Text) (first : Time) (u : Text) (rows : List JobRow)
    → IsFresh u rows
    → IsDistinct (row_ids rows)
    → IsDistinct (row_ids (upsert n expr kind first u rows).1)
upsert-IsDistinct n expr kind first u rows f d = by_row (find_row n rows)
  where
    by_row : (o : Option JobRow) → IsDistinct (row_ids (upsert_found n expr kind first o u rows).1)
    by_row (some r) = rw (row_ids-reschedule n expr kind rows) d
    by_row none = (ids_apart u rows f, d)

-- By the answer: the job's row is ensured, or, on an error, it may be, and else nothing has changed.
abbrev pub Ensures :
    {F W : Type 0} → Job F W → Time → List JobRow → Result Text → List JobRow → Type 0
Ensures j first rows (ok i) rows' =
    IsEnsured j.name j.schedule.string j.schedule.kind first rows i rows'
Ensures j first rows (err e) rows' =
    (rows' ≡ rows)
    ⊎ ((i : Text) × IsEnsured j.name j.schedule.string j.schedule.kind first rows i rows')

module _ {F W : Type 0} (j : Job F W) (first : Time) where
  abbrev sent : Statement Text
  sent = upsert j.name j.schedule.string j.schedule.kind first

  Executes-Ensures :
      (rows rows' : List JobRow) (r : Result Text)
      → Executes sent rows r rows'
      → Ensures j first rows r rows'
  Executes-Ensures rows rows' (ok i) (u, f, e) =
      subst (λ o. Ensures j first rows (ok o.0) o.1) e
        (upsert-IsEnsured j.name j.schedule.string j.schedule.kind first u rows f)
  Executes-Ensures rows rows' (err x) (inl same) = inl same
  Executes-Ensures rows rows' (err x) (inr (u, f, e)) = inr (
    _,
    subst (IsEnsured j.name j.schedule.string j.schedule.kind first rows _) e
        (upsert-IsEnsured j.name j.schedule.string j.schedule.kind first u rows f),
  )

  Executes-IsDistinct :
      (rows rows' : List JobRow) (r : Result Text)
      → IsDistinct (row_ids rows)
      → Executes sent rows r rows'
      → IsDistinct (row_ids rows')
  Executes-IsDistinct rows rows' (ok i) d (u, f, e) =
      subst (λ o. IsDistinct (row_ids o.1)) e (upsert-IsDistinct _ _ _ first u rows f d)
  Executes-IsDistinct rows rows' (err x) d (inl same) =
      subst (λ o. IsDistinct (row_ids o)) (sym same) d
  Executes-IsDistinct rows rows' (err x) d (inr (u, f, e)) =
      subst (λ o. IsDistinct (row_ids o)) e (upsert-IsDistinct _ _ _ first u rows f d)

  module _ {Tx P : Type 0} (server : Server Tx P) (s : PostgresStorage)
      (laws : ServerLaws server (jobs_table server s)) where
    open laws use {jobs}

    -- On a lawful server whose rows have distinct ids: EnsureJob keeps the ids distinct, and afterwards
    -- the job's name has one row that a lookup finds, with the job's schedule and the returned id. The
    -- id and the fire time of a row that was there are kept; else the id is new and gets the first fire
    -- time; no other fire time changes. On an error that has happened, or nothing has.
    pub ensure_job_pg_lem :
        (p : P)
        → IsDistinct (row_ids (jobs p))
        → IsDistinct (row_ids (jobs (ensure_job_pg server s (some j) first p).1))
          × Ensures j first
              (jobs p)
              (ensure_job_pg server s (some j) first p).0
              (jobs (ensure_job_pg server s (some j) first p).1)
    unfolding ensure_job_pg
    ensure_job_pg_lem p d =
        by_answer (server.exec (jobs_table server s) sent p) (laws.exec-Executes sent p)
      where
        by_answer :
            (o : Result Text × P)
            → Executes sent (jobs p) o.0 (jobs o.1)
            → IsDistinct (row_ids (jobs (failing (text "ensure job") o).1))
              × Ensures j first
                  (jobs p)
                  (failing (text "ensure job") o).0
                  (jobs (failing (text "ensure job") o).1)
        by_answer (ok i, p') h = (
          Executes-IsDistinct (jobs p) (jobs p') (ok i) d h,
          Executes-Ensures (jobs p) (jobs p') (ok i) h,
        )
        by_answer (err x, p') h = (
          Executes-IsDistinct (jobs p) (jobs p') (err x) d h,
          Executes-Ensures (jobs p) (jobs p') (err x) h,
        )
