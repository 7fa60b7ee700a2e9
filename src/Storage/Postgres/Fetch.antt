-- ===== src/Storage/Postgres/Fetch.antt =====
-- FetchDue of PostgresStorage (storage.go): the loop over the rows of its SELECT.
use mathlib.Core.List.{Memᴰ}
use sundial.Base.{
  ◌≡◌, ◌≢◌, refl, ap, sym, subst, ◌∙◌, ℤ, true, List, [], ◌∷◌, Option, none, some, Text,
  text_eq_refl, text_eq_iff, if◌then◌else◌, arith, All,
}
use sundial.Errors.{Error, Result, ok, err, ◌>>=◌}
use sundial.Clock.{Time}
use sundial.Storage.Types.{DueJob}
use sundial.Storage.Laws.{IsDue, Fetches}
use sundial.Storage.Memory.Rows.{IsDistinct}
use sundial.Storage.Sql.{JobRow, Rows, Server}
use sundial.Storage.ServerLaws.{ServerLaws}
use sundial.Storage.ServerLaws.{Scans, Selects}
use sundial.Storage.Postgres.{PostgresStorage, select_due, due_of, scan_due, fetched}
use sundial.Storage.Postgres.Update.{row_ids, view_rows}

-- An id that is distinct from all the rows' is distinct from each.
absent :
    {x : Text} {r : JobRow} {rs : List JobRow}
    → All (λ k. x ≢ k) (row_ids rs)
    → Memᴰ r rs
    → x ≢ r.id
absent d (Memᴰ.head e) = λ q. d.0 (q ∙ ap (λ o. o.id) e)
absent d (Memᴰ.tail m) = absent d.1 m

-- On rows with distinct ids, a row is the entry of its id.
view_own :
    {r : JobRow} {rs : List JobRow}
    → IsDistinct (row_ids rs)
    → Memᴰ r rs
    → view_rows rs r.id ≡ some r.next_fire_time
unfolding view_rows
view_own {r} d (Memᴰ.head {x = x} {xs = xs} e) =
    subst (λ o. view_rows (x ∷ xs) o.id ≡ some o.next_fire_time) (sym e)
      (rw (text_eq_refl x.id, if◌then◌else◌) refl)
view_own {r} d (Memᴰ.tail {x = x} m) =
    ground (arith, view_own d.1 m, absent d.0 m, text_eq_iff x.id r.id)

-- The rows of the SELECT are due.
row-IsDue :
    (now : Time) (limit : ℤ) (rows : List JobRow) (r : JobRow)
    → IsDistinct (row_ids rows)
    → ((select_due now limit).where_test r ≡ true) × Memᴰ r rows
    → IsDue now (view_rows rows) (due_of r)
row-IsDue now limit rows r d (t, m) = (view_own d m, ground (arith, t))

-- Whatever breaks the loop, the rows that it collects are those of the SELECT.
scan-Fetches :
    (now : Time) (limit : ℤ) (rows found : List JobRow) (xs : List (Result JobRow))
    (broken : Option Error)
    → IsDistinct (row_ids rows)
    → All (λ r. ((select_due now limit).where_test r ≡ true) × Memᴰ r rows) found
    → Scans found xs broken
    → Fetches now (view_rows rows) (scan_due xs broken)
unfolding scan_due
scan-Fetches now limit rows found [] none d c s = tt
scan-Fetches now limit rows found [] (some e) d c s = tt
scan-Fetches now limit rows [] (x ∷ xs) broken d c s = absurd s
scan-Fetches now limit rows (r ∷ rs) (err e ∷ xs) broken d c s = tt
scan-Fetches now limit rows (r ∷ rs) (ok q ∷ xs) broken d c s =
    by_rest (scan_due xs broken) (scan-Fetches now limit rows rs xs broken d c.1 s.1)
  where
    by_rest :
        (rest : Result (List DueJob))
        → Fetches now (view_rows rows) rest
        → Fetches now (view_rows rows) (rest >>= λ ds. ok (due_of q ∷ ds))
    by_rest (err e) h = tt
    by_rest (ok ds) h = (
      subst (λ o. IsDue now (view_rows rows) (due_of o)) (sym s.0)
          (row-IsDue now limit rows r d c.0),
      h,
    )

module _ {Tx P : Type 0} (server : Server Tx P) (s : PostgresStorage) where
  pub fetched-Fetches :
      (now : Time) (limit : ℤ) (rows : List JobRow) (o : Result Rows × P)
      → IsDistinct (row_ids rows)
      → Selects (select_due now limit) rows o.0
      → Fetches now (view_rows rows) (fetched server s o).0
  fetched-Fetches now limit rows (err e, p) d h = tt
  fetched-Fetches now limit rows (ok out, p) d (found, sel, sc) =
      scan-Fetches now limit rows found out.scanned out.broken d sel.chosen sc
