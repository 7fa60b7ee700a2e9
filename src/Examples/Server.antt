-- ===== src/Examples/Server.antt =====
-- A Postgres server in memory that keeps the laws of Storage/ServerLaws, and tests of PostgresStorage
-- on it. It fails a query whose rows would have to be sorted or cut.
use mathlib.Core.List.{Memᴰ}
use sundial.Base.{
  ℕ, ◌≤◌, ◌<◌, ◌≡◌, refl, ap, subst, inl, inr, pos_part, leb, Bool, true, false, not, ◌&&◌, List,
  [], ◌∷◌, ◌++◌, map, none, Text, if◌then◌else◌, All, length, length-append, arith, Bool-cases,
}
use sundial.Base.Sort.{IsSorted}
use sundial.Errors.{Result, ok, err, nil_job}
use sundial.Clock.{Time, after}
use sundial.Storage.Sql.{JobRow, RunRow, Select, Rows, Server}
use sundial.Storage.ServerLaws.{IsFresh, Scans, Selects, ServerLaws}

pub record Pool : Type 0 where
  pub kept : List JobRow
  pub draft : List JobRow
  pub runs : List RunRow

-- A text longer than every id.
abbrev new_uuid : List JobRow → Text
new_uuid [] = 48 ∷ []
new_uuid (r ∷ rs) = r.id ++ new_uuid rs

new_uuid-ne-nil : (rs : List JobRow) → 0 < length (new_uuid rs)
new_uuid-ne-nil [] = omega arith
new_uuid-ne-nil (r ∷ rs) = omega (arith, length-append r.id (new_uuid rs), new_uuid-ne-nil rs)

shorter :
    (m n : ℕ) (rs : List JobRow)
    → m ≤ n
    → All (λ r. length r.id < m) rs
    → All (λ r. length r.id < n) rs
shorter m n [] le h = tt
shorter m n (r ∷ rs) le h = (omega (arith, h.0), shorter m n rs le h.1)

pub ids_shorter : (rs : List JobRow) → All (λ r. length r.id < length (new_uuid rs)) rs
ids_shorter [] = tt
ids_shorter (r ∷ rs) =
    let both = length-append r.id (new_uuid rs) in
    (
      omega (arith, both, new_uuid-ne-nil rs),
      shorter (length (new_uuid rs)) _ rs (omega (arith, both)) (ids_shorter rs),
    )

pub longer_apart :
    (u : Text) (rs : List JobRow) → All (λ r. length r.id < length u) rs → IsFresh u rs
longer_apart u [] h = tt
longer_apart u (r ∷ rs) h = ((λ e. omega (arith, ap length e, h.0)), longer_apart u rs h.1)

abbrev pick_rows : (JobRow → Bool) → List JobRow → List JobRow
pick_rows p [] = []
pick_rows p (r ∷ rs) = if p r then r ∷ pick_rows p rs else pick_rows p rs

pick_rows-Memᴰ :
    (p : JobRow → Bool) {r : JobRow} {rs : List JobRow}
    → Memᴰ r rs
    → p r ≡ true
    → Memᴰ r (pick_rows p rs)
pick_rows-Memᴰ p {r} (Memᴰ.head {x = x} e) h =
    rw (subst (λ o. p o ≡ true) e h, if◌then◌else◌) (Memᴰ.head e)
pick_rows-Memᴰ p {r} (Memᴰ.tail {x = x} m) h = elim (Bool-cases (p x)) [
  | inl e ↦ rw (e, if◌then◌else◌) (Memᴰ.tail (pick_rows-Memᴰ p m h))
  | inr e ↦ rw (e, if◌then◌else◌) (pick_rows-Memᴰ p m h)
]

picked_later :
    (p : JobRow → Bool) (r : JobRow) (rs found : List JobRow)
    → All (λ o. (p o ≡ true) × Memᴰ o rs) found
    → All (λ o. (p o ≡ true) × Memᴰ o (r ∷ rs)) found
picked_later p r rs [] h = tt
picked_later p r rs (o ∷ os) h = ((h.0.0, Memᴰ.tail h.0.1), picked_later p r rs os h.1)

pick_rows-chosen :
    (p : JobRow → Bool) (rs : List JobRow) → All (λ o. (p o ≡ true) × Memᴰ o rs) (pick_rows p rs)
pick_rows-chosen p [] = tt
pick_rows-chosen p (r ∷ rs) =
    let later = picked_later p r rs (pick_rows p rs) (pick_rows-chosen p rs) in
    elim (Bool-cases (p r)) [
      | inl e ↦ rw (e, if◌then◌else◌) ((e, Memᴰ.head refl), later)
      | inr e ↦ rw (e, if◌then◌else◌) later
    ]

abbrev none_before : (JobRow → Time) → JobRow → List JobRow → Bool
none_before by r [] = true
none_before by r (o ∷ os) = not (after (by r) (by o)) && none_before by r os

abbrev in_order : (JobRow → Time) → List JobRow → Bool
in_order by [] = true
in_order by (r ∷ rs) = none_before by r rs && in_order by rs

none_before_sound :
    (by : JobRow → Time) (r : JobRow) (rs : List JobRow)
    → none_before by r rs ≡ true
    → All (λ o. after (by r) (by o) ≡ false) rs
none_before_sound by r [] h = tt
none_before_sound by r (o ∷ os) h = (ground arith, none_before_sound by r os (ground arith))

in_order_sound :
    (by : JobRow → Time) (rs : List JobRow)
    → in_order by rs ≡ true
    → IsSorted (λ a b. after (by a) (by b)) rs
in_order_sound by [] h = tt
in_order_sound by (r ∷ rs) h =
    (none_before_sound by r rs (ground arith), in_order_sound by rs (ground arith))

abbrev fits : Select → List JobRow → Bool
fits q found = leb (length found) (pos_part q.limit) && in_order q.order_by found

abbrev answer : Select → List JobRow → Result Rows
answer q found =
    if fits q found
    then ok (record { scanned = map (λ r. ok r) found; broken = none })
    else err nil_job

all_scanned : (found : List JobRow) → Scans found (map (λ r. ok r) found) none
all_scanned [] = refl
all_scanned (r ∷ rs) = (refl, all_scanned rs)

pub answer-Selects :
    (q : Select) (rs : List JobRow) → Selects q rs (answer q (pick_rows q.where_test rs))
answer-Selects q rs =
    let found = pick_rows q.where_test rs in
    elim (Bool-cases (fits q found)) [
      | inl e ↦
          rw (e, if◌then◌else◌)
            (
              found,
              record {
                chosen = pick_rows-chosen q.where_test rs;
                ordered = in_order_sound q.order_by found (ground arith);
                within = ground arith;
                complete = λ few r m h. pick_rows-Memᴰ q.where_test m h;
              },
              all_scanned found,
            )
      | inr e ↦ rw (e, if◌then◌else◌) tt
    ]

abbrev pub value_or : {A : Type 0} → A → Result A → A
value_or a (ok x) = x
value_or a (err e) = a

abbrev pub server : Server (Unit {0}) Pool
server = record {
  exec = λ table f p. let out = f (new_uuid p.kept) p.kept in (ok out.0, record p { kept = out.1 });
  query = λ table q p. (answer q (pick_rows q.where_test p.kept), p);
  insert_run = λ table r p. (ok tt, record p { runs = r ∷ p.runs });
  begin = λ p. (ok tt, record p { draft = p.kept });
  try_xact_lock = λ key tx p. (ok true, p);
  exec_in = λ table f tx p.
      let out = f (new_uuid p.draft) p.draft in (ok out.0, record p { draft = out.1 });
  commit = λ tx p. (ok tt, record p { kept = p.draft });
  rollback = λ tx p. record p { draft = p.kept };
}

unfoldable pub server_laws : (table : Text) → ServerLaws server table
server_laws table = record {
  jobs = λ p. p.kept;
  pending = λ tx p. p.draft;
  exec-Executes = λ f p. (new_uuid p.kept, longer_apart _ p.kept (ids_shorter p.kept), refl);
  query-Selects = λ q p. answer-Selects q p.kept;
  query-jobs = λ q p. refl;
  insert_run-jobs = λ runs r p. refl;
  begin-pending = λ tx p e. refl;
  begin-jobs = λ p. refl;
  lock-pending = λ key tx p. refl;
  lock-jobs = λ key tx p. refl;
  exec_in-pending =
      λ f tx p a e. let u = new_uuid p.draft in (u, ap (λ r. (value_or a r, (f u p.draft).1)) e);
  exec_in-jobs = λ f tx p. refl;
  commit-ok = λ tx p e. refl;
  commit-err = λ e tx p h. absurd cc;
  rollback-jobs = λ tx p. refl;
}
