-- ===== src/Examples/Overlaps.antt =====
-- A server in memory whose transactions overlap, over the row of one job, and a test of two sessions
-- that claim it.
use sundial.Base.{
  ℕ, suc, ◌==◌, ◌≡◌, ◌≢◌, refl, ap, inl, inr, ltb, Bool, true, false, not, ◌&&◌, List, [], ◌∷◌,
  Option, none, some, Text, text, text_eq, if◌then◌else◌, ◌<ℤ◌, pos, arith, Bool-cases,
}
use sundial.Errors.{ok, err, nil_job}
use sundial.Clock.{Time, before}
use sundial.Storage.Sql.{JobRow, Server, update_where}
use sundial.Storage.Postgres.{jobs_table, advance}
use sundial.Storage.Postgres.Sessions.{over, next_call, session_step, session_steps, fresh_sessions}
use sundial.Storage.Postgres.Sessions.Frame.{ClaimLaws}
use sundial.Storage.Postgres.Sessions.Exclusive.{one_winner}
use sundial.Storage.Postgres.Update.{view_rows}
use sundial.Examples.Sent.{storage}
use sundial.Examples.Server.{value_or}

-- Transactions are numbered as they begin.
record Shared : Type 0 where
  entry : Option Time
  owner : Option ℕ
  next : ℕ
  finished : ℕ → Bool
  drafts : ℕ → Option Time

abbrev set : {A : Type 0} → ℕ → A → (ℕ → A) → ℕ → A
set k a f j = if k == j then a else f j

abbrev id1 : Text
id1 = text "id1"

abbrev rows_of : Option Time → List JobRow
rows_of none = []
rows_of (some t) =
    record { id = id1; name = text "a"; schedule = []; schedule_kind = []; next_fire_time = t } ∷ []

abbrev without : ℕ → Option ℕ → Option ℕ
without x none = none
without x (some y) = if y == x then none else some y

abbrev granted : ℕ → Option ℕ → Bool
granted x none = true
granted x (some y) = y == x

abbrev entry_after : Option Time → Option Time → Option Time
entry_after none e = e
entry_after (some t) e = some t

abbrev draft : Shared → ℕ → Option Time
draft p x = if ltb x p.next then p.drafts x else none

abbrev is_live : Shared → ℕ → Bool
is_live p x = ltb x p.next && not (p.finished x)

abbrev leave : ℕ → Shared → Shared
leave x p = record p {
  owner = without x p.owner;
  finished = set x true p.finished;
  drafts = set x none p.drafts;
}

abbrev shared_server : Server ℕ Shared
shared_server = record {
  exec = λ table f p. (err nil_job, p);
  query = λ table q p. (err nil_job, p);
  insert_run = λ table r p. (err nil_job, p);
  begin = λ p. (
    ok p.next,
    record p {
      next = suc p.next;
      finished = set p.next false p.finished;
      drafts = set p.next none p.drafts;
    },
  );
  try_xact_lock = λ key x p.
      (ok (granted x p.owner), record p { owner = if granted x p.owner then some x else p.owner });
  exec_in = λ table f x p.
      let out = f [] (rows_of p.entry) in
      (ok out.0, record p { drafts = set x (view_rows out.1 id1) p.drafts });
  commit = λ x p. (ok tt, leave x (record p { entry = entry_after (draft p x) p.entry }));
  rollback = λ x p. leave x p;
}

owner_kept : (x y : ℕ) (o : Option ℕ) → y ≢ x → o ≡ some y → without x o ≡ some y
owner_kept x y none ne e = absurd cc
owner_kept x y (some z) ne e = ground (arith, e)

-- The UPDATE on the one row.
row_met :
    (t : Time) (n : ℕ) (e : Option Time)
    → (advance id1 t [] (rows_of e)).0 ≡ suc n
    → ((u : Time) × (e ≡ some u) × (u <ℤ t))
      × (view_rows (advance id1 t [] (rows_of e)).1 id1 ≡ some t)
unfolding advance update_where view_rows text_eq
row_met t n none h = absurd (omega (arith, h))
row_met t n (some u) h = elim (Bool-cases (before u t)) [
  | inl b ↦ ((u, refl, ground arith), rw (b, if◌then◌else◌) refl)
  | inr b ↦ absurd (ground (arith, b))
]

shared_laws : ClaimLaws shared_server (jobs_table shared_server storage) id1
shared_laws = record {
  entry = λ p. p.entry;
  owner = λ p. p.owner;
  live = is_live;
  wrote = draft;
  same_tx = λ x y. ground arith;
  begin-entry = λ p. refl;
  begin-owner = λ p. refl;
  begin-live = λ p y h. ground arith;
  begin-wrote = λ p y. ground arith;
  begin-new = λ p x h. ground arith;
  lock-entry = λ x p. refl;
  lock-live = λ x p y. refl;
  lock-wrote = λ x p y. refl;
  lock-granted = λ x p h. ground arith;
  lock-owner = λ x y p h. ground arith;
  update-entry = λ t x p. refl;
  update-owner = λ t x p. refl;
  update-others = λ t x p y ne. (refl, ground arith);
  update-met = λ t x p n h w l.
      let (found, seen) = row_met t n p.entry (ap (λ r. value_or 0 r) h) in
      (found, l, ground (arith, seen, l));
  commit-others = λ x p y ne. (ground arith, ground arith);
  commit-owner = λ x y p ne h. owner_kept x y p.owner ne h;
  commit-wrote = λ x p. ground arith;
  commit-ok = λ x p t h w. ground arith;
  commit-err = λ e x p t h w. absurd cc;
  rollback-entry = λ x p. refl;
  rollback-others = λ x p y ne. (ground arith, ground arith);
  rollback-owner = λ x y p ne h. owner_kept x y p.owner ne h;
  rollback-wrote = λ x p. ground arith;
}

-- The row's fire time is 1000; session 0 and the others ask for 2000.
abbrev quiet : Shared
quiet = record {
  entry = some (pos 1000);
  owner = none;
  next = 0;
  finished = λ x. false;
  drafts = λ x. none;
}

abbrev asked : ℕ → Time
asked k = pos 2000

-- Both begin, the first gets the lock, the second is refused, and the first wins.
abbrev order : List ℕ
order = 0 ∷ 1 ∷ 0 ∷ 1 ∷ 0 ∷ 1 ∷ 0 ∷ []

first_wins :
    (session_steps shared_server storage id1
        (fresh_sessions shared_server storage id1 asked quiet)
        order).phases
      0
    ≡ over (ok true)
unfolding session_steps session_step next_call advance update_where text_eq
first_wins = refl

one_winner_example :
    (session_steps shared_server storage id1
        (fresh_sessions shared_server storage id1 asked quiet)
        order).phases
      1
    ≢ over (ok true)
unfolding shared_laws
one_winner_example =
    one_winner shared_server storage id1 shared_laws asked quiet order 0 1 (λ x. ground arith)
      (λ e. omega (arith, e)) refl first_wins
