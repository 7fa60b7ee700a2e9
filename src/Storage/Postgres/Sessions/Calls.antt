-- ===== src/Storage/Postgres/Sessions/Calls.antt =====
-- The calls of a claim (ClaimJob of PostgresStorage, storage.go), one by one, among other sessions.
use sundial.Base.{
  ℕ, zero, suc, ◌≡◌, ◌≢◌, refl, subst, ◌∙◌, ◌⊎◌, inl, inr, Bool, true, false, none, some, Text,
  ◌<ℤ◌,
}
use sundial.Errors.{Result, ok, err}
use sundial.Clock.{Time}
use sundial.Storage.Sql.{Server}
use sundial.Storage.Postgres.{PostgresStorage, advisory_key, advance, jobs_table}
use sundial.Storage.Postgres.Sessions.{
  Phase, waiting, opened, holding, written, over, on_begin, on_lock, on_update, next_call,
}
use sundial.Storage.Postgres.Sessions.Quit.{Doing, Untouched-Frame, Untouched-Writers, quits}
use sundial.Storage.Postgres.Sessions.Commit.{commit-Moves}
use sundial.Storage.Postgres.Sessions.Frame.{ClaimLaws, Stands, Writers, Frame, Moves}

module _ {Tx P : Type 0} (server : Server Tx P) (s : PostgresStorage) (i : Text)
    (laws : ClaimLaws server (jobs_table server s) i) where
  open laws use {entry, owner, live, wrote}

  -- BEGIN. The transaction is new, and the others do not notice.
  begin-Moves :
      (t : Time) (p : P)
      → Writers laws p
      → Moves laws t waiting p
          (on_begin server s (server.begin p)).0
          (on_begin server s (server.begin p)).1
  begin-Moves t p w =
      by_begin (server.begin p) new_tx
        (λ y ne l. (laws.begin-live p y l, laws.begin-wrote p y, λ h. laws.begin-owner p ∙ h))
        (laws.begin-entry p) writers
    where
      new_tx :
          (x : Tx)
          → (server.begin p).0 ≡ ok x
          → (live p x ≡ false)
            × (live (server.begin p).1 x ≡ true)
            × (wrote (server.begin p).1 x ≡ none)
      new_tx x e =
          let (old, new, clean) = laws.begin-new p x e in (old, new, laws.begin-wrote p x ∙ clean)

      writers : Writers laws (server.begin p).1
      writers y = by_writer (w y)
        where
          by_writer :
              (wrote p y ≡ none) ⊎ (owner p ≡ some y)
              → (wrote (server.begin p).1 y ≡ none) ⊎ (owner (server.begin p).1 ≡ some y)
          by_writer (inl h) = inl (laws.begin-wrote p y ∙ h)
          by_writer (inr h) = inr (laws.begin-owner p ∙ h)

      by_begin :
          (r : Result Tx × P)
          → ((x : Tx)
              → r.0 ≡ ok x
              → (live p x ≡ false) × (live r.1 x ≡ true) × (wrote r.1 x ≡ none))
          → Frame laws none p r.1
          → entry r.1 ≡ entry p
          → Writers laws r.1
          → Moves laws t waiting p (on_begin server s r).0 (on_begin server s r).1
      by_begin (err e, q) n f h v = record {
        stands = tt;
        frame = f;
        onward = inl h;
        writers = v;
        same_or_new = λ z h. absurd cc;
        wins_from = λ h. absurd cc;
      }
      by_begin (ok x, q) n f h v =
          let (old, new, clean) = n x refl in
          record {
            stands = (new, clean);
            frame = f;
            onward = inl h;
            writers = v;
            same_or_new = λ z e. inr (subst (λ o. live p o ≡ false) (cc) old);
            wins_from = λ e. absurd cc;
          }

  -- The advisory lock.
  lock-Moves :
      (t : Time) (x : Tx) (p : P)
      → Writers laws p
      → Stands laws p t (opened x)
      → let r = server.try_xact_lock (advisory_key i) x p in
        Moves laws t (opened x) p (on_lock server s x r).0 (on_lock server s x r).1
  lock-Moves t x p w (l, c) =
      by_lock (server.try_xact_lock (advisory_key i) x p) doing (laws.lock-live x p x ∙ l)
        (laws.lock-wrote x p x ∙ c) (laws.lock-granted x p)
    where
      after : P
      after = (server.try_xact_lock (advisory_key i) x p).1

      writer :
          (y : Tx)
          → (wrote p y ≡ none) ⊎ (owner p ≡ some y)
          → (wrote after y ≡ none) ⊎ (owner after ≡ some y)
      writer y (inl h) = inl (laws.lock-wrote x p y ∙ h)
      writer y (inr h) = inr (laws.lock-owner x y p h)

      doing : Doing server s i laws x p after
      doing = record {
        frame = λ y ne h. (laws.lock-live x p y ∙ h, laws.lock-wrote x p y, laws.lock-owner x y p);
        same = laws.lock-entry x p;
        writers = λ y. writer y (w y);
      }

      by_lock :
          (r : Result Bool × P)
          → Doing server s i laws x p r.1
          → live r.1 x ≡ true
          → wrote r.1 x ≡ none
          → (r.0 ≡ ok true → owner r.1 ≡ some x)
          → Moves laws t (opened x) p (on_lock server s x r).0 (on_lock server s x r).1
      by_lock (err e, q) d l' c' o =
          quits server s i laws t (opened x) x p q _ refl (λ h. absurd cc) d
      by_lock (ok false, q) d l' c' o =
          quits server s i laws t (opened x) x p q _ refl (λ h. absurd cc) d
      by_lock (ok true, q) d l' c' o = record {
        stands = (l', c', o refl);
        frame = d.frame;
        onward = inl d.same;
        writers = d.writers;
        same_or_new = λ z h. inl h;
        wins_from = λ h. absurd cc;
      }

  -- The UPDATE, under the lock: nobody has written to the row.
  update-Moves :
      (t : Time) (x : Tx) (p : P)
      → Writers laws p
      → Stands laws p t (holding x)
      → let r = server.exec_in (jobs_table server s) (advance i t) x p in
        Moves laws t (holding x) p (on_update server s x r).0 (on_update server s x r).1
  update-Moves t x p w (l, c, o) =
      by_update (server.exec_in (jobs_table server s) (advance i t) x p) doing
        (laws.update-owner t x p ∙ o) (λ n e. laws.update-met t x p n e unwritten l)
    where
      after : P
      after = (server.exec_in (jobs_table server s) (advance i t) x p).1

      unwritten : (y : Tx) → wrote p y ≡ none
      unwritten y = by_writer (w y)
        where
          by_writer : (wrote p y ≡ none) ⊎ (owner p ≡ some y) → wrote p y ≡ none
          by_writer (inl h) = h
          by_writer (inr h) = subst (λ z. wrote p z ≡ none) (cc) c

      owners : (y : Tx) → y ≢ x → owner p ≡ some y → owner after ≡ some y
      owners y ne h = laws.update-owner t x p ∙ h

      doing : Doing server s i laws x p after
      doing = record {
        frame = Untouched-Frame server s i laws x p after (laws.update-others t x p) owners;
        same = laws.update-entry t x p;
        writers =
            Untouched-Writers server s i laws x p after (laws.update-others t x p) owners
              (inr (laws.update-owner t x p ∙ o)) w;
      }

      by_update :
          (r : Result ℕ × P)
          → Doing server s i laws x p r.1
          → owner r.1 ≡ some x
          → ((n : ℕ)
              → r.0 ≡ ok (suc n)
              → ((u : Time) × (entry p ≡ some u) × (u <ℤ t))
                × (live r.1 x ≡ true)
                × (wrote r.1 x ≡ some t))
          → Moves laws t (holding x) p (on_update server s x r).0 (on_update server s x r).1
      by_update (err e, q) d o' m =
          quits server s i laws t (holding x) x p q _ refl (λ h. absurd cc) d
      by_update (ok zero, q) d o' m =
          quits server s i laws t (holding x) x p q _ refl (λ h. absurd cc) d
      by_update (ok (suc n), q) d o' m =
          let ((u, e, lt), l', w') = m n refl in
          record {
            stands = (l', w', o', (u, d.same ∙ e, lt));
            frame = d.frame;
            onward = inl d.same;
            writers = d.writers;
            same_or_new = λ z h. inl h;
            wins_from = λ h. absurd cc;
          }

  -- Every call of a claim, by where it stands.
  pub call-Moves :
      (t : Time) (ph : Phase Tx) (p : P)
      → Writers laws p
      → Stands laws p t ph
      → Moves laws t ph p (next_call server s i t ph p).0 (next_call server s i t ph p).1
  unfolding next_call
  call-Moves t waiting p w h = begin-Moves t p w
  call-Moves t (opened x) p w h = lock-Moves t x p w h
  call-Moves t (holding x) p w h = update-Moves t x p w h
  call-Moves t (written x) p w h = commit-Moves server s i laws t x p w h
  call-Moves t (over r) p w h = record {
    stands = h;
    frame = λ y ne l. (l, refl, λ e. e);
    onward = inl refl;
    writers = w;
    same_or_new = λ z e. inl e;
    wins_from = λ e. inl e;
  }
