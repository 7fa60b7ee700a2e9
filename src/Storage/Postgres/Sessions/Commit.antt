-- ===== src/Storage/Postgres/Sessions/Commit.antt =====
-- The COMMIT of a claim (ClaimJob of PostgresStorage, storage.go), among other sessions.
use sundial.Base.{◌≡◌, ◌≢◌, refl, sym, subst, ◌∙◌, ◌⊎◌, inl, inr, Bool, true, some, Text, arith}
use sundial.Errors.{Error, Result, ok, err}
use sundial.Clock.{Time}
use sundial.Storage.Sql.{Server}
use sundial.Storage.Postgres.{PostgresStorage, jobs_table, committed}
use sundial.Storage.Postgres.Sessions.{written, over}
use sundial.Storage.Postgres.Sessions.Quit.{Untouched-Frame, both-Frame, Untouched-Writers}
use sundial.Storage.Postgres.Sessions.Frame.{
  ClaimLaws, HasPassed, Stands, Writers, Frame, Onward, Moves,
}

module _ {Tx P : Type 0} (server : Server Tx P) (s : PostgresStorage) (i : Text)
    (laws : ClaimLaws server (jobs_table server s) i) where
  open laws use {entry, owner, live, wrote}

  -- COMMIT, and the deferred rollback.
  pub commit-Moves :
      (t : Time) (x : Tx) (p : P)
      → Writers laws p
      → Stands laws p t (written x)
      → let r = committed server s x (server.commit x p) in
        Moves laws t (written x) p (over r.0) r.1
  commit-Moves t x p w (l, c, o, (u, e, lt)) =
      by_commit (server.commit x p) frame writers (λ h. laws.commit-ok x p t h c)
        (λ q h. laws.commit-err q x p t h c)
    where
      after : P
      after = (server.commit x p).1

      frame : Frame laws (some x) p after
      frame =
          Untouched-Frame server s i laws x p after (laws.commit-others x p)
            (λ y ne. laws.commit-owner x y p ne)

      writers : Writers laws after
      writers =
          Untouched-Writers server s i laws x p after (laws.commit-others x p)
            (λ y ne. laws.commit-owner x y p ne) (inl (laws.commit-wrote x p)) w

      -- What the rollback leaves, by the entry after the commit.
      ends :
          (q : P) (r : Result Bool)
          → Frame laws (some x) p q
          → Writers laws q
          → Stands laws (server.rollback x q) t (over r)
          → Onward laws (some x) p (server.rollback x q)
          → Moves laws t (written x) p (over r) (server.rollback x q)
      ends q r f v st on =
          let q2 = server.rollback x q in
          let others = laws.rollback-others x q in
          let owners = λ (y : Tx) (h : y ≢ x). laws.rollback-owner x y q h in
          record {
            stands = st;
            frame =
                both-Frame server s i laws x p q q2 f
                  (Untouched-Frame server s i laws x q q2 others owners);
            onward = on;
            writers =
                Untouched-Writers server s i laws x q q2 others owners
                  (inl (laws.rollback-wrote x q)) v;
            same_or_new = λ z h. absurd cc;
            wins_from = λ h. inr (u, e, lt);
          }

      forward : (q : P) → entry q ≡ some t → Onward laws (some x) p (server.rollback x q)
      forward q h = inr (x, u, t, refl, o, e, lt, laws.rollback-entry x q ∙ h)

      by_commit :
          (r : Result (Unit {0}) × P)
          → Frame laws (some x) p r.1
          → Writers laws r.1
          → (r.0 ≡ ok tt → entry r.1 ≡ some t)
          → ((q : Error) → r.0 ≡ err q → (entry r.1 ≡ entry p) ⊎ (entry r.1 ≡ some t))
          → Moves laws t (written x) p (over (committed server s x r).0) (committed server s x r).1
      by_commit (ok tt, q) f v h k =
          ends q (ok true) f v
            (subst (HasPassed t) (sym (laws.rollback-entry x q ∙ h refl)) (omega arith))
            (forward q (h refl))
      by_commit (err y, q) f v h k = by_entry (k y refl)
        where
          by_entry :
              (entry q ≡ entry p) ⊎ (entry q ≡ some t)
              → Moves laws t
                  (written x)
                  p
                  (over (committed server s x (err y, q)).0)
                  (committed server s x (err y, q)).1
          by_entry (inl g) = ends q _ f v tt (inl (laws.rollback-entry x q ∙ g))
          by_entry (inr g) = ends q _ f v tt (forward q g)
