-- ===== src/Storage/Postgres/Sessions/Quit.antt =====
-- The deferred rollback of a claim (ClaimJob of PostgresStorage, storage.go), among other sessions.
use sundial.Base.{
  ◌≡◌, ◌≢◌, refl, ap, sym, subst, ◌∙◌, ◌⊎◌, inl, inr, Bool, true, false, none, some, Text,
}
use sundial.Errors.{Result, ok, err}
use sundial.Clock.{Time}
use sundial.Storage.Sql.{Server}
use sundial.Storage.Postgres.{PostgresStorage, jobs_table}
use sundial.Storage.Postgres.Sessions.{Phase, over}
use sundial.Storage.Postgres.Sessions.Frame.{
  ClaimLaws, Untouched, tx_of, Stands, Writers, Frame, Moves,
}

module _ {Tx P : Type 0} (server : Server Tx P) (s : PostgresStorage) (i : Text)
    (laws : ClaimLaws server (jobs_table server s) i) where
  open laws use {entry, owner, live, wrote}

  pub Untouched-Frame :
      (x : Tx) (p p' : P)
      → Untouched wrote live x p p'
      → ((y : Tx) → y ≢ x → owner p ≡ some y → owner p' ≡ some y)
      → Frame laws (some x) p p'
  Untouched-Frame x p p' f o y ne l =
      let other : y ≢ x = λ q. ne (ap (λ z. some z) (sym q)) in
      let (l', w') = f y other in (l' ∙ l, w', o y other)

  pub both-Frame :
      (x : Tx) (p q r : P)
      → Frame laws (some x) p q
      → Frame laws (some x) q r
      → Frame laws (some x) p r
  both-Frame x p q r f g y ne l =
      let (l', w', o') = f y ne l in let (l2, w2, o2) = g y ne l' in (l2, w2 ∙ w', λ h. o2 (o' h))

  -- When the others are untouched, only the transaction itself has to be looked at.
  pub Untouched-Writers :
      (x : Tx) (p p' : P)
      → Untouched wrote live x p p'
      → ((y : Tx) → y ≢ x → owner p ≡ some y → owner p' ≡ some y)
      → (wrote p' x ≡ none) ⊎ (owner p' ≡ some x)
      → Writers laws p
      → Writers laws p'
  Untouched-Writers x p p' f o own w y = by_tx (laws.same_tx y x) (w y)
    where
      by_tx :
          (y ≡ x) ⊎ (y ≢ x)
          → (wrote p y ≡ none) ⊎ (owner p ≡ some y)
          → (wrote p' y ≡ none) ⊎ (owner p' ≡ some y)
      by_tx (inl e) h = subst (λ z. (wrote p' z ≡ none) ⊎ (owner p' ≡ some z)) (sym e) own
      by_tx (inr ne) (inl h) = inl ((f y ne).1 ∙ h)
      by_tx (inr ne) (inr h) = inr (o y ne h)

  -- What a call has done so far.
  pub record Doing (x : Tx) (p p' : P) : Type 0 where
    pub frame : Frame laws (some x) p p'
    pub same : entry p' ≡ entry p
    pub writers : Writers laws p'

  lost-Stands : (t : Time) (p : P) (r : Result Bool) → r ≢ ok true → Stands laws p t (over r)
  lost-Stands t p (ok true) ne = absurd (ne refl)
  lost-Stands t p (ok false) ne = tt
  lost-Stands t p (err e) ne = tt

  -- A claim that gives up rolls back.
  pub quits :
      (t : Time) (ph : Phase Tx) (x : Tx) (p p' : P) (r : Result Bool)
      → tx_of ph ≡ some x
      → r ≢ ok true
      → Doing x p p'
      → Moves laws t ph p (over r) (server.rollback x p')
  quits t ph x p p' r e ne d =
      let p2 = server.rollback x p' in
      let others = laws.rollback-others x p' in
      let owners = λ (y : Tx) (h : y ≢ x). laws.rollback-owner x y p' h in
      record {
        stands = lost-Stands t p2 r ne;
        frame =
            subst (λ o. Frame laws o p p2) (sym e)
              (both-Frame x p p' p2 d.frame (Untouched-Frame x p' p2 others owners));
        onward = inl (laws.rollback-entry x p' ∙ d.same);
        writers =
            Untouched-Writers x p' p2 others owners (inl (laws.rollback-wrote x p')) d.writers;
        same_or_new = λ z h. absurd cc;
        wins_from = λ h. absurd (ne cc);
      }
