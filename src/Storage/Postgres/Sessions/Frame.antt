-- ===== src/Storage/Postgres/Sessions/Frame.antt =====
-- What is documented of Postgres's transactions that overlap, as far as the claims of one job rely on
-- it, and what a call of one session leaves to the others. An UPDATE that waits for the row is the
-- moment at which it gets it; the row is the only one that the transactions write.
use sundial.Base.{
  ◌≤ℤ◌, ℕ, ◌≡◌, ◌≢◌, refl, sym, subst, ◌∙◌, ◌⊎◌, inl, inr, Bool, true, false, Option, none, some,
  Text, ◌<ℤ◌, suc, arith,
}
use sundial.Errors.{Error, ok, err}
use sundial.Clock.{Time}
use sundial.Storage.Sql.{Server}
use sundial.Storage.Postgres.{advisory_key, advance}
use sundial.Storage.Postgres.Sessions.{Phase, waiting, opened, holding, written, over}

-- `y` is another transaction than `x`, as it was.
abbrev pub Untouched :
    {A Tx : Type 0} → (A → Tx → Option Time) → (A → Tx → Bool) → Tx → A → A → Type 0
Untouched {Tx = Tx} wrote live x p p' =
    (y : Tx) → y ≢ x → (live p' y ≡ live p y) × (wrote p' y ≡ wrote p y)

pub record ClaimLaws {Tx P : Type 0} (server : Server Tx P) (table : Text) (i : Text) : Type 1 where
  -- The fire time of the job's row that is committed; who has the advisory lock of the job; the
  -- transactions that have begun and not ended, and the fire time that one has written to the row.
  pub entry : P → Option Time
  pub owner : P → Option Tx
  pub live : P → Tx → Bool
  pub wrote : P → Tx → Option Time
  pub same_tx : (x y : Tx) → (x ≡ y) ⊎ (x ≢ y)
  pub begin-entry : (p : P) → entry (server.begin p).1 ≡ entry p
  pub begin-owner : (p : P) → owner (server.begin p).1 ≡ owner p
  pub begin-live : (p : P) (y : Tx) → live p y ≡ true → live (server.begin p).1 y ≡ true
  pub begin-wrote : (p : P) (y : Tx) → wrote (server.begin p).1 y ≡ wrote p y
  pub begin-new :
      (p : P) (x : Tx)
      → (server.begin p).0 ≡ ok x
      → (live p x ≡ false) × (live (server.begin p).1 x ≡ true) × (wrote p x ≡ none)
  pub lock-entry : (x : Tx) (p : P) → entry (server.try_xact_lock (advisory_key i) x p).1 ≡ entry p
  pub lock-live :
      (x : Tx) (p : P) (y : Tx) → live (server.try_xact_lock (advisory_key i) x p).1 y ≡ live p y
  pub lock-wrote :
      (x : Tx) (p : P) (y : Tx) → wrote (server.try_xact_lock (advisory_key i) x p).1 y ≡ wrote p y
  -- A lock that another transaction has is not granted, nor taken away by the attempt.
  pub lock-granted :
      (x : Tx) (p : P)
      → (server.try_xact_lock (advisory_key i) x p).0 ≡ ok true
      → owner (server.try_xact_lock (advisory_key i) x p).1 ≡ some x
  pub lock-owner :
      (x y : Tx) (p : P)
      → owner p ≡ some y
      → owner (server.try_xact_lock (advisory_key i) x p).1 ≡ some y
  pub update-entry :
      (t : Time) (x : Tx) (p : P) → entry (server.exec_in table (advance i t) x p).1 ≡ entry p
  pub update-owner :
      (t : Time) (x : Tx) (p : P) → owner (server.exec_in table (advance i t) x p).1 ≡ owner p
  pub update-others :
      (t : Time) (x : Tx) (p : P)
      → Untouched wrote live x p (server.exec_in table (advance i t) x p).1
  -- The UPDATE meets the row as it is committed, if no transaction has written to it.
  pub update-met :
      (t : Time) (x : Tx) (p : P) (n : ℕ)
      → (server.exec_in table (advance i t) x p).0 ≡ ok (suc n)
      → ((y : Tx) → wrote p y ≡ none)
      → live p x ≡ true
      → ((u : Time) × (entry p ≡ some u) × (u <ℤ t))
        × (live (server.exec_in table (advance i t) x p).1 x ≡ true)
        × (wrote (server.exec_in table (advance i t) x p).1 x ≡ some t)
  pub commit-others : (x : Tx) (p : P) → Untouched wrote live x p (server.commit x p).1
  pub commit-owner :
      (x y : Tx) (p : P) → y ≢ x → owner p ≡ some y → owner (server.commit x p).1 ≡ some y
  pub commit-wrote : (x : Tx) (p : P) → wrote (server.commit x p).1 x ≡ none
  pub commit-ok :
      (x : Tx) (p : P) (t : Time)
      → (server.commit x p).0 ≡ ok tt
      → wrote p x ≡ some t
      → entry (server.commit x p).1 ≡ some t
  pub commit-err :
      (e : Error) (x : Tx) (p : P) (t : Time)
      → (server.commit x p).0 ≡ err e
      → wrote p x ≡ some t
      → (entry (server.commit x p).1 ≡ entry p) ⊎ (entry (server.commit x p).1 ≡ some t)
  pub rollback-entry : (x : Tx) (p : P) → entry (server.rollback x p) ≡ entry p
  pub rollback-others : (x : Tx) (p : P) → Untouched wrote live x p (server.rollback x p)
  pub rollback-owner :
      (x y : Tx) (p : P) → y ≢ x → owner p ≡ some y → owner (server.rollback x p) ≡ some y
  pub rollback-wrote : (x : Tx) (p : P) → wrote (server.rollback x p) x ≡ none

-- The transaction of a claim that is under way.
abbrev pub tx_of : {Tx : Type 0} → Phase Tx → Option Tx
tx_of waiting = none
tx_of (opened x) = some x
tx_of (holding x) = some x
tx_of (written x) = some x
tx_of (over r) = none

-- The entry is at `t` or later.
abbrev pub HasPassed : Time → Option Time → Type 0
HasPassed t none = ⊥
HasPassed t (some u) = t ≤ℤ u

module _ {Tx P : Type 0} {server : Server Tx P} {table i : Text}
    (laws : ClaimLaws server table i) where
  open laws use {entry, owner, live, wrote}

  -- What holds of a claim, by where it stands.
  abbrev pub Stands : P → Time → Phase Tx → Type 0
  Stands p t waiting = Unit
  Stands p t (opened x) = (live p x ≡ true) × (wrote p x ≡ none)
  Stands p t (holding x) = (live p x ≡ true) × (wrote p x ≡ none) × (owner p ≡ some x)
  Stands p t (written x) =
      (live p x ≡ true)
      × (wrote p x ≡ some t)
      × (owner p ≡ some x)
      × ((u : Time) × (entry p ≡ some u) × (u <ℤ t))
  Stands p t (over (ok true)) = HasPassed t (entry p)
  Stands p t (over (ok false)) = Unit
  Stands p t (over (err e)) = Unit

  -- A transaction writes only under the lock.
  abbrev pub Writers : P → Type 0
  Writers p = (y : Tx) → (wrote p y ≡ none) ⊎ (owner p ≡ some y)

  -- What a call leaves of the transactions of other sessions.
  abbrev pub Frame : Option Tx → P → P → Type 0
  Frame x p p' =
      (y : Tx)
      → x ≢ some y
      → live p y ≡ true
      → (live p' y ≡ true) × (wrote p' y ≡ wrote p y) × (owner p ≡ some y → owner p' ≡ some y)

  -- The entry is as it was, or a writer under the lock has moved it forward.
  abbrev pub Onward : Option Tx → P → P → Type 0
  Onward x p p' =
      (entry p' ≡ entry p)
      ⊎ ((y : Tx) × (u : Time) × (t : Time) × (x ≡ some y)
          × (owner p ≡ some y)
          × (entry p ≡ some u)
          × (u <ℤ t)
          × (entry p' ≡ some t))

  HasPassed-Onward :
      (x : Option Tx) (t : Time) (p p' : P)
      → Onward x p p'
      → HasPassed t (entry p)
      → HasPassed t (entry p')
  HasPassed-Onward x t p p' (inl same) h = subst (HasPassed t) (sym same) h
  HasPassed-Onward x t p p' (inr (y, u, v, e, o, a, lt, b)) h =
      let h' : t ≤ℤ u = subst (HasPassed t) a h in
      subst (HasPassed t) (sym b) (omega (arith, h', lt))

  -- The entry that a writer has found stays until it commits: nobody else has the lock.
  found-Onward :
      (x : Option Tx) (z : Tx) (w : Time) (p p' : P)
      → Onward x p p'
      → owner p ≡ some z
      → x ≢ some z
      → entry p ≡ some w
      → entry p' ≡ some w
  found-Onward x z w p p' (inl same) o ne e = same ∙ e
  found-Onward x z w p p' (inr (y, u, v, q, o', a, lt, b)) o ne e = absurd (ne (q ∙ sym o' ∙ o))

  -- A call leaves the claims of the other sessions as they stand.
  pub Frame-Stands :
      (x : Option Tx) (t : Time) (p p' : P) (ph : Phase Tx)
      → Frame x p p'
      → Onward x p p'
      → ((z : Tx) → tx_of ph ≡ some z → x ≢ some z)
      → Stands p t ph
      → Stands p' t ph
  Frame-Stands x t p p' waiting f o ne h = tt
  Frame-Stands x t p p' (opened z) f o ne (l, w) =
      let (l', w', k) = f z (ne z refl) l in (l', w' ∙ w)
  Frame-Stands x t p p' (holding z) f o ne (l, w, h) =
      let (l', w', k) = f z (ne z refl) l in (l', w' ∙ w, k h)
  Frame-Stands x t p p' (written z) f o ne (l, w, h, (u, e, lt)) =
      let (l', w', k) = f z (ne z refl) l in
      (l', w' ∙ w, k h, (u, found-Onward x z u p p' o h (ne z refl) e, lt))
  Frame-Stands x t p p' (over (ok true)) f o ne h = HasPassed-Onward x t p p' o h
  Frame-Stands x t p p' (over (ok false)) f o ne h = tt
  Frame-Stands x t p p' (over (err e)) f o ne h = tt

  -- What a call of a session comes to, from its phase and the server before.
  pub record Moves (t : Time) (ph : Phase Tx) (p : P) (ph' : Phase Tx) (p' : P) : Type 0 where
    pub stands : Stands p' t ph'
    pub frame : Frame (tx_of ph) p p'
    pub onward : Onward (tx_of ph) p p'
    pub writers : Writers p'
    -- Its transaction is the one that it had, or a new one.
    pub same_or_new : (z : Tx) → tx_of ph' ≡ some z → (tx_of ph ≡ some z) ⊎ (live p z ≡ false)
    -- A claim that wins had found an earlier entry.
    pub wins_from :
        ph' ≡ over (ok true) → (ph ≡ over (ok true)) ⊎ ((u : Time) × (entry p ≡ some u) × (u <ℤ t))
