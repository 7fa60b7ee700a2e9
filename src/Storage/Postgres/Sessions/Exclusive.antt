-- ===== src/Storage/Postgres/Sessions/Exclusive.antt =====
-- Sessions whose claims of one job overlap (ClaimJob of PostgresStorage, storage.go): who wins.
use sundial.Base.{
  ℕ, ◌==◌, ◌≡◌, ◌≢◌, refl, ap, sym, subst, ◌∙◌, ◌⊎◌, inl, inr, true, false, List, [], ◌∷◌, Option,
  none, some, Text, if◌then◌else◌, ◌<ℤ◌, arith, Bool-cases,
}
use sundial.Errors.{ok}
use sundial.Clock.{Time}
use sundial.Storage.Sql.{Server}
use sundial.Storage.Postgres.{PostgresStorage, jobs_table}
use sundial.Storage.Postgres.Sessions.{
  Phase, waiting, opened, holding, written, over, next_call, Sessions, put, session_step,
  session_steps, fresh_sessions,
}
use sundial.Storage.Postgres.Sessions.Frame.{
  ClaimLaws, HasPassed, tx_of, Stands, Writers, Moves, Frame-Stands,
}
use sundial.Storage.Postgres.Sessions.Calls.{call-Moves}

-- A session's new phase, and the others' as they are.
put_cases :
    {Tx : Type 0} (Q : Phase Tx → Type 0) (k j : ℕ) (ph : Phase Tx) (f : ℕ → Phase Tx)
    → (k ≡ j → Q ph)
    → (k ≢ j → Q (f j))
    → Q (put k ph f j)
put_cases Q k j ph f h h' = elim (Bool-cases (k == j)) [
  | inl e ↦ rw (e, if◌then◌else◌) (h (ground (arith, e)))
  | inr e ↦ rw (e, if◌then◌else◌) (h' (λ q. ground (arith, e, q)))
]

module _ {Tx P : Type 0} (server : Server Tx P) (s : PostgresStorage) (i : Text)
    (laws : ClaimLaws server (jobs_table server s) i) where
  open laws use {entry, owner, live, wrote}

  pub record IsOrderly (n : Sessions Tx P) : Type 0 where
    pub stands : (k : ℕ) → Stands laws n.server_state (n.asked k) (n.phases k)
    pub alone :
        (j k : ℕ) (x : Tx) → tx_of (n.phases j) ≡ some x → tx_of (n.phases k) ≡ some x → j ≡ k
    pub writers : Writers laws n.server_state
    pub once :
        (j k : ℕ)
        → n.phases j ≡ over (ok true)
        → n.phases k ≡ over (ok true)
        → n.asked j ≡ n.asked k
        → j ≡ k

  under_way :
      (p : P) (t : Time) (ph : Phase Tx) (x : Tx)
      → Stands laws p t ph
      → tx_of ph ≡ some x
      → live p x ≡ true
  under_way p t waiting x h e = absurd cc
  under_way p t (opened y) x h e = subst (λ z. live p z ≡ true) (cc) h.0
  under_way p t (holding y) x h e = subst (λ z. live p z ≡ true) (cc) h.0
  under_way p t (written y) x h e = subst (λ z. live p z ≡ true) (cc) h.0
  under_way p t (over r) x h e = absurd cc

  won-HasPassed :
      (p : P) (t : Time) (ph : Phase Tx)
      → Stands laws p t ph
      → ph ≡ over (ok true)
      → HasPassed t (entry p)
  won-HasPassed p t ph h e = subst (Stands laws p t) e h

  -- What has passed a time was not found before it.
  too_late : (t u : Time) (e : Option Time) → HasPassed t e → e ≡ some u → u <ℤ t → ⊥
  too_late t u none h q lt = absurd h
  too_late t u (some v) h q lt = ground (arith, q)

  module _ (n : Sessions Tx P) (o : IsOrderly n) (k : ℕ) (ph : Phase Tx) (p : P)
      (m : Moves laws (n.asked k) (n.phases k) n.server_state ph p) where
    abbrev after : Sessions Tx P
    after = record n { phases = put k ph n.phases; server_state = p }

    moved-Stands : (j : ℕ) → Stands laws p (n.asked j) (put k ph n.phases j)
    moved-Stands j =
        put_cases (Stands laws p (n.asked j)) k j ph n.phases
          (λ e. subst (λ x. Stands laws p (n.asked x) ph) e m.stands)
          (λ ne.
            Frame-Stands laws (tx_of (n.phases k)) (n.asked j) n.server_state p (n.phases j) m.frame
              m.onward (λ z e f. ne (o.alone k j z f e)) (o.stands j))

    -- The session's transaction is no other session's.
    own_tx : (j : ℕ) (x : Tx) → tx_of ph ≡ some x → tx_of (n.phases j) ≡ some x → k ≡ j
    own_tx j x e f = by_tx (m.same_or_new x e)
      where
        by_tx : (tx_of (n.phases k) ≡ some x) ⊎ (live n.server_state x ≡ false) → k ≡ j
        by_tx (inl h) = o.alone k j x h f
        by_tx (inr h) =
            absurd cc (under_way n.server_state (n.asked j) (n.phases j) x (o.stands j) f)

    moved-alone :
        (j l : ℕ) (x : Tx)
        → tx_of (put k ph n.phases j) ≡ some x
        → tx_of (put k ph n.phases l) ≡ some x
        → j ≡ l
    moved-alone j l x =
        put_cases (λ q. tx_of q ≡ some x → tx_of (put k ph n.phases l) ≡ some x → j ≡ l) k j ph
          n.phases
          (λ e a.
            put_cases (λ q. tx_of q ≡ some x → j ≡ l) k l ph n.phases (λ f b. sym e ∙ f)
              (λ ne b. sym e ∙ own_tx l x a b))
          (λ ne a.
            put_cases (λ q. tx_of q ≡ some x → j ≡ l) k l ph n.phases
              (λ f b. sym (own_tx j x b a) ∙ f) (λ ne' b. o.alone j l x a b))

    -- A second claim does not win for the same time.
    wins_apart :
        (j : ℕ) → ph ≡ over (ok true) → n.phases j ≡ over (ok true) → n.asked k ≡ n.asked j → k ≡ j
    wins_apart j e f same = by_start (m.wins_from e)
      where
        by_start :
            (n.phases k ≡ over (ok true))
              ⊎ ((u : Time) × (entry n.server_state ≡ some u) × (u <ℤ n.asked k))
            → k ≡ j
        by_start (inl h) = o.once k j h f same
        by_start (inr (u, h, lt)) = absurd (
            too_late (n.asked k) u (entry n.server_state)
              (subst (λ t. HasPassed t (entry n.server_state)) (sym same)
                (won-HasPassed n.server_state (n.asked j) (n.phases j) (o.stands j) f))
              h lt)

    moved-once :
        (j l : ℕ)
        → put k ph n.phases j ≡ over (ok true)
        → put k ph n.phases l ≡ over (ok true)
        → n.asked j ≡ n.asked l
        → j ≡ l
    moved-once j l =
        put_cases
          (λ q.
            q ≡ over (ok true)
            → put k ph n.phases l ≡ over (ok true)
            → n.asked j ≡ n.asked l
            → j ≡ l)
          k j ph n.phases
          (λ e a.
            put_cases (λ q. q ≡ over (ok true) → n.asked j ≡ n.asked l → j ≡ l) k l ph n.phases
              (λ f b t. sym e ∙ f) (λ ne b t. sym e ∙ wins_apart l a b (ap n.asked e ∙ t)))
          (λ ne a.
            put_cases (λ q. q ≡ over (ok true) → n.asked j ≡ n.asked l → j ≡ l) k l ph n.phases
              (λ f b t. sym (wins_apart j b a (ap n.asked f ∙ sym t)) ∙ f)
              (λ ne' b t. o.once j l a b t))

    moved-IsOrderly : IsOrderly after
    moved-IsOrderly = record {
      stands = moved-Stands;
      alone = moved-alone;
      writers = m.writers;
      once = moved-once;
    }

  steps-IsOrderly :
      (n : Sessions Tx P) (ks : List ℕ) → IsOrderly n → IsOrderly (session_steps server s i n ks)
  unfolding session_steps session_step
  steps-IsOrderly n [] o = o
  steps-IsOrderly n (k ∷ ks) o =
      let ph = n.phases k in
      let r = next_call server s i (n.asked k) ph n.server_state in
      steps-IsOrderly (session_step server s i n k) ks (
        moved-IsOrderly n o k r.0 r.1
          (call-Moves server s i laws (n.asked k) ph n.server_state o.writers (o.stands k)))

  asked-steps : (n : Sessions Tx P) (ks : List ℕ) → (session_steps server s i n ks).asked ≡ n.asked
  unfolding session_steps session_step
  asked-steps n [] = refl
  asked-steps n (k ∷ ks) = asked-steps (session_step server s i n k) ks

  -- On a server that keeps the laws of overlapping transactions, with none that has written to the
  -- row: however many sessions claim one job, for the fire times that they ask, and however their
  -- calls interleave and fail, if one has won its fire time, no other has won the same.
  pub one_winner :
      (asked : ℕ → Time) (p : P) (ks : List ℕ) (j k : ℕ)
      → ((x : Tx) → wrote p x ≡ none)
      → j ≢ k
      → asked j ≡ asked k
      → (session_steps server s i (fresh_sessions server s i asked p) ks).phases j ≡ over (ok true)
      → (session_steps server s i (fresh_sessions server s i asked p) ks).phases k ≢ over (ok true)
  one_winner asked p ks j k q apart same a b =
      let start : IsOrderly (fresh_sessions server s i asked p) = record {
        stands = λ l. tt;
        alone = λ l m x e f. absurd cc;
        writers = λ y. inl (q y);
        once = λ l m e f t. absurd cc;
      } in
      let kept = asked-steps (fresh_sessions server s i asked p) ks in
      apart (
        (steps-IsOrderly _ ks start).once j k a b
          (ap (λ f. f j) kept ∙ same ∙ sym (ap (λ f. f k) kept)))
