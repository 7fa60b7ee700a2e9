-- ===== src/Leader/Locks.antt =====
-- PostgresLeader (leader.go): who holds the role in a cluster.
use sundial.Base.{
  ℕ, ◌==◌, ◌≡◌, ◌≢◌, refl, ap, sym, subst, ◌∙◌, ◌⊎◌, inl, inr, Bool, true, false, List, [], ◌∷◌,
  some, Text, arith, Bool-cases, if_both,
}
use sundial.Errors.{Result, ok, err}
use sundial.Leader.{
  LockServer, PostgresLeader, try_acquire_pg, release_pg, is_leader_pg, is_empty, conn_result,
  locked_result, new_postgres_leader,
}
use sundial.Leader.Nodes.{
  LockLaws, NodeCall, node_acquires, node_releases, Nodes, put, node_step, node_steps, fresh_nodes,
}

put-same :
    {C : Type 0} (i k : ℕ) (l : PostgresLeader C) (f : ℕ → PostgresLeader C)
    → l ≡ f i
    → put i l f k ≡ f k
put-same i k l f e = ground arith

module _ {C P : Type 0} (server : LockServer C P) where
  module _ (laws : LockLaws server) where
    open laws use {holder, in_use}

    -- A leader that holds the role has a connection in use, whose session has the lock.
    abbrev pub Owns : P → PostgresLeader C → Type 0
    Owns p l =
        (l.held ≡ false) ⊎ ((c : C) × (l.conn ≡ some c) × (holder p ≡ some c) × (in_use p c ≡ true))

    pub record IsExclusive (n : Nodes C P) : Type 0 where
      pub owns : (i : ℕ) → Owns n.server_state (n.leaders i)
      pub alone : (i j : ℕ) → (n.leaders i).held ≡ true → (n.leaders j).held ≡ true → i ≡ j

    -- The owner of the lock keeps it.
    abbrev Kept : P → P → Type 0
    Kept p p' =
        (k : C)
        → holder p ≡ some k
        → in_use p k ≡ true
        → (holder p' ≡ some k) × (in_use p' k ≡ true)

    -- Nobody owns the lock.
    abbrev Free : P → Type 0
    Free p = (k : C) → holder p ≡ some k → in_use p k ≡ true → ⊥

    -- What a leader's call may come to.
    abbrev Acquires : PostgresLeader C → P → PostgresLeader C → P → Type 0
    Acquires l p l' p' =
        ((l' ≡ l) × Kept p p')
        ⊎ ((c : C) × (l'.conn ≡ some c) × (holder p' ≡ some c) × (in_use p' c ≡ true) × Free p)

    abbrev Releases : PostgresLeader C → P → PostgresLeader C → P → Type 0
    Releases l p l' p' = ((l' ≡ l) × (p' ≡ p)) ⊎ ((l.held ≡ true) × (l'.held ≡ false))

    lost-Kept :
        (c : C) (p0 p : P) (r : Result Bool × P)
        → (holder p ≡ holder p0)
        → ((k : C) → in_use p0 k ≡ true → in_use p k ≡ true)
        → in_use p0 c ≡ false
        → server.try_lock c p ≡ r
        → Kept p0 (server.release_conn c r.1)
    lost-Kept c p0 p r h u f e k hk uk =
        let other : k ≢ c = λ q. cc (ap (in_use p0) q) in
        (
          laws.release-holder c r.1
              ∙ subst (λ x. holder x.1 ≡ some k) e (laws.try_lock-holder c k p (h ∙ hk)),
          laws.release-in_use c k r.1 other
              (subst (λ x. in_use x.1 k ≡ true) e (laws.try_lock-in_use c k p ∙ u k uk)),
        )

    locked-Acquires :
        (id : Text) (c : C) (l : PostgresLeader C) (p0 p : P) (r : Result Bool × P)
        → (holder p ≡ holder p0)
        → ((k : C) → in_use p0 k ≡ true → in_use p k ≡ true)
        → in_use p0 c ≡ false
        → in_use p c ≡ true
        → server.try_lock c p ≡ r
        → Acquires l p0 (locked_result server id c l r).1 (locked_result server id c l r).2
    locked-Acquires id c l p0 p (ok true, p') h u f n e =
        let won = ap (λ r. r.0) e in
        inr (
          c,
          refl,
          subst (λ x. holder x.1 ≡ some c) e (laws.try_lock-won c p won),
          subst (λ x. in_use x.1 c ≡ true) e (laws.try_lock-in_use c c p ∙ n),
          λ k hk uk. cc (ap (in_use p0) (laws.try_lock-other c k p (h ∙ hk) won)),
        )
    locked-Acquires id c l p0 p (ok false, p') h u f n e =
        inl (refl, lost-Kept c p0 p (ok false, p') h u f e)
    locked-Acquires id c l p0 p (err x, p') h u f n e =
        inl (refl, lost-Kept c p0 p (err x, p') h u f e)

    acquire-Acquires :
        (id : Text) (l : PostgresLeader C) (p : P)
        → let (r, l', p') = try_acquire_pg server id l p in Acquires l p l' p'
    unfolding try_acquire_pg
    acquire-Acquires id l p =
        let Out : Result Bool × PostgresLeader C × P → Type 0 = λ o. Acquires l p o.1 o.2 in
        let same : Acquires l p l p = inl (refl, λ k h u. (h, u)) in
        if_both Out (is_empty id) same
          (if_both Out l.held same (by_conn (server.acquire_conn p) refl))
      where
        by_conn :
            (r : Result C × P)
            → server.acquire_conn p ≡ r
            → Acquires l p (conn_result server id l r).1 (conn_result server id l r).2
        by_conn (err x, p') e = inl (
          refl,
          λ k h u. (
            subst (λ r. holder r.1 ≡ some k) e (laws.acquire-holder p ∙ h),
            subst (λ r. in_use r.1 k ≡ true) e (laws.acquire-in_use p k u),
          ),
        )
        by_conn (ok c, p') e =
            let (fresh, used) = laws.acquire-fresh p c (ap (λ r. r.0) e) in
            locked-Acquires id c l p p' (server.try_lock c p')
              (subst (λ r. holder r.1 ≡ holder p) e (laws.acquire-holder p))
              (λ k u. subst (λ r. in_use r.1 k ≡ true) e (laws.acquire-in_use p k u)) fresh
              (subst (λ r. in_use r.1 c ≡ true) e used) refl

    release-Releases :
        (l : PostgresLeader C) (p : P)
        → let (r, l', p') = release_pg server l p in Releases l p l' p'
    unfolding release_pg
    release-Releases l p = elim (Bool-cases l.held) [
      | inl e ↦ rw e (inr (refl, refl))
      | inr e ↦ rw e (inl (refl, refl))
    ]

    held-Owns :
        (l : PostgresLeader C) (p : P)
        → Owns p l
        → l.held ≡ true
        → (c : C) × (holder p ≡ some c) × (in_use p c ≡ true)
    held-Owns l p (inl h) t = cc
    held-Owns l p (inr (c, e, h, u)) t = (c, h, u)

    Kept-Owns : (l : PostgresLeader C) (p p' : P) → Kept p p' → Owns p l → Owns p' l
    Kept-Owns l p p' kept (inl h) = inl h
    Kept-Owns l p p' kept (inr (c, e, h, u)) = let (h', u') = kept c h u in inr (c, e, h', u')

    not_held : (l : PostgresLeader C) (p : P) → Free p → Owns p l → l.held ≡ false
    not_held l p free (inl h) = h
    not_held l p free (inr (c, e, h, u)) = absurd (free c h u)

    acquired-IsExclusive :
        (n : Nodes C P) (i : ℕ) (l : PostgresLeader C) (p : P)
        → IsExclusive n
        → Acquires (n.leaders i) n.server_state l p
        → IsExclusive (record { leaders = put i l n.leaders; server_state = p })
    acquired-IsExclusive n i l p x (inl (same, kept)) =
        let as_before : (k : ℕ) → put i l n.leaders k ≡ n.leaders k =
          λ k. put-same i k l n.leaders same in
        record {
          owns = λ k.
              subst (Owns p) (sym (as_before k))
                (Kept-Owns (n.leaders k) n.server_state p kept (x.owns k));
          alone = λ j k a b.
              x.alone j k (sym (ap (λ o. o.held) (as_before j)) ∙ a)
                (sym (ap (λ o. o.held) (as_before k)) ∙ b);
        }
    acquired-IsExclusive n i l p x (inr (c, e, h, u, free)) =
        let others : (k : ℕ) → (n.leaders k).held ≡ false =
          λ k. not_held (n.leaders k) n.server_state free (x.owns k) in
        record {
          owns = λ k. if_both (Owns p) (i == k) (inr (c, e, h, u)) (inl (others k));
          alone = λ j k a b. ground (arith, others j, others k);
        }

    released-IsExclusive :
        (n : Nodes C P) (i : ℕ) (l : PostgresLeader C) (p : P)
        → IsExclusive n
        → Releases (n.leaders i) n.server_state l p
        → IsExclusive (record { leaders = put i l n.leaders; server_state = p })
    released-IsExclusive n i l p x (inl (same, still)) =
        acquired-IsExclusive n i l p x
          (inl (same, λ k h u. (ap holder still ∙ h, ap (λ q. in_use q k) still ∙ u)))
    released-IsExclusive n i l p x (inr (held, freed)) = record {
      owns = λ k. inl (nobody k);
      alone = λ j k a b. cc (nobody j);
    }
      where
        nobody : (k : ℕ) → (put i l n.leaders k).held ≡ false
        nobody k = elim (Bool-cases (n.leaders k).held) [
          | inl t ↦ ground (arith, x.alone i k held t)
          | inr f ↦ ground arith
        ]

    step-IsExclusive :
        (n : Nodes C P) (c : NodeCall) → IsExclusive n → IsExclusive (node_step server n c)
    unfolding node_step
    step-IsExclusive n (node_acquires i id) x =
        let out = try_acquire_pg server id (n.leaders i) n.server_state in
        acquired-IsExclusive n i out.1 out.2 x (acquire-Acquires id (n.leaders i) n.server_state)
    step-IsExclusive n (node_releases i) x =
        let out = release_pg server (n.leaders i) n.server_state in
        released-IsExclusive n i out.1 out.2 x (release-Releases (n.leaders i) n.server_state)

    steps-IsExclusive :
        (n : Nodes C P) (cs : List NodeCall) → IsExclusive n → IsExclusive (node_steps server n cs)
    unfolding node_steps
    steps-IsExclusive n [] x = x
    steps-IsExclusive n (c ∷ cs) x =
        steps-IsExclusive (node_step server n c) cs (step-IsExclusive n c x)

    -- If the pool and the advisory locks keep their word: nodes that start without the role and
    -- acquire and release it in any order, with any failures of the calls, never are two leaders
    -- by IsLeader.
    pub one_leader :
        (p : P) (cs : List NodeCall) (i j : ℕ)
        → is_leader_pg server ((node_steps server (fresh_nodes server p) cs).leaders i) ≡ true
        → is_leader_pg server ((node_steps server (fresh_nodes server p) cs).leaders j) ≡ true
        → i ≡ j
    unfolding is_leader_pg new_postgres_leader
    one_leader p cs i j a b =
        let start : IsExclusive (fresh_nodes server p) = record {
          owns = λ k. inl refl;
          alone = λ k l h h'. cc;
        } in
        (steps-IsExclusive _ cs start).alone i j a b
