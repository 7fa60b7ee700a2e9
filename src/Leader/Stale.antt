-- ===== src/Leader/Stale.antt =====
-- PostgresLeader (leader.go) when the session of a leader dies: the pool and the server change under
-- it, and it is not told.
use sundial.Base.{
  ℕ, ◌==◌, ◌≡◌, ◌≢◌, refl, inl, inr, Bool, true, false, List, [], ◌∷◌, Text, arith, All, Bool-cases,
  if_both, if◌then◌else◌,
}
use sundial.Errors.{Result, ok, err}
use sundial.Leader.{
  LockServer, PostgresLeader, try_acquire_pg, is_leader_pg, is_empty, conn_result, locked_result,
}
use sundial.Leader.Nodes.{NodeCall, node_acquires, node_releases, Nodes, node_step}

-- A call of a node, or a change of the pool and the server that no node makes.
pub data Occurrence (P : Type 0) : Type 0 where
  calls : NodeCall → Occurrence P
  changes : (P → P) → Occurrence P

-- The node does not give the role up.
abbrev pub Stays : {P : Type 0} → ℕ → Occurrence P → Type 0
Stays i (calls (node_acquires k id)) = Unit
Stays i (calls (node_releases k)) = k ≢ i
Stays i (changes f) = Unit

module _ {C P : Type 0} (server : LockServer C P) where
  unfoldable pub occur : Nodes C P → Occurrence P → Nodes C P
  occur n (calls c) = node_step server n c
  occur n (changes f) = record n { server_state = f n.server_state }

  unfoldable pub occur_all : Nodes C P → List (Occurrence P) → Nodes C P
  occur_all n [] = n
  occur_all n (o ∷ os) = occur_all (occur n o) os

  -- A leader that holds the role answers so without a call to the server.
  held-acquire :
      (id : Text) (l : PostgresLeader C) (p : P)
      → is_empty id ≡ false
      → l.held ≡ true
      → try_acquire_pg server id l p ≡ (ok true, l, p)
  unfolding try_acquire_pg
  held-acquire id l p e h = rw (e, h, if◌then◌else◌) refl

  abbrev IsAcquired : Result Bool × PostgresLeader C × P → Type 0
  IsAcquired o = o.0 ≡ ok true → o.1.held ≡ true

  IsAcquired-held :
      (id : Text) (l : PostgresLeader C) (p : P) → IsAcquired (try_acquire_pg server id l p)
  unfolding try_acquire_pg
  IsAcquired-held id l p = elim (Bool-cases (is_empty id)) [
    | inl e ↦ rw (e, if◌then◌else◌) (λ q. cc)
    | inr e ↦ elim (Bool-cases l.held) [
      | inl h ↦ rw (e, h, if◌then◌else◌) (λ q. refl)
      | inr h ↦ rw (e, h, if◌then◌else◌) (by_conn _ (server.acquire_conn p))
    ]
  ]
    where
      by_lock :
          (c : C) (x : PostgresLeader C) (r : Result Bool × P)
          → IsAcquired (locked_result server id c x r)
      by_lock c x (err e, q) = λ e. cc
      by_lock c x (ok false, q) = λ e. cc
      by_lock c x (ok true, q) = λ e. refl

      by_conn : (x : PostgresLeader C) (r : Result C × P) → IsAcquired (conn_result server id x r)
      by_conn x (err e, q) = λ e. cc
      by_conn x (ok c, q) = by_lock c x (server.try_lock c q)

  -- A call of TryAcquire does not take a cached role away.
  acquire-held :
      (id : Text) (l : PostgresLeader C) (p : P)
      → l.held ≡ true
      → (try_acquire_pg server id l p).1.held ≡ true
  unfolding try_acquire_pg
  acquire-held id l p h =
      if_both (λ (o : Result Bool × PostgresLeader C × P). o.1.held ≡ true) (is_empty id) h
        (rw (h, if◌then◌else◌) refl)

  occur-held :
      (n : Nodes C P) (i : ℕ) (o : Occurrence P)
      → Stays i o
      → (n.leaders i).held ≡ true
      → ((occur n o).leaders i).held ≡ true
  unfolding occur node_step
  occur-held n i (changes f) s h = h
  occur-held n i (calls (node_acquires k id)) s h = elim (Bool-cases (k == i)) [
    | inl e ↦
        rw (e, if◌then◌else◌) (acquire-held id (n.leaders k) n.server_state (ground (arith, e, h)))
    | inr e ↦ rw (e, if◌then◌else◌) h
  ]
  occur-held n i (calls (node_releases k)) s h = elim (Bool-cases (k == i)) [
    | inl e ↦ absurd (s (ground (arith, e)))
    | inr e ↦ rw (e, if◌then◌else◌) h
  ]

  occur_all-held :
      (n : Nodes C P) (i : ℕ) (os : List (Occurrence P))
      → All (Stays i) os
      → (n.leaders i).held ≡ true
      → ((occur_all n os).leaders i).held ≡ true
  unfolding occur_all
  occur_all-held n i [] s h = h
  occur_all-held n i (o ∷ os) s h = occur_all-held (occur n o) i os s.1 (occur-held n i o s.0 h)

  -- If one node holds the role, the server then changes in any way (the session of that node dies),
  -- and another node is granted the role: from then on, whatever is called and whatever the server
  -- does, as long as neither releases the role both are leaders by IsLeader, and TryAcquire under any
  -- id that is not empty goes on to confirm the role to the first one, without a look at the server.
  pub two_leaders :
      (n : Nodes C P) (i j : ℕ) (id : Text) (dies : P → P) (os : List (Occurrence P)) (id' : Text)
      → (p : P) → (n.leaders i).held ≡ true
      → (try_acquire_pg server id (n.leaders j) (dies n.server_state)).0 ≡ ok true
      → All (Stays i) os
      → All (Stays j) os
      → is_empty id' ≡ false
      → let n' = occur_all n (changes dies ∷ calls (node_acquires j id) ∷ os) in
        (is_leader_pg server (n'.leaders i) ≡ true)
        × (is_leader_pg server (n'.leaders j) ≡ true)
        × (try_acquire_pg server id' (n'.leaders i) p ≡ (ok true, n'.leaders i, p))
  unfolding is_leader_pg occur_all occur node_step
  two_leaders n i j id dies os id' p h won s s' e =
      let m = occur (occur n (changes dies)) (calls (node_acquires j id)) in
      let first =
        occur_all-held m i os s
          (occur-held (occur n (changes dies)) i (calls (node_acquires j id)) tt h) in
      let second : (m.leaders j).held ≡ true =
        ground (arith, IsAcquired-held id (n.leaders j) (dies n.server_state) won) in
      (
        first,
        occur_all-held m j os s' second,
        held-acquire id' ((occur_all m os).leaders i) p e first,
      )
