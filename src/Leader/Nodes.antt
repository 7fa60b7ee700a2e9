-- ===== src/Leader/Nodes.antt =====
-- The nodes of a cluster, each with its PostgresLeader (leader.go), over one pool and lock server.
use sundial.Base.{
  ℕ, ◌==◌, ◌≡◌, ◌≢◌, Bool, true, false, List, [], ◌∷◌, Option, some, Text, if◌then◌else◌,
}
use sundial.Errors.{ok}
use sundial.Leader.{LockServer, PostgresLeader, try_acquire_pg, release_pg, new_postgres_leader}

-- What is documented of the pool and of session-level advisory locks, while no session dies: the pool
-- does not hand out a connection that is in use, a lock that one session has is not granted to another
-- nor taken away by it, and a connection that goes back to the pool changes neither.
pub record LockLaws {C P : Type 0} (server : LockServer C P) : Type 1 where
  pub holder : P → Option C
  pub in_use : P → C → Bool
  pub acquire-fresh :
      (p : P) (c : C)
      → (server.acquire_conn p).0 ≡ ok c
      → (in_use p c ≡ false) × (in_use (server.acquire_conn p).1 c ≡ true)
  pub acquire-holder : (p : P) → holder (server.acquire_conn p).1 ≡ holder p
  pub acquire-in_use :
      (p : P) (k : C) → in_use p k ≡ true → in_use (server.acquire_conn p).1 k ≡ true
  pub try_lock-other :
      (c k : C) (p : P) → holder p ≡ some k → (server.try_lock c p).0 ≡ ok true → k ≡ c
  pub try_lock-won :
      (c : C) (p : P) → (server.try_lock c p).0 ≡ ok true → holder (server.try_lock c p).1 ≡ some c
  pub try_lock-holder :
      (c k : C) (p : P) → holder p ≡ some k → holder (server.try_lock c p).1 ≡ some k
  pub try_lock-in_use : (c k : C) (p : P) → in_use (server.try_lock c p).1 k ≡ in_use p k
  pub release-holder : (c : C) (p : P) → holder (server.release_conn c p) ≡ holder p
  pub release-in_use :
      (c k : C) (p : P) → k ≢ c → in_use p k ≡ true → in_use (server.release_conn c p) k ≡ true

-- What the nodes do, by their numbers.
pub data NodeCall : Type 0 where
  node_acquires : ℕ → Text → NodeCall
  node_releases : ℕ → NodeCall

-- The leader value of each node, and the state of the pool and the server.
pub record Nodes (C P : Type 0) : Type 0 where
  pub leaders : ℕ → PostgresLeader C
  pub server_state : P

abbrev pub put : {C : Type 0} → ℕ → PostgresLeader C → (ℕ → PostgresLeader C) → ℕ → PostgresLeader C
put i l f k = if i == k then l else f k

module _ {C P : Type 0} (server : LockServer C P) where
  abbrev with_leader_of : {A : Type 0} → ℕ → Nodes C P → A × PostgresLeader C × P → Nodes C P
  with_leader_of i n (r, l, p) = record { leaders = put i l n.leaders; server_state = p }

  -- A call of one node on its own leader.
  unfoldable pub node_step : Nodes C P → NodeCall → Nodes C P
  node_step n (node_acquires i id) =
      with_leader_of i n (try_acquire_pg server id (n.leaders i) n.server_state)
  node_step n (node_releases i) =
      with_leader_of i n (release_pg server (n.leaders i) n.server_state)

  unfoldable pub node_steps : Nodes C P → List NodeCall → Nodes C P
  node_steps n [] = n
  node_steps n (c ∷ cs) = node_steps (node_step n c) cs

  abbrev pub fresh_nodes : P → Nodes C P
  fresh_nodes p = record { leaders = λ k. new_postgres_leader; server_state = p }
