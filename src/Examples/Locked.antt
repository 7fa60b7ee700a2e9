-- ===== src/Examples/Locked.antt =====
-- Tests of the Postgres leaders: a server whose connections are numbers that are never used twice.
use sundial.Base.{
  ℕ, suc, ◌≡◌, refl, ◌∙◌, ltb, ◌==◌, Bool, true, false, List, [], ◌∷◌, Option, none, some, text,
  if◌then◌else◌, arith,
}
use sundial.Errors.{Result, ok}
use sundial.Leader.{LockServer, is_leader_pg, new_postgres_leader, try_acquire_pg, release_pg}
use sundial.Leader.Nodes.{
  Nodes, LockLaws, NodeCall, node_acquires, node_releases, node_step, node_steps, fresh_nodes,
}
use sundial.Leader.Locks.{one_leader}
use sundial.Leader.Stale.{Occurrence, calls, changes, occur_all, two_leaders}

record Locked : Type 0 where
  lock : Option ℕ
  next_conn : ℕ

abbrev granted : ℕ → Option ℕ → Locked → Result Bool × Locked
granted c none p = (ok true, record p { lock = some c })
granted c (some k) p = (ok (k == c), p)

abbrev freed : ℕ → Option ℕ → Locked → Result Bool × Locked
freed c none p = (ok false, p)
freed c (some k) p = if k == c then (ok true, record p { lock = none }) else (ok false, p)

abbrev locks : LockServer ℕ Locked
locks = record {
  acquire_conn = λ p. (ok p.next_conn, record p { next_conn = suc p.next_conn });
  try_lock = λ c p. granted c p.lock p;
  unlock = λ c p. freed c p.lock p;
  release_conn = λ c p. p;
}

locks-LockLaws : LockLaws locks
locks-LockLaws = record {
  holder = λ p. p.lock;
  in_use = λ p c. ltb c p.next_conn;
  acquire-fresh = λ p c e. ground arith;
  acquire-holder = λ p. refl;
  acquire-in_use = λ p k h. ground arith;
  try_lock-other = λ c k p h e. by_lock c k p p.lock h e;
  try_lock-won = λ c p e. won c p p.lock refl e;
  try_lock-holder = λ c k p h. stays c k p p.lock refl h;
  try_lock-in_use = λ c k p. unused c k p p.lock;
  release-holder = λ c p. refl;
  release-in_use = λ c k p n h. h;
}
  where
    by_lock :
        (c k : ℕ) (p : Locked) (o : Option ℕ) → o ≡ some k → (granted c o p).0 ≡ ok true → k ≡ c
    by_lock c k p none h e = cc
    by_lock c k p (some j) h e = ground arith

    won :
        (c : ℕ) (p : Locked) (o : Option ℕ)
        → p.lock ≡ o
        → (granted c o p).0 ≡ ok true
        → (granted c o p).1.lock ≡ some c
    won c p none h e = refl
    won c p (some j) h e = ground arith

    stays :
        (c k : ℕ) (p : Locked) (o : Option ℕ)
        → p.lock ≡ o
        → o ≡ some k
        → (granted c o p).1.lock ≡ some k
    stays c k p none q h = cc
    stays c k p (some j) q h = q ∙ h

    unused :
        (c k : ℕ) (p : Locked) (o : Option ℕ)
        → ltb k (granted c o p).1.next_conn ≡ ltb k p.next_conn
    unused c k p none = refl
    unused c k p (some j) = refl

abbrev node_calls : List NodeCall
node_calls =
    node_acquires 0 (text "n1")
    ∷ node_acquires 1 (text "n2")
    ∷ node_releases 0
    ∷ node_acquires 1 (text "n2")
    ∷ []

abbrev idle : Locked
idle = record { lock = none; next_conn = 0 }

led : is_leader_pg locks ((node_steps locks (fresh_nodes locks idle) node_calls).leaders 1) ≡ true
unfolding is_leader_pg node_steps node_step try_acquire_pg release_pg new_postgres_leader
led = refl

abbrev second : ℕ
second = 1

one_leader_example : second ≡ second
one_leader_example = one_leader locks locks-LockLaws idle node_calls second second led led

-- The session that has the lock ends, and Postgres frees the lock.
abbrev dies : Locked → Locked
dies p = record p { lock = none }

abbrev first_leads : Nodes ℕ Locked
first_leads = node_step locks (fresh_nodes locks idle) (node_acquires 0 (text "n1"))

abbrev later : List (Occurrence Locked)
later =
    calls (node_acquires 0 (text "n1"))
    ∷ changes dies
    ∷ calls (node_acquires 1 (text "n2"))
    ∷ calls (node_releases 2)
    ∷ []

first_held : (first_leads.leaders 0).held ≡ true
unfolding node_step try_acquire_pg new_postgres_leader
first_held = refl

second_granted :
    (try_acquire_pg locks (text "n2") (first_leads.leaders 1) (dies first_leads.server_state)).0
    ≡ ok true
unfolding node_step try_acquire_pg new_postgres_leader
second_granted = refl

two_leaders_example :
    let n' =
      occur_all locks first_leads (changes dies ∷ calls (node_acquires 1 (text "n2")) ∷ later) in
    (is_leader_pg locks (n'.leaders 0) ≡ true)
    × (is_leader_pg locks (n'.leaders 1) ≡ true)
    × (try_acquire_pg locks (text "n1") (n'.leaders 0) idle ≡ (ok true, n'.leaders 0, idle))
two_leaders_example =
    two_leaders locks first_leads 0 1 (text "n2") dies later (text "n1") idle first_held
      second_granted (tt, (tt, (tt, (λ e. ground (arith, e), tt))))
      (tt, (tt, (tt, (λ e. ground (arith, e), tt)))) refl
