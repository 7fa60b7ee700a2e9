-- ===== src/Leader.antt =====
-- leader.go: the Leader interface and its two implementations. The connection pool and the advisory
-- locks of Postgres are parameters.
pub mod Memory
pub mod Nodes
pub mod Locks
pub mod Stale
use sundial.Base.{
  ℕ, Bool, true, false, not, List, [], ◌∷◌, Option, none, some, Text, text_eq, if◌then◌else◌, ◌&&◌,
}
use sundial.Errors.{Error, Result, ok, err, leader_node_id}

-- The interface, over the states `L` of an implementation.
pub record Leader (L : Type 0) : Type 0 where
  pub try_acquire : Text → L → Result Bool × L
  pub release : L → Result (Unit {0}) × L
  pub is_leader : L → Bool

pub record MemoryLeader : Type 0 where
  pub holder : Text
  pub my_id : Text

unfoldable pub new_memory_leader : MemoryLeader
new_memory_leader = record { holder = []; my_id = [] }

abbrev pub is_empty : Text → Bool
is_empty [] = true
is_empty (_ ∷ _) = false

unfoldable pub try_acquire : Text → MemoryLeader → Result Bool × MemoryLeader
try_acquire node l =
    if is_empty node
    then (err leader_node_id, l)
    else if is_empty l.holder
    then (ok true, record { holder = node; my_id = node })
    else if text_eq l.holder node
    then (ok true, record l { my_id = node })
    else (ok false, l)

unfoldable pub release : MemoryLeader → Result (Unit {0}) × MemoryLeader
release l =
    (ok tt, record { holder = if text_eq l.holder l.my_id then [] else l.holder; my_id = [] })

unfoldable pub is_leader : MemoryLeader → Bool
is_leader l = not (is_empty l.my_id) && text_eq l.holder l.my_id

unfoldable pub memory_leader : Leader MemoryLeader
unfolding try_acquire release is_leader
memory_leader = record { try_acquire = try_acquire; release = release; is_leader = is_leader }

-- What PostgresLeader calls of its pool (of state `P`) and of a connection `C`:
-- `pool.Acquire`, `pg_try_advisory_lock`, `pg_advisory_unlock` and `conn.Release`.
pub record LockServer (C P : Type 0) : Type 0 where
  pub acquire_conn : P → Result C × P
  pub try_lock : C → P → Result Bool × P
  pub unlock : C → P → Result Bool × P
  pub release_conn : C → P → P

pub record PostgresLeader (C : Type 0) : Type 0 where
  pub conn : Option C
  pub held : Bool
  pub node_id : Text

-- `NewPostgresLeader`
unfoldable pub new_postgres_leader : {C : Type 0} → PostgresLeader C
new_postgres_leader = record { conn = none; held = false; node_id = [] }

-- A method of PostgresLeader changes the leader and the pool that it shares.
module _ {C P : Type 0} (server : LockServer C P) where
  open server use {acquire_conn, try_lock, unlock, release_conn}

  abbrev locked_result :
      Text → C → PostgresLeader C → Result Bool × P → Result Bool × PostgresLeader C × P
  locked_result node c l (err e, p) = (err e, l, release_conn c p)
  locked_result node c l (ok false, p) = (ok false, l, release_conn c p)
  locked_result node c l (ok true, p) =
      (ok true, record { conn = some c; held = true; node_id = node }, p)

  abbrev conn_result : Text → PostgresLeader C → Result C × P → Result Bool × PostgresLeader C × P
  conn_result node l (err e, p) = (err e, l, p)
  conn_result node l (ok c, p) = locked_result node c l (try_lock c p)

  unfoldable pub try_acquire_pg : Text → PostgresLeader C → P → Result Bool × PostgresLeader C × P
  try_acquire_pg node l p =
      if is_empty node
      then (err leader_node_id, l, p)
      else if l.held
      then (ok true, l, p)
      else conn_result node l (acquire_conn p)

  abbrev unlocked_result : C → Result Bool × P → Result (Unit {0}) × P
  unlocked_result c (err e, p) = (err e, release_conn c p)
  unlocked_result c (ok b, p) = (ok tt, release_conn c p)

  abbrev unlock_conn : Option C → P → Result (Unit {0}) × P
  unlock_conn none p = (ok tt, p)
  unlock_conn (some c) p = unlocked_result c (unlock c p)

  unfoldable pub release_pg : PostgresLeader C → P → Result (Unit {0}) × PostgresLeader C × P
  release_pg l p =
      if not l.held
      then (ok tt, l, p)
      else (let (r, p') = unlock_conn l.conn p in
          (r, record { conn = none; held = false; node_id = [] }, p'))

  unfoldable pub is_leader_pg : PostgresLeader C → Bool
  is_leader_pg l = l.held
