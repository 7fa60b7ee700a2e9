-- ===== src/Leader/Memory.antt =====
-- Leadership with MemoryLeader (leader.go).
use sundial.Base.{◌≡◌, ◌≢◌, refl, ◌⊎◌, true, false, List, [], ◌∷◌, Text, text_eq_iff, arith}
use sundial.Errors.{ok}
use sundial.Leader.{MemoryLeader, new_memory_leader, try_acquire, release, is_leader}

-- What any node may do to a shared MemoryLeader.
pub data Call : Type 0 where
  acquires : Text → Call
  releases : Call

pub step : MemoryLeader → Call → MemoryLeader
step l (acquires node) = (try_acquire node l).1
step l releases = (release l).1

pub run : MemoryLeader → List Call → MemoryLeader
unfolding step
run l [] = l
run l (c ∷ cs) = run (step l c) cs

-- The role is free, or the cached id is the holder's.
abbrev pub IsCoherent : MemoryLeader → Type 0
IsCoherent l = l.holder ≡ l.my_id

step-IsCoherent : (l : MemoryLeader) (c : Call) → IsCoherent l → IsCoherent (step l c)
unfolding step try_acquire release
step-IsCoherent l (acquires node) h = ground (arith, text_eq_iff l.holder node)
step-IsCoherent l releases h = ground (arith, text_eq_iff l.holder l.my_id)

run-IsCoherent : (l : MemoryLeader) (cs : List Call) → IsCoherent l → IsCoherent (run l cs)
unfolding run
run-IsCoherent l [] h = h
run-IsCoherent l (c ∷ cs) h = run-IsCoherent (step l c) cs (step-IsCoherent l c h)

-- After any calls on a new MemoryLeader, IsLeader answers whether anybody holds the role; it does
-- not tell one node from another.
is_leader-run :
    (cs : List Call)
    → let l = run new_memory_leader cs in
      ((is_leader l ≡ true) × (l.holder ≢ [])) ⊎ ((is_leader l ≡ false) × (l.holder ≡ []))
unfolding new_memory_leader is_leader
is_leader-run cs = ground (
  arith,
  run-IsCoherent new_memory_leader cs refl,
  text_eq_iff (run new_memory_leader cs).holder (run new_memory_leader cs).my_id,
)

-- TryAcquire succeeds exactly when the node has an id and the role is free or its own; then the
-- node holds it, and otherwise nothing changes.
pub try_acquire_lem :
    (node : Text) (l : MemoryLeader)
    → (((try_acquire node l).0 ≡ ok true)
        × (node ≢ [])
        × ((l.holder ≡ []) ⊎ (l.holder ≡ node))
        × ((try_acquire node l).1 ≡ record { holder = node; my_id = node }))
      ⊎ (((try_acquire node l).0 ≢ ok true)
          × ((node ≡ []) ⊎ ((l.holder ≢ []) × (l.holder ≢ node)))
          × ((try_acquire node l).1 ≡ l))
unfolding try_acquire
try_acquire_lem node l = ground (arith, text_eq_iff l.holder node)
