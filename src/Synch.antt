-- ===== src/Synch.antt =====
-- Semaphores and locks of src/kern/thread/synch.c. Each pass under the spinlock of the object is one
-- function; threads run these passes in any order (Synch/Semaphores.antt and Synch/Locks.antt). A wait
-- channel is a queue: wchan_sleep adds the thread at the tail, wchan_wakeone takes the head.
pub mod Semaphores
pub mod Locks
pub mod Conditions
mod Tests
use ed_operating_system.Prelude.{
  ℕ, ◌+◌, ◌-◌, ◌%◌, ◌^◌, Bool, true, false, Option, none, some, List, [], ◌∷◌, ◌++◌, ◌==◌,
  if◌then◌else◌, Outcome, ret, panic,
}

-- `wchan_wakeone`: the thread that is woken, and the rest of the channel.
abbrev pub wake_one : List ℕ → Option ℕ × List ℕ
wake_one [] = (none, [])
wake_one (t ∷ ts) = (some t, ts)

-- The fields of `struct semaphore` past its name and spinlock; the count is a 32-bit `unsigned`.
pub record Semaphore : Type 0 where
  pub count : ℕ
  pub waiting : List ℕ

-- `sem_create`, with the name and the channel allocated
abbrev pub sem_create : ℕ → Semaphore
sem_create initial_count = record { count = initial_count; waiting = [] }

-- One pass of the thread `t` through the loop of `P`: it goes to sleep (false) or gets through.
unfoldable pub p_pass : ℕ → Semaphore → Bool × Semaphore
p_pass t s =
    if s.count == 0
    then (false, record s { waiting = s.waiting ++ (t ∷ []) })
    else (true, record s { count = s.count - 1 })

-- `V`: the thread that it wakes. The KASSERT catches a count that wraps.
unfoldable pub v : Semaphore → Outcome (Option ℕ × Semaphore)
v s =
    let count = (s.count + 1) % 2 ^ 32 in
    let r = wake_one s.waiting in
    if count == 0 then panic else ret (r.0, record { count = count; waiting = r.1 })

-- The fields of `struct lock` past its name and spinlock.
pub record Lock : Type 0 where
  pub taken : Bool
  pub lk_holder : Option ℕ
  pub waiting : List ℕ

-- `lock_create`, with the name and the channel allocated
abbrev pub lock_create : Lock
lock_create = record { taken = false; lk_holder = none; waiting = [] }

-- One pass of the thread `t` through the loop of `lock_acquire`: it goes to sleep (false) or gets the
-- lock.
unfoldable pub acquire_pass : ℕ → Lock → Bool × Lock
acquire_pass t l =
    if l.taken
    then (false, record l { waiting = l.waiting ++ (t ∷ []) })
    else (true, record l { taken = true; lk_holder = some t })

-- `lock_release`, whoever calls it: the thread that it wakes.
unfoldable pub lock_release : Lock → Option ℕ × Lock
lock_release l =
    let r = wake_one l.waiting in (r.0, record { taken = false; lk_holder = none; waiting = r.1 })
