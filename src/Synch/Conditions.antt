-- ===== src/Synch/Conditions.antt =====
-- Condition variables of src/kern/thread/synch.c. cv_wait is three steps: it takes the spinlock of the
-- condition variable and releases the lock; it sleeps, which releases the spinlock; and once woken it
-- acquires the lock again, a pass at a time. Other threads may run between the steps.
pub mod Wakeups
mod Tests
use ed_operating_system.Prelude.{
  ℕ, Bool, true, false, Option, none, some, List, [], ◌∷◌, ◌++◌, ◌==◌, ◌≡◌, if◌then◌else◌, Outcome,
  ret, panic, blocked,
}
use ed_operating_system.Synch.{Lock, lock_create, acquire_pass, lock_release, wake_one}

-- Where a thread is with respect to cv_wait.
pub data Stage : Type 0 where
  outside entering asleep waking : Stage

-- A lock, a condition variable (the holder of its spinlock, and its wait channel) and the threads.
pub record Monitor : Type 0 where
  pub lock : Lock
  pub spin_lock : Option ℕ
  pub channel : List ℕ
  pub stages : ℕ → Stage

-- `lock_do_i_hold`
abbrev pub lock_do_i_hold : Lock → ℕ → Bool
lock_do_i_hold l t = elim l.lk_holder [ none ↦ false | some u ↦ u == t ]

abbrev pub at_stage : Monitor → ℕ → Stage → Monitor
at_stage m t s = record m { stages = λ u. if t == u then s else m.stages u }

-- `wchan_wakeall`
abbrev pub wake_all : List ℕ → Monitor → Monitor
wake_all [] m = m
wake_all (t ∷ ts) m = wake_all ts (at_stage m t Stage.waking)

-- `cv_create` beside a new lock, with the name and the channel allocated
abbrev pub cv_create : Monitor
cv_create = record {
  lock = lock_create;
  spin_lock = none;
  channel = [];
  stages = λ t. Stage.outside;
}

abbrev with_spin_lock : Option ℕ → Monitor → Outcome Monitor
with_spin_lock none m = ret m
with_spin_lock (some u) m = blocked

-- With the spinlock of the condition variable, while the lock is held.
abbrev guarded : Monitor → ℕ → Monitor → Outcome Monitor
guarded m t m' = if lock_do_i_hold m.lock t then with_spin_lock m.spin_lock m' else panic

-- `cv_wait` up to the release of the lock.
unfoldable pub wait_begin : Monitor → ℕ → Outcome Monitor
wait_begin m t =
    guarded m t
      (at_stage (record m { spin_lock = some t; lock = (lock_release m.lock).1 }) t Stage.entering)

-- The call of `wchan_sleep` in `cv_wait`, up to the sleep.
unfoldable pub wait_sleep : Monitor → ℕ → Monitor
wait_sleep m t =
    at_stage (record m { spin_lock = none; channel = m.channel ++ t ∷ [] }) t Stage.asleep

-- `cv_wait` after the sleep, one pass of `lock_acquire`.
unfoldable pub wait_end : Monitor → ℕ → Monitor
wait_end m t =
    let r = acquire_pass t m.lock in
    at_stage (record m { lock = r.1 }) t (if r.0 then Stage.outside else Stage.waking)

-- The channel after `wchan_wakeone`, and the stage of the thread that it wakes.
abbrev woken : Monitor → Option ℕ × List ℕ → Monitor
woken m (none, rest) = m
woken m (some u, rest) = at_stage (record m { channel = rest }) u Stage.waking

-- `cv_signal`
unfoldable pub cv_signal : Monitor → ℕ → Outcome Monitor
cv_signal m t = guarded m t (woken m (wake_one m.channel))

-- `cv_broadcast`
unfoldable pub cv_broadcast : Monitor → ℕ → Outcome Monitor
cv_broadcast m t = guarded m t (wake_all m.channel (record m { channel = [] }))

-- What can come about when threads use the lock and the condition variable in any order.
pub data Reachable : Monitor → Type 0 where
  create : Reachable cv_create
  acquires :
      {m : Monitor} (t : ℕ)
      → Reachable m
      → m.stages t ≡ Stage.outside
      → Reachable (record m { lock = (acquire_pass t m.lock).1 })
  releases :
      {m : Monitor} (t : ℕ)
      → Reachable m
      → lock_do_i_hold m.lock t ≡ true
      → Reachable (record m { lock = (lock_release m.lock).1 })
  begins :
      {m m' : Monitor} (t : ℕ)
      → Reachable m
      → m.stages t ≡ Stage.outside
      → wait_begin m t ≡ ret m'
      → Reachable m'
  sleeps :
      {m : Monitor} (t : ℕ) → Reachable m → m.stages t ≡ Stage.entering → Reachable (wait_sleep m t)
  ends : {m : Monitor} (t : ℕ) → Reachable m → m.stages t ≡ Stage.waking → Reachable (wait_end m t)
  signals : {m m' : Monitor} (t : ℕ) → Reachable m → cv_signal m t ≡ ret m' → Reachable m'
  broadcasts : {m m' : Monitor} (t : ℕ) → Reachable m → cv_broadcast m t ≡ ret m' → Reachable m'
