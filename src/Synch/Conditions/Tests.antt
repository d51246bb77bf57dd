-- ===== src/Synch/Conditions/Tests.antt =====
-- Thread 1 waits on a condition variable (src/kern/thread/synch.c), then thread 2 has the lock.
use ed_operating_system.Prelude.{ℕ, ◌≢◌, refl, some, Returns}
use ed_operating_system.Synch.{acquire_pass, lock_release}
use ed_operating_system.Synch.Conditions.{
  Stage, Monitor, cv_create, wait_begin, wait_sleep, cv_broadcast, at_stage, Reachable,
}
use ed_operating_system.Synch.Conditions.Wakeups.{cv_broadcast_lem}

abbrev first_in : Monitor
first_in = record cv_create { lock = (acquire_pass 1 cv_create.lock).1 }

abbrev about_to_sleep : Monitor
about_to_sleep =
    at_stage (record first_in { spin_lock = some 1; lock = (lock_release first_in.lock).1 }) 1
      Stage.entering

abbrev sleeping : Monitor
sleeping = wait_sleep about_to_sleep 1

abbrev second_in : Monitor
second_in = record sleeping { lock = (acquire_pass 2 sleeping.lock).1 }

second_in-Reachable : Reachable second_in
unfolding wait_begin wait_sleep acquire_pass lock_release
second_in-Reachable =
    Reachable.acquires {m = sleeping} 2
      (Reachable.sleeps {m = about_to_sleep} 1
        (Reachable.begins {m = first_in} 1
          (Reachable.acquires {m = cv_create} 1 Reachable.create refl) refl refl)
        refl)
      refl

cv_broadcast_lem_example :
    Returns
      (λ m'. (u : ℕ) → (m'.stages u ≢ Stage.asleep) × (m'.stages u ≢ Stage.entering))
      (cv_broadcast second_in 2)
unfolding wait_sleep acquire_pass lock_release
cv_broadcast_lem_example = cv_broadcast_lem 2 second_in-Reachable refl refl
