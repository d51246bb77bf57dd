-- ===== src/Synch/Tests.antt =====
-- Threads 5 and 6 at a semaphore and at a lock of src/kern/thread/synch.c.
use ed_operating_system.Prelude.{refl, true, some, [], ◌∷◌, arith}
use ed_operating_system.Synch.{p_pass, acquire_pass}
use ed_operating_system.Synch.Semaphores
use ed_operating_system.Synch.Semaphores.{every_post_counts}
use ed_operating_system.Synch.Locks
use ed_operating_system.Synch.Locks.{mutual_exclusion}

-- The semaphore starts with the count 1: thread 5 gets through, and thread 6 sleeps.
abbrev one_sleeps : Semaphores.System
one_sleeps = record {
  semaphore = record { count = 0; waiting = 6 ∷ [] };
  trying = [];
  through = 1;
  posted = 0;
}

one_sleeps-Reachable : Semaphores.Reachable 1 one_sleeps
unfolding p_pass
one_sleeps-Reachable =
    let a =
      Semaphores.Reachable.next Semaphores.Reachable.start
        (Semaphores.Step.call (Semaphores.initial 1) 5) in
    let b = Semaphores.Reachable.next a (Semaphores.Step.pass _ [] [] 5 refl) in
    let c = Semaphores.Reachable.next b (Semaphores.Step.call _ 6) in
    Semaphores.Reachable.next c (Semaphores.Step.pass _ [] [] 6 refl)

every_post_counts_example : Semaphores.IsWf 1 one_sleeps
every_post_counts_example = every_post_counts (omega arith) one_sleeps-Reachable

-- Thread 5 has the lock, and thread 6 sleeps.
abbrev one_inside : Locks.System
one_inside = record {
  lock = record { taken = true; lk_holder = some 5; waiting = 6 ∷ [] };
  trying = [];
  inside = 5 ∷ [];
}

one_inside-Reachable : Locks.Reachable one_inside
unfolding acquire_pass
one_inside-Reachable =
    let a = Locks.Reachable.next Locks.Reachable.start (Locks.Step.call Locks.initial 5) in
    let b = Locks.Reachable.next a (Locks.Step.pass _ [] [] 5 refl) in
    let c = Locks.Reachable.next b (Locks.Step.call _ 6) in
    Locks.Reachable.next c (Locks.Step.pass _ [] [] 6 refl)

mutual_exclusion_example : Locks.IsWf one_inside
mutual_exclusion_example = mutual_exclusion one_inside-Reachable
