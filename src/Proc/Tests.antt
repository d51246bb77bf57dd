-- ===== src/Proc/Tests.antt =====
-- The kernel's process (at address 7) and its first child (at address 8) in a table for pids below
-- 10, put through the calls of src/kern/proc/proc.c and src/kern/syscall/psyscall.c.
use ed_operating_system.Prelude.{
  ℕ, ◌==◌, ==_iff, if◌then◌else◌, ◌≡◌, ◌≢◌, Bool, true, Option, none, some, [], ◌∷◌, arith, Outcome,
  ret, panic, blocked, Returns, refl, ok,
}
use ed_operating_system.Proc.{
  Heap, System, User, pid_table_init, add_pid_entry, find_pid, proc_exit, proc_waitpid, wait_for,
  sys_waitpid, is_child, has_child, zombie, running,
}
use ed_operating_system.Proc.Inv.{IsWf, Added, pid_table_init_lem, add_pid_entry_lem}
use ed_operating_system.Proc.Wait.{Reaped, proc_waitpid_lem, sys_waitpid_lem, sys_waitpid-twice}
use ed_operating_system.Proc.Family.{Exited, proc_exit_lem, exit_code_reaches_parent, Collected}

abbrev blank : Heap
blank p = record { pid = 0; status = running; exit_code = 0; children = [] }

abbrev booted : System
booted = pid_table_init 7 blank

booted-IsWf : IsWf 10 booted
booted-IsWf = pid_table_init_lem 10 7 blank (omega arith)

fresh : (i : ℕ) → booted.procs i ≢ some 8
unfolding pid_table_init
fresh i e = ground (arith, e)

abbrev always : ℕ → Bool
always n = true

add_pid_entry_lem_example :
    ((add_pid_entry 10 always 7 8 booted).0 ≡ ok tt)
    × Added 10 always 7 8 2 booted (add_pid_entry 10 always 7 8 booted).1
unfolding pid_table_init
add_pid_entry_lem_example = add_pid_entry_lem 10 always 7 8 2 booted booted-IsWf fresh refl

-- User memory of one cell, where every copyout succeeds.
abbrev one_cell : User ℕ
one_cell = record { copyout = λ value address u. (ok tt, value) }

proc_exit_lem_example :
    Returns (λ r. (r.0 ≡ true) × Exited 10 7 7 42 booted r.1) (proc_exit always 7 42 booted)
unfolding pid_table_init
proc_exit_lem_example = proc_exit_lem 10 always 7 7 42 booted booted-IsWf (λ n. refl) refl refl

exit_code_reaches_parent_example :
    Returns
      (λ r. Returns (Collected 10 8 42) (sys_waitpid one_cell 10 7 2 64 0 r.1 0))
      (proc_exit always 8 42 (add_pid_entry 10 always 7 8 booted).1)
unfolding pid_table_init
exit_code_reaches_parent_example =
    exit_code_reaches_parent one_cell 10 always 7 8 2 42 64 booted 0 0 42 booted-IsWf (λ n. refl)
      fresh refl (λ e. omega (arith, e)) refl refl

-- A child with pid 2 that has exited with code 42.
abbrev child_gone : System
child_gone = record {
  first_free_pid = some 3;
  procs = λ i. if i == 1 then some 7 else if i == 2 then some 8 else none;
  heap = λ p.
      if p == 7
      then record { pid = 1; status = running; exit_code = 0; children = 8 ∷ [] }
      else record { pid = 2; status = zombie; exit_code = 42; children = [] };
}

child_gone-IsWf : IsWf 10 child_gone
unfolding find_pid
child_gone-IsWf = record {
  lowest = refl;
  named = λ i p e taken. ground (arith, ==_iff i 1, ==_iff i 2);
  kernel = (7, refl);
}

sys_waitpid_lem_example :
    Returns
      (λ r. (r.0 ≡ ok tt) × Reaped 10 8 child_gone r.1 × (r.2 ≡ 42))
      (sys_waitpid one_cell 10 7 2 64 0 child_gone 0)
unfolding is_child has_child
sys_waitpid_lem_example =
    sys_waitpid_lem one_cell 10 7 2 64 8 child_gone 0 0 42 child_gone-IsWf refl refl refl
      (λ e. omega (arith, e)) refl refl

-- The state that a call leaves.
abbrev outcome_or : System → Outcome (Option ℕ × System) → System
outcome_or s (ret r) = r.1
outcome_or s panic = s
outcome_or s blocked = s

abbrev child_reaped : System
child_reaped = outcome_or child_gone (proc_waitpid 10 2 true child_gone)

sys_waitpid-twice_example : sys_waitpid one_cell 10 7 2 64 0 child_reaped 0 ≡ blocked
unfolding is_child has_child proc_waitpid wait_for
sys_waitpid-twice_example =
    sys_waitpid-twice one_cell 10 7 2 64 8 child_gone child_reaped 0 0 refl refl
      (proc_waitpid_lem 10 2 8 child_gone child_gone-IsWf refl refl).1 (λ e. omega (arith, e)) refl
