-- ===== src/Proc.antt =====
-- Processes: the pid table and the process calls of src/kern/proc/proc.c and the calls of
-- src/kern/syscall/psyscall.c on it. The calls run one after another: what the source does before it
-- takes the lock of the table, like the loop of proc_exit over the children, and what it does in several
-- critical sections, like sys_waitpid's test for a child, its wait and the reaping, stand here in the
-- source's order with no other call between them. `blocked` is a wait on the condition variable of the table; a call
-- that is woken reads `procs[pid]` again, so it goes on as `proc_waitpid` in the state it then finds.
pub mod Inv
pub mod Wait
pub mod Family
mod Tests
use ed_operating_system.Prelude.{
  ℕ, zero, suc, ◌+◌, ◌-◌, Bool, true, false, ◌||◌, not, Option, none, some, List, [], ◌∷◌, ◌++◌,
  length, ◌==◌, if◌then◌else◌, Outcome, ret, panic, blocked, ◌>>=◌, Result, ok, err, Errno,
}

-- The values of `status`, as psyscall.c and proc.c define them.
abbrev pub available : ℕ
available = 1

abbrev pub zombie : ℕ
zombie = 4

abbrev pub running : ℕ
running = 5

-- The fields of `struct proc` that the process calls use; `children` holds pointers.
pub record Proc : Type 0 where
  pub pid : ℕ
  pub status : ℕ
  pub exit_code : ℕ
  pub children : List ℕ

-- The processes, by their address.
abbrev pub Heap : Type 0
Heap = ℕ → Proc

abbrev pub set_proc : Heap → ℕ → Proc → Heap
set_proc h p x q = if p == q then x else h q

-- `struct pid_table` (NULL and -1 are `none`), and the processes it points to.
pub record System : Type 0 where
  pub first_free_pid : Option ℕ
  pub procs : ℕ → Option ℕ
  pub heap : Heap

-- `!procs[i] || procs[i]->status == AVAILABLE`
abbrev pub is_free : Option ℕ → Heap → Bool
is_free none h = true
is_free (some p) h = (h p).status == available

-- The loop of `findFirstFreePid`.
unfoldable pub find_pid : System → ℕ → ℕ → Option ℕ
find_pid s zero i = none
find_pid s (suc rounds) i =
    let rest = find_pid s rounds (i + 1) in if is_free (s.procs i) s.heap then some i else rest

-- `findFirstFreePid`; `pid_max` is PID_MAX.
unfoldable pub find_first_free_pid : ℕ → System → System
find_first_free_pid pid_max s = record s { first_free_pid = find_pid s (pid_max - 2) 2 }

-- `pid_table_init`, given the address of the kernel's process; the entry 0 is not set by the source,
-- nor read.
unfoldable pub pid_table_init : ℕ → Heap → System
pid_table_init kproc h = record {
  first_free_pid = some 2;
  procs = λ i. if i == 1 then some kproc else none;
  heap = set_proc h kproc (record (h kproc) { pid = 1 });
}

-- `array_add` to the children of a process; `grow n` says whether an array can become `n` long.
unfoldable pub add_child : (ℕ → Bool) → ℕ → ℕ → Heap → Bool × Heap
add_child grow parent child h =
    if grow (length (h parent).children + 1)
    then (
      true,
      set_proc h parent (record (h parent) { children = (h parent).children ++ (child ∷ []) }),
    )
    else (false, h)

-- `addPidEntry` at the value of `firstFreePid`; the result of `array_add` is not looked at.
unfoldable pub add_pid_at : ℕ → (ℕ → Bool) → Option ℕ → ℕ → ℕ → System → Result (Unit {0}) × System
add_pid_at pid_max grow none curproc child s = (err Errno.enproc, s)
add_pid_at pid_max grow (some k) curproc child s =
    let h1 =
      set_proc s.heap child (record (s.heap child) { pid = k; status = running; exit_code = 0 }) in
    let h2 = (add_child grow curproc child h1).1 in
    let s' = record s { procs = λ i. if k == i then some child else s.procs i; heap = h2 } in
    (ok tt, find_first_free_pid pid_max s')

-- `addPidEntry`
unfoldable pub add_pid_entry : ℕ → (ℕ → Bool) → ℕ → ℕ → System → Result (Unit {0}) × System
add_pid_entry pid_max grow curproc child s =
    add_pid_at pid_max grow s.first_free_pid curproc child s

-- The loop of `getChild` over the children: the child with that pid.
unfoldable pub find_child : Heap → List ℕ → ℕ → Option ℕ
find_child h [] pid = none
find_child h (c ∷ cs) pid =
    let rest = find_child h cs pid in if (h c).pid == pid then some c else rest

-- `getChild`
unfoldable pub get_child : ℕ → ℕ → System → Option ℕ
get_child parent pid s = find_child s.heap (s.heap parent).children pid

-- The loop of `isChild`.
unfoldable pub has_child : Heap → List ℕ → ℕ → Bool
has_child h [] pid = false
has_child h (c ∷ cs) pid = (h c).pid == pid || has_child h cs pid

-- `isChild`
unfoldable pub is_child : ℕ → ℕ → System → Bool
is_child parent pid s = has_child s.heap (s.heap parent).children pid

-- `getStatus`, which follows the pointer of `getChild` unchecked.
unfoldable pub status_of : Option ℕ → System → Outcome ℕ
status_of none s = panic
status_of (some c) s = ret (s.heap c).status

unfoldable pub get_status : ℕ → ℕ → System → Outcome ℕ
get_status parent pid s = status_of (get_child parent pid s) s

-- The children that `proc_exit` hands on.
abbrev pub is_live : Proc → Bool
is_live c = c.status == running || c.status == zombie

-- One round of the loop of `proc_exit`: a live child goes to the process with pid 1. The flag is
-- false if the array could not grow.
unfoldable pub adopt_child : (ℕ → Bool) → Option ℕ → ℕ → Heap → Outcome (Bool × Heap)
adopt_child grow none c h = if is_live (h c) then panic else ret (true, h)
adopt_child grow (some master) c h =
    ret (if is_live (h c) then add_child grow master c h else (true, h))

unfoldable pub adopt : (ℕ → Bool) → Option ℕ → List ℕ → Heap → Outcome (Bool × Heap)
adopt grow master [] h = ret (true, h)
adopt grow master (c ∷ cs) h = do
  r ← adopt_child grow master c h
  let rest = adopt grow master cs r.1
  if r.0 then rest else ret r

-- The part of `proc_exit` under the lock of the table: the process becomes a zombie with its code.
unfoldable pub exit_locked : ℕ → ℕ → Heap → System → System
exit_locked p code h s = record s {
  heap = set_proc h p (record (h p) { status = zombie; exit_code = code });
}

-- `proc_exit`: the loop over the children, which does not hold the lock, and then the part that does.
-- The flag says whether the thread ended: where an array could not grow, the function returns to its
-- caller.
unfoldable pub proc_exit : (ℕ → Bool) → ℕ → ℕ → System → Outcome (Bool × System)
proc_exit grow p code s = do
  r ← adopt grow (s.procs 1) (s.heap p).children s.heap
  ret (if r.0 then (true, exit_locked p code r.1 s) else (false, record s { heap = r.1 }))

-- `proc_waitpid` on the process that the entry `pid` points to. The answer is what it stores in
-- `*exitcode`, if anything.
unfoldable pub wait_for : ℕ → Option ℕ → Bool → System → Outcome (Option ℕ × System)
wait_for pid_max none can_reap s = panic
wait_for pid_max (some p) can_reap s =
    if (s.heap p).status == zombie
    then ret (
        if can_reap
        then (
          some (s.heap p).exit_code,
          find_first_free_pid pid_max
              (record s { heap = set_proc s.heap p (record (s.heap p) { status = available }) }),
        )
        else (none, s))
    else blocked

unfoldable pub proc_waitpid : ℕ → ℕ → Bool → System → Outcome (Option ℕ × System)
proc_waitpid pid_max pid can_reap s = wait_for pid_max (s.procs pid) can_reap s

-- What the process calls use of the code that copies to user memory.
pub record User (U : Type 0) : Type 0 where
  -- copyout of a 32-bit value to an address.
  pub copyout : ℕ → ℕ → U → Result (Unit {0}) × U

abbrev pub code_or_zero : Option ℕ → ℕ
code_or_zero none = 0
code_or_zero (some code) = code

abbrev pub succeeded {ℓ} : {A : Type ℓ} → Result A → Bool
succeeded (ok a) = true
succeeded (err e) = false

module _ {U : Type 0} (user : User U) where
  -- A copyout to an address that may be NULL.
  unfoldable pub copyout_if : ℕ → ℕ → U → Result (Unit {0}) × U
  copyout_if code address u = if address == 0 then (ok tt, u) else user.copyout code address u

  -- `sys_waitpid` after its tests.
  unfoldable pub report : ℕ → U → Option ℕ × System → Outcome (Result (Unit {0}) × System × U)
  report address u (code, s) = let r = copyout_if (code_or_zero code) address u in ret (r.0, s, r.1)

  -- `sys_waitpid`: a first copyout probes the address, and only a process whose exit code can be
  -- stored is reaped.
  unfoldable pub sys_waitpid :
      ℕ → ℕ → ℕ → ℕ → ℕ → System → U → Outcome (Result (Unit {0}) × System × U)
  sys_waitpid pid_max curproc pid address options s u =
      let probe = copyout_if 0 address u in
      let can_reap = if address == 0 then false else succeeded probe.0 in
      if not (options == 0)
      then ret (err Errno.einval, s, u)
      else if is_child curproc pid s
      then (proc_waitpid pid_max pid can_reap s >>= report address probe.1)
      else ret (err Errno.echild, s, probe.1)
