-- ===== src/Proc/Wait.antt =====
-- proc_waitpid of src/kern/proc/proc.c and sys_waitpid of src/kern/syscall/psyscall.c: which waits
-- end, what they report, and what they free.
use ed_operating_system.Prelude.{
  ℕ, ◌≡◌, ◌≢◌, ◌∙◌, sym, ap, refl, subst, Bool, true, false, Option, some, List, [], ◌∷◌, ◌==◌,
  ==_refl, ==_iff, ==-ne, arith, Bool-cases, inl, inr, ok, blocked, ◌>>=◌, Returns, Returns->>=,
}
use mathlib.Core.Bool.{false≢true}
use ed_operating_system.Proc.{
  Heap, set_proc, System, is_free, find_first_free_pid, available, zombie, wait_for, proc_waitpid,
  User, copyout_if, report, sys_waitpid, is_child, has_child,
}
use ed_operating_system.Proc.Inv.{IsWf, refresh-IsWf}

-- What a wait that reaps the process `p` means: the table keeps its pointers, the process is marked
-- available, the others and all families stay.
pub record Reaped (pid_max p : ℕ) (s s' : System) : Type 0 where
  pub valid : IsWf pid_max s'
  pub table : (i : ℕ) → s'.procs i ≡ s.procs i
  pub freed : (s'.heap p).status ≡ available
  pub others : (q : ℕ) → q ≢ p → s'.heap q ≡ s.heap q
  pub pids : (q : ℕ) → (s'.heap q).pid ≡ (s.heap q).pid
  pub family : (q : ℕ) → (s'.heap q).children ≡ (s.heap q).children

module _ (pid_max p : ℕ) (s : System) where
  abbrev reaped : System
  reaped = record s { heap = set_proc s.heap p (record (s.heap p) { status = available }) }

  reaped-other : (q : ℕ) → q ≢ p → reaped.heap q ≡ s.heap q
  reaped-other q ne = rw (==-ne p q (λ e. ne (sym e)))

  reaped-named :
      IsWf pid_max s
      → (i q : ℕ) → s.procs i ≡ some q
      → is_free (some q) reaped.heap ≡ false
      → (reaped.heap q).pid ≡ i
  reaped-named wf i q e taken = elim (Bool-cases (p == q)) [
    | inl same ↦ absurd (false≢true (sym taken ∙ rw same))
    | inr other ↦
        let h : reaped.heap q ≡ s.heap q = rw other in
        ap (λ x. x.pid) h ∙ wf.named i q e (ap (λ x. x.status == available) (sym h) ∙ taken)
  ]

  reaped-Reaped : IsWf pid_max s → Reaped pid_max p s (find_first_free_pid pid_max reaped)
  unfolding find_first_free_pid
  reaped-Reaped wf = record {
    valid = refresh-IsWf pid_max reaped (reaped-named wf) wf.kernel;
    table = λ i. refl;
    freed = rw (==_refl p);
    others = reaped-other;
    pids = λ q. elim (Bool-cases (p == q)) [ inl e ↦ rw (e, (==_iff p q).0 e) | inr ne ↦ rw ne ];
    family = λ q. elim (Bool-cases (p == q)) [ inl e ↦ rw (e, (==_iff p q).0 e) | inr ne ↦ rw ne ];
  }

-- proc_waitpid of a process that has exited, asked to reap, returns its exit code and reaps it: the
-- invariant is kept, the process is marked available, and nothing else about any process changes.
pub proc_waitpid_lem :
    (pid_max pid p : ℕ) (s : System)
    → IsWf pid_max s
    → s.procs pid ≡ some p
    → (s.heap p).status ≡ zombie
    → Returns
        (λ r. (r.0 ≡ some (s.heap p).exit_code) × Reaped pid_max p s r.1)
        (proc_waitpid pid_max pid true s)
unfolding proc_waitpid wait_for
proc_waitpid_lem pid_max pid p s wf at dead =
    subst
      (λ o.
        Returns (λ r. (r.0 ≡ some (s.heap p).exit_code) × Reaped pid_max p s r.1)
          (wait_for pid_max o true s))
      (sym at) (rw dead (refl, reaped-Reaped pid_max p s wf))

-- proc_waitpid of a process that has not exited, or has been reaped, does not return.
pub proc_waitpid-blocked :
    (pid_max pid p : ℕ) (can_reap : Bool) (s : System)
    → s.procs pid ≡ some p
    → (s.heap p).status ≢ zombie
    → proc_waitpid pid_max pid can_reap s ≡ blocked
unfolding proc_waitpid wait_for
proc_waitpid-blocked pid_max pid p can_reap s at live =
    ap (λ o. wait_for pid_max o can_reap s) at ∙ rw (==-ne (s.heap p).status zombie live)

-- The search among children reads pids and children only.
has_child-cong :
    (h h' : Heap)
    → ((q : ℕ) → (h' q).pid ≡ (h q).pid)
    → (cs : List ℕ) (pid : ℕ) → has_child h' cs pid ≡ has_child h cs pid
unfolding has_child
has_child-cong h h' e [] pid = refl
has_child-cong h h' e (c ∷ cs) pid = rw (e c, has_child-cong h h' e cs pid)

is_child-cong :
    (s s' : System)
    → ((q : ℕ) → (s'.heap q).pid ≡ (s.heap q).pid)
    → ((q : ℕ) → (s'.heap q).children ≡ (s.heap q).children)
    → (parent pid : ℕ) → is_child parent pid s' ≡ is_child parent pid s
unfolding is_child
is_child-cong s s' e f parent pid =
    ap (λ cs. has_child s'.heap cs pid) (f parent)
    ∙ has_child-cong s.heap s'.heap e (s.heap parent).children pid

module _ {U : Type 0} (user : User U) where
  -- sys_waitpid of a child, past its tests.
  sys_waitpid-child :
      (pid_max curproc pid address : ℕ) (s : System) (u u1 : U)
      → is_child curproc pid s ≡ true
      → address ≢ 0
      → user.copyout 0 address u ≡ (ok tt, u1)
      → sys_waitpid user pid_max curproc pid address 0 s u
        ≡ (proc_waitpid pid_max pid true s >>= report user address u1)
  unfolding sys_waitpid copyout_if
  sys_waitpid-child pid_max curproc pid address s u u1 child ne probe =
      rw (==-ne address 0 ne, probe, child)

  -- With the invariant of the table, sys_waitpid with options 0 on a child that has exited, with an
  -- address where copyout succeeds, stores the exit code there, returns success and reaps the child.
  pub sys_waitpid_lem :
      (pid_max curproc pid address p : ℕ) (s : System) (u u1 u2 : U)
      → IsWf pid_max s
      → is_child curproc pid s ≡ true
      → s.procs pid ≡ some p
      → (s.heap p).status ≡ zombie
      → address ≢ 0
      → user.copyout 0 address u ≡ (ok tt, u1)
      → user.copyout (s.heap p).exit_code address u1 ≡ (ok tt, u2)
      → Returns
          (λ r. (r.0 ≡ ok tt) × Reaped pid_max p s r.1 × (r.2 ≡ u2))
          (sys_waitpid user pid_max curproc pid address 0 s u)
  unfolding report copyout_if
  sys_waitpid_lem pid_max curproc pid address p s u u1 u2 wf child at dead ne probe store =
      rw (sys_waitpid-child pid_max curproc pid address s u u1 child ne probe) (
        Returns->>= (λ r. (r.0 ≡ some (s.heap p).exit_code) × Reaped pid_max p s r.1)
          (λ r. (r.0 ≡ ok tt) × Reaped pid_max p s r.1 × (r.2 ≡ u2))
          (proc_waitpid pid_max pid true s) (report user address u1)
          (proc_waitpid_lem pid_max pid p s wf at dead) (λ r (code, reap). reported r code reap))
    where
      reported :
          (r : Option ℕ × System)
          → r.0 ≡ some (s.heap p).exit_code
          → Reaped pid_max p s r.1
          → Returns
              (λ x. (x.0 ≡ ok tt) × Reaped pid_max p s x.1 × (x.2 ≡ u2))
              (report user address u1 r)
      reported r code reap = rw (code, ==-ne address 0 ne, store) (refl, reap, refl)

  -- In the state that reaping a child leaves, the parent still has it among its children: a sys_waitpid of
  -- the same pid, with no options and an address where copyout succeeds, does not return ECHILD but waits.
  pub sys_waitpid-twice :
      (pid_max curproc pid address p : ℕ) (s s' : System) (u u1 : U)
      → is_child curproc pid s ≡ true
      → s.procs pid ≡ some p
      → Reaped pid_max p s s'
      → address ≢ 0
      → user.copyout 0 address u ≡ (ok tt, u1)
      → sys_waitpid user pid_max curproc pid address 0 s' u ≡ blocked
  sys_waitpid-twice pid_max curproc pid address p s s' u u1 child at r ne probe =
      sys_waitpid-child pid_max curproc pid address s' u u1
        (is_child-cong s s' r.pids r.family curproc pid ∙ child) ne probe
      ∙ ap (λ o. o >>= report user address u1)
          (proc_waitpid-blocked pid_max pid p true s' (r.table pid ∙ at)
            (λ e. omega (arith, r.freed, e)))
