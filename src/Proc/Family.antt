-- ===== src/Proc/Family.antt =====
-- proc_exit of src/kern/proc/proc.c: the exit of a process, and the way of an exit code from a child
-- to its parent.
use mathlib.Core.Bool.{false≢true}
use ed_operating_system.Prelude.{
  ℕ, zero, suc, ◌+◌, ◌-◌, ◌≡◌, ◌≢◌, ◌∙◌, sym, ap, refl, subst, Bool, true, false, Option, none,
  some, List, [], ◌∷◌, ◌++◌, length, ◌==◌, ◌||◌, ==_refl, ==_iff, ==-ne, if◌then◌else◌, if_then,
  if_else, arith, Bool-cases, inl, inr, Result, ok, Outcome, ret, ◌>>=◌, Returns, Returns->>=,
  Returns-imp,
}
use ed_operating_system.Proc.{
  Heap, Proc, set_proc, exit_locked, System, is_free, find_pid, available, zombie, is_live,
  add_child, add_pid_entry, adopt_child, adopt, proc_exit, User, sys_waitpid, is_child, has_child,
}
use ed_operating_system.Proc.Inv.{
  IsWf, SameState, add_child-state, add_child-children, Added, add_pid_entry_lem,
}
use ed_operating_system.Proc.Wait.{Reaped, sys_waitpid_lem}

-- The children that are running, with status 5, or have exited and were not waited for, with status 4.
abbrev pub unreaped : ℕ → Bool
unreaped status = status == 4 || status == 5

unreaped-is_live : (c : Proc) → is_live c ≡ unreaped c.status
unreaped-is_live c = ground arith

abbrev pub live_children : Heap → List ℕ → List ℕ
live_children h [] = []
live_children h (c ∷ cs) =
    if unreaped (h c).status then c ∷ live_children h cs else live_children h cs

live_children-cong :
    (h h' : Heap)
    → ((q : ℕ) → SameState (h' q) (h q))
    → (cs : List ℕ) → live_children h' cs ≡ live_children h cs
live_children-cong h h' e [] = refl
live_children-cong h h' e (c ∷ cs) = rw ((e c).1, live_children-cong h h' e cs)

-- What handing children on to `master` means.
abbrev HandsOn : ℕ → List ℕ → Heap → Bool × Heap → Type 0
HandsOn master cs h r =
    (r.0 ≡ true)
    × ((q : ℕ) → SameState (r.1 q) (h q))
    × ((q : ℕ) → (r.1 q).children ≡ (if master == q then (h q).children ++ cs else (h q).children))

append-[] : (xs : List ℕ) → xs ++ [] ≡ xs
append-[] [] = refl
append-[] (x ∷ xs) = ap (λ ys. x ∷ ys) (append-[] xs)

append-one : (xs : List ℕ) (c : ℕ) (cs : List ℕ) → (xs ++ (c ∷ [])) ++ cs ≡ xs ++ (c ∷ cs)
append-one [] c cs = refl
append-one (x ∷ xs) c cs = ap (λ ys. x ∷ ys) (append-one xs c cs)

module _ (grow : ℕ → Bool) (fits : (n : ℕ) → grow n ≡ true) (master : ℕ) where
  add_child-true : (c : ℕ) (h : Heap) → (add_child grow master c h).0 ≡ true
  unfolding add_child
  add_child-true c h = rw (fits (length (h master).children + 1))

  HandsOn-cons :
      (c : ℕ) (cs : List ℕ) (h : Heap) (r : Bool × Heap)
      → HandsOn master
          (live_children (add_child grow master c h).1 cs)
          (add_child grow master c h).1
          r
      → HandsOn master (c ∷ live_children h cs) h r
  HandsOn-cons c cs h r (flag, state, kids) = (
    flag,
    λ q.
        let (a, b, d) = state q in
        let (a', b', d') = add_child-state grow master c h q in (a ∙ a', b ∙ b', d ∙ d'),
    λ q.
        let same =
          live_children-cong h (add_child grow master c h).1 (add_child-state grow master c h) cs in
        kids q ∙ moved q same (add_child-children grow master c h q fits),
  )
    where
      moved :
          (q : ℕ) {xs : List ℕ} {ks : List ℕ}
          → xs ≡ live_children h cs
          → ks ≡ (if master == q then (h q).children ++ (c ∷ []) else (h q).children)
          → (if master == q then ks ++ xs else ks)
            ≡ (if master == q then (h q).children ++ (c ∷ live_children h cs) else (h q).children)
      moved q e f = elim (Bool-cases (master == q)) [
        | inl same ↦ rw (same, e, f, same) (append-one (h q).children c (live_children h cs))
        | inr other ↦ rw (other, f, other)
      ]

  adopt_lem :
      (cs : List ℕ) (h : Heap)
      → Returns (HandsOn master (live_children h cs) h) (adopt grow (some master) cs h)
  unfolding adopt adopt_child
  adopt_lem [] h = (
    refl,
    λ q. (refl, refl, refl),
    λ q. elim (Bool-cases (master == q)) [
      | inl same ↦ rw same (sym (append-[] (h q).children))
      | inr other ↦ rw other
    ],
  )
  adopt_lem (c ∷ cs) h = elim (Bool-cases (is_live (h c))) [
    | inl live ↦
        rw (live, ← unreaped-is_live (h c), live, add_child-true c h)
          (Returns-imp
            (HandsOn master (live_children (add_child grow master c h).1 cs)
              (add_child grow master c h).1)
            (HandsOn master (c ∷ live_children h cs) h) (HandsOn-cons c cs h) _
            (adopt_lem cs (add_child grow master c h).1))
    | inr dead ↦ rw (dead, ← unreaped-is_live (h c), dead) (adopt_lem cs h)
  ]

-- What the exit of the process `p` with `code` means: its state says so, the table keeps its pointers
-- and its invariant, the states of the others stay, and the live children are handed on to `master`.
pub record Exited (pid_max master p code : ℕ) (s s' : System) : Type 0 where
  pub valid : IsWf pid_max s'
  pub table : (i : ℕ) → s'.procs i ≡ s.procs i
  pub dead : SameState (s'.heap p) (record (s.heap p) { status = zombie; exit_code = code })
  pub others : (q : ℕ) → q ≢ p → SameState (s'.heap q) (s.heap q)
  pub family :
      (q : ℕ)
      → (s'.heap q).children ≡ (
          if master == q
          then (s.heap q).children ++ live_children s.heap (s.heap p).children
          else (s.heap q).children)

-- Whether pids are free depends on the states of the processes.
find_pid-cong :
    (s s' : System)
    → ((i : ℕ) → is_free (s'.procs i) s'.heap ≡ is_free (s.procs i) s.heap)
    → (rounds i : ℕ) → find_pid s rounds i ≡ find_pid s' rounds i
unfolding find_pid
find_pid-cong s s' e zero i = refl
find_pid-cong s s' e (suc rounds) i = rw (e i, find_pid-cong s s' e rounds (i + 1))

module _ (pid_max master p code : ℕ) (s : System) (h : Heap) (wf : IsWf pid_max s)
    (alive : is_free (some p) s.heap ≡ false)
    (r : HandsOn master (live_children s.heap (s.heap p).children) s.heap (true, h)) where
  abbrev gone : System
  gone = record s { heap = set_proc h p (record (h p) { status = zombie; exit_code = code }) }

  gone-other : (q : ℕ) → q ≢ p → gone.heap q ≡ h q
  gone-other q ne = rw (==-ne p q (λ e. ne (sym e)))

  gone-pid : (q : ℕ) → (gone.heap q).pid ≡ (s.heap q).pid
  gone-pid q = elim (Bool-cases (p == q)) [
    | inl e ↦ rw e (ap (λ x. (h x).pid) ((==_iff p q).0 e) ∙ (r.1 q).0)
    | inr ne ↦ rw ne (r.1 q).0
  ]

  gone-children : (q : ℕ) → (gone.heap q).children ≡ (h q).children
  gone-children q = elim (Bool-cases (p == q)) [
    | inl e ↦ rw e (ap (λ x. (h x).children) ((==_iff p q).0 e))
    | inr ne ↦ rw ne
  ]

  gone-free : (q : ℕ) → is_free (some q) gone.heap ≡ is_free (some q) s.heap
  gone-free q = elim (Bool-cases (p == q)) [
    | inl e ↦ rw e (sym alive ∙ ap (λ x. is_free (some x) s.heap) ((==_iff p q).0 e))
    | inr ne ↦ rw (ne, (r.1 q).1)
  ]

  slot-free : (o : Option ℕ) → is_free o gone.heap ≡ is_free o s.heap
  slot-free none = refl
  slot-free (some q) = gone-free q

  gone-Exited : Exited pid_max master p code s gone
  gone-Exited = record {
    valid = record {
      lowest = wf.lowest ∙ find_pid-cong s gone (λ i. slot-free (s.procs i)) (pid_max - 2) 2;
      named = λ i q e taken. gone-pid q ∙ wf.named i q e (sym (gone-free q) ∙ taken);
      kernel = wf.kernel;
    };
    table = λ i. refl;
    dead = (gone-pid p, rw (==_refl p), rw (==_refl p));
    others = λ q ne. subst (λ x. SameState x (s.heap q)) (sym (gone-other q ne)) (r.1 q);
    family = λ q. gone-children q ∙ r.2 q;
  }

-- proc_exit of a process in use returns with the thread ended if arrays can grow: the process is a
-- zombie with the code, the invariant is kept, its children that run or are zombies, with status 5 or 4,
-- are appended to those of the process with pid 1, and no other process changes its state.
pub proc_exit_lem :
    (pid_max : ℕ) (grow : ℕ → Bool) (master p code : ℕ) (s : System)
    → IsWf pid_max s
    → ((n : ℕ) → grow n ≡ true)
    → s.procs 1 ≡ some master
    → is_free (some p) s.heap ≡ false
    → Returns (λ r. (r.0 ≡ true) × Exited pid_max master p code s r.1) (proc_exit grow p code s)
unfolding proc_exit exit_locked
proc_exit_lem pid_max grow master p code s wf fits kernel alive =
    subst (λ o. Returns Q (adopt grow o (s.heap p).children s.heap >>= end)) (sym kernel)
      (Returns->>= (HandsOn master (live_children s.heap (s.heap p).children) s.heap) Q
        (adopt grow (some master) (s.heap p).children s.heap) end
        (adopt_lem grow fits master (s.heap p).children s.heap) ended)
  where
    Q : Bool × System → Type 0
    Q r = (r.0 ≡ true) × Exited pid_max master p code s r.1

    end : Bool × Heap → Outcome (Bool × System)
    end r = ret (if r.0 then (true, exit_locked p code r.1 s) else (false, record s { heap = r.1 }))

    ended :
        (r : Bool × Heap)
        → HandsOn master (live_children s.heap (s.heap p).children) s.heap r
        → Returns Q (end r)
    ended (true, h) x = (refl, gone-Exited pid_max master p code s h wf alive x)
    ended (false, h) x = absurd (false≢true x.0)

-- A child in the list is found by its pid.
has_child-mid :
    (h : Heap) (xs ys : List ℕ) (c pid : ℕ)
    → (h c).pid ≡ pid
    → has_child h (xs ++ (c ∷ ys)) pid ≡ true
unfolding has_child
has_child-mid h [] ys c pid e = rw ((==_iff (h c).pid pid).1 e)
has_child-mid h (x ∷ xs) ys c pid e = rw (has_child-mid h xs ys c pid e) (ground arith)

-- The last child of a process stays a child when the process is handed more children.
is_child-after :
    (s : System) (parent c pid : ℕ) (b : Bool) (xs ys : List ℕ)
    → (s.heap parent).children ≡ (if b then (xs ++ (c ∷ [])) ++ ys else xs ++ (c ∷ []))
    → (s.heap c).pid ≡ pid
    → is_child parent pid s ≡ true
unfolding is_child
is_child-after s parent c pid true xs ys e f =
    ap (λ cs. has_child s.heap cs pid) (e ∙ append-one xs c ys) ∙ has_child-mid s.heap xs ys c pid f
is_child-after s parent c pid false xs ys e f =
    ap (λ cs. has_child s.heap cs pid) e ∙ has_child-mid s.heap xs [] c pid f

-- The parent's wait, once the child was entered and has exited.
abbrev pub Collected : {U : Type 0} → ℕ → ℕ → U → Result (Unit {0}) × System × U → Type 0
Collected pid_max child u2 w =
    (w.0 ≡ ok tt) × (w.2 ≡ u2) × IsWf pid_max w.1 × (is_free (some child) w.1.heap ≡ true)

parent_collects :
    {U : Type 0} (user : User U) (pid_max : ℕ) (grow : ℕ → Bool)
    (master parent child k code address : ℕ) (s s1 s2 : System) (u u1 u2 : U)
    → ((n : ℕ) → grow n ≡ true)
    → Added pid_max grow parent child k s s1
    → Exited pid_max master child code s1 s2
    → address ≢ 0
    → user.copyout 0 address u ≡ (ok tt, u1)
    → user.copyout code address u1 ≡ (ok tt, u2)
    → Returns (Collected pid_max child u2) (sys_waitpid user pid_max parent k address 0 s2 u)
parent_collects user pid_max grow master parent child k code address s s1 s2 u u1 u2 fits a x ne
      probe store =
    let kids : (s1.heap parent).children ≡ (s.heap parent).children ++ (child ∷ []) =
      a.family fits parent ∙ if_then _ _ (==_refl parent) in
    let kids2 : (s2.heap parent).children ≡ (
        if master == parent
        then ((s.heap parent).children ++ (child ∷ []))
          ++ live_children s1.heap (s1.heap child).children
        else (s.heap parent).children ++ (child ∷ [])) =
      x.family parent
      ∙ ap
          (λ ks.
            if master == parent then ks ++ live_children s1.heap (s1.heap child).children else ks)
          kids in
    let is_mine =
      is_child-after s2 parent child k (master == parent) (s.heap parent).children _ kids2
        (x.dead.0 ∙ a.started.0) in
    let at : s2.procs k ≡ some child = x.table k ∙ a.table k ∙ if_then _ _ (==_refl k) in
    Returns-imp (λ w. (w.0 ≡ ok tt) × Reaped pid_max child s2 w.1 × (w.2 ≡ u2))
      (Collected pid_max child u2)
      (λ w (answer, r, mem). (answer, mem, r.valid, ap (λ t. t == available) r.freed)) _
      (sys_waitpid_lem user pid_max parent k address child s2 u u1 u2 x.valid is_mine at x.dead.1 ne
        probe (ap (λ c. user.copyout c address u1) x.dead.2 ∙ store))

-- The way of an exit code: with the invariant of the table, a process that is not in it, is entered
-- under the lowest free pid, and exits with a code, is reaped by the parent's sys_waitpid of that pid,
-- which returns, stores the code at an address where copyout succeeds, and frees the process. It needs
-- a free pid, arrays that can grow and an address that is not NULL.
pub exit_code_reaches_parent :
    {U : Type 0} (user : User U) (pid_max : ℕ) (grow : ℕ → Bool) (parent child k code address : ℕ)
    (s : System) (u u1 u2 : U)
    → IsWf pid_max s
    → ((n : ℕ) → grow n ≡ true)
    → ((i : ℕ) → s.procs i ≢ some child)
    → s.first_free_pid ≡ some k
    → address ≢ 0
    → user.copyout 0 address u ≡ (ok tt, u1)
    → user.copyout code address u1 ≡ (ok tt, u2)
    → Returns
        (λ r.
          Returns (Collected pid_max child u2) (sys_waitpid user pid_max parent k address 0 r.1 u))
        (proc_exit grow child code (add_pid_entry pid_max grow parent child s).1)
exit_code_reaches_parent user pid_max grow parent child k code address s u u1 u2 wf fits fresh free
      ne probe store =
    let s1 = (add_pid_entry pid_max grow parent child s).1 in
    let (_, a) = add_pid_entry_lem pid_max grow parent child k s wf fresh free in
    let kernel : s1.procs 1 ≡ some wf.kernel.0 =
      a.table 1
      ∙ if_else (some child) (s.procs 1) (==-ne k 1 (λ e. omega (arith, a.in_range, e)))
      ∙ wf.kernel.1 in
    let alive : is_free (some child) s1.heap ≡ false = ap (λ x. x == available) a.started.1 in
    Returns-imp (λ r. (r.0 ≡ true) × Exited pid_max wf.kernel.0 child code s1 r.1)
      (λ r.
        Returns (Collected pid_max child u2) (sys_waitpid user pid_max parent k address 0 r.1 u))
      (λ r (_, x).
        parent_collects user pid_max grow wf.kernel.0 parent child k code address s s1 r.1 u u1 u2
          fits a x ne probe store)
      _ (proc_exit_lem pid_max grow wf.kernel.0 child code s1 a.valid fits kernel alive)
