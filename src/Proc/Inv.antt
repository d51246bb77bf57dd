-- ===== src/Proc/Inv.antt =====
-- The invariant of the pid table of src/kern/proc/proc.c, and what findFirstFreePid, addPidEntry and
-- pid_table_init do for it.
use native.Mathlib.Decide.{ℕ_discrete}
use ed_operating_system.Prelude.{
  ℕ, zero, suc, ◌+◌, ◌-◌, ◌≤◌, ◌<◌, ◌≡◌, ◌≢◌, ◌∙◌, sym, ap, refl, subst, Bool, true, false, Option,
  none, some, [], ◌∷◌, ◌++◌, length, ◌==◌, ==_refl, ==_iff, ==-ne, if◌then◌else◌, if_then, if_else,
  arith, Bool-cases, inl, inr, ok,
}
use ed_operating_system.Proc.{
  Proc, Heap, set_proc, System, is_free, find_pid, find_first_free_pid, pid_table_init, add_child,
  add_pid_at, add_pid_entry, available, running,
}

-- The first pid from `i` on, among `rounds`, that is free, has every pid before it taken.
pub find_pid-some :
    (s : System) (rounds i k : ℕ)
    → find_pid s rounds i ≡ some k
    → (i ≤ k)
      × (k < rounds + i)
      × (is_free (s.procs k) s.heap ≡ true)
      × ((j : ℕ) → i ≤ j → j < k → is_free (s.procs j) s.heap ≡ false)
unfolding find_pid
find_pid-some s zero i k h = cc
find_pid-some s (suc rounds) i k h = elim (Bool-cases (is_free (s.procs i) s.heap)) [
  | inl free ↦
      let e : i ≡ k = ground arith in
      (
        omega arith,
        omega arith,
        subst (λ x. is_free (s.procs x) s.heap ≡ true) e free,
        λ j lo hi. absurd (omega arith),
      )
  | inr taken ↦
      let (a, b, c, d) = find_pid-some s rounds (i + 1) k (ground arith) in
      (
        omega arith,
        omega arith,
        c,
        λ j lo hi. elim (ℕ_discrete i j) [ yes e ↦ rw (← e) taken | no ne ↦ d j (omega arith) hi ],
      )
]

pub find_pid-none :
    (s : System) (rounds i : ℕ)
    → find_pid s rounds i ≡ none
    → (j : ℕ) → i ≤ j
    → j < rounds + i
    → is_free (s.procs j) s.heap ≡ false
unfolding find_pid
find_pid-none s zero i h j lo hi = absurd (omega arith)
find_pid-none s (suc rounds) i h j lo hi = elim (Bool-cases (is_free (s.procs i) s.heap)) [
  | inl free ↦ absurd (ground arith)
  | inr taken ↦ elim (ℕ_discrete i j) [
    | yes e ↦ rw (← e) taken
    | no ne ↦ find_pid-none s rounds (i + 1) (ground arith) j (omega arith) (omega arith)
  ]
]

-- The table knows its lowest free pid, the process at a taken pid carries that pid, and the pid 1 is
-- that of the kernel's process.
pub record IsWf (pid_max : ℕ) (s : System) : Type 0 where
  pub lowest : s.first_free_pid ≡ find_pid s (pid_max - 2) 2
  pub named : (i p : ℕ) → s.procs i ≡ some p → is_free (some p) s.heap ≡ false → (s.heap p).pid ≡ i
  pub kernel : (p : ℕ) × (s.procs 1 ≡ some p)

-- The search does not read the field that it is stored in.
find_pid-field :
    (s : System) (o : Option ℕ) (rounds i : ℕ)
    → find_pid s rounds i ≡ find_pid (record s { first_free_pid = o }) rounds i
unfolding find_pid
find_pid-field s o zero i = refl
find_pid-field s o (suc rounds) i = rw (find_pid-field s o rounds (i + 1))

some-inj : {a b : ℕ} → some a ≡ some b → a ≡ b
some-inj e = cc

-- The invariant after findFirstFreePid, from the rest of it before.
pub refresh-IsWf :
    (pid_max : ℕ) (s : System)
    → ((i p : ℕ) → s.procs i ≡ some p → is_free (some p) s.heap ≡ false → (s.heap p).pid ≡ i)
    → (p : ℕ) × (s.procs 1 ≡ some p)
    → IsWf pid_max (find_first_free_pid pid_max s)
unfolding find_first_free_pid
refresh-IsWf pid_max s named kernel = record {
  lowest = find_pid-field s _ (pid_max - 2) 2;
  named = named;
  kernel = kernel;
}

-- Two processes that differ in their children only.
abbrev pub SameState : Proc → Proc → Type 0
SameState a b = (a.pid ≡ b.pid) × (a.status ≡ b.status) × (a.exit_code ≡ b.exit_code)

-- Adding a child changes the children of the parent only, and it does add the child if it can.
pub add_child-state :
    (grow : ℕ → Bool) (parent child : ℕ) (h : Heap) (q : ℕ)
    → SameState ((add_child grow parent child h).1 q) (h q)
unfolding add_child
add_child-state grow parent child h q = elim (Bool-cases (grow (length (h parent).children + 1))) [
  | inl fits ↦ elim (Bool-cases (parent == q)) [
    | inl same ↦ rw (fits, same, ← (==_iff parent q).0 same) (refl, refl, refl)
    | inr other ↦ rw (fits, other) (refl, refl, refl)
  ]
  | inr full ↦ rw full (refl, refl, refl)
]

pub add_child-children :
    (grow : ℕ → Bool) (parent child : ℕ) (h : Heap) (q : ℕ)
    → ((n : ℕ) → grow n ≡ true)
    → ((add_child grow parent child h).1 q).children
      ≡ (if parent == q then (h q).children ++ (child ∷ []) else (h q).children)
unfolding add_child
add_child-children grow parent child h q fits = elim (Bool-cases (parent == q)) [
  | inl same ↦ rw (fits (length (h parent).children + 1), same, ← (==_iff parent q).0 same)
  | inr other ↦ rw (fits (length (h parent).children + 1), other)
]

-- What addPidEntry means if it succeeds with the pid `k`.
pub record Added (pid_max : ℕ) (grow : ℕ → Bool) (curproc child k : ℕ) (s s' : System)
    : Type 0 where
  pub in_range : (2 ≤ k) × (k < pid_max)
  pub was_free : is_free (s.procs k) s.heap ≡ true
  pub is_lowest : (j : ℕ) → 2 ≤ j → j < k → is_free (s.procs j) s.heap ≡ false
  pub valid : IsWf pid_max s'
  pub table : (i : ℕ) → s'.procs i ≡ (if k == i then some child else s.procs i)
  pub started :
      SameState (s'.heap child) (record { pid = k; status = running; exit_code = 0; children = [] })
  pub others : (q : ℕ) → q ≢ child → SameState (s'.heap q) (s.heap q)
  pub family :
      ((n : ℕ) → grow n ≡ true)
      → (q : ℕ)
      → (s'.heap q).children
        ≡ (if curproc == q then (s.heap q).children ++ (child ∷ []) else (s.heap q).children)

-- The state that addPidEntry builds before it looks for the next free pid.
module _ (pid_max : ℕ) (grow : ℕ → Bool) (curproc child k : ℕ) (s : System) where
  abbrev placed : Heap
  placed =
      set_proc s.heap child (record (s.heap child) { pid = k; status = running; exit_code = 0 })

  abbrev added : System
  added = record s {
    procs = λ i. if k == i then some child else s.procs i;
    heap = (add_child grow curproc child placed).1;
  }

  placed-other : (q : ℕ) → q ≢ child → placed q ≡ s.heap q
  placed-other q ne = rw (==-ne child q (λ e. ne (sym e)))

  added-other : (q : ℕ) → q ≢ child → SameState (added.heap q) (s.heap q)
  added-other q ne =
      subst (SameState (added.heap q)) (placed-other q ne)
        (add_child-state grow curproc child placed q)

  added-started :
      SameState
        (added.heap child)
        (record { pid = k; status = running; exit_code = 0; children = [] })
  added-started =
      let (a, b, c) = add_child-state grow curproc child placed child in
      (a ∙ rw (==_refl child), b ∙ rw (==_refl child), c ∙ rw (==_refl child))

  added-family :
      ((n : ℕ) → grow n ≡ true)
      → (q : ℕ)
      → (added.heap q).children
        ≡ (if curproc == q then (s.heap q).children ++ (child ∷ []) else (s.heap q).children)
  added-family fits q =
      let same : (placed q).children ≡ (s.heap q).children = elim (Bool-cases (child == q)) [
        | inl e ↦ rw (e, (==_iff child q).0 e)
        | inr ne ↦ rw ne
      ] in
      add_child-children grow curproc child placed q fits
      ∙ ap (λ cs. if curproc == q then cs ++ (child ∷ []) else cs) same

  module _ (wf : IsWf pid_max s) (fresh : (i : ℕ) → s.procs i ≢ some child)
      (free : s.first_free_pid ≡ some k) where
    found :
        (2 ≤ k)
        × (k < pid_max - 2 + 2)
        × (is_free (s.procs k) s.heap ≡ true)
        × ((j : ℕ) → 2 ≤ j → j < k → is_free (s.procs j) s.heap ≡ false)
    found = find_pid-some s (pid_max - 2) 2 k (sym wf.lowest ∙ free)

    added-named :
        (i p : ℕ)
        → added.procs i ≡ some p
        → is_free (some p) added.heap ≡ false
        → (added.heap p).pid ≡ i
    added-named i p e taken = elim (ℕ_discrete p child) [
      | yes same ↦ elim (ℕ_discrete k i) [
        | yes at ↦ rw same (added-started.0 ∙ at)
        | no off ↦
            absurd
              (fresh i (sym (if_else (some child) (s.procs i) (==-ne k i off)) ∙ e ∙ ap some same))
      ]
      | no ne ↦
          let (a, b, c) = added-other p ne in
          let off : k ≢ i =
            λ at. ne (some-inj (sym e ∙ if_then (some child) (s.procs i) ((==_iff k i).1 at))) in
          let old = sym (if_else (some child) (s.procs i) (==-ne k i off)) ∙ e in
          a ∙ wf.named i p old (ap (λ x. x == available) (sym b) ∙ taken)
    ]

    added-Added : Added pid_max grow curproc child k s (find_first_free_pid pid_max added)
    unfolding find_first_free_pid
    added-Added = record {
      in_range = let (lo, hi, _, _) = found in (lo, omega arith);
      was_free = found.2;
      is_lowest = found.3;
      valid =
          refresh-IsWf pid_max added added-named
            (wf.kernel.0, rw (==-ne k 1 (λ e. omega (arith, found.0))) wf.kernel.1);
      table = λ i. refl;
      started = added-started;
      others = added-other;
      family = added-family;
    }

-- addPidEntry of a process that is not in the table, with the invariant and a free pid, gives it the
-- lowest free pid of at least 2, marks it running and keeps the invariant. The states of the other
-- processes stay as they are, and if arrays can grow, the process becomes the last child of the
-- current one.
pub add_pid_entry_lem :
    (pid_max : ℕ) (grow : ℕ → Bool) (curproc child k : ℕ) (s : System)
    → IsWf pid_max s
    → ((i : ℕ) → s.procs i ≢ some child)
    → s.first_free_pid ≡ some k
    → ((add_pid_entry pid_max grow curproc child s).0 ≡ ok tt)
      × Added pid_max grow curproc child k s (add_pid_entry pid_max grow curproc child s).1
unfolding add_pid_entry add_pid_at
add_pid_entry_lem pid_max grow curproc child k s wf fresh free =
    subst
      (λ o.
        ((add_pid_at pid_max grow o curproc child s).0 ≡ ok tt)
        × Added pid_max grow curproc child k s (add_pid_at pid_max grow o curproc child s).1)
      (sym free) (refl, added-Added pid_max grow curproc child k s wf fresh free)

-- pid_table_init leaves a table with the invariant, if PID_MAX is at least 3: the only process is the
-- kernel's, with pid 1.
pub pid_table_init_lem :
    (pid_max kproc : ℕ) (h : Heap) → 3 ≤ pid_max → IsWf pid_max (pid_table_init kproc h)
unfolding pid_table_init find_pid
pid_table_init_lem pid_max kproc h many = record {
  lowest = let rounds : pid_max - 2 ≡ suc (pid_max - 3) = omega arith in rw rounds;
  named = λ i p e taken. ground (arith, ==_iff i 1);
  kernel = (kproc, refl);
}
