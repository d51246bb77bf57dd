-- ===== src/Files/Close.antt =====
-- sys_close and sys_dup2 of src/kern/syscall/fsyscall.c against the map of descriptors.
use ed_operating_system.Prelude.{
  ℕ, ◌^◌, ◌≤◌, ◌<◌, ◌≡◌, ◌≢◌, sym, ap, refl, fun_ext, subst, Bool, true, false, none, not, ◌==◌,
  ==_refl, ==_iff, ==-ne, if◌then◌else◌, lt→ltb, le→ltb, ret, panic, Returns, Returns-imp,
  Returns->>=, arith, Bool-cases, inl, inr, Result, ok, err, Errno, ◌>>=◌,
}
use ed_operating_system.Files.{Mem, update, FileTable, entry, release, open_max}
use ed_operating_system.Files.Table.{clean_fd}
use ed_operating_system.Files.Calls.{close_locked, sys_close, close_for_dup, sys_dup2}
use ed_operating_system.Files.Inv.{IsWf, release-acquire}
use ed_operating_system.Files.Slots.{Assigns, clean_fd_lem, DupPost, add_dup_entry_lem}

-- What sys_close means: EBADF with no change for a closed descriptor, else the descriptor is closed.
abbrev pub CloseCase : Bool → FileTable → Mem → ℕ → Result (Unit {0}) × FileTable × Mem → Type 0
CloseCase false ft m fd r = r ≡ (err Errno.ebadf, ft, m)
CloseCase true ft m fd r = (r.0 ≡ ok tt) × Assigns ft m fd none r.1 r.2

abbrev pub ClosePost : FileTable → Mem → ℕ → Result (Unit {0}) × FileTable × Mem → Type 0
ClosePost ft m fd = CloseCase (entry ft m fd).flag ft m fd

-- With the invariant of the table, sys_close of a descriptor in range returns. It gives EBADF with
-- nothing changed for a closed descriptor, else it closes the descriptor and changes no other.
pub sys_close_lem :
    {ft : FileTable} {m : Mem} (fd : ℕ)
    → IsWf ft m
    → fd < open_max
    → Returns (ClosePost ft m fd) (sys_close ft fd m)
unfolding sys_close close_locked
sys_close_lem {ft} {m} fd wf h =
    rw
      (
        lt→ltb fd open_max h,
        wf.quiet fd h,
        lt→ltb fd (2 ^ 31) (omega arith),
        release-acquire m (ft.ftp fd) (wf.quiet fd h),
        ==_refl (ft.ftp fd),
      )
      (cases (entry ft m fd).flag)
  where
    cases :
        (taken : Bool)
        → Returns (CloseCase taken ft m fd) (
            if not taken
            then ret (err Errno.ebadf, ft, m)
            else (clean_fd ft fd m >>= λ r. ret (ok tt, r.0, r.1)))
    cases false = refl
    cases true =
        Returns->>= (λ r. Assigns ft m fd none r.0 r.1) (CloseCase true ft m fd) (clean_fd ft fd m)
          _ (clean_fd_lem fd wf h) (λ r a. (refl, a))

-- A descriptor outside the table is not refused: the entry is read before the check.
pub sys_close-wild : (ft : FileTable) (m : Mem) (fd : ℕ) → open_max ≤ fd → sys_close ft fd m ≡ panic
unfolding sys_close
sys_close-wild ft m fd h = rw (le→ltb fd open_max h)

-- An open descriptor is closed, a closed one stays closed: both are the assignment of nothing.
closed-Assigns :
    {ft : FileTable} {m : Mem} (fd : ℕ)
    → IsWf ft m
    → (entry ft m fd).flag ≡ false
    → Assigns ft m fd none ft m
closed-Assigns {ft} {m} fd wf closed = record {
  valid = wf;
  slots = λ j. refl;
  at = λ j hj. elim (Bool-cases (fd == j)) [
    | inl same ↦ rw (same, ← (==_iff fd j).0 same, closed)
    | inr ne ↦ rw ne
  ];
  frame = λ p ne. refl;
}

-- Releasing a lock that is free changes nothing.
release-free : (m : Mem) (p : ℕ) → (m p).locked ≡ false → release p m ≡ m
release-free m p free = fun_ext λ q. elim (Bool-cases (p == q)) [
  | inl same ↦ rw (same, ← (==_iff p q).0 same) (ap (λ b. record (m p) { locked = b }) (sym free))
  | inr ne ↦ rw ne
]

-- The first part of sys_dup2 closes the new descriptor.
close_for_dup_lem :
    {ft : FileTable} {m : Mem} (newfd : ℕ)
    → IsWf ft m
    → newfd < open_max
    → Returns
        (λ r. Assigns ft m newfd none r.0 r.1)
        (close_for_dup ft
          (ft.ftp newfd)
          newfd
          (update m (ft.ftp newfd) (record (entry ft m newfd) { locked = true })))
unfolding close_for_dup
close_for_dup_lem {ft} {m} newfd wf h =
    rw (release-acquire m (ft.ftp newfd) (wf.quiet newfd h), ==_refl (ft.ftp newfd))
      (elim (Bool-cases (entry ft m newfd).flag) [
        | inr closed ↦ rw closed (closed-Assigns newfd wf closed)
        | inl is_open ↦ rw is_open (
            Returns->>= (ClosePost ft m newfd) (λ r. Assigns ft m newfd none r.0 r.1)
              (sys_close ft newfd m) _ (sys_close_lem newfd wf h)
              (λ r post. after r (opened r is_open post)))
      ])
  where
    opened :
        {taken : Bool} (r : Result (Unit {0}) × FileTable × Mem)
        → taken ≡ true
        → CloseCase taken ft m newfd r
        → Assigns ft m newfd none r.1 r.2
    opened {taken = false} r e post = cc
    opened {taken = true} r e post = post.1

    after :
        (r : Result (Unit {0}) × FileTable × Mem)
        → Assigns ft m newfd none r.1 r.2
        → Assigns ft m newfd none r.1 (release (ft.ftp newfd) r.2)
    after r a =
        let free : (r.2 (ft.ftp newfd)).locked ≡ false =
          subst (λ p. (r.2 p).locked ≡ false) (a.slots newfd) (a.valid.quiet newfd h) in
        rw (release-free r.2 (ft.ftp newfd) free) a

-- What sys_dup2 on two different descriptors means: the new one is closed first, and then the old one
-- is duplicated, which may fail.
abbrev pub Dup2Post : FileTable → Mem → ℕ → ℕ → Result ℕ × FileTable × Mem → Type 0
Dup2Post ft m oldfd newfd r =
    (ft1 : FileTable) × (m1 : Mem) × Assigns ft m newfd none ft1 m1 × DupPost ft1 m1 oldfd newfd r

-- sys_dup2 on two different descriptors in range returns, and does that.
pub sys_dup2_lem :
    {ft : FileTable} {m : Mem} (oldfd newfd : ℕ)
    → IsWf ft m
    → oldfd < open_max
    → newfd < open_max
    → oldfd ≢ newfd
    → Returns (Dup2Post ft m oldfd newfd) (sys_dup2 ft oldfd newfd m)
unfolding sys_dup2
sys_dup2_lem {ft} {m} oldfd newfd wf ho hn ne =
    rw
      (
        lt→ltb oldfd open_max ho,
        lt→ltb newfd open_max hn,
        lt→ltb oldfd (2 ^ 31) (omega arith),
        lt→ltb newfd (2 ^ 31) (omega arith),
        ==-ne oldfd newfd ne,
        wf.quiet newfd hn,
      )
      (Returns->>= (λ r. Assigns ft m newfd none r.0 r.1) (Dup2Post ft m oldfd newfd) _ _
        (close_for_dup_lem newfd wf hn)
        (λ r a.
          Returns-imp (DupPost r.0 r.1 oldfd newfd) (Dup2Post ft m oldfd newfd)
            (λ x post. (r.0, r.1, a, post)) _ (add_dup_entry_lem oldfd newfd a.valid ho hn ne)))
