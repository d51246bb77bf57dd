-- ===== src/Files/Dup.antt =====
-- The two cases of sys_dup2 in src/kern/syscall/fsyscall.c: a copy is made, or the old descriptor is
-- closed, in which case the new one is lost.
use ed_operating_system.Prelude.{
  ℕ, ◌<◌, ◌≡◌, ◌≢◌, ◌∙◌, sym, ap, subst, Bool, true, false, Option, none, some, ==-ne, Option-cases,
  Returns, Returns-imp, arith, inl, inr, Result, ok, err, Errno,
}
use mathlib.Core.Bool.{false≢true}
use ed_operating_system.Files.{Mem, FileTable, entry, open_max}
use ed_operating_system.Files.Calls.{sys_dup2}
use ed_operating_system.Files.Inv.{IsWf, OpenFile, descriptor, first_free_lem, first_free-none}
use ed_operating_system.Files.Slots.{Assigns, DupCase, Assigned}
use ed_operating_system.Files.Close.{Dup2Post, sys_dup2_lem}

-- A descriptor tells whether its entry is taken.
flag-descriptor :
    (ft ft' : FileTable) (m m' : Mem) (i : ℕ)
    → descriptor ft' m' i ≡ descriptor ft m i
    → (entry ft' m' i).flag ≡ (entry ft m i).flag
flag-descriptor ft ft' m m' i h = ground arith

Assigns-trans :
    {ft ft1 ft2 : FileTable} {m m1 m2 : Mem} {fd : ℕ} {d d' : Option OpenFile}
    → Assigns ft m fd d ft1 m1
    → Assigns ft1 m1 fd d' ft2 m2
    → Assigns ft m fd d' ft2 m2
Assigns-trans {ft} {ft1} {m2 = m2} {fd = fd} a b = record {
  valid = b.valid;
  slots = λ j. b.slots j ∙ a.slots j;
  at = λ j hj. ground (arith, a.at j, b.at j);
  frame = λ p ne. b.frame p (subst (λ q. p ≢ q) (sym (a.slots fd)) ne) ∙ a.frame p ne;
}

module _ {ft ft1 : FileTable} {m m1 : Mem} {newfd : ℕ} (wf : IsWf ft m)
    (a : Assigns ft m newfd none ft1 m1) where
  -- Closing a descriptor leaves the others as they are, and keeps the free slots free.
  other-flag : (i : ℕ) → i < open_max → newfd ≢ i → (entry ft1 m1 i).flag ≡ (entry ft m i).flag
  other-flag i hi ne = flag-descriptor ft ft1 m m1 i (a.at i hi ∙ rw (==-ne newfd i ne))

  still-free : (i : ℕ) → i < open_max → (entry ft m i).flag ≡ false → (entry ft1 m1 i).flag ≡ false
  still-free i hi free = ground (arith, a.at i hi)

  room-left : {k : ℕ} → ft.first_free_spot ≡ some k → (k' : ℕ) × (ft1.first_free_spot ≡ some k')
  room-left {k} room = elim (Option-cases ft1.first_free_spot) [
    | inr found ↦ found
    | inl full ↦
        let (lo, hi, free) = first_free_lem ft.ftp m 29 3 k (sym wf.spot ∙ room) in
        let taken = first_free-none ft1.ftp m1 29 3 (sym a.valid.spot ∙ full) k lo hi in
        absurd (false≢true (sym (still-free k hi free) ∙ taken))
  ]

-- What the duplication gives where the old descriptor is open and a slot is free, and where it is closed.
DupCase-room :
    (taken : Bool) (room : Option ℕ) (k : ℕ) (ft : FileTable) (m : Mem) (oldfd newfd : ℕ)
    (r : Result ℕ × FileTable × Mem)
    → taken ≡ true
    → room ≡ some k
    → DupCase taken room ft m oldfd newfd r
    → Assigned ft m newfd (descriptor ft m oldfd) (ok newfd) r
DupCase-room false room k ft m oldfd newfd r e f post = cc
DupCase-room true none k ft m oldfd newfd r e f post = cc
DupCase-room true (some spot) k ft m oldfd newfd r e f post = post

DupCase-closed :
    (taken : Bool) (room : Option ℕ) (ft : FileTable) (m : Mem) (oldfd newfd : ℕ)
    (r : Result ℕ × FileTable × Mem)
    → taken ≡ false
    → DupCase taken room ft m oldfd newfd r
    → r ≡ (err Errno.ebadf, ft, m)
DupCase-closed false room ft m oldfd newfd r e post = post
DupCase-closed true room ft m oldfd newfd r e post = cc

-- With the invariant of the table, if the old descriptor is open and some slot is free, sys_dup2 onto
-- another descriptor in range succeeds, whether that one is open or not: the new descriptor becomes a
-- copy of the old one, and no other changes.
pub sys_dup2_copies :
    {ft : FileTable} {m : Mem} {k : ℕ} (oldfd newfd : ℕ)
    → IsWf ft m
    → oldfd < open_max
    → newfd < open_max
    → oldfd ≢ newfd
    → (entry ft m oldfd).flag ≡ true
    → ft.first_free_spot ≡ some k
    → Returns (Assigned ft m newfd (descriptor ft m oldfd) (ok newfd)) (sys_dup2 ft oldfd newfd m)
sys_dup2_copies {ft} {m} {k} oldfd newfd wf ho hn ne is_open room =
    Returns-imp (Dup2Post ft m oldfd newfd) _
      (λ r (ft1, m1, a, post).
        let (k', room') = room-left wf a room in
        let open' = other-flag wf a oldfd ho (λ s. ne (sym s)) ∙ is_open in
        let (answer, b) =
          DupCase-room (entry ft1 m1 oldfd).flag ft1.first_free_spot k' ft1 m1 oldfd newfd r open'
            room' post in
        let same : descriptor ft1 m1 oldfd ≡ descriptor ft m oldfd =
          a.at oldfd ho ∙ rw (==-ne newfd oldfd (λ s. ne (sym s))) in
        (answer, Assigns-trans a (subst (λ d. Assigns ft1 m1 newfd d r.1 r.2) same b)))
      _ (sys_dup2_lem oldfd newfd wf ho hn ne)

-- With the invariant of the table, if the old descriptor is closed, sys_dup2 onto another one returns
-- EBADF, but the new descriptor is closed first: it is lost if it was open.
pub sys_dup2_loses :
    {ft : FileTable} {m : Mem} (oldfd newfd : ℕ)
    → IsWf ft m
    → oldfd < open_max
    → newfd < open_max
    → oldfd ≢ newfd
    → (entry ft m oldfd).flag ≡ false
    → Returns
        (λ r. (r.0 ≡ err Errno.ebadf) × Assigns ft m newfd none r.1 r.2)
        (sys_dup2 ft oldfd newfd m)
sys_dup2_loses {ft} {m} oldfd newfd wf ho hn ne closed =
    Returns-imp (Dup2Post ft m oldfd newfd) _
      (λ r (ft1, m1, a, post).
        let e =
          DupCase-closed (entry ft1 m1 oldfd).flag ft1.first_free_spot ft1 m1 oldfd newfd r
            (other-flag wf a oldfd ho (λ s. ne (sym s)) ∙ closed) post in
        (ap (λ x. x.0) e, subst (λ x. Assigns ft m newfd none x.1 x.2) (sym e) a))
      _ (sys_dup2_lem oldfd newfd wf ho hn ne)
