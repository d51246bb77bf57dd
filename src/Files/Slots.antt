-- ===== src/Files/Slots.antt =====
-- addEntry, addIoEntry, clean_fd, isValid and addDupEntry of src/kern/syscall/filetable.c as operations
-- on the map from descriptors to open files. None of them leaves a lock taken.
use native.Mathlib.Decide.{ℕ_discrete}
use ed_operating_system.Prelude.{
  ℕ, ◌<◌, ◌≡◌, ◌≢◌, ◌∙◌, sym, ap, refl, subst, Bool, true, false, ◌&&◌, ◌||◌, Option, none, some,
  ◌==◌, ==_refl, ==_iff, ==-ne, if◌then◌else◌, if_then, lt→ltb, ret, Returns, arith, Result, ok,
  err, Errno,
}
use ed_operating_system.Files.{Fte, Mem, update, FileTable, entry, open_max}
use ed_operating_system.Files.Table.{
  add_at, add_entry, clean_fd, is_valid, copy_entry, copy_if_room, dup_locked, add_dup_entry,
  empty_fte,
}
use ed_operating_system.Files.Inv.{
  IsWf, OpenFile, descriptor, refreshed, first_free_lem, entry-update, update-IsWf,
  find-after-write, release-acquire,
}

-- The entry of an open file.
abbrev pub open_fte : ℕ → ℕ → ℕ → Fte
open_fte vn offset permissions = record {
  flag = true;
  file = vn;
  offset = offset;
  permissions = permissions;
  locked = false;
}

-- `ft'` and `m'` are `ft` and `m` with one descriptor given a new meaning, and nothing else changed.
pub record Assigns (ft : FileTable) (m : Mem) (fd : ℕ) (d : Option OpenFile) (ft' : FileTable)
    (m' : Mem) : Type 0 where
  pub valid : IsWf ft' m'
  pub slots : (j : ℕ) → ft'.ftp j ≡ ft.ftp j
  pub at : (j : ℕ) → j < open_max → descriptor ft' m' j ≡ (if fd == j then d else descriptor ft m j)
  pub frame : (p : ℕ) → p ≢ ft.ftp fd → m' p ≡ m p

module _ {ft : FileTable} {m : Mem} (wf : IsWf ft m) (fd : ℕ) (hfd : fd < open_max) where
  pub write-Assigns :
      (e : Fte) (d : Option OpenFile)
      → e.locked ≡ false
      → (if e.flag
          then some (record { vnode = e.file; position = e.offset; mode = e.permissions })
          else none)
        ≡ d
      → Assigns ft m fd d (refreshed ft (update m (ft.ftp fd) e)) (update m (ft.ftp fd) e)
  write-Assigns e d unlocked meaning = record {
    valid = update-IsWf wf fd e hfd unlocked;
    slots = λ j. refl;
    at = λ j hj. elim (ℕ_discrete fd j) [
      | yes same ↦ rw (entry-update wf fd e hfd j hj, (==_iff fd j).1 same) meaning
      | no ne ↦ rw (entry-update wf fd e hfd j hj, ==-ne fd j ne)
    ];
    frame = λ p ne. rw (==-ne (ft.ftp fd) p (λ s. ne (sym s)));
  }

  open-Assigns :
      (vn offset permissions : ℕ)
      → Assigns ft m fd
          (some (record { vnode = vn; position = offset; mode = permissions }))
          (refreshed ft (update m (ft.ftp fd) (open_fte vn offset permissions)))
          (update m (ft.ftp fd) (open_fte vn offset permissions))
  open-Assigns vn offset permissions = write-Assigns (open_fte vn offset permissions) _ refl refl

-- The result of an operation that returns the table and memory beside its answer.
abbrev pub Assigned :
    FileTable → Mem → ℕ → Option OpenFile → Result ℕ → Result ℕ × FileTable × Mem → Type 0
Assigned ft m fd d answer r = (r.0 ≡ answer) × Assigns ft m fd d r.1 r.2

-- With the invariant of the table, addEntry with a free slot returns: it opens the file at the lowest
-- free slot past standard I/O, returns that slot, and changes no other.
pub add_entry_lem :
    {ft : FileTable} {m : Mem} {spot : ℕ} (permissions offset vn : ℕ)
    → IsWf ft m
    → ft.first_free_spot ≡ some spot
    → (descriptor ft m spot ≡ none)
      × Returns
          (Assigned ft m spot
            (some (record { vnode = vn; position = offset; mode = permissions }))
            (ok spot))
          (add_entry ft permissions offset vn m)
unfolding add_entry
add_entry_lem {ft} {m} {spot} permissions offset vn wf free =
    let (lo, hi, closed) = first_free_lem ft.ftp m 29 3 spot (sym wf.spot ∙ free) in
    (
      rw closed,
      subst
          (λ o.
            Returns
              (Assigned ft m spot
                (some (record { vnode = vn; position = offset; mode = permissions })) (ok spot))
              (add_at o ft permissions offset vn m))
          (sym free)
          (rw (wf.quiet spot (omega arith), find-after-write wf spot _ (omega arith) _)
            (refl, open-Assigns wf spot (omega arith) vn offset permissions)),
    )

-- With no free slot it fails with ENOMEM and changes nothing.
pub add_entry-full :
    (ft : FileTable) (m : Mem) (permissions offset vn : ℕ)
    → ft.first_free_spot ≡ none
    → add_entry ft permissions offset vn m ≡ ret (err Errno.enomem, ft, m)
unfolding add_entry
add_entry-full ft m permissions offset vn full = ap (λ o. add_at o ft permissions offset vn m) full

-- With the invariant of the table, clean_fd of a descriptor in range returns, closes the descriptor,
-- changes no other, and keeps the invariant.
pub clean_fd_lem :
    {ft : FileTable} {m : Mem} (fd : ℕ)
    → IsWf ft m
    → fd < open_max
    → Returns (λ r. Assigns ft m fd none r.0 r.1) (clean_fd ft fd m)
unfolding clean_fd
clean_fd_lem {ft} {m} fd wf hfd =
    rw (lt→ltb fd open_max hfd, wf.quiet fd hfd, find-after-write wf fd _ hfd _)
      (write-Assigns wf fd hfd empty_fte none refl refl)

-- isValid answers whether the descriptor is open for reading, and changes nothing.
pub is_valid_lem :
    {ft : FileTable} {m : Mem} (fd : ℕ)
    → IsWf ft m
    → fd < open_max
    → is_valid ft fd m
      ≡ ret (
        (entry ft m fd).flag
            && ((entry ft m fd).permissions == 1 || (entry ft m fd).permissions == 3),
        m,
      )
unfolding is_valid
is_valid_lem {ft} {m} fd wf hfd = rw (
  lt→ltb fd open_max hfd,
  wf.quiet fd hfd,
  release-acquire m (ft.ftp fd) (wf.quiet fd hfd),
  ==_refl (ft.ftp fd),
)

-- addDupEntry past its tests on the old descriptor.
module _ {ft : FileTable} {m : Mem} (wf : IsWf ft m) (oldfd newfd : ℕ) (ho : oldfd < open_max)
    (ne : oldfd ≢ newfd) where
  dup_tests : add_dup_entry ft oldfd newfd m ≡ (
      if (entry ft m oldfd).flag
      then copy_if_room ft.first_free_spot ft
          (ft.ftp oldfd)
          newfd
          (update m (ft.ftp oldfd) (record (entry ft m oldfd) { locked = true }))
      else ret (err Errno.ebadf, ft, m))
  unfolding add_dup_entry dup_locked
  dup_tests = rw (
    lt→ltb oldfd open_max ho,
    wf.quiet oldfd ho,
    ==-ne oldfd newfd ne,
    release-acquire m (ft.ftp oldfd) (wf.quiet oldfd ho),
    ==_refl (ft.ftp oldfd),
  )

  copy_entry-Assigned :
      newfd < open_max
      → (entry ft m oldfd).flag ≡ true
      → Returns
          (Assigned ft m newfd (descriptor ft m oldfd) (ok newfd))
          (copy_entry ft (ft.ftp oldfd) newfd m)
  unfolding copy_entry
  copy_entry-Assigned hn is_open =
      rw
        (
          lt→ltb newfd open_max hn,
          wf.quiet newfd hn,
          ==-ne (ft.ftp newfd) (ft.ftp oldfd) (λ s. ne (sym (wf.apart newfd oldfd hn ho s))),
          find-after-write wf newfd _ hn _,
        )
        (refl, write-Assigns wf newfd hn _ _ refl (sym (if_then _ _ is_open)))

  copy_if_room-some :
      (spot : ℕ)
      → copy_if_room
          (some spot)
          ft
          (ft.ftp oldfd)
          newfd
          (update m (ft.ftp oldfd) (record (entry ft m oldfd) { locked = true }))
        ≡ copy_entry ft (ft.ftp oldfd) newfd m
  unfolding copy_if_room
  copy_if_room-some spot =
      ap (copy_entry ft (ft.ftp oldfd) newfd) (release-acquire m (ft.ftp oldfd) (wf.quiet oldfd ho))

  copy_if_room-none :
      copy_if_room none ft
        (ft.ftp oldfd)
        newfd
        (update m (ft.ftp oldfd) (record (entry ft m oldfd) { locked = true }))
      ≡ ret (err Errno.enfile, ft, m)
  unfolding copy_if_room
  copy_if_room-none =
      ap (λ m'. ret (err Errno.enfile, ft, m'))
        (release-acquire m (ft.ftp oldfd) (wf.quiet oldfd ho))

-- What addDupEntry on two different descriptors means: an old one that is closed gives EBADF, a table
-- with no free slot ENFILE, both with nothing changed; else the new one becomes a copy of the old.
abbrev pub DupCase : Bool → Option ℕ → FileTable → Mem → ℕ → ℕ → Result ℕ × FileTable × Mem → Type 0
DupCase false room ft m oldfd newfd r = r ≡ (err Errno.ebadf, ft, m)
DupCase true none ft m oldfd newfd r = r ≡ (err Errno.enfile, ft, m)
DupCase true (some spot) ft m oldfd newfd r =
    Assigned ft m newfd (descriptor ft m oldfd) (ok newfd) r

abbrev pub DupPost : FileTable → Mem → ℕ → ℕ → Result ℕ × FileTable × Mem → Type 0
DupPost ft m oldfd newfd = DupCase (entry ft m oldfd).flag ft.first_free_spot ft m oldfd newfd

-- With the invariant of the table, addDupEntry on two different descriptors in range returns. It gives
-- EBADF for a closed old descriptor and ENFILE for a table with no free slot, with nothing changed;
-- else the new descriptor becomes a copy of the old one and no other changes.
pub add_dup_entry_lem :
    {ft : FileTable} {m : Mem} (oldfd newfd : ℕ)
    → IsWf ft m
    → oldfd < open_max
    → newfd < open_max
    → oldfd ≢ newfd
    → Returns (DupPost ft m oldfd newfd) (add_dup_entry ft oldfd newfd m)
add_dup_entry_lem {ft} {m} oldfd newfd wf ho hn ne =
    rw (dup_tests wf oldfd newfd ho ne) (cases (entry ft m oldfd).flag ft.first_free_spot refl)
  where
    cases :
        (taken : Bool) (room : Option ℕ)
        → (entry ft m oldfd).flag ≡ taken
        → Returns (DupCase taken room ft m oldfd newfd) (
            if taken
            then copy_if_room room ft
                (ft.ftp oldfd)
                newfd
                (update m (ft.ftp oldfd) (record (entry ft m oldfd) { locked = true }))
            else ret (err Errno.ebadf, ft, m))
    cases false room e = refl
    cases true none e = rw (copy_if_room-none wf oldfd newfd ho ne)
    cases true (some spot) e =
        rw (copy_if_room-some wf oldfd newfd ho ne spot)
          (copy_entry-Assigned wf oldfd newfd ho ne hn e)

-- addDupEntry of a descriptor onto itself succeeds and changes nothing.
pub add_dup_entry-same :
    {ft : FileTable} {m : Mem} (fd : ℕ)
    → IsWf ft m
    → fd < open_max
    → add_dup_entry ft fd fd m ≡ ret (ok fd, ft, m)
unfolding add_dup_entry dup_locked
add_dup_entry-same {ft} {m} fd wf h =
    rw (
      lt→ltb fd open_max h,
      wf.quiet fd h,
      ==_refl fd,
      release-acquire m (ft.ftp fd) (wf.quiet fd h),
    )
