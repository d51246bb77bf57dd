-- ===== src/Files/Offsets.antt =====
-- sys_read and sys_write of src/kern/syscall/fsyscall.c: how far they move the offset of a descriptor.
use ed_operating_system.Prelude.{
  ℕ, zero, suc, ◌+◌, ◌-◌, ◌/◌, ◌%◌, ◌^◌, ◌≤◌, ◌<◌, ◌≡◌, ◌≢◌, ◌∙◌, sym, ap, refl, subst, fun_ext,
  Bool, true, false, some, ◌&&◌, ◌||◌, ◌==◌, ==_refl, ==_iff, ==-ne, if◌then◌else◌, if_then, ltb,
  not, lt→ltb, ret, Returns, arith, Bool-cases, inl, inr, ◌⊎◌, Result, ok, err, Errno,
}
use ed_operating_system.Files.{Fte, Mem, update, FileTable, entry, release, open_max}
use ed_operating_system.Files.Interface.{Vfs}
use ed_operating_system.Files.Calls.{
  transferred, write_locked, sys_write, read_checked, sys_read, seek_target, seek_locked, sys_lseek,
}
use ed_operating_system.Files.Inv.{
  IsWf, first_free, lowest_free, entry-update, release-acquire, release-write,
}
use ed_operating_system.Files.Slots.{Assigns, write-Assigns, is_valid_lem}

-- The search for a free slot looks at flags only.
first_free-cong :
    (ftp : ℕ → ℕ) (m m' : Mem) (rounds i : ℕ)
    → ((j : ℕ) → j < rounds + i → (m' (ftp j)).flag ≡ (m (ftp j)).flag)
    → first_free ftp m' rounds i ≡ first_free ftp m rounds i
unfolding first_free
first_free-cong ftp m m' zero i h = refl
first_free-cong ftp m m' (suc rounds) i h =
    rw (h i (omega arith), first_free-cong ftp m m' rounds (i + 1) (λ j lt. h j (omega arith)))

-- An entry with another offset, and its lock free.
abbrev pub at_offset : Fte → ℕ → Fte
at_offset e o = record e { offset = o; locked = false }

-- A locked entry gets a new offset and is unlocked: that is one write.
moved_offset :
    (m : Mem) (p : ℕ) (f : ℕ → ℕ)
    → release p (
        update
          (update m p (record (m p) { locked = true }))
          p
          (record (update m p (record (m p) { locked = true }) p) {
            offset = f (update m p (record (m p) { locked = true }) p).offset;
          }))
      ≡ update m p (at_offset (m p) (f (m p).offset))
moved_offset m p f =
    fun_ext
      λ q. elim (Bool-cases (p == q)) [ inl same ↦ rw (==_refl p, same) | inr other ↦ rw other ]

module _ {ft : FileTable} {m : Mem} (wf : IsWf ft m) (fd : ℕ) (hfd : fd < open_max)
    (is_open : (entry ft m fd).flag ≡ true) where
  -- Moving the offset of an open descriptor.
  offset-Assigns :
      (o : ℕ)
      → Assigns ft m fd
          (some (record {
            vnode = (entry ft m fd).file;
            position = o;
            mode = (entry ft m fd).permissions;
          }))
          ft
          (update m (ft.ftp fd) (at_offset (entry ft m fd) o))
  offset-Assigns o =
      let flags : lowest_free ft (update m (ft.ftp fd) (at_offset (entry ft m fd) o))
          ≡ lowest_free ft m =
        first_free-cong ft.ftp m _ 29 3 (λ j lt. elim (Bool-cases (fd == j)) [
          | inl same ↦ rw (
            entry-update wf fd (at_offset (entry ft m fd) o) hfd j lt,
            same,
            ← (==_iff fd j).0 same,
          )
          | inr other ↦ rw (entry-update wf fd (at_offset (entry ft m fd) o) hfd j lt, other)
        ]) in
      subst
        (λ spot.
          Assigns ft m fd
            (some (record {
              vnode = (entry ft m fd).file;
              position = o;
              mode = (entry ft m fd).permissions;
            }))
            (record ft { first_free_spot = spot })
            (update m (ft.ftp fd) (at_offset (entry ft m fd) o)))
        (flags ∙ sym wf.spot)
        (write-Assigns wf fd hfd (at_offset (entry ft m fd) o) _ refl (if_then _ _ is_open))

-- What a transfer of at most `n` bytes means, by the answer of the vnode: an error changes nothing, else
-- the answer is the number of bytes transferred, and the offset of the descriptor moves by it.
abbrev pub TransferCase :
    {W : Type 0} → FileTable → Mem → ℕ → ℕ → Result ℕ × W → Result ℕ × Mem × W → Type 0
TransferCase ft m fd n (err e, w') r = r ≡ (err e, m, w')
TransferCase ft m fd n (ok resid, w') r =
    (r.0 ≡ ok (n - resid))
    × (r.2 ≡ w')
    × Assigns ft m fd
        (some (record {
          vnode = (entry ft m fd).file;
          position = ((entry ft m fd).offset + (n - resid)) % 2 ^ 64;
          mode = (entry ft m fd).permissions;
        }))
        ft r.1

-- Where a seek counts from, with the number that the system call takes for it.
pub data Whence : Type 0 where
  seek_set seek_cur seek_end : Whence

abbrev pub number_of : Whence → ℕ
number_of seek_set = 0
number_of seek_cur = 1
number_of seek_end = 2

-- The new offset: the position itself, or past the current offset, or past the end of the file, as a
-- 64-bit pattern.
abbrev pub sought : Whence → ℕ → ℕ → ℕ → ℕ
sought seek_set current eof pos = pos
sought seek_cur current eof pos = (current + pos) % 2 ^ 64
sought seek_end current eof pos = (eof + pos) % 2 ^ 64

-- What a seek means, by whether the file is seekable and the target is not negative: an error with
-- nothing changed, or the two halves of the target, which is the new offset.
abbrev pub SeekCase : Bool → Bool → FileTable → Mem → ℕ → ℕ → Result (ℕ × ℕ) × Mem → Type 0
SeekCase false positive ft m fd target r = r ≡ (err Errno.espipe, m)
SeekCase true false ft m fd target r = r ≡ (err Errno.einval, m)
SeekCase true true ft m fd target r =
    (r.0 ≡ ok (target / 2 ^ 32, target % 2 ^ 32))
    × Assigns ft m fd
        (some (record {
          vnode = (entry ft m fd).file;
          position = target;
          mode = (entry ft m fd).permissions;
        }))
        ft r.1

module _ {W : Type 0} (vfs : Vfs W) {ft : FileTable} {m : Mem} (wf : IsWf ft m) (fd : ℕ)
    (hfd : fd < open_max) (is_open : (entry ft m fd).flag ≡ true) where
  transferred_lem :
      (n : ℕ) (x : Result ℕ × W)
      → n < 2 ^ 32
      → ((resid : ℕ) (w' : W) → x ≡ (ok resid, w') → resid ≤ n)
      → Returns (TransferCase ft m fd n x) (
          transferred vfs
            (ft.ftp fd)
            n
            (update m (ft.ftp fd) (record (entry ft m fd) { locked = true }))
            x)
  unfolding transferred
  transferred_lem n (err e, w') hn le =
      ap (λ m'. (err e, m', w')) (release-acquire m (ft.ftp fd) (wf.quiet fd hfd))
  transferred_lem n (ok resid, w') hn le =
      let moved : (n + 2 ^ 32 - resid) % 2 ^ 32 ≡ n - resid = omega (arith, le resid w' refl) in
      rw (moved, moved_offset m (ft.ftp fd) (λ o. (o + (n - resid)) % 2 ^ 64))
        (
          refl,
          refl,
          offset-Assigns wf fd hfd is_open (((entry ft m fd).offset + (n - resid)) % 2 ^ 64),
        )

  -- With the invariant of the table, sys_write of fewer than 2^32 bytes to an open descriptor that is
  -- not read-only and has a vnode, from a buffer that is not NULL, returns what the vnode says: an error
  -- with nothing changed, or the number of bytes written, by which the offset moves, and no other
  -- descriptor changes.
  pub sys_write_lem :
      (buf n : ℕ) (w : W)
      → (entry ft m fd).file ≢ 0
      → (entry ft m fd).permissions ≢ 1
      → buf ≢ 0
      → n < 2 ^ 32
      → Returns
          (TransferCase ft m fd n (vfs.vop_write (entry ft m fd).file (entry ft m fd).offset n w))
          (sys_write vfs ft fd buf n m w)
  unfolding sys_write write_locked
  sys_write_lem buf n w has_file writable has_buf hn =
      rw
        (
          lt→ltb fd open_max hfd,
          lt→ltb fd (2 ^ 31) (omega arith),
          ==-ne (entry ft m fd).file 0 has_file,
          wf.quiet fd hfd,
          ==_refl (ft.ftp fd),
          ==-ne (entry ft m fd).permissions 1 writable,
          ==-ne buf 0 has_buf,
        )
        (transferred_lem n (vfs.vop_write (entry ft m fd).file (entry ft m fd).offset n w) hn
          (λ resid w' e. vfs.write_resid_le _ _ n resid w w' e))

  -- With the invariant of the table, sys_read of fewer than 2^32 bytes from an open descriptor with read
  -- permission, to a buffer that is not NULL, returns what the vnode says: an error with nothing changed,
  -- or the number of bytes read, by which the offset moves, and no other descriptor changes.
  pub sys_read_lem :
      (buf n : ℕ) (w : W)
      → ((entry ft m fd).permissions ≡ 1) ⊎ ((entry ft m fd).permissions ≡ 3)
      → buf ≢ 0
      → n < 2 ^ 32
      → Returns
          (TransferCase ft m fd n (vfs.vop_read (entry ft m fd).file (entry ft m fd).offset n w))
          (sys_read vfs ft fd buf n m w)
  unfolding sys_read read_checked
  sys_read_lem buf n w readable has_buf hn =
      let granted : ((entry ft m fd).flag
            && ((entry ft m fd).permissions == 1 || (entry ft m fd).permissions == 3))
          ≡ true =
        ground arith in
      rw
        (
          lt→ltb fd open_max hfd,
          lt→ltb fd (2 ^ 31) (omega arith),
          is_valid_lem fd wf hfd,
          granted,
          ==-ne buf 0 has_buf,
          lt→ltb fd open_max hfd,
          wf.quiet fd hfd,
          ==_refl (ft.ftp fd),
        )
        (transferred_lem n (vfs.vop_read (entry ft m fd).file (entry ft m fd).offset n w) hn
          (λ resid w' e. vfs.read_resid_le _ _ n resid w w' e))

  seek_cases :
      (seekable positive : Bool) (target : ℕ)
      → Returns (SeekCase seekable positive ft m fd target) (
          if not seekable
          then ret (err Errno.espipe, m)
          else if positive
          then ret (
            ok (target / 2 ^ 32, target % 2 ^ 32),
            update m (ft.ftp fd) (at_offset (entry ft m fd) target),
          )
          else ret (err Errno.einval, m))
  seek_cases false positive target = refl
  seek_cases true false target = refl
  seek_cases true true target = (refl, offset-Assigns wf fd hfd is_open target)

  -- The locked part of sys_lseek, at the value of the entry.
  seek_at :
      (p pos whence : ℕ) (w : W) (m1 : Mem) (e : Fte)
      → m1 p ≡ e
      → seek_locked vfs p pos whence m1 w ≡ (
          let target = seek_target whence e.offset (vfs.stat_size e.file w) pos in
          if not (vfs.vop_isseekable e.file w)
          then ret (err Errno.espipe, release p m1)
          else if ltb target (2 ^ 63)
          then ret (
            ok (target / 2 ^ 32, target % 2 ^ 32),
            release p (update m1 p (record e { offset = target })),
          )
          else ret (err Errno.einval, release p m1))
  unfolding seek_locked
  seek_at p pos whence w m1 e h =
      subst
        (λ x. seek_locked vfs p pos whence m1 w ≡ (
          let target = seek_target whence x.offset (vfs.stat_size x.file w) pos in
          if not (vfs.vop_isseekable x.file w)
          then ret (err Errno.espipe, release p m1)
          else if ltb target (2 ^ 63)
          then ret (
            ok (target / 2 ^ 32, target % 2 ^ 32),
            release p (update m1 p (record x { offset = target })),
          )
          else ret (err Errno.einval, release p m1)))
        h refl

  seek_number :
      (pos whence : ℕ) (w : W)
      → (entry ft m fd).file ≢ 0
      → whence < 3
      → let target =
          seek_target whence (entry ft m fd).offset (vfs.stat_size (entry ft m fd).file w) pos in
        Returns
          (SeekCase
            (vfs.vop_isseekable (entry ft m fd).file w)
            (ltb target (2 ^ 63))
            ft
            m
            fd
            target)
          (sys_lseek vfs ft fd pos whence m w)
  unfolding sys_lseek
  seek_number pos whence w has_file hw =
      let target =
        seek_target whence (entry ft m fd).offset (vfs.stat_size (entry ft m fd).file w) pos in
      let m1 = update m (ft.ftp fd) (record (entry ft m fd) { locked = true }) in
      rw
        (
          lt→ltb whence 3 hw,
          lt→ltb fd open_max hfd,
          lt→ltb fd (2 ^ 31) (omega arith),
          ==-ne (entry ft m fd).file 0 has_file,
          wf.quiet fd hfd,
          seek_at (ft.ftp fd) pos whence w m1 (record (entry ft m fd) { locked = true })
              (rw (==_refl (ft.ftp fd))),
          release-acquire m (ft.ftp fd) (wf.quiet fd hfd),
          release-write m (ft.ftp fd) (record (entry ft m fd) { locked = true })
              (record (entry ft m fd) { offset = target; locked = true }),
        )
        (seek_cases (vfs.vop_isseekable (entry ft m fd).file w) (ltb target (2 ^ 63)) target)

  -- With the invariant of the table, sys_lseek on an open descriptor that has a vnode, with the number
  -- of a `whence`, 0 for the start of the file, 1 for the current offset and 2 for the end: it gives
  -- ESPIPE for a file that is not seekable and EINVAL for a negative target, both with nothing changed;
  -- else it returns the two halves of the target and makes it the offset, and no other descriptor
  -- changes. The target is the position, counted from there, as a 64-bit pattern.
  pub sys_lseek_lem :
      (pos : ℕ) (whence : Whence) (w : W)
      → (entry ft m fd).file ≢ 0
      → let target =
          sought whence (entry ft m fd).offset (vfs.stat_size (entry ft m fd).file w) pos in
        Returns
          (SeekCase
            (vfs.vop_isseekable (entry ft m fd).file w)
            (ltb target (2 ^ 63))
            ft
            m
            fd
            target)
          (sys_lseek vfs ft fd pos (number_of whence) m w)
  sys_lseek_lem pos seek_set w has_file = seek_number pos 0 w has_file (omega arith)
  sys_lseek_lem pos seek_cur w has_file = seek_number pos 1 w has_file (omega arith)
  sys_lseek_lem pos seek_end w has_file = seek_number pos 2 w has_file (omega arith)
