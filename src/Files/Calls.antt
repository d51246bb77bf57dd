-- ===== src/Files/Calls.antt =====
-- The system calls of src/kern/syscall/fsyscall.c on the file table of the current process. An `int` and
-- a `size_t` are 32-bit words, an `off_t` a 64-bit word; signed ones are in two's complement.
-- Allocations of kernel memory other than the one whose failure the code tests succeed.
use Prim.Native.Nat.{bit_and}
use ed_operating_system.Prelude.{
  ℕ, ◌+◌, ◌-◌, ◌/◌, ◌%◌, ◌^◌, Bool, true, false, ◌&&◌, ◌||◌, not, Option, none, some, List, ◌==◌,
  ltb, if◌then◌else◌, Outcome, ret, Result, ok, err, Errno, ◌>>=◌,
}
use ed_operating_system.Files.{Mem, update, FileTable, acquire, release, open_max}
use ed_operating_system.Files.Interface.{Vfs}
use ed_operating_system.Files.Table.{add_entry, get_entry, clean_fd, is_valid, add_dup_entry}

-- `check_fd`
abbrev pub check_fd : ℕ → Bool
check_fd fd = ltb fd (2 ^ 31) && ltb fd open_max

-- `sys_close` with the lock of the entry `p` taken.
unfoldable pub close_locked :
    FileTable → ℕ → ℕ → Mem → Outcome (Result (Unit {0}) × FileTable × Mem)
close_locked ft p fd m =
    if not (check_fd fd) || not (m p).flag
    then ret (err Errno.ebadf, ft, release p m)
    else (clean_fd ft fd (release p m) >>= λ r. ret (ok tt, r.0, r.1))

-- `sys_close`, which reads the entry before it checks the descriptor
unfoldable pub sys_close : FileTable → ℕ → Mem → Outcome (Result (Unit {0}) × FileTable × Mem)
sys_close ft fd m = do p ← get_entry ft fd; m1 ← acquire p m; close_locked ft p fd m1

-- `sys_dup2` with the lock of the new entry `q` taken: an open one is closed, and its lock is
-- released once more.
unfoldable pub close_for_dup : FileTable → ℕ → ℕ → Mem → Outcome (FileTable × Mem)
close_for_dup ft q newfd m =
    if (m q).flag
    then (sys_close ft newfd (release q m) >>= λ r. ret (r.1, release q r.2))
    else ret (ft, release q m)

-- `sys_dup2`
unfoldable pub sys_dup2 : FileTable → ℕ → ℕ → Mem → Outcome (Result ℕ × FileTable × Mem)
sys_dup2 ft oldfd newfd m =
    if not (check_fd oldfd) || not (check_fd newfd)
    then ret (err Errno.ebadf, ft, m)
    else if oldfd == newfd
    then ret (ok newfd, ft, m)
    else do
      q ← get_entry ft newfd
      m1 ← acquire q m
      r ← close_for_dup ft q newfd m1
      add_dup_entry r.0 oldfd newfd r.1

-- The permissions that `sys_open` derives from the access mode.
abbrev pub access_permissions : ℕ → Option ℕ
access_permissions how =
    if how == 0 then some 1 else if how == 1 then some 2 else if how == 2 then some 3 else none

-- The new offset that `sys_lseek` computes.
abbrev pub seek_target : ℕ → ℕ → ℕ → ℕ → ℕ
seek_target whence current eof pos =
    if whence == 0
    then pos
    else if whence == 1
    then (current + pos) % 2 ^ 64
    else (eof + pos) % 2 ^ 64

module _ {W : Type 0} (vfs : Vfs W) where
  -- `sys_open` after `vfs_open`.
  unfoldable pub open_result :
      ℕ → FileTable → Mem → Result ℕ × W → Outcome (Result ℕ × FileTable × Mem × W)
  open_result permissions ft m (err e, w) = ret (err e, ft, m, w)
  open_result permissions ft m (ok vn, w) =
      add_entry ft permissions 0 vn m >>= λ r. ret (r.0, r.1, r.2, w)

  -- `sys_open` after the path was copied in.
  unfoldable pub open_path :
      ℕ → ℕ → ℕ → FileTable → Mem → W → Result (List ℕ) → Outcome (Result ℕ × FileTable × Mem × W)
  open_path permissions flags mode ft m w (err e) = ret (err e, ft, m, w)
  open_path permissions flags mode ft m w (ok path) =
      open_result permissions ft m (vfs.vfs_open path flags mode w)

  -- `sys_open` after the access mode was checked.
  unfoldable pub open_checked :
      Option ℕ → ℕ → ℕ → ℕ → FileTable → Mem → W → Outcome (Result ℕ × FileTable × Mem × W)
  open_checked none filename flags mode ft m w = ret (err Errno.einval, ft, m, w)
  open_checked (some permissions) filename flags mode ft m w =
      if not (bit_and flags 8 == 0) && bit_and flags 4 == 0
      then ret (err Errno.einval, ft, m, w)
      else open_path permissions flags mode ft m w (vfs.copyinstr filename w)

  -- `sys_open`; the flag says whether the buffer for the path can be allocated.
  unfoldable pub sys_open :
      Bool → ℕ → ℕ → ℕ → FileTable → Mem → W → Outcome (Result ℕ × FileTable × Mem × W)
  sys_open false filename flags mode ft m w = ret (err Errno.enomem, ft, m, w)
  sys_open true filename flags mode ft m w =
      open_checked (access_permissions (bit_and flags 3)) filename flags mode ft m w

  -- How `sys_read` and `sys_write` end, with the lock of the entry `p` taken: the offset moves by the
  -- number of bytes transferred.
  unfoldable pub transferred : ℕ → ℕ → Mem → Result ℕ × W → Outcome (Result ℕ × Mem × W)
  transferred p nbytes m (err e, w) = ret (err e, release p m, w)
  transferred p nbytes m (ok resid, w) =
      let bytes = (nbytes + 2 ^ 32 - resid) % 2 ^ 32 in
      let m' = update m p (record (m p) { offset = ((m p).offset + bytes) % 2 ^ 64 }) in
      ret (ok bytes, release p m', w)

  -- `sys_write` with the lock of the entry `p` taken.
  unfoldable pub write_locked : ℕ → ℕ → ℕ → Mem → W → Outcome (Result ℕ × Mem × W)
  write_locked p buf nbytes m w =
      if (m p).permissions == 1
      then ret (err Errno.ebadf, release p m, w)
      else if buf == 0
      then ret (err Errno.efault, release p m, w)
      else transferred p nbytes m (vfs.vop_write (m p).file (m p).offset nbytes w)

  -- `sys_write`
  unfoldable pub sys_write : FileTable → ℕ → ℕ → ℕ → Mem → W → Outcome (Result ℕ × Mem × W)
  sys_write ft fd buf nbytes m w = if not (check_fd fd) then ret (err Errno.ebadf, m, w) else do
    p ← get_entry ft fd
    let locked = (acquire p m >>= λ m1. write_locked p buf nbytes m1 w)
    if (m p).file == 0 then ret (err Errno.ebadf, m, w) else locked

  -- `sys_read` after `isValid` gave its answer.
  unfoldable pub read_checked :
      FileTable → ℕ → ℕ → ℕ → W → Bool × Mem → Outcome (Result ℕ × Mem × W)
  read_checked ft fd buf buflen w (false, m) = ret (err Errno.ebadf, m, w)
  read_checked ft fd buf buflen w (true, m) = if buf == 0 then ret (err Errno.efault, m, w) else do
    p ← get_entry ft fd
    m1 ← acquire p m
    transferred p buflen m1 (vfs.vop_read (m1 p).file (m1 p).offset buflen w)

  -- `sys_read`
  unfoldable pub sys_read : FileTable → ℕ → ℕ → ℕ → Mem → W → Outcome (Result ℕ × Mem × W)
  sys_read ft fd buf buflen m w =
      if not (check_fd fd)
      then ret (err Errno.ebadf, m, w)
      else is_valid ft fd m >>= read_checked ft fd buf buflen w

  -- `sys_lseek` with the lock of the entry `p` taken; the answer is the two halves of the position.
  unfoldable pub seek_locked : ℕ → ℕ → ℕ → Mem → W → Outcome (Result (ℕ × ℕ) × Mem)
  seek_locked p pos whence m w =
      let target = seek_target whence (m p).offset (vfs.stat_size (m p).file w) pos in
      if not (vfs.vop_isseekable (m p).file w)
      then ret (err Errno.espipe, release p m)
      else if ltb target (2 ^ 63)
      then ret (
        ok (target / 2 ^ 32, target % 2 ^ 32),
        release p (update m p (record (m p) { offset = target })),
      )
      else ret (err Errno.einval, release p m)

  -- `sys_lseek`
  unfoldable pub sys_lseek : FileTable → ℕ → ℕ → ℕ → Mem → W → Outcome (Result (ℕ × ℕ) × Mem)
  sys_lseek ft fd pos whence m w =
      if not (ltb whence 3)
      then ret (err Errno.einval, m)
      else if not (check_fd fd)
      then ret (err Errno.ebadf, m)
      else do
        p ← get_entry ft fd
        let locked = (acquire p m >>= λ m1. seek_locked p pos whence m1 w)
        if (m p).file == 0 then ret (err Errno.ebadf, m) else locked
