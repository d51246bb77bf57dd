-- ===== src/Files/Table.antt =====
-- src/kern/syscall/filetable.c, function by function.
use ed_operating_system.Prelude.{
  ℕ, zero, suc, ◌+◌, ◌-◌, Bool, true, false, ◌&&◌, ◌||◌, Option, none, some, ◌==◌, ltb,
  if◌then◌else◌, Outcome, ret, panic, Result, ok, err, Errno, ◌>>=◌,
}
use ed_operating_system.Files.{Fte, Mem, update, FileTable, entry, acquire, release, open_max}

-- An entry as `ft_init` sets it up, with a lock that is free.
abbrev pub empty_fte : Fte
empty_fte = record { flag = false; file = 0; offset = 0; permissions = 0; locked = false }

-- The loop of `ft_init`; `ptr i` is the address that the allocation of entry `i` gives.
unfoldable pub init_entries : (ℕ → ℕ) → ℕ → ℕ → Mem → Mem
init_entries ptr zero i m = m
init_entries ptr (suc rounds) i m = init_entries ptr rounds (i + 1) (update m (ptr i) empty_fte)

-- `ft_init`, if its allocations succeed
unfoldable pub ft_init : (ℕ → ℕ) → Mem → FileTable × Mem
ft_init ptr m = (record { ftp = ptr; first_free_spot = some 0 }, init_entries ptr open_max 0 m)

-- The loop of `findFirstFreeSpot`: the spot that it finds.
unfoldable pub find_spot : FileTable → ℕ → ℕ → Mem → Outcome (Option ℕ × Mem)
find_spot ft zero i m = ret (none, m)
find_spot ft (suc rounds) i m = do
  m1 ← acquire (ft.ftp i) m
  let rest = find_spot ft rounds (i + 1) (release (ft.ftp i) m1)
  if (entry ft m1 i).flag then rest else ret (some i, release (ft.ftp i) m1)

-- `findFirstFreeSpot`
unfoldable pub find_first_free_spot : FileTable → Mem → Outcome (FileTable × Mem)
find_first_free_spot ft m = do
  r ← find_spot ft (open_max - 3) 3 m
  ret (record ft { first_free_spot = r.0 }, r.1)

-- The fields that `addEntry` and `addIoEntry` write.
abbrev pub occupied : Fte → ℕ → ℕ → ℕ → Fte
occupied e permissions offset vn = record e {
  flag = true;
  file = vn;
  offset = offset;
  permissions = permissions;
}

-- `addEntry` at the value of `firstFreeSpot`.
unfoldable pub add_at :
    Option ℕ → FileTable → ℕ → ℕ → ℕ → Mem → Outcome (Result ℕ × FileTable × Mem)
add_at none ft permissions offset vn m = ret (err Errno.enomem, ft, m)
add_at (some spot) ft permissions offset vn m = do
  m1 ← acquire (ft.ftp spot) m
  let m2 = update m1 (ft.ftp spot) (occupied (entry ft m1 spot) permissions offset vn)
  r ← find_first_free_spot ft (release (ft.ftp spot) m2)
  ret (ok spot, r.0, r.1)

-- `addEntry`; the error stands for the raised `errFlag`.
unfoldable pub add_entry : FileTable → ℕ → ℕ → ℕ → Mem → Outcome (Result ℕ × FileTable × Mem)
unfolding add_at
add_entry ft permissions offset vn m = add_at ft.first_free_spot ft permissions offset vn m

-- `addIoEntry`, called with the slots 0, 1 and 2
unfoldable pub add_io_entry : FileTable → ℕ → ℕ → ℕ → Mem → Outcome (FileTable × Mem)
add_io_entry ft permissions vn fd m = do
  m1 ← acquire (ft.ftp fd) m
  let m2 = update m1 (ft.ftp fd) (occupied (entry ft m1 fd) permissions 0 vn)
  find_first_free_spot ft (release (ft.ftp fd) m2)

-- `stdio_init`, over the results of the three calls of `vfs_open`
unfoldable pub stdio_init :
    FileTable → Result ℕ → Result ℕ → Result ℕ → Mem → Outcome (Result (Unit {0}) × FileTable × Mem)
stdio_init ft (err e) opened_out opened_err m = ret (err e, ft, m)
stdio_init ft (ok vn_in) (err e) opened_err m = do
  r ← add_io_entry ft 1 vn_in 0 m
  ret (err e, r.0, r.1)
stdio_init ft (ok vn_in) (ok vn_out) (err e) m = do
  r ← add_io_entry ft 1 vn_in 0 m
  s ← add_io_entry r.0 2 vn_out 1 r.1
  ret (err e, s.0, s.1)
stdio_init ft (ok vn_in) (ok vn_out) (ok vn_err) m = do
  r ← add_io_entry ft 1 vn_in 0 m
  s ← add_io_entry r.0 2 vn_out 1 r.1
  t ← add_io_entry s.0 2 vn_err 2 s.1
  ret (ok tt, t.0, t.1)

-- `getEntry`: an index outside the array reads a wild pointer.
abbrev pub get_entry : FileTable → ℕ → Outcome ℕ
get_entry ft fd = if ltb fd open_max then ret (ft.ftp fd) else panic

-- `clean_fd`
unfoldable pub clean_fd : FileTable → ℕ → Mem → Outcome (FileTable × Mem)
clean_fd ft fd m = do
  p ← get_entry ft fd
  m1 ← acquire p m
  let m2 = update m1 p (record (m1 p) { flag = false; file = 0; offset = 0; permissions = 0 })
  find_first_free_spot ft (release p m2)

-- `isValid`
unfoldable pub is_valid : FileTable → ℕ → Mem → Outcome (Bool × Mem)
is_valid ft fd m = do
  p ← get_entry ft fd
  m1 ← acquire p m
  ret ((m1 p).flag && ((m1 p).permissions == 1 || (m1 p).permissions == 3), release p m1)

-- The second part of `addDupEntry`, which copies the entry.
unfoldable pub copy_entry : FileTable → ℕ → ℕ → Mem → Outcome (Result ℕ × FileTable × Mem)
copy_entry ft p newfd m = do
  q ← get_entry ft newfd
  m1 ← acquire q m
  let m2 = update m1 q (record (m1 q) {
    permissions = (m1 p).permissions;
    file = (m1 p).file;
    offset = (m1 p).offset;
    flag = true;
  })
  r ← find_first_free_spot ft (release q m2)
  ret (ok newfd, r.0, r.1)

-- The test of `firstFreeSpot` in `addDupEntry`, with the lock of the old entry `p` taken.
unfoldable pub copy_if_room :
    Option ℕ → FileTable → ℕ → ℕ → Mem → Outcome (Result ℕ × FileTable × Mem)
copy_if_room none ft p newfd m = ret (err Errno.enfile, ft, release p m)
copy_if_room (some spot) ft p newfd m = copy_entry ft p newfd (release p m)

-- What `addDupEntry` does once it has the lock of the old entry `p`.
unfoldable pub dup_locked : FileTable → ℕ → ℕ → ℕ → Mem → Outcome (Result ℕ × FileTable × Mem)
unfolding copy_if_room
dup_locked ft p oldfd newfd m =
    if oldfd == newfd
    then ret (ok newfd, ft, release p m)
    else if (m p).flag
    then copy_if_room ft.first_free_spot ft p newfd m
    else ret (err Errno.ebadf, ft, release p m)

-- `addDupEntry`
unfoldable pub add_dup_entry : FileTable → ℕ → ℕ → Mem → Outcome (Result ℕ × FileTable × Mem)
add_dup_entry ft oldfd newfd m = do
  p ← get_entry ft oldfd
  m1 ← acquire p m
  dup_locked ft p oldfd newfd m1

-- The loop of `fork_ft`. Where the parent's entry is taken, the child's slot then points to it, so
-- the second release is of the parent's lock too.
unfoldable pub share_entries : ℕ → ℕ → FileTable → FileTable → Mem → Outcome (FileTable × Mem)
share_entries zero i parent child m = ret (child, m)
share_entries (suc rounds) i parent child m = do
  m1 ← acquire (parent.ftp i) m
  m2 ← acquire (child.ftp i) m1
  let child' =
      if (entry parent m2 i).flag
      then record child { ftp = λ j. if i == j then parent.ftp i else child.ftp j }
      else child
  let m3 = release (parent.ftp i) m2
  share_entries rounds (i + 1) parent child' (release (child'.ftp i) m3)

-- `fork_ft`
unfoldable pub fork_ft : FileTable → FileTable → Mem → Outcome (FileTable × Mem)
fork_ft parent child m = do
  r ← share_entries open_max 0 parent child m
  find_first_free_spot r.0 r.1
