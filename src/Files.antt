-- ===== src/Files.antt =====
-- Open files: src/kern/syscall/filetable.c (the table of a process) and src/kern/syscall/fsyscall.c (the
-- system calls on it). A table holds pointers to entries in kernel memory, since fork makes two
-- tables point to the same entries. A lock of an entry is the flag `locked`: acquiring a lock that
-- is taken waits, and nothing else runs in between.
pub mod Table
pub mod Interface
pub mod Calls
pub mod Inv
pub mod Slots
pub mod Close
pub mod Dup
pub mod Offsets
mod Tests
use ed_operating_system.Prelude.{
  ℕ, ◌+◌, Bool, true, false, Option, none, some, ◌==◌, ltb, if◌then◌else◌, Outcome, ret, panic,
  blocked,
}

abbrev pub open_max : ℕ
open_max = 32

-- `struct fte`; `file` is a pointer to a vnode, 0 for NULL; `offset` is a 64-bit `off_t` in two's
-- complement.
pub record Fte : Type 0 where
  pub flag : Bool
  pub file : ℕ
  pub offset : ℕ
  pub permissions : ℕ
  pub locked : Bool

-- The entries, by their address.
abbrev pub Mem : Type 0
Mem = ℕ → Fte

abbrev pub update : Mem → ℕ → Fte → Mem
update m p e q = if p == q then e else m q

-- `struct fileTablePtr`; -1 in `firstFreeSpot` is `none`.
pub record FileTable : Type 0 where
  pub ftp : ℕ → ℕ
  pub first_free_spot : Option ℕ

-- The entry that a slot of a table points to.
abbrev pub entry : FileTable → Mem → ℕ → Fte
entry ft m i = m (ft.ftp i)

-- `lock_acquire` of an entry's lock.
abbrev pub acquire : ℕ → Mem → Outcome Mem
acquire p m = if (m p).locked then blocked else ret (update m p (record (m p) { locked = true }))

-- `lock_release`, which does not ask who holds the lock.
abbrev pub release : ℕ → Mem → Mem
release p m = update m p (record (m p) { locked = false })
