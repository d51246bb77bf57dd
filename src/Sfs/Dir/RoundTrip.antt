-- ===== src/Sfs/Dir/RoundTrip.antt =====
-- sfs_dir_findname after sfs_dir_link, both of src/kern/fs/sfs/sfs_dir.c.
use ed_operating_system.Prelude.{ℕ, ◌≡◌, Option, Result, ok, err}
use ed_operating_system.Sfs.{Vnode, Fs}
use ed_operating_system.Sfs.Disk.{Device}
use ed_operating_system.Sfs.Alloc.{IsReadError}

module _ {D : Type 0} (dev : Device D) where
  -- A search that gives the slot and the inode number, or an error of the disk.
  abbrev pub Finds : ℕ → ℕ → Result (ℕ × ℕ) × Option ℕ × Vnode × Fs D → Type 0
  Finds slot ino (ok (s, i), empty, v, fs) = (s ≡ slot) × (i ≡ ino)
  Finds slot ino (err e, empty, v, fs) = IsReadError dev e
