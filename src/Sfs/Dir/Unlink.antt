-- ===== src/Sfs/Dir/Unlink.antt =====
-- sfs_dir_unlink of src/kern/fs/sfs/sfs_dir.c.
use ed_operating_system.Prelude.{ℕ, ◌<◌, ◌≡◌, ◌≢◌, List, Result, ok, err}
use ed_operating_system.Sfs.{Vnode, Fs}
use ed_operating_system.Sfs.Disk.{Device}
use ed_operating_system.Sfs.Alloc.{IsMounted}
use ed_operating_system.Sfs.Dir.{noino}
use ed_operating_system.Sfs.Dir.Entries.{entry_at}
use ed_operating_system.Sfs.Dir.Scan.{max_slots}
use ed_operating_system.Sfs.Dir.Find.{IsDirectory}
use ed_operating_system.Sfs.Dir.Link.{slots_of}

module _ {D : Type 0} (dev : Device D) where
  -- The result of sfs_dir_unlink: the slot is free, the other slots and the number of slots are as before.
  abbrev pub UnlinkPost : Vnode → Fs D → ℕ → Result (List ℕ) × Vnode × Fs D → Type 0
  UnlinkPost v fs slot (ok words, v', fs') =
      IsDirectory dev fs' v'
      × (slots_of v' ≡ slots_of v)
      × ((entry_at dev v' fs'.disk slot).ino ≡ noino)
      × ((j : ℕ) → j < max_slots → j ≢ slot → entry_at dev v' fs'.disk j ≡ entry_at dev v fs.disk j)
  UnlinkPost v fs slot (err e, v', fs') = IsMounted dev fs'
