-- ===== src/Sfs/Itrunc.antt =====
-- sfs_itrunc of src/kern/fs/sfs/sfs_bmap.c: the part for the indirect block, and the whole.
use ed_operating_system.Prelude.{
  ℕ, ◌%◌, ◌^◌, ◌+◌, ◌*◌, ◌≡◌, Bool, ◌&&◌, ◌||◌, ltb, leb, Result, ok, err,
}
use ed_operating_system.Sfs.{Vnode, Fs}
use ed_operating_system.Sfs.Disk.{Device}
use ed_operating_system.Sfs.Alloc.{IsMounted}
use ed_operating_system.Sfs.Shrink.{Cuts}

module _ {D : Type 0} (dev : Device D) where
  -- The blocks that a file of that many bytes loses: a direct block that starts at its end or past it,
  -- and a block of the indirect block that starts a whole block past its end or later.
  abbrev pub past_end : ℕ → ℕ → Bool
  past_end len j = (ltb j 15 && leb len (j * 512)) || (leb 15 j && leb (len + 512) (j * 512))

  -- The result of sfs_itrunc.
  abbrev pub TruncPost : Vnode → ℕ → Fs D → Result (Unit {0}) × Vnode × Fs D → Type 0
  TruncPost v len fs (ok u, v', fs') =
      (v'.inode.size ≡ len % 2 ^ 32) × Cuts dev (past_end len) v fs v' fs'
  TruncPost v len fs (err e, v', fs') = IsMounted dev fs' × (v'.inode.size ≡ v.inode.size)
