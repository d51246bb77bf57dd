-- ===== src/Sfs.antt =====
-- SFS, the file system of src/kern/fs/sfs: block input and output (sfs_io.c), block allocation
-- (sfs_balloc.c), and the map from the blocks of a file to those of the disk (sfs_bmap.c). A block is
-- its 128 32-bit words. All of it runs under the one lock of the file systems.
pub mod Disk
pub mod Bmap
pub mod Trunc
pub mod Alloc
pub mod Mapping
pub mod Lookup
pub mod Extend
pub mod Indirect
pub mod Prepare
pub mod Discard
pub mod Shrink
pub mod Cut
pub mod Settle
pub mod Itrunc
pub mod Meta
pub mod Dir
mod Tests
use ed_operating_system.Prelude.{
  ℕ, zero, suc, ◌+◌, Bool, true, false, Option, some, List, replicate, ltb, ◌==◌, if◌then◌else◌,
  Outcome, ret, panic, ◌>>=◌, Result, ok, err, Errno,
}
use ed_operating_system.Bitmap
use ed_operating_system.Bitmap.{Bitmap}
use ed_operating_system.Sfs.Disk.{Device}

abbrev pub ndirect : ℕ
ndirect = 15

abbrev pub dbperidb : ℕ
dbperidb = 128

abbrev pub blocksize : ℕ
blocksize = 512

-- `struct sfs_dinode`: the size, the type (`sfi_type`) and the block numbers; 0 is no block. What the
-- operations on blocks do not use is left out of this and the next two records.
pub record Inode : Type 0 where
  pub size : ℕ
  pub kind : ℕ
  pub direct : List ℕ
  pub indirect : ℕ

-- `struct sfs_vnode`
pub record Vnode : Type 0 where
  pub inode : Inode
  pub dirty : Bool

-- `struct sfs_fs`, with the state of its device.
pub record Fs (D : Type 0) : Type 0 where
  pub freemap : Bitmap
  pub freemap_dirty : Bool
  pub nblocks : ℕ
  pub disk : D

-- Whether `sfs_rwblock` tries again.
abbrev pub is_eio : {A : Type 0} → Result A → Bool
is_eio (ok a) = false
is_eio (err Errno.eio) = true
is_eio (err e) = false

abbrev pub is_einval : {A : Type 0} → Result A → Bool
is_einval (ok a) = false
is_einval (err Errno.einval) = true
is_einval (err e) = false

-- `sfs_rwblock`, with that many retries left.
unfoldable pub rwblock : {A D : Type 0} → ℕ → (D → Result A × D) → D → Outcome (Result A × D)
rwblock zero io d = let r = io d in if is_einval r.0 then panic else ret r
rwblock (suc retries) io d =
    let r = io d in
    let again = rwblock retries io r.1 in
    if is_einval r.0 then panic else if is_eio r.0 then again else ret r

module _ {D : Type 0} (dev : Device D) where
  -- `sfs_readblock`; the first call and ten retries.
  unfoldable pub readblock : ℕ → Fs D → Outcome (Result (List ℕ) × Fs D)
  readblock block fs =
      rwblock 10 (dev.read block) fs.disk >>= λ r. ret (r.0, record fs { disk = r.1 })

  -- `sfs_writeblock`
  unfoldable pub writeblock : ℕ → List ℕ → Fs D → Outcome (Result (Unit {0}) × Fs D)
  writeblock block words fs =
      rwblock 10 (dev.write block words) fs.disk >>= λ r. ret (r.0, record fs { disk = r.1 })

  -- `sfs_clearblock`
  unfoldable pub clearblock : ℕ → Fs D → Outcome (Result (Unit {0}) × Fs D)
  clearblock block fs = writeblock block (replicate dbperidb 0) fs

  -- `sfs_bfree`
  unfoldable pub bfree : ℕ → Fs D → Outcome (Fs D)
  bfree block fs = do
    freemap ← Bitmap.unmark fs.freemap block
    ret (record fs { freemap = freemap; freemap_dirty = true })

  -- `sfs_bused`
  unfoldable pub bused : ℕ → Fs D → Outcome Bool
  bused block fs = if ltb block fs.nblocks then ret (Bitmap.isset fs.freemap block) else panic

  -- `sfs_balloc` after `sfs_clearblock`.
  unfoldable pub cleared : ℕ → Result (Unit {0}) × Fs D → Outcome (Result ℕ × Fs D)
  cleared block (ok u, fs) = ret (ok block, fs)
  cleared block (err e, fs) = do
    freemap ← Bitmap.unmark fs.freemap block
    ret (err e, record fs { freemap = freemap })

  -- `sfs_balloc` after `bitmap_alloc`.
  unfoldable pub allocated : Fs D → Result ℕ × Bitmap → Outcome (Result ℕ × Fs D)
  allocated fs (err e, freemap) = ret (err e, record fs { freemap = freemap })
  allocated fs (ok block, freemap) =
      let fs1 = record fs { freemap = freemap; freemap_dirty = true } in
      if ltb block fs.nblocks then (clearblock block fs1 >>= cleared block) else panic

  -- `sfs_balloc`
  unfoldable pub balloc : Fs D → Outcome (Result ℕ × Fs D)
  balloc fs = Bitmap.alloc fs.freemap >>= allocated fs
