-- ===== src/Sfs/Meta.antt =====
-- sfs_metaio of src/kern/fs/sfs/sfs_io.c: a region of one block of a directory. Positions and lengths
-- are in bytes and multiples of four; the data are words.
pub mod Words
pub mod Reads
pub mod Writes
pub mod Update
pub mod Effect
use ed_operating_system.Prelude.{
  ℕ, zero, suc, ◌+◌, ◌*◌, ◌/◌, ◌%◌, ◌^◌, Bool, true, false, List, [], ◌∷◌, length, get_or, set,
  replicate, ltb, leb, ◌==◌, if◌then◌else◌, Outcome, ret, panic, ◌>>=◌, Result, ok, err,
}
use ed_operating_system.Sfs.{Inode, Vnode, Fs, blocksize, dbperidb, readblock, writeblock}
use ed_operating_system.Sfs.Disk.{Device}
use ed_operating_system.Sfs.Bmap.{bmap}

-- The direction, with the number of words that are asked for or the words that are given.
pub data Transfer : Type 0 where
  uio_read : ℕ → Transfer
  uio_write : List ℕ → Transfer

abbrev pub is_write : Transfer → Bool
is_write (uio_read n) = false
is_write (uio_write data') = true

-- `memcpy` out of the buffer and into it.
unfoldable pub slice : List ℕ → ℕ → ℕ → List ℕ
slice buf offset zero = []
slice buf offset (suc n) = get_or buf offset 0 ∷ slice buf (offset + 1) n

unfoldable pub splice : List ℕ → ℕ → List ℕ → List ℕ
splice buf offset [] = buf
splice buf offset (w ∷ ws) = splice (set buf offset w) (offset + 1) ws

-- The size of the file after a write up to `endpos`.
abbrev pub resize : ℕ → Vnode → Vnode
resize endpos v =
    if ltb v.inode.size endpos
    then record { inode = record v.inode { size = endpos % 2 ^ 32 }; dirty = true }
    else v

module _ {D : Type 0} (dev : Device D) where
  abbrev pub MetaOutcome : Type 0
  MetaOutcome = Outcome (Result (List ℕ) × Vnode × Fs D)

  -- After `sfs_writeblock`.
  unfoldable pub meta_written : ℕ → Vnode → Result (Unit {0}) × Fs D → MetaOutcome
  meta_written endpos v (err e, fs) = ret (err e, v, fs)
  meta_written endpos v (ok u, fs) = ret (ok [], resize endpos v, fs)

  -- With the block in the buffer. A region that leaves the buffer is an access outside an object.
  unfoldable pub meta_loaded : ℕ → Transfer → ℕ → Vnode → Result (List ℕ) × Fs D → MetaOutcome
  meta_loaded actualpos io block v (err e, fs) = ret (err e, v, fs)
  meta_loaded actualpos (uio_read n) block v (ok buf, fs) =
      let offset = actualpos % blocksize / 4 in
      if leb (offset + n) dbperidb then ret (ok (slice buf offset n), v, fs) else panic
  meta_loaded actualpos (uio_write ws) block v (ok buf, fs) =
      let offset = actualpos % blocksize / 4 in
      if leb (offset + length ws) dbperidb
      then (writeblock dev block (splice buf offset ws) fs
          >>= meta_written (actualpos + 4 * length ws) v)
      else panic

  -- No block there.
  unfoldable pub meta_hole : Transfer → Vnode → Fs D → MetaOutcome
  meta_hole (uio_read n) v fs = ret (ok (replicate n 0), v, fs)
  meta_hole (uio_write ws) v fs = panic

  -- After `sfs_bmap`.
  unfoldable pub meta_mapped : ℕ → Transfer → Result ℕ × Vnode × Fs D → MetaOutcome
  meta_mapped actualpos io (err e, v, fs) = ret (err e, v, fs)
  meta_mapped actualpos io (ok block, v, fs) =
      if block == 0
      then meta_hole io v fs
      else (readblock dev block fs >>= meta_loaded actualpos io block v)

  -- `sfs_metaio`; the number of the block is kept in 32 bits.
  unfoldable pub metaio : Vnode → Fs D → ℕ → Transfer → MetaOutcome
  metaio v fs actualpos io =
      bmap dev v fs (actualpos / blocksize % 2 ^ 32) (is_write io) >>= meta_mapped actualpos io
