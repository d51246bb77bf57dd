-- ===== src/Sfs/Trunc.antt =====
-- sfs_itrunc of src/kern/fs/sfs/sfs_bmap.c: cutting a file to a length.
use ed_operating_system.Prelude.{
  ℕ, ◌+◌, ◌-◌, ◌/◌, ◌%◌, ◌^◌, Bool, true, false, ◌&&◌, ◌||◌, not, List, [], ◌∷◌, ltb, leb, ◌==◌,
  if◌then◌else◌, Outcome, ret, ◌>>=◌, Result, ok, err,
}
use ed_operating_system.Sfs.{Vnode, Fs, ndirect, dbperidb, blocksize, bfree, readblock, writeblock}
use ed_operating_system.Sfs.Disk.{Device}

-- The length in blocks, rounded up and cut to 32 bits.
abbrev pub block_length : ℕ → ℕ
block_length len = (len + blocksize - 1) / blocksize % 2 ^ 32

-- The vnode after the loop over the direct blocks.
abbrev pub with_direct : Vnode → List ℕ → Bool → Vnode
with_direct v bs changed = record {
  inode = record v.inode { direct = bs };
  dirty = changed || v.dirty;
}

abbrev pub has_nonzero : List ℕ → Bool
has_nonzero [] = false
has_nonzero (b ∷ bs) = not (b == 0) || has_nonzero bs

module _ {D : Type 0} (dev : Device D) where
  -- A loop over block numbers from index `i` on: those with an index of at least `cut` are freed. The
  -- flag says whether there were any.
  unfoldable pub discard : ℕ → ℕ → List ℕ → Fs D → Outcome (List ℕ × Bool × Fs D)
  discard cut i [] fs = ret ([], false, fs)
  discard cut i (b ∷ bs) fs =
      let past = leb cut i && not (b == 0) in
      (if past then bfree dev b fs else ret fs) >>= λ fs1.
      discard cut (i + 1) bs fs1 >>= λ r. ret ((if past then 0 else b) ∷ r.0, past || r.1, r.2)

  -- Where the indirect block has no more blocks it is freed, else it is written back if it changed.
  unfoldable pub settle_indirect :
      Vnode → List ℕ × Bool × Fs D → Outcome (Result (Unit {0}) × Vnode × Fs D)
  settle_indirect v (idbuf, iddirty, fs) =
      if has_nonzero idbuf
      then (if iddirty
          then (writeblock dev v.inode.indirect idbuf fs >>= λ r. ret (r.0, v, r.1))
          else ret (ok tt, v, fs))
      else (bfree dev v.inode.indirect fs >>= λ fs1.
          ret (ok tt, record { inode = record v.inode { indirect = 0 }; dirty = true }, fs1))

  -- The indirect block was read. The test of the source, `blocklen < baseblock + j`, frees the block
  -- with the index `j` if `j` is at least `blocklen + 1 - baseblock`.
  unfoldable pub trunc_loaded :
      Vnode → ℕ → Result (List ℕ) × Fs D → Outcome (Result (Unit {0}) × Vnode × Fs D)
  trunc_loaded v blocklen (err e, fs) = ret (err e, v, fs)
  trunc_loaded v blocklen (ok idbuf, fs) =
      discard (blocklen + 1) ndirect idbuf fs >>= settle_indirect v

  -- The part for the indirect block.
  unfoldable pub trunc_indirect : Vnode → ℕ → Fs D → Outcome (Result (Unit {0}) × Vnode × Fs D)
  trunc_indirect v blocklen fs =
      if ltb blocklen (ndirect + dbperidb - 1) && not (v.inode.indirect == 0)
      then (readblock dev v.inode.indirect fs >>= trunc_loaded v blocklen)
      else ret (ok tt, v, fs)

  -- How it ends: the size is set, unless an input or output failed.
  abbrev pub resized : ℕ → Result (Unit {0}) × Vnode × Fs D → Result (Unit {0}) × Vnode × Fs D
  resized len (err e, v, fs) = (err e, v, fs)
  resized len (ok u, v, fs) =
      (ok tt, record { inode = record v.inode { size = len }; dirty = true }, fs)

  -- `sfs_itrunc`; the size is stored in 32 bits.
  unfoldable pub itrunc : Vnode → ℕ → Fs D → Outcome (Result (Unit {0}) × Vnode × Fs D)
  itrunc v len fs = discard (block_length len) 0 v.inode.direct fs >>= λ r.
      trunc_indirect (with_direct v r.0 r.1) (block_length len) r.2 >>= λ s.
      ret (resized (len % 2 ^ 32) s)
