-- ===== src/Sfs/Bmap.antt =====
-- sfs_bmap of src/kern/fs/sfs/sfs_bmap.c: the disk block of a block of a file.
use ed_operating_system.Prelude.{
  ℕ, ◌-◌, ◌/◌, ◌%◌, Bool, true, ◌&&◌, List, get_or, set, replicate, ltb, ◌==◌, if◌then◌else◌,
  Outcome, ret, panic, ◌>>=◌, Result, ok, err, Errno,
}
use ed_operating_system.Sfs.{Vnode, Fs, ndirect, dbperidb, balloc, bused, readblock, writeblock}
use ed_operating_system.Sfs.Disk.{Device}

abbrev pub nindirect : ℕ
nindirect = 1

module _ {D : Type 0} (dev : Device D) where
  -- How it ends: a block that is marked free is a fault of the file system.
  unfoldable pub hand_back : Vnode → Fs D → ℕ → Outcome (Result ℕ × Vnode × Fs D)
  hand_back v fs block =
      if block == 0
      then ret (ok 0, v, fs)
      else (bused dev block fs >>= λ used. if used then ret (ok block, v, fs) else panic)

  -- A direct block that was just allocated.
  unfoldable pub direct_got : Vnode → ℕ → Result ℕ × Fs D → Outcome (Result ℕ × Vnode × Fs D)
  direct_got v k (err e, fs) = ret (err e, v, fs)
  direct_got v k (ok block, fs) =
      hand_back
        (record { inode = record v.inode { direct = set v.inode.direct k block }; dirty = true }) fs
        block

  -- The part for the direct blocks.
  unfoldable pub bmap_direct : Vnode → Fs D → ℕ → Bool → Outcome (Result ℕ × Vnode × Fs D)
  bmap_direct v fs k doalloc =
      let block = get_or v.inode.direct k 0 in
      if block == 0 && doalloc then (balloc dev fs >>= direct_got v k) else hand_back v fs block

  -- The indirect block was written back.
  unfoldable pub written : Vnode → ℕ → Result (Unit {0}) × Fs D → Outcome (Result ℕ × Vnode × Fs D)
  written v block (err e, fs) = ret (err e, v, fs)
  written v block (ok u, fs) = hand_back v fs block

  -- A block of the indirect block's that was just allocated.
  unfoldable pub indirect_got :
      Vnode → ℕ → List ℕ → ℕ → Result ℕ × Fs D → Outcome (Result ℕ × Vnode × Fs D)
  indirect_got v idblock idbuf idoff (err e, fs) = ret (err e, v, fs)
  indirect_got v idblock idbuf idoff (ok block, fs) =
      writeblock dev idblock (set idbuf idoff block) fs >>= written v block

  -- With the indirect block in the buffer `idbuf`.
  unfoldable pub in_indirect :
      Vnode → Fs D → ℕ → List ℕ → ℕ → Bool → Outcome (Result ℕ × Vnode × Fs D)
  in_indirect v fs idblock idbuf idoff doalloc =
      let block = get_or idbuf idoff 0 in
      if block == 0 && doalloc
      then (balloc dev fs >>= indirect_got v idblock idbuf idoff)
      else hand_back v fs block

  -- The indirect block was read.
  unfoldable pub loaded :
      Vnode → ℕ → ℕ → Bool → Result (List ℕ) × Fs D → Outcome (Result ℕ × Vnode × Fs D)
  loaded v idblock idoff doalloc (err e, fs) = ret (err e, v, fs)
  loaded v idblock idoff doalloc (ok idbuf, fs) = in_indirect v fs idblock idbuf idoff doalloc

  -- The indirect block was allocated.
  unfoldable pub new_indirect :
      Vnode → ℕ → Bool → Result ℕ × Fs D → Outcome (Result ℕ × Vnode × Fs D)
  new_indirect v idoff doalloc (err e, fs) = ret (err e, v, fs)
  new_indirect v idoff doalloc (ok idblock, fs) =
      in_indirect (record { inode = record v.inode { indirect = idblock }; dirty = true }) fs
        idblock (replicate dbperidb 0) idoff doalloc

  -- The part for the indirect block.
  unfoldable pub bmap_indirect : Vnode → Fs D → ℕ → Bool → Outcome (Result ℕ × Vnode × Fs D)
  bmap_indirect v fs idoff doalloc =
      if v.inode.indirect == 0
      then (if doalloc then (balloc dev fs >>= new_indirect v idoff doalloc) else ret (ok 0, v, fs))
      else (readblock dev v.inode.indirect fs >>= loaded v v.inode.indirect idoff doalloc)

  -- `sfs_bmap`
  unfoldable pub bmap : Vnode → Fs D → ℕ → Bool → Outcome (Result ℕ × Vnode × Fs D)
  bmap v fs fileblock doalloc =
      if ltb fileblock ndirect
      then bmap_direct v fs fileblock doalloc
      else if ltb ((fileblock - ndirect) / dbperidb) nindirect
      then bmap_indirect v fs ((fileblock - ndirect) % dbperidb) doalloc
      else ret (err Errno.efbig, v, fs)
