-- ===== src/Sfs/Lookup.antt =====
-- sfs_bmap of src/kern/fs/sfs/sfs_bmap.c without allocation.
use native.Mathlib.Decide.{dec_lt}
use ed_operating_system.Prelude.{
  Bool, ◌&&◌, subst, ℕ, ◌-◌, ◌/◌, ◌%◌, ◌<◌, ◌≤◌, ◌≡◌, ◌≢◌, ◌⊎◌, inl, inr, refl, ap, sym, ◌∙◌, true,
  false, List, get_or, ◌==◌, lt→ltb, le→ltb, ==_iff, ==-ne, Bool-cases, ret, Result, ok, err, Errno,
  Returns, Returns->>=, arith,
}
use ed_operating_system.Bitmap.{isset}
use ed_operating_system.Sfs.{Vnode, Fs, ndirect, dbperidb, bused, readblock}
use ed_operating_system.Sfs.Disk.{Device}
use ed_operating_system.Sfs.Alloc.{IsMounted, OnDisk, Same, IsReadError, ReadPost, readblock_lem}
use ed_operating_system.Sfs.Mapping.{max_blocks, InUse, file_block, IsMapped}
use ed_operating_system.Sfs.Bmap.{
  nindirect, hand_back, bmap_direct, bmap_indirect, loaded, in_indirect, bmap,
}

and_false : (b : Bool) → (b && false) ≡ false
and_false true = refl
and_false false = refl

module _ {D : Type 0} (dev : Device D) where
  -- What is in use is handed back as it is.
  pub hand_back_lem :
      (v : Vnode) (fs : Fs D) (b : ℕ)
      → (b ≢ 0 → InUse fs b)
      → hand_back dev v fs b ≡ ret (ok b, v, fs)
  unfolding hand_back bused
  hand_back_lem v fs b h = elim (Bool-cases (b == 0)) [
    | inl z ↦ rw (z, (==_iff b 0).0 z)
    | inr nz ↦ let u : InUse fs b = h (λ z. ground arith) in rw (nz, lt→ltb _ _ u.0, u.1)
  ]

  -- The result of sfs_bmap when it may not allocate.
  abbrev pub LookupPost : Vnode → Fs D → ℕ → Result ℕ × Vnode × Fs D → Type 0
  LookupPost v fs k (ok b, v', fs') =
      (k < max_blocks)
      × (b ≡ file_block dev v fs.disk k)
      × (v' ≡ v)
      × OnDisk dev fs fs'
      × Same dev fs.disk fs'.disk
  LookupPost v fs k (err e, v', fs') =
      (((max_blocks ≤ k) × (e ≡ Errno.efbig))
        ⊎ ((ndirect ≤ k) × (k < max_blocks) × (v.inode.indirect ≢ 0) × IsReadError dev e))
      × (v' ≡ v)
      × OnDisk dev fs fs'
      × Same dev fs.disk fs'.disk

  on_itself : (fs : Fs D) → OnDisk dev fs fs × Same dev fs.disk fs.disk
  on_itself fs = (record { map_kept = refl; size_kept = refl }, λ c. refl)

  module _ (v : Vnode) (fs : Fs D) (m : IsMapped dev fs v) (mounted : IsMounted dev fs) where
    pub direct_block :
        (k : ℕ) → k < ndirect → get_or v.inode.direct k 0 ≡ file_block dev v fs.disk k
    unfolding file_block
    direct_block k lt = rw (lt→ltb k ndirect lt)

    pub indirect_block :
        (k : ℕ)
        → ndirect ≤ k
        → v.inode.indirect ≢ 0
        → get_or (dev.contents fs.disk v.inode.indirect) (k - ndirect) 0
          ≡ file_block dev v fs.disk k
    unfolding file_block
    indirect_block k ge nz = rw (le→ltb k ndirect ge, ==-ne _ _ nz)

    pub no_block : (k : ℕ) → ndirect ≤ k → v.inode.indirect ≡ 0 → 0 ≡ file_block dev v fs.disk k
    unfolding file_block
    no_block k ge z = rw (le→ltb k ndirect ge, (==_iff _ _).1 z)

    -- Handing back what the map says leaves everything as it is.
    found :
        (k b : ℕ)
        → k < max_blocks
        → b ≡ file_block dev v fs.disk k
        → (fs' : Fs D) → OnDisk dev fs fs'
        → Same dev fs.disk fs'.disk
        → Returns (LookupPost v fs k) (hand_back dev v fs' b)
    found k b lt e fs' on same =
        let used : b ≢ 0 → InUse fs' b = λ nz.
          let u : InUse fs b = subst (InUse fs) (sym e) (m.blocks_used k lt (λ z. nz (e ∙ z))) in
          (omega (arith, u.0, on.size_kept), ap (λ f. isset f b) on.map_kept ∙ u.1) in
        rw (hand_back_lem v fs' b used) (lt, e, refl, on, same)

    bmap_direct-LookupPost :
        (k : ℕ) → k < ndirect → Returns (LookupPost v fs k) (bmap_direct dev v fs k false)
    unfolding bmap_direct
    bmap_direct-LookupPost k lt = rw (and_false (get_or v.inode.direct k 0 == 0)) (
        found k (get_or v.inode.direct k 0) (omega arith) (direct_block k lt) fs (on_itself fs).0
          (on_itself fs).1)

    loaded-LookupPost :
        (k : ℕ)
        → ndirect ≤ k
        → k < max_blocks
        → v.inode.indirect ≢ 0
        → (r : Result (List ℕ) × Fs D) → ReadPost dev v.inode.indirect fs r
        → Returns (LookupPost v fs k) (loaded dev v v.inode.indirect (k - ndirect) false r)
    unfolding loaded in_indirect
    loaded-LookupPost k ge lt nz (err e, fs') (on, same, gives) =
        (inr (ge, lt, nz, gives), refl, on, same)
    loaded-LookupPost k ge lt nz (ok idbuf, fs') (on, same, gives) =
        rw (and_false (get_or idbuf (k - ndirect) 0 == 0)) (
          found k (get_or idbuf (k - ndirect) 0) lt
            (ap (λ w. get_or w (k - ndirect) 0) (gives) ∙ indirect_block k ge nz) fs' on same)

    bmap_indirect-LookupPost :
        (k : ℕ)
        → ndirect ≤ k
        → k < max_blocks
        → Returns (LookupPost v fs k) (bmap_indirect dev v fs (k - ndirect) false)
    unfolding bmap_indirect
    bmap_indirect-LookupPost k ge lt = elim (Bool-cases (v.inode.indirect == 0)) [
      | inl z ↦
          rw z (lt, no_block k ge ((==_iff _ _).0 z), refl, (on_itself fs).0, (on_itself fs).1)
      | inr d ↦
          let nz : v.inode.indirect ≢ 0 = λ z. ground arith in
          let u : InUse fs v.inode.indirect = m.indirect_used nz in
          rw d (
            Returns->>= (ReadPost dev v.inode.indirect fs) (LookupPost v fs k)
              (readblock dev v.inode.indirect fs)
              (loaded dev v v.inode.indirect (k - ndirect) false)
              (readblock_lem dev v.inode.indirect fs (omega (arith, u.0, mounted.fits)))
              (λ r h. loaded-LookupPost k ge lt nz r h))
    ]

  -- sfs_bmap without allocation, on a well-formed file of a mounted file system, returns and changes
  -- neither the file, nor the free map, nor what the disk holds. What it gives is the block of the map of
  -- the file; it fails with EFBIG past the last possible block, and else only where it has to read an
  -- indirect block, with an error of the disk.
  pub bmap_lookup_lem :
      (v : Vnode) (fs : Fs D) (k : ℕ)
      → IsMapped dev fs v
      → IsMounted dev fs
      → Returns (LookupPost v fs k) (bmap dev v fs k false)
  unfolding bmap
  bmap_lookup_lem v fs k m mounted = elim (dec_lt k ndirect) [
    | yes lt ↦ rw (lt→ltb k ndirect lt) (bmap_direct-LookupPost v fs m mounted k lt)
    | no ge ↦ elim (dec_lt k max_blocks) [
      | yes lt ↦
          let low : (k - ndirect) / dbperidb < nindirect = omega arith in
          let offset : (k - ndirect) % dbperidb ≡ k - ndirect = omega arith in
          rw (le→ltb k ndirect (omega arith), lt→ltb _ _ low, offset)
            (bmap_indirect-LookupPost v fs m mounted k (omega arith) lt)
      | no far ↦
          rw
            (
              le→ltb k ndirect (omega arith),
              le→ltb ((k - ndirect) / dbperidb) nindirect (omega arith),
            )
            (inl (omega arith, refl), refl, (on_itself fs).0, (on_itself fs).1)
    ]
  ]
