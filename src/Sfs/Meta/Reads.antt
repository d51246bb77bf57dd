-- ===== src/Sfs/Meta/Reads.antt =====
-- sfs_metaio of src/kern/fs/sfs/sfs_io.c as a read.
use ed_operating_system.Prelude.{
  ℕ, ◌+◌, ◌*◌, ◌/◌, ◌%◌, ◌^◌, ◌<◌, ◌≤◌, ◌≡◌, ◌≢◌, ◌⊎◌, Errno, inl, inr, refl, ap, sym, ◌∙◌, subst,
  true, false, List, ◌==◌, leb, ==_iff, Bool-cases, Result, ok, err, Returns, Returns->>=, arith,
}
use ed_operating_system.Sfs.{Vnode, Fs, blocksize, dbperidb, readblock}
use ed_operating_system.Sfs.Disk.{Device}
use ed_operating_system.Sfs.Alloc.{IsMounted, OnDisk, Same, IsReadError, ReadPost, readblock_lem}
use ed_operating_system.Sfs.Mapping.{max_blocks, InUse, file_block, IsMapped}
use ed_operating_system.Sfs.Bmap.{bmap}
use ed_operating_system.Sfs.Lookup.{LookupPost, bmap_lookup_lem}
use ed_operating_system.Sfs.Meta.{uio_read, slice, meta_loaded, meta_hole, meta_mapped, metaio}
use ed_operating_system.Sfs.Meta.Words.{file_words, slice-file_words, replicate-file_words}

module _ {D : Type 0} (dev : Device D) where
  -- The result of a read of `n` words from word `p` of the file on.
  abbrev pub MetaReadPost : Vnode → Fs D → ℕ → ℕ → Result (List ℕ) × Vnode × Fs D → Type 0
  MetaReadPost v fs p n (ok words, v', fs') =
      (words ≡ file_words dev v fs.disk p n)
      × (v' ≡ v)
      × OnDisk dev fs fs'
      × Same dev fs.disk fs'.disk
  MetaReadPost v fs p n (err e, v', fs') =
      (((max_blocks ≤ p / dbperidb) × (e ≡ Errno.efbig)) ⊎ IsReadError dev e)
      × (v' ≡ v)
      × OnDisk dev fs fs'
      × Same dev fs.disk fs'.disk

  pub OnDisk-trans :
      {fs fs1 fs2 : Fs D} → OnDisk dev fs fs1 → OnDisk dev fs1 fs2 → OnDisk dev fs fs2
  OnDisk-trans f g = record {
    map_kept = g.map_kept ∙ f.map_kept;
    size_kept = g.size_kept ∙ f.size_kept;
  }

  module _ (v : Vnode) (fs : Fs D) (p n : ℕ) (m : IsMapped dev fs v) (mounted : IsMounted dev fs)
      (fits : p % dbperidb + n ≤ dbperidb) where
    loaded-MetaReadPost :
        (b : ℕ) (fs1 : Fs D)
        → b ≡ file_block dev v fs.disk (p / dbperidb)
        → b ≢ 0
        → OnDisk dev fs fs1
        → Same dev fs.disk fs1.disk
        → (r : Result (List ℕ) × Fs D) → ReadPost dev b fs1 r
        → Returns (MetaReadPost v fs p n) (meta_loaded dev (4 * p) (uio_read n) b v r)
    unfolding meta_loaded
    loaded-MetaReadPost b fs1 e nz on1 same1 (err x, fs2) (on, same, gives) =
        (inr gives, refl, OnDisk-trans on1 on, λ c. same c ∙ same1 c)
    loaded-MetaReadPost b fs1 e nz on1 same1 (ok buf, fs2) (on, same, gives) =
        let word : 4 * p % blocksize / 4 ≡ p % dbperidb = omega arith in
        let inside : leb (p % dbperidb + n) dbperidb ≡ true = ground arith in
        let whole : buf ≡ dev.contents fs.disk (file_block dev v fs.disk (p / dbperidb)) =
          gives ∙ same1 b ∙ ap (dev.contents fs.disk) e in
        rw (word, inside)
          (
            ap (λ w. slice w (p % dbperidb) n) whole
                ∙ slice-file_words dev n v fs.disk (p / dbperidb) (p % dbperidb) p (omega arith)
                    fits (λ z. nz (e ∙ z)),
            refl,
            OnDisk-trans on1 on,
            λ c. same c ∙ same1 c,
          )

    mapped-MetaReadPost :
        (r : Result ℕ × Vnode × Fs D)
        → LookupPost dev v fs (p / dbperidb) r
        → Returns (MetaReadPost v fs p n) (meta_mapped dev (4 * p) (uio_read n) r)
    unfolding meta_mapped meta_hole
    mapped-MetaReadPost (err x, v1, fs1) (inl big, same_v, on, same) = (inl big, same_v, on, same)
    mapped-MetaReadPost (err x, v1, fs1) (inr there, same_v, on, same) =
        (inr there.3, same_v, on, same)
    mapped-MetaReadPost (ok b, v1, fs1) (lt, e, same_v, on, same) = elim (Bool-cases (b == 0)) [
      | inl z ↦ rw z (
        replicate-file_words dev n v fs.disk (p / dbperidb) (p % dbperidb) p (omega arith) fits
            (sym e ∙ (==_iff b 0).0 z),
        same_v,
        on,
        same,
      )
      | inr d ↦
          let nz : b ≢ 0 = λ z. ground arith in
          let used : InUse fs b =
            subst (InUse fs) (sym e) (m.blocks_used (p / dbperidb) lt (λ z. nz (e ∙ z))) in
          rw (d, same_v)
            (Returns->>= (ReadPost dev b fs1) (MetaReadPost v fs p n) (readblock dev b fs1)
              (meta_loaded dev (4 * p) (uio_read n) b v)
              (readblock_lem dev b fs1 (omega (arith, used.0, mounted.fits)))
              (λ r h. loaded-MetaReadPost b fs1 e nz on same r h))
    ]

  -- sfs_metaio as a read of `n` words, from word `p` of a well-formed file of a mounted file system on
  -- and within one block, `p` below 2^39, where the number of the block fits 32 bits, returns: a success
  -- gives the words of the file, zeros where it has no block; a failure is EFBIG past the last possible
  -- block or an error of the disk; and no outcome changes the file, the free map or what the disk holds.
  pub metaio_read_lem :
      (v : Vnode) (fs : Fs D) (p n : ℕ)
      → IsMapped dev fs v
      → IsMounted dev fs
      → p < 2 ^ 39
      → p % dbperidb + n ≤ dbperidb
      → Returns (MetaReadPost v fs p n) (metaio dev v fs (4 * p) (uio_read n))
  unfolding metaio
  metaio_read_lem v fs p n m mounted below fits =
      let block : 4 * p / blocksize % 2 ^ 32 ≡ p / dbperidb = omega arith in
      rw block (
        Returns->>= (LookupPost dev v fs (p / dbperidb)) (MetaReadPost v fs p n)
          (bmap dev v fs (p / dbperidb) false) (meta_mapped dev (4 * p) (uio_read n))
          (bmap_lookup_lem dev v fs (p / dbperidb) m mounted)
          (λ r h. mapped-MetaReadPost v fs p n m mounted fits r h))
