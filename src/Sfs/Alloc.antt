-- ===== src/Sfs/Alloc.antt =====
-- Block input and output and block allocation of src/kern/fs/sfs (sfs_io.c, sfs_balloc.c).
use native.Mathlib.Decide.{dec_lt}
use ed_operating_system.Prelude.{
  ℕ, zero, suc, ◌<◌, ◌≤◌, ◌≡◌, ◌≢◌, inl, inr, refl, ap, ◌∙◌, true, false, List, replicate,
  if◌then◌else◌, ◌==◌, lt→ltb, Result, ok, err, Errno, Returns, Returns->>=, Bool-cases, arith,
}
use ed_operating_system.Bitmap.{Bitmap, isset, alloc, unmark}
use ed_operating_system.Bitmap.Spec.{IsValid, Sets, unmark_lem}
use ed_operating_system.Bitmap.Alloc.{AllocPost, alloc_lem}
use ed_operating_system.Sfs.{
  Fs, dbperidb, is_einval, is_eio, rwblock, readblock, writeblock, clearblock, cleared, allocated,
  balloc,
}
use ed_operating_system.Sfs.Disk.{Device}

not_einval : {A : Type 0} (r : Result A) → r ≢ err Errno.einval → is_einval r ≡ false
not_einval (ok a) h = refl
not_einval (err e) h = ground arith

-- Retrying keeps what one try keeps, and the last try says what the result tells.
pub rwblock_lem :
    {A D : Type 0} (Kept : D → Type 0) (Done : Result A × D → Type 0) (io : D → Result A × D)
    → ((d : D) → Kept d → ((io d).0 ≢ err Errno.einval) × Kept (io d).1 × Done (io d))
    → (n : ℕ) (d : D) → Kept d
    → Returns (λ r. Kept r.1 × Done r) (rwblock n io d)
unfolding rwblock
rwblock_lem Kept Done io step zero d h = rw (not_einval _ (step d h).0) ((step d h).1, (step d h).2)
rwblock_lem Kept Done io step (suc n) d h =
    rw (not_einval _ (step d h).0) (elim (Bool-cases (is_eio (io d).0)) [
      | inl again ↦ rw again (rwblock_lem Kept Done io step n (io d).1 (step d h).1)
      | inr over ↦ rw over ((step d h).1, (step d h).2)
    ])

module _ {D : Type 0} (dev : Device D) where
  -- What the disk holds outside one block, and anywhere.
  abbrev pub SameBut : ℕ → D → D → Type 0
  SameBut b d d' = (c : ℕ) → b ≢ c → dev.contents d' c ≡ dev.contents d c

  abbrev pub Same : D → D → Type 0
  Same d d' = (c : ℕ) → dev.contents d' c ≡ dev.contents d c

  -- Only the disk's state may differ.
  pub record OnDisk (fs fs' : Fs D) : Type 0 where
    pub map_kept : fs'.freemap ≡ fs.freemap
    pub size_kept : fs'.nblocks ≡ fs.nblocks

  -- An error that the disk gave for a read.
  abbrev pub IsReadError : Errno → Type 0
  IsReadError e = (b : ℕ) × ((d : D) × ((dev.read b d).0 ≡ err e))

  -- What a read of block `b` gives: what the block holds, or an error of the disk.
  abbrev pub ReadValue : ℕ → D → Result (List ℕ) → Type 0
  ReadValue b d (ok words) = words ≡ dev.contents d b
  ReadValue b d (err e) = IsReadError e

  read-ReadValue :
      (b : ℕ) (d0 d : D) (r : Result (List ℕ)) → Same d0 d → (dev.read b d).0 ≡ r → ReadValue b d0 r
  read-ReadValue b d0 d (ok words) same e = dev.read_gives b d words e ∙ same b
  read-ReadValue b d0 d (err x) same e = (b, (d, e))

  -- The result of sfs_readblock.
  abbrev pub ReadPost : ℕ → Fs D → Result (List ℕ) × Fs D → Type 0
  ReadPost b fs (r, fs') = OnDisk fs fs' × Same fs.disk fs'.disk × ReadValue b fs.disk r

  pub readblock_lem :
      (b : ℕ) (fs : Fs D) → b < dev.blocks → Returns (ReadPost b fs) (readblock dev b fs)
  unfolding readblock
  readblock_lem b fs below =
      Returns->>= (λ r. Same fs.disk r.1 × ReadValue b fs.disk r.0) (ReadPost b fs)
        (rwblock 10 (dev.read b) fs.disk) _
        (rwblock_lem (Same fs.disk) (λ r. ReadValue b fs.disk r.0) (dev.read b)
          (λ d same. (
            dev.read_in_range b d below,
            λ c. dev.read_keeps b c d ∙ same c,
            read-ReadValue b fs.disk d (dev.read b d).0 same refl,
          ))
          10 fs.disk (λ c. refl))
        (λ r h. (record { map_kept = refl; size_kept = refl }, h.0, h.1))

  -- The result of sfs_writeblock.
  abbrev pub WritePost : ℕ → List ℕ → Fs D → Result (Unit {0}) × Fs D → Type 0
  WritePost b words fs (r, fs') =
      OnDisk fs fs' × SameBut b fs.disk fs'.disk × (r ≡ ok tt → dev.contents fs'.disk b ≡ words)

  pub writeblock_lem :
      (b : ℕ) (words : List ℕ) (fs : Fs D)
      → b < dev.blocks
      → Returns (WritePost b words fs) (writeblock dev b words fs)
  unfolding writeblock
  writeblock_lem b words fs below =
      Returns->>= (λ r. SameBut b fs.disk r.1 × (r.0 ≡ ok tt → dev.contents r.1 b ≡ words))
        (WritePost b words fs) (rwblock 10 (dev.write b words) fs.disk) _
        (rwblock_lem (SameBut b fs.disk) _ (dev.write b words)
          (λ d same. (
            dev.write_in_range b words d below,
            λ c ne. dev.write_keeps b c words d ne ∙ same c ne,
            dev.write_gives b words d,
          ))
          10 fs.disk (λ c ne. refl))
        (λ r h. (record { map_kept = refl; size_kept = refl }, h.0, h.1))

  -- A mounted file system: the free map is valid, the boot block is in use, as is all past the end of
  -- the file system, and the device has the blocks that the file system counts.
  pub record IsMounted (fs : Fs D) : Type 0 where
    pub valid : IsValid fs.freemap
    pub boot : isset fs.freemap 0 ≡ true
    pub tail : (b : ℕ) → fs.nblocks ≤ b → b < fs.freemap.nbits → isset fs.freemap b ≡ true
    pub covers : fs.nblocks ≤ fs.freemap.nbits
    pub fits : fs.nblocks ≤ dev.blocks

  -- The file system is still mounted, has its size, and no block in use was freed or changed on disk.
  pub record Grows (fs fs' : Fs D) : Type 0 where
    pub mounted : IsMounted fs'
    pub size : fs'.nblocks ≡ fs.nblocks
    pub used : (b : ℕ) → isset fs.freemap b ≡ true → isset fs'.freemap b ≡ true
    pub kept :
        (b : ℕ) → isset fs.freemap b ≡ true → dev.contents fs'.disk b ≡ dev.contents fs.disk b

  -- The result of sfs_balloc: a block other than 0 that was free and now is zero and in use, alone; or an
  -- error, and the same blocks in use.
  abbrev pub BallocPost : Fs D → Result ℕ × Fs D → Type 0
  BallocPost fs (ok b, fs') =
      (b ≢ 0)
      × (b < fs.nblocks)
      × (isset fs.freemap b ≡ false)
      × ((c : ℕ) → isset fs'.freemap c ≡ (if b == c then true else isset fs.freemap c))
      × (dev.contents fs'.disk b ≡ replicate dbperidb 0)
      × Grows fs fs'
  BallocPost fs (err e, fs') = ((c : ℕ) → isset fs'.freemap c ≡ isset fs.freemap c) × Grows fs fs'

  grow :
      (b : ℕ) (fs fs' : Fs D)
      → IsMounted fs
      → isset fs.freemap b ≡ false
      → IsValid fs'.freemap
      → fs'.freemap.nbits ≡ fs.freemap.nbits
      → fs'.nblocks ≡ fs.nblocks
      → ((c : ℕ) → isset fs.freemap c ≡ true → isset fs'.freemap c ≡ true)
      → SameBut b fs.disk fs'.disk
      → Grows fs fs'
  grow b fs fs' m free valid nbits nblocks used same = record {
    mounted = record {
      valid = valid;
      boot = used 0 m.boot;
      tail = λ c lo hi. used c (m.tail c (omega arith) (omega arith));
      covers = omega arith;
      fits = omega arith;
    };
    size = nblocks;
    used = used;
    kept = λ c u. same c (λ e. ground (arith, ap (isset fs.freemap) e));
  }

  cleared-BallocPost :
      (b : ℕ) (fs fs1 : Fs D)
      → IsMounted fs
      → b < fs.nblocks
      → isset fs.freemap b ≡ false
      → Sets fs.freemap b true fs1.freemap
      → fs1.nblocks ≡ fs.nblocks
      → fs1.disk ≡ fs.disk
      → (r : Result (Unit {0}) × Fs D) → WritePost b (replicate dbperidb 0) fs1 r
      → Returns (BallocPost fs) (cleared dev b r)
  unfolding cleared
  cleared-BallocPost b fs fs1 m below free sets size disk (ok u, fs2) (on, same, gives) =
      let marked : (c : ℕ) → isset fs2.freemap c ≡ (if b == c then true else isset fs.freemap c) =
        λ c. ap (λ f. isset f c) on.map_kept ∙ sets.only c in
      (
        λ e. ground (arith, ap (isset fs.freemap) e),
        below,
        free,
        marked,
        gives refl,
        grow b fs fs2 m free (rw on.map_kept sets.valid) (rw on.map_kept sets.size) (omega arith)
            (λ c u. ground (arith, marked c)) (λ c ne. same c ne ∙ ap (λ d. dev.contents d c) disk),
      )
  cleared-BallocPost b fs fs1 m below free sets size disk (err e, fs2) (on, same, gives) =
      let set2 : isset fs2.freemap b ≡ true =
        ap (λ f. isset f b) on.map_kept ∙ ground (arith, sets.only b) in
      Returns->>= (Sets fs2.freemap b false) (BallocPost fs) (unmark fs2.freemap b) _
        (unmark_lem b (rw on.map_kept sets.valid)
          (omega (arith, m.covers, sets.size, ap Bitmap.nbits on.map_kept)) set2)
        (λ f h.
          let back : (c : ℕ) → isset f c ≡ isset fs.freemap c = λ c. ground (
            arith,
            h.only c,
            sets.only c,
            ap (λ g. isset g c) on.map_kept,
            ap (isset fs.freemap),
          ) in
          (
            back,
            grow b fs (record fs2 { freemap = f }) m free h.valid
                (h.size ∙ ap Bitmap.nbits on.map_kept ∙ sets.size) (omega arith) (λ c u. back c ∙ u)
                (λ c ne. same c ne ∙ ap (λ d. dev.contents d c) disk),
          ))

  -- Nothing changed.
  pub Grows-refl : (fs : Fs D) → IsMounted fs → Grows fs fs
  Grows-refl fs m = record { mounted = m; size = refl; used = λ b u. u; kept = λ b u. refl }

  allocated-BallocPost :
      (fs : Fs D) (r : Result ℕ × Bitmap)
      → IsMounted fs
      → AllocPost fs.freemap r
      → Returns (BallocPost fs) (allocated dev fs r)
  unfolding allocated clearblock
  allocated-BallocPost fs (err e, f) m (what, same, full) =
      (λ c. ap (λ g. isset g c) same, rw same (Grows-refl fs m))
  allocated-BallocPost fs (ok b, f) m (lt, free, first, sets) =
      let below : b < fs.nblocks = elim (dec_lt b fs.nblocks) [
        | yes l ↦ l
        | no g ↦ absurd (ground (arith, m.tail b (omega arith) lt))
      ] in
      let fs1 : Fs D = record fs { freemap = f; freemap_dirty = true } in
      rw (lt→ltb _ _ below) (
        Returns->>= (WritePost b (replicate dbperidb 0) fs1) (BallocPost fs)
          (writeblock dev b (replicate dbperidb 0) fs1) (cleared dev b)
          (writeblock_lem b (replicate dbperidb 0) fs1 (omega (arith, m.fits)))
          (cleared-BallocPost b fs fs1 m below free sets refl refl))

  pub balloc_lem : (fs : Fs D) → IsMounted fs → Returns (BallocPost fs) (balloc dev fs)
  unfolding balloc
  balloc_lem fs m =
      Returns->>= (AllocPost fs.freemap) (BallocPost fs) (alloc fs.freemap) (allocated dev fs)
        (alloc_lem m.valid) (λ r h. allocated-BallocPost fs r m h)
