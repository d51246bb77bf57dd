-- ===== src/Sfs/Settle.antt =====
-- sfs_itrunc of src/kern/fs/sfs/sfs_bmap.c: how the part for the indirect block ends.
use native.Mathlib.Decide.{dec_lt}
use ed_operating_system.Prelude.{
  ℕ, zero, suc, ◌+◌, ◌-◌, ◌<◌, ◌≤◌, ◌≡◌, ◌≢◌, inl, inr, refl, ap, sym, ◌∙◌, Bool, true, false, List,
  [], ◌∷◌, length, get_or, if◌then◌else◌, lt→ltb, le→ltb, ==_iff, ==-ne, Bool-cases, Result, ok,
  err, Returns, Returns->>=, arith,
}
use ed_operating_system.Bitmap.{isset}
use ed_operating_system.Sfs.{Vnode, Fs, ndirect, dbperidb, bfree, writeblock}
use ed_operating_system.Sfs.Disk.{Device}
use ed_operating_system.Sfs.Alloc.{IsMounted, WritePost, writeblock_lem}
use ed_operating_system.Sfs.Extend.{OnDisk-IsMounted}
use ed_operating_system.Sfs.Mapping.{max_blocks, InUse, file_block, IsMapped}
use ed_operating_system.Sfs.Lookup.{indirect_block}
use ed_operating_system.Sfs.Discard.{Discarded, Frees, bfree-Frees}
use ed_operating_system.Sfs.Shrink.{Cuts, cut-IsMapped}
use ed_operating_system.Sfs.Cut.{
  cuts_indirect, segment_freed, segment_kept, segment_stays, segment_indirect,
}
use ed_operating_system.Sfs.Trunc.{has_nonzero, settle_indirect}

has_nonzero-get_or : (bs : List ℕ) → has_nonzero bs ≡ false → (n : ℕ) → get_or bs n 0 ≡ 0
has_nonzero-get_or [] h n = refl
has_nonzero-get_or (b ∷ bs) h zero = ground (arith, h)
has_nonzero-get_or (b ∷ bs) h (suc n) = has_nonzero-get_or bs (ground (arith, h)) n

module _ {D : Type 0} (dev : Device D) where
  low_block :
      (v : Vnode) (d : D) (j : ℕ) → j < ndirect → file_block dev v d j ≡ get_or v.inode.direct j 0
  unfolding file_block
  low_block v d j low = rw (lt→ltb j ndirect low)

  high_block :
      (v : Vnode) (d : D) (j : ℕ)
      → ndirect ≤ j
      → v.inode.indirect ≢ 0
      → file_block dev v d j ≡ get_or (dev.contents d v.inode.indirect) (j - ndirect) 0
  unfolding file_block
  high_block v d j ge nz = rw (le→ltb j ndirect ge, ==-ne v.inode.indirect 0 nz)

  pub no_indirect :
      (v : Vnode) (d : D) (j : ℕ) → ndirect ≤ j → v.inode.indirect ≡ 0 → file_block dev v d j ≡ 0
  unfolding file_block
  no_indirect v d j ge z = rw (le→ltb j ndirect ge, (==_iff _ _).1 z)

  -- The file after its indirect block was freed.
  abbrev without_indirect : Vnode → Vnode
  without_indirect v = record { inode = record v.inode { indirect = 0 }; dirty = true }

  -- The result of the part for the indirect block.
  abbrev pub PartPost : ℕ → Vnode → Fs D → Result (Unit {0}) × Vnode × Fs D → Type 0
  PartPost blocklen v fs (ok u, v', fs') = Cuts dev (cuts_indirect blocklen) v fs v' fs'
  PartPost blocklen v fs (err e, v', fs') = IsMounted dev fs' × (v' ≡ v)

  module _ (v : Vnode) (fs : Fs D) (m : IsMapped dev fs v) (mounted : IsMounted dev fs)
      (has : v.inode.indirect ≢ 0) (idbuf : List ℕ)
      (now : idbuf ≡ dev.contents fs.disk v.inode.indirect) (blocklen : ℕ) where
    count : length idbuf ≡ dbperidb
    count = ap length now ∙ m.indirects has

    pub fits : ndirect + length idbuf ≤ max_blocks
    fits = omega (arith, count)

    pub at : (n : ℕ) → n < length idbuf → get_or idbuf n 0 ≡ file_block dev v fs.disk (ndirect + n)
    at n lt =
        let e : ndirect + n - ndirect ≡ n = omega arith in
        ap (λ w. get_or w n 0) now
        ∙ rw e at (indirect_block dev v fs m mounted (ndirect + n) (omega arith) has)

    module _ (r : List ℕ × Bool × Fs D) (h : Discarded dev (blocklen + 1) ndirect idbuf fs r) where
      entry :
          (j : ℕ)
          → ndirect ≤ j
          → get_or r.0 (j - ndirect) 0
            ≡ (if cuts_indirect blocklen j then 0 else file_block dev v fs.disk j)
      entry j ge =
          let e : ndirect + (j - ndirect) ≡ j = omega arith in
          ground (
            arith,
            rw e at (h.entries (j - ndirect)),
            ap (λ w. get_or w (j - ndirect) 0) now ∙ indirect_block dev v fs m mounted j ge has,
          )

      -- After the loop, with the indirect block settled in one way or another.
      settled :
          (v2 : Vnode) (fs2 : Fs D)
          → IsMounted dev fs2
          → fs2.nblocks ≡ fs.nblocks
          → ((c : ℕ) → c ≢ v.inode.indirect → isset fs2.freemap c ≡ isset r.2.freemap c)
          → ((j : ℕ)
              → j < max_blocks
              → file_block dev v2 fs2.disk j
                ≡ (if cuts_indirect blocklen j then 0 else file_block dev v fs.disk j))
          → v2.inode.direct ≡ v.inode.direct
          → (v2.inode.indirect ≢ 0
              → (v2.inode.indirect ≡ v.inode.indirect)
                × InUse fs2 v2.inode.indirect
                × (length (dev.contents fs2.disk v2.inode.indirect) ≡ dbperidb))
          → Cuts dev (cuts_indirect blocklen) v fs v2 fs2
      settled v2 fs2 mounted2 size state entries directs indirect = record {
        mapped =
            cut-IsMapped dev (cuts_indirect blocklen) v v2 fs fs2 m size entries
              (λ j hj k nz.
                state (file_block dev v fs.disk j) (m.apart j hj nz)
                ∙ segment_stays dev m (blocklen + 1) ndirect idbuf fits at h j hj nz
                    (λ lo hi. ground (arith, k)))
              (ap length directs ∙ m.directs) indirect;
        mounted = mounted2;
        size = size;
        entries = entries;
        freed = λ j hj c nz.
            state (file_block dev v fs.disk j) (m.apart j hj nz)
            ∙ segment_freed dev m (blocklen + 1) ndirect idbuf fits at h j (ground (arith, c))
                (omega (arith, count)) (ground (arith, c)) nz;
        kept = λ c nz other none.
            state c other
            ∙ segment_kept dev m (blocklen + 1) ndirect idbuf fits at h c
                (λ j lo hi past nz' e. none j (omega (arith, count)) (ground arith) e);
      }

      -- The indirect block holds what the loop left.
      rewritten :
          (fs2 : Fs D)
          → IsMounted dev fs2
          → fs2.freemap ≡ r.2.freemap
          → fs2.nblocks ≡ fs.nblocks
          → dev.contents fs2.disk v.inode.indirect ≡ r.0
          → Cuts dev (cuts_indirect blocklen) v fs v fs2
      rewritten fs2 mounted2 same size holds =
          settled v fs2 mounted2 size (λ c other. ap (λ f. isset f c) same)
            (λ j hj. elim (dec_lt j ndirect) [
              | yes low ↦ ground (arith, low_block v fs2.disk j low, low_block v fs.disk j low)
              | no high ↦
                  high_block v fs2.disk j (omega arith) has
                  ∙ ap (λ w. get_or w (j - ndirect) 0) holds
                  ∙ entry j (omega arith)
            ])
            refl
            (λ nz. (
              refl,
              (
                omega (arith, size, (m.indirect_used nz).0),
                ap (λ f. isset f v.inode.indirect) same
                    ∙ segment_indirect dev m (blocklen + 1) ndirect idbuf fits at h nz,
              ),
              ap length holds ∙ h.count ∙ count,
            ))

      -- The indirect block was freed.
      dropped :
          (fs2 : Fs D)
          → has_nonzero r.0 ≡ false
          → Frees dev v.inode.indirect r.2 fs2
          → Cuts dev (cuts_indirect blocklen) v fs (without_indirect v) fs2
      dropped fs2 none f =
          settled (without_indirect v) fs2 f.mounted (f.size ∙ h.size)
            (λ c other. f.only c ∙ rw (==-ne v.inode.indirect c (λ e. other (sym e))))
            (λ j hj. elim (dec_lt j ndirect) [
              | yes low ↦
                  ground (
                    arith,
                    low_block (without_indirect v) fs2.disk j low,
                    low_block v fs.disk j low,
                  )
              | no high ↦
                  no_indirect (without_indirect v) fs2.disk j (omega arith) refl
                  ∙ sym (has_nonzero-get_or r.0 none (j - ndirect))
                  ∙ entry j (omega arith)
            ])
            refl (λ nz. absurd (nz refl))

      wrote :
          (w : Result (Unit {0}) × Fs D)
          → WritePost dev v.inode.indirect r.0 r.2 w
          → PartPost blocklen v fs (w.0, v, w.1)
      wrote (err e, fs2) (on, same, gives) = (OnDisk-IsMounted dev on h.mounted, refl)
      wrote (ok u, fs2) (on, same, gives) =
          rewritten fs2 (OnDisk-IsMounted dev on h.mounted) on.map_kept (on.size_kept ∙ h.size)
            (gives refl)

      pub settle_lem : Returns (PartPost blocklen v fs) (settle_indirect dev v r)
      unfolding settle_indirect
      settle_lem = elim (Bool-cases (has_nonzero r.0)) [
        | inl some_left ↦ rw some_left (elim (Bool-cases r.1) [
          | inl dirty ↦ rw dirty (
              Returns->>= (WritePost dev v.inode.indirect r.0 r.2) (PartPost blocklen v fs)
                (writeblock dev v.inode.indirect r.0 r.2) _
                (writeblock_lem dev v.inode.indirect r.0 r.2
                  (omega (arith, h.size, (m.indirect_used has).0, mounted.fits)))
                (λ w p. wrote w p))
          | inr clean ↦ rw clean (
              rewritten r.2 h.mounted refl h.size (
                ap (λ d. dev.contents d v.inode.indirect) h.disk
                ∙ sym now
                ∙ sym (h.unchanged clean)))
        ])
        | inr none ↦ rw none (
            Returns->>= (Frees dev v.inode.indirect r.2) (PartPost blocklen v fs)
              (bfree dev v.inode.indirect r.2) _
              (bfree-Frees dev v.inode.indirect r.2 h.mounted
                (
                  omega (arith, h.size, (m.indirect_used has).0),
                  segment_indirect dev m (blocklen + 1) ndirect idbuf fits at h has,
                )
                has)
              (λ fs2 f. dropped fs2 none f))
      ]
