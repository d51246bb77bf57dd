-- ===== src/Sfs/Cut.antt =====
-- sfs_itrunc of src/kern/fs/sfs/sfs_bmap.c: its loops as cuts of a segment of the map of the file, and
-- the loop over the direct blocks.
use native.Mathlib.Decide.{dec_lt}
use ed_operating_system.Prelude.{
  ℕ, ◌+◌, ◌-◌, ◌<◌, ◌≤◌, ◌≡◌, ◌≢◌, refl, ap, sym, ◌∙◌, subst, Bool, true, false, ◌&&◌, List, length,
  get_or, ltb, leb, if◌then◌else◌, lt→ltb, le→ltb, arith,
}
use ed_operating_system.Bitmap.{isset}
use ed_operating_system.Sfs.{Vnode, Fs, ndirect}
use ed_operating_system.Sfs.Disk.{Device}
use ed_operating_system.Sfs.Alloc.{IsMounted}
use ed_operating_system.Sfs.Mapping.{max_blocks, InUse, file_block, IsMapped}
use ed_operating_system.Sfs.Lookup.{direct_block}
use ed_operating_system.Sfs.Discard.{Discarded, CanDiscard}
use ed_operating_system.Sfs.Shrink.{Cuts, cut-IsMapped}
use ed_operating_system.Sfs.Trunc.{with_direct}

-- The direct blocks that are cut at a length of that many blocks, and those of the indirect block: of
-- them the first past the length is not cut.
abbrev pub cuts_direct : ℕ → ℕ → Bool
cuts_direct blocklen j = ltb j ndirect && leb blocklen j

abbrev pub cuts_indirect : ℕ → ℕ → Bool
cuts_indirect blocklen j = leb ndirect j && leb (blocklen + 1) j

module _ {D : Type 0} (dev : Device D) where
  -- A segment of the map of a file, from index `i` on, kept in a list.
  module _ {v : Vnode} {fs : Fs D} (m : IsMapped dev fs v) (cut i : ℕ) (bs : List ℕ)
      (fits : i + length bs ≤ max_blocks)
      (at : (n : ℕ) → n < length bs → get_or bs n 0 ≡ file_block dev v fs.disk (i + n)) where
    pub segment-CanDiscard : CanDiscard dev cut i bs fs
    segment-CanDiscard = record {
      used = λ n h.
          subst (InUse fs) (sym (at n h.0))
            (m.blocks_used (i + n) (omega (arith, h.0)) (λ z. h.2 (at n h.0 ∙ z)));
      distinct = λ n k h h' same.
          let e : i + n ≡ i + k =
            m.distinct (i + n) (i + k) (omega (arith, h.0)) (omega (arith, h'.0))
              (λ z. h.2 (at n h.0 ∙ z)) (sym (at n h.0) ∙ same ∙ at k h'.0) in
          omega arith;
    }

    segment_at :
        (j : ℕ) → i ≤ j → j < i + length bs → get_or bs (j - i) 0 ≡ file_block dev v fs.disk j
    segment_at j lo hi =
        let e : i + (j - i) ≡ j = omega arith in
        at (j - i) (omega arith) ∙ ap (file_block dev v fs.disk) e

    module _ {r : List ℕ × Bool × Fs D} (d : Discarded dev cut i bs fs r) where
      pub segment_freed :
          (j : ℕ)
          → i ≤ j
          → j < i + length bs
          → cut ≤ j
          → file_block dev v fs.disk j ≢ 0
          → isset r.2.freemap (file_block dev v fs.disk j) ≡ false
      segment_freed j lo hi past nz =
          let e : get_or bs (j - i) 0 ≡ file_block dev v fs.disk j = segment_at j lo hi in
          subst (λ x. isset r.2.freemap x ≡ false) e
            (d.freed (j - i) (omega arith, omega arith, λ z. nz (sym e ∙ z)))

      pub segment_kept :
          (c : ℕ)
          → ((j : ℕ)
              → i ≤ j
              → j < i + length bs
              → cut ≤ j
              → file_block dev v fs.disk j ≢ 0
              → file_block dev v fs.disk j ≢ c)
          → isset r.2.freemap c ≡ isset fs.freemap c
      segment_kept c none = d.kept c (λ n h e.
          none (i + n) (omega arith) (omega (arith, h.0)) h.1 (λ z. h.2 (at n h.0 ∙ z))
            (sym (at n h.0) ∙ e))

      -- What stays in the map stays in use, and so does the indirect block.
      pub segment_stays :
          (j : ℕ)
          → j < max_blocks
          → file_block dev v fs.disk j ≢ 0
          → ((i ≤ j) → (j < i + length bs) → j < cut)
          → isset r.2.freemap (file_block dev v fs.disk j) ≡ true
      segment_stays j hj nz out =
          segment_kept (file_block dev v fs.disk j) (λ k lo hi past nz' e.
            let same : k ≡ j = m.distinct k j (omega arith) hj nz' e in
            let below : j < cut = out (omega arith) (omega arith) in omega arith)
          ∙ (m.blocks_used j hj nz).1

      pub segment_indirect : v.inode.indirect ≢ 0 → isset r.2.freemap v.inode.indirect ≡ true
      segment_indirect nz =
          segment_kept v.inode.indirect (λ j lo hi past nz' e. m.apart j (omega arith) nz' e)
          ∙ (m.indirect_used nz).1

  module _ (v : Vnode) (fs : Fs D) (m : IsMapped dev fs v) (mounted : IsMounted dev fs) where
    at_direct :
        (n : ℕ)
        → n < length v.inode.direct
        → get_or v.inode.direct n 0 ≡ file_block dev v fs.disk (0 + n)
    at_direct n lt =
        let e : 0 + n ≡ n = omega arith in
        direct_block dev v fs m mounted n (omega (arith, m.directs))
        ∙ ap (file_block dev v fs.disk) (sym e)

    pub CanDiscard-direct : (cut : ℕ) → CanDiscard dev cut 0 v.inode.direct fs
    CanDiscard-direct cut =
        segment-CanDiscard m cut 0 v.inode.direct (omega (arith, m.directs)) at_direct

    direct_entries :
        (cut : ℕ) (r : List ℕ × Bool × Fs D)
        → Discarded dev cut 0 v.inode.direct fs r
        → (j : ℕ) → j < max_blocks
        → file_block dev (with_direct v r.0 r.1) r.2.disk j
          ≡ (if cuts_direct cut j then 0 else file_block dev v fs.disk j)
    unfolding file_block
    direct_entries cut r h j hj = elim (dec_lt j ndirect) [
      | yes low ↦
          let e : 0 + j ≡ j = omega arith in rw (lt→ltb j ndirect low) (rw e at (h.entries j))
      | no high ↦ rw (le→ltb j ndirect (omega arith), h.disk)
    ]

    -- The loop over the direct blocks.
    pub direct-Cuts :
        (cut : ℕ) (r : List ℕ × Bool × Fs D)
        → Discarded dev cut 0 v.inode.direct fs r
        → Cuts dev (cuts_direct cut) v fs (with_direct v r.0 r.1) r.2
    direct-Cuts cut r h =
        let fits : 0 + length v.inode.direct ≤ max_blocks = omega (arith, m.directs) in
        let out : (j : ℕ)
            → cuts_direct cut j ≡ false
            → 0 ≤ j
            → j < 0 + length v.inode.direct
            → j < cut =
          λ j k lo hi. ground (arith, m.directs) in
        record {
          mapped =
              cut-IsMapped dev (cuts_direct cut) v (with_direct v r.0 r.1) fs r.2 m h.size
                (direct_entries cut r h)
                (λ j hj k nz.
                  segment_stays m cut 0 v.inode.direct fits at_direct h j hj nz (out j k))
                (h.count ∙ m.directs)
                (λ nz. (
                  refl,
                  (
                    omega (arith, h.size, (m.indirect_used nz).0),
                    segment_indirect m cut 0 v.inode.direct fits at_direct h nz,
                  ),
                  rw h.disk (m.indirects nz),
                ));
          mounted = h.mounted;
          size = h.size;
          entries = direct_entries cut r h;
          freed = λ j hj c nz.
              segment_freed m cut 0 v.inode.direct fits at_direct h j (omega arith)
                (ground (arith, c, m.directs)) (ground (arith, c)) nz;
          kept = λ c nz other none.
              segment_kept m cut 0 v.inode.direct fits at_direct h c
                (λ j lo hi past nz' e. none j (omega arith) (ground (arith, m.directs)) e);
        }
