-- ===== src/Sfs/Indirect.antt =====
-- sfs_bmap of src/kern/fs/sfs/sfs_bmap.c with allocation, past the direct blocks.
use native.Mathlib.Decide.{dec_lt}
use ed_operating_system.Prelude.{
  ℕ, ◌-◌, ◌<◌, ◌≤◌, ◌≡◌, ◌≢◌, inl, inr, refl, ap, sym, ◌∙◌, true, List, length, get_or, set,
  length-set, get_or-set_self, get_or-set_ne, ◌==◌, if◌then◌else◌, lt→ltb, le→ltb, ==_iff, ==-ne,
  Bool-cases, Result, ok, err, Returns, Returns->>=, arith,
}
use ed_operating_system.Bitmap.{isset}
use ed_operating_system.Sfs.{Vnode, Fs, ndirect, writeblock, balloc}
use ed_operating_system.Sfs.Disk.{Device}
use ed_operating_system.Sfs.Alloc.{
  IsMounted, Grows, OnDisk, SameBut, WritePost, BallocPost, writeblock_lem, balloc_lem,
}
use ed_operating_system.Sfs.Mapping.{max_blocks, file_block, IsMapped, GrowsBut, Grows-GrowsBut}
use ed_operating_system.Sfs.Lookup.{indirect_block}
use ed_operating_system.Sfs.Extend.{OnDisk-IsMounted, ExtendPost, present, placed}
use ed_operating_system.Sfs.Bmap.{written, indirect_got, in_indirect}

module _ {D : Type 0} (dev : Device D) where
  module _ (v : Vnode) (fs : Fs D) (m : IsMapped dev fs v) (mounted : IsMounted dev fs)
      (has : v.inode.indirect ≢ 0) (k : ℕ) (ge : ndirect ≤ k) (lt : k < max_blocks) where
    -- The map after the indirect block was written with block `k` set.
    set_indirect :
        (b : ℕ) (idbuf : List ℕ) (d : D)
        → idbuf ≡ dev.contents fs.disk v.inode.indirect
        → dev.contents d v.inode.indirect ≡ set idbuf (k - ndirect) b
        → (j : ℕ) → j < max_blocks
        → file_block dev v d j ≡ (if k == j then b else file_block dev v fs.disk j)
    unfolding file_block
    set_indirect b idbuf d now after j hj = elim (dec_lt j ndirect) [
      | yes low ↦ rw (lt→ltb j ndirect low, ==-ne k j (λ e. omega arith))
      | no high ↦
          rw (le→ltb j ndirect (omega arith), ==-ne v.inode.indirect 0 has, after)
            (elim (Bool-cases (k == j)) [
              | inl e ↦
                  rw (e, ← (==_iff k j).0 e)
                    (get_or-set_self idbuf (k - ndirect) b 0
                      (omega (arith, m.indirects has, ap length now)))
              | inr other ↦
                  rw (other, ← now)
                    (get_or-set_ne idbuf (k - ndirect) (j - ndirect) b 0 (λ e. ground arith))
            ])
    ]

    after_write :
        (fs1 fs2 : Fs D)
        → Grows dev fs fs1
        → OnDisk dev fs1 fs2
        → SameBut dev v.inode.indirect fs1.disk fs2.disk
        → GrowsBut dev v.inode.indirect fs fs2
    after_write fs1 fs2 g on same = record {
      mounted = OnDisk-IsMounted dev on g.mounted;
      size = on.size_kept ∙ g.size;
      used = λ c u. ap (λ f. isset f c) on.map_kept ∙ g.used c u;
      kept = λ c u only. same c (λ e. has (only (sym e))) ∙ g.kept c u;
    }

    written-ExtendPost :
        (b : ℕ) (idbuf : List ℕ) (fs1 : Fs D)
        → idbuf ≡ dev.contents fs.disk v.inode.indirect
        → file_block dev v fs.disk k ≡ 0
        → BallocPost dev fs (ok b, fs1)
        → (r : Result (Unit {0}) × Fs D)
        → WritePost dev v.inode.indirect (set idbuf (k - ndirect) b) fs1 r
        → Returns (ExtendPost dev v fs k) (written dev v b r)
    unfolding written
    written-ExtendPost b idbuf fs1 now z (nz, below, free, marked, zeros, g) (err e, fs2)
          (on, same, gives) =
        after_write fs1 fs2 g on same
    written-ExtendPost b idbuf fs1 now z (nz, below, free, marked, zeros, g) (ok u, fs2)
          (on, same, gives) =
        let now_used : (c : ℕ) → isset fs1.freemap c ≡ true → isset fs2.freemap c ≡ true =
          λ c h. ap (λ f. isset f c) on.map_kept ∙ h in
        let apart : v.inode.indirect ≢ b =
          λ e. ground (arith, ap (isset fs.freemap) e, (m.indirect_used has).1, free) in
        let after : dev.contents fs2.disk v.inode.indirect ≡ set idbuf (k - ndirect) b =
          gives refl in
        placed dev v fs m mounted k b lt z v fs2
          (record {
            used = λ c h. now_used c (g.used c h);
            size = on.size_kept ∙ g.size;
            fresh = free;
            taken = (omega (arith, g.size, on.size_kept), now_used b (ground (arith, marked b)));
            some_block = nz;
            zeroed = same b apart ∙ zeros;
            same_head = (refl, refl);
            directs = m.directs;
            indirects = λ i.
                ap length after ∙ length-set idbuf (k - ndirect) b ∙ ap length now ∙ m.indirects i;
            indirect = refl;
            only = set_indirect b idbuf fs2.disk now after;
          })
          (after_write fs1 fs2 g on same)

    indirect_got-ExtendPost :
        (idbuf : List ℕ)
        → idbuf ≡ dev.contents fs.disk v.inode.indirect
        → file_block dev v fs.disk k ≡ 0
        → (r : Result ℕ × Fs D) → BallocPost dev fs r
        → Returns
            (ExtendPost dev v fs k)
            (indirect_got dev v v.inode.indirect idbuf (k - ndirect) r)
    unfolding indirect_got
    indirect_got-ExtendPost idbuf now z (err e, fs1) (same, g) =
        Grows-GrowsBut dev v.inode.indirect g
    indirect_got-ExtendPost idbuf now z (ok b, fs1) post =
        Returns->>= (WritePost dev v.inode.indirect (set idbuf (k - ndirect) b) fs1)
          (ExtendPost dev v fs k) (writeblock dev v.inode.indirect (set idbuf (k - ndirect) b) fs1)
          (written dev v b)
          (writeblock_lem dev v.inode.indirect (set idbuf (k - ndirect) b) fs1
            (omega (arith, (m.indirect_used has).0, mounted.fits)))
          (λ r h. written-ExtendPost b idbuf fs1 now z post r h)

    pub in_indirect-ExtendPost :
        (idbuf : List ℕ)
        → idbuf ≡ dev.contents fs.disk v.inode.indirect
        → Returns
            (ExtendPost dev v fs k)
            (in_indirect dev v fs v.inode.indirect idbuf (k - ndirect) true)
    unfolding in_indirect
    in_indirect-ExtendPost idbuf now =
        let at_k : get_or idbuf (k - ndirect) 0 ≡ file_block dev v fs.disk k =
          ap (λ w. get_or w (k - ndirect) 0) now ∙ indirect_block dev v fs m mounted k ge has in
        elim (Bool-cases (get_or idbuf (k - ndirect) 0 == 0)) [
          | inl z ↦ rw z (
              Returns->>= (BallocPost dev fs) (ExtendPost dev v fs k) (balloc dev fs)
                (indirect_got dev v v.inode.indirect idbuf (k - ndirect))
                (balloc_lem dev fs mounted)
                (λ r h. indirect_got-ExtendPost idbuf now (sym at_k ∙ (==_iff _ _).0 z) r h))
          | inr nz ↦ rw nz (
              present dev v fs m mounted k (get_or idbuf (k - ndirect) 0) lt at_k
                (λ z. ground arith))
        ]
