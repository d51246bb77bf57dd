-- ===== src/Sfs/Prepare.antt =====
-- sfs_bmap of src/kern/fs/sfs/sfs_bmap.c with allocation, on all its branches: the indirect block
-- is allocated or read, then used.
use ed_operating_system.Prelude.{
  ℕ, subst, ◌<◌, ◌≡◌, ◌≢◌, ◌⊎◌, inl, refl, ap, sym, ◌∙◌, false, length, arith,
}
use ed_operating_system.Bitmap.{isset}
use ed_operating_system.Sfs.{Vnode, Fs, dbperidb}
use ed_operating_system.Sfs.Disk.{Device}
use ed_operating_system.Sfs.Alloc.{IsMounted, Grows, OnDisk, Same}
use ed_operating_system.Sfs.Mapping.{max_blocks, InUse, file_block, IsMapped}
use ed_operating_system.Sfs.Extend.{OnDisk-IsMounted}

module _ {D : Type 0} (dev : Device D) where
  -- A file and file system that have an indirect block, with the same map.
  pub record Prepares (v : Vnode) (fs : Fs D) (v1 : Vnode) (fs1 : Fs D) : Type 0 where
    pub grows : Grows dev fs fs1
    pub mapped : IsMapped dev fs1 v1
    pub has : v1.inode.indirect ≢ 0
    pub same_head : (v1.inode.size ≡ v.inode.size) × (v1.inode.kind ≡ v.inode.kind)
    pub same_map :
        (j : ℕ) → j < max_blocks → file_block dev v1 fs1.disk j ≡ file_block dev v fs.disk j
    pub indirect :
        (v1.inode.indirect ≡ v.inode.indirect)
        ⊎ ((v.inode.indirect ≡ 0) × (isset fs.freemap v1.inode.indirect ≡ false))

  module _ (v : Vnode) (fs : Fs D) (m : IsMapped dev fs v) (mounted : IsMounted dev fs) where
    -- A file with the same map is as well formed, if its indirect block is.
    remap :
        (v1 : Vnode) (fs1 : Fs D)
        → Grows dev fs fs1
        → length v1.inode.direct ≡ length v.inode.direct
        → length (dev.contents fs1.disk v1.inode.indirect) ≡ dbperidb
        → InUse fs1 v1.inode.indirect
        → ((k : ℕ)
            → k < max_blocks
            → file_block dev v fs.disk k ≢ 0
            → file_block dev v fs.disk k ≢ v1.inode.indirect)
        → ((j : ℕ) → j < max_blocks → file_block dev v1 fs1.disk j ≡ file_block dev v fs.disk j)
        → IsMapped dev fs1 v1
    remap v1 fs1 g directs indirects used apart map_kept = record {
      directs = directs ∙ m.directs;
      indirects = λ nz. indirects;
      indirect_used = λ nz. used;
      blocks_used = λ k hk nz.
          let u : InUse fs (file_block dev v fs.disk k) =
            m.blocks_used k hk (λ z. nz (map_kept k hk ∙ z)) in
          subst (InUse fs1) (sym (map_kept k hk))
            (omega (arith, u.0, g.size), g.used (file_block dev v fs.disk k) u.1);
      distinct = λ j k hj hk nz e.
          m.distinct j k hj hk (λ z. nz (map_kept j hj ∙ z))
            (sym (map_kept j hj) ∙ e ∙ map_kept k hk);
      apart = λ k hk nz e. apart k hk (λ z. nz (map_kept k hk ∙ z)) (sym (map_kept k hk) ∙ e);
    }

    pub read_indirect :
        (fs1 : Fs D)
        → v.inode.indirect ≢ 0
        → OnDisk dev fs fs1
        → Same dev fs.disk fs1.disk
        → Prepares v fs v fs1
    unfolding file_block
    read_indirect fs1 nz on same =
        let g : Grows dev fs fs1 = record {
          mounted = OnDisk-IsMounted dev on mounted;
          size = on.size_kept;
          used = λ b u. ap (λ f. isset f b) on.map_kept ∙ u;
          kept = λ b u. same b;
        } in
        let u : InUse fs v.inode.indirect = m.indirect_used nz in
        let map_kept : (j : ℕ)
            → j < max_blocks
            → file_block dev v fs1.disk j ≡ file_block dev v fs.disk j =
          λ j hj. rw (same v.inode.indirect) in
        record {
          grows = g;
          mapped =
              remap v fs1 g refl (ap length (same v.inode.indirect) ∙ m.indirects nz)
                (omega (arith, u.0, on.size_kept), g.used v.inode.indirect u.1) m.apart map_kept;
          has = nz;
          same_head = (refl, refl);
          same_map = map_kept;
          indirect = inl refl;
        }
