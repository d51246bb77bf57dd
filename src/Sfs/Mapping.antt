-- ===== src/Sfs/Mapping.antt =====
-- The blocks of a file of src/kern/fs/sfs as a map from their index to disk blocks: what sfs_bmap and
-- sfs_itrunc implement, and what holds of the map of a well-formed file.
use ed_operating_system.Prelude.{
  ℕ, ◌+◌, ◌-◌, ◌<◌, ◌≡◌, ◌≢◌, inl, inr, ap, sym, ◌∙◌, true, false, length, get_or, replicate,
  if◌then◌else◌, ltb, ◌==◌, Bool-cases, ==_iff, arith, subst,
}
use ed_operating_system.Bitmap.{isset}
use ed_operating_system.Sfs.{Vnode, Fs, ndirect, dbperidb}
use ed_operating_system.Sfs.Disk.{Device}
use ed_operating_system.Sfs.Alloc.{Grows, IsMounted}

-- How many blocks a file can have.
abbrev pub max_blocks : ℕ
max_blocks = ndirect + dbperidb

module _ {D : Type 0} where
  -- A block of the file system that is in use.
  abbrev pub InUse : Fs D → ℕ → Type 0
  InUse fs b = (b < fs.nblocks) × (isset fs.freemap b ≡ true)

module _ {D : Type 0} (dev : Device D) where
  -- The disk block of block `k` of a file, or 0.
  unfoldable pub file_block : Vnode → D → ℕ → ℕ
  file_block v d k =
      if ltb k ndirect
      then get_or v.inode.direct k 0
      else if v.inode.indirect == 0
      then 0
      else get_or (dev.contents d v.inode.indirect) (k - ndirect) 0

  pub record IsMapped (fs : Fs D) (v : Vnode) : Type 0 where
    pub directs : length v.inode.direct ≡ ndirect
    pub indirects : v.inode.indirect ≢ 0 → length (dev.contents fs.disk v.inode.indirect) ≡ dbperidb
    pub indirect_used : v.inode.indirect ≢ 0 → InUse fs v.inode.indirect
    pub blocks_used :
        (k : ℕ) → k < max_blocks → file_block v fs.disk k ≢ 0 → InUse fs (file_block v fs.disk k)
    pub distinct :
        (j k : ℕ)
        → j < max_blocks
        → k < max_blocks
        → file_block v fs.disk j ≢ 0
        → file_block v fs.disk j ≡ file_block v fs.disk k
        → j ≡ k
    pub apart :
        (k : ℕ)
        → k < max_blocks
        → file_block v fs.disk k ≢ 0
        → file_block v fs.disk k ≢ v.inode.indirect

  -- As `Grows`, but the indirect block, if there is one, may change on disk.
  pub record GrowsBut (indirect : ℕ) (fs fs' : Fs D) : Type 0 where
    pub mounted : IsMounted dev fs'
    pub size : fs'.nblocks ≡ fs.nblocks
    pub used : (b : ℕ) → isset fs.freemap b ≡ true → isset fs'.freemap b ≡ true
    pub kept :
        (b : ℕ)
        → isset fs.freemap b ≡ true
        → (b ≡ indirect → indirect ≡ 0)
        → dev.contents fs'.disk b ≡ dev.contents fs.disk b

  pub Grows-GrowsBut : (i : ℕ) {fs fs' : Fs D} → Grows dev fs fs' → GrowsBut i fs fs'
  Grows-GrowsBut i g = record {
    mounted = g.mounted;
    size = g.size;
    used = g.used;
    kept = λ b u ne. g.kept b u;
  }

  -- A fresh block put in the place `k` of the map of a file.
  pub record Places (fs fs' : Fs D) (v v' : Vnode) (k b : ℕ) : Type 0 where
    pub used : (c : ℕ) → isset fs.freemap c ≡ true → isset fs'.freemap c ≡ true
    pub size : fs'.nblocks ≡ fs.nblocks
    pub fresh : isset fs.freemap b ≡ false
    pub taken : InUse fs' b
    pub some_block : b ≢ 0
    pub zeroed : dev.contents fs'.disk b ≡ replicate dbperidb 0
    pub same_head : (v'.inode.size ≡ v.inode.size) × (v'.inode.kind ≡ v.inode.kind)
    pub directs : length v'.inode.direct ≡ ndirect
    pub indirects :
        v'.inode.indirect ≢ 0 → length (dev.contents fs'.disk v'.inode.indirect) ≡ dbperidb
    pub indirect : v'.inode.indirect ≡ v.inode.indirect
    pub only :
        (j : ℕ)
        → j < max_blocks
        → file_block v' fs'.disk j ≡ (if k == j then b else file_block v fs.disk j)

  module _ {fs fs' : Fs D} {v v' : Vnode} {k b : ℕ} (m : IsMapped fs v)
      (p : Places fs fs' v v' k b) where
    here : (j : ℕ) → j < max_blocks → (k == j) ≡ true → file_block v' fs'.disk j ≡ b
    here j hj e = p.only j hj ∙ rw e

    there :
        (j : ℕ)
        → j < max_blocks
        → (k == j) ≡ false
        → file_block v' fs'.disk j ≡ file_block v fs.disk j
    there j hj e = p.only j hj ∙ rw e

    carry : (c : ℕ) → InUse fs c → InUse fs' c
    carry c (lt, u) = (omega (arith, p.size), p.used c u)

    not_used : (j : ℕ) → j < max_blocks → file_block v fs.disk j ≢ b
    not_used j hj e =
        let u : isset fs.freemap (file_block v fs.disk j) ≡ true =
          (m.blocks_used j hj (λ z. p.some_block (sym e ∙ z))).1 in
        ground (arith, ap (isset fs.freemap) e, p.fresh)

    not_indirect : v.inode.indirect ≢ b
    not_indirect e =
        let u : isset fs.freemap v.inode.indirect ≡ true =
          (m.indirect_used (λ z. p.some_block (sym e ∙ z))).1 in
        ground (arith, ap (isset fs.freemap) e, p.fresh)

    -- The map stays well formed.
    pub Places-IsMapped : IsMapped fs' v'
    Places-IsMapped = record {
      directs = p.directs;
      indirects = p.indirects;
      indirect_used = λ nz.
          subst (InUse fs') (sym p.indirect)
            (carry v.inode.indirect (m.indirect_used (λ z. nz (p.indirect ∙ z))));
      blocks_used = λ j hj nz. elim (Bool-cases (k == j)) [
        | inl e ↦ subst (InUse fs') (sym (here j hj e)) p.taken
        | inr d ↦
            subst (InUse fs') (sym (there j hj d))
              (carry (file_block v fs.disk j) (m.blocks_used j hj (λ z. nz (there j hj d ∙ z))))
      ];
      distinct = λ i j hi hj nz same. elim (Bool-cases (k == i)) [
        | inl e ↦ elim (Bool-cases (k == j)) [
          | inl e' ↦ sym ((==_iff k i).0 e) ∙ (==_iff k j).0 e'
          | inr d' ↦ absurd (not_used j hj (sym (there j hj d') ∙ sym same ∙ here i hi e))
        ]
        | inr d ↦ elim (Bool-cases (k == j)) [
          | inl e' ↦ absurd (not_used i hi (sym (there i hi d) ∙ same ∙ here j hj e'))
          | inr d' ↦
              m.distinct i j hi hj (λ z. nz (there i hi d ∙ z))
                (sym (there i hi d) ∙ same ∙ there j hj d')
        ]
      ];
      apart = λ j hj nz same. elim (Bool-cases (k == j)) [
        | inl e ↦ not_indirect (sym p.indirect ∙ sym same ∙ here j hj e)
        | inr d ↦ m.apart j hj (λ z. nz (there j hj d ∙ z)) (sym (there j hj d) ∙ same ∙ p.indirect)
      ];
    }
