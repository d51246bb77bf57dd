-- ===== src/Sfs/Shrink.antt =====
-- What a cut of a file by sfs_itrunc (src/kern/fs/sfs/sfs_bmap.c) does to the map of its blocks.
use ed_operating_system.Prelude.{
  ℕ, ◌<◌, ◌≡◌, ◌≢◌, inl, inr, ap, sym, ◌∙◌, subst, Bool, true, false, ◌||◌, length, if◌then◌else◌,
  Bool-cases, arith,
}
use ed_operating_system.Bitmap.{isset}
use ed_operating_system.Sfs.{Vnode, Fs, ndirect, dbperidb}
use ed_operating_system.Sfs.Disk.{Device}
use ed_operating_system.Sfs.Alloc.{IsMounted}
use ed_operating_system.Sfs.Mapping.{max_blocks, InUse, file_block, IsMapped}

module _ {D : Type 0} (dev : Device D) where
  -- The entries of the map that the test marks are cut, their blocks freed, and nothing else is.
  pub record Cuts (cut : ℕ → Bool) (v : Vnode) (fs : Fs D) (v' : Vnode) (fs' : Fs D) : Type 0 where
    pub mapped : IsMapped dev fs' v'
    pub mounted : IsMounted dev fs'
    pub size : fs'.nblocks ≡ fs.nblocks
    pub entries :
        (j : ℕ)
        → j < max_blocks
        → file_block dev v' fs'.disk j ≡ (if cut j then 0 else file_block dev v fs.disk j)
    pub freed :
        (j : ℕ)
        → j < max_blocks
        → cut j ≡ true
        → file_block dev v fs.disk j ≢ 0
        → isset fs'.freemap (file_block dev v fs.disk j) ≡ false
    pub kept :
        (c : ℕ)
        → c ≢ 0
        → c ≢ v.inode.indirect
        → ((j : ℕ) → j < max_blocks → cut j ≡ true → file_block dev v fs.disk j ≢ c)
        → isset fs'.freemap c ≡ isset fs.freemap c

  -- The map of a well-formed file stays so when entries are cut from it and no other block is freed.
  module _ (cut : ℕ → Bool) (v v' : Vnode) (fs fs' : Fs D) (m : IsMapped dev fs v)
      (size : fs'.nblocks ≡ fs.nblocks)
      (entries : (j : ℕ)
        → j < max_blocks
        → file_block dev v' fs'.disk j ≡ (if cut j then 0 else file_block dev v fs.disk j)) where
    stays :
        (j : ℕ)
        → j < max_blocks
        → file_block dev v' fs'.disk j ≢ 0
        → (cut j ≡ false) × (file_block dev v' fs'.disk j ≡ file_block dev v fs.disk j)
    stays j hj nz = elim (Bool-cases (cut j)) [
      | inl c ↦ absurd (nz (entries j hj ∙ rw c))
      | inr k ↦ (k, entries j hj ∙ rw k)
    ]

    pub cut-IsMapped :
        ((j : ℕ)
          → j < max_blocks
          → cut j ≡ false
          → file_block dev v fs.disk j ≢ 0
          → isset fs'.freemap (file_block dev v fs.disk j) ≡ true)
        → length v'.inode.direct ≡ ndirect
        → (v'.inode.indirect ≢ 0
            → (v'.inode.indirect ≡ v.inode.indirect)
              × InUse fs' v'.inode.indirect
              × (length (dev.contents fs'.disk v'.inode.indirect) ≡ dbperidb))
        → IsMapped dev fs' v'
    cut-IsMapped used directs indirect = record {
      directs = directs;
      indirects = λ nz. (indirect nz).2;
      indirect_used = λ nz. (indirect nz).1;
      blocks_used = λ j hj nz.
          let (k, e) = stays j hj nz in
          let nz' : file_block dev v fs.disk j ≢ 0 = λ z. nz (e ∙ z) in
          subst (InUse fs') (sym e)
            (omega (arith, size, (m.blocks_used j hj nz').0), used j hj k nz');
      distinct = λ i j hi hj nz same.
          let (k, e) = stays i hi nz in
          let (k', e') = stays j hj (λ z. nz (same ∙ z)) in
          m.distinct i j hi hj (λ z. nz (e ∙ z)) (sym e ∙ same ∙ e');
      apart = λ j hj nz same.
          let (k, e) = stays j hj nz in
          m.apart j hj (λ z. nz (e ∙ z)) (sym e ∙ same ∙ (indirect (λ z. nz (same ∙ z))).0);
    }

  -- One cut after another, where the first keeps the indirect block.
  pub Cuts-trans :
      {first second : ℕ → Bool} {v v1 v2 : Vnode} {fs fs1 fs2 : Fs D}
      → IsMapped dev fs v
      → v1.inode.indirect ≡ v.inode.indirect
      → Cuts first v fs v1 fs1
      → Cuts second v1 fs1 v2 fs2
      → Cuts (λ j. first j || second j) v fs v2 fs2
  Cuts-trans {first} {second} {v} {v1} {v2} {fs} {fs1} {fs2} m same a b = record {
    mapped = b.mapped;
    mounted = b.mounted;
    size = b.size ∙ a.size;
    entries = λ j hj. b.entries j hj ∙ ground (arith, a.entries j hj);
    freed = λ j hj c nz. elim (Bool-cases (first j)) [
      | inl c1 ↦
          let gone : isset fs1.freemap (file_block dev v fs.disk j) ≡ false = a.freed j hj c1 nz in
          b.kept (file_block dev v fs.disk j) nz (λ e. m.apart j hj nz (e ∙ same))
            (λ i hi c2 e. ground (
              arith,
              (a.mapped.blocks_used i hi (λ z. nz (sym e ∙ z))).1,
              ap (isset fs1.freemap) e,
              gone,
            ))
          ∙ gone
      | inr k1 ↦
          let e : file_block dev v1 fs1.disk j ≡ file_block dev v fs.disk j =
            a.entries j hj ∙ rw k1 in
          subst (λ x. isset fs2.freemap x ≡ false) e
            (b.freed j hj (ground (arith, c, k1)) (λ z. nz (sym e ∙ z)))
    ];
    kept = λ c nz other none.
        b.kept c nz (λ e. other (e ∙ same))
          (λ j hj c2 e. elim (Bool-cases (first j)) [
            | inl c1 ↦ nz (sym e ∙ a.entries j hj ∙ rw c1)
            | inr k1 ↦ none j hj (ground (arith, c2)) (sym (a.entries j hj ∙ rw k1) ∙ e)
          ])
        ∙ a.kept c nz other (λ j hj c1. none j hj (ground (arith, c1)));
  }
