-- ===== src/Sfs/Meta/Writes.antt =====
-- sfs_metaio of src/kern/fs/sfs/sfs_io.c as a write.
use ed_operating_system.Prelude.{
  ℕ, ◌+◌, ◌*◌, ◌/◌, ◌%◌, ◌^◌, ◌<◌, ◌≤◌, ◌≡◌, ◌≢◌, ◌⊎◌, inl, inr, refl, ap, sym, ◌∙◌, subst, List,
  length, get_or, ◌==◌, ltb, if◌then◌else◌, ==-ne, Bool-cases, Result, ok, err, arith,
}
use ed_operating_system.Bitmap.{isset}
use ed_operating_system.Sfs.{Vnode, Fs, dbperidb}
use ed_operating_system.Sfs.Disk.{Device}
use ed_operating_system.Sfs.Alloc.{IsMounted, OnDisk}
use ed_operating_system.Sfs.Mapping.{max_blocks, InUse, file_block, IsMapped}
use ed_operating_system.Sfs.Meta.Words.{file_word}

module _ {D : Type 0} (dev : Device D) where
  -- The blocks of a file are as long as a block is.
  abbrev pub HasBlocks : Vnode → D → Type 0
  HasBlocks v d =
      (k : ℕ)
      → k < max_blocks
      → file_block dev v d k ≢ 0
      → length (dev.contents d (file_block dev v d k)) ≡ dbperidb

  -- A file that is well formed on its file system, as its operations keep it.
  pub record IsFile (fs : Fs D) (v : Vnode) : Type 0 where
    pub mapped : IsMapped dev fs v
    pub mounted : IsMounted dev fs
    pub whole : HasBlocks v fs.disk

  -- A file after a write of `words` at word `p`.
  pub record Wrote (fs : Fs D) (v : Vnode) (p : ℕ) (words : List ℕ) (fs' : Fs D) (v' : Vnode)
      : Type 0 where
    pub in_range : p / dbperidb < max_blocks
    pub file : IsFile fs' v'
    pub size : v'.inode.size ≡ (
        if ltb v.inode.size (4 * p + 4 * length words)
        then (4 * p + 4 * length words) % 2 ^ 32
        else v.inode.size)
    pub kind : v'.inode.kind ≡ v.inode.kind
    pub inside : (j : ℕ) → j < length words → file_word dev v' fs'.disk (p + j) ≡ get_or words j 0
    pub outside :
        (q : ℕ)
        → q < max_blocks * dbperidb
        → (q < p) ⊎ (p + length words ≤ q)
        → file_word dev v' fs'.disk q ≡ file_word dev v fs.disk q

  abbrev pub MetaWritePost : Vnode → Fs D → ℕ → List ℕ → Result (List ℕ) × Vnode × Fs D → Type 0
  MetaWritePost v fs p words (ok r, v', fs') = Wrote fs v p words fs' v'
  MetaWritePost v fs p words (err e, v', fs') = IsMounted dev fs'

  -- The map of blocks depends on the numbers in the inode and on the indirect block.
  pub file_block-same :
      (v v' : Vnode) (d d' : D) (k : ℕ)
      → v'.inode.direct ≡ v.inode.direct
      → v'.inode.indirect ≡ v.inode.indirect
      → (v.inode.indirect ≢ 0 → dev.contents d' v.inode.indirect ≡ dev.contents d v.inode.indirect)
      → file_block dev v' d' k ≡ file_block dev v d k
  unfolding file_block
  file_block-same v v' d d' k directs indirect same = elim (Bool-cases (v.inode.indirect == 0)) [
    | inl z ↦ rw (directs, indirect, z) refl
    | inr nz ↦ rw (directs, indirect, nz, same (λ z. ground arith)) refl
  ]

  pub IsMapped-same :
      (v v' : Vnode) (fs fs' : Fs D)
      → IsMapped dev fs v
      → OnDisk dev fs fs'
      → v'.inode.direct ≡ v.inode.direct
      → v'.inode.indirect ≡ v.inode.indirect
      → (v.inode.indirect ≢ 0
          → dev.contents fs'.disk v.inode.indirect ≡ dev.contents fs.disk v.inode.indirect)
      → IsMapped dev fs' v'
  IsMapped-same v v' fs fs' m on directs indirect same =
      let eq : (k : ℕ) → file_block dev v' fs'.disk k ≡ file_block dev v fs.disk k =
        λ k. file_block-same v v' fs.disk fs'.disk k directs indirect same in
      let carry : (b : ℕ) → InUse fs b → InUse fs' b =
        λ b u. (omega (arith, u.0, on.size_kept), ap (λ f. isset f b) on.map_kept ∙ u.1) in
      record {
        directs = ap length directs ∙ m.directs;
        indirects = λ nz.
            let nz' : v.inode.indirect ≢ 0 = λ z. nz (indirect ∙ z) in
            ap (λ i. length (dev.contents fs'.disk i)) indirect
            ∙ ap length (same nz')
            ∙ m.indirects nz';
        indirect_used = λ nz.
            subst (InUse fs') (sym indirect) (carry _ (m.indirect_used (λ z. nz (indirect ∙ z))));
        blocks_used = λ k hk nz.
            subst (InUse fs') (sym (eq k)) (carry _ (m.blocks_used k hk (λ z. nz (eq k ∙ z))));
        distinct =
            λ j k hj hk nz e. m.distinct j k hj hk (λ z. nz (eq j ∙ z)) (sym (eq j) ∙ e ∙ eq k);
        apart = λ k hk nz e. m.apart k hk (λ z. nz (eq k ∙ z)) (sym (eq k) ∙ e ∙ indirect);
      }

  pub file_word-at :
      (v : Vnode) (d : D) (q b : ℕ)
      → file_block dev v d (q / dbperidb) ≡ b
      → b ≢ 0
      → file_word dev v d q ≡ get_or (dev.contents d b) (q % dbperidb) 0
  unfolding file_word
  file_word-at v d q b e nz = rw (e, ==-ne b 0 nz) refl

  pub file_word-none :
      (v : Vnode) (d : D) (q : ℕ) → file_block dev v d (q / dbperidb) ≡ 0 → file_word dev v d q ≡ 0
  unfolding file_word
  file_word-none v d q e = rw e refl
