-- ===== src/Sfs/Meta/Update.antt =====
-- A file of SFS before and after sfs_metaio of src/kern/fs/sfs/sfs_io.c wrote to one of its blocks.
use native.Mathlib.Decide.{ℕ_discrete}
use ed_operating_system.Prelude.{
  ℕ, ◌+◌, ◌*◌, ◌/◌, ◌%◌, ◌<◌, ◌≤◌, ◌≡◌, ◌≢◌, ◌⊎◌, inl, inr, refl, ap, sym, ◌∙◌, subst, List, length,
  get_or, get_or-replicate, length-replicate, ◌==◌, if◌then◌else◌, ==_iff, ==-ne, Bool-cases, ok,
  arith, if_then, if_else, ==_refl,
}
use ed_operating_system.Sfs.{Vnode, Fs, dbperidb}
use ed_operating_system.Sfs.Disk.{Device}
use ed_operating_system.Sfs.Alloc.{OnDisk, SameBut}
use ed_operating_system.Sfs.Mapping.{max_blocks, InUse, file_block, IsMapped, GrowsBut}
use ed_operating_system.Sfs.Extend.{OnDisk-IsMounted, ExtendPost}
use ed_operating_system.Sfs.Meta.{splice}
use ed_operating_system.Sfs.Meta.Words.{
  file_word, length-splice, get_or-splice_in, get_or-splice_out,
}
use ed_operating_system.Sfs.Meta.Writes.{
  HasBlocks, IsFile, file_block-same, IsMapped-same, file_word-at, file_word-none,
}

abbrev get_word : List ℕ → ℕ → ℕ
get_word ws i = get_or ws i 0

module _ {D : Type 0} (dev : Device D) where
  -- The file system after `sfs_bmap` gave block `b` for block `k` of a file.
  module _ (v : Vnode) (fs : Fs D) (f : IsFile dev fs v) (k b : ℕ) (v1 : Vnode) (fs1 : Fs D)
      (post : ExtendPost dev v fs k (ok b, v1, fs1)) where
    possible : k < max_blocks
    possible = post.0

    not_none : b ≢ 0
    not_none = post.1

    maps :
        (j : ℕ)
        → j < max_blocks
        → file_block dev v1 fs1.disk j ≡ (if k == j then b else file_block dev v fs.disk j)
    maps = post.5

    mapped1 : IsMapped dev fs1 v1
    mapped1 = post.6

    grows : GrowsBut dev v.inode.indirect fs fs1
    grows = post.7

    at_k : file_block dev v1 fs1.disk k ≡ b
    at_k = maps k possible ∙ if_then b _ (==_refl k)

    at_other :
        (j : ℕ) → j < max_blocks → k ≢ j → file_block dev v1 fs1.disk j ≡ file_block dev v fs.disk j
    at_other j lt ne = maps j lt ∙ if_else b _ (==-ne k j ne)

    pub block_used : InUse fs1 b
    block_used =
        subst (InUse fs1) at_k (mapped1.blocks_used k possible (λ z. not_none (sym at_k ∙ z)))

    -- What the old blocks hold is still there.
    old_kept :
        (j : ℕ)
        → j < max_blocks
        → file_block dev v fs.disk j ≢ 0
        → dev.contents fs1.disk (file_block dev v fs.disk j)
          ≡ dev.contents fs.disk (file_block dev v fs.disk j)
    old_kept j lt nz =
        grows.kept _ (f.mapped.blocks_used j lt nz).1 (λ e. absurd (f.mapped.apart j lt nz e))

    -- The block reads as the file did before.
    before :
        (q : ℕ)
        → q / dbperidb ≡ k
        → get_or (dev.contents fs1.disk b) (q % dbperidb) 0 ≡ file_word dev v fs.disk q
    before q e = elim (Bool-cases (file_block dev v fs.disk k == 0)) [
      | inl z ↦
          let none : file_block dev v fs.disk k ≡ 0 = (==_iff _ 0).0 z in
          ap (λ ws. get_or ws (q % dbperidb) 0) (post.3 none)
          ∙ get_or-replicate dbperidb (q % dbperidb) 0
          ∙ sym (file_word-none dev v fs.disk q (ap (file_block dev v fs.disk) e ∙ none))
      | inr d ↦
          let nz : file_block dev v fs.disk k ≢ 0 = λ z. ground arith in
          let old : b ≡ file_block dev v fs.disk k = post.2 nz in
          ap (λ c. get_or (dev.contents fs1.disk c) (q % dbperidb) 0) old
          ∙ ap (λ ws. get_or ws (q % dbperidb) 0) (old_kept k possible nz)
          ∙ sym (
              file_word-at dev v fs.disk q (file_block dev v fs.disk k)
                (ap (file_block dev v fs.disk) e) nz)
    ]

    pub whole_block : length (dev.contents fs1.disk b) ≡ dbperidb
    whole_block = elim (Bool-cases (file_block dev v fs.disk k == 0)) [
      | inl z ↦ ap length (post.3 ((==_iff _ 0).0 z)) ∙ length-replicate {A = ℕ} dbperidb 0
      | inr d ↦
          let nz : file_block dev v fs.disk k ≢ 0 = λ z. ground arith in
          ap (λ c. length (dev.contents fs1.disk c)) (post.2 nz)
          ∙ ap length (old_kept k possible nz)
          ∙ f.whole k possible nz
    ]

    pub whole1 : HasBlocks dev v1 fs1.disk
    whole1 j lt nz = elim (ℕ_discrete k j) [
      | yes e ↦
          ap (λ c. length (dev.contents fs1.disk c))
            (ap (file_block dev v1 fs1.disk) (sym e) ∙ at_k)
          ∙ whole_block
      | no ne ↦
          let old = at_other j lt ne in
          ap (λ c. length (dev.contents fs1.disk c)) old
          ∙ ap length (old_kept j lt (λ z. nz (old ∙ z)))
          ∙ f.whole j lt (λ z. nz (old ∙ z))
    ]

    -- The block was written.
    module _ (p : ℕ) (words : List ℕ) (here : p / dbperidb ≡ k)
        (fits : p % dbperidb + length words ≤ dbperidb) (fs3 : Fs D) (on : OnDisk dev fs1 fs3)
        (same : SameBut dev b fs1.disk fs3.disk)
        (holds : dev.contents fs3.disk b ≡ splice (dev.contents fs1.disk b) (p % dbperidb) words)
        (v3 : Vnode) (directs : v3.inode.direct ≡ v1.inode.direct)
        (indirect : v3.inode.indirect ≡ v1.inode.indirect) where
      indirect_kept :
          v1.inode.indirect ≢ 0
          → dev.contents fs3.disk v1.inode.indirect ≡ dev.contents fs1.disk v1.inode.indirect
      indirect_kept nz =
          same v1.inode.indirect
            (λ e. mapped1.apart k possible (λ z. not_none (sym at_k ∙ z)) (at_k ∙ e))

      maps3 : (j : ℕ) → file_block dev v3 fs3.disk j ≡ file_block dev v1 fs1.disk j
      maps3 j = file_block-same dev v1 v3 fs1.disk fs3.disk j directs indirect indirect_kept

      -- What the other blocks hold is still there.
      other_kept :
          (j : ℕ)
          → j < max_blocks
          → k ≢ j
          → file_block dev v1 fs1.disk j ≢ 0
          → dev.contents fs3.disk (file_block dev v1 fs1.disk j)
            ≡ dev.contents fs1.disk (file_block dev v1 fs1.disk j)
      other_kept j lt ne nz =
          same _ (λ e. ne (sym (mapped1.distinct j k lt possible nz (sym e ∙ sym at_k))))

      whole3 : HasBlocks dev v3 fs3.disk
      whole3 j lt nz = elim (ℕ_discrete k j) [
        | yes e ↦
            ap (λ c. length (dev.contents fs3.disk c))
              (maps3 j ∙ ap (file_block dev v1 fs1.disk) (sym e) ∙ at_k)
            ∙ ap length holds
            ∙ length-splice words (dev.contents fs1.disk b) (p % dbperidb)
            ∙ whole_block
        | no ne ↦
            ap (λ c. length (dev.contents fs3.disk c)) (maps3 j)
            ∙ ap length (other_kept j lt ne (λ z. nz (maps3 j ∙ z)))
            ∙ whole1 j lt (λ z. nz (maps3 j ∙ z))
      ]

      pub file3 : IsFile dev fs3 v3
      file3 = record {
        mapped = IsMapped-same dev v1 v3 fs1 fs3 mapped1 on directs indirect indirect_kept;
        mounted = OnDisk-IsMounted dev on grows.mounted;
        whole = whole3;
      }

      -- A word of the block.
      in_block :
          (q : ℕ)
          → q / dbperidb ≡ k
          → file_word dev v3 fs3.disk q
            ≡ get_or (splice (dev.contents fs1.disk b) (p % dbperidb) words) (q % dbperidb) 0
      in_block q e =
          file_word-at dev v3 fs3.disk q b
            (maps3 (q / dbperidb) ∙ ap (file_block dev v1 fs1.disk) e ∙ at_k) not_none
          ∙ ap (λ ws. get_or ws (q % dbperidb) 0) holds

      pub inside3 :
          (j : ℕ) → j < length words → file_word dev v3 fs3.disk (p + j) ≡ get_or words j 0
      inside3 j lt =
          let word : (p + j) % dbperidb ≡ p % dbperidb + j = omega arith in
          in_block (p + j) (omega arith)
          ∙ ap (get_word (splice (dev.contents fs1.disk b) (p % dbperidb) words)) word
          ∙ get_or-splice_in words (dev.contents fs1.disk b) (p % dbperidb) j
              (omega (arith, whole_block)) lt

      pub outside3 :
          (q : ℕ)
          → q < max_blocks * dbperidb
          → (q < p) ⊎ (p + length words ≤ q)
          → file_word dev v3 fs3.disk q ≡ file_word dev v fs.disk q
      outside3 q lt out = elim (ℕ_discrete (q / dbperidb) k) [
        | yes e ↦
            in_block q e
            ∙ get_or-splice_out words (dev.contents fs1.disk b) (p % dbperidb) (q % dbperidb)
                (ground arith)
            ∙ before q e
        | no ne ↦
            let old : file_block dev v1 fs1.disk (q / dbperidb)
                ≡ file_block dev v fs.disk (q / dbperidb) =
              at_other (q / dbperidb) (omega arith) (λ e. ne (sym e)) in
            elim (Bool-cases (file_block dev v fs.disk (q / dbperidb) == 0)) [
              | inl z ↦
                  let none : file_block dev v fs.disk (q / dbperidb) ≡ 0 = (==_iff _ 0).0 z in
                  file_word-none dev v3 fs3.disk q (maps3 (q / dbperidb) ∙ old ∙ none)
                  ∙ sym (file_word-none dev v fs.disk q none)
              | inr d ↦
                  let nz : file_block dev v fs.disk (q / dbperidb) ≢ 0 = λ z. ground arith in
                  let kept =
                    other_kept (q / dbperidb) (omega arith) (λ e. ne (sym e))
                      (λ z. nz (sym old ∙ z)) in
                  file_word-at dev v3 fs3.disk q (file_block dev v fs.disk (q / dbperidb))
                    (maps3 (q / dbperidb) ∙ old) nz
                  ∙ ap (λ ws. get_or ws (q % dbperidb) 0)
                      (ap (dev.contents fs3.disk) (sym old)
                        ∙ kept
                        ∙ ap (dev.contents fs1.disk) old
                        ∙ old_kept (q / dbperidb) (omega arith) nz)
                  ∙ sym (
                      file_word-at dev v fs.disk q (file_block dev v fs.disk (q / dbperidb)) refl
                        nz)
            ]
      ]
