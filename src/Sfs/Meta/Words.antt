-- ===== src/Sfs/Meta/Words.antt =====
-- A file of SFS as a sequence of words, and the copies between a block and a buffer.
use ed_operating_system.Prelude.{
  ℕ, zero, suc, ◌+◌, ◌*◌, ◌/◌, ◌%◌, ◌<◌, ◌≤◌, ◌≡◌, ◌≢◌, refl, ap, ◌∙◌, List, [], ◌∷◌, length,
  get_or, set, replicate, ◌==◌, if◌then◌else◌, arith, get_or-set_self, get_or-set_ne, length-set,
  ==-ne, ◌⊎◌, inl,
}
use ed_operating_system.Sfs.{Vnode, dbperidb}
use ed_operating_system.Sfs.Disk.{Device}
use ed_operating_system.Sfs.Mapping.{file_block}
use ed_operating_system.Sfs.Meta.{slice, splice}

module _ {D : Type 0} (dev : Device D) where
  -- Word `p` of a file; where it has no block, it reads as zero.
  unfoldable pub file_word : Vnode → D → ℕ → ℕ
  file_word v d p =
      let block = file_block dev v d (p / dbperidb) in
      if block == 0 then 0 else get_or (dev.contents d block) (p % dbperidb) 0

  unfoldable pub file_words : Vnode → D → ℕ → ℕ → List ℕ
  file_words v d p zero = []
  file_words v d p (suc n) = file_word v d p ∷ file_words v d (p + 1) n

  -- The words of a region of block `k`, from its word `o` on.
  word_in_block :
      (v : Vnode) (d : D) (k o p : ℕ)
      → p ≡ dbperidb * k + o
      → o < dbperidb
      → (p / dbperidb ≡ k) × (p % dbperidb ≡ o)
  word_in_block v d k o p e lt = (omega arith, omega arith)

  pub slice-file_words :
      (n : ℕ) (v : Vnode) (d : D) (k o p : ℕ)
      → p ≡ dbperidb * k + o
      → o + n ≤ dbperidb
      → file_block dev v d k ≢ 0
      → slice (dev.contents d (file_block dev v d k)) o n ≡ file_words v d p n
  unfolding file_words slice file_word
  slice-file_words zero v d k o p e fits nz = refl
  slice-file_words (suc n) v d k o p e fits nz =
      let (block, word) = word_in_block v d k o p e (omega arith) in
      rw (block, word, ==-ne _ 0 nz)
        (ap (λ ws. get_or (dev.contents d (file_block dev v d k)) o 0 ∷ ws)
          (slice-file_words n v d k (o + 1) (p + 1) (omega arith) (omega arith) nz))

  pub replicate-file_words :
      (n : ℕ) (v : Vnode) (d : D) (k o p : ℕ)
      → p ≡ dbperidb * k + o
      → o + n ≤ dbperidb
      → file_block dev v d k ≡ 0
      → replicate n 0 ≡ file_words v d p n
  unfolding file_words file_word
  replicate-file_words zero v d k o p e fits z = refl
  replicate-file_words (suc n) v d k o p e fits z =
      let (block, word) = word_in_block v d k o p e (omega arith) in
      rw (block, z)
        (ap (λ ws. 0 ∷ ws)
          (replicate-file_words n v d k (o + 1) (p + 1) (omega arith) (omega arith) z))

pub length-splice : (ws : List ℕ) (buf : List ℕ) (o : ℕ) → length (splice buf o ws) ≡ length buf
unfolding splice
length-splice [] buf o = refl
length-splice (w ∷ ws) buf o = length-splice ws (set buf o w) (o + 1) ∙ length-set buf o w

pub get_or-splice_out :
    (ws buf : List ℕ) (o i : ℕ)
    → (i < o) ⊎ (o + length ws ≤ i)
    → get_or (splice buf o ws) i 0 ≡ get_or buf i 0
unfolding splice
get_or-splice_out [] buf o i out = refl
get_or-splice_out (w ∷ ws) buf o i out =
    get_or-splice_out ws (set buf o w) (o + 1) i (ground arith)
    ∙ get_or-set_ne buf o i w 0 (λ e. ground arith)

pub get_or-splice_in :
    (ws buf : List ℕ) (o j : ℕ)
    → o + length ws ≤ length buf
    → j < length ws
    → get_or (splice buf o ws) (o + j) 0 ≡ get_or ws j 0
unfolding splice
get_or-splice_in [] buf o j fits lt = absurd (omega arith)
get_or-splice_in (w ∷ ws) buf o zero fits lt =
    let z : o + 0 ≡ o = omega arith in
    rw z (
      get_or-splice_out ws (set buf o w) (o + 1) o (inl (omega arith))
      ∙ get_or-set_self buf o w 0 (omega arith))
get_or-splice_in (w ∷ ws) buf o (suc j) fits lt =
    let s : o + suc j ≡ o + 1 + j = omega arith in
    rw s (
      get_or-splice_in ws (set buf o w) (o + 1) j (omega (arith, length-set buf o w)) (omega arith))
