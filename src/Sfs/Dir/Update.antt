-- ===== src/Sfs/Dir/Update.antt =====
-- A directory of src/kern/fs/sfs/sfs_dir.c before and after an entry was written to a slot.
use ed_operating_system.Prelude.{
  ℕ, zero, suc, ◌+◌, ◌*◌, ◌<◌, ◌≤◌, ◌≡◌, ◌≢◌, ◌⊎◌, refl, ap, ◌∙◌, subst, List, [], ◌∷◌, arith,
}
use ed_operating_system.Sfs.{Vnode, Fs}
use ed_operating_system.Sfs.Disk.{Device}
use ed_operating_system.Sfs.Alloc.{OnDisk, Same}
use ed_operating_system.Sfs.Mapping.{file_block}
use ed_operating_system.Sfs.Extend.{OnDisk-IsMounted}
use ed_operating_system.Sfs.Meta.Words.{file_word, file_words}
use ed_operating_system.Sfs.Meta.Writes.{IsMapped-same}
use ed_operating_system.Sfs.Dir.{entry_name, noino, entry_words, entry_of}
use ed_operating_system.Sfs.Dir.Entries.{entry_at}
use ed_operating_system.Sfs.Dir.Scan.{max_slots, entry_at-Same}
use ed_operating_system.Sfs.Meta.Writes.{file_block-same, Wrote}
use ed_operating_system.Sfs.Dir.{new_entry, words_of, pack}
use ed_operating_system.Sfs.Dir.Entries.{length-copy_name}
use ed_operating_system.Sfs.Dir.Find.{IsDirectory}
use ed_operating_system.Prelude.{length, get_or, replicate}

length-pack : (n : ℕ) (cs : List ℕ) → length cs ≡ 4 * n → length (pack n cs) ≡ n
unfolding pack
length-pack zero cs e = refl
length-pack (suc n) [] e = absurd (omega arith)
length-pack (suc n) (a ∷ []) e = absurd (omega arith)
length-pack (suc n) (a ∷ b ∷ []) e = absurd (omega arith)
length-pack (suc n) (a ∷ b ∷ c ∷ []) e = absurd (omega arith)
length-pack (suc n) (a ∷ b ∷ c ∷ d ∷ cs) e = ap suc (length-pack n cs (omega arith))

pub length-new_entry :
    (name : List ℕ) (ino : ℕ) → length (words_of (new_entry name ino)) ≡ entry_words
unfolding words_of new_entry
length-new_entry name ino = ap suc (length-pack 15 _ (length-copy_name (replicate 60 0) name))

module _ {D : Type 0} (dev : Device D) where
  -- Words that are all given, and words that are all as before.
  file_words-given :
      (ws : List ℕ) (v : Vnode) (d : D) (p : ℕ)
      → ((j : ℕ) → j < length ws → file_word dev v d (p + j) ≡ get_or ws j 0)
      → file_words dev v d p (length ws) ≡ ws
  unfolding file_words
  file_words-given [] v d p h = refl
  file_words-given (w ∷ ws) v d p h =
      let z : p + 0 ≡ p = omega arith in
      let first : file_word dev v d p ≡ w =
        subst (λ q. file_word dev v d q ≡ w) z (h 0 (omega arith)) in
      rw
        (
          first,
          file_words-given ws v d (p + 1)
              (λ j lt. ap (file_word dev v d) (shift p j) ∙ h (suc j) (omega arith)),
        )
        refl
    where
      shift : (p j : ℕ) → p + 1 + j ≡ p + suc j
      shift p j = omega arith

  file_words-kept :
      (n : ℕ) (v v' : Vnode) (d d' : D) (p : ℕ)
      → ((j : ℕ) → j < n → file_word dev v' d' (p + j) ≡ file_word dev v d (p + j))
      → file_words dev v' d' p n ≡ file_words dev v d p n
  unfolding file_words
  file_words-kept zero v v' d d' p h = refl
  file_words-kept (suc n) v v' d d' p h =
      let z : p + 0 ≡ p = omega arith in
      let first : file_word dev v' d' p ≡ file_word dev v d p =
        subst (λ q. file_word dev v' d' q ≡ file_word dev v d q) z (h 0 (omega arith)) in
      rw
        (
          first,
          file_words-kept n v v' d d' (p + 1) (λ j lt.
              subst (λ q. file_word dev v' d' q ≡ file_word dev v d q) (shift p j)
                (h (suc j) (omega arith))),
        )
        refl
    where
      shift : (p j : ℕ) → p + suc j ≡ p + 1 + j
      shift p j = omega arith

  -- The same directory on a disk that holds the same.
  pub IsDirectory-Same :
      (v : Vnode) (fs fs1 : Fs D)
      → IsDirectory dev fs v
      → OnDisk dev fs fs1
      → Same dev fs.disk fs1.disk
      → IsDirectory dev fs1 v
  IsDirectory-Same v fs fs1 d on same =
      let block : (k : ℕ) → file_block dev v fs1.disk k ≡ file_block dev v fs.disk k =
        λ k. file_block-same dev v v fs.disk fs1.disk k refl refl (λ nz. same _) in
      let entry : (i : ℕ) → entry_at dev v fs1.disk i ≡ entry_at dev v fs.disk i =
        λ i. entry_at-Same dev v fs.disk fs1.disk i same in
      record {
        file = record {
          mapped = IsMapped-same dev v v fs fs1 d.file.mapped on refl refl (λ nz. same _);
          mounted = OnDisk-IsMounted dev on d.file.mounted;
          whole = λ k lt nz.
              ap (λ b. length (dev.contents fs1.disk b)) (block k)
              ∙ ap length (same _)
              ∙ d.file.whole k lt (λ z. nz (block k ∙ z));
        };
        kind = d.kind;
        slots = d.slots;
        fits = d.fits;
        unique = λ i j name hi hj ni nj.
            d.unique i j name hi hj
              (subst (λ e. (e.ino ≢ noino) × (entry_name e ≡ name)) (entry i) ni)
              (subst (λ e. (e.ino ≢ noino) × (entry_name e ≡ name)) (entry j) nj);
      }

  -- A write of the words of an entry puts them in the slot and leaves the other slots.
  module _ (v v' : Vnode) (fs fs' : Fs D) (slot : ℕ) (ws : List ℕ)
      (sixteen : length ws ≡ entry_words) (w : Wrote dev fs v (entry_words * slot) ws fs' v') where
    pub entry_written : entry_at dev v' fs'.disk slot ≡ entry_of ws
    unfolding entry_at
    entry_written = ap entry_of (
        subst (λ n. file_words dev v' fs'.disk (entry_words * slot) n ≡ ws) sixteen
          (file_words-given ws v' fs'.disk (entry_words * slot) w.inside))

    pub entry_kept :
        (j : ℕ) → j < max_slots → j ≢ slot → entry_at dev v' fs'.disk j ≡ entry_at dev v fs.disk j
    unfolding entry_at
    entry_kept j lt ne = ap entry_of (
        file_words-kept entry_words v v' fs.disk fs'.disk (entry_words * j)
          (λ i small. w.outside (entry_words * j + i) (omega arith) (apart i small)))
      where
        apart :
            (i : ℕ)
            → i < entry_words
            → (entry_words * j + i < entry_words * slot)
              ⊎ (entry_words * slot + length ws ≤ entry_words * j + i)
        apart i small = ground (arith, sixteen)
