-- ===== src/Sfs/Dir/Entries.antt =====
-- The entries of a directory of src/kern/fs/sfs/sfs_dir.c: names in words, and reading a slot.
use ed_operating_system.Prelude.{
  ℕ, zero, suc, ◌+◌, ◌*◌, ◌/◌, ◌%◌, ◌^◌, ◌<◌, ◌≤◌, ◌≡◌, ◌≢◌, ◌⊎◌, refl, ap, List, [], ◌∷◌, length,
  set, replicate, All, All-replicate, ==-ne, Result, ok, err, Errno, Returns, Returns->>=, arith,
}
use ed_operating_system.Sfs.{Vnode, Fs, dbperidb}
use ed_operating_system.Sfs.Disk.{Device}
use ed_operating_system.Sfs.Alloc.{IsMounted, OnDisk, Same, IsReadError}
use ed_operating_system.Sfs.Mapping.{IsMapped, max_blocks}
use ed_operating_system.Sfs.Meta.{uio_read, metaio}
use ed_operating_system.Sfs.Meta.Words.{file_words}
use ed_operating_system.Sfs.Meta.Reads.{MetaReadPost, metaio_read_lem}
use ed_operating_system.Sfs.Dir.{
  Direntry, unpack, pack, entry_of, words_of, text, entry_name, copy_name, new_entry, namelen,
  entry_words, entry_bytes, to_entry, readdir,
}

abbrev pub IsByte : ℕ → Type 0
IsByte c = c < 2 ^ 8

-- A character of a name.
abbrev pub IsChar : ℕ → Type 0
IsChar c = (c ≢ 0) × (c < 2 ^ 8)

unpack-pack : (n : ℕ) (cs : List ℕ) → All IsByte cs → length cs ≡ 4 * n → unpack (pack n cs) ≡ cs
unfolding unpack pack
unpack-pack zero [] h e = refl
unpack-pack zero (c ∷ cs) h e = absurd (omega arith)
unpack-pack (suc n) [] h e = absurd (omega arith)
unpack-pack (suc n) (a ∷ []) h e = absurd (omega arith)
unpack-pack (suc n) (a ∷ b ∷ []) h e = absurd (omega arith)
unpack-pack (suc n) (a ∷ b ∷ c ∷ []) h e = absurd (omega arith)
unpack-pack (suc n) (a ∷ b ∷ c ∷ d ∷ cs) h e =
    let w : ℕ = a * 2 ^ 24 + b * 2 ^ 16 + c * 2 ^ 8 + d in
    let e0 : w / 2 ^ 24 ≡ a = omega (arith, h.0, h.1.0, h.1.1.0, h.1.1.1.0) in
    let e1 : w / 2 ^ 16 % 2 ^ 8 ≡ b = omega (arith, h.0, h.1.0, h.1.1.0, h.1.1.1.0) in
    let e2 : w / 2 ^ 8 % 2 ^ 8 ≡ c = omega (arith, h.0, h.1.0, h.1.1.0, h.1.1.1.0) in
    let e3 : w % 2 ^ 8 ≡ d = omega (arith, h.0, h.1.0, h.1.1.0, h.1.1.1.0) in
    rw (e0, e1, e2, e3, unpack-pack n cs h.1.1.1.1 (omega arith)) refl

text-copy_name :
    (n : ℕ) (name : List ℕ)
    → All IsChar name
    → length name ≤ n
    → text (set (copy_name (replicate (suc n) 0) name) n 0) ≡ name
unfolding text copy_name
text-copy_name zero [] h le = refl
text-copy_name zero (c ∷ cs) h le = absurd (omega arith)
text-copy_name (suc n) [] h le = refl
text-copy_name (suc n) (c ∷ cs) h le =
    rw (==-ne c 0 h.0.0) (ap (λ ds. c ∷ ds) (text-copy_name n cs h.1 (omega arith)))

pub length-copy_name : (buf name : List ℕ) → length (copy_name buf name) ≡ length buf
unfolding copy_name
length-copy_name [] cs = refl
length-copy_name (b ∷ buf) [] = refl
length-copy_name (b ∷ buf) (c ∷ cs) = ap suc (length-copy_name buf cs)

All-copy_name :
    (buf name : List ℕ) → All IsByte buf → All IsChar name → All IsByte (copy_name buf name)
unfolding copy_name
All-copy_name [] cs hb hn = tt
All-copy_name (b ∷ buf) [] hb hn = (omega arith, hb.1)
All-copy_name (b ∷ buf) (c ∷ cs) hb hn = (hn.0.1, All-copy_name buf cs hb.1 hn.1)

-- What a new entry reads as, once it was written.
pub new_entry_read :
    (name : List ℕ) (ino : ℕ)
    → All IsChar name
    → length name < namelen
    → ((entry_of (words_of (new_entry name ino))).ino ≡ ino)
      × (entry_name (entry_of (words_of (new_entry name ino))) ≡ name)
unfolding entry_of words_of new_entry entry_name
new_entry_read name ino h lt =
    let buf : List ℕ = copy_name (replicate 60 0) name in
    let bytes : All IsByte buf =
      All-copy_name (replicate 60 0) name (All-replicate IsByte 60 0 (omega arith)) h in
    let size : length buf ≡ 4 * 15 = length-copy_name (replicate 60 0) name in
    (refl, rw (unpack-pack 15 buf bytes size) (text-copy_name 59 name h (omega arith)))

module _ {D : Type 0} (dev : Device D) where
  -- The entry in a slot.
  unfoldable pub entry_at : Vnode → D → ℕ → Direntry
  entry_at v d i = entry_of (file_words dev v d (entry_words * i) entry_words)

  abbrev pub ReadDirPost : Vnode → Fs D → ℕ → Result Direntry × Vnode × Fs D → Type 0
  ReadDirPost v fs i (ok sd, v', fs') =
      (sd ≡ entry_at v fs.disk i) × (v' ≡ v) × OnDisk dev fs fs' × Same dev fs.disk fs'.disk
  ReadDirPost v fs i (err e, v', fs') =
      (((max_blocks ≤ entry_words * i / dbperidb) × (e ≡ Errno.efbig)) ⊎ IsReadError dev e)
      × (v' ≡ v)
      × OnDisk dev fs fs'
      × Same dev fs.disk fs'.disk

  to_entry-ReadDirPost :
      (v : Vnode) (fs : Fs D) (i : ℕ) (r : Result (List ℕ) × Vnode × Fs D)
      → MetaReadPost dev v fs (entry_words * i) entry_words r
      → Returns (ReadDirPost v fs i) (to_entry dev r)
  unfolding to_entry entry_at
  to_entry-ReadDirPost v fs i (ok words, v1, fs1) h = (ap entry_of h.0, h.1, h.2, h.3)
  to_entry-ReadDirPost v fs i (err e, v1, fs1) h = h

  pub readdir_lem :
      (v : Vnode) (fs : Fs D) (i : ℕ)
      → IsMapped dev fs v
      → IsMounted dev fs
      → entry_bytes * i < 2 ^ 32
      → Returns (ReadDirPost v fs i) (readdir dev v fs i)
  unfolding readdir
  readdir_lem v fs i m mounted small =
      let position : i * entry_bytes % 2 ^ 32 ≡ 4 * (entry_words * i) = omega arith in
      rw position (
        Returns->>= (MetaReadPost dev v fs (entry_words * i) entry_words) (ReadDirPost v fs i)
          (metaio dev v fs (4 * (entry_words * i)) (uio_read entry_words)) (to_entry dev)
          (metaio_read_lem dev v fs (entry_words * i) entry_words m mounted (omega arith)
            (omega arith))
          (to_entry-ReadDirPost v fs i))
