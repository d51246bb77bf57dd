-- ===== src/Sfs/Dir.antt =====
-- src/kern/fs/sfs/sfs_dir.c: directories. An entry has 64 bytes, 16 words, which lie in one block. A
-- word of the name has its first character in the high bits, as on the MIPS of System/161. A C string
-- that the caller gives is its text.
pub mod Entries
pub mod Scan
pub mod Find
pub mod Update
pub mod Link
pub mod Effect
pub mod RoundTrip
pub mod Unlink
mod Tests
use ed_operating_system.Prelude.{
  ℕ, zero, suc, ◌+◌, ◌-◌, ◌*◌, ◌/◌, ◌%◌, ◌^◌, Bool, true, false, Option, none, some, List, [], ◌∷◌,
  length, set, replicate, ltb, ◌==◌, if◌then◌else◌, Outcome, ret, panic, ◌>>=◌, Result, ok, err,
  Errno,
}
use ed_operating_system.CLib.Strings.Texts.{compare_texts}
use ed_operating_system.Sfs.{Vnode, Fs}
use ed_operating_system.Sfs.Disk.{Device}
use ed_operating_system.Sfs.Meta.{uio_read, uio_write, metaio}

abbrev pub namelen : ℕ
namelen = 60

abbrev pub noino : ℕ
noino = 0

abbrev pub type_dir : ℕ
type_dir = 2

-- `sizeof(struct sfs_direntry)`, in bytes and in words.
abbrev pub entry_bytes : ℕ
entry_bytes = 64

abbrev pub entry_words : ℕ
entry_words = 16

-- `struct sfs_direntry`; the name has `namelen` bytes.
pub record Direntry : Type 0 where
  pub ino : ℕ
  pub name : List ℕ

-- The bytes of words, and the words of bytes.
unfoldable pub unpack : List ℕ → List ℕ
unpack [] = []
unpack (w ∷ ws) = w / 2 ^ 24 ∷ w / 2 ^ 16 % 2 ^ 8 ∷ w / 2 ^ 8 % 2 ^ 8 ∷ w % 2 ^ 8 ∷ unpack ws

unfoldable pub pack : ℕ → List ℕ → List ℕ
pack zero cs = []
pack (suc n) [] = []
pack (suc n) (a ∷ []) = []
pack (suc n) (a ∷ b ∷ []) = []
pack (suc n) (a ∷ b ∷ c ∷ []) = []
pack (suc n) (a ∷ b ∷ c ∷ d ∷ cs) = (a * 2 ^ 24 + b * 2 ^ 16 + c * 2 ^ 8 + d) ∷ pack n cs

unfoldable pub entry_of : List ℕ → Direntry
entry_of [] = record { ino = noino; name = [] }
entry_of (w ∷ ws) = record { ino = w; name = unpack ws }

unfoldable pub words_of : Direntry → List ℕ
words_of sd = sd.ino ∷ pack 15 sd.name

-- The text of the C string in a buffer.
unfoldable pub text : List ℕ → List ℕ
text [] = []
text (c ∷ cs) = if c == 0 then [] else c ∷ text cs

-- The name as the code reads it, with a terminator put in its last byte.
unfoldable pub entry_name : Direntry → List ℕ
entry_name sd = text (set sd.name (60 - 1) 0)

-- What the search for a name has found: the slot and the inode number of the name, and an empty slot.
pub record Search : Type 0 where
  pub hit : Option (ℕ × ℕ)
  pub emptyslot : Option ℕ

abbrev pub nothing : Search
nothing = record { hit = none; emptyslot = none }

-- The name was found; it may appear only once.
unfoldable pub note_hit : ℕ → ℕ → Search → Option (ℕ × ℕ) → Outcome Search
note_hit i ino s (some h) = panic
note_hit i ino s none = ret (record s { hit = some (i, ino) })

-- What the loop does with one entry.
unfoldable pub check_entry : ℕ → List ℕ → Direntry → Search → Outcome Search
check_entry i name sd s =
    if sd.ino == noino
    then ret (record s { emptyslot = some i })
    else if compare_texts (entry_name sd) name == 0
    then note_hit i sd.ino s s.hit
    else ret s

-- `found ? 0 : ENOENT`, with what is written through `slot` and `ino`.
abbrev pub found : Option (ℕ × ℕ) → Result (ℕ × ℕ)
found none = err Errno.enoent
found (some h) = ok h

-- `sfs_dir_nentries`
unfoldable pub nentries : Vnode → Outcome ℕ
nentries v =
    if v.inode.kind == type_dir
    then if v.inode.size % entry_bytes == 0 then ret (v.inode.size / entry_bytes) else panic
    else panic

abbrev pub is_enoent : Errno → Bool
is_enoent Errno.enoent = true
is_enoent e = false

-- `bzero` of an entry and `strcpy` to its name.
unfoldable pub copy_name : List ℕ → List ℕ → List ℕ
copy_name [] cs = []
copy_name (b ∷ buf) [] = 0 ∷ buf
copy_name (b ∷ buf) (c ∷ cs) = c ∷ copy_name buf cs

unfoldable pub new_entry : List ℕ → ℕ → Direntry
new_entry name ino = record { ino = ino; name = copy_name (replicate namelen 0) name }

abbrev pub free_entry : Direntry
free_entry = record { ino = noino; name = replicate namelen 0 }

-- The slot for a new entry: the empty one, or one at the end.
unfoldable pub slot_for : Vnode → Option ℕ → Outcome ℕ
slot_for v none = nentries v
slot_for v (some slot) = ret slot

module _ {D : Type 0} (dev : Device D) where
  -- `sfs_metaio` gave the words of an entry.
  unfoldable pub to_entry :
      Result (List ℕ) × Vnode × Fs D → Outcome (Result Direntry × Vnode × Fs D)
  to_entry (err e, v, fs) = ret (err e, v, fs)
  to_entry (ok words, v, fs) = ret (ok (entry_of words), v, fs)

  -- `sfs_readdir`; the position is computed with 32 bits.
  unfoldable pub readdir : Vnode → Fs D → ℕ → Outcome (Result Direntry × Vnode × Fs D)
  readdir v fs slot =
      metaio dev v fs (slot * entry_bytes % 2 ^ 32) (uio_read entry_words) >>= to_entry

  -- `sfs_writedir`, for a slot that is not negative.
  unfoldable pub writedir : Vnode → Fs D → ℕ → Direntry → Outcome (Result (List ℕ) × Vnode × Fs D)
  writedir v fs slot sd = metaio dev v fs (slot * entry_bytes % 2 ^ 32) (uio_write (words_of sd))

  abbrev pub SearchOutcome : Type 0
  SearchOutcome = Outcome (Result (Unit {0}) × Search × Vnode × Fs D)

  -- One round of the loop, and the rounds after it.
  unfoldable pub search_round :
      ℕ
      → List ℕ
      → Search
      → (Search → Vnode → Fs D → SearchOutcome)
      → Result Direntry × Vnode × Fs D
      → SearchOutcome
  search_round i name s rest (err e, v, fs) = ret (err e, s, v, fs)
  search_round i name s rest (ok sd, v, fs) = check_entry i name sd s >>= λ s'. rest s' v fs

  -- The loop over the slots, with that many rounds left, from slot `i`.
  unfoldable pub search_from : ℕ → ℕ → List ℕ → Search → Vnode → Fs D → SearchOutcome
  search_from zero i name s v fs = ret (ok tt, s, v, fs)
  search_from (suc rounds) i name s v fs =
      readdir v fs i
      >>= search_round i name s (λ s' v' fs'. search_from rounds (i + 1) name s' v' fs')

  abbrev pub FindOutcome : Type 0
  FindOutcome = Outcome (Result (ℕ × ℕ) × Option ℕ × Vnode × Fs D)

  -- After the loop.
  unfoldable pub searched : Result (Unit {0}) × Search × Vnode × Fs D → FindOutcome
  searched (err e, s, v, fs) = ret (err e, s.emptyslot, v, fs)
  searched (ok u, s, v, fs) = ret (found s.hit, s.emptyslot, v, fs)

  -- `sfs_dir_findname`: the slot and the inode number or the error, and the empty slot.
  unfoldable pub findname : Vnode → Fs D → List ℕ → FindOutcome
  findname v fs name = nentries v >>= λ n. search_from n 0 name nothing v fs >>= searched

  abbrev pub LinkOutcome : Type 0
  LinkOutcome = Outcome (Result ℕ × Vnode × Fs D)

  -- After `sfs_writedir`, with the slot handed back.
  unfoldable pub linked : ℕ → Result (List ℕ) × Vnode × Fs D → LinkOutcome
  linked slot (err e, v, fs) = ret (err e, v, fs)
  linked slot (ok words, v, fs) = ret (ok slot, v, fs)

  -- The name does not exist.
  unfoldable pub link_new : List ℕ → ℕ → Option ℕ → Vnode → Fs D → LinkOutcome
  link_new name ino empty v fs =
      if ltb namelen (length name + 1)
      then ret (err Errno.enametoolong, v, fs)
      else slot_for v empty >>= λ slot. writedir v fs slot (new_entry name ino) >>= linked slot

  -- After `sfs_dir_findname`.
  unfoldable pub link_found : List ℕ → ℕ → Result (ℕ × ℕ) × Option ℕ × Vnode × Fs D → LinkOutcome
  link_found name ino (ok h, empty, v, fs) = ret (err Errno.eexist, v, fs)
  link_found name ino (err e, empty, v, fs) =
      if is_enoent e then link_new name ino empty v fs else ret (err e, v, fs)

  -- `sfs_dir_link`
  unfoldable pub dir_link : Vnode → Fs D → List ℕ → ℕ → LinkOutcome
  dir_link v fs name ino = findname v fs name >>= link_found name ino

  -- `sfs_dir_unlink`
  unfoldable pub dir_unlink : Vnode → Fs D → ℕ → Outcome (Result (List ℕ) × Vnode × Fs D)
  dir_unlink v fs slot = writedir v fs slot free_entry
