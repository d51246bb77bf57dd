-- ===== src/Sfs/Dir/Find.antt =====
-- sfs_dir_findname of src/kern/fs/sfs/sfs_dir.c.
use ed_operating_system.Prelude.{
  ℕ, zero, suc, ◌+◌, ◌*◌, ◌/◌, ◌%◌, ◌<◌, ◌≤◌, ◌≡◌, ◌⊎◌, inl, inr, refl, ◌∙◌, subst, Option, none,
  some, List, Result, ok, err, Errno, Returns, Returns->>=, ret, arith,
}
use ed_operating_system.Sfs.{Vnode, Fs}
use ed_operating_system.Sfs.Disk.{Device}
use ed_operating_system.Sfs.Alloc.{IsMounted, OnDisk, Same, IsReadError}
use ed_operating_system.Sfs.Mapping.{IsMapped}
use ed_operating_system.Sfs.Extend.{OnDisk-IsMounted}
use ed_operating_system.Sfs.Meta.Reads.{OnDisk-trans}
use ed_operating_system.Sfs.Meta.Writes.{IsFile, IsMapped-same}
use ed_operating_system.Sfs.Dir.{
  Direntry, Search, check_entry, entry_bytes, readdir, search_round, search_from, findname,
  searched, found, nentries, nothing, type_dir, SearchOutcome,
}
use ed_operating_system.Sfs.Dir.Entries.{entry_at, ReadDirPost, readdir_lem}
use ed_operating_system.Sfs.Dir.Scan.{
  max_slots, entry_at-Same, Holds, HitPost, EmptyPost, Scanned, IsUnique, check_entry_lem,
}

module _ {D : Type 0} (dev : Device D) where
  -- A directory: a file of that type, of whole entries, within the size a file can have, and with no
  -- name in two slots.
  pub record IsDirectory (fs : Fs D) (v : Vnode) : Type 0 where
    pub file : IsFile dev fs v
    pub kind : v.inode.kind ≡ type_dir
    pub slots : v.inode.size % entry_bytes ≡ 0
    pub fits : v.inode.size ≤ entry_bytes * max_slots
    pub unique : IsUnique dev v fs.disk (v.inode.size / entry_bytes)

  abbrev pub Unchanged : Vnode → Fs D → Vnode → Fs D → Type 0
  Unchanged v fs v' fs' = (v' ≡ v) × OnDisk dev fs fs' × Same dev fs.disk fs'.disk

  abbrev pub SearchPost :
      Vnode → Fs D → List ℕ → ℕ → Result (Unit {0}) × Search × Vnode × Fs D → Type 0
  SearchPost v fs name n (ok u, s, v', fs') = Scanned dev v fs.disk name n s × Unchanged v fs v' fs'
  SearchPost v fs name n (err e, s, v', fs') = IsReadError dev e × Unchanged v fs v' fs'

  module _ (v : Vnode) (fs : Fs D) (name : List ℕ) (n : ℕ) (m : IsMapped dev fs v)
      (mounted : IsMounted dev fs) (small : n ≤ max_slots) (unique : IsUnique dev v fs.disk n) where
    search_round_lem :
        (i : ℕ) (s : Search) (fs1 : Fs D) (rest : Search → Vnode → Fs D → SearchOutcome dev)
        → i < n
        → Scanned dev v fs.disk name i s
        → OnDisk dev fs fs1
        → Same dev fs.disk fs1.disk
        → ((s' : Search) (fs' : Fs D)
            → Scanned dev v fs.disk name (i + 1) s'
            → OnDisk dev fs fs'
            → Same dev fs.disk fs'.disk
            → Returns (SearchPost v fs name n) (rest s' v fs'))
        → (r : Result Direntry × Vnode × Fs D) → ReadDirPost dev v fs1 i r
        → Returns (SearchPost v fs name n) (search_round dev i name s rest r)
    unfolding search_round
    search_round_lem i s fs1 rest lt h on same k (err x, v2, fs2) (inl big, same_v, on2, same2) =
        absurd (omega (arith, big.0))
    search_round_lem i s fs1 rest lt h on same k (err x, v2, fs2) (inr e, same_v, on2, same2) =
        (e, (same_v, OnDisk-trans dev on on2, λ c. same2 c ∙ same c))
    search_round_lem i s fs1 rest lt h on same k (ok sd, v2, fs2) (e, same_v, on2, same2) =
        rw (same_v, e ∙ entry_at-Same dev v fs.disk fs1.disk i same)
          (Returns->>= (Scanned dev v fs.disk name (i + 1)) (SearchPost v fs name n)
            (check_entry i name (entry_at dev v fs.disk i) s) (λ s'. rest s' v fs2)
            (check_entry_lem dev v fs.disk name i n s lt unique h)
            (λ s' h'. k s' fs2 h' (OnDisk-trans dev on on2) (λ c. same2 c ∙ same c)))

    search_from_lem :
        (rounds i : ℕ) (s : Search) (fs1 : Fs D)
        → i + rounds ≡ n
        → Scanned dev v fs.disk name i s
        → OnDisk dev fs fs1
        → Same dev fs.disk fs1.disk
        → Returns (SearchPost v fs name n) (search_from dev rounds i name s v fs1)
    unfolding search_from search_round
    search_from_lem zero i s fs1 e h on same =
        let all : i ≡ n = omega arith in
        (subst (λ k. Scanned dev v fs.disk name k s) all h, (refl, on, same))
    search_from_lem (suc rounds) i s fs1 e h on same =
        let m1 : IsMapped dev fs1 v = IsMapped-same dev v v fs fs1 m on refl refl (λ nz. same _) in
        Returns->>= (ReadDirPost dev v fs1 i) (SearchPost v fs name n) (readdir dev v fs1 i)
          (search_round dev i name s (λ s' v' fs'. search_from dev rounds (i + 1) name s' v' fs'))
          (readdir_lem dev v fs1 i m1 (OnDisk-IsMounted dev on mounted) (omega arith))
          (search_round_lem i s fs1 (λ s' v' fs'. search_from dev rounds (i + 1) name s' v' fs')
            (omega arith) h on same
            (λ s' fs' h' on' same'.
              search_from_lem rounds (i + 1) s' fs' (omega arith) h' on' same'))

  -- The result of sfs_dir_findname in a directory of `n` slots.
  abbrev pub FindPost :
      Vnode → Fs D → List ℕ → ℕ → Result (ℕ × ℕ) × Option ℕ × Vnode × Fs D → Type 0
  FindPost v fs name n (ok (slot, ino), empty, v', fs') =
      (slot < n)
      × Holds dev v fs.disk name slot
      × (ino ≡ (entry_at dev v fs.disk slot).ino)
      × Unchanged v fs v' fs'
  FindPost v fs name n (err e, empty, v', fs') =
      (((e ≡ Errno.enoent)
          × ((j : ℕ) → j < n → ¬ Holds dev v fs.disk name j)
          × EmptyPost dev v fs.disk n empty)
        ⊎ IsReadError dev e)
      × Unchanged v fs v' fs'

  found_lem :
      (v : Vnode) (fs : Fs D) (name : List ℕ) (n : ℕ) (h : Option (ℕ × ℕ)) (empty : Option ℕ)
      (v' : Vnode) (fs' : Fs D)
      → HitPost dev v fs.disk name n h
      → EmptyPost dev v fs.disk n empty
      → Unchanged v fs v' fs'
      → FindPost v fs name n (found h, empty, v', fs')
  found_lem v fs name n none empty v' fs' hp ep same = (inl (refl, hp, ep), same)
  found_lem v fs name n (some (slot, ino)) empty v' fs' hp ep same = (hp.0, hp.1, hp.2, same)

  searched_lem :
      (v : Vnode) (fs : Fs D) (name : List ℕ) (n : ℕ)
      (r : Result (Unit {0}) × Search × Vnode × Fs D)
      → SearchPost v fs name n r
      → Returns (FindPost v fs name n) (searched dev r)
  unfolding searched
  searched_lem v fs name n (ok u, s, v1, fs1) ((hp, ep), same) =
      found_lem v fs name n s.hit s.emptyslot v1 fs1 hp ep same
  searched_lem v fs name n (err e, s, v1, fs1) (e', same) = (inr e', same)

  pub nentries_lem :
      (fs : Fs D) (v : Vnode) → IsDirectory fs v → nentries v ≡ ret (v.inode.size / entry_bytes)
  unfolding nentries
  nentries_lem fs v d = rw (d.kind, d.slots) refl

  -- sfs_dir_findname, on a directory in which no name stands twice, returns and changes neither the
  -- directory, nor the free map, nor what the disk holds. If it succeeds, the slot is one of the
  -- directory's, is in use and holds the name, and the inode number is the one that stands there. If
  -- it fails, it is with an error of the disk, or with ENOENT, and then no slot in use holds the name
  -- and it hands back an empty slot if there is one.
  pub findname_lem :
      (v : Vnode) (fs : Fs D) (name : List ℕ)
      → IsDirectory fs v
      → Returns (FindPost v fs name (v.inode.size / entry_bytes)) (findname dev v fs name)
  unfolding findname
  findname_lem v fs name d =
      let n : ℕ = v.inode.size / entry_bytes in
      rw (nentries_lem fs v d) (
        Returns->>= (SearchPost v fs name n) (FindPost v fs name n)
          (search_from dev n 0 name nothing v fs) (searched dev)
          (search_from_lem v fs name n d.file.mapped d.file.mounted (omega (arith, d.fits)) d.unique
            n 0 nothing fs (omega arith)
            (λ j lt. absurd (omega arith), λ j lt. absurd (omega arith))
            (record { map_kept = refl; size_kept = refl }) (λ c. refl))
          (searched_lem v fs name n))
