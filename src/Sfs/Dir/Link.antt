-- ===== src/Sfs/Dir/Link.antt =====
-- sfs_dir_link of src/kern/fs/sfs/sfs_dir.c.
use native.Mathlib.Decide.{ℕ_discrete}
use ed_operating_system.Prelude.{
  ℕ, ◌+◌, ◌*◌, ◌/◌, ◌<◌, ◌≤◌, ◌≡◌, ◌≢◌, ◌⊎◌, inl, inr, refl, ap, sym, ◌∙◌, subst, Option, none,
  some, List, Result, ok, err, Errno, ret, arith,
}
use ed_operating_system.Sfs.{Vnode, Fs}
use ed_operating_system.Sfs.Disk.{Device}
use ed_operating_system.Sfs.Alloc.{IsMounted, IsReadError}
use ed_operating_system.Sfs.Dir.{entry_name, noino, entry_words, entry_bytes, entry_of}
use ed_operating_system.Sfs.Dir.Entries.{entry_at}
use ed_operating_system.Sfs.Dir.Scan.{max_slots, Holds, EmptyPost, IsUnique}
use ed_operating_system.Sfs.Meta.Writes.{Wrote}
use ed_operating_system.Sfs.Dir.{new_entry, words_of, namelen, slot_for}
use ed_operating_system.Sfs.Dir.Entries.{IsChar, new_entry_read}
use ed_operating_system.Sfs.Dir.Find.{IsDirectory, Unchanged, nentries_lem}
use ed_operating_system.Prelude.{length, All}
use ed_operating_system.Sfs.Dir.Update.{length-new_entry, entry_written, entry_kept}

-- How many slots a directory has.
abbrev pub slots_of : Vnode → ℕ
slots_of v = v.inode.size / entry_bytes

module _ {D : Type 0} (dev : Device D) where
  -- A directory after a name was added in a slot that was empty or the next one.
  pub record Linked (fs : Fs D) (v : Vnode) (name : List ℕ) (ino slot : ℕ) (fs' : Fs D) (v' : Vnode)
      : Type 0 where
    pub directory : IsDirectory dev fs' v'
    pub chosen :
        ((slot < slots_of v)
          × ((entry_at dev v fs.disk slot).ino ≡ noino)
          × (slots_of v' ≡ slots_of v))
        ⊎ ((slot ≡ slots_of v) × (slots_of v' ≡ slots_of v + 1))
    pub there : Holds dev v' fs'.disk name slot
    pub inode_number : (entry_at dev v' fs'.disk slot).ino ≡ ino
    pub others :
        (j : ℕ) → j < max_slots → j ≢ slot → entry_at dev v' fs'.disk j ≡ entry_at dev v fs.disk j

  -- No slot of the directory holds the name.
  abbrev pub IsNew : Vnode → Fs D → List ℕ → Type 0
  IsNew v fs name = (j : ℕ) → j < slots_of v → ¬ Holds dev v fs.disk name j

  abbrev pub LinkPost : Vnode → Fs D → List ℕ → ℕ → Result ℕ × Vnode × Fs D → Type 0
  LinkPost v fs name ino (ok slot, v', fs') =
      IsNew v fs name × (length name < namelen) × Linked fs v name ino slot fs' v'
  LinkPost v fs name ino (err e, v', fs') =
      ((e ≡ Errno.eexist)
        × ((j : ℕ) × (j < slots_of v) × Holds dev v fs.disk name j)
        × Unchanged dev v fs v' fs')
      ⊎ (((e ≡ Errno.enametoolong)
            × IsNew v fs name
            × (namelen ≤ length name)
            × Unchanged dev v fs v' fs')
          ⊎ ((IsReadError dev e × Unchanged dev v fs v' fs')
              ⊎ (IsNew v fs name × (length name < namelen) × IsMounted dev fs')))

  -- What sfs_dir_findname handed back as an empty slot, or the next slot.
  abbrev pub IsChoice : Vnode → D → ℕ → Type 0
  IsChoice v d slot =
      ((slot < slots_of v) × ((entry_at dev v d slot).ino ≡ noino)) ⊎ (slot ≡ slots_of v)

  module _ (v : Vnode) (fs : Fs D) (name : List ℕ) (ino : ℕ) (d : IsDirectory dev fs v)
      (new : IsNew v fs name) (chars : All IsChar name) (short : length name < namelen)
      (nonzero : ino ≢ noino) where
    pub slot_for_lem :
        (empty : Option ℕ)
        → EmptyPost dev v fs.disk (slots_of v) empty
        → (slot : ℕ) × (slot_for v empty ≡ ret slot) × IsChoice v fs.disk slot
    unfolding slot_for
    slot_for_lem none h = (slots_of v, nentries_lem dev fs v d, inr refl)
    slot_for_lem (some slot) h = (slot, refl, inl h)

    module _ (slot : ℕ) (choice : IsChoice v fs.disk slot) (v' : Vnode) (fs' : Fs D)
        (w : Wrote dev fs v (entry_words * slot) (words_of (new_entry name ino)) fs' v') where
      sixteen : length (words_of (new_entry name ino)) ≡ entry_words
      sixteen = length-new_entry name ino

      possible : slot < max_slots
      possible = omega (arith, w.in_range)

      grown_none : slot < slots_of v → v'.inode.size ≡ v.inode.size
      grown_none lt = ground (arith, w.size, sixteen, d.slots, d.fits)

      grown_one : slot ≡ slots_of v → v'.inode.size ≡ v.inode.size + entry_bytes
      grown_one e = ground (arith, w.size, sixteen, d.slots, d.fits, possible)

      size_after :
          ((slot < slots_of v) × (v'.inode.size ≡ v.inode.size))
          ⊎ ((slot ≡ slots_of v) × (v'.inode.size ≡ v.inode.size + entry_bytes))
      size_after = elim choice [ inl c ↦ inl (c.0, grown_none c.0) | inr c ↦ inr (c, grown_one c) ]

      entry_new : entry_at dev v' fs'.disk slot ≡ entry_of (words_of (new_entry name ino))
      entry_new = entry_written dev v v' fs fs' slot (words_of (new_entry name ino)) sixteen w

      entry_old :
          (j : ℕ) → j < max_slots → j ≢ slot → entry_at dev v' fs'.disk j ≡ entry_at dev v fs.disk j
      entry_old = entry_kept dev v v' fs fs' slot (words_of (new_entry name ino)) sixteen w

      number_new : (entry_at dev v' fs'.disk slot).ino ≡ ino
      number_new = ap (λ e. e.ino) entry_new ∙ (new_entry_read name ino chars short).0

      holds_new : Holds dev v' fs'.disk name slot
      holds_new = (
        λ z. nonzero (sym number_new ∙ z),
        ap entry_name entry_new ∙ (new_entry_read name ino chars short).1,
      )

      holds_old :
          (j : ℕ) (other : List ℕ)
          → j < max_slots
          → j ≢ slot
          → Holds dev v' fs'.disk other j
          → Holds dev v fs.disk other j
      holds_old j other lt ne =
          subst (λ e. (e.ino ≢ noino) × (entry_name e ≡ other)) (entry_old j lt ne)

      within_old : (j : ℕ) → j < slots_of v' → j ≢ slot → (j < slots_of v) × (j < max_slots)
      within_old j lt ne = elim size_after [
        | inl s ↦ (omega (arith, s.1), omega (arith, s.1, d.fits))
        | inr s ↦ (omega (arith, s.0, s.1, d.slots), omega (arith, s.0, s.1, d.slots, d.fits))
      ]

      IsUnique-new : IsUnique dev v' fs'.disk (slots_of v')
      IsUnique-new i j other hi hj ni nj = elim (ℕ_discrete i slot) [
        | yes ei ↦ elim (ℕ_discrete j slot) [
          | yes ej ↦ ei ∙ sym ej
          | no nej ↦
              let same : other ≡ name =
                sym ni.1 ∙ ap (λ k. entry_name (entry_at dev v' fs'.disk k)) ei ∙ holds_new.1 in
              let (old, small) = within_old j hj nej in
              absurd (
                new j old
                  (subst (λ n. Holds dev v fs.disk n j) same (holds_old j other small nej nj)))
        ]
        | no nei ↦
            let (old, small) = within_old i hi nei in
            elim (ℕ_discrete j slot) [
              | yes ej ↦
                  let same : other ≡ name =
                    sym nj.1 ∙ ap (λ k. entry_name (entry_at dev v' fs'.disk k)) ej ∙ holds_new.1 in
                  absurd (
                    new i old
                      (subst (λ n. Holds dev v fs.disk n i) same (holds_old i other small nei ni)))
              | no nej ↦
                  let (old', small') = within_old j hj nej in
                  d.unique i j other old old' (holds_old i other small nei ni)
                    (holds_old j other small' nej nj)
            ]
      ]

      pub linked_lem : Linked fs v name ino slot fs' v'
      linked_lem = record {
        directory = record {
          file = w.file;
          kind = w.kind ∙ d.kind;
          slots = elim size_after [
            | inl s ↦ omega (arith, s.1, d.slots)
            | inr s ↦ omega (arith, s.1, d.slots)
          ];
          fits = elim size_after [
            | inl s ↦ omega (arith, s.1, d.fits)
            | inr s ↦ omega (arith, s.0, s.1, d.slots, possible)
          ];
          unique = IsUnique-new;
        };
        chosen = elim choice [
          | inl c ↦ inl (c.0, c.1, ap (λ n. n / entry_bytes) (grown_none c.0))
          | inr c ↦ inr (c, omega (arith, grown_one c, d.slots))
        ];
        there = holds_new;
        inode_number = number_new;
        others = entry_old;
      }
