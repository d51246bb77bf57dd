-- ===== src/Sfs/Dir/Scan.antt =====
-- The loop of sfs_dir_findname of src/kern/fs/sfs/sfs_dir.c.
use native.Mathlib.Decide.{ℕ_discrete}
use ed_operating_system.Prelude.{
  ℕ, zero, suc, ◌+◌, ◌*◌, ◌/◌, ◌<◌, ◌≡◌, ◌≢◌, inl, inr, refl, ap, sym, subst, false, Option, none,
  some, List, ◌==◌, ==_iff, Bool-cases, Returns, arith,
}
use ed_operating_system.CLib.Strings.Texts.{compare_texts, compare_texts_same, compare_texts_self}
use ed_operating_system.Sfs.{Vnode, dbperidb}
use ed_operating_system.Sfs.Disk.{Device}
use ed_operating_system.Sfs.Alloc.{Same}
use ed_operating_system.Sfs.Meta.Words.{file_word, file_words}
use ed_operating_system.Sfs.Meta.Writes.{file_block-same}
use ed_operating_system.Sfs.Dir.{
  Search, note_hit, check_entry, entry_name, noino, entry_words, entry_of,
}
use ed_operating_system.Sfs.Dir.Entries.{entry_at}

-- The most entries that a file has room for.
abbrev pub max_slots : ℕ
max_slots = 1144

module _ {D : Type 0} (dev : Device D) where
  file_word-Same :
      (v : Vnode) (d d' : D) (q : ℕ) → Same dev d d' → file_word dev v d' q ≡ file_word dev v d q
  unfolding file_word
  file_word-Same v d d' q same =
      let block = file_block-same dev v v d d' (q / dbperidb) refl refl (λ nz. same _) in
      rw (block, same) refl

  file_words-Same :
      (n : ℕ) (v : Vnode) (d d' : D) (q : ℕ)
      → Same dev d d'
      → file_words dev v d' q n ≡ file_words dev v d q n
  unfolding file_words
  file_words-Same zero v d d' q same = refl
  file_words-Same (suc n) v d d' q same =
      rw (file_word-Same v d d' q same, file_words-Same n v d d' (q + 1) same) refl

  pub entry_at-Same :
      (v : Vnode) (d d' : D) (i : ℕ) → Same dev d d' → entry_at dev v d' i ≡ entry_at dev v d i
  unfolding entry_at
  entry_at-Same v d d' i same =
      ap entry_of (file_words-Same entry_words v d d' (entry_words * i) same)

  -- A slot that is in use, and one that holds a name.
  abbrev pub IsLive : Vnode → D → ℕ → Type 0
  IsLive v d i = (entry_at dev v d i).ino ≢ noino

  abbrev pub Holds : Vnode → D → List ℕ → ℕ → Type 0
  Holds v d name i = IsLive v d i × (entry_name (entry_at dev v d i) ≡ name)

  -- What the search has found among the first `i` slots.
  abbrev pub HitPost : Vnode → D → List ℕ → ℕ → Option (ℕ × ℕ) → Type 0
  HitPost v d name i none = (j : ℕ) → j < i → ¬ Holds v d name j
  HitPost v d name i (some (slot, ino)) =
      (slot < i) × Holds v d name slot × (ino ≡ (entry_at dev v d slot).ino)

  abbrev pub EmptyPost : Vnode → D → ℕ → Option ℕ → Type 0
  EmptyPost v d i none = (j : ℕ) → j < i → IsLive v d j
  EmptyPost v d i (some slot) = (slot < i) × ((entry_at dev v d slot).ino ≡ noino)

  abbrev pub Scanned : Vnode → D → List ℕ → ℕ → Search → Type 0
  Scanned v d name i s = HitPost v d name i s.hit × EmptyPost v d i s.emptyslot

  -- No name stands in two slots.
  abbrev pub IsUnique : Vnode → D → ℕ → Type 0
  IsUnique v d n =
      (i j : ℕ) (name : List ℕ) → i < n → j < n → Holds v d name i → Holds v d name j → i ≡ j

  module _ (v : Vnode) (d : D) (name : List ℕ) where
    hit_miss :
        (i : ℕ) (h : Option (ℕ × ℕ))
        → HitPost v d name i h
        → ¬ Holds v d name i
        → HitPost v d name (i + 1) h
    hit_miss i none h no_name = λ j lt. elim (ℕ_discrete j i) [
      | yes e ↦ subst (λ k. ¬ Holds v d name k) (sym e) no_name
      | no ne ↦ h j (omega arith)
    ]
    hit_miss i (some (slot, ino)) h no_name = (omega (arith, h.0), h.1, h.2)

    empty_live : (i : ℕ) (e : Option ℕ) → EmptyPost v d i e → IsLive v d i → EmptyPost v d (i + 1) e
    empty_live i none h live = λ j lt. elim (ℕ_discrete j i) [
      | yes e ↦ subst (IsLive v d) (sym e) live
      | no ne ↦ h j (omega arith)
    ]
    empty_live i (some slot) h live = (omega (arith, h.0), h.1)

    note_hit_lem :
        (i n : ℕ) (s : Search) (h : Option (ℕ × ℕ))
        → i < n
        → IsUnique v d n
        → HitPost v d name i h
        → EmptyPost v d i s.emptyslot
        → Holds v d name i
        → Returns (Scanned v d name (i + 1)) (note_hit i (entry_at dev v d i).ino s h)
    unfolding note_hit
    note_hit_lem i n s none lt unique hp ep holds =
        ((omega arith, holds, refl), empty_live i s.emptyslot ep holds.0)
    note_hit_lem i n s (some (slot, ino)) lt unique hp ep holds =
        let same : slot ≡ i = unique slot i name (omega (arith, hp.0)) lt hp.1 holds in
        absurd (omega (arith, hp.0))

    pub check_entry_lem :
        (i n : ℕ) (s : Search)
        → i < n
        → IsUnique v d n
        → Scanned v d name i s
        → Returns (Scanned v d name (i + 1)) (check_entry i name (entry_at dev v d i) s)
    unfolding check_entry
    check_entry_lem i n s lt unique (hp, ep) =
        elim (Bool-cases ((entry_at dev v d i).ino == noino)) [
          | inl z ↦
              let free : (entry_at dev v d i).ino ≡ noino = (==_iff _ _).0 z in
              rw z (hit_miss i s.hit hp (λ h. h.0 free), (omega arith, free))
          | inr l ↦
              let live : IsLive v d i = λ z. ground arith in
              rw l (elim (Bool-cases (compare_texts (entry_name (entry_at dev v d i)) name == 0)) [
                | inl e ↦
                    let same : entry_name (entry_at dev v d i) ≡ name =
                      compare_texts_same _ _ ((==_iff _ _).0 e) in
                    rw e (note_hit_lem i n s s.hit lt unique hp ep (live, same))
                | inr ne ↦
                    rw ne (
                      hit_miss i s.hit hp (λ h. differs i h.1 ne),
                      empty_live i s.emptyslot ep live,
                    )
              ])
        ]
      where
        differs :
            (i : ℕ)
            → entry_name (entry_at dev v d i) ≡ name
            → ¬ ((compare_texts (entry_name (entry_at dev v d i)) name == 0) ≡ false)
        differs i e h = ground (arith, ap (λ t. compare_texts t name) e, compare_texts_self name)
