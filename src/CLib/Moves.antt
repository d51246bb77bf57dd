-- ===== src/CLib/Moves.antt =====
-- What `memcpy`, `memmove`, `memset` and `bzero` leave in memory.
use ed_operating_system.Prelude.{
  ℕ, zero, suc, ◌+◌, ◌-◌, ◌/◌, ◌%◌, ◌^◌, ◌≤◌, ◌<◌, ◌≡◌, ◌⊎◌, inl, if◌then◌else◌, arith, ◌∙◌, sym,
}
use ed_operating_system.CLib
use ed_operating_system.CLib.Blocks.{
  within, moved, copy_bytes_lem, copy_bytes_back_lem, zero_bytes_lem,
}
use ed_operating_system.CLib.Words.{copy_words_lem, copy_words_back_lem, zero_words_lem}

pub memcpy_lem :
    (d s len : ℕ) (m : CLib.Memory) (x : ℕ)
    → (d ≤ s) ⊎ (s + len ≤ d)
    → d + len ≤ 2 ^ 32
    → s + len ≤ 2 ^ 32
    → (CLib.memcpy d s len m).1 x ≡ moved d s len m x
unfolding CLib.memcpy
memcpy_lem d s len m x clear hd hs =
    let words : len % 4 ≡ 0 → CLib.copy_words (len / 4) 0 d s m x ≡ moved d s len m x = λ al.
      ground
        (arith, copy_words_lem (len / 4) 0 d s m x (ground arith) (omega arith) (omega arith)) in
    let bytes : CLib.copy_bytes len 0 d s m x ≡ moved d s len m x =
      ground (arith, copy_bytes_lem len 0 d s m x (ground arith) (omega arith) (omega arith)) in
    ground (arith, words, bytes)

memmove-moved :
    (d s len : ℕ) (m : CLib.Memory) (x : ℕ)
    → d + len ≤ 2 ^ 32
    → s + len ≤ 2 ^ 32
    → (CLib.memmove d s len m).1 x ≡ moved d s len m x
unfolding CLib.memmove
memmove-moved d s len m x hd hs =
    let below : d < s → (CLib.memcpy d s len m).1 x ≡ moved d s len m x =
      λ lt. memcpy_lem d s len m x (inl (omega arith)) hd hs in
    let words : s ≤ d → len % 4 ≡ 0 → CLib.copy_words_back (len / 4) d s m x ≡ moved d s len m x =
      λ le al. ground (arith, copy_words_back_lem (len / 4) d s m x le (omega arith)) in
    let bytes : s ≤ d → CLib.copy_bytes_back len d s m x ≡ moved d s len m x =
      λ le. ground (arith, copy_bytes_back_lem len d s m x le hd) in
    ground (arith, below, words, bytes)

moved_inside : (d s len i : ℕ) (m : CLib.Memory) → i < len → moved d s len m (d + i) ≡ m (s + i)
moved_inside d s len i m h = let e : s + (d + i - d) ≡ s + i = omega arith in ground (arith, e)

moved_outside :
    (d s len x : ℕ) (m : CLib.Memory) → (x < d) ⊎ (d + len ≤ x) → moved d s len m x ≡ m x
moved_outside d s len x m h = ground arith

-- memmove, for blocks that do not wrap around the end of the address space and however they overlap:
-- it returns the destination, every byte of the destination holds what the byte of the source at the
-- same place held before the call, and every other byte of memory is unchanged.
pub memmove_lem :
    (d s len : ℕ) (m : CLib.Memory)
    → d + len ≤ 2 ^ 32
    → s + len ≤ 2 ^ 32
    → ((CLib.memmove d s len m).0 ≡ d)
      × ((i : ℕ) → i < len → (CLib.memmove d s len m).1 (d + i) ≡ m (s + i))
      × ((x : ℕ) → (x < d) ⊎ (d + len ≤ x) → (CLib.memmove d s len m).1 x ≡ m x)
unfolding CLib.memmove CLib.memcpy
memmove_lem d s len m hd hs =
    let exact : (x : ℕ) → (CLib.memmove d s len m).1 x ≡ moved d s len m x =
      λ x. memmove-moved d s len m x hd hs in
    (
      ground arith,
      λ i h. exact (d + i) ∙ moved_inside d s len i m h,
      λ x h. exact x ∙ moved_outside d s len x m h,
    )

-- memcpy, for blocks that do not wrap around the end of the address space and such that the
-- destination starts at or below the source or past its end: it has the same effect on every byte as
-- memmove.
pub memcpy-memmove :
    (d s len : ℕ) (m : CLib.Memory)
    → (d ≤ s) ⊎ (s + len ≤ d)
    → d + len ≤ 2 ^ 32
    → s + len ≤ 2 ^ 32
    → (x : ℕ) → (CLib.memcpy d s len m).1 x ≡ (CLib.memmove d s len m).1 x
memcpy-memmove d s len m clear hd hs x =
    memcpy_lem d s len m x clear hd hs ∙ sym (memmove-moved d s len m x hd hs)

set_bytes_lem :
    (rounds i p ch : ℕ) (m : CLib.Memory) (x : ℕ)
    → p + i + rounds ≤ 2 ^ 32
    → CLib.set_bytes rounds i p ch m x ≡ (if within (p + i) rounds x then ch % 2 ^ 8 else m x)
unfolding CLib.set_bytes CLib.store
set_bytes_lem zero i p ch m x h = ground arith
set_bytes_lem (suc rounds) i p ch m x h = ground (
  arith,
  set_bytes_lem rounds (i + 1) p ch (CLib.store m (CLib.at p i) (ch % 2 ^ 8)) x (omega arith),
)

-- bzero, for a block that does not wrap around the end of the address space, whether it writes words
-- or bytes: it has the same effect on every byte of memory as memset with the character 0, and the
-- bytes of the block are zero while all others are unchanged.
pub bzero-memset :
    (p len : ℕ) (m : CLib.Memory)
    → p + len ≤ 2 ^ 32
    → (x : ℕ)
    → (CLib.bzero p len m x ≡ (CLib.memset p 0 len m).1 x)
      × (CLib.bzero p len m x ≡ (if within p len x then 0 else m x))
unfolding CLib.bzero CLib.memset
bzero-memset p len m h x =
    let words : len % 4 ≡ 0
        → CLib.zero_words (len / 4) 0 p m x ≡ (if within p len x then 0 else m x) =
      λ al. ground (arith, zero_words_lem (len / 4) 0 p m x (omega arith)) in
    let bytes : CLib.zero_bytes len 0 p m x ≡ (if within p len x then 0 else m x) =
      ground (arith, zero_bytes_lem len 0 p m x (omega arith)) in
    ground (arith, words, bytes, set_bytes_lem len 0 p 0 m x (omega arith))
