-- ===== src/Bitmap/Alloc.antt =====
-- bitmap_alloc and bitmap_create of src/kern/lib/bitmap.c: first fit, and the bitmap that starts clear.
use Prim.Native.Nat.{bit_and}
use mathlib.Core.Bool.{false≢true}
use native.Mathlib.Decide.{dec_lt}
use ed_operating_system.Prelude.{
  ℕ, zero, suc, ◌+◌, ◌-◌, ◌*◌, ◌/◌, ◌%◌, ◌^◌, ◌<◌, ◌≤◌, ◌≡◌, refl, true, false, Option, none, some,
  length, get_or, ◌==◌, if◌then◌else◌, lt→ltb, arith, Result, ok, err, Errno, ◌≢◌, sym, ◌∙◌,
  Returns, Bool-cases, inl, inr, ==_iff, holds_below, holds_below-elim, holds_below-intro,
}
use ed_operating_system.Bitmap.{Bitmap, words_for, find_clear, take_bit, alloc_from, alloc, isset}
use ed_operating_system.Bitmap.Byte.{bit, bit-allbits}
use ed_operating_system.Bitmap.Spec.{IsValid, byte_at, Sets, set_bit-Sets, isset-eq-bits}

abbrev BitsBelow : ℕ → ℕ → Type 0
BitsBelow w n = (j : ℕ) → j < n → bit w j ≡ true

BitsBelow-suc : (w n : ℕ) → bit w n ≡ true → BitsBelow w n → BitsBelow w (n + 1)
BitsBelow-suc w n here below j lt = elim (Bool-cases (n == j)) [
  | inl e ↦ rw (← (==_iff n j).0 e) here
  | inr d ↦ below j (ground arith)
]

-- The first clear bit of a byte; none only if all are set.
abbrev FirstClear : ℕ → Option ℕ → Type 0
FirstClear w none = BitsBelow w 8
FirstClear w (some o) = (o < 8) × (bit w o ≡ false) × BitsBelow w o

find_clear-FirstClear :
    (rounds offset w : ℕ)
    → rounds + offset ≡ 8
    → BitsBelow w offset
    → FirstClear w (find_clear rounds offset w)
unfolding find_clear
find_clear-FirstClear zero offset w e below = λ j lt. below j (omega arith)
find_clear-FirstClear (suc rounds) offset w e below =
    elim (Bool-cases (bit_and w (2 ^ offset) == 0)) [
      | inl clear ↦ rw clear (omega arith, rw clear, below)
      | inr used ↦ rw used (
          find_clear-FirstClear rounds (offset + 1) w (omega arith)
            (BitsBelow-suc w offset (rw used) below))
    ]

-- Only WORD_ALLBITS has no clear bit.
full_table : holds_below 256 (λ w. if holds_below 8 (bit w) then w == 0xff else true) ≡ true
unfolding holds_below
full_table = refl

full_byte : (w : ℕ) → w < 256 → BitsBelow w 8 → w ≡ 0xff
full_byte w hw h = ground (
  arith,
  holds_below-intro 8 (bit w) h,
  holds_below-elim {n = 256} (λ x. if holds_below 8 (bit x) then x == 0xff else true) full_table w
      hw,
)

find_clear-some :
    (w : ℕ) → w < 256 → w ≢ 0xff → (o : ℕ) × (find_clear 8 0 w ≡ some o) × FirstClear w (some o)
find_clear-some w hw ne = go (find_clear 8 0 w) refl (find_clear-FirstClear 8 0 w refl none_below)
  where
    none_below : BitsBelow w 0
    none_below j lt = absurd (omega arith)

    go :
        (f : Option ℕ)
        → find_clear 8 0 w ≡ f
        → FirstClear w f
        → (o : ℕ) × (find_clear 8 0 w ≡ some o) × FirstClear w (some o)
    go none e h = absurd (ne (full_byte w hw h))
    go (some o) e h = (o, e, h)

-- The result of bitmap_alloc on `b`: the first clear index, which is marked; or ENOSPC and no
-- change, if every index is in use.
abbrev pub AllocPost : Bitmap → Result ℕ × Bitmap → Type 0
AllocPost b (ok i, b') =
    (i < b.nbits) × (isset b i ≡ false) × (holds_below i (isset b) ≡ true) × Sets b i true b'
AllocPost b (err e, b') = (e ≡ Errno.enospc) × (b' ≡ b) × (holds_below b.nbits (isset b) ≡ true)

abbrev UsedBelow : Bitmap → ℕ → Type 0
UsedBelow b n = (j : ℕ) → j < n → isset b j ≡ true

isset_at : (b : Bitmap) (ix o : ℕ) → o < 8 → isset b (ix * 8 + o) ≡ bit (get_or b.v ix 0) o
unfolding isset
isset_at b ix o lt = rw (byte_of, bit_of)
  where
    byte_of : (ix * 8 + o) / 8 ≡ ix
    byte_of = omega arith

    bit_of : (ix * 8 + o) % 8 ≡ o
    bit_of = omega arith

UsedBelow-add :
    (b : Bitmap) (ix o : ℕ)
    → o ≤ 8
    → BitsBelow (get_or b.v ix 0) o
    → UsedBelow b (ix * 8)
    → UsedBelow b (ix * 8 + o)
UsedBelow-add b ix o le before below j lt = elim (dec_lt j (ix * 8)) [
  | yes early ↦ below j early
  | no late ↦
      let e : j ≡ ix * 8 + (j - ix * 8) = omega arith in
      rw (e, isset_at b ix (j - ix * 8) (omega arith)) (before (j - ix * 8) (omega arith))
]

module _ {b : Bitmap} (val : IsValid b) where
  -- A clear bit is never one of the leftover bits.
  clear-lt-nbits : (i : ℕ) → i < 8 * length b.v → isset b i ≡ false → i < b.nbits
  clear-lt-nbits i hi clear = elim (dec_lt i b.nbits) [
    | yes lt ↦ lt
    | no ge ↦ absurd (false≢true (sym clear ∙ isset-eq-bits b i ∙ val.tail i (omega arith) hi))
  ]

  take_bit-AllocPost :
      (ix o : ℕ)
      → ix < length b.v
      → FirstClear (get_or b.v ix 0) (some o)
      → UsedBelow b (ix * 8)
      → Returns (AllocPost b) (take_bit b ix (some o))
  unfolding take_bit
  take_bit-AllocPost ix o hx (lt, clear, before) below =
      let free : isset b (ix * 8 + o) ≡ false = isset_at b ix o lt ∙ clear in
      let in_range : ix * 8 + o < b.nbits = clear-lt-nbits (ix * 8 + o) (omega arith) free in
      rw (lt→ltb _ _ in_range) (
        in_range,
        free,
        holds_below-intro _ (isset b) (UsedBelow-add b ix o (omega arith) before below),
        set_bit-Sets val ix o hx lt,
      )

  alloc_from-AllocPost :
      (rounds ix : ℕ)
      → rounds + ix ≡ length b.v
      → UsedBelow b (ix * 8)
      → Returns (AllocPost b) (alloc_from b rounds ix)
  unfolding alloc_from
  alloc_from-AllocPost zero ix e below =
      (refl, refl, holds_below-intro _ _ (λ j lt. below j (omega (arith, val.words, val.small))))
  alloc_from-AllocPost (suc rounds) ix e below =
      rw (lt→ltb ix (length b.v) (omega arith)) (elim (Bool-cases (get_or b.v ix 0 == 0xff)) [
        | inl full ↦ rw full (
            alloc_from-AllocPost rounds (ix + 1) (omega arith) (λ j lt.
              UsedBelow-add b ix 8 (omega arith) (λ k h. rw ((==_iff _ _).0 full) (bit-allbits k h))
                below j (omega arith)))
        | inr room ↦
            let (o, found, first) =
              find_clear-some (get_or b.v ix 0) (byte_at b.v ix val.bytes) (ground arith) in
            rw (room, found) (take_bit-AllocPost ix o (omega arith) first below)
      ])

-- bitmap_alloc on a valid bitmap never fails a KASSERT. It marks and returns the first clear index,
-- or returns ENOSPC and changes nothing when every index below `nbits` is in use.
pub alloc_lem : {b : Bitmap} → IsValid b → Returns (AllocPost b) (alloc b)
unfolding alloc
alloc_lem {b} val =
    alloc_from-AllocPost val (words_for b.nbits) 0 (omega (arith, val.words))
      (λ j lt. absurd (omega arith))
