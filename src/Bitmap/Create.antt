-- ===== src/Bitmap/Create.antt =====
-- bitmap_create of src/kern/lib/bitmap.c: every bit below `nbits` starts clear, the leftover bits of the
-- last byte are marked, and no KASSERT fails.
use Prim.Native.Nat.{bit_or}
use native.Mathlib.Decide.{ℕ_discrete}
use ed_operating_system.Prelude.{
  ℕ, zero, suc, ◌+◌, ◌-◌, ◌*◌, ◌/◌, ◌%◌, ◌^◌, ◌<◌, ◌≡◌, refl, true, false, not, ◌&&◌, Option, none,
  some, List, length, get_or, set, length-set, replicate, length-replicate, get_or-replicate, All,
  All-set, All-replicate, ltb, leb, if◌then◌else◌, lt→ltb, le→ltb, arith, ◌≢◌, ◌∙◌, Returns, Never,
  ==_iff, holds_below, holds_below-intro,
}
use ed_operating_system.Bitmap.{Bitmap, words_for, mark_leftover, create, isset}
use ed_operating_system.Bitmap.Byte.{bit-zero, byte_range}
use ed_operating_system.Bitmap.Spec.{IsByte, bits, IsValid, byte_at, bits-set_bit}

-- What the loop over the leftover bits leaves, started at bit `j` of the byte `ix`.
record Leftover (v : List ℕ) (ix j : ℕ) (r : List ℕ) : Type 0 where
  bytes : All IsByte r
  words : length r ≡ length v
  marked :
      (i : ℕ) → bits r i ≡ (if leb (ix * 8 + j) i && ltb i (ix * 8 + 8) then true else bits v i)

Leftover-step :
    (v : List ℕ) (ix j : ℕ) {r : List ℕ}
    → All IsByte v
    → ix < length v
    → j < 8
    → Leftover (set v ix (bit_or (get_or v ix 0) (2 ^ j))) ix (j + 1) r
    → Leftover v ix j r
Leftover-step v ix j h hx hj rest = record {
  bytes = rest.bytes;
  words = rest.words ∙ length-set v ix (bit_or (get_or v ix 0) (2 ^ j));
  marked = λ i. ground (arith, rest.marked i, bits-set_bit v ix j i h hx hj);
}

mark_leftover-Leftover :
    (rounds j : ℕ) (v : List ℕ) (ix : ℕ)
    → rounds + j ≡ 8
    → All IsByte v
    → ix < length v
    → Leftover v ix j (mark_leftover rounds j v ix)
unfolding mark_leftover
mark_leftover-Leftover zero j v ix e h hx = record {
  bytes = h;
  words = refl;
  marked = λ i. ground arith;
}
mark_leftover-Leftover (suc rounds) j v ix e h hx = Leftover-step v ix j h hx (omega arith) (
    mark_leftover-Leftover rounds (j + 1) (set v ix (bit_or (get_or v ix 0) (2 ^ j))) ix
      (omega arith) (All-set IsByte v ix _ h (byte_range _ j (byte_at v ix h) (omega arith)).0)
      (rw length-set hx))

bits-zeros : (n i : ℕ) → bits (replicate n 0) i ≡ false
bits-zeros n i = rw (get_or-replicate {A = ℕ} n (i / 8) 0) (bit-zero (i % 8) (omega arith))

-- A bitmap that is new: valid, of the size asked for, with every index clear.
abbrev pub IsFresh : ℕ → Option Bitmap → Type 0
IsFresh nbits none = Never
IsFresh nbits (some b) =
    IsValid b × (b.nbits ≡ nbits) × (holds_below nbits (λ i. not (isset b i)) ≡ true)

-- With `nbits` not a multiple of 8, the leftover bits are marked.
Leftover-IsFresh :
    (nbits : ℕ) {r : List ℕ}
    → nbits + 7 < 2 ^ 32
    → nbits % 8 ≢ 0
    → Leftover (replicate (words_for nbits) 0) (words_for nbits - 1) (nbits % 8) r
    → IsFresh nbits (some (record { nbits = nbits; v = r }))
unfolding isset
Leftover-IsFresh nbits {r} small odd left = (
  record {
    small = small;
    words = left.words ∙ length-replicate (words_for nbits) 0;
    bytes = left.bytes;
    tail = λ i lo hi.
        ground (arith, left.marked i, left.words, length-replicate {A = ℕ} (words_for nbits) 0);
  },
  refl,
  holds_below-intro nbits _ (λ i lt. ground (arith, left.marked i, bits-zeros (words_for nbits) i)),
)

zeros-IsFresh :
    (nbits : ℕ)
    → nbits + 7 < 2 ^ 32
    → nbits % 8 ≡ 0
    → IsFresh nbits (some (record { nbits = nbits; v = replicate (words_for nbits) 0 }))
unfolding isset
zeros-IsFresh nbits small even = (
  record {
    small = small;
    words = length-replicate (words_for nbits) 0;
    bytes = All-replicate IsByte (words_for nbits) 0 (omega arith);
    tail = λ i lo hi. absurd (omega (arith, length-replicate {A = ℕ} (words_for nbits) 0));
  },
  refl,
  holds_below-intro nbits _ (λ i lt. ground (arith, bits-zeros (words_for nbits) i)),
)

-- bitmap_create with both allocations successful returns a valid bitmap of that size, all clear, if
-- rounding the size up does not wrap.
pub create_lem : (nbits : ℕ) → nbits + 7 < 2 ^ 32 → Returns (IsFresh nbits) (create true true nbits)
unfolding create
create_lem nbits small = elim (ℕ_discrete (nbits % 8) 0) [
  | yes even ↦
      rw (le→ltb (nbits / 8) (words_for nbits) (omega arith)) (zeros-IsFresh nbits small even)
  | no odd ↦
      let over : nbits - (words_for nbits - 1) * 8 ≡ nbits % 8 = omega arith in
      rw
        (
          lt→ltb (nbits / 8) (words_for nbits) (omega arith),
          (==_iff (nbits / 8) (words_for nbits - 1)).1 (omega arith),
          over,
          lt→ltb 0 (nbits % 8) (omega arith),
          lt→ltb (nbits % 8) 8 (omega arith),
        )
        (Leftover-IsFresh nbits small odd (
          mark_leftover-Leftover (8 - nbits % 8) (nbits % 8) _ (words_for nbits - 1) (omega arith)
            (All-replicate IsByte (words_for nbits) 0 (omega arith))
            (omega (arith, length-replicate {A = ℕ} (words_for nbits) 0))))
]
