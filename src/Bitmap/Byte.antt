-- ===== src/Bitmap/Byte.antt =====
-- Single bits of a byte under the masks of src/kern/lib/bitmap.c, checked for every byte.
use Prim.Native.Nat.{bit_and, bit_or}
use ed_operating_system.Prelude.{
  ℕ, ◌-◌, ◌^◌, ◌<◌, ◌≡◌, refl, Bool, true, false, ◌&&◌, ◌==◌, ltb, if◌then◌else◌, arith,
  holds_below, holds_below-elim,
}

-- Bit `k` of the byte `w`.
abbrev pub bit : ℕ → ℕ → Bool
bit w k = if bit_and w (2 ^ k) == 0 then false else true

abbrev same : Bool → Bool → Bool
same true b = b
same false true = false
same false false = true

same_eq : (a b : Bool) → same a b ≡ true → a ≡ b
same_eq a b h = ground arith

-- For all bytes and two bit numbers.
abbrev holds2 : (ℕ → ℕ → ℕ → Bool) → Bool
holds2 p = holds_below 256 λ w. holds_below 8 λ k. holds_below 8 λ j. p w k j

holds2_sound :
    (p : ℕ → ℕ → ℕ → Bool)
    → holds2 p ≡ true
    → (w k j : ℕ) → w < 256
    → k < 8
    → j < 8
    → p w k j ≡ true
holds2_sound p h w k j hw hk hj =
    let bytes =
      holds_below-elim {n = 256} (λ w'. holds_below 8 λ k'. holds_below 8 (p w' k')) h w hw in
    let first_bit = holds_below-elim {n = 8} (λ k'. holds_below 8 (p w k')) bytes k hk in
    holds_below-elim {n = 8} (p w k) first_bit j hj

set_table :
    holds2 (λ w k j. same (bit (bit_or w (2 ^ k)) j) (if k == j then true else bit w j)) ≡ true
unfolding holds_below
set_table = refl

clear_table :
    holds2 (λ w k j. same (bit (bit_and w (0xff - 2 ^ k)) j) (if k == j then false else bit w j))
    ≡ true
unfolding holds_below
clear_table = refl

range_table :
    holds2 (λ w k j. ltb (bit_or w (2 ^ k)) 256 && ltb (bit_and w (0xff - 2 ^ k)) 256) ≡ true
unfolding holds_below
range_table = refl

pub bit-bit_or :
    (w k j : ℕ)
    → w < 256
    → k < 8
    → j < 8
    → bit (bit_or w (2 ^ k)) j ≡ (if k == j then true else bit w j)
bit-bit_or w k j hw hk hj = same_eq _ _ (holds2_sound _ set_table w k j hw hk hj)

pub bit-bit_and :
    (w k j : ℕ)
    → w < 256
    → k < 8
    → j < 8
    → bit (bit_and w (0xff - 2 ^ k)) j ≡ (if k == j then false else bit w j)
bit-bit_and w k j hw hk hj = same_eq _ _ (holds2_sound _ clear_table w k j hw hk hj)

pub byte_range :
    (w k : ℕ) → w < 256 → k < 8 → (bit_or w (2 ^ k) < 256) × (bit_and w (0xff - 2 ^ k) < 256)
byte_range w k hw hk = ground (arith, holds2_sound _ range_table w k 0 hw hk (omega arith))

full_table : holds_below 8 (λ k. bit 0xff k) ≡ true
unfolding holds_below
full_table = refl

pub bit-allbits : (k : ℕ) → k < 8 → bit 0xff k ≡ true
bit-allbits k h = holds_below-elim {n = 8} (λ j. bit 0xff j) full_table k h

zero_table : holds_below 8 (λ k. same (bit 0 k) false) ≡ true
unfolding holds_below
zero_table = refl

pub bit-zero : (k : ℕ) → k < 8 → bit 0 k ≡ false
bit-zero k h = same_eq _ _ (holds_below-elim {n = 8} (λ j. same (bit 0 j) false) zero_table k h)
