-- ===== src/Bitmap/Spec.antt =====
-- The set of used indices of a bitmap of src/kern/lib/bitmap.c: the abstract view of `bitmap_mark`,
-- `bitmap_unmark` and `bitmap_isset`, and the representation invariant.
use Prim.Native.Nat.{bit_and, bit_or}
use ed_operating_system.Prelude.{
  ℕ, ◌+◌, ◌-◌, ◌*◌, ◌/◌, ◌%◌, ◌^◌, ◌<◌, ◌≤◌, ◌≡◌, refl, Bool, true, false, List, length, get_or,
  set, All, All-get_or, All-set, get_or-set_self, get_or-set_ne, length-set, ◌==◌, if◌then◌else◌,
  lt→ltb, arith, panic, Returns, ◌⊎◌, Bool-cases, inl, inr, ==_iff, ◌∙◌,
}
use ed_operating_system.Bitmap.{Bitmap, words_for, mark, unmark, isset}
use ed_operating_system.Bitmap.Byte.{bit, bit-bit_or, bit-bit_and, byte_range}

abbrev pub IsByte : ℕ → Type 0
IsByte w = w < 256

-- Bit `i` of an array of bytes.
abbrev pub bits : List ℕ → ℕ → Bool
bits v i = bit (get_or v (i / 8) 0) (i % 8)

-- `words_for` does not wrap, the array has that length, and what lies past `nbits` is in use.
pub record IsValid (b : Bitmap) : Type 0 where
  pub small : b.nbits + 7 < 2 ^ 32
  pub words : length b.v ≡ words_for b.nbits
  pub bytes : All IsByte b.v
  pub tail : (i : ℕ) → b.nbits ≤ i → i < 8 * length b.v → bits b.v i ≡ true

pub byte_at : (v : List ℕ) (ix : ℕ) → All IsByte v → get_or v ix 0 < 256
byte_at v ix h = All-get_or IsByte v ix 0 h (omega arith)

-- Setting bit `k` of byte `ix` sets exactly the bit `ix * 8 + k` of the array.
pub bits-set_bit :
    (v : List ℕ) (ix k j : ℕ)
    → All IsByte v
    → ix < length v
    → k < 8
    → bits (set v ix (bit_or (get_or v ix 0) (2 ^ k))) j
      ≡ (if ix * 8 + k == j then true else bits v j)
bits-set_bit v ix k j h hx hk = elim (Bool-cases (ix == j / 8)) [
  | inl e ↦
      let e' : ix ≡ j / 8 = (==_iff _ _).0 e in
      ground (
        arith,
        get_or-set_self v ix (bit_or (get_or v ix 0) (2 ^ k)) 0 hx,
        bit-bit_or (get_or v ix 0) k (j % 8) (byte_at v ix h) hk (omega arith),
      )
  | inr n ↦ ground (arith, get_or-set_ne v ix (j / 8) (bit_or (get_or v ix 0) (2 ^ k)) 0)
]

-- Clearing it clears exactly that bit.
pub bits-clear_bit :
    (v : List ℕ) (ix k j : ℕ)
    → All IsByte v
    → ix < length v
    → k < 8
    → bits (set v ix (bit_and (get_or v ix 0) (0xff - 2 ^ k))) j
      ≡ (if ix * 8 + k == j then false else bits v j)
bits-clear_bit v ix k j h hx hk = elim (Bool-cases (ix == j / 8)) [
  | inl e ↦
      let e' : ix ≡ j / 8 = (==_iff _ _).0 e in
      ground (
        arith,
        get_or-set_self v ix (bit_and (get_or v ix 0) (0xff - 2 ^ k)) 0 hx,
        bit-bit_and (get_or v ix 0) k (j % 8) (byte_at v ix h) hk (omega arith),
      )
  | inr n ↦ ground (arith, get_or-set_ne v ix (j / 8) (bit_and (get_or v ix 0) (0xff - 2 ^ k)) 0)
]

pub isset-eq-bits : (b : Bitmap) (i : ℕ) → isset b i ≡ bits b.v i
unfolding isset
isset-eq-bits b i = refl

-- `b'` is `b` with the bit `i` set to `used`, and nothing else changed.
pub record Sets (b : Bitmap) (i : ℕ) (used : Bool) (b' : Bitmap) : Type 0 where
  pub valid : IsValid b'
  pub size : b'.nbits ≡ b.nbits
  pub only : (j : ℕ) → isset b' j ≡ (if i == j then used else isset b j)

-- An index below `nbits` lies in the array.
pub in_bounds : {b : Bitmap} (i : ℕ) → IsValid b → i < b.nbits → i / 8 < length b.v
in_bounds i v h = omega arith

module _ {b : Bitmap} (val : IsValid b) (ix k : ℕ) (hx : ix < length b.v) (hk : k < 8) where
  -- Setting a bit keeps the invariant, whichever bit it is.
  pub set_bit-Sets :
      Sets b (ix * 8 + k) true (record b { v = set b.v ix (bit_or (get_or b.v ix 0) (2 ^ k)) })
  unfolding isset
  set_bit-Sets = record {
    valid = record {
      small = val.small;
      words = length-set b.v ix (bit_or (get_or b.v ix 0) (2 ^ k)) ∙ val.words;
      bytes = All-set IsByte b.v ix _ val.bytes (byte_range _ k (byte_at b.v ix val.bytes) hk).0;
      tail = λ i lo hi. ground (
        arith,
        val.tail i,
        length-set b.v ix (bit_or (get_or b.v ix 0) (2 ^ k)),
        bits-set_bit b.v ix k i val.bytes hx hk,
      );
    };
    size = refl;
    only = λ j. bits-set_bit b.v ix k j val.bytes hx hk;
  }

  -- Clearing a bit below `nbits` keeps it too.
  pub clear_bit-Sets :
      ix * 8 + k < b.nbits
      → Sets b
          (ix * 8 + k)
          false
          (record b { v = set b.v ix (bit_and (get_or b.v ix 0) (0xff - 2 ^ k)) })
  unfolding isset
  clear_bit-Sets below = record {
    valid = record {
      small = val.small;
      words = length-set b.v ix (bit_and (get_or b.v ix 0) (0xff - 2 ^ k)) ∙ val.words;
      bytes = All-set IsByte b.v ix _ val.bytes (byte_range _ k (byte_at b.v ix val.bytes) hk).1;
      tail = λ i lo hi. ground (
        arith,
        val.tail i,
        length-set b.v ix (bit_and (get_or b.v ix 0) (0xff - 2 ^ k)),
        bits-clear_bit b.v ix k i val.bytes hx hk,
      );
    };
    size = refl;
    only = λ j. bits-clear_bit b.v ix k j val.bytes hx hk;
  }

-- bitmap_mark of a clear bit below `nbits` on a valid bitmap returns, sets that bit and changes no
-- other; the bitmap stays valid.
pub mark_lem :
    {b : Bitmap} (i : ℕ)
    → IsValid b
    → i < b.nbits
    → isset b i ≡ false
    → Returns (Sets b i true) (mark b i)
unfolding mark isset
mark_lem {b} i val below clear =
    rw (lt→ltb _ _ below, test)
      (rw index_parts at (set_bit-Sets val (i / 8) (i % 8) (in_bounds i val below) (omega arith)))
  where
    test : (bit_and (get_or b.v (i / 8) 0) (2 ^ (i % 8)) == 0) ≡ true
    test = ground arith

    index_parts : i / 8 * 8 + i % 8 ≡ i
    index_parts = omega arith

-- bitmap_unmark of a set bit below `nbits` on a valid bitmap returns, clears that bit and changes no
-- other; the bitmap stays valid.
pub unmark_lem :
    {b : Bitmap} (i : ℕ)
    → IsValid b
    → i < b.nbits
    → isset b i ≡ true
    → Returns (Sets b i false) (unmark b i)
unfolding unmark isset
unmark_lem {b} i val below used =
    rw (lt→ltb _ _ below, test)
      (rw index_parts at
        (clear_bit-Sets val (i / 8) (i % 8) (in_bounds i val below) (omega arith) (omega arith)))
  where
    test : (bit_and (get_or b.v (i / 8) 0) (2 ^ (i % 8)) == 0) ≡ false
    test = ground arith

    index_parts : i / 8 * 8 + i % 8 ≡ i
    index_parts = omega arith

-- What is not allowed stops the kernel: bitmap_mark of a set bit or past the end.
pub mark-panic : (b : Bitmap) (i : ℕ) → (b.nbits ≤ i) ⊎ (isset b i ≡ true) → mark b i ≡ panic
unfolding mark isset
mark-panic b i h = ground arith

pub unmark-panic : (b : Bitmap) (i : ℕ) → (b.nbits ≤ i) ⊎ (isset b i ≡ false) → unmark b i ≡ panic
unfolding unmark isset
unmark-panic b i h = ground arith
