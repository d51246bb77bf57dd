-- ===== src/Bitmap.antt =====
-- src/kern/lib/bitmap.c: a fixed-size array of bits kept in bytes. Bits past `nbits` in the last byte
-- are marked in use by `create`. An `unsigned` is 32 bits wide.
pub mod Byte
pub mod Spec
pub mod Alloc
pub mod Create
mod Tests
use Prim.Native.Nat.{bit_and, bit_or}
use ed_operating_system.Prelude.{
  ℕ, zero, suc, ◌+◌, ◌-◌, ◌*◌, ◌/◌, ◌%◌, ◌^◌, Bool, true, false, Option, none, some, List, [], ◌∷◌,
  length, get_or, set, replicate, ltb, ◌==◌, if◌then◌else◌, Result, ok, err, Errno, Outcome, ret,
  panic, ◌>>=◌,
}

abbrev pub bits_per_word : ℕ
bits_per_word = 8

abbrev pub word_allbits : ℕ
word_allbits = 0xff

-- `struct bitmap`; `v` has one element for each byte that was allocated.
pub record Bitmap : Type 0 where
  pub nbits : ℕ
  pub v : List ℕ

-- DIVROUNDUP over `unsigned`: the sum wraps.
abbrev pub words_for : ℕ → ℕ
words_for nbits = (nbits + bits_per_word - 1) % 2 ^ 32 / bits_per_word

-- `(WORD_TYPE)1 << offset`
abbrev pub mask : ℕ → ℕ
mask offset = 2 ^ offset

-- The loop of `bitmap_create` over the leftover bits, `rounds` of them left, from bit `j`.
pub mark_leftover : ℕ → ℕ → List ℕ → ℕ → List ℕ
mark_leftover zero j v ix = v
mark_leftover (suc rounds) j v ix =
    mark_leftover rounds (j + 1) (set v ix (bit_or (get_or v ix 0) (mask j))) ix

-- `bitmap_create`; the flags say whether the two allocations succeed.
pub create : Bool → Bool → ℕ → Outcome (Option Bitmap)
create false data_ok nbits = ret none
create true false nbits = ret none
create true true nbits =
    let words = words_for nbits in
    let zeros = replicate words 0 in
    let ix = words - 1 in
    let overbits = nbits - ix * bits_per_word in
    if ltb (nbits / bits_per_word) words
    then (if nbits / bits_per_word == words - 1
        then (if ltb 0 overbits
            then (if ltb overbits bits_per_word
                then ret (
                    some (record {
                      nbits = nbits;
                      v = mark_leftover (bits_per_word - overbits) overbits zeros ix;
                    }))
                else panic)
            else panic)
        else panic)
    else ret (some (record { nbits = nbits; v = zeros }))

-- The loop of `bitmap_alloc` over the bits of one byte, `rounds` of them left.
pub find_clear : ℕ → ℕ → ℕ → Option ℕ
find_clear zero offset w = none
find_clear (suc rounds) offset w =
    let rest = find_clear rounds (offset + 1) w in
    if bit_and w (mask offset) == 0 then some offset else rest

-- What `bitmap_alloc` does at a byte that is not WORD_ALLBITS.
pub take_bit : Bitmap → ℕ → Option ℕ → Outcome (Result ℕ × Bitmap)
take_bit b ix none = panic
take_bit b ix (some offset) =
    let index = ix * bits_per_word + offset in
    if ltb index b.nbits
    then ret (ok index, record b { v = set b.v ix (bit_or (get_or b.v ix 0) (mask offset)) })
    else panic

-- The loop of `bitmap_alloc` over the bytes, `rounds` of them left; a read past the array is a fault.
pub alloc_from : Bitmap → ℕ → ℕ → Outcome (Result ℕ × Bitmap)
alloc_from b zero ix = ret (err Errno.enospc, b)
alloc_from b (suc rounds) ix =
    let rest = alloc_from b rounds (ix + 1) in
    if ltb ix (length b.v)
    then (if get_or b.v ix 0 == word_allbits
        then rest
        else take_bit b ix (find_clear bits_per_word 0 (get_or b.v ix 0)))
    else panic

-- `bitmap_alloc`
pub alloc : Bitmap → Outcome (Result ℕ × Bitmap)
alloc b = alloc_from b (words_for b.nbits) 0

-- `bitmap_translate`
abbrev pub translate : ℕ → ℕ × ℕ
translate bitno = (bitno / bits_per_word, mask (bitno % bits_per_word))

-- `bitmap_mark`
pub mark : Bitmap → ℕ → Outcome Bitmap
mark b index =
    let (ix, m) = translate index in
    if ltb index b.nbits
    then (if bit_and (get_or b.v ix 0) m == 0
        then ret (record b { v = set b.v ix (bit_or (get_or b.v ix 0) m) })
        else panic)
    else panic

-- `bitmap_unmark`; `~mask` is cut to a byte by the assignment.
pub unmark : Bitmap → ℕ → Outcome Bitmap
unmark b index =
    let (ix, m) = translate index in
    if ltb index b.nbits
    then (if bit_and (get_or b.v ix 0) m == 0
        then panic
        else ret (record b { v = set b.v ix (bit_and (get_or b.v ix 0) (word_allbits - m)) }))
    else panic

-- `bitmap_isset`, with the masked byte that it returns read as a truth value
unfoldable pub isset : Bitmap → ℕ → Bool
isset b index =
    let (ix, m) = translate index in if bit_and (get_or b.v ix 0) m == 0 then false else true
