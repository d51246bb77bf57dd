-- ===== src/CLib.antt =====
-- src/common/libc/string and src/common/libc/stdlib, the part that the kernel is built with. Memory is
-- a function from addresses to bytes; an address is a number below 2 ^ 32 and pointer arithmetic wraps.
-- A `long` is four bytes wide, so a word store writes four bytes at once.
pub mod Blocks
pub mod Words
pub mod Moves
pub mod Strings
pub mod Numbers
pub mod Tokens
mod Tests
use ed_operating_system.Prelude.{
  ℕ, zero, suc, ◌+◌, ◌*◌, ◌/◌, ◌%◌, ◌^◌, Bool, true, false, ltb, ◌==◌, if◌then◌else◌,
}

abbrev pub Memory : Type 0
Memory = ℕ → ℕ

abbrev pub sizeof_long : ℕ
sizeof_long = 4

-- The address of element `i` of an array of bytes at `p`.
abbrev pub at : ℕ → ℕ → ℕ
at p i = (p + i) % 2 ^ 32

-- The address of element `i` of an array of `long` at `p`.
abbrev pub word_at : ℕ → ℕ → ℕ
word_at p i = (p + 4 * i) % 2 ^ 32

unfoldable pub store : Memory → ℕ → ℕ → Memory
store m a v x = if x == a then v else m x

-- The four bytes of a `long`, lowest address first.
pub record Word : Type 0 where
  pub b0 : ℕ
  pub b1 : ℕ
  pub b2 : ℕ
  pub b3 : ℕ

abbrev pub load_word : Memory → ℕ → Word
load_word m a = record { b0 = m a; b1 = m (a + 1); b2 = m (a + 2); b3 = m (a + 3) }

unfoldable pub store_word : Memory → ℕ → Word → Memory
unfolding store
store_word m a w = store (store (store (store m a w.b0) (a + 1) w.b1) (a + 2) w.b2) (a + 3) w.b3

-- The test of `memcpy` and `memmove` for copying by words.
abbrev pub words_fit : ℕ → ℕ → ℕ → Bool
words_fit dst src len =
    if dst % sizeof_long == 0
    then (if src % sizeof_long == 0 then (len % sizeof_long == 0) else false)
    else false

-- The word loop of `memcpy`, `rounds` of them left, from index `i`.
unfoldable pub copy_words : ℕ → ℕ → ℕ → ℕ → Memory → Memory
copy_words zero i d s m = m
copy_words (suc rounds) i d s m =
    copy_words rounds (i + 1) d s (store_word m (word_at d i) (load_word m (word_at s i)))

-- The byte loop of `memcpy`.
unfoldable pub copy_bytes : ℕ → ℕ → ℕ → ℕ → Memory → Memory
copy_bytes zero i d s m = m
copy_bytes (suc rounds) i d s m = copy_bytes rounds (i + 1) d s (store m (at d i) (m (at s i)))

-- `memcpy`, with the memory that it leaves; the pointer that it returns is its first argument.
unfoldable pub memcpy : ℕ → ℕ → ℕ → Memory → ℕ × Memory
memcpy dst src len m = (
  dst,
  if words_fit dst src len
      then copy_words (len / sizeof_long) 0 dst src m
      else copy_bytes len 0 dst src m,
)

-- The word loop of `memmove`, which counts `i` down.
unfoldable pub copy_words_back : ℕ → ℕ → ℕ → Memory → Memory
copy_words_back zero d s m = m
copy_words_back (suc i) d s m =
    copy_words_back i d s (store_word m (word_at d i) (load_word m (word_at s i)))

-- The byte loop of `memmove`.
unfoldable pub copy_bytes_back : ℕ → ℕ → ℕ → Memory → Memory
copy_bytes_back zero d s m = m
copy_bytes_back (suc i) d s m = copy_bytes_back i d s (store m (at d i) (m (at s i)))

-- `memmove`.
unfoldable pub memmove : ℕ → ℕ → ℕ → Memory → ℕ × Memory
memmove dst src len m = if ltb dst src then memcpy dst src len m else (
  dst,
  if words_fit dst src len
      then copy_words_back (len / sizeof_long) dst src m
      else copy_bytes_back len dst src m,
)

-- The loop of `memset`; storing an `int` in a `char` keeps its low byte.
unfoldable pub set_bytes : ℕ → ℕ → ℕ → ℕ → Memory → Memory
set_bytes zero i p ch m = m
set_bytes (suc rounds) i p ch m = set_bytes rounds (i + 1) p ch (store m (at p i) (ch % 2 ^ 8))

-- `memset`.
unfoldable pub memset : ℕ → ℕ → ℕ → Memory → ℕ × Memory
memset ptr ch len m = (ptr, set_bytes len 0 ptr ch m)

abbrev pub zero_word : Word
zero_word = record { b0 = 0; b1 = 0; b2 = 0; b3 = 0 }

-- The word loop of `bzero`.
unfoldable pub zero_words : ℕ → ℕ → ℕ → Memory → Memory
zero_words zero i p m = m
zero_words (suc rounds) i p m = zero_words rounds (i + 1) p (store_word m (word_at p i) zero_word)

-- The byte loop of `bzero`.
unfoldable pub zero_bytes : ℕ → ℕ → ℕ → Memory → Memory
zero_bytes zero i p m = m
zero_bytes (suc rounds) i p m = zero_bytes rounds (i + 1) p (store m (at p i) 0)

-- `bzero`.
unfoldable pub bzero : ℕ → ℕ → Memory → Memory
bzero block len m =
    if (if block % sizeof_long == 0 then len % sizeof_long == 0 else false)
    then zero_words (len / sizeof_long) 0 block m
    else zero_bytes len 0 block m
