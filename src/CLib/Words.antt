-- ===== src/CLib/Words.antt =====
-- The loops of `memcpy`, `memmove` and `bzero` over words: the same effect as those over bytes.
use ed_operating_system.Prelude.{
  ℕ, zero, suc, ◌+◌, ◌-◌, ◌*◌, ◌^◌, ◌≤◌, ◌<◌, ◌≡◌, ◌⊎◌, if◌then◌else◌, arith, ◌∙◌,
}
use ed_operating_system.CLib
use ed_operating_system.CLib.Blocks.{within, moved_from}

-- A word that is copied is four bytes that are copied.
pub store_word-load_word :
    (m : CLib.Memory) (a b x : ℕ)
    → CLib.store_word m a (CLib.load_word m b) x ≡ (if within a 4 x then m (b + (x - a)) else m x)
unfolding CLib.store_word CLib.store
store_word-load_word m a b x =
    let e1 : x ≡ a → b + (x - a) ≡ b = λ e. omega arith in
    let e2 : x ≡ a + 1 → b + (x - a) ≡ b + 1 = λ e. omega arith in
    let e3 : x ≡ a + 2 → b + (x - a) ≡ b + 2 = λ e. omega arith in
    let e4 : x ≡ a + 3 → b + (x - a) ≡ b + 3 = λ e. omega arith in ground (arith, e1, e2, e3, e4)

pub store_word-zero_word :
    (m : CLib.Memory) (a x : ℕ)
    → CLib.store_word m a CLib.zero_word x ≡ (if within a 4 x then 0 else m x)
unfolding CLib.store_word CLib.store
store_word-zero_word m a x = ground arith

-- `word_at` is plain arithmetic where it does not wrap.
word_at_lem : (p i : ℕ) → p + 4 * i < 2 ^ 32 → CLib.word_at p i ≡ p + 4 * i
word_at_lem p i h = omega arith

-- One round of each loop: the word is moved, then the rest of the block.
forward_round :
    (a b k d s len : ℕ) (m : CLib.Memory) (x : ℕ)
    → a ≡ d + k
    → b ≡ s + k
    → (d ≤ s) ⊎ (s + k + 4 + len ≤ d)
    → moved_from (k + 4) d s len (CLib.store_word m a (CLib.load_word m b)) x
      ≡ moved_from k d s (4 + len) m x
forward_round a b k d s len m x ea eb clear =
    ground (arith, store_word-load_word m a b x, store_word-load_word m a b (s + (x - d)))

backward_round :
    (a b k d s : ℕ) (m : CLib.Memory) (x : ℕ)
    → a ≡ d + k
    → b ≡ s + k
    → s ≤ d
    → moved_from 0 d s k (CLib.store_word m a (CLib.load_word m b)) x ≡ moved_from 0 d s (4 + k) m x
backward_round a b k d s m x ea eb le =
    ground (arith, store_word-load_word m a b x, store_word-load_word m a b (s + (x - d)))

pub copy_words_lem :
    (rounds i d s : ℕ) (m : CLib.Memory) (x : ℕ)
    → (d ≤ s) ⊎ (s + 4 * i + 4 * rounds ≤ d)
    → d + 4 * i + 4 * rounds ≤ 2 ^ 32
    → s + 4 * i + 4 * rounds ≤ 2 ^ 32
    → CLib.copy_words rounds i d s m x ≡ moved_from (4 * i) d s (4 * rounds) m x
unfolding CLib.copy_words
copy_words_lem zero i d s m x clear hd hs = ground arith
copy_words_lem (suc rounds) i d s m x clear hd hs =
    let clear' : (d ≤ s) ⊎ (s + 4 * (i + 1) + 4 * rounds ≤ d) = ground arith in
    let clear'' : (d ≤ s) ⊎ (s + 4 * i + 4 + 4 * rounds ≤ d) = ground arith in
    let a : ℕ = CLib.word_at d i in
    let b : ℕ = CLib.word_at s i in
    let m' : CLib.Memory = CLib.store_word m a (CLib.load_word m b) in
    let index : 4 * (i + 1) ≡ 4 * i + 4 = omega arith in
    let size : 4 * suc rounds ≡ 4 + 4 * rounds = omega arith in
    let rest : CLib.copy_words rounds (i + 1) d s m' x
        ≡ moved_from (4 * i + 4) d s (4 * rounds) m' x =
      rw (← index) (copy_words_lem rounds (i + 1) d s m' x clear' (omega arith) (omega arith)) in
    rw size (
      rest
      ∙ forward_round a b (4 * i) d s (4 * rounds) m x (word_at_lem d i (omega arith))
          (word_at_lem s i (omega arith)) clear'')

pub copy_words_back_lem :
    (i d s : ℕ) (m : CLib.Memory) (x : ℕ)
    → s ≤ d
    → d + 4 * i ≤ 2 ^ 32
    → CLib.copy_words_back i d s m x ≡ moved_from 0 d s (4 * i) m x
unfolding CLib.copy_words_back
copy_words_back_lem zero d s m x le hd = ground arith
copy_words_back_lem (suc i) d s m x le hd =
    let a : ℕ = CLib.word_at d i in
    let b : ℕ = CLib.word_at s i in
    let m' : CLib.Memory = CLib.store_word m a (CLib.load_word m b) in
    let size : 4 * suc i ≡ 4 + 4 * i = omega arith in
    rw size (
      copy_words_back_lem i d s m' x le (omega arith)
      ∙ backward_round a b (4 * i) d s m x (word_at_lem d i (omega arith))
          (word_at_lem s i (omega arith)) le)

pub zero_words_lem :
    (rounds i p : ℕ) (m : CLib.Memory) (x : ℕ)
    → p + 4 * i + 4 * rounds ≤ 2 ^ 32
    → CLib.zero_words rounds i p m x ≡ (if within (p + 4 * i) (4 * rounds) x then 0 else m x)
unfolding CLib.zero_words
zero_words_lem zero i p m x hp = ground arith
zero_words_lem (suc rounds) i p m x hp = ground (
  arith,
  zero_words_lem rounds (i + 1) p (CLib.store_word m (CLib.word_at p i) CLib.zero_word) x
      (omega arith),
  store_word-zero_word m (CLib.word_at p i) x,
)
