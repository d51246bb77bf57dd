-- ===== src/Array/Blocks.antt =====
-- Blocks of slots under the copies that src/kern/lib/array.c makes, and the elements in use.
use ed_operating_system.Prelude.{
  ℕ, zero, suc, ◌+◌, ◌*◌, ◌%◌, ◌^◌, ◌≤◌, ◌<◌, ◌≡◌, refl, ap, List, [], ◌∷◌, ◌++◌, length, set, ltb,
  ◌==◌, arith, Bool-cases, inl, inr, ltb→lt,
}
use ed_operating_system.Array.{new_max, copy_first, slide, slide_at}

-- The first `n` elements.
abbrev pub first : ℕ → List ℕ → List ℕ
first zero v = []
first (suc n) [] = []
first (suc n) (x ∷ v) = x ∷ first n v

-- A list without its element at an index.
abbrev pub remove_at : ℕ → List ℕ → List ℕ
remove_at i [] = []
remove_at zero (x ∷ xs) = xs
remove_at (suc i) (x ∷ xs) = x ∷ remove_at i xs

pub first-copy_first :
    (n : ℕ) (source target : List ℕ)
    → n ≤ length source
    → n ≤ length target
    → first n (copy_first n source target) ≡ first n source
unfolding copy_first
first-copy_first zero source target hs ht = refl
first-copy_first (suc n) [] target hs ht = absurd (omega arith)
first-copy_first (suc n) (x ∷ source) [] hs ht = absurd (omega arith)
first-copy_first (suc n) (x ∷ source) (y ∷ target) hs ht =
    ap (λ v. x ∷ v) (first-copy_first n source target (omega arith) (omega arith))

pub length-copy_first :
    (n : ℕ) (source target : List ℕ) → length (copy_first n source target) ≡ length target
unfolding copy_first
length-copy_first zero source target = refl
length-copy_first (suc n) [] target = refl
length-copy_first (suc n) (x ∷ source) [] = refl
length-copy_first (suc n) (x ∷ source) (y ∷ target) = ap suc (length-copy_first n source target)

pub first-set :
    (n : ℕ) (v : List ℕ) (x : ℕ) → n < length v → first (n + 1) (set v n x) ≡ first n v ++ (x ∷ [])
first-set zero [] x h = absurd (omega arith)
first-set zero (y ∷ v) x h = refl
first-set (suc n) [] x h = absurd (omega arith)
first-set (suc n) (y ∷ v) x h =
    let e : suc n + 1 ≡ suc (n + 1) = omega arith in
    rw e (ap (λ w. y ∷ w) (first-set n v x (omega arith)))

first-slide :
    (n : ℕ) (v : List ℕ) → suc n ≤ length v → first n (slide n v) ≡ remove_at 0 (first (suc n) v)
unfolding slide
first-slide zero [] h = refl
first-slide zero (x ∷ v) h = refl
first-slide (suc n) [] h = absurd (omega arith)
first-slide (suc n) (x ∷ []) h = absurd (omega arith)
first-slide (suc n) (x ∷ (y ∷ v)) h = ap (λ w. y ∷ w) (first-slide n (y ∷ v) (omega arith))

pub first-slide_at :
    (index n : ℕ) (v : List ℕ)
    → index + suc n ≤ length v
    → first (index + n) (slide_at index n v) ≡ remove_at index (first (index + suc n) v)
unfolding slide_at
first-slide_at zero n v h =
    let a : 0 + n ≡ n = omega arith in
    let b : 0 + suc n ≡ suc n = omega arith in rw (a, b) (first-slide n v (omega arith))
first-slide_at (suc index) n [] h = absurd (omega arith)
first-slide_at (suc index) n (x ∷ v) h =
    let a : suc index + n ≡ suc (index + n) = omega arith in
    let b : suc index + suc n ≡ suc (index + suc n) = omega arith in
    rw (a, b) (ap (λ w. x ∷ w) (first-slide_at index n v (omega arith)))

length-slide : (n : ℕ) (v : List ℕ) → length (slide n v) ≡ length v
unfolding slide
length-slide zero v = refl
length-slide (suc n) [] = refl
length-slide (suc n) (x ∷ []) = refl
length-slide (suc n) (x ∷ (y ∷ v)) = ap suc (length-slide n (y ∷ v))

pub length-slide_at : (index n : ℕ) (v : List ℕ) → length (slide_at index n v) ≡ length v
unfolding slide_at
length-slide_at zero n v = length-slide n v
length-slide_at (suc index) n [] = refl
length-slide_at (suc index) n (x ∷ v) = ap suc (length-slide_at index n v)

-- Doubling reaches the size that is asked for, and the size in bytes stays in a word.
pub new_max-enough :
    (fuel num newmax : ℕ)
    → num ≤ 2 ^ 29
    → num ≤ newmax + fuel
    → newmax < 2 ^ 30
    → (num ≤ new_max fuel num newmax) × (new_max fuel num newmax < 2 ^ 30)
unfolding new_max
new_max-enough zero num newmax small reach word = (omega arith, word)
new_max-enough (suc fuel) num newmax small reach word = elim (Bool-cases (ltb newmax num)) [
  | inr there ↦ ground arith
  | inl short ↦ elim (Bool-cases (newmax == 0)) [
    | inl empty ↦ rw (short, empty) (new_max-enough fuel num 4 small (ground arith) (omega arith))
    | inr some_size ↦
        rw (short, some_size)
          (let lt = ltb→lt newmax num short in
            new_max-enough fuel num (newmax * 2 % 2 ^ 32) small (ground arith) (omega arith))
  ]
]
