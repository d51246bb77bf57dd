-- ===== src/Balloon/Counting.antt =====
-- Counting the numbers below a bound that meet a test.
use ed_operating_system.Prelude.{
  ℕ, zero, suc, ◌+◌, ◌<◌, ◌≤◌, ◌≡◌, ◌≢◌, refl, Bool, true, false, if◌then◌else◌, ◌==◌, ==_iff,
  Bool-cases, inl, inr, arith,
}

unfoldable pub count_below : ℕ → (ℕ → Bool) → ℕ
count_below zero f = 0
count_below (suc n) f = (if f n then 1 else 0) + count_below n f

pub count_below-ext :
    (n : ℕ) (f g : ℕ → Bool) → ((x : ℕ) → x < n → f x ≡ g x) → count_below n f ≡ count_below n g
unfolding count_below
count_below-ext zero f g h = refl
count_below-ext (suc n) f g h =
    rw (h n (omega arith), count_below-ext n f g (λ x lt. h x (omega arith)))

-- One number less.
pub count_below-drop :
    (n r : ℕ) (f g : ℕ → Bool)
    → r < n
    → f r ≡ true
    → g r ≡ false
    → ((x : ℕ) → x < n → r ≢ x → f x ≡ g x)
    → count_below n f ≡ count_below n g + 1
unfolding count_below
count_below-drop zero r f g lt fr gr h = absurd (omega arith)
count_below-drop (suc n) r f g lt fr gr h = elim (Bool-cases (r == n)) [
  | inl e ↦
      let same : r ≡ n = (==_iff r n).0 e in
      let rest : count_below n f ≡ count_below n g =
        count_below-ext n f g (λ x below. h x (omega arith) (λ z. omega arith)) in
      rw (← same, fr, gr) (rw same (omega (arith, rest)))
  | inr d ↦
      let ne : r ≢ n = λ e. ground arith in
      let rest : count_below n f ≡ count_below n g + 1 =
        count_below-drop n r f g (omega arith) fr gr (λ x below o. h x (omega arith) o) in
      rw (h n (omega arith) ne) (omega (arith, rest))
]

pub count_below-zero : (n : ℕ) (f : ℕ → Bool) → count_below n f ≡ 0 → (x : ℕ) → x < n → f x ≡ false
unfolding count_below
count_below-zero zero f h x lt = absurd (omega arith)
count_below-zero (suc n) f h x lt =
    let rest : count_below n f ≡ 0 → x < n → f x ≡ false = λ z l. count_below-zero n f z x l in
    ground (arith, rest)

pub count_below-le : (n : ℕ) (f : ℕ → Bool) → count_below n f ≤ n
unfolding count_below
count_below-le zero f = omega arith
count_below-le (suc n) f = ground (arith, count_below-le n f)
