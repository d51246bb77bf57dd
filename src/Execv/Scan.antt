-- ===== src/Execv/Scan.antt =====
-- What getLen and getCount of src/kern/syscall/psyscall.c return.
use native.Mathlib.Decide.{ℕ_discrete}
use ed_operating_system.Prelude.{
  ℕ, zero, suc, ◌+◌, ◌<◌, ◌≤◌, ◌≡◌, ◌≢◌, refl, sym, ◌∙◌, ap, ◌⊎◌, inl, inr, ◌==◌, ==-ne, ==_iff,
  if◌then◌else◌, Result, ok, err, Errno, Never, arith,
}
use ed_operating_system.Execv.{arg_max, scan, measure, string_at, array_at, get_len, get_count}

-- An element with which the loop goes on.
abbrev pub IsMore : Result ℕ → Type 0
IsMore (err e) = Never {0}
IsMore (ok c) = c ≢ 0

-- An element that ends the loop: one that cannot be read, or the end.
abbrev pub Stops : Result ℕ → Type 0
Stops (err e) = Unit
Stops (ok c) = c ≡ 0

-- What is returned for the element where the loop ends.
abbrev pub expected : ℕ → ℕ → Result ℕ → Result ℕ
expected extra n (err e) = err e
expected extra n (ok c) = if c == 0 then ok (n + extra) else err Errno.e2big

abbrev value : Result ℕ → ℕ
value (err e) = 0
value (ok c) = c

IsMore-value : (r : Result ℕ) → IsMore r → (r ≡ ok (value r)) × (value r ≢ 0)
IsMore-value (err e) h = elim h [ ]
IsMore-value (ok c) h = (refl, h)

module _ (read : ℕ → Result ℕ) (elements : ℕ → ℕ) where
  -- The elements below an index are read, and none of them is the end.
  abbrev RunsTo : ℕ → Type 0
  RunsTo n = (k : ℕ) → k < n → (read k ≡ ok (elements k)) × (elements k ≢ 0)

  scan-stop :
      (rounds i n : ℕ)
      → i ≤ n
      → n ≤ i + rounds
      → RunsTo n
      → read n ≡ ok (elements n)
      → (elements n ≡ 0) ⊎ (n ≡ i + rounds)
      → scan read rounds i (elements i) ≡ ok (n, elements n)
  unfolding scan
  scan-stop zero i n lo hi runs last stop =
      let same : i ≡ n = omega arith in ap (λ k. ok (k, elements k)) same
  scan-stop (suc rounds) i n lo hi runs last stop = elim (ℕ_discrete i n) [
    | yes same ↦
        let zero_here : elements i ≡ 0 = elim stop [
          | inl z ↦ ap elements same ∙ z
          | inr far ↦ absurd (omega arith)
        ] in
        rw ((==_iff (elements i) 0).1 zero_here) (ap (λ k. ok (k, elements k)) same)
    | no differ ↦
        let next : read (i + 1) ≡ ok (elements (i + 1)) = elim (ℕ_discrete (i + 1) n) [
          | yes e ↦ rw e last
          | no more ↦ (runs (i + 1) (omega arith)).0
        ] in
        let stop' : (elements n ≡ 0) ⊎ (n ≡ i + 1 + rounds) = elim stop [
          | inl z ↦ inl z
          | inr far ↦ inr (omega arith)
        ] in
        rw (==-ne (elements i) 0 (runs i (omega arith)).1, next)
          (scan-stop rounds (i + 1) n (omega arith) (omega arith) runs last stop')
  ]

  scan-fault :
      (rounds i d : ℕ) (e : Errno)
      → d < rounds
      → RunsTo (i + d + 1)
      → read (i + d + 1) ≡ err e
      → scan read rounds i (elements i) ≡ err e
  unfolding scan
  scan-fault zero i d e lt runs fault = absurd (omega arith)
  scan-fault (suc rounds) i zero e lt runs fault =
      let here : read (i + 1) ≡ err e = ap read (omega arith) ∙ fault in
      rw (==-ne (elements i) 0 (runs i (omega arith)).1, here)
  scan-fault (suc rounds) i (suc d) e lt runs fault =
      let next : read (i + 1) ≡ ok (elements (i + 1)) = (runs (i + 1) (omega arith)).0 in
      let there : i + 1 + d + 1 ≡ i + suc d + 1 = omega arith in
      rw (==-ne (elements i) 0 (runs i (omega arith)).1, next)
        (scan-fault rounds (i + 1) d e (omega arith) (λ k below. runs k (omega arith))
          (ap read there ∙ fault))

  measure_lem :
      (extra n : ℕ) (end : Result ℕ)
      → RunsTo n
      → n ≤ arg_max
      → read n ≡ end
      → (n ≡ arg_max) ⊎ Stops end
      → ((c : ℕ) → end ≡ ok c → c ≡ elements n)
      → measure read extra (read 0) ≡ expected extra n end
  measure_lem extra zero (err e) runs le last stop value = rw last
  measure_lem extra (suc n) (err e) runs le last stop value =
      let shift : 0 + n + 1 ≡ suc n = omega arith in
      rw ((runs 0 (omega arith)).0) (
        rw (
          scan-fault arg_max 0 n e (omega arith) (λ k lt. runs k (omega arith))
            (ap read shift ∙ last)))
  measure_lem extra n (ok c) runs le last stop value =
      let here : read n ≡ ok (elements n) = last ∙ ap ok (value c refl) in
      let first : read 0 ≡ ok (elements 0) = elim (ℕ_discrete n 0) [
        | yes z ↦ rw z at here
        | no more ↦ (runs 0 (omega arith)).0
      ] in
      let stops : (elements n ≡ 0) ⊎ (n ≡ 0 + arg_max) = elim stop [
        | inl far ↦ inr (omega arith)
        | inr z ↦ inl (sym (value c refl) ∙ z)
      ] in
      rw (first, scan-stop arg_max 0 n (omega arith) (omega arith) runs here stops, value c refl)

measure-expected :
    (read : ℕ → Result ℕ) (extra n : ℕ)
    → ((k : ℕ) → k < n → IsMore (read k))
    → n ≤ arg_max
    → (n ≡ arg_max) ⊎ Stops (read n)
    → measure read extra (read 0) ≡ expected extra n (read n)
measure-expected read extra n runs le stop =
    measure_lem read (λ k. value (read k)) extra n (read n)
      (λ k lt. IsMore-value (read k) (runs k lt)) le refl stop (λ c e. sym (ap value e))

-- getLen on a string: with `n` the first index where a character cannot be read or is 0, or ARG_MAX if
-- there is none before that, it returns `n` plus 1 where the character at `n` is 0, the error of copyin
-- where that cannot be read, and E2BIG where it is another one.
pub get_len_lem :
    (copyin : ℕ → Result ℕ) (arg n : ℕ)
    → ((k : ℕ) → k < n → IsMore (string_at copyin arg k))
    → n ≤ arg_max
    → (n ≡ arg_max) ⊎ Stops (string_at copyin arg n)
    → get_len copyin arg ≡ expected 1 n (string_at copyin arg n)
unfolding get_len
get_len_lem copyin arg n runs le stop = measure-expected (string_at copyin arg) 1 n runs le stop

-- getCount on an array of pointers: with `n` the first index where a pointer cannot be read or is NULL,
-- or ARG_MAX if there is none before that, it returns `n` where the pointer at `n` is NULL, the error of
-- copyin where that cannot be read, and E2BIG where it is another one.
pub get_count_lem :
    (copyin : ℕ → Result ℕ) (args n : ℕ)
    → ((k : ℕ) → k < n → IsMore (array_at copyin args k))
    → n ≤ arg_max
    → (n ≡ arg_max) ⊎ Stops (array_at copyin args n)
    → get_count copyin args ≡ expected 0 n (array_at copyin args n)
unfolding get_count
get_count_lem copyin args n runs le stop = measure-expected (array_at copyin args) 0 n runs le stop
