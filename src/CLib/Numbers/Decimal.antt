-- ===== src/CLib/Numbers/Decimal.antt =====
-- `atoi` on the text of a decimal number.
use ed_operating_system.Prelude.{
  ℕ, zero, suc, ◌+◌, ◌-◌, ◌*◌, ◌%◌, ◌^◌, ◌<◌, ◌≤◌, ◌≡◌, ◌≢◌, ◌⊎◌, ◌∙◌, sym, ap, subst, ==-ne, refl,
  Bool, true, false, Option, none, some, ◌==◌, List, [], ◌∷◌, ◌++◌, map, All, length, arith,
  holds_below, holds_below-elim, ==_iff,
}
use native.Mathlib.Decide.{dec_lt}
use ed_operating_system.CLib
use ed_operating_system.CLib.Strings.{IsString, strchr}
use ed_operating_system.CLib.Strings.Search.{strchr-strrchr, IsFirst, char_at, next_char}
use ed_operating_system.CLib.Numbers.{
  skip_blanks, read_sign, digit_step, digit_round, read_digits, with_sign, finish, atoi_from, atoi,
}

-- The text of the static table.
abbrev pub digit_table : List ℕ
digit_table = b'0' ∷ b'1' ∷ b'2' ∷ b'3' ∷ b'4' ∷ b'5' ∷ b'6' ∷ b'7' ∷ b'8' ∷ b'9' ∷ []

-- The character of a digit, and of a blank.
abbrev pub digit_char : ℕ → ℕ
digit_char d = 48 + d

abbrev pub IsDigit : ℕ → Type 0
IsDigit d = d < 10

abbrev pub IsBlank : ℕ → Type 0
IsBlank c = (c ≡ b' ') ⊎ (c ≡ b'\t')

-- What may follow the digits: nothing, or a character that is not a digit.
abbrev pub Ends : List ℕ → Type 0
Ends [] = Unit
Ends (c ∷ cs) = ((c < 48) ⊎ (57 < c)) × (c < 2 ^ 8)

abbrev pub IsUnblank : List ℕ → Type 0
IsUnblank [] = Unit
IsUnblank (c ∷ cs) = (c ≢ b' ') × (c ≢ b'\t')

-- The sign that may stand before the digits.
pub data Sign : Type 0 where
  bare plus minus : Sign

abbrev pub sign_text : Sign → List ℕ
sign_text bare = []
sign_text plus = b'+' ∷ []
sign_text minus = b'-' ∷ []

abbrev pub is_minus : Sign → Bool
is_minus bare = false
is_minus plus = false
is_minus minus = true

-- The number that digits stand for, the first the most significant, after the digits of `n`.
abbrev pub value_from : ℕ → List ℕ → ℕ
value_from n [] = n
value_from n (d ∷ ds) = value_from (n * 10 + d) ds

table_char : (i : ℕ) → i < 10 → char_at digit_table i ≡ 48 + i
unfolding holds_below
table_char i h =
    (==_iff (char_at digit_table i) (48 + i)).0
      (holds_below-elim (λ k. char_at digit_table k == 48 + k) ten i h)
  where
    ten : holds_below 10 (λ k. char_at digit_table k == 48 + k) ≡ true
    ten = refl

table_end : (i : ℕ) → i ≤ 10 → ¬ (i < 10) → char_at digit_table i ≡ 0
table_end i le h = let e : i ≡ 10 = omega arith in ap (char_at digit_table) e

digit_answer :
    (digits d : ℕ) (r : Option ℕ)
    → d < 10
    → IsFirst (48 + d) digit_table digits r
    → r ≡ some (digits + d)
digit_answer digits d none h f = absurd (f d (omega arith) (table_char d h))
digit_answer digits d (some q) h (i, e, le, hit, before) = elim (dec_lt i 10) [
  | yes lt ↦ ap some (omega (arith, e, hit, table_char i lt))
  | no ge ↦ absurd (omega (arith, hit, table_end i le ge))
]

other_answer :
    (digits c : ℕ) (r : Option ℕ)
    → c ≢ 0
    → (c < 48) ⊎ (57 < c)
    → IsFirst c digit_table digits r
    → r ≡ none
other_answer digits c none nz out f = refl
other_answer digits c (some q) nz out (i, e, le, hit, before) = elim (dec_lt i 10) [
  | yes lt ↦ absurd (omega (arith, out, hit, table_char i lt))
  | no ge ↦ absurd (nz (sym hit ∙ table_end i le ge))
]

-- A digit's place in the table is its value.
place_of_digit :
    (digits d : ℕ) (m : CLib.Memory)
    → d < 10
    → IsString m digits digit_table
    → strchr 11 digits (48 + d) m ≡ some (some (digits + d))
place_of_digit digits d m h t =
    let low : (48 + d) % 2 ^ 8 ≡ 48 + d = omega arith in
    let (r, run, first) = (strchr-strrchr digit_table 11 digits (48 + d) m t (omega arith)).0 in
    run
    ∙ ap some (digit_answer digits d r h (subst (λ z. IsFirst z digit_table digits r) low first))

no_place :
    (digits c : ℕ) (m : CLib.Memory)
    → c ≢ 0
    → c < 2 ^ 8
    → (c < 48) ⊎ (57 < c)
    → IsString m digits digit_table
    → strchr 11 digits c m ≡ some none
no_place digits c m nz byte out t =
    let low : c % 2 ^ 8 ≡ c = omega arith in
    let (r, run, first) = (strchr-strrchr digit_table 11 digits c m t (omega arith)).0 in
    run
    ∙ ap some
        (other_answer digits c r nz out (subst (λ z. IsFirst z digit_table digits r) low first))

read_digits_lem :
    (ds rest : List ℕ) (fuel digits s n : ℕ) (m : CLib.Memory)
    → All IsDigit ds
    → Ends rest
    → IsString m digits digit_table
    → IsString m s (map digit_char ds ++ rest)
    → length ds < fuel
    → read_digits fuel digits s (n % 2 ^ 32) m ≡ some (value_from n ds % 2 ^ 32)
unfolding read_digits digit_round digit_step
read_digits_lem ds rest zero digits s n m hd he ht h f = absurd (omega arith)
read_digits_lem [] [] (suc fuel) digits s n m hd he ht h f = ground (arith, h.0)
read_digits_lem [] (c ∷ rest) (suc fuel) digits s n m hd he ht h f =
    let none_there : strchr 11 digits c m ≡ some none = no_place digits c m h.1 he.1 he.0 ht in
    rw (h.0, ==-ne c 0 h.1, none_there) refl
read_digits_lem (d ∷ ds) rest (suc fuel) digits s n m hd he ht h f =
    let there : strchr 11 digits (48 + d) m ≡ some (some (digits + d)) =
      place_of_digit digits d m hd.0 ht in
    let step : (n % 2 ^ 32 * 10 + (digits + d - digits)) % 2 ^ 32 ≡ (n * 10 + d) % 2 ^ 32 =
      omega arith in
    let a : CLib.at s 1 ≡ s + 1 = next_char (48 + d) (map digit_char ds ++ rest) s m h in
    rw (h.0, ==-ne (48 + d) 0 h.1, there, step, a)
      (read_digits_lem ds rest fuel digits (s + 1) (n * 10 + d) m hd.1 he ht h.3 (omega arith))

skip_blanks_lem :
    (bs cs : List ℕ) (fuel s : ℕ) (m : CLib.Memory)
    → All IsBlank bs
    → IsUnblank cs
    → IsString m s (bs ++ cs)
    → length bs < fuel
    → (skip_blanks fuel s m ≡ some (s + length bs)) × IsString m (s + length bs) cs
unfolding skip_blanks
skip_blanks_lem bs cs zero s m hb hc h f = absurd (omega arith)
skip_blanks_lem [] [] (suc fuel) s m hb hc h f =
    let e : s + 0 ≡ s = omega arith in rw e (ground (arith, h.0), h)
skip_blanks_lem [] (c ∷ cs) (suc fuel) s m hb hc h f =
    let e : s + 0 ≡ s = omega arith in rw e (ground (arith, h.0, hc), h)
skip_blanks_lem (b ∷ bs) cs (suc fuel) s m hb hc h f =
    let a : CLib.at s 1 ≡ s + 1 = next_char b (bs ++ cs) s m h in
    let e : s + suc (length bs) ≡ s + 1 + length bs = omega arith in
    let (run, left) = skip_blanks_lem bs cs fuel (s + 1) m hb.1 hc h.3 (omega arith) in
    rw e (ground (arith, h.0, hb.0, a, run), left)

-- What stands after the blanks does not start with one.
sign-IsUnblank :
    (sg : Sign) (d : ℕ) (cs : List ℕ) → d < 10 → IsUnblank (sign_text sg ++ (digit_char d ∷ cs))
sign-IsUnblank bare d cs h = (omega arith, omega arith)
sign-IsUnblank plus d cs h = (omega arith, omega arith)
sign-IsUnblank minus d cs h = (omega arith, omega arith)

read_sign_lem :
    (sg : Sign) (d s : ℕ) (cs : List ℕ) (m : CLib.Memory)
    → d < 10
    → IsString m s (sign_text sg ++ (digit_char d ∷ cs))
    → (read_sign s m ≡ (is_minus sg, s + length (sign_text sg)))
      × IsString m (s + length (sign_text sg)) (digit_char d ∷ cs)
unfolding read_sign
read_sign_lem bare d s cs m hd h = let e : s + 0 ≡ s = omega arith in rw e (ground (arith, h.0), h)
read_sign_lem plus d s cs m hd h =
    let a : CLib.at s 1 ≡ s + 1 = next_char b'+' (digit_char d ∷ cs) s m h in
    (ground (arith, h.0, a), h.3)
read_sign_lem minus d s cs m hd h =
    let a : CLib.at s 1 ≡ s + 1 = next_char b'-' (digit_char d ∷ cs) s m h in
    (ground (arith, h.0, a), h.3)

-- The 32-bit pattern `r` stands for the number `n` under a sign: `n` modulo 2 ^ 32, or after a minus
-- sign the pattern that makes zero with it.
abbrev pub Stands : Sign → ℕ → ℕ → Type 0
Stands bare n r = r ≡ n % 2 ^ 32
Stands plus n r = r ≡ n % 2 ^ 32
Stands minus n r = (r < 2 ^ 32) × ((r + n) % 2 ^ 32 ≡ 0)

with_sign-Stands : (sg : Sign) (n : ℕ) → Stands sg n (with_sign (is_minus sg) (n % 2 ^ 32))
with_sign-Stands bare n = refl
with_sign-Stands plus n = refl
with_sign-Stands minus n = (omega arith, omega arith)

-- atoi, on the C string of a text made of blanks and tabs, a sign or none, at least one digit and
-- then nothing or a character that is not a digit and anything after it, with the table of digits in
-- memory and fuel for the blanks and for the digits: it ends, and its result is the number that the
-- digits stand for modulo 2 ^ 32, or after a minus sign the 32-bit pattern whose sum with that number is
-- 0 modulo 2 ^ 32.
pub atoi_lem :
    (bs : List ℕ) (sg : Sign) (d : ℕ) (ds rest : List ℕ) (fuel digits s : ℕ) (m : CLib.Memory)
    → All IsBlank bs
    → All IsDigit (d ∷ ds)
    → Ends rest
    → IsString m digits digit_table
    → IsString m s (bs ++ (sign_text sg ++ (map digit_char (d ∷ ds) ++ rest)))
    → length bs < fuel
    → length (d ∷ ds) < fuel
    → (r : ℕ) × (atoi fuel digits s m ≡ some r) × Stands sg (value_from 0 (d ∷ ds)) r
unfolding atoi atoi_from finish
atoi_lem bs sg d ds rest fuel digits s m hb hd he ht h fb fd =
    let cs : List ℕ = map digit_char ds ++ rest in
    let (blanks, signed) =
      skip_blanks_lem bs (sign_text sg ++ (digit_char d ∷ cs)) fuel s m hb
        (sign-IsUnblank sg d cs hd.0) h fb in
    let (sign, number) = read_sign_lem sg d (s + length bs) cs m hd.0 signed in
    let run =
      read_digits_lem (d ∷ ds) rest fuel digits (s + length bs + length (sign_text sg)) 0 m hd he ht
        number fd in
    (
      with_sign (is_minus sg) (value_from 0 (d ∷ ds) % 2 ^ 32),
      rw (blanks, sign, run) refl,
      with_sign-Stands sg (value_from 0 (d ∷ ds)),
    )
