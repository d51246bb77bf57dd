-- ===== src/CLib/Numbers.antt =====
-- src/common/libc/stdlib/atoi.c. `digits` is the address of the function's static table of digits. An
-- `int` and an `unsigned` are 32-bit patterns.
pub mod Decimal
use ed_operating_system.Prelude.{
  ℕ, zero, suc, ◌+◌, ◌-◌, ◌*◌, ◌%◌, ◌^◌, Bool, true, false, Option, none, some, ◌==◌, if◌then◌else◌,
}
use ed_operating_system.CLib
use ed_operating_system.CLib.Strings.{strchr}

-- The loop over blanks and tabs: the first address that holds neither.
unfoldable pub skip_blanks : ℕ → ℕ → CLib.Memory → Option ℕ
skip_blanks zero s m = none
skip_blanks (suc fuel) s m =
    let rest = skip_blanks fuel (CLib.at s 1) m in
    if m s == b' ' then rest else (if m s == b'\t' then rest else some s)

-- Whether a minus sign is next, and the address after a sign.
unfoldable pub read_sign : ℕ → CLib.Memory → Bool × ℕ
read_sign s m =
    if m s == b'-'
    then (true, CLib.at s 1)
    else (if m s == b'+' then (false, CLib.at s 1) else (false, s))

-- One round of the loop over digits, with the search of the table already made and the loop's next
-- rounds, which take the new value.
unfoldable pub digit_step : ℕ → ℕ → Option (Option ℕ) → (ℕ → Option ℕ) → Option ℕ
digit_step digits val none rest = none
digit_step digits val (some none) rest = some val
digit_step digits val (some (some place)) rest = rest ((val * 10 + (place - digits)) % 2 ^ 32)

-- The test of the loop, whether the character is the terminator, before such a round.
unfoldable pub digit_round : Bool → ℕ → ℕ → Option (Option ℕ) → (ℕ → Option ℕ) → Option ℕ
digit_round true digits val place rest = some val
digit_round false digits val place rest = digit_step digits val place rest

-- The loop over digits; eleven rounds are enough for `strchr` in the table of ten digits.
unfoldable pub read_digits : ℕ → ℕ → ℕ → ℕ → CLib.Memory → Option ℕ
read_digits zero digits s val m = none
read_digits (suc fuel) digits s val m =
    digit_round (m s == 0) digits val (strchr 11 digits (m s) m)
      (λ val'. read_digits fuel digits (CLib.at s 1) val' m)

-- `return -val` or `return val`.
abbrev pub with_sign : Bool → ℕ → ℕ
with_sign neg val = if neg then (2 ^ 32 - val) % 2 ^ 32 else val

unfoldable pub finish : Bool → Option ℕ → Option ℕ
finish neg none = none
finish neg (some val) = some (with_sign neg val)

-- `atoi` from the first address that is not blank.
unfoldable pub atoi_from : ℕ → ℕ → CLib.Memory → Option ℕ → Option ℕ
atoi_from fuel digits m none = none
atoi_from fuel digits m (some s) =
    finish (read_sign s m).0 (read_digits fuel digits (read_sign s m).1 0 m)

-- `atoi`.
unfoldable pub atoi : ℕ → ℕ → ℕ → CLib.Memory → Option ℕ
atoi fuel digits s m = atoi_from fuel digits m (skip_blanks fuel s m)
