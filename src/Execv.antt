-- ===== src/Execv.antt =====
-- The measuring of the arguments of execv in src/kern/syscall/psyscall.c: getLen for a string and getCount
-- for the array of strings. User memory is read through copyin (src/kern/vm/copyinout.c), which may fail
-- at any address. An address is 32 bits wide.
pub mod Scan
mod Tests
use ed_operating_system.Prelude.{
  ℕ, zero, suc, ◌+◌, ◌*◌, ◌%◌, ◌^◌, ◌==◌, if◌then◌else◌, Result, ok, err, Errno,
}

abbrev pub arg_max : ℕ
arg_max = 65536

-- The loop of `getLen` and `getCount` over elements that `read` gets, with that many left below ARG_MAX:
-- the index where it stops, and the element there.
unfoldable pub scan : (ℕ → Result ℕ) → ℕ → ℕ → ℕ → Result (ℕ × ℕ)
scan read zero index c = ok (index, c)
scan read (suc rounds) index c =
    if c == 0
    then ok (index, c)
    else elim (read (index + 1)) [ ok next ↦ scan read rounds (index + 1) next | err e ↦ err e ]

-- What follows it: the index plus `extra`, unless the last element is not the end.
abbrev pub finish : ℕ → Result (ℕ × ℕ) → Result ℕ
finish extra (err e) = err e
finish extra (ok (index, c)) = if c == 0 then ok (index + extra) else err Errno.e2big

abbrev pub measure : (ℕ → Result ℕ) → ℕ → Result ℕ → Result ℕ
measure read extra (err e) = err e
measure read extra (ok c) = finish extra (scan read arg_max 0 c)

abbrev pub string_at : (ℕ → Result ℕ) → ℕ → ℕ → Result ℕ
string_at copyin arg index = copyin ((arg + index) % 2 ^ 32)

abbrev pub array_at : (ℕ → Result ℕ) → ℕ → ℕ → Result ℕ
array_at copyin args index = copyin ((args + 4 * index) % 2 ^ 32)

-- `getLen`, with copyin of a `char`
unfoldable pub get_len : (ℕ → Result ℕ) → ℕ → Result ℕ
get_len copyin arg = measure (string_at copyin arg) 1 (string_at copyin arg 0)

-- `getCount`, with copyin of a `char *`
unfoldable pub get_count : (ℕ → Result ℕ) → ℕ → Result ℕ
get_count copyin args = measure (array_at copyin args) 0 (array_at copyin args 0)
