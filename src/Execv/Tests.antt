-- ===== src/Execv/Tests.antt =====
-- A string of two characters at the address 1000 in user memory, measured by getLen of
-- src/kern/syscall/psyscall.c.
use ed_operating_system.Prelude.{
  ℕ, zero, suc, ◌<◌, ◌≡◌, refl, Result, ok, err, Errno, ◌==◌, if◌then◌else◌, inr, arith,
}
use ed_operating_system.Execv.{get_len, string_at}
use ed_operating_system.Execv.Scan.{get_len_lem, expected, IsMore}

abbrev user_memory : ℕ → Result ℕ
user_memory a =
    if a == 1000
    then ok 104
    else if a == 1001
    then ok 105
    else if a == 1002
    then ok 0
    else err Errno.efault

characters : (k : ℕ) → k < 2 → IsMore (string_at user_memory 1000 k)
characters zero lt = λ e. omega arith
characters (suc zero) lt = λ e. omega arith
characters (suc (suc k)) lt = absurd (omega arith)

get_len_lem_example : get_len user_memory 1000 ≡ expected 1 2 (string_at user_memory 1000 2)
get_len_lem_example = get_len_lem user_memory 1000 2 characters (omega arith) (inr refl)
