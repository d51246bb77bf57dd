-- ===== src/CLib/Strings.antt =====
-- src/common/libc/string: the routines on C strings. A loop that looks for the end of a string runs on
-- fuel, `none` where that is used up; a NULL pointer is `none` too.
pub mod Texts
pub mod Copies
pub mod Search
use ed_operating_system.Prelude.{
  ℕ, zero, suc, ◌+◌, ◌-◌, ◌%◌, ◌^◌, ◌<◌, ◌≡◌, ◌≢◌, Option, none, some, ltb, ◌==◌, if◌then◌else◌,
  List, [], ◌∷◌,
}
use ed_operating_system.CLib

-- The loop of `strlen` from index `ret`.
unfoldable pub strlen_from : ℕ → ℕ → ℕ → CLib.Memory → Option ℕ
strlen_from zero ret str m = none
strlen_from (suc fuel) ret str m =
    let rest = strlen_from fuel (ret + 1) str m in
    if m (CLib.at str ret) == 0 then some ret else rest

-- `strlen`.
unfoldable pub strlen : ℕ → ℕ → CLib.Memory → Option ℕ
strlen fuel str m = strlen_from fuel 0 str m

-- The loop of `strcpy` from index `i`, with the terminator that follows it.
unfoldable pub strcpy_from : ℕ → ℕ → ℕ → ℕ → CLib.Memory → Option CLib.Memory
strcpy_from zero i dest src m = none
strcpy_from (suc fuel) i dest src m =
    let rest =
      strcpy_from fuel (i + 1) dest src (CLib.store m (CLib.at dest i) (m (CLib.at src i))) in
    if m (CLib.at src i) == 0 then some (CLib.store m (CLib.at dest i) 0) else rest

-- `strcpy`, with the memory that it leaves; the pointer that it returns is `dest`.
unfoldable pub strcpy : ℕ → ℕ → ℕ → CLib.Memory → Option CLib.Memory
strcpy fuel dest src m = strcpy_from fuel 0 dest src m

-- `strcat` after its call of `strlen`.
unfoldable pub strcat_at : ℕ → ℕ → ℕ → CLib.Memory → Option ℕ → Option CLib.Memory
strcat_at fuel dest src m none = none
strcat_at fuel dest src m (some offset) = strcpy fuel (CLib.at dest offset) src m

-- `strcat`.
unfoldable pub strcat : ℕ → ℕ → ℕ → CLib.Memory → Option CLib.Memory
strcat fuel dest src m = strcat_at fuel dest src m (strlen fuel dest m)

-- The `int` -1.
abbrev pub minus_one : ℕ
minus_one = 2 ^ 32 - 1

-- The loop of `strcmp` from index `i`, with the tests that follow it.
unfoldable pub strcmp_from : ℕ → ℕ → ℕ → ℕ → CLib.Memory → Option ℕ
strcmp_from zero i a b m = none
strcmp_from (suc fuel) i a b m =
    let rest = strcmp_from fuel (i + 1) a b m in
    let x = m (CLib.at a i) in
    let y = m (CLib.at b i) in
    let stop : Option ℕ = some (if ltb y x then 1 else (if x == y then 0 else minus_one)) in
    if x == 0 then stop else (if x == y then rest else stop)

-- `strcmp`; an `int` is its bit pattern.
unfoldable pub strcmp : ℕ → ℕ → ℕ → CLib.Memory → Option ℕ
strcmp fuel a b m = strcmp_from fuel 0 a b m

-- The loop of `strchr`, with the tests that follow it.
unfoldable pub strchr_from : ℕ → ℕ → ℕ → CLib.Memory → Option (Option ℕ)
strchr_from zero s ch m = none
strchr_from (suc fuel) s ch m =
    let rest = strchr_from fuel (CLib.at s 1) ch m in
    if m s == 0
    then some (if m s == ch then some s else none)
    else (if m s == ch then some (some s) else rest)

-- `strchr`; the character argument is cut to a byte.
unfoldable pub strchr : ℕ → ℕ → ℕ → CLib.Memory → Option (Option ℕ)
strchr fuel s ch_arg m = strchr_from fuel s (ch_arg % 2 ^ 8) m

-- The loop of `strrchr`, which counts `i` down.
unfoldable pub strrchr_from : ℕ → ℕ → ℕ → CLib.Memory → Option ℕ
strrchr_from zero s ch m = none
strrchr_from (suc i) s ch m =
    if m (CLib.at s i) == ch then some (CLib.at s i) else strrchr_from i s ch m

-- `strrchr` after its call of `strlen`.
unfoldable pub strrchr_below : ℕ → ℕ → CLib.Memory → Option ℕ → Option (Option ℕ)
strrchr_below s ch m none = none
strrchr_below s ch m (some n) = some (strrchr_from (n + 1) s ch m)

-- `strrchr`.
unfoldable pub strrchr : ℕ → ℕ → ℕ → CLib.Memory → Option (Option ℕ)
strrchr fuel s ch_arg m = strrchr_below s (ch_arg % 2 ^ 8) m (strlen fuel s m)

-- The C string at `p` is the text: its bytes are not zero, a zero follows them, and it does not wrap
-- around the end of the address space.
abbrev pub IsString : CLib.Memory → ℕ → List ℕ → Type 0
IsString m p [] = (m p ≡ 0) × (p < 2 ^ 32)
IsString m p (c ∷ cs) = (m p ≡ c) × (c ≢ 0) × (p < 2 ^ 32) × IsString m (p + 1) cs
