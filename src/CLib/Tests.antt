-- ===== src/CLib/Tests.antt =====
-- Runs of the routines on memory and strings at concrete inputs.
use ed_operating_system.Prelude.{
  ℕ, ◌+◌, ◌-◌, ◌<◌, ◌≤◌, ◌≡◌, ◌⊎◌, ◌↔◌, inl, inr, refl, none, some, List, [], ◌∷◌, ◌++◌, get_or,
  if◌then◌else◌, length, arith,
}
use ed_operating_system.CLib
use ed_operating_system.CLib.Blocks.{within}
use ed_operating_system.CLib.Moves.{memmove_lem, bzero-memset}
use ed_operating_system.CLib.Strings.{IsString, strcmp, strcat}
use ed_operating_system.CLib.Strings.Texts.{compare_texts, strcmp_lem}
use ed_operating_system.CLib.Strings.Copies.{strcat_lem}
use ed_operating_system.CLib.Numbers.{atoi}
use ed_operating_system.CLib.Numbers.Decimal.{digit_table, minus, Stands, value_from, atoi_lem}
use ed_operating_system.CLib.Tokens.{strtok_r}
use ed_operating_system.CLib.Tokens.Cut.{WordPost, strtok_r_lem}

-- A memory that holds some bytes at an address, over another.
abbrev bytes_at : ℕ → List ℕ → CLib.Memory → CLib.Memory
bytes_at p cs m x = if within p (length cs) x then get_or cs (x - p) 0 else m x

abbrev blank_memory : CLib.Memory
blank_memory x = 0

abbrev counting : CLib.Memory
counting = bytes_at 100 (1 ∷ 2 ∷ 3 ∷ 4 ∷ 5 ∷ 6 ∷ 7 ∷ 8 ∷ []) blank_memory

memmove_lem_example :
    ((CLib.memmove 102 100 5 counting).0 ≡ 102)
    × ((i : ℕ) → i < 5 → (CLib.memmove 102 100 5 counting).1 (102 + i) ≡ counting (100 + i))
    × ((x : ℕ) → (x < 102) ⊎ (102 + 5 ≤ x) → (CLib.memmove 102 100 5 counting).1 x ≡ counting x)
memmove_lem_example = memmove_lem 102 100 5 counting (omega arith) (omega arith)

bzero-memset_example :
    (CLib.bzero 100 4 counting 103 ≡ (CLib.memset 100 0 4 counting).1 103)
    × (CLib.bzero 100 4 counting 103 ≡ (if within 100 4 103 then 0 else counting 103))
bzero-memset_example = bzero-memset 100 4 counting (omega arith) 103

abbrev ab : List ℕ
ab = b'a' ∷ b'b' ∷ []

abbrev ac : List ℕ
ac = b'a' ∷ b'c' ∷ []

abbrev two_strings : CLib.Memory
two_strings = bytes_at 100 ab (bytes_at 200 ac blank_memory)

first_string : IsString two_strings 100 ab
first_string = ground arith

second_string : IsString two_strings 200 ac
second_string = ground arith

strcmp_lem_example :
    (strcmp 5 100 200 two_strings ≡ some (compare_texts ab ac))
    × ((strcmp 5 100 200 two_strings ≡ some 0) ↔ (ab ≡ ac))
strcmp_lem_example = strcmp_lem ab ac 5 100 200 two_strings first_string second_string (omega arith)

strcat_lem_example :
    (k : CLib.Memory) × (strcat 5 100 200 two_strings ≡ some k)
    × IsString k 100 (ab ++ ac)
    × ((x : ℕ) → (x < 100) ⊎ (100 + 2 + 2 < x) → k x ≡ two_strings x)
strcat_lem_example =
    strcat_lem ab ac 5 100 200 two_strings first_string second_string (omega arith) (omega arith)
      (omega arith) (inl (omega arith))

abbrev number_memory : CLib.Memory
number_memory =
    bytes_at 100 digit_table (bytes_at 200 (b' ' ∷ b'-' ∷ b'4' ∷ b'2' ∷ b'x' ∷ []) blank_memory)

atoi_lem_example :
    (r : ℕ) × (atoi 9 100 200 number_memory ≡ some r) × Stands minus (value_from 0 (4 ∷ 2 ∷ [])) r
atoi_lem_example =
    atoi_lem (b' ' ∷ []) minus 4 (2 ∷ []) (b'x' ∷ []) 9 100 200 number_memory (inl refl, tt)
      (ground arith) (inr (omega arith), omega arith) table text (omega arith) (omega arith)
  where
    table : IsString number_memory 100 digit_table
    table = ground arith

    text : IsString number_memory 200 (b' ' ∷ b'-' ∷ b'4' ∷ b'2' ∷ b'x' ∷ [])
    text = ground arith

abbrev line_memory : CLib.Memory
line_memory =
    bytes_at 100 (b' ' ∷ []) (bytes_at 200 (b' ' ∷ b'a' ∷ b'b' ∷ b' ' ∷ b'c' ∷ []) blank_memory)

strtok_r_lem_example :
    WordPost ab (b' ' ∷ b'c' ∷ []) 201 line_memory (strtok_r 9 (some 200) 100 none line_memory)
strtok_r_lem_example =
    strtok_r_lem (b' ' ∷ []) b'a' (b'b' ∷ []) (b' ' ∷ b'c' ∷ []) (b' ' ∷ []) 9 100 200 (some 200)
      none line_memory (inl refl) (ground arith) (ground arith)
      ((omega arith, (0, omega arith, refl)), tt) (ground arith)
      (omega arith, (0, omega arith, refl)) (omega arith) (omega arith) (omega arith)
