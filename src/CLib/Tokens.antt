-- ===== src/CLib/Tokens.antt =====
-- src/common/libc/string/strtok_r.c. The context is the pointer that the caller keeps between calls; a
-- call gives the word, the new context and the memory it leaves, or `none` where the fuel is used up.
pub mod Words
pub mod Cut
use ed_operating_system.Prelude.{
  ℕ, zero, suc, Bool, true, false, Option, none, some, ◌==◌, if◌then◌else◌,
}
use ed_operating_system.CLib
use ed_operating_system.CLib.Strings.{strchr}

-- One round of the loop over separators: whether the byte is the terminator, the search for it in
-- `seps`, the address, and what the next round gives.
unfoldable pub seps_round : Bool → Option (Option ℕ) → ℕ → Option ℕ → Option ℕ
seps_round true found head rest = some head
seps_round false none head rest = none
seps_round false (some none) head rest = some head
seps_round false (some (some q)) head rest = rest

-- The loop over leading separators.
unfoldable pub skip_seps : ℕ → ℕ → ℕ → ℕ → CLib.Memory → Option ℕ
skip_seps zero fuel seps head m = none
skip_seps (suc rounds) fuel seps head m =
    let rest = skip_seps rounds fuel seps (CLib.at head 1) m in
    seps_round (m head == 0) (strchr fuel seps (m head) m) head rest

-- One round of the loop over the word.
unfoldable pub word_round : Bool → Option (Option ℕ) → ℕ → Option ℕ → Option ℕ
word_round true found tail rest = some tail
word_round false none tail rest = none
word_round false (some none) tail rest = rest
word_round false (some (some q)) tail rest = some tail

-- The loop over the word.
unfoldable pub skip_word : ℕ → ℕ → ℕ → ℕ → CLib.Memory → Option ℕ
skip_word zero fuel seps tail m = none
skip_word (suc rounds) fuel seps tail m =
    let rest = skip_word rounds fuel seps (CLib.at tail 1) m in
    word_round (m tail == 0) (strchr fuel seps (m tail) m) tail rest

abbrev pub Token : Type 0
Token = Option ℕ × Option ℕ × CLib.Memory

-- From the end of the word on.
unfoldable pub end_word : ℕ → CLib.Memory → Option ℕ → Option Token
end_word head m none = none
end_word head m (some tail) =
    if m tail == 0
    then some (some head, none, m)
    else some (some head, some (CLib.at tail 1), CLib.store m tail 0)

-- From the first character that is not a separator on.
unfoldable pub start_word : ℕ → ℕ → CLib.Memory → Option ℕ → Option Token
start_word fuel seps m none = none
start_word fuel seps m (some head) =
    if m head == 0 then some (none, none, m) else end_word head m (skip_word fuel fuel seps head m)

-- From the test of the context on.
unfoldable pub from_context : ℕ → ℕ → CLib.Memory → Option ℕ → Option Token
from_context fuel seps m none = some (none, none, m)
from_context fuel seps m (some head) = start_word fuel seps m (skip_seps fuel fuel seps head m)

-- `strtok_r`.
unfoldable pub strtok_r : ℕ → Option ℕ → ℕ → Option ℕ → CLib.Memory → Option Token
strtok_r fuel none seps context m = from_context fuel seps m context
strtok_r fuel (some string) seps context m = from_context fuel seps m (some string)
