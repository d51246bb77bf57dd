-- ===== src/Array.antt =====
-- src/kern/lib/array.c and src/kern/include/array.h: arrays of pointers that grow. `v` has one element
-- for each slot that was allocated; an `unsigned` is 32 bits wide. The assertions are on
-- (ARRAYS_CHECKED), and a failed one is `panic`.
pub mod Blocks
pub mod Laws
mod Tests
use ed_operating_system.Prelude.{
  ℕ, zero, suc, ◌+◌, ◌-◌, ◌*◌, ◌%◌, ◌^◌, Bool, true, false, Option, none, some, List, [], ◌∷◌,
  get_or, set, ltb, leb, ◌==◌, if◌then◌else◌, Outcome, ret, panic, Result, ok, err, Errno,
}

-- `struct array`
pub record Array : Type 0 where
  pub v : List ℕ
  pub num : ℕ
  pub max : ℕ

-- `array_init`
abbrev pub array_init : Array
array_init = record { v = []; num = 0; max = 0 }

-- The loop of `array_preallocate` that doubles the size. With `num` rounds of fuel it ends where the
-- source's ends, if `num` is at most 2^31; past that the source's size wraps and never gets there.
unfoldable pub new_max : ℕ → ℕ → ℕ → ℕ
new_max zero num newmax = newmax
new_max (suc fuel) num newmax =
    let rest = new_max fuel num (if newmax == 0 then 4 else newmax * 2 % 2 ^ 32) in
    if ltb newmax num then rest else newmax

-- `memcpy` of the first `n` slots from one block to another; past the end of a block nothing
-- is copied, where the source would write outside an object.
unfoldable pub copy_first : ℕ → List ℕ → List ℕ → List ℕ
copy_first zero source target = target
copy_first (suc n) [] target = target
copy_first (suc n) (x ∷ source) [] = []
copy_first (suc n) (x ∷ source) (y ∷ target) = x ∷ copy_first n source target

-- `array_preallocate` with the answer of `kmalloc` for the new block.
unfoldable pub install : Array → ℕ → Option (List ℕ) → Result (Unit {0}) × Array
install a newmax none = (err Errno.enomem, a)
install a newmax (some block) = (ok tt, record a { v = copy_first a.num a.v block; max = newmax })

-- The bytes that `array_preallocate` asks for: a pointer has four, and the product is 32 bits wide.
abbrev pub block_bytes : ℕ → ℕ
block_bytes newmax = newmax * 4 % 2 ^ 32

-- `array_preallocate`; `kmalloc` takes a number of bytes, and gives a block of slots or fails.
unfoldable pub array_preallocate : (ℕ → Option (List ℕ)) → Array → ℕ → Result (Unit {0}) × Array
array_preallocate kmalloc a num =
    if ltb a.max num
    then install a (new_max num num a.max) (kmalloc (block_bytes (new_max num num a.max)))
    else (ok tt, a)

-- `array_setsize` after `array_preallocate`.
abbrev pub sized : ℕ → Result (Unit {0}) × Array → Result (Unit {0}) × Array
sized num (err e, a) = (err e, a)
sized num (ok u, a) = (ok tt, record a { num = num })

-- `array_setsize`
unfoldable pub array_setsize : (ℕ → Option (List ℕ)) → Array → ℕ → Result (Unit {0}) × Array
array_setsize kmalloc a num = sized num (array_preallocate kmalloc a num)

-- `array_add` after `array_setsize`.
abbrev pub stored : ℕ → ℕ → Result (Unit {0}) × Array → Result ℕ × Array
stored index val (err e, a) = (err e, a)
stored index val (ok u, a) = (ok index, record a { v = set a.v index val })

-- `array_add`: the index of the new element.
unfoldable pub array_add : (ℕ → Option (List ℕ)) → Array → ℕ → Result ℕ × Array
array_add kmalloc a val = stored a.num val (array_setsize kmalloc a ((a.num + 1) % 2 ^ 32))

-- `array_get`
unfoldable pub array_get : Array → ℕ → Outcome ℕ
array_get a index = if ltb index a.num then ret (get_or a.v index 0) else panic

-- `array_set`
unfoldable pub array_set : Array → ℕ → ℕ → Outcome Array
array_set a index val = if ltb index a.num then ret (record a { v = set a.v index val }) else panic

-- `memmove` of `n` slots to the slot before: the last of them stays where it was, too.
unfoldable pub slide : ℕ → List ℕ → List ℕ
slide zero v = v
slide (suc n) [] = []
slide (suc n) (x ∷ []) = x ∷ []
slide (suc n) (x ∷ (y ∷ v)) = y ∷ slide n (y ∷ v)

-- The same from slot `index` on.
unfoldable pub slide_at : ℕ → ℕ → List ℕ → List ℕ
slide_at zero n v = slide n v
slide_at (suc index) n [] = []
slide_at (suc index) n (x ∷ v) = x ∷ slide_at index n v

-- `array_remove`
unfoldable pub array_remove : Array → ℕ → Outcome Array
array_remove a index =
    if leb a.num a.max
    then (if ltb index a.num
        then ret (record a { v = slide_at index (a.num - (index + 1)) a.v; num = a.num - 1 })
        else panic)
    else panic
