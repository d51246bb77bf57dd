-- ===== src/Array/Tests.antt =====
-- An array of three elements in a block of four, put through the operations of src/kern/lib/array.c.
use ed_operating_system.Prelude.{
  ℕ, ◌/◌, ◌≡◌, refl, arith, Option, some, List, [], ◌∷◌, replicate, length-replicate, length, ◌∙◌,
  sym, ap, Returns,
}
use ed_operating_system.Array.{Array, array_add, array_remove}
use ed_operating_system.Array.Blocks.{remove_at}
use ed_operating_system.Array.Laws.{IsWf, Sizes, AddCase, elements, array_add_lem, array_remove_lem}

abbrev three : Array
three = record { v = 5 ∷ 6 ∷ 7 ∷ 0 ∷ []; num = 3; max = 4 }

three-IsWf : IsWf three
three-IsWf = record { fits = omega arith; block = refl; word = omega arith }

-- An allocator that never fails.
abbrev zeros : ℕ → Option (List ℕ)
zeros n = some (replicate (n / 4) 0)

zeros-Sizes : Sizes zeros
zeros-Sizes n block e =
    let same : replicate (n / 4) 0 ≡ block = cc in ap length (sym same) ∙ length-replicate (n / 4) 0

array_add_lem_example : AddCase zeros three 8 (array_add zeros three 8)
array_add_lem_example = array_add_lem zeros three 8 three-IsWf zeros-Sizes (omega arith)

array_remove_lem_example :
    Returns (λ a'. IsWf a' × (elements a' ≡ remove_at 1 (elements three))) (array_remove three 1)
array_remove_lem_example = array_remove_lem three 1 three-IsWf (omega arith)
