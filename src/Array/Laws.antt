-- ===== src/Array/Laws.antt =====
-- The operations of src/kern/lib/array.c as operations on the list of the elements in use.
use ed_operating_system.Prelude.{
  ℕ, suc, ◌+◌, ◌-◌, ◌/◌, ◌%◌, ◌^◌, ◌≤◌, ◌<◌, ◌≡◌, sym, refl, ap, subst, ◌∙◌, true, Option, none,
  some, List, [], ◌∷◌, ◌++◌, length, length-set, ltb, leb, arith, Bool-cases, inl, inr, ltb→lt,
  lt→ltb, Returns, Result, ok, err, Errno,
}
use ed_operating_system.Array.{
  Array, new_max, block_bytes, install, array_preallocate, sized, array_setsize, stored, array_add,
  array_remove, slide_at,
}
use ed_operating_system.Array.Blocks.{
  first, remove_at, first-copy_first, length-copy_first, first-set, first-slide_at, length-slide_at,
  new_max-enough,
}

-- The elements in use fit the block, whose size fits a word.
pub record IsWf (a : Array) : Type 0 where
  pub fits : a.num ≤ a.max
  pub block : length a.v ≡ a.max
  pub word : a.max < 2 ^ 32

abbrev pub elements : Array → List ℕ
elements a = first a.num a.v

-- What the allocator gives, where it gives something, is a block of the size in bytes that was asked
-- for, as slots of four bytes.
abbrev pub Sizes : (ℕ → Option (List ℕ)) → Type 0
Sizes kmalloc = (n : ℕ) (block : List ℕ) → kmalloc n ≡ some block → length block ≡ n / 4

-- What making room means: an error with nothing changed where the allocator failed, or room with the
-- elements kept.
abbrev pub RoomCase : (ℕ → Option (List ℕ)) → Array → ℕ → Result (Unit {0}) × Array → Type 0
RoomCase kmalloc a num (err e, a') = (e ≡ Errno.enomem) × (a' ≡ a) × ((n : ℕ) × (kmalloc n ≡ none))
RoomCase kmalloc a num (ok u, a') =
    IsWf a' × (num ≤ a'.max) × (a'.num ≡ a.num) × (elements a' ≡ elements a)

install_lem :
    (kmalloc : ℕ → Option (List ℕ)) (a : Array) (num newmax : ℕ) (o : Option (List ℕ))
    → kmalloc (block_bytes newmax) ≡ o
    → IsWf a
    → ((block : List ℕ) → o ≡ some block → length block ≡ newmax)
    → num ≤ newmax
    → a.num ≤ newmax
    → newmax < 2 ^ 32
    → RoomCase kmalloc a num (install a newmax o)
unfolding install
install_lem kmalloc a num newmax none e wf sizes more holds word =
    (refl, refl, (block_bytes newmax, e))
install_lem kmalloc a num newmax (some block) e wf sizes more holds word = (
  record {
    fits = holds;
    block = length-copy_first a.num a.v block ∙ sizes block refl;
    word = word;
  },
  more,
  refl,
  first-copy_first a.num a.v block (omega (arith, wf.fits, wf.block))
      (omega (arith, sizes block refl)),
)

-- array_preallocate of at most 2^29 slots makes room, or fails with ENOMEM and changes nothing.
array_preallocate_lem :
    (kmalloc : ℕ → Option (List ℕ)) (a : Array) (num : ℕ)
    → IsWf a
    → Sizes kmalloc
    → num ≤ 2 ^ 29
    → RoomCase kmalloc a num (array_preallocate kmalloc a num)
unfolding array_preallocate
array_preallocate_lem kmalloc a num wf sizes small = elim (Bool-cases (ltb a.max num)) [
  | inl short ↦
      let less : a.max < num = ltb→lt a.max num short in
      let (enough, word) = new_max-enough num num a.max small (omega arith) (omega arith) in
      let newmax : ℕ = new_max num num a.max in
      rw short (
        install_lem kmalloc a num newmax (kmalloc (block_bytes newmax)) refl wf
          (λ block e. omega (arith, sizes (block_bytes newmax) block e, word)) enough
          (omega (arith, wf.fits, less, enough)) (omega (arith, word)))
  | inr room ↦ rw room (wf, ground arith, refl, refl)
]

-- What adding means: an error with nothing changed where the allocator failed, or one more element at the
-- end, under its index.
abbrev pub AddCase : (ℕ → Option (List ℕ)) → Array → ℕ → Result ℕ × Array → Type 0
AddCase kmalloc a val (err e, a') = (e ≡ Errno.enomem) × (a' ≡ a) × ((n : ℕ) × (kmalloc n ≡ none))
AddCase kmalloc a val (ok index, a') =
    (index ≡ a.num) × IsWf a' × (elements a' ≡ elements a ++ (val ∷ []))

stored_lem :
    (kmalloc : ℕ → Option (List ℕ)) (a : Array) (val : ℕ) (r : Result (Unit {0}) × Array)
    → RoomCase kmalloc a (a.num + 1) r
    → AddCase kmalloc a val (stored a.num val (sized (a.num + 1) r))
stored_lem kmalloc a val (err e, a') post = post
stored_lem kmalloc a val (ok u, a') (wf, room, same, kept) = (
  refl,
  record { fits = room; block = length-set a'.v a.num val ∙ wf.block; word = wf.word },
  first-set a.num a'.v val (omega (arith, wf.block, room))
      ∙ ap (λ xs. xs ++ (val ∷ [])) (ap (λ n. first n a'.v) (sym same) ∙ kept),
)

-- array_add to a well-formed array of fewer than 2^29 elements, where the new block has fewer than
-- 2^32 bytes, appends the value to the elements,
-- returns its index, and keeps the array well-formed; or it fails with ENOMEM, where the allocator fails,
-- and changes nothing.
pub array_add_lem :
    (kmalloc : ℕ → Option (List ℕ)) (a : Array) (val : ℕ)
    → IsWf a
    → Sizes kmalloc
    → a.num < 2 ^ 29
    → AddCase kmalloc a val (array_add kmalloc a val)
unfolding array_add array_setsize
array_add_lem kmalloc a val wf sizes small =
    let index : (a.num + 1) % 2 ^ 32 ≡ a.num + 1 = omega arith in
    rw index (
      stored_lem kmalloc a val (array_preallocate kmalloc a (a.num + 1))
        (array_preallocate_lem kmalloc a (a.num + 1) wf sizes (omega arith)))

-- array_remove at an index in use of a well-formed array returns: it removes that element from the
-- list, slides the ones after it down, and keeps the array well-formed.
pub array_remove_lem :
    (a : Array) (index : ℕ)
    → IsWf a
    → index < a.num
    → Returns (λ a'. IsWf a' × (elements a' ≡ remove_at index (elements a))) (array_remove a index)
unfolding array_remove
array_remove_lem a index wf h =
    let held : leb a.num a.max ≡ true = ground (arith, wf.fits) in
    let rest = a.num - (index + 1) in
    let after : index + rest ≡ a.num - 1 = omega arith in
    let before : index + suc rest ≡ a.num = omega arith in
    rw (held, lt→ltb index a.num h)
      (
        record {
          fits = omega (arith, wf.fits);
          block = length-slide_at index rest a.v ∙ wf.block;
          word = wf.word;
        },
        subst (λ n. first n (slide_at index rest a.v) ≡ remove_at index (first a.num a.v)) after
            (subst
              (λ n. first (index + rest) (slide_at index rest a.v) ≡ remove_at index (first n a.v))
              before (first-slide_at index rest a.v (omega (arith, before, wf.fits, wf.block)))),
      )
