-- ===== src/Bitmap/Tests.antt =====
-- A bitmap of eleven bits, two of them in use, put through the operations of src/kern/lib/bitmap.c.
use ed_operating_system.Prelude.{
  ◌+◌, ◌-◌, ◌≡◌, subst, true, [], ◌∷◌, holds_below-elim, arith, ret, Returns, refl, ok, holds_below,
}
use ed_operating_system.Bitmap.{Bitmap, alloc, alloc_from, take_bit, find_clear}
use ed_operating_system.Bitmap.Spec.{IsValid, bits}
use ed_operating_system.Bitmap.Alloc.{AllocPost, alloc_lem}

abbrev eleven : Bitmap
eleven = record { nbits = 11; v = 0x03 ∷ 0xf8 ∷ [] }

eleven-IsValid : IsValid eleven
unfolding holds_below
eleven-IsValid = record {
  small = omega arith;
  words = refl;
  bytes = (omega arith, (omega arith, tt));
  tail = λ i lo hi.
      let e : 11 + (i - 11) ≡ i = omega arith in
      subst (λ j. bits eleven.v j ≡ true) e
        (holds_below-elim {n = 5} (λ d. bits eleven.v (11 + d)) all_used (i - 11) (omega arith));
}
  where
    all_used : holds_below 5 (λ d. bits eleven.v (11 + d)) ≡ true
    all_used = refl

alloc_lem_example : Returns (AllocPost eleven) (alloc eleven)
alloc_lem_example = alloc_lem eleven-IsValid

-- The third bit is the first that bitmap_alloc takes.
alloc-eleven : alloc eleven ≡ ret (ok 2, record { nbits = 11; v = 0x07 ∷ 0xf8 ∷ [] })
unfolding alloc alloc_from take_bit find_clear
alloc-eleven = refl
