-- ===== src/CLib/Strings/Texts.antt =====
-- `strlen` and `strcmp` on texts.
use ed_operating_system.Prelude.{
  ℕ, zero, suc, ◌+◌, ◌<◌, ◌≡◌, ◌↔◌, ◌∙◌, ap, subst, refl, some, ltb, ◌==◌, if◌then◌else◌, List, [],
  ◌∷◌, length, arith,
}
use ed_operating_system.CLib
use ed_operating_system.CLib.Strings.{IsString, strlen, strlen_from, strcmp, strcmp_from, minus_one}

strlen_from_lem :
    (cs : List ℕ) (fuel i p : ℕ) (m : CLib.Memory)
    → IsString m (p + i) cs
    → length cs < fuel
    → strlen_from fuel i p m ≡ some (i + length cs)
unfolding strlen_from
strlen_from_lem cs zero i p m h f = absurd (omega arith)
strlen_from_lem [] (suc fuel) i p m h f = ground arith
strlen_from_lem (c ∷ cs) (suc fuel) i p m h f =
    let e : p + (i + 1) ≡ p + i + 1 = omega arith in
    ground (arith, strlen_from_lem cs fuel (i + 1) p m (rw e h.3) (omega arith))

pub strlen_lem :
    (cs : List ℕ) (fuel p : ℕ) (m : CLib.Memory)
    → IsString m p cs
    → length cs < fuel
    → strlen fuel p m ≡ some (length cs)
unfolding strlen
strlen_lem cs fuel p m h f =
    let e : p + 0 ≡ p = omega arith in
    let z : 0 + length cs ≡ length cs = omega arith in
    strlen_from_lem cs fuel 0 p m (rw e h) f ∙ ap some z

-- The order of texts by their first difference, as the `int` that `strcmp` returns.
unfoldable pub compare_texts : List ℕ → List ℕ → ℕ
compare_texts [] [] = 0
compare_texts [] (y ∷ ys) = minus_one
compare_texts (x ∷ xs) [] = 1
compare_texts (x ∷ xs) (y ∷ ys) =
    if x == y then compare_texts xs ys else (if ltb y x then 1 else minus_one)

strcmp_from_lem :
    (xs ys : List ℕ) (fuel i a b : ℕ) (m : CLib.Memory)
    → IsString m (a + i) xs
    → IsString m (b + i) ys
    → length xs < fuel
    → strcmp_from fuel i a b m ≡ some (compare_texts xs ys)
unfolding strcmp_from compare_texts
strcmp_from_lem xs ys zero i a b m ha hb f = absurd (omega arith)
strcmp_from_lem [] [] (suc fuel) i a b m ha hb f = ground arith
strcmp_from_lem [] (y ∷ ys) (suc fuel) i a b m ha hb f = ground arith
strcmp_from_lem (x ∷ xs) [] (suc fuel) i a b m ha hb f = ground arith
strcmp_from_lem (x ∷ xs) (y ∷ ys) (suc fuel) i a b m ha hb f =
    let ea : a + (i + 1) ≡ a + i + 1 = omega arith in
    let eb : b + (i + 1) ≡ b + i + 1 = omega arith in
    ground (arith, strcmp_from_lem xs ys fuel (i + 1) a b m (rw ea ha.3) (rw eb hb.3) (omega arith))

pub compare_texts_same : (xs ys : List ℕ) → compare_texts xs ys ≡ 0 → xs ≡ ys
unfolding compare_texts
compare_texts_same [] [] h = refl
compare_texts_same [] (y ∷ ys) h = absurd (omega arith)
compare_texts_same (x ∷ xs) [] h = absurd (omega arith)
compare_texts_same (x ∷ xs) (y ∷ ys) h = ground (arith, compare_texts_same xs ys)

pub compare_texts_self : (xs : List ℕ) → compare_texts xs xs ≡ 0
unfolding compare_texts
compare_texts_self [] = refl
compare_texts_self (x ∷ xs) = ground (arith, compare_texts_self xs)

-- strcmp, on the C strings of two texts and with fuel for the first: it ends, its result is 1, 0 or -1
-- as the first text comes after, is, or comes before the second in the order by the first difference,
-- and the result is 0 exactly when the texts are equal.
pub strcmp_lem :
    (xs ys : List ℕ) (fuel a b : ℕ) (m : CLib.Memory)
    → IsString m a xs
    → IsString m b ys
    → length xs < fuel
    → (strcmp fuel a b m ≡ some (compare_texts xs ys)) × ((strcmp fuel a b m ≡ some 0) ↔ (xs ≡ ys))
unfolding strcmp
strcmp_lem xs ys fuel a b m ha hb f =
    let ea : a + 0 ≡ a = omega arith in
    let eb : b + 0 ≡ b = omega arith in
    let run : strcmp_from fuel 0 a b m ≡ some (compare_texts xs ys) =
      strcmp_from_lem xs ys fuel 0 a b m (rw ea ha) (rw eb hb) f in
    (
      run,
      (
        λ h. compare_texts_same xs ys (cc),
        λ h. run ∙ ap some (subst (λ zs. compare_texts xs zs ≡ 0) h (compare_texts_self xs)),
      ),
    )
