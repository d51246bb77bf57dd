-- ===== src/CLib/Strings/Copies.antt =====
-- `strcpy` and `strcat` on texts.
use ed_operating_system.Prelude.{
  ℕ, zero, suc, ◌+◌, ◌^◌, ◌<◌, ◌≤◌, ◌≡◌, ◌≢◌, ◌⊎◌, inl, ◌∙◌, sym, ap, subst, true, if_then, if_else,
  ==-ne, some, ◌==◌, List, [], ◌∷◌, ◌++◌, length, arith,
}
use ed_operating_system.CLib
use ed_operating_system.CLib.Strings.{IsString, strlen, strcpy, strcpy_from, strcat, strcat_at}
use ed_operating_system.CLib.Strings.Texts.{strlen_lem}

-- A string is what its bytes are: memories that agree on them hold the same string.
pub IsString-eq :
    (cs : List ℕ) (p : ℕ) (m k : CLib.Memory)
    → IsString m p cs
    → ((x : ℕ) → p ≤ x → x ≤ p + length cs → k x ≡ m x)
    → IsString k p cs
IsString-eq [] p m k h e = (e p (omega arith) (omega arith) ∙ h.0, h.1)
IsString-eq (c ∷ cs) p m k h e = (
  e p (omega arith) (omega arith) ∙ h.0,
  h.1,
  h.2,
  IsString-eq cs (p + 1) m k h.3 (λ x lo hi. e x (omega arith) (omega arith)),
)

-- A text before the string of another.
join :
    (cs ds : List ℕ) (p : ℕ) (m k : CLib.Memory)
    → IsString m p cs
    → IsString k (p + length cs) ds
    → ((x : ℕ) → p ≤ x → x < p + length cs → k x ≡ m x)
    → IsString k p (cs ++ ds)
join [] ds p m k h t e = let z : p + 0 ≡ p = omega arith in rw (← z) t
join (c ∷ cs) ds p m k h t e =
    let z : p + suc (length cs) ≡ p + 1 + length cs = omega arith in
    (
      e p (omega arith) (omega arith) ∙ h.0,
      h.1,
      h.2,
      join cs ds (p + 1) m k h.3 (rw (← z) t) (λ x lo hi. e x (omega arith) (omega arith)),
    )

pub store_self : (m : CLib.Memory) (a x v : ℕ) → x ≡ a → CLib.store m a v x ≡ v
unfolding CLib.store
store_self m a x v e = ground arith

pub store_other : (m : CLib.Memory) (a x v : ℕ) → x ≢ a → CLib.store m a v x ≡ m x
unfolding CLib.store
store_other m a x v h = ground arith

==_zero : {n : ℕ} → n ≡ 0 → (n == 0) ≡ true
==_zero e = ground arith

-- The memory after the C string of a text was written at an address.
abbrev pub Copied : ℕ → List ℕ → CLib.Memory → CLib.Memory → Type 0
Copied dest cs m k =
    IsString k dest cs × ((x : ℕ) → (x < dest) ⊎ (dest + length cs < x) → k x ≡ m x)

strcpy_from_lem :
    (cs : List ℕ) (fuel i d s : ℕ) (m : CLib.Memory)
    → IsString m (s + i) cs
    → length cs < fuel
    → d + i + length cs < 2 ^ 32
    → (d ≤ s) ⊎ (s + i + length cs < d)
    → (k : CLib.Memory) × (strcpy_from fuel i d s m ≡ some k) × Copied (d + i) cs m k
unfolding strcpy_from
strcpy_from_lem cs zero i d s m h f fit clear = absurd (omega arith)
strcpy_from_lem [] (suc fuel) i d s m h f fit clear =
    let a : CLib.at d i ≡ d + i = omega arith in
    let k : CLib.Memory = CLib.store m (CLib.at d i) 0 in
    let ends : m (CLib.at s i) ≡ 0 = ground (arith, h.0) in
    (
      k,
      if_then (some k) _ (==_zero ends),
      (
        (store_self m (CLib.at d i) (d + i) 0 (sym a), omega arith),
        λ x out. store_other m (CLib.at d i) x 0 (ground arith),
      ),
    )
strcpy_from_lem (c ∷ cs) (suc fuel) i d s m h f fit clear =
    let a : CLib.at d i ≡ d + i = omega arith in
    let b : m (CLib.at s i) ≡ c = ground (arith, h.0) in
    let es : s + (i + 1) ≡ s + i + 1 = omega arith in
    let ed : d + (i + 1) ≡ d + i + 1 = omega arith in
    let m' : CLib.Memory = CLib.store m (CLib.at d i) (m (CLib.at s i)) in
    let left : IsString m' (s + (i + 1)) cs = rw es (
      IsString-eq cs (s + i + 1) m m' h.3
        (λ x lo hi. store_other m (CLib.at d i) x (m (CLib.at s i)) (ground arith))) in
    let (k, run, (text, same)) =
      strcpy_from_lem cs fuel (i + 1) d s m' left (omega arith) (omega arith) (ground arith) in
    let more : m (CLib.at s i) ≢ 0 = λ e. h.1 (sym b ∙ e) in
    let first : k (d + i) ≡ c =
      same (d + i) (inl (omega arith))
      ∙ store_self m (CLib.at d i) (d + i) (m (CLib.at s i)) (sym a)
      ∙ b in
    (
      k,
      if_else _ _ (==-ne _ 0 more) ∙ run,
      (
        (first, h.1, omega arith, rw (← ed) text),
        λ x out.
            same x (ground arith) ∙ store_other m (CLib.at d i) x (m (CLib.at s i)) (ground arith),
      ),
    )

-- strcpy, on the C string of a text, with fuel for it, a destination that does not wrap around the end
-- of the address space, and a destination that starts at or below the source or past its terminator:
-- it ends, the destination is the C string of the text, and every byte outside the copy and its
-- terminator is unchanged.
pub strcpy_lem :
    (cs : List ℕ) (fuel d s : ℕ) (m : CLib.Memory)
    → IsString m s cs
    → length cs < fuel
    → d + length cs < 2 ^ 32
    → (d ≤ s) ⊎ (s + length cs < d)
    → (k : CLib.Memory) × (strcpy fuel d s m ≡ some k) × Copied d cs m k
unfolding strcpy
strcpy_lem cs fuel d s m h f fit clear =
    let es : s + 0 ≡ s = omega arith in
    let ed : d + 0 ≡ d = omega arith in
    subst (λ z. (k : CLib.Memory) × (strcpy_from fuel 0 d s m ≡ some k) × Copied z cs m k) ed
      (strcpy_from_lem cs fuel 0 d s m (rw es h) f (omega arith) (ground arith))

-- strcat, on the C strings of two texts, with fuel for both, where the result does not wrap around the
-- end of the address space and the destination's terminator and what follows it up to the new end do
-- not touch the source: it ends, the destination is the C string of the first text followed by the
-- second, and every byte outside the new string is unchanged.
pub strcat_lem :
    (cs ds : List ℕ) (fuel d s : ℕ) (m : CLib.Memory)
    → IsString m d cs
    → IsString m s ds
    → length cs < fuel
    → length ds < fuel
    → d + length cs + length ds < 2 ^ 32
    → (d + length cs + length ds < s) ⊎ (s + length ds < d + length cs)
    → (k : CLib.Memory) × (strcat fuel d s m ≡ some k)
      × IsString k d (cs ++ ds)
      × ((x : ℕ) → (x < d) ⊎ (d + length cs + length ds < x) → k x ≡ m x)
unfolding strcat strcat_at
strcat_lem cs ds fuel d s m hd hs fc fd fit clear =
    let a : CLib.at d (length cs) ≡ d + length cs = omega arith in
    let (k, run, (text, same)) = strcpy_lem ds fuel (d + length cs) s m hs fd fit (ground arith) in
    let start : strlen fuel d m ≡ some (length cs) = strlen_lem cs fuel d m hd fc in
    (
      k,
      ap (strcat_at fuel d s m) start ∙ ap (λ z. strcpy fuel z s m) a ∙ run,
      join cs ds d m k hd text (λ x lo hi. same x (inl (omega arith))),
      λ x out. same x (ground arith),
    )
