-- ===== src/CLib/Strings/Search.antt =====
-- `strchr` and `strrchr` on texts.
use ed_operating_system.Prelude.{
  ℕ, zero, suc, ◌+◌, ◌%◌, ◌^◌, ◌<◌, ◌≤◌, ◌≡◌, ◌≢◌, ◌∙◌, sym, ap, subst, if_then, if_else, ==-ne,
  true, Option, none, some, ◌==◌, List, [], ◌∷◌, length, arith,
}
use native.Mathlib.Decide.{ℕ_discrete}
use ed_operating_system.CLib
use ed_operating_system.CLib.Strings.{
  IsString, strchr, strchr_from, strrchr, strrchr_from, strrchr_below,
}
use ed_operating_system.CLib.Strings.Texts.{strlen_lem}

-- The byte at a place of a text, its terminator included.
abbrev pub char_at : List ℕ → ℕ → ℕ
char_at [] i = 0
char_at (c ∷ cs) zero = c
char_at (c ∷ cs) (suc i) = char_at cs i

pub char_at_lem :
    (cs : List ℕ) (i p : ℕ) (m : CLib.Memory)
    → IsString m p cs
    → i ≤ length cs
    → (m (p + i) ≡ char_at cs i) × (p + i < 2 ^ 32)
char_at_lem [] zero p m h le = let e : p + 0 ≡ p = omega arith in rw e h
char_at_lem [] (suc i) p m h le = absurd (omega arith)
char_at_lem (c ∷ cs) zero p m h le = let e : p + 0 ≡ p = omega arith in rw e (h.0, h.2)
char_at_lem (c ∷ cs) (suc i) p m h le =
    let e : p + suc i ≡ p + 1 + i = omega arith in
    rw e (char_at_lem cs i (p + 1) m h.3 (omega arith))

-- The address after a byte of a string that is not its terminator.
pub next_char :
    (c : ℕ) (cs : List ℕ) (s : ℕ) (m : CLib.Memory) → IsString m s (c ∷ cs) → CLib.at s 1 ≡ s + 1
next_char c cs s m h = omega (arith, (char_at_lem cs 0 (s + 1) m h.3 (omega arith)).1)

-- The answer to a search from the left in the C string at `p`: the address of the first byte equal to
-- `c`, the terminator included, or no address and no such byte.
abbrev pub IsFirst : ℕ → List ℕ → ℕ → Option ℕ → Type 0
IsFirst c cs p none = (i : ℕ) → i ≤ length cs → char_at cs i ≢ c
IsFirst c cs p (some q) =
    (i : ℕ) × (q ≡ p + i)
    × (i ≤ length cs)
    × (char_at cs i ≡ c)
    × ((j : ℕ) → j < i → char_at cs j ≢ c)

-- The same from the right.
abbrev pub IsLast : ℕ → List ℕ → ℕ → Option ℕ → Type 0
IsLast c cs p none = (i : ℕ) → i ≤ length cs → char_at cs i ≢ c
IsLast c cs p (some q) =
    (i : ℕ) × (q ≡ p + i)
    × (i ≤ length cs)
    × (char_at cs i ≡ c)
    × ((j : ℕ) → i < j → j ≤ length cs → char_at cs j ≢ c)

-- A search that goes on after a byte that differs.
IsFirst-next :
    (c x : ℕ) (cs : List ℕ) (p : ℕ) (r : Option ℕ)
    → x ≢ c
    → IsFirst c cs (p + 1) r
    → IsFirst c (x ∷ cs) p r
IsFirst-next c x cs p none ne h = all
  where
    all : (i : ℕ) → i ≤ suc (length cs) → char_at (x ∷ cs) i ≢ c
    all zero le = ne
    all (suc i) le = h i (omega arith)
IsFirst-next c x cs p (some q) ne (i, e, le, hit, before) =
    (suc i, omega arith, omega arith, hit, all)
  where
    all : (j : ℕ) → j < suc i → char_at (x ∷ cs) j ≢ c
    all zero lt = ne
    all (suc j) lt = before j (omega arith)

no_earlier : (c : ℕ) (cs : List ℕ) (j : ℕ) → j < 0 → char_at cs j ≢ c
no_earlier c cs j h = absurd (omega arith)

only_terminator : (c : ℕ) → 0 ≢ c → (i : ℕ) → i ≤ 0 → char_at [] i ≢ c
only_terminator c h i le = h

pub strchr_from_lem :
    (cs : List ℕ) (fuel p c : ℕ) (m : CLib.Memory)
    → IsString m p cs
    → length cs < fuel
    → (r : Option ℕ) × (strchr_from fuel p c m ≡ some r) × IsFirst c cs p r
unfolding strchr_from
strchr_from_lem cs zero p c m h f = absurd (omega arith)
strchr_from_lem [] (suc fuel) p c m h f = elim (ℕ_discrete 0 c) [
  | yes e ↦ (some p, ground (arith, h.0), (0, omega arith, omega arith, e, no_earlier c []))
  | no ne ↦ (none, ground (arith, h.0), only_terminator c ne)
]
strchr_from_lem (x ∷ cs) (suc fuel) p c m h f = elim (ℕ_discrete x c) [
  | yes e ↦
      (some p, ground (arith, h.0, h.1), (0, omega arith, omega arith, e, no_earlier c (x ∷ cs)))
  | no ne ↦
      let fits : p + 1 < 2 ^ 32 = omega (arith, (char_at_lem cs 0 (p + 1) m h.3 (omega arith)).1) in
      let a : CLib.at p 1 ≡ p + 1 = omega arith in
      let (r, run, first) = strchr_from_lem cs fuel (p + 1) c m h.3 (omega arith) in
      (r, ground (arith, h.0, h.1, run, a), IsFirst-next c x cs p r ne first)
]

==_same : {a b : ℕ} → a ≡ b → (a == b) ≡ true
==_same e = ground arith

strrchr_from_lem :
    (i : ℕ) (cs : List ℕ) (p c : ℕ) (m : CLib.Memory)
    → IsString m p cs
    → i ≤ length cs + 1
    → ((j : ℕ) → i ≤ j → j ≤ length cs → char_at cs j ≢ c)
    → IsLast c cs p (strrchr_from i p c m)
unfolding strrchr_from
strrchr_from_lem zero cs p c m h le past = λ i le'. past i (omega arith) le'
strrchr_from_lem (suc i) cs p c m h le past =
    let here : (m (p + i) ≡ char_at cs i) × (p + i < 2 ^ 32) =
      char_at_lem cs i p m h (omega arith) in
    let a : CLib.at p i ≡ p + i = omega (arith, here.1) in
    let e : m (CLib.at p i) ≡ char_at cs i = ap m a ∙ here.0 in
    elim (ℕ_discrete (char_at cs i) c) [
      | yes hit ↦
          subst (IsLast c cs p) (sym (if_then (some (CLib.at p i)) _ (==_same (e ∙ hit))))
            (i, a, omega arith, hit, λ j lt le'. past j (omega arith) le')
      | no ne ↦ subst (IsLast c cs p) (sym (if_else _ _ (==-ne _ c (λ z. ne (sym e ∙ z))))) (
          strrchr_from_lem i cs p c m h (omega arith) (λ j ge le'. elim (ℕ_discrete j i) [
            | yes same ↦ subst (λ z. char_at cs z ≢ c) (sym same) ne
            | no other ↦ past j (omega arith) le'
          ]))
    ]

-- strchr and strrchr, on the C string of a text and with fuel for it: both end; strchr returns the
-- address of the first byte that equals the low byte of its argument, the terminator being one of the
-- bytes, strrchr that of the last, and NULL is returned only where no byte does.
pub strchr-strrchr :
    (cs : List ℕ) (fuel p ch : ℕ) (m : CLib.Memory)
    → IsString m p cs
    → length cs < fuel
    → ((r : Option ℕ) × (strchr fuel p ch m ≡ some r) × IsFirst (ch % 2 ^ 8) cs p r)
      × ((r : Option ℕ) × (strrchr fuel p ch m ≡ some r) × IsLast (ch % 2 ^ 8) cs p r)
unfolding strchr strrchr strrchr_below
strchr-strrchr cs fuel p ch m h f = (
  strchr_from_lem cs fuel p (ch % 2 ^ 8) m h f,
  (
    strrchr_from (length cs + 1) p (ch % 2 ^ 8) m,
    ap (strrchr_below p (ch % 2 ^ 8) m) (strlen_lem cs fuel p m h f),
    strrchr_from_lem (length cs + 1) cs p (ch % 2 ^ 8) m h (omega arith)
        (λ j ge le. absurd (omega arith)),
  ),
)
