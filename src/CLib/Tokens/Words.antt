-- ===== src/CLib/Tokens/Words.antt =====
-- What `strtok_r` finds in a text.
use ed_operating_system.Prelude.{
  ℕ, zero, suc, ◌+◌, ◌%◌, ◌^◌, ◌<◌, ◌≡◌, ◌≢◌, ◌∙◌, sym, ap, subst, ==-ne, refl, Option, none, some,
  List, [], ◌∷◌, ◌++◌, All, length, arith,
}
use native.Mathlib.Decide.{dec_lt}
use ed_operating_system.CLib
use ed_operating_system.CLib.Strings.{IsString, strchr}
use ed_operating_system.CLib.Strings.Search.{strchr-strrchr, IsFirst, char_at, next_char}
use ed_operating_system.CLib.Tokens.{skip_seps, seps_round, skip_word, word_round}

-- A character that stands in the text of separators, and one that does not.
abbrev pub IsSep : List ℕ → ℕ → Type 0
IsSep ss c = (c < 2 ^ 8) × ((i : ℕ) × (i < length ss) × (char_at ss i ≡ c))

abbrev pub IsPlain : List ℕ → ℕ → Type 0
IsPlain ss c = (c < 2 ^ 8) × ((i : ℕ) → i < length ss → char_at ss i ≢ c)

char_at_end : (cs : List ℕ) → char_at cs (length cs) ≡ 0
char_at_end [] = refl
char_at_end (c ∷ cs) = char_at_end cs

found :
    (ss : List ℕ) (p c : ℕ) (r : Option ℕ) → IsSep ss c → IsFirst c ss p r → (q : ℕ) × (r ≡ some q)
found ss p c none (byte, (i, lt, e)) f = absurd (f i (omega arith) e)
found ss p c (some q) s f = (q, refl)

not_found :
    (ss : List ℕ) (p c : ℕ) (r : Option ℕ) → c ≢ 0 → IsPlain ss c → IsFirst c ss p r → r ≡ none
not_found ss p c none nz s f = refl
not_found ss p c (some q) nz (byte, out) (i, e, le, hit, before) = elim (dec_lt i (length ss)) [
  | yes lt ↦ absurd (out i lt hit)
  | no ge ↦
      let last : i ≡ length ss = omega arith in
      absurd (nz (sym hit ∙ ap (char_at ss) last ∙ char_at_end ss))
]

sep_found :
    (ss : List ℕ) (fuel p c : ℕ) (m : CLib.Memory)
    → IsString m p ss
    → length ss < fuel
    → IsSep ss c
    → (q : ℕ) × (strchr fuel p c m ≡ some (some q))
sep_found ss fuel p c m h f s =
    let low : c % 2 ^ 8 ≡ c = omega (arith, s.0) in
    let (r, run, first) = (strchr-strrchr ss fuel p c m h f).0 in
    let (q, e) = found ss p c r s (subst (λ z. IsFirst z ss p r) low first) in (q, run ∙ ap some e)

plain_not_found :
    (ss : List ℕ) (fuel p c : ℕ) (m : CLib.Memory)
    → IsString m p ss
    → length ss < fuel
    → c ≢ 0
    → IsPlain ss c
    → strchr fuel p c m ≡ some none
plain_not_found ss fuel p c m h f nz s =
    let low : c % 2 ^ 8 ≡ c = omega (arith, s.0) in
    let (r, run, first) = (strchr-strrchr ss fuel p c m h f).0 in
    run ∙ ap some (not_found ss p c r nz s (subst (λ z. IsFirst z ss p r) low first))

-- What stops each loop: the terminator, or a character of the other kind.
abbrev pub Stops : (ℕ → Type 0) → List ℕ → Type 0
Stops P [] = Unit
Stops P (c ∷ cs) = P c

pub skip_seps_lem :
    (ls cs : List ℕ) (rounds : ℕ) (ss : List ℕ) (fuel seps p : ℕ) (m : CLib.Memory)
    → IsString m seps ss
    → length ss < fuel
    → All (IsSep ss) ls
    → Stops (IsPlain ss) cs
    → IsString m p (ls ++ cs)
    → length ls < rounds
    → (skip_seps rounds fuel seps p m ≡ some (p + length ls)) × IsString m (p + length ls) cs
unfolding skip_seps seps_round
skip_seps_lem ls cs zero ss fuel seps p m hs hf hl hc h r = absurd (omega arith)
skip_seps_lem [] [] (suc rounds) ss fuel seps p m hs hf hl hc h r =
    let e : p + 0 ≡ p = omega arith in rw e (rw h.0 refl, h)
skip_seps_lem [] (c ∷ cs) (suc rounds) ss fuel seps p m hs hf hl hc h r =
    let e : p + 0 ≡ p = omega arith in
    let run = plain_not_found ss fuel seps c m hs hf h.1 hc in
    rw e (rw (h.0, ==-ne c 0 h.1, run) refl, h)
skip_seps_lem (l ∷ ls) cs (suc rounds) ss fuel seps p m hs hf hl hc h r =
    let a : CLib.at p 1 ≡ p + 1 = next_char l (ls ++ cs) p m h in
    let e : p + suc (length ls) ≡ p + 1 + length ls = omega arith in
    let (q, run) = sep_found ss fuel seps l m hs hf hl.0 in
    let (rest, left) =
      skip_seps_lem ls cs rounds ss fuel seps (p + 1) m hs hf hl.1 hc h.3 (omega arith) in
    rw e (rw (h.0, ==-ne l 0 h.1, run, a) rest, left)

pub skip_word_lem :
    (ws cs : List ℕ) (rounds : ℕ) (ss : List ℕ) (fuel seps p : ℕ) (m : CLib.Memory)
    → IsString m seps ss
    → length ss < fuel
    → All (IsPlain ss) ws
    → Stops (IsSep ss) cs
    → IsString m p (ws ++ cs)
    → length ws < rounds
    → (skip_word rounds fuel seps p m ≡ some (p + length ws)) × IsString m (p + length ws) cs
unfolding skip_word word_round
skip_word_lem ws cs zero ss fuel seps p m hs hf hl hc h r = absurd (omega arith)
skip_word_lem [] [] (suc rounds) ss fuel seps p m hs hf hl hc h r =
    let e : p + 0 ≡ p = omega arith in rw e (ground (arith, h.0), h)
skip_word_lem [] (c ∷ cs) (suc rounds) ss fuel seps p m hs hf hl hc h r =
    let e : p + 0 ≡ p = omega arith in
    let (q, run) = sep_found ss fuel seps c m hs hf hc in
    rw e (rw (h.0, ==-ne c 0 h.1, run) refl, h)
skip_word_lem (l ∷ ls) cs (suc rounds) ss fuel seps p m hs hf hl hc h r =
    let a : CLib.at p 1 ≡ p + 1 = next_char l (ls ++ cs) p m h in
    let e : p + suc (length ls) ≡ p + 1 + length ls = omega arith in
    let run = plain_not_found ss fuel seps l m hs hf h.1 hl.0 in
    let (rest, left) =
      skip_word_lem ls cs rounds ss fuel seps (p + 1) m hs hf hl.1 hc h.3 (omega arith) in
    rw e (rw (h.0, ==-ne l 0 h.1, run, a) rest, left)
