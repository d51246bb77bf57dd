-- ===== src/CLib/Tokens/Cut.antt =====
-- What `strtok_r` returns and leaves in memory.
use ed_operating_system.Prelude.{
  ℕ, suc, ◌+◌, ◌<◌, ◌≡◌, ◌≢◌, ◌⊎◌, inl, inr, ◌∙◌, sym, ap, subst, ==-ne, refl, Option, none, some,
  List, [], ◌∷◌, ◌++◌, All, length, arith, if_else,
}
use ed_operating_system.CLib
use ed_operating_system.CLib.Strings.{IsString}
use ed_operating_system.CLib.Strings.Copies.{IsString-eq, store_self, store_other}
use ed_operating_system.CLib.Strings.Search.{char_at_lem}
use ed_operating_system.CLib.Tokens.{Token, end_word, start_word, from_context, strtok_r}
use ed_operating_system.CLib.Tokens.Words.{IsSep, IsPlain, Stops, skip_seps_lem, skip_word_lem}

-- A string that is cut by a zero at its place `length ws`.
cut :
    (ws cs : List ℕ) (p : ℕ) (m k : CLib.Memory)
    → IsString m p (ws ++ cs)
    → k (p + length ws) ≡ 0
    → ((x : ℕ) → x < p + length ws → k x ≡ m x)
    → IsString k p ws
cut [] [] p m k h z e = let a : p + 0 ≡ p = omega arith in (rw (← a) z, h.1)
cut [] (c ∷ cs) p m k h z e = let a : p + 0 ≡ p = omega arith in (rw (← a) z, h.2)
cut (w ∷ ws) cs p m k h z e =
    let a : p + suc (length ws) ≡ p + 1 + length ws = omega arith in
    (
      e p (omega arith) ∙ h.0,
      h.1,
      h.2,
      cut ws cs (p + 1) m k h.3 (rw (← a) z) (λ x lt. e x (omega arith)),
    )

-- The context for the next call, and the string it points to: none where the word ended the text,
-- otherwise what follows the separator at `q`.
abbrev pub IsContext : CLib.Memory → List ℕ → ℕ → Option ℕ → Type 0
IsContext k [] q c = c ≡ none
IsContext k (s ∷ more) q c = (c ≡ some (q + 1)) × IsString k (q + 1) more

-- The word at `p` was returned, and only the byte behind it may have changed.
abbrev pub WordPost : List ℕ → List ℕ → ℕ → CLib.Memory → Option Token → Type 0
WordPost ws rest p m result =
    (c : Option ℕ) × (k : CLib.Memory) × (result ≡ some (some p, c, k))
    × IsString k p ws
    × IsContext k rest (p + length ws) c
    × ((x : ℕ) → x ≢ p + length ws → k x ≡ m x)

end_word_lem :
    (ws rest : List ℕ) (p : ℕ) (m : CLib.Memory)
    → IsString m p (ws ++ rest)
    → IsString m (p + length ws) rest
    → WordPost ws rest p m (end_word p m (some (p + length ws)))
unfolding end_word
end_word_lem ws [] p m h t =
    (none, m, rw t.0 refl, cut ws [] p m m h t.0 (λ x lt. refl), refl, λ x ne. refl)
end_word_lem ws (s ∷ more) p m h t =
    let q : ℕ = p + length ws in
    let k : CLib.Memory = CLib.store m q 0 in
    let a : CLib.at q 1 ≡ q + 1 =
      omega (arith, (char_at_lem more 0 (q + 1) m t.3 (omega arith)).1) in
    let other : (x : ℕ) → x ≢ q → k x ≡ m x = λ x ne. store_other m q x 0 ne in
    (
      some (q + 1),
      k,
      rw (t.0, ==-ne s 0 t.1, a) refl,
      cut ws (s ∷ more) p m k h (store_self m q q 0 refl)
          (λ x lt. other x (λ e. absurd (omega arith))),
      (refl, IsString-eq more (q + 1) m k t.3 (λ x lo hi. other x (λ e. absurd (omega arith)))),
      other,
    )

begins :
    (fuel : ℕ) (string : Option ℕ) (seps : ℕ) (context : Option ℕ) (p : ℕ) (m : CLib.Memory)
    → (string ≡ some p) ⊎ ((string ≡ none) × (context ≡ some p))
    → strtok_r fuel string seps context m ≡ from_context fuel seps m (some p)
unfolding strtok_r
begins fuel none seps context p m (inl e) = absurd (cc)
begins fuel none seps context p m (inr e) = ap (from_context fuel seps m) e.1
begins fuel (some s) seps context p m (inl e) = ap (from_context fuel seps m) e
begins fuel (some s) seps context p m (inr e) = absurd (cc (e.0))

-- strtok_r, called with the string at `p` or to go on with the context `p`, where the C string there
-- is made of separators, a word of at least one character that are no separators and then nothing or
-- a separator and any text, with the C string of the separators in memory and fuel for each part: it
-- ends and returns the address of the word, which is now a C string of its own; the new context is
-- NULL where the word ended the text and otherwise points to the C string of what follows that one
-- separator; no byte but the one behind the word has changed.
pub strtok_r_lem :
    (ls : List ℕ) (w : ℕ) (ws rest ss : List ℕ) (fuel seps p : ℕ) (string context : Option ℕ)
    (m : CLib.Memory)
    → (string ≡ some p) ⊎ ((string ≡ none) × (context ≡ some p))
    → IsString m seps ss
    → IsString m p (ls ++ ((w ∷ ws) ++ rest))
    → All (IsSep ss) ls
    → All (IsPlain ss) (w ∷ ws)
    → Stops (IsSep ss) rest
    → length ss < fuel
    → length ls < fuel
    → length (w ∷ ws) < fuel
    → WordPost (w ∷ ws) rest (p + length ls) m (strtok_r fuel string seps context m)
unfolding strtok_r from_context start_word
strtok_r_lem ls w ws rest ss fuel seps p string context m from hs h hl hw hr fs fl fw =
    let (head, left) =
      skip_seps_lem ls ((w ∷ ws) ++ rest) fuel ss fuel seps p m hs fs hl hw.0 h fl in
    let q : ℕ = p + length ls in
    let (tail, more) = skip_word_lem (w ∷ ws) rest fuel ss fuel seps q m hs fs hw hr left fw in
    let starts : m q ≢ 0 = λ e. left.1 (sym left.0 ∙ e) in
    let run : from_context fuel seps m (some p) ≡ end_word q m (some (q + length (w ∷ ws))) =
      ap (start_word fuel seps m) head
      ∙ if_else _ _ (==-ne (m q) 0 starts)
      ∙ ap (end_word q m) tail in
    let called : strtok_r fuel string seps context m ≡ from_context fuel seps m (some p) =
      begins fuel string seps context p m from in
    subst (WordPost (w ∷ ws) rest q m) (sym (called ∙ run))
      (end_word_lem (w ∷ ws) rest q m left more)
