-- ===== src/ThreadList/Chains.antt =====
-- Doubly linked chains of nodes (src/kern/thread/threadlist.c), and what a change at one place of a
-- chain leaves of it.
use ed_operating_system.Prelude.{ℕ, ◌≡◌, ◌≢◌, sym, ◌∙◌, none, some, List, [], ◌∷◌, ◌++◌, All}
use ed_operating_system.ThreadList.{Memory}

-- Each node of the list points to the next one, and that back to it; after the last comes none.
abbrev pub Linked : Memory → List ℕ → Type 0
Linked m [] = Unit
Linked m (x ∷ []) = (m x).next ≡ none
Linked m (x ∷ y ∷ r) = ((m x).next ≡ some y) × ((m y).prev ≡ some x) × Linked m (y ∷ r)

abbrev pub Without : ℕ → List ℕ → Type 0
Without a xs = All (λ x. x ≢ a) xs

abbrev pub Distinct : List ℕ → Type 0
Distinct [] = Unit
Distinct (x ∷ xs) = Without x xs × Distinct xs

-- Only the pointer out of `a`, the pointer back from `b`, and the node `t` may differ.
pub record Splices (a b t : ℕ) (m m' : Memory) : Type 0 where
  pub nexts : (n : ℕ) → n ≢ a → n ≢ t → (m' n).next ≡ (m n).next
  pub prevs : (n : ℕ) → n ≢ b → n ≢ t → (m' n).prev ≡ (m n).prev
  pub selves : (n : ℕ) → (m' n).self ≡ (m n).self

pub Without-append : (a : ℕ) (xs ys : List ℕ) → Without a (xs ++ ys) → Without a xs × Without a ys
Without-append a [] ys w = (tt, w)
Without-append a (x ∷ xs) ys w =
    let r : Without a xs × Without a ys = Without-append a xs ys w.1 in ((w.0, r.0), r.1)

pub append-Without : (a : ℕ) (xs ys : List ℕ) → Without a xs → Without a ys → Without a (xs ++ ys)
append-Without a [] ys w w' = w'
append-Without a (x ∷ xs) ys w w' = (w.0, append-Without a xs ys w.1 w')

-- A node in the middle is none of those before it.
pub Distinct-before : (xs : List ℕ) (a : ℕ) (ys : List ℕ) → Distinct (xs ++ a ∷ ys) → Without a xs
Distinct-before [] a ys d = tt
Distinct-before (x ∷ xs) a ys d =
    let w : Without x (a ∷ ys) = (Without-append x xs (a ∷ ys) d.0).1 in
    (λ e. w.0 (sym e), Distinct-before xs a ys d.1)

pub Distinct-after : (xs ys : List ℕ) → Distinct (xs ++ ys) → Distinct ys
Distinct-after [] ys d = d
Distinct-after (x ∷ xs) ys d = Distinct-after xs ys d.1

pub Distinct-insert :
    (xs : List ℕ) (a t : ℕ) (ys : List ℕ)
    → Distinct (xs ++ a ∷ ys)
    → Without t (xs ++ a ∷ ys)
    → Distinct (xs ++ a ∷ t ∷ ys)
Distinct-insert [] a t ys d w = ((λ e. w.0 (sym e), d.0), (w.1, d.1))
Distinct-insert (x ∷ xs) a t ys d w =
    let p : Without x xs × Without x (a ∷ ys) = Without-append x xs (a ∷ ys) d.0 in
    (
      append-Without x xs (a ∷ t ∷ ys) p.0 (p.1.0, (λ e. w.0 (sym e), p.1.1)),
      Distinct-insert xs a t ys d.1 w.1,
    )

pub Distinct-remove_after :
    (xs : List ℕ) (a t : ℕ) (ys : List ℕ) → Distinct (xs ++ a ∷ t ∷ ys) → Distinct (xs ++ a ∷ ys)
Distinct-remove_after [] a t ys d = (d.0.1, d.1.1)
Distinct-remove_after (x ∷ xs) a t ys d =
    let p : Without x xs × Without x (a ∷ t ∷ ys) = Without-append x xs (a ∷ t ∷ ys) d.0 in
    (append-Without x xs (a ∷ ys) p.0 (p.1.0, p.1.1.1), Distinct-remove_after xs a t ys d.1)

pub Distinct-remove :
    (xs : List ℕ) (t : ℕ) (ys : List ℕ) → Distinct (xs ++ t ∷ ys) → Distinct (xs ++ ys)
Distinct-remove [] t ys d = d.1
Distinct-remove (x ∷ xs) t ys d =
    let p : Without x xs × Without x (t ∷ ys) = Without-append x xs (t ∷ ys) d.0 in
    (append-Without x xs ys p.0 p.1.1, Distinct-remove xs t ys d.1)

module _ {a b t : ℕ} {m m' : Memory} (s : Splices a b t m m') where
  -- The chain after the change.
  pub Linked-after :
      (x : ℕ) (rs : List ℕ)
      → x ≢ a
      → x ≢ t
      → Without a rs
      → Without b rs
      → Without t rs
      → Linked m (x ∷ rs)
      → Linked m' (x ∷ rs)
  Linked-after x [] xa xt wa wb wt l = s.nexts x xa xt ∙ l
  Linked-after x (y ∷ rs) xa xt wa wb wt l = (
    s.nexts x xa xt ∙ l.0,
    s.prevs y wb.0 wt.0 ∙ l.1,
    Linked-after y rs wa.0 wt.0 wa.1 wb.1 wt.1 l.2,
  )

  -- The chain before it, and what follows.
  pub Linked-splice :
      (is r1 r2 : List ℕ)
      → a ≢ b
      → a ≢ t
      → Without a is
      → Without b is
      → Without t is
      → Linked m (is ++ a ∷ r1)
      → Linked m' (a ∷ r2)
      → Linked m' (is ++ a ∷ r2)
  Linked-splice [] r1 r2 ab at wa wb wt l l' = l'
  Linked-splice (x ∷ []) r1 r2 ab at wa wb wt l l' =
      (s.nexts x wa.0 wt.0 ∙ l.0, s.prevs a ab at ∙ l.1, l')
  Linked-splice (x ∷ y ∷ is) r1 r2 ab at wa wb wt l l' = (
    s.nexts x wa.0 wt.0 ∙ l.0,
    s.prevs y wb.1.0 wt.1.0 ∙ l.1,
    Linked-splice (y ∷ is) r1 r2 ab at wa.1 wb.1 wt.1 l.2 l',
  )

-- The part of a chain from a node on.
pub Linked-from : (m : Memory) (is : List ℕ) (r : List ℕ) → Linked m (is ++ r) → Linked m r
Linked-from m [] r l = l
Linked-from m (x ∷ []) [] l = tt
Linked-from m (x ∷ []) (y ∷ r) l = l.2
Linked-from m (x ∷ y ∷ is) r l = Linked-from m (y ∷ is) r l.2

-- No node points back from the first.
abbrev pub First : Memory → List ℕ → Type 0
First m [] = Unit
First m (x ∷ xs) = (m x).prev ≡ none

pub record IsChain (m : Memory) (ns : List ℕ) : Type 0 where
  pub first : First m ns
  pub linked : Linked m ns
  pub distinct : Distinct ns
