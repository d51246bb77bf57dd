-- ===== src/ThreadList/Places.antt =====
-- Putting a node into a chain of src/kern/thread/threadlist.c and taking one out.
use ed_operating_system.Prelude.{ℕ, ◌≡◌, ◌≢◌, sym, ◌∙◌, refl, ap, some, List, [], ◌∷◌, ◌++◌}
use ed_operating_system.ThreadList.{Memory}
use ed_operating_system.ThreadList.Chains.{
  Linked, Without, Distinct, Splices, Without-append, Distinct-before, Distinct-after,
  Distinct-insert, Distinct-remove, Distinct-remove_after, Linked-after, Linked-splice, Linked-from,
  First, IsChain,
}
use ed_operating_system.ThreadList.Nodes.{Inserts, Removes}

-- The node before the end of a list, and what is before it; the node after the start.
abbrev pub last_of : ℕ → List ℕ → ℕ
last_of x [] = x
last_of x (y ∷ ys) = last_of y ys

abbrev pub init_of : ℕ → List ℕ → List ℕ
init_of x [] = []
init_of x (y ∷ ys) = x ∷ init_of y ys

abbrev pub first_of : List ℕ → ℕ → ℕ
first_of [] e = e
first_of (z ∷ zs) e = z

abbrev pub rest_of : List ℕ → ℕ → List ℕ
rest_of [] e = []
rest_of (z ∷ zs) e = zs ++ e ∷ []

pub split_last : (x : ℕ) (ys r : List ℕ) → x ∷ (ys ++ r) ≡ init_of x ys ++ last_of x ys ∷ r
split_last x [] r = refl
split_last x (y ∷ ys) r = ap (λ t. x ∷ t) (split_last y ys r)

pub split_first : (zs : List ℕ) (e : ℕ) → zs ++ e ∷ [] ≡ first_of zs e ∷ rest_of zs e
split_first [] e = refl
split_first (z ∷ zs) e = refl

pub last_of-snoc : (x : ℕ) (ys : List ℕ) (a : ℕ) → last_of x (ys ++ a ∷ []) ≡ a
last_of-snoc x [] a = refl
last_of-snoc x (y ∷ ys) a = last_of-snoc y ys a

module _ (m m' : Memory) (is rs : List ℕ) (a b t : ℕ) where
  -- Two neighbours.
  pub neighbours :
      IsChain m (is ++ a ∷ b ∷ rs) → ((m a).next ≡ some b) × ((m b).prev ≡ some a) × (a ≢ b)
  neighbours c =
      let r : Linked m (a ∷ b ∷ rs) = Linked-from m is (a ∷ b ∷ rs) c.linked in
      let d : Distinct (a ∷ b ∷ rs) = Distinct-after is (a ∷ b ∷ rs) c.distinct in
      (r.0, r.1, λ e. d.0.0 (sym e))

  First-splice :
      (r1 r2 : List ℕ)
      → Splices a b t m m'
      → a ≢ b
      → a ≢ t
      → Without b is
      → Without t is
      → First m (is ++ a ∷ r1)
      → First m' (is ++ a ∷ r2)
  First-splice r1 r2 s ab at wb wt f = go is wb wt f
    where
      go :
          (is : List ℕ)
          → Without b is
          → Without t is
          → First m (is ++ a ∷ r1)
          → First m' (is ++ a ∷ r2)
      go [] wb wt f = s.prevs a ab at ∙ f
      go (x ∷ is) wb wt f = s.prevs x wb.0 wt.0 ∙ f

  pub insert-IsChain :
      IsChain m (is ++ a ∷ b ∷ rs)
      → Without t (is ++ a ∷ b ∷ rs)
      → Inserts a b t m m'
      → IsChain m' (is ++ a ∷ t ∷ b ∷ rs)
  insert-IsChain c w i =
      let wt : Without t is × Without t (a ∷ b ∷ rs) = Without-append t is (a ∷ b ∷ rs) w in
      let d : Distinct (a ∷ b ∷ rs) = Distinct-after is (a ∷ b ∷ rs) c.distinct in
      let wb : Without b is = Distinct-before is b rs (Distinct-remove is a (b ∷ rs) c.distinct) in
      let wa : Without a is = Distinct-before is a (b ∷ rs) c.distinct in
      let ab : a ≢ b = λ e. d.0.0 (sym e) in
      record {
        first = First-splice (b ∷ rs) (t ∷ b ∷ rs) i.splices ab wt.1.0 wb wt.0 c.first;
        linked = Linked-splice i.splices is (b ∷ rs) (t ∷ b ∷ rs) ab wt.1.0 wa wb wt.0 c.linked (
          i.next_a,
          i.prev_t,
          (
            i.next_t,
            i.prev_b,
            Linked-after i.splices b rs d.0.0 wt.1.1.0 d.0.1 d.1.0 wt.1.1.1
                (Linked-from m is (a ∷ b ∷ rs) c.linked).2,
          ),
        );
        distinct = Distinct-insert is a t (b ∷ rs) c.distinct w;
      }

  pub remove-IsChain :
      IsChain m (is ++ a ∷ t ∷ b ∷ rs) → Removes a b t m m' → IsChain m' (is ++ a ∷ b ∷ rs)
  remove-IsChain c i =
      let d : Distinct (a ∷ t ∷ b ∷ rs) = Distinct-after is (a ∷ t ∷ b ∷ rs) c.distinct in
      let da : Distinct (is ++ t ∷ b ∷ rs) = Distinct-remove is a (t ∷ b ∷ rs) c.distinct in
      let wt : Without t is = Distinct-before is t (b ∷ rs) da in
      let wb : Without b is = Distinct-before is b rs (Distinct-remove is t (b ∷ rs) da) in
      let wa : Without a is = Distinct-before is a (t ∷ b ∷ rs) c.distinct in
      let ab : a ≢ b = λ e. d.0.1.0 (sym e) in
      let at : a ≢ t = λ e. d.0.0 (sym e) in
      record {
        first = First-splice (t ∷ b ∷ rs) (b ∷ rs) i.splices ab at wb wt c.first;
        linked = Linked-splice i.splices is (t ∷ b ∷ rs) (b ∷ rs) ab at wa wb wt c.linked (
          i.next_a,
          i.prev_b,
          Linked-after i.splices b rs d.0.1.0 d.1.0.0 d.0.1.1 d.1.1.0 d.1.0.1
              (Linked-from m is (a ∷ t ∷ b ∷ rs) c.linked).2.2,
        );
        distinct = Distinct-remove_after is a t (b ∷ rs) c.distinct;
      }
