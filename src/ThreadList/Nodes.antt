-- ===== src/ThreadList/Nodes.antt =====
-- What the internal functions of src/kern/thread/threadlist.c do to the nodes.
use ed_operating_system.Prelude.{
  ℕ, ◌≡◌, ◌≢◌, sym, ap, Option, none, some, ◌==◌, ==-ne, ==_refl, if◌then◌else◌, Returns,
  Bool-cases, inl, inr, ==_iff,
}
use ed_operating_system.ThreadList.{
  Memory, set_prev, set_next, insertafternode, insertbeforenode, removenode,
}
use ed_operating_system.ThreadList.Chains.{Splices}

-- A node that is on no list.
pub record IsLoose (m : Memory) (t : ℕ) : Type 0 where
  pub prev : (m t).prev ≡ none
  pub next : (m t).next ≡ none
  pub self : (m t).self ≡ some t

-- The node `t` was put between `a` and `b`.
pub record Inserts (a b t : ℕ) (m m' : Memory) : Type 0 where
  pub splices : Splices a b t m m'
  pub next_a : (m' a).next ≡ some t
  pub prev_t : (m' t).prev ≡ some a
  pub next_t : (m' t).next ≡ some b
  pub prev_b : (m' b).prev ≡ some t

-- The node `t` was taken out from between `a` and `b`.
pub record Removes (a b t : ℕ) (m m' : Memory) : Type 0 where
  pub splices : Splices a b t m m'
  pub next_a : (m' a).next ≡ some b
  pub prev_b : (m' b).prev ≡ some a
  pub prev_t : (m' t).prev ≡ none
  pub next_t : (m' t).next ≡ none

module _ (m : Memory) (a : ℕ) (p : Option ℕ) (n : ℕ) where
  next-set_next : (set_next m a p n).next ≡ (if a == n then p else (m n).next)
  unfolding set_next
  next-set_next = elim (Bool-cases (a == n)) [ inl e ↦ rw e | inr d ↦ rw d ]

  prev-set_prev : (set_prev m a p n).prev ≡ (if a == n then p else (m n).prev)
  unfolding set_prev
  prev-set_prev = elim (Bool-cases (a == n)) [ inl e ↦ rw e | inr d ↦ rw d ]

  prev-set_next : (set_next m a p n).prev ≡ (m n).prev
  unfolding set_next
  prev-set_next = elim (Bool-cases (a == n)) [
    | inl e ↦ rw e (ap (λ x. (m x).prev) ((==_iff a n).0 e))
    | inr d ↦ rw d
  ]

  next-set_prev : (set_prev m a p n).next ≡ (m n).next
  unfolding set_prev
  next-set_prev = elim (Bool-cases (a == n)) [
    | inl e ↦ rw e (ap (λ x. (m x).next) ((==_iff a n).0 e))
    | inr d ↦ rw d
  ]

  self-set_next : (set_next m a p n).self ≡ (m n).self
  unfolding set_next
  self-set_next = elim (Bool-cases (a == n)) [
    | inl e ↦ rw e (ap (λ x. (m x).self) ((==_iff a n).0 e))
    | inr d ↦ rw d
  ]

  self-set_prev : (set_prev m a p n).self ≡ (m n).self
  unfolding set_prev
  self-set_prev = elim (Bool-cases (a == n)) [
    | inl e ↦ rw e (ap (λ x. (m x).self) ((==_iff a n).0 e))
    | inr d ↦ rw d
  ]

ruleset stores =
    (next-set_next, prev-set_prev, prev-set_next, next-set_prev, self-set_next, self-set_prev)

module _ (m : Memory) {a b t : ℕ} (ab : a ≢ b) (at : a ≢ t) (bt : b ≢ t) where
  -- What the two insertions leave.
  inserted-Inserts :
      Inserts a b t m
        (set_prev (set_next (set_next (set_prev m t (some a)) t (some b)) a (some t)) b (some t))
  inserted-Inserts = record {
    splices = record {
      nexts = λ n na nt. simp (stores, ==-ne a n (λ e. na (sym e)), ==-ne t n (λ e. nt (sym e)));
      prevs = λ n nb nt. simp (stores, ==-ne b n (λ e. nb (sym e)), ==-ne t n (λ e. nt (sym e)));
      selves = λ n. simp stores;
    };
    next_a = simp (stores, ==_refl a);
    prev_t = simp (stores, ==-ne b t bt, ==_refl t);
    next_t = simp (stores, ==-ne a t at, ==_refl t);
    prev_b = simp (stores, ==_refl b);
  }

  removed-Removes :
      Removes a b t m
        (set_next (set_prev (set_prev (set_next m a (some b)) b (some a)) t none) t none)
  removed-Removes = record {
    splices = record {
      nexts = λ n na nt. simp (stores, ==-ne a n (λ e. na (sym e)), ==-ne t n (λ e. nt (sym e)));
      prevs = λ n nb nt. simp (stores, ==-ne b n (λ e. nb (sym e)), ==-ne t n (λ e. nt (sym e)));
      selves = λ n. simp stores;
    };
    next_a = simp (stores, ==_refl a, ==-ne t a (λ e. at (sym e)));
    prev_b = simp (stores, ==_refl b, ==-ne t b (λ e. bt (sym e)));
    prev_t = simp (stores, ==_refl t);
    next_t = simp (stores, ==_refl t);
  }

  -- threadlist_insertafternode puts a node that is on no list between a node and the next.
  pub insertafternode_lem :
      IsLoose m t → (m a).next ≡ some b → Returns (Inserts a b t m) (insertafternode m a t)
  unfolding insertafternode
  insertafternode_lem l n =
      let after : (set_prev m t (some a) a).next ≡ some b = simp (stores, n) in
      let m2 : Memory = set_next (set_prev m t (some a)) t (some b) in
      let back : (m2 t).prev ≡ some a = simp (stores, ==_refl t) in
      let on : (set_next m2 a (some t) t).next ≡ some b = simp (stores, ==-ne a t at, ==_refl t) in
      rw (l.prev, l.next, after, back, on) inserted-Inserts

  pub insertbeforenode_lem :
      IsLoose m t → (m b).prev ≡ some a → Returns (Inserts a b t m) (insertbeforenode m t b)
  unfolding insertbeforenode
  insertbeforenode_lem l p =
      let m2 : Memory = set_next (set_prev m t (some a)) t (some b) in
      let back : (m2 t).prev ≡ some a = simp (stores, ==_refl t) in
      let on : (set_next m2 a (some t) t).next ≡ some b = simp (stores, ==-ne a t at, ==_refl t) in
      rw (l.prev, l.next, p, back, on) inserted-Inserts

  -- threadlist_removenode takes out a node between two others.
  pub removenode_lem :
      (m t).prev ≡ some a → (m t).next ≡ some b → Returns (Removes a b t m) (removenode m t)
  unfolding removenode
  removenode_lem p n =
      let m1 : Memory = set_next m a (some b) in
      let on : (m1 t).next ≡ some b = simp (stores, ==-ne a t at, n) in
      let back : (m1 t).prev ≡ some a = simp (stores, p) in rw (p, n, on, back) removed-Removes
