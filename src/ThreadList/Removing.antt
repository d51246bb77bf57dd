-- ===== src/ThreadList/Removing.antt =====
-- threadlist_remove, threadlist_remhead and threadlist_remtail of src/kern/thread/threadlist.c.
use ed_operating_system.Prelude.{
  ℕ, ◌<◌, ◌≡◌, ◌≢◌, sym, ◌∙◌, refl, subst, Option, none, some, List, [], ◌∷◌, ◌++◌, length-append,
  lt→ltb, ◌>>=◌, Returns, Returns->>=, Returns-imp, arith,
}
use ed_operating_system.ThreadList.{
  Memory, ThreadList, removenode, discounted, remhead, remtail, remove,
}
use ed_operating_system.ThreadList.Chains.{Linked, Linked-from, Distinct, Distinct-after, IsChain}
use ed_operating_system.ThreadList.Nodes.{Removes, removenode_lem}
use ed_operating_system.ThreadList.Laws.{
  IsList, RemovePost, before, behind, start, finish, place, remove_here,
}

module _ (m : Memory) (tl : ThreadList) (ys : List ℕ) (t : ℕ) (zs : List ℕ)
    (l : IsList m tl (ys ++ t ∷ zs)) where
  -- The node between its neighbours.
  around :
      ((m t).prev ≡ some (before tl ys zs))
      × ((m t).next ≡ some (behind tl ys zs))
      × (before tl ys zs ≢ behind tl ys zs)
      × (before tl ys zs ≢ t)
      × (behind tl ys zs ≢ t)
      × ((m (behind tl ys zs)).prev ≡ some t)
  around =
      let c : IsChain m
          (start tl ys zs ++ before tl ys zs ∷ t ∷ behind tl ys zs ∷ finish tl ys zs) =
        subst (IsChain m) (place tl ys zs (t ∷ [])) l.chain in
      let r : Linked m (before tl ys zs ∷ t ∷ behind tl ys zs ∷ finish tl ys zs) =
        Linked-from m (start tl ys zs) (before tl ys zs ∷ t ∷ behind tl ys zs ∷ finish tl ys zs)
          c.linked in
      let d : Distinct (before tl ys zs ∷ t ∷ behind tl ys zs ∷ finish tl ys zs) =
        Distinct-after (start tl ys zs) (before tl ys zs ∷ t ∷ behind tl ys zs ∷ finish tl ys zs)
          c.distinct in
      (r.1, r.2.0, λ e. d.0.1.0 (sym e), λ e. d.0.0 (sym e), d.1.0.0, r.2.1)

  -- What takes the node out gives what it finds there then.
  removed :
      {A : Type 0} (f : Memory → A)
      → Returns
          (λ r. RemovePost tl ys zs m t (r.1, r.2) × (r.0 ≡ f r.1))
          (removenode m t >>= λ m1. discounted (f m1) tl m1)
  removed f =
      let has : 0 < tl.count = omega (arith, l.count, length-append ys (t ∷ zs)) in
      let n : ((m t).prev ≡ some (before tl ys zs))
          × ((m t).next ≡ some (behind tl ys zs))
          × (before tl ys zs ≢ behind tl ys zs)
          × (before tl ys zs ≢ t)
          × (behind tl ys zs ≢ t)
          × ((m (behind tl ys zs)).prev ≡ some t) =
        around in
      Returns->>= (Removes (before tl ys zs) (behind tl ys zs) t m)
        (λ r. RemovePost tl ys zs m t (r.1, r.2) × (r.0 ≡ f r.1)) (removenode m t) _
        (removenode_lem m n.2 n.3 n.4 n.0 n.1)
        (λ m1 i. rw (lt→ltb 0 tl.count has) (remove_here tl ys zs l i, refl))

-- threadlist_remove of a thread takes it out of the list that holds it, wherever it stands; its node is
-- free for another list afterwards. No assertion fails, and no node of another list changes.
pub remove_lem :
    (m : Memory) (tl : ThreadList) (ys : List ℕ) (t : ℕ) (zs : List ℕ)
    → IsList m tl (ys ++ t ∷ zs)
    → Returns (λ r. RemovePost tl ys zs m t (r.1, r.2)) (remove m tl t)
unfolding remove
remove_lem m tl ys t zs l =
    Returns-imp (λ r. RemovePost tl ys zs m t (r.1, r.2) × (r.0 ≡ tt))
      (λ r. RemovePost tl ys zs m t (r.1, r.2)) (λ r h. h.0)
      (removenode m t >>= λ m1. discounted tt tl m1) (removed m tl ys t zs l (λ m1. tt))

-- The result of taking out the first thread.
abbrev pub RemheadPost : Memory → ThreadList → List ℕ → Option ℕ × Memory × ThreadList → Type 0
RemheadPost m tl [] (r, m', tl') = (r ≡ none) × (m' ≡ m) × (tl' ≡ tl)
RemheadPost m tl (x ∷ zs) (r, m', tl') = (r ≡ some x) × RemovePost tl [] zs m x (m', tl')

taken-self :
    (m : Memory) (tl : ThreadList) (ys : List ℕ) (t : ℕ) (zs : List ℕ)
    → IsList m tl (ys ++ t ∷ zs)
    → Returns
        (λ r. (r.0 ≡ some t) × RemovePost tl ys zs m t (r.1, r.2))
        (removenode m t >>= λ m1. discounted (m1 t).self tl m1)
taken-self m tl ys t zs l =
    Returns-imp (λ r. RemovePost tl ys zs m t (r.1, r.2) × (r.0 ≡ (r.1 t).self))
      (λ r. (r.0 ≡ some t) × RemovePost tl ys zs m t (r.1, r.2)) (λ r h. (h.1 ∙ h.0.1.self, h.0))
      (removenode m t >>= λ m1. discounted (m1 t).self tl m1)
      (removed m tl ys t zs l (λ m1. (m1 t).self))

-- threadlist_remhead takes out the first thread of a list and returns it; its node is free for another
-- list afterwards. Of an empty list it returns NULL and changes nothing. No assertion fails, and no node of
-- another list changes.
pub remhead_lem :
    (m : Memory) (tl : ThreadList) (xs : List ℕ)
    → IsList m tl xs
    → Returns (RemheadPost m tl xs) (remhead m tl)
unfolding remhead
remhead_lem m tl [] l = rw (l.chain.linked.0, l.chain.linked.2) (refl, refl, refl)
remhead_lem m tl (x ∷ zs) l =
    let n : (m x).next ≡ some (behind tl [] zs) = (around m tl [] x zs l).1 in
    rw (l.chain.linked.0, n) (taken-self m tl [] x zs l)

-- threadlist_remtail takes out the last thread of a list and returns it; its node is free for another list
-- afterwards. No assertion fails, and no node of another list changes.
pub remtail_lem :
    (m : Memory) (tl : ThreadList) (ys : List ℕ) (x : ℕ)
    → IsList m tl (ys ++ x ∷ [])
    → Returns (λ r. (r.0 ≡ some x) × RemovePost tl ys [] m x (r.1, r.2)) (remtail m tl)
unfolding remtail
remtail_lem m tl ys x l =
    let n : (m x).prev ≡ some (before tl ys []) = (around m tl ys x [] l).0 in
    let at_end : (m tl.tail).prev ≡ some x = (around m tl ys x [] l).5 in
    rw (at_end, n) (taken-self m tl ys x [] l)
