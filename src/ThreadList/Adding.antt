-- ===== src/ThreadList/Adding.antt =====
-- threadlist_addhead, threadlist_addtail, threadlist_insertafter and threadlist_insertbefore of
-- src/kern/thread/threadlist.c.
use mathlib.Core.List.{append_assoc, append-nil}
use ed_operating_system.Prelude.{
  ℕ, ◌+◌, ◌^◌, ◌<◌, ◌≡◌, ◌≢◌, subst, some, List, [], ◌∷◌, ◌++◌, length, Returns, Returns->>=,
}
use ed_operating_system.ThreadList.{
  Memory, ThreadList, insertafternode, insertbeforenode, addhead, addtail, insertafter,
  insertbefore,
}
use ed_operating_system.ThreadList.Chains.{Without, Without-append, IsChain}
use ed_operating_system.ThreadList.Nodes.{
  IsLoose, Inserts, insertafternode_lem, insertbeforenode_lem,
}
use ed_operating_system.ThreadList.Places.{last_of-snoc, neighbours}
use ed_operating_system.ThreadList.Laws.{
  IsList, nodes, AddPost, before, behind, start, finish, place, insert_here,
}

module _ (m : Memory) (tl : ThreadList) (ys zs : List ℕ) where
  -- The neighbours at a place.
  neighbours_here :
      IsList m tl (ys ++ zs)
      → ((m (before tl ys zs)).next ≡ some (behind tl ys zs))
        × ((m (behind tl ys zs)).prev ≡ some (before tl ys zs))
        × (before tl ys zs ≢ behind tl ys zs)
  neighbours_here l =
      neighbours m m (start tl ys zs) (finish tl ys zs) (before tl ys zs) (behind tl ys zs) 0
        (subst (IsChain m) (place tl ys zs []) l.chain)

  module _ (t : ℕ) (l : IsList m tl (ys ++ zs)) (room : length (ys ++ zs) + 1 < 2 ^ 32)
      (loose : IsLoose m t) (w : Without t (nodes tl (ys ++ zs))) where
    apart : (before tl ys zs ≢ t) × (behind tl ys zs ≢ t)
    apart =
        let r : Without t (before tl ys zs ∷ behind tl ys zs ∷ finish tl ys zs) =
          (Without-append t (start tl ys zs) (before tl ys zs ∷ behind tl ys zs ∷ finish tl ys zs)
            (subst (Without t) (place tl ys zs []) w)).1 in
        (r.0, r.1.0)

    pub add_after :
        Returns (AddPost m tl (ys ++ zs) t (ys ++ t ∷ zs)) (insertafter m tl (before tl ys zs) t)
    unfolding insertafter
    add_after =
        let n : ((m (before tl ys zs)).next ≡ some (behind tl ys zs))
            × ((m (behind tl ys zs)).prev ≡ some (before tl ys zs))
            × (before tl ys zs ≢ behind tl ys zs) =
          neighbours_here l in
        Returns->>= (Inserts (before tl ys zs) (behind tl ys zs) t m)
          (AddPost m tl (ys ++ zs) t (ys ++ t ∷ zs)) (insertafternode m (before tl ys zs) t) _
          (insertafternode_lem m n.2 apart.0 apart.1 loose n.0)
          (λ m1 i. insert_here tl ys zs l room loose w i)

    pub add_before :
        Returns (AddPost m tl (ys ++ zs) t (ys ++ t ∷ zs)) (insertbefore m tl t (behind tl ys zs))
    unfolding insertbefore
    add_before =
        let n : ((m (before tl ys zs)).next ≡ some (behind tl ys zs))
            × ((m (behind tl ys zs)).prev ≡ some (before tl ys zs))
            × (before tl ys zs ≢ behind tl ys zs) =
          neighbours_here l in
        Returns->>= (Inserts (before tl ys zs) (behind tl ys zs) t m)
          (AddPost m tl (ys ++ zs) t (ys ++ t ∷ zs)) (insertbeforenode m t (behind tl ys zs)) _
          (insertbeforenode_lem m n.2 apart.0 apart.1 loose n.1)
          (λ m1 i. insert_here tl ys zs l room loose w i)

-- threadlist_addhead of a thread that is on no list puts it before the threads of the list, which are fewer
-- than 2^32 - 1; no assertion fails, and no node of another list changes.
pub addhead_lem :
    (m : Memory) (tl : ThreadList) (xs : List ℕ) (t : ℕ)
    → IsList m tl xs
    → length xs + 1 < 2 ^ 32
    → IsLoose m t
    → Without t (nodes tl xs)
    → Returns (AddPost m tl xs t (t ∷ xs)) (addhead m tl t)
unfolding addhead insertafter
addhead_lem m tl xs t l room loose w = add_after m tl [] xs t l room loose w

-- threadlist_addtail of a thread that is on no list puts it behind the threads of the list, which are fewer
-- than 2^32 - 1; no assertion fails, and no node of another list changes.
pub addtail_lem :
    (m : Memory) (tl : ThreadList) (xs : List ℕ) (t : ℕ)
    → IsList m tl xs
    → length xs + 1 < 2 ^ 32
    → IsLoose m t
    → Without t (nodes tl xs)
    → Returns (AddPost m tl xs t (xs ++ t ∷ [])) (addtail m tl t)
unfolding addtail insertbefore
addtail_lem m tl xs t l room loose w =
    subst (λ r. Returns (AddPost m tl r t (xs ++ t ∷ [])) (insertbefore m tl t tl.tail))
      (append-nil xs)
      (add_before m tl xs [] t (rw (append-nil xs) l) (rw (append-nil xs) room) loose
        (rw (append-nil xs) w))

-- threadlist_insertafter of a thread that is on no list puts it right behind the given thread of the list,
-- which has fewer than 2^32 - 1 threads; no assertion fails, and no node of another list changes.
pub insertafter_lem :
    (m : Memory) (tl : ThreadList) (ys : List ℕ) (a : ℕ) (zs : List ℕ) (t : ℕ)
    → IsList m tl (ys ++ a ∷ zs)
    → length (ys ++ a ∷ zs) + 1 < 2 ^ 32
    → IsLoose m t
    → Without t (nodes tl (ys ++ a ∷ zs))
    → Returns (AddPost m tl (ys ++ a ∷ zs) t (ys ++ a ∷ t ∷ zs)) (insertafter m tl a t)
insertafter_lem m tl ys a zs t l room loose w =
    let e : ys ++ a ∷ [] ++ zs ≡ ys ++ a ∷ zs = append_assoc ys (a ∷ []) zs in
    let e' : ys ++ a ∷ [] ++ t ∷ zs ≡ ys ++ a ∷ t ∷ zs = append_assoc ys (a ∷ []) (t ∷ zs) in
    rw (e, e', last_of-snoc tl.head ys a) at
      (add_after m tl (ys ++ a ∷ []) zs t (rw e l) (rw e room) loose (rw e w))

-- threadlist_insertbefore of a thread that is on no list puts it right before the given thread of the list,
-- which has fewer than 2^32 - 1 threads; no assertion fails, and no node of another list changes.
pub insertbefore_lem :
    (m : Memory) (tl : ThreadList) (ys : List ℕ) (a : ℕ) (zs : List ℕ) (t : ℕ)
    → IsList m tl (ys ++ a ∷ zs)
    → length (ys ++ a ∷ zs) + 1 < 2 ^ 32
    → IsLoose m t
    → Without t (nodes tl (ys ++ a ∷ zs))
    → Returns (AddPost m tl (ys ++ a ∷ zs) t (ys ++ t ∷ a ∷ zs)) (insertbefore m tl t a)
insertbefore_lem m tl ys a zs t l room loose w = add_before m tl ys (a ∷ zs) t l room loose w
