-- ===== src/ThreadList/Laws.antt =====
-- src/kern/thread/threadlist.c against lists of threads: what putting a node in
-- or taking one out does to the list.
use mathlib.Core.List.{append_assoc}
use ed_operating_system.Prelude.{
  ℕ, ◌+◌, ◌-◌, ◌^◌, ◌<◌, ◌≡◌, ◌≢◌, sym, ◌∙◌, ap, subst, some, List, [], ◌∷◌, ◌++◌, length,
  length-append, All, arith,
}
use ed_operating_system.ThreadList.{Memory, ThreadList, counted}
use ed_operating_system.ThreadList.Chains.{Without, Without-append, IsChain, Splices}
use ed_operating_system.ThreadList.Nodes.{IsLoose, Inserts, Removes}
use ed_operating_system.ThreadList.Places.{
  last_of, init_of, first_of, rest_of, split_last, split_first, insert-IsChain, remove-IsChain,
}

abbrev pub IsSelf : Memory → ℕ → Type 0
IsSelf m t = (m t).self ≡ some t

-- The nodes of a list, with those at the ends.
abbrev pub nodes : ThreadList → List ℕ → List ℕ
nodes tl xs = tl.head ∷ (xs ++ tl.tail ∷ [])

-- A thread list that holds the threads `xs`.
pub record IsList (m : Memory) (tl : ThreadList) (xs : List ℕ) : Type 0 where
  pub chain : IsChain m (nodes tl xs)
  pub selves : All (IsSelf m) xs
  pub small : length xs < 2 ^ 32
  pub count : tl.count ≡ length xs

-- The nodes that are not on the list, but for one thread's, are as before.
abbrev pub Elsewhere : ThreadList → List ℕ → ℕ → Memory → Memory → Type 0
Elsewhere tl xs t m m' =
    (n : ℕ)
    → Without n (nodes tl xs)
    → n ≢ t
    → ((m' n).prev ≡ (m n).prev) × ((m' n).next ≡ (m n).next) × ((m' n).self ≡ (m n).self)

All-insert :
    (P : ℕ → Type 0) (ys : List ℕ) (t : ℕ) (zs : List ℕ)
    → All P (ys ++ zs)
    → P t
    → All P (ys ++ t ∷ zs)
All-insert P [] t zs h p = (p, h)
All-insert P (y ∷ ys) t zs h p = (h.0, All-insert P ys t zs h.1 p)

All-delete :
    (P : ℕ → Type 0) (ys : List ℕ) (t : ℕ) (zs : List ℕ)
    → All P (ys ++ t ∷ zs)
    → All P (ys ++ zs) × P t
All-delete P [] t zs h = (h.1, h.0)
All-delete P (y ∷ ys) t zs h =
    let r : All P (ys ++ zs) × P t = All-delete P ys t zs h.1 in ((h.0, r.0), r.1)

All-imp : (P Q : ℕ → Type 0) → ((x : ℕ) → P x → Q x) → (xs : List ℕ) → All P xs → All Q xs
All-imp P Q f [] h = tt
All-imp P Q f (x ∷ xs) h = (f x h.0, All-imp P Q f xs h.1)

-- The result of an insertion that makes the list hold `xs'`.
abbrev pub AddPost : Memory → ThreadList → List ℕ → ℕ → List ℕ → Memory × ThreadList → Type 0
AddPost m tl xs t xs' (m', tl') = IsList m' tl' xs' × Elsewhere tl xs t m m'

-- A place in the list: after `ys`, before `zs`.
module _ (tl : ThreadList) (ys zs : List ℕ) where
  abbrev pub before : ℕ
  before = last_of tl.head ys

  abbrev pub behind : ℕ
  behind = first_of zs tl.tail

  abbrev pub start : List ℕ
  start = init_of tl.head ys

  abbrev pub finish : List ℕ
  finish = rest_of zs tl.tail

  pub place :
      (ms : List ℕ) → nodes tl (ys ++ (ms ++ zs)) ≡ start ++ before ∷ (ms ++ behind ∷ finish)
  place ms =
      ap (λ r. tl.head ∷ r)
        (append_assoc ys (ms ++ zs) (tl.tail ∷ [])
          ∙ ap (λ r. ys ++ r) (append_assoc ms zs (tl.tail ∷ []))
          ∙ ap (λ r. ys ++ (ms ++ r)) (split_first zs tl.tail))
      ∙ split_last tl.head ys (ms ++ behind ∷ finish)

  elsewhere :
      {m m' : Memory} {t : ℕ} (ms : List ℕ)
      → Splices before behind t m m'
      → Elsewhere tl (ys ++ (ms ++ zs)) t m m'
  elsewhere {m} {m'} {t} ms s n w nt =
      let w' : Without n (start ++ before ∷ (ms ++ behind ∷ finish)) =
        subst (Without n) (place ms) w in
      let wa : Without n (before ∷ (ms ++ behind ∷ finish)) =
        (Without-append n start (before ∷ (ms ++ behind ∷ finish)) w').1 in
      let wb : Without n (behind ∷ finish) = (Without-append n ms (behind ∷ finish) wa.1).1 in
      (s.prevs n (λ e. wb.0 (sym e)) nt, s.nexts n (λ e. wa.0 (sym e)) nt, s.selves n)

  pub insert_here :
      {m m' : Memory} {t : ℕ}
      → IsList m tl (ys ++ zs)
      → length (ys ++ zs) + 1 < 2 ^ 32
      → IsLoose m t
      → Without t (nodes tl (ys ++ zs))
      → Inserts before behind t m m'
      → AddPost m tl (ys ++ zs) t (ys ++ t ∷ zs) (m', counted tl)
  insert_here {m} {m'} {t} l room loose w i = (
    record {
      chain = subst (IsChain m') (sym (place (t ∷ []))) (
          insert-IsChain m m' start finish before behind t (subst (IsChain m) (place []) l.chain)
            (subst (Without t) (place []) w) i);
      selves =
          All-insert (IsSelf m') ys t zs
            (All-imp (IsSelf m) (IsSelf m') (λ x e. i.splices.selves x ∙ e) (ys ++ zs) l.selves)
            (i.splices.selves t ∙ loose.self);
      small = omega (arith, length-append ys zs, length-append ys (t ∷ zs));
      count = omega (arith, length-append ys zs, length-append ys (t ∷ zs), l.count);
    },
    elsewhere [] i.splices,
  )

  -- The result of a removal of `t` from here.
  abbrev pub RemovePost : Memory → ℕ → Memory × ThreadList → Type 0
  RemovePost m t (m', tl') =
      IsList m' tl' (ys ++ zs) × IsLoose m' t × Elsewhere tl (ys ++ t ∷ zs) t m m'

  pub remove_here :
      {m m' : Memory} {t : ℕ}
      → IsList m tl (ys ++ t ∷ zs)
      → Removes before behind t m m'
      → RemovePost m t (m', record tl { count = tl.count - 1 })
  remove_here {m} {m'} {t} l i =
      let selves : All (IsSelf m) (ys ++ zs) × IsSelf m t =
        All-delete (IsSelf m) ys t zs l.selves in
      (
        record {
          chain = subst (IsChain m') (sym (place [])) (
              remove-IsChain m m' start finish before behind t
                (subst (IsChain m) (place (t ∷ [])) l.chain) i);
          selves =
              All-imp (IsSelf m) (IsSelf m') (λ x e. i.splices.selves x ∙ e) (ys ++ zs) selves.0;
          small = omega (arith, length-append ys zs, length-append ys (t ∷ zs), l.small);
          count = omega (arith, length-append ys zs, length-append ys (t ∷ zs), l.count);
        },
        record { prev = i.prev_t; next = i.next_t; self = i.splices.selves t ∙ selves.1 },
        elsewhere (t ∷ []) i.splices,
      )
