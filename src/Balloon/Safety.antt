-- ===== src/Balloon/Safety.antt =====
-- What holds in every state that the threads of src/kern/synchprobs/airballoon.c reach.
use mathlib.Core.Option.{some-injective, some-ne-none}
use ed_operating_system.Prelude.{
  ℕ, zero, suc, [], ◌∷◌, ◌%◌, ◌<◌, ◌≤◌, ◌≡◌, ◌≢◌, refl, sym, ◌∙◌, ap, subst, true, false, not, ◌&&◌,
  Option, none, some, List, get_or, set, All, All-set, All-get_or, ◌==◌, if◌then◌else◌, ==_iff,
  ==_refl, Bool-cases, inl, inr, arith,
}
use ed_operating_system.Balloon.{
  Role, Place, World, nropes, first_lock, second_lock, same_thread, is_free, go, with_lock, acquire,
  decrement, start_round, can_exchange, still_there, none_left, step_at, initial, identity_below,
  Reachable,
}
use ed_operating_system.Balloon.Counting.{count_below, count_below-le, count_below-zero}
use ed_operating_system.Balloon.Invariant.{holds, is_severing, Sane, counted, Inv}
use ed_operating_system.Balloon.Steps.{stays, acquired, released}
use ed_operating_system.Balloon.Ropes.{severs, counts}

returned : {a w' : World} → some a ≡ some w' → Inv a → Inv w'
returned {a} {w'} s i = subst Inv (some-injective a w' s) i

nothing : {w' : World} → none ≡ some w' → Inv w'
nothing {w'} s = absurd (some-ne-none w' (sym s))

-- The two locks of two ropes are two.
locks_differ : (r1 r2 : ℕ) → r1 ≢ r2 → first_lock r1 r2 ≢ second_lock r1 r2
locks_differ r1 r2 ne e = ground (arith, ne, e)

module _ (w : World) (t : ℕ) (i : Inv w) (c1 c2 : ℕ) where
  -- A thread that goes on without a lock or a change of the ropes.
  goes :
      (q p : Place)
      → w.places t ≡ q
      → Sane p
      → ((x : ℕ) → holds p x ≡ holds q x)
      → ((x : ℕ) → is_severing p x ≡ false)
      → ((x : ℕ) → is_severing q x ≡ false)
      → Inv (go w t p)
  goes q p e sane same calm calm' =
      stays w t i q e p w.mappings w.threads_left i.stakes sane same calm calm'

  rope_at : (stake : ℕ) → get_or w.mappings stake 0 < nropes
  rope_at stake = All-get_or (λ r. r < nropes) w.mappings stake 0 i.stakes (omega arith)

  start-Inv : (role : Role) → w.places t ≡ Place.top → Inv (start_round role c1 c2 w t)
  unfolding holds is_severing
  start-Inv Role.dandelion e =
      goes Place.top (Place.aiming (c1 % nropes) none) e (omega arith) (λ x. refl) (λ x. refl)
        (λ x. refl)
  start-Inv Role.marigold e =
      goes Place.top (Place.aiming (get_or w.mappings (c1 % nropes) 0) (some (c1 % nropes))) e
        (rope_at (c1 % nropes)) (λ x. refl) (λ x. refl) (λ x. refl)
  start-Inv Role.flowerkiller e = elim (Bool-cases (c1 % nropes == c2 % nropes)) [
    | inl same ↦ rw same i
    | inr differ ↦ rw differ (
        goes Place.top
          (Place.reading (c1 % nropes) (c2 % nropes) (get_or w.mappings (c1 % nropes) 0)) e
          (rope_at (c1 % nropes)) (λ x. refl) (λ x. refl) (λ x. refl))
  ]
  start-Inv Role.balloon e = goes Place.top Place.checking e tt (λ x. refl) (λ x. refl) (λ x. refl)

  -- Where it takes a lock.
  acquire-Inv :
      (q : Place) (x : ℕ) (p : Place) (w' : World)
      → w.places t ≡ q
      → ((y : ℕ) → (if x == y then true else holds q y) ≡ holds p y)
      → Sane p
      → ((y : ℕ) → is_severing p y ≡ false)
      → ((y : ℕ) → is_severing q y ≡ false)
      → acquire w t x p ≡ some w'
      → Inv w'
  acquire-Inv q x p w' e mine sane calm calm' s = by_holder (w.locks x) refl s
    where
      by_holder :
          (h : Option ℕ)
          → w.locks x ≡ h
          → (if is_free h then some (go (with_lock w x (some t)) t p) else none) ≡ some w'
          → Inv w'
      by_holder none free s' = returned s' (acquired w t i q e x p free mine sane calm calm')
      by_holder (some u) taken s' = nothing s'

  step_at-Inv :
      (role : Role) (q : Place) (w' : World)
      → w.places t ≡ q
      → step_at role c1 c2 w t q ≡ some w'
      → Inv w'
  unfolding holds is_severing step_at
  step_at-Inv role Place.top w' e s = returned s (start-Inv role e)
  step_at-Inv role (Place.aiming rope stake) w' e s =
      acquire-Inv (Place.aiming rope stake) rope (Place.holding rope stake) w' e (λ y. ground arith)
        (subst Sane e (i.sane t)) (λ x. refl) (λ x. refl) s
  step_at-Inv role (Place.holding rope stake) w' e s =
      returned s
        (elim (Bool-cases (not (get_or w.severed rope false) && still_there w rope stake)) [
          | inl cuts ↦ rw cuts (severs w t i rope stake e (ground (cuts, arith)))
          | inr leaves ↦ rw leaves (
              goes (Place.holding rope stake) (Place.releasing rope) e tt (λ x. refl) (λ x. refl)
                (λ x. refl))
        ])
  step_at-Inv role (Place.severing rope) w' e s = returned s (counts w t i rope e)
  step_at-Inv role (Place.releasing rope) w' e s = returned s (
      released w t i (Place.releasing rope) e rope Place.checking (==_refl rope) (λ y. ground arith)
        tt (λ x. refl) (λ x. refl))
  step_at-Inv role Place.checking w' e s = returned s (elim (Bool-cases (none_left w.ropes_left)) [
    | inl over ↦
        rw over (goes Place.checking Place.leaving e tt (λ x. refl) (λ x. refl) (λ x. refl))
    | inr more ↦ rw more (goes Place.checking Place.top e tt (λ x. refl) (λ x. refl) (λ x. refl))
  ])
  step_at-Inv role (Place.reading stake1 stake2 rope1) w' e s = returned s (
      goes (Place.reading stake1 stake2 rope1)
        (Place.wanting stake1 stake2 rope1 (get_or w.mappings stake2 0)) e
        (subst Sane e (i.sane t), rope_at stake2) (λ x. refl) (λ x. refl) (λ x. refl))
  step_at-Inv role (Place.wanting stake1 stake2 rope1 rope2) w' e s =
      acquire-Inv (Place.wanting stake1 stake2 rope1 rope2) (first_lock rope1 rope2)
        (Place.half stake1 stake2 rope1 rope2) w' e (λ y. ground arith) (subst Sane e (i.sane t))
        (λ x. refl) (λ x. refl) s
  step_at-Inv role (Place.half stake1 stake2 rope1 rope2) w' e s =
      elim (Bool-cases (
        not (same_thread (w.locks (second_lock rope1 rope2)) t)
        && same_thread (w.locks (first_lock rope1 rope2)) t)) [
          | inl one ↦
              let sane : Sane (Place.half stake1 stake2 rope1 rope2) = subst Sane e (i.sane t) in
              acquire-Inv (Place.half stake1 stake2 rope1 rope2) (second_lock rope1 rope2)
                (Place.both stake1 stake2 rope1 rope2) w' e (λ y. ground arith)
                (
                  sane.0,
                  sane.1,
                  λ z.
                      let same : first_lock rope1 rope2 ≡ second_lock rope1 rope2 =
                        ground (arith, z) in
                      ground (one, ap (λ x. same_thread (w.locks x) t) same, arith),
                )
                (λ x. refl) (λ x. refl) (rw one at s)
          | inr other ↦ returned (rw other at s) (
              goes (Place.half stake1 stake2 rope1 rope2) (Place.releasing (first_lock rope1 rope2))
                e tt (λ x. refl) (λ x. refl) (λ x. refl))
        ]
  step_at-Inv role (Place.both stake1 stake2 rope1 rope2) w' e s = returned s (
      let sane : Sane (Place.both stake1 stake2 rope1 rope2) = subst Sane e (i.sane t) in
      elim (Bool-cases (can_exchange w stake1 stake2 rope1 rope2)) [
        | inl can ↦ rw can (
            goes (Place.both stake1 stake2 rope1 rope2)
              (Place.first_write stake1 stake2 rope1 rope2 (get_or w.mappings stake1 0)) e
              (rope_at stake1, sane.2) (λ x. refl) (λ x. refl) (λ x. refl))
        | inr cannot ↦ rw cannot (
            goes (Place.both stake1 stake2 rope1 rope2) (Place.unlocking rope1 rope2) e sane.2
              (λ x. refl) (λ x. refl) (λ x. refl))
      ])
  step_at-Inv role (Place.first_write stake1 stake2 rope1 rope2 temp) w' e s =
      let sane : Sane (Place.first_write stake1 stake2 rope1 rope2 temp) =
        subst Sane e (i.sane t) in
      returned s (
        stays w t i (Place.first_write stake1 stake2 rope1 rope2 temp) e
          (Place.second_write stake1 stake2 rope1 rope2 temp)
          (set w.mappings stake1 (get_or w.mappings stake2 0)) w.threads_left
          (All-set (λ r. r < nropes) w.mappings stake1 (get_or w.mappings stake2 0) i.stakes
            (rope_at stake2))
          sane (λ x. refl) (λ x. refl) (λ x. refl))
  step_at-Inv role (Place.second_write stake1 stake2 rope1 rope2 temp) w' e s =
      let sane : Sane (Place.second_write stake1 stake2 rope1 rope2 temp) =
        subst Sane e (i.sane t) in
      returned s (
        stays w t i (Place.second_write stake1 stake2 rope1 rope2 temp) e
          (Place.unlocking rope1 rope2) (set w.mappings stake2 temp) w.threads_left
          (All-set (λ r. r < nropes) w.mappings stake2 temp i.stakes sane.0) sane.1 (λ x. refl)
          (λ x. refl) (λ x. refl))
  step_at-Inv role (Place.unlocking rope1 rope2) w' e s = returned s (
      released w t i (Place.unlocking rope1 rope2) e (second_lock rope1 rope2)
        (Place.releasing (first_lock rope1 rope2))
        (ground (arith, ==_refl (second_lock rope1 rope2)))
        (λ y. ground (arith, locks_differ rope1 rope2 (subst Sane e (i.sane t)))) tt (λ x. refl)
        (λ x. refl))
  step_at-Inv role Place.leaving w' e s = returned s (
      stays w t i Place.leaving e Place.gone w.mappings (decrement w.threads_left) i.stakes tt
        (λ x. refl) (λ x. refl) (λ x. refl))
  step_at-Inv role Place.gone w' e s = nothing s

identity_below-All :
    (n : ℕ) (acc : List ℕ)
    → n ≤ nropes
    → All (λ r. r < nropes) acc
    → All (λ r. r < nropes) (identity_below n acc)
identity_below-All zero acc le h = h
identity_below-All (suc n) acc le h = identity_below-All n (n ∷ acc) (omega arith) (omega arith, h)

initial-Inv : Inv initial
unfolding holds is_severing count_below
initial-Inv = record {
  locked = λ t x. refl;
  sane = λ t. tt;
  severed_ropes = refl;
  stakes = identity_below-All nropes [] (omega arith) tt;
  severing_done = λ t x s. ground (s, arith);
  count = refl;
}

pub Reachable-Inv : {role : ℕ → Role} {w : World} → Reachable role w → Inv w
Reachable-Inv {role} {w} Reachable.begin = initial-Inv
Reachable-Inv {role} {w} (Reachable.move {w = v} t c1 c2 r s) =
    step_at-Inv v t (Reachable-Inv r) c1 c2 (role t) (v.places t) w refl s

-- In every state that threads of any roles reach in any order, the number of ropes left is the number of
-- ropes that are whole or whose severing is not counted yet. So where a thread finds that none is left, and
-- leaves its loop or frees the balloon, every rope is severed.
pub ropes_left_lem :
    {role : ℕ → Role} {w : World}
    → Reachable role w
    → (w.ropes_left ≡ count_below nropes (counted w))
      × (none_left w.ropes_left ≡ true → (x : ℕ) → x < nropes → get_or w.severed x false ≡ true)
ropes_left_lem {role} {w} r =
    let i : Inv w = Reachable-Inv r in
    (
      i.count,
      λ over x lt.
          let zero_left : count_below nropes (counted w) ≡ 0 =
            ground (arith, over, i.count, count_below-le nropes (counted w)) in
          ground (arith, count_below-zero nropes (counted w) zero_left x lt),
    )

-- In every state that threads of any roles reach in any order, no two threads are at places where they
-- hold the lock of the same rope.
pub rope_exclusion :
    {role : ℕ → Role} {w : World}
    → Reachable role w
    → (t u x : ℕ) → holds (w.places t) x ≡ true
    → holds (w.places u) x ≡ true
    → t ≡ u
rope_exclusion {role} {w} r t u x h h' =
    let i : Inv w = Reachable-Inv r in by_holder (w.locks x) (i.locked t x ∙ h) (i.locked u x ∙ h')
  where
    by_holder : (h : Option ℕ) → same_thread h t ≡ true → same_thread h u ≡ true → t ≡ u
    by_holder none a b = absurd (ground (a, arith))
    by_holder (some v) a b = sym ((==_iff v t).0 a) ∙ (==_iff v u).0 b
