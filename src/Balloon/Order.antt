-- ===== src/Balloon/Order.antt =====
-- The order in which the threads of src/kern/synchprobs/airballoon.c take the locks of the ropes, and what
-- it rules out.
use native.Mathlib.Decide.{ℕ_discrete}
use ed_operating_system.Prelude.{
  ℕ, ◌<◌, ◌≡◌, refl, sym, ◌∙◌, ap, true, not, ◌&&◌, Option, none, some, ==_refl, Bool-cases, inl,
  inr, arith,
}
use ed_operating_system.Balloon.{
  Role, Place, World, first_lock, second_lock, same_thread, go, with_lock, acquire, step_at, step,
  Reachable,
}
use ed_operating_system.Balloon.Invariant.{holds, Inv}
use ed_operating_system.Balloon.Safety.{Reachable-Inv}

acquires :
    (w : World) (t x : ℕ) (p : Place)
    → w.locks x ≡ none
    → (w' : World) × (acquire w t x p ≡ some w')
acquires w t x p free = (go (with_lock w x (some t)) t p, rw free)

holder_moves :
    (role : Role) (c1 c2 : ℕ) (w : World) (t x : ℕ) (q : Place)
    → same_thread (w.locks x) t ≡ true
    → holds q x ≡ true
    → ((y : ℕ) → x < y → w.locks y ≡ none)
    → (w' : World) × (step_at role c1 c2 w t q ≡ some w')
unfolding holds step_at
holder_moves role c1 c2 w t x Place.top m h above = absurd (ground (h, arith))
holder_moves role c1 c2 w t x (Place.aiming rope stake) m h above = absurd (ground (h, arith))
holder_moves role c1 c2 w t x (Place.holding rope stake) m h above = (_, refl)
holder_moves role c1 c2 w t x (Place.severing rope) m h above = (_, refl)
holder_moves role c1 c2 w t x (Place.releasing rope) m h above = (_, refl)
holder_moves role c1 c2 w t x Place.checking m h above = absurd (ground (h, arith))
holder_moves role c1 c2 w t x (Place.reading stake1 stake2 rope1) m h above =
    absurd (ground (h, arith))
holder_moves role c1 c2 w t x (Place.wanting stake1 stake2 rope1 rope2) m h above =
    absurd (ground (h, arith))
holder_moves role c1 c2 w t x (Place.half stake1 stake2 rope1 rope2) m h above =
    elim (Bool-cases (
      not (same_thread (w.locks (second_lock rope1 rope2)) t)
      && same_thread (w.locks (first_lock rope1 rope2)) t)) [
        | inl one ↦
            let first : first_lock rope1 rope2 ≡ x = ground (h, arith) in
            let higher : x < second_lock rope1 rope2 = elim (ℕ_discrete rope1 rope2) [
              | yes same ↦
                  let e : second_lock rope1 rope2 ≡ first_lock rope1 rope2 = ground (arith, same) in
                  absurd (ground (one, ap (λ z. same_thread (w.locks z) t) e, arith))
              | no differ ↦ ground (arith, first, differ)
            ] in
            rw one (
              acquires w t (second_lock rope1 rope2) (Place.both stake1 stake2 rope1 rope2)
                (above (second_lock rope1 rope2) higher))
        | inr other ↦ rw other (_, refl)
      ]
holder_moves role c1 c2 w t x (Place.both stake1 stake2 rope1 rope2) m h above = (_, refl)
holder_moves role c1 c2 w t x (Place.first_write stake1 stake2 rope1 rope2 temp) m h above =
    (_, refl)
holder_moves role c1 c2 w t x (Place.second_write stake1 stake2 rope1 rope2 temp) m h above =
    (_, refl)
holder_moves role c1 c2 w t x (Place.unlocking rope1 rope2) m h above = (_, refl)
holder_moves role c1 c2 w t x Place.leaving m h above = absurd (ground (h, arith))
holder_moves role c1 c2 w t x Place.gone m h above = absurd (ground (h, arith))

-- In every state that threads of any roles reach in any order, the thread that holds the highest rope lock
-- that is taken can make its next step.
highest_holder_moves :
    {role : ℕ → Role} {w : World}
    → Reachable role w
    → (t x c1 c2 : ℕ) → w.locks x ≡ some t
    → ((y : ℕ) → x < y → w.locks y ≡ none)
    → (w' : World) × (step (role t) c1 c2 w t ≡ some w')
highest_holder_moves {role} {w} r t x c1 c2 mine above =
    let i : Inv w = Reachable-Inv r in
    let m : same_thread (w.locks x) t ≡ true = rw mine (==_refl t) in
    holder_moves (role t) c1 c2 w t x (w.places t) m (sym (i.locked t x) ∙ m) above

-- The lock that a thread takes next, at the places before it takes one.
abbrev pub wanted_lock : Place → Option ℕ
wanted_lock (Place.aiming rope stake) = some rope
wanted_lock (Place.wanting stake1 stake2 rope1 rope2) = some (first_lock rope1 rope2)
wanted_lock (Place.half stake1 stake2 rope1 rope2) = some (second_lock rope1 rope2)
wanted_lock p = none

-- Thread `t` waits for a lock that thread `u` holds: it has no step.
pub record WaitsFor (role : ℕ → Role) (w : World) (t u : ℕ) : Type 0 where
  pub rope : ℕ
  pub wanted : wanted_lock (w.places t) ≡ some rope
  pub taken : w.locks rope ≡ some u
  pub stuck : step (role t) 0 0 w t ≡ none

-- Threads that wait one for the next.
pub data Chain (role : ℕ → Role) (w : World) : ℕ → ℕ → Type 0 where
  last : {t u : ℕ} → WaitsFor role w t u → Chain role w t u
  link : {t v u : ℕ} → WaitsFor role w t v → Chain role w v u → Chain role w t u

-- A thread that holds a lock and waits for another holds just that one, and waits for a higher one.
waits_higher :
    (role : Role) (w : World) (t x y : ℕ) (q : Place)
    → holds q x ≡ true
    → wanted_lock q ≡ some y
    → step_at role 0 0 w t q ≡ none
    → (x < y) × ((z : ℕ) → holds q z ≡ true → z ≡ x)
unfolding holds step_at
waits_higher role w t x y Place.top h a s = absurd (ground (h, arith))
waits_higher role w t x y (Place.aiming rope stake) h a s = absurd (ground (h, arith))
waits_higher role w t x y (Place.holding rope stake) h a s = absurd (ground (a, arith))
waits_higher role w t x y (Place.severing rope) h a s = absurd (ground (a, arith))
waits_higher role w t x y (Place.releasing rope) h a s = absurd (ground (a, arith))
waits_higher role w t x y Place.checking h a s = absurd (ground (h, arith))
waits_higher role w t x y (Place.reading stake1 stake2 rope1) h a s = absurd (ground (h, arith))
waits_higher role w t x y (Place.wanting stake1 stake2 rope1 rope2) h a s =
    absurd (ground (h, arith))
waits_higher role w t x y (Place.half stake1 stake2 rope1 rope2) h a s =
    elim (Bool-cases (
      not (same_thread (w.locks (second_lock rope1 rope2)) t)
      && same_thread (w.locks (first_lock rope1 rope2)) t)) [
        | inl one ↦
            let first : first_lock rope1 rope2 ≡ x = ground (h, arith) in
            let second : second_lock rope1 rope2 ≡ y = ground (a, arith) in
            let higher : x < second_lock rope1 rope2 = elim (ℕ_discrete rope1 rope2) [
              | yes same ↦
                  let e : second_lock rope1 rope2 ≡ first_lock rope1 rope2 = ground (arith, same) in
                  absurd (ground (one, ap (λ z. same_thread (w.locks z) t) e, arith))
              | no differ ↦ ground (arith, first, differ)
            ] in
            (omega (arith, higher, second), λ z hz. ground (hz, first, arith))
        | inr other ↦ absurd (ground (arith, s, other))
      ]
waits_higher role w t x y (Place.both stake1 stake2 rope1 rope2) h a s = absurd (ground (a, arith))
waits_higher role w t x y (Place.first_write stake1 stake2 rope1 rope2 temp) h a s =
    absurd (ground (a, arith))
waits_higher role w t x y (Place.second_write stake1 stake2 rope1 rope2 temp) h a s =
    absurd (ground (a, arith))
waits_higher role w t x y (Place.unlocking rope1 rope2) h a s = absurd (ground (a, arith))
waits_higher role w t x y Place.leaving h a s = absurd (ground (h, arith))
waits_higher role w t x y Place.gone h a s = absurd (ground (h, arith))

holds_it : {w : World} → Inv w → (t x : ℕ) → w.locks x ≡ some t → holds (w.places t) x ≡ true
holds_it {w} i t x mine =
    let m : same_thread (w.locks x) t ≡ true = rw mine (==_refl t) in sym (i.locked t x) ∙ m

held_last :
    {role : ℕ → Role} {w : World} {t u : ℕ} → Chain role w t u → (y : ℕ) × (w.locks y ≡ some u)
held_last (last c) = (c.rope, c.taken)
held_last (link c cs) = held_last cs

module _ {role : ℕ → Role} {w : World} (i : Inv w) where
  -- Along a chain the locks that are held rise.
  locks_rise :
      {t u : ℕ} (x : ℕ)
      → Chain role w t u
      → w.locks x ≡ some t
      → (y : ℕ) × (x < y) × (w.locks y ≡ some u)
  locks_rise {t} x (last c) mine =
      let (up, _) =
        waits_higher (role t) w t x c.rope (w.places t) (holds_it i t x mine) c.wanted c.stuck in
      (c.rope, up, c.taken)
  locks_rise {t} x (link c cs) mine =
      let (up, _) =
        waits_higher (role t) w t x c.rope (w.places t) (holds_it i t x mine) c.wanted c.stuck in
      let (y, more, taken) = locks_rise c.rope cs c.taken in (y, omega arith, taken)

  only_one :
      {t u : ℕ} (x y : ℕ) → Chain role w t u → w.locks x ≡ some t → w.locks y ≡ some t → y ≡ x
  only_one {t} x y (last c) mine mine' =
      (waits_higher (role t) w t x c.rope (w.places t) (holds_it i t x mine) c.wanted c.stuck).1 y
        (holds_it i t y mine')
  only_one {t} x y (link c cs) mine mine' =
      (waits_higher (role t) w t x c.rope (w.places t) (holds_it i t x mine) c.wanted c.stuck).1 y
        (holds_it i t y mine')

-- In no state that threads of any roles reach in any order is there a circle of threads, each of which
-- has no step and waits for the lock of a rope that the next one holds.
pub no_circle : {role : ℕ → Role} {w : World} → Reachable role w → (t : ℕ) → ¬ (Chain role w t t)
no_circle r t c =
    let i = Reachable-Inv r in
    let (x, mine) = held_last c in
    let (y, higher, mine') = locks_rise i x c mine in
    let same : y ≡ x = only_one i x y c mine mine' in omega arith
