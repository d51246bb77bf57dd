-- ===== src/Balloon/Tests.antt =====
-- A run of src/kern/synchprobs/airballoon.c in which Dandelion severs rope 3.
use ed_operating_system.Prelude.{ℕ, zero, suc, ◌<◌, ◌≡◌, refl, true, false, none, some, get_or}
use ed_operating_system.Balloon.{
  Role, Place, World, nropes, initial, go, with_lock, sever, step_at, none_left, Reachable,
}
use ed_operating_system.Balloon.Invariant.{counted}
use ed_operating_system.Balloon.Counting.{count_below}
use ed_operating_system.Balloon.Safety.{ropes_left_lem}
use ed_operating_system.Balloon.Order.{Chain, no_circle}

abbrev cast : ℕ → Role
cast zero = Role.marigold
cast (suc zero) = Role.dandelion
cast (suc (suc zero)) = Role.balloon
cast n = Role.flowerkiller

-- Dandelion aims at rope 3, holds it, and has severed it.
abbrev aimed : World
aimed = go initial 1 (Place.aiming 3 none)

abbrev held : World
held = go (with_lock aimed 3 (some 1)) 1 (Place.holding 3 none)

abbrev cut : World
cut = sever held 1 3

cut-Reachable : Reachable cast cut
unfolding step_at
cut-Reachable =
    Reachable.move {w = held} 1 0 0
      (Reachable.move {w = aimed} 1 0 0 (Reachable.move 1 3 0 Reachable.begin refl) refl) refl

ropes_left_lem_example :
    (cut.ropes_left ≡ count_below nropes (counted cut))
    × (none_left cut.ropes_left ≡ true → (x : ℕ) → x < nropes → get_or cut.severed x false ≡ true)
ropes_left_lem_example = ropes_left_lem cut-Reachable

no_circle_example : ¬ (Chain cast cut 1 1)
no_circle_example = no_circle cut-Reachable 1
