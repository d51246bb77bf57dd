-- ===== src/Balloon/Invariant.antt =====
-- What holds of every state that the threads of src/kern/synchprobs/airballoon.c reach.
use ed_operating_system.Prelude.{
  ℕ, ◌<◌, ◌≡◌, ◌≢◌, Bool, true, false, not, ◌||◌, Option, none, some, length, get_or, All, ◌==◌,
}
use ed_operating_system.Balloon.{Place, World, nropes, first_lock, second_lock, same_thread}
use ed_operating_system.Balloon.Counting.{count_below}

-- Which locks a thread holds at a place.
unfoldable pub holds : Place → ℕ → Bool
holds Place.top x = false
holds (Place.aiming rope stake) x = false
holds (Place.holding rope stake) x = rope == x
holds (Place.severing rope) x = rope == x
holds (Place.releasing rope) x = rope == x
holds Place.checking x = false
holds (Place.reading stake1 stake2 rope1) x = false
holds (Place.wanting stake1 stake2 rope1 rope2) x = false
holds (Place.half stake1 stake2 rope1 rope2) x = first_lock rope1 rope2 == x
holds (Place.both stake1 stake2 rope1 rope2) x =
    first_lock rope1 rope2 == x || second_lock rope1 rope2 == x
holds (Place.first_write stake1 stake2 rope1 rope2 temp) x =
    first_lock rope1 rope2 == x || second_lock rope1 rope2 == x
holds (Place.second_write stake1 stake2 rope1 rope2 temp) x =
    first_lock rope1 rope2 == x || second_lock rope1 rope2 == x
holds (Place.unlocking rope1 rope2) x = first_lock rope1 rope2 == x || second_lock rope1 rope2 == x
holds Place.leaving x = false
holds Place.gone x = false

-- Whether the thread has severed that rope and not counted it yet.
unfoldable pub is_severing : Place → ℕ → Bool
is_severing (Place.severing rope) x = rope == x
is_severing p x = false

-- The ropes of a place are ropes, and the two that are locked together are two.
abbrev pub Sane : Place → Type 0
Sane (Place.aiming rope stake) = rope < nropes
Sane (Place.holding rope stake) = rope < nropes
Sane (Place.severing rope) = rope < nropes
Sane (Place.reading stake1 stake2 rope1) = rope1 < nropes
Sane (Place.wanting stake1 stake2 rope1 rope2) = (rope1 < nropes) × (rope2 < nropes)
Sane (Place.half stake1 stake2 rope1 rope2) = (rope1 < nropes) × (rope2 < nropes)
Sane (Place.both stake1 stake2 rope1 rope2) = (rope1 < nropes) × (rope2 < nropes) × (rope1 ≢ rope2)
Sane (Place.first_write stake1 stake2 rope1 rope2 temp) = (temp < nropes) × (rope1 ≢ rope2)
Sane (Place.second_write stake1 stake2 rope1 rope2 temp) = (temp < nropes) × (rope1 ≢ rope2)
Sane (Place.unlocking rope1 rope2) = rope1 ≢ rope2
Sane p = Unit

abbrev pub pending : World → Option ℕ → ℕ → Bool
pending w none x = false
pending w (some t) x = is_severing (w.places t) x

-- A rope that ropes_left still counts: it is not severed, or the thread that severed it has not counted it.
abbrev pub counted : World → ℕ → Bool
counted w x = not (get_or w.severed x false) || pending w (w.locks x) x

pub record Inv (w : World) : Type 0 where
  -- The holder of the lock of a rope is the thread that is at a place where it holds it.
  pub locked : (t x : ℕ) → same_thread (w.locks x) t ≡ holds (w.places t) x
  pub sane : (t : ℕ) → Sane (w.places t)
  pub severed_ropes : length w.severed ≡ nropes
  pub stakes : All (λ r. r < nropes) w.mappings
  pub severing_done :
      (t x : ℕ) → is_severing (w.places t) x ≡ true → get_or w.severed x false ≡ true
  pub count : w.ropes_left ≡ count_below nropes (counted w)
