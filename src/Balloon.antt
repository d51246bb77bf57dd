-- ===== src/Balloon.antt =====
-- src/kern/synchprobs/airballoon.c: threads that cut the ropes of a balloon or exchange them between
-- stakes. What a thread does between two points where another may run is one step: taking or releasing
-- the lock of a rope, one access to the shared data outside the locks, or the short sections under
-- rope_check_lock and threads_lock, which guard only the two counters. Printing is left out.
pub mod Invariant
pub mod Counting
pub mod Steps
pub mod Ropes
pub mod Safety
pub mod Order
mod Tests
use ed_operating_system.Prelude.{
  ℕ, zero, suc, [], ◌∷◌, ◌+◌, ◌-◌, ◌%◌, ◌^◌, ◌≡◌, Bool, true, false, not, ◌&&◌, ◌||◌, Option, none,
  some, List, get_or, set, replicate, ltb, leb, ◌==◌, if◌then◌else◌,
}

abbrev pub nropes : ℕ
nropes = 16

abbrev pub n_lord_flowerkiller : ℕ
n_lord_flowerkiller = 8

-- What a thread runs.
pub data Role : Type 0 where
  dandelion marigold flowerkiller balloon : Role

-- Where a thread is in its code.
pub data Place : Type 0 where
  -- The top of the loop.
  top : Place
  -- A rope was chosen; where a stake was, it comes with it.
  aiming : ℕ → Option ℕ → Place
  holding : ℕ → Option ℕ → Place
  -- The rope was severed, and is not counted yet.
  severing : ℕ → Place
  -- Before the release of the last lock of a rope.
  releasing : ℕ → Place
  -- Before the check of the number of ropes.
  checking : Place
  -- Lord FlowerKiller: two stakes, and the ropes that were read there.
  reading : ℕ → ℕ → ℕ → Place
  wanting : ℕ → ℕ → ℕ → ℕ → Place
  half : ℕ → ℕ → ℕ → ℕ → Place
  both : ℕ → ℕ → ℕ → ℕ → Place
  -- The exchange: before the first and the second write, with `temp`.
  first_write : ℕ → ℕ → ℕ → ℕ → ℕ → Place
  second_write : ℕ → ℕ → ℕ → ℕ → ℕ → Place
  unlocking : ℕ → ℕ → Place
  -- Out of the loop, before and after threads_left is decremented.
  leaving : Place
  gone : Place

-- The shared data, the holders of the locks of the ropes, and the threads.
pub record World : Type 0 where
  pub ropes_left : ℕ
  pub threads_left : ℕ
  pub mappings : List ℕ
  pub severed : List Bool
  pub locks : ℕ → Option ℕ
  pub places : ℕ → Place

abbrev pub first_lock : ℕ → ℕ → ℕ
first_lock rope1 rope2 = if ltb rope1 rope2 then rope1 else rope2

abbrev pub second_lock : ℕ → ℕ → ℕ
second_lock rope1 rope2 = if ltb rope1 rope2 then rope2 else rope1

-- A decrement of an `int`, as a number below 2^32, and the test `<= 0`.
abbrev pub decrement : ℕ → ℕ
decrement n = (n + 2 ^ 32 - 1) % 2 ^ 32

abbrev pub none_left : ℕ → Bool
none_left n = n == 0 || leb (2 ^ 31) n

abbrev pub same_thread : Option ℕ → ℕ → Bool
same_thread none t = false
same_thread (some u) t = u == t

abbrev pub is_free : Option ℕ → Bool
is_free none = true
is_free (some u) = false

abbrev pub go : World → ℕ → Place → World
go w t p = record w { places = λ u. if t == u then p else w.places u }

abbrev pub with_lock : World → ℕ → Option ℕ → World
with_lock w x holder = record w { locks = λ y. if x == y then holder else w.locks y }

-- `lock_acquire`, then on to a place; none while another thread holds the lock.
abbrev pub acquire : World → ℕ → ℕ → Place → Option World
acquire w t x p = if is_free (w.locks x) then some (go (with_lock w x (some t)) t p) else none

-- `lock_release`
abbrev pub release : World → ℕ → ℕ → Place → World
release w t x p = go (with_lock w x none) t p

-- The top of the loop, with the two random numbers.
abbrev pub start_round : Role → ℕ → ℕ → World → ℕ → World
start_round Role.dandelion c1 c2 w t = go w t (aiming (c1 % nropes) none)
start_round Role.marigold c1 c2 w t =
    go w t (aiming (get_or w.mappings (c1 % nropes) 0) (some (c1 % nropes)))
start_round Role.flowerkiller c1 c2 w t =
    if c1 % nropes == c2 % nropes
    then w
    else go w t (reading (c1 % nropes) (c2 % nropes) (get_or w.mappings (c1 % nropes) 0))
start_round Role.balloon c1 c2 w t = go w t checking

-- Whether the stake that was chosen still has the rope; Dandelion chose none.
abbrev pub still_there : World → ℕ → Option ℕ → Bool
still_there w rope none = true
still_there w rope (some stake) = rope == get_or w.mappings stake 0

abbrev pub sever : World → ℕ → ℕ → World
sever w t rope = go (record w { severed = set w.severed rope true }) t (severing rope)

-- Whether Lord FlowerKiller may exchange.
abbrev pub can_exchange : World → ℕ → ℕ → ℕ → ℕ → Bool
can_exchange w stake1 stake2 rope1 rope2 =
    not (get_or w.severed rope1 false)
    && not (get_or w.severed rope2 false)
    && (rope1 == get_or w.mappings stake1 0)
    && (rope2 == get_or w.mappings stake2 0)

-- The next step of thread `t`; none where it waits for a lock or has ended.
unfoldable pub step_at : Role → ℕ → ℕ → World → ℕ → Place → Option World
step_at role c1 c2 w t top = some (start_round role c1 c2 w t)
step_at role c1 c2 w t (aiming rope stake) = acquire w t rope (holding rope stake)
step_at role c1 c2 w t (holding rope stake) = some (
    if not (get_or w.severed rope false) && still_there w rope stake
    then sever w t rope
    else go w t (releasing rope))
step_at role c1 c2 w t (severing rope) =
    some (go (record w { ropes_left = decrement w.ropes_left }) t (releasing rope))
step_at role c1 c2 w t (releasing rope) = some (release w t rope checking)
step_at role c1 c2 w t checking = some (go w t (if none_left w.ropes_left then leaving else top))
step_at role c1 c2 w t (reading stake1 stake2 rope1) =
    some (go w t (wanting stake1 stake2 rope1 (get_or w.mappings stake2 0)))
step_at role c1 c2 w t (wanting stake1 stake2 rope1 rope2) =
    acquire w t (first_lock rope1 rope2) (half stake1 stake2 rope1 rope2)
step_at role c1 c2 w t (half stake1 stake2 rope1 rope2) =
    if not (same_thread (w.locks (second_lock rope1 rope2)) t)
      && same_thread (w.locks (first_lock rope1 rope2)) t
    then acquire w t (second_lock rope1 rope2) (both stake1 stake2 rope1 rope2)
    else some (go w t (releasing (first_lock rope1 rope2)))
step_at role c1 c2 w t (both stake1 stake2 rope1 rope2) = some (
    go w t (
      if can_exchange w stake1 stake2 rope1 rope2
      then first_write stake1 stake2 rope1 rope2 (get_or w.mappings stake1 0)
      else unlocking rope1 rope2))
step_at role c1 c2 w t (first_write stake1 stake2 rope1 rope2 temp) = some (
    go (record w { mappings = set w.mappings stake1 (get_or w.mappings stake2 0) }) t
      (second_write stake1 stake2 rope1 rope2 temp))
step_at role c1 c2 w t (second_write stake1 stake2 rope1 rope2 temp) =
    some (go (record w { mappings = set w.mappings stake2 temp }) t (unlocking rope1 rope2))
step_at role c1 c2 w t (unlocking rope1 rope2) =
    some (release w t (second_lock rope1 rope2) (releasing (first_lock rope1 rope2)))
step_at role c1 c2 w t leaving =
    some (go (record w { threads_left = decrement w.threads_left }) t gone)
step_at role c1 c2 w t gone = none

abbrev pub step : Role → ℕ → ℕ → World → ℕ → Option World
step role c1 c2 w t = step_at role c1 c2 w t (w.places t)

abbrev pub identity_below : ℕ → List ℕ → List ℕ
identity_below zero acc = acc
identity_below (suc n) acc = identity_below n (n ∷ acc)

-- The state when `airballoon` has made its threads.
abbrev pub initial : World
initial = record {
  ropes_left = nropes;
  threads_left = 3 + n_lord_flowerkiller;
  mappings = identity_below nropes [];
  severed = replicate nropes false;
  locks = λ x. none;
  places = λ t. top;
}

-- What can come about when threads run in any order, each with its role.
pub data Reachable (role : ℕ → Role) : World → Type 0 where
  begin : Reachable role initial
  move :
      {w w' : World} (t c1 c2 : ℕ)
      → Reachable role w
      → step (role t) c1 c2 w t ≡ some w'
      → Reachable role w'
