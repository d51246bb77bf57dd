-- ===== src/Sfs/Disk.antt =====
-- What SFS (src/kern/fs/sfs) relies on of the disk below it (DEVOP_IO of src/kern/include/device.h).
use ed_operating_system.Prelude.{ℕ, ◌<◌, ◌≡◌, ◌≢◌, List, Result, ok, err, Errno}

-- A disk with a state of type `D`, of blocks of words.
pub record Device (D : Type 0) : Type 0 where
  pub read : ℕ → D → Result (List ℕ) × D
  pub write : ℕ → List ℕ → D → Result (Unit {0}) × D
  -- How many blocks it has, and what they hold.
  pub blocks : ℕ
  pub contents : D → ℕ → List ℕ
  -- EINVAL stands for a block that is out of range.
  pub read_in_range : (b : ℕ) (d : D) → b < blocks → (read b d).0 ≢ err Errno.einval
  pub write_in_range :
      (b : ℕ) (words : List ℕ) (d : D) → b < blocks → (write b words d).0 ≢ err Errno.einval
  -- A read changes nothing, and gives what the block holds.
  pub read_keeps : (b c : ℕ) (d : D) → contents (read b d).1 c ≡ contents d c
  pub read_gives : (b : ℕ) (d : D) (words : List ℕ) → (read b d).0 ≡ ok words → words ≡ contents d b
  -- A write changes its block only, and that as it should where it succeeds.
  pub write_keeps :
      (b c : ℕ) (words : List ℕ) (d : D) → b ≢ c → contents (write b words d).1 c ≡ contents d c
  pub write_gives :
      (b : ℕ) (words : List ℕ) (d : D)
      → (write b words d).0 ≡ ok tt
      → contents (write b words d).1 b ≡ words
