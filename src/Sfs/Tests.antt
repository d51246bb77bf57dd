-- ===== src/Sfs/Tests.antt =====
-- A disk of eight blocks with a file of two blocks, the second of them in the indirect block, put
-- through the operations of src/kern/fs/sfs.
use ed_operating_system.Prelude.{
  ℕ, ◌<◌, ◌≡◌, ◌≢◌, refl, Bool, true, false, List, [], ◌∷◌, replicate, if◌then◌else◌, ltb, ◌==◌,
  ==_refl, ==-ne, arith, ok, err, Errno, lt→ltb,
}
use ed_operating_system.Bitmap.{isset}
use ed_operating_system.Sfs.{Vnode, Fs}
use ed_operating_system.Sfs.Disk.{Device}
use ed_operating_system.Sfs.Alloc.{IsMounted}

abbrev pub Blocks : Type 0
Blocks = ℕ → List ℕ

pub in_range :
    {A : Type 0} (a : A) (b : ℕ)
    → b < 8
    → (if ltb b 8 then ok a else err Errno.einval) ≢ err Errno.einval
in_range a b lt e = ground (arith, e, lt→ltb b 8 lt)

pub given :
    {A : Type 0} {a c : A} (t : Bool) → (if t then ok a else err Errno.einval) ≡ ok c → c ≡ a
given true e = cc
given false e = cc

-- A disk that never fails within its range.
abbrev pub memory_disk : Device Blocks
memory_disk = record {
  read = λ b d. (if ltb b 8 then ok (d b) else err Errno.einval, d);
  write = λ b words d.
      (if ltb b 8 then ok tt else err Errno.einval, λ c. if b == c then words else d c);
  blocks = 8;
  contents = λ d b. d b;
  read_in_range = λ b d lt. in_range (d b) b lt;
  write_in_range = λ b words d lt. in_range tt b lt;
  read_keeps = λ b c d. refl;
  read_gives = λ b d words e. given (ltb b 8) e;
  write_keeps = λ b c words d ne. rw (==-ne b c ne);
  write_gives = λ b words d e. rw (==_refl b);
}

abbrev pub blocks0 : Blocks
blocks0 b = if b == 2 then 4 ∷ replicate 127 0 else []

abbrev file0 : Vnode
file0 = record {
  inode = record { size = 8192; kind = 1; direct = 3 ∷ replicate 14 0; indirect = 2 };
  dirty = false;
}

abbrev pub fs0 : Fs Blocks
fs0 = record {
  freemap = record { nbits = 8; v = 0x1f ∷ [] };
  freemap_dirty = false;
  nblocks = 8;
  disk = blocks0;
}

pub fs0-IsMounted : IsMounted memory_disk fs0
unfolding isset
fs0-IsMounted = record {
  valid = record {
    small = omega arith;
    words = refl;
    bytes = (omega arith, tt);
    tail = λ i lo hi. absurd (omega arith);
  };
  boot = refl;
  tail = λ b lo hi. absurd (omega arith);
  covers = omega arith;
  fits = omega arith;
}
