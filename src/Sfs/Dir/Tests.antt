-- ===== src/Sfs/Dir/Tests.antt =====
-- Directories at concrete inputs, on the disk of the tests of Sfs.
use ed_operating_system.Prelude.{
  ℕ, ◌≡◌, inl, inr, refl, false, List, [], ◌∷◌, replicate, get_or-replicate, ltb, Bool-cases,
  Result, Returns, Outcome, ret, panic, blocked, arith,
}
use ed_operating_system.Sfs
use ed_operating_system.Sfs.{Vnode, Fs, dbperidb}
use ed_operating_system.Sfs.Bmap
use ed_operating_system.Sfs.Meta
use ed_operating_system.Sfs.Dir
use ed_operating_system.Sfs.Mapping.{file_block}
use ed_operating_system.Sfs.Tests.{Blocks, memory_disk, fs0, fs0-IsMounted}
use ed_operating_system.Sfs.Meta.{uio_read}
use ed_operating_system.Sfs.Meta.Writes.{IsFile}
use ed_operating_system.Sfs.Dir.{findname, dir_link}
use ed_operating_system.Sfs.Dir.Find.{IsDirectory, FindPost, findname_lem}

-- A directory of one slot, which has no block yet and so reads as empty.
abbrev dir0 : Vnode
dir0 = record {
  inode = record { size = 64; kind = 2; direct = replicate 15 0; indirect = 0 };
  dirty = false;
}

no_blocks : (k : ℕ) → file_block memory_disk dir0 fs0.disk k ≡ 0
unfolding file_block
no_blocks k = elim (Bool-cases (ltb k 15)) [
  | inl t ↦ rw t (get_or-replicate 15 k 0)
  | inr f ↦ rw f refl
]

dir0-IsFile : IsFile memory_disk fs0 dir0
dir0-IsFile = record {
  mapped = record {
    directs = refl;
    indirects = λ nz. absurd (nz refl);
    indirect_used = λ nz. absurd (nz refl);
    blocks_used = λ k lt nz. absurd (nz (no_blocks k));
    distinct = λ j k hj hk nz e. absurd (nz (no_blocks j));
    apart = λ k lt nz e. absurd (nz (no_blocks k));
  };
  mounted = fs0-IsMounted;
  whole = λ k lt nz. absurd (nz (no_blocks k));
}

dir0-IsDirectory : IsDirectory memory_disk fs0 dir0
dir0-IsDirectory = record {
  file = dir0-IsFile;
  kind = refl;
  slots = refl;
  fits = omega arith;
  unique = λ i j name hi hj ni nj. omega arith;
}

abbrev name0 : List ℕ
name0 = b'a' ∷ b'b' ∷ []

findname_lem_example :
    Returns (FindPost memory_disk dir0 fs0 name0 1) (findname memory_disk dir0 fs0 name0)
findname_lem_example = findname_lem memory_disk dir0 fs0 name0 dir0-IsDirectory

-- The same on a disk of zeros with a block for the directory.
abbrev zeros : Fs Blocks
zeros = record fs0 { disk = λ b. replicate 128 0 }

abbrev dir1 : Vnode
dir1 = record {
  inode = record { size = 64; kind = 2; direct = 3 ∷ replicate 14 0; indirect = 0 };
  dirty = false;
}

-- The vnode and the file system that a link leaves.
abbrev after : Outcome (Result ℕ × Vnode × Fs Blocks) → Vnode × Fs Blocks
after (ret (r, v, fs)) = (v, fs)
after panic = (dir1, zeros)
after blocked = (dir1, zeros)

abbrev linked1 : Vnode × Fs Blocks
linked1 = after (dir_link memory_disk dir1 zeros name0 5)
