-- ===== src/Files/Interface.antt =====
-- What the system calls of src/kern/syscall/fsyscall.c use of the file systems (through vfs_open and the
-- vnode operations), of user memory and of the current directory, with the documented behaviour
-- that they rely on. `W` is the state behind the vnodes.
use ed_operating_system.Prelude.{ℕ, ◌≤◌, ◌≡◌, Bool, List, Result, ok}

pub record Vfs (W : Type 0) : Type 0 where
  -- vfs_open(path, flags, mode): the vnode.
  pub vfs_open : List ℕ → ℕ → ℕ → W → Result ℕ × W
  -- VOP_READ and VOP_WRITE of a vnode, an offset and a size: the bytes left over (uio_resid).
  pub vop_read : ℕ → ℕ → ℕ → W → Result ℕ × W
  pub vop_write : ℕ → ℕ → ℕ → W → Result ℕ × W
  -- VOP_ISSEEKABLE and the size that VOP_STAT reports.
  pub vop_isseekable : ℕ → W → Bool
  pub stat_size : ℕ → W → ℕ
  -- copyinstr of a path from user memory.
  pub copyinstr : ℕ → W → Result (List ℕ)
  -- A transfer leaves no more than was asked for.
  pub read_resid_le :
      (file offset n resid : ℕ) (w w' : W) → vop_read file offset n w ≡ (ok resid, w') → resid ≤ n
  pub write_resid_le :
      (file offset n resid : ℕ) (w w' : W) → vop_write file offset n w ≡ (ok resid, w') → resid ≤ n
