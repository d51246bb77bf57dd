-- ===== src/CLib/Blocks.antt =====
-- The loops of `memcpy`, `memmove` and `bzero` over bytes, against the memory before them.
use ed_operating_system.Prelude.{
  ℕ, zero, suc, ◌+◌, ◌-◌, ◌^◌, ◌≤◌, ◌≡◌, ◌⊎◌, Bool, false, ltb, leb, if◌then◌else◌, arith,
}
use ed_operating_system.CLib

-- Whether `x` is one of the `len` addresses from `p` on.
abbrev pub within : ℕ → ℕ → ℕ → Bool
within p len x = if leb p x then ltb x (p + len) else false

-- The memory in which `len` bytes from `d` on hold what `m` has from `s` on.
abbrev pub moved : ℕ → ℕ → ℕ → CLib.Memory → CLib.Memory
moved d s len m x = if within d len x then m (s + (x - d)) else m x

-- The same from byte `i` of the block.
abbrev pub moved_from : ℕ → ℕ → ℕ → ℕ → CLib.Memory → CLib.Memory
moved_from i d s len m x = if within (d + i) len x then m (s + (x - d)) else m x

pub copy_bytes_lem :
    (rounds i d s : ℕ) (m : CLib.Memory) (x : ℕ)
    → (d ≤ s) ⊎ (s + i + rounds ≤ d)
    → d + i + rounds ≤ 2 ^ 32
    → s + i + rounds ≤ 2 ^ 32
    → CLib.copy_bytes rounds i d s m x ≡ moved_from i d s rounds m x
unfolding CLib.copy_bytes CLib.store
copy_bytes_lem zero i d s m x clear hd hs = ground arith
copy_bytes_lem (suc rounds) i d s m x clear hd hs =
    let clear' : (d ≤ s) ⊎ (s + (i + 1) + rounds ≤ d) = ground arith in
    ground (
      arith,
      copy_bytes_lem rounds (i + 1) d s (CLib.store m (CLib.at d i) (m (CLib.at s i))) x clear'
          (omega arith) (omega arith),
    )

pub copy_bytes_back_lem :
    (i d s : ℕ) (m : CLib.Memory) (x : ℕ)
    → s ≤ d
    → d + i ≤ 2 ^ 32
    → CLib.copy_bytes_back i d s m x ≡ moved_from 0 d s i m x
unfolding CLib.copy_bytes_back CLib.store
copy_bytes_back_lem zero d s m x le hd = ground arith
copy_bytes_back_lem (suc i) d s m x le hd = ground (
  arith,
  copy_bytes_back_lem i d s (CLib.store m (CLib.at d i) (m (CLib.at s i))) x le (omega arith),
)

pub zero_bytes_lem :
    (rounds i p : ℕ) (m : CLib.Memory) (x : ℕ)
    → p + i + rounds ≤ 2 ^ 32
    → CLib.zero_bytes rounds i p m x ≡ (if within (p + i) rounds x then 0 else m x)
unfolding CLib.zero_bytes CLib.store
zero_bytes_lem zero i p m x hp = ground arith
zero_bytes_lem (suc rounds) i p m x hp =
    ground (arith, zero_bytes_lem rounds (i + 1) p (CLib.store m (CLib.at p i) 0) x (omega arith))
