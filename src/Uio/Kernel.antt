-- ===== src/Uio/Kernel.antt =====
-- uiomove of src/kern/lib/uio.c with a uio that uio_kinit set up for a buffer of the kernel's.
use native.Mathlib.Decide.{ℕ_discrete}
use ed_operating_system.Prelude.{
  ℕ, suc, ◌+◌, ◌-◌, ◌^◌, ◌<◌, ◌≤◌, ◌≡◌, ◌⊎◌, refl, true, Option, [], ◌==◌, ==-ne, ret, ok, arith,
}
use ed_operating_system.CLib
use ed_operating_system.CLib.Moves.{memmove_lem}
use ed_operating_system.Uio.{
  Uio, uio_read, UserAccess, uio_kinit, advance, chunk, transfer, transfer_kernel, transferred,
  move_round, move_loop, uiomove,
}

module _ {U : Type 0} (user : UserAccess U) where
  -- The buffer at `kbuf` holds the `n` bytes from `ptr`, and nothing else has changed.
  abbrev pub IsFilled : ℕ → ℕ → ℕ → CLib.Memory → CLib.Memory → Type 0
  IsFilled kbuf ptr n m m' =
      ((i : ℕ) → i < n → m' (kbuf + i) ≡ m (ptr + i))
      × ((x : ℕ) → (x < kbuf) ⊎ (kbuf + n ≤ x) → m' x ≡ m x)

  -- uiomove of `n` bytes to a uio that uio_kinit set up for reading into a kernel buffer of at least that
  -- length, where neither block wraps around the end of the address space, however they overlap: it
  -- succeeds in two rounds, whatever address space is in force; the buffer holds what the source held
  -- before, every other byte of kernel memory and all user memory is unchanged, and the residue is the
  -- rest of the buffer.
  pub uiomove-uio_kinit :
      (fuel : ℕ) (current : Option ℕ) (kbuf len pos ptr n : ℕ) (m : CLib.Memory) (s : U)
      → n ≤ len
      → kbuf + len < 2 ^ 32
      → ptr + n ≤ 2 ^ 32
      → (u' : Uio) × (m' : CLib.Memory) × (uiomove user
            (suc (suc fuel))
            current
            ptr
            n
            (uio_kinit kbuf len pos uio_read)
            m
            s
          ≡ ret (ok tt, u', m', s))
        × IsFilled kbuf ptr n m m'
        × (u'.resid + n ≡ len)
  unfolding uiomove uio_kinit move_loop move_round transferred transfer transfer_kernel advance
  uiomove-uio_kinit fuel current kbuf len pos ptr n m s le hk hp = elim (ℕ_discrete n 0) [
    | yes z ↦ (
      uio_kinit kbuf len pos uio_read,
      m,
      rw z refl,
      (λ i lt. absurd (omega arith), λ x out. refl),
      omega arith,
    )
    | no nz ↦
        let moved = memmove_lem kbuf ptr n m (omega arith) (omega arith) in
        let part : chunk len n ≡ n = ground arith in
        let over : (n - n == 0) ≡ true = ground arith in
        (
          advance (record { iov_base = kbuf; iov_len = len }) [] n
              (uio_kinit kbuf len pos uio_read),
          (CLib.memmove kbuf ptr n m).1,
          rw (==-ne n 0 nz, ==-ne len 0 (λ e. nz (omega arith)), part, ==-ne n 0 nz, over) refl,
          (moved.1, moved.2),
          omega arith,
        )
  ]
