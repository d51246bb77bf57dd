-- ===== src/Uio.antt =====
-- src/kern/lib/uio.c: moving data between a kernel buffer and the buffers of a `uio`. Kernel memory is
-- that of CLib; user memory and its copies are the interface `UserAccess`. A NULL address space is
-- `none`; `uio_iovcnt` is the length of the list of buffers.
pub mod Progress
pub mod Bytes
pub mod Rounds
pub mod Kernel
mod Tests
use ed_operating_system.Prelude.{
  ℕ, zero, suc, ◌+◌, ◌-◌, ◌%◌, ◌^◌, Bool, true, false, Option, none, some, List, [], ◌∷◌, ltb, ◌==◌,
  if◌then◌else◌, Outcome, ret, panic, ◌>>=◌, Result, ok, err,
}
use ed_operating_system.CLib

-- `enum uio_rw` and `enum uio_seg`
pub data UioRw : Type 0 where
  uio_read uio_write : UioRw

pub data UioSeg : Type 0 where
  uio_userispace uio_userspace uio_sysspace : UioSeg

-- `struct iovec`; the two kinds of pointer have one representation.
pub record Iovec : Type 0 where
  pub iov_base : ℕ
  pub iov_len : ℕ

-- `struct uio`
pub record Uio : Type 0 where
  pub iov : List Iovec
  pub offset : ℕ
  pub resid : ℕ
  pub segflg : UioSeg
  pub rw_flag : UioRw
  pub space : Option ℕ

-- `copyout` to and `copyin` from user memory of type `U`, between it and kernel memory.
pub record UserAccess (U : Type 0) : Type 0 where
  pub copyout : ℕ → ℕ → ℕ → CLib.Memory → U → Result (Unit {0}) × U
  pub copyin : ℕ → ℕ → ℕ → CLib.Memory → U → Result (Unit {0}) × CLib.Memory

-- `uio_kinit`
unfoldable pub uio_kinit : ℕ → ℕ → ℕ → UioRw → Uio
uio_kinit kbuf len pos rw = record {
  iov = record { iov_base = kbuf; iov_len = len } ∷ [];
  offset = pos;
  resid = len;
  segflg = uio_sysspace;
  rw_flag = rw;
  space = none;
}

-- The bookkeeping after `size` bytes were moved with the first buffer `v`; a `size_t` wraps at 32
-- bits and an `off_t`, kept as its pattern, at 64.
unfoldable pub advance : Iovec → List Iovec → ℕ → Uio → Uio
advance v vs size u = record u {
  iov = record { iov_base = CLib.at v.iov_base size; iov_len = v.iov_len - size } ∷ vs;
  offset = (u.offset + size) % 2 ^ 64;
  resid = (u.resid + 2 ^ 32 - size) % 2 ^ 32;
}

abbrev pub same_space : Option ℕ → Option ℕ → Bool
same_space none none = true
same_space none (some b) = false
same_space (some a) none = false
same_space (some a) (some b) = a == b

-- The sanity check on the address space; `current` is what `proc_getas` returns.
abbrev pub space_fits : Option ℕ → Uio → UioSeg → Bool
space_fits current u uio_sysspace = same_space u.space none
space_fits current u uio_userspace = same_space u.space current
space_fits current u uio_userispace = same_space u.space current

-- `size > n ? n : size`
abbrev pub chunk : ℕ → ℕ → ℕ
chunk len n = if ltb n len then n else len

module _ {U : Type 0} (user : UserAccess U) where
  abbrev pub Moved : Type 0
  Moved = Result (Unit {0}) × CLib.Memory × U

  -- One transfer of `size` bytes between `ptr` and the buffer at `base`.
  unfoldable pub transfer_kernel : UioRw → ℕ → ℕ → ℕ → CLib.Memory → U → Moved
  transfer_kernel uio_read base ptr size m s = (ok tt, (CLib.memmove base ptr size m).1, s)
  transfer_kernel uio_write base ptr size m s = (ok tt, (CLib.memmove ptr base size m).1, s)

  unfoldable pub transfer_user : UioRw → ℕ → ℕ → ℕ → CLib.Memory → U → Moved
  transfer_user uio_read base ptr size m s = let r = user.copyout ptr base size m s in (r.0, m, r.1)
  transfer_user uio_write base ptr size m s = let r = user.copyin base ptr size m s in (r.0, r.1, s)

  unfoldable pub transfer : UioSeg → UioRw → ℕ → ℕ → ℕ → CLib.Memory → U → Moved
  transfer uio_sysspace io base ptr size m s = transfer_kernel io base ptr size m s
  transfer uio_userspace io base ptr size m s = transfer_user io base ptr size m s
  transfer uio_userispace io base ptr size m s = transfer_user io base ptr size m s

  abbrev pub MoveOutcome : Type 0
  MoveOutcome = Outcome (Result (Unit {0}) × Uio × CLib.Memory × U)

  -- After a transfer: an error, or the rounds that follow with the `uio` that was advanced.
  unfoldable pub transferred :
      Uio → Uio → (Uio → CLib.Memory → U → MoveOutcome) → Moved → MoveOutcome
  transferred u u' rest (err e, m, s) = ret (err e, u, m, s)
  transferred u u' rest (ok t, m, s) = rest u' m s

  -- One round with the list of buffers: `next` are the rounds after the first buffer was dropped,
  -- `rest` those after a transfer of that many bytes. To read a buffer where there is none is an
  -- access outside an object.
  unfoldable pub move_round :
      ℕ
      → ℕ
      → Uio
      → CLib.Memory
      → U
      → (Uio → MoveOutcome)
      → (ℕ → Uio → CLib.Memory → U → MoveOutcome)
      → List Iovec
      → MoveOutcome
  move_round ptr n u m s next rest [] = panic
  move_round ptr n u m s next rest (v ∷ []) =
      if chunk v.iov_len n == 0
      then panic
      else transferred u (advance v [] (chunk v.iov_len n) u) (rest (chunk v.iov_len n))
          (transfer u.segflg u.rw_flag v.iov_base ptr (chunk v.iov_len n) m s)
  move_round ptr n u m s next rest (v ∷ w ∷ vs) =
      if chunk v.iov_len n == 0
      then next (record u { iov = w ∷ vs })
      else transferred u (advance v (w ∷ vs) (chunk v.iov_len n) u) (rest (chunk v.iov_len n))
          (transfer u.segflg u.rw_flag v.iov_base ptr (chunk v.iov_len n) m s)

  -- The loop, with that many rounds of fuel left; to run out of it counts as a panic.
  unfoldable pub move_loop : ℕ → ℕ → ℕ → Uio → CLib.Memory → U → MoveOutcome
  move_loop zero ptr n u m s = panic
  move_loop (suc fuel) ptr n u m s =
      if n == 0
      then ret (ok tt, u, m, s)
      else if u.resid == 0
      then ret (ok tt, u, m, s)
      else move_round ptr n u m s (λ u'. move_loop fuel ptr n u' m s)
          (λ size u' m' s'. move_loop fuel (CLib.at ptr size) (n - size) u' m' s') u.iov

  -- `uiomove`
  unfoldable pub uiomove : ℕ → Option ℕ → ℕ → ℕ → Uio → CLib.Memory → U → MoveOutcome
  uiomove fuel current ptr n u m s =
      if space_fits current u u.segflg then move_loop fuel ptr n u m s else panic

  -- One round of `uiomovezeros` went well, or not.
  unfoldable pub zeros_moved :
      (Uio → CLib.Memory → U → MoveOutcome)
      → Result (Unit {0}) × Uio × CLib.Memory × U
      → MoveOutcome
  zeros_moved rest (err e, u, m, s) = ret (err e, u, m, s)
  zeros_moved rest (ok t, u, m, s) = rest u m s

  -- The loop of `uiomovezeros`, on fuel as above, with the sixteen zeros at `blank`.
  unfoldable pub zeros_loop : ℕ → ℕ → Option ℕ → ℕ → ℕ → Uio → CLib.Memory → U → MoveOutcome
  zeros_loop zero fuel current blank n u m s = panic
  zeros_loop (suc rounds) fuel current blank n u m s =
      if n == 0
      then ret (ok tt, u, m, s)
      else (uiomove fuel current blank (chunk 16 n) u m s
          >>= zeros_moved
              (λ u' m' s'. zeros_loop rounds fuel current blank (n - chunk 16 n) u' m' s'))

  abbrev pub is_read : UioRw → Bool
  is_read uio_read = true
  is_read uio_write = false

  -- `uiomovezeros`
  unfoldable pub uiomovezeros : ℕ → ℕ → Option ℕ → ℕ → ℕ → Uio → CLib.Memory → U → MoveOutcome
  uiomovezeros rounds fuel current blank n u m s =
      if is_read u.rw_flag then zeros_loop rounds fuel current blank n u m s else panic
