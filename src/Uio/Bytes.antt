-- ===== src/Uio/Bytes.antt =====
-- The bytes that uiomove of src/kern/lib/uio.c moves, and where: a description that goes through the
-- buffers once.
use ed_operating_system.Prelude.{
  ℕ, ◌+◌, ◌-◌, ◌<◌, ◌≡◌, ◌≢◌, refl, ap, sym, ◌∙◌, List, [], ◌∷◌, ltb, ◌==◌, ==-ne, true,
  if◌then◌else◌, Result, ok, err, arith,
}
use ed_operating_system.CLib
use ed_operating_system.Uio.{
  Iovec, Uio, UioRw, UioSeg, uio_read, uio_write, uio_userspace, uio_userispace, uio_sysspace,
  UserAccess, Moved, advance, chunk, transfer, transfer_kernel, transfer_user,
}
use ed_operating_system.Uio.Progress.{room, wanted, IsFunded, MovePost}

-- The smaller of two numbers of bytes.
abbrev pub fewer : ℕ → ℕ → ℕ
fewer a b = if ltb b a then b else a

module _ {U : Type 0} (user : UserAccess U) where
  -- One copy of `size` bytes between the kernel's block at `ptr` and the buffer at `base`: by memmove if
  -- the buffer is the kernel's, else by copyout for a read and copyin for a write.
  abbrev pub copy : UioSeg → UioRw → ℕ → ℕ → ℕ → CLib.Memory → U → Moved user
  copy uio_sysspace uio_read base ptr size m s = (ok tt, (CLib.memmove base ptr size m).1, s)
  copy uio_sysspace uio_write base ptr size m s = (ok tt, (CLib.memmove ptr base size m).1, s)
  copy uio_userspace uio_read base ptr size m s =
      let r = user.copyout ptr base size m s in (r.0, m, r.1)
  copy uio_userspace uio_write base ptr size m s =
      let r = user.copyin base ptr size m s in (r.0, r.1, s)
  copy uio_userispace uio_read base ptr size m s =
      let r = user.copyout ptr base size m s in (r.0, m, r.1)
  copy uio_userispace uio_write base ptr size m s =
      let r = user.copyin base ptr size m s in (r.0, r.1, s)

  -- The first error ends it.
  abbrev pub carry_on : Moved user → (CLib.Memory → U → Moved user) → Moved user
  carry_on (err e, m, s) rest = (err e, m, s)
  carry_on (ok t, m, s) rest = rest m s

  -- `k` bytes at `ptr`, spread over the buffers in their order, each as full as the bytes go.
  abbrev pub carry : List Iovec → UioSeg → UioRw → ℕ → ℕ → CLib.Memory → U → Moved user
  carry [] seg io ptr k m s = (ok tt, m, s)
  carry (v ∷ vs) seg io ptr k m s =
      let size = fewer v.iov_len k in
      if size == 0
      then carry vs seg io ptr k m s
      else carry_on (copy seg io v.iov_base ptr size m s)
          (λ m' s'. carry vs seg io (CLib.at ptr size) (k - size) m' s')

  pub transfer-copy :
      (seg : UioSeg) (io : UioRw) (base ptr size : ℕ) (m : CLib.Memory) (s : U)
      → transfer user seg io base ptr size m s ≡ copy seg io base ptr size m s
  unfolding transfer transfer_kernel transfer_user
  transfer-copy uio_sysspace uio_read base ptr size m s = refl
  transfer-copy uio_sysspace uio_write base ptr size m s = refl
  transfer-copy uio_userspace uio_read base ptr size m s = refl
  transfer-copy uio_userspace uio_write base ptr size m s = refl
  transfer-copy uio_userispace uio_read base ptr size m s = refl
  transfer-copy uio_userispace uio_write base ptr size m s = refl

  pub carry-none :
      (vs : List Iovec) (seg : UioSeg) (io : UioRw) (ptr : ℕ) (m : CLib.Memory) (s : U)
      → carry vs seg io ptr 0 m s ≡ (ok tt, m, s)
  carry-none [] seg io ptr m s = refl
  carry-none (v ∷ vs) seg io ptr m s =
      let none_fit : (fewer v.iov_len 0 == 0) ≡ true = ground arith in
      rw none_fit (carry-none vs seg io ptr m s)

  -- A buffer with no room, or with nothing left to move, is passed over.
  pub carry-skip :
      (v : Iovec) (vs : List Iovec) (seg : UioSeg) (io : UioRw) (ptr k : ℕ) (m : CLib.Memory)
      (s : U)
      → fewer v.iov_len k ≡ 0
      → carry (v ∷ vs) seg io ptr k m s ≡ carry vs seg io ptr k m s
  carry-skip v vs seg io ptr k m s z =
      let none_fit : (fewer v.iov_len k == 0) ≡ true = ground (arith, z) in rw none_fit refl

  -- One copy, and the rest with the buffers that were advanced.
  pub carry-copy :
      (v : Iovec) (vs : List Iovec) (n : ℕ) (u : Uio) (ptr : ℕ) (m : CLib.Memory) (s : U)
      → u.iov ≡ v ∷ vs
      → chunk v.iov_len n ≢ 0
      → 0 < u.resid
      → IsFunded n u
      → carry u.iov u.segflg u.rw_flag ptr (wanted n u) m s
        ≡ carry_on (copy u.segflg u.rw_flag v.iov_base ptr (chunk v.iov_len n) m s) (λ m' s'.
          carry
            (advance v vs (chunk v.iov_len n) u).iov
            u.segflg
            u.rw_flag
            (CLib.at ptr (chunk v.iov_len n))
            (wanted (n - chunk v.iov_len n) (advance v vs (chunk v.iov_len n) u))
            m'
            s')
  unfolding advance
  carry-copy v vs n u ptr m s e nz left funded =
      let k : ℕ = chunk v.iov_len n in
      let u' : Uio = advance v vs k u in
      let space : room u.iov ≡ v.iov_len + room vs = ap room e in
      let size : fewer v.iov_len (wanted n u) ≡ k = ground (arith, funded, space) in
      let resid : u'.resid ≡ u.resid - k = ground (arith, funded, space) in
      let rest : wanted (n - k) u' ≡ wanted n u - k = ground (arith, funded, space, resid) in
      let full : fewer (v.iov_len - k) (wanted n u - k) ≡ 0 = ground (arith, funded, space) in
      let skipped : (m' : CLib.Memory) (s' : U)
          → carry u'.iov u.segflg u.rw_flag (CLib.at ptr k) (wanted (n - k) u') m' s'
            ≡ carry vs u.segflg u.rw_flag (CLib.at ptr k) (wanted n u - k) m' s' =
        λ m' s'.
          ap (λ b. carry u'.iov u.segflg u.rw_flag (CLib.at ptr k) b m' s') rest
          ∙ carry-skip (record { iov_base = CLib.at v.iov_base k; iov_len = v.iov_len - k }) vs
              u.segflg u.rw_flag (CLib.at ptr k) (wanted n u - k) m' s' full in
      ap (λ bs. carry bs u.segflg u.rw_flag ptr (wanted n u) m s) e
      ∙ first size nz
      ∙ ap (carry_on (copy u.segflg u.rw_flag v.iov_base ptr k m s))
          (λ i m' s'. sym (skipped m' s') i)
    where
      first :
          {k : ℕ}
          → fewer v.iov_len (wanted n u) ≡ k
          → k ≢ 0
          → carry (v ∷ vs) u.segflg u.rw_flag ptr (wanted n u) m s
            ≡ carry_on
                (copy u.segflg u.rw_flag v.iov_base ptr k m s)
                (λ m' s'. carry vs u.segflg u.rw_flag (CLib.at ptr k) (wanted n u - k) m' s')
      first {k} size nz' = rw (size, ==-ne k 0 nz') refl

  -- What a call has done: how far it got, and that its result and the memories are those of the copies.
  abbrev pub BytesPost :
      ℕ → ℕ → Uio → CLib.Memory → U → Result (Unit {0}) × Uio × CLib.Memory × U → Type 0
  BytesPost ptr n u m s r =
      MovePost n u r × ((r.0, r.2, r.3) ≡ carry u.iov u.segflg u.rw_flag ptr (wanted n u) m s)
