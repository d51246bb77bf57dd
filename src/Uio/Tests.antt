-- ===== src/Uio/Tests.antt =====
-- A uio at concrete inputs, with user memory that takes any copy.
use ed_operating_system.Prelude.{◌+◌, ◌≡◌, inl, refl, none, [], ◌∷◌, ret, ok, Returns, arith}
use ed_operating_system.CLib
use ed_operating_system.Uio.{Uio, uio_read, uio_userspace, UserAccess, uio_kinit, uiomove}
use ed_operating_system.Uio.Bytes.{BytesPost}
use ed_operating_system.Uio.Rounds.{uiomove_lem}
use ed_operating_system.Uio.Kernel.{IsFilled, uiomove-uio_kinit}

abbrev open_user : UserAccess CLib.Memory
open_user = record {
  copyout = λ src dest len m s. (ok tt, (CLib.memmove dest src len s).1);
  copyin = λ src dest len m s. (ok tt, (CLib.memmove dest src len m).1);
}

abbrev counting : CLib.Memory
counting x = x

abbrev two_buffers : Uio
two_buffers = record {
  iov = record { iov_base = 100; iov_len = 3 } ∷ record { iov_base = 200; iov_len = 5 } ∷ [];
  offset = 40;
  resid = 8;
  segflg = uio_userspace;
  rw_flag = uio_read;
  space = none;
}

uiomove_lem_example :
    Returns
      (BytesPost open_user 16 6 two_buffers counting counting)
      (uiomove open_user 5 none 16 6 two_buffers counting counting)
uiomove_lem_example =
    uiomove_lem open_user 5 none 16 6 two_buffers counting counting refl
      (omega arith, omega arith, inl (omega arith)) (omega arith)

uiomove-uio_kinit_example :
    (u' : Uio) × (m' : CLib.Memory) × (uiomove open_user 2 none 16 4
        (uio_kinit 18 6 0 uio_read)
        counting
        counting
      ≡ ret (ok tt, u', m', counting))
    × IsFilled open_user 18 16 4 counting m'
    × (u'.resid + 4 ≡ 6)
uiomove-uio_kinit_example =
    uiomove-uio_kinit open_user 0 none 18 6 0 16 4 counting counting (omega arith) (omega arith)
      (omega arith)
