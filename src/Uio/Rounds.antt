-- ===== src/Uio/Rounds.antt =====
-- The loop of uiomove of src/kern/lib/uio.c, and that it ends.
use native.Mathlib.Decide.{ℕ_discrete}
use ed_operating_system.Prelude.{
  ℕ, zero, suc, ◌+◌, ◌-◌, ◌*◌, ◌<◌, ◌≤◌, ◌≡◌, ◌≢◌, ◌⊎◌, inl, inr, refl, ap, sym, ◌∙◌, subst, true,
  Option, List, [], ◌∷◌, length, ltb, ◌==◌, ==-ne, ok, err, Returns, Returns-imp, arith, Bool-cases,
  if_then, if_else,
}
use ed_operating_system.CLib
use ed_operating_system.Uio.{
  Iovec, Uio, UserAccess, advance, chunk, transfer, space_fits, Moved, MoveOutcome, transferred,
  move_round, move_loop, uiomove,
}
use ed_operating_system.Uio.Bytes.{
  carry, carry_on, transfer-copy, carry-none, carry-skip, carry-copy, BytesPost,
}
use ed_operating_system.Uio.Progress.{
  room, wanted, Advanced, IsFunded, MovePost, Advanced-self, advance-Advanced, cost, cost-advance,
  rounds_needed, MovePost-after, IsFunded-after,
}

module _ {U : Type 0} (user : UserAccess U) where
  module _ (ptr n : ℕ) (u : Uio) (m : CLib.Memory) (s : U) (next : Uio → MoveOutcome user)
      (rest : ℕ → Uio → CLib.Memory → U → MoveOutcome user) (some_n : 0 < n)
      (some_left : 0 < u.resid) (funded : IsFunded n u)
      (k_next : (u' : Uio)
        → Advanced 0 u u'
        → cost u'.iov < cost u.iov
        → Returns (BytesPost user ptr n u' m s) (next u'))
      (k_rest : (k : ℕ) (u' : Uio) (m' : CLib.Memory) (s' : U)
        → Advanced k u u'
        → k ≤ n
        → (k ≡ n) ⊎ (cost u'.iov < cost u.iov)
        → Returns (BytesPost user (CLib.at ptr k) (n - k) u' m' s') (rest k u' m' s')) where
    transferred_lem :
        (v : Iovec) (vs : List Iovec)
        → u.iov ≡ v ∷ vs
        → v.iov_len ≢ 0
        → (r : Moved user)
        → carry user u.iov u.segflg u.rw_flag ptr (wanted n u) m s
          ≡ carry_on user r (λ m' s'.
            carry user
              (advance v vs (chunk v.iov_len n) u).iov
              u.segflg
              u.rw_flag
              (CLib.at ptr (chunk v.iov_len n))
              (wanted (n - chunk v.iov_len n) (advance v vs (chunk v.iov_len n) u))
              m'
              s')
        → Returns
            (BytesPost user ptr n u m s)
            (transferred user u (advance v vs (chunk v.iov_len n) u) (rest (chunk v.iov_len n)) r)
    unfolding transferred advance
    transferred_lem v vs e nz (err x, m', s') c = ((0, ground arith, Advanced-self u), sym c)
    transferred_lem v vs e nz (ok t, m', s') c =
        let k : ℕ = chunk v.iov_len n in
        let space : room u.iov ≡ v.iov_len + room vs = ap room e in
        let u' : Uio = advance v vs k u in
        let a : Advanced k u u' =
          advance-Advanced v vs k u e (ground arith) (ground (arith, funded, space)) funded.0 in
        let le : k ≤ n = ground arith in
        let less : (k ≡ n) ⊎ (cost u'.iov < cost u.iov) = cheaper v vs e nz in
        Returns-imp (BytesPost user (CLib.at ptr k) (n - k) u' m' s') (BytesPost user ptr n u m s)
          (λ r h. (MovePost-after n k u u' a le r h.0, h.1 ∙ sym c)) (rest k u' m' s')
          (k_rest k u' m' s' a le less)
      where
        cheaper :
            (v : Iovec) (vs : List Iovec)
            → u.iov ≡ v ∷ vs
            → v.iov_len ≢ 0
            → (chunk v.iov_len n ≡ n) ⊎ (cost (advance v vs (chunk v.iov_len n) u).iov < cost u.iov)
        cheaper v vs e nz =
            let before : cost u.iov ≡ cost (v ∷ vs) = ap cost e in
            elim (Bool-cases (ltb n v.iov_len)) [
              | inl t ↦ inl (if_then n v.iov_len t)
              | inr f ↦
                  let whole : chunk v.iov_len n ≡ v.iov_len = if_else n v.iov_len f in
                  let after : cost (advance v vs (chunk v.iov_len n) u).iov ≡ 1 + 2 * length vs =
                    ap (λ k. cost (advance v vs k u).iov) whole ∙ cost-advance v vs u in
                  inr (ground (arith, before, after))
            ]

    one_copy :
        (v : Iovec) (vs : List Iovec)
        → u.iov ≡ v ∷ vs
        → v.iov_len ≢ 0
        → chunk v.iov_len n ≢ 0
        → Returns (BytesPost user ptr n u m s) (
            transferred user u
              (advance v vs (chunk v.iov_len n) u)
              (rest (chunk v.iov_len n))
              (transfer user u.segflg u.rw_flag v.iov_base ptr (chunk v.iov_len n) m s))
    one_copy v vs e nz some_chunk =
        transferred_lem v vs e nz
          (transfer user u.segflg u.rw_flag v.iov_base ptr (chunk v.iov_len n) m s)
          (carry-copy user v vs n u ptr m s e some_chunk some_left funded
            ∙ ap
                (λ r. carry_on user r (λ m' s'.
                  carry user (advance v vs (chunk v.iov_len n) u).iov u.segflg u.rw_flag
                    (CLib.at ptr (chunk v.iov_len n))
                    (wanted (n - chunk v.iov_len n) (advance v vs (chunk v.iov_len n) u)) m' s'))
                (sym
                  (transfer-copy user u.segflg u.rw_flag v.iov_base ptr (chunk v.iov_len n) m s)))

    move_round_lem :
        (vs : List Iovec)
        → u.iov ≡ vs
        → Returns (BytesPost user ptr n u m s) (move_round user ptr n u m s next rest vs)
    unfolding move_round
    move_round_lem [] e = let none : room u.iov ≡ 0 = ap room e in absurd (omega (arith, funded.1))
    move_round_lem (v ∷ []) e =
        let space : room u.iov ≡ v.iov_len + 0 = ap room e in
        let nz : v.iov_len ≢ 0 = λ z. absurd (omega (arith, funded.1)) in
        let some_chunk : chunk v.iov_len n ≢ 0 = λ z. ground arith in
        rw (==-ne (chunk v.iov_len n) 0 some_chunk) (one_copy v [] e nz some_chunk)
    move_round_lem (v ∷ w ∷ vs) e = elim (ℕ_discrete v.iov_len 0) [
      | yes z ↦
          let u' : Uio = record u { iov = w ∷ vs } in
          let space : room u.iov ≡ v.iov_len + room (w ∷ vs) = ap room e in
          let before : cost u.iov ≡ cost (v ∷ w ∷ vs) = ap cost e in
          let a : Advanced 0 u u' = record {
            left = omega arith;
            offset = omega arith;
            room_left = omega (arith, space);
            segflg = refl;
            rw_flag = refl;
            space = refl;
          } in
          let no_chunk : (chunk v.iov_len n == 0) ≡ true = ground arith in
          let zero_n : n - 0 ≡ n = omega arith in
          let passed : carry user u.iov u.segflg u.rw_flag ptr (wanted n u) m s
              ≡ carry user (w ∷ vs) u.segflg u.rw_flag ptr (wanted n u) m s =
            ap (λ bs. carry user bs u.segflg u.rw_flag ptr (wanted n u) m s) e
            ∙ carry-skip user v (w ∷ vs) u.segflg u.rw_flag ptr (wanted n u) m s
                (ground (arith, z)) in
          rw no_chunk (
            Returns-imp (BytesPost user ptr n u' m s) (BytesPost user ptr n u m s)
              (λ r h. (
                MovePost-after n 0 u u' a (omega arith) r
                    (subst (λ i. MovePost i u' r) (sym zero_n) h.0),
                h.1 ∙ sym passed,
              ))
              (next u') (k_next u' a (ground (arith, before))))
      | no nz ↦
          let some_chunk : chunk v.iov_len n ≢ 0 = λ z. ground arith in
          rw (==-ne (chunk v.iov_len n) 0 some_chunk) (one_copy v (w ∷ vs) e nz some_chunk)
    ]

  -- Where there is nothing to move.
  stays :
      (ptr n : ℕ) (u : Uio) (m : CLib.Memory) (s : U)
      → wanted n u ≡ 0
      → BytesPost user ptr n u m s (ok tt, u, m, s)
  stays ptr n u m s nothing = (
    subst (λ k. Advanced k u u) (sym nothing) (Advanced-self u),
    sym (
        ap (λ k. carry user u.iov u.segflg u.rw_flag ptr k m s) nothing
        ∙ carry-none user u.iov u.segflg u.rw_flag ptr m s),
  )

  move_loop_lem :
      (fuel ptr n : ℕ) (u : Uio) (m : CLib.Memory) (s : U)
      → IsFunded n u
      → rounds_needed n u < fuel
      → Returns (BytesPost user ptr n u m s) (move_loop user fuel ptr n u m s)
  unfolding move_loop
  move_loop_lem zero ptr n u m s funded enough = absurd (omega arith)
  move_loop_lem (suc fuel) ptr n u m s funded enough = elim (ℕ_discrete n 0) [
    | yes z ↦
        let nothing : wanted n u ≡ 0 = ground arith in rw (z_true n z) (stays ptr n u m s nothing)
    | no nz ↦ elim (ℕ_discrete u.resid 0) [
      | yes z ↦
          let nothing : wanted n u ≡ 0 = ground arith in
          rw (==-ne n 0 nz, z_true u.resid z) (stays ptr n u m s nothing)
      | no left ↦
          let costs : cost u.iov < suc fuel = ground arith in
          rw (==-ne n 0 nz, ==-ne u.resid 0 left)
            (move_round_lem ptr n u m s (λ u'. move_loop user fuel ptr n u' m s)
              (λ size u' m' s'. move_loop user fuel (CLib.at ptr size) (n - size) u' m' s')
              (ground arith) (ground arith) funded
              (λ u' a less.
                let zero_n : n - 0 ≡ n = omega arith in
                move_loop_lem fuel ptr n u' m s
                  (subst (λ i. IsFunded i u') zero_n
                    (IsFunded-after n 0 u u' a (omega arith) funded))
                  (ground arith))
              (λ k u' m' s' a le less.
                move_loop_lem fuel (CLib.at ptr k) (n - k) u' m' s'
                  (IsFunded-after n k u u' a le funded) (ground arith))
              u.iov refl)
    ]
  ]
    where
      z_true : (k : ℕ) → k ≡ 0 → (k == 0) ≡ true
      z_true k z = ground arith

  -- uiomove, with the address space that the uio expects in force, a residue that the buffers have room
  -- for, a length that is at most the residue unless the residue is all that room, and fuel above two
  -- rounds for each buffer: it returns. Its result, the kernel's memory and user memory are those of the
  -- copies that spread the length asked for or the residue, whichever is less, over the buffers in their
  -- order, each as full as the bytes go, up to the first copy that fails: by memmove where the buffers are
  -- the kernel's, else by copyout for a read and copyin for a write. If it succeeds, the residue and the
  -- room of the buffers went down by that number of bytes and the offset went up by it modulo 2 ^ 64; if a
  -- copy fails, by fewer bytes. Either way the direction, the kind of the buffers and the address space
  -- are as before.
  pub uiomove_lem :
      (fuel : ℕ) (current : Option ℕ) (ptr n : ℕ) (u : Uio) (m : CLib.Memory) (s : U)
      → space_fits current u u.segflg ≡ true
      → IsFunded n u
      → 2 * length u.iov < fuel
      → Returns (BytesPost user ptr n u m s) (uiomove user fuel current ptr n u m s)
  unfolding uiomove
  uiomove_lem fuel current ptr n u m s fits funded enough =
      let bound : cost u.iov ≤ 2 * length u.iov = cost-le u.iov in
      rw fits (move_loop_lem fuel ptr n u m s funded (ground arith))
    where
      cost-le : (vs : List Iovec) → cost vs ≤ 2 * length vs
      cost-le [] = omega arith
      cost-le (v ∷ vs) = ground arith
