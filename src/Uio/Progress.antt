-- ===== src/Uio/Progress.antt =====
-- How far uiomove of src/kern/lib/uio.c gets.
use ed_operating_system.Prelude.{
  ℕ, ◌+◌, ◌-◌, ◌*◌, ◌%◌, ◌^◌, ◌<◌, ◌≤◌, ◌≡◌, ◌⊎◌, refl, ap, ◌∙◌, subst, List, [], ◌∷◌, length, ltb,
  ◌==◌, if◌then◌else◌, Result, ok, err, arith,
}
use ed_operating_system.CLib
use ed_operating_system.Uio.{Iovec, Uio, advance}

-- How much room the buffers have.
abbrev pub room : List Iovec → ℕ
room [] = 0
room (v ∷ vs) = v.iov_len + room vs

-- What a call is asked to move, bounded by what is left.
abbrev pub wanted : ℕ → Uio → ℕ
wanted n u = if ltb u.resid n then u.resid else n

-- After `k` bytes were moved.
pub record Advanced (k : ℕ) (u u' : Uio) : Type 0 where
  pub left : u'.resid + k ≡ u.resid
  pub offset : u'.offset % 2 ^ 64 ≡ (u.offset + k) % 2 ^ 64
  pub room_left : room u'.iov + k ≡ room u.iov
  pub segflg : u'.segflg ≡ u.segflg
  pub rw_flag : u'.rw_flag ≡ u.rw_flag
  pub space : u'.space ≡ u.space

-- The rest of a `uio`'s buffers is worth at least what is left, and exactly that unless no more is asked.
abbrev pub IsFunded : ℕ → Uio → Type 0
IsFunded n u =
    (u.resid < 2 ^ 32) × (u.resid ≤ room u.iov) × ((n ≤ u.resid) ⊎ (room u.iov ≡ u.resid))

abbrev pub MovePost : {U : Type 0} → ℕ → Uio → Result (Unit {0}) × Uio × CLib.Memory × U → Type 0
MovePost n u (ok t, u', m, s) = Advanced (wanted n u) u u'
MovePost n u (err e, u', m, s) = (k : ℕ) × (k < wanted n u) × Advanced k u u'

pub Advanced-self : (u : Uio) → Advanced 0 u u
Advanced-self u = record {
  left = omega arith;
  offset = omega arith;
  room_left = omega arith;
  segflg = refl;
  rw_flag = refl;
  space = refl;
}

pub advance-Advanced :
    (v : Iovec) (vs : List Iovec) (k : ℕ) (u : Uio)
    → u.iov ≡ v ∷ vs
    → k ≤ v.iov_len
    → k ≤ u.resid
    → u.resid < 2 ^ 32
    → Advanced k u (advance v vs k u)
unfolding advance
advance-Advanced v vs k u e le le' small = record {
  left = omega arith;
  offset = omega arith;
  room_left = let r : room u.iov ≡ v.iov_len + room vs = ap room e in omega (arith, r);
  segflg = refl;
  rw_flag = refl;
  space = refl;
}

Advanced-trans :
    (j k : ℕ) (u u1 u2 : Uio) → Advanced j u u1 → Advanced k u1 u2 → Advanced (j + k) u u2
Advanced-trans j k u u1 u2 f g = record {
  left = omega (arith, f.left, g.left);
  offset = omega (arith, f.offset, g.offset);
  room_left = omega (arith, f.room_left, g.room_left);
  segflg = g.segflg ∙ f.segflg;
  rw_flag = g.rw_flag ∙ f.rw_flag;
  space = g.space ∙ f.space;
}

-- A bound on the rounds that the buffers take, and on those of the loop.
abbrev pub cost : List Iovec → ℕ
cost [] = 0
cost (v ∷ vs) = (if v.iov_len == 0 then 1 else 2) + 2 * length vs

abbrev pub rounds_needed : ℕ → Uio → ℕ
rounds_needed n u = if n == 0 then 0 else cost u.iov

pub cost-advance :
    (v : Iovec) (vs : List Iovec) (u : Uio)
    → cost (advance v vs v.iov_len u).iov ≡ 1 + 2 * length vs
unfolding advance
cost-advance v vs u = ground arith

-- Moving `k` bytes and then the rest is moving all.
pub MovePost-after :
    {U : Type 0} (n k : ℕ) (u u' : Uio)
    → Advanced k u u'
    → k ≤ n
    → (r : Result (Unit {0}) × Uio × CLib.Memory × U) → MovePost (n - k) u' r
    → MovePost n u r
MovePost-after n k u u' a le (ok t, u2, m, s) h =
    let all : k + wanted (n - k) u' ≡ wanted n u = ground (arith, a.left) in
    subst (λ j. Advanced j u u2) all (Advanced-trans k (wanted (n - k) u') u u' u2 a h)
MovePost-after n k u u' a le (err e, u2, m, s) (j, lt, h) =
    (k + j, ground (arith, a.left), Advanced-trans k j u u' u2 a h)

pub IsFunded-after :
    (n k : ℕ) (u u' : Uio) → Advanced k u u' → k ≤ n → IsFunded n u → IsFunded (n - k) u'
IsFunded-after n k u u' a le (small, enough, which) =
    (omega (arith, a.left), omega (arith, a.left, a.room_left), ground (arith, a.left, a.room_left))
