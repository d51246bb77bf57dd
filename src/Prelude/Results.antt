-- ===== src/Prelude/Results.antt =====
-- Kernel error codes (src/kern/include/kern/errno.h), results of calls that return 0 or an error code,
-- and outcomes of calls that may stop the kernel or wait.

use mathlib.Core.Path.{◌≡◌, refl, subst}

-- The codes that the modelled files return.
pub data Errno : Type 0 where
  enosys enomem eagain efault einval eperm enoent ebadf emfile enfile esrch echild : Errno
  enproc espipe efbig enospc e2big eio eintr edeadlk eexist enametoolong : Errno

-- `ok a` is a return of 0 with `a` written through the out parameters.
pub data Result {ℓ} (A : Type ℓ) : Type ℓ where
  ok : A → Result A
  err : Errno → Result A

-- `panic` is a failed KASSERT, a call of panic() or an access outside an object; `blocked` is a
-- thread that waits for a lock which its own call path holds.
pub data Outcome {ℓ} (A : Type ℓ) : Type ℓ where
  ret : A → Outcome A
  panic : Outcome A
  blocked : Outcome A

infixl 5 ◌>>=◌
abbrev pub ◌>>=◌ {ℓ κ} : {A : Type ℓ} {B : Type κ} → Outcome A → (A → Outcome B) → Outcome B
ret a >>= f = f a
panic >>= f = panic
blocked >>= f = blocked

-- The empty type at any level.
pub data Never {ℓ} : Type ℓ where

-- The outcome is a return, with a value that meets the predicate.
abbrev pub Returns {ℓ κ} : {A : Type ℓ} → (A → Type κ) → Outcome A → Type κ
Returns P (ret a) = P a
Returns P panic = Never
Returns P blocked = Never

pub Returns-imp {ℓ κ μ} :
    {A : Type ℓ} (P : A → Type κ) (Q : A → Type μ)
    → ((a : A) → P a → Q a)
    → (o : Outcome A) → Returns P o
    → Returns Q o
Returns-imp P Q f (ret a) h = f a h
Returns-imp P Q f panic h = elim h [ ]
Returns-imp P Q f blocked h = elim h [ ]

-- A return whose value meets the predicate.
pub Returns-ret {ℓ κ} :
    {A : Type ℓ} (P : A → Type κ) (o : Outcome A) → Returns P o → (a : A) × (o ≡ ret a) × P a
Returns-ret P (ret a) h = (a, refl, h)
Returns-ret P panic h = elim h [ ]
Returns-ret P blocked h = elim h [ ]

-- Rule for sequencing.
pub Returns->>= {ℓ κ μ ν} :
    {A : Type ℓ} {B : Type κ} (P : A → Type μ) (Q : B → Type ν) (o : Outcome A) (f : A → Outcome B)
    → Returns P o
    → ((a : A) → P a → Returns Q (f a))
    → Returns Q (o >>= f)
Returns->>= P Q (ret a) f h k = k a h
Returns->>= P Q panic f h k = elim h [ ]
Returns->>= P Q blocked f h k = elim h [ ]

-- A sequence that returned went through its first part.
pub >>=-eq-ret {ℓ κ} :
    {A : Type ℓ} {B : Type κ} (o : Outcome A) (f : A → Outcome B) {b : B}
    → (o >>= f) ≡ ret b
    → (a : A) × (o ≡ ret a) × (f a ≡ ret b)
>>=-eq-ret (ret a) f h = (a, refl, h)
>>=-eq-ret panic f h = cc
>>=-eq-ret blocked f h = cc

pub Returns-eq {ℓ κ} :
    {A : Type ℓ} (P : A → Type κ) (o : Outcome A) {a : A} → Returns P o → o ≡ ret a → P a
Returns-eq P (ret b) h e = subst P (cc) h
Returns-eq P panic h e = elim h [ ]
Returns-eq P blocked h e = elim h [ ]
