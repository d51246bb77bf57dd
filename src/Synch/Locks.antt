-- ===== src/Synch/Locks.antt =====
-- lock_acquire and lock_release of src/kern/thread/synch.c, run by threads that release what they hold.
use ed_operating_system.Prelude.{
  ℕ, ◌≡◌, ◌≢◌, ◌≤◌, ◌<◌, refl, ap, subst, Bool, true, false, Option, none, some, List, [], ◌∷◌,
  ◌++◌, length, length-append, arith, Bool-cases, inl, inr, ◌⊎◌,
}
use ed_operating_system.Synch.{Lock, lock_create, acquire_pass, lock_release, wake_one}
use ed_operating_system.Synch.Semaphores.{awake}

-- A lock, the threads inside `lock_acquire` that are not asleep, and the threads that have come out of
-- it and have not released the lock.
pub record System : Type 0 where
  pub lock : Lock
  pub trying : List ℕ
  pub inside : List ℕ

abbrev pub initial : System
initial = record { lock = lock_create; trying = []; inside = [] }

-- After a pass of `t` that left the threads `others` trying.
abbrev pub passed : System → ℕ → List ℕ → Bool × Lock → System
passed s t others (true, l) = record { lock = l; trying = others; inside = t ∷ s.inside }
passed s t others (false, l) = record s { lock = l; trying = others }

-- After a release that leaves the threads `others` inside.
abbrev pub released : System → List ℕ → Option ℕ × Lock → System
released s others (woken, l) = record { lock = l; trying = awake woken s.trying; inside = others }

-- The steps: a thread calls `lock_acquire`; a thread that tries makes a pass; a thread that holds the
-- lock releases it.
pub data Step : System → System → Type 0 where
  call : (s : System) (t : ℕ) → Step s (record s { trying = t ∷ s.trying })
  pass :
      (s : System) (before after : List ℕ) (t : ℕ)
      → s.trying ≡ before ++ (t ∷ after)
      → Step s (passed s t (before ++ after) (acquire_pass t s.lock))
  leave :
      (s : System) (before after : List ℕ) (t : ℕ)
      → s.inside ≡ before ++ (t ∷ after)
      → Step s (released s (before ++ after) (lock_release s.lock))

pub data Reachable : System → Type 0 where
  start : Reachable initial
  next : {s s' : System} → Reachable s → Step s s' → Reachable s'

-- What the lock says of the threads inside: nobody, or the holder alone.
abbrev pub Agrees : Bool → Option ℕ → List ℕ → Type 0
Agrees false holder inside = (holder ≡ none) × (inside ≡ [])
Agrees true holder inside = (t : ℕ) × (holder ≡ some t) × (inside ≡ t ∷ [])

-- Mutual exclusion, and a thread that sleeps waits for a holder or a thread on its way.
pub record IsWf (s : System) : Type 0 where
  pub agrees : Agrees s.lock.taken s.lock.lk_holder s.inside
  pub no_lost_wakeup : s.lock.waiting ≢ [] → (s.lock.taken ≡ true) ⊎ (0 < length s.trying)

Agrees-free :
    (b : Bool) (holder : Option ℕ) (inside : List ℕ)
    → b ≡ false
    → Agrees b holder inside
    → inside ≡ []
Agrees-free false holder inside e a = a.1
Agrees-free true holder inside e a = cc

Agrees-one :
    (b : Bool) (holder : Option ℕ) (inside : List ℕ) → Agrees b holder inside → length inside ≤ 1
Agrees-one false holder inside a = omega (arith, ap length a.1)
Agrees-one true holder inside (t, h, e) = omega (arith, ap length e)

-- A list of one element, less that element.
none-left :
    (before after : List ℕ) (t : ℕ) → length (before ++ (t ∷ after)) ≤ 1 → before ++ after ≡ []
none-left [] [] t h = refl
none-left [] (x ∷ after) t h = absurd (omega arith)
none-left (x ∷ before) after t h = absurd (omega (arith, length-append before (t ∷ after)))

step-pass :
    (s : System) (before after : List ℕ) (t : ℕ)
    → s.trying ≡ before ++ (t ∷ after)
    → IsWf s
    → IsWf (passed s t (before ++ after) (acquire_pass t s.lock))
unfolding acquire_pass
step-pass s before after t e wf = elim (Bool-cases s.lock.taken) [
  | inl held ↦ rw held (record {
    agrees = subst (λ b. Agrees b s.lock.lk_holder s.inside) held wf.agrees;
    no_lost_wakeup = λ ne. inl refl;
  })
  | inr free ↦ rw free (record {
    agrees = (
      t,
      refl,
      ap (λ ts. t ∷ ts) (Agrees-free s.lock.taken s.lock.lk_holder s.inside free wf.agrees),
    );
    no_lost_wakeup = λ ne. inl refl;
  })
]

woken-awake :
    (waiting trying : List ℕ)
    → (wake_one waiting).1 ≢ []
    → 0 < length (awake (wake_one waiting).0 trying)
woken-awake [] trying ne = absurd (ne refl)
woken-awake (t ∷ ts) trying ne = omega arith

step-leave :
    (s : System) (before after : List ℕ) (t : ℕ)
    → s.inside ≡ before ++ (t ∷ after)
    → IsWf s
    → IsWf (released s (before ++ after) (lock_release s.lock))
unfolding lock_release
step-leave s before after t e wf = record {
  agrees = (
    refl,
    none-left before after t (
        subst (λ ts. length ts ≤ 1) e
          (Agrees-one s.lock.taken s.lock.lk_holder s.inside wf.agrees)),
  );
  no_lost_wakeup = λ ne. inr (woken-awake s.lock.waiting s.trying ne);
}

-- In every state that threads can reach by acquiring a lock and releasing it when they hold it, at
-- most one thread is inside, `lk_holder` and `taken` say which one, and while some thread sleeps, the
-- lock is taken or another thread is on its way to take it.
pub mutual_exclusion : {s : System} → Reachable s → IsWf s
mutual_exclusion start = record { agrees = (refl, refl); no_lost_wakeup = λ ne. absurd (ne refl) }
mutual_exclusion (next r (call s t)) =
    let wf = mutual_exclusion r in
    record { agrees = wf.agrees; no_lost_wakeup = λ ne. inr (omega arith) }
mutual_exclusion (next r (pass s before after t e)) =
    step-pass s before after t e (mutual_exclusion r)
mutual_exclusion (next r (leave s before after t e)) =
    step-leave s before after t e (mutual_exclusion r)
