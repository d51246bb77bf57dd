-- ===== src/Synch/Semaphores.antt =====
-- P and V of src/kern/thread/synch.c, run by any number of threads in any order.
use ed_operating_system.Prelude.{
  ℕ, suc, ◌+◌, ◌%◌, ◌^◌, ◌≡◌, ◌≢◌, ◌≤◌, ◌<◌, refl, ap, subst, ◌∙◌, Bool, true, false, Option, none,
  some, List, [], ◌∷◌, ◌++◌, length, length-append, ◌==◌, if◌then◌else◌, ret, panic, arith,
  Bool-cases, inl, inr,
}
use ed_operating_system.Synch.{Semaphore, sem_create, p_pass, v, wake_one}

-- A semaphore, the threads inside `P` that are not asleep, and how many calls of `P` and `V` have
-- ended.
pub record System : Type 0 where
  pub semaphore : Semaphore
  pub trying : List ℕ
  pub through : ℕ
  pub posted : ℕ

abbrev pub initial : ℕ → System
initial n = record { semaphore = sem_create n; trying = []; through = 0; posted = 0 }

-- A woken thread is again in the loop of `P`.
abbrev pub awake : Option ℕ → List ℕ → List ℕ
awake none ts = ts
awake (some t) ts = t ∷ ts

-- After a pass that left the threads `others` trying.
abbrev pub passed : System → List ℕ → Bool × Semaphore → System
passed s others (true, sem) = record s { semaphore = sem; trying = others; through = s.through + 1 }
passed s others (false, sem) = record s { semaphore = sem; trying = others }

-- The steps: a thread calls `P`; a thread that tries makes a pass; a thread calls `V`.
pub data Step : System → System → Type 0 where
  call : (s : System) (t : ℕ) → Step s (record s { trying = t ∷ s.trying })
  pass :
      (s : System) (before after : List ℕ) (t : ℕ)
      → s.trying ≡ before ++ (t ∷ after)
      → Step s (passed s (before ++ after) (p_pass t s.semaphore))
  post :
      (s : System) (woken : Option ℕ) (sem : Semaphore)
      → v s.semaphore ≡ ret (woken, sem)
      → Step s (record s { semaphore = sem; trying = awake woken s.trying; posted = s.posted + 1 })

pub data Reachable (n : ℕ) : System → Type 0 where
  start : Reachable n (initial n)
  next : {s s' : System} → Reachable n s → Step s s' → Reachable n s'

-- Nothing is lost: the count accounts for every call, and while a thread sleeps there are as many
-- threads on their way as the count lets through.
pub record IsWf (n : ℕ) (s : System) : Type 0 where
  pub word : s.semaphore.count < 2 ^ 32
  pub balance : s.semaphore.count + s.through ≡ n + s.posted
  pub no_lost_wakeup : s.semaphore.waiting ≢ [] → s.semaphore.count ≤ length s.trying

step-pass :
    {n : ℕ} (s : System) (before after : List ℕ) (t : ℕ)
    → s.trying ≡ before ++ (t ∷ after)
    → IsWf n s
    → IsWf n (passed s (before ++ after) (p_pass t s.semaphore))
unfolding p_pass
step-pass {n} s before after t e wf =
    let total : length s.trying ≡ suc (length (before ++ after)) =
      ap length e ∙ omega (arith, length-append before (t ∷ after), length-append before after) in
    elim (Bool-cases (s.semaphore.count == 0)) [
      | inl none_left ↦
          rw none_left
            (record { word = wf.word; balance = wf.balance; no_lost_wakeup = λ ne. ground arith })
      | inr some_left ↦ rw some_left (record {
        word = omega (arith, wf.word);
        balance = ground (arith, wf.balance);
        no_lost_wakeup = λ ne. ground (arith, wf.no_lost_wakeup ne, total);
      })
    ]

-- A call of V that ended did not wrap the count.
unless_panic :
    (b : Bool) (x y : Option ℕ × Semaphore)
    → (if b then panic else ret x) ≡ ret y
    → (b ≡ false) × (x ≡ y)
unless_panic true x y e = cc
unless_panic false x y e = (refl, cc)

-- The thread that is woken is one more on its way.
woken-awake :
    (waiting trying : List ℕ) (c : ℕ)
    → (waiting ≢ [] → c ≤ length trying)
    → (wake_one waiting).1 ≢ []
    → c + 1 ≤ length (awake (wake_one waiting).0 trying)
woken-awake [] trying c h ne = absurd (ne refl)
woken-awake (t ∷ ts) trying c h ne = omega (arith, h (λ e. cc))

step-post :
    {n : ℕ} (s : System) (woken : Option ℕ) (sem : Semaphore)
    → v s.semaphore ≡ ret (woken, sem)
    → IsWf n s
    → IsWf n (record s { semaphore = sem; trying = awake woken s.trying; posted = s.posted + 1 })
unfolding v
step-post {n} s woken sem e wf =
    let next_count = (s.semaphore.count + 1) % 2 ^ 32 in
    let result : Option ℕ × Semaphore = (
      (wake_one s.semaphore.waiting).0,
      record { count = next_count; waiting = (wake_one s.semaphore.waiting).1 },
    ) in
    let (no_wrap, same) = unless_panic (next_count == 0) result (woken, sem) e in
    let counted : next_count ≡ s.semaphore.count + 1 = ground (arith, wf.word) in
    subst
      (λ r.
        IsWf n (record s { semaphore = r.1; trying = awake r.0 s.trying; posted = s.posted + 1 }))
      same
      (record {
        word = omega arith;
        balance = omega (arith, counted, wf.balance);
        no_lost_wakeup = λ ne. omega (
          arith,
          counted,
          woken-awake s.semaphore.waiting s.trying s.semaphore.count wf.no_lost_wakeup ne,
        );
      })

-- Every state that threads can reach by calls of P and V on a semaphore that starts with the count `n`,
-- which fits 32 bits, keeps two laws: the count plus the number of calls of P that got through is `n`
-- plus the number of calls of V; and while some thread sleeps, at least as many threads are awake in P as
-- the count lets through, so that no wakeup is lost.
pub every_post_counts : {n : ℕ} {s : System} → n < 2 ^ 32 → Reachable n s → IsWf n s
every_post_counts small start = record {
  word = small;
  balance = refl;
  no_lost_wakeup = λ ne. absurd (ne refl);
}
every_post_counts {n} small (next r (call s t)) =
    let wf = every_post_counts small r in
    record {
      word = wf.word;
      balance = wf.balance;
      no_lost_wakeup = λ ne. omega (arith, wf.no_lost_wakeup ne);
    }
every_post_counts {n} small (next r (pass s before after t e)) =
    step-pass s before after t e (every_post_counts small r)
every_post_counts {n} small (next r (post s woken sem e)) =
    step-post s woken sem e (every_post_counts small r)
