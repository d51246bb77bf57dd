-- ===== src/Synch/Conditions/Wakeups.antt =====
-- No wakeup is lost between the release of the lock in cv_wait and the sleep (src/kern/thread/synch.c).
use mathlib.Core.Bool.{false≢true}
use mathlib.Core.Option.{some-injective, some-ne-none}
use ed_operating_system.Prelude.{
  ℕ, Bool, true, false, ◌||◌, Option, none, some, List, [], ◌∷◌, ◌++◌, ◌==◌, ◌≡◌, ◌≢◌, refl, sym,
  ◌∙◌, subst, if◌then◌else◌, ret, panic, Returns, Returns-eq, Bool-cases, inl, inr, ==_iff, ==_refl,
  arith,
}
use ed_operating_system.Synch.{acquire_pass, lock_release, wake_one}
use ed_operating_system.Synch.Conditions.{
  Stage, Monitor, lock_do_i_hold, at_stage, wake_all, with_spin_lock, guarded, woken, wait_begin,
  wait_sleep, wait_end, cv_signal, cv_broadcast, Reachable,
}

abbrev elem : ℕ → List ℕ → Bool
elem t [] = false
elem t (x ∷ xs) = x == t || elem t xs

elem-append : (t : ℕ) (xs ys : List ℕ) → elem t (xs ++ ys) ≡ (elem t xs || elem t ys)
elem-append t [] ys = refl
elem-append t (x ∷ xs) ys = ground (elem-append t xs ys, arith)

-- Who sleeps is in the wait channel, and who is about to sleep has the spinlock.
record Inv (m : Monitor) : Type 0 where
  queued : (t : ℕ) → m.stages t ≡ Stage.asleep → elem t m.channel ≡ true
  spinning : (t : ℕ) → m.stages t ≡ Stage.entering → m.spin_lock ≡ some t

-- A thread that goes to a stage.
at_stage-Inv :
    (m : Monitor) (t : ℕ) (s : Stage)
    → (s ≡ Stage.asleep → elem t m.channel ≡ true)
    → (s ≡ Stage.entering → m.spin_lock ≡ some t)
    → ((u : ℕ) → t ≢ u → m.stages u ≡ Stage.asleep → elem u m.channel ≡ true)
    → ((u : ℕ) → t ≢ u → m.stages u ≡ Stage.entering → m.spin_lock ≡ some u)
    → Inv (at_stage m t s)
at_stage-Inv m t s sleep enter queued spinning = record {
  queued = λ u. elim (Bool-cases (t == u)) [
    | inl c ↦ rw (c, ← (==_iff t u).0 c) sleep
    | inr d ↦ rw d (queued u (λ e. ground arith))
  ];
  spinning = λ u. elim (Bool-cases (t == u)) [
    | inl c ↦ rw (c, ← (==_iff t u).0 c) enter
    | inr d ↦ rw d (spinning u (λ e. ground arith))
  ];
}

either :
    {A : Type 0} (a b : Bool) (x y : A)
    → (if b then x else if a then x else y) ≡ (if a || b then x else y)
either true true x y = refl
either true false x y = refl
either false b x y = refl

-- The stages after wchan_wakeall.
wake_all-stages :
    (ts : List ℕ) (m : Monitor) (u : ℕ)
    → (wake_all ts m).stages u ≡ (if elem u ts then Stage.waking else m.stages u)
wake_all-stages [] m u = refl
wake_all-stages (t ∷ ts) m u =
    wake_all-stages ts (at_stage m t Stage.waking) u
    ∙ either (t == u) (elem u ts) Stage.waking (m.stages u)

wake_all-rest :
    (ts : List ℕ) (m : Monitor)
    → ((wake_all ts m).channel ≡ m.channel) × ((wake_all ts m).spin_lock ≡ m.spin_lock)
wake_all-rest [] m = (refl, refl)
wake_all-rest (t ∷ ts) m = wake_all-rest ts (at_stage m t Stage.waking)

-- What returned was done with the spinlock free.
guarded-ret :
    (m : Monitor) (t : ℕ) (m' : Monitor) {r : Monitor}
    → guarded m t m' ≡ ret r
    → (m.spin_lock ≡ none) × (m' ≡ r)
guarded-ret m t m' {r} e = by_test (lock_do_i_hold m.lock t) m.spin_lock e
  where
    by_test :
        (holds : Bool) (spin : Option ℕ)
        → (if holds then with_spin_lock spin m' else panic) ≡ ret r
        → (spin ≡ none) × (m' ≡ r)
    by_test true none e' = (refl, Returns-eq (λ a. m' ≡ a) (ret m') refl e')
    by_test true (some u) e' = cc
    by_test false spin e' = cc

guarded-Returns :
    (P : Monitor → Type 0) (m : Monitor) (t : ℕ) (m' : Monitor)
    → lock_do_i_hold m.lock t ≡ true
    → m.spin_lock ≡ none
    → P m'
    → Returns P (guarded m t m')
guarded-Returns P m t m' holder free p = rw (holder, free) p

module _ (m : Monitor) (i : Inv m) where
  begin-Inv : (t : ℕ) (m' : Monitor) → wait_begin m t ≡ ret m' → Inv m'
  unfolding wait_begin
  begin-Inv t m' e =
      let m1 : Monitor = record m { spin_lock = some t; lock = (lock_release m.lock).1 } in
      let g : (m.spin_lock ≡ none) × (at_stage m1 t Stage.entering ≡ m') =
        guarded-ret m t (at_stage m1 t Stage.entering) e in
      subst Inv g.1 (
        at_stage-Inv m1 t Stage.entering (λ z. cc) (λ z. refl) (λ u ne s. i.queued u s)
          (λ u ne s. absurd (some-ne-none u (sym (i.spinning u s) ∙ g.0))))

  sleep-Inv : (t : ℕ) → m.stages t ≡ Stage.entering → Inv (wait_sleep m t)
  unfolding wait_sleep
  sleep-Inv t e =
      at_stage-Inv (record m { spin_lock = none; channel = m.channel ++ t ∷ [] }) t Stage.asleep
        (λ z. ground (elem-append t m.channel (t ∷ []), ==_refl t, arith)) (λ z. cc)
        (λ u ne s. ground (elem-append u m.channel (t ∷ []), i.queued u s, arith))
        (λ u ne s. absurd (ne (some-injective t u (sym (i.spinning t e) ∙ i.spinning u s))))

  end-Inv : (t : ℕ) → Inv (wait_end m t)
  unfolding wait_end
  end-Inv t = elim (Bool-cases (acquire_pass t m.lock).0) [
    | inl got ↦ rw got (
        at_stage-Inv (record m { lock = (acquire_pass t m.lock).1 }) t Stage.outside (λ z. cc)
          (λ z. cc) (λ u ne s. i.queued u s) (λ u ne s. i.spinning u s))
    | inr not_yet ↦ rw not_yet (
        at_stage-Inv (record m { lock = (acquire_pass t m.lock).1 }) t Stage.waking (λ z. cc)
          (λ z. cc) (λ u ne s. i.queued u s) (λ u ne s. i.spinning u s))
  ]

  signal-Inv : (t : ℕ) (m' : Monitor) → cv_signal m t ≡ ret m' → Inv m'
  unfolding cv_signal
  signal-Inv t m' e =
      subst Inv (guarded-ret m t (woken m (wake_one m.channel)) e).1 (by_channel m.channel refl)
    where
      by_channel : (c : List ℕ) → m.channel ≡ c → Inv (woken m (wake_one c))
      by_channel [] q = i
      by_channel (u ∷ rest) q =
          at_stage-Inv (record m { channel = rest }) u Stage.waking (λ z. cc) (λ z. cc)
            (λ x ne s.
              let there : elem x (u ∷ rest) ≡ true =
                subst (λ c. elem x c ≡ true) q (i.queued x s) in
              ground arith)
            (λ x ne s. i.spinning x s)

  -- After wchan_wakeall no thread sleeps, and where the spinlock is free none is about to.
  all_woken :
      m.spin_lock ≡ none
      → (u : ℕ)
      → ((wake_all m.channel (record m { channel = [] })).stages u ≢ Stage.asleep)
        × ((wake_all m.channel (record m { channel = [] })).stages u ≢ Stage.entering)
  all_woken free u =
      let after : (wake_all m.channel (record m { channel = [] })).stages u
          ≡ (if elem u m.channel then Stage.waking else m.stages u) =
        wake_all-stages m.channel (record m { channel = [] }) u in
      elim (Bool-cases (elem u m.channel)) [
        | inl there ↦
            let woke : (if elem u m.channel then Stage.waking else m.stages u) ≡ Stage.waking =
              rw there in
            (λ s. cc, λ s. cc)
        | inr absent ↦
            let same : (if elem u m.channel then Stage.waking else m.stages u) ≡ m.stages u =
              rw absent in
            (
              λ s. absurd (false≢true (sym absent ∙ i.queued u (sym same ∙ sym after ∙ s))),
              λ s. absurd (some-ne-none u (sym (i.spinning u (sym same ∙ sym after ∙ s)) ∙ free)),
            )
      ]

  broadcast-Inv : (t : ℕ) (m' : Monitor) → cv_broadcast m t ≡ ret m' → Inv m'
  unfolding cv_broadcast
  broadcast-Inv t m' e =
      let g : (m.spin_lock ≡ none) × (wake_all m.channel (record m { channel = [] }) ≡ m') =
        guarded-ret m t (wake_all m.channel (record m { channel = [] })) e in
      subst Inv g.1 (record {
        queued = λ u s. absurd ((all_woken g.0 u).0 s);
        spinning = λ u s. absurd ((all_woken g.0 u).1 s);
      })

Reachable-Inv : {m : Monitor} → Reachable m → Inv m
Reachable-Inv {m} Reachable.create = record { queued = λ t e. cc; spinning = λ t e. cc }
Reachable-Inv {m} (Reachable.acquires {m = v} t r s) =
    let i : Inv v = Reachable-Inv r in record { queued = i.queued; spinning = i.spinning }
Reachable-Inv {m} (Reachable.releases {m = v} t r s) =
    let i : Inv v = Reachable-Inv r in record { queued = i.queued; spinning = i.spinning }
Reachable-Inv {m} (Reachable.begins {m = v} t r s e) = begin-Inv v (Reachable-Inv r) t m e
Reachable-Inv {m} (Reachable.sleeps {m = v} t r s) = sleep-Inv v (Reachable-Inv r) t s
Reachable-Inv {m} (Reachable.ends {m = v} t r s) = end-Inv v (Reachable-Inv r) t
Reachable-Inv {m} (Reachable.signals {m = v} t r e) = signal-Inv v (Reachable-Inv r) t m e
Reachable-Inv {m} (Reachable.broadcasts {m = v} t r e) = broadcast-Inv v (Reachable-Inv r) t m e

-- In every state that threads reach in any order, cv_broadcast by the holder of the lock, while the
-- spinlock of the condition variable is free, returns and wakes every thread that has given up the lock
-- in cv_wait and was not woken yet: afterwards none sleeps or is about to.
pub cv_broadcast_lem :
    {m : Monitor} (t : ℕ)
    → Reachable m
    → lock_do_i_hold m.lock t ≡ true
    → m.spin_lock ≡ none
    → Returns
        (λ m'. (u : ℕ) → (m'.stages u ≢ Stage.asleep) × (m'.stages u ≢ Stage.entering))
        (cv_broadcast m t)
unfolding cv_broadcast
cv_broadcast_lem {m} t r holder free =
    guarded-Returns (λ m'. (u : ℕ) → (m'.stages u ≢ Stage.asleep) × (m'.stages u ≢ Stage.entering))
      m t (wake_all m.channel (record m { channel = [] })) holder free
      (all_woken m (Reachable-Inv r) free)
