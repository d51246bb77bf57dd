-- ===== src/Balloon/Steps.antt =====
-- Each step of src/kern/synchprobs/airballoon.c keeps the invariant.
use ed_operating_system.Prelude.{
  ℕ, ◌<◌, ◌≡◌, ◌≢◌, refl, sym, ◌∙◌, ap, subst, true, false, not, ◌||◌, Option, none, some, List,
  length, get_or, All, ◌==◌, if◌then◌else◌, ==_iff, ==_refl, ==-ne, Bool-cases, inl, inr, arith,
}
use ed_operating_system.Balloon.{Place, World, nropes, same_thread, go, with_lock}
use ed_operating_system.Balloon.Counting.{count_below, count_below-ext}
use ed_operating_system.Balloon.Invariant.{holds, is_severing, Sane, pending, counted, Inv}

-- The thread `t` goes to the place `p` in the world `w'`, which has the places of `w` still.
pub record Moves (w : World) (t : ℕ) (p : Place) (w' : World) : Type 0 where
  pub places : w'.places ≡ w.places
  pub mine : (x : ℕ) → same_thread (w'.locks x) t ≡ holds p x
  pub others : (u x : ℕ) → t ≢ u → same_thread (w'.locks x) u ≡ same_thread (w.locks x) u
  pub sane : Sane p
  pub severed_ropes : length w'.severed ≡ nropes
  pub stakes : All (λ r. r < nropes) w'.mappings
  pub grows : (x : ℕ) → get_or w.severed x false ≡ true → get_or w'.severed x false ≡ true
  pub done : (x : ℕ) → is_severing p x ≡ true → get_or w'.severed x false ≡ true
  pub count : w'.ropes_left ≡ count_below nropes (counted (go w' t p))

pub Moves-Inv :
    (w : World) (t : ℕ) (p : Place) (w' : World) → Inv w → Moves w t p w' → Inv (go w' t p)
Moves-Inv w t p w' i m = record {
  locked = λ u x. elim (Bool-cases (t == u)) [
    | inl e ↦ rw (e, ← (==_iff t u).0 e) (m.mine x)
    | inr d ↦ rw (d, m.places) (m.others u x (λ e. ground arith) ∙ i.locked u x)
  ];
  sane =
      λ u. elim (Bool-cases (t == u)) [ inl e ↦ rw e m.sane | inr d ↦ rw (d, m.places) (i.sane u) ];
  severed_ropes = m.severed_ropes;
  stakes = m.stakes;
  severing_done = λ u x. elim (Bool-cases (t == u)) [
    | inl e ↦ rw e (m.done x)
    | inr d ↦ rw (d, m.places) (λ s. m.grows x (i.severing_done u x s))
  ];
  count = m.count;
}

module _ (w : World) (t : ℕ) (i : Inv w) (q : Place) (e : w.places t ≡ q) where
  pub at_place : (x : ℕ) → same_thread (w.locks x) t ≡ holds q x
  at_place x = i.locked t x ∙ ap (λ r. holds r x) e

  -- A rope whose lock did not change hands counts as before.
  pub kept_pending :
      (w' : World) (p : Place) (x : ℕ)
      → w'.places ≡ w.places
      → w'.locks x ≡ w.locks x
      → is_severing p x ≡ is_severing q x
      → pending (go w' t p) (w'.locks x) x ≡ pending w (w.locks x) x
  kept_pending w' p x places locks same = rw locks (by_holder (w.locks x))
    where
      by_holder : (h : Option ℕ) → pending (go w' t p) h x ≡ pending w h x
      by_holder none = refl
      by_holder (some u) = elim (Bool-cases (t == u)) [
        | inl c ↦ rw (c, ← (==_iff t u).0 c, e) same
        | inr d ↦ rw (d, places)
      ]

  -- A step that changes no lock, no rope and no count.
  pub stays :
      (p : Place) (ms : List ℕ) (left : ℕ)
      → All (λ r. r < nropes) ms
      → Sane p
      → ((x : ℕ) → holds p x ≡ holds q x)
      → ((x : ℕ) → is_severing p x ≡ false)
      → ((x : ℕ) → is_severing q x ≡ false)
      → Inv (go (record w { mappings = ms; threads_left = left }) t p)
  stays p ms left stakes sane same calm calm' =
      let w' : World = record w { mappings = ms; threads_left = left } in
      Moves-Inv w t p w' i (record {
        places = refl;
        mine = λ x. at_place x ∙ sym (same x);
        others = λ u x ne. refl;
        sane = sane;
        severed_ropes = i.severed_ropes;
        stakes = stakes;
        grows = λ x s. s;
        done = λ x s. ground (calm x, arith);
        count =
            i.count
            ∙ count_below-ext nropes (counted w) (counted (go w' t p)) (λ x lt.
              ap (λ r. not (get_or w.severed x false) || r)
                (sym (kept_pending w' p x refl refl (calm x ∙ sym (calm' x)))));
      })

  -- The holders of the lock `x` where `t` takes it or gives it back.
  switched :
      (x : ℕ) (h : Option ℕ) (p : Place)
      → ((y : ℕ) → (if x == y then same_thread h t else holds q y) ≡ holds p y)
      → ((u : ℕ) → t ≢ u → same_thread h u ≡ same_thread (w.locks x) u)
      → (pending w (w.locks x) x ≡ false)
      → (pending (go (with_lock w x h) t p) h x ≡ false)
      → Sane p
      → ((y : ℕ) → is_severing p y ≡ false)
      → ((y : ℕ) → is_severing q y ≡ false)
      → Inv (go (with_lock w x h) t p)
  switched x h p mine others none_before none_after sane calm calm' =
      Moves-Inv w t p (with_lock w x h) i (record {
        places = refl;
        mine = λ y. elim (Bool-cases (x == y)) [
          | inl c ↦ rw c (ground (mine y, arith, c))
          | inr d ↦ rw d (at_place y ∙ ground (mine y, arith, d))
        ];
        others = λ u y ne. elim (Bool-cases (x == y)) [
          | inl c ↦ rw (c, ← (==_iff x y).0 c) (others u ne)
          | inr d ↦ rw d
        ];
        sane = sane;
        severed_ropes = i.severed_ropes;
        stakes = i.stakes;
        grows = λ y s. s;
        done = λ y s. ground (calm y, arith);
        count =
            i.count
            ∙ count_below-ext nropes (counted w) (counted (go (with_lock w x h) t p)) (λ y lt.
              ap (λ r. not (get_or w.severed y false) || r)
                (elim (Bool-cases (x == y)) [
                  | inl c ↦ rw c (
                      subst (λ z. pending w (w.locks z) z ≡ pending (go (with_lock w x h) t p) h z)
                        ((==_iff x y).0 c) (none_before ∙ sym none_after))
                  | inr d ↦
                      sym (kept_pending (with_lock w x h) p y refl (rw d) (calm y ∙ sym (calm' y)))
                ]));
      })

  -- The thread takes a free lock.
  pub acquired :
      (x : ℕ) (p : Place)
      → w.locks x ≡ none
      → ((y : ℕ) → (if x == y then true else holds q y) ≡ holds p y)
      → Sane p
      → ((y : ℕ) → is_severing p y ≡ false)
      → ((y : ℕ) → is_severing q y ≡ false)
      → Inv (go (with_lock w x (some t)) t p)
  acquired x p free mine sane calm calm' =
      switched x (some t) p (λ y. rw (==_refl t) (mine y)) (λ u ne. rw (free, ==-ne t u ne))
        (rw free) (rw (==_refl t) (calm x)) sane calm calm'

  pub same_thread-some : (h : Option ℕ) → same_thread h t ≡ true → h ≡ some t
  same_thread-some none c = absurd (ground (c, arith))
  same_thread-some (some u) c = ap some ((==_iff u t).0 c)

  -- The thread gives a lock back that it holds.
  pub released :
      (x : ℕ) (p : Place)
      → holds q x ≡ true
      → ((y : ℕ) → (if x == y then false else holds q y) ≡ holds p y)
      → Sane p
      → ((y : ℕ) → is_severing p y ≡ false)
      → ((y : ℕ) → is_severing q y ≡ false)
      → Inv (go (with_lock w x none) t p)
  released x p held mine sane calm calm' =
      let mine_now : w.locks x ≡ some t = same_thread-some (w.locks x) (at_place x ∙ held) in
      switched x none p mine (λ u ne. rw (mine_now, ==-ne t u ne)) (rw (mine_now, e) (calm' x)) refl
        sane calm calm'
