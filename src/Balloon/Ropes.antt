-- ===== src/Balloon/Ropes.antt =====
-- Severing a rope and counting it, of src/kern/synchprobs/airballoon.c.
use ed_operating_system.Prelude.{
  ℕ, ◌+◌, ◌<◌, ◌≡◌, refl, sym, ◌∙◌, ap, subst, true, false, not, ◌||◌, Option, some, get_or, set,
  length-set, get_or-set_self, get_or-set_ne, ◌==◌, ==_iff, ==_refl, ==-ne, Bool-cases, inl, inr,
  arith,
}
use ed_operating_system.Balloon.{Place, World, nropes, go, sever, decrement}
use ed_operating_system.Balloon.Counting.{
  count_below, count_below-ext, count_below-drop, count_below-le,
}
use ed_operating_system.Balloon.Invariant.{holds, is_severing, Sane, counted, Inv}
use ed_operating_system.Balloon.Steps.{Moves-Inv, at_place, kept_pending, same_thread-some}

module _ (w : World) (t : ℕ) (i : Inv w) where
  pub severs :
      (rope : ℕ) (stake : Option ℕ)
      → w.places t ≡ Place.holding rope stake
      → get_or w.severed rope false ≡ false
      → Inv (sever w t rope)
  unfolding holds is_severing
  severs rope stake e whole =
      let q : Place = Place.holding rope stake in
      let p : Place = Place.severing rope in
      let w' : World = record w { severed = set w.severed rope true } in
      let in_range : rope < nropes = subst Sane e (i.sane t) in
      let now : get_or w'.severed rope false ≡ true =
        get_or-set_self w.severed rope true false (omega (arith, i.severed_ropes)) in
      let lock : w.locks rope ≡ some t =
        same_thread-some w t i q e (w.locks rope) (at_place w t i q e rope ∙ ==_refl rope) in
      Moves-Inv w t p w' i (record {
        places = refl;
        mine = λ x. at_place w t i q e x;
        others = λ u x ne. refl;
        sane = in_range;
        severed_ropes = length-set w.severed rope true ∙ i.severed_ropes;
        stakes = i.stakes;
        grows = λ x s. elim (Bool-cases (rope == x)) [
          | inl c ↦ subst (λ z. get_or w'.severed z false ≡ true) ((==_iff rope x).0 c) now
          | inr d ↦ get_or-set_ne w.severed rope x true false (λ z. ground arith) ∙ s
        ];
        done = λ x s. subst (λ z. get_or w'.severed z false ≡ true) ((==_iff rope x).0 s) now;
        count =
            i.count
            ∙ count_below-ext nropes (counted w) (counted (go w' t p)) (λ x lt.
              elim (Bool-cases (rope == x)) [
                | inl c ↦
                    subst (λ z. counted w z ≡ counted (go w' t p) z) ((==_iff rope x).0 c)
                      (rw (whole, now, lock, ==_refl t, ==_refl rope))
                | inr d ↦ rw (get_or-set_ne w.severed rope x true false (λ z. ground arith)) (
                    ap (λ r. not (get_or w.severed x false) || r)
                      (sym (kept_pending w t i q e w' p x refl refl d)))
              ]);
      })

  pub counts :
      (rope : ℕ)
      → w.places t ≡ Place.severing rope
      → Inv (go (record w { ropes_left = decrement w.ropes_left }) t (Place.releasing rope))
  unfolding holds is_severing
  counts rope e =
      let q : Place = Place.severing rope in
      let p : Place = Place.releasing rope in
      let w' : World = record w { ropes_left = decrement w.ropes_left } in
      let in_range : rope < nropes = subst Sane e (i.sane t) in
      let cut : get_or w.severed rope false ≡ true = i.severing_done t rope (rw e (==_refl rope)) in
      let lock : w.locks rope ≡ some t =
        same_thread-some w t i q e (w.locks rope) (at_place w t i q e rope ∙ ==_refl rope) in
      let fewer : count_below nropes (counted w) ≡ count_below nropes (counted (go w' t p)) + 1 =
        count_below-drop nropes rope (counted w) (counted (go w' t p)) in_range
          (rw (cut, lock, e, ==_refl rope)) (rw (cut, lock, ==_refl t))
          (λ x lt ne.
            ap (λ r. not (get_or w.severed x false) || r)
              (sym (kept_pending w t i q e w' p x refl refl (sym (==-ne rope x ne))))) in
      Moves-Inv w t p w' i (record {
        places = refl;
        mine = λ x. at_place w t i q e x;
        others = λ u x ne. refl;
        sane = tt;
        severed_ropes = i.severed_ropes;
        stakes = i.stakes;
        grows = λ x s. s;
        done = λ x s. ground (s, arith);
        count = omega (arith, fewer, i.count, count_below-le nropes (counted w));
      })
