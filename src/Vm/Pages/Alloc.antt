-- ===== src/Vm/Pages/Alloc.antt =====
-- alloc_kpages of src/kern/arch/mips/vm/vm.c: what it grants, that it finds a run when there is one, and
-- what happens at the end of the table.
use native.Mathlib.Decide.{ℕ_discrete}
use mathlib.Core.Bool.{false≢true}
use ed_operating_system.Prelude.{
  ℕ, zero, suc, ◌+◌, ◌-◌, ◌^◌, ◌≤◌, ◌<◌, ◌≡◌, ◌∙◌, sym, ap, refl, Bool, true, false, Option, none,
  some, List, length, get_elem?, get_elem?-some, get_elem?-lt, ltb, lt→ltb, ltb→lt, arith, Outcome,
  ret, Returns, Returns-imp, Returns-eq, Returns->>=, >>=-eq-ret, Bool-cases, inl, inr, ◌⊎◌,
}
use ed_operating_system.Vm.Pages.{
  Page, PageTable, check_range, check_loop, take_pages, find_next_free, make_unavailable,
  address_of, grant, search_on, settle, alloc_from, alloc_kpages, enomem_value, first_valid,
}
use ed_operating_system.Vm.Pages.Runs.{
  free_run, free_run-le-length, check_loop_lem, check_loop-true, check_range-check_loop, NextFree,
  find_next_free-NextFree, NextFree-bound, free_run-first, Taken, make_unavailable-Taken, master_at,
}

-- The pages `[i, i + n)` are granted: the address is that of page `i`, and these pages are taken.
pub record Granted (pages : List Page) (n i : ℕ) (x : ℕ × List Page) : Type 0 where
  pub valid : first_valid ≤ i
  pub free : free_run pages n i ≡ true
  pub address : address_of pages i ≡ ret x.0
  pub taken : Taken (master_at pages i) pages n i x.1

-- What a return of the allocator means.
abbrev pub AllocPost : List Page → ℕ → ℕ × List Page → Type 0
AllocPost pages n x = ((i : ℕ) × Granted pages n i x) ⊎ ((x.0 ≡ enomem_value) × (x.1 ≡ pages))

grant-Granted :
    (pages : List Page) (n i : ℕ)
    → first_valid ≤ i
    → i < length pages
    → i + n < 2 ^ 31
    → free_run pages n i ≡ true
    → Returns (Granted pages n i) (grant pages n i)
unfolding grant address_of
grant-Granted pages n i hv hi small free =
    let (p, e) = get_elem?-some pages i hi in
    let found : address_of pages i ≡ ret p.virtual_addr = rw (e, address_of) in
    rw found (
      Returns->>= (Taken (master_at pages i) pages n i) (Granted pages n i)
        (make_unavailable pages i n) _
        (make_unavailable-Taken pages n i hi (free_run-le-length pages n i (omega arith) free)
          small)
        (λ r t. record { valid = hv; free = free; address = found; taken = t }))

module _ {pages : List Page} {n i : ℕ} {x : ℕ × List Page}
    {next_round : ℕ → Outcome (ℕ × List Page)} where
  search_on-AllocPost :
      (o : Option ℕ)
      → first_valid ≤ i
      → NextFree pages (i + 1) o
      → search_on next_round pages o ≡ ret x
      → ((j : ℕ) → first_valid ≤ j → next_round j ≡ ret x → AllocPost pages n x)
      → AllocPost pages n x
  unfolding search_on
  search_on-AllocPost none hv nf e later = inr (ground arith, ground arith)
  search_on-AllocPost (some j) hv (lo, free, between) e later = later j (omega arith) e

  settle-AllocPost :
      (b : Bool)
      → first_valid ≤ i
      → i < length pages
      → i + n < 2 ^ 31
      → check_range pages n i ≡ ret b
      → settle next_round pages n i b ≡ ret x
      → ((j : ℕ) → first_valid ≤ j → next_round j ≡ ret x → AllocPost pages n x)
      → AllocPost pages n x
  unfolding settle
  settle-AllocPost true hv lt small checked e later =
      let free : free_run pages n i ≡ true =
        check_loop-true pages n i (sym (check_range-check_loop pages n i small) ∙ checked) in
      inl (i, Returns-eq _ _ (grant-Granted pages n i hv lt small free) e)
  settle-AllocPost false hv lt small checked e later =
      let (o, found, went) = >>=-eq-ret (find_next_free pages i) _ e in
      search_on-AllocPost o hv
        (Returns-eq (NextFree pages (i + 1)) _ (find_next_free-NextFree pages i) found) went later

alloc_from-AllocPost :
    (pages : List Page) (n fuel i : ℕ) (x : ℕ × List Page)
    → first_valid ≤ i
    → n + length pages < 2 ^ 31
    → alloc_from pages n fuel i ≡ ret x
    → AllocPost pages n x
unfolding alloc_from
alloc_from-AllocPost pages n zero i x hv small h = inr (ground arith, ground arith)
alloc_from-AllocPost pages n (suc fuel) i x hv small h = elim (Bool-cases (ltb i (length pages))) [
  | inr past ↦ inr (ground arith, ground arith)
  | inl inside ↦
      let (b, checked, went) = >>=-eq-ret (check_range pages n i) _ (rw inside at h) in
      let lt : i < length pages = ltb→lt _ _ inside in
      settle-AllocPost b hv lt (omega arith) checked went
        (λ j hj. alloc_from-AllocPost pages n fuel j x hj small)
]

-- If there is a run of `n` free pages, alloc_kpages grants a run of `n` pages that starts no later.
alloc_from-first_fit :
    (pages : List Page) (n fuel i k : ℕ)
    → 0 < n
    → first_valid ≤ i
    → i ≤ k
    → length pages ≤ fuel + i
    → k ≤ length pages
    → length pages < 2 ^ 31
    → free_run pages n k ≡ true
    → Returns (λ x. (j : ℕ) × (j ≤ k) × Granted pages n j x) (alloc_from pages n fuel i)
unfolding alloc_from settle search_on
alloc_from-first_fit pages n zero i k hn hv hi hf hk int free =
    absurd (omega (arith, free_run-le-length pages n k hk free))
alloc_from-first_fit pages n (suc fuel) i k hn hv hi hf hk int free =
    let fits = free_run-le-length pages n k hk free in
    rw
      (
        lt→ltb i (length pages) (omega arith),
        check_range-check_loop pages n i (omega arith),
        check_loop_lem pages n i (omega arith),
      )
      (elim (Bool-cases (free_run pages n i)) [
        | inl here ↦ rw here (
            Returns-imp (Granted pages n i) (λ x. (j : ℕ) × (j ≤ k) × Granted pages n j x)
              (λ x g. (i, hi, g)) _ (grant-Granted pages n i hv (omega arith) (omega arith) here))
        | inr later ↦ rw later (
            Returns->>= (NextFree pages (i + 1)) (λ x. (j : ℕ) × (j ≤ k) × Granted pages n j x)
              (find_next_free pages i) _ (find_next_free-NextFree pages i)
              (λ o nf.
                let (j, found, lo, hi') =
                  NextFree-bound pages (i + 1) k o nf (strictly later)
                    (free_run-first pages n k hn free) in
                rw (found, search_on)
                  (alloc_from-first_fit pages n fuel j k hn (omega arith) hi' (omega arith) hk int
                    free)))
      ])
  where
    strictly : free_run pages n i ≡ false → i + 1 ≤ k
    strictly later = elim (ℕ_discrete i k) [
      | yes e ↦ absurd (false≢true (sym later ∙ rw e free))
      | no ne ↦ omega arith
    ]

-- If alloc_kpages returns, where the request and the length of the table add up to an `int`, what it
-- returns is either the address of the first of `n` free pages, which are
-- now taken with no other page changed, or ENOMEM with no page changed.
pub alloc_kpages_sound :
    (pt : PageTable) (n : ℕ) {x : ℕ × PageTable}
    → n + length pt.pages < 2 ^ 31
    → alloc_kpages pt n ≡ ret x
    → AllocPost pt.pages n (x.0, x.1.pages)
unfolding alloc_kpages
alloc_kpages_sound pt n small h =
    let (y, e, went) = >>=-eq-ret (alloc_from pt.pages n (length pt.pages) first_valid) _ h in
    let post =
      alloc_from-AllocPost pt.pages n (length pt.pages) first_valid y (omega arith) small e in
    elim post [
      | inl (i, g) ↦ inl (
        i,
        record {
          valid = g.valid;
          free = g.free;
          address = ground (arith, g.address);
          taken = record {
            size = ground (arith, g.taken.size);
            at = λ j. ground (arith, g.taken.at j);
          };
        },
      )
      | inr none_left ↦ inr (ground arith, ground arith)
    ]

-- If there is a run of `n` free pages from page 2 on, `n` not 0, in a table whose length is an `int`
-- as the source has it, alloc_kpages returns, and grants a
-- run of `n` free pages that starts no later.
pub alloc_kpages_first_fit :
    (pt : PageTable) (n k : ℕ)
    → 0 < n
    → first_valid ≤ k
    → k ≤ length pt.pages
    → length pt.pages < 2 ^ 31
    → free_run pt.pages n k ≡ true
    → Returns (λ x. (j : ℕ) × (j ≤ k) × Granted pt.pages n j (x.0, x.1.pages)) (alloc_kpages pt n)
unfolding alloc_kpages
alloc_kpages_first_fit pt n k hn hv hk int free =
    Returns->>= (λ x. (j : ℕ) × (j ≤ k) × Granted pt.pages n j x) _ _ _
      (alloc_from-first_fit pt.pages n (length pt.pages) first_valid k hn (omega arith) hv
        (omega arith) hk int free)
      (λ x g. g)

-- A request of 2^31 pages or more is a negative `int`: the loops of checkRange and make_unavailable make
-- no round, so alloc_kpages returns the address of page 2 whether that is free or not, and takes no page.
alloc_kpages_negative :
    (pt : PageTable) (n : ℕ) (p : Page)
    → 2 ^ 31 ≤ n
    → get_elem? pt.pages first_valid ≡ some p
    → alloc_kpages pt n ≡ ret (p.virtual_addr, pt)
unfolding alloc_kpages alloc_from check_range check_loop settle grant address_of make_unavailable
    take_pages
alloc_kpages_negative pt n p h e =
    let inside : first_valid < length pt.pages = get_elem?-lt pt.pages first_valid e in
    let some_fuel : length pt.pages ≡ suc (length pt.pages - 1) = omega arith in
    let none_made : ltb (first_valid + n) (2 ^ 31) ≡ false = ground arith in
    let round : alloc_from pt.pages n (suc (length pt.pages - 1)) first_valid
        ≡ ret (p.virtual_addr, pt.pages) =
      rw (lt→ltb first_valid (length pt.pages) inside, none_made, grant, address_of, e)
        (rw (make_unavailable, e, none_made) refl) in
    rw (ap (λ f. alloc_from pt.pages n f first_valid) some_fuel ∙ round) refl
