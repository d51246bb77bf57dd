-- ===== src/Vm/Pages/Overrun.antt =====
-- alloc_kpages of src/kern/arch/mips/vm/vm.c at the end of the table: checkRange does not test the end.
use mathlib.Core.Bool.{false≢true}
use native.Mathlib.Decide.{ℕ_discrete, dec_lt}
use ed_operating_system.Prelude.{
  ℕ, zero, suc, ◌+◌, ◌-◌, ◌^◌, ◌≤◌, ◌<◌, ◌≡◌, ◌∙◌, sym, ap, true, false, Option, none, some, List,
  length, get_elem?-some, get_elem?-none, lt→ltb, arith, ret, panic, Returns-ret,
}
use ed_operating_system.Vm.Pages.{
  Page, PageTable, check_loop, find_next_free, search_on, settle, alloc_from, alloc_kpages,
  first_valid,
}
use ed_operating_system.Vm.Pages.Runs.{
  free_at, free_run, check_range-check_loop, NextFree, NextFree-bound, find_next_free-NextFree,
}

-- A free run that reaches the end of the table, asked for more pages than it has.
check_loop-panic :
    (pages : List Page) (m n k : ℕ)
    → k + m ≡ length pages
    → m < n
    → free_run pages m k ≡ true
    → check_loop pages n k ≡ panic
unfolding check_loop free_run
check_loop-panic pages m zero k e lt free = absurd (omega arith)
check_loop-panic pages zero (suc n) k e lt free =
    rw (get_elem?-none pages k (omega arith), check_loop)
check_loop-panic pages (suc m) (suc n) k e lt free =
    let (p, found) = get_elem?-some pages k (omega arith) in
    ground (arith, check_loop-panic pages m n (k + 1))

check_loop-taken :
    (pages : List Page) (n i : ℕ)
    → i < length pages
    → 0 < n
    → free_at pages i ≡ false
    → check_loop pages n i ≡ ret false
unfolding check_loop
check_loop-taken pages zero i hi h busy = absurd (omega arith)
check_loop-taken pages (suc n) i hi h busy =
    let (p, found) = get_elem?-some pages i hi in ground arith

module _ (pages : List Page) (m n k : ℕ) where
  -- The round at the first page of the run.
  round_at_run :
      (fuel : ℕ)
      → 0 < fuel
      → 0 < m
      → m < n
      → k + m ≡ length pages
      → n + length pages < 2 ^ 31
      → free_run pages m k ≡ true
      → alloc_from pages n fuel k ≡ panic
  unfolding alloc_from
  round_at_run zero hf hm hn e int free = absurd (omega arith)
  round_at_run (suc fuel) hf hm hn e int free = rw (
    lt→ltb k (length pages) (omega arith),
    check_range-check_loop pages n k (omega arith),
    check_loop-panic pages m n k e hn free,
  )

  -- A round before it moves on to it.
  round_before_run :
      (fuel i : ℕ)
      → i < k
      → 0 < m
      → m < n
      → k + m ≡ length pages
      → n + length pages < 2 ^ 31
      → NextFree pages i (some k)
      → free_run pages m k ≡ true
      → alloc_from pages n (suc (suc fuel)) i ≡ panic
  unfolding alloc_from settle search_on
  round_before_run fuel i lt hm hn e int (le, first, between) free =
      let (o, found, post) =
        Returns-ret (NextFree pages (i + 1)) (find_next_free pages i)
          (find_next_free-NextFree pages i) in
      let (j, is_some, lo, hi) = NextFree-bound pages (i + 1) k o post (omega arith) first in
      let same : j ≡ k = next_is j o post is_some hi in
      rw
        (
          lt→ltb i (length pages) (omega arith),
          check_range-check_loop pages n i (omega arith),
          check_loop-taken pages n i (omega arith) (omega arith) (between i (omega arith) lt),
          found,
          is_some,
          same,
        )
        (round_at_run (suc fuel) (omega arith) hm hn e int free)
    where
      next_is : (j : ℕ) (o : Option ℕ) → NextFree pages (i + 1) o → o ≡ some j → j ≤ k → j ≡ k
      next_is j none nf is_some hi = cc
      next_is j (some j') (lo, here, nf) is_some hi = elim (dec_lt j k) [
        | yes lt' ↦ absurd (false≢true (sym (between j (ground arith) lt') ∙ ground arith))
        | no ge ↦ omega arith
      ]

-- If the only free pages from page 2 on are the last `m` ones, `m` not 0, any request for more than `m`
-- pages, where the request and the length of the table add up to an `int`, follows a wild pointer past
-- the end of the table instead of failing.
pub alloc_kpages_overrun :
    (pt : PageTable) (m n k : ℕ)
    → 0 < m
    → m < n
    → first_valid ≤ k
    → k + m ≡ length pt.pages
    → n + length pt.pages < 2 ^ 31
    → NextFree pt.pages first_valid (some k)
    → free_run pt.pages m k ≡ true
    → alloc_kpages pt n ≡ panic
unfolding alloc_kpages
alloc_kpages_overrun pt m n k hm hn hk e int next free = elim (ℕ_discrete first_valid k) [
  | yes at_start ↦
      rw (at_start, round_at_run pt.pages m n k (length pt.pages) (omega arith) hm hn e int free)
  | no before ↦
      let two_rounds : length pt.pages ≡ suc (suc (length pt.pages - 2)) = omega arith in
      let run =
        round_before_run pt.pages m n k (length pt.pages - 2) first_valid (omega arith) hm hn e int
          next free in
      rw (ap (λ f. alloc_from pt.pages n f first_valid) two_rounds ∙ run)
]
