-- ===== src/Vm/Pages/Runs.antt =====
-- Runs of free pages in the table of src/kern/arch/mips/vm/vm.c, and what checkRange, find_next_free and
-- make_unavailable do on them.
use mathlib.Core.Bool.{false≢true}
use native.Mathlib.Decide.{ℕ_discrete, dec_lt}
use ed_operating_system.Prelude.{
  ℕ, zero, suc, ◌+◌, ◌-◌, ◌^◌, ◌≤◌, ◌<◌, ◌≡◌, ◌∙◌, sym, ap, refl, Bool, true, false, not, ◌&&◌,
  Option, none, some, List, length, get_elem?, set, length-set, get_elem?-set, get_elem?-some,
  get_elem?-none, get_elem?-lt, ltb, leb, lt→ltb, if◌then◌else◌, arith, ret, Returns-imp, Returns,
  Bool-cases, Option-cases, inl, inr, ◌⊎◌,
}
use ed_operating_system.Vm.Pages.{
  Page, int_rounds, check_loop, check_range, find_free_from, find_next_free, take_pages,
  make_unavailable,
}

-- Is page `i` in the table and free?
abbrev pub free_at : List Page → ℕ → Bool
free_at pages i = elim (get_elem? pages i) [ none ↦ false | some p ↦ not p.taken ]

-- Are the `n` pages from `i` on in the table and free?
unfoldable pub free_run : List Page → ℕ → ℕ → Bool
free_run pages zero i = true
free_run pages (suc n) i = free_at pages i && free_run pages n (i + 1)

pub free_at-lt : (pages : List Page) (i : ℕ) → free_at pages i ≡ true → i < length pages
free_at-lt pages i h = elim (Option-cases (get_elem? pages i)) [
  | inl e ↦ ground arith
  | inr (p, e) ↦ get_elem?-lt pages i e
]

pub free_run-le-length :
    (pages : List Page) (n i : ℕ)
    → i ≤ length pages
    → free_run pages n i ≡ true
    → i + n ≤ length pages
unfolding free_run
free_run-le-length pages zero i hi h = omega arith
free_run-le-length pages (suc n) i hi h =
    let here : free_at pages i ≡ true = ground arith in
    let later : free_run pages n (i + 1) ≡ true = ground arith in
    omega (
      arith,
      free_at-lt pages i here,
      free_run-le-length pages n (i + 1) (omega (arith, free_at-lt pages i here)) later,
    )

-- The loop of checkRange inside the table decides whether the run is free.
pub check_loop_lem :
    (pages : List Page) (n i : ℕ)
    → i + n ≤ length pages
    → check_loop pages n i ≡ ret (free_run pages n i)
unfolding check_loop free_run
check_loop_lem pages zero i h = refl
check_loop_lem pages (suc n) i h =
    let (p, e) = get_elem?-some pages i (omega arith) in
    ground (arith, check_loop_lem pages n (i + 1))

-- Wherever it answers yes, the run is free.
pub check_loop-true :
    (pages : List Page) (n i : ℕ) → check_loop pages n i ≡ ret true → free_run pages n i ≡ true
unfolding check_loop free_run
check_loop-true pages zero i h = refl
check_loop-true pages (suc n) i h = elim (Option-cases (get_elem? pages i)) [
  | inl e ↦ ground arith
  | inr (p, e) ↦ ground (arith, check_loop-true pages n (i + 1))
]

pub free_run-check_loop :
    (pages : List Page) (n i : ℕ) → free_run pages n i ≡ true → check_loop pages n i ≡ ret true
unfolding check_loop free_run
free_run-check_loop pages zero i h = refl
free_run-check_loop pages (suc n) i h = elim (Option-cases (get_elem? pages i)) [
  | inl e ↦ ground arith
  | inr (p, e) ↦ ground (arith, free_run-check_loop pages n (i + 1))
]

-- Where the end of the run is an `int`, the loops make a round for each page.
pub int_rounds-small : (i n : ℕ) → i + n < 2 ^ 31 → int_rounds i n ≡ n
int_rounds-small i n h = rw (lt→ltb (i + n) (2 ^ 31) h)

pub check_range-check_loop :
    (pages : List Page) (n i : ℕ) → i + n < 2 ^ 31 → check_range pages n i ≡ check_loop pages n i
unfolding check_range
check_range-check_loop pages n i h = ap (λ k. check_loop pages k i) (int_rounds-small i n h)

-- What find_next_free finds: the first free page past `start`, if there is one.
abbrev pub NextFree : List Page → ℕ → Option ℕ → Type 0
NextFree pages i none = (j : ℕ) → i ≤ j → free_at pages j ≡ false
NextFree pages i (some k) =
    (i ≤ k) × (free_at pages k ≡ true) × ((j : ℕ) → i ≤ j → j < k → free_at pages j ≡ false)

free_at-end : (pages : List Page) (i : ℕ) → length pages ≤ i → free_at pages i ≡ false
free_at-end pages i h = ground (arith, get_elem?-none pages i h)

NextFree-skip :
    (pages : List Page) (i : ℕ) (o : Option ℕ)
    → free_at pages i ≡ false
    → NextFree pages (i + 1) o
    → NextFree pages i o
NextFree-skip pages i none busy h =
    λ j le. elim (ℕ_discrete i j) [ yes e ↦ rw (← e) busy | no ne ↦ h j (omega arith) ]
NextFree-skip pages i (some k) busy (le, free, between) = (
  omega arith,
  free,
  λ j lo hi. elim (ℕ_discrete i j) [ yes e ↦ rw (← e) busy | no ne ↦ between j (omega arith) hi ],
)

find_free_from-NextFree :
    (pages : List Page) (rounds i : ℕ)
    → length pages ≤ rounds + i
    → (rounds ≡ 0) ⊎ (rounds + i ≡ length pages)
    → Returns (NextFree pages i) (find_free_from pages rounds i)
unfolding find_free_from
find_free_from-NextFree pages zero i le h = λ j lo. free_at-end pages j (omega arith)
find_free_from-NextFree pages (suc rounds) i le h =
    let (p, e) = get_elem?-some pages i (omega arith) in
    rw (e, find_free_from)
      (elim (Bool-cases p.taken) [
        | inl busy ↦ rw busy (
            Returns-imp _ _ (λ o. NextFree-skip pages i o (ground arith)) _
              (find_free_from-NextFree pages rounds (i + 1) (omega arith) (omega arith)))
        | inr free ↦ rw free (omega arith, ground arith, λ j lo hi. absurd (omega arith))
      ])

pub find_next_free-NextFree :
    (pages : List Page) (i : ℕ) → Returns (NextFree pages (i + 1)) (find_next_free pages i)
unfolding find_next_free
find_next_free-NextFree pages i =
    find_free_from-NextFree pages (length pages - (i + 1)) (i + 1) (omega arith) (omega arith)

abbrev pub mark_taken : ℕ → Option Page → Option Page
mark_taken master none = none
mark_taken master (some p) = some (record p { taken = true; master_index = master })

-- `r` is `pages` with the `n` entries from `i` on taken under `master`, and nothing else changed.
pub record Taken (master : ℕ) (pages : List Page) (n i : ℕ) (r : List Page) : Type 0 where
  pub size : length r ≡ length pages
  pub at :
      (j : ℕ)
      → get_elem? r j ≡ (
          if leb i j && ltb j (i + n)
          then mark_taken master (get_elem? pages j)
          else get_elem? pages j)

Taken-cons :
    (master : ℕ) (pages : List Page) (n i : ℕ) (p : Page)
    → get_elem? pages i ≡ some p
    → (r : List Page)
    → Taken master (set pages i (record p { taken = true; master_index = master })) n (i + 1) r
    → Taken master pages (suc n) i r
Taken-cons master pages n i p e r t = record {
  size = t.size ∙ length-set pages i (record p { taken = true; master_index = master });
  at = λ j. ground (
    arith,
    t.at j,
    get_elem?-set pages i j (record p { taken = true; master_index = master })
        (get_elem?-lt pages i e),
  );
}

take_pages-Taken :
    (master : ℕ) (pages : List Page) (n i : ℕ)
    → i + n ≤ length pages
    → Returns (Taken master pages n i) (take_pages master pages n i)
unfolding take_pages
take_pages-Taken master pages zero i h = record { size = refl; at = λ j. ground arith }
take_pages-Taken master pages (suc n) i h =
    let (p, e) = get_elem?-some pages i (omega arith) in
    let p' : Page = record p { taken = true; master_index = master } in
    rw (e, take_pages)
      (Returns-imp _ _ (λ r t. Taken-cons master pages n i p e r t) _
        (take_pages-Taken master (set pages i p') n (i + 1) (omega (arith, length-set pages i p'))))

-- The master index of page `i`.
abbrev pub master_at : List Page → ℕ → ℕ
master_at pages i = elim (get_elem? pages i) [ none ↦ 0 | some p ↦ p.master_index ]

-- make_unavailable inside the table takes the run under the master index of its first page.
pub make_unavailable-Taken :
    (pages : List Page) (n i : ℕ)
    → i < length pages
    → i + n ≤ length pages
    → i + n < 2 ^ 31
    → Returns (Taken (master_at pages i) pages n i) (make_unavailable pages i n)
unfolding make_unavailable
make_unavailable-Taken pages n i hi h small =
    let (p, e) = get_elem?-some pages i hi in
    rw (e, make_unavailable, int_rounds-small i n small, master_at)
      (take_pages-Taken p.master_index pages n i h)

pub free_run-first :
    (pages : List Page) (n i : ℕ) → 0 < n → free_run pages n i ≡ true → free_at pages i ≡ true
unfolding free_run
free_run-first pages zero i h free = absurd (omega arith)
free_run-first pages (suc n) i h free = ground arith

-- The next free page past `i` is no later than any free page past `i`.
pub NextFree-bound :
    (pages : List Page) (i k : ℕ) (o : Option ℕ)
    → NextFree pages i o
    → i ≤ k
    → free_at pages k ≡ true
    → (j : ℕ) × (o ≡ some j) × (i ≤ j) × (j ≤ k)
NextFree-bound pages i k none none_free le free = absurd (false≢true (sym (none_free k le) ∙ free))
NextFree-bound pages i k (some j) (lo, here, between) le free = elim (dec_lt k j) [
  | yes lt ↦ absurd (false≢true (sym (between k le lt) ∙ free))
  | no ge ↦ (j, refl, lo, omega arith)
]
