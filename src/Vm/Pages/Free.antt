-- ===== src/Vm/Pages/Free.antt =====
-- free_kpages of src/kern/arch/mips/vm/vm.c, and the invariant of the page table.
use ed_operating_system.Prelude.{
  ℕ, zero, suc, ◌+◌, ◌-◌, ◌*◌, ◌^◌, ◌≤◌, ◌<◌, ◌≡◌, ◌≢◌, ◌∙◌, refl, true, false, Option, none, some,
  List, [], ◌∷◌, length, get_elem?, get_elem?-some, arith, ret, Option-cases, inl, inr, ◌⊎◌,
  if◌then◌else◌, not, ◌==◌, holds_below, holds_below-intro,
}
use ed_operating_system.Vm.Pages.{
  Page, PageTable, find_addr, free_first, free_kpages, alloc_kpages, first_valid, enomem_value,
  address_of,
}
use ed_operating_system.Vm.Pages.Runs.{
  free_at, free_run-first, free_run-le-length, free_at-lt, Taken, master_at,
}
use ed_operating_system.Vm.Pages.Alloc.{Granted, alloc_kpages_sound}

-- Past the entry 0, page `i` has its own address, a master no later than itself, and is its own master
-- while free.
pub record IsWf (base : ℕ) (pages : List Page) : Type 0 where
  pub address :
      (i : ℕ) (p : Page) → 1 ≤ i → get_elem? pages i ≡ some p → p.virtual_addr ≡ base + i * 4096
  pub master : (i : ℕ) (p : Page) → 1 ≤ i → get_elem? pages i ≡ some p → p.master_index ≤ i
  pub own :
      (i : ℕ) (p : Page) → 1 ≤ i → get_elem? pages i ≡ some p → p.taken ≡ false → p.master_index ≡ i

-- The page after it was given back.
abbrev pub mark_free : ℕ → Option Page → Option Page
mark_free i none = none
mark_free i (some p) = some (record p { taken = false; master_index = i })

find_addr_lem :
    (base : ℕ) (ps : List Page) (off i : ℕ)
    → ((j : ℕ) (p : Page)
        → 1 ≤ off + j
        → get_elem? ps j ≡ some p
        → p.virtual_addr ≡ base + (off + j) * 4096)
    → first_valid ≤ off + i
    → i < length ps
    → find_addr ps off (base + (off + i) * 4096) ≡ off + i
unfolding find_addr
find_addr_lem base [] off i at hv hi = absurd (omega arith)
find_addr_lem base (p ∷ ps) off zero at hv hi = ground (arith, at 0 p (omega arith) refl)
find_addr_lem base (p ∷ ps) off (suc i) at hv hi =
    let shift : off + suc i ≡ off + 1 + i = omega arith in
    let here : 1 ≤ off → p.virtual_addr ≡ base + off * 4096 =
      λ pos. at 0 p (omega arith) refl ∙ omega arith in
    rw shift (
      ground (
        arith,
        here,
        find_addr_lem base ps (off + 1) i (λ j q pos e. at (suc j) q (omega arith) e ∙ omega arith)
            (omega arith) (omega arith),
      ))

free_first_lem :
    (ps : List Page) (off i : ℕ) (j : ℕ)
    → ((k : ℕ) (p : Page) → 1 ≤ off + k → get_elem? ps k ≡ some p → p.master_index ≤ off + k)
    → first_valid ≤ off + i
    → i < length ps
    → master_at ps i ≡ off + i
    → get_elem? (free_first ps off (off + i)) j
      ≡ (if i == j then mark_free (off + i) (get_elem? ps j) else get_elem? ps j)
unfolding free_first
free_first_lem [] off i j le hv hi own = absurd (omega arith)
free_first_lem (p ∷ ps) off zero zero le hv hi own = ground arith
free_first_lem (p ∷ ps) off zero (suc j) le hv hi own = ground arith
free_first_lem (p ∷ ps) off (suc i) zero le hv hi own =
    let here : 1 ≤ off → p.master_index ≤ off = λ pos. omega (arith, le 0 p (omega arith) refl) in
    ground (arith, here)
free_first_lem (p ∷ ps) off (suc i) (suc j) le hv hi own =
    let shift : off + suc i ≡ off + 1 + i = omega arith in
    let here : 1 ≤ off → p.master_index ≤ off = λ pos. omega (arith, le 0 p (omega arith) refl) in
    rw shift (
      ground (
        arith,
        here,
        free_first_lem ps (off + 1) i j (λ k q pos e. omega (arith, le (suc k) q (omega arith) e))
            (omega arith) (omega arith) (own ∙ shift),
      ))

-- With the invariant of the table, free_kpages at the address of a page from page 2 on that is its own
-- master frees that one page, and changes no other.
pub free_kpages_lem :
    {base : ℕ} (pt : PageTable) (i j : ℕ)
    → IsWf base pt.pages
    → first_valid ≤ i
    → i < length pt.pages
    → master_at pt.pages i ≡ i
    → get_elem? (free_kpages pt (base + i * 4096)).pages j
      ≡ (if i == j then mark_free i (get_elem? pt.pages j) else get_elem? pt.pages j)
unfolding free_kpages
free_kpages_lem {base} pt i j wf hv hi own = rw found (
    rw start at (
      free_first_lem pt.pages 0 i j (λ k p pos e. omega (arith, wf.master k p (omega arith) e))
        (omega arith) hi (own ∙ omega arith)))
  where
    start : 0 + i ≡ i
    start = omega arith

    found : find_addr pt.pages 0 (base + i * 4096) ≡ i
    found = rw start at (
        find_addr_lem base pt.pages 0 i (λ k p pos e. wf.address k p (omega arith) e ∙ omega arith)
          (omega arith) hi)

-- free_kpages keeps the invariant of the table.
pub free_kpages-IsWf :
    {base : ℕ} (pt : PageTable) (i : ℕ)
    → IsWf base pt.pages
    → first_valid ≤ i
    → i < length pt.pages
    → master_at pt.pages i ≡ i
    → IsWf base (free_kpages pt (base + i * 4096)).pages
free_kpages-IsWf {base} pt i wf hv hi own = record {
  address =
      λ j p pos e. let (q, was) = before j p e in ground (arith, after j, wf.address j q pos was);
  master =
      λ j p pos e. let (q, was) = before j p e in ground (arith, after j, wf.master j q pos was);
  own =
      λ j p pos e free. let (q, was) = before j p e in ground (arith, after j, wf.own j q pos was);
}
  where
    after :
        (j : ℕ)
        → get_elem? (free_kpages pt (base + i * 4096)).pages j
          ≡ (if i == j then mark_free i (get_elem? pt.pages j) else get_elem? pt.pages j)
    after j = free_kpages_lem pt i j wf hv hi own

    before :
        (j : ℕ) (p : Page)
        → get_elem? (free_kpages pt (base + i * 4096)).pages j ≡ some p
        → (q : Page) × (get_elem? pt.pages j ≡ some q)
    before j p e = elim (Option-cases (get_elem? pt.pages j)) [
      | inl missing ↦ absurd (ground (arith, after j))
      | inr some_page ↦ some_page
    ]

-- What a grant did to one entry: nothing, or it took the page under the master of the run.
record Entry (pages : List Page) (i j : ℕ) (p' : Page) : Type 0 where
  old : Page
  was : get_elem? pages j ≡ some old
  same_address : p'.virtual_addr ≡ old.virtual_addr
  change : (p' ≡ old) ⊎ ((p'.taken ≡ true) × (p'.master_index ≡ master_at pages i) × (i ≤ j))

Taken-Entry :
    {pages r : List Page} {n i : ℕ} (j : ℕ) (p' : Page)
    → Taken (master_at pages i) pages n i r
    → get_elem? r j ≡ some p'
    → Entry pages i j p'
Taken-Entry {pages} {n = n} {i = i} j p' t e = elim (Option-cases (get_elem? pages j)) [
  | inl missing ↦ absurd (ground (arith, t.at j))
  | inr (p, found) ↦ record {
    old = p;
    was = found;
    same_address = ground (arith, t.at j);
    change = ground (arith, t.at j);
  }
]

-- A grant keeps the invariant of the table.
pub Granted-IsWf :
    {base : ℕ} {pages : List Page} {n i : ℕ} {x : ℕ × List Page}
    → IsWf base pages
    → Granted pages n i x
    → IsWf base x.1
Granted-IsWf {base} {pages} {n} {i} {x} wf g = record {
  address = λ j p' pos e. let en = entry j p' e in en.same_address ∙ wf.address j en.old pos en.was;
  master = λ j p' pos e.
      let en = entry j p' e in ground (arith, en.change, wf.master j en.old pos en.was, master_le);
  own = λ j p' pos e free.
      let en = entry j p' e in ground (arith, en.change, wf.own j en.old pos en.was);
}
  where
    entry : (j : ℕ) (p' : Page) → get_elem? x.1 j ≡ some p' → Entry pages i j p'
    entry j p' e = Taken-Entry j p' g.taken e

    master_le : master_at pages i ≤ i
    master_le = elim (Option-cases (get_elem? pages i)) [
      | inl missing ↦ ground arith
      | inr (p, found) ↦ ground (arith, wf.master i p (omega (arith, g.valid)))
    ]

-- The address of a grant is that of the run's first page, which is its own master.
Granted-first :
    {base : ℕ} {pages : List Page} {n i : ℕ} {x : ℕ × List Page}
    → 0 < n
    → IsWf base pages
    → Granted pages n i x
    → (x.0 ≡ base + i * 4096) × (i < length x.1) × (master_at x.1 i ≡ i)
unfolding address_of
Granted-first {base} {pages} {n} {i} {x} hn wf g =
    let here = free_run-first pages n i hn g.free in
    let inside = free_at-lt pages i here in
    let (p, found) = get_elem?-some pages i inside in
    (
      ground (arith, g.address, wf.address i p (omega (arith, g.valid))),
      omega (arith, g.taken.size, inside),
      ground (arith, g.taken.at i, wf.own i p (omega (arith, g.valid))),
    )

-- What free_kpages at the address of a grant leaves: the first page of the run is free, the other
-- pages are as the grant left them.
free-after-grant :
    {base : ℕ} {n i : ℕ} {addr : ℕ} (pages : List Page) (pt : PageTable) (j : ℕ)
    → 0 < n
    → IsWf base pages
    → Granted pages n i (addr, pt.pages)
    → get_elem? (free_kpages pt addr).pages j
      ≡ (if i == j then mark_free i (get_elem? pt.pages j) else get_elem? pt.pages j)
free-after-grant {base} {n} {i} pages pt j hn wf g =
    let (at, inside, own) = Granted-first hn wf g in
    rw at (free_kpages_lem pt i j (Granted-IsWf wf g) g.valid inside own)

-- With the invariant of the table, whose length and one more are an `int`, allocating one page, if an
-- address is returned, and freeing it at that address leaves the same pages free as before.
pub free_kpages-alloc_one :
    {base : ℕ} {x : ℕ × PageTable} (pt : PageTable) (j : ℕ)
    → IsWf base pt.pages
    → length pt.pages < 2 ^ 31 - 1
    → x.0 ≢ enomem_value
    → alloc_kpages pt 1 ≡ ret x
    → free_at (free_kpages x.1 x.0).pages j ≡ free_at pt.pages j
free_kpages-alloc_one {base} {x} pt j wf int some_address h =
    elim (alloc_kpages_sound pt 1 (omega arith) h) [
      | inr (failed, _) ↦ absurd (some_address failed)
      | inl (i, g) ↦
          let (p, found) =
            get_elem?-some pt.pages i
              (free_at-lt pt.pages i (free_run-first pt.pages 1 i (omega arith) g.free)) in
          ground (
            arith,
            free-after-grant pt.pages x.1 j (omega arith) wf g,
            g.taken.at j,
            free_run-first pt.pages 1 i (omega arith) g.free,
          )
    ]

-- With the invariant of the table, freeing the address that an allocation of more than one page returned,
-- where the request and the length of the table add up to an `int`, frees the first page of the run
-- alone: the others stay taken.
pub free_kpages-leaks :
    {base : ℕ} {x : ℕ × PageTable} (pt : PageTable) (n : ℕ)
    → IsWf base pt.pages
    → 1 < n
    → n + length pt.pages < 2 ^ 31
    → x.0 ≢ enomem_value
    → alloc_kpages pt n ≡ ret x
    → (i : ℕ) × (x.0 ≡ base + i * 4096)
      × (free_at (free_kpages x.1 x.0).pages i ≡ true)
      × (holds_below (n - 1) (λ d. not (free_at (free_kpages x.1 x.0).pages (i + 1 + d))) ≡ true)
free_kpages-leaks {base} {x} pt n wf many int some_address h =
    elim (alloc_kpages_sound pt n int h) [
      | inr (failed, _) ↦ absurd (some_address failed)
      | inl (i, g) ↦
          let (at, inside, own) = Granted-first (omega arith) wf g in
          let (p, found) = get_elem?-some x.1.pages i inside in
          (
            i,
            at,
            ground (arith, free-after-grant pt.pages x.1 i (omega arith) wf g),
            holds_below-intro (n - 1) _ (λ d lt.
                let (q, was) = get_elem?-some pt.pages (i + 1 + d) (
                  omega (
                    arith,
                    free_run-le-length pt.pages n i (omega (arith, inside, g.taken.size)) g.free,
                  )) in
                ground (
                  arith,
                  free-after-grant pt.pages x.1 (i + 1 + d) (omega arith) wf g,
                  g.taken.at (i + 1 + d),
                )),
          )
    ]
