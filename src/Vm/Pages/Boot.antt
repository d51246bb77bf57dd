-- ===== src/Vm/Pages/Boot.antt =====
-- vm_bootstrap of src/kern/arch/mips/vm/vm.c: the table that it leaves, and where it puts the entries.
use ed_operating_system.Prelude.{
  ℕ, zero, suc, ◌+◌, ◌-◌, ◌*◌, ◌/◌, ◌%◌, ◌^◌, ◌≤◌, ◌<◌, ◌≡◌, ◌∙◌, ap, refl, true, some, length,
  get_elem?, get_elem?-lt, arith, ◌↔◌, sym, holds_below, holds_below-intro,
}
use ed_operating_system.Vm.Ram.{Ram, IsValid, stealmem_fits, stealmem-none}
use ed_operating_system.Vm.Pages.{
  Page, page_at, entry_address, fill_pages, page_list, bootstrap, first_valid,
}
use ed_operating_system.Vm.Pages.Runs.{free_at}
use ed_operating_system.Vm.Pages.Free.{IsWf}

length-fill_pages : (rounds i first_page : ℕ) → length (fill_pages rounds i first_page) ≡ rounds
unfolding fill_pages
length-fill_pages zero i first_page = refl
length-fill_pages (suc rounds) i first_page =
    omega (arith, length-fill_pages rounds (i + 1) first_page)

get_elem?-fill_pages :
    (rounds i j first_page : ℕ)
    → j < rounds
    → get_elem? (fill_pages rounds i first_page) j ≡ some (page_at first_page (i + j))
unfolding fill_pages
get_elem?-fill_pages zero i j first_page h = absurd (omega arith)
get_elem?-fill_pages (suc rounds) i zero first_page h = let e : i ≡ i + 0 = omega arith in rw (← e)
get_elem?-fill_pages (suc rounds) i (suc j) first_page h =
    let e : i + suc j ≡ i + 1 + j = omega arith in
    rw e (get_elem?-fill_pages rounds (i + 1) j first_page (omega arith))

length-page_list : (garbage : Page) (n first_page : ℕ) → length (page_list garbage n first_page) ≡ n
unfolding page_list
length-page_list garbage zero first_page = refl
length-page_list garbage (suc n) first_page = omega (arith, length-fill_pages n 1 first_page)

get_elem?-page_list :
    (garbage : Page) (n j first_page : ℕ)
    → 1 ≤ j
    → j < n
    → get_elem? (page_list garbage n first_page) j ≡ some (page_at first_page j)
unfolding page_list
get_elem?-page_list garbage zero j first_page pos h = absurd (omega arith)
get_elem?-page_list garbage (suc n) zero first_page pos h = absurd (omega arith)
get_elem?-page_list garbage (suc n) (suc j) first_page pos h =
    let e : 1 + j ≡ suc j = omega arith in
    get_elem?-fill_pages n 1 j first_page (omega arith) ∙ ap (λ k. some (page_at first_page k)) e

-- Addresses of the pages do not wrap, since physical memory ends below 512 MB.
page_list-IsWf :
    (garbage : Page) (total first_page : ℕ)
    → first_page + total * 4096 ≤ 512 * 1024 * 1024
    → IsWf (first_page + 0x80000000) (page_list garbage total first_page)
page_list-IsWf garbage total first_page low = record {
  address = λ i p pos e. ground (arith, entry i p pos e, inside i p e);
  master = λ i p pos e. ground (arith, entry i p pos e);
  own = λ i p pos e free. ground (arith, entry i p pos e);
}
  where
    inside :
        (i : ℕ) (p : Page) → get_elem? (page_list garbage total first_page) i ≡ some p → i < total
    inside i p e = omega (arith, get_elem?-lt _ i e, length-page_list garbage total first_page)

    entry :
        (i : ℕ) (p : Page)
        → 1 ≤ i
        → get_elem? (page_list garbage total first_page) i ≡ some p
        → some p ≡ some (page_at first_page i)
    entry i p pos e = sym e ∙ get_elem?-page_list garbage total i first_page pos (inside i p e)

-- vm_bootstrap on valid memory leaves a well-formed table with one entry for each whole page of
-- memory that was left, and all of them but the entry 0 are free, whatever that entry holds.
pub bootstrap_lem :
    (garbage : Page) (ram : Ram)
    → IsValid ram
    → IsWf (ram.first + 0x80000000) (bootstrap garbage ram).0.pages
      × (length (bootstrap garbage ram).0.pages ≡ (ram.last - ram.first) / 4096)
      × (holds_below
            ((ram.last - ram.first) / 4096 - 1)
            (λ i. free_at (bootstrap garbage ram).0.pages (i + 1))
          ≡ true)
unfolding bootstrap
bootstrap_lem garbage ram v =
    let total : (ram.last + 2 ^ 32 - ram.first) % 2 ^ 32 / 4096 ≡ (ram.last - ram.first) / 4096 =
      omega arith in
    let few : (ram.last - ram.first) / 4096 * 4096 + ram.first ≤ ram.last = omega arith in
    rw
      (
        stealmem-none ram v,
        total,
        stealmem_fits ((ram.last - ram.first) / 4096) ram v (omega arith),
      )
      (
        page_list-IsWf garbage ((ram.last - ram.first) / 4096) ram.first (omega arith),
        length-page_list garbage ((ram.last - ram.first) / 4096) ram.first,
        holds_below-intro ((ram.last - ram.first) / 4096 - 1) _ (λ i lt. ground (
          arith,
          get_elem?-page_list garbage ((ram.last - ram.first) / 4096) (i + 1) ram.first
              (omega arith) (omega arith),
        )),
      )

-- The one page that vm_bootstrap sets aside for the entries holds 256 of them: entry `i` ends before
-- the memory of page 2, the first page that is handed out, exactly if `i` is below 256.
pub entry_fits :
    (first_page i : ℕ)
    → (entry_address first_page i + 16 ≤ first_page + first_valid * 4096) ↔ (i < 256)
entry_fits first_page i = (λ h. omega arith, λ h. omega arith)
