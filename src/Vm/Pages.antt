-- ===== src/Vm/Pages.antt =====
-- src/kern/arch/mips/vm/vm.c: the kernel's page allocator, a table with one entry for each physical page.
-- Entry 0 is never initialised and entry 1 stands for the table itself, so allocation starts at 2.
-- A read of an entry past the end of the table follows a wild pointer: `panic`.
pub mod Runs
pub mod Alloc
pub mod Overrun
pub mod Free
pub mod Boot
mod Tests
use ed_operating_system.Prelude.{
  ℕ, zero, suc, ◌+◌, ◌-◌, ◌*◌, ◌/◌, ◌%◌, ◌^◌, Bool, true, false, Option, none, some, List, [], ◌∷◌,
  length, get_elem?, set, ltb, ◌==◌, if◌then◌else◌, Outcome, ret, panic, ◌>>=◌,
}
use ed_operating_system.Vm.Ram
use ed_operating_system.Vm.Ram.{Ram}

-- `struct page`
pub record Page : Type 0 where
  pub taken : Bool
  pub master_index : ℕ
  pub phys_addr : ℕ
  pub virtual_addr : ℕ

-- `struct pageTable`: `total_pages` is the length of `pages`. `firstFreeIndex` is set once and never
-- read.
pub record PageTable : Type 0 where
  pub pages : List Page
  pub first_free_index : ℕ

abbrev pub first_valid : ℕ
first_valid = 2

-- The errno value that `alloc_kpages` returns in place of an address.
abbrev pub enomem_value : ℕ
enomem_value = 3

-- The entry for page `i` after `vm_bootstrap`.
abbrev pub page_at : ℕ → ℕ → Page
page_at first_page i = record {
  taken = false;
  master_index = i;
  phys_addr = (first_page + i * 4096) % 2 ^ 32;
  virtual_addr = (first_page + i * 4096 + 0x80000000) % 2 ^ 32;
}

-- Where `vm_bootstrap` puts entry `i`: in an array of 16-byte structs, one page past the table.
abbrev pub entry_address : ℕ → ℕ → ℕ
entry_address first_page i = first_page + 4096 + i * 16

-- The loop of `vm_bootstrap`.
pub fill_pages : ℕ → ℕ → ℕ → List Page
fill_pages zero i first_page = []
fill_pages (suc rounds) i first_page = page_at first_page i ∷ fill_pages rounds (i + 1) first_page

-- The table of that many pages. The loop skips the entry 0, which holds what the memory held.
pub page_list : Page → ℕ → ℕ → List Page
page_list garbage zero first_page = []
page_list garbage (suc n) first_page = garbage ∷ fill_pages n 1 first_page

-- `vm_bootstrap`, given what lies where the entry 0 is
pub bootstrap : Page → Ram → PageTable × Ram
bootstrap garbage ram =
    let last_page = Ram.getsize ram in
    let (first_page, ram1) = Ram.stealmem 0 ram in
    let total_pages = (last_page + 2 ^ 32 - first_page) % 2 ^ 32 / 4096 in
    let (table_page, ram2) = Ram.stealmem total_pages ram1 in
    (
      record { pages = page_list garbage total_pages table_page; first_free_index = first_valid },
      ram2,
    )

-- The rounds of a loop `for (int i = start; i < start + npages; i++)` where `npages` is the unsigned
-- count of the caller, converted to an `int`: from 2^31 on the count is negative and there is no round,
-- nor is there one where the sum goes past the largest `int` and wraps.
abbrev pub int_rounds : ℕ → ℕ → ℕ
int_rounds start npages = if ltb (start + npages) (2 ^ 31) then npages else 0

-- The loop of `checkRange`, with `rounds` pages left.
pub check_loop : List Page → ℕ → ℕ → Outcome Bool
check_loop pages zero start = ret true
check_loop pages (suc rounds) start =
    let rest = check_loop pages rounds (start + 1) in
    elim (get_elem? pages start) [ none ↦ panic | some p ↦ if p.taken then ret false else rest ]

-- `checkRange`: are the `npages` pages from `start` on free?
pub check_range : List Page → ℕ → ℕ → Outcome Bool
check_range pages npages start = check_loop pages (int_rounds start npages) start

-- The loop of `find_next_free`, with `rounds` pages left; `none` stands for -1.
pub find_free_from : List Page → ℕ → ℕ → Outcome (Option ℕ)
find_free_from pages zero i = ret none
find_free_from pages (suc rounds) i =
    let rest = find_free_from pages rounds (i + 1) in
    elim (get_elem? pages i) [ none ↦ panic | some p ↦ if p.taken then rest else ret (some i) ]

-- `find_next_free`
pub find_next_free : List Page → ℕ → Outcome (Option ℕ)
find_next_free pages start = find_free_from pages (length pages - (start + 1)) (start + 1)

-- The loop of `make_unavailable`.
pub take_pages : ℕ → List Page → ℕ → ℕ → Outcome (List Page)
take_pages master pages zero i = ret pages
take_pages master pages (suc rounds) i = elim (get_elem? pages i) [
  | none ↦ panic
  | some p ↦
      take_pages master (set pages i (record p { taken = true; master_index = master })) rounds
        (i + 1)
]

-- `make_unavailable`
pub make_unavailable : List Page → ℕ → ℕ → Outcome (List Page)
make_unavailable pages start npages = elim (get_elem? pages start) [
  | none ↦ panic
  | some p ↦ take_pages p.master_index pages (int_rounds start npages) start
]

-- The virtual address of page `i`.
pub address_of : List Page → ℕ → Outcome ℕ
address_of pages i = elim (get_elem? pages i) [ none ↦ panic | some p ↦ ret p.virtual_addr ]

-- What `alloc_kpages` does at a run of free pages.
pub grant : List Page → ℕ → ℕ → Outcome (ℕ × List Page)
grant pages npages i = do
  addr ← address_of pages i
  pages' ← make_unavailable pages i npages
  ret (addr, pages')

-- What a round of `alloc_kpages` does with the answer of `find_next_free`.
pub search_on : (ℕ → Outcome (ℕ × List Page)) → List Page → Option ℕ → Outcome (ℕ × List Page)
search_on next_round pages none = ret (enomem_value, pages)
search_on next_round pages (some j) = next_round j

-- What it does with the answer of `checkRange`.
pub settle : (ℕ → Outcome (ℕ × List Page)) → List Page → ℕ → ℕ → Bool → Outcome (ℕ × List Page)
settle next_round pages npages i true = grant pages npages i
settle next_round pages npages i false = find_next_free pages i >>= search_on next_round pages

-- The loop of `alloc_kpages`. Its counter grows in each round, so `length pages` rounds of fuel
-- reach the end of the loop.
pub alloc_from : List Page → ℕ → ℕ → ℕ → Outcome (ℕ × List Page)
alloc_from pages npages zero i = ret (enomem_value, pages)
alloc_from pages npages (suc fuel) i =
    if ltb i (length pages)
    then check_range pages npages i >>= settle (alloc_from pages npages fuel) pages npages i
    else ret (enomem_value, pages)

-- `alloc_kpages`: an address, or ENOMEM as if it were one.
pub alloc_kpages : PageTable → ℕ → Outcome (ℕ × PageTable)
alloc_kpages pt npages = alloc_from pt.pages npages (length pt.pages) first_valid >>= λ r.
    ret (r.0, record pt { pages = r.1 })

-- The first loop of `free_kpages`: the page at that address, or 0.
pub find_addr : List Page → ℕ → ℕ → ℕ
find_addr [] i addr = 0
find_addr (p ∷ ps) i addr =
    let rest = find_addr ps (i + 1) addr in
    if ltb i first_valid then rest else if p.virtual_addr == addr then i else rest

-- The second loop of `free_kpages`: it frees the first page with that master index, and stops.
pub free_first : List Page → ℕ → ℕ → List Page
free_first [] i master = []
free_first (p ∷ ps) i master =
    let rest = p ∷ free_first ps (i + 1) master in
    if ltb i first_valid
    then rest
    else if p.master_index == master
    then record p { taken = false; master_index = i } ∷ ps
    else rest

-- `free_kpages`
pub free_kpages : PageTable → ℕ → PageTable
free_kpages pt addr = record pt { pages = free_first pt.pages 0 (find_addr pt.pages 0 addr) }
