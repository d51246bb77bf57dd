-- ===== src/Vm/Pages/Tests.antt =====
-- A machine with six pages of free memory, put through the operations of src/kern/arch/mips/vm.
use ed_operating_system.Prelude.{
  ℕ, ◌+◌, ◌-◌, ◌*◌, ◌^◌, ◌<◌, ◌≡◌, ◌≤◌, true, false, not, [], ◌∷◌, length, holds_below, arith,
  Outcome, ret, panic, Returns, refl,
}
use ed_operating_system.Vm.Ram.{Ram, IsValid, stealmem}
use ed_operating_system.Vm.Pages.{
  Page, PageTable, bootstrap, alloc_kpages, free_kpages, fill_pages, page_list, alloc_from,
  check_range, check_loop, settle, grant, address_of, make_unavailable, take_pages,
}
use ed_operating_system.Vm.Pages.Runs.{free_at, free_run}
use ed_operating_system.Vm.Pages.Alloc.{
  Granted, AllocPost, alloc_kpages_sound, alloc_kpages_first_fit,
}
use ed_operating_system.Vm.Pages.Overrun.{alloc_kpages_overrun}
use ed_operating_system.Vm.Pages.Free.{IsWf, free_kpages-leaks}
use ed_operating_system.Vm.Pages.Boot.{bootstrap_lem}

abbrev small_ram : Ram
small_ram = record { first = 0x2000; last = 0x8000 }

small_ram-IsValid : IsValid small_ram
small_ram-IsValid = record { low = omega arith; order = omega arith; some_used = omega arith }

-- The entry 0 before the boot code runs, which leaves it as it is.
abbrev nothing_there : Page
nothing_there = record { taken = false; master_index = 0; phys_addr = 0; virtual_addr = 0 }

abbrev booted : PageTable
booted = (bootstrap nothing_there small_ram).0

booted-IsWf : IsWf 0x80002000 booted.pages
booted-IsWf = (bootstrap_lem nothing_there small_ram small_ram-IsValid).0

-- What an allocation gives, for calls that return.
abbrev outcome_or : {A : Type 0} → A → Outcome A → A
outcome_or a (ret b) = b
outcome_or a panic = a
outcome_or a Outcome.blocked = a

abbrev allocated : ℕ → ℕ × PageTable
allocated n = outcome_or (0, booted) (alloc_kpages booted n)

allocates_one : alloc_kpages booted 1 ≡ ret (allocated 1)
unfolding alloc_kpages bootstrap fill_pages page_list alloc_from stealmem check_range check_loop
    settle grant address_of make_unavailable take_pages
allocates_one = refl

allocates_two : alloc_kpages booted 2 ≡ ret (allocated 2)
unfolding alloc_kpages bootstrap fill_pages page_list alloc_from stealmem check_range check_loop
    settle grant address_of make_unavailable take_pages
allocates_two = refl

booted_int : 2 + length booted.pages < 2 ^ 31
unfolding bootstrap fill_pages page_list stealmem
booted_int = omega arith

alloc_kpages_sound_example : AllocPost booted.pages 2 ((allocated 2).0, (allocated 2).1.pages)
alloc_kpages_sound_example = alloc_kpages_sound booted 2 booted_int allocates_two

alloc_kpages_first_fit_example :
    Returns
      (λ x. (j : ℕ) × (j ≤ 3) × Granted booted.pages 3 j (x.0, x.1.pages))
      (alloc_kpages booted 3)
unfolding bootstrap fill_pages page_list free_run stealmem
alloc_kpages_first_fit_example =
    alloc_kpages_first_fit booted 3 3 (omega arith) (omega arith) (omega arith) (omega arith) refl

-- Page 3 is the last free one of four.
abbrev almost_full : PageTable
almost_full = record {
  pages =
      record { taken = true; master_index = 0; phys_addr = 0; virtual_addr = 0 }
      ∷ record { taken = true; master_index = 1; phys_addr = 0; virtual_addr = 0 }
      ∷ record { taken = true; master_index = 2; phys_addr = 0; virtual_addr = 0 }
      ∷ record { taken = false; master_index = 3; phys_addr = 0; virtual_addr = 0 }
      ∷ [];
  first_free_index = 2;
}

alloc_kpages_overrun_example : alloc_kpages almost_full 2 ≡ panic
unfolding free_run
alloc_kpages_overrun_example =
    alloc_kpages_overrun almost_full 1 2 3 (omega arith) (omega arith) (omega arith) refl
      (omega arith) (omega arith, refl, λ j lo hi. ground arith) refl

free_kpages-leaks_example :
    (i : ℕ) × ((allocated 2).0 ≡ 0x80002000 + i * 4096)
    × (free_at (free_kpages (allocated 2).1 (allocated 2).0).pages i ≡ true)
    × (holds_below
          (2 - 1)
          (λ d. not (free_at (free_kpages (allocated 2).1 (allocated 2).0).pages (i + 1 + d)))
        ≡ true)
unfolding alloc_kpages bootstrap fill_pages page_list alloc_from stealmem check_range check_loop
    settle grant address_of make_unavailable take_pages
free_kpages-leaks_example =
    free_kpages-leaks booted 2 booted-IsWf (omega arith) booted_int (λ e. omega (arith, e))
      allocates_two
