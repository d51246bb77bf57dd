-- ===== src/Vm/Ram.antt =====
-- src/kern/arch/mips/vm/ram.c: the range of physical memory that is still free during boot.
use ed_operating_system.Prelude.{
  ℕ, ◌+◌, ◌-◌, ◌*◌, ◌%◌, ◌^◌, ◌≤◌, ◌<◌, ◌≡◌, ltb, if◌then◌else◌, arith, ap, ◌∙◌,
}

abbrev page : ℕ
page = 4096

-- `firstpaddr` and `lastpaddr`
pub record Ram : Type 0 where
  pub first : ℕ
  pub last : ℕ

-- `ram_bootstrap`; the size of RAM comes from the bus, the first free address from the boot code.
pub bootstrap : ℕ → ℕ → Ram
bootstrap ramsize firstfree = record {
  first = (firstfree + 2 ^ 32 - 0x80000000) % 2 ^ 32;
  last = if ltb (512 * 1024 * 1024) ramsize then 512 * 1024 * 1024 else ramsize;
}

-- `ram_stealmem`: the address of the pages, or 0.
unfoldable pub stealmem : ℕ → Ram → ℕ × Ram
stealmem npages r =
    let size = npages * page % 2 ^ 32 in
    if ltb r.last ((r.first + size) % 2 ^ 32)
    then (0, r)
    else (r.first, record r { first = (r.first + size) % 2 ^ 32 })

-- `ram_getsize`
abbrev pub getsize : Ram → ℕ
getsize r = r.last

-- `ram_getfirstfree`, after which nothing can be taken any more
unfoldable pub getfirstfree : Ram → ℕ × Ram
getfirstfree r = (r.first, record { first = 0; last = 0 })

-- Physical memory ends below 512 MB, and the free part is not empty from below.
pub record IsValid (r : Ram) : Type 0 where
  pub low : r.last ≤ 512 * 1024 * 1024
  pub order : r.first ≤ r.last
  pub some_used : 0 < r.first

-- ram_stealmem on a valid state takes the next pages, if that many fit below the end, or returns 0
-- and changes nothing; the state stays valid. The request is below 2^19 pages, so that the byte
-- count and the sum do not wrap.
pub stealmem_lem :
    (npages : ℕ) (r : Ram)
    → IsValid r
    → npages < 2 ^ 19
    → stealmem npages r ≡ (
        if ltb r.last (r.first + npages * page)
        then (0, r)
        else (r.first, record r { first = r.first + npages * page }))
unfolding stealmem
stealmem_lem npages r v few = ground arith

pub stealmem-IsValid :
    (npages : ℕ) (r : Ram) → IsValid r → npages < 2 ^ 19 → IsValid (stealmem npages r).1
stealmem-IsValid npages r v few = ground (arith, stealmem_lem npages r v few)

-- The successful case, where the pages fit.
pub stealmem_fits :
    (npages : ℕ) (r : Ram)
    → IsValid r
    → r.first + npages * page ≤ r.last
    → stealmem npages r ≡ (r.first, record r { first = r.first + npages * page })
stealmem_fits npages r v fits = ground (arith, stealmem_lem npages r v)

pub stealmem-none : (r : Ram) → IsValid r → stealmem 0 r ≡ (r.first, r)
stealmem-none r v =
    stealmem_fits 0 r v (omega arith) ∙ ap (λ f. (r.first, record r { first = f })) (omega arith)
