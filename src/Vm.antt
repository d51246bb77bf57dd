-- ===== src/Vm.antt =====
-- Physical memory: src/kern/arch/mips/vm/ram.c (memory taken during boot) and src/kern/arch/mips/vm/vm.c
-- (the page table of the kernel's page allocator). Addresses are 32 bits wide.
pub mod Ram
pub mod Pages
