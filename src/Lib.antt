-- ===== src/Lib.antt =====
-- Verification library of an OS/161 kernel (src/kern), which runs on the MIPS machine System/161.
--
-- What is modelled. The kernel gives each process a table of open files, gives pids to processes and
-- keeps them until the parent has collected the exit code, and hands out pages of memory to itself.
--   Proc.antt (Proc/): src/kern/proc/proc.c and sys_waitpid of src/kern/syscall/psyscall.c. A state
--     (`System`) is the pid table with the processes it points to. addPidEntry, findFirstFreePid,
--     pid_table_init, isChild, getChild, getStatus, proc_exit and proc_waitpid are the functions
--     `add_pid_entry`, `find_first_free_pid`, `pid_table_init`, `is_child`, `get_child`,
--     `get_status`, `proc_exit` and `proc_waitpid`.
--   Execv.antt (Execv/): getLen and getCount of src/kern/syscall/psyscall.c, over user memory that may fail.
--   Files.antt (Files/): src/kern/syscall/filetable.c (Files/Table.antt) and
--     src/kern/syscall/fsyscall.c (Files/Calls.antt). A table (`FileTable`) points to entries in a
--     memory (`Mem`), since tables share entries after a fork. Each entry has its lock as a flag;
--     acquiring a taken lock is `blocked`, so that a call that returns has met no deadlock. The
--     virtual file system is the interface `Vfs` (Files/Interface.antt).
--   Synch.antt (Synch/): semaphores and locks of src/kern/thread/synch.c. A pass through the loop of P
--     or lock_acquire under the spinlock is one function (`p_pass`, `acquire_pass`), as are V (`v`) and
--     `lock_release`; a step relation lets any number of threads make such passes in any order.
--     Synch/Conditions.antt has condition variables, with cv_wait in three steps.
--   Balloon.antt (Balloon/): src/kern/synchprobs/airballoon.c, as a step function of its threads (`step`) and
--     the states that they reach in any order (`Reachable`).
--   ThreadList.antt (ThreadList/): the doubly linked lists of src/kern/thread/threadlist.c in a memory of
--     nodes, against lists of threads. The scheduler and the wait channels, which use them, are not modelled.
--   Vm.antt (Vm/): src/kern/arch/mips/vm/ram.c (Vm/Ram.antt) and src/kern/arch/mips/vm/vm.c
--     (Vm/Pages.antt). Addresses are 32 bits wide and wrap.
--   Array.antt (Array/): src/kern/lib/array.c, and the inline functions of src/kern/include/array.h,
--     against the list of the elements in use. kmalloc is an argument.
--   Bitmap.antt (Bitmap/): src/kern/lib/bitmap.c, over bytes.
--   Sfs.antt (Sfs/): the file system SFS of src/kern/fs/sfs: block input and output (sfs_io.c), sfs_balloc,
--     sfs_bfree and sfs_bused (sfs_balloc.c), sfs_bmap (Sfs/Bmap.antt) and sfs_itrunc (Sfs/Trunc.antt). The
--     disk is the interface `Device` (Sfs/Disk.antt), whose calls may fail; `file_block` (Sfs/Mapping.antt) is
--     the map from the blocks of a file to those of the disk that the code keeps.
--     Sfs/Meta.antt (Sfs/Meta/) has sfs_metaio, against the file as a sequence of words, and Sfs/Dir.antt
--     (Sfs/Dir/) sfs_dir_findname, sfs_dir_link and sfs_dir_unlink of sfs_dir.c, against the entries of a directory.
--   CLib.antt (CLib/): src/common/libc, the part that the kernel is built with. Memory is a function from
--     addresses to bytes; memcpy, memmove, memset and bzero (CLib.antt), the routines on strings
--     (CLib/Strings.antt), atoi (CLib/Numbers.antt) and strtok_r (CLib/Tokens.antt).
--   Uio.antt (Uio/): src/kern/lib/uio.c, over the memory of CLib; user memory is the interface `UserAccess`.
--   Prelude.antt (Prelude/): tests on numbers, C arrays as lists, and the outcomes of kernel code: a
--     value, a panic (a failed KASSERT or an access outside an object), or a wait.
--
-- How the parts meet. The system calls act on the file table and the pid table of the current
-- process; vm.c takes its memory from ram.c at boot; SFS keeps its free blocks in a bitmap, and its
-- proofs use the laws of the bitmap alone; its directories compare names as strcmp of CLib does, and
-- uiomove moves bytes with memmove of CLib.
--
-- Loops and bounds. Loops over a fixed range are recursion on the number of rounds left. The loop of
-- alloc_kpages has the number of pages as fuel: its counter grows in each round, so that this is enough.
-- Its count is an unsigned that the source converts to an `int`; where the end of the run is not an `int`
-- its loops make no round (`int_rounds`). The loop that doubles the size of an array has the size that is
-- asked for as fuel: up to 2^31 slots, each round adds at least one; the size in bytes wraps at 2^32.
-- sfs_rwblock tries eleven times at most, and the loops of getLen and getCount run ARG_MAX rounds at
-- most, as in the source. The loops of the C library that look for the end of a string run on fuel, which
-- the theorems ask to be longer than the strings; the search of atoi in its table has eleven rounds, for
-- ten digits and the terminator. The loop of uiomove runs on fuel too; two rounds for each buffer and one
-- more are enough. PID_MAX and the success of allocations are arguments; OPEN_MAX is 32.
--
-- What is not modelled: the scheduler and context switches, device drivers, VFS, the vnodes and file input
-- and output of SFS, semfs, the kernel heap, program loading, address spaces (stubs in the source), printf,
-- user programs. Outside Synch.antt and Balloon.antt the calls run one after another, also where the
-- source reads before it takes a lock or takes it more than once, as proc_exit and sys_waitpid do. The
-- fixed length NUM_PAGES of the page table's array of pointers is left out too: the table is as long as
-- memory.
pub mod Prelude
pub mod Array
pub mod Balloon
pub mod Bitmap
pub mod CLib
pub mod Execv
pub mod Files
pub mod Proc
pub mod Sfs
pub mod Synch
pub mod ThreadList
pub mod Uio
pub mod Vm
