-- ===== src/Files/Tests.antt =====
-- A table with descriptors 0 to 3 open and 4 to 31 closed, put through the operations of
-- src/kern/syscall/filetable.c and src/kern/syscall/fsyscall.c.
use ed_operating_system.Prelude.{
  [], true, ℕ, ◌+◌, ◌≡◌, false, Option, none, some, arith, Returns, refl, ok, err, Errno,
  if◌then◌else◌, ltb,
}
use ed_operating_system.Files.Interface.{Vfs}
use ed_operating_system.Files.Offsets.{
  TransferCase, SeekCase, seek_end, sys_write_lem, sys_lseek_lem,
}
use ed_operating_system.Files.{Mem, FileTable}
use ed_operating_system.Files.Calls.{sys_write, sys_lseek, sys_close, sys_dup2}
use ed_operating_system.Files.Inv.{IsWf, OpenFile, descriptor, first_free}
use ed_operating_system.Files.Slots.{Assigns, Assigned}
use ed_operating_system.Files.Close.{ClosePost, sys_close_lem}
use ed_operating_system.Files.Dup.{sys_dup2_copies, sys_dup2_loses}

-- Four files open, at addresses equal to the slots.
abbrev four_open : Mem
four_open p = record {
  flag = ltb p 4;
  file = if ltb p 4 then 100 + p else 0;
  offset = 0;
  permissions = if ltb p 4 then 3 else 0;
  locked = false;
}

abbrev table : FileTable
table = record { ftp = λ i. i; first_free_spot = some 4 }

table-IsWf : IsWf table four_open
unfolding first_free
table-IsWf = record { quiet = λ i hi. refl; apart = λ i j hi hj e. e; spot = refl }

abbrev opened : ℕ → ℕ → ℕ → Option OpenFile
opened vn offset permissions = some (record { vnode = vn; position = offset; mode = permissions })

sys_close_lem_example : Returns (ClosePost table four_open 3) (sys_close table 3 four_open)
sys_close_lem_example = sys_close_lem 3 table-IsWf (omega arith)

sys_dup2_copies_example :
    Returns
      (Assigned table four_open 9 (descriptor table four_open 3) (ok 9))
      (sys_dup2 table 3 9 four_open)
sys_dup2_copies_example =
    sys_dup2_copies 3 9 table-IsWf (omega arith) (omega arith) (λ e. omega (arith, e)) refl refl

sys_dup2_loses_example :
    Returns
      (λ r. (r.0 ≡ err Errno.ebadf) × Assigns table four_open 3 none r.1 r.2)
      (sys_dup2 table 9 3 four_open)
sys_dup2_loses_example =
    sys_dup2_loses 9 3 table-IsWf (omega arith) (omega arith) (λ e. omega (arith, e)) refl

-- A file system of one file, number 7, with 100 bytes, which every transfer moves whole; its state
-- is the number of transfers.
abbrev one_file : Vfs ℕ
one_file = record {
  vfs_open = λ path flags mode w. (ok 7, w);
  vop_read = λ file offset n w. (ok 0, w + 1);
  vop_write = λ file offset n w. (ok 0, w + 1);
  vop_isseekable = λ file w. true;
  stat_size = λ file w. 100;
  copyinstr = λ address w. ok [];
  read_resid_le = λ file offset n resid w w' e. let none_left : 0 ≡ resid = cc in omega arith;
  write_resid_le = λ file offset n resid w w' e. let none_left : 0 ≡ resid = cc in omega arith;
}

sys_write_lem_example :
    Returns
      (TransferCase table four_open 3 10 (one_file.vop_write 103 0 10 0))
      (sys_write one_file table 3 64 10 four_open 0)
sys_write_lem_example =
    sys_write_lem one_file table-IsWf 3 (omega arith) refl 64 10 0 (λ e. omega (arith, e))
      (λ e. omega (arith, e)) (λ e. omega (arith, e)) (omega arith)

sys_lseek_lem_example :
    Returns (SeekCase true true table four_open 3 120) (sys_lseek one_file table 3 20 2 four_open 0)
sys_lseek_lem_example =
    sys_lseek_lem one_file table-IsWf 3 (omega arith) refl 20 seek_end 0 (λ e. omega (arith, e))
