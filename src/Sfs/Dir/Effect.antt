-- ===== src/Sfs/Dir/Effect.antt =====
-- The effect of sfs_dir_link of src/kern/fs/sfs/sfs_dir.c.
