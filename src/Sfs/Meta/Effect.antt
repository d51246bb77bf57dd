-- ===== src/Sfs/Meta/Effect.antt =====
-- The effect of sfs_metaio of src/kern/fs/sfs/sfs_io.c as a write.
