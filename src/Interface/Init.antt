-- ===== src/Interface/Init.antt =====
-- altfs_makefs, then altfs_init of src/interface_layer.c, as the file system is made and mounted.
use alt_file_system.Prelude.{ℕ, ◌+◌, ◌%◌, ◌<◌, ◌≡◌, ◌≢◌, inl, inr, true, some, List, arith, refl}
use alt_file_system.Bytes.{word_mod}
use alt_file_system.Disk.{Geometry, Fs, num_of_data_blocks}
use alt_file_system.Disk.Laws.{IsSound}
use alt_file_system.Superblock.{makefs}
use alt_file_system.DataBlock.{allocate_data_block}
use alt_file_system.DataBlock.Allocate.{allocate_data_block-Allocated}
use alt_file_system.DataBlock.MakeFs.{Formatted, makefs-Formatted}
use alt_file_system.InodeCache.{Cache, create_inode_cache}
use alt_file_system.World.{World}
use alt_file_system.PathLookup.{cache_capacity, setup_filesystem}
use alt_file_system.PathLookup.Root.{Rooted, rooted-Rooted, setup_filesystem_runs}
use alt_file_system.Interface.{altfs_init}

module _ {g : Geometry} (w : IsSound g) (now : ℕ) (small : now < word_mod) (c : Cache) where
  setup_filesystem-Rooted :
      (t : Fs) (hs : List ℕ)
      → Formatted g t hs
      → (w1 : World) × (setup_filesystem g now (record { fs = t; cache = c }) ≡ some (true, w1))
        × Rooted g w1.fs
        × (w1.cache ≡ create_inode_cache cache_capacity)
  setup_filesystem-Rooted t hs made = elim (allocate_data_block-Allocated w t hs made.list) [
    | inl (full, e) ↦
        let free = made.counts (g.inode_block_count + 1) (omega arith) in
        absurd (ground (arith, free, w.data_blocks, full (g.inode_block_count + 1)))
    | inr (ks, al) ↦
        let a : ℕ = (allocate_data_block g t).0 in
        let s1 : Fs = (allocate_data_block g t).1 in
        (
          _,
          setup_filesystem_runs w t hs made now small a s1 ks al refl c,
          rooted-Rooted w t hs made now small a s1 ks al refl,
          refl,
        )
  ]

  -- altfs_init on the file system that altfs_makefs leaves, whatever was there before, returns true with
  -- an empty cache, and inode 2 is then an allocated directory whose entries are exactly "." and "..",
  -- both for itself, in one data block. This when calloc succeeds, the number of data blocks is no
  -- multiple of 512, and the time fits a 64-bit word.
  pub altfs_init-makefs :
      (s : Fs)
      → num_of_data_blocks g % 512 ≢ 0
      → (w1 : World) × (altfs_init g now (record { fs = (makefs g true s).1; cache = c })
          ≡ some (true, w1))
        × Rooted g w1.fs
        × (w1.cache ≡ create_inode_cache cache_capacity)
  unfolding altfs_init
  altfs_init-makefs s odd =
      let made = (makefs-Formatted w s odd).1 in
      setup_filesystem-Rooted (makefs g true s).1 made.0 made.1
