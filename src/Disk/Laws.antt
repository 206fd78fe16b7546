-- ===== src/Disk/Laws.antt =====
-- The disk layer: which block numbers it accepts, and what a read returns after a write.
use alt_file_system.Prelude.{
  ℕ, ◌+◌, ◌^◌, ◌<◌, ◌≡◌, ◌≢◌, true, ◌&&◌, some, arith, ltb, ◌==◌, if◌then◌else◌,
}
use alt_file_system.Bytes.{Block}
use alt_file_system.Disk.{Geometry, Fs, Disk, put_block, set_disk, read_block, write_block}

-- What the code relies on: there is an inode block and a data block, and the disk's size in bytes
-- is positive as an ssize_t.
pub record IsSound (g : Geometry) : Type 0 where
  pub inode_blocks : 0 < g.inode_block_count
  pub data_blocks : g.inode_block_count + 1 < g.block_count
  pub small : g.block_count < 2 ^ 51

pub put_block_self : (d : Disk) (i : ℕ) (b : Block) → put_block d i b i ≡ b
unfolding put_block
put_block_self d i b = ground arith

pub put_block_ne : (d : Disk) (i j : ℕ) (b : Block) → i ≢ j → put_block d i b j ≡ d j
unfolding put_block
put_block_ne d i j b h = ground arith

module _ {g : Geometry} (v : IsSound g) where
  pub read_block-in : (i : ℕ) (s : Fs) → i < g.block_count → read_block g i s ≡ some (s.disk i)
  unfolding read_block
  read_block-in i s h = ground arith

  pub write_block-in :
      (i : ℕ) (b : Block) (s : Fs)
      → i < g.block_count
      → write_block g i b s ≡ (true, set_disk s (put_block s.disk i b))
  unfolding write_block set_disk put_block
  write_block-in i b s h = ground arith

  -- altfs_read_block and altfs_write_block: a write succeeds exactly when its block number is below
  -- BLOCK_COUNT; a read afterwards returns the written bytes at that block and what it returned
  -- before at every other; a write that fails changes no read.
  pub read_block-write_block :
      (i j : ℕ) (b : Block) (s : Fs)
      → ((write_block g i b s).0 ≡ ltb i g.block_count)
        × (read_block g j (write_block g i b s).1
            ≡ (if ltb i g.block_count && i == j then some b else read_block g j s))
  unfolding read_block write_block set_disk put_block
  read_block-write_block i j b s = ground arith
