-- ===== src/BlockMap/Direct.antt =====
-- A file whose blocks are direct blocks of its inode: their numbers, reads and writes.
use alt_file_system.Prelude.{ℕ, ◌≤◌, ◌<◌, ◌≡◌, true, false, some, arith, get_or}
use alt_file_system.Bytes.{Block}
use alt_file_system.Disk.{
  Geometry, Fs, read_block, write_block, is_block_out_of_range, put_block, set_disk,
}
use alt_file_system.Disk.Laws.{IsSound}
use alt_file_system.DataBlock.{is_bad_index, read_data_block, write_data_block}
use alt_file_system.Inode.{Inode}
use alt_file_system.BlockMap.{get_disk_block_from_inode_block, is_not_positive}
use alt_file_system.BlockMap.Lookup.{get_disk_block-direct}

-- The number of the direct block `l`.
abbrev pub direct_at : Inode → ℕ → ℕ
direct_at node l = get_or node.i_direct_blocks l 0

-- The blocks of the file are direct blocks, data blocks of the disk, and no two are the same.
pub record HasDirectBlocks (g : Geometry) (node : Inode) : Type 0 where
  pub few : node.i_blocks_num ≤ 12
  pub above : (l : ℕ) → l < node.i_blocks_num → g.inode_block_count < direct_at node l
  pub below : (l : ℕ) → l < node.i_blocks_num → direct_at node l < g.block_count
  pub apart :
      (l k : ℕ)
      → l < node.i_blocks_num
      → k < node.i_blocks_num
      → direct_at node l ≡ direct_at node k
      → l ≡ k

module _ {g : Geometry} {node : Inode} (sound : IsSound g) (direct : HasDirectBlocks g node) (i : ℕ)
    (inside : i < node.i_blocks_num) (s : Fs) where
  pub direct_read : read_data_block g (direct_at node i) s ≡ some (s.disk (direct_at node i))
  unfolding read_data_block is_bad_index read_block is_block_out_of_range
  direct_read = ground (arith, direct.above i inside, direct.below i inside, sound.small)

  pub direct_write :
      (b : Block)
      → write_data_block g (direct_at node i) b s
        ≡ (true, set_disk s (put_block s.disk (direct_at node i) b))
  unfolding write_data_block is_bad_index write_block is_block_out_of_range
  direct_write b = ground (arith, direct.above i inside, direct.below i inside, sound.small)

  pub direct_lookup :
      (prev : ℕ) → get_disk_block_from_inode_block g node i prev s ≡ some (direct_at node i, prev)
  direct_lookup prev =
      get_disk_block-direct i g s node prev (omega arith) (omega (arith, direct.few))

  pub direct_positive : is_not_positive (direct_at node i) ≡ false
  direct_positive = ground (arith, direct.above i inside, direct.below i inside, sound.small)
