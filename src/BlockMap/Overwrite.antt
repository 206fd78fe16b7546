-- ===== src/BlockMap/Overwrite.antt =====
-- src/inode_data_block_ops.c, overwrite_datablock_to_inode: the data block of a logical block is
-- replaced. A result is what the function returns, the inode, *prev_indirect_block and the state
-- afterwards.
pub mod Resolve
use alt_file_system.Prelude.{
  ◌>>=◌, ℕ, ◌-◌, ◌/◌, ◌%◌, Bool, true, false, not, ◌&&◌, Option, some, ltb, ◌==◌, if◌then◌else◌,
  set,
}
use alt_file_system.Bytes.{set_word}
use alt_file_system.Disk.{Geometry, Fs}
use alt_file_system.DataBlock.{read_data_block, write_data_block}
use alt_file_system.Inode.{Inode, num_of_direct_blocks}
use alt_file_system.BlockMap.{single_addresses, double_addresses, is_not_positive, entry}
use alt_file_system.BlockMap.Add.{set_entry}

module _ (g : Geometry) where
  -- The branch that uses the hint: the changed contents of the hinted block go to the block
  -- `data_block_num`.
  unfoldable pub overwrite_hinted : (inner_idx data_block_num prev : ℕ) → Fs → Option (Bool × Fs)
  overwrite_hinted inner_idx data_block_num prev s = do
    arr ← read_data_block g prev s
    some (write_data_block g data_block_num (set_word arr inner_idx data_block_num) s)

  unfoldable pub overwrite_single : Inode → (logical data_block_num : ℕ) → Fs → Option (Bool × Fs)
  overwrite_single node logical data_block_num s =
      if node.i_single_indirect == 0
      then some (false, s)
      else set_entry g node.i_single_indirect logical data_block_num s

  -- The result, *prev_indirect_block and the state.
  unfoldable pub overwrite_double :
      Inode → (logical data_block_num prev : ℕ) → Fs → Option (Bool × ℕ × Fs)
  unfolding overwrite_hinted
  overwrite_double node logical data_block_num prev s =
      let double_i_idx = logical / 512 in
      let inner_idx = logical % 512 in
      if node.i_double_indirect == 0
      then some (false, prev, s)
      else if not (inner_idx == 0) && not (prev == 0)
      then (do (ok, s1) ← overwrite_hinted inner_idx data_block_num prev s; some (ok, prev, s1))
      else (do
        single_block ← entry g node.i_double_indirect double_i_idx s
        if is_not_positive single_block then some (false, prev, s) else (do
          (ok, s1) ← set_entry g single_block inner_idx data_block_num s
          some (ok, single_block, s1)))

  unfoldable pub overwrite_triple :
      Inode → (logical data_block_num prev : ℕ) → Fs → Option (Bool × ℕ × Fs)
  unfolding overwrite_hinted
  overwrite_triple node logical data_block_num prev s =
      let triple_i_idx = logical / double_addresses in
      let double_i_idx = logical / 512 % 512 in
      let inner_idx = logical % 512 in
      if node.i_triple_indirect == 0
      then some (false, prev, s)
      else if not (inner_idx == 0) && not (prev == 0)
      then (do (ok, s1) ← overwrite_hinted inner_idx data_block_num prev s; some (ok, prev, s1))
      else (do
        double_block ← entry g node.i_triple_indirect triple_i_idx s
        if is_not_positive double_block then some (false, prev, s) else (do
          single_block ← entry g double_block double_i_idx s
          if is_not_positive single_block then some (false, prev, s) else (do
            (ok, s1) ← set_entry g single_block inner_idx data_block_num s
            some (ok, prev, s1))))

  unfoldable pub overwrite_datablock_to_inode :
      Inode → (logical data_block_num prev : ℕ) → Fs → Option (Bool × Inode × ℕ × Fs)
  unfolding overwrite_single overwrite_double overwrite_triple
  overwrite_datablock_to_inode node logical v prev s =
      let l1 = logical - num_of_direct_blocks in
      let l2 = l1 - single_addresses in
      let l3 = l2 - double_addresses in
      if ltb node.i_blocks_num logical
      then some (false, node, prev, s)
      else if ltb logical num_of_direct_blocks
      then some
          (true, record node { i_direct_blocks = set node.i_direct_blocks logical v }, prev, s)
      else if ltb l1 single_addresses
      then (do (ok, s1) ← overwrite_single node l1 v s; some (ok, node, prev, s1))
      else if ltb l2 double_addresses
      then (do (ok, next, s1) ← overwrite_double node l2 v prev s; some (ok, node, next, s1))
      else (do (ok, next, s1) ← overwrite_triple node l3 v prev s; some (ok, node, next, s1))
