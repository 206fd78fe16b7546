-- ===== src/BlockMap.antt =====
-- src/inode_data_block_ops.c, and get_disk_block_from_inode_block of src/inode_ops.c: the map from the
-- logical blocks of a file to data blocks, through up to three levels of indirect blocks. The result
-- `none` of a function is the dereference of the NULL that read_data_block returned.
pub mod Locate
pub mod Lookup
pub mod Direct
pub mod Next
pub mod Add
pub mod Entry
pub mod Overwrite
pub mod Replace
pub mod Hint
pub mod Remove
use mathlib.Core.Option
use alt_file_system.Prelude.{
  ◌>>=◌, ℕ, ◌+◌, ◌-◌, ◌*◌, ◌/◌, ◌%◌, Bool, true, false, not, ◌&&◌, ◌||◌, Option, none, some, ltb,
  ◌==◌, if◌then◌else◌, get_or, set,
}
use alt_file_system.Bytes.{Block, word, set_word}
use alt_file_system.Disk.{Geometry, Fs, minus_one, is_negative}
use alt_file_system.DataBlock.{allocate_data_block, read_data_block, write_data_block}
use alt_file_system.Inode.{Inode, num_of_direct_blocks}

abbrev pub single_addresses : ℕ
single_addresses = 512

abbrev pub double_addresses : ℕ
double_addresses = 512 * 512

abbrev pub triple_addresses : ℕ
triple_addresses = 512 * 512 * 512

-- block_num <= 0
abbrev pub is_not_positive : ℕ → Bool
is_not_positive x = x == 0 || is_negative x

module _ (g : Geometry) where
  -- ((ssize_t*) read_data_block(block_num))[i]
  unfoldable pub entry : (block_num i : ℕ) → Fs → Option ℕ
  entry block_num i s = Option.map (λ b. word b i) (read_data_block g block_num s)

  -- The result, and *prev_indirect_block afterwards.
  unfoldable pub lookup_triple : Inode → (logical prev : ℕ) → Fs → Option (ℕ × ℕ)
  lookup_triple node logical prev s =
      let triple_i_idx = logical / double_addresses in
      let double_i_idx = logical / 512 % 512 in
      let inner_idx = logical % 512 in
      if node.i_triple_indirect == 0
      then some (minus_one, prev)
      else if not (inner_idx == 0) && not (prev == 0)
      then (do data_block ← entry prev inner_idx s; some (data_block, prev))
      else (do
        double_block ← entry node.i_triple_indirect triple_i_idx s
        if is_not_positive double_block then some (minus_one, prev) else (do
          single_block ← entry double_block double_i_idx s
          if is_not_positive single_block then some (minus_one, prev) else (do
            data_block ← entry single_block inner_idx s
            some (data_block, single_block))))

  unfoldable pub lookup_double : Inode → (logical prev : ℕ) → Fs → Option (ℕ × ℕ)
  lookup_double node logical prev s =
      let double_i_idx = logical / 512 in
      let inner_idx = logical % 512 in
      if node.i_double_indirect == 0
      then some (minus_one, prev)
      else if not (inner_idx == 0) && not (prev == 0)
      then (do data_block ← entry prev inner_idx s; some (data_block, prev))
      else (do
        single_block ← entry node.i_double_indirect double_i_idx s
        if is_not_positive single_block
            then some (minus_one, prev)
            else (do data_block ← entry single_block inner_idx s; some (data_block, single_block)))

  unfoldable pub lookup_single : Inode → (logical prev : ℕ) → Fs → Option (ℕ × ℕ)
  lookup_single node logical prev s =
      if node.i_single_indirect == 0
      then some (minus_one, prev)
      else (do data_block ← entry node.i_single_indirect logical s; some (data_block, prev))

  unfoldable pub get_disk_block_from_inode_block : Inode → (logical prev : ℕ) → Fs → Option (ℕ × ℕ)
  get_disk_block_from_inode_block node logical prev s =
      let l1 = logical - num_of_direct_blocks in
      let l2 = l1 - single_addresses in
      let l3 = l2 - double_addresses in
      if ltb node.i_blocks_num logical
      then some (minus_one, prev)
      else if ltb logical num_of_direct_blocks
      then some (get_or node.i_direct_blocks logical 0, prev)
      else if ltb l1 single_addresses
      then lookup_single node l1 prev s
      else if ltb l2 double_addresses
      then lookup_double node l2 prev s
      else lookup_triple node l3 prev s
