-- ===== src/BlockMap/Add.antt =====
-- src/inode_data_block_ops.c, add_datablock_to_inode: a data block becomes the next logical block of a
-- file, with new indirect blocks where its place needs them. A result is what the function returns, the
-- inode and the state afterwards.
use alt_file_system.Prelude.{
  ◌>>=◌, ℕ, ◌+◌, ◌-◌, ◌/◌, ◌%◌, Bool, true, false, not, Option, some, ltb, ◌==◌, if◌then◌else◌, set,
}
use alt_file_system.Bytes.{Block, word, set_word}
use alt_file_system.Disk.{Geometry, Fs, minus_one}
use alt_file_system.DataBlock.{allocate_data_block, read_data_block, write_data_block}
use alt_file_system.Inode.{Inode, num_of_direct_blocks}
use alt_file_system.BlockMap.{single_addresses, double_addresses, triple_addresses, is_not_positive}

module _ (g : Geometry) where
  -- arr[i] = v for the contents `arr` of a block, which is written back
  unfoldable pub set_entry : (block_num i v : ℕ) → Fs → Option (Bool × Fs)
  set_entry block_num i v s = do
    arr ← read_data_block g block_num s
    some (write_data_block g block_num (set_word arr i v) s)

  -- The new block number is entered in the last indirect block.
  unfoldable pub add_leaf : Inode → (block_num i v : ℕ) → Fs → Option (Bool × Inode × Fs)
  unfolding set_entry
  add_leaf node block_num i v s = do
    (written, s1) ← set_entry block_num i v s
    some (
        if written
        then (true, record node { i_blocks_num = node.i_blocks_num + 1 }, s1)
        else (false, node, s1))

  -- A new indirect block as entry `i` of the block `parent`, whose contents are `arr`.
  unfoldable pub new_entry : (parent i : ℕ) → Block → Fs → Bool × Block × Fs
  new_entry parent i arr s =
      let (a, s1) = allocate_data_block g s in
      let arr' = set_word arr i a in
      let (written, s2) = write_data_block g parent arr' s1 in
      if a == minus_one then (false, arr, s1) else (written, arr', s2)

  -- From the double indirect block `parent` on.
  unfoldable pub add_below :
      Inode → (parent double_i_idx inner_idx v : ℕ) → Fs → Option (Bool × Inode × Fs)
  unfolding new_entry add_leaf
  add_below node parent double_i_idx inner_idx v s = do
    arr ← read_data_block g parent s
    (let (ready, arr', s1) =
          if inner_idx == 0 then new_entry parent double_i_idx arr s else (true, arr, s) in
        if not ready
        then some (false, node, s1)
        else if is_not_positive (word arr' double_i_idx)
        then some (false, node, s1)
        else add_leaf node (word arr' double_i_idx) inner_idx v s1)

  -- From the triple indirect block on.
  unfoldable pub add_below_triple : Inode → (logical v : ℕ) → Fs → Option (Bool × Inode × Fs)
  unfolding new_entry add_below
  add_below_triple node logical v s = do
    arr ← read_data_block g node.i_triple_indirect s
    (let triple_i_idx = logical / double_addresses in
        let (ready, arr', s1) =
          if logical % double_addresses == 0
          then new_entry node.i_triple_indirect triple_i_idx arr s
          else (true, arr, s) in
        if not ready
        then some (false, node, s1)
        else add_below node (word arr' triple_i_idx) (logical / 512 % 512) (logical % 512) v s1)

  -- The root of a tree, allocated with the first block below it, and what follows with the root.
  unfoldable pub with_root :
      Inode
      → (logical : ℕ) → (set_root : ℕ → Inode) → Fs
      → (Inode → Fs → Option (Bool × Inode × Fs))
      → Option (Bool × Inode × Fs)
  with_root node logical set_root s next =
      let (a, s1) = allocate_data_block g s in
      if logical == 0
      then (if a == minus_one then some (false, node, s1) else next (set_root a) s1)
      else next node s

  unfoldable pub add_single : Inode → (logical v : ℕ) → Fs → Option (Bool × Inode × Fs)
  unfolding with_root add_leaf
  add_single node logical v s =
      with_root node logical (λ a. record node { i_single_indirect = a }) s
        (λ n t. add_leaf n n.i_single_indirect logical v t)

  unfoldable pub add_double : Inode → (logical v : ℕ) → Fs → Option (Bool × Inode × Fs)
  unfolding with_root add_below
  add_double node logical v s =
      with_root node logical (λ a. record node { i_double_indirect = a }) s
        (λ n t. add_below n n.i_double_indirect (logical / 512) (logical % 512) v t)

  unfoldable pub add_triple : Inode → (logical v : ℕ) → Fs → Option (Bool × Inode × Fs)
  unfolding with_root add_below_triple
  add_triple node logical v s =
      with_root node logical (λ a. record node { i_triple_indirect = a }) s
        (λ n t. add_below_triple n logical v t)

  unfoldable pub add_datablock_to_inode :
      Inode → (data_block_num : ℕ) → Fs → Option (Bool × Inode × Fs)
  unfolding add_single add_double add_triple
  add_datablock_to_inode node v s =
      let logical = node.i_blocks_num in
      let l1 = logical - num_of_direct_blocks in
      let l2 = l1 - single_addresses in
      let l3 = l2 - double_addresses in
      if ltb logical num_of_direct_blocks
      then some (
        true,
        record node {
          i_direct_blocks = set node.i_direct_blocks logical v;
          i_blocks_num = logical + 1;
        },
        s,
      )
      else if ltb l1 single_addresses
      then add_single node l1 v s
      else if ltb l2 double_addresses
      then add_double node l2 v s
      else if ltb l3 triple_addresses
      then add_triple node l3 v s
      else some (false, node, s)
