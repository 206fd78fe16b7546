-- ===== src/BlockMap/Remove/Trees.antt =====
-- src/inode_data_block_ops.c, remove_datablocks_from_inode where it starts inside the double or the
-- triple tree, and the function as a whole.
use alt_file_system.Prelude.{
  ◌>>=◌, ℕ, zero, suc, ◌+◌, ◌-◌, ◌*◌, ◌/◌, ◌%◌, Bool, true, false, not, ◌&&◌, ◌||◌, Option, some,
  ltb, leb, ◌==◌, if◌then◌else◌,
}
use alt_file_system.Bytes.{Block, word}
use alt_file_system.Disk.{Geometry, Fs, is_negative}
use alt_file_system.DataBlock.{read_data_block, free_data_block}
use alt_file_system.Inode.{Inode, num_of_direct_blocks}
use alt_file_system.BlockMap.{single_addresses, double_addresses, triple_addresses, is_not_positive}
use alt_file_system.BlockMap.Remove.{
  less_block, rounds, remove_leaf, remove_triple_tree, remove_from_direct, remove_from_single,
}

module _ (g : Geometry) where
  -- if(should_free) free_data_block(block_num)
  unfoldable pub free_if : (should_free : Bool) → (block_num : ℕ) → Fs → Bool × Fs
  free_if should_free block_num s = if should_free then free_data_block g block_num s else (true, s)

  -- The loop over the single indirect blocks from entry `i` on, `n` rounds left: whether no step
  -- failed, and the last ending_block_num.
  unfoldable pub remove_double_from :
      (n i double_i_idx inner_idx ending : ℕ) → Block → Fs → Option (Bool × ℕ × Fs)
  unfolding free_if
  remove_double_from zero i double_i_idx inner_idx ending arr s = some (true, ending, s)
  remove_double_from (suc n) i double_i_idx inner_idx ending arr s =
      let j0 = if i == double_i_idx then inner_idx else 0 in
      let j = j0 + rounds j0 ending in
      let rest : Fs → Option (Bool × ℕ × Fs) =
        λ t. remove_double_from n (i + 1) double_i_idx inner_idx (less_block ending) arr t in
      if is_not_positive (word arr i) then some (false, ending, s) else (do
        (ok, s1) ← remove_leaf g (word arr i) j0 ending s
        (let (freed, s2) = free_if (not (i == double_i_idx && ltb 0 j)) (word arr i) s1 in
            if not ok
            then some (false, ending, s1)
            else if j == ending
            then some (true, ending, s1)
            else if freed
            then rest s2
            else some (false, less_block ending, s2)))

  -- `logical` and `ending` count from the first block of the double indirect range.
  unfoldable pub remove_from_double :
      (start logical ending : ℕ) → Inode → Fs → Option (Bool × Inode × Fs)
  unfolding remove_double_from
  remove_from_double start logical ending node s =
      let double_i_idx = logical / 512 in
      let left = ending - single_addresses * double_i_idx in
      if node.i_double_indirect == 0 then some (false, node, s) else (do
        arr ← read_data_block g node.i_double_indirect s
        (ok, ending', s1) ←
            remove_double_from (512 - double_i_idx) double_i_idx double_i_idx (logical % 512) left
              arr s
        (if not ok
            then some (false, node, s1)
            else if is_negative ending' || leb ending' double_addresses
            then some (true, record node { i_blocks_num = start }, s1)
            else remove_triple_tree g start node s1))

  -- The loop over one double indirect block: whether no step failed, whether the end was reached, and
  -- the last ending_block_num.
  unfoldable pub remove_block_from :
      (n j double_i_idx inner_idx ending : ℕ) → Block → Fs → Option (Bool × Bool × ℕ × Fs)
  unfolding free_if
  remove_block_from zero j double_i_idx inner_idx ending arr s = some (true, false, ending, s)
  remove_block_from (suc n) j double_i_idx inner_idx ending arr s =
      let k0 = if j == double_i_idx then inner_idx else 0 in
      let k = k0 + rounds k0 ending in
      let rest : Fs → Option (Bool × Bool × ℕ × Fs) =
        λ t. remove_block_from n (j + 1) double_i_idx inner_idx (less_block ending) arr t in
      if is_not_positive (word arr j) then some (false, false, ending, s) else (do
        (ok, s1) ← remove_leaf g (word arr j) k0 ending s
        (let (freed, s2) = free_if (not (k0 == inner_idx)) (word arr j) s1 in
            if not ok
            then some (false, false, ending, s1)
            else if k == ending
            then some (true, true, ending, s1)
            else if freed
            then rest s2
            else some (false, false, less_block ending, s2)))

  -- The loop over the double indirect blocks from entry `i` on.
  unfoldable pub remove_triple_from :
      (n i triple_i_idx double_i_idx inner_idx ending : ℕ) → Block → Fs → Option (Bool × Fs)
  unfolding remove_block_from free_if
  remove_triple_from zero i triple_i_idx double_i_idx inner_idx ending arr s = some (true, s)
  remove_triple_from (suc n) i triple_i_idx double_i_idx inner_idx ending arr s =
      let j0 = if i == triple_i_idx then double_i_idx else 0 in
      let rest : ℕ → Fs → Option (Bool × Fs) =
        λ left t. remove_triple_from n (i + 1) triple_i_idx double_i_idx inner_idx left arr t in
      if is_not_positive (word arr i) then some (false, s) else (do
        block ← read_data_block g (word arr i) s
        (ok, reached, ending', s1) ←
            remove_block_from (512 - j0) j0 double_i_idx inner_idx ending block s
        (let (freed, s2) = free_if (not (j0 == double_i_idx)) (word arr i) s1 in
            if not ok
            then some (false, s1)
            else if reached
            then some (true, s1)
            else if freed
            then rest ending' s2
            else some (false, s2)))

  -- `logical` and `ending` count from the first block of the triple indirect range.
  unfoldable pub remove_from_triple :
      (start logical ending : ℕ) → Inode → Fs → Option (Bool × Inode × Fs)
  unfolding remove_triple_from
  remove_from_triple start logical ending node s =
      let triple_i_idx = logical / double_addresses in
      let double_i_idx = logical / 512 % 512 in
      let left = ending - (double_addresses * triple_i_idx + single_addresses * double_i_idx) in
      if node.i_triple_indirect == 0 then some (false, node, s) else (do
        arr ← read_data_block g node.i_triple_indirect s
        (ok, s1) ←
            remove_triple_from (512 - triple_i_idx) triple_i_idx triple_i_idx double_i_idx
              (logical % 512) left arr s
        some (if ok then (true, record node { i_blocks_num = start }, s1) else (false, node, s1)))

  unfoldable pub remove_datablocks_from_inode :
      Inode → (logical : ℕ) → Fs → Option (Bool × Inode × Fs)
  unfolding remove_from_double remove_from_triple
  remove_datablocks_from_inode node logical s =
      let ending = node.i_blocks_num in
      let l1 = logical - num_of_direct_blocks in
      let l2 = l1 - single_addresses in
      let l3 = l2 - double_addresses in
      let e1 = ending - num_of_direct_blocks in
      let e2 = e1 - single_addresses in
      let e3 = e2 - double_addresses in
      if leb ending logical
      then some (false, node, s)
      else if leb logical num_of_direct_blocks
      then remove_from_direct g logical ending node s
      else if leb l1 single_addresses
      then remove_from_single g logical l1 e1 node s
      else if leb l2 double_addresses
      then remove_from_double logical l2 e2 node s
      else if leb l3 triple_addresses
      then remove_from_triple logical l3 e3 node s
      else some (false, node, s)
