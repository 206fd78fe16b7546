-- ===== src/BlockMap/Remove.antt =====
-- src/inode_data_block_ops.c, remove_datablocks_utility and remove_datablocks_from_inode: the logical
-- blocks of a file from one on are freed. A result is what the function returns, the inode and the state.
pub mod Trees
pub mod Direct
pub mod Fields
use mathlib.Core.Option
use alt_file_system.Prelude.{
  ◌>>=◌, ℕ, zero, suc, ◌+◌, ◌-◌, ◌*◌, ◌/◌, ◌%◌, min, Bool, true, false, not, ◌&&◌, ◌||◌, Option,
  none, some, ltb, leb, ◌==◌, if◌then◌else◌, get_or, set,
}
use alt_file_system.Bytes.{Block, word_mod, word, set_word}
use alt_file_system.Disk.{Geometry, Fs, is_negative}
use alt_file_system.DataBlock.{read_data_block, write_data_block, free_data_block}
use alt_file_system.Inode.{Inode, num_of_direct_blocks}
use alt_file_system.BlockMap.{single_addresses, double_addresses, triple_addresses, is_not_positive}

-- The loop of remove_datablocks_utility over the addresses of a block, `n` left from word i on.
unfoldable pub remove_entries :
    (step : ℕ → Fs → Option (Bool × Fs)) → ℕ → Block → ℕ → Fs → Option Fs
remove_entries step zero buffer i s = some s
remove_entries step (suc n) buffer i s =
    let rest : Fs → Option Fs = λ t. remove_entries step n buffer (i + 1) t in
    if word buffer i == 0 then some s else (step (word buffer i) s >>= λ r. rest r.1)

-- ending_block_num -= NUM_OF_SINGLE_INDIRECT_BLOCK_ADDR, on a number that may turn negative
abbrev pub less_block : ℕ → ℕ
less_block ending = (ending + (word_mod - 512)) % word_mod

-- How often a loop from `k` on that stops at 512 and at `ending` runs.
abbrev pub rounds : (k ending : ℕ) → ℕ
rounds k ending = if is_negative ending then 0 else min 512 ending - k

module _ (g : Geometry) where
  -- remove_datablocks_utility at indirection level ≥ 1; at 0 the call of free_data_block that stands
  -- for it in the loop.
  unfoldable pub remove_datablocks_utility : (level : ℕ) → ℕ → Fs → Option (Bool × Fs)
  unfolding remove_entries
  remove_datablocks_utility zero p_block_num s = some (free_data_block g p_block_num s)
  remove_datablocks_utility (suc level) p_block_num s =
      let loop : Block → Option Fs =
        λ buffer. remove_entries (remove_datablocks_utility level) 512 buffer 0 s in
      if is_not_positive p_block_num then some (false, s) else (do
        buffer ← read_data_block g p_block_num s
        t ← loop buffer
        some (true, (free_data_block g p_block_num t).1))

  -- The loop over the direct blocks from `i` on.
  unfoldable pub remove_direct : (n i : ℕ) → Inode → Fs → Bool × Inode × Fs
  remove_direct zero i node s = (true, node, s)
  remove_direct (suc n) i node s =
      let (freed, s1) = free_data_block g (get_or node.i_direct_blocks i 0) s in
      let rest =
        remove_direct n (i + 1) (record node { i_direct_blocks = set node.i_direct_blocks i 0 })
          s1 in
      if freed then rest else (false, node, s1)

  -- The innermost loops: the blocks at the words from `i` on are freed and the words cleared.
  unfoldable pub remove_words : (n i : ℕ) → Block → Fs → Bool × Block × Fs
  remove_words zero i arr s = (true, arr, s)
  remove_words (suc n) i arr s =
      let (freed, s1) = free_data_block g (word arr i) s in
      let rest = remove_words n (i + 1) (set_word arr i 0) s1 in
      if freed then rest else (false, arr, s1)

  -- The words from `i` to `ending` of an indirect block are removed and the block is written back.
  unfoldable pub remove_leaf : (block_num i ending : ℕ) → Fs → Option (Bool × Fs)
  unfolding remove_words
  remove_leaf block_num i ending s = do
    arr ← read_data_block g block_num s
    (let (freed, arr', s1) = remove_words (rounds i ending) i arr s in
        some (if freed then write_data_block g block_num arr' s1 else (false, s1)))

  -- The whole triple tree goes, and the file ends at `start`.
  unfoldable pub remove_triple_tree : (start : ℕ) → Inode → Fs → Option (Bool × Inode × Fs)
  unfolding remove_datablocks_utility
  remove_triple_tree start node s = do
    (ok, s1) ← remove_datablocks_utility 3 node.i_triple_indirect s
    some (
        if ok
        then (true, record node { i_triple_indirect = 0; i_blocks_num = start }, s1)
        else (false, node, s1))

  -- The whole double tree goes, and what lies behind; `ending` counts from the first block of the
  -- single indirect range.
  unfoldable pub remove_double_tree : (start ending : ℕ) → Inode → Fs → Option (Bool × Inode × Fs)
  unfolding remove_triple_tree
  remove_double_tree start ending node s = do
    (ok, s1) ← remove_datablocks_utility 2 node.i_double_indirect s
    (if not ok
        then some (false, node, s1)
        else if leb (ending - single_addresses) double_addresses
        then some (true, record node { i_double_indirect = 0; i_blocks_num = start }, s1)
        else remove_triple_tree start (record node { i_double_indirect = 0 }) s1)

  -- The whole single tree goes, and what lies behind; `ending` counts from the first logical block.
  unfoldable pub remove_single_tree : (start ending : ℕ) → Inode → Fs → Option (Bool × Inode × Fs)
  unfolding remove_double_tree
  remove_single_tree start ending node s = do
    (ok, s1) ← remove_datablocks_utility 1 node.i_single_indirect s
    (if not ok
        then some (false, node, s1)
        else if leb (ending - num_of_direct_blocks) single_addresses
        then some (true, record node { i_single_indirect = 0; i_blocks_num = start }, s1)
        else remove_double_tree start (ending - num_of_direct_blocks)
            (record node { i_single_indirect = 0 }) s1)

  -- What follows the loop over the direct blocks, with the outcome of the loop.
  unfoldable pub after_direct :
      (start ending : ℕ) → (freed : Bool) → Inode → Fs → Option (Bool × Inode × Fs)
  after_direct start ending freed node s =
      if not freed
      then some (false, node, s)
      else if leb ending num_of_direct_blocks
      then some (true, record node { i_blocks_num = start }, s)
      else remove_single_tree start ending node s

  unfoldable pub remove_from_direct : (start ending : ℕ) → Inode → Fs → Option (Bool × Inode × Fs)
  unfolding remove_direct after_direct
  remove_from_direct start ending node s =
      let (freed, node1, s1) = remove_direct (min 12 ending - start) start node s in
      after_direct start ending freed node1 s1

  -- `logical` and `ending` count from the first block of the single indirect range.
  unfoldable pub remove_from_single :
      (start logical ending : ℕ) → Inode → Fs → Option (Bool × Inode × Fs)
  unfolding remove_leaf remove_double_tree
  remove_from_single start logical ending node s =
      if node.i_single_indirect == 0 then some (false, node, s) else (do
        (ok, s1) ← remove_leaf node.i_single_indirect logical ending s
        (if not ok
            then some (false, node, s1)
            else if leb ending single_addresses
            then some (true, record node { i_blocks_num = start }, s1)
            else remove_double_tree start ending node s1))
