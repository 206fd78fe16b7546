-- ===== src/DataBlock.antt =====
-- src/data_block_ops.c: the free list of data blocks. The block at s_freelist_head lists in its words
-- 1 to 511 the numbers of free blocks, 0 for none; its word 0 is the next block of the list, 0 at the
-- end. A block of the list is itself free.
pub mod Count
pub mod FreeList
pub mod Allocate
pub mod Free
pub mod Exhausted
pub mod Format
pub mod MakeFs
pub mod Kept
use alt_file_system.Prelude.{
  ℕ, zero, suc, ◌+◌, Bool, true, false, ◌||◌, Option, none, some, ltb, leb, ◌==◌, if◌then◌else◌,
}
use alt_file_system.Bytes.{Block, zero_block, word, set_word}
use alt_file_system.Disk.{
  Geometry, Superblock, Fs, set_superblock, minus_one, is_negative, read_block, write_block,
}
use alt_file_system.Superblock.{set_freelist_head, write_superblock}

-- The scan of allocate_data_block: the first of `n` words from `i` on that is not 0.
unfoldable pub find_used : ℕ → Block → ℕ → Option ℕ
find_used zero b i = none
find_used (suc n) b i = let rest = find_used n b (i + 1) in if word b i == 0 then rest else some i

-- The scan of free_data_block: the first word that is 0.
unfoldable pub find_unused : ℕ → Block → ℕ → Option ℕ
find_unused zero b i = none
find_unused (suc n) b i =
    let rest = find_unused n b (i + 1) in if word b i == 0 then some i else rest

-- index <= INODE_BLOCK_COUNT || index > BLOCK_COUNT
unfoldable pub is_bad_index : Geometry → ℕ → Bool
is_bad_index g i = (is_negative i || leb i g.inode_block_count) || ltb g.block_count i

module _ (g : Geometry) where
  -- The end of allocate_data_block: the list block is written back and the allocated block is zeroed.
  unfoldable pub hand_out : (temp : ℕ) (buffer : Block) (allocated : ℕ) → Fs → ℕ × Fs
  hand_out temp buffer allocated s =
      let (written, s1) = write_block g temp buffer s in
      if written then (allocated, (write_block g allocated zero_block s1).1) else (minus_one, s1)

  -- The branch that found no entry: the list block itself is allocated.
  unfoldable pub allocate_head : (temp : ℕ) (buffer : Block) → Fs → ℕ × Fs
  unfolding hand_out
  allocate_head temp buffer s =
      let (written, s1) = write_superblock g (set_freelist_head s (word buffer 0)) in
      if written then hand_out temp (set_word buffer 0 0) temp s1 else (minus_one, s1)

  unfoldable pub allocate_from : (temp : ℕ) (buffer : Block) → Option ℕ → Fs → ℕ × Fs
  unfolding allocate_head
  allocate_from temp buffer (some i) s = hand_out temp (set_word buffer i 0) (word buffer i) s
  allocate_from temp buffer none s = allocate_head temp buffer s

  unfoldable pub allocate_data_block : Fs → ℕ × Fs
  unfolding allocate_from
  allocate_data_block s =
      if s.superblock.s_freelist_head == 0
      then (minus_one, s)
      else elim (read_block g s.superblock.s_freelist_head s) [
        | none ↦ (minus_one, s)
        | some buffer ↦ allocate_from s.superblock.s_freelist_head buffer (find_used 511 buffer 1) s
      ]

  -- `none` is the result NULL.
  unfoldable pub read_data_block : ℕ → Fs → Option Block
  read_data_block i s = if is_bad_index g i then none else read_block g i s

  unfoldable pub write_data_block : ℕ → Block → Fs → Bool × Fs
  write_data_block i buffer s = if is_bad_index g i then (false, s) else write_block g i buffer s

  -- free_data_block after the scan of the list block `buffer`.
  unfoldable pub free_into : (index : ℕ) (buffer : Block) → Option ℕ → Fs → Bool × Fs
  free_into index buffer (some i) s =
      write_block g s.superblock.s_freelist_head (set_word buffer i index) s
  free_into index buffer none s =
      let temp = s.superblock.s_freelist_head in
      let (written, s1) = write_superblock g (set_freelist_head s index) in
      if written then write_block g index (set_word zero_block 0 temp) s1 else (false, s1)

  unfoldable pub free_at_head : (index : ℕ) → Fs → Bool × Fs
  unfolding free_into
  free_at_head index s = elim (read_block g s.superblock.s_freelist_head s) [
    | none ↦ (false, s)
    | some buffer ↦ free_into index buffer (find_unused 511 buffer 1) s
  ]

  unfoldable pub free_data_block : (index : ℕ) → Fs → Bool × Fs
  unfolding free_at_head
  free_data_block index s =
      if is_bad_index g index
      then (false, s)
      else if s.superblock.s_freelist_head == 0
      then (let (written, s1) = write_superblock g (set_freelist_head s index) in
          if written then free_at_head index s1 else (false, s1))
      else free_at_head index s
