-- ===== src/InodeOps.antt =====
-- src/inode_ops.c: the inode table in the inode blocks, and freeing what an inode holds. The lookup of
-- a file's blocks, which stands in the same file, is in BlockMap.antt.
pub mod Table
pub mod Least
pub mod Scan
pub mod Allocate
use alt_file_system.Prelude.{
  ℕ, zero, suc, ◌+◌, ◌-◌, ◌/◌, ◌%◌, Bool, true, false, not, ◌&&◌, Option, none, some, List, [], ◌∷◌,
  ltb, ◌==◌, if◌then◌else◌,
}
use alt_file_system.Bytes.{Block, word}
use alt_file_system.Disk.{
  Geometry, Superblock, Fs, set_superblock, minus_one, is_negative, read_block, write_block,
}
use alt_file_system.Superblock.{write_superblock}
use alt_file_system.DataBlock.{free_data_block}
use alt_file_system.Inode.{Inode, inode_at, set_inode}

-- altfs_superblock->s_first_ino = i
unfoldable pub set_first_ino : Fs → ℕ → Fs
set_first_ino s i = set_superblock s (record (s.superblock) { s_first_ino = i })

unfoldable pub is_valid_inode_number : ℕ → Fs → Bool
is_valid_inode_number inum s = not (is_negative inum) && ltb inum s.superblock.s_inodes_count

-- The block that holds an inode, and its place there.
unfoldable pub inum_to_block_pos : ℕ → Fs → ℕ × ℕ
inum_to_block_pos inum s = (
  1 + inum / s.superblock.s_num_of_inodes_per_block,
  inum % s.superblock.s_num_of_inodes_per_block,
)

-- The inner loop of the search for the next free inode, `n` rounds left: whether it found one, and
-- `visited`.
unfoldable pub scan_block : ℕ → Block → (offset visited : ℕ) → Bool × ℕ
scan_block zero nodes offset visited = (false, visited)
scan_block (suc n) nodes offset visited =
    let rest = scan_block n nodes (offset + 1) (visited + 1) in
    if (inode_at nodes offset).i_allocated then rest else (true, visited + 1)

-- What free_inode leaves of an inode.
abbrev pub cleared_inode : Inode
cleared_inode = record {
  i_mode = 0;
  i_uid = 0;
  i_gid = 0;
  i_status_change_time = 0;
  i_atime = 0;
  i_ctime = 0;
  i_mtime = 0;
  i_links_count = 0;
  i_file_size = 0;
  i_blocks_num = 0;
  i_allocated = false;
  i_direct_blocks = 0 ∷ 0 ∷ 0 ∷ 0 ∷ 0 ∷ 0 ∷ 0 ∷ 0 ∷ 0 ∷ 0 ∷ 0 ∷ 0 ∷ [];
  i_single_indirect = 0;
  i_double_indirect = 0;
  i_triple_indirect = 0;
  i_child_num = 0;
}

-- The loop over the addresses of an indirect block, `n` left from word i on: up to the first 0, and
-- to the first failure of `step`.
unfoldable pub free_entries : (step : ℕ → Fs → Bool × Fs) → ℕ → Block → ℕ → Fs → Bool × Fs
free_entries step zero data_blocks i s = (true, s)
free_entries step (suc n) data_blocks i s =
    let (freed, s1) = step (word data_blocks i) s in
    let rest = free_entries step n data_blocks (i + 1) s1 in
    if word data_blocks i == 0 then (true, s) else if freed then rest else (false, s1)

module _ (g : Geometry) where
  -- The outer loop, with fuel for the inode blocks left; some `visited` where a free inode is found.
  unfoldable pub scan_inodes :
      ℕ → (block_num offset visited inodes_left : ℕ) → Block → Fs → Option ℕ
  unfolding scan_block
  scan_inodes zero block_num offset visited inodes_left nodes s = none
  scan_inodes (suc fuel) block_num offset visited inodes_left nodes s =
      let (found, visited') =
        scan_block (s.superblock.s_num_of_inodes_per_block - offset) nodes offset visited in
      let rest : Block → Option ℕ =
        λ nodes'. scan_inodes fuel (block_num + 1) 0 visited' inodes_left nodes' s in
      if visited == inodes_left
      then none
      else if found
      then some visited'
      else if ltb g.inode_block_count (block_num + 1)
      then none
      else elim (read_block g (block_num + 1) s) [ none ↦ none | some nodes' ↦ rest nodes' ]

  -- The number that follows as s_first_ino.
  unfoldable pub next_first_ino : (inum : ℕ) → Option ℕ → Fs → ℕ
  next_first_ino inum (some visited) s = inum + visited
  next_first_ino inum none s = s.superblock.s_inodes_count

  -- allocate_inode once the inode block `nodes` is read.
  unfoldable pub allocate_in_block : (inum block_num offset : ℕ) → Block → Fs → ℕ × Fs
  unfolding next_first_ino scan_inodes
  allocate_in_block inum block_num offset nodes s =
      let node = inode_at nodes offset in
      let nodes' = set_inode nodes offset (record node { i_links_count = 0; i_allocated = true }) in
      let (written, s1) = write_block g block_num nodes' s in
      let inodes_left = s.superblock.s_inodes_count - inum + 1 in
      let found = scan_inodes g.inode_block_count block_num (offset + 1) 0 inodes_left nodes' s1 in
      if node.i_allocated
      then (minus_one, s)
      else if not written
      then (minus_one, s1)
      else (inum, (write_superblock g (set_first_ino s1 (next_first_ino inum found s1))).1)

  unfoldable pub allocate_inode : Fs → ℕ × Fs
  unfolding allocate_in_block is_valid_inode_number inum_to_block_pos
  allocate_inode s =
      let inum = s.superblock.s_first_ino in
      let (block_num, offset) = inum_to_block_pos inum s in
      if inum == s.superblock.s_inodes_count
      then (minus_one, s)
      else if not (is_valid_inode_number inum s)
      then (minus_one, s)
      else elim (read_block g block_num s) [
        | none ↦ (minus_one, s)
        | some nodes ↦ allocate_in_block inum block_num offset nodes s
      ]

  -- `none` is the result NULL.
  unfoldable pub get_inode : ℕ → Fs → Option Inode
  unfolding is_valid_inode_number inum_to_block_pos
  get_inode inum s =
      let (block_num, offset) = inum_to_block_pos inum s in
      if not (is_valid_inode_number inum s) then none else elim (read_block g block_num s) [
        | none ↦ none
        | some nodes ↦ some (inode_at nodes offset)
      ]

  unfoldable pub write_inode : ℕ → Inode → Fs → Bool × Fs
  unfolding is_valid_inode_number inum_to_block_pos
  write_inode inum node s =
      let (block_num, offset) = inum_to_block_pos inum s in
      if not (is_valid_inode_number inum s) then (false, s) else elim (read_block g block_num s) [
        | none ↦ (false, s)
        | some nodes ↦ write_block g block_num (set_inode nodes offset node) s
      ]

  -- free_indirect_blocks(i_block_num, indirection) at indirection ≥ 1; at 0 the call of
  -- free_data_block that stands for it in the loop.
  unfoldable pub free_indirect_blocks : (indirection : ℕ) → ℕ → Fs → Bool × Fs
  unfolding free_entries
  free_indirect_blocks zero i_block_num s = free_data_block g i_block_num s
  free_indirect_blocks (suc indirection) i_block_num s =
      let entries : Block → Bool × Fs =
        λ data_blocks. free_entries (free_indirect_blocks indirection) 512 data_blocks 0 s in
      elim (read_block g i_block_num s) [
        | none ↦ (false, s)
        | some data_blocks ↦
            if (entries data_blocks).0
            then free_data_block g i_block_num (entries data_blocks).1
            else (false, (entries data_blocks).1)
      ]

  -- The direct blocks, up to the first 0.
  unfoldable pub free_direct : List ℕ → Fs → Bool × Fs
  free_direct [] s = (true, s)
  free_direct (block_num ∷ blocks) s =
      let (freed, s1) = free_data_block g block_num s in
      let rest = free_direct blocks s1 in
      if block_num == 0 then (true, s) else if freed then rest else (false, s1)

  -- if(root != 0) free_indirect_blocks(root, indirection)
  unfoldable pub free_root : (indirection : ℕ) → ℕ → Fs → Bool × Fs
  unfolding free_indirect_blocks
  free_root indirection root s =
      if root == 0 then (true, s) else free_indirect_blocks indirection root s

  unfoldable pub free_data_blocks_in_inode : Inode → Fs → Bool × Fs
  unfolding free_direct free_root
  free_data_blocks_in_inode node s =
      let (direct_freed, s1) = free_direct node.i_direct_blocks s in
      let (single_freed, s2) = free_root 1 node.i_single_indirect s1 in
      let (double_freed, s3) = free_root 2 node.i_double_indirect s2 in
      if not direct_freed
      then (false, s1)
      else if not single_freed
      then (false, s2)
      else if not double_freed
      then (false, s3)
      else free_root 3 node.i_triple_indirect s3

  -- free_inode once the inode block `nodes` is read.
  unfoldable pub free_in_block : (inum block_num offset : ℕ) → Block → Fs → Bool × Fs
  unfolding free_data_blocks_in_inode
  free_in_block inum block_num offset nodes s =
      let (freed, s1) = free_data_blocks_in_inode (inode_at nodes offset) s in
      let (written, s2) = write_block g block_num (set_inode nodes offset cleared_inode) s1 in
      let first = s2.superblock.s_first_ino in
      if not freed then (false, s1) else if not written then (false, s2) else (
        true,
        (write_superblock g (set_first_ino s2 (if ltb inum first then inum else first))).1,
      )

  unfoldable pub free_inode : ℕ → Fs → Bool × Fs
  unfolding free_in_block is_valid_inode_number inum_to_block_pos
  free_inode inum s =
      let (block_num, offset) = inum_to_block_pos inum s in
      if not (is_valid_inode_number inum s) then (false, s) else elim (read_block g block_num s) [
        | none ↦ (false, s)
        | some nodes ↦ free_in_block inum block_num offset nodes s
      ]
