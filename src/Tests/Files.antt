-- ===== src/Tests/Files.antt =====
-- The theorems on inodes, block maps and directories at concrete inputs.
use alt_file_system.Prelude.{
  ℕ, ◌<◌, ◌≡◌, ◌≢◌, refl, inl, inr, true, ◌&&◌, some, [], ◌∷◌, arith, ◌==◌, if◌then◌else◌,
}
use alt_file_system.Bytes.{Block, zero_block, word, set_word, load, store, set_byte}
use alt_file_system.Disk.{
  memory_geometry, Fs, set_disk, put_block, read_block, is_block_out_of_range,
}
use alt_file_system.DataBlock.{read_data_block, is_bad_index}
use alt_file_system.BlockMap.Entry.{put_entry}
use alt_file_system.Inode.{Inode, inode_at}
use alt_file_system.Inode.Layout.{get_or-zeros, IsInode}
use alt_file_system.InodeOps.{cleared_inode, allocate_inode, get_inode, write_inode}
use alt_file_system.InodeOps.Table.{inode_of, get_inode-write_inode}
use alt_file_system.InodeOps.Least.{Least}
use alt_file_system.InodeOps.Allocate.{InodeTaken, allocate_inode-InodeTaken}
use alt_file_system.BlockMap.{get_disk_block_from_inode_block}
use alt_file_system.BlockMap.Locate.{
  single, triple, locate, position, InBlocks, max_blocks, leaf_block, descend, resolve,
  position-locate, locate-position,
}
use alt_file_system.BlockMap.Lookup.{HasRoots, value_of, get_disk_block-resolve}
use alt_file_system.BlockMap.Overwrite.{overwrite_datablock_to_inode}
use alt_file_system.BlockMap.Replace.{is_block}
use alt_file_system.BlockMap.Overwrite.Resolve.{overwrite-resolve}
use alt_file_system.BlockMap.Hint.{overwrite_hinted-clobbers}
use alt_file_system.Directory.{put_record}
use alt_file_system.Directory.Records.{end_of, position_of, same_name}
use alt_file_system.Directory.Append.{Holds, Holds-put_record}
use alt_file_system.Tests.{sound, blank, blank-IsSuperblock}

-- A file of 700 blocks.
abbrev file : Inode
file = record cleared_inode {
  i_mode = 33188;
  i_links_count = 1;
  i_blocks_num = 700;
  i_allocated = true;
  i_single_indirect = 2000;
  i_double_indirect = 2001;
}

file-IsInode : IsInode file
file-IsInode = record {
  mode = omega arith;
  uid = omega arith;
  gid = omega arith;
  status = omega arith;
  atime = omega arith;
  ctime = omega arith;
  mtime = omega arith;
  links = omega arith;
  size = omega arith;
  blocks = omega arith;
  direct = λ k. omega (arith, get_or-zeros 12 k);
  count = refl;
  single = omega arith;
  double = omega arith;
  triple = omega arith;
  child = omega arith;
}

get_inode-write_inode_example :
    ((write_inode memory_geometry 20 file (blank 1921)).0 ≡ true)
    × (get_inode memory_geometry 20 (write_inode memory_geometry 20 file (blank 1921)).1
        ≡ some file)
get_inode-write_inode_example =
    get_inode-write_inode sound 20 20 file (blank 1921) blank-IsSuperblock file-IsInode

blank-Least : Least (blank 1921) 0 0
unfolding inode_of inode_at load zero_block
blank-Least = record {
  above = omega arith;
  within = omega arith;
  allocated = λ i p lt. absurd (omega arith);
  free = λ _. refl;
}

blank-IsInode : IsInode (inode_of (blank 1921) 0)
unfolding inode_of inode_at load zero_block
blank-IsInode = record {
  mode = omega arith;
  uid = omega arith;
  gid = omega arith;
  status = omega arith;
  atime = omega arith;
  ctime = omega arith;
  mtime = omega arith;
  links = omega arith;
  size = omega arith;
  blocks = omega arith;
  direct = λ k. omega (arith, get_or-zeros 12 k);
  count = refl;
  single = omega arith;
  double = omega arith;
  triple = omega arith;
  child = omega arith;
}

allocate_inode-InodeTaken_example :
    ((allocate_inode memory_geometry (blank 1921)).0 ≡ 0)
    × InodeTaken memory_geometry (blank 1921) 0 (allocate_inode memory_geometry (blank 1921)).1
allocate_inode-InodeTaken_example =
    allocate_inode-InodeTaken sound (blank 1921) blank-IsSuperblock blank-Least (omega arith)
      blank-IsInode

position-locate_example : (position (locate 300000) ≡ 300000) × InBlocks (locate 300000)
position-locate_example = position-locate 300000 (omega arith)

locate-position_example :
    (locate (position (triple 1 2 3)) ≡ triple 1 2 3) × (position (triple 1 2 3) < max_blocks)
locate-position_example = locate-position (triple 1 2 3) (omega arith, omega arith, omega arith)

file-HasRoots : HasRoots file
file-HasRoots = record {
  single_root = omega arith;
  double_root = omega arith;
  triple_root = omega arith;
}

get_disk_block-resolve_example :
    value_of (get_disk_block_from_inode_block memory_geometry file 600 0 (blank 1921))
    ≡ resolve memory_geometry (blank 1921) file (locate 600)
get_disk_block-resolve_example =
    get_disk_block-resolve memory_geometry (blank 1921) file file-HasRoots 600 0 (omega arith)
      (inl refl)

file_leaf : leaf_block memory_geometry (blank 1921) file (locate 13) ≡ some 2000
unfolding leaf_block descend locate
file_leaf = refl

overwrite-resolve_example :
    (next : ℕ) × (t : Fs) × (overwrite_datablock_to_inode memory_geometry file 13 3000 0
        (blank 1921)
      ≡ some (true, file, next, t))
    × (resolve memory_geometry t file (locate 13) ≡ some 3000)
    × (resolve memory_geometry t file (single 7) ≡ (
        if is_block 2000 (leaf_block memory_geometry (blank 1921) file (single 7)) && 1 == 7
        then some 3000
        else resolve memory_geometry (blank 1921) file (single 7)))
unfolding locate
overwrite-resolve_example =
    overwrite-resolve sound 2000 (omega arith) (omega arith) (blank 1921) file file-HasRoots 3000 13
      (omega arith) (omega arith) file_leaf tt (single 7) tt

-- The file's first block below its double indirect block is 2002.
abbrev mapped : Fs
mapped = put_entry (blank 1921) 2001 0 2002

mapped_leaf : leaf_block memory_geometry mapped file (locate 526) ≡ some 2002
unfolding leaf_block descend locate put_entry set_disk put_block read_block word set_word
    read_data_block is_bad_index is_block_out_of_range load store set_byte zero_block
    alt_file_system.BlockMap.entry
mapped_leaf = refl

overwrite_hinted-clobbers_example :
    (t : Fs) × (overwrite_datablock_to_inode memory_geometry file 526 3000 2002 mapped
      ≡ some (true, file, 2002, t))
    × (resolve memory_geometry t file (locate 526)
        ≡ resolve memory_geometry mapped file (locate 526))
    × ((n : ℕ) → 3000 ≢ n → t.disk n ≡ mapped.disk n)
    × (t.disk 3000 ≡ set_word zero_block 2 3000)
unfolding zero_block put_entry set_disk put_block
overwrite_hinted-clobbers_example =
    overwrite_hinted-clobbers sound mapped file 3000 (omega arith) (omega arith) 2002 (omega arith)
      (omega arith) file-HasRoots 526 (omega arith) (omega arith) (omega arith)
      (λ e. absurd (omega arith)) (λ e. absurd (omega arith)) mapped_leaf
      (λ e. absurd (omega arith)) (λ e. absurd (omega arith))

empty-Holds : Holds 0 [] zero_block
unfolding load zero_block
empty-Holds = record { layout = inr refl; zeros = λ o le lt. refl }

-- A directory block with the name "a" of inode 5.
abbrev one_name : Block
one_name = put_record zero_block 0 5 (b'a' ∷ [])

one-Holds : Holds 0 ((5, b'a' ∷ []) ∷ []) one_name
unfolding end_of
one-Holds = Holds-put_record 0 [] zero_block 5 (b'a' ∷ []) empty-Holds (omega arith) (omega arith)

one_position : position_of (b'a' ∷ []) 0 ((5, b'a' ∷ []) ∷ []) ≡ some 0
unfolding position_of same_name
one_position = refl
