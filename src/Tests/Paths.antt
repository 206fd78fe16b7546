-- ===== src/Tests/Paths.antt =====
-- The theorems on the cache, paths and the calls at concrete inputs.
use alt_file_system.Prelude.{
  ℕ, zero, suc, get_or, ◌^◌, ◌<◌, ◌≡◌, refl, true, some, List, [], ◌∷◌, arith,
}
use alt_file_system.Bytes.{word_mod, zero_block, load, store, set_byte}
use alt_file_system.Disk.{
  Disk, memory_geometry, Fs, put_block, set_disk, read_block, write_block, is_block_out_of_range,
}
use alt_file_system.DataBlock.{read_data_block, is_bad_index}
use alt_file_system.BlockMap.{get_disk_block_from_inode_block}
use alt_file_system.PathName.{
  copy_parent_path, copy_file_name, get_last_index_of_parent_path, last_index_from, end_of_name,
}
use alt_file_system.Inode.Layout.{get_or-zeros, IsInode}
use alt_file_system.Inode.{Inode, inode_at, set_inode, store_fields}
use alt_file_system.InodeOps.{
  cleared_inode, get_inode, write_inode, is_valid_inode_number, inum_to_block_pos,
}
use alt_file_system.Directory.{
  put_record, put_name, get_file_position_in_dir, find_in_blocks, find_record, is_record_of,
  bytes_match,
}
use alt_file_system.InodeCache.{create_inode_cache}
use alt_file_system.World.{World}
use alt_file_system.PathLookup.{find_child}
use alt_file_system.PathLookup.Reference.{lookup_path, lookup_within, child_of}
use alt_file_system.PathLookup.Cached.{IsCoherent, create_inode_cache-IsCoherent}
use alt_file_system.Superblock.Encoding.{IsSuperblock}
use alt_file_system.Tests.{blank, blank-IsSuperblock}

-- The root directory holds the records of a file "a" and of a directory "d", which has a third entry.
abbrev pub root : Inode
root = record cleared_inode {
  i_mode = 16877;
  i_links_count = 1;
  i_file_size = 4096;
  i_blocks_num = 1;
  i_allocated = true;
  i_direct_blocks = 2000 ∷ 0 ∷ 0 ∷ 0 ∷ 0 ∷ 0 ∷ 0 ∷ 0 ∷ 0 ∷ 0 ∷ 0 ∷ 0 ∷ [];
  i_child_num = 4;
}

abbrev pub file_a : Inode
file_a = record cleared_inode {
  i_mode = 33188;
  i_links_count = 1;
  i_file_size = 5000;
  i_blocks_num = 2;
  i_allocated = true;
  i_direct_blocks = 2001 ∷ 2002 ∷ 0 ∷ 0 ∷ 0 ∷ 0 ∷ 0 ∷ 0 ∷ 0 ∷ 0 ∷ 0 ∷ 0 ∷ [];
}

abbrev dir_d : Inode
dir_d = record cleared_inode {
  i_mode = 16877;
  i_links_count = 1;
  i_allocated = true;
  i_child_num = 3;
}

-- The data blocks: the records of the root, and the two blocks of the file.
abbrev data_blocks : Disk
data_blocks =
    put_block
      (put_block
        (put_block (blank 1921).disk 2000
          (put_record (put_record zero_block 0 5 (b'a' ∷ [])) 12 6 (b'd' ∷ [])))
        2001 (λ o. o))
      2002 (λ o. o)

abbrev pub tree : Fs
tree =
    (write_inode memory_geometry 6 dir_d
      (write_inode memory_geometry 5 file_a
        (write_inode memory_geometry 2 root (set_disk (blank 1921) data_blocks)).1).1).1

abbrev pub path_root : List ℕ
path_root = b'/' ∷ []

abbrev pub path_a : List ℕ
path_a = b'/' ∷ b'a' ∷ []

abbrev pub path_b : List ℕ
path_b = b'/' ∷ b'b' ∷ []

abbrev pub start : World
start = record { fs = tree; cache = create_inode_cache 8 }

pub start-IsCoherent : IsCoherent memory_geometry start.fs start.cache
start-IsCoherent = create_inode_cache-IsCoherent memory_geometry 8 tree

pub path_a-means : lookup_path memory_geometry path_a tree ≡ some 5
unfolding lookup_path lookup_within child_of find_child get_inode is_valid_inode_number
    inum_to_block_pos inode_at load get_file_position_in_dir find_in_blocks find_record is_record_of
    bytes_match get_disk_block_from_inode_block read_data_block is_bad_index read_block
    is_block_out_of_range write_inode write_block set_disk put_block set_inode store_fields store
    set_byte put_record put_name zero_block copy_parent_path copy_file_name
    get_last_index_of_parent_path last_index_from end_of_name
path_a-means = refl

pub path_root-means : lookup_path memory_geometry path_root tree ≡ some 2
unfolding lookup_path lookup_within child_of find_child get_inode is_valid_inode_number
    inum_to_block_pos inode_at load get_file_position_in_dir find_in_blocks find_record is_record_of
    bytes_match get_disk_block_from_inode_block read_data_block is_bad_index read_block
    is_block_out_of_range write_inode write_block set_disk put_block set_inode store_fields store
    set_byte put_record put_name zero_block copy_parent_path copy_file_name
    get_last_index_of_parent_path last_index_from end_of_name
path_root-means = refl

pub file_a-there : get_inode memory_geometry 5 tree ≡ some file_a
unfolding lookup_path lookup_within child_of find_child get_inode is_valid_inode_number
    inum_to_block_pos inode_at load get_file_position_in_dir find_in_blocks find_record is_record_of
    bytes_match get_disk_block_from_inode_block read_data_block is_bad_index read_block
    is_block_out_of_range write_inode write_block set_disk put_block set_inode store_fields store
    set_byte put_record put_name zero_block copy_parent_path copy_file_name
    get_last_index_of_parent_path last_index_from end_of_name
file_a-there = refl

pub tree-IsSuperblock : IsSuperblock memory_geometry tree.superblock
unfolding write_inode set_disk read_block write_block
tree-IsSuperblock = blank-IsSuperblock

pub file_a_blocks : (k : ℕ) → get_or file_a.i_direct_blocks k 0 < word_mod
file_a_blocks zero = omega arith
file_a_blocks (suc zero) = omega arith
file_a_blocks (suc (suc k)) = omega (arith, get_or-zeros 10 k)

-- The file with another mode, or with new times.
pub file_a-IsInode :
    (mode atime ctime mtime : ℕ)
    → mode < 256 ^ 4
    → atime < 256 ^ 8
    → ctime < 256 ^ 8
    → mtime < 256 ^ 8
    → IsInode (record file_a { i_mode = mode; i_atime = atime; i_ctime = ctime; i_mtime = mtime })
file_a-IsInode mode atime ctime mtime m a c t = record {
  mode = m;
  uid = omega arith;
  gid = omega arith;
  status = omega arith;
  atime = a;
  ctime = c;
  mtime = t;
  links = omega arith;
  size = omega arith;
  blocks = omega arith;
  direct = file_a_blocks;
  count = refl;
  single = omega arith;
  double = omega arith;
  triple = omega arith;
  child = omega arith;
}
