-- ===== src/Tests/Runs.antt =====
-- Runs of the calls, evaluated, and the theorems on the outcomes of such runs.
use alt_file_system.Prelude.{◌+◌, ◌<◌, zero, suc, ℕ, ◌≤◌, ◌≡◌, ◌⊎◌, refl, true, none, some, arith}
use alt_file_system.Disk.{memory_geometry, is_negative}
use alt_file_system.InodeCache.{
  create_inode_cache, get_cache_entry, set_cache_entry, remove_cache_entry,
}
use alt_file_system.World.{World, Prog}
use alt_file_system.Interface.Write.{altfs_write}
use alt_file_system.Interface.Write.Result.{altfs_write-Bounded}
use alt_file_system.Interface.Truncate.{altfs_truncate, altfs_open}
use alt_file_system.Interface.Attributes.{altfs_open-o_trunc}
use alt_file_system.BlockMap.{get_disk_block_from_inode_block}
use alt_file_system.Bytes.{load, set_byte, store, zero_block}
use alt_file_system.DataBlock.{is_bad_index, read_data_block, write_data_block}
use alt_file_system.Directory.{
  bytes_match, find_in_blocks, find_record, get_file_position_in_dir, is_record_of, put_name,
  put_record,
}
use alt_file_system.Disk.{is_block_out_of_range, put_block, read_block, set_disk, write_block}
use alt_file_system.Inode.{inode_at, set_inode, store_fields}
use alt_file_system.InodeCache.{
  delete_last, delete_node, find, hash_from, hash_func, hash_index, move_to_front, push_front,
  same_key, set_next, set_prev, unlink_entry,
}
use alt_file_system.InodeOps.{get_inode, inum_to_block_pos, is_valid_inode_number, write_inode}
use alt_file_system.Interface.Read.{memcpy}
use alt_file_system.Interface.Write.{
  after_piece, bytes_into, extend_file, first_piece, grown_size, overwritten, partial_result,
  write_added, write_allocated, write_file, written_inode,
}
use alt_file_system.PathLookup.{find_child, name_i, name_i_within, name_in_parent}
use alt_file_system.PathName.{
  copy_file_name, copy_parent_path, end_of_name, get_last_index_of_parent_path, last_index_from,
}
use alt_file_system.BlockMap.Remove.{after_direct, remove_direct, remove_from_direct}
use alt_file_system.BlockMap.Remove.Trees.{remove_datablocks_from_inode}
use alt_file_system.Bytes.{set_word, word}
use alt_file_system.DataBlock.{find_unused, find_used, free_at_head, free_data_block, free_into}
use alt_file_system.Interface.{with_times}
use alt_file_system.Interface.Truncate.{blocks_kept, lacks_permission, shrink_file}
use alt_file_system.Superblock.Encoding.{IsSuperblock}
use alt_file_system.Inode.Layout.{IsInode}
use alt_file_system.Interface.Write.InPlace.{written_byte}
use alt_file_system.BlockMap.Direct.{direct_at, HasDirectBlocks}
use alt_file_system.Interface.Write.Overwrite.{inode_after, altfs_write-written_byte}
use alt_file_system.Tests.{sound}
use alt_file_system.Tests.Paths.{
  file_a_blocks, file_a, path_a, start, tree-IsSuperblock, file_a-IsInode,
}

-- The world after a program, and the one before it where it faults.
abbrev world_after : {A : Type 0} → Prog A → World → World
world_after m w = elim (m w) [ none ↦ w | some (a, w') ↦ w' ]

abbrev write_run : Prog ℕ
write_run = altfs_write memory_geometry 9 path_a (λ p. p) 4 4998

write_run-4 : write_run start ≡ some (4, world_after write_run start)
unfolding altfs_write write_file write_allocated extend_file write_added written_inode grown_size
    bytes_into overwritten memcpy after_piece partial_result first_piece name_i name_i_within
    name_in_parent find_child get_cache_entry hash_index hash_func hash_from find move_to_front
    unlink_entry set_next set_prev create_inode_cache same_key set_cache_entry push_front
    delete_last delete_node remove_cache_entry get_inode is_valid_inode_number inum_to_block_pos
    inode_at load get_file_position_in_dir find_in_blocks find_record is_record_of bytes_match
    get_disk_block_from_inode_block read_data_block write_data_block is_bad_index read_block
    is_block_out_of_range write_inode write_block set_disk put_block set_inode store_fields store
    set_byte put_record put_name zero_block copy_parent_path copy_file_name
    get_last_index_of_parent_path last_index_from end_of_name
write_run-4 = refl

altfs_write-Bounded_example : (4 ≤ 4) ⊎ (is_negative 4 ≡ true)
altfs_write-Bounded_example =
    altfs_write-Bounded memory_geometry 9 path_a (λ p. p) 4 4998 4 start
      (world_after write_run start) (omega arith) write_run-4

-- The file is truncated to 0 by altfs_open, with O_WRONLY | O_TRUNC.
abbrev looked_up : World
looked_up = world_after (name_i memory_geometry path_a) start

abbrev truncate_run : Prog ℕ
truncate_run = altfs_truncate memory_geometry 9 path_a 0

name_i_run : name_i memory_geometry path_a start ≡ some (5, looked_up)
unfolding altfs_write write_file write_allocated extend_file write_added written_inode grown_size
    bytes_into overwritten memcpy after_piece partial_result first_piece name_i name_i_within
    name_in_parent find_child get_cache_entry hash_index hash_func hash_from find move_to_front
    unlink_entry set_next set_prev create_inode_cache same_key set_cache_entry push_front
    delete_last delete_node remove_cache_entry get_inode is_valid_inode_number inum_to_block_pos
    inode_at load get_file_position_in_dir find_in_blocks find_record is_record_of bytes_match
    get_disk_block_from_inode_block read_data_block write_data_block is_bad_index read_block
    is_block_out_of_range write_inode write_block set_disk put_block set_inode store_fields store
    set_byte put_record put_name zero_block copy_parent_path copy_file_name
    get_last_index_of_parent_path last_index_from end_of_name
name_i_run = refl

file_a_kept : get_inode memory_geometry 5 looked_up.fs ≡ some file_a
unfolding altfs_write write_file write_allocated extend_file write_added written_inode grown_size
    bytes_into overwritten memcpy after_piece partial_result first_piece name_i name_i_within
    name_in_parent find_child get_cache_entry hash_index hash_func hash_from find move_to_front
    unlink_entry set_next set_prev create_inode_cache same_key set_cache_entry push_front
    delete_last delete_node remove_cache_entry get_inode is_valid_inode_number inum_to_block_pos
    inode_at load get_file_position_in_dir find_in_blocks find_record is_record_of bytes_match
    get_disk_block_from_inode_block read_data_block write_data_block is_bad_index read_block
    is_block_out_of_range write_inode write_block set_disk put_block set_inode store_fields store
    set_byte put_record put_name zero_block copy_parent_path copy_file_name
    get_last_index_of_parent_path last_index_from end_of_name
file_a_kept = refl

truncate_run-0 : truncate_run looked_up ≡ some (0, world_after truncate_run looked_up)
unfolding altfs_write write_file write_allocated extend_file write_added written_inode grown_size
    bytes_into overwritten memcpy after_piece partial_result first_piece name_i name_i_within
    name_in_parent find_child get_cache_entry hash_index hash_func hash_from find move_to_front
    unlink_entry set_next set_prev create_inode_cache same_key set_cache_entry push_front
    delete_last delete_node remove_cache_entry get_inode is_valid_inode_number inum_to_block_pos
    inode_at load get_file_position_in_dir find_in_blocks find_record is_record_of bytes_match
    get_disk_block_from_inode_block read_data_block write_data_block is_bad_index read_block
    is_block_out_of_range write_inode write_block set_disk put_block set_inode store_fields store
    set_byte put_record put_name zero_block copy_parent_path copy_file_name
    get_last_index_of_parent_path last_index_from end_of_name altfs_truncate shrink_file blocks_kept
    remove_datablocks_from_inode remove_from_direct remove_direct after_direct free_data_block
    free_into free_at_head find_used find_unused word set_word
truncate_run-0 = refl

truncated-IsSuperblock :
    IsSuperblock memory_geometry (world_after truncate_run looked_up).fs.superblock
unfolding altfs_write write_file write_allocated extend_file write_added written_inode grown_size
    bytes_into overwritten memcpy after_piece partial_result first_piece name_i name_i_within
    name_in_parent find_child get_cache_entry hash_index hash_func hash_from find move_to_front
    unlink_entry set_next set_prev create_inode_cache same_key set_cache_entry push_front
    delete_last delete_node remove_cache_entry get_inode is_valid_inode_number inum_to_block_pos
    inode_at load get_file_position_in_dir find_in_blocks find_record is_record_of bytes_match
    get_disk_block_from_inode_block read_data_block write_data_block is_bad_index read_block
    is_block_out_of_range write_inode write_block set_disk put_block set_inode store_fields store
    set_byte put_record put_name zero_block copy_parent_path copy_file_name
    get_last_index_of_parent_path last_index_from end_of_name altfs_truncate shrink_file blocks_kept
    remove_datablocks_from_inode remove_from_direct remove_direct after_direct free_data_block
    free_into free_at_head find_used find_unused word set_word lacks_permission with_times
truncated-IsSuperblock = tree-IsSuperblock

altfs_open-o_trunc_example :
    (w : World) × (altfs_open memory_geometry 9 path_a 513 start ≡ some (5, w))
    × (get_inode memory_geometry 5 w.fs ≡ some (record file_a { i_ctime = 9; i_mtime = 9 }))
unfolding altfs_write write_file write_allocated extend_file write_added written_inode grown_size
    bytes_into overwritten memcpy after_piece partial_result first_piece name_i name_i_within
    name_in_parent find_child get_cache_entry hash_index hash_func hash_from find move_to_front
    unlink_entry set_next set_prev create_inode_cache same_key set_cache_entry push_front
    delete_last delete_node remove_cache_entry get_inode is_valid_inode_number inum_to_block_pos
    inode_at load get_file_position_in_dir find_in_blocks find_record is_record_of bytes_match
    get_disk_block_from_inode_block read_data_block write_data_block is_bad_index read_block
    is_block_out_of_range write_inode write_block set_disk put_block set_inode store_fields store
    set_byte put_record put_name zero_block copy_parent_path copy_file_name
    get_last_index_of_parent_path last_index_from end_of_name altfs_truncate shrink_file blocks_kept
    remove_datablocks_from_inode remove_from_direct remove_direct after_direct free_data_block
    free_into free_at_head find_used find_unused word set_word lacks_permission with_times
altfs_open-o_trunc_example =
    altfs_open-o_trunc sound path_a 5 file_a start 9 513 0 looked_up
      (world_after truncate_run looked_up) name_i_run (λ e. absurd (omega arith)) file_a_kept refl
      refl refl truncate_run-0 (λ e. absurd (omega arith)) tree-IsSuperblock truncated-IsSuperblock
      (file_a-IsInode 33188 0 9 9 (omega arith) (omega arith) (omega arith) (omega arith))

looked_up-IsSuperblock : IsSuperblock memory_geometry looked_up.fs.superblock
unfolding altfs_write write_file write_allocated extend_file write_added written_inode grown_size
    bytes_into overwritten memcpy after_piece partial_result first_piece name_i name_i_within
    name_in_parent find_child get_cache_entry hash_index hash_func hash_from find move_to_front
    unlink_entry set_next set_prev create_inode_cache same_key set_cache_entry push_front
    delete_last delete_node remove_cache_entry get_inode is_valid_inode_number inum_to_block_pos
    inode_at load get_file_position_in_dir find_in_blocks find_record is_record_of bytes_match
    get_disk_block_from_inode_block read_data_block write_data_block is_bad_index read_block
    is_block_out_of_range write_inode write_block set_disk put_block set_inode store_fields store
    set_byte put_record put_name zero_block copy_parent_path copy_file_name
    get_last_index_of_parent_path last_index_from end_of_name
looked_up-IsSuperblock = tree-IsSuperblock

rewritten-IsInode : IsInode (inode_after 9 5002 file_a)
rewritten-IsInode = record {
  mode = omega arith;
  uid = omega arith;
  gid = omega arith;
  status = omega arith;
  atime = omega arith;
  ctime = omega arith;
  mtime = omega arith;
  links = omega arith;
  size = omega arith;
  blocks = omega arith;
  direct = file_a_blocks;
  count = refl;
  single = omega arith;
  double = omega arith;
  triple = omega arith;
  child = omega arith;
}

file_a_number : (l : ℕ) → l < 2 → direct_at file_a l ≡ 2001 + l
file_a_number zero lt = refl
file_a_number (suc zero) lt = refl
file_a_number (suc (suc l)) lt = absurd (omega arith)

file_a-HasDirectBlocks : HasDirectBlocks memory_geometry file_a
file_a-HasDirectBlocks = record {
  few = omega arith;
  above = λ l lt. omega (arith, file_a_number l lt);
  below = λ l lt. omega (arith, file_a_number l lt);
  apart = λ l k lt lt' e. omega (arith, file_a_number l lt, file_a_number k lt');
}

altfs_write-written_byte_example :
    (w : World) × (altfs_write memory_geometry 9 path_a (λ p. p) 4 4998 start ≡ some (4, w))
    × (w.fs.disk 2002 903 ≡ written_byte (λ p. p) 4998 4 4999 (looked_up.fs.disk 2002 903))
    × (get_inode memory_geometry 5 w.fs ≡ some (inode_after 9 5002 file_a))
altfs_write-written_byte_example =
    altfs_write-written_byte sound 9 5 path_a file_a (λ p. p) 4 4998 start looked_up 1 903
      name_i_run (λ e. absurd (omega arith)) file_a_kept looked_up-IsSuperblock (omega arith)
      rewritten-IsInode file_a-HasDirectBlocks (omega arith) (omega arith) (omega arith)
      (omega arith)
