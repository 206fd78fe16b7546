-- ===== src/Superblock/Device.antt =====
-- src/superblock_layer.c in the DISK_MEMORY build. The results `none` are uses of altfs_superblock
-- where it is NULL or freed.
pub mod Formats
pub mod MakeFs
pub mod Load
use alt_file_system.Prelude.{
  ◌>>=◌, ℕ, zero, suc, ◌+◌, ◌*◌, Bool, true, false, ◌||◌, not, Option, none, some, ◌==◌,
  if◌then◌else◌,
}
use alt_file_system.Bytes.{Block, block_size, zero_block}
use alt_file_system.Disk.{Geometry, Superblock, addresses_per_block, num_of_free_list_blocks}
use alt_file_system.Disk.Device.{
  System, Process, Pointer, null, live, freed, set_pointer, open_volume, read_block, write_block,
  alloc_memory,
}
use alt_file_system.Superblock.{
  inodes_per_block, encode_superblock, decode_superblock, is_empty_buffer, freelist_block,
}

-- *altfs_superblock
unfoldable pub pointee : Pointer → Option Superblock
pointee null = none
pointee (live sb) = some sb
pointee freed = none

-- memcpy(altfs_superblock, sb, sizeof(struct superblock)), after a malloc if it is NULL
unfoldable pub copy_superblock : Pointer → Superblock → Option Pointer
copy_superblock null sb = some (live sb)
copy_superblock (live old) sb = some (live sb)
copy_superblock freed sb = none

-- altfs_free_memory, which sets its own copy of the pointer to NULL and not the caller's; freeing
-- twice is not defined.
unfoldable pub free_memory : Pointer → Option Pointer
free_memory null = some null
free_memory (live sb) = some freed
free_memory freed = none

module _ {S : System} (g : Geometry) where
  unfoldable pub write_superblock : Process S → Option (Bool × Process S)
  unfolding pointee
  write_superblock p = do sb ← pointee p.superblock; some (write_block g 0 (encode_superblock sb) p)

  -- The checks of load_superblock on a superblock that is not empty.
  unfoldable pub accept_superblock : Superblock → Process S → Option (Bool × Process S)
  unfolding copy_superblock set_pointer
  accept_superblock sb p =
      if not (sb.s_num_of_inodes_per_block == inodes_per_block)
        || not (sb.s_inodes_count == g.inode_block_count * inodes_per_block)
      then some (false, p)
      else (do
        pointer ← copy_superblock p.superblock sb
        some (
          not (sb.s_inodes_count == 0 || sb.s_num_of_inodes_per_block == 0),
          set_pointer p pointer,
        ))

  -- The buffer holds what altfs_read_block leaves in it; its result is ignored.
  unfoldable pub load_superblock : Process S → Option (Bool × Process S)
  unfolding accept_superblock
  load_superblock p =
      let (opened, p1) = open_volume p in
      let (result, p2) = read_block g 0 zero_block p1 in
      if not opened
      then some (false, p1)
      else if is_empty_buffer block_size result.1
      then some (false, p2)
      else accept_superblock (decode_superblock result.1) p2

  unfoldable pub create_superblock : Process S → Option (Bool × Process S)
  create_superblock p = write_superblock (
      set_pointer p (
        live (record {
          s_inodes_count = g.inode_block_count * inodes_per_block;
          s_first_ino = 3;
          s_freelist_head = g.inode_block_count + 1;
          s_num_of_inodes_per_block = inodes_per_block;
        })))

  -- The loop of altfs_create_ilist with `n` rounds left.
  unfoldable pub create_ilist_from : ℕ → ℕ → Process S → Bool × Process S
  create_ilist_from zero blocknum p = (true, p)
  create_ilist_from (suc n) blocknum p =
      let (written, p1) = write_block g blocknum zero_block p in
      let rest = create_ilist_from n (blocknum + 1) p1 in if written then rest else (false, p1)

  unfoldable pub create_ilist : Process S → Bool × Process S
  unfolding create_ilist_from
  create_ilist p = create_ilist_from g.inode_block_count 1 p

  -- The loop of altfs_create_freelist with `n` rounds left.
  unfoldable pub create_freelist_from : ℕ → ℕ → Process S → Bool × Process S
  create_freelist_from zero blocknum p = (true, p)
  create_freelist_from (suc n) blocknum p =
      let (written, p1) = write_block g blocknum (freelist_block g blocknum) p in
      let rest = create_freelist_from n (blocknum + addresses_per_block) p1 in
      if written then rest else (false, p1)

  unfoldable pub create_freelist : Process S → Option (Bool × Process S)
  unfolding create_freelist_from pointee
  create_freelist p = do
    sb ← pointee p.superblock
    some (create_freelist_from (num_of_free_list_blocks g) sb.s_freelist_head p)

  -- The rest of altfs_makefs_options once the superblock is written.
  unfoldable pub format_lists : Process S → Option (Bool × Process S)
  unfolding create_ilist create_freelist
  format_lists p =
      let (ilist_made, p1) = create_ilist p in
      if not ilist_made then some (false, p1) else create_freelist p1

  -- The formatting part of altfs_makefs_options.
  unfoldable pub format_device : Process S → Option (Bool × Process S)
  unfolding create_superblock format_lists
  format_device p = do
    (super_made, p1) ← create_superblock p
    if super_made then format_lists p1 else some (false, p1)

  -- The end of altfs_makefs_options, after a result of the formatting part.
  unfoldable pub release_superblock : Bool × Process S → Option (Bool × Process S)
  unfolding free_memory set_pointer
  release_superblock (made, p) =
      if made
      then (do pointer ← free_memory p.superblock; some (true, set_pointer p pointer))
      else some (false, p)

  unfoldable pub makefs_options : (erase format : Bool) → Process S → Option (Bool × Process S)
  unfolding format_device release_superblock
  makefs_options erase format p =
      let (allocated, p1) = alloc_memory g erase p in
      if not allocated
      then some (false, p1)
      else (do made ← if format then format_device p1 else some (true, p1); release_superblock made)

  unfoldable pub makefs : Process S → Option (Bool × Process S)
  unfolding makefs_options
  makefs p = makefs_options true true p
