-- ===== src/Superblock.antt =====
-- src/superblock_layer.c: the superblock on disk, and making the file system.
pub mod Encoding
pub mod Device
use alt_file_system.Prelude.{
  ℕ, zero, suc, ◌+◌, ◌*◌, ◌/◌, Bool, true, false, ◌&&◌, ◌||◌, not, Option, none, some, leb, ◌==◌,
  if◌then◌else◌,
}
use alt_file_system.Bytes.{Block, block_size, zero_block, load, store, word, set_word}
use alt_file_system.Disk.{
  Geometry, Superblock, Fs, set_superblock, addresses_per_block, num_of_free_list_blocks,
  read_block, write_block, alloc_memory,
}

-- sizeof(struct inode) on a 64-bit Linux target.
abbrev pub inode_size : ℕ
inode_size = 216

abbrev pub inodes_per_block : ℕ
inodes_per_block = block_size / inode_size

-- altfs_superblock->s_freelist_head = h
unfoldable pub set_freelist_head : Fs → ℕ → Fs
set_freelist_head s h = set_superblock s (record (s.superblock) { s_freelist_head = h })

-- memset(buffer, 0, BLOCK_SIZE); memcpy(buffer, altfs_superblock, sizeof(struct superblock))
unfoldable pub encode_superblock : Superblock → Block
encode_superblock sb =
    store 8
      (store 8 (store 8 (store 8 zero_block 0 sb.s_inodes_count) 8 sb.s_first_ino) 16
        sb.s_freelist_head)
      24 sb.s_num_of_inodes_per_block

-- (struct superblock*)sb_buffer
unfoldable pub decode_superblock : Block → Superblock
decode_superblock b = record {
  s_inodes_count = load 8 b 0;
  s_first_ino = load 8 b 8;
  s_freelist_head = load 8 b 16;
  s_num_of_inodes_per_block = load 8 b 24;
}

-- memcmp of the first `n` bytes with zeros.
unfoldable pub is_empty_buffer : ℕ → Block → Bool
is_empty_buffer zero b = true
is_empty_buffer (suc n) b = let rest = is_empty_buffer n b in if b n == 0 then rest else false

-- The buffer after altfs_read_block, whose result load_superblock ignores.
unfoldable pub buffer_of : Option Block → Block
buffer_of none = zero_block
buffer_of (some b) = b

module _ (g : Geometry) where
  unfoldable pub write_superblock : Fs → Bool × Fs
  write_superblock s = write_block g 0 (encode_superblock s.superblock) s

  -- The checks of load_superblock on a superblock that is not empty.
  unfoldable pub accept_superblock : Superblock → Fs → Bool × Fs
  accept_superblock sb s =
      if not (sb.s_num_of_inodes_per_block == inodes_per_block)
        || not (sb.s_inodes_count == g.inode_block_count * inodes_per_block)
      then (false, s)
      else if sb.s_inodes_count == 0 || sb.s_num_of_inodes_per_block == 0
      then (false, set_superblock s sb)
      else (true, set_superblock s sb)

  unfoldable pub load_superblock : Fs → Bool × Fs
  unfolding accept_superblock buffer_of
  load_superblock s =
      let sb_buffer = buffer_of (read_block g 0 s) in
      if is_empty_buffer block_size sb_buffer
      then (false, s)
      else accept_superblock (decode_superblock sb_buffer) s

  unfoldable pub create_superblock : Fs → Bool × Fs
  create_superblock s = write_superblock (
      set_superblock s (record {
        s_inodes_count = g.inode_block_count * inodes_per_block;
        s_first_ino = 3;
        s_freelist_head = g.inode_block_count + 1;
        s_num_of_inodes_per_block = inodes_per_block;
      }))

  -- The loop of altfs_create_ilist with `n` rounds left.
  unfoldable pub create_ilist_from : ℕ → ℕ → Fs → Bool × Fs
  create_ilist_from zero blocknum s = (true, s)
  create_ilist_from (suc n) blocknum s =
      let (written, s1) = write_block g blocknum zero_block s in
      let rest = create_ilist_from n (blocknum + 1) s1 in if written then rest else (false, s1)

  unfoldable pub create_ilist : Fs → Bool × Fs
  unfolding create_ilist_from
  create_ilist s = create_ilist_from g.inode_block_count 1 s

  -- The address stored for a block, the null value past the end of the disk.
  unfoldable pub address_of : ℕ → ℕ
  address_of blocknum = if leb g.block_count blocknum then 0 else blocknum

  -- The inner loop of altfs_create_freelist, `n` rounds left: words j, j + 1, ... of the buffer.
  unfoldable pub fill_addresses : ℕ → ℕ → ℕ → Block → Block
  unfolding address_of
  fill_addresses zero j blocknum b = b
  fill_addresses (suc n) j blocknum b =
      fill_addresses n (j + 1) (blocknum + 1) (set_word b j (address_of (blocknum + 1)))

  -- The list block at `blocknum`; its word 0 leads to the block after those that it lists.
  unfoldable pub freelist_block : ℕ → Block
  freelist_block blocknum =
      set_word (fill_addresses 511 1 blocknum zero_block) 0
        (address_of (blocknum + addresses_per_block))

  unfoldable pub create_freelist_from : ℕ → ℕ → Fs → Bool × Fs
  create_freelist_from zero blocknum s = (true, s)
  create_freelist_from (suc n) blocknum s =
      let (written, s1) = write_block g blocknum (freelist_block blocknum) s in
      let rest = create_freelist_from n (blocknum + addresses_per_block) s1 in
      if written then rest else (false, s1)

  unfoldable pub create_freelist : Fs → Bool × Fs
  unfolding create_freelist_from
  create_freelist s =
      create_freelist_from (num_of_free_list_blocks g) s.superblock.s_freelist_head s

  -- The formatting part of altfs_makefs_options.
  unfoldable pub format_disk : Fs → Bool × Fs
  format_disk s =
      let (super_made, s1) = create_superblock s in
      let (ilist_made, s2) = create_ilist s1 in
      let (list_made, s3) = create_freelist s2 in
      if not super_made
      then (false, s1)
      else if not ilist_made
      then (false, s2)
      else if not list_made
      then (false, s3)
      else (true, s3)

  unfoldable pub makefs_options : (calloc_ok erase format : Bool) → Fs → Bool × Fs
  unfolding format_disk
  makefs_options calloc_ok erase format s =
      let (allocated, s1) = alloc_memory calloc_ok erase s in
      if not allocated then (false, s1) else if format then format_disk s1 else (true, s1)

  unfoldable pub makefs : (calloc_ok : Bool) → Fs → Bool × Fs
  unfolding makefs_options
  makefs calloc_ok s = makefs_options calloc_ok true true s
