-- ===== src/Disk.antt =====
-- src/disk_layer.c in the in-memory build (no DISK_MEMORY), and the constants of the headers.
-- Numbers of type ssize_t are kept as their 64-bit patterns: -1 is `minus_one`.
pub mod Laws
pub mod Device
use alt_file_system.Prelude.{
  ℕ, ◌+◌, ◌-◌, ◌*◌, ◌/◌, ◌^◌, Bool, true, false, ◌||◌, Option, none, some, leb, ◌==◌, if◌then◌else◌,
}
use alt_file_system.Bytes.{Block, block_size, zero_block}

-- BLOCK_COUNT and INODE_BLOCK_COUNT, which the build flag DISK_MEMORY changes.
pub record Geometry : Type 0 where
  pub block_count : ℕ
  pub inode_block_count : ℕ

-- FS_SIZE is 5 * 104857600 bytes, and 1.5% of the blocks hold inodes.
abbrev pub memory_geometry : Geometry
memory_geometry = record { block_count = 128000; inode_block_count = 1920 }

-- FS_SIZE is 40 * 1073741824 bytes.
abbrev pub device_geometry : Geometry
device_geometry = record { block_count = 10485760; inode_block_count = 157286 }

abbrev pub addresses_per_block : ℕ
addresses_per_block = 512

abbrev pub num_of_data_blocks : Geometry → ℕ
num_of_data_blocks g = g.block_count - g.inode_block_count - 1

abbrev pub num_of_free_list_blocks : Geometry → ℕ
num_of_free_list_blocks g = num_of_data_blocks g / addresses_per_block + 1

abbrev pub minus_one : ℕ
minus_one = 2 ^ 64 - 1

abbrev pub is_negative : ℕ → Bool
is_negative x = leb (2 ^ 63) x

-- struct superblock
pub record Superblock : Type 0 where
  pub s_inodes_count : ℕ
  pub s_first_ino : ℕ
  pub s_freelist_head : ℕ
  pub s_num_of_inodes_per_block : ℕ

abbrev pub Disk : Type 0
Disk = ℕ → Block

-- The bytes behind `mem_ptr`, block by block, and `*altfs_superblock`.
pub record Fs : Type 0 where
  pub disk : Disk
  pub superblock : Superblock

-- memcpy(mem_ptr + offset, buffer, BLOCK_SIZE)
unfoldable pub put_block : Disk → ℕ → Block → Disk
put_block d i b j = if i == j then b else d j

unfoldable pub set_disk : Fs → Disk → Fs
set_disk s d = record s { disk = d }

unfoldable pub set_superblock : Fs → Superblock → Fs
set_superblock s sb = record s { superblock = sb }

module _ (g : Geometry) where
  unfoldable pub is_block_out_of_range : ℕ → Bool
  is_block_out_of_range i = is_negative i || leb g.block_count i

  -- `none` is the result false.
  unfoldable pub read_block : ℕ → Fs → Option Block
  unfolding is_block_out_of_range
  read_block i s = if is_block_out_of_range i then none else some (s.disk i)

  unfoldable pub write_block : ℕ → Block → Fs → Bool × Fs
  unfolding is_block_out_of_range put_block set_disk
  write_block i b s =
      if is_block_out_of_range i then (false, s) else (true, set_disk s (put_block s.disk i b))

-- `calloc_ok` says whether calloc found the memory; `erase` has no effect in this build.
unfoldable pub alloc_memory : (calloc_ok erase : Bool) → Fs → Bool × Fs
alloc_memory calloc_ok erase s =
    if calloc_ok then (true, set_disk s (λ _. zero_block)) else (false, s)
