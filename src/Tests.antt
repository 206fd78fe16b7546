-- ===== src/Tests.antt =====
-- The theorems at concrete inputs, in the geometry of the in-memory build.
mod Files
mod Trees
mod Truncation
mod Paths
mod Calls
mod CacheRuns
mod Runs
mod Devices
mod Directories
use alt_file_system.Prelude.{
  ℕ, zero, suc, ◌+◌, ◌*◌, ◌/◌, ◌%◌, ◌^◌, ◌<◌, ◌≡◌, ◌≢◌, refl, ◌⊎◌, inl, inr, Bool, true, false,
  ◌&&◌, Option, none, some, List, [], ◌∷◌, ◌++◌, arith, ltb, leb, ◌==◌, if◌then◌else◌, length,
  get_or, take,
}
use alt_file_system.Bytes.{zero_block, set_byte, load, store, set_word, word}
use alt_file_system.Disk.{
  Geometry, memory_geometry, Superblock, Fs, minus_one, set_superblock, read_block, write_block,
}
use alt_file_system.Disk.Laws.{IsSound, read_block-write_block}
use alt_file_system.Superblock.{write_superblock, load_superblock, makefs}
use alt_file_system.Superblock.Encoding.{IsSuperblock, load-write_superblock}
use alt_file_system.DataBlock.{find_unused, allocate_data_block, free_data_block}
use alt_file_system.DataBlock.Count.{count_words-zero_block}
use alt_file_system.DataBlock.FreeList.{free_count, IsFreeList}
use alt_file_system.DataBlock.Allocate.{NoneFree, Allocated, allocate_data_block-Allocated}
use alt_file_system.DataBlock.Free.{InUse, Freed, free_data_block-Freed}
use alt_file_system.DataBlock.Exhausted.{allocate-free_stale, allocate_twice-free}
use alt_file_system.DataBlock.MakeFs.{Formatted, makefs-Formatted}
use alt_file_system.PathName.{get_last_index_of_parent_path, copy_parent_path, copy_file_name}
use alt_file_system.PathName.Split.{join, parent_of, copy_file_name-copy_parent_path}
use alt_file_system.PathName.Parent.{length-copy_parent_path}

pub sound : IsSound memory_geometry
sound = record { inode_blocks = omega arith; data_blocks = omega arith; small = omega arith }

-- A blank disk whose free list is the block `head`.
abbrev pub blank : (head : ℕ) → Fs
blank head = record {
  disk = λ _. zero_block;
  superblock = record {
    s_inodes_count = 34560;
    s_first_ino = 0;
    s_freelist_head = head;
    s_num_of_inodes_per_block = 18;
  };
}

pub blank-IsSuperblock : IsSuperblock memory_geometry (blank 1921).superblock
blank-IsSuperblock = record {
  inodes = refl;
  per_block = refl;
  first = omega arith;
  head = omega arith;
}

pub blank_count :
    (x : ℕ) → x ≢ 0 → free_count (blank 1921).disk (1921 ∷ []) x ≡ (if 1921 == x then 1 else 0)
unfolding free_count
blank_count x p = ground (arith, count_words-zero_block 511 1 x p)

pub blank-IsFreeList : IsFreeList memory_geometry (blank 1921) (1921 ∷ [])
unfolding word load zero_block
blank-IsFreeList = record {
  chain = (refl, (λ e. absurd (omega arith)), refl);
  once = λ x p. ground (arith, blank_count x p);
  in_range = λ x p q. ground (arith, blank_count x p);
}

read_block-write_block_example :
    ((write_block memory_geometry 5 zero_block (blank 0)).0 ≡ true)
    × (read_block memory_geometry 5 (write_block memory_geometry 5 zero_block (blank 0)).1
        ≡ some zero_block)
read_block-write_block_example = read_block-write_block sound 5 5 zero_block (blank 0)

load-write_superblock_example :
    load_superblock memory_geometry
      (set_superblock (write_superblock memory_geometry (blank 1921)).1 (blank 7).superblock)
    ≡ (true, (write_superblock memory_geometry (blank 1921)).1)
load-write_superblock_example =
    load-write_superblock sound (blank 1921) (blank 7).superblock blank-IsSuperblock

allocate_data_block-Allocated_example :
    (NoneFree (blank 1921) (1921 ∷ [])
      × (allocate_data_block memory_geometry (blank 1921) ≡ (minus_one, blank 1921)))
    ⊎ ((ks : List ℕ) × Allocated memory_geometry
          (blank 1921)
          (1921 ∷ [])
          (allocate_data_block memory_geometry (blank 1921)).0
          (allocate_data_block memory_geometry (blank 1921)).1
          ks)
allocate_data_block-Allocated_example =
    allocate_data_block-Allocated sound (blank 1921) (1921 ∷ []) blank-IsFreeList

not_free_2000 : InUse memory_geometry (blank 1921) (1921 ∷ []) 2000
not_free_2000 = record {
  lower = omega arith;
  upper = omega arith;
  not_free = blank_count 2000 (λ e. absurd (omega arith));
}

free_data_block-Freed_example :
    ((free_data_block memory_geometry 2000 (blank 1921)).0 ≡ true)
    × ((ks : List ℕ) × Freed memory_geometry
          (blank 1921)
          (1921 ∷ [])
          2000
          (free_data_block memory_geometry 2000 (blank 1921)).1
          ks)
free_data_block-Freed_example =
    free_data_block-Freed sound (blank 1921) (1921 ∷ []) 2000 blank-IsFreeList
      (λ e. absurd (omega arith)) not_free_2000

makefs-Formatted_example :
    ((makefs memory_geometry true (blank 0)).0 ≡ true)
    × ((hs : List ℕ) × Formatted memory_geometry (makefs memory_geometry true (blank 0)).1 hs)
makefs-Formatted_example = makefs-Formatted sound (blank 0) (λ e. absurd (omega arith))

-- The only block of file data, 2000, has 3 in its word 1.
abbrev stale : Fs
stale = record (blank 0) { disk = λ _. set_word zero_block 1 3 }

stale_scan : find_unused 511 (stale.disk 2000) 1 ≡ some 2
unfolding set_word word find_unused load store set_byte zero_block
stale_scan = refl

allocate-free_stale_example :
    ((free_data_block memory_geometry 2000 stale).0 ≡ true)
    × ((allocate_data_block memory_geometry (free_data_block memory_geometry 2000 stale).1).0 ≡ 3)
    × ((allocate_data_block memory_geometry (free_data_block memory_geometry 2000 stale).1).1.disk 3
        ≡ zero_block)
unfolding word load set_word store set_byte
allocate-free_stale_example =
    allocate-free_stale sound stale 2000 refl (omega arith) (omega arith) 3 2 refl
      (λ e. absurd (omega arith)) (omega arith) stale_scan

allocate_twice-free_example :
    ((free_data_block memory_geometry 2000 (blank 0)).0 ≡ true)
    × ((allocate_data_block memory_geometry (free_data_block memory_geometry 2000 (blank 0)).1).0
        ≡ 2000)
    × ((allocate_data_block memory_geometry
          (allocate_data_block memory_geometry
            (free_data_block memory_geometry 2000 (blank 0)).1).1).0
        ≡ 2000)
allocate_twice-free_example =
    allocate_twice-free sound (blank 0) 2000 refl (omega arith) (omega arith) refl

-- The path /ab/c/
copy_file_name-copy_parent_path_example :
    (copy_file_name (join (b'/' ∷ b'a' ∷ b'b' ∷ []) (b'c' ∷ []) true) 6 ≡ some (b'c' ∷ []))
    × (copy_parent_path (join (b'/' ∷ b'a' ∷ b'b' ∷ []) (b'c' ∷ []) true) 6
        ≡ some (parent_of (b'/' ∷ b'a' ∷ b'b' ∷ [])))
copy_file_name-copy_parent_path_example =
    copy_file_name-copy_parent_path (b'/' ∷ b'a' ∷ b'b' ∷ []) (b'c' ∷ []) true
      ((λ e. absurd (omega arith)), tt) (omega arith)

-- The path /a/b
two_levels : copy_parent_path (b'/' ∷ b'a' ∷ b'/' ∷ b'b' ∷ []) 4 ≡ some (b'/' ∷ b'a' ∷ [])
unfolding copy_parent_path get_last_index_of_parent_path
two_levels = refl

length-copy_parent_path_example :
    (2 < 4) × (take {A = ℕ} 2 (b'/' ∷ b'a' ∷ b'/' ∷ b'b' ∷ []) ≡ (b'/' ∷ b'a' ∷ []))
length-copy_parent_path_example =
    length-copy_parent_path (b'/' ∷ b'a' ∷ b'/' ∷ b'b' ∷ []) (b'/' ∷ b'a' ∷ []) two_levels
