-- ===== src/Tests/Trees.antt =====
-- The removal of the data blocks of a file at a concrete input, and the hint of a lookup.
use alt_file_system.Prelude.{
  ℕ, ◌<◌, ◌≡◌, subst, true, some, List, [], ◌∷◌, arith, get_or, refl, inl, ◌==◌, if◌then◌else◌,
}
use alt_file_system.Disk.{memory_geometry, Fs, read_block, is_block_out_of_range}
use alt_file_system.Inode.{Inode}
use alt_file_system.InodeOps.{cleared_inode}
use alt_file_system.Bytes.{zero_block, set_byte, load, store, word, set_word}
use alt_file_system.DataBlock.{is_bad_index, read_data_block}
use alt_file_system.BlockMap.{entry, lookup_double, get_disk_block_from_inode_block}
use alt_file_system.BlockMap.Locate.{locate}
use alt_file_system.BlockMap.Lookup.{HasRoots, IsHint}
use alt_file_system.BlockMap.Next.{get_disk_block-IsHint}
use alt_file_system.BlockMap.Remove.Trees.{remove_datablocks_from_inode}
use alt_file_system.BlockMap.Remove.Direct.{
  count_blocks, Owned, Returned, remove_datablocks-Returned,
}
use alt_file_system.Tests.{sound, blank, blank_count, blank-IsFreeList}

-- A file of two blocks.
abbrev short_file : Inode
short_file = record cleared_inode {
  i_blocks_num = 2;
  i_direct_blocks = 2000 ∷ 2001 ∷ 0 ∷ 0 ∷ 0 ∷ 0 ∷ 0 ∷ 0 ∷ 0 ∷ 0 ∷ 0 ∷ 0 ∷ [];
}

short_file-Owned : Owned memory_geometry (blank 1921) (1921 ∷ []) short_file.i_direct_blocks 1 1
unfolding count_blocks
short_file-Owned = record {
  in_range = λ k le lt.
      let e : 1 ≡ k = omega arith in
      subst
        (λ m.
          (1920 < get_or short_file.i_direct_blocks m 0)
          × (get_or short_file.i_direct_blocks m 0 < 128000))
        e (omega arith, omega arith);
  once = λ x p. ground (arith, blank_count x p);
}

remove_datablocks-Returned_example :
    (n : Inode) × (t : Fs) × (remove_datablocks_from_inode memory_geometry short_file 1 (blank 1921)
      ≡ some (true, n, t))
    × (n.i_blocks_num ≡ 1)
    × ((ks : List ℕ) × Returned memory_geometry
          (blank 1921)
          (1921 ∷ [])
          short_file.i_direct_blocks
          1
          1
          t
          ks)
remove_datablocks-Returned_example =
    remove_datablocks-Returned sound 1 short_file (blank 1921) (1921 ∷ []) (omega arith)
      (omega arith) blank-IsFreeList (λ e. absurd (omega arith)) short_file-Owned

-- A file of 700 blocks whose block 524 is the data block 3000, below the blocks 2001 and 2002.
abbrev long_file : Inode
long_file = record cleared_inode { i_blocks_num = 700; i_double_indirect = 2001 }

abbrev tree : Fs
tree = record (blank 1921) {
  disk = λ i.
      if i == 2001
      then set_word zero_block 0 2002
      else if i == 2002
      then set_word zero_block 0 3000
      else zero_block;
}

long_file-HasRoots : HasRoots long_file
long_file-HasRoots = record {
  single_root = omega arith;
  double_root = omega arith;
  triple_root = omega arith;
}

found_3000 :
    get_disk_block_from_inode_block memory_geometry long_file 524 0 tree ≡ some (3000, 2002)
unfolding get_disk_block_from_inode_block lookup_double entry read_data_block is_bad_index
    read_block is_block_out_of_range word load set_word store set_byte zero_block
found_3000 = refl

get_disk_block-IsHint_example : IsHint memory_geometry tree long_file (locate 525) 2002
get_disk_block-IsHint_example =
    get_disk_block-IsHint memory_geometry tree long_file long_file-HasRoots 524 0 3000 2002
      (omega arith) (inl refl) found_3000 refl
