-- ===== src/Tests/Truncation.antt =====
-- altfs_truncate to length 0, and altfs_open with O_TRUNC, of the file "/a".
use alt_file_system.Prelude.{
  ℕ, ◌<◌, ◌≡◌, refl, subst, some, List, [], ◌∷◌, arith, get_or, ◌==◌, Bool-cases, inl, inr,
}
use alt_file_system.Disk.{memory_geometry, set_disk, put_block, read_block, write_block}
use alt_file_system.Bytes.{zero_block, load, word}
use alt_file_system.DataBlock.FreeList.{free_count}
use alt_file_system.InodeOps.{get_inode, write_inode, is_valid_inode_number, inum_to_block_pos}
use alt_file_system.BlockMap.Remove.Direct.{count_blocks, Owned, Returned}
use alt_file_system.InodeCache.{create_inode_cache}
use alt_file_system.World.{World}
use alt_file_system.Interface.Truncate.{lacks_permission, altfs_truncate, altfs_open}
use alt_file_system.Interface.Truncate.Emptied.{
  IsDirectFile, EmptiedFile, altfs_truncate-EmptiedFile,
}
use alt_file_system.Interface.Truncate.Reopened.{altfs_open-Returned}
use alt_file_system.Tests.{sound, blank_count}
use alt_file_system.Tests.Directories.{tree-IsFreeList}
use alt_file_system.Tests.Paths.{
  file_a, tree, path_a, start, start-IsCoherent, path_a-means, tree-IsSuperblock, file_a-IsInode,
  file_a-there,
}

file_a-Owned : Owned memory_geometry tree (1921 ∷ []) file_a.i_direct_blocks 2 0
unfolding count_blocks write_inode write_block set_disk put_block free_count is_valid_inode_number
    inum_to_block_pos read_block word load zero_block
file_a-Owned = record {
  in_range = λ k le lt. elim (Bool-cases (k == 0)) [
    | inl first ↦
        let e : 0 ≡ k = ground arith in
        subst
          (λ m.
            (1920 < get_or file_a.i_direct_blocks m 0)
            × (get_or file_a.i_direct_blocks m 0 < 128000))
          e (omega arith, omega arith)
    | inr second ↦
        let e : 1 ≡ k = ground arith in
        subst
          (λ m.
            (1920 < get_or file_a.i_direct_blocks m 0)
            × (get_or file_a.i_direct_blocks m 0 < 128000))
          e (omega arith, omega arith)
  ];
  once = λ x p. ground (arith, blank_count x p);
}

file_a-IsDirectFile : IsDirectFile memory_geometry 5 file_a tree (1921 ∷ [])
unfolding write_inode write_block set_disk read_block
file_a-IsDirectFile = record {
  counts = tree-IsSuperblock;
  found = file_a-there;
  fits = file_a-IsInode 33188 0 0 0 (omega arith) (omega arith) (omega arith) (omega arith);
  some_blocks = omega arith;
  few = omega arith;
  list = tree-IsFreeList;
  more = λ e. absurd (omega arith);
  owned = file_a-Owned;
}

altfs_truncate-EmptiedFile_example :
    (w : World) × (altfs_truncate memory_geometry 9 path_a 0 start ≡ some (0, w))
    × EmptiedFile memory_geometry 5 file_a tree (1921 ∷ []) w.fs
unfolding create_inode_cache
altfs_truncate-EmptiedFile_example =
    altfs_truncate-EmptiedFile sound 9 5 path_a file_a (1921 ∷ []) start start-IsCoherent
      (omega arith) path_a-means (λ e. absurd (omega arith)) file_a-IsDirectFile refl (omega arith)
      (omega arith)

altfs_open-Returned_example :
    (w : World) × (altfs_open memory_geometry 9 path_a 513 start ≡ some (5, w))
    × (get_inode memory_geometry 5 w.fs ≡ some (record file_a { i_ctime = 9; i_mtime = 9 }))
    × ((free : List ℕ) × Returned memory_geometry tree
          (1921 ∷ [])
          file_a.i_direct_blocks
          2
          0
          w.fs
          free)
unfolding create_inode_cache lacks_permission
altfs_open-Returned_example =
    altfs_open-Returned sound 9 5 513 path_a file_a (1921 ∷ []) start start-IsCoherent (omega arith)
      path_a-means (λ e. absurd (omega arith)) file_a-IsDirectFile refl refl refl (omega arith)
      (omega arith)
      (file_a-IsInode 33188 0 9 9 (omega arith) (omega arith) (omega arith) (omega arith))
