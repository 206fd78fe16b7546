-- ===== src/Tests/Directories.antt =====
-- The theorems on whole directories, at the root directory of the concrete tree and of a new file system.
use mathlib.Core.Option
use alt_file_system.Prelude.{
  ℕ, zero, suc, ◌<◌, ◌≡◌, ◌⊎◌, refl, true, false, none, some, List, [], ◌∷◌, arith,
}
use alt_file_system.Bytes.{zero_block, word, load, store, set_byte}
use alt_file_system.Disk.{
  Fs, memory_geometry, put_block, set_disk, read_block, write_block, is_block_out_of_range,
}
use alt_file_system.DataBlock.FreeList.{free_count, IsFreeList}
use alt_file_system.DataBlock.Allocate.{NoneFree}
use alt_file_system.Inode.{Inode, inode_at, set_inode, store_fields}
use alt_file_system.InodeOps.{write_inode, get_inode, is_valid_inode_number, inum_to_block_pos}
use alt_file_system.BlockMap.Direct.{direct_at, HasDirectBlocks}
use alt_file_system.PathName.{
  copy_file_name, get_last_index_of_parent_path, last_index_from, end_of_name,
}
use alt_file_system.Directory.{put_record, put_name, add_directory_entry, remove_directory_entry}
use alt_file_system.Directory.Records.{end_of, same_name}
use alt_file_system.Directory.Append.{Holds, Holds-put_record}
use alt_file_system.Directory.Entries.{DirBlock, entries, assoc}
use alt_file_system.Directory.Update.{IsSmallDirectory, IsDirectory-small}
use alt_file_system.Directory.Update.Withdraw.{Withdrawn, remove_directory_entry-Withdrawn}
use alt_file_system.Directory.Update.Room.{Entered}
use alt_file_system.Directory.Update.Extend.{alone-Holds}
use alt_file_system.Directory.Update.Result.{add_directory_entry-Entered}
use alt_file_system.PathLookup.{find_child, cache_capacity}
use alt_file_system.Superblock.{makefs}
use alt_file_system.InodeCache.{create_inode_cache}
use alt_file_system.World.{World}
use alt_file_system.PathLookup.Root.{Rooted}
use alt_file_system.Interface.{altfs_init}
use alt_file_system.Interface.Init.{altfs_init-makefs}
use alt_file_system.PathLookup.Children.{find_child-assoc}
use alt_file_system.Tests.{blank, sound, blank_count}
use alt_file_system.InodeCache.{Cache}
use alt_file_system.PathLookup.Cached.{IsCoherent}
use alt_file_system.Interface.Readdir.{altfs_readdir}
use alt_file_system.Interface.Readdir.Listing.{calls_of}
use alt_file_system.Interface.Readdir.Result.{altfs_readdir-calls_of}
use alt_file_system.Tests.Paths.{
  root, tree, path_a, path_root, start, start-IsCoherent, path_root-means,
}

abbrev root_blocks : List DirBlock
root_blocks = (2000, (5, b'a' ∷ []) ∷ (6, b'd' ∷ []) ∷ []) ∷ []

root-Holds : Holds 0 ((5, b'a' ∷ []) ∷ (6, b'd' ∷ []) ∷ []) (tree.disk 2000)
unfolding write_inode write_block set_disk put_block end_of is_valid_inode_number inum_to_block_pos
    read_block put_record
root-Holds =
    Holds-put_record 0 ((5, b'a' ∷ []) ∷ []) (put_record zero_block 0 5 (b'a' ∷ [])) 6 (b'd' ∷ [])
      (alone-Holds 5 (b'a' ∷ []) (omega arith) (omega arith)) (omega arith) (omega arith)

root_number : (l : ℕ) → l < 1 → direct_at root l ≡ 2000
root_number zero h = refl
root_number (suc l) h = absurd (omega (arith, h))

root-HasDirectBlocks : HasDirectBlocks memory_geometry root
root-HasDirectBlocks = record {
  few = omega arith;
  above = λ l h. omega (arith, root_number l h);
  below = λ l h. omega (arith, root_number l h);
  apart = λ l k p q e. omega (arith, p, q);
}

root-IsSmallDirectory : IsSmallDirectory memory_geometry tree root root_blocks
root-IsSmallDirectory = record {
  roots = record {
    single_root = omega arith;
    double_root = omega arith;
    triple_root = omega arith;
  };
  kind = refl;
  count = refl;
  blocks = root-HasDirectBlocks;
  stored = (refl, root-Holds, tt);
}

pub tree-IsFreeList : IsFreeList memory_geometry tree (1921 ∷ [])
unfolding write_inode write_block set_disk put_block free_count is_valid_inode_number
    inum_to_block_pos read_block word load zero_block
tree-IsFreeList = record {
  chain = (refl, (λ e. absurd (omega arith)), refl);
  once = λ x p. ground (arith, blank_count x p);
  in_range = λ x p q. ground (arith, blank_count x p);
}

root_own : (l : ℕ) → l < 1 → free_count tree.disk (1921 ∷ []) (direct_at root l) ≡ 0
unfolding write_inode write_block set_disk put_block free_count is_valid_inode_number
    inum_to_block_pos read_block word load zero_block
root_own zero h = blank_count 2000 (λ e. absurd (omega (arith, e)))
root_own (suc l) h = absurd (omega (arith, h))

root-there : get_inode memory_geometry 2 tree ≡ some root
unfolding get_inode is_valid_inode_number inum_to_block_pos inode_at load read_block
    is_block_out_of_range write_inode write_block set_disk put_block set_inode store_fields store
    set_byte put_record put_name zero_block
root-there = refl

find_child-assoc_example : find_child memory_geometry 2 path_a tree ≡ some (some 5)
unfolding assoc same_name copy_file_name get_last_index_of_parent_path last_index_from end_of_name
find_child-assoc_example =
    find_child-assoc memory_geometry tree 2 root root_blocks path_a (b'a' ∷ []) root-there
      (IsDirectory-small sound tree root root_blocks root-IsSmallDirectory) refl (omega arith)

remove_directory_entry-Withdrawn_example :
    ((assoc (b'a' ∷ []) (entries root_blocks) ≡ none)
      × (remove_directory_entry memory_geometry 9 root (b'a' ∷ []) tree ≡ some (false, root, tree)))
    ⊎ ((dir' : Inode) × (t : Fs) × (remove_directory_entry memory_geometry 9 root (b'a' ∷ []) tree
          ≡ some (true, dir', t))
        × Withdrawn memory_geometry 9 root (b'a' ∷ []) root_blocks dir' t)
remove_directory_entry-Withdrawn_example =
    remove_directory_entry-Withdrawn sound 9 tree root root_blocks (b'a' ∷ []) root-IsSmallDirectory
      (omega arith)

add_directory_entry-Entered_example :
    ((dir' : Inode) × (t : Fs) × (add_directory_entry memory_geometry root 7 (b'b' ∷ []) tree
        ≡ some (true, dir', t))
      × Entered memory_geometry root 7 (b'b' ∷ []) root_blocks dir' t)
    ⊎ (NoneFree tree (1921 ∷ [])
        × (add_directory_entry memory_geometry root 7 (b'b' ∷ []) tree ≡ some (false, root, tree)))
unfolding assoc same_name
add_directory_entry-Entered_example =
    add_directory_entry-Entered sound tree root root_blocks 7 (b'b' ∷ []) root-IsSmallDirectory refl
      (omega arith) (omega arith) (1921 ∷ []) tree-IsFreeList root_own (omega arith) refl

altfs_readdir-calls_of_example :
    (c : Cache) × (altfs_readdir memory_geometry path_root start
      ≡ Option.map
          (λ calls. ((0, calls), record start { cache = c }))
          (calls_of memory_geometry tree (entries root_blocks)))
    × IsCoherent memory_geometry tree c
unfolding create_inode_cache
altfs_readdir-calls_of_example =
    altfs_readdir-calls_of memory_geometry start path_root 2 root root_blocks start-IsCoherent
      (omega arith) path_root-means (λ e. absurd (omega arith)) root-there
      (IsDirectory-small sound tree root root_blocks root-IsSmallDirectory)

altfs_init-makefs_example :
    (w1 : World) × (altfs_init memory_geometry 9
        (record { fs = (makefs memory_geometry true (blank 0)).1; cache = create_inode_cache 3 })
      ≡ some (true, w1))
    × Rooted memory_geometry w1.fs
    × (w1.cache ≡ create_inode_cache cache_capacity)
altfs_init-makefs_example =
    altfs_init-makefs sound 9 (omega arith) (create_inode_cache 3) (blank 0) (omega arith)
