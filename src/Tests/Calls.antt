-- ===== src/Tests/Calls.antt =====
-- The theorems on the cache, paths and the calls at concrete inputs.
use alt_file_system.Prelude.{
  ℕ, ◌+◌, ◌*◌, ◌%◌, subst, ◌<◌, ◌≤◌, ◌≡◌, ◌⊎◌, refl, inl, inr, some, List, arith, ◌==◌, Bool-cases,
}
use alt_file_system.Disk.{
  memory_geometry, minus_one, put_block, set_disk, read_block, write_block, is_block_out_of_range,
}
use alt_file_system.InodeOps.{write_inode, is_valid_inode_number, inum_to_block_pos}
use alt_file_system.InodeCache.{Cache, create_inode_cache, get_cache_entry, set_cache_entry}
use alt_file_system.InodeCache.Insert.{create_inode_cache-IsLinked}
use alt_file_system.InodeCache.Safe.{IsCache, get_cache_entry-IsCache, set_cache_entry-IsCache}
use alt_file_system.World.{World}
use alt_file_system.PathLookup.{name_i}
use alt_file_system.PathLookup.Reference.{lookup_path}
use alt_file_system.PathLookup.Cached.{IsCoherent, name_i-lookup_path}
use alt_file_system.PathLookup.Kept.{touched, lookup_path-kept}
use alt_file_system.Interface.{altfs_getattr, altfs_chmod}
use alt_file_system.Interface.Attributes.{attributes_of, altfs_getattr-altfs_chmod}
use alt_file_system.Interface.Read.{Buffer, memzero, altfs_read}
use alt_file_system.Interface.Read.Contents.{HasBlock, HasContents}
use alt_file_system.BlockMap.Locate.{locate, resolve}
use alt_file_system.DataBlock.{read_data_block, is_bad_index}
use alt_file_system.Interface.Read.Range.{Filled}
use alt_file_system.Interface.Read.Result.{altfs_read-Filled}
use alt_file_system.Tests.{sound}
use alt_file_system.Tests.Paths.{
  file_a, tree, path_a, start, start-IsCoherent, path_a-means, tree-IsSuperblock, file_a-IsInode,
  file_a-there,
}

-- Values below 100 only.
abbrev Small : List ℕ → ℕ → Type 0
Small k v = v < 100

empty-IsCache : IsCache Small (create_inode_cache 8)
unfolding create_inode_cache
empty-IsCache = record {
  rank = λ p. p;
  linked = create_inode_cache-IsLinked 8;
  allowed = λ p l. absurd (ground arith);
}

has_room : (create_inode_cache 8).size < (create_inode_cache 8).capacity
unfolding create_inode_cache
has_room = omega arith

set_cache_entry-IsCache_example :
    (c : Cache) × (set_cache_entry path_a 5 (create_inode_cache 8) ≡ some c)
    × IsCache Small c
    × (c.size ≤ (create_inode_cache 8).size + 1)
    × (c.capacity ≡ (create_inode_cache 8).capacity)
set_cache_entry-IsCache_example =
    set_cache_entry-IsCache Small (create_inode_cache 8) path_a 5 empty-IsCache (omega arith)
      has_room

-- The cache with one entry.
abbrev one_entry : Cache
one_entry =
    (set_cache_entry-IsCache Small (create_inode_cache 8) path_a 5 empty-IsCache (omega arith)
      has_room).0

get_cache_entry-IsCache_example :
    (v : ℕ) × (c : Cache) × (get_cache_entry path_a one_entry ≡ some (v, c))
    × ((v ≡ minus_one) ⊎ Small path_a v)
    × IsCache Small c
    × (c.size ≡ one_entry.size)
    × (c.capacity ≡ one_entry.capacity)
get_cache_entry-IsCache_example =
    get_cache_entry-IsCache Small one_entry path_a
      (set_cache_entry-IsCache Small (create_inode_cache 8) path_a 5 empty-IsCache (omega arith)
        has_room).2

name_i-lookup_path_example :
    (c : Cache) × (name_i memory_geometry path_a start ≡ some (5, record start { cache = c }))
    × IsCoherent memory_geometry start.fs c
    × (c.size ≤ start.cache.size + 2)
    × (c.capacity ≡ start.cache.capacity)
unfolding create_inode_cache
name_i-lookup_path_example =
    name_i-lookup_path memory_geometry path_a start 5 start-IsCoherent (omega arith) path_a-means

-- The byte at each offset of the file: both blocks count from 0.
abbrev counting : Buffer
counting p = p % 4096

file_a-HasContents : HasContents memory_geometry tree file_a 5000 counting
unfolding resolve locate read_data_block is_bad_index read_block is_block_out_of_range write_inode
    write_block set_disk put_block inum_to_block_pos is_valid_inode_number
file_a-HasContents = record {
  roots = record {
    single_root = omega arith;
    double_root = omega arith;
    triple_root = omega arith;
  };
  inside = λ l lt. omega arith;
  block_at = λ l lt. elim (Bool-cases (l == 0)) [
    | inl first ↦
        let e : 0 ≡ l = ground arith in
        subst (λ m. HasBlock memory_geometry tree file_a m (λ o. counting (4096 * m + o))) e
          (record {
            number = 2001;
            block = λ o. o;
            recorded = refl;
            positive = refl;
            on_disk = refl;
            same_bytes = λ o lt. omega arith;
          })
    | inr second ↦
        let e : 1 ≡ l = ground arith in
        subst (λ m. HasBlock memory_geometry tree file_a m (λ o. counting (4096 * m + o))) e
          (record {
            number = 2002;
            block = λ o. o;
            recorded = refl;
            positive = refl;
            on_disk = refl;
            same_bytes = λ o lt. omega arith;
          })
  ];
}

altfs_read-Filled_example :
    (after : Buffer) × (c : Cache) × (altfs_read memory_geometry 9 path_a (λ _. 255) 3000 4000 start
      ≡ some (
        (1000, after),
        record {
          fs = (write_inode memory_geometry 5 (record file_a { i_atime = 9 }) tree).1;
          cache = c;
        },
      ))
    × Filled counting 4000 1000 (memzero (λ _. 255) 0 3000) after
    × IsCoherent memory_geometry tree c
unfolding create_inode_cache
altfs_read-Filled_example =
    altfs_read-Filled memory_geometry 9 5 file_a path_a start start-IsCoherent (omega arith)
      counting (λ _. 255) 3000 4000 path_a-means (λ e. absurd (omega arith)) file_a-there
      file_a-HasContents (omega arith) (omega arith) (omega arith) (omega arith)

lookup_path-kept_example :
    lookup_path memory_geometry path_a
      (write_inode memory_geometry 5 (touched 33152 7 file_a) tree).1
    ≡ lookup_path memory_geometry path_a tree
lookup_path-kept_example =
    lookup_path-kept sound tree tree-IsSuperblock 5 file_a file_a-there 33152 7
      (file_a-IsInode 33152 7 0 0 (omega arith) (omega arith) (omega arith) (omega arith)) refl
      path_a

altfs_getattr-altfs_chmod_example :
    (w1 : World) × (w2 : World) × (altfs_chmod memory_geometry path_a 33152 start ≡ some (0, w1))
    × (altfs_getattr memory_geometry path_a w1
        ≡ some ((0, record (attributes_of 5 file_a) { st_mode = 33152 }), w2))
    × IsCoherent memory_geometry w2.fs w2.cache
unfolding create_inode_cache
altfs_getattr-altfs_chmod_example =
    altfs_getattr-altfs_chmod sound path_a 5 file_a start 33152 tree-IsSuperblock start-IsCoherent
      (omega arith) path_a-means (λ e. absurd (omega arith)) file_a-there
      (file_a-IsInode 33152 0 0 0 (omega arith) (omega arith) (omega arith) (omega arith)) refl
