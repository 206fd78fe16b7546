-- ===== src/PathLookup.antt =====
-- src/directory_ops.c: from a path to its inode number, through the cache, and the start of the file
-- system with its root directory.
pub mod Reference
pub mod Cached
pub mod Frame
pub mod Kept
pub mod Children
pub mod Setup
pub mod Root
use alt_file_system.Prelude.{
  ℕ, zero, suc, ◌+◌, ◌*◌, ◌%◌, Bool, true, false, not, ◌&&◌, ◌||◌, Option, none, some, List, [],
  ◌∷◌, ltb, leb, ◌==◌, if◌then◌else◌, length,
}
use alt_file_system.Bytes.{word_mod, load}
use alt_file_system.Disk.{Geometry, Fs, minus_one, is_negative}
use alt_file_system.Superblock.{write_superblock, load_superblock}
use alt_file_system.Inode.{Inode}
use alt_file_system.InodeOps.{get_inode, write_inode}
use alt_file_system.BlockMap.{is_not_positive}
use alt_file_system.Directory.{get_file_position_in_dir, add_directory_entry}
use alt_file_system.PathName.{slash, copy_parent_path, copy_file_name}
use alt_file_system.InodeCache.{
  Cache, create_inode_cache, get_cache_entry, set_cache_entry, remove_cache_entry,
}
use alt_file_system.World.{
  Prog, pure, fault, ◌>>=◌, reads, require, reads_or_faults, runs, runs_on_inode, runs_on_cache,
  updates_cache,
}

abbrev pub root_inode_num : ℕ
root_inode_num = 2

abbrev pub cache_capacity : ℕ
cache_capacity = 100000

-- DEFAULT_PERMISSIONS, and S_IFDIR | DEFAULT_PERMISSIONS
abbrev pub default_permissions : ℕ
default_permissions = 509

abbrev pub directory_mode : ℕ
directory_mode = 16384 + default_permissions

-- strlen(path) == 1 && path[0] == '/'
abbrev pub is_root : List ℕ → Bool
is_root [] = false
is_root (c ∷ []) = c == slash
is_root (c ∷ d ∷ path) = false

module _ (g : Geometry) where
  -- The end of name_i, in the directory `parent_inum`; `none` is the result -1.
  unfoldable pub find_child : (parent_inum : ℕ) → List ℕ → Fs → Option (Option ℕ)
  find_child parent_inum path s =
      let found : Inode → List ℕ → Option (Option ℕ) = λ parent name.
        elim (get_file_position_in_dir g name parent s) [
          | none ↦ none
          | some none ↦ some none
          | some (some pos) ↦ some (some (load 8 pos.p_block (pos.offset + 2)))
        ] in
      elim (copy_file_name path (length path)) [
        | none ↦ some none
        | some name ↦ elim (get_inode g parent_inum s) [
          | none ↦ none
          | some parent ↦ found parent name
        ]
      ]

  -- The end of name_i, with the parent's inode number: what it finds goes into the cache.
  unfoldable pub name_in_parent : (parent_inum : ℕ) → List ℕ → Prog ℕ
  unfolding find_child
  name_in_parent parent_inum path = if parent_inum == minus_one then pure minus_one else (do
    found ← reads_or_faults (find_child parent_inum path)
    elim found [
      | none ↦ pure minus_one
      | some inum ↦ (do stored ← updates_cache (set_cache_entry path inum); pure inum)
    ])

  -- name_i, with fuel for the recursion.
  unfoldable pub name_i_within : (fuel : ℕ) → List ℕ → Prog ℕ
  unfolding name_in_parent
  name_i_within zero path = fault
  name_i_within (suc fuel) path =
      let rest : List ℕ → Prog ℕ = λ parent_path. name_i_within fuel parent_path in
      if is_root path then pure root_inode_num else (do
        cached ← runs_on_cache (get_cache_entry path)
        if not (is_not_positive cached)
            then pure cached
            else elim (copy_parent_path path (length path)) [
              | none ↦ pure minus_one
              | some parent_path ↦ (do
                parent_inum ← rest parent_path
                name_in_parent parent_inum path)
            ])

  -- A path is longer than its parent.
  unfoldable pub name_i : List ℕ → Prog ℕ
  unfolding name_i_within
  name_i path = name_i_within (suc (length path)) path

  -- The superblock is written; what is freed is not used again.
  unfoldable pub teardown : Prog Bool
  teardown = runs (λ s. (false, (write_superblock g s).1))

  -- The root directory that setup_filesystem makes of an inode.
  unfoldable pub new_root : (now : ℕ) → Inode → Inode
  new_root now node = record node {
    i_allocated = true;
    i_links_count = (node.i_links_count + 1) % word_mod;
    i_mode = directory_mode;
    i_blocks_num = 0;
    i_file_size = 0;
    i_atime = now;
    i_ctime = now;
    i_mtime = now;
    i_status_change_time = now;
    i_child_num = 0;
  }

  -- The end of setup_filesystem: the root directory is created.
  unfoldable pub create_root : (now : ℕ) → Inode → Prog Bool
  unfolding new_root teardown
  create_root now root_dir = do
    (dot, dir1) ←
        runs_on_inode (add_directory_entry g (new_root now root_dir) root_inode_num (b'.' ∷ []))
    if not dot then teardown else (do
      (dots, dir2) ← runs_on_inode (add_directory_entry g dir1 root_inode_num (b'.' ∷ b'.' ∷ []))
      if not dots then teardown else (do
        written ← runs (write_inode g root_inode_num dir2)
        if written then pure true else teardown))

  -- The result, after load_superblock; `now` is time(NULL).
  unfoldable pub setup_filesystem : (now : ℕ) → Prog Bool
  unfolding create_root
  setup_filesystem now = do
    loaded ← runs (load_superblock g)
    if not loaded then pure false else (do
      empty ← updates_cache (λ c. some (create_inode_cache cache_capacity))
      root ← reads (get_inode g root_inode_num)
      elim root [
        | none ↦ teardown
        | some root_dir ↦
            if root_dir.i_allocated && leb 2 root_dir.i_child_num
            then pure true
            else create_root now root_dir
      ])

unfoldable pub remove_from_inode_cache : List ℕ → Prog Bool
remove_from_inode_cache path = runs_on_cache (remove_cache_entry path)

-- With `create` false the cache is freed and not used again.
unfoldable pub flush_inode_cache : (create : Bool) → Prog Bool
flush_inode_cache create =
    updates_cache (λ c. some (if create then create_inode_cache cache_capacity else c))
