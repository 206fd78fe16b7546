-- ===== src/Interface.antt =====
-- src/interface_layer.c: the operations on paths that do not move file data. A result of ssize_t is its
-- 64-bit pattern, so that -errno is `negated errno`. `now` is time(NULL), the same throughout a call.
-- The flags of sys/stat.h and fcntl.h are those of Linux.
pub mod Read
pub mod Write
pub mod Truncate
pub mod Unlink
pub mod Readdir
pub mod Attributes
pub mod Init
use alt_file_system.Prelude.{
  ℕ, ◌+◌, ◌-◌, ◌/◌, ◌%◌, ◌^◌, Bool, true, false, not, ◌||◌, Option, none, some, List, [], ◌∷◌, ltb,
  ◌==◌, if◌then◌else◌, length,
}
use alt_file_system.Bytes.{block_size}
use alt_file_system.Disk.{Geometry, minus_one, is_negative}
use alt_file_system.Inode.{Inode}
use alt_file_system.InodeOps.{allocate_inode, get_inode, write_inode, free_inode}
use alt_file_system.Directory.{s_isdir, add_directory_entry}
use alt_file_system.PathName.{copy_parent_path, copy_file_name}
use alt_file_system.PathLookup.{setup_filesystem, name_i}
use alt_file_system.World.{Prog, pure, ◌>>=◌, reads, require, runs, runs_on_inode}

abbrev pub negated : ℕ → ℕ
negated n = 2 ^ 64 - n

abbrev pub enoent : ℕ
enoent = 2

abbrev pub eio : ℕ
eio = 5

abbrev pub eacces : ℕ
eacces = 13

abbrev pub enotdir : ℕ
enotdir = 20

abbrev pub einval : ℕ
einval = 22

abbrev pub enotempty : ℕ
enotempty = 39

abbrev pub eoverflow : ℕ
eoverflow = 75

abbrev pub edquot : ℕ
edquot = 122

-- (bool)(x & flag), and x | flag, where `flag` is a power of 2
abbrev pub has_flag : (x flag : ℕ) → Bool
has_flag x flag = x / flag % 2 == 1

abbrev pub with_flag : (x flag : ℕ) → ℕ
with_flag x flag = if has_flag x flag then x else x + flag

abbrev pub s_ifdir : ℕ
s_ifdir = 16384

abbrev pub s_ifreg : ℕ
s_ifreg = 32768

abbrev pub s_iwusr : ℕ
s_iwusr = 128

abbrev pub s_irusr : ℕ
s_irusr = 256

-- struct stat
pub record Stat : Type 0 where
  pub st_ino : ℕ
  pub st_mode : ℕ
  pub st_nlink : ℕ
  pub st_uid : ℕ
  pub st_gid : ℕ
  pub st_rdev : ℕ
  pub st_size : ℕ
  pub st_blksize : ℕ
  pub st_blocks : ℕ
  pub st_atime : ℕ
  pub st_ctime : ℕ
  pub st_mtime : ℕ

-- After memset(st, 0, sizeof(struct stat))
abbrev pub zero_stat : Stat
zero_stat = record {
  st_ino = 0;
  st_mode = 0;
  st_nlink = 0;
  st_uid = 0;
  st_gid = 0;
  st_rdev = 0;
  st_size = 0;
  st_blksize = 0;
  st_blocks = 0;
  st_atime = 0;
  st_ctime = 0;
  st_mtime = 0;
}

unfoldable pub inode_to_stat : Inode → Stat → Stat
inode_to_stat node st = record st {
  st_mode = node.i_mode;
  st_nlink = node.i_links_count;
  st_uid = 0;
  st_gid = 0;
  st_rdev = 0;
  st_size = node.i_file_size;
  st_blksize = block_size;
  st_blocks = node.i_blocks_num;
  st_atime = node.i_atime;
  st_ctime = node.i_ctime;
  st_mtime = node.i_mtime;
}

-- i_child_num is unsigned, an nlink_t.
unfoldable pub is_empty_dir : Inode → Bool
is_empty_dir node = not (ltb 2 node.i_child_num)

-- What create_new_file returns: a negative result, or the new inode's number, *buff and *parent_inum.
pub data NewFile : Type 0 where
  failed : (result : ℕ) → NewFile
  created : (inum : ℕ) → (buff : Inode) → (parent_inum : ℕ) → NewFile

-- The fields that create_new_file sets.
unfoldable pub new_file_inode : (now mode : ℕ) → Inode → Inode
new_file_inode now mode node = record node {
  i_links_count = 1;
  i_mode = mode;
  i_blocks_num = 0;
  i_file_size = 0;
  i_atime = now;
  i_mtime = now;
  i_ctime = now;
  i_status_change_time = now;
  i_child_num = 0;
}

unfoldable pub with_times : (now : ℕ) → Inode → Inode
with_times now node = record node { i_ctime = now; i_mtime = now }

module _ (g : Geometry) where
  unfoldable pub altfs_init : (now : ℕ) → Prog Bool
  altfs_init now = setup_filesystem g now

  -- The result and *st.
  unfoldable pub altfs_getattr : List ℕ → Prog (ℕ × Stat)
  unfolding inode_to_stat
  altfs_getattr path = do
    inum ← name_i g path
    if inum == minus_one then pure (negated enoent, zero_stat) else (do
      found ← reads (get_inode g inum)
      elim found [
        | none ↦ pure (negated eio, zero_stat)
        | some node ↦ pure (0, record (inode_to_stat node zero_stat) { st_ino = inum })
      ])

  unfoldable pub altfs_access : List ℕ → Prog ℕ
  altfs_access path = do
    inum ← name_i g path
    if inum == minus_one then pure (negated enoent) else pure 0

  -- The end of create_new_file, where the new inode is filled.
  unfoldable pub fill_new_file :
      (now mode : ℕ) → (child_inode_num parent_inode_num : ℕ) → Prog NewFile
  unfolding new_file_inode
  fill_new_file now mode child_inode_num parent_inode_num = do
    found ← reads (get_inode g child_inode_num)
    buff ← require found
    written ← runs (write_inode g child_inode_num (new_file_inode now mode buff))
    if written
        then pure (created child_inode_num (new_file_inode now mode buff) parent_inode_num)
        else pure (failed minus_one)

  -- create_new_file from the allocation of the inode on.
  unfoldable pub create_in_parent :
      (now mode : ℕ) → (parent_inode_num : ℕ) → Inode → (child_name : List ℕ) → Prog NewFile
  unfolding fill_new_file with_times
  create_in_parent now mode parent_inode_num parent_inode child_name = do
    child_inode_num ← runs (allocate_inode g)
    if child_inode_num == minus_one then pure (failed (negated edquot)) else (do
      (added, parent1) ←
          runs_on_inode (add_directory_entry g parent_inode child_inode_num child_name)
      if not added
          then (do freed ← runs (free_inode g child_inode_num); pure (failed (negated edquot)))
          else (do
            written ← runs (write_inode g parent_inode_num (with_times now parent1))
            if not written
                then pure (failed minus_one)
                else fill_new_file now mode child_inode_num parent_inode_num))

  unfoldable pub create_new_file : (now : ℕ) → List ℕ → (mode : ℕ) → Prog NewFile
  unfolding create_in_parent
  create_new_file now path mode = elim (copy_parent_path path (length path)) [
    | none ↦ pure (failed (negated enoent))
    | some parent_path ↦ (do
      parent_inode_num ← name_i g parent_path
      if parent_inode_num == minus_one then pure (failed (negated enoent)) else (do
        found ← reads (get_inode g parent_inode_num)
        parent_inode ← require found
        if not (s_isdir parent_inode.i_mode)
            then pure (failed (negated enoent))
            else if not (has_flag parent_inode.i_mode s_iwusr)
            then pure (failed (negated eacces))
            else elim (copy_file_name path (length path)) [
              | none ↦ pure (failed minus_one)
              | some child_name ↦ create_in_parent now mode parent_inode_num parent_inode child_name
            ]))
  ]

  -- altfs_mkdir once the inode of the directory is made.
  unfoldable pub fill_directory : (dir_inode_num : ℕ) → Inode → (parent_inum : ℕ) → Prog Bool
  fill_directory dir_inode_num dir_inode parent_inum = do
    (dot, dir1) ← runs_on_inode (add_directory_entry g dir_inode dir_inode_num (b'.' ∷ []))
    if not dot then pure false else (do
      (dots, dir2) ← runs_on_inode (add_directory_entry g dir1 parent_inum (b'.' ∷ b'.' ∷ []))
      if not dots then pure false else runs (write_inode g dir_inode_num dir2))

  unfoldable pub altfs_mkdir : (now : ℕ) → List ℕ → (mode : ℕ) → Prog Bool
  unfolding create_new_file fill_directory
  altfs_mkdir now path mode = do
    inum ← name_i g path
    if not (inum == minus_one) then pure false else (do
      new_file ← create_new_file now path (with_flag mode s_ifdir)
      elim new_file [
        | failed result ↦ pure false
        | created dir_inode_num dir_inode parent_inum ↦
            if is_negative dir_inode_num
            then pure false
            else fill_directory dir_inode_num dir_inode parent_inum
      ])

  unfoldable pub altfs_mknod : (now : ℕ) → List ℕ → (mode : ℕ) → Prog Bool
  unfolding create_new_file
  altfs_mknod now path mode = do
    inum ← name_i g path
    if not (inum == minus_one) then pure false else (do
      new_file ← create_new_file now path mode
      elim new_file [
        | failed result ↦ pure false
        | created new_inum node parent_inum ↦ pure (not (is_negative new_inum))
      ])

  unfoldable pub altfs_chmod : List ℕ → (mode : ℕ) → Prog ℕ
  altfs_chmod path mode = do
    inum ← name_i g path
    if inum == minus_one then pure (negated enoent) else (do
      found ← reads (get_inode g inum)
      elim found [
        | none ↦ pure minus_one
        | some node ↦ (do
          written ← runs (write_inode g inum (record node { i_mode = mode }))
          if written then pure 0 else pure minus_one)
      ])
