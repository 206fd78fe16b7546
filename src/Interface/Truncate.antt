-- ===== src/Interface/Truncate.antt =====
-- src/interface_layer.c: altfs_truncate, altfs_open and altfs_close.
pub mod Emptied
pub mod Reopened
use alt_file_system.Prelude.{
  ℕ, ◌+◌, ◌-◌, ◌/◌, ◌%◌, Bool, true, false, not, ◌&&◌, ◌||◌, Option, none, some, List, ltb, ◌==◌,
  if◌then◌else◌,
}
use alt_file_system.Bytes.{block_size, word_mod, zero_block}
use alt_file_system.Disk.{Geometry, Fs, minus_one, is_negative}
use alt_file_system.DataBlock.{read_data_block, write_data_block}
use alt_file_system.Inode.{Inode}
use alt_file_system.InodeOps.{get_inode, write_inode}
use alt_file_system.BlockMap.{get_disk_block_from_inode_block, is_not_positive}
use alt_file_system.BlockMap.Remove.Trees.{remove_datablocks_from_inode}
use alt_file_system.PathLookup.{default_permissions, name_i}
use alt_file_system.Interface.{
  failed, created, negated, enoent, eacces, einval, has_flag, s_ifreg, s_iwusr, s_irusr, with_times,
  create_new_file,
}
use alt_file_system.Interface.Read.{memzero}
use alt_file_system.Interface.Write.{altfs_write}
use alt_file_system.World.{Prog, pure, ◌>>=◌, reads, require, runs, runs_or_faults, runs_on_inode}

-- i_block_num + 1: how many blocks a file of this length keeps.
unfoldable pub blocks_kept : (length : ℕ) → ℕ
blocks_kept length = if length == 0 then 0 else (length - 1) / block_size + 1

abbrev pub o_wronly : ℕ
o_wronly = 1

abbrev pub o_rdwr : ℕ
o_rdwr = 2

abbrev pub o_creat : ℕ
o_creat = 64

abbrev pub o_trunc : ℕ
o_trunc = 512

-- The permissions that altfs_open looks for. O_RDONLY is 0, so that oflag & O_RDONLY never holds.
unfoldable pub lacks_permission : (oflag mode : ℕ) → Bool
lacks_permission oflag mode =
    (has_flag oflag o_rdwr && not (has_flag mode s_irusr))
    || ((has_flag oflag o_wronly || has_flag oflag o_rdwr) && not (has_flag mode s_iwusr))

module _ (g : Geometry) where
  -- The rest of the last block is filled with zeros; the result says that the block was found.
  unfoldable pub clear_tail : Inode → (length : ℕ) → Fs → Option (Bool × Fs)
  unfolding memzero
  clear_tail node length s =
      let block_offset = (length - 1) % block_size in
      let d_block = get_disk_block_from_inode_block g node ((length - 1) / block_size) 0 s in
      let cleared : ℕ → Option (Bool × Fs) = λ d_block_num. elim (read_data_block g d_block_num s) [
        | none ↦ none
        | some data_block ↦ some (
          true,
          (write_data_block g d_block_num
              (memzero data_block (block_offset + 1) (block_size - block_offset - 1)) s).1,
        )
      ] in
      elim d_block [
        | none ↦ none
        | some (d_block_num, prev) ↦
            if is_not_positive d_block_num
            then some (false, s)
            else if block_offset == block_size - 1
            then some (true, s)
            else cleared d_block_num
      ]

  -- altfs_truncate to a length that is no more than the file's.
  unfoldable pub shrink_file : (inum : ℕ) → Inode → (length : ℕ) → Prog ℕ
  unfolding blocks_kept clear_tail
  shrink_file inum node length = do
    (removed, node1) ←
        if ltb (blocks_kept length) node.i_blocks_num
        then runs_on_inode (remove_datablocks_from_inode g node (blocks_kept length))
        else pure (true, node)
    if length == 0
        then (do written ← runs (write_inode g inum (record node1 { i_file_size = 0 })); pure 0)
        else (do
          found ← runs_or_faults (clear_tail node1 length)
          if not found then pure minus_one else (do
            written ← runs (write_inode g inum (record node1 { i_file_size = length }))
            pure 0))

  -- calloc is taken to find the memory for the zeros.
  unfoldable pub altfs_truncate : (now : ℕ) → List ℕ → (length : ℕ) → Prog ℕ
  unfolding shrink_file
  altfs_truncate now path length = do
    inum ← name_i g path
    if inum == minus_one then pure (negated enoent) else (do
      found ← reads (get_inode g inum)
      node ← require found
      let bytes_to_add : ℕ = (length + (word_mod - node.i_file_size)) % word_mod
      if not (has_flag node.i_mode s_iwusr)
          then pure (negated eacces)
          else if is_negative length
          then pure (negated einval)
          else if length == 0 && node.i_file_size == 0
          then pure 0
          else if is_negative node.i_file_size || ltb node.i_file_size length
          then (do
            written ← altfs_write g now path zero_block bytes_to_add node.i_file_size
            if written == bytes_to_add then pure 0 else pure minus_one)
          else shrink_file inum node length)

  -- altfs_open once the inode number is known, with whether the file was created.
  unfoldable pub open_inode : (now : ℕ) → List ℕ → (oflag inum : ℕ) → (is_new : Bool) → Prog ℕ
  unfolding lacks_permission with_times
  open_inode now path oflag inum is_new = do
    found ← reads (get_inode g inum)
    node ← require found
    if lacks_permission oflag node.i_mode
        then pure (negated eacces)
        else if has_flag oflag o_trunc && has_flag node.i_mode s_iwusr
        then (do
          truncated ← altfs_truncate now path 0
          if truncated == minus_one
              then pure minus_one
              else if is_new
              then pure inum
              else (do written ← runs (write_inode g inum (with_times now node)); pure inum))
        else pure inum

  unfoldable pub altfs_open : (now : ℕ) → List ℕ → (oflag : ℕ) → Prog ℕ
  unfolding open_inode
  altfs_open now path oflag = do
    inum ← name_i g path
    if not (inum == minus_one)
        then open_inode now path oflag inum false
        else if not (has_flag oflag o_creat)
        then pure (negated enoent)
        else (do
          new_file ← create_new_file g now path (s_ifreg + default_permissions)
          elim new_file [
            | failed result ↦ pure result
            | created new_inum node parent_inum ↦
                if is_negative new_inum
                then pure new_inum
                else open_inode now path oflag new_inum true
          ])

unfoldable pub altfs_close : (file_descriptor : ℕ) → ℕ
altfs_close file_descriptor = 0
