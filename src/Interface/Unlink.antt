-- ===== src/Interface/Unlink.antt =====
-- src/interface_layer.c: altfs_unlink, altfs_rename and altfs_destroy.
use alt_file_system.Prelude.{
  ℕ, ◌+◌, ◌%◌, Bool, true, false, not, ◌&&◌, none, some, List, ◌==◌, if◌then◌else◌, length,
}
use alt_file_system.Bytes.{word_mod}
use alt_file_system.Disk.{Geometry, minus_one}
use alt_file_system.Inode.{Inode}
use alt_file_system.InodeOps.{get_inode, write_inode, free_inode}
use alt_file_system.Directory.{s_isdir, add_directory_entry, remove_directory_entry}
use alt_file_system.PathName.{copy_parent_path, copy_file_name}
use alt_file_system.PathLookup.{
  root_inode_num, name_i, teardown, remove_from_inode_cache, flush_inode_cache,
}
use alt_file_system.Interface.{
  negated, enoent, eacces, einval, enotempty, edquot, is_empty_dir, with_times, altfs_access,
}
use alt_file_system.World.{Prog, pure, ◌>>=◌, reads, require, runs, runs_on_inode}

module _ (g : Geometry) where
  -- node->i_links_count--, and the inode is freed or written.
  unfoldable pub drop_link : (now inum : ℕ) → Inode → Prog Bool
  drop_link now inum node =
      let links = (node.i_links_count + minus_one) % word_mod in
      if links == 0
      then runs (free_inode g inum)
      else runs
          (write_inode g inum (record node { i_links_count = links; i_status_change_time = now }))

  -- altfs_unlink once the inodes of the file and of its parent are read.
  unfoldable pub unlink_child :
      (now : ℕ)
      → List ℕ
      → (child_name : List ℕ) → (inum : ℕ) → Inode
      → (parent_inum : ℕ) → Inode
      → Prog ℕ
  unfolding drop_link
  unlink_child now path child_name inum node parent_inum parent = do
    (removed, parent1) ← runs_on_inode (remove_directory_entry g now parent child_name)
    if not removed then pure minus_one else (do
      dropped ← drop_link now inum node
      written ← runs (write_inode g parent_inum parent1)
      was_cached ← remove_from_inode_cache path
      flushed ← if was_cached then pure true else flush_inode_cache true
      pure 0)

  -- altfs_unlink once the inode number, the name and the parent's path are known.
  unfoldable pub unlink_at :
      (now : ℕ) → List ℕ → (inum : ℕ) → (child_name parent_path : List ℕ) → Prog ℕ
  unfolding unlink_child
  unlink_at now path inum child_name parent_path = do
    found ← reads (get_inode g inum)
    node ← require found
    if s_isdir node.i_mode && not (is_empty_dir node) then pure (negated enotempty) else (do
      parent_inum ← name_i g parent_path
      if parent_inum == minus_one then pure minus_one else (do
        parent_found ← reads (get_inode g parent_inum)
        parent ← require parent_found
        unlink_child now path child_name inum node parent_inum parent))

  unfoldable pub altfs_unlink : (now : ℕ) → List ℕ → Prog ℕ
  unfolding unlink_at
  altfs_unlink now path = do
    inum ← name_i g path
    if inum == minus_one
        then pure (negated enoent)
        else if inum == root_inode_num
        then pure (negated eacces)
        else elim (copy_file_name path (length path)) [
          | none ↦ pure minus_one
          | some child_name ↦ elim (copy_parent_path path (length path)) [
            | none ↦ pure (negated einval)
            | some parent_path ↦ unlink_at now path inum child_name parent_path
          ]
        ]

  -- The end of altfs_rename: the record in the parent of `from` is removed.
  unfoldable pub remove_old_name : (now : ℕ) → (from : List ℕ) → Prog ℕ
  unfolding with_times
  remove_old_name now from =
      let remove_record : ℕ → Inode → List ℕ → Prog ℕ = λ parent_inum parent name. (do
        (removed, parent1) ← runs_on_inode (remove_directory_entry g now parent name)
        if not removed then pure minus_one else (do
          written ← runs (write_inode g parent_inum (with_times now parent1))
          if not written then pure minus_one else (do flushed ← flush_inode_cache true; pure 0))) in
      elim (copy_parent_path from (length from)) [
        | none ↦ pure minus_one
        | some parent_path ↦ (do
          parent_inum ← name_i g parent_path
          if parent_inum == minus_one then pure minus_one else (do
            found ← reads (get_inode g parent_inum)
            elim (copy_file_name from (length from)) [
              | none ↦ pure minus_one
              | some name ↦ (do parent ← require found; remove_record parent_inum parent name)
            ]))
      ]

  -- altfs_rename with the parent of `to` known: the record is added there.
  unfoldable pub add_new_name :
      (now : ℕ) → (from to : List ℕ) → (to_parent_inum : ℕ) → Inode → (to_name : List ℕ) → Prog ℕ
  unfolding remove_old_name with_times
  add_new_name now from to to_parent_inum to_parent to_name = do
    inum ← name_i g from
    (added, parent1) ← runs_on_inode (add_directory_entry g to_parent inum to_name)
    if not added then pure (negated edquot) else (do
      written ← runs (write_inode g to_parent_inum (with_times now parent1))
      if not written then pure minus_one else remove_old_name now from)

  -- altfs_rename once `to` does not exist.
  unfoldable pub rename_to_free : (now : ℕ) → (from to : List ℕ) → Prog ℕ
  unfolding add_new_name
  rename_to_free now from to = elim (copy_parent_path to (length to)) [
    | none ↦ pure minus_one
    | some to_parent_path ↦ (do
      to_parent_inum ← name_i g to_parent_path
      if to_parent_inum == minus_one then pure minus_one else (do
        found ← reads (get_inode g to_parent_inum)
        to_parent ← require found
        if not (s_isdir to_parent.i_mode)
            then pure minus_one
            else elim (copy_file_name to (length to)) [
              | none ↦ pure minus_one
              | some to_name ↦ add_new_name now from to to_parent_inum to_parent to_name
            ]))
  ]

  unfoldable pub altfs_rename : (now : ℕ) → (from to : List ℕ) → Prog ℕ
  unfolding rename_to_free
  altfs_rename now from to = do
    from_access ← altfs_access g from
    if not (from_access == 0) then pure (negated enoent) else (do
      to_access ← altfs_access g to
      unlinked ← if to_access == 0 then altfs_unlink now to else pure 0
      if not (unlinked == 0) then pure unlinked else rename_to_free now from to)

  unfoldable pub altfs_destroy : Prog Bool
  altfs_destroy = do flushed ← flush_inode_cache false; teardown g
