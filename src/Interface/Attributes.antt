-- ===== src/Interface/Attributes.antt =====
-- src/interface_layer.c: what altfs_chmod and altfs_open with O_TRUNC leave in the inode.
use alt_file_system.Prelude.{
  ℕ, ◌+◌, ◌≤◌, ◌≡◌, ◌≢◌, ◌∙◌, true, false, ◌&&◌, some, List, arith, ltb, ◌==◌, length,
}
use alt_file_system.Disk.{Geometry, Fs, minus_one}
use alt_file_system.Disk.Laws.{IsSound}
use alt_file_system.Superblock.Encoding.{IsSuperblock}
use alt_file_system.Inode.{Inode}
use alt_file_system.Inode.Layout.{IsInode}
use alt_file_system.InodeOps.{get_inode, write_inode}
use alt_file_system.InodeOps.Table.{get_inode-in, get_inode-write_inode}
use alt_file_system.Directory.{s_isdir}
use alt_file_system.World.{World, programs}
use alt_file_system.PathLookup.{name_i}
use alt_file_system.PathLookup.Cached.{IsCoherent, name_i-lookup_path}
use alt_file_system.PathLookup.Kept.{lookup_path-kept, IsCoherent-kept}
use alt_file_system.PathLookup.Reference.{lookup_path}
use alt_file_system.Interface.{
  Stat, inode_to_stat, has_flag, s_iwusr, with_times, altfs_getattr, altfs_chmod,
}
use alt_file_system.Interface.Truncate.{
  o_trunc, lacks_permission, altfs_truncate, open_inode, altfs_open,
}

-- The attributes of the inode number `inum`, field by field; they belong to root on device 0.
abbrev pub attributes_of : (inum : ℕ) → Inode → Stat
attributes_of inum node = record {
  st_ino = inum;
  st_mode = node.i_mode;
  st_nlink = node.i_links_count;
  st_uid = 0;
  st_gid = 0;
  st_rdev = 0;
  st_size = node.i_file_size;
  st_blksize = 4096;
  st_blocks = node.i_blocks_num;
  st_atime = node.i_atime;
  st_ctime = node.i_ctime;
  st_mtime = node.i_mtime;
}

module _ {g : Geometry} (v : IsSound g) (path : List ℕ) (inum : ℕ) (node : Inode) (w : World) where
  -- altfs_chmod with a mode of the same file type, then altfs_getattr of the same path: both
  -- succeed, the attributes are the new mode, and the number, links, size, blocks and times of the
  -- inode, with 4096 as the block size and 0 for user, group and device, and the cache still
  -- agrees with the directories. This where the cache agreed with them before and has room for
  -- twice the length of the path, the path names an inode that can be read, its values fit their
  -- fields, and the superblock has the counts of the build.
  pub altfs_getattr-altfs_chmod :
      (mode : ℕ)
      → IsSuperblock g w.fs.superblock
      → IsCoherent g w.fs w.cache
      → w.cache.size + (length path + length path) ≤ w.cache.capacity
      → lookup_path g path w.fs ≡ some inum
      → inum ≢ minus_one
      → get_inode g inum w.fs ≡ some node
      → IsInode (record node { i_mode = mode })
      → s_isdir mode ≡ s_isdir node.i_mode
      → (w1 : World) × (w2 : World) × (altfs_chmod g path mode w ≡ some (0, w1))
        × (altfs_getattr g path w1
            ≡ some ((0, record (attributes_of inum node) { st_mode = mode }), w2))
        × IsCoherent g w2.fs w2.cache
  unfolding altfs_chmod altfs_getattr inode_to_stat
  altfs_getattr-altfs_chmod mode sb coherent room means taken got fits kind =
      let (c, ran, coherent1, sizes, capacities) =
        name_i-lookup_path g path w inum coherent (omega arith) means in
      let s1 : Fs = (write_inode g inum (record node { i_mode = mode }) w.fs).1 in
      let w1 : World = record { fs = s1; cache = c } in
      let coherent' =
        IsCoherent-kept v w.fs sb inum node got mode node.i_atime fits kind c coherent1 in
      let means' =
        lookup_path-kept v w.fs sb inum node got mode node.i_atime fits kind path ∙ means in
      let (c', ran', coherent2, sizes', capacities') =
        name_i-lookup_path g path w1 inum coherent' (omega (arith, sizes, capacities)) means' in
      let valid : ltb inum w.fs.superblock.s_inodes_count ≡ true =
        ground (arith, get_inode-in v inum w.fs sb) in
      let stored = get_inode-write_inode v inum inum (record node { i_mode = mode }) w.fs sb fits in
      let wrote : (write_inode g inum (record node { i_mode = mode }) w.fs).0 ≡ true =
        stored.0 ∙ valid in
      let reads_back : get_inode g inum s1 ≡ some (record node { i_mode = mode }) =
        ground (arith, stored.1, valid) in
      let found : (inum == minus_one) ≡ false = ground arith in
      (
        w1,
        record w1 { cache = c' },
        simp (programs, ran, found, got, wrote),
        simp (programs, ran', found, reads_back),
        coherent2,
      )

  -- altfs_open with O_TRUNC of an existing file that its owner may write, with the permissions
  -- that the flags ask for, where altfs_truncate to 0 does not return -1: the inode on the disk
  -- afterwards is the one from before the truncation with `now` as its ctime and mtime, so that
  -- the size and the block numbers of the file are those from before. This where name_i finds the
  -- inode, the superblock has the counts of the build before the truncation and after it, and the
  -- values of the inode written fit their fields.
  pub altfs_open-o_trunc :
      (now oflag result : ℕ) (w1 w2 : World)
      → name_i g path w ≡ some (inum, w1)
      → inum ≢ minus_one
      → get_inode g inum w1.fs ≡ some node
      → lacks_permission oflag node.i_mode ≡ false
      → has_flag oflag o_trunc ≡ true
      → has_flag node.i_mode s_iwusr ≡ true
      → altfs_truncate g now path 0 w1 ≡ some (result, w2)
      → result ≢ minus_one
      → IsSuperblock g w1.fs.superblock
      → IsSuperblock g w2.fs.superblock
      → IsInode (record node { i_ctime = now; i_mtime = now })
      → (w3 : World) × (altfs_open g now path oflag w ≡ some (inum, w3))
        × (get_inode g inum w3.fs ≡ some (record node { i_ctime = now; i_mtime = now }))
  unfolding altfs_open open_inode with_times
  altfs_open-o_trunc now oflag result w1 w2 ran taken got allowed trunc writable cut good sb sb2
        fits =
      let found : (inum == minus_one) ≡ false = ground arith in
      let went_on : (result == minus_one) ≡ false = ground arith in
      let both : (has_flag oflag o_trunc && has_flag node.i_mode s_iwusr) ≡ true = ground arith in
      let valid : ltb inum w2.fs.superblock.s_inodes_count ≡ true =
        ground (arith, get_inode-in v inum w1.fs sb, sb.inodes, sb2.inodes) in
      let new : Inode = record node { i_ctime = now; i_mtime = now } in
      (
        record w2 { fs = (write_inode g inum new w2.fs).1 },
        simp (programs, ran, found, got, allowed, both, cut, went_on),
        ground (arith, get_inode-write_inode v inum inum new w2.fs sb2 fits, valid),
      )
