-- ===== src/Interface/Truncate/Reopened.antt =====
-- src/interface_layer.c, altfs_open with O_TRUNC of a file with direct blocks: the inode and the free list
-- afterwards.
use alt_file_system.Prelude.{
  ℕ, ◌+◌, ◌^◌, ◌≤◌, ◌<◌, ◌≡◌, ◌≢◌, true, false, ◌&&◌, some, List, arith, ltb, ◌==◌, length,
}
use alt_file_system.Disk.{Geometry, minus_one}
use alt_file_system.Disk.Laws.{IsSound}
use alt_file_system.Inode.{Inode}
use alt_file_system.Inode.Layout.{IsInode}
use alt_file_system.InodeOps.{get_inode, write_inode}
use alt_file_system.InodeOps.Table.{get_inode-write_inode}
use alt_file_system.BlockMap.Remove.Direct.{Returned}
use alt_file_system.World.{World, programs}
use alt_file_system.PathLookup.Cached.{IsCoherent, name_i-lookup_path}
use alt_file_system.PathLookup.Reference.{lookup_path}
use alt_file_system.Interface.{has_flag, s_iwusr}
use alt_file_system.Interface.Truncate.{o_trunc, lacks_permission, open_inode, altfs_open}
use alt_file_system.Interface.Truncate.Emptied.{
  IsDirectFile, valid, altfs_truncate-EmptiedFile, write_inode-Returned,
}

-- altfs_open with O_TRUNC, with the permissions, of a path that names a file whose blocks are
-- direct blocks, data blocks that are not free and no two the same, with a well-formed free list
-- that is not empty: it returns the inode number; the inode on the disk is the one from before
-- with `now` as its ctime and mtime, so that the file has its old size and names its old blocks;
-- but the free list, which is well formed, has gained exactly these blocks. This where the file
-- has at least one byte, fewer than 2^63, and at least one block, its owner may write it, the
-- cache agreed with the directories and has room for twice the length of the path, the values of
-- the inode before and after fit their fields, and the superblock has the counts of the build.
pub altfs_open-Returned :
    {g : Geometry} (w : IsSound g) (now inum oflag : ℕ) (path : List ℕ) (node : Inode) (hs : List ℕ)
    (v : World)
    → IsCoherent g v.fs v.cache
    → v.cache.size + (length path + length path) ≤ v.cache.capacity
    → lookup_path g path v.fs ≡ some inum
    → inum ≢ minus_one
    → IsDirectFile g inum node v.fs hs
    → lacks_permission oflag node.i_mode ≡ false
    → has_flag oflag o_trunc ≡ true
    → has_flag node.i_mode s_iwusr ≡ true
    → 0 < node.i_file_size
    → node.i_file_size < 2 ^ 63
    → IsInode (record node { i_ctime = now; i_mtime = now })
    → (v' : World) × (altfs_open g now path oflag v ≡ some (inum, v'))
      × (get_inode g inum v'.fs ≡ some (record node { i_ctime = now; i_mtime = now }))
      × ((free : List ℕ) × Returned g v.fs hs node.i_direct_blocks node.i_blocks_num 0 v'.fs free)
unfolding altfs_open open_inode alt_file_system.Interface.with_times
altfs_open-Returned {g} w now inum oflag path node hs v coherent room means taken f allowed trunc
      writable filled small fits =
    let (c, ran, coherent', sizes, capacities) =
      name_i-lookup_path g path v inum coherent (omega arith) means in
    let v1 : World = record v { cache = c } in
    let (v2, cut, e) =
      altfs_truncate-EmptiedFile w now inum path node hs v1 coherent'
        (omega (arith, sizes, capacities)) means taken f writable filled small in
    let new : Inode = record node { i_ctime = now; i_mtime = now } in
    let found : (inum == minus_one) ≡ false = ground arith in
    let both : (has_flag oflag o_trunc && has_flag node.i_mode s_iwusr) ≡ true = ground arith in
    let inside : inum < v2.fs.superblock.s_inodes_count =
      omega (arith, valid w inum node v.fs hs f, e.counts.inodes, f.counts.inodes) in
    let in_table : ltb inum v2.fs.superblock.s_inodes_count ≡ true = ground arith in
    (
      record v2 { fs = (write_inode g inum new v2.fs).1 },
      simp (programs, ran, found, f.found, allowed, both, cut),
      ground (arith, get_inode-write_inode w inum inum new v2.fs e.counts fits, in_table),
      (
        e.free,
        write_inode-Returned w inum new v.fs v2.fs hs node.i_direct_blocks e.free node.i_blocks_num
            0 e.counts inside e.gained,
      ),
    )
