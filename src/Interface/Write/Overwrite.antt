-- ===== src/Interface/Write/Overwrite.antt =====
-- src/interface_layer.c, altfs_write within the direct blocks of a file: its bytes afterwards.
use alt_file_system.Prelude.{
  ℕ, ◌+◌, ◌-◌, ◌*◌, ◌/◌, ◌%◌, ◌^◌, ◌≤◌, ◌<◌, ◌≡◌, ◌≢◌, ◌∙◌, refl, true, false, some, List, arith,
  ltb, ◌==◌, if◌then◌else◌, Bool-cases, inl, inr,
}
use alt_file_system.Bytes.{block_size, word_mod}
use alt_file_system.Disk.{Geometry, Fs, minus_one, is_negative, put_block, set_disk}
use alt_file_system.Disk.Laws.{IsSound}
use alt_file_system.Superblock.Encoding.{IsSuperblock}
use alt_file_system.Inode.{Inode}
use alt_file_system.Inode.Layout.{IsInode}
use alt_file_system.InodeOps.{get_inode, write_inode}
use alt_file_system.InodeOps.Table.{get_inode-in, write_inode-in, get_inode-write_inode}
use alt_file_system.PathLookup.{name_i}
use alt_file_system.World.{World, programs}
use alt_file_system.Interface.Read.{Buffer}
use alt_file_system.Interface.Write.{
  written_inode, grown_size, write_added, extend_file, write_file, altfs_write,
}
use alt_file_system.Interface.Write.Bounds.{last_block}
use alt_file_system.Interface.Write.InPlace.{written_byte, loop_written}
use alt_file_system.BlockMap.Direct.{direct_at, HasDirectBlocks}

-- The inode after a write that ends at the byte `last_end`: the larger of the two sizes, and two new times.
abbrev pub inode_after : (now last_end : ℕ) → Inode → Inode
inode_after now last_end node = record node {
  i_file_size = if ltb node.i_file_size last_end then last_end else node.i_file_size;
  i_mtime = now;
  i_status_change_time = now;
}

written_inode-inode_after :
    (now offset nbytes : ℕ) (node : Inode)
    → 0 < nbytes
    → offset + nbytes < 2 ^ 63
    → node.i_file_size < 2 ^ 63
    → written_inode now offset nbytes node ≡ inode_after now (offset + nbytes) node
unfolding written_inode grown_size
written_inode-inode_after now offset nbytes node pos small old =
    elim (Bool-cases (ltb node.i_file_size (offset + nbytes))) [
      | inl grows ↦
          let size : grown_size offset nbytes node.i_file_size ≡ offset + nbytes =
            ground (arith, grows) in
          let some_bytes : ltb 0 nbytes ≡ true = ground arith in rw (some_bytes, size, grows) refl
      | inr kept ↦
          let size : grown_size offset nbytes node.i_file_size ≡ node.i_file_size =
            ground (arith, kept) in
          let some_bytes : ltb 0 nbytes ≡ true = ground arith in rw (some_bytes, size, kept) refl
    ]

module _ {g : Geometry} (v : IsSound g) (now inum : ℕ) (path : List ℕ) (node : Inode)
    (buff : Buffer) (nbytes offset : ℕ) where
  -- altfs_write of at least one byte within the blocks of a file that has direct blocks only, no two of them the same,
  -- returns the number of bytes asked for; afterwards every byte of these blocks is that of the buffer
  -- where it lies in the range written, and as before elsewhere, and the inode reads back with the
  -- time `now` as its mtime and status change time, with the end of the write as its size where that
  -- is larger than the old size, and else as it was. This where name_i finds the inode, its size was
  -- below 2^63, its new values fit their fields, and the superblock has the counts of the build.
  pub altfs_write-written_byte :
      (w w1 : World) (l o : ℕ)
      → name_i g path w ≡ some (inum, w1)
      → inum ≢ minus_one
      → get_inode g inum w1.fs ≡ some node
      → IsSuperblock g w1.fs.superblock
      → node.i_file_size < 2 ^ 63
      → IsInode (inode_after now (offset + nbytes) node)
      → HasDirectBlocks g node
      → 0 < nbytes
      → offset + nbytes ≤ block_size * node.i_blocks_num
      → l < node.i_blocks_num
      → o < block_size
      → (w2 : World) × (altfs_write g now path buff nbytes offset w ≡ some (nbytes, w2))
        × (w2.fs.disk (direct_at node l) o
            ≡ written_byte buff offset nbytes
                (block_size * l + o)
                (w1.fs.disk (direct_at node l) o))
        × (get_inode g inum w2.fs ≡ some (inode_after now (offset + nbytes) node))
  unfolding altfs_write write_file extend_file write_added set_disk put_block
  altfs_write-written_byte w w1 l o ran taken got sb old fits direct pos inside l_inside o_inside =
      let small : offset + nbytes < 2 ^ 63 = omega (arith, direct.few) in
      let new = written_inode-inode_after now offset nbytes node pos small old in
      let covers : last_block offset nbytes < node.i_blocks_num = omega arith in
      let (t, looped, sb_kept, byte) =
        loop_written offset nbytes pos small g node buff v direct l o l_inside o_inside covers
          (node.i_blocks_num - offset / block_size) (offset / block_size) 0 0 w1.fs (omega arith)
          (omega arith) (omega arith) (ground arith) in
      let sb_t : IsSuperblock g t.superblock = rw sb_kept sb in
      let valid : inum < t.superblock.s_inodes_count =
        ground (arith, get_inode-in v inum w1.fs sb, sb_kept) in
      let stored = write_inode-in v inum (inode_after now (offset + nbytes) node) t sb_t valid in
      let asked : (nbytes == 0) ≡ false = ground arith in
      let signed : is_negative offset ≡ false = ground arith in
      let found : (inum == minus_one) ≡ false = ground arith in
      let last_eq : (offset + nbytes + minus_one) % word_mod ≡ offset + nbytes - 1 = omega arith in
      let none_left : last_block offset nbytes + 1 - node.i_blocks_num ≡ 0 = omega arith in
      let s2 : Fs = (write_inode g inum (inode_after now (offset + nbytes) node) t).1 in
      let kept : s2.disk (direct_at node l) o ≡ t.disk (direct_at node l) o =
        rw stored (ground (arith, direct.above l l_inside, sb_t.inodes)) in
      let reached : t.disk (direct_at node l) o
          ≡ written_byte buff offset nbytes (block_size * l + o) (w1.fs.disk (direct_at node l) o) =
        ground (arith, byte) in
      (
        record { fs = s2; cache = w1.cache },
        simp (programs, asked, signed, ran, found, got, last_eq, looped, none_left, new, stored),
        kept ∙ reached,
        ground (
          arith,
          valid,
          get_inode-write_inode v inum inum (inode_after now (offset + nbytes) node) t sb_t fits,
        ),
      )
