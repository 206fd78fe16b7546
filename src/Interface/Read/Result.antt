-- ===== src/Interface/Read/Result.antt =====
-- src/interface_layer.c: what altfs_read returns.
use alt_file_system.Prelude.{
  ℕ, ◌+◌, ◌-◌, ◌^◌, ◌≤◌, ◌<◌, ◌≡◌, ◌≢◌, false, min, ◌||◌, some, List, arith, leb, ◌==◌, length,
}
use alt_file_system.Bytes.{word_mod}
use alt_file_system.Disk.{Geometry, minus_one, is_negative}
use alt_file_system.Inode.{Inode}
use alt_file_system.InodeOps.{get_inode, write_inode}
use alt_file_system.InodeCache.{Cache}
use alt_file_system.World.{World, programs}
use alt_file_system.PathLookup.Cached.{IsCoherent, name_i-lookup_path}
use alt_file_system.PathLookup.Reference.{lookup_path}
use alt_file_system.Interface.Read.{Buffer, memzero, clip, read_file, altfs_read}
use alt_file_system.Interface.Read.Contents.{HasContents}
use alt_file_system.Interface.Read.Range.{Filled, read_range-Filled}

clip-min :
    (nbytes offset size : ℕ)
    → offset < size
    → offset + nbytes < word_mod
    → clip nbytes offset size ≡ min nbytes (size - offset)
unfolding clip
clip-min nbytes offset size inside no_wrap = ground arith

module _ (g : Geometry) (now inum : ℕ) (node : Inode) (path : List ℕ) (w : World)
    (coherent : IsCoherent g w.fs w.cache)
    (room : w.cache.size + length path ≤ w.cache.capacity) where
  -- altfs_read of a file.
  pub altfs_read-Filled :
      (contents buff : Buffer) (nbytes offset : ℕ)
      → lookup_path g path w.fs ≡ some inum
      → inum ≢ minus_one
      → get_inode g inum w.fs ≡ some node
      → HasContents g w.fs node node.i_file_size contents
      → node.i_file_size < 2 ^ 63
      → offset < node.i_file_size
      → 0 < nbytes
      → offset + nbytes < 2 ^ 64
      → (after : Buffer) × (c : Cache) × (altfs_read g now path buff nbytes offset w
          ≡ some (
            (min nbytes (node.i_file_size - offset), after),
            record { fs = (write_inode g inum (record node { i_atime = now }) w.fs).1; cache = c },
          ))
        × Filled contents offset
            (min nbytes (node.i_file_size - offset))
            (memzero buff 0 nbytes)
            after
        × IsCoherent g w.fs c
  unfolding altfs_read read_file
  altfs_read-Filled contents buff nbytes offset means present got h small inside pos no_wrap =
      let (c, ran, coherent', sizes, capacities) =
        name_i-lookup_path g path w inum coherent room means in
      let (after, read, filled) =
        read_range-Filled g w.fs node node.i_file_size contents h offset
          (min nbytes (node.i_file_size - offset)) (ground arith) (ground arith)
          (memzero buff 0 nbytes) small in
      let clipped = clip-min nbytes offset node.i_file_size inside no_wrap in
      let asked : (nbytes == 0) ≡ false = ground arith in
      let signed : is_negative offset ≡ false = ground arith in
      let found : (inum == minus_one) ≡ false = ground arith in
      let nonempty : (node.i_file_size == 0) ≡ false = ground arith in
      let starts : (is_negative node.i_file_size || leb node.i_file_size offset) ≡ false =
        ground arith in
      (
        after,
        c,
        simp (programs, asked, signed, ran, found, got, nonempty, starts, clipped, read),
        filled,
        coherent',
      )
