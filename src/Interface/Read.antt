-- ===== src/Interface/Read.antt =====
-- src/interface_layer.c: altfs_read. The caller's buffer is a function from offsets to bytes.
pub mod Contents
pub mod Range
pub mod Result
use alt_file_system.Prelude.{
  ℕ, zero, suc, ◌+◌, ◌-◌, ◌/◌, ◌%◌, Bool, not, ◌&&◌, ◌||◌, Option, none, some, List, ltb, leb, ◌==◌,
  if◌then◌else◌,
}
use alt_file_system.Bytes.{block_size, word_mod}
use alt_file_system.Disk.{Geometry, Fs, minus_one, is_negative}
use alt_file_system.DataBlock.{read_data_block}
use alt_file_system.Inode.{Inode}
use alt_file_system.InodeOps.{get_inode, write_inode}
use alt_file_system.BlockMap.{get_disk_block_from_inode_block, is_not_positive}
use alt_file_system.PathLookup.{name_i}
use alt_file_system.Interface.{negated, enoent, einval, eoverflow}
use alt_file_system.World.{Prog, pure, ◌>>=◌, reads, reads_or_faults, require, runs}
use alt_file_system.BlockMap

abbrev pub Buffer : Type 0
Buffer = ℕ → ℕ

-- memcpy(dst + d, src + o, n)
unfoldable pub memcpy : Buffer → (d : ℕ) → (src : Buffer) → (o n : ℕ) → Buffer
memcpy dst d src o n p = if leb d p && ltb p (d + n) then src (o + (p - d)) else dst p

-- memset(dst + d, 0, n)
unfoldable pub memzero : Buffer → (d n : ℕ) → Buffer
memzero dst d n p = if leb d p && ltb p (d + n) then 0 else dst p

-- What the loop reads of one block: its offset there, and how many bytes.
unfoldable pub piece_start : (i start_block_offset : ℕ) → ℕ
piece_start i start_block_offset = if i == 0 then start_block_offset else 0

unfoldable pub piece_length : (i blocks_to_read start_block_offset end_block_offset : ℕ) → ℕ
piece_length i blocks_to_read start_block_offset end_block_offset =
    if i == 0
    then block_size - start_block_offset
    else if i + 1 == blocks_to_read
    then end_block_offset + 1
    else block_size

-- nbytes, less where the range goes past the end of the file.
unfoldable pub clip : (nbytes offset i_file_size : ℕ) → ℕ
clip nbytes offset size = if ltb size ((offset + nbytes) % word_mod) then size - offset else nbytes

module _ (g : Geometry) where
  -- The block behind a logical block, and the hint for the next; `some none` is the result -1.
  unfoldable pub fetch : Inode → (logical prev : ℕ) → Fs → Option (Option (Buffer × ℕ))
  fetch node logical prev s = elim (get_disk_block_from_inode_block g node logical prev s) [
    | none ↦ none
    | some (dblock_num, next) ↦
        if is_not_positive dblock_num then some none else elim (read_data_block g dblock_num s) [
          | none ↦ some none
          | some buf_read ↦ some (some (buf_read, next))
        ]
  ]

  -- The loop over the blocks, `n` left from block i on, for the blocks_to_read from `start` on:
  -- bytes_read, or `none` for the result -1, and the buffer.
  unfoldable pub read_blocks :
      Inode
      → (start blocks_to_read start_block_offset end_block_offset : ℕ) → (n i prev bytes_read : ℕ)
      → Buffer
      → Fs
      → Option (Option ℕ × Buffer)
  unfolding fetch piece_start piece_length memcpy
  read_blocks node start blocks s_off e_off zero i prev bytes_read buff s =
      some (some bytes_read, buff)
  read_blocks node start blocks s_off e_off (suc n) i prev bytes_read buff s =
      let rest : (next : ℕ) → ℕ → Buffer → Option (Option ℕ × Buffer) = λ next bytes_read' buff'.
        read_blocks node start blocks s_off e_off n (i + 1) next bytes_read' buff' s in
      let len = piece_length i blocks s_off e_off in
      elim (fetch node (start + i) prev s) [
        | none ↦ none
        | some none ↦ some (none, buff)
        | some (some (buf_read, next)) ↦
            rest next (bytes_read + len) (memcpy buff bytes_read buf_read (piece_start i s_off) len)
      ]

  -- The reading of `nbytes` bytes from `offset` on, which the file has.
  unfoldable pub read_range : Inode → (nbytes offset : ℕ) → Buffer → Fs → Option (Option ℕ × Buffer)
  unfolding read_blocks
  read_range node nbytes offset buff s =
      let start = offset / block_size in
      let s_off = offset % block_size in
      let last = (offset + nbytes + minus_one) % word_mod in
      let blocks = last / block_size + 1 - start in
      if blocks == 1
      then elim (fetch node start 0 s) [
        | none ↦ none
        | some none ↦ some (none, buff)
        | some (some (buf_read, next)) ↦ some (some nbytes, memcpy buff 0 buf_read s_off nbytes)
      ]
      else read_blocks node start blocks s_off (last % block_size) blocks 0 0 0 buff s

  -- altfs_read once the inode is read, with the buffer set to zeros.
  unfoldable pub read_file :
      (now inum : ℕ) → Inode → Buffer → (nbytes offset : ℕ) → Prog (ℕ × Buffer)
  read_file now inum node zeroed nbytes offset =
      if node.i_file_size == 0
      then pure (0, zeroed)
      else if is_negative node.i_file_size || leb node.i_file_size offset
      then pure (negated eoverflow, zeroed)
      else (do
        (result, filled) ←
            reads_or_faults (read_range node (clip nbytes offset node.i_file_size) offset zeroed)
        elim result [
          | none ↦ pure (minus_one, filled)
          | some bytes_read ↦ (do
            written ← runs (write_inode g inum (record node { i_atime = now }))
            pure (bytes_read, filled))
        ])

  -- The result, and *buff.
  unfoldable pub altfs_read : (now : ℕ) → List ℕ → Buffer → (nbytes offset : ℕ) → Prog (ℕ × Buffer)
  unfolding memzero
  altfs_read now path buff nbytes offset =
      let zeroed = memzero buff 0 nbytes in
      if nbytes == 0
      then pure (0, buff)
      else if is_negative offset
      then pure (negated einval, buff)
      else (do
        inum ← name_i g path
        if inum == minus_one then pure (negated enoent, zeroed) else (do
          found ← reads (get_inode g inum)
          node ← require found
          read_file now inum node zeroed nbytes offset))
