-- ===== src/Interface/Write.antt =====
-- src/interface_layer.c: altfs_write.
pub mod Bounds
pub mod InPlace
pub mod Overwrite
pub mod Result
use alt_file_system.Prelude.{
  ℕ, zero, suc, ◌+◌, ◌-◌, ◌/◌, ◌%◌, Bool, true, false, not, ◌&&◌, ◌||◌, Option, none, some, List,
  ltb, leb, ◌==◌, if◌then◌else◌,
}
use alt_file_system.Bytes.{Block, block_size, word_mod, zero_block}
use alt_file_system.Disk.{Geometry, Fs, minus_one, is_negative}
use alt_file_system.DataBlock.{allocate_data_block, read_data_block, write_data_block}
use alt_file_system.Inode.{Inode}
use alt_file_system.InodeOps.{get_inode, write_inode}
use alt_file_system.BlockMap.{get_disk_block_from_inode_block, is_not_positive}
use alt_file_system.BlockMap.Add.{add_datablock_to_inode}
use alt_file_system.PathLookup.{name_i}
use alt_file_system.Interface.{negated, enoent, einval}
use alt_file_system.Interface.Read.{Buffer, memcpy}
use alt_file_system.World.{Prog, pure, ◌>>=◌, reads, require, runs, runs_or_faults}

-- How the first loop ends: the function returns, or goes on.
pub data Progress : Type 0 where
  returned : (result : ℕ) → Progress
  written_so_far : (bytes_written : ℕ) → Progress

-- (bytes_written == 0) ? -1 : bytes_written
unfoldable pub partial_result : ℕ → ℕ
partial_result bytes_written = if bytes_written == 0 then minus_one else bytes_written

-- to_write, in the first block
unfoldable pub first_piece : (start_block_offset nbytes : ℕ) → ℕ
first_piece s_off nbytes =
    if ltb block_size ((s_off + nbytes) % word_mod) then block_size - s_off else nbytes

-- How many bytes the first loop writes to block i, and the block afterwards from what it was.
unfoldable pub bytes_into : (i start last s_off e_off nbytes : ℕ) → ℕ
unfolding first_piece
bytes_into i start last s_off e_off nbytes =
    if i == start then first_piece s_off nbytes else if i == last then e_off + 1 else block_size

unfoldable pub overwritten :
    Buffer → (i start last s_off e_off nbytes bytes_written : ℕ) → Block → Block
unfolding bytes_into memcpy
overwritten buff i start last s_off e_off nbytes bytes_written block =
    memcpy block (if i == start then s_off else 0) buff (if i == start then 0 else bytes_written)
      (bytes_into i start last s_off e_off nbytes)

-- The new block i of the second loop, and how many bytes of the buffer it takes.
unfoldable pub new_bytes : (i starting_block new_blocks s_off e_off nbytes : ℕ) → ℕ
unfolding first_piece
new_bytes i starting_block new_blocks s_off e_off nbytes =
    if leb 1 starting_block && i == starting_block
    then first_piece s_off nbytes
    else if i == new_blocks
    then e_off + 1
    else if leb starting_block i
    then block_size
    else 0

unfoldable pub new_block :
    Buffer → (i starting_block new_blocks s_off e_off nbytes bytes_written : ℕ) → Block
unfolding new_bytes memcpy zero_block
new_block buff i starting_block new_blocks s_off e_off nbytes bytes_written =
    let first = leb 1 starting_block && i == starting_block in
    memcpy zero_block (if first then s_off else 0) buff (if first then 0 else bytes_written)
      (new_bytes i starting_block new_blocks s_off e_off nbytes)

-- i_file_size after a write; bytes_to_add is compared as ssize_t.
unfoldable pub grown_size : (offset bytes_written i_file_size : ℕ) → ℕ
grown_size offset bytes_written size =
    let bytes_to_add = (offset + bytes_written + (word_mod - size)) % word_mod in
    if is_not_positive bytes_to_add then size else (size + bytes_to_add) % word_mod

-- The end of a round of the first loop, with what the next rounds would give.
unfoldable pub after_piece :
    (i last total : ℕ) → (written : Bool) → Fs → Option (Progress × Fs) → Option (Progress × Fs)
unfolding partial_result
after_piece i last total written t rest =
    if not written
    then some (returned (partial_result total), t)
    else if i == last
    then some (written_so_far total, t)
    else rest

-- The inode that altfs_write writes.
unfoldable pub written_inode : (now offset bytes_written : ℕ) → Inode → Inode
unfolding grown_size
written_inode now offset bytes_written node =
    let sized = record node { i_file_size = grown_size offset bytes_written node.i_file_size } in
    if ltb 0 bytes_written
    then record sized { i_mtime = now; i_status_change_time = now }
    else sized

module _ (g : Geometry) where
  -- The loop over the blocks that the file has, `n` left from block i on.
  unfoldable pub write_allocated :
      Inode
      → Buffer
      → (start last s_off e_off nbytes : ℕ) → (n i prev bytes_written : ℕ) → Fs
      → Option (Progress × Fs)
  unfolding partial_result bytes_into overwritten after_piece
  write_allocated node buff start last s_off e_off nbytes zero i prev bytes_written s =
      some (written_so_far bytes_written, s)
  write_allocated node buff start last s_off e_off nbytes (suc n) i prev bytes_written s =
      let rest : (next : ℕ) → ℕ → Fs → Option (Progress × Fs) = λ next total t.
        write_allocated node buff start last s_off e_off nbytes n (i + 1) next total t in
      let total = bytes_written + bytes_into i start last s_off e_off nbytes in
      let store_block : (dblock_num next : ℕ) → Block → Option (Progress × Fs) =
        λ dblock_num next old.
          let (written, t) =
            write_data_block g dblock_num
              (overwritten buff i start last s_off e_off nbytes bytes_written old) s in
          after_piece i last total written t (rest next total t) in
      elim (get_disk_block_from_inode_block g node i prev s) [
        | none ↦ none
        | some (dblock_num, next) ↦
            if is_not_positive dblock_num
            then some (returned (partial_result bytes_written), s)
            else if not (i == start) && not (i == last)
            then store_block dblock_num next zero_block
            else elim (read_data_block g dblock_num s) [
              | none ↦ some (returned (partial_result bytes_written), s)
              | some old ↦ store_block dblock_num next old
            ]
      ]

  -- The loop over the blocks to add, `n` left from the i-th on: the inode and bytes_written.
  unfoldable pub write_added :
      Buffer
      → (starting_block new_blocks s_off e_off nbytes : ℕ) → (n i bytes_written : ℕ) → Inode
      → Fs
      → Option ((Inode × ℕ) × Fs)
  write_added buff starting_block new_blocks s_off e_off nbytes zero i bytes_written node s =
      some ((node, bytes_written), s)
  write_added buff starting_block new_blocks s_off e_off nbytes (suc n) i bytes_written node s =
      let rest : ℕ → Inode → Fs → Option ((Inode × ℕ) × Fs) = λ total node' t.
        write_added buff starting_block new_blocks s_off e_off nbytes n (i + 1) total node' t in
      let total = bytes_written + new_bytes i starting_block new_blocks s_off e_off nbytes in
      let block = new_block buff i starting_block new_blocks s_off e_off nbytes bytes_written in
      let (new_block_num, s1) = allocate_data_block g s in
      if is_not_positive new_block_num
      then some ((node, bytes_written), s1)
      else elim (add_datablock_to_inode g node new_block_num s1) [
        | none ↦ none
        | some (added, node1, s2) ↦
            let (written, s3) = write_data_block g new_block_num block s2 in
            if not added
            then some ((node1, bytes_written), s2)
            else if not (leb starting_block i)
            then rest total node1 s2
            else if written
            then rest total node1 s3
            else some ((node1, total), s3)
      ]

  -- altfs_write from the second loop on.
  unfoldable pub extend_file :
      (now inum : ℕ) → Inode → Buffer → (nbytes offset bytes_written : ℕ) → Prog ℕ
  unfolding write_added written_inode
  extend_file now inum node buff nbytes offset bytes_written =
      let last = (offset + nbytes + minus_one) % word_mod in
      let new_blocks = last / block_size + 1 - node.i_blocks_num in
      let starting_block = offset / block_size + 1 - node.i_blocks_num in
      do
        (node1, total) ← runs_or_faults (
            write_added buff starting_block new_blocks (offset % block_size) (last % block_size)
              nbytes new_blocks 1 bytes_written node)
        written ← runs (write_inode g inum (written_inode now offset total node1))
        if written then pure total else pure minus_one

  -- altfs_write once the inode is read.
  unfoldable pub write_file : (now inum : ℕ) → Inode → Buffer → (nbytes offset : ℕ) → Prog ℕ
  write_file now inum node buff nbytes offset =
      let start = offset / block_size in
      let last = (offset + nbytes + minus_one) % word_mod in
      do
        progress ← runs_or_faults (
            write_allocated node buff start (last / block_size) (offset % block_size)
              (last % block_size) nbytes (node.i_blocks_num - start) start 0 0)
        elim progress [
          | returned result ↦ pure result
          | written_so_far bytes_written ↦
              extend_file now inum node buff nbytes offset bytes_written
        ]

  unfoldable pub altfs_write : (now : ℕ) → List ℕ → Buffer → (nbytes offset : ℕ) → Prog ℕ
  altfs_write now path buff nbytes offset =
      if nbytes == 0 then pure 0 else if is_negative offset then pure (negated einval) else (do
        inum ← name_i g path
        if inum == minus_one then pure (negated enoent) else (do
          found ← reads (get_inode g inum)
          node ← require found
          write_file now inum node buff nbytes offset))
