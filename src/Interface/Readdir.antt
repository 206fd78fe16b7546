-- ===== src/Interface/Readdir.antt =====
-- src/interface_layer.c: altfs_readdir. The calls of `filler` are kept as the list of what they are
-- given; their result is not used.
pub mod Listing
pub mod Result
use alt_file_system.Prelude.{
  ℕ, zero, suc, ◌+◌, ◌-◌, ◌%◌, not, Option, none, some, List, [], ◌∷◌, ◌++◌, leb, ◌==◌,
  if◌then◌else◌,
}
use alt_file_system.Bytes.{Block, block_size, load}
use alt_file_system.Disk.{Geometry, Fs, minus_one}
use alt_file_system.DataBlock.{read_data_block}
use alt_file_system.Inode.{Inode}
use alt_file_system.InodeOps.{get_inode}
use alt_file_system.BlockMap.{get_disk_block_from_inode_block}
use alt_file_system.Directory.{record_fixed_len, last_possible_record, s_isdir}
use alt_file_system.PathLookup.{name_i}
use alt_file_system.Interface.{Stat, zero_stat, inode_to_stat, negated, enoent, enotdir}
use alt_file_system.World.{Prog, pure, ◌>>=◌, reads, reads_or_faults, require}

-- A call of filler: the bytes of file_name, with the NUL that ends the name, and *stbuff.
abbrev pub FillerCall : Type 0
FillerCall = List ℕ × Stat

-- memcpy(file_name, block + pos, n)
unfoldable pub bytes_at : (n : ℕ) → Block → (pos : ℕ) → List ℕ
bytes_at zero b pos = []
bytes_at (suc n) b pos = b pos ∷ bytes_at n b (pos + 1)

-- rec_len - RECORD_FIXED_LEN, as unsigned short
unfoldable pub name_length : (rec_len : ℕ) → ℕ
name_length rec_len = (rec_len + (65536 - record_fixed_len)) % 65536

module _ (g : Geometry) where
  -- The record at `offset`.
  unfoldable pub filled_at : Block → (offset : ℕ) → Fs → Option FillerCall
  filled_at b offset s =
      let file_inum = load 8 b (offset + 2) in
      elim (get_inode g file_inum s) [
        | none ↦ none
        | some file_inode ↦ some (
          bytes_at (name_length (load 2 b offset)) b (offset + record_fixed_len),
          record (inode_to_stat file_inode zero_stat) { st_ino = file_inum },
        )
      ]

  -- The loop over the records of a block; a rec_len is at least 1 where the loop goes on.
  unfoldable pub fill_records : (fuel : ℕ) → Block → (offset : ℕ) → Fs → Option (List FillerCall)
  unfolding filled_at
  fill_records zero b offset s = some []
  fill_records (suc fuel) b offset s =
      let rest = fill_records fuel b (offset + load 2 b offset) s in
      if leb last_possible_record offset
      then some []
      else if load 2 b offset == 0
      then some []
      else elim (filled_at b offset s) [
        | none ↦ none
        | some entry ↦ elim rest [ none ↦ none | some entries ↦ some (entry ∷ entries) ]
      ]

  -- The loop over the `n` logical blocks from `l` on.
  unfoldable pub fill_blocks : Inode → (n l prev : ℕ) → Fs → Option (List FillerCall)
  unfolding fill_records
  fill_blocks node zero l prev s = some []
  fill_blocks node (suc n) l prev s =
      let rest : ℕ → Option (List FillerCall) = λ next. fill_blocks node n (l + 1) next s in
      let block : ℕ → Option (List FillerCall) = λ dblock_num.
        elim (read_data_block g dblock_num s) [
          | none ↦ none
          | some dblock ↦ fill_records block_size dblock 0 s
        ] in
      elim (get_disk_block_from_inode_block g node l prev s) [
        | none ↦ none
        | some (dblock_num, next) ↦ elim (block dblock_num) [
          | none ↦ none
          | some entries ↦ elim (rest next) [ none ↦ none | some others ↦ some (entries ++ others) ]
        ]
      ]

  unfoldable pub altfs_readdir : List ℕ → Prog (ℕ × List FillerCall)
  unfolding fill_blocks
  altfs_readdir path = do
    inum ← name_i g path
    if inum == minus_one then pure (negated enoent, []) else (do
      found ← reads (get_inode g inum)
      node ← require found
      if not (s_isdir node.i_mode) then pure (negated enotdir, []) else (do
        entries ← reads_or_faults (fill_blocks node node.i_blocks_num 0 0)
        pure (0, entries)))
