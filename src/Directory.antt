-- ===== src/Directory.antt =====
-- src/directory_ops.c: the records of a directory. A data block of a directory holds them one after the
-- other, each as its length (2 bytes), the inode number (8 bytes) and the name with its NUL; a length of
-- 0 ends them. A name is its bytes without the NUL. The result `none` of a function is the dereference
-- of the NULL that read_data_block returned.
pub mod Records
pub mod Append
pub mod Remove
pub mod Entries
pub mod Find
pub mod Update
use mathlib.Core.Option
use alt_file_system.Prelude.{
  ◌>>=◌, ℕ, zero, suc, ◌+◌, ◌-◌, ◌*◌, ◌/◌, ◌%◌, Bool, true, false, not, ◌&&◌, Option, none, some,
  List, [], ◌∷◌, ltb, leb, ◌==◌, if◌then◌else◌, length,
}
use alt_file_system.Bytes.{Block, block_size, word_mod, zero_block, set_byte, load, store}
use alt_file_system.Disk.{Geometry, Fs, minus_one}
use alt_file_system.DataBlock.{allocate_data_block, read_data_block, write_data_block}
use alt_file_system.Inode.{Inode}
use alt_file_system.BlockMap.{get_disk_block_from_inode_block, is_not_positive}
use alt_file_system.BlockMap.Add.{add_datablock_to_inode}

abbrev pub max_file_name_length : ℕ
max_file_name_length = 255

abbrev pub record_fixed_len : ℕ
record_fixed_len = 10

abbrev pub last_possible_record : ℕ
last_possible_record = block_size - record_fixed_len

-- S_ISDIR of sys/stat.h: the file type bits are those of a directory.
abbrev pub s_isdir : ℕ → Bool
s_isdir mode = mode / 4096 % 16 == 4

-- strncmp(block + p, name, strlen(name)) == 0
unfoldable pub bytes_match : List ℕ → Block → ℕ → Bool
bytes_match [] b p = true
bytes_match (c ∷ cs) b p = b p == c && bytes_match cs b (p + 1)

-- The test of the record at `pos` for a file name; (unsigned short)(record_len - 11) wraps.
unfoldable pub is_record_of : List ℕ → Block → ℕ → Bool
unfolding bytes_match
is_record_of name b pos =
    (load 2 b pos + (65536 - (record_fixed_len + 1))) % 65536 == length name
    && bytes_match name b (pos + record_fixed_len)

-- The loop over the records of a block; a record_len is at least 1 where the loop goes on, so fuel
-- for the positions left is enough.
unfoldable pub find_record : (fuel : ℕ) → List ℕ → Block → ℕ → Option ℕ
unfolding is_record_of
find_record zero name b pos = none
find_record (suc fuel) name b pos =
    let rest = find_record fuel name b (pos + load 2 b pos) in
    if ltb last_possible_record pos
    then none
    else if load 2 b pos == 0
    then none
    else if is_record_of name b pos
    then some pos
    else rest

-- The loop that looks for room: the end of the records, if the name with its NUL fits behind.
unfoldable pub find_space : (fuel : ℕ) → (file_name_len : ℕ) → Block → ℕ → Option ℕ
find_space zero file_name_len b pos = none
find_space (suc fuel) file_name_len b pos =
    let rest = find_space fuel file_name_len b (pos + load 2 b pos) in
    if ltb last_possible_record pos
    then none
    else if load 2 b pos == 0
    then (if leb file_name_len (block_size - pos - record_fixed_len) then some pos else none)
    else rest

-- strncpy of a name and its NUL
unfoldable pub put_name : List ℕ → Block → ℕ → Block
put_name [] b p = set_byte b p 0
put_name (c ∷ cs) b p = set_byte (put_name cs b (p + 1)) p c

-- A record is written at `pos`.
unfoldable pub put_record : Block → (pos child_inum : ℕ) → List ℕ → Block
unfolding put_name
put_record b pos child_inum name =
    put_name name
      (store 8 (store 2 b pos (record_fixed_len + (length name + 1))) (pos + 2) child_inum)
      (pos + record_fixed_len)

-- The block without the record at `offset`: what follows moves up, and zeros fill the end.
unfoldable pub cut_record : Block → (offset : ℕ) → Block
cut_record b offset o =
    let rec_len = load 2 b offset in
    if ltb o offset then b o else if ltb (o + rec_len) block_size then b (o + rec_len) else 0

-- struct fileposition, where a record was found
pub record FilePosition : Type 0 where
  pub p_block : Block
  pub p_plock_num : ℕ
  pub offset : ℕ

module _ (g : Geometry) where
  -- The loop over the `n` logical blocks from `l` on; `some none` is an offset of -1.
  unfoldable pub find_in_blocks :
      List ℕ → Inode → (n l prev : ℕ) → Fs → Option (Option FilePosition)
  find_in_blocks name node zero l prev s = some none
  find_in_blocks name node (suc n) l prev s = do
    (p_block_num, next) ← get_disk_block_from_inode_block g node l prev s
    if is_not_positive p_block_num then some none else (do
      block ← read_data_block g p_block_num s
      elim (find_record block_size name block 0) [
        | some pos ↦
            some (some (record { p_block = block; p_plock_num = p_block_num; offset = pos }))
        | none ↦ find_in_blocks name node n (l + 1) next s
      ])

  unfoldable pub get_file_position_in_dir : List ℕ → Inode → Fs → Option (Option FilePosition)
  unfolding find_in_blocks
  get_file_position_in_dir name parent s =
      if not (s_isdir parent.i_mode)
      then some none
      else if ltb max_file_name_length (length name)
      then some none
      else find_in_blocks name parent parent.i_blocks_num 0 0 s

  -- The end of add_directory_entry: the record starts a new data block.
  unfoldable pub add_in_new_block :
      Inode → (child_inum : ℕ) → List ℕ → Fs → Option (Bool × Inode × Fs)
  add_in_new_block dir child_inum name s =
      let (a, s1) = allocate_data_block g s in
      let (written, s2) = write_data_block g a (put_record zero_block 0 child_inum name) s1 in
      if is_not_positive a
      then some (false, dir, s1)
      else if not written
      then some (false, dir, s2)
      else (do
        (added, dir', s3) ← add_datablock_to_inode g dir a s2
        some (
            if added
            then (
              true,
              record dir' {
                i_file_size = dir'.i_file_size + block_size;
                i_child_num = dir'.i_child_num + 1;
              },
              s3,
            )
            else (false, dir', s3)))

  -- The loop of add_directory_entry over the `n` logical blocks from `l` on.
  unfoldable pub add_in_blocks :
      Inode → (child_inum : ℕ) → List ℕ → (n l prev : ℕ) → Fs → Option (Bool × Inode × Fs)
  unfolding add_in_new_block
  add_in_blocks dir child_inum name zero l prev s = add_in_new_block dir child_inum name s
  add_in_blocks dir child_inum name (suc n) l prev s = do
    (p_block_num, next) ← get_disk_block_from_inode_block g dir l prev s
    if is_not_positive p_block_num then some (false, dir, s) else (do
      dblock ← read_data_block g p_block_num s
      elim (find_space block_size (length name + 1) dblock 0) [
        | some pos ↦
            let (written, s1) =
              write_data_block g p_block_num (put_record dblock pos child_inum name) s in
            some (
              if written
              then (true, record dir { i_child_num = dir.i_child_num + 1 }, s1)
              else (false, dir, s1))
        | none ↦ add_in_blocks dir child_inum name n (l + 1) next s
      ])

  unfoldable pub add_directory_entry :
      Inode → (child_inum : ℕ) → List ℕ → Fs → Option (Bool × Inode × Fs)
  unfolding add_in_blocks
  add_directory_entry dir child_inum name s =
      if not (s_isdir dir.i_mode)
      then some (false, dir, s)
      else if ltb max_file_name_length (length name)
      then some (false, dir, s)
      else add_in_blocks dir child_inum name dir.i_blocks_num 0 0 s

  -- `now` is time(NULL).
  unfoldable pub remove_directory_entry :
      (now : ℕ) → Inode → List ℕ → Fs → Option (Bool × Inode × Fs)
  unfolding get_file_position_in_dir
  remove_directory_entry now dir name s = do
    found ← get_file_position_in_dir name dir s
    elim found [
      | none ↦ some (false, dir, s)
      | some pos ↦ some (
        true,
        record dir {
          i_ctime = now;
          i_mtime = now;
          i_child_num = (dir.i_child_num + minus_one) % word_mod;
        },
        (write_data_block g pos.p_plock_num (cut_record pos.p_block pos.offset) s).1,
      )
    ]
