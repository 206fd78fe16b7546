-- ===== src/PathLookup/Setup.antt =====
-- setup_filesystem of src/directory_ops.c on a new file system: the root directory.
use alt_file_system.Prelude.{ℕ, ◌<◌, ◌≡◌, refl, ◌∙◌, ap, true, some, List, [], ◌∷◌, arith, ltb}
use alt_file_system.Bytes.{Block, block_size, zero_block, load}
use alt_file_system.Disk.{Geometry, Fs, put_block, set_disk}
use alt_file_system.Disk.Laws.{IsSound, put_block_self}
use alt_file_system.DataBlock.{allocate_data_block}
use alt_file_system.DataBlock.FreeList.{free_count}
use alt_file_system.DataBlock.Allocate.{Allocated}
use alt_file_system.DataBlock.MakeFs.{Formatted}
use alt_file_system.Inode.{Inode, inode_at}
use alt_file_system.InodeOps.{cleared_inode, get_inode}
use alt_file_system.InodeOps.Table.{inode_of, get_inode-in}
use alt_file_system.BlockMap.Direct.{
  direct_at, HasDirectBlocks, direct_lookup, direct_positive, direct_read, direct_write,
}
use alt_file_system.Directory.{put_record, add_directory_entry}
use alt_file_system.Directory.Records.{end_of, find_space-end_of}
use alt_file_system.Directory.Append.{Holds}
use alt_file_system.Directory.Entries.{assoc}
use alt_file_system.Directory.Update.{IsSmallDirectory}
use alt_file_system.Directory.Update.Enter.{add_in_blocks_end, add_in_blocks-round}
use alt_file_system.Directory.Update.Extend.{
  alone-Holds, extended-HasDirectBlocks, add_in_new_block-extended,
}
use alt_file_system.PathLookup.{root_inode_num, directory_mode, new_root}

abbrev pub dot : List ℕ
dot = b'.' ∷ []

abbrev pub dots : List ℕ
dots = b'.' ∷ b'.' ∷ []

inode_at-zero_block : inode_at zero_block 2 ≡ cleared_inode
unfolding inode_at load zero_block
inode_at-zero_block = refl

module _ {g : Geometry} (w : IsSound g) (t : Fs) (hs : List ℕ) (made : Formatted g t hs)
    (now : ℕ) where
  -- The inode that the root directory is made of.
  pub get_inode-new : get_inode g root_inode_num t ≡ some cleared_inode
  unfolding inode_of
  get_inode-new =
      let counted : ltb 2 t.superblock.s_inodes_count ≡ true =
        ground (arith, made.superblock.inodes, w.inode_blocks) in
      get_inode-in w 2 t made.superblock
      ∙ rw counted (
          ap (λ b. some (inode_at b 2))
            (made.inodes 1 (omega arith) (omega (arith, w.inode_blocks)))
          ∙ ap some inode_at-zero_block)

  abbrev pub first_root : Inode
  first_root = record cleared_inode {
    i_allocated = true;
    i_links_count = 1;
    i_mode = directory_mode;
    i_atime = now;
    i_ctime = now;
    i_mtime = now;
    i_status_change_time = now;
  }

  pub new_root-first : new_root g now cleared_inode ≡ first_root
  unfolding new_root
  new_root-first = refl

  empty-IsSmallDirectory : IsSmallDirectory g t first_root []
  empty-IsSmallDirectory = record {
    roots = record {
      single_root = omega arith;
      double_root = omega arith;
      triple_root = omega arith;
    };
    kind = refl;
    count = refl;
    blocks = record {
      few = omega arith;
      above = λ l h. absurd (omega (arith, h));
      below = λ l h. absurd (omega (arith, h));
      apart = λ l k p q e. absurd (omega (arith, p));
    };
    stored = tt;
  }

  module _ (a : ℕ) (s1 : Fs) (ks : List ℕ) (al : Allocated g t hs a s1 ks)
      (took : allocate_data_block g t ≡ (a, s1)) where
    -- The root with the entry of the root itself, in its first block.
    abbrev pub second_root : Inode
    second_root = record first_root {
      i_direct_blocks = a ∷ 0 ∷ 0 ∷ 0 ∷ 0 ∷ 0 ∷ 0 ∷ 0 ∷ 0 ∷ 0 ∷ 0 ∷ 0 ∷ [];
      i_blocks_num = 1;
      i_file_size = 4096;
      i_child_num = 1;
    }

    abbrev pub dot_block : Block
    dot_block = put_record zero_block 0 2 dot

    abbrev pub with_dot : Fs
    with_dot = set_disk s1 (put_block s1.disk a dot_block)

    not_owned : (l : ℕ) → l < 0 → free_count t.disk hs (direct_at first_root l) ≡ 0
    not_owned l h = absurd (omega (arith, h))

    pub add_dot : add_directory_entry g first_root 2 dot t ≡ some (true, second_root, with_dot)
    unfolding add_directory_entry assoc
    add_dot =
        add_in_blocks_end g t first_root 2 dot 0 0
        ∙ add_in_new_block-extended w t first_root [] 2 dot empty-IsSmallDirectory refl
            (omega arith) (omega arith) hs made.list not_owned (omega arith) refl a s1 ks al took

    pub second-HasDirectBlocks : HasDirectBlocks g second_root
    unfolding assoc
    second-HasDirectBlocks =
        extended-HasDirectBlocks w t first_root [] 2 dot empty-IsSmallDirectory refl (omega arith)
          (omega arith) hs made.list not_owned (omega arith) refl a s1 ks al

    -- The root with both entries.
    abbrev pub third_root : Inode
    third_root = record second_root { i_child_num = 2 }

    abbrev pub dots_block : Block
    dots_block = put_record dot_block 12 2 dots

    abbrev pub with_dots : Fs
    with_dots = set_disk with_dot (put_block with_dot.disk a dots_block)

    pub add_dots :
        add_directory_entry g second_root 2 dots with_dot ≡ some (true, third_root, with_dots)
    unfolding add_directory_entry end_of set_disk
    add_dots =
        let at : with_dot.disk a ≡ dot_block = put_block_self s1.disk a dot_block in
        let held : Holds 0 ((2, dot) ∷ []) dot_block =
          alone-Holds 2 dot (omega arith) (omega arith) in
        let searched =
          find_space-end_of block_size 0 3 ((2, dot) ∷ []) dot_block held.layout (omega arith)
            (omega arith) in
        add_in_blocks-round g with_dot second_root 2 dots 0 0 0 a 0 dot_block
          (direct_lookup w second-HasDirectBlocks 0 (omega arith) with_dot 0)
          (direct_positive w second-HasDirectBlocks 0 (omega arith) with_dot)
          (direct_read w second-HasDirectBlocks 0 (omega arith) with_dot ∙ ap some at)
        ∙ rw searched
            (rw (direct_write w second-HasDirectBlocks 0 (omega arith) with_dot dots_block) refl)
