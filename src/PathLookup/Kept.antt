-- ===== src/PathLookup/Kept.antt =====
-- src/directory_ops.c: writing an inode back with another mode of the same file type, or another access
-- time, keeps what every path means.
use alt_file_system.Prelude.{
  ℕ, zero, suc, ◌+◌, ◌<◌, ◌≡◌, refl, ap, sym, ◌∙◌, inl, inr, Option, none, some, List, arith, ◌==◌,
  if◌then◌else◌, length, Option-cases, Bool-cases,
}
use alt_file_system.Bytes.{block_size}
use alt_file_system.Disk.{Geometry, Fs, put_block, set_disk, read_block}
use alt_file_system.Disk.Laws.{IsSound}
use alt_file_system.Superblock.Encoding.{IsSuperblock}
use alt_file_system.DataBlock.{is_bad_index, read_data_block}
use alt_file_system.Inode.{Inode}
use alt_file_system.Inode.Layout.{IsInode}
use alt_file_system.InodeOps.{get_inode, write_inode}
use alt_file_system.InodeOps.Table.{get_inode-in, write_inode-in, get_inode-write_inode}
use alt_file_system.BlockMap.{
  is_not_positive, lookup_single, lookup_double, lookup_triple, get_disk_block_from_inode_block,
}
use alt_file_system.PathName.{copy_file_name, copy_parent_path}
use alt_file_system.Directory.{s_isdir, find_record, find_in_blocks, get_file_position_in_dir}
use alt_file_system.PathLookup.{root_inode_num, is_root, find_child}
use alt_file_system.InodeCache.{Cache}
use alt_file_system.PathLookup.Cached.{IsCoherent}
use alt_file_system.PathLookup.Frame.{bind-cong, get_file_position-frame}
use alt_file_system.PathLookup.Reference.{child_of, lookup_within, lookup_path}

-- The inode with another mode and another access time.
abbrev pub touched : (mode atime : ℕ) → Inode → Inode
touched mode atime node = record node { i_mode = mode; i_atime = atime }

module _ (g : Geometry) (s : Fs) (node : Inode) (mode atime : ℕ) where
  get_disk_block-touched :
      (l prev : ℕ)
      → get_disk_block_from_inode_block g (touched mode atime node) l prev s
        ≡ get_disk_block_from_inode_block g node l prev s
  unfolding get_disk_block_from_inode_block lookup_single lookup_double lookup_triple
  get_disk_block-touched l prev = refl

  find_in_blocks-touched :
      (name : List ℕ) (n l prev : ℕ)
      → find_in_blocks g name (touched mode atime node) n l prev s
        ≡ find_in_blocks g name node n l prev s
  unfolding find_in_blocks
  find_in_blocks-touched name zero l prev = refl
  find_in_blocks-touched name (suc n) l prev =
      bind-cong _ _ _ _ (get_disk_block-touched l prev) (λ p.
        ap (λ x. if is_not_positive p.0 then some none else x)
          (bind-cong (read_data_block g p.0 s) _ _ _ refl (λ block.
            ap
              (λ rest. elim (find_record block_size name block 0) [
                | some pos ↦
                    some (some (record { p_block = block; p_plock_num = p.0; offset = pos }))
                | none ↦ rest
              ])
              (find_in_blocks-touched name n (l + 1) p.1))))

  get_file_position-touched :
      (name : List ℕ)
      → s_isdir mode ≡ s_isdir node.i_mode
      → get_file_position_in_dir g name (touched mode atime node) s
        ≡ get_file_position_in_dir g name node s
  unfolding get_file_position_in_dir
  get_file_position-touched name kind =
      rw (kind, find_in_blocks-touched name node.i_blocks_num 0 0) refl

module _ {g : Geometry} (v : IsSound g) (s : Fs) (sb : IsSuperblock g s.superblock) (inum : ℕ)
    (node : Inode) (got : get_inode g inum s ≡ some node) (mode atime : ℕ)
    (fits : IsInode (touched mode atime node)) (kind : s_isdir mode ≡ s_isdir node.i_mode) where
  inum_in_range : inum < s.superblock.s_inodes_count
  inum_in_range = ground (arith, get_inode-in v inum s sb)

  read_data_block-kept :
      (n : ℕ)
      → read_data_block g n (write_inode g inum (touched mode atime node) s).1
        ≡ read_data_block g n s
  unfolding read_data_block is_bad_index read_block put_block set_disk
  read_data_block-kept n =
      rw (write_inode-in v inum (touched mode atime node) s sb inum_in_range)
        (ground (arith, sb.inodes, inum_in_range))

  get_inode-kept :
      (j : ℕ)
      → get_inode g j (write_inode g inum (touched mode atime node) s).1
        ≡ (if inum == j then some (touched mode atime node) else get_inode g j s)
  get_inode-kept j =
      ground
        (arith, inum_in_range, get_inode-write_inode v inum j (touched mode atime node) s sb fits)

  get_file_position-kept :
      (name : List ℕ) (dir : Inode)
      → get_file_position_in_dir g name dir (write_inode g inum (touched mode atime node) s).1
        ≡ get_file_position_in_dir g name dir s
  get_file_position-kept name dir =
      get_file_position-frame g s (write_inode g inum (touched mode atime node) s).1
        read_data_block-kept name dir

  find_child-kept :
      (parent : ℕ) (path : List ℕ)
      → find_child g parent path (write_inode g inum (touched mode atime node) s).1
        ≡ find_child g parent path s
  unfolding find_child
  find_child-kept parent path = elim (Option-cases (copy_file_name path (length path))) [
    | inl unnamed ↦ simp (find_child, unnamed)
    | inr (name, named) ↦ elim (Bool-cases (inum == parent)) [
      | inl here ↦
          let e : inum ≡ parent = ground arith in
          let got_here : get_inode g parent s ≡ some node = rw (sym e) got in
          let now_there : get_inode g parent (write_inode g inum (touched mode atime node) s).1
              ≡ some (touched mode atime node) =
            get_inode-kept parent
            ∙ ap (λ b. if b then some (touched mode atime node) else get_inode g parent s) here in
          simp (
            find_child,
            named,
            now_there,
            got_here,
            get_file_position-kept name (touched mode atime node),
            get_file_position-touched g s node mode atime name kind,
          )
      | inr elsewhere ↦
          let as_before : get_inode g parent (write_inode g inum (touched mode atime node) s).1
              ≡ get_inode g parent s =
            get_inode-kept parent
            ∙ ap (λ b. if b then some (touched mode atime node) else get_inode g parent s)
                elsewhere in
          elim (Option-cases (get_inode g parent s)) [
            | inl none_there ↦
                let missing = as_before ∙ none_there in
                simp (find_child, named, missing, none_there)
            | inr (dir, there) ↦
                let found = as_before ∙ there in
                simp (find_child, named, found, there, get_file_position-kept name dir)
          ]
    ]
  ]

  child_of-kept :
      (parent : Option ℕ) (path : List ℕ)
      → child_of g parent path (write_inode g inum (touched mode atime node) s).1
        ≡ child_of g parent path s
  unfolding child_of
  child_of-kept none path = refl
  child_of-kept (some parent) path = rw (find_child-kept parent path) refl

  lookup_within-kept :
      (fuel : ℕ) (path : List ℕ)
      → lookup_within g fuel path (write_inode g inum (touched mode atime node) s).1
        ≡ lookup_within g fuel path s
  unfolding lookup_within
  lookup_within-kept zero path = refl
  lookup_within-kept (suc fuel) path = elim (Option-cases (copy_parent_path path (length path))) [
    | inl orphan ↦ rw orphan refl
    | inr (parent, up) ↦
        rw (up, lookup_within-kept fuel parent)
          (ap (λ o. if is_root path then some root_inode_num else o)
            (child_of-kept (lookup_within g fuel parent s) path))
  ]

  -- A write of a readable inode that changes at most its access time and its mode, not the file type,
  -- keeps what every path means. This for inodes whose values fit their fields, under a superblock with
  -- the counts of the build.
  pub lookup_path-kept :
      (path : List ℕ)
      → lookup_path g path (write_inode g inum (touched mode atime node) s).1 ≡ lookup_path g path s
  unfolding lookup_path
  lookup_path-kept path = lookup_within-kept (suc (length path)) path

  -- A cache that agreed with the directories goes on doing so.
  pub IsCoherent-kept :
      (c : Cache)
      → IsCoherent g s c
      → IsCoherent g (write_inode g inum (touched mode atime node) s).1 c
  IsCoherent-kept c coherent = record {
    rank = coherent.rank;
    linked = coherent.linked;
    allowed = λ p l. lookup_path-kept (c.key p) ∙ coherent.allowed p l;
  }
