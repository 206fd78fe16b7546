-- ===== src/PathLookup/Root.antt =====
-- altfs_init of src/interface_layer.c, that is setup_filesystem of src/directory_ops.c, on a new file
-- system.
use alt_file_system.Prelude.{
  ℕ, zero, suc, ◌<◌, ◌≡◌, ◌≢◌, refl, ◌∙◌, sym, subst, true, some, List, [], ◌∷◌, arith, ltb, get_or,
}
use alt_file_system.Bytes.{word_mod}
use alt_file_system.Disk.{Geometry, Fs, put_block, set_disk, set_superblock}
use alt_file_system.Disk.Laws.{IsSound, put_block_self, put_block_ne}
use alt_file_system.Superblock.{load_superblock}
use alt_file_system.Superblock.Encoding.{IsSuperblock, load_superblock_of_block}
use alt_file_system.DataBlock.{allocate_data_block}
use alt_file_system.DataBlock.FreeList.{free_count-cons, IsFreeList}
use alt_file_system.DataBlock.Allocate.{Allocated}
use alt_file_system.DataBlock.MakeFs.{Formatted}
use alt_file_system.DataBlock.Kept.{SameCounts, allocate_data_block-SameCounts}
use alt_file_system.Inode.{Inode, set_inode}
use alt_file_system.Inode.Layout.{IsInode, get_or-zeros}
use alt_file_system.InodeOps.{cleared_inode, get_inode, write_inode}
use alt_file_system.InodeOps.Table.{write_inode-in, get_inode-write_inode}
use alt_file_system.Directory.Records.{end_of}
use alt_file_system.Directory.Append.{Holds, Holds-put_record}
use alt_file_system.Directory.Update.{IsSmallDirectory}
use alt_file_system.Directory.Update.Extend.{alone-Holds}
use alt_file_system.InodeCache.{Cache, create_inode_cache}
use alt_file_system.World.{programs}
use alt_file_system.PathLookup.{root_inode_num, cache_capacity, setup_filesystem, create_root}
use alt_file_system.PathLookup.Setup.{
  dot, dots, get_inode-new, new_root-first, third_root, with_dot, with_dots, dot_block, dots_block,
  add_dot, add_dots, second-HasDirectBlocks,
}

-- The root directory is there, with its two entries and no other.
pub record Rooted (g : Geometry) (s : Fs) : Type 0 where
  pub node : Inode
  pub number : ℕ
  pub got : get_inode g root_inode_num s ≡ some node
  pub holds :
      IsSmallDirectory g s node ((number, (root_inode_num, dot) ∷ (root_inode_num, dots) ∷ []) ∷ [])
  pub allocated : node.i_allocated ≡ true
  pub children : node.i_child_num ≡ 2

head_small :
    {g : Geometry} (w : IsSound g) (s : Fs) (ks : List ℕ)
    → IsFreeList g s ks
    → s.superblock.s_freelist_head < word_mod
head_small w s [] v = omega (arith, v.chain)
head_small w s (k ∷ ks) v = omega (
  arith,
  v.chain.0,
  v.in_range k v.chain.1 (rw (free_count-cons s.disk k ks k) (ground arith)),
  w.small,
)

module _ {g : Geometry} (w : IsSound g) (t : Fs) (hs : List ℕ) (made : Formatted g t hs) (now : ℕ)
    (small : now < word_mod) (a : ℕ) (s1 : Fs) (ks : List ℕ) (al : Allocated g t hs a s1 ks)
    (took : allocate_data_block g t ≡ (a, s1)) where
  kept-IsSuperblock : IsSuperblock g s1.superblock
  kept-IsSuperblock =
      let same : SameCounts s1.superblock t.superblock =
        subst (λ r. SameCounts r.1.superblock t.superblock) took
          (allocate_data_block-SameCounts g t) in
      record {
        inodes = same.inodes ∙ made.superblock.inodes;
        per_block = same.per_block ∙ made.superblock.per_block;
        first = omega (arith, same.first, made.superblock.first);
        head = head_small w s1 ks al.list;
      }

  root_numbers :
      (k : ℕ) → get_or (third_root w t hs made now a s1 ks al took).i_direct_blocks k 0 < word_mod
  root_numbers zero = omega (arith, al.upper, w.small)
  root_numbers (suc k) = omega (arith, get_or-zeros 11 k)

  third-IsInode : IsInode (third_root w t hs made now a s1 ks al took)
  third-IsInode = record {
    mode = omega arith;
    uid = omega arith;
    gid = omega arith;
    status = small;
    atime = small;
    ctime = small;
    mtime = small;
    links = omega arith;
    size = omega arith;
    blocks = omega arith;
    direct = root_numbers;
    count = refl;
    single = omega arith;
    double = omega arith;
    triple = omega arith;
    child = omega arith;
  }

  -- The file system with the root directory.
  abbrev rooted : Fs
  rooted =
      let s2 : Fs = with_dots w t hs made now a s1 ks al took in
      set_disk s2
        (put_block s2.disk 1 (set_inode (s2.disk 1) 2 (third_root w t hs made now a s1 ks al took)))

  counted : 2 < s1.superblock.s_inodes_count
  counted = omega (arith, kept-IsSuperblock.inodes, w.inode_blocks)

  write_root :
      write_inode g 2
        (third_root w t hs made now a s1 ks al took)
        (with_dots w t hs made now a s1 ks al took)
      ≡ (true, rooted)
  unfolding set_disk
  write_root =
      write_inode-in w 2 (third_root w t hs made now a s1 ks al took)
        (with_dots w t hs made now a s1 ks al took) kept-IsSuperblock counted

  get_root : get_inode g 2 rooted ≡ some (third_root w t hs made now a s1 ks al took)
  unfolding set_disk
  get_root =
      let s2 : Fs = with_dots w t hs made now a s1 ks al took in
      let back =
        (get_inode-write_inode w 2 2 (third_root w t hs made now a s1 ks al took) s2
          kept-IsSuperblock third-IsInode).1 in
      let lt : ltb 2 s1.superblock.s_inodes_count ≡ true = ground (arith, counted) in
      subst (λ r. get_inode g 2 r.1 ≡ some (third_root w t hs made now a s1 ks al took)) write_root
        (back ∙ rw lt refl)

  root-Holds : Holds 0 ((2, dot) ∷ (2, dots) ∷ []) (rooted.disk a)
  unfolding set_disk end_of
  root-Holds =
      let s2 : Fs = with_dots w t hs made now a s1 ks al took in
      let ne : 1 ≢ a = λ e. absurd (omega (arith, e, al.lower, w.inode_blocks)) in
      let kept : rooted.disk a ≡ dots_block w t hs made now a s1 ks al took =
        put_block_ne s2.disk 1 a _ ne
        ∙ put_block_self (with_dot w t hs made now a s1 ks al took).disk a _ in
      subst (Holds 0 ((2, dot) ∷ (2, dots) ∷ [])) (sym kept) (
        Holds-put_record 0 ((2, dot) ∷ []) (dot_block w t hs made now a s1 ks al took) 2 dots
          (alone-Holds 2 dot (omega arith) (omega arith)) (omega arith) (omega arith))

  pub rooted-Rooted : Rooted g rooted
  rooted-Rooted =
      let direct = second-HasDirectBlocks w t hs made now a s1 ks al took in
      record {
        node = third_root w t hs made now a s1 ks al took;
        number = a;
        got = get_root;
        holds = record {
          roots = record {
            single_root = omega arith;
            double_root = omega arith;
            triple_root = omega arith;
          };
          kind = refl;
          count = refl;
          blocks = record {
            few = direct.few;
            above = direct.above;
            below = direct.below;
            apart = direct.apart;
          };
          stored = (refl, root-Holds, tt);
        };
        allocated = refl;
        children = refl;
      }

  create_root-Rooted :
      (c : Cache)
      → create_root g now cleared_inode (record { fs = t; cache = c })
        ≡ some (true, record { fs = rooted; cache = c })
  unfolding create_root
  create_root-Rooted c =
      let first = add_dot w t hs made now a s1 ks al took in
      let second = add_dots w t hs made now a s1 ks al took in
      simp (programs, new_root-first w t hs made now, first, second, write_root)

  loaded_again : load_superblock g t ≡ (true, t)
  unfolding set_superblock
  loaded_again = load_superblock_of_block w t.superblock t made.superblock made.stored

  pub setup_filesystem_runs :
      (c : Cache)
      → setup_filesystem g now (record { fs = t; cache = c })
        ≡ some (true, record { fs = rooted; cache = create_inode_cache cache_capacity })
  unfolding setup_filesystem
  setup_filesystem_runs c =
      let root = get_inode-new w t hs made now in
      simp (programs, loaded_again, root, create_root-Rooted (create_inode_cache cache_capacity))
