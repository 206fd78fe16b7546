-- ===== src/DataBlock/MakeFs.antt =====
-- altfs_makefs of src/superblock_layer.c: what a new file system looks like.
use alt_file_system.Prelude.{
  ℕ, zero, suc, ◌+◌, ◌*◌, ◌%◌, ◌≤◌, ◌≡◌, ◌≢◌, refl, sym, ap, subst, ◌∙◌, true, ◌&&◌, List, arith,
  ltb, leb, if◌then◌else◌,
}
use alt_file_system.Bytes.{zero_block}
use alt_file_system.Disk.{
  Geometry, Superblock, Fs, num_of_data_blocks, num_of_free_list_blocks, put_block, set_disk,
  set_superblock, alloc_memory,
}
use alt_file_system.Disk.Laws.{IsSound, write_block-in}
use alt_file_system.Superblock.{
  inodes_per_block, encode_superblock, write_superblock, create_superblock, create_ilist_from,
  create_ilist, create_freelist_from, create_freelist, format_disk, makefs, address_of,
}
use alt_file_system.Superblock.Encoding.{IsSuperblock}
use alt_file_system.DataBlock.FreeList.{Chain, free_count, IsFreeList}
use alt_file_system.DataBlock.Format.{Listed, heads, create_freelist_from-Listed}

-- A new file system: every data block is free and no other number is, the first inode to allocate is
-- 3, the superblock is on disk, and the inode blocks are zero.
pub record Formatted (g : Geometry) (t : Fs) (hs : List ℕ) : Type 0 where
  pub list : IsFreeList g t hs
  pub counts :
      (x : ℕ)
      → x ≢ 0
      → free_count t.disk hs x
        ≡ (if leb (g.inode_block_count + 1) x && ltb x g.block_count then 1 else 0)
  pub superblock : IsSuperblock g t.superblock
  pub first : t.superblock.s_first_ino ≡ 3
  pub stored : t.disk 0 ≡ encode_superblock t.superblock
  pub inodes : (y : ℕ) → 1 ≤ y → y ≤ g.inode_block_count → t.disk y ≡ zero_block

module _ {g : Geometry} (w : IsSound g) where
  create_ilist_from-zero :
      (n b : ℕ) (s : Fs)
      → b + n ≤ g.block_count
      → ((create_ilist_from g n b s).0 ≡ true)
        × ((create_ilist_from g n b s).1.superblock ≡ s.superblock)
        × ((y : ℕ)
            → (create_ilist_from g n b s).1.disk y
              ≡ (if leb b y && ltb y (b + n) then zero_block else s.disk y))
  unfolding create_ilist_from set_disk put_block
  create_ilist_from-zero zero b s h = (refl, refl, λ y. ground arith)
  create_ilist_from-zero (suc n) b s h =
      let s1 : Fs = set_disk s (put_block s.disk b zero_block) in
      let rest = create_ilist_from-zero n (b + 1) s1 (omega arith) in
      rw (write_block-in w b zero_block s (omega arith))
        (rest.0, rest.1 ∙ refl, λ y. rest.2 y ∙ ground arith)

  abbrev fresh_superblock : Superblock
  fresh_superblock = record {
    s_inodes_count = g.inode_block_count * inodes_per_block;
    s_first_ino = 3;
    s_freelist_head = g.inode_block_count + 1;
    s_num_of_inodes_per_block = inodes_per_block;
  }

  abbrev with_superblock : Fs → Fs
  with_superblock s =
      set_disk (set_superblock s fresh_superblock)
        (put_block s.disk 0 (encode_superblock fresh_superblock))

  create_superblock-fresh : (s : Fs) → create_superblock g s ≡ (true, with_superblock s)
  unfolding create_superblock write_superblock set_superblock
  create_superblock-fresh s =
      write_block-in w 0 (encode_superblock fresh_superblock) (set_superblock s fresh_superblock)
        (omega (arith, w.data_blocks))

  -- The disk after altfs_create_superblock and altfs_create_ilist.
  create_ilist-zero :
      (s : Fs)
      → let r = create_ilist g (with_superblock s) in
        (r.0 ≡ true)
        × (r.1.superblock ≡ fresh_superblock)
        × (r.1.disk 0 ≡ encode_superblock fresh_superblock)
        × ((y : ℕ) → 1 ≤ y → y ≤ g.inode_block_count → r.1.disk y ≡ zero_block)
  unfolding create_ilist set_disk set_superblock put_block
  create_ilist-zero s =
      let made =
        create_ilist_from-zero g.inode_block_count 1 (with_superblock s)
          (omega (arith, w.data_blocks)) in
      (made.0, made.1, made.2 0 ∙ ground arith, λ y lo hi. made.2 y ∙ ground arith)

  own_address : address_of g (g.inode_block_count + 1) ≡ g.inode_block_count + 1
  unfolding address_of
  own_address = ground (arith, w.data_blocks)

  Listed-Formatted :
      (n : ℕ) (s t : Fs)
      → s.superblock ≡ fresh_superblock
      → s.disk 0 ≡ encode_superblock fresh_superblock
      → ((y : ℕ) → 1 ≤ y → y ≤ g.inode_block_count → s.disk y ≡ zero_block)
      → Listed w n (g.inode_block_count + 1) s t
      → Formatted g t (heads w n (g.inode_block_count + 1))
  Listed-Formatted n s t sb stored inodes v =
      let same : t.superblock ≡ fresh_superblock = v.superblock ∙ sb in
      let head : address_of g (g.inode_block_count + 1) ≡ t.superblock.s_freelist_head =
        own_address ∙ sym (ap (λ u. u.s_freelist_head) same) in
      record {
        list = record {
          chain = subst (λ h. Chain t.disk h (heads w n (g.inode_block_count + 1))) head v.chain;
          once = λ x p. ground (arith, v.counts x p);
          in_range = λ x p q. ground (arith, v.counts x p);
        };
        counts = v.counts;
        superblock = rw same (omega (arith, w.small, w.data_blocks));
        first = ap (λ u. u.s_first_ino) same;
        stored = v.kept 0 (omega arith) ∙ stored ∙ ap encode_superblock (sym same);
        inodes = λ y lo hi. v.kept y (omega arith) ∙ inodes y lo hi;
      }

  create_freelist-Formatted :
      (s : Fs)
      → num_of_data_blocks g % 512 ≢ 0
      → s.superblock ≡ fresh_superblock
      → s.disk 0 ≡ encode_superblock fresh_superblock
      → ((y : ℕ) → 1 ≤ y → y ≤ g.inode_block_count → s.disk y ≡ zero_block)
      → ((create_freelist g s).0 ≡ true) × ((hs : List ℕ) × Formatted g (create_freelist g s).1 hs)
  unfolding create_freelist
  create_freelist-Formatted s odd sb stored inodes =
      let n : ℕ = num_of_free_list_blocks g in
      let m : ℕ = g.inode_block_count + 1 in
      let made =
        create_freelist_from-Listed w n m s (omega arith) (omega (arith, w.data_blocks))
          (omega (arith, w.data_blocks, odd)) in
      subst
        (λ h.
          ((create_freelist_from g n h s).0 ≡ true)
          × ((hs : List ℕ) × Formatted g (create_freelist_from g n h s).1 hs))
        (sym (ap (λ u. u.s_freelist_head) sb))
        (made.0, (heads w n m, Listed-Formatted n s _ sb stored inodes made.1))

  pub format_disk-Formatted :
      (s : Fs)
      → num_of_data_blocks g % 512 ≢ 0
      → ((format_disk g s).0 ≡ true) × ((hs : List ℕ) × Formatted g (format_disk g s).1 hs)
  unfolding format_disk
  format_disk-Formatted s odd =
      let made = create_ilist-zero s in
      let s2 : Fs = (create_ilist g (with_superblock s)).1 in
      let list = create_freelist-Formatted s2 odd made.1 made.2 made.3 in
      rw (create_superblock-fresh s, made.0, list.0) (refl, list.1)

  -- altfs_makefs, when calloc succeeds and the number of data blocks is no multiple of 512, returns
  -- true whatever the state was, and leaves a new file system: exactly the blocks behind the inode
  -- blocks are free, each once, on a well-formed list; the superblock is stored in block 0, and the
  -- inode blocks are zero.
  pub makefs-Formatted :
      (s : Fs)
      → num_of_data_blocks g % 512 ≢ 0
      → ((makefs g true s).0 ≡ true) × ((hs : List ℕ) × Formatted g (makefs g true s).1 hs)
  unfolding makefs alloc_memory
  makefs-Formatted s odd = format_disk-Formatted (set_disk s (λ _. zero_block)) odd
