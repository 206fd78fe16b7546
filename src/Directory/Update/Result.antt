-- ===== src/Directory/Update/Result.antt =====
-- src/directory_ops.c, add_directory_entry on a whole directory with direct blocks, on all its branches.
use alt_file_system.Prelude.{
  ℕ, ◌≤◌, ◌<◌, ◌≡◌, ◌⊎◌, refl, sym, subst, inl, inr, Bool, true, false, Option, none, some, List,
  arith, ltb, length,
}
use alt_file_system.Bytes.{word_mod}
use alt_file_system.Disk.{Geometry, Fs, minus_one}
use alt_file_system.Disk.Laws.{IsSound}
use alt_file_system.DataBlock.{allocate_data_block}
use alt_file_system.DataBlock.FreeList.{free_count, IsFreeList}
use alt_file_system.DataBlock.Allocate.{NoneFree, allocate_data_block-Allocated}
use alt_file_system.Inode.{Inode}
use alt_file_system.BlockMap.Direct.{direct_at}
use alt_file_system.Directory.{
  max_file_name_length, add_in_new_block, add_in_blocks, add_directory_entry,
}
use alt_file_system.Directory.Entries.{DirBlock, entries, assoc}
use alt_file_system.Directory.Update.{IsSmallDirectory}
use alt_file_system.Directory.Update.Enter.{LoopEnds, add_in_blocks-LoopEnds}
use alt_file_system.Directory.Update.Room.{Entered, HasRoom-Entered}
use alt_file_system.Directory.Update.Extend.{extended-Entered, add_in_new_block-extended}

-- The addition succeeded, or there was no free block.
abbrev Ends :
    Geometry
    → Fs
    → Inode
    → ℕ
    → List ℕ
    → List DirBlock
    → List ℕ
    → Option (Bool × Inode × Fs)
    → Type 0
Ends g s node inum name bs hs result =
    ((dir' : Inode) × (t : Fs) × (result ≡ some (true, dir', t))
      × Entered g node inum name bs dir' t)
    ⊎ (NoneFree s hs × (result ≡ some (false, node, s)))

module _ {g : Geometry} (sound : IsSound g) (s : Fs) (node : Inode) (bs : List DirBlock) (inum : ℕ)
    (name : List ℕ) (dir : IsSmallDirectory g s node bs) (absent : assoc name (entries bs) ≡ none)
    (short : length name ≤ max_file_name_length) (small : inum < word_mod) (hs : List ℕ)
    (v : IsFreeList g s hs)
    (own : (l : ℕ) → l < node.i_blocks_num → free_count s.disk hs (direct_at node l) ≡ 0)
    (one_more : node.i_blocks_num < 12) (twelve : length node.i_direct_blocks ≡ 12) where
  add_in_new_block_full :
      allocate_data_block g s ≡ (minus_one, s)
      → add_in_new_block g node inum name s ≡ some (false, node, s)
  unfolding add_in_new_block
  add_in_new_block_full e = rw e refl

  add_in_new_block-Ends : Ends g s node inum name bs hs (add_in_new_block g node inum name s)
  add_in_new_block-Ends = elim (allocate_data_block-Allocated sound s hs v) [
    | inl (full, e) ↦ inr (full, add_in_new_block_full e)
    | inr (ks, al) ↦ inl (
      _,
      _,
      add_in_new_block-extended sound s node bs inum name dir absent short small hs v own one_more
          twelve (allocate_data_block g s).0 (allocate_data_block g s).1 ks al refl,
      extended-Entered sound s node bs inum name dir absent short small hs v own one_more twelve
          (allocate_data_block g s).0 (allocate_data_block g s).1 ks al,
    )
  ]

  loop-Ends :
      (result : Option (Bool × Inode × Fs))
      → LoopEnds sound s node dir.blocks inum name bs result
      → Ends g s node inum name bs hs result
  loop-Ends result (inl (r, e)) =
      inl (_, _, e, HasRoom-Entered sound s node bs inum name dir absent short small r)
  loop-Ends result (inr e) = subst (Ends g s node inum name bs hs) (sym e) add_in_new_block-Ends

  -- add_directory_entry, in a directory with fewer than 12 data blocks, all direct and not free, that
  -- has no entry of the name, on a well-formed free list and for a name of at most 255 bytes: either
  -- it returns true, the blocks of the directory then have the new entry and give every other name the
  -- inode number that they gave it, in a block that had room or in a new one, and the inode has one
  -- child more; or no data block is free, and it returns false and changes nothing.
  pub add_directory_entry-Entered :
      ((dir' : Inode) × (t : Fs) × (add_directory_entry g node inum name s ≡ some (true, dir', t))
        × Entered g node inum name bs dir' t)
      ⊎ (NoneFree s hs × (add_directory_entry g node inum name s ≡ some (false, node, s)))
  unfolding add_directory_entry
  add_directory_entry-Entered =
      let fits : ltb max_file_name_length (length name) ≡ false = ground (arith, short) in
      let ends = loop-Ends _ (
        add_in_blocks-LoopEnds sound s node dir.blocks inum name bs 0 0 dir.stored
          (omega (arith, dir.count))) in
      let all : Ends g s node inum name bs hs
          (add_in_blocks g node inum name node.i_blocks_num 0 0 s) =
        subst (λ n. Ends g s node inum name bs hs (add_in_blocks g node inum name n 0 0 s))
          (sym dir.count) ends in
      rw (dir.kind, fits) all
