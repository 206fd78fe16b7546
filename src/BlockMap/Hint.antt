-- ===== src/BlockMap/Hint.antt =====
-- src/inode_data_block_ops.c, overwrite_datablock_to_inode called with the hint of an earlier call.
use alt_file_system.Prelude.{
  ℕ, ◌-◌, ◌/◌, ◌%◌, ◌≤◌, ◌<◌, ◌≡◌, ◌≢◌, ◌∙◌, refl, ap, subst, inl, inr, true, some, arith,
  Bool-cases, Option-cases,
}
use alt_file_system.Bytes.{set_word}
use alt_file_system.Disk.{Geometry, Fs, put_block, set_disk}
use alt_file_system.Disk.Laws.{IsSound, put_block_self, put_block_ne, write_block-in}
use alt_file_system.DataBlock.{is_bad_index, write_data_block}
use alt_file_system.Inode.{Inode}
use alt_file_system.BlockMap.{entry, is_not_positive}
use alt_file_system.BlockMap.Locate.{double, locate, leaf_block, resolve}
use alt_file_system.BlockMap.Entry.{read_data_block-in, entry-put_block_ne}
use alt_file_system.BlockMap.Lookup.{HasRoots, locate-double}
use alt_file_system.BlockMap.Overwrite.Resolve.{overwrite-double}
use alt_file_system.BlockMap.Overwrite.{
  overwrite_hinted, overwrite_double, overwrite_datablock_to_inode,
}

module _ {g : Geometry} (w : IsSound g) (s : Fs) (node : Inode) (v : ℕ)
    (lo : g.inode_block_count < v) (hi : v < g.block_count) (prev : ℕ)
    (lower : g.inode_block_count < prev) (upper : prev < g.block_count) where
  -- The state after the call: the index block lies over the new data block.
  clobbered : (inner_idx : ℕ) → Fs
  clobbered inner_idx = set_disk s (put_block s.disk v (set_word (s.disk prev) inner_idx v))

  overwrite_hinted-in :
      (inner_idx : ℕ) → overwrite_hinted g inner_idx v prev s ≡ some (true, clobbered inner_idx)
  unfolding overwrite_hinted write_data_block is_bad_index clobbered
  overwrite_hinted-in inner_idx =
      rw
        (
          read_data_block-in w prev lower upper s,
          write_block-in w v (set_word (s.disk prev) inner_idx v) s hi,
        )
        (ground (arith, w.small))

  overwrite_double-hinted :
      (l : ℕ)
      → node.i_double_indirect ≢ 0
      → l % 512 ≢ 0
      → overwrite_double g node l v prev s ≡ some (true, prev, clobbered (l % 512))
  unfolding overwrite_double
  overwrite_double-hinted l root inner = ground (arith, overwrite_hinted-in (l % 512))

  -- What the call leaves of the map: a place whose last indirect block is the hint.
  clobbered-resolve :
      (inner_idx i j : ℕ)
      → leaf_block g s node (double i j) ≡ some prev
      → v ≢ prev
      → v ≢ node.i_double_indirect
      → resolve g (clobbered inner_idx) node (double i j) ≡ resolve g s node (double i j)
  unfolding resolve leaf_block clobbered
  clobbered-resolve inner_idx i j leaf ne apart =
      let block = set_word (s.disk prev) inner_idx v in
      let above = entry-put_block_ne g v node.i_double_indirect i block s apart in
      let below = entry-put_block_ne g v prev j block s ne in
      elim (Bool-cases (is_not_positive node.i_double_indirect)) [
        | inl bad ↦ rw bad refl
        | inr good ↦ elim (Option-cases (entry g node.i_double_indirect i s)) [
          | inl unread ↦ absurd (ground (arith, leaf))
          | inr (c, read) ↦
              let e : c ≡ prev = ground (arith, leaf) in
              let found : entry g node.i_double_indirect i s ≡ some prev = read ∙ ap some e in
              rw (good, above, found) (rw below refl)
        ]
      ]

  -- overwrite_datablock_to_inode below the double indirect block, with the hint `prev` and not on
  -- the first entry of a block, where the hint is the last indirect block above the logical block,
  -- and `v` is another data block than the hint and the double indirect block: it returns true,
  -- but the logical block resolves to what it did before and no block changes but the new data
  -- block `v`, whose contents are replaced by those of the indirect block, with `v` entered. This
  -- for `prev` and `v` numbers of data blocks, a logical block within i_blocks_num, and roots that
  -- are not negative.
  pub overwrite_hinted-clobbers :
      HasRoots node
      → (l : ℕ) → l ≤ node.i_blocks_num
      → 524 ≤ l
      → l < 262668
      → node.i_double_indirect ≢ 0
      → (l - 524) % 512 ≢ 0
      → leaf_block g s node (locate l) ≡ some prev
      → v ≢ prev
      → v ≢ node.i_double_indirect
      → (t : Fs) × (overwrite_datablock_to_inode g node l v prev s ≡ some (true, node, prev, t))
        × (resolve g t node (locate l) ≡ resolve g s node (locate l))
        × ((n : ℕ) → v ≢ n → t.disk n ≡ s.disk n)
        × (t.disk v ≡ set_word (s.disk prev) ((l - 524) % 512) v)
  unfolding clobbered set_disk
  overwrite_hinted-clobbers roots l inside p q root inner leaf ne apart = (
    clobbered ((l - 524) % 512),
    rw (overwrite-double w v lo hi s node roots v l prev inside p q)
        (rw (overwrite_double-hinted (l - 524) root inner) refl),
    rw (locate-double l p q) (
        clobbered-resolve ((l - 524) % 512) ((l - 524) / 512) ((l - 524) % 512)
          (subst (λ m. leaf_block g s node m ≡ some prev) (locate-double l p q) leaf) ne apart),
    (λ n other. put_block_ne s.disk v n _ other),
    put_block_self s.disk v _,
  )
