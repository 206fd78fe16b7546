-- ===== src/BlockMap/Overwrite/Resolve.antt =====
-- src/inode_data_block_ops.c, overwrite_datablock_to_inode without a hint: what it does to the map from
-- logical blocks to data blocks.
use alt_file_system.Prelude.{
  ◌>>=◌, ℕ, ◌-◌, ◌*◌, ◌/◌, ◌%◌, ◌≤◌, ◌<◌, ◌≡◌, ◌≢◌, refl, true, ◌&&◌, some, arith, ◌==◌,
  if◌then◌else◌, ◌∙◌, subst,
}
use alt_file_system.Bytes.{word_mod}
use alt_file_system.Disk.{Geometry, Fs}
use alt_file_system.Disk.Laws.{IsSound}
use alt_file_system.Inode.{Inode}
use alt_file_system.BlockMap.Locate.{
  Place, direct, single, double, triple, locate, leaf_block, resolve,
}
use alt_file_system.BlockMap.Lookup.{
  HasRoots, in_inode, below_single, below_double, below_triple, range, locate-direct, locate-single,
  locate-double, locate-triple,
}
use alt_file_system.BlockMap.Overwrite.{
  overwrite_single, overwrite_double, overwrite_triple, overwrite_datablock_to_inode,
}
use alt_file_system.BlockMap.Entry.{put_entry, set_entry-in}
use alt_file_system.BlockMap.Replace.{word_index, is_block, NotAbove, resolve-put_entry}

module _ {g : Geometry} (w : IsSound g) (b : ℕ) (lo : g.inode_block_count < b)
    (hi : b < g.block_count) where
  module _ (s : Fs) (node : Inode) (roots : HasRoots node) (v : ℕ) where
    overwrite_single-in :
        (i : ℕ)
        → leaf_block g s node (single i) ≡ some b
        → overwrite_single g node i v s ≡ some (true, put_entry s b i v)
    unfolding overwrite_single leaf_block
    overwrite_single-in i leaf = ground (arith, set_entry-in w b lo hi i v s)

    overwrite_double-in :
        (l : ℕ)
        → leaf_block g s node (double (l / 512) (l % 512)) ≡ some b
        → overwrite_double g node l v 0 s ≡ some (true, b, put_entry s b (l % 512) v)
    unfolding overwrite_double leaf_block
    overwrite_double-in l leaf =
        ground (arith, w.small, roots.double_root, set_entry-in w b lo hi (l % 512) v s)

    overwrite_triple-in :
        (l : ℕ)
        → leaf_block g s node (triple (l / (512 * 512)) (l / 512 % 512) (l % 512)) ≡ some b
        → overwrite_triple g node l v 0 s ≡ some (true, 0, put_entry s b (l % 512) v)
    unfolding overwrite_triple leaf_block
    overwrite_triple-in l leaf =
        ground (arith, w.small, roots.triple_root, set_entry-in w b lo hi (l % 512) v s)

    overwrite-single :
        (l : ℕ)
        → l ≤ node.i_blocks_num
        → 12 ≤ l
        → l < 524
        → overwrite_datablock_to_inode g node l v 0 s
          ≡ (overwrite_single g node (l - 12) v s >>= λ r. some (r.0, node, 0, r.1))
    unfolding overwrite_datablock_to_inode
    overwrite-single l inside p q = ground arith

    pub overwrite-double :
        (l prev : ℕ)
        → l ≤ node.i_blocks_num
        → 524 ≤ l
        → l < 262668
        → overwrite_datablock_to_inode g node l v prev s
          ≡ (overwrite_double g node (l - 524) v prev s >>= λ r. some (r.0, node, r.1, r.2))
    unfolding overwrite_datablock_to_inode
    overwrite-double l prev inside p q =
        let e : l - 12 - 512 ≡ l - 524 = omega arith in rw (← e) (ground arith)

    overwrite-triple :
        (l : ℕ)
        → l ≤ node.i_blocks_num
        → 262668 ≤ l
        → overwrite_datablock_to_inode g node l v 0 s
          ≡ (overwrite_triple g node (l - 262668) v 0 s >>= λ r. some (r.0, node, r.1, r.2))
    unfolding overwrite_datablock_to_inode
    overwrite-triple l inside p =
        let e : l - 12 - 512 - 262144 ≡ l - 262668 = omega arith in rw (← e) (ground arith)

    in_inode-leaf : (k : ℕ) → leaf_block g s node (direct k) ≢ some b
    unfolding leaf_block
    in_inode-leaf k e = ground arith

    -- The call succeeds and writes one word of the last indirect block.
    overwrite-put_entry :
        (l : ℕ)
        → l ≤ node.i_blocks_num
        → leaf_block g s node (locate l) ≡ some b
        → (next : ℕ) × (overwrite_datablock_to_inode g node l v 0 s
            ≡ some (true, node, next, put_entry s b (word_index (locate l)) v))
    overwrite-put_entry l inside leaf = elim (range l) [
      | in_inode p ↦
          absurd
            (in_inode-leaf l (subst (λ m. leaf_block g s node m ≡ some b) (locate-direct l p) leaf))
      | below_single p q ↦ (
        0,
        rw (overwrite-single l inside p q, locate-single l p q)
            (rw
              (overwrite_single-in (l - 12)
                (subst (λ m. leaf_block g s node m ≡ some b) (locate-single l p q) leaf))
              refl),
      )
      | below_double p q ↦ (
        b,
        rw (overwrite-double l 0 inside p q, locate-double l p q)
            (rw
              (overwrite_double-in (l - 524)
                (subst (λ m. leaf_block g s node m ≡ some b) (locate-double l p q) leaf))
              refl),
      )
      | below_triple p ↦ (
        0,
        rw (overwrite-triple l inside p, locate-triple l p)
            (rw
              (overwrite_triple-in (l - 262668)
                (subst (λ m. leaf_block g s node m ≡ some b) (locate-triple l p) leaf))
              refl),
      )
    ]

    -- overwrite_datablock_to_inode without a hint, with a number of 64 bits and roots that are not
    -- negative, on a logical block within i_blocks_num whose last indirect block `b` is a
    -- data block and no indirect block above a place `q`: the call succeeds and leaves the inode as it
    -- was; the logical block resolves to the new data block, and `q` to the new one if `b` records it in
    -- the same word, and to its old one otherwise.
    pub overwrite-resolve :
        (l : ℕ)
        → l ≤ node.i_blocks_num
        → v < word_mod
        → leaf_block g s node (locate l) ≡ some b
        → NotAbove g s node (locate l) b
        → (q : Place) → NotAbove g s node q b
        → (next : ℕ) × (t : Fs) × (overwrite_datablock_to_inode g node l v 0 s
            ≡ some (true, node, next, t))
          × (resolve g t node (locate l) ≡ some v)
          × (resolve g t node q ≡ (
              if is_block b (leaf_block g s node q) && word_index (locate l) == word_index q
              then some v
              else resolve g s node q))
    overwrite-resolve l inside fits leaf apart q apart_q =
        let (next, e) = overwrite-put_entry l inside leaf in
        let own : (if is_block b (some b) && word_index (locate l) == word_index (locate l)
              then some v
              else resolve g s node (locate l))
            ≡ some v =
          ground arith in
        (
          next,
          put_entry s b (word_index (locate l)) v,
          e,
          resolve-put_entry w b lo hi s node (locate l) (word_index (locate l)) v fits apart
              ∙ rw leaf own,
          resolve-put_entry w b lo hi s node q (word_index (locate l)) v fits apart_q,
        )
