-- ===== src/BlockMap/Remove/Direct.antt =====
-- src/inode_data_block_ops.c, remove_datablocks_from_inode on a file with direct blocks only, against the
-- free list.
use alt_file_system.Prelude.{
  get_or-set_ne, ℕ, zero, suc, ◌+◌, ◌-◌, ◌≤◌, ◌<◌, ◌≡◌, ◌≢◌, refl, ap, ◌∙◌, true, false, min, some,
  List, [], ◌∷◌, arith, leb, get_or, set,
}
use alt_file_system.Disk.{Geometry, Fs}
use alt_file_system.Disk.Laws.{IsSound}
use alt_file_system.DataBlock.{free_data_block}
use alt_file_system.DataBlock.Count.{indicator}
use alt_file_system.DataBlock.FreeList.{free_count, IsFreeList}
use alt_file_system.DataBlock.Free.{InUse, Freed, free_data_block-Freed}
use alt_file_system.Inode.{Inode}
use alt_file_system.BlockMap.Remove.{remove_direct, after_direct, remove_from_direct}
use alt_file_system.BlockMap.Remove.Trees.{remove_datablocks_from_inode}

-- How often `x` is among the `n` direct blocks from `i` on.
unfoldable pub count_blocks : List ℕ → (n i x : ℕ) → ℕ
count_blocks blocks zero i x = 0
count_blocks blocks (suc n) i x = indicator (get_or blocks i 0) x + count_blocks blocks n (i + 1) x

-- The `n` direct blocks from `i` on are data blocks, none of them free and none twice among them.
pub record Owned (g : Geometry) (s : Fs) (hs : List ℕ) (blocks : List ℕ) (n i : ℕ) : Type 0 where
  pub in_range :
      (k : ℕ)
      → i ≤ k
      → k < i + n
      → (g.inode_block_count < get_or blocks k 0) × (get_or blocks k 0 < g.block_count)
  pub once : (x : ℕ) → x ≢ 0 → free_count s.disk hs x + count_blocks blocks n i x ≤ 1

-- The free list of `t` holds what that of `s` held and the direct blocks.
pub record Returned (g : Geometry) (s : Fs) (hs : List ℕ) (blocks : List ℕ) (n i : ℕ) (t : Fs)
    (ks : List ℕ) : Type 0 where
  pub list : IsFreeList g t ks
  pub added :
      (x : ℕ) → x ≢ 0 → free_count t.disk ks x ≡ free_count s.disk hs x + count_blocks blocks n i x

count_blocks-set_below :
    (blocks : List ℕ) (n i j v x : ℕ)
    → j < i
    → count_blocks (set blocks j v) n i x ≡ count_blocks blocks n i x
unfolding count_blocks
count_blocks-set_below blocks zero i j v x lt = refl
count_blocks-set_below blocks (suc n) i j v x lt =
    rw
      (
        get_or-set_ne blocks j i v 0 (λ e. absurd (omega arith)),
        count_blocks-set_below blocks n (i + 1) j v x (omega arith),
      )
      refl

-- A free list that holds a number is not empty.
head_of-IsFreeList :
    {g : Geometry} (t : Fs) (ks : List ℕ) (x : ℕ)
    → IsFreeList g t ks
    → 0 < free_count t.disk ks x
    → t.superblock.s_freelist_head ≢ 0
unfolding free_count
head_of-IsFreeList t [] x v h = absurd (omega arith)
head_of-IsFreeList t (k ∷ ks) x v h = λ e. absurd (v.chain.1 (ground (arith, v.chain.0)))

module _ {g : Geometry} (w : IsSound g) where
  first-InUse :
      (s : Fs) (hs blocks : List ℕ) (n i : ℕ)
      → Owned g s hs blocks (suc n) i
      → InUse g s hs (get_or blocks i 0)
  unfolding count_blocks
  first-InUse s hs blocks n i o =
      let at = o.in_range i (omega arith) (omega arith) in
      record {
        lower = at.0;
        upper = at.1;
        not_free = ground (arith, at.0, o.once (get_or blocks i 0));
      }

  rest-Owned :
      (s t : Fs) (hs ks blocks : List ℕ) (n i : ℕ)
      → Owned g s hs blocks (suc n) i
      → Freed g s hs (get_or blocks i 0) t ks
      → Owned g t ks (set blocks i 0) n (i + 1)
  unfolding count_blocks
  rest-Owned s t hs ks blocks n i o f = record {
    in_range = λ k le lt.
        rw (get_or-set_ne blocks i k 0 0 (λ e. absurd (omega arith)))
          (o.in_range k (omega arith) (omega arith));
    once = λ x p.
        rw (count_blocks-set_below blocks n (i + 1) i 0 x (omega arith))
          (omega (arith, f.added x p, o.once x p));
  }

  pub remove_direct-Returned :
      (n i : ℕ) (node : Inode) (s : Fs) (hs : List ℕ)
      → IsFreeList g s hs
      → s.superblock.s_freelist_head ≢ 0
      → Owned g s hs node.i_direct_blocks n i
      → ((remove_direct g n i node s).0 ≡ true)
        × ((ks : List ℕ) × Returned g s hs node.i_direct_blocks n i
              (remove_direct g n i node s).2
              ks)
  unfolding remove_direct count_blocks
  remove_direct-Returned zero i node s hs v ne o =
      (refl, (hs, record { list = v; added = λ x p. omega arith }))
  remove_direct-Returned (suc n) i node s hs v ne o =
      let a : ℕ = get_or node.i_direct_blocks i 0 in
      let held : InUse g s hs a = first-InUse s hs node.i_direct_blocks n i o in
      let (freed, (ks, f)) = free_data_block-Freed w s hs a v ne held in
      let t : Fs = (free_data_block g a s).1 in
      let node' : Inode = record node { i_direct_blocks = set node.i_direct_blocks i 0 } in
      let head : t.superblock.s_freelist_head ≢ 0 =
        head_of-IsFreeList t ks a f.list (ground (arith, f.added a, held.lower)) in
      let (ok, (ls, r)) =
        remove_direct-Returned n (i + 1) node' t ks f.list head
          (rest-Owned s t hs ks node.i_direct_blocks n i o f) in
      rw freed (
        ok,
        (
          ls,
          record {
            list = r.list;
            added = λ x p. omega (
              arith,
              r.added x p,
              f.added x p,
              count_blocks-set_below node.i_direct_blocks n (i + 1) i 0 x (omega arith),
            );
          },
        ),
      )

  remove_datablocks-direct :
      (start : ℕ) (node : Inode) (s : Fs)
      → leb node.i_blocks_num start ≡ false
      → leb start 12 ≡ true
      → remove_datablocks_from_inode g node start s
        ≡ remove_from_direct g start node.i_blocks_num node s
  unfolding remove_datablocks_from_inode
  remove_datablocks-direct start node s more here = rw (more, here) refl

  after_direct-all :
      (start ending : ℕ) (node : Inode) (s : Fs)
      → leb ending 12 ≡ true
      → after_direct g start ending true node s
        ≡ some (true, record node { i_blocks_num = start }, s)
  unfolding after_direct
  after_direct-all start ending node s only = rw only refl

  remove_from_direct-all :
      (start ending : ℕ) (node : Inode) (s : Fs)
      → ending ≤ 12
      → (remove_direct g (ending - start) start node s).0 ≡ true
      → remove_from_direct g start ending node s
        ≡ some (
          true,
          record ((remove_direct g (ending - start) start node s).1) { i_blocks_num = start },
          (remove_direct g (ending - start) start node s).2,
        )
  unfolding remove_from_direct
  remove_from_direct-all start ending node s le ok =
      let m : ℕ = ending - start in
      let e : min 12 ending - start ≡ m = omega arith in
      ap
        (λ z.
          after_direct g start ending (remove_direct g z start node s).0
            (remove_direct g z start node s).1 (remove_direct g z start node s).2)
        e
      ∙ ap
          (λ b.
            after_direct g start ending b (remove_direct g m start node s).1
              (remove_direct g m start node s).2)
          ok
      ∙ after_direct-all start ending (remove_direct g m start node s).1
          (remove_direct g m start node s).2 (ground arith)

  -- What the call gives where the loop frees every block.
  pub remove_datablocks-all :
      (start : ℕ) (node : Inode) (s : Fs)
      → start < node.i_blocks_num
      → node.i_blocks_num ≤ 12
      → (remove_direct g (node.i_blocks_num - start) start node s).0 ≡ true
      → remove_datablocks_from_inode g node start s
        ≡ some (
          true,
          record ((remove_direct g (node.i_blocks_num - start) start node s).1) {
            i_blocks_num = start;
          },
          (remove_direct g (node.i_blocks_num - start) start node s).2,
        )
  remove_datablocks-all start node s lt le ok =
      remove_datablocks-direct start node s (ground arith) (ground arith)
      ∙ remove_from_direct-all start node.i_blocks_num node s le ok

  -- remove_datablocks_from_inode from logical block `start` on, on a file with direct blocks only whose
  -- blocks from there are data blocks, not free and not the same, with a well-formed free list that is
  -- not empty: it returns true, the file has `start` blocks, and the free list is well formed and has
  -- gained exactly the blocks removed.
  pub remove_datablocks-Returned :
      (start : ℕ) (node : Inode) (s : Fs) (hs : List ℕ)
      → start < node.i_blocks_num
      → node.i_blocks_num ≤ 12
      → IsFreeList g s hs
      → s.superblock.s_freelist_head ≢ 0
      → Owned g s hs node.i_direct_blocks (node.i_blocks_num - start) start
      → (n : Inode) × (t : Fs) × (remove_datablocks_from_inode g node start s ≡ some (true, n, t))
        × (n.i_blocks_num ≡ start)
        × ((ks : List ℕ) × Returned g s hs node.i_direct_blocks
              (node.i_blocks_num - start)
              start
              t
              ks)
  remove_datablocks-Returned start node s hs lt le v ne o =
      let m : ℕ = node.i_blocks_num - start in
      let (ok, (ks, r)) = remove_direct-Returned m start node s hs v ne o in
      (
        record ((remove_direct g m start node s).1) { i_blocks_num = start },
        (remove_direct g m start node s).2,
        remove_datablocks-all start node s lt le ok,
        refl,
        (ks, r),
      )
