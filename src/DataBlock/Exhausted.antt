-- ===== src/DataBlock/Exhausted.antt =====
-- free_data_block when no block is free: s_freelist_head is 0, and the freed block becomes the list
-- block with the contents that it had as a data block.
use alt_file_system.Prelude.{
  ℕ, zero, suc, ◌+◌, ◌≤◌, ◌<◌, ◌≡◌, ◌≢◌, refl, sym, ◌∙◌, none, some, arith, ◌==◌, true, false,
}
use alt_file_system.Bytes.{Block, zero_block, word, set_word}
use alt_file_system.Bytes.Laws.{word-set_word, word-zero_block}
use alt_file_system.Disk.{Geometry, Fs, put_block, set_disk, set_superblock}
use alt_file_system.Disk.Laws.{IsSound, put_block_self, put_block_ne, read_block-in, write_block-in}
use alt_file_system.Superblock.{set_freelist_head}
use alt_file_system.DataBlock.{
  find_used, find_unused, is_bad_index, hand_out, allocate_head, allocate_from, allocate_data_block,
  free_into, free_at_head, free_data_block,
}
use alt_file_system.DataBlock.Count.{find_unused-some}
use alt_file_system.DataBlock.Allocate.{
  with_head, write_superblock-head, allocate_data_block-scan, hand_out-in,
}

find_used-here : (n : ℕ) (b : Block) (i : ℕ) → word b i ≢ 0 → find_used (suc n) b i ≡ some i
unfolding find_used
find_used-here n b i h = ground arith

find_unused-here : (n : ℕ) (b : Block) (i : ℕ) → word b i ≡ 0 → find_unused (suc n) b i ≡ some i
unfolding find_unused
find_unused-here n b i h = ground arith

find_used-zero_block : (n i : ℕ) → find_used n zero_block i ≡ none
unfolding find_used
find_used-zero_block zero i = refl
find_used-zero_block (suc n) i = ground (arith, word-zero_block i, find_used-zero_block n (i + 1))

free_at_head-scan :
    {g : Geometry} (w : IsSound g) (s : Fs) (a k : ℕ)
    → s.superblock.s_freelist_head ≡ k
    → k < g.block_count
    → free_at_head g a s ≡ free_into g a (s.disk k) (find_unused 511 (s.disk k) 1) s
unfolding free_at_head
free_at_head-scan w s a k e q = ground (arith, read_block-in w k s q)

free_into-some :
    {g : Geometry} (w : IsSound g) (s : Fs) (a k i : ℕ) (b : Block)
    → s.superblock.s_freelist_head ≡ k
    → k < g.block_count
    → free_into g a b (some i) s ≡ (true, set_disk s (put_block s.disk k (set_word b i a)))
unfolding free_into
free_into-some w s a k i b e q = ground (arith, write_block-in w k (set_word b i a) s q)

module _ {g : Geometry} (w : IsSound g) (s : Fs) (a : ℕ) (empty : s.superblock.s_freelist_head ≡ 0)
    (lower : g.inode_block_count < a) (upper : a < g.block_count) where
  -- The state after the call, when the scan of the freed block finds the unused word `i`.
  abbrev listed : ℕ → Fs
  listed i = set_disk (with_head s a) (put_block (with_head s a).disk a (set_word (s.disk a) i a))

  head_of_with_head : (with_head s a).superblock.s_freelist_head ≡ a
  unfolding set_freelist_head set_superblock set_disk
  head_of_with_head = refl

  block_of_with_head : (with_head s a).disk a ≡ s.disk a
  unfolding set_freelist_head set_superblock set_disk
  block_of_with_head = put_block_ne s.disk 0 a _ (ground arith)

  free_at_head-listed :
      (i : ℕ)
      → find_unused 511 (s.disk a) 1 ≡ some i
      → free_at_head g a (with_head s a) ≡ (true, listed i)
  free_at_head-listed i e =
      free_at_head-scan w (with_head s a) a a head_of_with_head upper
      ∙ rw (block_of_with_head, e)
          (free_into-some w (with_head s a) a a i (s.disk a) head_of_with_head upper)

  free-listed :
      (i : ℕ) → find_unused 511 (s.disk a) 1 ≡ some i → free_data_block g a s ≡ (true, listed i)
  unfolding free_data_block is_bad_index
  free-listed i e =
      ground
        (arith, empty, upper, lower, w.small, write_superblock-head w s a, free_at_head-listed i e)

  head_of_listed : (i : ℕ) → (listed i).superblock.s_freelist_head ≡ a
  unfolding set_freelist_head set_superblock set_disk
  head_of_listed i = refl

  block_of_listed : (i : ℕ) → (listed i).disk a ≡ set_word (s.disk a) i a
  unfolding set_disk
  block_of_listed i = put_block_self (with_head s a).disk a (set_word (s.disk a) i a)

  -- The next allocation hands out the first word of the listed block.
  allocate-listed :
      (i : ℕ)
      → word (set_word (s.disk a) i a) 1 ≢ 0
      → allocate_data_block g (listed i)
        ≡ hand_out g a
            (set_word (set_word (s.disk a) i a) 1 0)
            (word (set_word (s.disk a) i a) 1)
            (listed i)
  unfolding allocate_from
  allocate-listed i used =
      allocate_data_block-scan w (listed i) a (head_of_listed i) (ground (arith, lower)) upper
      ∙ rw (block_of_listed i, find_used-here 510 (set_word (s.disk a) i a) 1 used)

  -- What a data block held decides what is allocated after it is freed as the only free block: if its
  -- word 1 was v, not 0, and a later word was 0, free_data_block returns true, the next
  -- allocate_data_block returns v, and the block v is overwritten with zeros, whatever block v is.
  pub allocate-free_stale :
      (v i : ℕ)
      → word (s.disk a) 1 ≡ v
      → v ≢ 0
      → v < g.block_count
      → find_unused 511 (s.disk a) 1 ≡ some i
      → ((free_data_block g a s).0 ≡ true)
        × ((allocate_data_block g (free_data_block g a s).1).0 ≡ v)
        × ((allocate_data_block g (free_data_block g a s).1).1.disk v ≡ zero_block)
  unfolding set_disk
  allocate-free_stale v i e nz q scan =
      let at : (1 ≤ i) × (i < 512) × (word (s.disk a) i ≡ 0) =
        find_unused-some (s.disk a) 511 1 i scan in
      let ne : (i == 1) ≡ false = ground (arith, at.2) in
      let first : word (set_word (s.disk a) i a) 1 ≡ v =
        word-set_word (s.disk a) i a 1 (omega (arith, upper, w.small)) ∙ rw ne e in
      rw (free-listed i scan) (
        rw (allocate-listed i (λ z. nz (sym first ∙ z))) (
          rw first (
            rw (hand_out-in w a (set_word (set_word (s.disk a) i a) 1 0) v (listed i) upper q)
              (refl, refl, put_block_self _ v zero_block))))

  -- A state whose only list block `a` is all zero hands out `a` itself.
  allocate-zeroed :
      (t : Fs)
      → t.superblock.s_freelist_head ≡ a
      → t.disk a ≡ zero_block
      → (allocate_data_block g t).0 ≡ a
  unfolding allocate_from allocate_head
  allocate-zeroed t h z = rw (allocate_data_block-scan w t a h (ground (arith, lower)) upper) (
      rw (z, find_used-zero_block 511 1, write_superblock-head w t (word zero_block 0))
        (rw (
          hand_out-in w a (set_word zero_block 0 0) a (with_head t (word zero_block 0)) upper
            upper)))

  -- Freeing the only free block, when its contents are all zero, makes it free twice: the next two
  -- calls of allocate_data_block both return it.
  pub allocate_twice-free :
      s.disk a ≡ zero_block
      → ((free_data_block g a s).0 ≡ true)
        × ((allocate_data_block g (free_data_block g a s).1).0 ≡ a)
        × ((allocate_data_block g (allocate_data_block g (free_data_block g a s).1).1).0 ≡ a)
  unfolding set_disk set_freelist_head set_superblock
  allocate_twice-free z =
      let scan : find_unused 511 (s.disk a) 1 ≡ some 1 =
        rw z (find_unused-here 510 zero_block 1 (word-zero_block 1)) in
      let first : word (set_word (s.disk a) 1 a) 1 ≡ a =
        word-set_word (s.disk a) 1 a 1 (omega (arith, upper, w.small)) in
      let out : Block = set_word (set_word (s.disk a) 1 a) 1 0 in
      let handed = hand_out-in w a out a (listed 1) upper upper in
      rw (free-listed 1 scan) (
        rw (allocate-listed 1 (λ e. absurd (ground (arith, lower, first))))
          (rw (first, handed) (refl, refl, allocate-zeroed _ refl (put_block_self _ a zero_block))))
