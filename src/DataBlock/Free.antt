-- ===== src/DataBlock/Free.antt =====
-- free_data_block against the free list that the disk stands for.
use alt_file_system.Prelude.{
  ℕ, ◌+◌, ◌^◌, ◌≤◌, ◌<◌, ◌≡◌, ◌≢◌, refl, sym, ◌∙◌, Option, none, some, List, [], ◌∷◌, arith, ◌==◌,
  true, false,
}
use alt_file_system.Bytes.{Block, zero_block, word, set_word}
use alt_file_system.Bytes.Laws.{word-set_word}
use alt_file_system.Disk.{Geometry, Disk, Fs, put_block, set_disk, set_superblock}
use alt_file_system.Disk.Laws.{IsSound, put_block_self, put_block_ne, read_block-in, write_block-in}
use alt_file_system.Superblock.{set_freelist_head, encode_superblock}
use alt_file_system.DataBlock.{find_unused, is_bad_index, free_into, free_data_block}
use alt_file_system.DataBlock.Count.{
  indicator, count_words, count_words-set_word, count_words-set_word_out, count_words-zero_block,
  find_unused-some,
}
use alt_file_system.DataBlock.FreeList.{
  Chain, free_count, free_count-cons, IsFreeList, Chain-put_block, free_count-put_block,
}
use alt_file_system.DataBlock.Allocate.{with_head, write_superblock-head}

-- What freeing block `a` does to the state and to the free list.
pub record Freed (g : Geometry) (s : Fs) (hs : List ℕ) (a : ℕ) (t : Fs) (ks : List ℕ) : Type 0 where
  pub list : IsFreeList g t ks
  pub added : (x : ℕ) → x ≢ 0 → free_count t.disk ks x ≡ free_count s.disk hs x + indicator a x
  pub kept : (y : ℕ) → y ≢ 0 → y ≢ a → free_count s.disk hs y ≡ 0 → t.disk y ≡ s.disk y

-- A data block that is not free.
pub record InUse (g : Geometry) (s : Fs) (hs : List ℕ) (a : ℕ) : Type 0 where
  pub lower : g.inode_block_count < a
  pub upper : a < g.block_count
  pub not_free : free_count s.disk hs a ≡ 0

module _ {g : Geometry} (w : IsSound g) (s : Fs) (k : ℕ) (t : List ℕ) (a : ℕ)
    (v : IsFreeList g s (k ∷ t)) (u : InUse g s (k ∷ t) a) where
  list_block_upper : k < g.block_count
  unfolding free_count
  list_block_upper = (v.in_range k v.chain.1 (ground arith)).1

  -- The well-formedness of the new list follows from its chain and its count.
  Freed-free_count :
      (s1 : Fs) (ks : List ℕ)
      → Chain s1.disk s1.superblock.s_freelist_head ks
      → ((x : ℕ) → x ≢ 0 → free_count s1.disk ks x ≡ free_count s.disk (k ∷ t) x + indicator a x)
      → ((y : ℕ) → y ≢ 0 → y ≢ a → free_count s.disk (k ∷ t) y ≡ 0 → s1.disk y ≡ s.disk y)
      → Freed g s (k ∷ t) a s1 ks
  Freed-free_count s1 ks c counts kept = record {
    list = record {
      chain = c;
      once = λ x p. ground (arith, counts x p, v.once x p);
      in_range = λ x p q. ground (arith, counts x p, v.in_range x p);
    };
    added = counts;
    kept = kept;
  }

  -- The list block without its tail, after one more write to it.
  tail_spares :
      (y : ℕ)
      → y ≢ 0
      → 0 < indicator k y + count_words (s.disk k) 511 1 y
      → free_count s.disk t y ≡ 0
  unfolding free_count
  tail_spares y p q = ground (arith, v.once y p)

  free_into-entry :
      (i : ℕ)
      → free_into g a (s.disk k) (some i) s
        ≡ (true, set_disk s (put_block s.disk k (set_word (s.disk k) i a)))
  unfolding free_into
  free_into-entry i =
      ground (arith, v.chain.0, write_block-in w k (set_word (s.disk k) i a) s list_block_upper)

  free_into-head : free_into g a (s.disk k) none s ≡ (
    true,
    set_disk (with_head s a) (put_block (with_head s a).disk a (set_word zero_block 0 k)),
  )
  unfolding free_into
  free_into-head = ground (
    arith,
    v.chain.0,
    write_superblock-head w s a,
    write_block-in w a (set_word zero_block 0 k) (with_head s a) u.upper,
  )

  -- The list block has an unused word.
  entry-Freed :
      (i : ℕ)
      → 1 ≤ i
      → i < 512
      → word (s.disk k) i ≡ 0
      → Freed g s (k ∷ t) a (set_disk s (put_block s.disk k (set_word (s.disk k) i a))) (k ∷ t)
  unfolding free_count set_disk
  entry-Freed i lo hi unused =
      let b : Block = set_word (s.disk k) i a in
      let ne : (i == 0) ≡ false = ground arith in
      let small : a < 2 ^ 64 = omega (arith, u.upper, w.small) in
      let spares : k ≢ 0 → free_count s.disk t k ≡ 0 = λ q. tail_spares k q (ground arith) in
      Freed-free_count (set_disk s (put_block s.disk k b)) (k ∷ t)
        (
          v.chain.0,
          v.chain.1,
          rw (put_block_self s.disk k b, word-set_word (s.disk k) i a 0 small, ne)
              (Chain-put_block s.disk k b (word (s.disk k) 0) t spares v.chain.2),
        )
        (λ x p. rw (put_block_self s.disk k b) (
          ground (
            arith,
            free_count-put_block s.disk k b (word (s.disk k) 0) t x spares v.chain.2,
            count_words-set_word (s.disk k) 511 1 i a x small lo (omega arith),
          )))
        (λ y p q r. put_block_ne s.disk k y b (ground arith))

  -- The list block is full: block `a` becomes the head of the list.
  head-Freed :
      Freed g s
        (k ∷ t)
        a
        (set_disk (with_head s a) (put_block (with_head s a).disk a (set_word zero_block 0 k)))
        (a ∷ k ∷ t)
  unfolding set_disk set_freelist_head set_superblock
  head-Freed =
      let b : Block = set_word zero_block 0 k in
      let sb : Block = encode_superblock (set_freelist_head s a).superblock in
      let d : Disk = put_block s.disk 0 sb in
      let none_at_zero : ◌≢◌ {A = ℕ} 0 0 → free_count s.disk (k ∷ t) 0 ≡ 0 = λ p. absurd (p refl) in
      let old : Chain s.disk k (k ∷ t) = (refl, v.chain.1, v.chain.2) in
      let kept_chain : Chain d k (k ∷ t) = Chain-put_block s.disk 0 sb k (k ∷ t) none_at_zero old in
      let same : (x : ℕ) → free_count d (k ∷ t) x ≡ free_count s.disk (k ∷ t) x =
        λ x. free_count-put_block s.disk 0 sb k (k ∷ t) x none_at_zero old in
      let gone : a ≢ 0 → free_count d (k ∷ t) a ≡ 0 = λ _. same a ∙ u.not_free in
      let small : k < 2 ^ 64 = omega (arith, list_block_upper, w.small) in
      Freed-free_count (set_disk (with_head s a) (put_block d a b)) (a ∷ k ∷ t)
        (
          refl,
          ground (arith, u.lower),
          rw (put_block_self d a b, word-set_word zero_block 0 k 0 small)
              (Chain-put_block d a b k (k ∷ t) gone kept_chain),
        )
        (λ x p.
          rw (free_count-cons (put_block d a b) a (k ∷ t) x, put_block_self d a b)
            (ground (
              arith,
              free_count-put_block d a b k (k ∷ t) x gone kept_chain,
              same x,
              count_words-set_word_out zero_block 511 1 0 k x small (omega arith),
              count_words-zero_block 511 1 x p,
            )))
        (λ y p q r.
          put_block_ne d a y b (λ e. q (sym e)) ∙ put_block_ne s.disk 0 y sb (λ e. p (sym e)))

  scan-Freed :
      (found : Option ℕ)
      → find_unused 511 (s.disk k) 1 ≡ found
      → ((free_into g a (s.disk k) found s).0 ≡ true)
        × ((ks : List ℕ) × Freed g s (k ∷ t) a (free_into g a (s.disk k) found s).1 ks)
  scan-Freed none e = rw free_into-head (refl, (a ∷ k ∷ t, head-Freed))
  scan-Freed (some i) e =
      let at : (1 ≤ i) × (i < 512) × (word (s.disk k) i ≡ 0) =
        find_unused-some (s.disk k) 511 1 i e in
      rw (free_into-entry i) (refl, (k ∷ t, entry-Freed i at.0 at.1 at.2))

  -- Past its checks the function runs its scan.
  free_data_block-scan :
      free_data_block g a s ≡ free_into g a (s.disk k) (find_unused 511 (s.disk k) 1) s
  unfolding free_data_block is_bad_index
  free_data_block-scan =
      ground (arith, v.chain.0, v.chain.1, w.small, read_block-in w k s list_block_upper)

-- free_data_block, on a well-formed free list that is not empty: freeing a data block that is not free
-- returns true, the free list stays well formed and has gained exactly that number, and every other
-- data block that was not free keeps its contents.
pub free_data_block-Freed :
    {g : Geometry} (w : IsSound g) (s : Fs) (hs : List ℕ) (a : ℕ)
    → IsFreeList g s hs
    → s.superblock.s_freelist_head ≢ 0
    → InUse g s hs a
    → ((free_data_block g a s).0 ≡ true)
      × ((ks : List ℕ) × Freed g s hs a (free_data_block g a s).1 ks)
free_data_block-Freed w s [] a v ne u = absurd (ne v.chain)
free_data_block-Freed w s (k ∷ t) a v ne u =
    rw (free_data_block-scan w s k t a v u)
      (scan-Freed w s k t a v u (find_unused 511 (s.disk k) 1) refl)
