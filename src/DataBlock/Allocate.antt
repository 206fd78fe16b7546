-- ===== src/DataBlock/Allocate.antt =====
-- allocate_data_block against the free list that the disk stands for.
use alt_file_system.Prelude.{
  ℕ, ◌+◌, ◌≤◌, ◌<◌, ◌≡◌, ◌≢◌, refl, sym, ◌∙◌, ◌⊎◌, inl, inr, Option, none, some, List, [], ◌∷◌,
  arith, ◌==◌, true, false,
}
use alt_file_system.Bytes.{Block, zero_block, word, set_word}
use alt_file_system.Bytes.Laws.{word-set_word}
use alt_file_system.Disk.{Geometry, Disk, Fs, put_block, set_disk, set_superblock, minus_one}
use alt_file_system.Disk.Laws.{IsSound, put_block_self, put_block_ne, read_block-in, write_block-in}
use alt_file_system.Superblock.{set_freelist_head, encode_superblock, write_superblock}
use alt_file_system.DataBlock.{
  find_used, hand_out, allocate_head, allocate_from, allocate_data_block,
}
use alt_file_system.DataBlock.Count.{
  indicator, count_words, count_words-set_word, count_words-find_used-none, find_used-some,
}
use alt_file_system.DataBlock.FreeList.{
  free_count, IsFreeList, Chain-put_block, free_count-put_block, free_count-write, IsFreeList-write,
}

-- What an allocation of block `a` does to the state and to the free list.
pub record Allocated (g : Geometry) (s : Fs) (hs : List ℕ) (a : ℕ) (t : Fs) (ks : List ℕ)
    : Type 0 where
  pub list : IsFreeList g t ks
  pub lower : g.inode_block_count < a
  pub upper : a < g.block_count
  pub taken : (x : ℕ) → x ≢ 0 → free_count t.disk ks x + indicator a x ≡ free_count s.disk hs x
  pub zeroed : t.disk a ≡ zero_block
  pub kept : (y : ℕ) → y ≢ 0 → free_count s.disk hs y ≡ 0 → t.disk y ≡ s.disk y

-- Two writes of blocks below BLOCK_COUNT.
pub hand_out-in :
    {g : Geometry} (v : IsSound g) (temp : ℕ) (b : Block) (a : ℕ) (s : Fs)
    → temp < g.block_count
    → a < g.block_count
    → hand_out g temp b a s ≡ (a, set_disk s (put_block (put_block s.disk temp b) a zero_block))
unfolding hand_out set_disk
hand_out-in v temp b a s p q =
    rw (write_block-in v temp b s p)
      (rw (write_block-in v a zero_block (set_disk s (put_block s.disk temp b)) q))

-- The entry `i` of the first list block is cleared.
module _ {g : Geometry} (s : Fs) (k : ℕ) (t : List ℕ) (i : ℕ) (v : IsFreeList g s (k ∷ t))
    (lo : 1 ≤ i) (hi : i < 512) where
  abbrev cleared : Disk
  cleared = put_block s.disk k (set_word (s.disk k) i 0)

  tail_spares :
      (y : ℕ)
      → y ≢ 0
      → 0 < indicator k y + count_words (s.disk k) 511 1 y
      → free_count s.disk t y ≡ 0
  unfolding free_count
  tail_spares y p q = ground (arith, v.once y p)

  cleared_count :
      (x : ℕ)
      → x ≢ 0
      → free_count cleared (k ∷ t) x + indicator (word (s.disk k) i) x ≡ free_count s.disk (k ∷ t) x
  unfolding free_count
  cleared_count x p = rw (put_block_self s.disk k (set_word (s.disk k) i 0)) (
      rw
        (free_count-put_block s.disk k (set_word (s.disk k) i 0) (word (s.disk k) 0) t x
          (λ q. tail_spares k q (ground arith)) v.chain.2)
        (ground
          (arith, count_words-set_word (s.disk k) 511 1 i 0 x (omega arith) lo (omega arith))))

  cleared-IsFreeList : IsFreeList g (set_disk s cleared) (k ∷ t)
  unfolding set_disk
  cleared-IsFreeList =
      let ne : (i == 0) ≡ false = ground arith in
      record {
        chain = (
          v.chain.0,
          v.chain.1,
          rw
              (
                put_block_self s.disk k (set_word (s.disk k) i 0),
                word-set_word (s.disk k) i 0 0 (omega arith),
                ne,
              )
              (Chain-put_block s.disk k (set_word (s.disk k) i 0) (word (s.disk k) 0) t
                (λ q. tail_spares k q (ground arith)) v.chain.2),
        );
        once = λ x p. ground (arith, cleared_count x p, v.once x p);
        in_range = λ x p q. v.in_range x p (ground (arith, cleared_count x p));
      }

-- Once the list no longer holds `a`, its block is zeroed.
zero-Allocated :
    {g : Geometry} (s : Fs) (hs : List ℕ) (a : ℕ) (s1 : Fs) (ks : List ℕ)
    → a ≢ 0
    → IsFreeList g s hs
    → IsFreeList g s1 ks
    → ((x : ℕ) → x ≢ 0 → free_count s1.disk ks x + indicator a x ≡ free_count s.disk hs x)
    → ((y : ℕ) → y ≢ 0 → free_count s.disk hs y ≡ 0 → s1.disk y ≡ s.disk y)
    → Allocated g s hs a (set_disk s1 (put_block s1.disk a zero_block)) ks
unfolding set_disk
zero-Allocated {g} s hs a s1 ks nz v v1 counts kept =
    let gone : free_count s1.disk ks a ≡ 0 = ground (arith, counts a nz, v.once a nz) in
    let range = v.in_range a nz (ground (arith, counts a nz)) in
    record {
      list = IsFreeList-write v1 a zero_block (λ _. gone);
      lower = range.0;
      upper = range.1;
      taken = λ x p. ground (arith, free_count-write v1 a zero_block x (λ _. gone), counts x p);
      zeroed = put_block_self s1.disk a zero_block;
      kept = λ y p q.
          put_block_ne s1.disk a y zero_block (λ e. absurd (ground (arith, counts y p)))
          ∙ kept y p q;
    }

-- The entry that the scan found is handed out.
entry-Allocated :
    {g : Geometry} (w : IsSound g) (s : Fs) (k : ℕ) (t : List ℕ) (i : ℕ)
    → IsFreeList g s (k ∷ t)
    → 1 ≤ i
    → i < 512
    → word (s.disk k) i ≢ 0
    → let (a, s') = hand_out g k (set_word (s.disk k) i 0) (word (s.disk k) i) s in
      Allocated g s (k ∷ t) a s' (k ∷ t)
unfolding set_disk free_count
entry-Allocated {g} w s k t i v lo hi used =
    let a : ℕ = word (s.disk k) i in
    let counts = cleared_count s k t i v lo hi in
    let all =
      zero-Allocated s (k ∷ t) a (set_disk s (cleared s k t i v lo hi)) (k ∷ t) used v
        (cleared-IsFreeList s k t i v lo hi) counts
        (λ y p q. put_block_ne s.disk k y (set_word (s.disk k) i 0) (ground (arith, q))) in
    rw
      (hand_out-in w k (set_word (s.disk k) i 0) a s (v.in_range k v.chain.1 (ground arith)).1
        all.upper)
      all

-- The superblock in memory and on disk with a new list head.
abbrev pub with_head : Fs → ℕ → Fs
with_head s h =
    let s1 = set_freelist_head s h in
    set_disk s1 (put_block s1.disk 0 (encode_superblock s1.superblock))

pub write_superblock-head :
    {g : Geometry} (w : IsSound g) (s : Fs) (h : ℕ)
    → write_superblock g (set_freelist_head s h) ≡ (true, with_head s h)
unfolding write_superblock
write_superblock-head w s h =
    write_block-in w 0 (encode_superblock (set_freelist_head s h).superblock)
      (set_freelist_head s h) (omega arith)

-- The list without its first block, which had no entry.
popped-IsFreeList :
    {g : Geometry} (s : Fs) (k : ℕ) (t : List ℕ)
    → IsFreeList g s (k ∷ t)
    → IsFreeList g (set_freelist_head s (word (s.disk k) 0)) t
unfolding free_count set_freelist_head set_superblock
popped-IsFreeList s k t v = record {
  chain = v.chain.2;
  once = λ x p. ground (arith, v.once x p);
  in_range = λ x p q. v.in_range x p (ground arith);
}

popped_count :
    {g : Geometry} (s : Fs) (k : ℕ) (t : List ℕ)
    → IsFreeList g s (k ∷ t)
    → find_used 511 (s.disk k) 1 ≡ none
    → (x : ℕ) → x ≢ 0
    → free_count s.disk t x + indicator k x ≡ free_count s.disk (k ∷ t) x
unfolding free_count
popped_count s k t v e x p = ground (arith, count_words-find_used-none (s.disk k) 511 1 x p e)

head-Allocated :
    {g : Geometry} (w : IsSound g) (s : Fs) (k : ℕ) (t : List ℕ)
    → IsFreeList g s (k ∷ t)
    → find_used 511 (s.disk k) 1 ≡ none
    → let (a, s') = allocate_head g k (s.disk k) s in Allocated g s (k ∷ t) a s' t
unfolding allocate_head set_disk set_freelist_head set_superblock
head-Allocated {g} w s k t v e =
    let counts = popped_count s k t v e in
    let h : ℕ = word (s.disk k) 0 in
    let s1 : Fs = with_head s h in
    let v1 : IsFreeList g s1 t =
      IsFreeList-write (popped-IsFreeList s k t v) 0 _ (λ p. absurd (p refl)) in
    let same : (x : ℕ) → free_count s1.disk t x ≡ free_count s.disk t x =
      λ x. free_count-write (popped-IsFreeList s k t v) 0 _ x (λ p. absurd (p refl)) in
    let gone : free_count s1.disk t k ≡ 0 = ground (arith, same k, counts k, v.once k) in
    let b : Block = set_word (s.disk k) 0 0 in
    let s2 : Fs = set_disk s1 (put_block s1.disk k b) in
    let all : Allocated g s (k ∷ t) k (set_disk s2 (put_block s2.disk k zero_block)) t =
      zero-Allocated s (k ∷ t) k s2 t v.chain.1 v (IsFreeList-write v1 k b (λ _. gone))
        (λ x p. ground (arith, free_count-write v1 k b x (λ _. gone), same x, counts x p))
        (λ y p q.
          put_block_ne s1.disk k y b (ground (arith, counts y p))
          ∙ put_block_ne s.disk 0 y _ (λ z. p (sym z))) in
    rw (write_superblock-head w s h) (rw (hand_out-in w k b k s1 all.upper all.upper) all)

-- No data block is free.
abbrev pub NoneFree : Fs → List ℕ → Type 0
NoneFree s hs = (x : ℕ) → x ≢ 0 → free_count s.disk hs x ≡ 0

scan-Allocated :
    {g : Geometry} (w : IsSound g) (s : Fs) (k : ℕ) (t : List ℕ) (found : Option ℕ)
    → IsFreeList g s (k ∷ t)
    → find_used 511 (s.disk k) 1 ≡ found
    → let (a, s') = allocate_from g k (s.disk k) found s in
      (ks : List ℕ) × Allocated g s (k ∷ t) a s' ks
unfolding allocate_from
scan-Allocated w s k t none v e = (t, head-Allocated w s k t v e)
scan-Allocated w s k t (some i) v e =
    let at : (1 ≤ i) × (i < 512) × (word (s.disk k) i ≢ 0) = find_used-some (s.disk k) 511 1 i e in
    (k ∷ t, entry-Allocated w s k t i v at.0 at.1 at.2)

-- With a list block at hand the function runs its scan.
pub allocate_data_block-scan :
    {g : Geometry} (w : IsSound g) (s : Fs) (k : ℕ)
    → s.superblock.s_freelist_head ≡ k
    → k ≢ 0
    → k < g.block_count
    → allocate_data_block g s ≡ allocate_from g k (s.disk k) (find_used 511 (s.disk k) 1) s
unfolding allocate_data_block
allocate_data_block-scan w s k e p q = ground (arith, read_block-in w k s q)

-- allocate_data_block, on a well-formed free list: either no block is free, and it returns -1 and
-- changes nothing; or it returns the number of a data block that was free, that block is zeroed, the
-- free list stays well formed and has lost exactly that number, and every data block that was not
-- free keeps its contents.
pub allocate_data_block-Allocated :
    {g : Geometry} (w : IsSound g) (s : Fs) (hs : List ℕ)
    → IsFreeList g s hs
    → (NoneFree s hs × (allocate_data_block g s ≡ (minus_one, s)))
      ⊎ ((ks : List ℕ) × Allocated g s hs
            (allocate_data_block g s).0
            (allocate_data_block g s).1
            ks)
unfolding allocate_data_block free_count
allocate_data_block-Allocated w s [] v = inl (λ x p. refl, rw v.chain)
allocate_data_block-Allocated w s (k ∷ t) v =
    let range = v.in_range k v.chain.1 (ground arith) in
    rw (allocate_data_block-scan w s k v.chain.0 v.chain.1 range.1)
      (inr (scan-Allocated w s k t (find_used 511 (s.disk k) 1) v refl))
