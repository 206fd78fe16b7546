-- ===== src/DataBlock/Format.antt =====
-- altfs_create_freelist and altfs_makefs_options of src/superblock_layer.c: the free list of a new
-- file system.
use alt_file_system.Prelude.{
  ℕ, zero, suc, ◌+◌, ◌-◌, ◌*◌, ◌≤◌, ◌<◌, ◌≡◌, ◌≢◌, refl, ap, ◌∙◌, inl, inr, Bool-cases, true, false,
  ◌&&◌, List, [], ◌∷◌, arith, ltb, leb, ◌==◌, if◌then◌else◌,
}
use alt_file_system.Bytes.{Block, word_mod, zero_block, word, set_word}
use alt_file_system.Bytes.Laws.{word-set_word}
use alt_file_system.Disk.{Geometry, Fs, put_block, set_disk}
use alt_file_system.Disk.Laws.{IsSound, put_block_self, put_block_ne, write_block-in}
use alt_file_system.Superblock.{address_of, fill_addresses, freelist_block, create_freelist_from}
use alt_file_system.DataBlock.Count.{count_words}
use alt_file_system.DataBlock.FreeList.{Chain, free_count}

module _ {g : Geometry} (w : IsSound g) where
  address_small : (n : ℕ) → address_of g n < word_mod
  unfolding address_of
  address_small n = ground (arith, w.small)

  fill_addresses_out :
      (n j m : ℕ) (b : Block) (k : ℕ) → k < j → word (fill_addresses g n j m b) k ≡ word b k
  unfolding fill_addresses
  fill_addresses_out zero j m b k h = refl
  fill_addresses_out (suc n) j m b k h = ground (
    arith,
    fill_addresses_out n (j + 1) (m + 1) (set_word b j (address_of g (m + 1))) k,
    word-set_word b j (address_of g (m + 1)) k (address_small (m + 1)),
  )

  fill_addresses_in :
      (n j m : ℕ) (b : Block) (k : ℕ)
      → j ≤ k
      → k < j + n
      → word (fill_addresses g n j m b) k ≡ address_of g (m + (k - j) + 1)
  unfolding fill_addresses
  fill_addresses_in zero j m b k lo hi = absurd (omega arith)
  fill_addresses_in (suc n) j m b k lo hi =
      let step : Block = set_word b j (address_of g (m + 1)) in
      elim (Bool-cases (k == j)) [
        | inl e ↦
            let same : k ≡ j = ground arith in
            fill_addresses_out n (j + 1) (m + 1) step k (omega arith)
            ∙ word-set_word b j (address_of g (m + 1)) k (address_small (m + 1))
            ∙ ground arith
        | inr ne ↦
            fill_addresses_in n (j + 1) (m + 1) step k (ground arith) (omega arith)
            ∙ ap (address_of g) (ground arith)
      ]

  -- Word 0 of the list block at m is the address of block m + 512, and word k that of m + k.
  word-freelist_block_next : (m : ℕ) → word (freelist_block g m) 0 ≡ address_of g (m + 512)
  unfolding freelist_block
  word-freelist_block_next m =
      word-set_word (fill_addresses g 511 1 m zero_block) 0 (address_of g (m + 512)) 0
        (address_small (m + 512))

  word-freelist_block_entry :
      (m k : ℕ) → 1 ≤ k → k < 512 → word (freelist_block g m) k ≡ address_of g (m + k)
  unfolding freelist_block
  word-freelist_block_entry m k lo hi =
      let ne : (0 == k) ≡ false = ground arith in
      word-set_word (fill_addresses g 511 1 m zero_block) 0 (address_of g (m + 512)) k
        (address_small (m + 512))
      ∙ rw ne (
          fill_addresses_in 511 1 m zero_block k lo (omega arith)
          ∙ ap (address_of g) {x = m + (k - 1) + 1} (omega arith))

  count_words-addresses :
      (b : Block) (m n i x : ℕ)
      → x ≢ 0
      → ((k : ℕ) → i ≤ k → k < i + n → word b k ≡ address_of g (m + k))
      → count_words b n i x
        ≡ (if leb (m + i) x && ltb x (m + i + n) && ltb x g.block_count then 1 else 0)
  unfolding count_words address_of
  count_words-addresses b m zero i x p h = ground arith
  count_words-addresses b m (suc n) i x p h = ground (
    arith,
    h i,
    count_words-addresses b m n (i + 1) x p (λ k lo hi. h k (omega arith) (omega arith)),
  )

  -- The list blocks from m on, `n` of them.
  pub heads : ℕ → ℕ → List ℕ
  heads zero m = []
  heads (suc n) m = m ∷ heads n (m + 512)

  -- 1 for the blocks from m on, to the end of the disk.
  abbrev pub from_block : ℕ → ℕ → ℕ
  from_block m x = if leb m x && ltb x g.block_count then 1 else 0

  -- What the loop has made when `n` rounds from block m on reach the end of the disk.
  pub record Listed (n m : ℕ) (s t : Fs) : Type 0 where
    pub chain : Chain t.disk (address_of g m) (heads n m)
    pub counts : (x : ℕ) → x ≢ 0 → free_count t.disk (heads n m) x ≡ from_block m x
    pub superblock : t.superblock ≡ s.superblock
    pub kept : (y : ℕ) → y < m → t.disk y ≡ s.disk y

  create_freelist_from-step :
      (n m : ℕ) (s : Fs)
      → m < g.block_count
      → create_freelist_from g (suc n) m s
        ≡ create_freelist_from g n (m + 512) (set_disk s (put_block s.disk m (freelist_block g m)))
  unfolding create_freelist_from
  create_freelist_from-step n m s h = rw (write_block-in w m (freelist_block g m) s h)

  Listed-step :
      (n m : ℕ) (s t : Fs)
      → 0 < m
      → m < g.block_count
      → Listed n (m + 512) (set_disk s (put_block s.disk m (freelist_block g m))) t
      → Listed (suc n) m s t
  unfolding set_disk heads free_count
  Listed-step n m s t pos h v =
      let here : address_of g m ≡ m = unfold address_of in ground arith in
      let block : t.disk m ≡ freelist_block g m =
        v.kept m (omega arith) ∙ put_block_self s.disk m (freelist_block g m) in
      record {
        chain = (here, ground arith, rw (block, word-freelist_block_next m) v.chain);
        counts = λ x p. rw block (
            ground (
              arith,
              count_words-addresses (freelist_block g m) m 511 1 x p (word-freelist_block_entry m),
              v.counts x p,
            ));
        superblock = v.superblock;
        kept = λ y q.
            v.kept y (omega arith) ∙ put_block_ne s.disk m y (freelist_block g m) (ground arith);
      }

  pub create_freelist_from-Listed :
      (n m : ℕ) (s : Fs)
      → 0 < m
      → g.block_count ≤ m + 512 * n
      → m + 512 * n < g.block_count + 512
      → ((create_freelist_from g n m s).0 ≡ true) × Listed n m s (create_freelist_from g n m s).1
  unfolding heads free_count address_of create_freelist_from
  create_freelist_from-Listed zero m s pos lo hi = (
    refl,
    record {
      chain = ground arith;
      counts = λ x p. ground arith;
      superblock = refl;
      kept = λ y h. refl;
    },
  )
  create_freelist_from-Listed (suc n) m s pos lo hi =
      let inside : m < g.block_count = omega arith in
      let s1 : Fs = set_disk s (put_block s.disk m (freelist_block g m)) in
      let rest =
        create_freelist_from-Listed n (m + 512) s1 (omega arith) (omega arith) (omega arith) in
      rw (create_freelist_from-step n m s inside)
        (rest.0, Listed-step n m s (create_freelist_from g n (m + 512) s1).1 pos inside rest.1)
