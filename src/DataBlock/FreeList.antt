-- ===== src/DataBlock/FreeList.antt =====
-- What the free list on disk stands for: how often each block number is free, and when the list is
-- well formed.
use alt_file_system.Prelude.{ℕ, ◌+◌, ◌≤◌, ◌<◌, ◌≡◌, ◌≢◌, refl, List, [], ◌∷◌, arith}
use alt_file_system.Bytes.{Block, word}
use alt_file_system.Disk.{Geometry, Disk, Fs, put_block, set_disk}
use alt_file_system.Disk.Laws.{put_block_ne}
use alt_file_system.DataBlock.Count.{indicator, count_words}

-- From `h` the next pointers lead through exactly the blocks `hs` to the end of the list.
abbrev pub Chain : Disk → ℕ → List ℕ → Type 0
Chain d h [] = h ≡ 0
Chain d h (b ∷ hs) = (h ≡ b) × (b ≢ 0) × Chain d (word (d b) 0) hs

-- How often the free list with the list blocks `hs` holds `x`: as a list block, or as an entry.
unfoldable pub free_count : Disk → List ℕ → ℕ → ℕ
free_count d [] x = 0
free_count d (b ∷ hs) x = indicator b x + count_words (d b) 511 1 x + free_count d hs x

pub free_count-cons :
    (d : Disk) (b : ℕ) (hs : List ℕ) (x : ℕ)
    → free_count d (b ∷ hs) x ≡ indicator b x + count_words (d b) 511 1 x + free_count d hs x
unfolding free_count
free_count-cons d b hs x = refl

-- The list ends, holds no number twice, and holds numbers of data blocks only.
pub record IsFreeList (g : Geometry) (s : Fs) (hs : List ℕ) : Type 0 where
  pub chain : Chain s.disk s.superblock.s_freelist_head hs
  pub once : (x : ℕ) → x ≢ 0 → free_count s.disk hs x ≤ 1
  pub in_range :
      (x : ℕ) → x ≢ 0 → 0 < free_count s.disk hs x → (g.inode_block_count < x) × (x < g.block_count)

-- A write to a block that is not free, or to no data block at all, leaves the list alone.
pub Chain-put_block :
    (d : Disk) (y : ℕ) (b : Block) (h : ℕ) (hs : List ℕ)
    → (y ≢ 0 → free_count d hs y ≡ 0)
    → Chain d h hs
    → Chain (put_block d y b) h hs
unfolding free_count
Chain-put_block d y b h [] out c = c
Chain-put_block d y b h (k ∷ hs) out c =
    let ne : y ≢ k = ground (arith, out) in
    (
      c.0,
      c.1,
      rw (put_block_ne d y k b ne)
          (Chain-put_block d y b (word (d k) 0) hs (λ p. ground (arith, out p)) c.2),
    )

pub free_count-put_block :
    (d : Disk) (y : ℕ) (b : Block) (h : ℕ) (hs : List ℕ) (x : ℕ)
    → (y ≢ 0 → free_count d hs y ≡ 0)
    → Chain d h hs
    → free_count (put_block d y b) hs x ≡ free_count d hs x
unfolding free_count
free_count-put_block d y b h [] x out c = refl
free_count-put_block d y b h (k ∷ hs) x out c =
    let ne : y ≢ k = ground (arith, out) in
    rw (
      put_block_ne d y k b ne,
      free_count-put_block d y b (word (d k) 0) hs x (λ p. ground (arith, out p)) c.2,
    )

-- The free list after one write that spares it.
module _ {g : Geometry} {s : Fs} {hs : List ℕ} (v : IsFreeList g s hs) where
  pub free_count-write :
      (y : ℕ) (b : Block) (x : ℕ)
      → (y ≢ 0 → free_count s.disk hs y ≡ 0)
      → free_count (put_block s.disk y b) hs x ≡ free_count s.disk hs x
  free_count-write y b x out =
      free_count-put_block s.disk y b s.superblock.s_freelist_head hs x out v.chain

  pub IsFreeList-write :
      (y : ℕ) (b : Block)
      → (y ≢ 0 → free_count s.disk hs y ≡ 0)
      → IsFreeList g (set_disk s (put_block s.disk y b)) hs
  unfolding set_disk
  IsFreeList-write y b out = record {
    chain = Chain-put_block s.disk y b s.superblock.s_freelist_head hs out v.chain;
    once = λ x p. rw (free_count-write y b x out) (v.once x p);
    in_range = λ x p q. v.in_range x p (rw (free_count-write y b x out) at q);
  }
