-- ===== src/InodeCache/Insert.antt =====
-- src/inode_cache.c: a new entry at the front of the list.
use alt_file_system.Prelude.{ℕ, refl, List, arith}
use alt_file_system.InodeCache.{Cache, update, create_inode_cache, push_front}
use alt_file_system.InodeCache.Links.{IsLinked}

pub create_inode_cache-IsLinked : (capacity : ℕ) → IsLinked (create_inode_cache capacity) (λ p. p)
unfolding create_inode_cache
create_inode_cache-IsLinked capacity = record {
  null_dead = refl;
  started = omega arith;
  below_clock = λ p l. absurd (ground arith);
  rank_below = λ p l. absurd (ground arith);
  ranked = λ p l. absurd (ground arith);
  has_head = λ p l. absurd (ground arith);
  head_or_null = λ h. absurd (ground arith);
  tail_or_null = λ h. absurd (ground arith);
  has_tail = λ h. absurd (ground arith);
  before = λ p l. absurd (ground arith);
  after = λ p l. absurd (ground arith);
  mapped = λ h nz. absurd (ground arith);
}

-- The new entry is also put into the bucket `h`.
abbrev pub inserted : List ℕ → (v h : ℕ) → Cache → Cache
unfolding push_front
inserted k v h c = record (push_front k v c) { map = update c.map h c.clock }

module _ (c : Cache) (rank : ℕ → ℕ) (w : IsLinked c rank) (k : List ℕ) (v h : ℕ) where
  pub inserted-IsLinked : IsLinked (inserted k v h c) (update rank c.clock c.clock)
  unfolding push_front
  inserted-IsLinked = record {
    null_dead = ground (arith, w.started, w.null_dead);
    started = omega arith;
    below_clock = λ q lq. ground (arith, w.below_clock q);
    rank_below = λ q lq. ground (arith, w.rank_below q);
    ranked = λ q lq. ground (arith, w.ranked q, w.started);
    has_head = λ q lq. ground arith;
    head_or_null = λ nz. ground arith;
    tail_or_null = λ nz. ground arith;
    has_tail = λ l.
        ground (arith, w.started, w.below_clock c.tail, w.has_tail, w.tail_or_null, w.head_or_null);
    before = λ q lq ne. ground (
      arith,
      w.before q,
      w.has_head q,
      w.below_clock q,
      w.below_clock c.head,
      w.below_clock (c.prev q),
      w.below_clock c.tail,
      w.has_tail,
      w.tail_or_null,
    );
    after = λ q lq ne. ground (
      arith,
      w.after q,
      w.has_head q,
      w.head_or_null,
      w.below_clock q,
      w.below_clock c.head,
      w.below_clock (c.next q),
      w.below_clock c.tail,
      w.has_tail,
      w.tail_or_null,
      w.rank_below q,
      w.rank_below c.head,
      w.null_dead,
      w.started,
    );
    mapped = λ i nz. ground (arith, w.mapped i, w.started);
  }
