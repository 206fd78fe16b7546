-- ===== src/InodeCache/Front.antt =====
-- src/inode_cache.c: an entry that is found moves to the front of the list.
use alt_file_system.Prelude.{
  ℕ, suc, ◌<◌, ◌≡◌, ◌≢◌, true, not, ◌&&◌, some, arith, ◌==◌, if◌then◌else◌,
}
use alt_file_system.InodeCache.{Cache, update, set_next, set_prev, unlink_entry, move_to_front}
use alt_file_system.InodeCache.Links.{IsLinked}

-- The links of the list after the move.
abbrev pub moved_next : Cache → ℕ → ℕ → ℕ
moved_next c p q = if p == q then c.head else if c.prev p == q then c.next p else c.next q

abbrev pub moved_prev : Cache → ℕ → ℕ → ℕ
moved_prev c p q =
    if c.head == q
    then p
    else if p == q
    then 0
    else if not (p == c.tail) && c.next p == q
    then c.prev p
    else c.prev q

abbrev pub moved_tail : Cache → ℕ → ℕ
moved_tail c p = if p == c.tail then c.prev p else c.tail

abbrev pub moved : Cache → ℕ → Cache
moved c p = record c {
  next = moved_next c p;
  prev = moved_prev c p;
  tail = moved_tail c p;
  head = p;
  clock = suc c.clock;
}

module _ (c : Cache) (rank : ℕ → ℕ) (w : IsLinked c rank) (p : ℕ) (l : c.live p ≡ true)
    (ne : p ≢ c.head) where
  after_move :
      (q : ℕ)
      → c.live q ≡ true
      → q ≢ moved_tail c p
      → (c.live (moved_next c p q) ≡ true)
        × (moved_prev c p (moved_next c p q) ≡ q)
        × (moved_next c p q ≢ p)
        × (update rank p c.clock (moved_next c p q) < update rank p c.clock q)
  after_move q lq nt = ground (
    arith,
    w.before p l ne,
    w.after p l,
    w.after q lq,
    w.before q lq,
    w.has_head p l,
    w.rank_below p l,
    w.rank_below q lq,
    w.rank_below c.head,
    w.has_tail,
  )

  before_move :
      (q : ℕ)
      → c.live q ≡ true
      → q ≢ p
      → (c.live (moved_prev c p q) ≡ true)
        × (moved_next c p (moved_prev c p q) ≡ q)
        × (moved_prev c p q ≢ moved_tail c p)
  before_move q lq nt =
      ground (
        arith,
        w.before p l ne,
        w.after p l,
        w.before q lq,
        w.after q lq,
        w.has_head p l,
        w.has_tail,
      )

  tail_of_move : (c.live (moved_tail c p) ≡ true) × (moved_next c p (moved_tail c p) ≡ 0)
  tail_of_move =
      ground (arith, w.before p l ne, w.after p l, w.has_head p l, w.has_tail, w.null_dead)

  pub moved-IsLinked : IsLinked (moved c p) (update rank p c.clock)
  moved-IsLinked = record {
    null_dead = w.null_dead;
    started = omega arith;
    below_clock = λ q lq. omega (arith, w.below_clock q lq);
    rank_below = λ q lq. ground (arith, w.rank_below q lq);
    ranked = λ q lq. ground (arith, w.ranked q lq, w.started);
    has_head = λ q lq. l;
    head_or_null = λ h. l;
    tail_or_null = λ h. l;
    has_tail = λ h. tail_of_move;
    before = before_move;
    after = after_move;
    mapped = w.mapped;
  }

  pub move_to_front-moved : move_to_front p c ≡ some (moved c p)
  unfolding move_to_front unlink_entry set_next set_prev
  move_to_front-moved = ground (arith, w.before p l ne, w.after p l, w.has_head p l)
