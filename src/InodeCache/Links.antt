-- ===== src/InodeCache/Links.antt =====
-- src/inode_cache.c: the list through the entries.
use alt_file_system.Prelude.{ℕ, ◌<◌, ◌≡◌, ◌≢◌, true, false}
use alt_file_system.InodeCache.{Cache}

-- The entries form a list from `head` to `tail`, in which `rank` falls; the map holds entries only.
pub record IsLinked (c : Cache) (rank : ℕ → ℕ) : Type 0 where
  pub null_dead : c.live 0 ≡ false
  pub started : 0 < c.clock
  pub below_clock : (p : ℕ) → c.live p ≡ true → p < c.clock
  pub rank_below : (p : ℕ) → c.live p ≡ true → rank p < c.clock
  pub ranked : (p : ℕ) → c.live p ≡ true → 0 < rank p
  pub has_head : (p : ℕ) → c.live p ≡ true → c.live c.head ≡ true
  pub head_or_null : c.head ≢ 0 → c.live c.head ≡ true
  pub tail_or_null : c.tail ≢ 0 → c.live c.head ≡ true
  pub has_tail : c.live c.head ≡ true → (c.live c.tail ≡ true) × (c.next c.tail ≡ 0)
  pub before :
      (p : ℕ)
      → c.live p ≡ true
      → p ≢ c.head
      → (c.live (c.prev p) ≡ true) × (c.next (c.prev p) ≡ p) × (c.prev p ≢ c.tail)
  pub after :
      (p : ℕ)
      → c.live p ≡ true
      → p ≢ c.tail
      → (c.live (c.next p) ≡ true)
        × (c.prev (c.next p) ≡ p)
        × (c.next p ≢ c.head)
        × (rank (c.next p) < rank p)
  pub mapped : (h : ℕ) → c.map h ≢ 0 → c.live (c.map h) ≡ true
