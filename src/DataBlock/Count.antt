-- ===== src/DataBlock/Count.antt =====
-- How often a number stands among the words of a list block, and what the scans find there.
use alt_file_system.Prelude.{
  ℕ, zero, suc, ◌+◌, ◌≤◌, ◌<◌, ◌≡◌, ◌≢◌, refl, none, some, arith, ◌==◌, if◌then◌else◌,
}
use alt_file_system.Bytes.{Block, word_mod, zero_block, word, set_word}
use alt_file_system.Bytes.Laws.{word-set_word, word-zero_block}
use alt_file_system.DataBlock.{find_used, find_unused}

-- 1 where the two numbers are equal.
abbrev pub indicator : ℕ → ℕ → ℕ
indicator x y = if x == y then 1 else 0

-- How many of the `n` words from `i` on are `x`.
unfoldable pub count_words : Block → ℕ → ℕ → ℕ → ℕ
count_words b zero i x = 0
count_words b (suc n) i x = indicator (word b i) x + count_words b n (i + 1) x

pub count_words-set_word_out :
    (b : Block) (n i k v x : ℕ)
    → v < word_mod
    → k < i
    → count_words (set_word b k v) n i x ≡ count_words b n i x
unfolding count_words
count_words-set_word_out b zero i k v x hv h = refl
count_words-set_word_out b (suc n) i k v x hv h =
    ground (arith, word-set_word b k v i, count_words-set_word_out b n (i + 1) k v x)

-- Writing one word exchanges its old value for the new one.
pub count_words-set_word :
    (b : Block) (n i k v x : ℕ)
    → v < word_mod
    → i ≤ k
    → k < i + n
    → count_words (set_word b k v) n i x + indicator (word b k) x
      ≡ count_words b n i x + indicator v x
unfolding count_words
count_words-set_word b zero i k v x hv lo hi = absurd (omega arith)
count_words-set_word b (suc n) i k v x hv lo hi = ground (
  arith,
  word-set_word b k v i hv,
  count_words-set_word_out b n (i + 1) k v x hv,
  count_words-set_word b n (i + 1) k v x hv,
)

pub count_words-zero_block : (n i x : ℕ) → x ≢ 0 → count_words zero_block n i x ≡ 0
unfolding count_words
count_words-zero_block zero i x h = refl
count_words-zero_block (suc n) i x h =
    ground (arith, word-zero_block i, count_words-zero_block n (i + 1) x)

pub count_words-find_used-none :
    (b : Block) (n i x : ℕ) → x ≢ 0 → find_used n b i ≡ none → count_words b n i x ≡ 0
unfolding count_words find_used
count_words-find_used-none b zero i x h e = refl
count_words-find_used-none b (suc n) i x h e =
    ground (arith, count_words-find_used-none b n (i + 1) x h)

pub find_used-some :
    (b : Block) (n i k : ℕ) → find_used n b i ≡ some k → (i ≤ k) × (k < i + n) × (word b k ≢ 0)
unfolding find_used
find_used-some b zero i k e = absurd (ground arith)
find_used-some b (suc n) i k e = ground (arith, find_used-some b n (i + 1) k)

pub find_unused-some :
    (b : Block) (n i k : ℕ) → find_unused n b i ≡ some k → (i ≤ k) × (k < i + n) × (word b k ≡ 0)
unfolding find_unused
find_unused-some b zero i k e = absurd (ground arith)
find_unused-some b (suc n) i k e = ground (arith, find_unused-some b n (i + 1) k)
