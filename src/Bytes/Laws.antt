-- ===== src/Bytes/Laws.antt =====
-- Fields of a block: a field reads back what was stored, and fields that do not overlap are
-- independent.
use native.Mathlib.Nat.{pow-suc}
use alt_file_system.Prelude.{
  ◌≤◌, ◌<◌, ℕ, zero, suc, ◌+◌, ◌*◌, ◌/◌, ◌%◌, ◌^◌, ◌≤◌, ◌<◌, ◌≡◌, refl, ◌⊎◌, inl, inr, arith, ◌==◌,
  if◌then◌else◌, Bool-cases,
}
use alt_file_system.Bytes.{Block, word_mod, zero_block, set_byte, load, store, word, set_word}

-- A byte outside the field is left alone.
load-set_byte_out :
    (n : ℕ) (b : Block) (o v p : ℕ) → (p + n ≤ o) ⊎ (o < p) → load n (set_byte b o v) p ≡ load n b p
unfolding load set_byte
load-set_byte_out zero b o v p h = refl
load-set_byte_out (suc n) b o v p h = ground (arith, load-set_byte_out n b o v (p + 1))

pub load-store_out :
    (n m : ℕ) (b : Block) (o v p : ℕ)
    → (p + n ≤ o) ⊎ (o + m ≤ p)
    → load n (store m b o v) p ≡ load n b p
unfolding store
load-store_out n zero b o v p h = refl
load-store_out n (suc m) b o v p h = ground (
  arith,
  load-set_byte_out n (store m b (o + 1) (v / 256)) o (v % 256) p,
  load-store_out n m b (o + 1) (v / 256) p,
)

pub load-store_self : (n : ℕ) (b : Block) (o v : ℕ) → v < 256 ^ n → load n (store n b o v) o ≡ v
unfolding load store set_byte
load-store_self zero b o v h = omega arith
load-store_self (suc n) b o v h = ground (
  arith,
  load-set_byte_out n (store n b (o + 1) (v / 256)) o (v % 256) (o + 1),
  load-store_self n b (o + 1) (v / 256) (omega (arith, pow-suc 256 n)),
)

pub load-zero_block : (n o : ℕ) → load n zero_block o ≡ 0
unfolding load zero_block
load-zero_block zero o = refl
load-zero_block (suc n) o = omega (arith, load-zero_block n (o + 1))

pub word-set_word :
    (b : Block) (i v j : ℕ)
    → v < word_mod
    → word (set_word b i v) j ≡ (if i == j then v else word b j)
unfolding word set_word
word-set_word b i v j h = elim (Bool-cases (i == j)) [
  | inl e ↦ let e' : i ≡ j = ground arith in rw (e, ← e') (load-store_self 8 b (8 * i) v h)
  | inr ne ↦ rw ne (load-store_out 8 8 b (8 * i) v (8 * j) (ground arith))
]

pub word-zero_block : (i : ℕ) → word zero_block i ≡ 0
unfolding word
word-zero_block i = load-zero_block 8 (8 * i)

-- The blocks agree on the bytes in [from, to).
abbrev pub Agree : Block → Block → (from to : ℕ) → Type 0
Agree b c from to = (o : ℕ) → from ≤ o → o < to → b o ≡ c o

pub load-Agree : (n : ℕ) (b c : Block) (p : ℕ) → Agree b c p (p + n) → load n b p ≡ load n c p
unfolding load
load-Agree zero b c p h = refl
load-Agree (suc n) b c p h =
    let rest : load n b (p + 1) ≡ load n c (p + 1) =
      load-Agree n b c (p + 1) (λ o le lt. h o (omega arith) (omega arith)) in
    omega (arith, h p (omega arith) (omega arith), rest)
