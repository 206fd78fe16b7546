-- ===== src/Bytes.antt =====
-- A block of BLOCK_SIZE bytes and the little-endian fields that the C code reads and writes in it
-- through pointer casts and `memcpy`: (unsigned short*), (ssize_t*), (struct inode*), ...
pub mod Laws
use alt_file_system.Prelude.{ℕ, zero, suc, ◌+◌, ◌*◌, ◌/◌, ◌%◌, ◌^◌, ◌==◌, if◌then◌else◌}

-- The byte at each offset. Only the offsets below `block_size` are meant.
abbrev pub Block : Type 0
Block = ℕ → ℕ

abbrev pub block_size : ℕ
block_size = 4096

-- A word of ssize_t, as its 64-bit pattern.
abbrev pub word_mod : ℕ
word_mod = 2 ^ 64

-- memset(buffer, 0, BLOCK_SIZE)
unfoldable pub zero_block : Block
zero_block o = 0

unfoldable pub set_byte : Block → ℕ → ℕ → Block
set_byte b o v p = if o == p then v else b p

-- The `n`-byte field at offset `o`.
unfoldable pub load : ℕ → Block → ℕ → ℕ
load zero b o = 0
load (suc n) b o = b o + 256 * load n b (o + 1)

unfoldable pub store : ℕ → Block → ℕ → ℕ → Block
store zero b o v = b
store (suc n) b o v = set_byte (store n b (o + 1) (v / 256)) o (v % 256)

-- ((ssize_t*)buffer)[i]
unfoldable pub word : Block → ℕ → ℕ
word b i = load 8 b (8 * i)

-- ((ssize_t*)buffer)[i] = v
unfoldable pub set_word : Block → ℕ → ℕ → Block
set_word b i v = store 8 b (8 * i) v
