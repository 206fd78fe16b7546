-- ===== src/BlockMap/Entry.antt =====
-- Reads and writes of one word of an indirect block, and the place of every other logical block after
-- such a write.
use mathlib.Core.Option
use alt_file_system.Prelude.{
  ℕ, ◌<◌, ◌≡◌, ◌≢◌, refl, true, ◌&&◌, none, some, arith, ◌==◌, if◌then◌else◌, Bool-cases, inl, inr,
  ap, ◌∙◌,
}
use alt_file_system.Bytes.{Block, word_mod, word, set_word}
use alt_file_system.Bytes.Laws.{word-set_word}
use alt_file_system.Disk.{Geometry, Fs, put_block, set_disk, is_block_out_of_range}
use alt_file_system.Disk.Laws.{IsSound, put_block_self, put_block_ne, read_block-in, write_block-in}
use alt_file_system.DataBlock.{is_bad_index, read_data_block, write_data_block}
use alt_file_system.BlockMap.{entry}
use alt_file_system.BlockMap.Add.{set_entry}

-- The state with word `i` of block `b` set to `v`.
unfoldable pub put_entry : Fs → (b i v : ℕ) → Fs
put_entry s b i v = set_disk s (put_block s.disk b (set_word (s.disk b) i v))

-- A write to another block.
pub entry-put_block_ne :
    (g : Geometry) (b x j : ℕ) (c : Block) (s : Fs)
    → b ≢ x
    → entry g x j (set_disk s (put_block s.disk b c)) ≡ entry g x j s
unfolding entry read_data_block set_disk alt_file_system.Disk.read_block
entry-put_block_ne g b x j c s ne =
    ap
      (λ c'.
        Option.map (λ d. word d j)
          (if is_bad_index g x then none else if is_block_out_of_range g x then none else some c'))
      (put_block_ne s.disk b x c ne)

module _ {g : Geometry} (w : IsSound g) (b : ℕ) (lo : g.inode_block_count < b)
    (hi : b < g.block_count) where
  pub read_data_block-in : (s : Fs) → read_data_block g b s ≡ some (s.disk b)
  unfolding read_data_block is_bad_index
  read_data_block-in s = rw (read_block-in w b s hi) (ground (arith, w.small))

  pub set_entry-in : (i v : ℕ) (s : Fs) → set_entry g b i v s ≡ some (true, put_entry s b i v)
  unfolding set_entry write_data_block is_bad_index put_entry
  set_entry-in i v s =
      rw (read_data_block-in s, write_block-in w b (set_word (s.disk b) i v) s hi)
        (ground (arith, w.small))

  chosen :
      (j i v : ℕ) (s : Fs)
      → some (if i == j then v else word (s.disk b) j) ≡ (if i == j then some v else entry g b j s)
  unfolding entry
  chosen j i v s = elim (Bool-cases (i == j)) [
    | inl e ↦ rw e refl
    | inr e ↦ rw (e, read_data_block-in s) refl
  ]

  -- One word of one block changes.
  pub entry-put_entry :
      (i v x j : ℕ) (s : Fs)
      → v < word_mod
      → entry g x j (put_entry s b i v) ≡ (if b == x && i == j then some v else entry g x j s)
  unfolding entry put_entry read_data_block set_disk alt_file_system.Disk.read_block
  entry-put_entry i v x j s fits = elim (Bool-cases (b == x)) [
    | inl same ↦
        let e : b ≡ x = ground arith in
        rw (same, ← e)
          (ap (Option.map (λ c. word c j)) (read_data_block-in (put_entry s b i v))
            ∙ ap some (
                ap (λ c. word c j) (put_block_self s.disk b (set_word (s.disk b) i v))
                ∙ word-set_word (s.disk b) i v j fits)
            ∙ chosen j i v s)
    | inr other ↦ rw other (entry-put_block_ne g b x j (set_word (s.disk b) i v) s (ground arith))
  ]
