-- ===== src/Interface/Read/Range.antt =====
-- src/interface_layer.c: the loop of altfs_read over the blocks of the range.
use alt_file_system.Prelude.{
  ℕ, zero, suc, ◌+◌, ◌-◌, ◌*◌, ◌/◌, ◌%◌, ◌^◌, ◌≤◌, ◌<◌, ◌≡◌, refl, ap, subst, ◌∙◌, inl, inr, some,
  arith, ltb, ◌==◌, if◌then◌else◌, Bool-cases,
}
use alt_file_system.Bytes.{Block, block_size, word_mod}
use alt_file_system.Disk.{Geometry, Fs, minus_one}
use alt_file_system.Inode.{Inode}
use alt_file_system.BlockMap.Locate.{locate}
use alt_file_system.BlockMap.Lookup.{IsHint}
use alt_file_system.Interface.Read.{
  Buffer, memcpy, piece_start, piece_length, read_blocks, read_range,
}
use alt_file_system.Interface.Read.Contents.{HasContents, fetch-HasContents}

-- The buffer holds the `n` bytes of the file from `offset` on, and what it held behind them.
abbrev pub Filled : (contents : Buffer) (offset n : ℕ) → (before after : Buffer) → Type 0
Filled contents offset n before after =
    (p : ℕ) → after p ≡ (if ltb p n then contents (offset + p) else before p)

-- One more piece is copied behind what the buffer holds.
Filled-memcpy :
    (contents before after : Buffer) (b : Block) (offset n o len total : ℕ)
    → n + len ≡ total
    → Filled contents offset n before after
    → ((i : ℕ) → i < len → b (o + i) ≡ contents (offset + (n + i)))
    → Filled contents offset total before (memcpy after n b o len)
unfolding memcpy
Filled-memcpy contents before after b offset n o len total e h same p =
    ground (arith, h p, same (p - n))

-- bytes_read before block i of `blocks`.
abbrev taken : (offset nbytes blocks i : ℕ) → ℕ
taken offset nbytes blocks i =
    if i == 0 then 0 else if i == blocks then nbytes else block_size * i - offset % block_size

abbrev blocks_of : (offset nbytes : ℕ) → ℕ
blocks_of offset nbytes = (offset + nbytes - 1) / block_size + 1 - offset / block_size

module _ (offset nbytes i : ℕ) (pos : 0 < nbytes) (inside : i < blocks_of offset nbytes)
    (many : 1 < blocks_of offset nbytes) where
  taken_next :
      taken offset nbytes (blocks_of offset nbytes) i
        + piece_length i
            (blocks_of offset nbytes)
            (offset % block_size)
            ((offset + nbytes - 1) % block_size)
      ≡ taken offset nbytes (blocks_of offset nbytes) (i + 1)
  unfolding piece_length
  taken_next = ground arith

  -- Byte `j` of the piece is a byte of the block, and its place in the file.
  piece_place :
      (j : ℕ)
      → j
        < piece_length i
            (blocks_of offset nbytes)
            (offset % block_size)
            ((offset + nbytes - 1) % block_size)
      → (piece_start i (offset % block_size) + j < block_size)
        × (block_size * (offset / block_size + i) + (piece_start i (offset % block_size) + j)
            ≡ offset + (taken offset nbytes (blocks_of offset nbytes) i + j))
  unfolding piece_length piece_start
  piece_place j lt = ground arith

  block_inside : block_size * (offset / block_size + i) < offset + nbytes
  block_inside = ground arith

module _ (g : Geometry) (s : Fs) (node : Inode) (size : ℕ) (contents : Buffer)
    (h : HasContents g s node size contents) (offset nbytes : ℕ) (pos : 0 < nbytes)
    (fits : offset + nbytes ≤ size) where
  read_blocks-Filled :
      (n i prev : ℕ) (before buff : Buffer)
      → 1 < blocks_of offset nbytes
      → i + n ≡ blocks_of offset nbytes
      → IsHint g s node (locate (offset / block_size + i)) prev
      → Filled contents offset (taken offset nbytes (blocks_of offset nbytes) i) before buff
      → (after : Buffer) × (read_blocks g node
            (offset / block_size)
            (blocks_of offset nbytes)
            (offset % block_size)
            ((offset + nbytes - 1) % block_size)
            n
            i
            prev
            (taken offset nbytes (blocks_of offset nbytes) i)
            buff
            s
          ≡ some (some nbytes, after))
        × Filled contents offset nbytes before after
  unfolding read_blocks
  read_blocks-Filled zero i prev before buff many e hint filled =
      let all : taken offset nbytes (blocks_of offset nbytes) i ≡ nbytes = ground arith in
      (buff, rw all refl, subst (λ m. Filled contents offset m before buff) all filled)
  read_blocks-Filled (suc n) i prev before buff many e hint filled =
      let within : i < blocks_of offset nbytes = omega arith in
      let (b, next, got, hint', same) =
        fetch-HasContents g s node size contents h (offset / block_size + i) prev
          (omega (arith, block_inside offset nbytes i pos within many)) hint in
      let place = piece_place offset nbytes i pos within many in
      let step = taken_next offset nbytes i pos within many in
      let done_before = taken offset nbytes (blocks_of offset nbytes) i in
      let len =
        piece_length i (blocks_of offset nbytes) (offset % block_size)
          ((offset + nbytes - 1) % block_size) in
      let (after, ran, done) =
        read_blocks-Filled n (i + 1) next before
          (memcpy buff done_before b (piece_start i (offset % block_size)) len) many (omega arith)
          (subst (λ l. IsHint g s node (locate l) next) (omega arith) hint')
          (Filled-memcpy contents before buff b offset done_before
            (piece_start i (offset % block_size)) len
            (taken offset nbytes (blocks_of offset nbytes) (i + 1)) step filled
            (λ j lt. same _ (place j lt).0 ∙ ap contents (place j lt).1)) in
      (after, simp (read_blocks, got, step, ran), done)

  -- The range is within a file of less than 2^63 bytes: its bytes fill the buffer.
  pub read_range-Filled :
      (before : Buffer)
      → size < 2 ^ 63
      → (after : Buffer) × (read_range g node nbytes offset before s ≡ some (some nbytes, after))
        × Filled contents offset nbytes before after
  unfolding read_range
  read_range-Filled before small =
      let no_wrap : (offset + nbytes + minus_one) % word_mod ≡ offset + nbytes - 1 = omega arith in
      elim (Bool-cases (blocks_of offset nbytes == 1)) [
        | inl single ↦
            let (b, next, got, hint, same) =
              fetch-HasContents g s node size contents h (offset / block_size) 0 (omega arith)
                (inl refl) in
            (
              memcpy before 0 b (offset % block_size) nbytes,
              simp (read_range, no_wrap, single, got),
              Filled-memcpy contents before before b offset 0 (offset % block_size) nbytes nbytes
                  (omega arith) (λ p. ground arith)
                  (λ j lt. same _ (ground arith) ∙ ap contents (ground arith)),
            )
        | inr several ↦
            let (after, ran, done) =
              read_blocks-Filled (blocks_of offset nbytes) 0 0 before before (ground arith)
                (omega arith) (inl refl) (λ p. ground arith) in
            (after, simp (read_range, no_wrap, several, ran), done)
      ]
