-- ===== src/Interface/Write/InPlace.antt =====
-- src/interface_layer.c, altfs_write within the blocks that a file has, where these are direct blocks.
use alt_file_system.Prelude.{
  ℕ, zero, suc, ◌+◌, ◌-◌, ◌*◌, ◌/◌, ◌^◌, ◌≤◌, ◌<◌, ◌≡◌, refl, ap, ◌∙◌, inl, inr, true, not, ◌&&◌,
  some, arith, ltb, leb, ◌==◌, if◌then◌else◌, Bool-cases,
}
use alt_file_system.Bytes.{Block, block_size, zero_block}
use alt_file_system.Disk.{Geometry, Fs, put_block, set_disk}
use alt_file_system.Disk.Laws.{IsSound}
use alt_file_system.Inode.{Inode}
use alt_file_system.BlockMap.Direct.{
  direct_at, HasDirectBlocks, direct_read, direct_write, direct_lookup, direct_positive,
}
use alt_file_system.Interface.Read.{Buffer, memcpy}
use alt_file_system.Interface.Write.{
  written_so_far, first_piece, bytes_into, overwritten, after_piece, write_allocated,
}
use alt_file_system.Interface.Write.Bounds.{
  bytes_before, last_block, bytes_into-bytes_before, into, rounds, piece,
}

-- The byte at place `p` of a file after a write, from the byte before.
abbrev pub written_byte : Buffer → (offset nbytes p old : ℕ) → ℕ
written_byte buff offset nbytes p old =
    if leb offset p && ltb p (offset + nbytes) then buff (p - offset) else old

module _ (offset nbytes : ℕ) (pos : 0 < nbytes) (no_wrap : offset + nbytes < 2 ^ 63) (g : Geometry)
    (node : Inode) (buff : Buffer) where
  piece-written_byte :
      (i o b : ℕ) (old : Block)
      → offset / block_size ≤ i
      → i ≤ last_block offset nbytes
      → o < block_size
      → b ≡ bytes_before offset nbytes i
      → piece offset nbytes pos no_wrap g node buff i b old o
        ≡ written_byte buff offset nbytes (block_size * i + o) (old o)
  unfolding overwritten memcpy bytes_into first_piece
  piece-written_byte i o b old above below lt sum =
      let fst : (i ≡ offset / block_size) → b ≡ 0 = λ e. ground arith in ground (arith, ap buff)

  module _ (sound : IsSound g) (direct : HasDirectBlocks g node) (i : ℕ)
      (inside : i < node.i_blocks_num) (s : Fs) where
    -- The world after a round that writes the block from `c`.
    abbrev stored : (b : ℕ) (c : Block) → Fs
    stored b c =
        set_disk s
          (put_block s.disk (direct_at node i) (piece offset nbytes pos no_wrap g node buff i b c))

    -- One round writes the block and goes on, or ends with the range.
    round_eq :
        (n prev b : ℕ)
        → offset / block_size ≤ i
        → i ≤ last_block offset nbytes
        → b ≡ bytes_before offset nbytes i
        → (c : Block) × (rounds offset nbytes pos no_wrap g node buff (suc n) i prev b s
            ≡ after_piece i
                (last_block offset nbytes)
                (b + into offset nbytes pos no_wrap i)
                true
                (stored b c)
                (rounds offset nbytes pos no_wrap g node buff n
                  (i + 1)
                  prev
                  (b + into offset nbytes pos no_wrap i)
                  (stored b c)))
          × ((o : ℕ)
              → o < block_size
              → piece offset nbytes pos no_wrap g node buff i b c o
                ≡ written_byte buff offset nbytes
                    (block_size * i + o)
                    (s.disk (direct_at node i) o))
    unfolding write_allocated
    round_eq n prev b above below sum =
        elim (Bool-cases (not (i == offset / block_size) && not (i == last_block offset nbytes))) [
          | inl whole ↦ (
            zero_block,
            simp (
              write_allocated,
              direct_lookup sound direct i inside s prev,
              direct_positive sound direct i inside s,
              whole,
              direct_write sound direct i inside s
                  (piece offset nbytes pos no_wrap g node buff i b zero_block),
            ),
            λ o lt.
                piece-written_byte i o b zero_block above below lt sum
                ∙ covered o lt (ground arith) (ground arith),
          )
          | inr part ↦ (
            s.disk (direct_at node i),
            simp (
              write_allocated,
              direct_lookup sound direct i inside s prev,
              direct_positive sound direct i inside s,
              part,
              direct_read sound direct i inside s,
              direct_write sound direct i inside s
                  (piece offset nbytes pos no_wrap g node buff i b (s.disk (direct_at node i))),
            ),
            λ o lt. piece-written_byte i o b (s.disk (direct_at node i)) above below lt sum,
          )
        ]
      where
        -- A block between the first and the last is written whole.
        covered :
            (o : ℕ)
            → o < block_size
            → offset / block_size < i
            → i < last_block offset nbytes
            → written_byte buff offset nbytes (block_size * i + o) (zero_block o)
              ≡ written_byte buff offset nbytes (block_size * i + o) (s.disk (direct_at node i) o)
        covered o lt after before = ground arith

  module _ (sound : IsSound g) (direct : HasDirectBlocks g node) (l o : ℕ)
      (l_inside : l < node.i_blocks_num) (o_inside : o < block_size)
      (covers : last_block offset nbytes < node.i_blocks_num) where
    pub loop_written :
        (n i prev b : ℕ) (s : Fs)
        → i + n ≡ node.i_blocks_num
        → offset / block_size ≤ i
        → i ≤ last_block offset nbytes
        → b ≡ bytes_before offset nbytes i
        → (t : Fs) × (rounds offset nbytes pos no_wrap g node buff n i prev b s
            ≡ some (written_so_far nbytes, t))
          × (t.superblock ≡ s.superblock)
          × (t.disk (direct_at node l) o ≡ (
              if leb i l
              then written_byte buff offset nbytes
                  (block_size * l + o)
                  (s.disk (direct_at node l) o)
              else s.disk (direct_at node l) o))
    unfolding after_piece set_disk put_block
    loop_written zero i prev b s e above below sum = absurd (omega arith)
    loop_written (suc n) i prev b s e above below sum =
        let inside : i < node.i_blocks_num = omega arith in
        let (c, went, bytes) = round_eq sound direct i inside s n prev b above below sum in
        let t1 : Fs = stored sound direct i inside s b c in
        let total : b + into offset nbytes pos no_wrap i ≡ bytes_before offset nbytes (i + 1) =
          ap (λ m. m + into offset nbytes pos no_wrap i) sum
          ∙ bytes_into-bytes_before offset nbytes pos no_wrap i above below in
        let now : t1.disk (direct_at node l) o ≡ (
            if i == l
            then written_byte buff offset nbytes (block_size * l + o) (s.disk (direct_at node l) o)
            else s.disk (direct_at node l) o) =
          ground (arith, bytes o o_inside, direct.apart i l inside l_inside) in
        elim (Bool-cases (i == last_block offset nbytes)) [
          | inl end ↦
              let done : b + into offset nbytes pos no_wrap i ≡ nbytes = ground (arith, total) in
              (t1, went ∙ simp (after_piece, end, done), refl, ground (arith, now))
          | inr more ↦
              let (t, ran, sb, byte) =
                loop_written n (i + 1) prev (b + into offset nbytes pos no_wrap i) t1 (omega arith)
                  (omega arith) (ground arith) total in
              (t, went ∙ simp (after_piece, more, ran), sb, ground (arith, now, byte))
        ]
