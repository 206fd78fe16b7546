-- ===== src/Interface/Write/Bounds.antt =====
-- src/interface_layer.c, altfs_write: how many bytes of the buffer each block takes.
use alt_file_system.Prelude.{
  ℕ, zero, suc, ◌+◌, ◌-◌, ◌*◌, ◌/◌, ◌%◌, ◌^◌, ◌≤◌, ◌<◌, ◌≡◌, ◌≢◌, ap, subst, ◌∙◌, Bool, ◌⊎◌, inl,
  inr, true, false, not, ◌&&◌, min, Option, some, arith, ◌==◌, Option-cases, Bool-cases,
}
use alt_file_system.Bytes.{Block, block_size, zero_block}
use alt_file_system.Disk.{Geometry, Fs, is_negative}
use alt_file_system.DataBlock.{read_data_block, write_data_block}
use alt_file_system.Inode.{Inode}
use alt_file_system.BlockMap.{get_disk_block_from_inode_block, is_not_positive}
use alt_file_system.Interface.Read.{Buffer}
use alt_file_system.Interface.Write.{
  Progress, returned, written_so_far, partial_result, first_piece, bytes_into, new_bytes,
  after_piece, overwritten, write_allocated,
}

-- How many of the `nbytes` bytes from `offset` on lie before logical block k.
abbrev pub bytes_before : (offset nbytes k : ℕ) → ℕ
bytes_before offset nbytes k = min nbytes (block_size * k - offset)

-- The last logical block of the range.
abbrev pub last_block : (offset nbytes : ℕ) → ℕ
last_block offset nbytes = (offset + nbytes - 1) / block_size

module _ (offset nbytes : ℕ) (pos : 0 < nbytes) (no_wrap : offset + nbytes < 2 ^ 63) where
  pub bytes_into-bytes_before :
      (i : ℕ)
      → offset / block_size ≤ i
      → i ≤ last_block offset nbytes
      → bytes_before offset nbytes i
          + bytes_into i
              (offset / block_size)
              (last_block offset nbytes)
              (offset % block_size)
              ((offset + nbytes - 1) % block_size)
              nbytes
        ≡ bytes_before offset nbytes (i + 1)
  unfolding bytes_into first_piece
  bytes_into-bytes_before i above below = ground arith

  pub new_bytes-bytes_before :
      (blocks j : ℕ)
      → 1 ≤ j
      → blocks + j ≤ last_block offset nbytes + 1
      → bytes_before offset nbytes (blocks + j - 1)
          + new_bytes j
              (offset / block_size + 1 - blocks)
              (last_block offset nbytes + 1 - blocks)
              (offset % block_size)
              ((offset + nbytes - 1) % block_size)
              nbytes
        ≡ bytes_before offset nbytes (blocks + j)
  unfolding new_bytes first_piece
  new_bytes-bytes_before blocks j from_one below = ground arith

  -- What a loop may leave: a result that is negative or at most nbytes, or the bytes before the blocks to add.
  abbrev pub Within : (blocks : ℕ) → Progress → Type 0
  Within blocks (returned r) = (r ≤ nbytes) ⊎ (is_negative r ≡ true)
  Within blocks (written_so_far b) = b ≡ bytes_before offset nbytes blocks

  partial_result-Within : (blocks b : ℕ) → b ≤ nbytes → Within blocks (returned (partial_result b))
  unfolding partial_result
  partial_result-Within blocks b le = ground arith

  after_piece-Within :
      (blocks i total : ℕ) (written : Bool) (t t' : Fs) (rest : Option (Progress × Fs))
      (p : Progress)
      → i < blocks
      → i ≤ last_block offset nbytes
      → total ≡ bytes_before offset nbytes (i + 1)
      → (i ≢ last_block offset nbytes → rest ≡ some (p, t') → Within blocks p)
      → after_piece i (last_block offset nbytes) total written t rest ≡ some (p, t')
      → Within blocks p
  unfolding after_piece
  after_piece-Within blocks i total false t t' rest p inside below e h ran =
      let failed : returned (partial_result total) ≡ p = ground (arith, ran) in
      subst (Within blocks) failed (partial_result-Within blocks total (ground arith))
  after_piece-Within blocks i total true t t' rest p inside below e h ran =
      elim (Bool-cases (i == last_block offset nbytes)) [
        | inl end ↦
            let done : written_so_far total ≡ p = ground (arith, ran) in
            subst (Within blocks) done (ground arith)
        | inr more ↦ h (ground arith) (ground (arith, ran))
      ]

  -- The bytes that the first loop puts into block i.
  abbrev pub into : ℕ → ℕ
  into i =
      bytes_into i (offset / block_size) (last_block offset nbytes) (offset % block_size)
        ((offset + nbytes - 1) % block_size) nbytes

  module _ (g : Geometry) (node : Inode) (buff : Buffer) where
    abbrev pub rounds : (n i prev b : ℕ) → Fs → Option (Progress × Fs)
    rounds =
        write_allocated g node buff (offset / block_size) (last_block offset nbytes)
          (offset % block_size) ((offset + nbytes - 1) % block_size) nbytes

    -- The block that a round writes.
    abbrev pub piece : (i b : ℕ) → Block → Block
    piece i b =
        overwritten buff i (offset / block_size) (last_block offset nbytes) (offset % block_size)
          ((offset + nbytes - 1) % block_size) nbytes b

    round-Within :
        (n i next b : ℕ) (outcome : Bool × Fs) (t : Fs) (p : Progress)
        → i < node.i_blocks_num
        → offset / block_size ≤ i
        → i ≤ last_block offset nbytes
        → b ≡ bytes_before offset nbytes i
        → (i + 1 ≤ last_block offset nbytes
            → b + into i ≡ bytes_before offset nbytes (i + 1)
            → rounds n (i + 1) next (b + into i) outcome.1 ≡ some (p, t)
            → Within node.i_blocks_num p)
        → after_piece i
            (last_block offset nbytes)
            (b + into i)
            outcome.0
            outcome.1
            (rounds n (i + 1) next (b + into i) outcome.1)
          ≡ some (p, t)
        → Within node.i_blocks_num p
    round-Within n i next b outcome t p inside above below sum rest went =
        let total : b + into i ≡ bytes_before offset nbytes (i + 1) =
          ap (λ m. m + into i) sum ∙ bytes_into-bytes_before i above below in
        after_piece-Within node.i_blocks_num i (b + into i) outcome.0 outcome.1 t
          (rounds n (i + 1) next (b + into i) outcome.1) p inside below total
          (λ more. rest (omega arith) total) went

    pub write_allocated-Within :
        (n i prev b : ℕ) (s t : Fs) (p : Progress)
        → i + n ≡ node.i_blocks_num
        → offset / block_size ≤ i
        → i ≤ last_block offset nbytes
        → b ≡ bytes_before offset nbytes i
        → rounds n i prev b s ≡ some (p, t)
        → Within node.i_blocks_num p
    unfolding write_allocated
    write_allocated-Within zero i prev b s t p e above below sum ran =
        let done : written_so_far b ≡ p = ground (arith, ran) in
        subst (Within node.i_blocks_num) done (ground arith)
    write_allocated-Within (suc n) i prev b s t p e above below sum ran =
        let early : returned (partial_result b) ≡ p → Within node.i_blocks_num p = λ failed.
          subst (Within node.i_blocks_num) failed
            (partial_result-Within node.i_blocks_num b (ground arith)) in
        let round : (next : ℕ) (outcome : Bool × Fs)
            → after_piece i (last_block offset nbytes) (b + into i) outcome.0 outcome.1
                (rounds n (i + 1) next (b + into i) outcome.1)
              ≡ some (p, t)
            → Within node.i_blocks_num p =
          λ next outcome.
            round-Within n i next b outcome t p (omega arith) above below sum (λ more total.
              write_allocated-Within n (i + 1) next (b + into i) outcome.1 t p (omega arith)
                (omega arith) more total) in
        elim (Option-cases (get_disk_block_from_inode_block g node i prev s)) [
          | inl missing ↦ absurd (ground (arith, simp (write_allocated, missing) at ran))
          | inr ((d, next), found) ↦ elim (Bool-cases (is_not_positive d)) [
            | inl bad ↦ early (ground (arith, simp (write_allocated, found, bad) at ran))
            | inr good ↦
                elim (Bool-cases
                  (not (i == offset / block_size) && not (i == last_block offset nbytes))) [
                    | inl whole ↦
                        round next (write_data_block g d (piece i b zero_block) s)
                          (simp (write_allocated, found, good, whole) at ran)
                    | inr part ↦ elim (Option-cases (read_data_block g d s)) [
                      | inl unread ↦
                          early (
                            ground
                              (arith, simp (write_allocated, found, good, part, unread) at ran))
                      | inr (old, read) ↦
                          round next (write_data_block g d (piece i b old) s)
                            (simp (write_allocated, found, good, part, read) at ran)
                    ]
                  ]
          ]
        ]
