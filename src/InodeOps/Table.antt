-- ===== src/InodeOps/Table.antt =====
-- src/inode_ops.c, get_inode and write_inode: the inode blocks as one table of inodes.
use alt_file_system.Prelude.{
  ℕ, ◌+◌, ◌/◌, ◌%◌, ◌<◌, ◌≡◌, refl, ap, inl, inr, true, false, ◌&&◌, none, some, arith, ltb, ◌==◌,
  if◌then◌else◌, Bool-cases,
}
use alt_file_system.Bytes.{Block}
use alt_file_system.Disk.{Geometry, Fs, put_block, set_disk}
use alt_file_system.Disk.Laws.{IsSound, put_block_self, put_block_ne, read_block-in, write_block-in}
use alt_file_system.Superblock.Encoding.{IsSuperblock}
use alt_file_system.Inode.{Inode, inode_at, set_inode}
use alt_file_system.Inode.Layout.{IsInode, inode_at-set_inode_self, inode_at-set_inode_ne}
use alt_file_system.InodeOps.{is_valid_inode_number, inum_to_block_pos, get_inode, write_inode}

-- Inode `i` of the table.
unfoldable pub inode_of : Fs → ℕ → Inode
inode_of s i = inode_at (s.disk (1 + i / 18)) (i % 18)

module _ {g : Geometry} (w : IsSound g) where
  pub block_of_inum :
      (i : ℕ) (s : Fs) → IsSuperblock g s.superblock → (inum_to_block_pos i s).0 ≡ 1 + i / 18
  unfolding inum_to_block_pos
  block_of_inum i s v = ap (λ m. 1 + i / m) v.per_block

  pub offset_of_inum :
      (i : ℕ) (s : Fs) → IsSuperblock g s.superblock → (inum_to_block_pos i s).1 ≡ i % 18
  unfolding inum_to_block_pos
  offset_of_inum i s v = ap (λ m. i % m) v.per_block

  pub is_valid_inode_number_lem :
      (i : ℕ) (s : Fs)
      → IsSuperblock g s.superblock
      → is_valid_inode_number i s ≡ ltb i s.superblock.s_inodes_count
  unfolding is_valid_inode_number
  is_valid_inode_number_lem i s v = ground (arith, v.inodes, w.small, w.data_blocks)

  -- The block of a valid inode is on the disk.
  pub inode_block-lt :
      (i : ℕ) (s : Fs)
      → IsSuperblock g s.superblock
      → i < s.superblock.s_inodes_count
      → 1 + i / 18 < g.block_count
  inode_block-lt i s v h = omega (arith, v.inodes, w.data_blocks)

  pub get_inode-in :
      (i : ℕ) (s : Fs)
      → IsSuperblock g s.superblock
      → get_inode g i s ≡ (if ltb i s.superblock.s_inodes_count then some (inode_of s i) else none)
  unfolding get_inode inode_of
  get_inode-in i s v = elim (Bool-cases (ltb i s.superblock.s_inodes_count)) [
    | inl lt ↦
        rw (is_valid_inode_number_lem i s v, block_of_inum i s v, lt)
          (rw
            (
              read_block-in w (1 + i / 18) s (inode_block-lt i s v (ground arith)),
              offset_of_inum i s v,
            )
            refl)
    | inr ge ↦ rw (is_valid_inode_number_lem i s v, ge) refl
  ]

  pub write_inode-in :
      (i : ℕ) (n : Inode) (s : Fs)
      → IsSuperblock g s.superblock
      → i < s.superblock.s_inodes_count
      → write_inode g i n s ≡ (
        true,
        set_disk s (put_block s.disk (1 + i / 18) (set_inode (s.disk (1 + i / 18)) (i % 18) n)),
      )
  unfolding write_inode
  write_inode-in i n s v h =
      let lt : ltb i s.superblock.s_inodes_count ≡ true = ground arith in
      rw (is_valid_inode_number_lem i s v, block_of_inum i s v, lt)
        (rw
          (
            read_block-in w (1 + i / 18) s (inode_block-lt i s v h),
            offset_of_inum i s v,
            block_of_inum i s v,
          )
          (write_block-in w (1 + i / 18) _ s (inode_block-lt i s v h)))

  write_inode-out :
      (i : ℕ) (n : Inode) (s : Fs)
      → IsSuperblock g s.superblock
      → ltb i s.superblock.s_inodes_count ≡ false
      → write_inode g i n s ≡ (false, s)
  unfolding write_inode
  write_inode-out i n s v h = rw (is_valid_inode_number_lem i s v, h) refl

  -- Storing an inode in its block changes that entry of the table and no other.
  pub inode_of-put :
      (i j : ℕ) (n : Inode) (s : Fs)
      → IsInode n
      → inode_of
          (set_disk s (put_block s.disk (1 + i / 18) (set_inode (s.disk (1 + i / 18)) (i % 18) n)))
          j
        ≡ (if i == j then n else inode_of s j)
  unfolding inode_of set_disk
  inode_of-put i j n s v =
      let b : Block = s.disk (1 + i / 18) in
      let c : Block = set_inode b (i % 18) n in
      elim (Bool-cases (i == j)) [
        | inl same ↦
            let e : i ≡ j = ground arith in
            rw (same, ← e)
              (rw (put_block_self s.disk (1 + i / 18) c) (inode_at-set_inode_self b (i % 18) n v))
        | inr other ↦ rw other (elim (Bool-cases (i / 18 == j / 18)) [
          | inl block ↦
              let e : i / 18 ≡ j / 18 = ground arith in
              rw (← e) (
                rw (put_block_self s.disk (1 + i / 18) c)
                  (inode_at-set_inode_ne b (i % 18) (j % 18) n v (ground arith)))
          | inr blocks ↦ rw (put_block_ne s.disk (1 + i / 18) (1 + j / 18) c (ground arith)) refl
        ])
      ]

  -- write_inode, then get_inode: the write succeeds exactly when its number is below s_inodes_count;
  -- then that number reads back as the inode written and every other number as before, and a write
  -- that fails changes no read. This for inodes whose values fit their fields, under a superblock
  -- with the counts of the build.
  pub get_inode-write_inode :
      (i j : ℕ) (n : Inode) (s : Fs)
      → IsSuperblock g s.superblock
      → IsInode n
      → ((write_inode g i n s).0 ≡ ltb i s.superblock.s_inodes_count)
        × (get_inode g j (write_inode g i n s).1
            ≡ (if ltb i s.superblock.s_inodes_count && i == j then some n else get_inode g j s))
  unfolding set_disk
  get_inode-write_inode i j n s v fits =
      let written : Fs =
        set_disk s (put_block s.disk (1 + i / 18) (set_inode (s.disk (1 + i / 18)) (i % 18) n)) in
      elim (Bool-cases (ltb i s.superblock.s_inodes_count)) [
        | inl lt ↦
            rw (write_inode-in i n s v (ground arith), lt, get_inode-in j written v)
              (refl, rw (inode_of-put i j n s fits) (rw (get_inode-in j s v) (ground arith)))
        | inr ge ↦ rw (write_inode-out i n s v ge, ge) (refl, refl)
      ]
