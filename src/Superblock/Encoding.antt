-- ===== src/Superblock/Encoding.antt =====
-- The superblock in block 0: its encoding reads back, and load_superblock accepts what was written.
use alt_file_system.Prelude.{
  ℕ, zero, suc, ◌+◌, ◌*◌, ◌≤◌, ◌<◌, ◌≡◌, ◌≢◌, refl, inl, inr, true, false, arith, ◌==◌, Bool-cases,
}
use alt_file_system.Bytes.{Block, word_mod, block_size, zero_block, load, store}
use alt_file_system.Bytes.Laws.{load-store_self, load-store_out}
use alt_file_system.Disk.{Geometry, Superblock, Fs, set_disk, set_superblock}
use alt_file_system.Disk.Laws.{IsSound, put_block_self, read_block-in, write_block-in}
use alt_file_system.Superblock.{
  inodes_per_block, encode_superblock, decode_superblock, is_empty_buffer, buffer_of,
  write_superblock, accept_superblock, load_superblock,
}

-- The fields fit a 64-bit word, and the counts are those of the build.
pub record IsSuperblock (g : Geometry) (sb : Superblock) : Type 0 where
  pub inodes : sb.s_inodes_count ≡ g.inode_block_count * inodes_per_block
  pub per_block : sb.s_num_of_inodes_per_block ≡ inodes_per_block
  pub first : sb.s_first_ino < word_mod
  pub head : sb.s_freelist_head < word_mod

pub decode-encode :
    (sb : Superblock)
    → sb.s_inodes_count < word_mod
    → sb.s_first_ino < word_mod
    → sb.s_freelist_head < word_mod
    → sb.s_num_of_inodes_per_block < word_mod
    → decode_superblock (encode_superblock sb) ≡ sb
unfolding decode_superblock encode_superblock
decode-encode sb p q r t =
    let b1 : Block = store 8 zero_block 0 sb.s_inodes_count in
    let b2 : Block = store 8 b1 8 sb.s_first_ino in
    let b3 : Block = store 8 b2 16 sb.s_freelist_head in
    ground (
      arith,
      load-store_self 8 zero_block 0 sb.s_inodes_count p,
      load-store_self 8 b1 8 sb.s_first_ino q,
      load-store_self 8 b2 16 sb.s_freelist_head r,
      load-store_self 8 b3 24 sb.s_num_of_inodes_per_block t,
      load-store_out 8 8 b3 24 sb.s_num_of_inodes_per_block 0 (inl (omega arith)),
      load-store_out 8 8 b3 24 sb.s_num_of_inodes_per_block 8 (inl (omega arith)),
      load-store_out 8 8 b3 24 sb.s_num_of_inodes_per_block 16 (inl (omega arith)),
      load-store_out 8 8 b2 16 sb.s_freelist_head 0 (inl (omega arith)),
      load-store_out 8 8 b2 16 sb.s_freelist_head 8 (inl (omega arith)),
      load-store_out 8 8 b1 8 sb.s_first_ino 0 (inl (omega arith)),
    )

empty_byte : (n : ℕ) (b : Block) (i : ℕ) → is_empty_buffer n b ≡ true → i < n → b i ≡ 0
unfolding is_empty_buffer
empty_byte zero b i e h = absurd (omega arith)
empty_byte (suc n) b i e h = elim (Bool-cases (i == n)) [
  | inl same ↦ ground arith
  | inr other ↦ ground (arith, empty_byte n b i)
]

empty_load : (n k : ℕ) (b : Block) (o : ℕ) → is_empty_buffer n b ≡ true → o + k ≤ n → load k b o ≡ 0
unfolding load
empty_load n zero b o e h = refl
empty_load n (suc k) b o e h =
    omega (arith, empty_byte n b o e (omega arith), empty_load n k b (o + 1) e (omega arith))

-- A buffer with a field that is not 0 does not compare equal to zeros.
not_empty : (n k : ℕ) (b : Block) (o : ℕ) → load k b o ≢ 0 → o + k ≤ n → is_empty_buffer n b ≡ false
not_empty n k b o h le = elim (Bool-cases (is_empty_buffer n b)) [
  | inl e ↦ absurd (h (empty_load n k b o e le))
  | inr e ↦ e
]

accept_superblock-set :
    {g : Geometry} (w : IsSound g) (sb : Superblock) (s : Fs)
    → IsSuperblock g sb
    → accept_superblock g sb s ≡ (true, set_superblock s sb)
unfolding accept_superblock
accept_superblock-set w sb s v = ground (arith, w.inode_blocks)

-- The block that altfs_write_superblock writes is not empty, and decodes to the superblock.
pub not_empty-encode :
    {g : Geometry} (w : IsSound g) (sb : Superblock)
    → IsSuperblock g sb
    → is_empty_buffer block_size (encode_superblock sb) ≡ false
unfolding encode_superblock
not_empty-encode w sb v =
    not_empty block_size 8 (encode_superblock sb) 24
      (λ z. absurd (
        omega (
          arith,
          v.per_block,
          load-store_self 8 _ 24 sb.s_num_of_inodes_per_block (omega (arith, v.per_block)),
        )))
      (omega arith)

pub load_superblock_of_block :
    {g : Geometry} (w : IsSound g) (sb : Superblock) (s : Fs)
    → IsSuperblock g sb
    → s.disk 0 ≡ encode_superblock sb
    → load_superblock g s ≡ (true, set_superblock s sb)
unfolding load_superblock buffer_of
load_superblock_of_block w sb s v e =
    let stored : decode_superblock (encode_superblock sb) ≡ sb =
      decode-encode sb (omega (arith, v.inodes, w.small, w.data_blocks)) v.first v.head
        (omega (arith, v.per_block)) in
    rw (read_block-in w 0 s (omega (arith, w.data_blocks)))
      (rw (e, not_empty-encode w sb v, stored) (accept_superblock-set w sb s v))

-- altfs_write_superblock, then load_superblock in a process whose superblock was anything: a superblock
-- with the counts of the build is accepted and loaded unchanged.
pub load-write_superblock :
    {g : Geometry} (w : IsSound g) (s : Fs) (old : Superblock)
    → IsSuperblock g s.superblock
    → load_superblock g (set_superblock (write_superblock g s).1 old)
      ≡ (true, (write_superblock g s).1)
unfolding write_superblock set_superblock set_disk
load-write_superblock w s old v =
    let b : Block = encode_superblock s.superblock in
    rw (write_block-in w 0 b s (omega (arith, w.data_blocks)))
      (load_superblock_of_block w s.superblock _ v (put_block_self s.disk 0 b))
