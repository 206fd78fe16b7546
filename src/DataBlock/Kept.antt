-- ===== src/DataBlock/Kept.antt =====
-- allocate_data_block and free_data_block of src/data_block_ops.c change no field of the superblock but the
-- head of the free list.
use alt_file_system.Prelude.{
  ℕ, ap, ◌∙◌, ◌==◌, Bool-cases, ◌≡◌, Option, none, some, arith, refl, inl, inr, Option-cases,
}
use alt_file_system.Bytes.{Block, zero_block, word, set_word}
use alt_file_system.Disk.{
  Geometry, Superblock, Fs, read_block, write_block, set_disk, set_superblock,
  is_block_out_of_range,
}
use alt_file_system.Superblock.{encode_superblock, set_freelist_head, write_superblock}
use alt_file_system.DataBlock.{
  find_used, hand_out, allocate_head, allocate_from, allocate_data_block, is_bad_index, find_unused,
  free_into, free_at_head, free_data_block,
}

-- The fields are those of `b`, but the head of the free list.
pub record SameCounts (a b : Superblock) : Type 0 where
  pub inodes : a.s_inodes_count ≡ b.s_inodes_count
  pub first : a.s_first_ino ≡ b.s_first_ino
  pub per_block : a.s_num_of_inodes_per_block ≡ b.s_num_of_inodes_per_block

superblock-write_block_kept :
    (g : Geometry) (i : ℕ) (b : Block) (s : Fs) → (write_block g i b s).1.superblock ≡ s.superblock
unfolding write_block set_disk is_block_out_of_range
superblock-write_block_kept g i b s = ground arith

superblock-hand_out :
    (g : Geometry) (temp : ℕ) (b : Block) (a : ℕ) (s : Fs)
    → (hand_out g temp b a s).1.superblock ≡ s.superblock
unfolding hand_out
superblock-hand_out g temp b a s = ground (
  arith,
  superblock-write_block_kept g temp b s,
  superblock-write_block_kept g a zero_block (write_block g temp b s).1,
)

allocate_head-SameCounts :
    (g : Geometry) (temp : ℕ) (b : Block) (s : Fs)
    → SameCounts (allocate_head g temp b s).1.superblock s.superblock
unfolding allocate_head write_superblock set_freelist_head set_superblock
allocate_head-SameCounts g temp b s =
    let s1 : Fs = set_freelist_head s (word b 0) in
    let wrote = superblock-write_block_kept g 0 (encode_superblock s1.superblock) s1 in
    let handed = superblock-hand_out g temp (set_word b 0 0) temp (write_superblock g s1).1 in
    record {
      inodes = ground (arith, ap (λ x. x.s_inodes_count) wrote, ap (λ x. x.s_inodes_count) handed);
      first = ground (arith, ap (λ x. x.s_first_ino) wrote, ap (λ x. x.s_first_ino) handed);
      per_block = ground (
        arith,
        ap (λ x. x.s_num_of_inodes_per_block) wrote,
        ap (λ x. x.s_num_of_inodes_per_block) handed,
      );
    }

pub equal-SameCounts : {a b : Superblock} → a ≡ b → SameCounts a b
equal-SameCounts e = record {
  inodes = ap (λ x. x.s_inodes_count) e;
  first = ap (λ x. x.s_first_ino) e;
  per_block = ap (λ x. x.s_num_of_inodes_per_block) e;
}

allocate_from-SameCounts :
    (g : Geometry) (temp : ℕ) (b : Block) (found : Option ℕ) (s : Fs)
    → SameCounts (allocate_from g temp b found s).1.superblock s.superblock
unfolding allocate_from
allocate_from-SameCounts g temp b (some i) s =
    equal-SameCounts (superblock-hand_out g temp (set_word b i 0) (word b i) s)
allocate_from-SameCounts g temp b none s = allocate_head-SameCounts g temp b s

pub allocate_data_block-SameCounts :
    (g : Geometry) (s : Fs) → SameCounts (allocate_data_block g s).1.superblock s.superblock
unfolding allocate_data_block
allocate_data_block-SameCounts g s = elim (Bool-cases (s.superblock.s_freelist_head == 0)) [
  | inl empty ↦ rw empty (equal-SameCounts refl)
  | inr more ↦ elim (Option-cases (read_block g s.superblock.s_freelist_head s)) [
    | inl unread ↦ rw (more, unread) (equal-SameCounts refl)
    | inr (b, got) ↦
        rw (more, got)
          (allocate_from-SameCounts g s.superblock.s_freelist_head b (find_used 511 b 1) s)
  ]
]

pub SameCounts-trans : {a b c : Superblock} → SameCounts a b → SameCounts b c → SameCounts a c
SameCounts-trans h k = record {
  inodes = h.inodes ∙ k.inodes;
  first = h.first ∙ k.first;
  per_block = h.per_block ∙ k.per_block;
}

head-SameCounts :
    (g : Geometry) (h : ℕ) (s : Fs)
    → SameCounts (write_superblock g (set_freelist_head s h)).1.superblock s.superblock
unfolding write_superblock set_freelist_head set_superblock
head-SameCounts g h s =
    let s1 : Fs = set_freelist_head s h in
    let wrote = superblock-write_block_kept g 0 (encode_superblock s1.superblock) s1 in
    record {
      inodes = ap (λ x. x.s_inodes_count) wrote;
      first = ap (λ x. x.s_first_ino) wrote;
      per_block = ap (λ x. x.s_num_of_inodes_per_block) wrote;
    }

free_into-SameCounts :
    (g : Geometry) (index : ℕ) (b : Block) (found : Option ℕ) (s : Fs)
    → SameCounts (free_into g index b found s).1.superblock s.superblock
unfolding free_into
free_into-SameCounts g index b (some i) s =
    equal-SameCounts (superblock-write_block_kept g s.superblock.s_freelist_head _ s)
free_into-SameCounts g index b none s =
    let s1 : Fs = (write_superblock g (set_freelist_head s index)).1 in
    let c : Block = set_word zero_block 0 s.superblock.s_freelist_head in
    elim (Bool-cases (write_superblock g (set_freelist_head s index)).0) [
      | inl ok ↦ rw ok (
          SameCounts-trans (equal-SameCounts (superblock-write_block_kept g index c s1))
            (head-SameCounts g index s))
      | inr bad ↦ rw bad (head-SameCounts g index s)
    ]

free_at_head-SameCounts :
    (g : Geometry) (index : ℕ) (s : Fs)
    → SameCounts (free_at_head g index s).1.superblock s.superblock
unfolding free_at_head
free_at_head-SameCounts g index s =
    elim (Option-cases (read_block g s.superblock.s_freelist_head s)) [
      | inl unread ↦ rw (free_at_head, unread) (equal-SameCounts refl)
      | inr (b, got) ↦
          rw (free_at_head, got) (free_into-SameCounts g index b (find_unused 511 b 1) s)
    ]

-- free_data_block changes no other field either.
pub free_data_block-SameCounts :
    (g : Geometry) (index : ℕ) (s : Fs)
    → SameCounts (free_data_block g index s).1.superblock s.superblock
unfolding free_data_block
free_data_block-SameCounts g index s = elim (Bool-cases (is_bad_index g index)) [
  | inl bad ↦ rw bad (equal-SameCounts refl)
  | inr good ↦ elim (Bool-cases (s.superblock.s_freelist_head == 0)) [
    | inr more ↦ rw (good, more) (free_at_head-SameCounts g index s)
    | inl empty ↦
        let s1 : Fs = (write_superblock g (set_freelist_head s index)).1 in
        let head = head-SameCounts g index s in
        elim (Bool-cases (write_superblock g (set_freelist_head s index)).0) [
          | inl ok ↦
              rw (good, empty, ok) (SameCounts-trans (free_at_head-SameCounts g index s1) head)
          | inr failed ↦ rw (good, empty, failed) head
        ]
  ]
]
