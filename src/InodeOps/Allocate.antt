-- ===== src/InodeOps/Allocate.antt =====
-- src/inode_ops.c, allocate_inode: what the call does to the inode table and to s_first_ino.
use alt_file_system.Prelude.{
  ℕ, ◌+◌, ◌-◌, ◌/◌, ◌%◌, ◌≤◌, ◌<◌, ◌≡◌, refl, ap, sym, ◌∙◌, inl, inr, true, false, arith, ltb, ◌==◌,
  if◌then◌else◌, Bool-cases,
}
use alt_file_system.Bytes.{Block}
use alt_file_system.Disk.{Geometry, Fs, put_block, set_disk, set_superblock}
use alt_file_system.Disk.Laws.{IsSound, put_block_self, put_block_ne, read_block-in, write_block-in}
use alt_file_system.Superblock.{encode_superblock, write_superblock}
use alt_file_system.Superblock.Encoding.{IsSuperblock}
use alt_file_system.Inode.{Inode, set_inode}
use alt_file_system.Inode.Layout.{IsInode}
use alt_file_system.InodeOps.{
  set_first_ino, scan_inodes, next_first_ino, allocate_in_block, allocate_inode,
}
use alt_file_system.InodeOps.Table.{
  inode_of, block_of_inum, offset_of_inum, is_valid_inode_number_lem, inode_block-lt, inode_of-put,
}
use alt_file_system.InodeOps.Least.{Least}
use alt_file_system.InodeOps.Scan.{scan_above-Least}

-- The inode that allocate_inode leaves.
abbrev pub taken_inode : Inode → Inode
taken_inode n = record n { i_links_count = 0; i_allocated = true }

-- altfs_superblock->s_first_ino = q, and altfs_write_superblock()
unfoldable pub with_first : Fs → ℕ → Fs
unfolding set_first_ino set_superblock set_disk
with_first s q =
    let s1 = set_first_ino s q in
    set_disk s1 (put_block s1.disk 0 (encode_superblock s1.superblock))

pub write_superblock-first :
    {g : Geometry} (w : IsSound g) (s : Fs) (q : ℕ)
    → write_superblock g (set_first_ino s q) ≡ (true, with_first s q)
unfolding write_superblock with_first
write_superblock-first w s q =
    write_block-in w 0 (encode_superblock (set_first_ino s q).superblock) (set_first_ino s q)
      (omega arith)

-- The inode table does not stand in block 0.
pub inode_of-with_first : (s : Fs) (q i : ℕ) → inode_of (with_first s q) i ≡ inode_of s i
unfolding inode_of with_first set_first_ino set_superblock set_disk
inode_of-with_first s q i =
    rw (put_block_ne s.disk 0 (1 + i / 18) _ (λ z. absurd (omega arith))) refl

-- The state after allocate_inode stored inode `i` of its block.
abbrev pub stored : Fs → ℕ → Inode → Fs
stored s i n =
    set_disk s (put_block s.disk (1 + i / 18) (set_inode (s.disk (1 + i / 18)) (i % 18) n))

-- What a call of allocate_inode that hands out `i` leaves: the inode numbers above are searched
-- for the next s_first_ino, `q`.
allocate_in_block-in :
    {g : Geometry} (w : IsSound g) (s : Fs) (i : ℕ)
    → IsSuperblock g s.superblock
    → i < s.superblock.s_inodes_count
    → (inode_of s i).i_allocated ≡ false
    → (q : ℕ) × (allocate_in_block g i (1 + i / 18) (i % 18) (s.disk (1 + i / 18)) s
        ≡ (i, with_first (stored s i (taken_inode (inode_of s i))) q))
      × Least (stored s i (taken_inode (inode_of s i))) (i + 1) q
unfolding allocate_in_block inode_of set_disk
allocate_in_block-in {g} w s i v lt free = (
  next_first_ino g i
      (scan_inodes g g.inode_block_count (1 + i / 18) (i % 18 + 1) 0
        (s.superblock.s_inodes_count - i + 1) b s1)
      s1,
  rw free (
      rw (write_block-in w (1 + i / 18) b s (inode_block-lt w i s v lt))
        (rw (write_superblock-first w s1 _) refl)),
  scan_above-Least w i (1 + i / 18) b s1 v lt (omega arith)
      (sym (put_block_self s.disk (1 + i / 18) b)),
)
  where
    b : Block
    b = set_inode (s.disk (1 + i / 18)) (i % 18) (taken_inode (inode_of s i))

    s1 : Fs
    s1 = stored s i (taken_inode (inode_of s i))

-- What allocate_inode leaves in `t`, from `s`, when it hands out `i`.
pub record InodeTaken (g : Geometry) (s : Fs) (i : ℕ) (t : Fs) : Type 0 where
  pub shape : IsSuperblock g t.superblock
  pub same_list : t.superblock.s_freelist_head ≡ s.superblock.s_freelist_head
  pub table : (j : ℕ) → inode_of t j ≡ (if i == j then taken_inode (inode_of s i) else inode_of s j)
  pub next : Least t 0 t.superblock.s_first_ino
  pub outside : (x : ℕ) → g.inode_block_count < x → t.disk x ≡ s.disk x

taken_inode-IsInode : (n : Inode) → IsInode n → IsInode (taken_inode n)
taken_inode-IsInode n v = record {
  mode = v.mode;
  uid = v.uid;
  gid = v.gid;
  status = v.status;
  atime = v.atime;
  ctime = v.ctime;
  mtime = v.mtime;
  links = omega arith;
  size = v.size;
  blocks = v.blocks;
  direct = v.direct;
  count = v.count;
  single = v.single;
  double = v.double;
  triple = v.triple;
  child = v.child;
}

-- All inodes up to `i` are allocated once `i` is taken.
taken_or_below :
    (s : Fs) (i j : ℕ)
    → Least s 0 i
    → j ≤ i
    → (if i == j then taken_inode (inode_of s i) else inode_of s j).i_allocated ≡ true
taken_or_below s i j below le = elim (Bool-cases (i == j)) [
  | inl same ↦ rw same refl
  | inr other ↦ rw other (below.allocated j (omega arith) (ground arith))
]

module _ {g : Geometry} (w : IsSound g) (s : Fs) (v : IsSuperblock g s.superblock) (i : ℕ) where
  with_first-table :
      (q j : ℕ)
      → IsInode (inode_of s i)
      → inode_of (with_first (stored s i (taken_inode (inode_of s i))) q) j
        ≡ (if i == j then taken_inode (inode_of s i) else inode_of s j)
  with_first-table q j fits =
      inode_of-with_first (stored s i (taken_inode (inode_of s i))) q j
      ∙ inode_of-put w i j (taken_inode (inode_of s i)) s (taken_inode-IsInode (inode_of s i) fits)

  with_first-outside :
      (q x : ℕ) (n : Inode)
      → i < s.superblock.s_inodes_count
      → g.inode_block_count < x
      → (with_first (stored s i n) q).disk x ≡ s.disk x
  unfolding with_first set_first_ino set_superblock set_disk
  with_first-outside q x n lt p =
      put_block_ne _ 0 x _ (λ z. absurd (omega arith))
      ∙ put_block_ne s.disk (1 + i / 18) x _ (λ z. absurd (omega (arith, v.inodes)))

  -- With all inodes up to `i` allocated in the new table, the least free one above `i` is the least.
  with_first-Least :
      (q : ℕ)
      → IsInode (inode_of s i)
      → Least s 0 i
      → Least (stored s i (taken_inode (inode_of s i))) (i + 1) q
      → Least (with_first (stored s i (taken_inode (inode_of s i))) q) 0 q
  unfolding with_first set_first_ino set_superblock set_disk
  with_first-Least q fits below l = record {
    above = omega arith;
    within = l.within;
    allocated = λ j p lt. elim (Bool-cases (ltb i j)) [
      | inl higher ↦
          ap (λ n. n.i_allocated)
            (inode_of-with_first (stored s i (taken_inode (inode_of s i))) q j)
          ∙ l.allocated j (ground arith) lt
      | inr lower ↦
          ap (λ n. n.i_allocated) (with_first-table q j fits)
          ∙ taken_or_below s i j below (ground arith)
    ];
    free = λ lt.
        ap (λ n. n.i_allocated) (inode_of-with_first (stored s i (taken_inode (inode_of s i))) q q)
        ∙ l.free lt;
  }

  taken-InodeTaken :
      (q : ℕ)
      → i < s.superblock.s_inodes_count
      → Least s 0 i
      → IsInode (inode_of s i)
      → Least (stored s i (taken_inode (inode_of s i))) (i + 1) q
      → InodeTaken g s i (with_first (stored s i (taken_inode (inode_of s i))) q)
  unfolding with_first set_first_ino set_superblock
  taken-InodeTaken q lt below fits l = record {
    shape = record {
      inodes = v.inodes;
      per_block = v.per_block;
      first = omega (arith, l.within, v.inodes, w.small, w.data_blocks);
      head = v.head;
    };
    same_list = refl;
    table = λ j. with_first-table q j fits;
    next = with_first-Least q fits below l;
    outside = λ x p. with_first-outside q x (taken_inode (inode_of s i)) lt p;
  }

-- allocate_inode, under a superblock with the counts of the build, while s_first_ino is the least free
-- inode and below s_inodes_count and the values of that inode fit their fields: it returns that
-- number; that inode becomes allocated with no links and keeps its other fields, every other inode,
-- the blocks above the inode blocks and the list head stay, and s_first_ino becomes the least inode
-- that is free now, or s_inodes_count if none is.
pub allocate_inode-InodeTaken :
    {g : Geometry} (w : IsSound g) (s : Fs)
    → IsSuperblock g s.superblock
    → Least s 0 s.superblock.s_first_ino
    → s.superblock.s_first_ino < s.superblock.s_inodes_count
    → IsInode (inode_of s s.superblock.s_first_ino)
    → ((allocate_inode g s).0 ≡ s.superblock.s_first_ino)
      × InodeTaken g s s.superblock.s_first_ino (allocate_inode g s).1
unfolding allocate_inode
allocate_inode-InodeTaken {g} w s v below lt fits =
    let i = s.superblock.s_first_ino in
    let valid : ltb i s.superblock.s_inodes_count ≡ true = ground arith in
    let more : (i == s.superblock.s_inodes_count) ≡ false = ground arith in
    let (q, e, l) = allocate_in_block-in w s i v lt (below.free lt) in
    rw (more, is_valid_inode_number_lem w i s v, valid, block_of_inum w i s v)
      (rw
        (
          read_block-in w (1 + i / 18) s (inode_block-lt w i s v lt),
          offset_of_inum w i s v,
          block_of_inum w i s v,
          e,
        )
        (refl, taken-InodeTaken w s v i q lt below fits l))
