-- ===== src/InodeOps/Least.antt =====
-- The least unallocated inode of the table, block by block.
use alt_file_system.Prelude.{
  ℕ, ◌+◌, ◌-◌, ◌*◌, ◌/◌, ◌%◌, ◌≤◌, ◌<◌, ◌≡◌, refl, ap, subst, ◌∙◌, inl, inr, true, false, arith,
  ltb, Bool-cases,
}
use alt_file_system.Bytes.{Block}
use alt_file_system.Disk.{Fs}
use alt_file_system.Inode.{inode_at}
use alt_file_system.InodeOps.Table.{inode_of}

-- `q` is the least unallocated inode from `p` on, or the number of inodes if there is none.
pub record Least (s : Fs) (p q : ℕ) : Type 0 where
  pub above : p ≤ q
  pub within : q ≤ s.superblock.s_inodes_count
  pub allocated : (i : ℕ) → p ≤ i → i < q → (inode_of s i).i_allocated ≡ true
  pub free : q < s.superblock.s_inodes_count → (inode_of s q).i_allocated ≡ false

-- The inodes of the block in [from, to) are allocated.
abbrev pub Full : Block → (from to : ℕ) → Type 0
Full nodes from to = (j : ℕ) → from ≤ j → j < to → (inode_at nodes j).i_allocated ≡ true

-- The inodes of block b + 1 are those from 18 * b on.
pub inode_of-block :
    (s : Fs) (b j : ℕ) → j < 18 → inode_of s (18 * b + j) ≡ inode_at (s.disk (b + 1)) j
unfolding inode_of
inode_of-block s b j lt =
    let e : 1 + (18 * b + j) / 18 ≡ b + 1 = omega arith in
    let f : (18 * b + j) % 18 ≡ j = omega arith in rw (e, f) refl

pub Full-inode_of :
    (s : Fs) (b from to i : ℕ)
    → Full (s.disk (b + 1)) from to
    → to ≤ 18
    → 18 * b + from ≤ i
    → i < 18 * b + to
    → (inode_of s i).i_allocated ≡ true
Full-inode_of s b from to i full le p q =
    let e : 18 * b + (i - 18 * b) ≡ i = omega arith in
    subst (λ k. (inode_of s k).i_allocated ≡ true) e
      (ap (λ n. n.i_allocated) (inode_of-block s b (i - 18 * b) (omega arith))
        ∙ full (i - 18 * b) (omega arith) (omega arith))

pub Least-found :
    (s : Fs) (b offset m : ℕ)
    → offset ≤ m
    → m < 18
    → 18 * b + m ≤ s.superblock.s_inodes_count
    → Full (s.disk (b + 1)) offset m
    → (inode_at (s.disk (b + 1)) m).i_allocated ≡ false
    → Least s (18 * b + offset) (18 * b + m)
Least-found s b offset m le lt within full free = record {
  above = omega arith;
  within = within;
  allocated = λ i p q. Full-inode_of s b offset m i full (omega arith) p q;
  free = λ _. ap (λ n. n.i_allocated) (inode_of-block s b m lt) ∙ free;
}

pub Least-later :
    (s : Fs) (b offset q : ℕ)
    → offset ≤ 18
    → Full (s.disk (b + 1)) offset 18
    → Least s (18 * (b + 1) + 0) q
    → Least s (18 * b + offset) q
Least-later s b offset q le full l = record {
  above = omega (arith, l.above);
  within = l.within;
  allocated = λ i p lt. elim (Bool-cases (ltb i (18 * b + 18))) [
    | inl here ↦ Full-inode_of s b offset 18 i full (omega arith) p (ground arith)
    | inr there ↦ l.allocated i (ground arith) lt
  ];
  free = l.free;
}

pub Least-none :
    (s : Fs) (p : ℕ) → p ≡ s.superblock.s_inodes_count → Least s p s.superblock.s_inodes_count
Least-none s p e = record {
  above = omega arith;
  within = omega arith;
  allocated = λ i le lt. absurd (omega arith);
  free = λ lt. absurd (omega arith);
}
