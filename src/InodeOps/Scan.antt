-- ===== src/InodeOps/Scan.antt =====
-- src/inode_ops.c, the loops of allocate_inode: the search finds the least unallocated inode above the
-- one handed out, if there is one.
use alt_file_system.Prelude.{
  ℕ, zero, suc, ◌+◌, ◌-◌, ◌*◌, ◌/◌, ◌%◌, ◌≤◌, ◌<◌, ◌≡◌, subst, inl, inr, Bool, true, false, Option,
  none, some, arith, ltb, ◌==◌, if◌then◌else◌, Bool-cases,
}
use alt_file_system.Bytes.{Block}
use alt_file_system.Disk.{Geometry, Fs, read_block}
use alt_file_system.Disk.Laws.{IsSound, read_block-in}
use alt_file_system.Superblock.Encoding.{IsSuperblock}
use alt_file_system.Inode.{inode_at}
use alt_file_system.InodeOps.{scan_block, scan_inodes, next_first_ino}
use alt_file_system.InodeOps.Least.{Least, Full, Least-found, Least-later, Least-none}

-- What scan_block finds in `n` inodes from `offset` on: the first unallocated one, `m`.
Scanned : (n : ℕ) → Block → (offset visited : ℕ) → Bool × ℕ → Type 0
Scanned n nodes offset visited (true, visited') =
    (m : ℕ) × (offset ≤ m)
    × (m < offset + n)
    × (visited' + offset ≡ visited + m + 1)
    × Full nodes offset m
    × ((inode_at nodes m).i_allocated ≡ false)
Scanned n nodes offset visited (false, visited') =
    (visited' ≡ visited + n) × Full nodes offset (offset + n)

Full-suc :
    (nodes : Block) (from to : ℕ)
    → (inode_at nodes from).i_allocated ≡ true
    → Full nodes (from + 1) to
    → Full nodes from to
Full-suc nodes from to a h j le lt = elim (Bool-cases (j == from)) [
  | inl same ↦
      let e : from ≡ j = ground arith in subst (λ o. (inode_at nodes o).i_allocated ≡ true) e a
  | inr other ↦ h j (ground arith) lt
]

scan_block-Scanned :
    (n : ℕ) (nodes : Block) (offset visited : ℕ)
    → Scanned n nodes offset visited (scan_block n nodes offset visited)
unfolding Scanned scan_block
scan_block-Scanned zero nodes offset visited = (omega arith, λ j le lt. absurd (omega arith))
scan_block-Scanned (suc n) nodes offset visited =
    elim (Bool-cases (inode_at nodes offset).i_allocated) [
      | inl a ↦ rw a (
          step a (scan_block n nodes (offset + 1) (visited + 1))
            (scan_block-Scanned n nodes (offset + 1) (visited + 1)))
      | inr a ↦
          rw a (offset, omega arith, omega arith, omega arith, λ j le lt. absurd (omega arith), a)
    ]
  where
    step :
        (inode_at nodes offset).i_allocated ≡ true
        → (r : Bool × ℕ) → Scanned n nodes (offset + 1) (visited + 1) r
        → Scanned (suc n) nodes offset visited r
    step a (true, visited') (m, le, lt, count, full, free) = (
      m,
      omega (arith, le),
      omega (arith, lt),
      omega (arith, count),
      Full-suc nodes offset m a full,
      free,
    )
    step a (false, visited') (count, full) = (
      omega (arith, count),
      Full-suc nodes offset (offset + suc n) a
          (subst (λ to. Full nodes (offset + 1) to) (omega arith) full),
    )

module _ {g : Geometry} (w : IsSound g) where
  -- From inode 18 * (block_num - 1) + offset on, the search finds the least unallocated inode.
  scan_inodes-Least :
      (fuel inum b offset visited : ℕ) (s : Fs)
      → IsSuperblock g s.superblock
      → inum + visited + 1 ≡ 18 * b + offset
      → offset ≤ 18
      → b < g.inode_block_count
      → g.inode_block_count ≤ fuel + b
      → Least s (18 * b + offset) (
          next_first_ino g inum
            (scan_inodes g fuel
              (b + 1)
              offset
              visited
              (s.superblock.s_inodes_count - inum + 1)
              (s.disk (b + 1))
              s)
            s)
  unfolding scan_inodes next_first_ino Scanned
  scan_inodes-Least zero inum b offset visited s v at le lt enough = absurd (omega arith)
  scan_inodes-Least (suc fuel) inum b offset visited s v at le lt enough =
      step
        (scan_block (s.superblock.s_num_of_inodes_per_block - offset) (s.disk (b + 1)) offset
          visited)
        (subst
          (λ p. Scanned (p - offset) (s.disk (b + 1)) offset visited (
            scan_block (s.superblock.s_num_of_inodes_per_block - offset) (s.disk (b + 1)) offset
              visited))
          v.per_block
          (scan_block-Scanned (s.superblock.s_num_of_inodes_per_block - offset) (s.disk (b + 1))
            offset visited))
        (λ visited' e more.
          scan_inodes-Least fuel inum (b + 1) 0 visited' s v e (omega arith) more
            (omega (arith, enough)))
    where
      left : ℕ
      left = s.superblock.s_inodes_count - inum + 1

      running : (visited == left) ≡ false
      running = ground (arith, v.inodes)

      onward : ℕ → Option ℕ
      onward visited' = scan_inodes g fuel (b + 1 + 1) 0 visited' left (s.disk (b + 1 + 1)) s

      after : ℕ → Option ℕ
      after visited' = elim (read_block g (b + 1 + 1) s) [
        | none ↦ none
        | some nodes' ↦ scan_inodes g fuel (b + 1 + 1) 0 visited' left nodes' s
      ]

      step :
          (r : Bool × ℕ)
          → Scanned (18 - offset) (s.disk (b + 1)) offset visited r
          → ((visited' : ℕ)
              → inum + visited' + 1 ≡ 18 * (b + 1) + 0
              → b + 1 < g.inode_block_count
              → Least s (18 * (b + 1) + 0) (next_first_ino g inum (onward visited') s))
          → Least s (18 * b + offset) (
              next_first_ino g inum
                (if visited == left
                  then none
                  else if r.0
                  then some r.1
                  else if ltb g.inode_block_count (b + 1 + 1)
                  then none
                  else after r.1)
                s)
      step (true, visited') (m, from, to, count, full, free) later =
          let q : inum + visited' ≡ 18 * b + m = omega (arith, at, count) in
          rw (running, q)
            (Least-found s b offset m from (omega (arith, to)) (omega (arith, to, v.inodes)) full
              free)
      step (false, visited') (count, full) later =
          let all : Full (s.disk (b + 1)) offset 18 =
            subst (λ to. Full (s.disk (b + 1)) offset to) (omega arith) full in
          elim (Bool-cases (ltb g.inode_block_count (b + 1 + 1))) [
            | inl last ↦
                rw (running, last)
                  (Least-later s b offset _ le all (Least-none s _ (ground (arith, v.inodes))))
            | inr more ↦
                rw (running, more)
                  (rw
                    (next_first_ino, read_block-in w (b + 1 + 1) s (ground (arith, w.data_blocks)))
                    (Least-later s b offset _ le all
                      (later visited' (omega (arith, at, count)) (ground arith))))
          ]

  -- The search as allocate_inode starts it.
  pub scan_above-Least :
      (i c : ℕ) (nodes : Block) (s : Fs)
      → IsSuperblock g s.superblock
      → i < s.superblock.s_inodes_count
      → c ≡ i / 18 + 1
      → nodes ≡ s.disk c
      → Least s (i + 1) (
          next_first_ino g i
            (scan_inodes g g.inode_block_count c
              (i % 18 + 1)
              0
              (s.superblock.s_inodes_count - i + 1)
              nodes
              s)
            s)
  scan_above-Least i c nodes s v lt e f =
      rw (f, e)
        (subst
          (λ p. Least s p (
            next_first_ino g i
              (scan_inodes g g.inode_block_count (i / 18 + 1) (i % 18 + 1) 0
                (s.superblock.s_inodes_count - i + 1) (s.disk (i / 18 + 1)) s)
              s))
          (omega arith)
          (scan_inodes-Least g.inode_block_count i (i / 18) (i % 18 + 1) 0 s v (omega arith)
            (omega arith) (omega (arith, v.inodes)) (omega arith)))
