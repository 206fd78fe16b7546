-- ===== src/BlockMap/Lookup.antt =====
-- get_disk_block_from_inode_block against the place of the block, and its hint *prev_indirect_block.
use alt_file_system.Prelude.{
  ℕ, ◌-◌, ◌*◌, ◌/◌, ◌%◌, ◌^◌, ◌≤◌, ◌<◌, ◌≡◌, subst, get_or, ◌⊎◌, inl, inr, false, Option, none,
  some, arith, ltb, Bool-cases,
}
use alt_file_system.Disk.{Geometry, Fs}
use alt_file_system.Inode.{Inode}
use alt_file_system.BlockMap.{
  is_not_positive, lookup_triple, lookup_double, lookup_single, get_disk_block_from_inode_block,
}
use alt_file_system.BlockMap.Locate.{
  Place, direct, single, double, triple, locate, leaf_block, resolve,
}

-- The roots are block numbers, not negative as ssize_t.
pub record HasRoots (node : Inode) : Type 0 where
  pub single_root : node.i_single_indirect < 2 ^ 63
  pub double_root : node.i_double_indirect < 2 ^ 63
  pub triple_root : node.i_triple_indirect < 2 ^ 63

-- The index in the last indirect block.
abbrev pub inner_index : Place → ℕ
inner_index (direct k) = 0
inner_index (single i) = 0
inner_index (double i j) = j
inner_index (triple i j k) = k

-- The result of a lookup without the hint that it leaves.
abbrev pub value_of : Option (ℕ × ℕ) → Option ℕ
value_of none = none
value_of (some (v, prev)) = some v

-- What *prev_indirect_block may be: 0, or the last indirect block of the place; it does not matter
-- where that block holds the place as its first.
abbrev pub IsHint : Geometry → Fs → Inode → Place → ℕ → Type 0
IsHint g s node p prev =
    (prev ≡ 0)
    ⊎ (inner_index p ≡ 0)
    ⊎ ((leaf_block g s node p ≡ some prev) × (is_not_positive prev ≡ false))

-- The four ranges of logical blocks.
pub data Range (l : ℕ) : Type 0 where
  in_inode : l < 12 → Range l
  below_single : 12 ≤ l → l < 524 → Range l
  below_double : 524 ≤ l → l < 262668 → Range l
  below_triple : 262668 ≤ l → Range l

pub range : (l : ℕ) → Range l
range l = elim (Bool-cases (ltb l 12)) [
  | inl a ↦ in_inode (ground arith)
  | inr a ↦ elim (Bool-cases (ltb l 524)) [
    | inl b ↦ below_single (ground arith) (ground arith)
    | inr b ↦ elim (Bool-cases (ltb l 262668)) [
      | inl c ↦ below_double (ground arith) (ground arith)
      | inr c ↦ below_triple (ground arith)
    ]
  ]
]

module _ (l : ℕ) where
  pub locate-direct : l < 12 → locate l ≡ direct l
  unfolding locate
  locate-direct h = ground arith

  pub locate-single : 12 ≤ l → l < 524 → locate l ≡ single (l - 12)
  unfolding locate
  locate-single lo hi = ground arith

  pub locate-double : 524 ≤ l → l < 262668 → locate l ≡ double ((l - 524) / 512) ((l - 524) % 512)
  unfolding locate
  locate-double lo hi = ground arith

  pub locate-triple :
      262668 ≤ l
      → locate l
        ≡ triple ((l - 262668) / (512 * 512)) ((l - 262668) / 512 % 512) ((l - 262668) % 512)
  unfolding locate
  locate-triple lo = ground arith

  module _ (g : Geometry) (s : Fs) (node : Inode) (prev : ℕ) (inside : l ≤ node.i_blocks_num) where
    pub get_disk_block-direct :
        l < 12
        → get_disk_block_from_inode_block g node l prev s
          ≡ some (get_or node.i_direct_blocks l 0, prev)
    unfolding get_disk_block_from_inode_block
    get_disk_block-direct h = ground arith

    get_disk_block-single :
        12 ≤ l
        → l < 524
        → get_disk_block_from_inode_block g node l prev s ≡ lookup_single g node (l - 12) prev s
    unfolding get_disk_block_from_inode_block
    get_disk_block-single lo hi = ground arith

    pub get_disk_block-double :
        524 ≤ l
        → l < 262668
        → get_disk_block_from_inode_block g node l prev s ≡ lookup_double g node (l - 524) prev s
    unfolding get_disk_block_from_inode_block
    get_disk_block-double lo hi =
        let e : l - 12 - 512 ≡ l - 524 = omega arith in rw (← e) (ground arith)

    pub get_disk_block-triple :
        262668 ≤ l
        → get_disk_block_from_inode_block g node l prev s ≡ lookup_triple g node (l - 262668) prev s
    unfolding get_disk_block_from_inode_block
    get_disk_block-triple lo =
        let e : l - 12 - 512 - 262144 ≡ l - 262668 = omega arith in rw (← e) (ground arith)

module _ (g : Geometry) (s : Fs) (node : Inode) (v : HasRoots node) where
  lookup_double-resolve :
      (l prev : ℕ)
      → IsHint g s node (double (l / 512) (l % 512)) prev
      → value_of (lookup_double g node l prev s) ≡ resolve g s node (double (l / 512) (l % 512))
  unfolding lookup_double resolve leaf_block
  lookup_double-resolve l prev h = ground (arith, v.double_root)

  lookup_triple-resolve :
      (l prev : ℕ)
      → IsHint g s node (triple (l / (512 * 512)) (l / 512 % 512) (l % 512)) prev
      → value_of (lookup_triple g node l prev s)
        ≡ resolve g s node (triple (l / (512 * 512)) (l / 512 % 512) (l % 512))
  unfolding lookup_triple resolve leaf_block
  lookup_triple-resolve l prev h = ground (arith, v.triple_root)

  lookup_single-resolve :
      (l prev : ℕ) → value_of (lookup_single g node l prev s) ≡ resolve g s node (single l)
  unfolding lookup_single resolve
  lookup_single-resolve l prev = ground (arith, v.single_root)

  -- What the two lookups leave as the hint when they succeed.
  pub lookup_double-leaf :
      (l prev b next : ℕ)
      → IsHint g s node (double (l / 512) (l % 512)) prev
      → lookup_double g node l prev s ≡ some (b, next)
      → is_not_positive b ≡ false
      → (leaf_block g s node (double (l / 512) (l % 512)) ≡ some next)
        × (is_not_positive next ≡ false)
  unfolding lookup_double leaf_block
  lookup_double-leaf l prev b next h e pos = ground (arith, v.double_root)

  pub lookup_triple-leaf :
      (l prev b next : ℕ)
      → IsHint g s node (triple (l / (512 * 512)) (l / 512 % 512) (l % 512)) prev
      → lookup_triple g node l prev s ≡ some (b, next)
      → is_not_positive b ≡ false
      → (leaf_block g s node (triple (l / (512 * 512)) (l / 512 % 512) (l % 512)) ≡ some next)
        × (is_not_positive next ≡ false)
  unfolding lookup_triple leaf_block
  lookup_triple-leaf l prev b next h e pos = ground (arith, v.triple_root)

  -- get_disk_block_from_inode_block, on a logical block within i_blocks_num of an inode whose roots are
  -- not negative, returns the data block recorded at its place, or -1 where a block number on the way
  -- is not positive, and this whatever hint it was given, as long as it is a hint for that place.
  pub get_disk_block-resolve :
      (l prev : ℕ)
      → l ≤ node.i_blocks_num
      → IsHint g s node (locate l) prev
      → value_of (get_disk_block_from_inode_block g node l prev s) ≡ resolve g s node (locate l)
  unfolding resolve
  get_disk_block-resolve l prev inside h = elim (range l) [
    | in_inode a ↦ rw (locate-direct l a, get_disk_block-direct l g s node prev inside a)
    | below_single a b ↦
        rw (locate-single l a b, get_disk_block-single l g s node prev inside a b)
          (lookup_single-resolve (l - 12) prev)
    | below_double a b ↦
        rw (locate-double l a b, get_disk_block-double l g s node prev inside a b)
          (lookup_double-resolve (l - 524) prev
            (subst (λ p. IsHint g s node p prev) (locate-double l a b) h))
    | below_triple a ↦
        rw (locate-triple l a, get_disk_block-triple l g s node prev inside a)
          (lookup_triple-resolve (l - 262668) prev
            (subst (λ p. IsHint g s node p prev) (locate-triple l a) h))
  ]
