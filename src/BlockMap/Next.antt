-- ===== src/BlockMap/Next.antt =====
-- The loops over the logical blocks of a file give get_disk_block_from_inode_block the hint that its last
-- call left: that hint is one for the next logical block.
use alt_file_system.Prelude.{
  ℕ, suc, ◌-◌, ◌*◌, ◌/◌, ◌%◌, ◌≤◌, ◌<◌, ◌≡◌, refl, subst, sym, ◌∙◌, inl, inr, Bool-cases, false,
  some, arith, ◌==◌,
}
use alt_file_system.Disk.{Geometry, Fs}
use alt_file_system.Inode.{Inode}
use alt_file_system.BlockMap.{is_not_positive, get_disk_block_from_inode_block}
use alt_file_system.BlockMap.Locate.{double, triple, locate, leaf_block}
use alt_file_system.BlockMap.Lookup.{
  HasRoots, IsHint, in_inode, below_single, below_double, below_triple, range, locate-direct,
  locate-single, locate-double, locate-triple, get_disk_block-double, get_disk_block-triple,
  lookup_double-leaf, lookup_triple-leaf,
}

module _ (g : Geometry) (s : Fs) (node : Inode) where
  -- The place has the same last indirect block.
  leaf-double :
      (l k : ℕ)
      → l / 512 ≡ k / 512
      → leaf_block g s node (double (l / 512) (l % 512))
        ≡ leaf_block g s node (double (k / 512) (k % 512))
  unfolding leaf_block
  leaf-double l k e = rw e refl

  leaf-triple :
      (l k : ℕ)
      → l / 512 ≡ k / 512
      → leaf_block g s node (triple (l / (512 * 512)) (l / 512 % 512) (l % 512))
        ≡ leaf_block g s node (triple (k / (512 * 512)) (k / 512 % 512) (k % 512))
  unfolding leaf_block
  leaf-triple l k e = let f : l / (512 * 512) ≡ k / (512 * 512) = omega arith in rw (e, f) refl

  module _ (roots : HasRoots node) (l prev b next : ℕ) (inside : l ≤ node.i_blocks_num)
      (h : IsHint g s node (locate l) prev)
      (got : get_disk_block_from_inode_block g node l prev s ≡ some (b, next))
      (good : is_not_positive b ≡ false) where
    next-double : 524 ≤ l → l < 262667 → IsHint g s node (locate (suc l)) next
    next-double p q = elim (Bool-cases ((suc l - 524) % 512 == 0)) [
      | inl first ↦
          rw (locate-double (suc l) (omega arith) (omega arith)) (inr (inl (ground arith)))
      | inr later ↦ rw (locate-double (suc l) (omega arith) (omega arith)) (
          inr
            (inr (leaf-double (suc l - 524) (l - 524) (ground arith) ∙ (leaf p q).0, (leaf p q).1)))
    ]
      where
        leaf :
            524 ≤ l
            → l < 262667
            → (leaf_block g s node (double ((l - 524) / 512) ((l - 524) % 512)) ≡ some next)
              × (is_not_positive next ≡ false)
        leaf p q =
            lookup_double-leaf g s node roots (l - 524) prev b next
              (subst (λ m. IsHint g s node m prev) (locate-double l p (omega arith)) h)
              (sym (get_disk_block-double l g s node prev inside p (omega arith)) ∙ got) good

    next-triple : 262668 ≤ l → IsHint g s node (locate (suc l)) next
    next-triple p = elim (Bool-cases ((suc l - 262668) % 512 == 0)) [
      | inl first ↦ rw (locate-triple (suc l) (omega arith)) (inr (inl (ground arith)))
      | inr later ↦ rw (locate-triple (suc l) (omega arith)) (
          inr (
            inr
              (leaf-triple (suc l - 262668) (l - 262668) (ground arith) ∙ (leaf p).0, (leaf p).1)))
    ]
      where
        leaf :
            262668 ≤ l
            → (leaf_block g s node (
                  triple
                    ((l - 262668) / (512 * 512))
                    ((l - 262668) / 512 % 512)
                    ((l - 262668) % 512))
                ≡ some next)
              × (is_not_positive next ≡ false)
        leaf p =
            lookup_triple-leaf g s node roots (l - 262668) prev b next
              (subst (λ m. IsHint g s node m prev) (locate-triple l p) h)
              (sym (get_disk_block-triple l g s node prev inside p) ∙ got) good

    -- A call of get_disk_block_from_inode_block on an inode whose roots are not negative, with a hint for
    -- its logical block within i_blocks_num,
    -- that finds a data block leaves a hint for the next logical block.
    pub get_disk_block-IsHint : IsHint g s node (locate (suc l)) next
    get_disk_block-IsHint = elim (range (suc l)) [
      | in_inode a ↦ rw (locate-direct (suc l) a) (inr (inl refl))
      | below_single a c ↦ rw (locate-single (suc l) a c) (inr (inl refl))
      | below_double a c ↦ elim (Bool-cases (l == 523)) [
        | inl edge ↦ rw (locate-double (suc l) a c) (inr (inl (ground arith)))
        | inr within ↦ next-double (ground arith) (omega arith)
      ]
      | below_triple a ↦ elim (Bool-cases (l == 262667)) [
        | inl edge ↦ rw (locate-triple (suc l) a) (inr (inl (ground arith)))
        | inr within ↦ next-triple (ground arith)
      ]
    ]
