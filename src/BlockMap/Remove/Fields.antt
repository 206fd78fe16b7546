-- ===== src/BlockMap/Remove/Fields.antt =====
-- src/inode_data_block_ops.c, the loop of remove_datablocks_from_inode over the direct blocks: what it
-- leaves in the inode and in the superblock.
use alt_file_system.Prelude.{
  ℕ, zero, suc, ◌+◌, ◌≤◌, ◌<◌, ◌≡◌, refl, ap, ◌∙◌, sym, true, ◌⊎◌, inl, inr, List, arith, get_or,
  set, length, length-set, get_or-set_ne, get_or-set_self, Bool-cases, ◌==◌,
}
use alt_file_system.Disk.{Geometry, Fs}
use alt_file_system.DataBlock.{free_data_block}
use alt_file_system.DataBlock.Kept.{
  SameCounts, equal-SameCounts, SameCounts-trans, free_data_block-SameCounts,
}
use alt_file_system.Inode.{Inode}
use alt_file_system.BlockMap.Remove.{remove_direct}

-- `node'` is `node` with zeros for the `n` direct blocks from `i` on.
pub record Cleared (node : Inode) (n i : ℕ) (node' : Inode) : Type 0 where
  pub blocks : List ℕ
  pub same : node' ≡ record node { i_direct_blocks = blocks }
  pub count : length blocks ≡ length node.i_direct_blocks
  pub zeros : (k : ℕ) → i ≤ k → k < i + n → get_or blocks k 0 ≡ 0
  pub others : (k : ℕ) → (k < i) ⊎ (i + n ≤ k) → get_or blocks k 0 ≡ get_or node.i_direct_blocks k 0

module _ (g : Geometry) where
  pub remove_direct-SameCounts :
      (n i : ℕ) (node : Inode) (s : Fs)
      → SameCounts (remove_direct g n i node s).2.superblock s.superblock
  unfolding remove_direct
  remove_direct-SameCounts zero i node s = equal-SameCounts refl
  remove_direct-SameCounts (suc n) i node s =
      let a : ℕ = get_or node.i_direct_blocks i 0 in
      let t : Fs = (free_data_block g a s).1 in
      let here : SameCounts t.superblock s.superblock = free_data_block-SameCounts g a s in
      elim (Bool-cases (free_data_block g a s).0) [
        | inl freed ↦ rw freed (
            SameCounts-trans
              (remove_direct-SameCounts n (i + 1)
                (record node { i_direct_blocks = set node.i_direct_blocks i 0 }) t)
              here)
        | inr failed ↦ rw failed here
      ]

  pub remove_direct-Cleared :
      (n i : ℕ) (node : Inode) (s : Fs)
      → i + n ≤ length node.i_direct_blocks
      → (remove_direct g n i node s).0 ≡ true
      → Cleared node n i (remove_direct g n i node s).1
  unfolding remove_direct
  remove_direct-Cleared zero i node s fits ok = record {
    blocks = node.i_direct_blocks;
    same = refl;
    count = refl;
    zeros = λ k le lt. absurd (omega arith);
    others = λ k out. refl;
  }
  remove_direct-Cleared (suc n) i node s fits ok =
      let a : ℕ = get_or node.i_direct_blocks i 0 in
      let t : Fs = (free_data_block g a s).1 in
      let bs : List ℕ = set node.i_direct_blocks i 0 in
      let node' : Inode = record node { i_direct_blocks = bs } in
      let kept : length bs ≡ length node.i_direct_blocks = length-set node.i_direct_blocks i 0 in
      elim (Bool-cases (free_data_block g a s).0) [
        | inr failed ↦ absurd (ground (arith, failed, ok))
        | inl freed ↦
            let went_on : (remove_direct g n (i + 1) node' t).0 ≡ true =
              ground (arith, freed, ok) in
            let c = remove_direct-Cleared n (i + 1) node' t (omega (arith, kept)) went_on in
            rw freed (record {
              blocks = c.blocks;
              same = c.same;
              count = c.count ∙ kept;
              zeros = λ k le lt. elim (Bool-cases (i == k)) [
                | inl here ↦
                    let e : i ≡ k = ground arith in
                    c.others k (inl (omega arith))
                    ∙ ap (λ m. get_or bs m 0) (sym e)
                    ∙ get_or-set_self node.i_direct_blocks i 0 0 (omega arith)
                | inr later ↦ c.zeros k (ground arith) (omega arith)
              ];
              others = λ k out.
                  c.others k
                    (elim out [ inl below ↦ inl (omega arith) | inr above ↦ inr (omega arith) ])
                  ∙ get_or-set_ne node.i_direct_blocks i k 0 0 (λ e. absurd (omega arith));
            })
      ]
