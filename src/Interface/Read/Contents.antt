-- ===== src/Interface/Read/Contents.antt =====
-- src/interface_layer.c: the bytes of a file, as its inode and the blocks on the disk hold them, and the
-- block that altfs_read fetches.
use alt_file_system.Prelude.{
  ℕ, suc, ◌+◌, ◌*◌, ◌≤◌, ◌<◌, ◌≡◌, ◌∙◌, inl, inr, false, some, arith, Option-cases,
}
use alt_file_system.Bytes.{Block, block_size}
use alt_file_system.Disk.{Geometry, Fs}
use alt_file_system.DataBlock.{read_data_block}
use alt_file_system.Inode.{Inode}
use alt_file_system.BlockMap.{get_disk_block_from_inode_block, is_not_positive}
use alt_file_system.BlockMap.Locate.{locate, resolve}
use alt_file_system.BlockMap.Lookup.{HasRoots, IsHint, get_disk_block-resolve}
use alt_file_system.BlockMap.Next.{get_disk_block-IsHint}
use alt_file_system.Interface.Read.{Buffer, fetch}

module _ (g : Geometry) (s : Fs) where
  -- The logical block `l` of the file: the number recorded for it, and the block on the disk.
  pub record HasBlock (node : Inode) (l : ℕ) (content : Block) : Type 0 where
    pub number : ℕ
    pub block : Block
    pub recorded : resolve g s node (locate l) ≡ some number
    pub positive : is_not_positive number ≡ false
    pub on_disk : read_data_block g number s ≡ some block
    pub same_bytes : (o : ℕ) → o < block_size → block o ≡ content o

  -- A file of `size` bytes whose byte at each offset is that of `contents`.
  pub record HasContents (node : Inode) (size : ℕ) (contents : Buffer) : Type 0 where
    pub roots : HasRoots node
    pub inside : (l : ℕ) → block_size * l < size → l ≤ node.i_blocks_num
    pub block_at :
        (l : ℕ) → block_size * l < size → HasBlock node l (λ o. contents (block_size * l + o))

  module _ (node : Inode) (size : ℕ) (contents : Buffer) (h : HasContents node size contents) where
    -- The fetch of a block of the file gives its bytes and a hint for the next block.
    pub fetch-HasContents :
        (l prev : ℕ)
        → block_size * l < size
        → IsHint g s node (locate l) prev
        → (b : Block) × (next : ℕ) × (fetch g node l prev s ≡ some (some (b, next)))
          × IsHint g s node (locate (suc l)) next
          × ((o : ℕ) → o < block_size → b o ≡ contents (block_size * l + o))
    unfolding fetch
    fetch-HasContents l prev lt hint =
        let here = h.block_at l lt in
        let found =
          get_disk_block-resolve g s node h.roots l prev (h.inside l lt) hint ∙ here.recorded in
        elim (Option-cases (get_disk_block_from_inode_block g node l prev s)) [
          | inl missing ↦ absurd (ground (arith, found))
          | inr ((number, next), got) ↦
              let e : number ≡ here.number = ground (arith, found) in
              let good : is_not_positive number ≡ false = rw e here.positive in
              (
                here.block,
                next,
                simp (fetch, got, e, here.positive, here.on_disk),
                get_disk_block-IsHint g s node h.roots l prev number next (h.inside l lt) hint got
                    good,
                here.same_bytes,
              )
        ]
