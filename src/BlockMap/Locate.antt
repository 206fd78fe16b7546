-- ===== src/BlockMap/Locate.antt =====
-- Where a logical block of a file is recorded, independently of how the code reaches it: the root of
-- its tree in the inode, the indices down to the last indirect block, and the index there.
use alt_file_system.Prelude.{
  ◌>>=◌, ℕ, ◌+◌, ◌-◌, ◌*◌, ◌/◌, ◌%◌, ◌<◌, ◌≡◌, Option, some, List, [], ◌∷◌, arith, ltb,
  if◌then◌else◌, get_or,
}
use alt_file_system.Disk.{Geometry, Fs, minus_one}
use alt_file_system.Inode.{Inode}
use alt_file_system.BlockMap.{entry, is_not_positive}

-- A logical block: in the inode, or below one of its three roots.
pub data Place : Type 0 where
  direct : ℕ → Place
  single : ℕ → Place
  double : ℕ → ℕ → Place
  triple : ℕ → ℕ → ℕ → Place

unfoldable pub locate : ℕ → Place
locate l =
    if ltb l 12
    then direct l
    else if ltb l 524
    then single (l - 12)
    else if ltb l 262668
    then double ((l - 524) / 512) ((l - 524) % 512)
    else triple ((l - 262668) / 262144) ((l - 262668) / 512 % 512) ((l - 262668) % 512)

unfoldable pub position : Place → ℕ
position (direct k) = k
position (single i) = 12 + i
position (double i j) = 524 + (512 * i + j)
position (triple i j k) = 262668 + (262144 * i + 512 * j + k)

-- The indices are those of words of a block.
abbrev pub InBlocks : Place → Type 0
InBlocks (direct k) = k < 12
InBlocks (single i) = i < 512
InBlocks (double i j) = (i < 512) × (j < 512)
InBlocks (triple i j k) = (i < 512) × (j < 512) × (k < 512)

-- The most logical blocks that the three trees can record.
abbrev pub max_blocks : ℕ
max_blocks = 12 + 512 + 512 * 512 + 512 * 512 * 512

-- Every logical block of a file has its own place, in range, and every place in range is used.
pub position-locate : (l : ℕ) → l < max_blocks → (position (locate l) ≡ l) × InBlocks (locate l)
unfolding position locate
position-locate l h = ground arith

pub locate-position :
    (p : Place) → InBlocks p → (locate (position p) ≡ p) × (position p < max_blocks)
unfolding position locate
locate-position (direct k) h = ground arith
locate-position (single i) h = ground arith
locate-position (double i j) h = ground arith
locate-position (triple i j k) h = ground arith

module _ (g : Geometry) (s : Fs) where
  -- The block that the indices lead to from `b`; -1 where a block number is not positive.
  unfoldable pub descend : ℕ → List ℕ → Option ℕ
  descend b [] = some b
  descend b (i ∷ is) =
      if is_not_positive b then some minus_one else (entry g b i s >>= λ c. descend c is)

  -- The last indirect block on the way to a place.
  unfoldable pub leaf_block : Inode → Place → Option ℕ
  unfolding descend
  leaf_block node (direct k) = some 0
  leaf_block node (single i) = descend node.i_single_indirect []
  leaf_block node (double i j) = descend node.i_double_indirect (i ∷ [])
  leaf_block node (triple i j k) = descend node.i_triple_indirect (i ∷ j ∷ [])

  -- The data block recorded at a place.
  unfoldable pub resolve : Inode → Place → Option ℕ
  unfolding descend
  resolve node (direct k) = some (get_or node.i_direct_blocks k 0)
  resolve node (single i) = descend node.i_single_indirect (i ∷ [])
  resolve node (double i j) = descend node.i_double_indirect (i ∷ j ∷ [])
  resolve node (triple i j k) = descend node.i_triple_indirect (i ∷ j ∷ k ∷ [])
