-- ===== src/Inode.antt =====
-- struct inode of header/superblock_layer.h, and its place in an inode block, as a 64-bit Linux target
-- lays it out: 216 bytes, the padding bytes never read.
pub mod Layout
use alt_file_system.Prelude.{
  ℕ, zero, suc, ◌+◌, ◌*◌, Bool, true, false, not, List, [], ◌∷◌, ◌++◌, ◌==◌, if◌then◌else◌, get_or,
}
use alt_file_system.Bytes.{Block, load, store}
use alt_file_system.Superblock.{inode_size}

pub record Inode : Type 0 where
  pub i_mode : ℕ
  pub i_uid : ℕ
  pub i_gid : ℕ
  pub i_status_change_time : ℕ
  pub i_atime : ℕ
  pub i_ctime : ℕ
  pub i_mtime : ℕ
  pub i_links_count : ℕ
  pub i_file_size : ℕ
  pub i_blocks_num : ℕ
  pub i_allocated : Bool
  pub i_direct_blocks : List ℕ
  pub i_single_indirect : ℕ
  pub i_double_indirect : ℕ
  pub i_triple_indirect : ℕ
  pub i_child_num : ℕ

abbrev pub num_of_direct_blocks : ℕ
num_of_direct_blocks = 12

abbrev pub tabulate : ℕ → (ℕ → ℕ) → List ℕ
tabulate zero f = []
tabulate (suc n) f = f 0 ∷ tabulate n (λ k. f (suc k))

-- A field: its offset in the struct, its width in bytes, its value.
abbrev pub Field : Type 0
Field = ℕ × ℕ × ℕ

abbrev pub direct_fields : ℕ → ℕ → List ℕ → List Field
direct_fields zero k blocks = []
direct_fields (suc n) k blocks = (80 + 8 * k, 8, get_or blocks k 0) ∷ direct_fields n (suc k) blocks

-- The byte of a bool.
abbrev pub byte_of : Bool → ℕ
byte_of b = if b then 1 else 0

abbrev pub inode_fields : Inode → List Field
inode_fields n =
    (0, 4, n.i_mode)
    ∷ (4, 4, n.i_uid)
    ∷ (8, 4, n.i_gid)
    ∷ (16, 8, n.i_status_change_time)
    ∷ (24, 8, n.i_atime)
    ∷ (32, 8, n.i_ctime)
    ∷ (40, 8, n.i_mtime)
    ∷ (48, 8, n.i_links_count)
    ∷ (56, 8, n.i_file_size)
    ∷ (64, 8, n.i_blocks_num)
    ∷ (72, 1, byte_of n.i_allocated)
    ∷ (direct_fields num_of_direct_blocks 0 n.i_direct_blocks
        ++ ((176, 8, n.i_single_indirect)
            ∷ (184, 8, n.i_double_indirect)
            ∷ (192, 8, n.i_triple_indirect)
            ∷ (200, 8, n.i_child_num)
            ∷ []))

unfoldable pub store_fields : List Field → ℕ → Block → Block
store_fields [] o b = b
store_fields ((p, w, v) ∷ fs) o b = store w (store_fields fs o b) (o + p) v

-- ((struct inode*)buffer)[i]
unfoldable pub inode_at : Block → ℕ → Inode
inode_at b i =
    let o = inode_size * i in
    record {
      i_mode = load 4 b (o + 0);
      i_uid = load 4 b (o + 4);
      i_gid = load 4 b (o + 8);
      i_status_change_time = load 8 b (o + 16);
      i_atime = load 8 b (o + 24);
      i_ctime = load 8 b (o + 32);
      i_mtime = load 8 b (o + 40);
      i_links_count = load 8 b (o + 48);
      i_file_size = load 8 b (o + 56);
      i_blocks_num = load 8 b (o + 64);
      i_allocated = not (load 1 b (o + 72) == 0);
      i_direct_blocks = tabulate num_of_direct_blocks (λ k. load 8 b (o + (80 + 8 * k)));
      i_single_indirect = load 8 b (o + 176);
      i_double_indirect = load 8 b (o + 184);
      i_triple_indirect = load 8 b (o + 192);
      i_child_num = load 8 b (o + 200);
    }

-- ((struct inode*)buffer)[i] = n, by assignment or memcpy
unfoldable pub set_inode : Block → ℕ → Inode → Block
set_inode b i n = store_fields (inode_fields n) (inode_size * i) b
