-- ===== src/Inode/Layout.antt =====
-- The layout of struct inode: an inode reads back as it was stored, and inodes of one block are
-- independent.
use alt_file_system.Prelude.{
  zero, suc, ℕ, ◌+◌, ◌*◌, ◌^◌, ◌≤◌, ◌<◌, ◌≡◌, ◌≢◌, refl, ap, subst, ◌∙◌, inl, inr, ◌⊎◌, Bool, true,
  false, List, [], ◌∷◌, arith, length, get_or, not, ◌==◌, ltb, Bool-cases,
}
use alt_file_system.Bytes.{Block, word_mod, load, store}
use alt_file_system.Bytes.Laws.{load-store_self, load-store_out}
use alt_file_system.Superblock.{inode_size}
use alt_file_system.Inode.{
  Inode, tabulate, Field, byte_of, inode_fields, store_fields, inode_at, set_inode,
}

-- All fields start at `p` or above, and end within the struct.
abbrev Between : ℕ → List Field → Type 0
Between p [] = Unit {0}
Between p ((o, w, v) ∷ fs) = (p ≤ o) × (o + w ≤ inode_size) × Between p fs

-- From `p` on the fields follow one another inside the struct, and the values fit.
abbrev Ordered : ℕ → List Field → Type 0
Ordered p [] = p ≤ inode_size
Ordered p ((o, w, v) ∷ fs) = (p ≤ o) × (v < 256 ^ w) × Ordered (o + w) fs

Ordered-le : (p : ℕ) (fs : List Field) → Ordered p fs → p ≤ inode_size
Ordered-le p [] h = h
Ordered-le p ((o, w, v) ∷ fs) h = omega (arith, Ordered-le (o + w) fs h.2)

Ordered-Between : (q p : ℕ) (fs : List Field) → q ≤ p → Ordered p fs → Between q fs
Ordered-Between q p [] le h = tt
Ordered-Between q p ((o, w, v) ∷ fs) le h =
    (omega arith, Ordered-le (o + w) fs h.2, Ordered-Between q (o + w) fs (omega arith) h.2)

-- Every field reads as its value in the block.
abbrev Reads : List Field → ℕ → Block → Type 0
Reads [] o b = Unit {0}
Reads ((p, w, v) ∷ fs) o b = (load w b (o + p) ≡ v) × Reads fs o b

Reads-store :
    (fs : List Field) (o : ℕ) (b : Block) (p w v : ℕ)
    → Between (p + w) fs
    → Reads fs o b
    → Reads fs o (store w b (o + p) v)
Reads-store [] o b p w v apart r = tt
Reads-store ((q, n, u) ∷ fs) o b p w v apart r = (
  load-store_out n w b (o + p) v (o + q) (inr (omega arith)) ∙ r.0,
  Reads-store fs o b p w v apart.2 r.1,
)

Reads-store_fields :
    (q : ℕ) (fs : List Field) (o : ℕ) (b : Block) → Ordered q fs → Reads fs o (store_fields fs o b)
unfolding store_fields
Reads-store_fields q [] o b h = tt
Reads-store_fields q ((p, w, v) ∷ fs) o b h = (
  load-store_self w (store_fields fs o b) (o + p) v h.1,
  Reads-store fs o (store_fields fs o b) p w v
      (Ordered-Between (p + w) (p + w) fs (omega arith) h.2)
      (Reads-store_fields (p + w) fs o b h.2),
)

load-store_fields_out :
    (fs : List Field) (o : ℕ) (b : Block) (n p : ℕ)
    → Between 0 fs
    → (p + n ≤ o) ⊎ (o + inode_size ≤ p)
    → load n (store_fields fs o b) p ≡ load n b p
unfolding store_fields
load-store_fields_out [] o b n p h out = refl
load-store_fields_out ((q, w, v) ∷ fs) o b n p h out =
    load-store_out n w (store_fields fs o b) (o + q) v p (omega arith)
    ∙ load-store_fields_out fs o b n p h.2 out

-- A list of zeros has no other element.
pub get_or-zeros : (n k : ℕ) → get_or (tabulate n (λ _. 0)) k 0 ≡ 0
get_or-zeros zero k = refl
get_or-zeros (suc n) zero = refl
get_or-zeros (suc n) (suc k) = get_or-zeros n k

tabulate-get_or : (l : List ℕ) → tabulate (length l) (λ k. get_or l k 0) ≡ l
tabulate-get_or [] = refl
tabulate-get_or (x ∷ xs) = ap (λ l. x ∷ l) (tabulate-get_or xs)

-- The values of an inode fit their fields, and it has its twelve direct blocks.
pub record IsInode (n : Inode) : Type 0 where
  pub mode : n.i_mode < 2 ^ 32
  pub uid : n.i_uid < 2 ^ 32
  pub gid : n.i_gid < 2 ^ 32
  pub status : n.i_status_change_time < word_mod
  pub atime : n.i_atime < word_mod
  pub ctime : n.i_ctime < word_mod
  pub mtime : n.i_mtime < word_mod
  pub links : n.i_links_count < word_mod
  pub size : n.i_file_size < word_mod
  pub blocks : n.i_blocks_num < word_mod
  pub direct : (k : ℕ) → get_or n.i_direct_blocks k 0 < word_mod
  pub count : length n.i_direct_blocks ≡ 12
  pub single : n.i_single_indirect < word_mod
  pub double : n.i_double_indirect < word_mod
  pub triple : n.i_triple_indirect < word_mod
  pub child : n.i_child_num < word_mod

Ordered-inode_fields : (n : Inode) → IsInode n → Ordered 0 (inode_fields n)
Ordered-inode_fields n v = ground (
  arith,
  v.direct 0,
  v.direct 1,
  v.direct 2,
  v.direct 3,
  v.direct 4,
  v.direct 5,
  v.direct 6,
  v.direct 7,
  v.direct 8,
  v.direct 9,
  v.direct 10,
  v.direct 11,
)

allocated_of_byte : (x : ℕ) (b : Bool) → x ≡ byte_of b → not (x == 0) ≡ b
allocated_of_byte x true e = ground arith
allocated_of_byte x false e = ground arith

-- A block whose fields read as those of `n` holds `n`.
inode_at-Reads :
    (c : Block) (i : ℕ) (n : Inode)
    → length n.i_direct_blocks ≡ 12
    → Reads (inode_fields n) (inode_size * i) c
    → inode_at c i ≡ n
unfolding inode_at
inode_at-Reads c i n count r = λ k. record {
  i_mode = r.0 k;
  i_uid = r.1.0 k;
  i_gid = r.1.1.0 k;
  i_status_change_time = r.1.1.1.0 k;
  i_atime = r.1.1.1.1.0 k;
  i_ctime = r.1.1.1.1.1.0 k;
  i_mtime = r.1.1.1.1.1.1.0 k;
  i_links_count = r.1.1.1.1.1.1.1.0 k;
  i_file_size = r.1.1.1.1.1.1.1.1.0 k;
  i_blocks_num = r.1.1.1.1.1.1.1.1.1.0 k;
  i_allocated = allocated_of_byte _ n.i_allocated r.1.1.1.1.1.1.1.1.1.1.0 k;
  i_direct_blocks = direct k;
  i_single_indirect = last.0 k;
  i_double_indirect = last.1.0 k;
  i_triple_indirect = last.1.1.0 k;
  i_child_num = last.1.1.1.0 k;
}
  where
    blocks : List ℕ
    blocks = n.i_direct_blocks

    last :
        Reads
          ((176, 8, n.i_single_indirect)
            ∷ (184, 8, n.i_double_indirect)
            ∷ (192, 8, n.i_triple_indirect)
            ∷ (200, 8, n.i_child_num)
            ∷ [])
          (inode_size * i)
          c
    last = r.1.1.1.1.1.1.1.1.1.1.1.1.1.1.1.1.1.1.1.1.1.1.1

    direct : tabulate 12 (λ k. load 8 c (inode_size * i + (80 + 8 * k))) ≡ n.i_direct_blocks
    direct =
        listed
        ∙ subst (λ m. tabulate m (λ k. get_or blocks k 0) ≡ blocks) count (tabulate-get_or blocks)
      where
        listed :
            tabulate 12 (λ k. load 8 c (inode_size * i + (80 + 8 * k)))
            ≡ tabulate 12 (λ k. get_or blocks k 0)
        listed =
            let d = r.1.1.1.1.1.1.1.1.1.1.1 in
            λ k.
              (d.0 k)
              ∷ (d.1.0 k)
              ∷ (d.1.1.0 k)
              ∷ (d.1.1.1.0 k)
              ∷ (d.1.1.1.1.0 k)
              ∷ (d.1.1.1.1.1.0 k)
              ∷ (d.1.1.1.1.1.1.0 k)
              ∷ (d.1.1.1.1.1.1.1.0 k)
              ∷ (d.1.1.1.1.1.1.1.1.0 k)
              ∷ (d.1.1.1.1.1.1.1.1.1.0 k)
              ∷ (d.1.1.1.1.1.1.1.1.1.1.0 k)
              ∷ (d.1.1.1.1.1.1.1.1.1.1.1.0 k)
              ∷ []

-- The bytes of another inode lie outside.
apart :
    (i j w p : ℕ)
    → i ≢ j
    → p + w ≤ inode_size
    → (inode_size * j + p + w ≤ inode_size * i) ⊎ (inode_size * i + inode_size ≤ inode_size * j + p)
apart i j w p ne h = elim (Bool-cases (ltb i j)) [
  | inl lt ↦ inr (ground arith)
  | inr ge ↦ inl (ground arith)
]

-- An inode whose values fit their fields, stored as the i-th inode of a block, reads back unchanged.
pub inode_at-set_inode_self :
    (b : Block) (i : ℕ) (n : Inode) → IsInode n → inode_at (set_inode b i n) i ≡ n
unfolding set_inode
inode_at-set_inode_self b i n v =
    inode_at-Reads (store_fields (inode_fields n) (inode_size * i) b) i n v.count
      (Reads-store_fields 0 (inode_fields n) (inode_size * i) b (Ordered-inode_fields n v))

-- Storing such an inode as the i-th of a block changes no other inode of the block.
pub inode_at-set_inode_ne :
    (b : Block) (i j : ℕ) (n : Inode)
    → IsInode n
    → i ≢ j
    → inode_at (set_inode b i n) j ≡ inode_at b j
unfolding inode_at set_inode
inode_at-set_inode_ne b i j n v ne = λ k. record {
  i_mode = out 4 0 (omega arith) k;
  i_uid = out 4 4 (omega arith) k;
  i_gid = out 4 8 (omega arith) k;
  i_status_change_time = out 8 16 (omega arith) k;
  i_atime = out 8 24 (omega arith) k;
  i_ctime = out 8 32 (omega arith) k;
  i_mtime = out 8 40 (omega arith) k;
  i_links_count = out 8 48 (omega arith) k;
  i_file_size = out 8 56 (omega arith) k;
  i_blocks_num = out 8 64 (omega arith) k;
  i_allocated = not (out 1 72 (omega arith) k == 0);
  i_direct_blocks =
      (out 8 80 (omega arith) k)
      ∷ (out 8 88 (omega arith) k)
      ∷ (out 8 96 (omega arith) k)
      ∷ (out 8 104 (omega arith) k)
      ∷ (out 8 112 (omega arith) k)
      ∷ (out 8 120 (omega arith) k)
      ∷ (out 8 128 (omega arith) k)
      ∷ (out 8 136 (omega arith) k)
      ∷ (out 8 144 (omega arith) k)
      ∷ (out 8 152 (omega arith) k)
      ∷ (out 8 160 (omega arith) k)
      ∷ (out 8 168 (omega arith) k)
      ∷ [];
  i_single_indirect = out 8 176 (omega arith) k;
  i_double_indirect = out 8 184 (omega arith) k;
  i_triple_indirect = out 8 192 (omega arith) k;
  i_child_num = out 8 200 (omega arith) k;
}
  where
    out :
        (w p : ℕ)
        → p + w ≤ inode_size
        → load w (store_fields (inode_fields n) (inode_size * i) b) (inode_size * j + p)
          ≡ load w b (inode_size * j + p)
    out w p h =
        load-store_fields_out (inode_fields n) (inode_size * i) b w (inode_size * j + p)
          (Ordered-Between 0 0 (inode_fields n) (omega arith) (Ordered-inode_fields n v))
          (apart i j w p ne h)
