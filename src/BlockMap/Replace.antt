-- ===== src/BlockMap/Replace.antt =====
-- The map from logical blocks to data blocks after a write to one word of an indirect block.
use alt_file_system.Prelude.{
  ◌>>=◌, ℕ, ◌<◌, ◌≡◌, refl, Bool, true, false, ◌&&◌, Option, none, some, arith, ◌==◌, if◌then◌else◌,
}
use alt_file_system.Bytes.{word_mod}
use alt_file_system.Disk.{Geometry, Fs, minus_one}
use alt_file_system.Disk.Laws.{IsSound}
use alt_file_system.Inode.{Inode}
use alt_file_system.BlockMap.{entry, is_not_positive}
use alt_file_system.BlockMap.Locate.{Place, direct, single, double, triple, leaf_block, resolve}
use alt_file_system.BlockMap.Entry.{put_entry, entry-put_entry}

-- The word of the last indirect block that records the place.
abbrev pub word_index : Place → ℕ
word_index (direct k) = k
word_index (single i) = i
word_index (double i j) = j
word_index (triple i j k) = k

abbrev pub is_block : ℕ → Option ℕ → Bool
is_block b none = false
is_block b (some c) = b == c

module _ (g : Geometry) (s : Fs) (node : Inode) where
  -- Block `b` is not one of the indirect blocks above the last on the way to a place.
  abbrev pub NotAbove : Place → ℕ → Type 0
  NotAbove (direct k) b = Unit {0}
  NotAbove (single i) b = Unit {0}
  NotAbove (double i j) b = (node.i_double_indirect == b) ≡ false
  NotAbove (triple i j k) b =
      ((node.i_triple_indirect == b) ≡ false)
      × (is_block b (entry g node.i_triple_indirect i s) ≡ false)

module _ {g : Geometry} (w : IsSound g) (b : ℕ) (lo : g.inode_block_count < b)
    (hi : b < g.block_count) where
  -- One step down, when what lies below changes as said.
  descend_step :
      (negative : Bool) (o : Option ℕ) (leaf old new : ℕ → Option ℕ) (hit : Bool) (v : ℕ)
      → ((c : ℕ) → o ≡ some c → new c ≡ (if is_block b (leaf c) && hit then some v else old c))
      → (if negative then some minus_one else (o >>= new)) ≡ (
          if is_block b (if negative then some minus_one else (o >>= leaf)) && hit
          then some v
          else if negative
          then some minus_one
          else (o >>= old))
  descend_step true o leaf old new hit v h =
      let ne : (b == minus_one) ≡ false = ground (arith, w.small) in rw ne refl
  descend_step false none leaf old new hit v h = refl
  descend_step false (some c) leaf old new hit v h = h c refl

  entry-kept :
      (n v x i : ℕ) (s : Fs)
      → v < word_mod
      → (x == b) ≡ false
      → entry g x i (put_entry s b n v) ≡ entry g x i s
  entry-kept n v x i s fits ne = ground (arith, entry-put_entry w b lo hi n v x i s fits)

  -- The last step, to a word of the block `c`.
  last_step :
      (s : Fs) (c n v j : ℕ)
      → v < word_mod
      → (if is_not_positive c then some minus_one else (entry g c j (put_entry s b n v) >>= some))
        ≡ (if (b == c) && (n == j)
            then some v
            else if is_not_positive c
            then some minus_one
            else (entry g c j s >>= some))
  last_step s c n v j fits = ground (arith, w.small, entry-put_entry w b lo hi n v c j s fits)

  -- After a write to the word `n` of an indirect block, the places that this word records resolve to
  -- the new number and all others as before.
  pub resolve-put_entry :
      (s : Fs) (node : Inode) (q : Place) (n v : ℕ)
      → v < word_mod
      → NotAbove g s node q b
      → resolve g (put_entry s b n v) node q ≡ (
          if is_block b (leaf_block g s node q) && n == word_index q
          then some v
          else resolve g s node q)
  unfolding resolve leaf_block
  resolve-put_entry s node (direct k) n v fits apart = ground arith
  resolve-put_entry s node (single i) n v fits apart =
      ground (arith, w.small, entry-put_entry w b lo hi n v node.i_single_indirect i s fits)
  resolve-put_entry s node (double i j) n v fits apart =
      rw (entry-kept n v node.i_double_indirect i s fits apart) (
        descend_step (is_not_positive node.i_double_indirect) (entry g node.i_double_indirect i s)
          some (λ c. if is_not_positive c then some minus_one else (entry g c j s >>= some))
          (λ c.
            if is_not_positive c
            then some minus_one
            else (entry g c j (put_entry s b n v) >>= some))
          (n == j) v (λ c e. last_step s c n v j fits))
  resolve-put_entry s node (triple i j k) n v fits apart =
      rw (entry-kept n v node.i_triple_indirect i s fits apart.0) (
        descend_step (is_not_positive node.i_triple_indirect) (entry g node.i_triple_indirect i s)
          (λ c. if is_not_positive c then some minus_one else (entry g c j s >>= some)) _ _ (n == k)
          v
          (λ c e.
            let ne : (c == b) ≡ false = ground (arith, apart.1) in
            rw (entry-kept n v c j s fits ne) (
              descend_step (is_not_positive c) (entry g c j s) some
                (λ d. if is_not_positive d then some minus_one else (entry g d k s >>= some))
                (λ d.
                  if is_not_positive d
                  then some minus_one
                  else (entry g d k (put_entry s b n v) >>= some))
                (n == k) v (λ d p. last_step s d n v k fits))))
