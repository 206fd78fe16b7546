-- ===== src/Directory/Append.antt =====
-- src/directory_ops.c, the record that add_directory_entry writes into a block: it is one more record of
-- the block, behind the others.
use alt_file_system.Prelude.{
  ℕ, zero, suc, ◌+◌, ◌/◌, ◌≤◌, ◌<◌, ◌≡◌, refl, sym, ◌∙◌, ◌⊎◌, inl, inr, List, [], ◌∷◌, ◌++◌, arith,
  leb, length, Bool-cases,
}
use alt_file_system.Bytes.{Block, block_size, word_mod, set_byte, load, store}
use alt_file_system.Bytes.Laws.{Agree, load-Agree, load-store_out, load-store_self}
use alt_file_system.Directory.{last_possible_record, put_name, put_record}
use alt_file_system.Directory.Records.{Entry, Named, size_of, Layout, end_of}

pub Named-Agree :
    (name : List ℕ) (b c : Block) (p : ℕ)
    → Agree b c p (p + length name + 1)
    → Named name b p
    → Named name c p
Named-Agree [] b c p h named = sym (h p (omega arith) (omega arith)) ∙ named
Named-Agree (d ∷ ds) b c p h named = (
  sym (h p (omega arith) (omega arith)) ∙ named.0,
  Named-Agree ds b c (p + 1) (λ o le lt. h o (omega arith) (omega arith)) named.1,
)

store-outside : (n : ℕ) (b : Block) (o v p : ℕ) → (p < o) ⊎ (o + n ≤ p) → store n b o v p ≡ b p
unfolding store set_byte
store-outside zero b o v p h = refl
store-outside (suc n) b o v p h = ground (arith, store-outside n b (o + 1) (v / 256) p)

put_name-outside :
    (name : List ℕ) (b : Block) (q p : ℕ)
    → (p < q) ⊎ (q + length name + 1 ≤ p)
    → put_name name b q p ≡ b p
unfolding put_name set_byte
put_name-outside [] b q p h = ground arith
put_name-outside (c ∷ cs) b q p h = ground (arith, put_name-outside cs b (q + 1) p)

Named-put_name : (name : List ℕ) (b : Block) (q : ℕ) → Named name (put_name name b q) q
unfolding put_name set_byte
Named-put_name [] b q = ground arith
Named-put_name (c ∷ cs) b q = (
  ground arith,
  Named-Agree cs (put_name cs b (q + 1)) (set_byte (put_name cs b (q + 1)) q c) (q + 1)
      (λ o le lt. ground arith) (Named-put_name cs b (q + 1)),
)

module _ (b : Block) (pos inum : ℕ) (name : List ℕ) where
  pub put_record-outside :
      (p : ℕ) → (p < pos) ⊎ (pos + size_of name ≤ p) → put_record b pos inum name p ≡ b p
  unfolding put_record
  put_record-outside p h =
      put_name-outside name (store 8 (store 2 b pos (10 + (length name + 1))) (pos + 2) inum)
        (pos + 10) p (omega arith)
      ∙ store-outside 8 (store 2 b pos (10 + (length name + 1))) (pos + 2) inum p (omega arith)
      ∙ store-outside 2 b pos (10 + (length name + 1)) p (omega arith)

  load-put_record_length :
      size_of name < 65536 → load 2 (put_record b pos inum name) pos ≡ size_of name
  unfolding put_record
  load-put_record_length h =
      let c : Block = store 2 b pos (10 + (length name + 1)) in
      load-Agree 2 _ (store 8 c (pos + 2) inum) pos (λ o le lt.
        put_name-outside name (store 8 c (pos + 2) inum) (pos + 10) o (inl (omega arith)))
      ∙ load-store_out 2 8 c (pos + 2) inum pos (inl (omega arith))
      ∙ load-store_self 2 b pos (10 + (length name + 1)) (omega arith)

  load-put_record_inum : inum < word_mod → load 8 (put_record b pos inum name) (pos + 2) ≡ inum
  unfolding put_record
  load-put_record_inum h =
      let c : Block = store 2 b pos (10 + (length name + 1)) in
      load-Agree 8 _ (store 8 c (pos + 2) inum) (pos + 2) (λ o le lt.
        put_name-outside name (store 8 c (pos + 2) inum) (pos + 10) o (inl (omega arith)))
      ∙ load-store_self 8 c (pos + 2) inum h

  Named-put_record : Named name (put_record b pos inum name) (pos + 10)
  unfolding put_record
  Named-put_record =
      Named-put_name name (store 8 (store 2 b pos (10 + (length name + 1))) (pos + 2) inum)
        (pos + 10)

-- The bytes of the block from `p` on are 0.
abbrev pub Zeros : ℕ → Block → Type 0
Zeros p b = (o : ℕ) → p ≤ o → o < block_size → b o ≡ 0

-- A directory block with the records `es`, and zeros behind them.
pub record Holds (pos : ℕ) (es : List Entry) (b : Block) : Type 0 where
  pub layout : Layout pos es b
  pub zeros : Zeros (end_of pos es) b

pub end_of-ge : (pos : ℕ) (es : List Entry) → pos ≤ end_of pos es
unfolding end_of
end_of-ge pos [] = omega arith
end_of-ge pos ((inum, name) ∷ es) = omega (arith, end_of-ge (pos + size_of name) es)

pub load-Zeros : (p : ℕ) (b : Block) → Zeros p b → p ≤ last_possible_record → load 2 b p ≡ 0
unfolding load
load-Zeros p b z le =
    omega (arith, z p (omega arith) (omega arith), z (p + 1) (omega arith) (omega arith))

-- A first record that `b` holds, before the records of `c`, where the blocks agree on it.
pub Holds-cons :
    (pos : ℕ) (i : ℕ) (n : List ℕ) (es fs : List Entry) (b c : Block)
    → Layout pos ((i, n) ∷ es) b
    → Agree b c pos (pos + size_of n)
    → Holds (pos + size_of n) fs c
    → Holds pos ((i, n) ∷ fs) c
unfolding end_of
Holds-cons pos i n es fs b c h same rest = record {
  layout = (
    h.0,
    sym (load-Agree 2 b c pos (λ o le lt. same o le (omega arith))) ∙ h.1,
    sym (load-Agree 8 b c (pos + 2) (λ o le lt. same o (omega arith) (omega arith))) ∙ h.2,
    Named-Agree n b c (pos + 10) (λ o le lt. same o (omega arith) (omega arith)) h.3,
    rest.layout,
  );
  zeros = rest.zeros;
}

-- The record that add_directory_entry writes where the records `es` end, if it fits into the block: the
-- block then holds the same records and the new one behind them, and zeros behind that.
pub Holds-put_record :
    (pos : ℕ) (es : List Entry) (b : Block) (inum : ℕ) (name : List ℕ)
    → Holds pos es b
    → inum < word_mod
    → end_of pos es + size_of name ≤ block_size
    → Holds pos (es ++ ((inum, name) ∷ [])) (put_record b (end_of pos es) inum name)
unfolding end_of
Holds-put_record pos [] b inum name h fits room =
    let zeros : Zeros (pos + size_of name) (put_record b pos inum name) =
      λ o le lt. put_record-outside b pos inum name o (inr le) ∙ h.zeros o (omega arith) lt in
    record {
      layout = (
        room,
        load-put_record_length b pos inum name (omega arith),
        load-put_record_inum b pos inum name fits,
        Named-put_record b pos inum name,
        elim (Bool-cases (leb (pos + size_of name) last_possible_record)) [
          | inl le ↦ inr (load-Zeros (pos + size_of name) _ zeros (ground arith))
          | inr gt ↦ inl (ground arith)
        ],
      );
      zeros = zeros;
    }
Holds-put_record pos ((i, n) ∷ es) b inum name h fits room =
    let rest : Holds (pos + size_of n) (es ++ ((inum, name) ∷ []))
        (put_record b (end_of (pos + size_of n) es) inum name) =
      Holds-put_record (pos + size_of n) es b inum name
        (record { layout = h.layout.4; zeros = h.zeros }) fits room in
    let above : pos + size_of n ≤ end_of (pos + size_of n) es = end_of-ge (pos + size_of n) es in
    Holds-cons pos i n es (es ++ ((inum, name) ∷ [])) b
      (put_record b (end_of (pos + size_of n) es) inum name) h.layout
      (λ o le lt.
        sym (put_record-outside b (end_of (pos + size_of n) es) inum name o (inl (omega arith))))
      rest
