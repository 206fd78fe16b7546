-- ===== src/Directory/Remove.antt =====
-- src/directory_ops.c, the block that remove_directory_entry writes back: the records without the one
-- removed.
use alt_file_system.Prelude.{
  ℕ, zero, suc, ◌+◌, ◌≤◌, ◌<◌, ◌≡◌, refl, ap, subst, ◌∙◌, inl, inr, some, List, [], ◌∷◌, arith, ltb,
  leb, if◌then◌else◌, length, Bool-cases,
}
use alt_file_system.Bytes.{Block, block_size, load}
use alt_file_system.Directory.{last_possible_record, cut_record}
use alt_file_system.Directory.Records.{Entry, Named, size_of, end_of, same_name, position_of}
use alt_file_system.Directory.Append.{Zeros, Holds, load-Zeros, Holds-cons}

-- The entries without the first of a name.
unfoldable pub without : List ℕ → List Entry → List Entry
without name [] = []
without name ((inum, other) ∷ es) =
    if same_name other name then es else (inum, other) ∷ without name es

-- From `q` on, `c` holds the bytes that stand `k` further in `b`, and zeros behind the block's end.
abbrev Shifted : Block → Block → (q k : ℕ) → Type 0
Shifted b c q k = (o : ℕ) → q ≤ o → c o ≡ (if ltb (o + k) block_size then b (o + k) else 0)

Shifted-byte :
    (b c : Block) (q k o : ℕ) → Shifted b c q k → q ≤ o → o + k < block_size → c o ≡ b (o + k)
Shifted-byte b c q k o h le lt = ground (arith, h o le)

load-Shifted :
    (n : ℕ) (b c : Block) (q k p : ℕ)
    → Shifted b c q k
    → q ≤ p
    → p + k + n ≤ block_size
    → load n c p ≡ load n b (p + k)
unfolding load
load-Shifted zero b c q k p h le lt = refl
load-Shifted (suc n) b c q k p h le lt =
    let e : p + 1 + k ≡ p + k + 1 = omega arith in
    omega (
      arith,
      Shifted-byte b c q k p h le (omega arith),
      subst (λ m. load n c (p + 1) ≡ load n b m) e
          (load-Shifted n b c q k (p + 1) h (omega arith) (omega arith)),
    )

Named-Shifted :
    (name : List ℕ) (b c : Block) (q k p : ℕ)
    → Shifted b c q k
    → q ≤ p
    → p + k + length name < block_size
    → Named name b (p + k)
    → Named name c p
Named-Shifted [] b c q k p h le lt named = Shifted-byte b c q k p h le (omega arith) ∙ named
Named-Shifted (d ∷ ds) b c q k p h le lt named = (
  Shifted-byte b c q k p h le (omega arith) ∙ named.0,
  Named-Shifted ds b c q k (p + 1) h (omega arith) (omega arith)
      (subst (λ m. Named ds b m) (omega arith) named.1),
)

Zeros-Shifted : (b c : Block) (q k p : ℕ) → Shifted b c q k → q ≤ p → Zeros (p + k) b → Zeros p c
Zeros-Shifted b c q k p h le z o ge lt = elim (Bool-cases (ltb (o + k) block_size)) [
  | inl inside ↦
      Shifted-byte b c q k o h (omega arith) (ground arith) ∙ z (o + k) (omega arith) (ground arith)
  | inr outside ↦ ground (arith, h o (omega arith))
]

end_of-Shifted : (p k : ℕ) (es : List Entry) → end_of (p + k) es ≡ end_of p es + k
unfolding end_of
end_of-Shifted p k [] = refl
end_of-Shifted p k ((inum, name) ∷ es) =
    ap (λ m. end_of m es) (omega arith) ∙ end_of-Shifted (p + size_of name) k es

-- Records that move up as a whole are still records.
Holds-Shifted :
    (es : List Entry) (b c : Block) (q k p : ℕ)
    → Shifted b c q k
    → q ≤ p
    → Holds (p + k) es b
    → Holds p es c
unfolding end_of
Holds-Shifted [] b c q k p h le v =
    let zeros : Zeros p c = Zeros-Shifted b c q k p h le v.zeros in
    record {
      layout = elim (Bool-cases (leb p last_possible_record)) [
        | inl fits ↦ inr (load-Zeros p c zeros (ground arith))
        | inr past ↦ inl (ground arith)
      ];
      zeros = zeros;
    }
Holds-Shifted ((inum, name) ∷ es) b c q k p h le v =
    let e : p + k + size_of name ≡ p + size_of name + k = omega arith in
    let f : p + k + 2 ≡ p + 2 + k = omega arith in
    let n : p + k + 10 ≡ p + 10 + k = omega arith in
    let rest : Holds (p + size_of name) es c =
      Holds-Shifted es b c q k (p + size_of name) h (omega arith)
        (subst (λ m. Holds m es b) e (record { layout = v.layout.4; zeros = v.zeros })) in
    record {
      layout = (
        omega (arith, v.layout.0),
        load-Shifted 2 b c q k p h le (omega (arith, v.layout.0)) ∙ v.layout.1,
        load-Shifted 8 b c q k (p + 2) h (omega arith) (omega (arith, v.layout.0))
            ∙ subst (λ m. load 8 b m ≡ inum) f v.layout.2,
        Named-Shifted name b c q k (p + 10) h (omega arith) (omega (arith, v.layout.0))
            (subst (λ m. Named name b m) n v.layout.3),
        rest.layout,
      );
      zeros = rest.zeros;
    }

position_of-ge :
    (name : List ℕ) (pos p : ℕ) (es : List Entry) → position_of name pos es ≡ some p → pos ≤ p
unfolding position_of
position_of-ge name pos p [] e = ground arith
position_of-ge name pos p ((inum, other) ∷ es) e =
    ground (arith, position_of-ge name (pos + size_of other) p es)

-- remove_directory_entry on a block that holds the records `es`, where the first record of the name
-- starts at `p`: the block then holds the records without that one, in their order, and zeros behind.
pub Holds-cut_record :
    (es : List Entry) (pos p : ℕ) (name : List ℕ) (b : Block)
    → Holds pos es b
    → position_of name pos es ≡ some p
    → Holds pos (without name es) (cut_record b p)
unfolding without position_of cut_record end_of
Holds-cut_record [] pos p name b h e = ground arith
Holds-cut_record ((inum, other) ∷ es) pos p name b h e = elim (Bool-cases (same_name other name)) [
  | inl same ↦
      let here : pos ≡ p = ground arith in
      rw same (
        Holds-Shifted es b (cut_record b p) pos (size_of other) pos
          (λ o le. ground (arith, h.layout.1)) (omega arith)
          (record { layout = h.layout.4; zeros = h.zeros }))
  | inr differs ↦
      let later : position_of name (pos + size_of other) es ≡ some p = ground arith in
      let above : pos + size_of other ≤ p = position_of-ge name (pos + size_of other) p es later in
      rw differs (
        Holds-cons pos inum other es (without name es) b (cut_record b p) h.layout
          (λ o le lt. ground arith)
          (Holds-cut_record es (pos + size_of other) p name b
            (record { layout = h.layout.4; zeros = h.zeros }) later))
]
