-- ===== src/Interface/Readdir/Listing.antt =====
-- src/interface_layer.c, altfs_readdir: the records of a block against the list of entries that it holds.
use alt_file_system.Prelude.{
  ℕ, zero, suc, ◌+◌, ◌≤◌, ◌≡◌, refl, ap, ◌∙◌, inl, inr, false, Option, none, some, List, [], ◌∷◌,
  ◌++◌, arith, leb, ◌==◌, length, Option-cases,
}
use alt_file_system.Bytes.{Block, block_size, load}
use alt_file_system.Disk.{Geometry, Fs}
use alt_file_system.InodeOps.{get_inode}
use alt_file_system.Directory.{record_fixed_len, last_possible_record}
use alt_file_system.Directory.Records.{Entry, Named, size_of, Layout}
use alt_file_system.Interface.{inode_to_stat}
use alt_file_system.Interface.Attributes.{attributes_of}
use alt_file_system.Interface.Readdir.{FillerCall, bytes_at, name_length, filled_at, fill_records}

bytes_at-Named :
    (name : List ℕ) (b : Block) (p : ℕ)
    → Named name b p
    → bytes_at (length name + 1) b p ≡ name ++ (0 ∷ [])
unfolding bytes_at
bytes_at-Named [] b p h = ap (λ c. c ∷ []) h
bytes_at-Named (c ∷ cs) b p h =
    let one_more : length (c ∷ cs) + 1 ≡ suc (length cs + 1) = omega arith in
    rw one_more (rw (h.0, bytes_at-Named cs b (p + 1) h.1) refl)

name_length-size_of :
    (pos : ℕ) (name : List ℕ)
    → pos + size_of name ≤ block_size
    → name_length (size_of name) ≡ length name + 1
unfolding name_length
name_length-size_of pos name fits = omega arith

module _ (g : Geometry) (s : Fs) where
  -- What the callback is given for an entry: the name with its NUL, and the attributes of its inode.
  unfoldable pub call_of : Entry → Option FillerCall
  call_of (inum, name) = elim (get_inode g inum s) [
    | none ↦ none
    | some node ↦ some (name ++ (0 ∷ []), attributes_of inum node)
  ]

  -- The calls for a list of entries, in order; `none` where an inode cannot be read.
  unfoldable pub calls_of : List Entry → Option (List FillerCall)
  unfolding call_of
  calls_of [] = some []
  calls_of (e ∷ es) = elim (call_of e) [
    | none ↦ none
    | some call ↦ elim (calls_of es) [ none ↦ none | some calls ↦ some (call ∷ calls) ]
  ]

  filled_at-call_of :
      (b : Block) (pos inum : ℕ) (name : List ℕ)
      → pos + size_of name ≤ block_size
      → load 2 b pos ≡ size_of name
      → load 8 b (pos + 2) ≡ inum
      → Named name b (pos + record_fixed_len)
      → filled_at g b pos s ≡ call_of (inum, name)
  unfolding filled_at call_of inode_to_stat
  filled_at-call_of b pos inum name fits len num named =
      let shown : bytes_at (name_length (load 2 b pos)) b (pos + record_fixed_len)
          ≡ name ++ (0 ∷ []) =
        ap (λ l. bytes_at (name_length l) b (pos + record_fixed_len)) len
        ∙ ap (λ l. bytes_at l b (pos + record_fixed_len)) (name_length-size_of pos name fits)
        ∙ bytes_at-Named name b (pos + record_fixed_len) named in
      elim (Option-cases (get_inode g inum s)) [
        | inl missing ↦ simp (filled_at, call_of, num, missing)
        | inr (node, got) ↦ simp (filled_at, call_of, num, got, shown)
      ]

  -- The loop over the records of a block that holds the entries from `pos` on, with fuel for the
  -- positions left.
  pub fill_records-calls_of :
      (fuel pos : ℕ) (es : List Entry) (b : Block)
      → block_size ≤ pos + fuel
      → Layout pos es b
      → fill_records g fuel b pos s ≡ calls_of es
  unfolding fill_records calls_of
  fill_records-calls_of zero pos [] b enough h = refl
  fill_records-calls_of zero pos ((inum, name) ∷ es) b enough h = absurd (omega (arith, h.0))
  fill_records-calls_of (suc fuel) pos [] b enough h = ground (arith, h)
  fill_records-calls_of (suc fuel) pos ((inum, name) ∷ es) b enough (fits, len, num, named, rest) =
      let inside : leb last_possible_record pos ≡ false = ground arith in
      let some_length : (load 2 b pos == 0) ≡ false = ground (arith, len) in
      let others : fill_records g fuel b (pos + load 2 b pos) s ≡ calls_of es =
        ap (λ l. fill_records g fuel b (pos + l) s) len
        ∙ fill_records-calls_of fuel (pos + size_of name) es b (omega arith) rest in
      let here = filled_at-call_of b pos inum name fits len num named in
      elim (Option-cases (call_of (inum, name))) [
        | inl missing ↦ simp (fill_records, calls_of, inside, some_length, here, missing)
        | inr (call, given) ↦ elim (Option-cases (calls_of es)) [
          | inl missing ↦
              let stops = others ∙ missing in
              simp (fill_records, calls_of, inside, some_length, here, given, missing, stops)
          | inr (calls, all) ↦
              let goes_on = others ∙ all in
              simp (fill_records, calls_of, inside, some_length, here, given, all, goes_on)
        ]
      ]
