-- ===== src/Directory/Entries.antt =====
-- src/directory_ops.c: the records of a directory's blocks as one association list of names with inode
-- numbers.
use alt_file_system.Prelude.{
  ℕ, ◌+◌, ◌≡◌, refl, ◌∙◌, sym, ap, inl, inr, Option, none, some, List, [], ◌∷◌, ◌++◌, arith,
  if◌then◌else◌, Bool-cases,
}
use alt_file_system.Bytes.{Block, load}
use alt_file_system.Directory.Records.{Entry, Layout, size_of, same_name, position_of}

-- The inode number of the first entry with a name.
unfoldable pub assoc : List ℕ → List Entry → Option ℕ
assoc name [] = none
assoc name ((inum, other) ∷ es) = if same_name other name then some inum else assoc name es

-- A data block of a directory: its number, and its records.
abbrev pub DirBlock : Type 0
DirBlock = ℕ × List Entry

-- The entries of a directory, block after block.
abbrev pub entries : List DirBlock → List Entry
entries [] = []
entries ((number, es) ∷ bs) = es ++ entries bs

pub assoc-append_none :
    (name : List ℕ) (es fs : List Entry)
    → assoc name es ≡ none
    → assoc name (es ++ fs) ≡ assoc name fs
unfolding assoc
assoc-append_none name [] fs h = refl
assoc-append_none name ((inum, other) ∷ es) fs h = ground (arith, assoc-append_none name es fs)

pub assoc-append_some :
    (name : List ℕ) (es fs : List Entry) (inum : ℕ)
    → assoc name es ≡ some inum
    → assoc name (es ++ fs) ≡ some inum
unfolding assoc
assoc-append_some name [] fs i h = ground arith
assoc-append_some name ((inum, other) ∷ es) fs i h = ground (arith, assoc-append_some name es fs i)

-- A name that is in neither part.
pub assoc-append_parts :
    (name : List ℕ) (es fs : List Entry)
    → assoc name (es ++ fs) ≡ none
    → (assoc name es ≡ none) × (assoc name fs ≡ none)
unfolding assoc
assoc-append_parts name [] fs h = (refl, h)
assoc-append_parts name ((inum, other) ∷ es) fs h = ground (arith, assoc-append_parts name es fs)

pub assoc-position_of-none :
    (name : List ℕ) (pos : ℕ) (es : List Entry)
    → position_of name pos es ≡ none
    → assoc name es ≡ none
unfolding assoc position_of
assoc-position_of-none name pos [] h = refl
assoc-position_of-none name pos ((inum, other) ∷ es) h =
    ground (arith, assoc-position_of-none name (pos + size_of other) es)

-- The record at the position that the search finds has the inode number of the name.
pub assoc-position_of :
    (name : List ℕ) (pos p : ℕ) (es : List Entry) (b : Block)
    → Layout pos es b
    → position_of name pos es ≡ some p
    → assoc name es ≡ some (load 8 b (p + 2))
unfolding assoc position_of
assoc-position_of name pos p [] b l h = ground arith
assoc-position_of name pos p ((inum, other) ∷ es) b l h = elim (Bool-cases (same_name other name)) [
  | inl same ↦
      let here : pos ≡ p = ground arith in
      rw same (ap some (sym l.2) ∙ ap (λ q. some (load 8 b (q + 2))) here)
  | inr differs ↦
      let later : position_of name (pos + size_of other) es ≡ some p = ground arith in
      rw differs (assoc-position_of name (pos + size_of other) p es b l.4 later)
]

pub assoc_split :
    (name : List ℕ) (before : List DirBlock) (number : ℕ) (es : List Entry) (after : List DirBlock)
    (inum : ℕ)
    → assoc name (entries before) ≡ none
    → assoc name es ≡ some inum
    → assoc name (entries (before ++ ((number, es) ∷ after))) ≡ some inum
assoc_split name [] number es after inum h e = assoc-append_some name es (entries after) inum e
assoc_split name ((n, fs) ∷ before) number es after inum h e =
    let parts = assoc-append_parts name fs (entries before) h in
    assoc-append_none name fs _ parts.0 ∙ assoc_split name before number es after inum parts.1 e
