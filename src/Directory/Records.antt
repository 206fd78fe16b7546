-- ===== src/Directory/Records.antt =====
-- src/directory_ops.c: the records of one directory block as a list of names with inode numbers, and the
-- search for a name in it.
use alt_file_system.Prelude.{
  ℕ, zero, suc, ◌+◌, ◌-◌, ◌%◌, ◌≤◌, ◌<◌, ◌≡◌, refl, ◌⊎◌, Bool, true, false, ◌&&◌, Option, none,
  some, List, [], ◌∷◌, arith, ltb, leb, ◌==◌, if◌then◌else◌, length,
}
use alt_file_system.Bytes.{Block, block_size, load}
use alt_file_system.Directory.{
  record_fixed_len, last_possible_record, bytes_match, is_record_of, find_record, find_space,
}

-- A record: the inode number and the name.
abbrev pub Entry : Type 0
Entry = ℕ × List ℕ

-- The bytes of a name and the NUL behind it.
abbrev pub Named : List ℕ → Block → ℕ → Type 0
Named [] b p = b p ≡ 0
Named (c ∷ cs) b p = (b p ≡ c) × Named cs b (p + 1)

-- The length of a record.
abbrev pub size_of : List ℕ → ℕ
size_of name = record_fixed_len + (length name + 1)

-- From `pos` on the block holds the records `es`, and then a length of 0 or no room for one.
abbrev pub Layout : ℕ → List Entry → Block → Type 0
Layout pos [] b = (last_possible_record < pos) ⊎ (load 2 b pos ≡ 0)
Layout pos ((inum, name) ∷ es) b =
    (pos + size_of name ≤ block_size)
    × (load 2 b pos ≡ size_of name)
    × (load 8 b (pos + 2) ≡ inum)
    × Named name b (pos + record_fixed_len)
    × Layout (pos + size_of name) es b

-- Where the records end.
unfoldable pub end_of : ℕ → List Entry → ℕ
end_of pos [] = pos
end_of pos ((inum, name) ∷ es) = end_of (pos + size_of name) es

-- Whether two names are the same.
unfoldable pub same_name : List ℕ → List ℕ → Bool
same_name [] [] = true
same_name [] (d ∷ ds) = false
same_name (c ∷ cs) [] = false
same_name (c ∷ cs) (d ∷ ds) = c == d && same_name cs ds

-- Where the first record of a name starts.
unfoldable pub position_of : List ℕ → ℕ → List Entry → Option ℕ
position_of name pos [] = none
position_of name pos ((inum, other) ∷ es) =
    if same_name other name then some pos else position_of name (pos + size_of other) es

bytes_match-Named :
    (name other : List ℕ) (b : Block) (p : ℕ)
    → Named other b p
    → (length other == length name && bytes_match name b p) ≡ same_name other name
unfolding bytes_match same_name
bytes_match-Named [] [] b p h = refl
bytes_match-Named [] (d ∷ ds) b p h = ground arith
bytes_match-Named (c ∷ cs) [] b p h = ground arith
bytes_match-Named (c ∷ cs) (d ∷ ds) b p h = ground (arith, bytes_match-Named cs ds b (p + 1) h.1)

-- The test of a record is that of its name.
is_record_of-Named :
    (name other : List ℕ) (b : Block) (pos : ℕ)
    → pos + size_of other ≤ block_size
    → load 2 b pos ≡ size_of other
    → Named other b (pos + record_fixed_len)
    → is_record_of name b pos ≡ same_name other name
unfolding is_record_of
is_record_of-Named name other b pos fit len named =
    let e : (load 2 b pos + (65536 - 11)) % 65536 ≡ length other = omega arith in
    rw e (bytes_match-Named name other b (pos + 10) named)

-- The loop of get_file_position_in_dir over the records of a block that holds the records `es` from
-- `pos` on, with fuel for the positions left: it finds where the first record of the name starts, and
-- nothing if no record has that name.
pub find_record-position_of :
    (fuel pos : ℕ) (name : List ℕ) (es : List Entry) (b : Block)
    → Layout pos es b
    → block_size ≤ fuel + pos
    → find_record fuel name b pos ≡ position_of name pos es
unfolding find_record position_of
find_record-position_of zero pos name [] b h enough = refl
find_record-position_of zero pos name ((inum, other) ∷ es) b h enough = absurd (omega (arith, h.0))
find_record-position_of (suc fuel) pos name [] b h enough = ground arith
find_record-position_of (suc fuel) pos name ((inum, other) ∷ es) b h enough =
    let within : ltb 4086 pos ≡ false = ground (arith, h.0) in
    let more : (load 2 b pos == 0) ≡ false = ground (arith, h.1) in
    rw (within, more, is_record_of-Named name other b pos h.0 h.1 h.3, h.1)
      (rw (find_record-position_of fuel (pos + size_of other) name es b h.4 (omega arith)) refl)

-- The loop of add_directory_entry looks for room: in such a block it finds the end of the records, if a
-- record header and the `len` bytes fit behind it.
pub find_space-end_of :
    (fuel pos len : ℕ) (es : List Entry) (b : Block)
    → Layout pos es b
    → block_size ≤ fuel + pos
    → 1 ≤ len
    → find_space fuel len b pos ≡ (
        if leb (end_of pos es + record_fixed_len + len) block_size
        then some (end_of pos es)
        else none)
unfolding find_space end_of
find_space-end_of zero pos len [] b h enough some_len = ground arith
find_space-end_of zero pos len ((inum, other) ∷ es) b h enough some_len =
    absurd (omega (arith, h.0))
find_space-end_of (suc fuel) pos len [] b h enough some_len = ground arith
find_space-end_of (suc fuel) pos len ((inum, other) ∷ es) b h enough some_len =
    let within : ltb 4086 pos ≡ false = ground (arith, h.0) in
    let more : (load 2 b pos == 0) ≡ false = ground (arith, h.1) in
    rw (within, more, h.1)
      (find_space-end_of fuel (pos + size_of other) len es b h.4 (omega arith) some_len)
