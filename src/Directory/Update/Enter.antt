-- ===== src/Directory/Update/Enter.antt =====
-- src/directory_ops.c, add_directory_entry on a whole directory with direct blocks, where a block has
-- room for the record.
use mathlib.Core.List.{append_assoc}
use alt_file_system.Prelude.{
  ℕ, zero, suc, ◌+◌, ◌≤◌, ◌<◌, ◌≡◌, ◌⊎◌, refl, ◌∙◌, sym, ap, subst, inl, inr, Bool, true, false,
  Option, none, some, List, [], ◌∷◌, ◌++◌, arith, tests, leb, if◌then◌else◌, length, Bool-cases,
}
use alt_file_system.Bytes.{Block, block_size}
use alt_file_system.Disk.{Geometry, Fs, put_block, set_disk}
use alt_file_system.Disk.Laws.{IsSound}
use alt_file_system.DataBlock.{read_data_block, write_data_block}
use alt_file_system.Inode.{Inode}
use alt_file_system.BlockMap.{get_disk_block_from_inode_block, is_not_positive}
use alt_file_system.BlockMap.Direct.{
  HasDirectBlocks, direct_read, direct_write, direct_lookup, direct_positive,
}
use alt_file_system.Directory.{put_record, find_space, add_in_new_block, add_in_blocks}
use alt_file_system.Directory.Records.{Entry, size_of, same_name, end_of, find_space-end_of}
use alt_file_system.Directory.Entries.{DirBlock, entries, assoc, assoc-append_parts}
use alt_file_system.Directory.Update.{Stored}

same_name-eq : (m n : List ℕ) → same_name m n ≡ true → m ≡ n
unfolding same_name
same_name-eq [] [] h = refl
same_name-eq [] (d ∷ ds) h = absurd (ground arith)
same_name-eq (c ∷ cs) [] h = absurd (ground arith)
same_name-eq (c ∷ cs) (d ∷ ds) h =
    let tail : cs ≡ ds = same_name-eq cs ds (ground arith) in
    let head : c ≡ d = ground arith in ap (λ k. k ∷ cs) head ∙ ap (λ l. d ∷ l) tail

-- Entries before which a name does not occur, with a record of that name somewhere behind them.
assoc-prefix :
    (name x : List ℕ) (inum : ℕ) (es r r' : List Entry)
    → assoc name es ≡ none
    → assoc x r' ≡ (if same_name name x then some inum else assoc x r)
    → assoc x (es ++ r') ≡ (if same_name name x then some inum else assoc x (es ++ r))
unfolding assoc
assoc-prefix name x inum [] r r' h e = e
assoc-prefix name x inum ((i, other) ∷ es) r r' h e =
    let absent : same_name other name ≡ false = ground arith in
    let rest = assoc-prefix name x inum es r r' (ground arith) e in
    elim (Bool-cases (same_name name x)) [
      | inl same ↦
          let differs : same_name other x ≡ false =
            ap (same_name other) (sym (same_name-eq name x same)) ∙ absent in
          ground (arith, rest)
      | inr differs ↦ ground (arith, rest)
    ]

-- A record behind those of one block of a directory that does not have the name.
pub assoc-entered :
    (name x : List ℕ) (inum : ℕ) (before : List DirBlock) (number : ℕ) (es : List Entry)
    (after : List DirBlock)
    → assoc name (entries (before ++ ((number, es) ∷ after))) ≡ none
    → assoc x (entries (before ++ ((number, es ++ ((inum, name) ∷ [])) ∷ after))) ≡ (
        if same_name name x
        then some inum
        else assoc x (entries (before ++ ((number, es) ∷ after))))
unfolding assoc
assoc-entered name x inum [] number es after h =
    ap (assoc x) (append_assoc es ((inum, name) ∷ []) (entries after))
    ∙ assoc-prefix name x inum es (entries after) ((inum, name) ∷ entries after)
        (assoc-append_parts name es (entries after) h).0 refl
assoc-entered name x inum ((n, ns) ∷ before) number es after h =
    let parts = assoc-append_parts name ns _ h in
    assoc-prefix name x inum ns _ _ parts.0
      (assoc-entered name x inum before number es after parts.1)

-- Where the record goes: the first block with room.
pub record HasRoom (name : List ℕ) (bs : List DirBlock) : Type 0 where
  pub before : List DirBlock
  pub number : ℕ
  pub es : List Entry
  pub after : List DirBlock
  pub split : bs ≡ before ++ ((number, es) ∷ after)
  pub fits : end_of 0 es + size_of name ≤ block_size

-- One round of the loop of add_directory_entry, on a block that can be read.
pub add_in_blocks-round :
    (g : Geometry) (s : Fs) (node : Inode) (inum : ℕ) (name : List ℕ) (n l prev number next : ℕ)
    (c : Block)
    → get_disk_block_from_inode_block g node l prev s ≡ some (number, next)
    → is_not_positive number ≡ false
    → read_data_block g number s ≡ some c
    → add_in_blocks g node inum name (suc n) l prev s
      ≡ elim (find_space block_size (length name + 1) c 0) [
        | some pos ↦
            let (written, s1) = write_data_block g number (put_record c pos inum name) s in
            some (
              if written
              then (true, record node { i_child_num = node.i_child_num + 1 }, s1)
              else (false, node, s1))
        | none ↦ add_in_blocks g node inum name n (l + 1) next s
      ]
unfolding add_in_blocks
add_in_blocks-round g s node inum name n l prev number next c got good on_disk =
    rw (got, good, on_disk) refl

pub add_in_blocks_end :
    (g : Geometry) (s : Fs) (node : Inode) (inum : ℕ) (name : List ℕ) (l prev : ℕ)
    → add_in_blocks g node inum name zero l prev s ≡ add_in_new_block g node inum name s
unfolding add_in_blocks
add_in_blocks_end g s node inum name l prev = refl

module _ {g : Geometry} (sound : IsSound g) (s : Fs) (node : Inode) (few : HasDirectBlocks g node)
    (inum : ℕ) (name : List ℕ) where
  -- The state after the record is written into the block with room.
  abbrev pub entered : (number : ℕ) (es : List Entry) → Fs
  entered number es =
      set_disk s (put_block s.disk number (put_record (s.disk number) (end_of 0 es) inum name))

  -- The loop of add_directory_entry writes into a block that has room, or goes on to a new block.
  abbrev pub LoopEnds : List DirBlock → Option (Bool × Inode × Fs) → Type 0
  LoopEnds bs result =
      ((r : HasRoom name bs) × (result
          ≡ some (true, record node { i_child_num = node.i_child_num + 1 }, entered r.number r.es)))
      ⊎ (result ≡ add_in_new_block g node inum name s)

  LoopEnds-cons :
      (b : DirBlock) (bs : List DirBlock) (result : Option (Bool × Inode × Fs))
      → LoopEnds bs result
      → LoopEnds (b ∷ bs) result
  LoopEnds-cons b bs result (inl (r, e)) = inl (
    record {
      before = b ∷ r.before;
      number = r.number;
      es = r.es;
      after = r.after;
      split = ap (λ l. b ∷ l) r.split;
      fits = r.fits;
    },
    e,
  )
  LoopEnds-cons b bs result (inr e) = inr e

  pub add_in_blocks-LoopEnds :
      (bs : List DirBlock) (l prev : ℕ)
      → Stored node s.disk l bs
      → l + length bs ≤ node.i_blocks_num
      → LoopEnds bs (add_in_blocks g node inum name (length bs) l prev s)
  add_in_blocks-LoopEnds [] l prev v inside = inr (add_in_blocks_end g s node inum name l prev)
  add_in_blocks-LoopEnds ((number, es) ∷ bs) l prev v inside =
      let here : l < node.i_blocks_num = omega arith in
      let got : get_disk_block_from_inode_block g node l prev s ≡ some (number, prev) =
        direct_lookup sound few l here s prev ∙ ap (λ k. some (k, prev)) v.0 in
      let good : is_not_positive number ≡ false =
        subst (λ n. is_not_positive n ≡ false) v.0 (direct_positive sound few l here s) in
      let on_disk : read_data_block g number s ≡ some (s.disk number) =
        subst (λ n. read_data_block g n s ≡ some (s.disk n)) v.0 (direct_read sound few l here s) in
      let round =
        add_in_blocks-round g s node inum name (length bs) l prev number prev (s.disk number) got
          good on_disk in
      let searched =
        find_space-end_of block_size 0 (length name + 1) es (s.disk number) v.1.layout (omega arith)
          (omega arith) in
      elim (Bool-cases (leb (end_of 0 es + 10 + (length name + 1)) block_size)) [
        | inl room ↦
            let hit = searched ∙ ap (λ b. if b then some (end_of 0 es) else none) room in
            let write =
              subst
                (λ n.
                  (c : Block)
                  → write_data_block g n c s ≡ (true, set_disk s (put_block s.disk n c)))
                v.0 (direct_write sound few l here s) in
            inl (
              record {
                before = [];
                number = number;
                es = es;
                after = bs;
                split = refl;
                fits = omega tests;
              },
              round ∙ rw hit (rw (write (put_record (s.disk number) (end_of 0 es) inum name)) refl),
            )
        | inr full ↦
            let missed = searched ∙ ap (λ b. if b then some (end_of 0 es) else none) full in
            LoopEnds-cons (number, es) bs _
              (subst (LoopEnds bs) (sym (round ∙ rw missed refl))
                (add_in_blocks-LoopEnds bs (l + 1) prev v.2 (omega arith)))
      ]
