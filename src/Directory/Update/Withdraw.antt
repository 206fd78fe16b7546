-- ===== src/Directory/Update/Withdraw.antt =====
-- src/directory_ops.c, remove_directory_entry on a whole directory with direct blocks.
use alt_file_system.Prelude.{
  ℕ, ◌+◌, ◌%◌, ◌≤◌, ◌<◌, ◌≡◌, ◌⊎◌, refl, ◌∙◌, sym, ap, subst, inl, inr, true, false, Option, none,
  some, List, [], ◌∷◌, ◌++◌, arith, length, length-append, Bool-cases,
}
use alt_file_system.Bytes.{Block, word_mod}
use alt_file_system.Disk.{Geometry, Fs, minus_one, put_block, set_disk}
use alt_file_system.Disk.Laws.{IsSound}
use alt_file_system.DataBlock.{write_data_block}
use alt_file_system.Inode.{Inode}
use alt_file_system.BlockMap.Direct.{direct_at, direct_write}
use alt_file_system.Directory.{
  max_file_name_length, cut_record, FilePosition, get_file_position_in_dir, remove_directory_entry,
}
use alt_file_system.Directory.Records.{Entry, size_of, same_name, position_of}
use alt_file_system.Directory.Remove.{without, Holds-cut_record}
use alt_file_system.Directory.Entries.{DirBlock, entries, assoc, assoc-append_parts}
use alt_file_system.Directory.Find.{Finds, FoundIn, get_file_position-Finds}
use alt_file_system.Directory.Update.{
  Stored, IsSmallDirectory, IsDirectory-small, Stored-number, Stored-written, same_length,
}

without-append_none :
    (name : List ℕ) (es fs : List Entry)
    → assoc name es ≡ none
    → without name (es ++ fs) ≡ es ++ without name fs
unfolding assoc without
without-append_none name [] fs h = refl
without-append_none name ((inum, other) ∷ es) fs h = elim (Bool-cases (same_name other name)) [
  | inl same ↦ absurd (ground arith)
  | inr differs ↦
      rw differs (ap (λ l. (inum, other) ∷ l) (without-append_none name es fs (ground arith)))
]

without-append_found :
    (name : List ℕ) (pos p : ℕ) (es fs : List Entry)
    → position_of name pos es ≡ some p
    → without name (es ++ fs) ≡ without name es ++ fs
unfolding position_of without
without-append_found name pos p [] fs h = ground arith
without-append_found name pos p ((inum, other) ∷ es) fs h =
    elim (Bool-cases (same_name other name)) [
      | inl same ↦ rw same refl
      | inr differs ↦ rw differs (
          ap (λ l. (inum, other) ∷ l)
            (without-append_found name (pos + size_of other) p es fs (ground arith)))
    ]

-- The blocks after the removal: the block with the name loses its first record with it.
without-entries :
    (name : List ℕ) (before : List DirBlock) (number p : ℕ) (es : List Entry)
    (after : List DirBlock)
    → assoc name (entries before) ≡ none
    → position_of name 0 es ≡ some p
    → entries (before ++ ((number, without name es) ∷ after))
      ≡ without name (entries (before ++ ((number, es) ∷ after)))
without-entries name [] number p es after h e =
    sym (without-append_found name 0 p es (entries after) e)
without-entries name ((n, ns) ∷ before) number p es after h e =
    let parts = assoc-append_parts name ns (entries before) h in
    ap (λ l. ns ++ l) (without-entries name before number p es after parts.1 e)
    ∙ sym (without-append_none name ns _ parts.0)

-- A removal that has succeeded.
pub record Withdrawn (g : Geometry) (now : ℕ) (node : Inode) (name : List ℕ) (bs : List DirBlock)
    (dir : Inode) (t : Fs) : Type 0 where
  pub blocks : List DirBlock
  pub after : IsSmallDirectory g t dir blocks
  pub kept : entries blocks ≡ without name (entries bs)
  pub ctime : dir.i_ctime ≡ now
  pub mtime : dir.i_mtime ≡ now
  pub children : dir.i_child_num ≡ (node.i_child_num + minus_one) % word_mod

module _ {g : Geometry} (sound : IsSound g) (now : ℕ) (s : Fs) (node : Inode) (bs : List DirBlock)
    (name : List ℕ) (dir : IsSmallDirectory g s node bs) where
  remove_found :
      (p : FilePosition)
      → FoundIn name bs p
      → get_file_position_in_dir g name node s ≡ some (some p)
      → (dir' : Inode) × (t : Fs) × (remove_directory_entry g now node name s
          ≡ some (true, dir', t))
        × Withdrawn g now node name bs dir' t
  unfolding remove_directory_entry set_disk
  remove_found p f found =
      let split : List DirBlock = f.before ++ ((p.p_plock_num, f.es) ∷ f.after) in
      let stored : Stored node s.disk 0 split = subst (Stored node s.disk 0) f.split dir.stored in
      let length_split : length split ≡ node.i_blocks_num =
        ap length (sym f.split) ∙ sym dir.count in
      let at : direct_at node (length f.before) ≡ p.p_plock_num =
        ap (direct_at node) (omega arith)
        ∙ Stored-number sound dir.blocks s.disk 0 f.before p.p_plock_num f.es f.after stored in
      let c : Block = cut_record p.p_block p.offset in
      let inside : length f.before < node.i_blocks_num =
        omega (arith, length_split, length-append f.before ((p.p_plock_num, f.es) ∷ f.after)) in
      let written : write_data_block g p.p_plock_num c s
          ≡ (true, set_disk s (put_block s.disk p.p_plock_num c)) =
        subst (λ n. write_data_block g n c s ≡ (true, set_disk s (put_block s.disk n c))) at
          (direct_write sound dir.blocks (length f.before) inside s c) in
      (
        record node {
          i_ctime = now;
          i_mtime = now;
          i_child_num = (node.i_child_num + minus_one) % word_mod;
        },
        set_disk s (put_block s.disk p.p_plock_num c),
        rw (found, written) refl,
        record {
          blocks = f.before ++ ((p.p_plock_num, without name f.es) ∷ f.after);
          after = record {
            roots = record {
              single_root = dir.roots.single_root;
              double_root = dir.roots.double_root;
              triple_root = dir.roots.triple_root;
            };
            kind = dir.kind;
            count = sym length_split ∙ same_length _ _ f.before f.after;
            blocks = record {
              few = dir.blocks.few;
              above = dir.blocks.above;
              below = dir.blocks.below;
              apart = dir.blocks.apart;
            };
            stored =
                Stored-written sound dir.blocks s.disk 0 f.before p.p_plock_num f.es
                  (without name f.es) f.after c stored (omega (arith, length_split))
                  (Holds-cut_record f.es 0 p.offset name p.p_block f.holds f.position);
          };
          kept =
              without-entries name f.before p.p_plock_num p.offset f.es f.after f.not_before
                f.position
              ∙ ap (λ l. without name (entries l)) (sym f.split);
          ctime = refl;
          mtime = refl;
          children = refl;
        },
      )

  remove_outcome :
      (r : Option FilePosition)
      → get_file_position_in_dir g name node s ≡ some r
      → Finds name bs r
      → ((assoc name (entries bs) ≡ none)
          × (remove_directory_entry g now node name s ≡ some (false, node, s)))
        ⊎ ((dir' : Inode) × (t : Fs) × (remove_directory_entry g now node name s
              ≡ some (true, dir', t))
            × Withdrawn g now node name bs dir' t)
  unfolding remove_directory_entry
  remove_outcome none e f = inl (f, rw e refl)
  remove_outcome (some p) e f = inr (remove_found p f e)

  -- remove_directory_entry, in a directory whose data blocks are direct blocks with some records in
  -- them, and for a name of at most 255 bytes: if no entry has the name, it returns false and changes
  -- nothing; otherwise it returns true, the blocks then hold the entries without the first one of the
  -- name, in their order, and the inode has the new times and one child less.
  pub remove_directory_entry-Withdrawn :
      length name ≤ max_file_name_length
      → ((assoc name (entries bs) ≡ none)
          × (remove_directory_entry g now node name s ≡ some (false, node, s)))
        ⊎ ((dir' : Inode) × (t : Fs) × (remove_directory_entry g now node name s
              ≡ some (true, dir', t))
            × Withdrawn g now node name bs dir' t)
  remove_directory_entry-Withdrawn short =
      let found =
        get_file_position-Finds g s node bs name (IsDirectory-small sound s node bs dir) short in
      remove_outcome found.0 found.1 found.2
