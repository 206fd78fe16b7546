-- ===== src/Directory/Update/Room.antt =====
-- src/directory_ops.c, add_directory_entry on a whole directory with direct blocks: the record goes into a
-- block with room.
use alt_file_system.Prelude.{
  ℕ, ◌+◌, ◌≤◌, ◌<◌, ◌≡◌, refl, ◌∙◌, sym, ap, subst, none, some, List, [], ◌∷◌, ◌++◌, arith,
  if◌then◌else◌, length,
}
use alt_file_system.Bytes.{word_mod}
use alt_file_system.Disk.{Geometry, Fs, set_disk}
use alt_file_system.Disk.Laws.{IsSound}
use alt_file_system.Inode.{Inode}
use alt_file_system.Directory.{max_file_name_length}
use alt_file_system.Directory.Records.{same_name}
use alt_file_system.Directory.Append.{Holds-put_record}
use alt_file_system.Directory.Entries.{DirBlock, entries, assoc}
use alt_file_system.Directory.Update.{
  Stored, IsSmallDirectory, Stored-Holds, Stored-written, same_length,
}
use alt_file_system.Directory.Update.Enter.{HasRoom, assoc-entered, entered}

-- An addition that has succeeded.
pub record Entered (g : Geometry) (node : Inode) (inum : ℕ) (name : List ℕ) (bs : List DirBlock)
    (dir : Inode) (t : Fs) : Type 0 where
  pub blocks : List DirBlock
  pub after : IsSmallDirectory g t dir blocks
  pub found :
      (x : List ℕ)
      → assoc x (entries blocks) ≡ (if same_name name x then some inum else assoc x (entries bs))
  pub children : dir.i_child_num ≡ node.i_child_num + 1

module _ {g : Geometry} (sound : IsSound g) (s : Fs) (node : Inode) (bs : List DirBlock) (inum : ℕ)
    (name : List ℕ) (dir : IsSmallDirectory g s node bs) (absent : assoc name (entries bs) ≡ none)
    (short : length name ≤ max_file_name_length) (small : inum < word_mod) where
  pub HasRoom-Entered :
      (r : HasRoom name bs)
      → Entered g node inum name bs
          (record node { i_child_num = node.i_child_num + 1 })
          (entered sound s node dir.blocks inum name r.number r.es)
  unfolding set_disk
  HasRoom-Entered r =
      let split : List DirBlock = r.before ++ ((r.number, r.es) ∷ r.after) in
      let stored : Stored node s.disk 0 split = subst (Stored node s.disk 0) r.split dir.stored in
      let length_split : length split ≡ node.i_blocks_num =
        ap length (sym r.split) ∙ sym dir.count in
      record {
        blocks = r.before ++ ((r.number, r.es ++ ((inum, name) ∷ [])) ∷ r.after);
        after = record {
          roots = record {
            single_root = dir.roots.single_root;
            double_root = dir.roots.double_root;
            triple_root = dir.roots.triple_root;
          };
          kind = dir.kind;
          count = sym length_split ∙ same_length _ _ r.before r.after;
          blocks = record {
            few = dir.blocks.few;
            above = dir.blocks.above;
            below = dir.blocks.below;
            apart = dir.blocks.apart;
          };
          stored =
              Stored-written sound dir.blocks s.disk 0 r.before r.number r.es
                (r.es ++ ((inum, name) ∷ [])) r.after _ stored (omega (arith, length_split))
                (Holds-put_record 0 r.es (s.disk r.number) inum name
                  (Stored-Holds sound dir.blocks s.disk 0 r.before r.number r.es r.after stored)
                  small r.fits);
        };
        found = λ x.
            assoc-entered name x inum r.before r.number r.es r.after
              (ap (λ l. assoc name (entries l)) (sym r.split) ∙ absent)
            ∙ ap (λ l. if same_name name x then some inum else assoc x (entries l)) (sym r.split);
        children = refl;
      }
