-- ===== src/Directory/Find.antt =====
-- src/directory_ops.c, get_file_position_in_dir on a whole directory, over all its data blocks.
use alt_file_system.Prelude.{
  ℕ, zero, suc, ◌+◌, ◌≤◌, ◌≡◌, refl, ◌∙◌, sym, ap, subst, inl, inr, true, false, Option, none, some,
  List, [], ◌∷◌, ◌++◌, arith, ltb, length, Option-cases,
}
use alt_file_system.Bytes.{Block, block_size, load}
use alt_file_system.Disk.{Geometry, Fs}
use alt_file_system.DataBlock.{read_data_block}
use alt_file_system.Inode.{Inode}
use alt_file_system.BlockMap.{get_disk_block_from_inode_block, is_not_positive}
use alt_file_system.BlockMap.Locate.{locate, resolve}
use alt_file_system.BlockMap.Lookup.{HasRoots, IsHint, get_disk_block-resolve}
use alt_file_system.BlockMap.Next.{get_disk_block-IsHint}
use alt_file_system.Directory.{
  max_file_name_length, s_isdir, find_record, FilePosition, find_in_blocks,
  get_file_position_in_dir,
}
use alt_file_system.Directory.Records.{Entry, position_of, find_record-position_of}
use alt_file_system.Directory.Append.{Holds}
use alt_file_system.Directory.Entries.{
  assoc, DirBlock, entries, assoc-append_none, assoc-position_of-none, assoc-position_of,
  assoc_split,
}

module _ (g : Geometry) (s : Fs) (node : Inode) where
  -- The logical block `l` of the directory is the data block `number`, with the records `es`.
  pub record BlockAt (l : ℕ) (number : ℕ) (es : List Entry) : Type 0 where
    pub recorded : resolve g s node (locate l) ≡ some number
    pub positive : is_not_positive number ≡ false
    pub content : Block
    pub on_disk : read_data_block g number s ≡ some content
    pub holds : Holds 0 es content

  -- From the logical block `l` on the directory has the blocks `bs`.
  abbrev pub BlocksFrom : ℕ → List DirBlock → Type 0
  BlocksFrom l [] = Unit
  BlocksFrom l ((number, es) ∷ bs) = BlockAt l number es × BlocksFrom (l + 1) bs

  pub record IsDirectory (bs : List DirBlock) : Type 0 where
    pub roots : HasRoots node
    pub kind : s_isdir node.i_mode ≡ true
    pub count : node.i_blocks_num ≡ length bs
    pub blocks : BlocksFrom 0 bs

-- Where a name is among the blocks `bs`: behind the blocks `before`, which do not have it, at a
-- position of the block `number`.
pub record FoundIn (name : List ℕ) (bs : List DirBlock) (p : FilePosition) : Type 0 where
  pub before : List DirBlock
  pub es : List Entry
  pub after : List DirBlock
  pub split : bs ≡ before ++ ((p.p_plock_num, es) ∷ after)
  pub not_before : assoc name (entries before) ≡ none
  pub position : position_of name 0 es ≡ some p.offset
  pub holds : Holds 0 es p.p_block

abbrev pub Finds : List ℕ → List DirBlock → Option FilePosition → Type 0
Finds name bs none = assoc name (entries bs) ≡ none
Finds name bs (some p) = FoundIn name bs p

-- What is found behind a block that does not have the name.
Finds-cons :
    (name : List ℕ) (number : ℕ) (es : List Entry) (bs : List DirBlock) (r : Option FilePosition)
    → assoc name es ≡ none
    → Finds name bs r
    → Finds name ((number, es) ∷ bs) r
Finds-cons name number es bs none h f = assoc-append_none name es (entries bs) h ∙ f
Finds-cons name number es bs (some p) h f = record {
  before = (number, es) ∷ f.before;
  es = f.es;
  after = f.after;
  split = ap (λ l. (number, es) ∷ l) f.split;
  not_before = assoc-append_none name es (entries f.before) h ∙ f.not_before;
  position = f.position;
  holds = f.holds;
}

find_in_blocks_end :
    (g : Geometry) (s : Fs) (node : Inode) (name : List ℕ) (l prev : ℕ)
    → find_in_blocks g name node zero l prev s ≡ some none
unfolding find_in_blocks
find_in_blocks_end g s node name l prev = refl

-- One round of the loop, on a block that can be read.
find_in_blocks-round :
    (g : Geometry) (s : Fs) (node : Inode) (name : List ℕ) (n l prev number next : ℕ) (c : Block)
    → get_disk_block_from_inode_block g node l prev s ≡ some (number, next)
    → is_not_positive number ≡ false
    → read_data_block g number s ≡ some c
    → find_in_blocks g name node (suc n) l prev s ≡ elim (find_record block_size name c 0) [
      | some pos ↦ some (some (record { p_block = c; p_plock_num = number; offset = pos }))
      | none ↦ find_in_blocks g name node n (l + 1) next s
    ]
unfolding find_in_blocks
find_in_blocks-round g s node name n l prev number next c got good on_disk =
    rw (got, good, on_disk) refl

module _ (g : Geometry) (s : Fs) (node : Inode) (roots : HasRoots node) where
  find_in_blocks-Finds :
      (name : List ℕ) (bs : List DirBlock) (l prev : ℕ)
      → BlocksFrom g s node l bs
      → l + length bs ≤ node.i_blocks_num
      → IsHint g s node (locate l) prev
      → (r : Option FilePosition) × (find_in_blocks g name node (length bs) l prev s ≡ some r)
        × Finds name bs r
  unfolding assoc
  find_in_blocks-Finds name [] l prev v inside hint =
      (none, find_in_blocks_end g s node name l prev, refl)
  find_in_blocks-Finds name ((number, es) ∷ bs) l prev v inside hint =
      let here = v.0 in
      let found = get_disk_block-resolve g s node roots l prev (omega arith) hint ∙ here.recorded in
      elim (Option-cases (get_disk_block_from_inode_block g node l prev s)) [
        | inl missing ↦ absurd (ground (arith, found))
        | inr ((n, next), got) ↦
            let e : n ≡ number = ground (arith, found) in
            let got_here : get_disk_block_from_inode_block g node l prev s ≡ some (number, next) =
              got ∙ ap (λ k. some (k, next)) e in
            let good : is_not_positive n ≡ false = rw e here.positive in
            let next_hint : IsHint g s node (locate (l + 1)) next =
              subst (λ k. IsHint g s node (locate k) next) (omega arith)
                (get_disk_block-IsHint g s node roots l prev n next (omega arith) hint got good) in
            let searched =
              find_record-position_of block_size 0 name es here.content here.holds.layout
                (omega arith) in
            elim (Option-cases (position_of name 0 es)) [
              | inl absent ↦
                  let missed = searched ∙ absent in
                  let rest =
                    find_in_blocks-Finds name bs (l + 1) next v.1 (omega arith) next_hint in
                  (
                    rest.0,
                    (find_in_blocks-round g s node name (length bs) l prev number next here.content
                          got_here here.positive here.on_disk
                        ∙ rw missed rest.1),
                    Finds-cons name number es bs rest.0 (assoc-position_of-none name 0 es absent)
                        rest.2,
                  )
              | inr (p, there) ↦
                  let hit = searched ∙ there in
                  (
                    some (record { p_block = here.content; p_plock_num = number; offset = p }),
                    find_in_blocks-round g s node name (length bs) l prev number next here.content
                          got_here here.positive here.on_disk
                        ∙ rw hit refl,
                    record {
                      before = [];
                      es = es;
                      after = bs;
                      split = refl;
                      not_before = refl;
                      position = there;
                      holds = here.holds;
                    },
                  )
            ]
      ]

-- The inode number in the record found.
abbrev pub number_of : Option FilePosition → Option ℕ
number_of none = none
number_of (some p) = some (load 8 p.p_block (p.offset + 2))

pub Finds-assoc :
    (name : List ℕ) (bs : List DirBlock) (r : Option FilePosition)
    → Finds name bs r
    → number_of r ≡ assoc name (entries bs)
Finds-assoc name bs none f = sym f
Finds-assoc name bs (some p) f =
    let there = assoc-position_of name 0 p.offset f.es p.p_block f.holds.layout f.position in
    sym (
      ap (λ l. assoc name (entries l)) f.split
      ∙ assoc_split name f.before p.p_plock_num f.es f.after _ f.not_before there)

-- get_file_position_in_dir on a whole directory.
pub get_file_position-Finds :
    (g : Geometry) (s : Fs) (node : Inode) (bs : List DirBlock) (name : List ℕ)
    → IsDirectory g s node bs
    → length name ≤ max_file_name_length
    → (r : Option FilePosition) × (get_file_position_in_dir g name node s ≡ some r)
      × Finds name bs r
unfolding get_file_position_in_dir
get_file_position-Finds g s node bs name dir short =
    let found =
      find_in_blocks-Finds g s node dir.roots name bs 0 0 dir.blocks (omega (arith, dir.count))
        (inl refl) in
    let fits : ltb max_file_name_length (length name) ≡ false = ground (arith, short) in
    let all : find_in_blocks g name node node.i_blocks_num 0 0 s ≡ some found.0 =
      subst (λ n. find_in_blocks g name node n 0 0 s ≡ some found.0) (sym dir.count) found.1 in
    (found.0, rw (dir.kind, fits) all, found.2)
