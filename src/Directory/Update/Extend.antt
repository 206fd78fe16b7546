-- ===== src/Directory/Update/Extend.antt =====
-- src/directory_ops.c, add_directory_entry on a whole directory with direct blocks: the record starts a new
-- data block.
use alt_file_system.Prelude.{
  ℕ, ◌+◌, ◌≤◌, ◌<◌, ◌≡◌, ◌≢◌, ◌⊎◌, refl, ◌∙◌, sym, ap, subst, inl, inr, true, false, none, some,
  List, [], ◌∷◌, ◌++◌, arith, tests, ltb, if◌then◌else◌, length, length-append, Bool-cases, set,
  get_or-set_ne, get_or-set_self,
}
use alt_file_system.Bytes.{Block, block_size, word_mod, zero_block}
use alt_file_system.Bytes.Laws.{load-zero_block}
use alt_file_system.Disk.{
  Geometry, Fs, Disk, put_block, set_disk, write_block, is_block_out_of_range,
}
use alt_file_system.Disk.Laws.{IsSound, put_block_self, put_block_ne}
use alt_file_system.DataBlock.{is_bad_index, write_data_block, allocate_data_block}
use alt_file_system.DataBlock.FreeList.{free_count, IsFreeList}
use alt_file_system.DataBlock.Allocate.{Allocated}
use alt_file_system.Inode.{Inode}
use alt_file_system.BlockMap.{is_not_positive}
use alt_file_system.BlockMap.Add.{add_datablock_to_inode}
use alt_file_system.BlockMap.Direct.{direct_at, HasDirectBlocks}
use alt_file_system.Directory.{max_file_name_length, put_record, add_in_new_block}
use alt_file_system.Directory.Records.{Entry, same_name, end_of}
use alt_file_system.Directory.Append.{Holds, Holds-put_record}
use alt_file_system.Directory.Entries.{DirBlock, entries, assoc}
use alt_file_system.Directory.Update.{Stored, IsSmallDirectory}
use alt_file_system.Directory.Update.Enter.{assoc-entered}
use alt_file_system.Directory.Update.Room.{Entered}

-- A disk and an inode with the same blocks from `l` on.
Stored-same :
    (node node' : Inode) (d d' : Disk) (l : ℕ) (bs : List DirBlock)
    → Stored node d l bs
    → ((k : ℕ)
        → l ≤ k
        → k < l + length bs
        → (direct_at node' k ≡ direct_at node k) × (d' (direct_at node k) ≡ d (direct_at node k)))
    → Stored node' d' l bs
Stored-same node node' d d' l [] v h = v
Stored-same node node' d d' l ((number, es) ∷ bs) v h =
    let here = h l (omega arith) (omega arith) in
    (
      here.0 ∙ v.0,
      subst (Holds 0 es) (sym (ap d' (sym v.0) ∙ here.1 ∙ ap d v.0)) v.1,
      Stored-same node node' d d' (l + 1) bs v.2 (λ k lo hi. h k (omega arith) (omega arith)),
    )

Stored-append :
    (node : Inode) (d : Disk) (l : ℕ) (bs : List DirBlock) (number : ℕ) (es : List Entry)
    → Stored node d l bs
    → direct_at node (l + length bs) ≡ number
    → Holds 0 es (d number)
    → Stored node d l (bs ++ ((number, es) ∷ []))
Stored-append node d l [] number es v at h = (ap (direct_at node) (omega arith) ∙ at, h, v)
Stored-append node d l ((n, ns) ∷ bs) number es v at h = (
  v.0,
  v.1,
  Stored-append node d (l + 1) bs number es v.2 (ap (direct_at node) (omega arith) ∙ at) h,
)

entries-append_empty : (bs : List DirBlock) (a : ℕ) → entries (bs ++ ((a, []) ∷ [])) ≡ entries bs
entries-append_empty [] a = refl
entries-append_empty ((n, ns) ∷ bs) a = ap (λ l. ns ++ l) (entries-append_empty bs a)

-- A block with one record only.
pub alone-Holds :
    (inum : ℕ) (name : List ℕ)
    → length name ≤ max_file_name_length
    → inum < word_mod
    → Holds 0 ((inum, name) ∷ []) (put_record zero_block 0 inum name)
unfolding end_of zero_block
alone-Holds inum name short small =
    Holds-put_record 0 [] zero_block inum name
      (record { layout = inr (load-zero_block 2 0); zeros = λ o lo hi. refl }) small
      (omega (arith, short))

module _ {g : Geometry} (sound : IsSound g) (s : Fs) (node : Inode) (bs : List DirBlock) (inum : ℕ)
    (name : List ℕ) (dir : IsSmallDirectory g s node bs) (absent : assoc name (entries bs) ≡ none)
    (short : length name ≤ max_file_name_length) (small : inum < word_mod) where
  -- The directory owns its blocks, and there is an entry of the inode for one more.
  module _ (hs : List ℕ) (v : IsFreeList g s hs)
      (own : (l : ℕ) → l < node.i_blocks_num → free_count s.disk hs (direct_at node l) ≡ 0)
      (one_more : node.i_blocks_num < 12) (twelve : length node.i_direct_blocks ≡ 12) where
    -- The inode with the new block `a`.
    abbrev pub extended : ℕ → Inode
    extended a = record node {
      i_direct_blocks = set node.i_direct_blocks node.i_blocks_num a;
      i_blocks_num = node.i_blocks_num + 1;
      i_file_size = node.i_file_size + block_size;
      i_child_num = node.i_child_num + 1;
    }

    module _ (a : ℕ) (s1 : Fs) (ks : List ℕ) (al : Allocated g s hs a s1 ks) where
      not_own : (l : ℕ) → l < node.i_blocks_num → a ≢ direct_at node l
      not_own l lt e =
          let positive = dir.blocks.above l lt in
          absurd
            (ground (arith, e, own l lt, al.taken (direct_at node l) (omega (arith, positive))))

      extended_self : direct_at (extended a) node.i_blocks_num ≡ a
      extended_self =
          get_or-set_self node.i_direct_blocks node.i_blocks_num a 0 (omega (arith, twelve))

      extended_old : (k : ℕ) → k < node.i_blocks_num → direct_at (extended a) k ≡ direct_at node k
      extended_old k lt =
          get_or-set_ne node.i_direct_blocks node.i_blocks_num k a 0 (λ e. absurd (omega arith))

      -- A block of the directory with the new block is the new one, or one that it had.
      extended_cases :
          (l : ℕ)
          → l < node.i_blocks_num + 1
          → ((l ≡ node.i_blocks_num) × (direct_at (extended a) l ≡ a))
            ⊎ ((l < node.i_blocks_num) × (direct_at (extended a) l ≡ direct_at node l))
      extended_cases l lt = elim (Bool-cases (ltb l node.i_blocks_num)) [
        | inl old ↦ inr (omega tests, extended_old l (omega tests))
        | inr new ↦
            let e : l ≡ node.i_blocks_num = ground (arith, new) in
            inl (e, ap (direct_at (extended a)) e ∙ extended_self)
      ]

      extended-apart :
          (l k : ℕ)
          → l < node.i_blocks_num + 1
          → k < node.i_blocks_num + 1
          → direct_at (extended a) l ≡ direct_at (extended a) k
          → l ≡ k
      extended-apart l k lt kt e = elim (extended_cases l lt) [
        | inl (le, la) ↦ elim (extended_cases k kt) [
          | inl (ke, ka) ↦ le ∙ sym ke
          | inr (ke, ka) ↦ absurd (not_own k ke (sym la ∙ e ∙ ka))
        ]
        | inr (le, la) ↦ elim (extended_cases k kt) [
          | inl (ke, ka) ↦ absurd (not_own l le (sym ka ∙ sym e ∙ la))
          | inr (ke, ka) ↦ dir.blocks.apart l k le ke (sym la ∙ e ∙ ka)
        ]
      ]

      pub extended-HasDirectBlocks : HasDirectBlocks g (extended a)
      extended-HasDirectBlocks = record {
        few = omega arith;
        above = λ l lt. elim (extended_cases l lt) [
          | inl (le, la) ↦ omega (arith, al.lower, la)
          | inr (le, la) ↦ omega (arith, dir.blocks.above l le, la)
        ];
        below = λ l lt. elim (extended_cases l lt) [
          | inl (le, la) ↦ omega (arith, al.upper, la)
          | inr (le, la) ↦ omega (arith, dir.blocks.below l le, la)
        ];
        apart = extended-apart;
      }

      extended-Stored :
          (c : Block)
          → Holds 0 ((inum, name) ∷ []) c
          → Stored (extended a) (put_block s1.disk a c) 0 (bs ++ ((a, (inum, name) ∷ []) ∷ []))
      extended-Stored c h =
          Stored-append (extended a) (put_block s1.disk a c) 0 bs a ((inum, name) ∷ [])
            (Stored-same node (extended a) s.disk (put_block s1.disk a c) 0 bs dir.stored
              (λ k lo hi.
                let lt : k < node.i_blocks_num = omega (arith, dir.count) in
                (
                  extended_old k lt,
                  put_block_ne s1.disk a (direct_at node k) c (not_own k lt)
                      ∙ al.kept (direct_at node k) (omega (arith, dir.blocks.above k lt))
                          (own k lt),
                )))
            (ap (direct_at (extended a)) (omega (arith, dir.count)) ∙ extended_self)
            (subst (Holds 0 ((inum, name) ∷ [])) (sym (put_block_self s1.disk a c)) h)

      pub extended-Entered :
          Entered g node inum name bs
            (extended a)
            (set_disk s1 (put_block s1.disk a (put_record zero_block 0 inum name)))
      unfolding set_disk
      extended-Entered = record {
        blocks = bs ++ ((a, (inum, name) ∷ []) ∷ []);
        after = record {
          roots = record {
            single_root = dir.roots.single_root;
            double_root = dir.roots.double_root;
            triple_root = dir.roots.triple_root;
          };
          kind = dir.kind;
          count = omega (arith, dir.count, length-append bs ((a, (inum, name) ∷ []) ∷ []));
          blocks = extended-HasDirectBlocks;
          stored = extended-Stored _ (alone-Holds inum name short small);
        };
        found = λ x.
            assoc-entered name x inum bs a [] []
              (ap (assoc name) (entries-append_empty bs a) ∙ absent)
            ∙ ap (λ l. if same_name name x then some inum else assoc x l)
                (entries-append_empty bs a);
        children = refl;
      }

      pub write_new :
          (c : Block) → write_data_block g a c s1 ≡ (true, set_disk s1 (put_block s1.disk a c))
      unfolding write_data_block is_bad_index write_block is_block_out_of_range
      write_new c = ground (arith, al.lower, al.upper, sound.small)

      add_datablock-extended :
          (t : Fs)
          → add_datablock_to_inode g node a t
            ≡ some (
              true,
              record node {
                i_direct_blocks = set node.i_direct_blocks node.i_blocks_num a;
                i_blocks_num = node.i_blocks_num + 1;
              },
              t,
            )
      unfolding add_datablock_to_inode
      add_datablock-extended t =
          let direct : ltb node.i_blocks_num 12 ≡ true = ground (arith, one_more) in rw direct refl

      pub add_in_new_block-extended :
          allocate_data_block g s ≡ (a, s1)
          → add_in_new_block g node inum name s
            ≡ some (
              true,
              extended a,
              set_disk s1 (put_block s1.disk a (put_record zero_block 0 inum name)),
            )
      unfolding add_in_new_block
      add_in_new_block-extended e =
          let positive : is_not_positive a ≡ false =
            ground (arith, al.lower, al.upper, sound.small) in
          rw (e, write_new (put_record zero_block 0 inum name), positive)
            (rw (add_datablock-extended _) refl)
