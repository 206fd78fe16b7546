-- ===== src/Directory/Update.antt =====
-- src/directory_ops.c: a directory whose data blocks are direct blocks of its inode, and a write to one
-- of them.
pub mod Withdraw
pub mod Enter
pub mod Room
pub mod Extend
pub mod Result
use alt_file_system.Prelude.{
  ℕ, zero, suc, ◌+◌, ◌≤◌, ◌<◌, ◌≡◌, ◌≢◌, refl, ◌∙◌, sym, ap, subst, Bool, true, false, Option, none,
  some, List, [], ◌∷◌, ◌++◌, arith, ltb, if◌then◌else◌, length, length-append,
}
use alt_file_system.Bytes.{Block, block_size}
use alt_file_system.Disk.{Geometry, Fs, Disk, put_block, set_disk}
use alt_file_system.Disk.Laws.{IsSound, put_block_self, put_block_ne}
use alt_file_system.DataBlock.{read_data_block}
use alt_file_system.Inode.{Inode}
use alt_file_system.BlockMap.{is_not_positive}
use alt_file_system.BlockMap.Locate.{locate, resolve}
use alt_file_system.BlockMap.Lookup.{HasRoots, locate-direct}
use alt_file_system.BlockMap.Direct.{direct_at, HasDirectBlocks, direct_read, direct_positive}
use alt_file_system.Directory.{s_isdir}
use alt_file_system.Directory.Records.{Entry}
use alt_file_system.Directory.Append.{Holds}
use alt_file_system.Directory.Entries.{DirBlock}
use alt_file_system.Directory.Find.{BlockAt, BlocksFrom, IsDirectory}

pub same_length :
    (x y : DirBlock) (before after : List DirBlock)
    → length (before ++ (x ∷ after)) ≡ length (before ++ (y ∷ after))
same_length x y [] after = refl
same_length x y (b ∷ before) after = ap suc (same_length x y before after)

-- The direct blocks from `l` on are `bs`, with their records on the disk.
abbrev pub Stored : Inode → Disk → ℕ → List DirBlock → Type 0
Stored node d l [] = Unit
Stored node d l ((number, es) ∷ bs) =
    (direct_at node l ≡ number) × Holds 0 es (d number) × Stored node d (l + 1) bs

pub record IsSmallDirectory (g : Geometry) (s : Fs) (node : Inode) (bs : List DirBlock)
    : Type 0 where
  pub roots : HasRoots node
  pub kind : s_isdir node.i_mode ≡ true
  pub count : node.i_blocks_num ≡ length bs
  pub blocks : HasDirectBlocks g node
  pub stored : Stored node s.disk 0 bs

module _ {g : Geometry} (sound : IsSound g) {node : Inode} (few : HasDirectBlocks g node) where
  BlocksFrom-Stored :
      (s : Fs) (l : ℕ) (bs : List DirBlock)
      → Stored node s.disk l bs
      → l + length bs ≤ node.i_blocks_num
      → BlocksFrom g s node l bs
  unfolding resolve
  BlocksFrom-Stored s l [] v h = v
  BlocksFrom-Stored s l ((number, es) ∷ bs) v h =
      let here : l < node.i_blocks_num = omega arith in
      (
        record {
          recorded = rw (locate-direct l (omega (arith, few.few))) (ap some v.0);
          positive =
              subst (λ n. is_not_positive n ≡ false) v.0 (direct_positive sound few l here s);
          content = s.disk number;
          on_disk =
              ap (λ n. read_data_block g n s) (sym v.0)
              ∙ direct_read sound few l here s
              ∙ ap (λ n. some (s.disk n)) v.0;
          holds = v.1;
        },
        BlocksFrom-Stored s (l + 1) bs v.2 (omega arith),
      )

  pub Stored-number :
      (d : Disk) (l : ℕ) (before : List DirBlock) (number : ℕ) (es : List Entry)
      (after : List DirBlock)
      → Stored node d l (before ++ ((number, es) ∷ after))
      → direct_at node (l + length before) ≡ number
  Stored-number d l [] number es after v = ap (direct_at node) (omega arith) ∙ v.0
  Stored-number d l (b ∷ before) number es after v =
      ap (direct_at node) (omega arith) ∙ Stored-number d (l + 1) before number es after v.2

  pub Stored-Holds :
      (d : Disk) (l : ℕ) (before : List DirBlock) (number : ℕ) (es : List Entry)
      (after : List DirBlock)
      → Stored node d l (before ++ ((number, es) ∷ after))
      → Holds 0 es (d number)
  Stored-Holds d l [] number es after v = v.1
  Stored-Holds d l (b ∷ before) number es after v =
      Stored-Holds d (l + 1) before number es after v.2

  -- A write to a block that is not among the blocks keeps them.
  pub Stored-kept :
      (d : Disk) (l k : ℕ) (c : Block) (bs : List DirBlock)
      → Stored node d l bs
      → k < l
      → l + length bs ≤ node.i_blocks_num
      → Stored node (put_block d (direct_at node k) c) l bs
  Stored-kept d l k c [] v h inside = v
  Stored-kept d l k c ((number, es) ∷ bs) v h inside =
      let ne : direct_at node k ≢ number =
        λ e. absurd (omega (arith, few.apart k l (omega arith) (omega arith) (e ∙ sym v.0))) in
      (
        v.0,
        subst (Holds 0 es) (sym (put_block_ne d (direct_at node k) number c ne)) v.1,
        Stored-kept d (l + 1) k c bs v.2 (omega arith) (omega arith),
      )

  -- The block behind `before` is written.
  pub Stored-written :
      (d : Disk) (l : ℕ) (before : List DirBlock) (number : ℕ) (es fs : List Entry)
      (after : List DirBlock) (c : Block)
      → Stored node d l (before ++ ((number, es) ∷ after))
      → l + length (before ++ ((number, es) ∷ after)) ≤ node.i_blocks_num
      → Holds 0 fs c
      → Stored node (put_block d number c) l (before ++ ((number, fs) ∷ after))
  Stored-written d l [] number es fs after c v inside h = (
    v.0,
    subst (Holds 0 fs) (sym (put_block_self d number c)) h,
    subst (λ n. Stored node (put_block d n c) (l + 1) after) v.0
        (Stored-kept d (l + 1) l c after v.2 (omega arith) (omega arith)),
  )
  Stored-written d l ((n, ns) ∷ before) number es fs after c v inside h =
      let there : direct_at node (l + 1 + length before) ≡ number =
        Stored-number d (l + 1) before number es after v.2 in
      let ne : number ≢ n = λ e. absurd (
        omega (
          arith,
          length-append before ((number, es) ∷ after),
          few.apart (l + 1 + length before) l
              (omega (arith, length-append before ((number, es) ∷ after))) (omega arith)
              (there ∙ e ∙ sym v.0),
        )) in
      (
        v.0,
        subst (Holds 0 ns) (sym (put_block_ne d number n c ne)) v.1,
        Stored-written d (l + 1) before number es fs after c v.2 (omega arith) h,
      )

-- Such a directory is one.
pub IsDirectory-small :
    {g : Geometry} (sound : IsSound g) (s : Fs) (node : Inode) (bs : List DirBlock)
    → IsSmallDirectory g s node bs
    → IsDirectory g s node bs
IsDirectory-small sound s node bs dir = record {
  roots = dir.roots;
  kind = dir.kind;
  count = dir.count;
  blocks = BlocksFrom-Stored sound dir.blocks s 0 bs dir.stored (omega (arith, dir.count));
}
