-- ===== src/Interface/Readdir/Result.antt =====
-- src/interface_layer.c, altfs_readdir of a whole directory, over all its data blocks.
use mathlib.Core.Option
use alt_file_system.Prelude.{
  ℕ, suc, ◌+◌, ◌≤◌, ◌≡◌, ◌≢◌, refl, ◌∙◌, sym, ap, subst, inl, inr, false, Option, none, some, List,
  [], ◌∷◌, ◌++◌, arith, ◌==◌, length, Option-cases,
}
use alt_file_system.Bytes.{Block, block_size}
use alt_file_system.Disk.{Geometry, Fs, minus_one}
use alt_file_system.DataBlock.{read_data_block}
use alt_file_system.Inode.{Inode}
use alt_file_system.InodeOps.{get_inode}
use alt_file_system.BlockMap.{get_disk_block_from_inode_block, is_not_positive}
use alt_file_system.BlockMap.Locate.{locate}
use alt_file_system.BlockMap.Lookup.{IsHint, HasRoots, get_disk_block-resolve}
use alt_file_system.BlockMap.Next.{get_disk_block-IsHint}
use alt_file_system.Directory.Records.{Entry}
use alt_file_system.Directory.Entries.{DirBlock, entries}
use alt_file_system.Directory.Find.{BlocksFrom, IsDirectory}
use alt_file_system.InodeCache.{Cache}
use alt_file_system.World.{World, programs}
use alt_file_system.PathLookup.Cached.{IsCoherent, name_i-lookup_path}
use alt_file_system.PathLookup.Reference.{lookup_path}
use alt_file_system.Interface.Readdir.{FillerCall, fill_records, fill_blocks, altfs_readdir}
use alt_file_system.Interface.Readdir.Listing.{call_of, calls_of, fill_records-calls_of}

-- Two lists of calls after each other; none where one of them is none.
abbrev then_calls : Option (List FillerCall) → Option (List FillerCall) → Option (List FillerCall)
then_calls first others = elim first [
  | none ↦ none
  | some calls ↦ elim others [ none ↦ none | some more ↦ some (calls ++ more) ]
]

-- A call in front of a list of calls; none where one of them is none.
abbrev with_call : Option FillerCall → Option (List FillerCall) → Option (List FillerCall)
with_call first others = elim first [
  | none ↦ none
  | some c ↦ elim others [ none ↦ none | some calls ↦ some (c ∷ calls) ]
]

then_calls-cons :
    (call : Option FillerCall) (first others : Option (List FillerCall))
    → with_call call (then_calls first others) ≡ then_calls (with_call call first) others
then_calls-cons none first others = refl
then_calls-cons (some c) none others = refl
then_calls-cons (some c) (some calls) none = refl
then_calls-cons (some c) (some calls) (some more) = refl

module _ (g : Geometry) (s : Fs) where
  calls_of-append :
      (es fs : List Entry)
      → calls_of g s (es ++ fs) ≡ then_calls (calls_of g s es) (calls_of g s fs)
  unfolding calls_of
  calls_of-append [] fs = elim (Option-cases (calls_of g s fs)) [
    | inl missing ↦ rw missing refl
    | inr (calls, all) ↦ rw all refl
  ]
  calls_of-append (e ∷ es) fs =
      ap (with_call (call_of g s e)) (calls_of-append es fs)
      ∙ then_calls-cons (call_of g s e) (calls_of g s es) (calls_of g s fs)

  module _ (node : Inode) (roots : HasRoots node) where
    -- One round of the loop over the blocks.
    fill_blocks-round :
        (n l prev number next : ℕ) (c : Block)
        → get_disk_block_from_inode_block g node l prev s ≡ some (number, next)
        → read_data_block g number s ≡ some c
        → fill_blocks g node (suc n) l prev s
          ≡ then_calls (fill_records g block_size c 0 s) (fill_blocks g node n (l + 1) next s)
    unfolding fill_blocks
    fill_blocks-round n l prev number next c got on_disk = rw (fill_blocks, got, on_disk) refl

    fill_blocks-calls_of :
        (bs : List DirBlock) (l prev : ℕ)
        → BlocksFrom g s node l bs
        → l + length bs ≤ node.i_blocks_num
        → IsHint g s node (locate l) prev
        → fill_blocks g node (length bs) l prev s ≡ calls_of g s (entries bs)
    unfolding fill_blocks calls_of
    fill_blocks-calls_of [] l prev v inside hint = refl
    fill_blocks-calls_of ((number, es) ∷ bs) l prev v inside hint =
        let here = v.0 in
        let found =
          get_disk_block-resolve g s node roots l prev (omega arith) hint ∙ here.recorded in
        elim (Option-cases (get_disk_block_from_inode_block g node l prev s)) [
          | inl missing ↦ absurd (ground (arith, found))
          | inr ((n, next), got) ↦
              let e : n ≡ number = ground (arith, found) in
              let got_here : get_disk_block_from_inode_block g node l prev s ≡ some (number, next) =
                got ∙ ap (λ k. some (k, next)) e in
              let good : is_not_positive n ≡ false = rw e here.positive in
              let next_hint : IsHint g s node (locate (l + 1)) next =
                subst (λ k. IsHint g s node (locate k) next) (omega arith)
                  (get_disk_block-IsHint g s node roots l prev n next (omega arith) hint got
                    good) in
              fill_blocks-round (length bs) l prev number next here.content got_here here.on_disk
              ∙ ap (λ o. then_calls o (fill_blocks g node (length bs) (l + 1) next s))
                  (fill_records-calls_of g s block_size 0 es here.content (omega arith)
                    here.holds.layout)
              ∙ ap (then_calls (calls_of g s es))
                  (fill_blocks-calls_of bs (l + 1) next v.1 (omega arith) next_hint)
              ∙ sym (calls_of-append es (entries bs))
        ]

-- altfs_readdir of a path that names a directory whose data blocks, in the inode or behind indirect
-- blocks, hold some records: it calls the filler for every entry of all the blocks once and in order,
-- with the name and its NUL and the attributes of the entry's inode, returns 0, and changes only the
-- cache, which goes on agreeing with the directories; and it faults exactly where the inode of an
-- entry cannot be read. This where the cache agreed with the directories and has room for the length of
-- the path.
pub altfs_readdir-calls_of :
    (g : Geometry) (w : World) (path : List ℕ) (inum : ℕ) (node : Inode) (bs : List DirBlock)
    → IsCoherent g w.fs w.cache
    → w.cache.size + length path ≤ w.cache.capacity
    → lookup_path g path w.fs ≡ some inum
    → inum ≢ minus_one
    → get_inode g inum w.fs ≡ some node
    → IsDirectory g w.fs node bs
    → (c : Cache) × (altfs_readdir g path w
        ≡ Option.map (λ calls. ((0, calls), record w { cache = c })) (calls_of g w.fs (entries bs)))
      × IsCoherent g w.fs c
unfolding altfs_readdir
altfs_readdir-calls_of g w path inum node bs coherent room means taken got dir =
    let (c, ran, coherent', sizes, capacities) =
      name_i-lookup_path g path w inum coherent room means in
    let found : (inum == minus_one) ≡ false = ground arith in
    let filled : fill_blocks g node node.i_blocks_num 0 0 w.fs ≡ calls_of g w.fs (entries bs) =
      ap (λ n. fill_blocks g node n 0 0 w.fs) dir.count
      ∙ fill_blocks-calls_of g w.fs node dir.roots bs 0 0 dir.blocks (omega (arith, dir.count))
          (inl refl) in
    elim (Option-cases (calls_of g w.fs (entries bs))) [
      | inl missing ↦
          let stops = filled ∙ missing in
          (c, simp (programs, ran, found, got, dir.kind, stops, missing), coherent')
      | inr (calls, all) ↦
          let fills = filled ∙ all in
          (c, simp (programs, ran, found, got, dir.kind, fills, all), coherent')
    ]
