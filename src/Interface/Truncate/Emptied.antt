-- ===== src/Interface/Truncate/Emptied.antt =====
-- src/interface_layer.c, altfs_truncate to length 0 of a file with direct blocks: the inode and the free list
-- afterwards.
use alt_file_system.Prelude.{
  ℕ, ◌+◌, ◌/◌, ◌%◌, ◌^◌, ◌≤◌, ◌<◌, ◌≡◌, ◌≢◌, refl, ap, ◌∙◌, subst, false, inl, inr, true, some,
  List, [], ◌∷◌, arith, ltb, ◌==◌, get_or, length, Bool-cases,
}
use alt_file_system.Bytes.{word_mod}
use alt_file_system.Disk.{Geometry, Fs, minus_one, is_negative, set_disk}
use alt_file_system.Disk.Laws.{IsSound}
use alt_file_system.Superblock.Encoding.{IsSuperblock}
use alt_file_system.DataBlock.FreeList.{free_count, IsFreeList, free_count-write, IsFreeList-write}
use alt_file_system.DataBlock.Kept.{SameCounts}
use alt_file_system.Inode.{Inode, set_inode}
use alt_file_system.Inode.Layout.{IsInode}
use alt_file_system.InodeOps.{get_inode, write_inode}
use alt_file_system.InodeOps.Table.{get_inode-in, write_inode-in, get_inode-write_inode}
use alt_file_system.BlockMap.Remove.{remove_direct}
use alt_file_system.BlockMap.Remove.Trees.{remove_datablocks_from_inode}
use alt_file_system.BlockMap.Remove.Direct.{
  Owned, Returned, remove_direct-Returned, remove_datablocks-all,
}
use alt_file_system.BlockMap.Remove.Fields.{
  Cleared, remove_direct-SameCounts, remove_direct-Cleared,
}
use alt_file_system.World.{World, programs}
use alt_file_system.PathLookup.Cached.{IsCoherent, name_i-lookup_path}
use alt_file_system.PathLookup.Reference.{lookup_path}
use alt_file_system.Interface.{has_flag, s_iwusr}
use alt_file_system.Interface.Truncate.{blocks_kept, shrink_file, altfs_truncate}

-- The head of a well-formed free list is a block number.
head-small :
    {g : Geometry} (w : IsSound g) (t : Fs) (ks : List ℕ)
    → IsFreeList g t ks
    → t.superblock.s_freelist_head < word_mod
unfolding free_count
head-small w t [] v = omega (arith, v.chain)
head-small w t (k ∷ ks) v = ground (arith, v.chain.0, v.chain.1, v.in_range k v.chain.1, w.small)

-- The inode of an empty file, with these direct blocks.
abbrev pub emptied : List ℕ → Inode → Inode
emptied blocks node = record node { i_file_size = 0; i_blocks_num = 0; i_direct_blocks = blocks }

emptied-IsInode :
    (n : ℕ) (node cleared : Inode) (c : Cleared node n 0 cleared)
    → IsInode node
    → IsInode (emptied c.blocks node)
emptied-IsInode n node cleared c v = record {
  mode = v.mode;
  uid = v.uid;
  gid = v.gid;
  status = v.status;
  atime = v.atime;
  ctime = v.ctime;
  mtime = v.mtime;
  links = v.links;
  size = omega arith;
  blocks = omega arith;
  direct = λ k. elim (Bool-cases (ltb k n)) [
    | inl below ↦ omega (arith, c.zeros k (omega arith) (ground arith))
    | inr above ↦ omega (arith, c.others k (inr (ground arith)), v.direct k)
  ];
  count = c.count ∙ v.count;
  single = v.single;
  double = v.double;
  triple = v.triple;
  child = v.child;
}

-- The file `inum` is empty and has no blocks in `t`, whose free list has gained the blocks that it had
-- as `node` in `s`.
pub record EmptiedFile (g : Geometry) (inum : ℕ) (node : Inode) (s : Fs) (hs : List ℕ) (t : Fs)
    : Type 0 where
  pub blocks : List ℕ
  pub zeros : (k : ℕ) → k < node.i_blocks_num → get_or blocks k 0 ≡ 0
  pub others : (k : ℕ) → node.i_blocks_num ≤ k → get_or blocks k 0 ≡ get_or node.i_direct_blocks k 0
  pub reads_back : get_inode g inum t ≡ some (emptied blocks node)
  pub counts : IsSuperblock g t.superblock
  pub free : List ℕ
  pub gained : Returned g s hs node.i_direct_blocks node.i_blocks_num 0 t free

-- Writing an inode back leaves the free list alone.
pub write_inode-Returned :
    {g : Geometry} (w : IsSound g) (inum : ℕ) (n : Inode) (s t : Fs) (hs blocks ks : List ℕ)
    (m i : ℕ)
    → IsSuperblock g t.superblock
    → inum < t.superblock.s_inodes_count
    → Returned g s hs blocks m i t ks
    → Returned g s hs blocks m i (write_inode g inum n t).1 ks
unfolding set_disk
write_inode-Returned w inum n s t hs blocks ks m i sb inside r =
    let y : ℕ = 1 + inum / 18 in
    let b = set_inode (t.disk y) (inum % 18) n in
    let spared : y ≢ 0 → free_count t.disk ks y ≡ 0 =
      λ p. ground (arith, r.list.in_range y p, inside, sb.inodes) in
    rw (write_inode-in w inum n t sb inside) (record {
      list = IsFreeList-write r.list y b spared;
      added = λ x p. free_count-write r.list y b x spared ∙ r.added x p;
    })

-- The inode number `inum` is the file `node`: its blocks are direct blocks, data blocks that are not free and
-- not twice among them, and the free list is well formed and not empty.
pub record IsDirectFile (g : Geometry) (inum : ℕ) (node : Inode) (s : Fs) (hs : List ℕ)
    : Type 0 where
  pub counts : IsSuperblock g s.superblock
  pub found : get_inode g inum s ≡ some node
  pub fits : IsInode node
  pub some_blocks : 0 < node.i_blocks_num
  pub few : node.i_blocks_num ≤ 12
  pub list : IsFreeList g s hs
  pub more : s.superblock.s_freelist_head ≢ 0
  pub owned : Owned g s hs node.i_direct_blocks node.i_blocks_num 0

module _ {g : Geometry} (w : IsSound g) (inum : ℕ) (node : Inode) (s : Fs) (hs : List ℕ)
    (f : IsDirectFile g inum node s hs) where
  removed : Fs
  removed = (remove_direct g node.i_blocks_num 0 node s).2

  pub valid : inum < s.superblock.s_inodes_count
  valid = ground (arith, get_inode-in w inum s f.counts, f.found)

  all_removed :
      (remove_direct g node.i_blocks_num 0 node s).0 ≡ true
      → remove_datablocks_from_inode g node 0 s
        ≡ some (
          true,
          record ((remove_direct g node.i_blocks_num 0 node s).1) { i_blocks_num = 0 },
          removed,
        )
  unfolding removed
  all_removed =
      subst
        (λ m.
          (remove_direct g m 0 node s).0 ≡ true
          → remove_datablocks_from_inode g node 0 s
            ≡ some (
              true,
              record ((remove_direct g m 0 node s).1) { i_blocks_num = 0 },
              (remove_direct g m 0 node s).2,
            ))
        (omega arith) (remove_datablocks-all w 0 node s f.some_blocks f.few)

  -- The blocks are removed and the inode is written back.
  removed-EmptiedFile :
      (n : Inode) × (remove_datablocks_from_inode g node 0 s ≡ some (true, n, removed))
      × EmptiedFile g inum node s hs (write_inode g inum (record n { i_file_size = 0 }) removed).1
  unfolding removed set_disk
  removed-EmptiedFile =
      let (ok, (ks, r)) =
        remove_direct-Returned w node.i_blocks_num 0 node s hs f.list f.more f.owned in
      let n : Inode = (remove_direct g node.i_blocks_num 0 node s).1 in
      let c : Cleared node node.i_blocks_num 0 n =
        remove_direct-Cleared g node.i_blocks_num 0 node s (omega (arith, f.few, f.fits.count))
          ok in
      let same : SameCounts removed.superblock s.superblock =
        remove_direct-SameCounts g node.i_blocks_num 0 node s in
      let sb : IsSuperblock g removed.superblock = record {
        inodes = same.inodes ∙ f.counts.inodes;
        per_block = same.per_block ∙ f.counts.per_block;
        first = omega (arith, same.first, f.counts.first);
        head = head-small w removed ks r.list;
      } in
      let inside : inum < removed.superblock.s_inodes_count = omega (arith, same.inodes, valid) in
      let in_table : ltb inum removed.superblock.s_inodes_count ≡ true = ground arith in
      let final : Inode = emptied c.blocks node in
      let cleared : Inode = record n { i_file_size = 0; i_blocks_num = 0 } in
      let written : cleared ≡ final =
        ap {A = Inode} (λ m. record m { i_file_size = 0; i_blocks_num = 0 }) c.same in
      let fits : IsInode final = emptied-IsInode node.i_blocks_num node n c f.fits in
      let stored = write_inode-in w inum final removed sb inside in
      (
        record n { i_blocks_num = 0 },
        all_removed ok,
        rw written (record {
          blocks = c.blocks;
          zeros = λ k lt. c.zeros k (omega arith) (omega arith);
          others = λ k ge. c.others k (inr (omega arith));
          reads_back =
              ground (arith, get_inode-write_inode w inum inum final removed sb fits, in_table);
          counts = rw stored sb;
          free = ks;
          gained =
              write_inode-Returned w inum final s removed hs node.i_direct_blocks ks
                node.i_blocks_num 0 sb inside r;
        }),
      )

  -- The rest of altfs_truncate.
  shrink_file-EmptiedFile :
      (v : World)
      → v.fs ≡ s
      → (t : Fs) × (shrink_file g inum node 0 v ≡ some (0, record v { fs = t }))
        × EmptiedFile g inum node s hs t
  unfolding shrink_file blocks_kept
  shrink_file-EmptiedFile v at =
      let (n, ran, done) = removed-EmptiedFile in
      let shorter : ltb 0 node.i_blocks_num ≡ true = ground (arith, f.some_blocks) in
      (
        (write_inode g inum (record n { i_file_size = 0 }) removed).1,
        simp (programs, shorter, at, ran),
        done,
      )

-- altfs_truncate to 0 of a path that names a file of at least one byte and one block, that its
-- owner may write, whose blocks are direct blocks, data blocks that are not free and no two the
-- same, with a well-formed free list that is not empty: it returns 0; the file's inode reads back
-- with size 0, no blocks, and zeros for the numbers of its blocks, and is else as it was; and the
-- free list is well formed and has gained exactly these blocks. This where the old size is below
-- 2^63, the cache agreed with the directories and has room for the length of the path, the values
-- of the inode fit their fields, and the superblock has the counts of the build.
pub altfs_truncate-EmptiedFile :
    {g : Geometry} (w : IsSound g) (now inum : ℕ) (path : List ℕ) (node : Inode) (hs : List ℕ)
    (v : World)
    → IsCoherent g v.fs v.cache
    → v.cache.size + length path ≤ v.cache.capacity
    → lookup_path g path v.fs ≡ some inum
    → inum ≢ minus_one
    → IsDirectFile g inum node v.fs hs
    → has_flag node.i_mode s_iwusr ≡ true
    → 0 < node.i_file_size
    → node.i_file_size < 2 ^ 63
    → (v' : World) × (altfs_truncate g now path 0 v ≡ some (0, v'))
      × EmptiedFile g inum node v.fs hs v'.fs
unfolding altfs_truncate
altfs_truncate-EmptiedFile {g} w now inum path node hs v coherent room means taken f writable filled
      small =
    let (c, ran, coherent', sizes, capacities) =
      name_i-lookup_path g path v inum coherent room means in
    let (t, shrunk, done) =
      shrink_file-EmptiedFile w inum node v.fs hs f (record v { cache = c }) refl in
    let named : (inum == minus_one) ≡ false = ground arith in
    let not_empty : (node.i_file_size == 0) ≡ false = ground arith in
    let no_less : ltb node.i_file_size 0 ≡ false = ground arith in
    let positive : is_negative node.i_file_size ≡ false = ground arith in
    (
      record { fs = t; cache = c },
      simp (programs, ran, named, f.found, writable, not_empty, positive, no_less, shrunk),
      done,
    )
