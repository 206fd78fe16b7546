-- ===== src/Superblock/Device/Formats.antt =====
-- src/superblock_layer.c: making the file system on a device, next to making it in memory.
use alt_file_system.Prelude.{
  ℕ, zero, suc, ◌+◌, ◌*◌, ◌≤◌, ◌≡◌, refl, ◌∙◌, ap, inl, inr, Bool, false, not, Option, some, arith,
  if◌then◌else◌, Bool-cases, ◌>>=◌,
}
use alt_file_system.Bytes.{Block, block_size, zero_block}
use alt_file_system.Disk.{
  Geometry, Superblock, Fs, num_of_free_list_blocks, set_superblock, addresses_per_block,
  write_block as memory_write,
}
use alt_file_system.Disk.Laws.{IsSound}
use alt_file_system.Disk.Device.{System, Process, live, set_pointer, write_block}
use alt_file_system.Disk.Device.Laws.{IsLawful, IsReliable, superblock-write_block}
use alt_file_system.Disk.Device.Sessions.{Holds, write_block-both}
use alt_file_system.Superblock as memory
use alt_file_system.Superblock.{inodes_per_block, encode_superblock, freelist_block}
use alt_file_system.Superblock.Device.{
  pointee, write_superblock, create_superblock, create_ilist_from, create_ilist,
  create_freelist_from, create_freelist, format_lists, format_device,
}

-- The last two steps of formatting the memory.
memory_lists : Geometry → Fs → Bool × Fs
memory_lists g s =
    let (ilist_made, s2) = memory.create_ilist g s in
    if not ilist_made then (false, s2) else memory.create_freelist g s2

format_disk-memory_lists :
    (g : Geometry) (s : Fs)
    → memory.format_disk g s ≡ (
        let (super_made, s1) = memory.create_superblock g s in
        if super_made then memory_lists g s1 else (false, s1))
unfolding memory.format_disk memory_lists
format_disk-memory_lists g s = ground arith

module _ {S : System} (L : IsLawful S) {g : Geometry} (w : IsSound g) where
  -- The device holds the blocks of the memory, and both have the same superblock.
  pub record Matches (p : Process S) (s : Fs) : Type 0 where
    pub holds : Holds L w p s.disk
    pub loaded : p.superblock ≡ live s.superblock

  -- Equal results and matching states of a step in the two builds.
  abbrev Both : Bool × Process S → Bool × Fs → Type 0
  Both (r, p) (t, s) = (r ≡ t) × Matches p s

  -- The same where the device's step may use a pointer that is not live.
  abbrev Runs : Option (Bool × Process S) → Bool × Fs → Type 0
  Runs o m = (r : Bool × Process S) × (o ≡ some r) × Both r m

  -- A step, and the next one if it succeeds.
  Both-then :
      (x y : Bool × Process S) (u v : Bool × Fs)
      → Both x u
      → Both y v
      → Both (if x.0 then y else (false, x.1)) (if u.0 then v else (false, u.1))
  Both-then x y u v first second = elim (Bool-cases u.0) [
    | inl done ↦ rw (first.0, done) second
    | inr failed ↦ rw (first.0, failed) (refl, first.1)
  ]

  module _ {size : ℕ} (R : IsReliable L size) (fits : block_size * g.block_count ≤ size) where
    write-Both :
        (i : ℕ) (b : Block) (p : Process S) (s : Fs)
        → Matches p s
        → Both (write_block g i b p) (memory_write g i b s)
    unfolding memory_write
    write-Both i b p s m =
        let both = write_block-both L w R fits i b p s m.holds in
        (
          both.0,
          record {
            holds = both.1;
            loaded = superblock-write_block g i b p ∙ m.loaded ∙ ground arith;
          },
        )

    create_ilist-Both :
        (n b : ℕ) (p : Process S) (s : Fs)
        → Matches p s
        → Both (create_ilist_from g n b p) (memory.create_ilist_from g n b s)
    unfolding create_ilist_from memory.create_ilist_from
    create_ilist-Both zero b p s m = (refl, m)
    create_ilist-Both (suc n) b p s m =
        let first = write-Both b zero_block p s m in
        Both-then _ _ _ _ first (create_ilist-Both n (b + 1) _ _ first.1)

    create_freelist-Both :
        (n b : ℕ) (p : Process S) (s : Fs)
        → Matches p s
        → Both (create_freelist_from g n b p) (memory.create_freelist_from g n b s)
    unfolding create_freelist_from memory.create_freelist_from
    create_freelist-Both zero b p s m = (refl, m)
    create_freelist-Both (suc n) b p s m =
        let first = write-Both b (freelist_block g b) p s m in
        Both-then _ _ _ _ first (create_freelist-Both n (b + addresses_per_block) _ _ first.1)

    create_superblock-Both :
        (p : Process S) (s : Fs)
        → Holds L w p s.disk
        → Runs (create_superblock g p) (memory.create_superblock g s)
    unfolding create_superblock write_superblock pointee set_pointer memory.create_superblock
        memory.write_superblock set_superblock
    create_superblock-Both p s h =
        let sb : Superblock = record {
          s_inodes_count = g.inode_block_count * inodes_per_block;
          s_first_ino = 3;
          s_freelist_head = g.inode_block_count + 1;
          s_num_of_inodes_per_block = inodes_per_block;
        } in
        (
          _,
          refl,
          write-Both 0 (encode_superblock sb) (set_pointer p (live sb)) (set_superblock s sb)
              (record { holds = record { ready = h.ready; same = h.same }; loaded = refl }),
        )

    create_freelist_step :
        (p : Process S) (s : Fs)
        → Matches p s
        → Runs (create_freelist g p) (memory.create_freelist g s)
    unfolding create_freelist pointee memory.create_freelist
    create_freelist_step p s m = (
      _,
      ap
          (λ sb. pointee sb >>= (λ v.
            some (create_freelist_from g (num_of_free_list_blocks g) v.s_freelist_head p)))
          m.loaded,
      create_freelist-Both (num_of_free_list_blocks g) s.superblock.s_freelist_head p s m,
    )

    format_lists-Both :
        (p : Process S) (s : Fs) → Matches p s → Runs (format_lists g p) (memory_lists g s)
    unfolding memory_lists format_lists create_ilist memory.create_ilist
    format_lists-Both p s m =
        let made = create_ilist-Both g.inode_block_count 1 p s m in
        let list = create_freelist_step _ _ made.1 in
        let ok = Bool-cases (memory.create_ilist_from g g.inode_block_count 1 s).0 in
        elim ok [
          | inl ok ↦ rw (made.0, ok) list
          | inr bad ↦ rw (made.0, bad) (_, refl, (refl, made.1))
        ]

    -- Formatting the device and formatting the memory.
    pub format_device-Both :
        (p : Process S) (s : Fs)
        → Holds L w p s.disk
        → Runs (format_device g p) (memory.format_disk g s)
    unfolding format_device
    format_device-Both p s h =
        let made = create_superblock-Both p s h in
        let lists = format_lists-Both made.0.1 _ made.2.1 in
        let nested = format_disk-memory_lists g s in
        elim (Bool-cases (memory.create_superblock g s).0) [
          | inr bad ↦ rw (nested, made.1, made.2.0, bad) (_, refl, (refl, made.2.1))
          | inl ok ↦ rw (nested, made.1, made.2.0, ok) lists
        ]
