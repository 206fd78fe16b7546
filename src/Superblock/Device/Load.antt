-- ===== src/Superblock/Device/Load.antt =====
-- load_superblock of src/superblock_layer.c in the DISK_MEMORY build.
use alt_file_system.Prelude.{
  ℕ, zero, suc, ◌+◌, ◌*◌, ◌≤◌, ◌<◌, ◌≡◌, refl, ◌∙◌, ap, Bool, ◌%◌, ◌≢◌, true, false, none, some,
  arith,
}
use alt_file_system.Bytes.{Block, block_size, zero_block}
use alt_file_system.Bytes.Laws.{Agree, load-Agree}
use alt_file_system.Disk.{Geometry, Fs, Disk, num_of_data_blocks}
use alt_file_system.Disk.Laws.{IsSound}
use alt_file_system.Disk.Device.{
  System, Process, null, live, freed, set_pointer, open_volume, read_block,
}
use alt_file_system.Disk.Device.Laws.{
  IsLawful, IsReliable, superblock-read_block, buffer-read_block, read_block_total,
}
use alt_file_system.Disk.Device.Sessions.{Holds, read_block-Holds}
use alt_file_system.Disk.Device.Erase.{open_volume-IsReady}
use alt_file_system.Superblock.{encode_superblock, decode_superblock, is_empty_buffer}
use alt_file_system.Superblock.Encoding.{IsSuperblock, decode-encode, not_empty-encode}
use alt_file_system.Superblock.Device.{
  copy_superblock, load_superblock, accept_superblock, makefs_options,
}
use alt_file_system.Superblock.Device.MakeFs.{makefs_options-HoldsNew}

is_empty_buffer-Agree :
    (n : ℕ) (b c : Block) → Agree b c 0 n → is_empty_buffer n b ≡ is_empty_buffer n c
unfolding is_empty_buffer
is_empty_buffer-Agree zero b c a = refl
is_empty_buffer-Agree (suc n) b c a =
    ground (arith, a n, is_empty_buffer-Agree n b c (λ j lo h. a j lo (omega arith)))

decode_superblock-Agree :
    (b c : Block) → Agree b c 0 block_size → decode_superblock b ≡ decode_superblock c
unfolding decode_superblock
decode_superblock-Agree b c a = ground (
  arith,
  load-Agree 8 b c 0 (λ j lo h. a j (omega arith) (omega arith)),
  load-Agree 8 b c 8 (λ j lo h. a j (omega arith) (omega arith)),
  load-Agree 8 b c 16 (λ j lo h. a j (omega arith) (omega arith)),
  load-Agree 8 b c 24 (λ j lo h. a j (omega arith) (omega arith)),
)

module _ {S : System} (L : IsLawful S) {g : Geometry} (w : IsSound g) where
  -- The bytes on the device are those of `d`, whether it is open or not.
  abbrev pub Stores : Process S → Disk → Type 0
  Stores p d =
      (i j : ℕ)
      → i < g.block_count
      → j < block_size
      → L.byte_at p.system (block_size * i + j) ≡ d i j

  module _ {size : ℕ} (R : IsReliable L size) (fits : block_size * g.block_count ≤ size) where
    -- load_superblock up to its last step.
    load_superblock-accept :
        (p : Process S) (t : Fs)
        → Stores p t.disk
        → IsSuperblock g t.superblock
        → t.disk 0 ≡ encode_superblock t.superblock
        → (q : Process S) × (load_superblock g p ≡ accept_superblock g t.superblock q)
          × Holds L w q t.disk
          × (q.superblock ≡ p.superblock)
    unfolding load_superblock
    load_superblock-accept p t e v stored =
        let opened = open_volume-IsReady L R p in
        let p1 : Process S = (open_volume p).1 in
        let h : Holds L w p1 t.disk = record {
          ready = opened.1;
          same = λ i j li lj. opened.3 (block_size * i + j) ∙ e i j li lj;
        } in
        let b : Block = (read_block g 0 zero_block p1).0.1 in
        let ok : (read_block g 0 zero_block p1).0.0 ≡ true =
          read_block_total L w R fits 0 zero_block p1 opened.1 ∙ ground (arith, w.data_blocks) in
        let agree : Agree b (encode_superblock t.superblock) 0 block_size = λ j lo lj.
          buffer-read_block L w 0 zero_block p1 j opened.1 ok lj
          ∙ h.same 0 j (omega (arith, w.data_blocks)) lj
          ∙ ap (λ c. c j) stored in
        let not_empty : is_empty_buffer block_size b ≡ false =
          is_empty_buffer-Agree block_size b _ agree ∙ not_empty-encode w t.superblock v in
        let decoded : decode_superblock b ≡ t.superblock =
          decode_superblock-Agree b _ agree
          ∙ decode-encode t.superblock (omega (arith, v.inodes, w.small, w.data_blocks)) v.first
              v.head (omega (arith, v.per_block)) in
        (
          (read_block g 0 zero_block p1).1,
          rw (opened.0, not_empty, decoded) refl,
          read_block-Holds L w R fits 0 zero_block p1 t.disk h,
          superblock-read_block g 0 zero_block p1 ∙ opened.2,
        )

    -- In a process whose altfs_superblock is NULL, as at the start.
    pub load_superblock_null :
        (p : Process S) (t : Fs)
        → Stores p t.disk
        → IsSuperblock g t.superblock
        → t.disk 0 ≡ encode_superblock t.superblock
        → p.superblock ≡ null
        → (q : Process S) × (load_superblock g p ≡ some (true, q))
          × Holds L w q t.disk
          × (q.superblock ≡ live t.superblock)
    unfolding accept_superblock copy_superblock set_pointer
    load_superblock_null p t e v stored empty =
        let loaded = load_superblock-accept p t e v stored in
        let q : Process S = loaded.0 in
        (
          set_pointer q (live t.superblock),
          rw (loaded.1, loaded.3 ∙ empty) (ground (arith, v.inodes, v.per_block, w.inode_blocks)),
          record { ready = loaded.2.ready; same = loaded.2.same },
          refl,
        )

    -- After altfs_makefs_options in the same process.
    pub load_superblock_freed :
        (p : Process S) (t : Fs)
        → Stores p t.disk
        → IsSuperblock g t.superblock
        → t.disk 0 ≡ encode_superblock t.superblock
        → p.superblock ≡ freed
        → load_superblock g p ≡ none
    unfolding accept_superblock copy_superblock
    load_superblock_freed p t e v stored gone =
        let loaded = load_superblock-accept p t e v stored in
        loaded.1 ∙ rw (loaded.3 ∙ gone) (ground (arith, v.inodes, v.per_block, w.inode_blocks))

    -- load_superblock in the process that ran altfs_makefs_options: altfs_free_memory has set its own
    -- copy of the pointer to NULL, so the superblock is copied into freed memory. This whenever the
    -- device is reliable and large enough, the number of data blocks is no multiple of 512, and the
    -- disk is formatted, which succeeds.
    pub load_superblock-makefs_options :
        (erase : Bool) (p : Process S)
        → num_of_data_blocks g % 512 ≢ 0
        → (q : Process S) × (makefs_options g erase true p ≡ some (true, q))
          × (load_superblock g q ≡ none)
    load_superblock-makefs_options erase p odd =
        let (q, made, gone, t, hs, new) = makefs_options-HoldsNew L w R fits erase p odd in
        (q, made, load_superblock_freed q t new.holds.same new.made.superblock new.made.stored gone)
