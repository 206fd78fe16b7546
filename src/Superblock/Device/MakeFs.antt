-- ===== src/Superblock/Device/MakeFs.antt =====
-- altfs_makefs_options and load_superblock of src/superblock_layer.c in the DISK_MEMORY build.
use alt_file_system.Prelude.{ℕ, ◌+◌, ◌*◌, ◌%◌, ◌≤◌, ◌≡◌, ◌≢◌, refl, ◌∙◌, Bool, true, some, List}
use alt_file_system.Bytes.{block_size}
use alt_file_system.Disk.{Geometry, Fs, Disk, num_of_data_blocks}
use alt_file_system.Disk.Laws.{IsSound}
use alt_file_system.Disk.Device.{System, Process, freed, set_pointer, alloc_memory}
use alt_file_system.Disk.Device.Laws.{IsLawful, IsReliable}
use alt_file_system.Disk.Device.Sessions.{Holds}
use alt_file_system.Disk.Device.Erase.{alloc_memory-erased}
use alt_file_system.Superblock as memory
use alt_file_system.Superblock.{encode_superblock, decode_superblock, is_empty_buffer}
use alt_file_system.Superblock.Device.{release_superblock, makefs_options}
use alt_file_system.Superblock.Device.Formats.{format_device-Both}
use alt_file_system.DataBlock.MakeFs.{Formatted, format_disk-Formatted}

module _ {S : System} (L : IsLawful S) {g : Geometry} (w : IsSound g) where
  -- The device holds a new file system with the list blocks `hs`, and `t` is it in memory.
  pub record HoldsNew (p : Process S) (t : Fs) (hs : List ℕ) : Type 0 where
    pub holds : Holds L w p t.disk
    pub made : Formatted g t hs

  -- The blocks that the device holds.
  abbrev blocks_of : Process S → Disk
  blocks_of p i j = L.byte_at p.system (block_size * i + j)

  module _ {size : ℕ} (R : IsReliable L size) (fits : block_size * g.block_count ≤ size) where
    pub makefs_options-HoldsNew :
        (erase : Bool) (p : Process S)
        → num_of_data_blocks g % 512 ≢ 0
        → (q : Process S) × (makefs_options g erase true p ≡ some (true, q))
          × (q.superblock ≡ freed)
          × (t : Fs) × (hs : List ℕ) × HoldsNew q t hs
    unfolding makefs_options release_superblock set_pointer
    makefs_options-HoldsNew erase p odd =
        let alloc = alloc_memory-erased L R w fits erase p in
        let p1 : Process S = (alloc_memory g erase p).1 in
        let s : Fs = record {
          disk = blocks_of p1;
          superblock = record {
            s_inodes_count = 0;
            s_first_ino = 0;
            s_freelist_head = 0;
            s_num_of_inodes_per_block = 0;
          };
        } in
        let h : Holds L w p1 s.disk = record { ready = alloc.1; same = λ i j li lj. refl } in
        let runs = format_device-Both L w R fits p1 s h in
        let formatted = format_disk-Formatted w s odd in
        let p2 : Process S = runs.0.1 in
        let good : runs.0.0 ≡ true = runs.2.0 ∙ formatted.0 in
        (
          set_pointer p2 freed,
          rw (alloc.0, runs.1, good, runs.2.1.loaded) refl,
          refl,
          (memory.format_disk g s).1,
          formatted.1.0,
          record {
            holds = record { ready = runs.2.1.holds.ready; same = runs.2.1.holds.same };
            made = formatted.1.1;
          },
        )
