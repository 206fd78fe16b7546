-- ===== src/Mkfs/Runs.antt =====
-- Runs of mkaltfs, main of src/mkfs.c, and of load_superblock in the program that mounts the device.
use alt_file_system.Prelude.{
  ℕ, ◌+◌, ◌*◌, ◌%◌, ◌≤◌, ◌≡◌, ◌≢◌, refl, ◌∙◌, Bool, true, false, ◌||◌, ◌&&◌, not, some, List, [],
  ◌∷◌, ◌++◌, arith, if◌then◌else◌,
}
use alt_file_system.Bytes.{block_size}
use alt_file_system.Disk.{Geometry, Fs, num_of_data_blocks}
use alt_file_system.Disk.Laws.{IsSound}
use alt_file_system.Disk.Device.{System, Process, null, live, set_system, dealloc_memory}
use alt_file_system.Disk.Device.Laws.{IsLawful, IsReliable, IsReady}
use alt_file_system.DataBlock.MakeFs.{Formatted}
use alt_file_system.Superblock.Device.{load_superblock}
use alt_file_system.Superblock.Device.MakeFs.{makefs_options-HoldsNew}
use alt_file_system.Superblock.Device.Load.{Stores, load_superblock_null}
use alt_file_system.Mkfs.{
  complete, flags, parse_flags, Outcome, banner, finish, run_flags, run_parsed, main,
}

-- A program that starts on the device as another one left it.
abbrev pub new_process : {S : System} → Process S → Process S
new_process p = record { mem_ptr = 0; superblock = null; system = p.system }

-- mkaltfs ended with a complete file system on the device, whose superblock a new process loads.
pub record IsMade {S : System} (L : IsLawful S) {g : Geometry} (w : IsSound g) (o : Outcome S)
    : Type 0 where
  pub status : o.status ≡ 0
  pub printed : o.printed ≡ banner g true ++ complete ∷ []
  pub fs : Fs
  pub heads : List ℕ
  pub stores : Stores L w o.process fs.disk
  pub made : Formatted g fs heads
  pub mounted : Process S
  pub loads : load_superblock g (new_process o.process) ≡ some (true, mounted)
  pub loaded : mounted.superblock ≡ live fs.superblock

module _ {S : System} (L : IsLawful S) {g : Geometry} (w : IsSound g) {size : ℕ}
    (R : IsReliable L size) (fits : block_size * g.block_count ≤ size) where
  dealloc_memory-IsReady :
      (p : Process S)
      → IsReady L p
      → ((dealloc_memory p).0 ≡ true)
        × ((i : ℕ) → L.byte_at (dealloc_memory p).1.system i ≡ L.byte_at p.system i)
  unfolding dealloc_memory set_system
  dealloc_memory-IsReady p o = (
    ground (arith, R.closes p.mem_ptr p.system o),
    λ i. ground (arith, R.byte_at-close p.mem_ptr p.system i),
  )

  run_flags-IsMade :
      (erase : Bool) (p : Process S)
      → num_of_data_blocks g % 512 ≢ 0
      → (o : Outcome S) × (run_flags g erase true p ≡ some o) × IsMade L w o
  unfolding run_flags finish
  run_flags-IsMade erase p odd =
      let (q, runs, gone, t, hs, new) = makefs_options-HoldsNew L w R fits erase p odd in
      let closed = dealloc_memory-IsReady q new.holds.ready in
      let p1 : Process S = (dealloc_memory q).1 in
      let stores : Stores L w p1 t.disk =
        λ i j li lj. closed.1 (block_size * i + j) ∙ new.holds.same i j li lj in
      let mount =
        load_superblock_null L w R fits (new_process p1) t stores new.made.superblock
          new.made.stored refl in
      (
        record { status = 0; printed = banner g true ++ complete ∷ []; process = p1 },
        rw (runs, closed.0) refl,
        record {
          status = refl;
          printed = refl;
          fs = t;
          heads = hs;
          stores = stores;
          made = new.made;
          mounted = mount.0;
          loads = mount.1;
          loaded = mount.3;
        },
      )

  -- mkaltfs on a reliable device that is large enough, with neither -h nor an unknown flag, and with
  -- -F or without -E: when the number of data blocks is no multiple of 512, it exits with status 0 and
  -- reports that it is complete, whatever was on the device; the device then holds a new file system,
  -- and load_superblock in a program started afterwards returns true with its superblock.
  pub main-IsMade :
      (opts : List ℕ) (p : Process S) (erase format : Bool)
      → num_of_data_blocks g % 512 ≢ 0
      → parse_flags opts false false ≡ flags erase format
      → (format || not erase) ≡ true
      → (o : Outcome S) × (main g opts p ≡ some o) × IsMade L w o
  unfolding main run_parsed
  main-IsMade opts p erase format odd parsed formats =
      let set : (if not erase && not format then true else format) ≡ true = ground arith in
      rw (parsed, set) (run_flags-IsMade erase p odd)
