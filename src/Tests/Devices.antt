-- ===== src/Tests/Devices.antt =====
-- The theorems on the device build at concrete inputs: a device in memory, on which no call fails.
use alt_file_system.Prelude.{
  ℕ, ◌+◌, ◌-◌, ◌*◌, ◌≡◌, refl, inl, inr, Bool, true, false, ◌&&◌, none, some, List, [], ◌∷◌, arith,
  ltb, leb, ◌==◌, if◌then◌else◌,
}
use alt_file_system.Bytes.{zero_block}
use alt_file_system.Disk.{Fs, device_geometry}
use alt_file_system.Disk.Laws.{IsSound}
use alt_file_system.Disk.Device.{System, Process, null, write_block, offset_of}
use alt_file_system.Disk.Device.Laws.{IsLawful, IsReliable, moved, byte_at-write_block}
use alt_file_system.Disk.Device.Sessions.{
  Request, read, write, device_session, memory_session, Holds, device_session-memory_session,
}
use alt_file_system.Mkfs.{Outcome, main, parse_flags}
use alt_file_system.Superblock.Device.{makefs_options, load_superblock}
use alt_file_system.Superblock.Device.Load.{load_superblock-makefs_options}
use alt_file_system.Mkfs.Runs.{IsMade, main-IsMade}

record Device : Type 0 where
  contents : ℕ → ℕ
  place : ℕ
  opened : Bool

-- The only descriptor is 3.
abbrev device_size : ℕ
device_size = 4096 * 10485760

abbrev calls : System
calls = record {
  State = Device;
  open_device = λ s. (3, record s { place = 0; opened = true });
  lseek = λ fd offset s. (offset, record s { place = offset });
  read = λ fd b count s. (
    (count, λ j. if ltb j (moved count) then s.contents (s.place + j) else b j),
    record s { place = s.place + moved count },
  );
  write = λ fd b count s. (
    count,
    record s {
      contents = λ i.
          if leb s.place i && ltb i (s.place + moved count) then b (i - s.place) else s.contents i;
      place = s.place + moved count;
    },
  );
  close = λ fd s. (0, record s { opened = false });
}

lawful : IsLawful calls
lawful = record {
  byte_at = λ s i. s.contents i;
  position = λ s fd. s.place;
  is_open = λ s fd. s.opened && fd == 3;
  open_result = λ s. inr refl;
  byte_at-open = λ s i. refl;
  lseek_result = λ fd offset s o. inr refl;
  byte_at-lseek = λ fd offset s i. refl;
  is_open-lseek = λ fd offset s o. o;
  byte_at-read = λ fd b count s i. refl;
  is_open-read = λ fd b count s o. o;
  buffer-read = λ fd b count s j o. refl;
  write_result = λ fd b count s. ground arith;
  byte_at-write = λ fd b count s i o. refl;
  position-write = λ fd b count s o. refl;
  is_open-write = λ fd b count s o. o;
}

reliable : IsReliable lawful device_size
unfolding lawful
reliable = record {
  opens = λ s e. absurd (omega (arith, e));
  seeks = λ fd offset s o h e. absurd (omega (arith, h, e));
  reads = λ fd b count s o h. refl;
  writes = λ fd b count s o h. refl;
  closes = λ fd s o. refl;
  byte_at-close = λ fd s i. refl;
}

sound : IsSound device_geometry
sound = record { inode_blocks = omega arith; data_blocks = omega arith; small = omega arith }

-- A process with the device open, and the blank memory.
abbrev running : Process calls
running = record {
  mem_ptr = 3;
  superblock = null;
  system = record { contents = zero_block; place = 77; opened = true };
}

abbrev memory : Fs
memory = record {
  disk = λ _. zero_block;
  superblock = record {
    s_inodes_count = 0;
    s_first_ino = 0;
    s_freelist_head = 0;
    s_num_of_inodes_per_block = 0;
  };
}

running-Holds : Holds lawful sound running memory.disk
unfolding lawful zero_block
running-Holds = record { ready = refl; same = λ i j li lj. refl }

abbrev requests : List Request
requests = write 5 (λ o. o) ∷ read 5 zero_block ∷ read 10485760 zero_block ∷ []

device_session-memory_session_example :
    ((device_session device_geometry requests running).0
      ≡ (memory_session device_geometry requests memory).0)
    × Holds lawful sound
        (device_session device_geometry requests running).1
        (memory_session device_geometry requests memory).1.disk
device_session-memory_session_example =
    device_session-memory_session lawful sound reliable (omega arith) requests running memory
      running-Holds

byte_at-write_block_example :
    lawful.byte_at (write_block device_geometry 5 (λ o. o) running).1.system 20483 ≡ 3
unfolding lawful write_block offset_of
byte_at-write_block_example =
    byte_at-write_block lawful sound 5 (λ o. o) running 20483 refl (inl refl)

main-IsMade_example :
    (o : Outcome calls) × (main device_geometry (70 ∷ []) running ≡ some o) × IsMade lawful sound o
unfolding parse_flags
main-IsMade_example =
    main-IsMade lawful sound reliable (omega arith) (70 ∷ []) running false true (omega arith) refl
      refl

load_superblock-makefs_options_example :
    (q : Process calls) × (makefs_options device_geometry true true running ≡ some (true, q))
    × (load_superblock device_geometry q ≡ none)
load_superblock-makefs_options_example =
    load_superblock-makefs_options lawful sound reliable (omega arith) true running (omega arith)
