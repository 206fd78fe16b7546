-- ===== src/Mkfs.antt =====
-- src/mkfs.c, the program mkaltfs, in the DISK_MEMORY build that the Makefile gives it.
pub mod Runs
use alt_file_system.Prelude.{
  ℕ, zero, suc, ◌+◌, ◌*◌, Bool, true, false, ◌&&◌, not, Option, none, some, List, [], ◌∷◌, ◌++◌,
  ◌==◌, if◌then◌else◌, ◌>>=◌,
}
use alt_file_system.Disk.{Geometry}
use alt_file_system.Disk.Device.{System, Process, dealloc_memory}
use alt_file_system.Superblock.{inodes_per_block}
use alt_file_system.Superblock.Device.{makefs_options}

-- What main prints.
pub data Message : Type 0 where
  usage : Message
  unrecognized_flag : Message
  version : Message
  creating : (blocks inodes : ℕ) → Message
  makefs_failed : Message
  close_failed : Message
  complete : Message

-- The loop over the flags: it ends the program, or gives the values of E and F after it.
pub data Parsed : Type 0 where
  stop : (status : ℕ) → Message → Parsed
  flags : (erase format : Bool) → Parsed

-- `opts` are the results of getopt before the one of -1.
unfoldable pub parse_flags : (opts : List ℕ) → (erase format : Bool) → Parsed
parse_flags [] erase format = flags erase format
parse_flags (opt ∷ opts) erase format =
    let on_erase = parse_flags opts true format in
    let on_format = parse_flags opts erase true in
    let on_other = parse_flags opts erase format in
    if opt == 69
    then on_erase
    else if opt == 70
    then on_format
    else if opt == 104
    then stop 0 usage
    else if opt == 63
    then stop 1 unrecognized_flag
    else on_other

-- The exit status, the lines printed, and the process at its end.
pub record Outcome (S : System) : Type 0 where
  pub status : ℕ
  pub printed : List Message
  pub process : Process S

-- What main prints before it makes the file system.
unfoldable pub banner : Geometry → (format : Bool) → List Message
banner g format =
    version
    ∷ (if format then creating g.block_count (g.inode_block_count * inodes_per_block) ∷ [] else [])

module _ {S : System} (g : Geometry) where
  -- main after altfs_makefs_options.
  unfoldable pub finish : List Message → Bool × Process S → Outcome S
  finish shown (made, p) =
      let (closed, p1) = dealloc_memory p in
      if not made
      then record { status = 0; printed = shown ++ makefs_failed ∷ []; process = p }
      else if not closed
      then record { status = 0; printed = shown ++ close_failed ∷ []; process = p1 }
      else record { status = 0; printed = shown ++ complete ∷ []; process = p1 }

  -- main after the loop, with F set if no flag was given.
  unfoldable pub run_flags : (erase format : Bool) → Process S → Option (Outcome S)
  unfolding banner finish
  run_flags erase format p = do
    made ← makefs_options g erase format p
    some (finish (banner g format) made)

  unfoldable pub run_parsed : Parsed → Process S → Option (Outcome S)
  unfolding run_flags
  run_parsed (stop status message) p =
      some (record { status = status; printed = message ∷ []; process = p })
  run_parsed (flags erase format) p =
      run_flags erase (if not erase && not format then true else format) p

  unfoldable pub main : (opts : List ℕ) → Process S → Option (Outcome S)
  unfolding parse_flags run_parsed
  main opts p = run_parsed (parse_flags opts false false) p
