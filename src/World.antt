-- ===== src/World.antt =====
-- The state behind the path functions: the file system, and the global `inodeCache`. A function that
-- reads or changes it is a program; `none` is the use of a NULL or of memory that holds no object.
use alt_file_system.Prelude.{Bool, true, Option, none, some}
use alt_file_system.Disk.{Fs}
use alt_file_system.Inode.{Inode}
use alt_file_system.InodeCache.{Cache}

pub record World : Type 0 where
  pub fs : Fs
  pub cache : Cache

abbrev pub Prog : Type 0 → Type 0
Prog A = World → Option (A × World)

abbrev pub pure : {A : Type 0} → A → Prog A
pure a w = some (a, w)

-- The use of a NULL.
abbrev pub fault : {A : Type 0} → Prog A
fault w = none

abbrev pub continue_with : {A B : Type 0} → (A → Prog B) → Option (A × World) → Option (B × World)
continue_with f none = none
continue_with f (some (a, w)) = f a w

infixl 5 ◌>>=◌
abbrev pub ◌>>=◌ : {A B : Type 0} → Prog A → (A → Prog B) → Prog B
(m >>= f) w = continue_with f (m w)

-- A function that only looks at the file system.
abbrev pub reads : {A : Type 0} → (Fs → A) → Prog A
reads f w = some (f w.fs, w)

-- The same where `none` is the use of a NULL.
abbrev pub reads_or_faults : {A : Type 0} → (Fs → Option A) → Prog A
reads_or_faults f w = elim (f w.fs) [ none ↦ none | some a ↦ some (a, w) ]

-- A function that changes the file system.
abbrev pub runs : {A : Type 0} → (Fs → A × Fs) → Prog A
runs f w = let (a, s) = f w.fs in some (a, record w { fs = s })

abbrev pub runs_or_faults : {A : Type 0} → (Fs → Option (A × Fs)) → Prog A
runs_or_faults f w = elim (f w.fs) [ none ↦ none | some (a, s) ↦ some (a, record w { fs = s }) ]

-- One that changes an inode in memory too, and can use a NULL.
abbrev pub runs_on_inode : (Fs → Option (Bool × Inode × Fs)) → Prog (Bool × Inode)
runs_on_inode f w = elim (f w.fs) [
  | none ↦ none
  | some (result, node, s) ↦ some ((result, node), record w { fs = s })
]

-- A function of the cache.
abbrev pub runs_on_cache : {A : Type 0} → (Cache → Option (A × Cache)) → Prog A
runs_on_cache f w = elim (f w.cache) [
  | none ↦ none
  | some (a, c) ↦ some (a, record w { cache = c })
]

-- One that returns nothing.
abbrev pub updates_cache : (Cache → Option Cache) → Prog Bool
updates_cache f w = elim (f w.cache) [ none ↦ none | some c ↦ some (true, record w { cache = c }) ]

-- get_inode where the code does not look for NULL.
abbrev pub require : {A : Type 0} → Option A → Prog A
require none w = none
require (some a) w = some (a, w)

-- To run a program in a goal whose parts' outcomes are known.
pub ruleset programs = (
  ◌>>=◌, reads, reads_or_faults, runs, runs_or_faults, runs_on_inode, runs_on_cache, updates_cache,
  require,
)
