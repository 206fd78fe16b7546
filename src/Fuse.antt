-- ===== src/Fuse.antt =====
-- src/fuse_layer.c: the callbacks that FUSE is given. A result of int is its 32-bit pattern. What FUSE
-- itself does is not modelled.
use alt_file_system.Prelude.{ℕ, ◌+◌, ◌-◌, ◌%◌, ◌^◌, Bool, List, if◌then◌else◌}
use alt_file_system.Disk.{Geometry, is_negative}
use alt_file_system.Interface.{
  altfs_init, Stat, has_flag, with_flag, s_ifreg, altfs_getattr, altfs_access, altfs_mkdir,
  altfs_mknod, altfs_chmod,
}
use alt_file_system.Interface.Read.{Buffer, altfs_read}
use alt_file_system.Interface.Write.{altfs_write}
use alt_file_system.Interface.Truncate.{o_creat, altfs_truncate, altfs_open}
use alt_file_system.Interface.Unlink.{altfs_unlink, altfs_rename, altfs_destroy}
use alt_file_system.Interface.Readdir.{FillerCall, altfs_readdir}
use alt_file_system.World.{Prog, pure, ◌>>=◌}

-- (int) of a result of ssize_t
unfoldable pub to_int : ℕ → ℕ
to_int x = x % 2 ^ 32

-- if(!status) return -1; return 0;
unfoldable pub status_to_int : Bool → ℕ
status_to_int status = if status then 0 else 2 ^ 32 - 1

unfoldable pub my_chown : List ℕ → (uid gid : ℕ) → ℕ
my_chown path uid gid = 0

unfoldable pub my_utimens : List ℕ → ℕ
my_utimens path = 0

module _ (g : Geometry) where
  unfoldable pub my_access : List ℕ → (mode : ℕ) → Prog ℕ
  unfolding to_int
  my_access path mode = do result ← altfs_access g path; pure (to_int result)

  unfoldable pub my_chmod : List ℕ → (mode : ℕ) → Prog ℕ
  unfolding to_int
  my_chmod path mode = do result ← altfs_chmod g path mode; pure (to_int result)

  -- `flags` is fi->flags.
  unfoldable pub my_create : (now : ℕ) → List ℕ → (mode flags : ℕ) → Prog ℕ
  unfolding status_to_int
  my_create now path mode flags = do
    status ←
        if has_flag flags o_creat
        then altfs_mknod g now path (with_flag mode s_ifreg)
        else altfs_mknod g now path (s_ifreg + 509)
    pure (status_to_int status)

  unfoldable pub my_getattr : List ℕ → Prog (ℕ × Stat)
  unfolding to_int
  my_getattr path = do (result, st) ← altfs_getattr g path; pure (to_int result, st)

  unfoldable pub my_open : (now : ℕ) → List ℕ → (flags : ℕ) → Prog ℕ
  unfolding to_int
  my_open now path flags = do
    inum ← altfs_open g now path flags
    pure (if is_negative inum then to_int inum else 0)

  unfoldable pub my_read : (now : ℕ) → List ℕ → Buffer → (size offset : ℕ) → Prog (ℕ × Buffer)
  unfolding to_int
  my_read now path buff size offset = do
    (nbytes, filled) ← altfs_read g now path buff size offset
    pure (to_int nbytes, filled)

  unfoldable pub my_readdir : List ℕ → Prog (ℕ × List FillerCall)
  unfolding to_int
  my_readdir path = do (result, entries) ← altfs_readdir g path; pure (to_int result, entries)

  unfoldable pub my_rmdir : (now : ℕ) → List ℕ → Prog ℕ
  unfolding to_int
  my_rmdir now path = do result ← altfs_unlink g now path; pure (to_int result)

  unfoldable pub my_mkdir : (now : ℕ) → List ℕ → (mode : ℕ) → Prog ℕ
  unfolding status_to_int
  my_mkdir now path mode = do status ← altfs_mkdir g now path mode; pure (status_to_int status)

  unfoldable pub my_mknod : (now : ℕ) → List ℕ → (mode : ℕ) → Prog ℕ
  unfolding status_to_int
  my_mknod now path mode = do status ← altfs_mknod g now path mode; pure (status_to_int status)

  unfoldable pub my_truncate : (now : ℕ) → List ℕ → (offset : ℕ) → Prog ℕ
  unfolding to_int
  my_truncate now path offset = do result ← altfs_truncate g now path offset; pure (to_int result)

  unfoldable pub my_unlink : (now : ℕ) → List ℕ → Prog ℕ
  unfolding to_int
  my_unlink now path = do result ← altfs_unlink g now path; pure (to_int result)

  unfoldable pub my_write : (now : ℕ) → List ℕ → Buffer → (size offset : ℕ) → Prog ℕ
  unfolding to_int
  my_write now path buff size offset = do
    nbytes ← altfs_write g now path buff size offset
    pure (to_int nbytes)

  unfoldable pub my_rename : (now : ℕ) → (from to : List ℕ) → Prog ℕ
  unfolding to_int
  my_rename now from to = do result ← altfs_rename g now from to; pure (to_int result)

  unfoldable pub my_destroy : Prog Bool
  my_destroy = altfs_destroy g

-- struct fuse_operations, as far as my_ops fills it. `now` is the time of the call.
pub record FuseOperations : Type 0 where
  pub access : List ℕ → (mode : ℕ) → Prog ℕ
  pub chown : List ℕ → (uid gid : ℕ) → ℕ
  pub chmod : List ℕ → (mode : ℕ) → Prog ℕ
  pub create : (now : ℕ) → List ℕ → (mode flags : ℕ) → Prog ℕ
  pub getattr : List ℕ → Prog (ℕ × Stat)
  pub mkdir : (now : ℕ) → List ℕ → (mode : ℕ) → Prog ℕ
  pub rmdir : (now : ℕ) → List ℕ → Prog ℕ
  pub unlink : (now : ℕ) → List ℕ → Prog ℕ
  pub truncate : (now : ℕ) → List ℕ → (offset : ℕ) → Prog ℕ
  pub mknod : (now : ℕ) → List ℕ → (mode : ℕ) → Prog ℕ
  pub readdir : List ℕ → Prog (ℕ × List FillerCall)
  pub open_file : (now : ℕ) → List ℕ → (flags : ℕ) → Prog ℕ
  pub read : (now : ℕ) → List ℕ → Buffer → (size offset : ℕ) → Prog (ℕ × Buffer)
  pub write : (now : ℕ) → List ℕ → Buffer → (size offset : ℕ) → Prog ℕ
  pub utimens : List ℕ → ℕ
  pub rename : (now : ℕ) → (from to : List ℕ) → Prog ℕ
  pub destroy : Prog Bool

unfoldable pub my_ops : Geometry → FuseOperations
my_ops g = record {
  access = my_access g;
  chown = my_chown;
  chmod = my_chmod g;
  create = my_create g;
  getattr = my_getattr g;
  mkdir = my_mkdir g;
  rmdir = my_rmdir g;
  unlink = my_unlink g;
  truncate = my_truncate g;
  mknod = my_mknod g;
  readdir = my_readdir g;
  open_file = my_open g;
  read = my_read g;
  write = my_write g;
  utimens = my_utimens;
  rename = my_rename g;
  destroy = my_destroy g;
}

-- main, with fuse_main of the FUSE library as a parameter.
unfoldable pub main : Geometry → (now : ℕ) → (fuse_main : FuseOperations → Prog ℕ) → Prog ℕ
unfolding my_ops
main g now fuse_main = do
  initialised ← altfs_init g now
  if initialised then fuse_main (my_ops g) else pure 0
