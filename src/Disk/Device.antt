-- ===== src/Disk/Device.antt =====
-- src/disk_layer.c in the DISK_MEMORY build: the blocks lie on a device, which the calls open, lseek,
-- read, write and close of the operating system work on. The calls are parameters.
pub mod Laws
pub mod Sessions
pub mod Erase
use alt_file_system.Prelude.{ℕ, zero, suc, ◌*◌, ◌%◌, Bool, true, false, not, ◌==◌, if◌then◌else◌}
use alt_file_system.Bytes.{Block, block_size, word_mod, zero_block}
use alt_file_system.Disk.{Geometry, Superblock, minus_one, is_block_out_of_range}

-- The system calls on DEVICE_NAME, over an unknown state. Each returns its result, a 64-bit pattern,
-- and the state afterwards.
pub record System : Type 1 where
  pub State : Type 0
  -- open(DEVICE_NAME, O_RDWR)
  pub open_device : State → ℕ × State
  -- lseek(fd, offset, SEEK_SET)
  pub lseek : (fd offset : ℕ) → State → ℕ × State
  -- read(fd, buffer, count), which gives the buffer afterwards too
  pub read : (fd : ℕ) → Block → (count : ℕ) → State → (ℕ × Block) × State
  -- write(fd, buffer, count)
  pub write : (fd : ℕ) → Block → (count : ℕ) → State → ℕ × State
  pub close : (fd : ℕ) → State → ℕ × State

-- altfs_superblock: NULL, a live allocation, or one that was freed and not set to NULL.
pub data Pointer : Type 0 where
  null : Pointer
  live : Superblock → Pointer
  freed : Pointer

-- The process: `mem_ptr`, `altfs_superblock`, and the system's state.
pub record Process (S : System) : Type 0 where
  pub mem_ptr : ℕ
  pub superblock : Pointer
  pub system : S.State

-- (unsigned long) BLOCK_SIZE * blockid
unfoldable pub offset_of : ℕ → ℕ
offset_of blockid = block_size * blockid % word_mod

module _ {S : System} where
  unfoldable pub set_mem_ptr : Process S → ℕ → S.State → Process S
  set_mem_ptr p fd s = record p { mem_ptr = fd; system = s }

  unfoldable pub set_system : Process S → S.State → Process S
  set_system p s = record p { system = s }

  unfoldable pub set_pointer : Process S → Pointer → Process S
  set_pointer p sb = record p { superblock = sb }

  unfoldable pub open_volume : Process S → Bool × Process S
  open_volume p =
      let (fd, s) = S.open_device p.system in
      if fd == minus_one then (false, set_mem_ptr p fd s) else (true, set_mem_ptr p fd s)

  -- The erasing loop of altfs_alloc_memory with `n` rounds left.
  unfoldable pub erase_from : ℕ → Process S → Bool × Process S
  erase_from zero p = (true, p)
  erase_from (suc n) p =
      let (count, s) = S.write p.mem_ptr zero_block block_size p.system in
      let rest = erase_from n (set_system p s) in
      if not (count == block_size) then (false, set_system p s) else rest

  unfoldable pub dealloc_memory : Process S → Bool × Process S
  dealloc_memory p =
      let (status, s) = S.close p.mem_ptr p.system in
      if not (status == 0) then (false, set_system p s) else (true, set_system p s)

  module _ (g : Geometry) where
    -- The part of altfs_alloc_memory that writes zeros.
    unfoldable pub erase_device : Process S → Bool × Process S
    erase_device p =
        let (position, s) = S.lseek p.mem_ptr 0 p.system in
        if position == minus_one
        then (false, set_system p s)
        else erase_from g.block_count (set_system p s)

    unfoldable pub alloc_memory : (erase : Bool) → Process S → Bool × Process S
    alloc_memory erase p =
        let (opened, p1) = open_volume p in
        if not opened then (false, p1) else if erase then erase_device p1 else (true, p1)

    -- altfs_read_block with a buffer that is not NULL, and the buffer afterwards.
    unfoldable pub read_block : ℕ → Block → Process S → (Bool × Block) × Process S
    unfolding is_block_out_of_range
    read_block blockid buffer p =
        let (position, s1) = S.lseek p.mem_ptr (offset_of blockid) p.system in
        let (result, s2) = S.read p.mem_ptr buffer block_size s1 in
        if is_block_out_of_range g blockid
        then ((false, buffer), p)
        else if position == minus_one
        then ((false, buffer), set_system p s1)
        else if not (result.0 == block_size)
        then ((false, result.1), set_system p s2)
        else ((true, result.1), set_system p s2)

    -- altfs_write_block with a buffer that is not NULL.
    unfoldable pub write_block : ℕ → Block → Process S → Bool × Process S
    unfolding is_block_out_of_range
    write_block blockid buffer p =
        let (position, s1) = S.lseek p.mem_ptr (offset_of blockid) p.system in
        let (count, s2) = S.write p.mem_ptr buffer block_size s1 in
        if is_block_out_of_range g blockid
        then (false, p)
        else if position == minus_one
        then (false, set_system p s1)
        else if not (count == block_size)
        then (false, set_system p s2)
        else (true, set_system p s2)
