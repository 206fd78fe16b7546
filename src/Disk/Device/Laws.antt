-- ===== src/Disk/Device/Laws.antt =====
-- What the disk layer relies on of the system calls, and what its functions do with them.
use alt_file_system.Prelude.{
  ℕ, ◌+◌, ◌-◌, ◌*◌, ◌≤◌, ◌<◌, ◌≡◌, ◌≢◌, ◌⊎◌, Bool, true, false, ◌&&◌, arith, ltb, leb, ◌==◌,
  if◌then◌else◌,
}
use alt_file_system.Bytes.{Block, block_size}
use alt_file_system.Disk.{Geometry, minus_one, is_block_out_of_range}
use alt_file_system.Disk.Laws.{IsSound}
use alt_file_system.Disk.Device.{System, Process, set_system, offset_of, read_block, write_block}

-- The number of bytes that a result of read or write stands for.
abbrev pub moved : ℕ → ℕ
moved result = if result == minus_one then 0 else result

-- The documented effect of the calls on the bytes of the device and on the position of a descriptor.
-- Each may fail, and read and write may move fewer bytes than asked.
pub record IsLawful (S : System) : Type 0 where
  pub byte_at : S.State → ℕ → ℕ
  pub position : S.State → ℕ → ℕ
  pub is_open : S.State → ℕ → Bool
  pub open_result :
      (s : S.State)
      → ((S.open_device s).0 ≡ minus_one) ⊎ (is_open (S.open_device s).1 (S.open_device s).0 ≡ true)
  pub byte_at-open : (s : S.State) (i : ℕ) → byte_at (S.open_device s).1 i ≡ byte_at s i
  pub lseek_result :
      (fd offset : ℕ) (s : S.State)
      → is_open s fd ≡ true
      → ((S.lseek fd offset s).0 ≡ minus_one) ⊎ (position (S.lseek fd offset s).1 fd ≡ offset)
  pub byte_at-lseek :
      (fd offset : ℕ) (s : S.State) (i : ℕ) → byte_at (S.lseek fd offset s).1 i ≡ byte_at s i
  pub is_open-lseek :
      (fd offset : ℕ) (s : S.State)
      → is_open s fd ≡ true
      → is_open (S.lseek fd offset s).1 fd ≡ true
  pub byte_at-read :
      (fd : ℕ) (b : Block) (count : ℕ) (s : S.State) (i : ℕ)
      → byte_at (S.read fd b count s).1 i ≡ byte_at s i
  pub is_open-read :
      (fd : ℕ) (b : Block) (count : ℕ) (s : S.State)
      → is_open s fd ≡ true
      → is_open (S.read fd b count s).1 fd ≡ true
  pub buffer-read :
      (fd : ℕ) (b : Block) (count : ℕ) (s : S.State) (j : ℕ)
      → is_open s fd ≡ true
      → (S.read fd b count s).0.1 j
        ≡ (if ltb j (moved (S.read fd b count s).0.0) then byte_at s (position s fd + j) else b j)
  pub write_result :
      (fd : ℕ) (b : Block) (count : ℕ) (s : S.State) → moved (S.write fd b count s).0 ≤ count
  pub byte_at-write :
      (fd : ℕ) (b : Block) (count : ℕ) (s : S.State) (i : ℕ)
      → is_open s fd ≡ true
      → byte_at (S.write fd b count s).1 i ≡ (
          if leb (position s fd) i && ltb i (position s fd + moved (S.write fd b count s).0)
          then b (i - position s fd)
          else byte_at s i)
  pub position-write :
      (fd : ℕ) (b : Block) (count : ℕ) (s : S.State)
      → is_open s fd ≡ true
      → position (S.write fd b count s).1 fd ≡ position s fd + moved (S.write fd b count s).0
  pub is_open-write :
      (fd : ℕ) (b : Block) (count : ℕ) (s : S.State)
      → is_open s fd ≡ true
      → is_open (S.write fd b count s).1 fd ≡ true

-- A device of `size` bytes on which no call fails for an open descriptor, and whole blocks inside the
-- device are moved at once.
pub record IsReliable {S : System} (L : IsLawful S) (size : ℕ) : Type 0 where
  pub opens : (s : S.State) → (S.open_device s).0 ≢ minus_one
  pub seeks :
      (fd offset : ℕ) (s : S.State)
      → L.is_open s fd ≡ true
      → offset < size
      → (S.lseek fd offset s).0 ≢ minus_one
  pub reads :
      (fd : ℕ) (b : Block) (count : ℕ) (s : S.State)
      → L.is_open s fd ≡ true
      → L.position s fd + count ≤ size
      → (S.read fd b count s).0.0 ≡ count
  pub writes :
      (fd : ℕ) (b : Block) (count : ℕ) (s : S.State)
      → L.is_open s fd ≡ true
      → L.position s fd + count ≤ size
      → (S.write fd b count s).0 ≡ count
  pub closes : (fd : ℕ) (s : S.State) → L.is_open s fd ≡ true → (S.close fd s).0 ≡ 0
  pub byte_at-close : (fd : ℕ) (s : S.State) (i : ℕ) → L.byte_at (S.close fd s).1 i ≡ L.byte_at s i

offset_in_range :
    {g : Geometry} (w : IsSound g) (i : ℕ)
    → is_block_out_of_range g i ≡ false
    → (i < g.block_count) × (offset_of i ≡ block_size * i)
unfolding is_block_out_of_range offset_of
offset_in_range w i h = ground (arith, w.small)

module _ {S : System} (g : Geometry) where
  pub superblock-read_block :
      (i : ℕ) (b : Block) (p : Process S) → (read_block g i b p).1.superblock ≡ p.superblock
  unfolding read_block set_system
  superblock-read_block i b p = ground arith

  pub superblock-write_block :
      (i : ℕ) (b : Block) (p : Process S) → (write_block g i b p).1.superblock ≡ p.superblock
  unfolding write_block set_system
  superblock-write_block i b p = ground arith

module _ {S : System} (L : IsLawful S) where
  pub byte_at-read_block :
      (g : Geometry) (i : ℕ) (b : Block) (p : Process S) (k : ℕ)
      → L.byte_at (read_block g i b p).1.system k ≡ L.byte_at p.system k
  unfolding read_block set_system
  byte_at-read_block g i b p k = ground (
    arith,
    L.byte_at-lseek p.mem_ptr (offset_of i) p.system k,
    L.byte_at-read p.mem_ptr b block_size (S.lseek p.mem_ptr (offset_of i) p.system).1 k,
  )

  -- The byte at k belongs to block i.
  abbrev pub inside : ℕ → ℕ → Bool
  inside i k = leb (block_size * i) k && ltb k (block_size * i + block_size)

  abbrev pub IsReady : Process S → Type 0
  IsReady p = L.is_open p.system p.mem_ptr ≡ true

  module _ {g : Geometry} (w : IsSound g) where
    pub read_block-IsReady :
        (i : ℕ) (b : Block) (p : Process S) → IsReady p → IsReady (read_block g i b p).1
    unfolding read_block set_system
    read_block-IsReady i b p o =
        let s1 : S.State = (S.lseek p.mem_ptr (offset_of i) p.system).1 in
        let o1 = L.is_open-lseek p.mem_ptr (offset_of i) p.system o in
        ground (arith, o1, L.is_open-read p.mem_ptr b block_size s1 o1)

    pub write_block-IsReady :
        (i : ℕ) (b : Block) (p : Process S) → IsReady p → IsReady (write_block g i b p).1
    unfolding write_block set_system
    write_block-IsReady i b p o =
        let s1 : S.State = (S.lseek p.mem_ptr (offset_of i) p.system).1 in
        let o1 = L.is_open-lseek p.mem_ptr (offset_of i) p.system o in
        ground (arith, o1, L.is_open-write p.mem_ptr b block_size s1 o1)

    -- altfs_read_block on a device whose calls may fail: when it returns true, the buffer holds the
    -- bytes of that block.
    pub buffer-read_block :
        (i : ℕ) (b : Block) (p : Process S) (j : ℕ)
        → IsReady p
        → (read_block g i b p).0.0 ≡ true
        → j < block_size
        → (read_block g i b p).0.1 j ≡ L.byte_at p.system (block_size * i + j)
    unfolding read_block set_system
    buffer-read_block i b p j o ok h =
        let s1 : S.State = (S.lseek p.mem_ptr (offset_of i) p.system).1 in
        let o1 = L.is_open-lseek p.mem_ptr (offset_of i) p.system o in
        ground (
          arith,
          L.lseek_result p.mem_ptr (offset_of i) p.system o,
          L.byte_at-lseek p.mem_ptr (offset_of i) p.system (block_size * i + j),
          L.buffer-read p.mem_ptr b block_size s1 j o1,
          offset_in_range w i,
        )

    -- altfs_write_block on a device whose calls may fail, or move a part of the block only: the
    -- bytes of other blocks keep their values whatever it returns, and when it returns true the bytes
    -- of its block are those of the buffer.
    pub byte_at-write_block :
        (i : ℕ) (b : Block) (p : Process S) (k : ℕ)
        → IsReady p
        → ((write_block g i b p).0 ≡ true) ⊎ (inside i k ≡ false)
        → L.byte_at (write_block g i b p).1.system k
          ≡ (if inside i k then b (k - block_size * i) else L.byte_at p.system k)
    unfolding write_block set_system
    byte_at-write_block i b p k o e =
        let s1 : S.State = (S.lseek p.mem_ptr (offset_of i) p.system).1 in
        let o1 = L.is_open-lseek p.mem_ptr (offset_of i) p.system o in
        ground (
          arith,
          e,
          L.lseek_result p.mem_ptr (offset_of i) p.system o,
          L.byte_at-lseek p.mem_ptr (offset_of i) p.system k,
          L.write_result p.mem_ptr b block_size s1,
          L.byte_at-write p.mem_ptr b block_size s1 k o1,
          offset_in_range w i,
        )

    module _ {size : ℕ} (R : IsReliable L size) (fits : block_size * g.block_count ≤ size) where
      pub read_block_total :
          (i : ℕ) (b : Block) (p : Process S)
          → IsReady p
          → (read_block g i b p).0.0 ≡ ltb i g.block_count
      unfolding read_block set_system is_block_out_of_range offset_of
      read_block_total i b p o =
          let s1 : S.State = (S.lseek p.mem_ptr (offset_of i) p.system).1 in
          let o1 = L.is_open-lseek p.mem_ptr (offset_of i) p.system o in
          ground (
            arith,
            w.small,
            fits,
            L.lseek_result p.mem_ptr (offset_of i) p.system o,
            R.seeks p.mem_ptr (offset_of i) p.system o,
            R.reads p.mem_ptr b block_size s1 o1,
          )

      pub write_block_total :
          (i : ℕ) (b : Block) (p : Process S)
          → IsReady p
          → (write_block g i b p).0 ≡ ltb i g.block_count
      unfolding write_block set_system is_block_out_of_range offset_of
      write_block_total i b p o =
          let s1 : S.State = (S.lseek p.mem_ptr (offset_of i) p.system).1 in
          let o1 = L.is_open-lseek p.mem_ptr (offset_of i) p.system o in
          ground (
            arith,
            w.small,
            fits,
            L.lseek_result p.mem_ptr (offset_of i) p.system o,
            R.seeks p.mem_ptr (offset_of i) p.system o,
            R.writes p.mem_ptr b block_size s1 o1,
          )
