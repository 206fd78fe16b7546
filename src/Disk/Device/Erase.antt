-- ===== src/Disk/Device/Erase.antt =====
-- altfs_open_volume and altfs_alloc_memory of src/disk_layer.c on a reliable device.
use alt_file_system.Prelude.{
  ℕ, zero, suc, ◌+◌, ◌*◌, ◌≤◌, ◌<◌, ◌≡◌, refl, ◌∙◌, Bool, true, false, ◌&&◌, arith, ltb, leb, ◌==◌,
  if◌then◌else◌,
}
use alt_file_system.Bytes.{block_size, zero_block}
use alt_file_system.Disk.{Geometry, minus_one}
use alt_file_system.Disk.Laws.{IsSound}
use alt_file_system.Disk.Device.{
  System, Process, set_mem_ptr, set_system, open_volume, erase_from, erase_device, alloc_memory,
}
use alt_file_system.Disk.Device.Laws.{IsLawful, IsReliable, IsReady}

module _ {S : System} (L : IsLawful S) {size : ℕ} (R : IsReliable L size) where
  pub open_volume-IsReady :
      (p : Process S)
      → ((open_volume p).0 ≡ true)
        × IsReady L (open_volume p).1
        × ((open_volume p).1.superblock ≡ p.superblock)
        × ((i : ℕ) → L.byte_at (open_volume p).1.system i ≡ L.byte_at p.system i)
  unfolding open_volume set_mem_ptr
  open_volume-IsReady p = (
    ground (arith, R.opens p.system),
    ground (arith, R.opens p.system, L.open_result p.system),
    ground arith,
    λ i. ground (arith, L.byte_at-open p.system i),
  )

  erase_from-zero :
      (n k : ℕ) (p : Process S)
      → IsReady L p
      → L.position p.system p.mem_ptr ≡ k
      → k + block_size * n ≤ size
      → ((erase_from n p).0 ≡ true)
        × IsReady L (erase_from n p).1
        × ((erase_from n p).1.superblock ≡ p.superblock)
        × ((i : ℕ)
            → L.byte_at (erase_from n p).1.system i
              ≡ (if leb k i && ltb i (k + block_size * n) then 0 else L.byte_at p.system i))
  unfolding erase_from set_system zero_block
  erase_from-zero zero k p o e fits = (refl, o, refl, λ i. ground arith)
  erase_from-zero (suc n) k p o e fits =
      let s : S.State = (S.write p.mem_ptr zero_block block_size p.system).1 in
      let full = R.writes p.mem_ptr zero_block block_size p.system o (omega arith) in
      let o1 = L.is_open-write p.mem_ptr zero_block block_size p.system o in
      let moved = L.position-write p.mem_ptr zero_block block_size p.system o in
      let rest =
        erase_from-zero n (k + block_size) (set_system p s) o1 (ground arith) (omega arith) in
      rw full (
        rest.0,
        rest.1,
        rest.2,
        λ i.
            ground
              (arith, full, rest.3 i, L.byte_at-write p.mem_ptr zero_block block_size p.system i o),
      )

  module _ {g : Geometry} (w : IsSound g) (fits : block_size * g.block_count ≤ size) where
    erase_device-zero :
        (p : Process S)
        → IsReady L p
        → ((erase_device g p).0 ≡ true)
          × IsReady L (erase_device g p).1
          × ((erase_device g p).1.superblock ≡ p.superblock)
          × ((i : ℕ)
              → L.byte_at (erase_device g p).1.system i
                ≡ (if ltb i (block_size * g.block_count) then 0 else L.byte_at p.system i))
    unfolding erase_device set_system
    erase_device-zero p o =
        let s : S.State = (S.lseek p.mem_ptr 0 p.system).1 in
        let below : 0 < size = omega (arith, w.data_blocks, fits) in
        let found : ((S.lseek p.mem_ptr 0 p.system).0 == minus_one) ≡ false =
          ground (arith, R.seeks p.mem_ptr 0 p.system o below) in
        let at : L.position s p.mem_ptr ≡ 0 =
          ground (arith, L.lseek_result p.mem_ptr 0 p.system o, found) in
        let rest =
          erase_from-zero g.block_count 0 (set_system p s) (L.is_open-lseek p.mem_ptr 0 p.system o)
            at (omega (arith, fits)) in
        rw found (
          rest.0,
          rest.1,
          rest.2,
          λ i. ground (arith, rest.3 i, L.byte_at-lseek p.mem_ptr 0 p.system i),
        )

    -- altfs_alloc_memory on a reliable device that is large enough, whatever mem_ptr was: it returns
    -- true with an open descriptor, and the blocks are zero if they are to be erased and what they
    -- were if not; what lies behind them on the device is kept.
    pub alloc_memory-erased :
        (erase : Bool) (p : Process S)
        → ((alloc_memory g erase p).0 ≡ true)
          × IsReady L (alloc_memory g erase p).1
          × ((alloc_memory g erase p).1.superblock ≡ p.superblock)
          × ((i : ℕ)
              → L.byte_at (alloc_memory g erase p).1.system i
                ≡ (if erase && ltb i (block_size * g.block_count) then 0 else L.byte_at p.system i))
    unfolding alloc_memory
    alloc_memory-erased false p =
        let opened = open_volume-IsReady p in rw opened.0 (refl, opened.1, opened.2, opened.3)
    alloc_memory-erased true p =
        let opened = open_volume-IsReady p in
        let rest = erase_device-zero (open_volume p).1 opened.1 in
        rw opened.0 (rest.0, rest.1, rest.2 ∙ opened.2, λ i. ground (arith, rest.3 i, opened.3 i))
