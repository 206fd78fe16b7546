-- ===== src/Disk/Device/Sessions.antt =====
-- src/disk_layer.c: the two builds side by side. A session is what a client of the disk layer does:
-- a sequence of block reads and writes with their results.
use alt_file_system.Prelude.{
  ap, ◌∙◌, fun_ext, ℕ, ◌+◌, ◌*◌, ◌≤◌, ◌<◌, ◌≡◌, refl, inl, inr, Bool, true, false, Option, none,
  some, List, [], ◌∷◌, arith, tests, ltb, if◌then◌else◌, Bool-cases,
}
use alt_file_system.Bytes.{Block, block_size}
use alt_file_system.Disk.{
  Geometry, Fs, Disk, read_block as memory_read, write_block as memory_write, set_disk, put_block,
  is_block_out_of_range,
}
use alt_file_system.Disk.Laws.{IsSound, write_block-in}
use alt_file_system.Disk.Device.{System, Process, read_block, write_block}
use alt_file_system.Disk.Device.Laws.{
  IsLawful, IsReliable, IsReady, byte_at-read_block, read_block-IsReady, write_block-IsReady,
  buffer-read_block, byte_at-write_block, read_block_total, write_block_total,
}

-- A call of the disk layer. A read brings the buffer that it fills.
pub data Request : Type 0 where
  read : ℕ → Block → Request
  write : ℕ → Block → Request

-- The result and the first `block_size` bytes of the buffer afterwards.
pub data Answer : Type 0 where
  answer : Bool → (ℕ → ℕ) → Answer

-- The bytes below `block_size` of a buffer, the only ones it has.
abbrev pub bytes : Block → ℕ → ℕ
bytes b j = if ltb j block_size then b j else 0

module _ {S : System} (g : Geometry) where
  pub device_answer : Request → Process S → Answer × Process S
  device_answer (read i b) p =
      let (result, p1) = read_block g i b p in (answer result.0 (bytes result.1), p1)
  device_answer (write i b) p = let (ok, p1) = write_block g i b p in (answer ok (bytes b), p1)

  pub device_session : List Request → Process S → List Answer × Process S
  device_session [] p = ([], p)
  device_session (r ∷ rs) p =
      let (a, p1) = device_answer r p in
      let (answers, p2) = device_session rs p1 in (a ∷ answers, p2)

module _ (g : Geometry) where
  filled : Option Block → Block → Answer
  filled none b = answer false (bytes b)
  filled (some c) b = answer true (bytes c)

  pub memory_answer : Request → Fs → Answer × Fs
  memory_answer (read i b) s = (filled (memory_read g i s) b, s)
  memory_answer (write i b) s = let (ok, s1) = memory_write g i b s in (answer ok (bytes b), s1)

  pub memory_session : List Request → Fs → List Answer × Fs
  memory_session [] s = ([], s)
  memory_session (r ∷ rs) s =
      let (a, s1) = memory_answer r s in
      let (answers, s2) = memory_session rs s1 in (a ∷ answers, s2)

module _ {S : System} (L : IsLawful S) {g : Geometry} (w : IsSound g) where
  -- The device has an open descriptor and the bytes of `d`.
  pub record Holds (p : Process S) (d : Disk) : Type 0 where
    pub ready : IsReady L p
    pub same :
        (i j : ℕ)
        → i < g.block_count
        → j < block_size
        → L.byte_at p.system (block_size * i + j) ≡ d i j

  module _ {size : ℕ} (R : IsReliable L size) (fits : block_size * g.block_count ≤ size) where
    pub read_block-Holds :
        (i : ℕ) (b : Block) (p : Process S) (d : Disk) → Holds p d → Holds (read_block g i b p).1 d
    read_block-Holds i b p d h = record {
      ready = read_block-IsReady L w i b p h.ready;
      same = λ x j lx lj. byte_at-read_block L g i b p (block_size * x + j) ∙ h.same x j lx lj;
    }

    pub write_block-Holds :
        (i : ℕ) (b : Block) (p : Process S) (d : Disk)
        → Holds p d
        → i < g.block_count
        → Holds (write_block g i b p).1 (put_block d i b)
    unfolding put_block
    write_block-Holds i b p d h lt =
        let ok = write_block_total L w R fits i b p h.ready in
        record {
          ready = write_block-IsReady L w i b p h.ready;
          same = λ x j lx lj. ground (
            arith,
            ok,
            h.same x j lx lj,
            byte_at-write_block L w i b p (block_size * x + j) h.ready (inl (ground (arith, ok))),
          );
        }

    answer_read :
        (i : ℕ) (b : Block) (p : Process S) (s : Fs)
        → Holds p s.disk
        → (device_answer g (read i b) p).0 ≡ (memory_answer g (read i b) s).0
    unfolding device_answer memory_answer filled memory_read read_block is_block_out_of_range
    answer_read i b p s h = elim (Bool-cases (ltb i g.block_count)) [
      | inl lt ↦
          let ok : (read_block g i b p).0.0 ≡ true =
            read_block_total L w R fits i b p h.ready ∙ lt in
          let same : bytes (read_block g i b p).0.1 ≡ bytes (s.disk i) =
            fun_ext
              (λ j. ground (arith, lt, h.same i j, buffer-read_block L w i b p j h.ready ok)) in
          ap (λ r. answer r (bytes (read_block g i b p).0.1)) ok
          ∙ ap (answer true) same
          ∙ ground (arith, lt, w.small)
      | inr ge ↦ ground (arith, ge)
    ]

    -- One write, in both builds.
    pub write_block-both :
        (i : ℕ) (b : Block) (p : Process S) (s : Fs)
        → Holds p s.disk
        → ((write_block g i b p).0 ≡ (memory_write g i b s).0)
          × Holds (write_block g i b p).1 (memory_write g i b s).1.disk
    unfolding write_block is_block_out_of_range memory_write set_disk
    write_block-both i b p s h = elim (Bool-cases (ltb i g.block_count)) [
      | inl lt ↦
          let below : i < g.block_count = omega tests in
          rw (write_block-in w i b s below) (
            write_block_total L w R fits i b p h.ready ∙ lt,
            write_block-Holds i b p s.disk h below,
          )
      | inr ge ↦ let out : is_block_out_of_range g i ≡ true = ground (arith, ge) in rw out (refl, h)
    ]

    answer_Holds :
        (r : Request) (p : Process S) (s : Fs)
        → Holds p s.disk
        → ((device_answer g r p).0 ≡ (memory_answer g r s).0)
          × Holds (device_answer g r p).1 (memory_answer g r s).1.disk
    unfolding device_answer memory_answer memory_write
    answer_Holds (read i b) p s h = (answer_read i b p s h, read_block-Holds i b p s.disk h)
    answer_Holds (write i b) p s h =
        let both = write_block-both i b p s h in (ap (λ r. answer r (bytes b)) both.0, both.1)

    -- The device build refines the in-memory build: on a reliable device that holds the blocks of
    -- the memory, every sequence of reads and writes gives the same results and the same bytes in the
    -- buffers, errors included, and the device then holds the blocks of the memory again.
    pub device_session-memory_session :
        (rs : List Request) (p : Process S) (s : Fs)
        → Holds p s.disk
        → ((device_session g rs p).0 ≡ (memory_session g rs s).0)
          × Holds (device_session g rs p).1 (memory_session g rs s).1.disk
    unfolding device_session memory_session
    device_session-memory_session [] p s h = (refl, h)
    device_session-memory_session (r ∷ rs) p s h =
        let first = answer_Holds r p s h in
        let rest = device_session-memory_session rs _ _ first.1 in
        (
          ap (λ a. a ∷ (device_session g rs (device_answer g r p).1).0) first.0
              ∙ ap (λ l. (memory_answer g r s).0 ∷ l) rest.0,
          rest.1,
        )
