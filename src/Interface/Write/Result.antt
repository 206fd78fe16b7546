-- ===== src/Interface/Write/Result.antt =====
-- src/interface_layer.c: what altfs_write returns.
use alt_file_system.Prelude.{
  ℕ, zero, suc, ◌+◌, ◌-◌, ◌/◌, ◌%◌, ◌^◌, ◌≤◌, ◌<◌, ◌≡◌, ap, subst, ◌∙◌, ◌⊎◌, inl, inr, true, false,
  Option, some, List, arith, leb, ◌==◌, Option-cases, Bool-cases,
}
use alt_file_system.Bytes.{block_size, word_mod}
use alt_file_system.Disk.{Geometry, Fs, minus_one, is_negative}
use alt_file_system.DataBlock.{allocate_data_block, write_data_block}
use alt_file_system.Inode.{Inode}
use alt_file_system.InodeOps.{get_inode, write_inode}
use alt_file_system.BlockMap.{is_not_positive}
use alt_file_system.BlockMap.Add.{add_datablock_to_inode}
use alt_file_system.PathLookup.{name_i}
use alt_file_system.World.{World, programs}
use alt_file_system.Interface.{negated, enoent}
use alt_file_system.Interface.Read.{Buffer}
use alt_file_system.Interface.Write.{
  Progress, returned, written_so_far, new_bytes, new_block, write_allocated, write_added,
  written_inode, extend_file, write_file, altfs_write,
}
use alt_file_system.Interface.Write.Bounds.{
  bytes_before, last_block, new_bytes-bytes_before, Within, write_allocated-Within,
}

module _ (g : Geometry) (buff : Buffer) (offset nbytes : ℕ) (pos : 0 < nbytes)
    (no_wrap : offset + nbytes < 2 ^ 63) (blocks : ℕ) where
  abbrev added : (n j b : ℕ) → Inode → Fs → Option ((Inode × ℕ) × Fs)
  added =
      write_added g buff (offset / block_size + 1 - blocks) (last_block offset nbytes + 1 - blocks)
        (offset % block_size) ((offset + nbytes - 1) % block_size) nbytes

  abbrev extra : ℕ → ℕ
  extra j =
      new_bytes j (offset / block_size + 1 - blocks) (last_block offset nbytes + 1 - blocks)
        (offset % block_size) ((offset + nbytes - 1) % block_size) nbytes

  -- The second loop never takes more bytes than there are.
  write_added-le :
      (n j b total : ℕ) (node node' : Inode) (s t : Fs)
      → 1 ≤ j
      → blocks + j + n ≡ last_block offset nbytes + 2
      → b ≡ bytes_before offset nbytes (blocks + j - 1)
      → added n j b node s ≡ some ((node', total), t)
      → total ≤ nbytes
  unfolding write_added
  write_added-le zero j b total node node' s t one e sum ran =
      let same : b ≡ total = ground (arith, ran) in ground arith
  write_added-le (suc n) j b total node node' s t one e sum ran =
      let stop : b ≡ total → total ≤ nbytes = λ same. ground arith in
      let next : b + extra j ≡ bytes_before offset nbytes (blocks + (j + 1) - 1) =
        ap (λ m. m + extra j) sum
        ∙ new_bytes-bytes_before offset nbytes pos no_wrap blocks j one (omega arith)
        ∙ ap (bytes_before offset nbytes) (omega arith) in
      let rest : (node1 : Inode) (s1 : Fs)
          → added n (j + 1) (b + extra j) node1 s1 ≡ some ((node', total), t)
          → total ≤ nbytes =
        λ node1 s1 went.
          write_added-le n (j + 1) (b + extra j) total node1 node' s1 t (omega arith) (omega arith)
            next went in
      let new = allocate_data_block g s in
      elim (Bool-cases (is_not_positive new.0)) [
        | inl full ↦ stop (ground (arith, simp (write_added, full) at ran))
        | inr allocated ↦ elim (Option-cases (add_datablock_to_inode g node new.0 new.1)) [
          | inl broken ↦ absurd (ground (arith, simp (write_added, allocated, broken) at ran))
          | inr ((false, node1, s1), refused) ↦
              stop (ground (arith, simp (write_added, allocated, refused) at ran))
          | inr ((true, node1, s1), grown) ↦
              elim (Bool-cases (leb (offset / block_size + 1 - blocks) j)) [
                | inr gap ↦ rest node1 s1 (simp (write_added, allocated, grown, gap) at ran)
                | inl filled ↦
                    let stored =
                      write_data_block g new.0
                        (new_block buff j (offset / block_size + 1 - blocks)
                          (last_block offset nbytes + 1 - blocks) (offset % block_size)
                          ((offset + nbytes - 1) % block_size) nbytes b)
                        s1 in
                    elim (Bool-cases stored.0) [
                      | inl written ↦
                          rest node1 stored.1
                            (simp (write_added, allocated, grown, filled, written) at ran)
                      | inr failed ↦
                          let same : b + extra j ≡ total =
                            ground (
                              arith,
                              simp (write_added, allocated, grown, filled, failed) at ran,
                            ) in
                          ground arith
                    ]
              ]
        ]
      ]

  -- The same where the file has all blocks of the range.
  write_added_none :
      (b total : ℕ) (node node' : Inode) (s t : Fs)
      → last_block offset nbytes + 1 ≤ blocks
      → b ≡ bytes_before offset nbytes blocks
      → added (last_block offset nbytes + 1 - blocks) 1 b node s ≡ some ((node', total), t)
      → total ≤ nbytes
  unfolding write_added
  write_added_none b total node node' s t all sum ran =
      let none_left : last_block offset nbytes + 1 - blocks ≡ 0 = omega arith in
      let same : b ≡ total = ground (arith, rw none_left at ran) in ground arith

module _ (g : Geometry) (now inum : ℕ) (node : Inode) (buff : Buffer) (nbytes offset : ℕ)
    (pos : 0 < nbytes) (no_wrap : offset + nbytes < 2 ^ 63) where
  -- A count of at most nbytes, or a negative result.
  abbrev pub Bounded : ℕ → Type 0
  Bounded r = (r ≤ nbytes) ⊎ (is_negative r ≡ true)

  last_eq : (offset + nbytes + minus_one) % word_mod ≡ offset + nbytes - 1
  last_eq = omega arith

  extend_file-Bounded :
      (b r : ℕ) (w w' : World)
      → b ≡ bytes_before offset nbytes node.i_blocks_num
      → extend_file g now inum node buff nbytes offset b w ≡ some (r, w')
      → Bounded r
  unfolding extend_file
  extend_file-Bounded b r w w' sum ran =
      elim (Option-cases (
        added g buff offset nbytes pos no_wrap node.i_blocks_num
          (last_block offset nbytes + 1 - node.i_blocks_num) 1 b node w.fs)) [
            | inl broken ↦
                absurd (ground (arith, simp (programs, extend_file, last_eq, broken) at ran))
            | inr (((node1, total), s1), grown) ↦
                let at_most : total ≤ nbytes =
                  elim (Bool-cases (leb (last_block offset nbytes + 1) node.i_blocks_num)) [
                    | inl all ↦
                        write_added_none g buff offset nbytes pos no_wrap node.i_blocks_num b total
                          node node1 w.fs s1 (ground arith) sum grown
                    | inr fewer ↦
                        write_added-le g buff offset nbytes pos no_wrap node.i_blocks_num _ 1 b
                          total node node1 w.fs s1 (omega arith) (ground arith) (ground arith) grown
                  ] in
                let outcome = write_inode g inum (written_inode now offset total node1) s1 in
                elim (Bool-cases outcome.0) [
                  | inl wrote ↦
                      let ends : some (total, record { fs = outcome.1; cache = w.cache })
                          ≡ some (r, w') =
                        simp (programs, extend_file, last_eq, grown, wrote) at ran in
                      let same : total ≡ r = ground (arith, ends) in inl (omega arith)
                  | inr failed ↦
                      let ends : some (minus_one, record { fs = outcome.1; cache = w.cache })
                          ≡ some (r, w') =
                        simp (programs, extend_file, last_eq, grown, failed) at ran in
                      let same : minus_one ≡ r = ground (arith, ends) in inr (ground arith)
                ]
          ]

  -- The first loop of altfs_write.
  abbrev first_loop : Fs → Option (Progress × Fs)
  first_loop =
      write_allocated g node buff (offset / block_size) (last_block offset nbytes)
        (offset % block_size) ((offset + nbytes - 1) % block_size) nbytes
        (node.i_blocks_num - offset / block_size) (offset / block_size) 0 0

  first_loop-Within :
      (p : Progress) (s t : Fs)
      → first_loop s ≡ some (p, t)
      → Within offset nbytes pos no_wrap node.i_blocks_num p
  unfolding write_allocated
  first_loop-Within p s t ran = elim (Bool-cases (leb (offset / block_size) node.i_blocks_num)) [
    | inl inside ↦
        write_allocated-Within offset nbytes pos no_wrap g node buff _ (offset / block_size) 0 0 s t
          p (ground arith) (omega arith) (omega arith) (ground arith) ran
    | inr behind ↦
        let no_rounds : node.i_blocks_num - offset / block_size ≡ 0 = ground arith in
        let nothing : written_so_far 0 ≡ p = ground (arith, rw no_rounds at ran) in
        subst (Within offset nbytes pos no_wrap node.i_blocks_num) nothing (ground arith)
  ]

  after_first_loop :
      (p : Progress) (s1 : Fs) (r : ℕ) (w w' : World)
      → first_loop w.fs ≡ some (p, s1)
      → Within offset nbytes pos no_wrap node.i_blocks_num p
      → write_file g now inum node buff nbytes offset w ≡ some (r, w')
      → Bounded r
  unfolding write_file
  after_first_loop (returned result) s1 r w w' looped within ran =
      let ends : some (result, record { fs = s1; cache = w.cache }) ≡ some (r, w') =
        simp (programs, write_file, last_eq, looped) at ran in
      let same : result ≡ r = ground (arith, ends) in subst Bounded same within
  after_first_loop (written_so_far b) s1 r w w' looped within ran =
      let goes_on : extend_file g now inum node buff nbytes offset b
            (record { fs = s1; cache = w.cache })
          ≡ some (r, w') =
        simp (programs, write_file, last_eq, looped) at ran in
      extend_file-Bounded b r (record { fs = s1; cache = w.cache }) w' within goes_on

  write_file-Bounded :
      (r : ℕ) (w w' : World)
      → write_file g now inum node buff nbytes offset w ≡ some (r, w')
      → Bounded r
  unfolding write_file
  write_file-Bounded r w w' ran = elim (Option-cases (first_loop w.fs)) [
    | inl broken ↦ absurd (ground (arith, simp (programs, write_file, last_eq, broken) at ran))
    | inr ((p, s1), looped) ↦
        after_first_loop p s1 r w w' looped (first_loop-Within p w.fs s1 looped) ran
  ]

-- altfs_write on any world, for a range that ends below 2^63: if it ends without a fault, it returns at
-- most the number of bytes asked for, or a negative result.
pub altfs_write-Bounded :
    (g : Geometry) (now : ℕ) (path : List ℕ) (buff : Buffer) (nbytes offset r : ℕ) (w w' : World)
    → offset + nbytes < 2 ^ 63
    → altfs_write g now path buff nbytes offset w ≡ some (r, w')
    → (r ≤ nbytes) ⊎ (is_negative r ≡ true)
unfolding altfs_write
altfs_write-Bounded g now path buff nbytes offset r w w' no_wrap ran =
    elim (Bool-cases (nbytes == 0)) [
      | inl empty ↦
          let same : 0 ≡ r = ground (arith, simp (programs, altfs_write, empty) at ran) in
          inl (omega arith)
      | inr asked ↦
          let signed : is_negative offset ≡ false = ground arith in
          elim (Option-cases (name_i g path w)) [
            | inl broken ↦
                absurd (ground (arith, simp (programs, altfs_write, asked, signed, broken) at ran))
            | inr ((inum, w1), looked) ↦ elim (Bool-cases (inum == minus_one)) [
              | inl missing ↦
                  let ends : some (negated enoent, w1) ≡ some (r, w') =
                    simp (programs, altfs_write, asked, signed, looked, missing) at ran in
                  let same : negated enoent ≡ r = ground (arith, ends) in inr (ground arith)
              | inr found ↦ elim (Option-cases (get_inode g inum w1.fs)) [
                | inl broken ↦ absurd (
                    ground (
                      arith,
                      simp (programs, altfs_write, asked, signed, looked, found, broken) at ran,
                    ))
                | inr (node, got) ↦
                    let goes_on : write_file g now inum node buff nbytes offset w1 ≡ some (r, w') =
                      simp (programs, altfs_write, asked, signed, looked, found, got) at ran in
                    write_file-Bounded g now inum node buff nbytes offset (ground arith) no_wrap r
                      w1 w' goes_on
              ]
            ]
          ]
    ]
