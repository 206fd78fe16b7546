-- ===== src/PathLookup/Frame.antt =====
-- src/directory_ops.c: what a path means depends on the data blocks and on the inodes' block maps alone,
-- so that a change of another field of an inode keeps it.
use alt_file_system.Prelude.{
  ◌>>=◌, ℕ, zero, suc, ◌+◌, ◌-◌, ◌*◌, ◌/◌, ◌%◌, ◌≡◌, refl, ap, ◌∙◌, inl, inr, Option, none, some,
  List, fun_ext, if◌then◌else◌, Option-cases,
}
use alt_file_system.Disk.{Geometry, Fs}
use alt_file_system.DataBlock.{read_data_block}
use alt_file_system.Inode.{Inode}
use alt_file_system.BlockMap.{
  entry, is_not_positive, lookup_single, lookup_double, lookup_triple,
  get_disk_block_from_inode_block,
}
use alt_file_system.Bytes.{block_size}
use alt_file_system.Directory.{find_record, find_in_blocks, get_file_position_in_dir}

pub bind-cong :
    {A B : Type 0} (o o' : Option A) (f f' : A → Option B)
    → o ≡ o'
    → ((a : A) → f a ≡ f' a)
    → (o >>= f) ≡ (o' >>= f')
bind-cong o o' f f' e h = ap (λ x. x >>= f) e ∙ ap (λ k. o' >>= k) (fun_ext h)

module _ (g : Geometry) (s t : Fs)
    (same : (n : ℕ) → read_data_block g n t ≡ read_data_block g n s) where
  entry-frame : (b i : ℕ) → entry g b i t ≡ entry g b i s
  unfolding entry
  entry-frame b i = rw (same b) refl

  lookup_single-frame :
      (node : Inode) (l prev : ℕ) → lookup_single g node l prev t ≡ lookup_single g node l prev s
  unfolding lookup_single
  lookup_single-frame node l prev = rw (entry-frame node.i_single_indirect l) refl

  lookup_double-frame :
      (node : Inode) (l prev : ℕ) → lookup_double g node l prev t ≡ lookup_double g node l prev s
  unfolding lookup_double
  lookup_double-frame node l prev =
      elim (Option-cases (entry g node.i_double_indirect (l / 512) s)) [
        | inl e ↦
            rw (entry-frame node.i_double_indirect (l / 512), entry-frame prev (l % 512), e) refl
        | inr (b, e) ↦
            rw
              (
                entry-frame node.i_double_indirect (l / 512),
                entry-frame prev (l % 512),
                e,
                entry-frame b (l % 512),
              )
              refl
      ]

  lookup_triple-frame :
      (node : Inode) (l prev : ℕ) → lookup_triple g node l prev t ≡ lookup_triple g node l prev s
  unfolding lookup_triple
  lookup_triple-frame node l prev =
      let first = entry-frame node.i_triple_indirect (l / (512 * 512)) in
      let hinted = entry-frame prev (l % 512) in
      elim (Option-cases (entry g node.i_triple_indirect (l / (512 * 512)) s)) [
        | inl e ↦ rw (first, hinted, e) refl
        | inr (b, e) ↦ elim (Option-cases (entry g b (l / 512 % 512) s)) [
          | inl e' ↦ rw (first, hinted, e, entry-frame b (l / 512 % 512), e') refl
          | inr (c, e') ↦
              rw (first, hinted, e, entry-frame b (l / 512 % 512), e', entry-frame c (l % 512)) refl
        ]
      ]

  get_disk_block-frame :
      (node : Inode) (l prev : ℕ)
      → get_disk_block_from_inode_block g node l prev t
        ≡ get_disk_block_from_inode_block g node l prev s
  unfolding get_disk_block_from_inode_block
  get_disk_block-frame node l prev =
      rw
        (
          lookup_single-frame node (l - 12) prev,
          lookup_double-frame node (l - 12 - 512) prev,
          lookup_triple-frame node (l - 12 - 512 - 512 * 512) prev,
        )
        refl

  find_in_blocks-frame :
      (name : List ℕ) (node : Inode) (n l prev : ℕ)
      → find_in_blocks g name node n l prev t ≡ find_in_blocks g name node n l prev s
  unfolding find_in_blocks
  find_in_blocks-frame name node zero l prev = refl
  find_in_blocks-frame name node (suc n) l prev =
      bind-cong _ _ _ _ (get_disk_block-frame node l prev) (λ p.
        ap (λ x. if is_not_positive p.0 then some none else x)
          (bind-cong _ _ _ _ (same p.0) (λ block.
            ap
              (λ rest. elim (find_record block_size name block 0) [
                | some pos ↦
                    some (some (record { p_block = block; p_plock_num = p.0; offset = pos }))
                | none ↦ rest
              ])
              (find_in_blocks-frame name node n (l + 1) p.1))))

  pub get_file_position-frame :
      (name : List ℕ) (node : Inode)
      → get_file_position_in_dir g name node t ≡ get_file_position_in_dir g name node s
  unfolding get_file_position_in_dir
  get_file_position-frame name node = rw (find_in_blocks-frame name node node.i_blocks_num 0 0) refl
