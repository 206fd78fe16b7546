-- ===== src/PathLookup/Reference.antt =====
-- src/directory_ops.c, name_i without the cache: what a path means in the directories alone.
use alt_file_system.Prelude.{
  ℕ, zero, suc, ◌<◌, ◌≡◌, refl, inl, inr, Option, none, some, List, arith, ◌==◌, if◌then◌else◌,
  length, Bool-cases, Option-cases,
}
use alt_file_system.Disk.{Geometry, Fs, minus_one}
use alt_file_system.PathName.{copy_parent_path}
use alt_file_system.PathName.Parent.{length-copy_parent_path}
use alt_file_system.PathLookup.{root_inode_num, is_root, find_child}

module _ (g : Geometry) where
  -- The number in the record of a path's last name, in the directory of its parent; -1 where there is none.
  unfoldable pub child_of : Option ℕ → List ℕ → Fs → Option ℕ
  child_of none path s = none
  child_of (some parent_inum) path s =
      if parent_inum == minus_one then some minus_one else elim (find_child g parent_inum path s) [
        | none ↦ none
        | some none ↦ some minus_one
        | some (some inum) ↦ some inum
      ]

  unfoldable pub lookup_within : (fuel : ℕ) → List ℕ → Fs → Option ℕ
  unfolding child_of
  lookup_within zero path s = none
  lookup_within (suc fuel) path s =
      let rest : List ℕ → Option ℕ = λ parent_path. lookup_within fuel parent_path s in
      if is_root path then some root_inode_num else elim (copy_parent_path path (length path)) [
        | none ↦ some minus_one
        | some parent_path ↦ child_of (rest parent_path) path s
      ]

  -- The inode number of a path, -1 where it names nothing; `none` where a directory on the way has a
  -- block that cannot be read.
  unfoldable pub lookup_path : List ℕ → Fs → Option ℕ
  unfolding lookup_within
  lookup_path path s = lookup_within (suc (length path)) path s

  -- Fuel above the length of the path is enough.
  lookup_within_eq :
      (f h : ℕ) (path : List ℕ) (s : Fs)
      → length path < f
      → length path < h
      → lookup_within f path s ≡ lookup_within h path s
  unfolding lookup_within
  lookup_within_eq zero h path s p q = absurd (omega arith)
  lookup_within_eq (suc f) zero path s p q = absurd (omega arith)
  lookup_within_eq (suc f) (suc h) path s p q = elim (Bool-cases (is_root path)) [
    | inl root ↦ rw root refl
    | inr below ↦ elim (Option-cases (copy_parent_path path (length path))) [
      | inl orphan ↦ rw (below, orphan) refl
      | inr (parent, e) ↦
          let shorter : length parent < length path = (length-copy_parent_path path parent e).0 in
          rw (below, e, lookup_within_eq f h parent s (omega arith) (omega arith)) refl
    ]
  ]

  pub lookup_within-path :
      (fuel : ℕ) (path : List ℕ) (s : Fs)
      → length path < fuel
      → lookup_within fuel path s ≡ lookup_path path s
  unfolding lookup_path
  lookup_within-path fuel path s p =
      lookup_within_eq fuel (suc (length path)) path s p (omega arith)
