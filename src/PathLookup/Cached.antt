-- ===== src/PathLookup/Cached.antt =====
-- src/directory_ops.c: name_i, with the cache, against the lookup without it.
use alt_file_system.Prelude.{
  ℕ, zero, suc, ◌+◌, ◌<◌, ◌≤◌, ◌≡◌, refl, ap, sym, ◌∙◌, inl, inr, true, false, Option, none, some,
  List, arith, ◌==◌, length, Bool-cases, Option-cases,
}
use alt_file_system.Disk.{Geometry, Fs, minus_one}
use alt_file_system.BlockMap.{is_not_positive}
use alt_file_system.PathName.{copy_parent_path}
use alt_file_system.PathName.Parent.{length-copy_parent_path}
use alt_file_system.InodeCache.Insert.{create_inode_cache-IsLinked}
use alt_file_system.InodeCache.{Cache, create_inode_cache}
use alt_file_system.InodeCache.Safe.{IsCache, get_cache_entry-IsCache, set_cache_entry-IsCache}
use alt_file_system.World.{World, programs}
use alt_file_system.PathLookup.{
  root_inode_num, is_root, find_child, name_in_parent, name_i_within, name_i,
}
use alt_file_system.PathLookup.Reference.{child_of, lookup_within, lookup_path, lookup_within-path}

module _ (g : Geometry) where
  -- A cached value is what the path means.
  abbrev pub Agrees : Fs → List ℕ → ℕ → Type 0
  Agrees s path inum = lookup_path g path s ≡ some inum

  -- The cache holds what the directories say.
  abbrev pub IsCoherent : Fs → Cache → Type 0
  IsCoherent s c = IsCache (Agrees s) c

  lookup_path-root :
      (path : List ℕ) (s : Fs) → is_root path ≡ true → lookup_path g path s ≡ some root_inode_num
  unfolding lookup_path lookup_within
  lookup_path-root path s e = rw e refl

  lookup_path-orphan :
      (path : List ℕ) (s : Fs)
      → is_root path ≡ false
      → copy_parent_path path (length path) ≡ none
      → lookup_path g path s ≡ some minus_one
  unfolding lookup_path lookup_within
  lookup_path-orphan path s e o = rw (e, o) refl

  lookup_path-child :
      (path parent : List ℕ) (s : Fs)
      → is_root path ≡ false
      → copy_parent_path path (length path) ≡ some parent
      → lookup_path g path s ≡ child_of g (lookup_path g parent s) path s
  unfolding lookup_path lookup_within
  lookup_path-child path parent s e o =
      rw
        (
          e,
          o,
          sym (
              lookup_within-path g (length path) parent s
                (length-copy_parent_path path parent o).0),
        )
        refl

  -- How a lookup ends: with the value, and with only the cache changed, which stays coherent.
  abbrev Looked : (entries : ℕ) → Option (ℕ × World) → World → ℕ → Type 0
  Looked entries outcome w v =
      (c : Cache) × (outcome ≡ some (v, record w { cache = c }))
      × IsCoherent w.fs c
      × (c.size ≤ w.cache.size + entries)
      × (c.capacity ≡ w.cache.capacity)

  name_in_parent-child_of :
      (i : ℕ) (path : List ℕ) (w : World) (v : ℕ)
      → IsCoherent w.fs w.cache
      → w.cache.size < w.cache.capacity
      → lookup_path g path w.fs ≡ some v
      → child_of g (some i) path w.fs ≡ some v
      → Looked 1 (name_in_parent g i path w) w v
  unfolding name_in_parent child_of
  name_in_parent-child_of i path w v coherent room means e = elim (Bool-cases (i == minus_one)) [
    | inl absent ↦
        let missing : minus_one ≡ v = ground arith in
        (w.cache, rw (absent, missing) refl, coherent, omega arith, refl)
    | inr present ↦ elim (Option-cases (find_child g i path w.fs)) [
      | inl unreadable ↦ absurd (ground arith)
      | inr (none, found) ↦
          let missing : minus_one ≡ v = ground arith in
          (
            w.cache,
            simp (programs, present, found) (ap (λ u. some (u, w)) missing),
            coherent,
            omega arith,
            refl,
          )
      | inr (some inum, found) ↦
          let same : inum ≡ v = ground arith in
          let (c, stored, w', sizes, capacities) =
            set_cache_entry-IsCache (Agrees w.fs) w.cache path v coherent means room in
          (c, simp (programs, present, found, same, stored), w', sizes, capacities)
    ]
  ]

  name_i_within-lookup :
      (fuel : ℕ) (path : List ℕ) (w : World) (v : ℕ)
      → length path < fuel
      → IsCoherent w.fs w.cache
      → w.cache.size + length path ≤ w.cache.capacity
      → lookup_path g path w.fs ≡ some v
      → Looked (length path) (name_i_within g fuel path w) w v
  unfolding name_i_within child_of
  name_i_within-lookup zero path w v p coherent room means = absurd (omega arith)
  name_i_within-lookup (suc fuel) path w v p coherent room means =
      elim (Bool-cases (is_root path)) [
        | inl root ↦
            let e : root_inode_num ≡ v = ground (arith, lookup_path-root path w.fs root) in
            (w.cache, rw (root, e) refl, coherent, omega arith, refl)
        | inr below ↦
            let (cached, c1, got, meaning, coherent1, sizes1, capacities1) =
              get_cache_entry-IsCache (Agrees w.fs) w.cache path coherent in
            elim (Bool-cases (is_not_positive cached)) [
              | inr hit ↦
                  let same : cached ≡ v = ground (arith, meaning) in
                  (
                    c1,
                    simp (programs, below, got, hit)
                        (ap (λ u. some (u, record w { cache = c1 })) same),
                    coherent1,
                    omega (arith, sizes1),
                    capacities1,
                  )
              | inl miss ↦ elim (Option-cases (copy_parent_path path (length path))) [
                | inl orphan ↦
                    let e : minus_one ≡ v =
                      ground (arith, lookup_path-orphan path w.fs below orphan) in
                    (
                      c1,
                      simp (programs, below, got, miss, orphan)
                          (ap (λ u. some (u, record w { cache = c1 })) e),
                      coherent1,
                      omega (arith, sizes1),
                      capacities1,
                    )
                | inr (parent, up) ↦
                    let shorter : length parent < length path =
                      (length-copy_parent_path path parent up).0 in
                    let step = lookup_path-child path parent w.fs below up in
                    elim (Option-cases (lookup_path g parent w.fs)) [
                      | inl unreadable ↦ absurd (
                          ground (
                            arith,
                            sym (ap (λ o. child_of g o path w.fs) unreadable) ∙ sym step ∙ means,
                          ))
                      | inr (i, found) ↦
                          let (c2, ran, coherent2, sizes2, capacities2) =
                            name_i_within-lookup fuel parent (record w { cache = c1 }) i
                              (omega arith) coherent1 (omega (arith, sizes1, capacities1)) found in
                          let (c3, end, coherent3, sizes3, capacities3) =
                            name_in_parent-child_of i path (record w { cache = c2 }) v coherent2
                              (omega (arith, sizes2, capacities2, sizes1, capacities1)) means
                              (sym (ap (λ o. child_of g o path w.fs) found) ∙ sym step ∙ means) in
                          (
                            c3,
                            simp (programs, below, got, miss, up, ran, end),
                            coherent3,
                            omega (arith, sizes1, sizes2, sizes3),
                            capacities3 ∙ capacities2 ∙ capacities1,
                          )
                    ]
              ]
            ]
      ]

  -- name_i on a cache that agrees with the directories and has room for as many entries more as the path
  -- has bytes, where the directories on the way can be read: it ends without a fault, returns the inode
  -- number that the lookup without the cache gives, and changes only the cache, which goes on agreeing
  -- with the directories.
  pub name_i-lookup_path :
      (path : List ℕ) (w : World) (v : ℕ)
      → IsCoherent w.fs w.cache
      → w.cache.size + length path ≤ w.cache.capacity
      → lookup_path g path w.fs ≡ some v
      → (c : Cache) × (name_i g path w ≡ some (v, record w { cache = c }))
        × IsCoherent w.fs c
        × (c.size ≤ w.cache.size + length path)
        × (c.capacity ≡ w.cache.capacity)
  unfolding name_i
  name_i-lookup_path path w v = name_i_within-lookup (suc (length path)) path w v (omega arith)

  -- A cache that was just created agrees with whatever the directories say.
  pub create_inode_cache-IsCoherent :
      (capacity : ℕ) (s : Fs) → IsCoherent s (create_inode_cache capacity)
  unfolding create_inode_cache
  create_inode_cache-IsCoherent capacity s = record {
    rank = λ p. p;
    linked = create_inode_cache-IsLinked capacity;
    allowed = λ p l. absurd (ground arith);
  }
