-- ===== src/InodeCache/Find.antt =====
-- src/inode_cache.c: the walk from the bucket of a key along the list.
use alt_file_system.Prelude.{
  ℕ, zero, suc, ◌<◌, ◌≡◌, ◌≢◌, refl, inl, inr, true, ◌⊎◌, none, some, List, [], ◌∷◌, arith, ◌==◌,
  Bool-cases,
}
use alt_file_system.InodeCache.{Cache, same_key, find}
use alt_file_system.InodeCache.Links.{IsLinked}

pub same_key→≡ : (a b : List ℕ) → same_key a b ≡ true → a ≡ b
unfolding same_key
same_key→≡ [] [] h = refl
same_key→≡ [] (d ∷ ds) h = absurd (ground arith)
same_key→≡ (c ∷ cs) [] h = absurd (ground arith)
same_key→≡ (c ∷ cs) (d ∷ ds) h = ground (arith, same_key→≡ cs ds)

module _ (c : Cache) (rank : ℕ → ℕ) (w : IsLinked c rank) (k : List ℕ) where
  find_within :
      (fuel curr : ℕ)
      → (curr ≢ 0 → c.live curr ≡ true)
      → (curr ≢ 0 → rank curr < fuel)
      → 0 < fuel
      → (find fuel curr k c ≡ some none)
        ⊎ ((p : ℕ) × (find fuel curr k c ≡ some (some p)) × (c.live p ≡ true) × (c.key p ≡ k))
  unfolding find
  find_within zero curr l r pos = absurd (omega arith)
  find_within (suc fuel) curr l r pos = elim (Bool-cases (curr == 0)) [
    | inl null ↦ inl (ground arith)
    | inr entry ↦ elim (Bool-cases (same_key (c.key curr) k)) [
      | inl same ↦ inr (curr, ground (arith, l), ground (arith, l), same_key→≡ (c.key curr) k same)
      | inr other ↦
          let alive : c.live curr ≡ true = ground (arith, l) in
          let rest : (find fuel (c.next curr) k c ≡ some none)
              ⊎ ((p : ℕ) × (find fuel (c.next curr) k c ≡ some (some p))
                  × (c.live p ≡ true)
                  × (c.key p ≡ k)) =
            find_within fuel (c.next curr)
              (λ nz. ground (arith, w.after curr alive, w.has_tail, w.has_head curr alive))
              (λ nz. ground (arith, r, w.after curr alive, w.has_tail, w.has_head curr alive))
              (ground (arith, r, w.ranked curr alive)) in
          ground (arith, rest, alive)
    ]
  ]

  -- The clock is fuel enough: the walk ends without a fault, and finds an entry with the key or none.
  pub find_lem :
      (h : ℕ)
      → (find c.clock (c.map h) k c ≡ some none)
        ⊎ ((p : ℕ) × (find c.clock (c.map h) k c ≡ some (some p))
            × (c.live p ≡ true)
            × (c.key p ≡ k))
  find_lem h =
      find_within c.clock (c.map h) (w.mapped h) (λ nz. w.rank_below (c.map h) (w.mapped h nz))
        w.started
