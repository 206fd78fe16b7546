-- ===== src/PathName/Parent.antt =====
-- The recursion of name_i goes from a path to its parent: the parent is shorter.
use alt_file_system.Prelude.{
  ℕ, zero, suc, ◌+◌, ◌<◌, ◌≡◌, ◌≢◌, refl, ap, some, List, arith, ◌==◌, length, take, length-take,
  if◌then◌else◌, Option-cases, Bool-cases, [], ◌∷◌, inl, inr,
}
use alt_file_system.PathName.{last_index_from, get_last_index_of_parent_path, copy_parent_path}

last_index_from_bound :
    (path : List ℕ) (len n i : ℕ) → last_index_from path len n ≡ some i → (i < n) × (i + 1 ≢ len)
unfolding last_index_from
last_index_from_bound path len zero i e = absurd (ground arith)
last_index_from_bound path len (suc n) i e = ground (arith, last_index_from_bound path len n i)

take-length-take : (k : ℕ) (xs : List ℕ) → take (length (take k xs)) xs ≡ take k xs
take-length-take zero xs = refl
take-length-take (suc k) [] = refl
take-length-take (suc k) (x ∷ xs) = ap (λ l. x ∷ l) (take-length-take k xs)

-- A prefix that ends at or before index `i`, or holds the first byte alone.
prefix_of :
    (path parent : List ℕ) (i : ℕ)
    → i + 1 < length path
    → (if i == 0 then take 1 path else take i path) ≡ parent
    → (length parent < length path) × (take (length parent) path ≡ parent)
prefix_of path parent i h e = elim (Bool-cases (i == 0)) [
  | inl z ↦
      let e' : take 1 path ≡ parent = rw z at e in
      rw (← e') (omega (arith, length-take 1 path), take-length-take 1 path)
  | inr nz ↦
      let e' : take i path ≡ parent = rw nz at e in
      rw (← e') (omega (arith, length-take i path), take-length-take i path)
]

-- copy_parent_path gives a prefix of the path that is strictly shorter than it.
pub length-copy_parent_path :
    (path parent : List ℕ)
    → copy_parent_path path (length path) ≡ some parent
    → (length parent < length path) × (take (length parent) path ≡ parent)
unfolding copy_parent_path get_last_index_of_parent_path
length-copy_parent_path path parent e =
    elim (Option-cases (last_index_from path (length path) (length path))) [
      | inl none_found ↦ absurd (ground arith)
      | inr (i, found) ↦
          prefix_of path parent i
            (omega (arith, last_index_from_bound path (length path) (length path) i found))
            (ground arith)
    ]
