-- ===== src/PathName/Split.antt =====
-- What the path functions make of a path: a parent, a slash, a name and perhaps a trailing slash.
use alt_file_system.Prelude.{
  ℕ, zero, suc, ◌+◌, ◌-◌, ◌≤◌, ◌<◌, ◌≡◌, ◌≢◌, refl, ap, ◌∙◌, Bool, true, false, not, ◌&&◌, some,
  List, [], ◌∷◌, ◌++◌, arith, ◌==◌, ltb, if◌then◌else◌, length, get_or, take, drop, length-append,
  inl, inr, Bool-cases,
}
use alt_file_system.PathName.{
  slash, last_index_from, get_last_index_of_parent_path, copy_parent_path, end_of_name,
  copy_file_name,
}

get_or-append_left :
    (xs ys : List ℕ) (i d : ℕ) → i < length xs → get_or (xs ++ ys) i d ≡ get_or xs i d
get_or-append_left [] ys i d h = absurd (omega arith)
get_or-append_left (x ∷ xs) ys zero d h = refl
get_or-append_left (x ∷ xs) ys (suc i) d h = get_or-append_left xs ys i d (omega arith)

get_or-append_right :
    (xs ys : List ℕ) (i d : ℕ) → get_or (xs ++ ys) (length xs + i) d ≡ get_or ys i d
get_or-append_right [] ys i d = ap (λ k. get_or ys k d) (omega arith)
get_or-append_right (x ∷ xs) ys i d =
    let e : suc (length xs) + i ≡ suc (length xs + i) = omega arith in
    rw e (get_or-append_right xs ys i d)

take-append : (xs ys : List ℕ) → take (length xs) (xs ++ ys) ≡ xs
take-append [] ys = refl
take-append (x ∷ xs) ys = ap (λ l. x ∷ l) (take-append xs ys)

drop-append : (xs ys : List ℕ) (k : ℕ) → drop (length xs + k) (xs ++ ys) ≡ drop k ys
drop-append [] ys k = ap (λ m. drop m ys) {x = 0 + k} {y = k} (omega arith)
drop-append (x ∷ xs) ys k =
    let e : suc (length xs) + k ≡ suc (length xs + k) = omega arith in rw e (drop-append xs ys k)

-- A name has a byte, and no slash.
abbrev pub NoSlash : List ℕ → Type 0
NoSlash [] = Unit {0}
NoSlash (c ∷ cs) = (c ≢ slash) × NoSlash cs

get_or-NoSlash : (name : List ℕ) (i : ℕ) → NoSlash name → i < length name → get_or name i 0 ≢ slash
get_or-NoSlash [] i n h = absurd (omega arith)
get_or-NoSlash (c ∷ cs) zero n h = n.0
get_or-NoSlash (c ∷ cs) (suc i) n h = get_or-NoSlash cs i n.1 (omega arith)

-- The loop passes the bytes above the last slash before the end.
last_index_from-skip :
    (path : List ℕ) (len n k : ℕ)
    → ((i : ℕ) → k ≤ i → i < n → (get_or path i 0 == slash && not (i + 1 == len)) ≡ false)
    → k ≤ n
    → last_index_from path len n ≡ last_index_from path len k
unfolding last_index_from
last_index_from-skip path len zero k h le =
    ap (last_index_from path len) {x = zero} {y = k} (omega arith)
last_index_from-skip path len (suc n) k h le = elim (Bool-cases (k == suc n)) [
  | inl e ↦ ap (last_index_from path len) {x = suc n} {y = k} (ground arith)
  | inr ne ↦
      rw (h n (ground arith) (omega arith))
        (last_index_from-skip path len n k (λ i lo hi. h i lo (omega arith)) (ground arith))
]

-- The index of a slash at k with no other before the last byte.
last_index-slash :
    (path : List ℕ) (len k : ℕ)
    → get_or path k 0 ≡ slash
    → k + 1 < len
    → ((i : ℕ) → suc k ≤ i → i < len → (get_or path i 0 == slash && not (i + 1 == len)) ≡ false)
    → get_last_index_of_parent_path path len ≡ some k
unfolding get_last_index_of_parent_path last_index_from
last_index-slash path len k e lt h =
    last_index_from-skip path len len (suc k) h (omega arith) ∙ ground arith

abbrev pub tail : Bool → List ℕ
tail true = slash ∷ []
tail false = []

-- A path with a parent, a name and perhaps a slash behind it.
abbrev pub join : (dir name : List ℕ) (trailing : Bool) → List ℕ
join dir name trailing = dir ++ (slash ∷ (name ++ tail trailing))

-- The parent of a path whose last slash has `dir` before it; the root where that is empty.
abbrev pub parent_of : List ℕ → List ℕ
parent_of [] = slash ∷ []
parent_of (c ∷ cs) = c ∷ cs

module _ (dir name : List ℕ) (trailing : Bool) (n : NoSlash name) (ne : 0 < length name) where
  length-join :
      length (join dir name trailing) ≡ length dir + (1 + (length name + length (tail trailing)))
  length-join =
      length-append dir (slash ∷ (name ++ tail trailing))
      ∙ omega (arith, length-append name (tail trailing))

  byte-join :
      (i : ℕ)
      → get_or (join dir name trailing) (length dir + i) 0
        ≡ get_or (slash ∷ (name ++ tail trailing)) i 0
  byte-join i = get_or-append_right dir (slash ∷ (name ++ tail trailing)) i 0

  byte-name : (j : ℕ) → j < length name → get_or (name ++ tail trailing) j 0 ≢ slash
  byte-name j h = rw (get_or-append_left name (tail trailing) j 0 h) (get_or-NoSlash name j n h)

  byte-tail : get_or (name ++ tail true) (length name) 0 ≡ slash
  byte-tail =
      ap (λ k. get_or (name ++ tail true) k 0) {y = length name + 0} (omega arith)
      ∙ get_or-append_right name (tail true) 0 0

  no_slash_above :
      (i : ℕ)
      → suc (length dir) ≤ i
      → i < length (join dir name trailing)
      → (get_or (join dir name trailing) i 0 == slash
          && not (i + 1 == length (join dir name trailing)))
        ≡ false
  no_slash_above i lo hi =
      let j : ℕ = i - suc (length dir) in
      let at : i ≡ length dir + suc j = omega arith in
      let byte : get_or (join dir name trailing) i 0 ≡ get_or (name ++ tail trailing) j 0 =
        ap (λ k. get_or (join dir name trailing) k 0) at ∙ byte-join (suc j) in
      elim (Bool-cases (ltb j (length name))) [
        | inl short ↦ ground (arith, byte, byte-name j (ground arith))
        | inr long ↦ ground (arith, length-join)
      ]

  index-join :
      get_last_index_of_parent_path (join dir name trailing) (length (join dir name trailing))
      ≡ some (length dir)
  index-join =
      last_index-slash (join dir name trailing) (length (join dir name trailing)) (length dir)
        (ap (λ k. get_or (join dir name trailing) k 0) {y = length dir + 0} (omega arith)
          ∙ byte-join 0)
        (omega (arith, length-join)) no_slash_above

-- The byte before the end, at index |dir| + j.
last_byte :
    (dir name : List ℕ) (trailing : Bool) (j : ℕ)
    → length (join dir name trailing) ≡ length dir + (2 + j)
    → get_or (join dir name trailing) (length (join dir name trailing) - 1) 0
      ≡ get_or (name ++ tail trailing) j 0
last_byte dir name trailing j e =
    ap (λ k. get_or (join dir name trailing) k 0) {y = length dir + suc j} (omega (arith, e))
    ∙ get_or-append_right dir (slash ∷ (name ++ tail trailing)) (suc j) 0

end_of_name-join :
    (dir name : List ℕ) (trailing : Bool)
    → NoSlash name
    → 0 < length name
    → end_of_name (join dir name trailing) (length (join dir name trailing))
      ≡ length dir + (1 + length name)
unfolding end_of_name
end_of_name-join dir name true n ne =
    let len = length-join dir name true n ne in
    let byte =
      last_byte dir name true (length name) (omega (arith, len)) ∙ byte-tail dir name true n ne in
    ground (arith, len, byte)
end_of_name-join dir name false n ne =
    let len = length-join dir name false n ne in
    let byte = last_byte dir name false (length name - 1) (omega (arith, len)) in
    ground (arith, len, byte, byte-name dir name false n ne (length name - 1))

take-name :
    (dir name rest : List ℕ)
    → take
        (length dir + (1 + length name) - (length dir + 1))
        (drop (length dir + 1) (dir ++ (slash ∷ (name ++ rest))))
      ≡ name
take-name dir name rest =
    rw (drop-append dir (slash ∷ (name ++ rest)) 1)
      (ap (λ k. take k (name ++ rest)) {y = length name} (omega arith) ∙ take-append name rest)

take-parent :
    (dir rest : List ℕ)
    → (if length dir == 0
        then take 1 (dir ++ (slash ∷ rest))
        else take (length dir) (dir ++ (slash ∷ rest)))
      ≡ parent_of dir
take-parent [] rest = refl
take-parent (c ∷ cs) rest =
    let ne : (length (c ∷ cs) == 0) ≡ false = ground arith in
    rw ne (take-append (c ∷ cs) (slash ∷ rest))

-- copy_file_name and copy_parent_path, on a path whose name has a byte and no slash: they give that
-- name, without the trailing slash, and its parent, which is the root directory when nothing stands
-- before the last slash.
pub copy_file_name-copy_parent_path :
    (dir name : List ℕ) (trailing : Bool)
    → NoSlash name
    → 0 < length name
    → (copy_file_name (join dir name trailing) (length (join dir name trailing)) ≡ some name)
      × (copy_parent_path (join dir name trailing) (length (join dir name trailing))
          ≡ some (parent_of dir))
unfolding copy_file_name copy_parent_path
copy_file_name-copy_parent_path dir name trailing n ne = (
  rw (index-join dir name trailing n ne, end_of_name-join dir name trailing n ne, copy_file_name)
      (ap some (take-name dir name (tail trailing))),
  rw (index-join dir name trailing n ne, copy_parent_path)
      (ap some (take-parent dir (name ++ tail trailing))),
)
