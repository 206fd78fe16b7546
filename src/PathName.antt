-- ===== src/PathName.antt =====
-- The path functions of src/directory_ops.c. A path is its bytes without the closing NUL; a buffer
-- that receives one is the string that it holds afterwards.
pub mod Split
pub mod Parent
use alt_file_system.Prelude.{
  ℕ, zero, suc, ◌+◌, ◌-◌, Bool, not, ◌&&◌, Option, none, some, List, ◌==◌, if◌then◌else◌, length,
  get_or, take, drop,
}

abbrev pub slash : ℕ
slash = b'/'

-- The loop of get_last_index_of_parent_path at i = n - 1; `none` is the result -1.
unfoldable pub last_index_from : List ℕ → (path_length n : ℕ) → Option ℕ
last_index_from path path_length zero = none
last_index_from path path_length (suc i) =
    let rest = last_index_from path path_length i in
    if get_or path i 0 == slash && not (i + 1 == path_length) then some i else rest

unfoldable pub get_last_index_of_parent_path : List ℕ → (path_length : ℕ) → Option ℕ
unfolding last_index_from
get_last_index_of_parent_path path path_length = last_index_from path path_length path_length

-- `none` is the result false.
unfoldable pub copy_parent_path : List ℕ → (path_len : ℕ) → Option (List ℕ)
copy_parent_path path path_len = elim (get_last_index_of_parent_path path path_len) [
  | none ↦ none
  | some index ↦ some (if index == 0 then take 1 path else take index path)
]

-- path_len, less a trailing slash.
unfoldable pub end_of_name : List ℕ → (path_len : ℕ) → ℕ
end_of_name path path_len = if get_or path (path_len - 1) 0 == slash then path_len - 1 else path_len

unfoldable pub copy_file_name : List ℕ → (path_len : ℕ) → Option (List ℕ)
unfolding end_of_name
copy_file_name path path_len = elim (get_last_index_of_parent_path path path_len) [
  | none ↦ none
  | some index ↦ some (take (end_of_name path path_len - (index + 1)) (drop (index + 1) path))
]
