-- ===== src/Tests/CacheRuns.antt =====
-- Runs of the inode cache, evaluated.
use alt_file_system.Prelude.{ℕ, ◌≡◌, refl, Option, none, some, List, [], ◌∷◌}
use alt_file_system.Disk.{minus_one}
use alt_file_system.InodeCache.{
  Cache, create_inode_cache, get_cache_entry, set_cache_entry, remove_cache_entry,
}
use alt_file_system.InodeCache.{
  delete_last, delete_node, find, hash_from, hash_func, hash_index, move_to_front, push_front,
  same_key, set_next, set_prev, unlink_entry,
}
use alt_file_system.Tests.Paths.{path_a, path_b}

-- The paths "/a", "/b" share a bucket with every path without upper-case letters. What is cached for "/a"
-- twice is removed once, and "/a" is found again when "/b" is cached.
abbrev again : {A : Type 0} → Option (A × Cache) → (Cache → Option (ℕ × Cache)) → Option (ℕ × Cache)
again none f = none
again (some (a, c)) f = f c

abbrev setting : List ℕ → ℕ → Cache → Option (ℕ × Cache)
setting k v c = elim (set_cache_entry k v c) [ none ↦ none | some c' ↦ some (v, c') ]

abbrev removing : List ℕ → Cache → Option (ℕ × Cache)
removing k c = elim (remove_cache_entry k c) [ none ↦ none | some (found, c') ↦ some (0, c') ]

abbrev value_in : Option (ℕ × Cache) → Option ℕ
value_in none = none
value_in (some (v, c)) = some v

abbrev cached_both : Option (ℕ × Cache)
cached_both = again (setting path_a 7 (create_inode_cache 8)) (setting path_b 8)

-- The second lookup of "/a" misses, since the first one moved it before its bucket.
abbrev missed : Option (ℕ × Cache)
missed = again (again cached_both (get_cache_entry path_a)) (get_cache_entry path_a)

missed_value : value_in missed ≡ some minus_one
unfolding get_cache_entry hash_index hash_func hash_from find move_to_front unlink_entry set_next
    set_prev create_inode_cache same_key set_cache_entry push_front delete_last delete_node
    remove_cache_entry
missed_value = refl

stale_value :
    value_in (
      again
        (again (again (again missed (setting path_a 7)) (removing path_a)) (setting path_b 8))
        (get_cache_entry path_a))
    ≡ some 7
unfolding get_cache_entry hash_index hash_func hash_from find move_to_front unlink_entry set_next
    set_prev create_inode_cache same_key set_cache_entry push_front delete_last delete_node
    remove_cache_entry
stale_value = refl

-- The removal of the only entry leaves `tail` at it; the next move of the last entry to the front uses
-- a NULL.
tail_fault :
    again
      (again
        (again
          (again (setting path_a 7 (create_inode_cache 8)) (removing path_a))
          (setting path_b 8))
        (setting (b'/' ∷ b'c' ∷ []) 9))
      (setting path_b 8)
    ≡ none
unfolding get_cache_entry hash_index hash_func hash_from find move_to_front unlink_entry set_next
    set_prev create_inode_cache same_key set_cache_entry push_front delete_last delete_node
    remove_cache_entry
tail_fault = refl
