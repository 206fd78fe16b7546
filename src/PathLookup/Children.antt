-- ===== src/PathLookup/Children.antt =====
-- The end of name_i of src/directory_ops.c, in the directory of a path's parent.
use alt_file_system.Prelude.{ℕ, ◌≤◌, ◌≡◌, ap, ◌∙◌, Option, none, some, List, length}
use alt_file_system.Disk.{Geometry, Fs}
use alt_file_system.Inode.{Inode}
use alt_file_system.InodeOps.{get_inode}
use alt_file_system.PathName.{copy_file_name}
use alt_file_system.Directory.{max_file_name_length, FilePosition, get_file_position_in_dir}
use alt_file_system.Directory.Entries.{DirBlock, entries, assoc}
use alt_file_system.Directory.Find.{IsDirectory, number_of, Finds-assoc, get_file_position-Finds}
use alt_file_system.PathLookup.{find_child}

find_child-number_of :
    (g : Geometry) (s : Fs) (parent : ℕ) (node : Inode) (path name : List ℕ)
    (r : Option FilePosition)
    → get_inode g parent s ≡ some node
    → copy_file_name path (length path) ≡ some name
    → get_file_position_in_dir g name node s ≡ some r
    → find_child g parent path s ≡ some (number_of r)
unfolding find_child
find_child-number_of g s parent node path name none got named found =
    simp (find_child, named, got, found)
find_child-number_of g s parent node path name (some p) got named found =
    simp (find_child, named, got, found)

-- The last step of name_i refines a lookup in an association list: in a directory whose data blocks,
-- in the inode or behind indirect blocks, hold some records, it gives the inode number of the first
-- entry of all the blocks with the path's last name, and nothing if no entry has that name. This for
-- names of at most 255 bytes.
pub find_child-assoc :
    (g : Geometry) (s : Fs) (parent : ℕ) (node : Inode) (bs : List DirBlock) (path name : List ℕ)
    → get_inode g parent s ≡ some node
    → IsDirectory g s node bs
    → copy_file_name path (length path) ≡ some name
    → length name ≤ max_file_name_length
    → find_child g parent path s ≡ some (assoc name (entries bs))
find_child-assoc g s parent node bs path name got dir named short =
    let found = get_file_position-Finds g s node bs name dir short in
    find_child-number_of g s parent node path name found.0 got named found.1
    ∙ ap some (Finds-assoc name bs found.0 found.2)
