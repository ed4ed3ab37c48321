-- ===== src/FilePath.antt =====
-- src/inode.cpp, splitting a path: `get_last_index_of_parent_path`, `copy_parent_path` and
-- `copy_file_name`. A path is its bytes before the NUL. The buffers of the callers have
-- `strlen(path) + 1` bytes, and a result is the string that the call leaves in its buffer.
pub mod Split
use beach_bytes_file_system.Base.{
  ℕ, zero, suc, ◌+◌, ◌-◌, Bool, true, false, not, ◌&&◌, Option, none, some, List, [], ◌∷◌, ◌==◌,
  if◌then◌else◌, length, get_elem?, take, drop,
}

abbrev pub slash : ℕ
slash = b'/'

-- path[i] == '/'
abbrev pub is_slash : List ℕ → ℕ → Bool
is_slash path i = elim (get_elem? path i) [ none ↦ false | some c ↦ c == slash ]

-- for(i = path_length - 1; i >= 0; i--), where `suc i` rounds are left at `i`; `none` is -1
unfoldable pub last_index_loop : List ℕ → ℕ → Option ℕ
last_index_loop path zero = none
last_index_loop path (suc i) =
    let rest = last_index_loop path i in
    if is_slash path i && not (i == length path - 1) then some i else rest

unfoldable pub get_last_index_of_parent_path : List ℕ → Option ℕ
get_last_index_of_parent_path path = last_index_loop path (length path)

-- lines 1013 to 1031 on the index: "/" for -1 and for 0, else the bytes before it
abbrev pub parent_at : List ℕ → Option ℕ → List ℕ
parent_at path none = slash ∷ []
parent_at path (some zero) = take 1 path
parent_at path (some (suc i)) = take (suc i) path

unfoldable pub copy_parent_path : List ℕ → List ℕ
copy_parent_path path = parent_at path (get_last_index_of_parent_path path)

-- `start_index` after lines 1038 to 1045
abbrev pub start_of : Option ℕ → ℕ
start_of none = 0
start_of (some i) = i + 1

-- `path[end_index-1]` of the empty path reads in front of the string: `none` is undefined
unfoldable pub copy_file_name : List ℕ → Option (List ℕ)
copy_file_name path =
    let start_index = start_of (get_last_index_of_parent_path path) in
    let end_index = if is_slash path (length path - 1) then length path - 1 else length path in
    if length path == 0 then none else some (take (end_index - start_index) (drop start_index path))
