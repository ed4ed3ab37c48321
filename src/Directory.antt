-- ===== src/Directory.antt =====
-- src/inode.cpp, directories: blocks of records behind a word that counts their bytes. A record is its
-- length, an inode number and a name with its NUL. A name is its bytes before the NUL.
pub mod Records
pub mod Lookup
pub mod Insert
pub mod Remove
pub mod RoundTrip
pub mod Resolve
pub mod Find
pub mod Tree
pub mod Adding
pub mod Contains
use beach_bytes_file_system.Base.{
  ℕ, zero, suc, ◌+◌, ◌-◌, ◌*◌, ◌/◌, ◌%◌, ◌^◌, Bool, true, false, not, ◌&&◌, Option, none, some,
  List, [], ◌∷◌, ◌++◌, ltb, leb, ◌==◌, if◌then◌else◌, length,
}
use beach_bytes_file_system.Bytes.{
  Bytes, zeros, load, store, copy, write_bytes, minus_one, add64, sub64, lt64, le64,
}
use beach_bytes_file_system.Config.{
  Inode, block_size, file_name_max_length, record_length, record_fixed_len,
}
use beach_bytes_file_system.Machine.{M, Fs, pure, undefined, ◌>>=◌, ◌>>◌, get, deref}
use beach_bytes_file_system.DataBlock.{allocate_data_block, read_data_block, write_data_block}
use beach_bytes_file_system.BlockMap.{Changed, get_datablock_from_inode, add_datablock_to_inode}
use beach_bytes_file_system.InodeTable.{load_inode_from_disk}
use beach_bytes_file_system.FilePath.{slash, copy_parent_path, copy_file_name}

-- S_ISDIR of <sys/stat.h>
abbrev pub s_isdir : ℕ → Bool
s_isdir mode = (mode / 4096) % 16 == 4

-- for(l_block_num = 0; l_block_num < blocks; ...) makes no round for a negative count
abbrev pub rounds_of : ℕ → ℕ
rounds_of blocks = if lt64 0 blocks then blocks else 0

-- lines 511 to 518: the record, the count and the name with its NUL
unfoldable pub write_record : Bytes → ℕ → ℕ → List ℕ → Bytes
write_record b curr_pos child_inum file_name =
    let record_len = record_fixed_len + (length file_name + 1) in
    let b1 = store 8 b curr_pos record_len in
    let b2 = store 8 b1 (curr_pos + record_length) child_inum in
    let b3 = store 8 b2 0 (add64 (load 8 b2 0) record_len) in
    write_bytes b3 (curr_pos + record_fixed_len) (file_name ++ (0 ∷ []))

-- whether the record fits behind the others, line 508 to 510
abbrev pub has_room : Bytes → ℕ → Bool
has_room b name_len =
    let curr_pos = add64 8 (load 8 b 0) in
    lt64 name_len (sub64 (sub64 (sub64 block_size curr_pos) record_fixed_len) 8)

-- The search for a block with room. `none` is a loop that ran to its end; `curr_pos` is negative only
-- if the count of the block is, and then the record lies in front of the buffer.
unfoldable pub add_loop : ℕ → ℕ → ℕ → Inode → ℕ → List ℕ → M (Option Changed)
add_loop zero l_block_num prev dir child_inum file_name = pure none
add_loop (suc rounds) l_block_num prev dir child_inum file_name =
    let rest = λ (p : ℕ). add_loop rounds (l_block_num + 1) p dir child_inum file_name in
    do
      (p_block_num, prev') ← get_datablock_from_inode dir l_block_num prev
      if le64 p_block_num 0 then pure (some (false, dir)) else (do
        read ← read_data_block p_block_num
        b ← deref read
        if has_room b (length file_name + 1)
            then (if ltb (add64 8 (load 8 b 0)) block_size
                then (do
                  written ←
                      write_data_block p_block_num
                        (write_record b (add64 8 (load 8 b 0)) child_inum file_name)
                  pure (
                      some (
                        if written
                        then (true, record dir { files_count = add64 dir.files_count 1 })
                        else (false, dir))))
                else undefined)
            else rest prev')

-- lines 539 to 548: a new block with one record
unfoldable pub first_record : ℕ → List ℕ → Bytes
first_record child_inum file_name =
    let record_len = record_fixed_len + (length file_name + 1) in
    let b1 = store 8 zeros 0 record_len in
    let b2 = store 8 b1 record_length record_len in
    let b3 = store 8 b2 (record_length * 2) child_inum in
    write_bytes b3 (record_fixed_len + record_length) (file_name ++ (0 ∷ []))

unfoldable pub add_in_new_block : Inode → ℕ → List ℕ → M Changed
add_in_new_block dir child_inum file_name = do
  data_block_num ← allocate_data_block
  if le64 data_block_num 0 then pure (false, dir) else (do
    written ← write_data_block data_block_num (first_record child_inum file_name)
    if written
        then (do
          (added, dir') ← add_datablock_to_inode dir data_block_num
          pure (
              if added
              then (
                true,
                record dir' {
                  file_size = add64 dir'.file_size block_size;
                  files_count = add64 dir'.files_count 1;
                },
              )
              else (false, dir')))
        else pure (false, dir))

unfoldable pub add_directory_entry : Inode → ℕ → List ℕ → M Changed
add_directory_entry dir child_inum file_name =
    if not (s_isdir dir.i_mode)
    then pure (false, dir)
    else if ltb file_name_max_length (length file_name)
    then pure (false, dir)
    else do
      found ← add_loop (rounds_of dir.blocks) 0 0 dir child_inum file_name
      elim found [ some changed ↦ pure changed | none ↦ add_in_new_block dir child_inum file_name ]

-- strncmp(block + k, name, strlen(name)) == 0; `none` is a comparison that leaves the block
unfoldable pub same_name : Bytes → ℕ → List ℕ → Option Bool
same_name b k [] = some true
same_name b k (c ∷ cs) =
    let rest = same_name b (k + 1) cs in
    if ltb k block_size then (if b k == c then rest else some false) else none

-- The walk over the records of a block, for the one with a name. The outer `none` is undefined
-- behaviour, or a loop that never ends: a walk of more than 4096 rounds inside the block repeats a
-- position, so it goes on for ever.
unfoldable pub find_record : ℕ → Bytes → ℕ → List ℕ → Option (Option ℕ)
find_record zero b curr_pos name = none
find_record (suc rounds) b curr_pos name =
    let record_len = load 8 b curr_pos in
    let rest = find_record rounds b (add64 curr_pos record_len) name in
    if le64 curr_pos (block_size - record_fixed_len)
    then (if ltb curr_pos block_size
        then (if record_len == 0
            then some none
            else if sub64 (sub64 record_len record_fixed_len) 1 == length name
            then elim (same_name b (curr_pos + record_fixed_len) name) [
              | none ↦ none
              | some true ↦ some (some curr_pos)
              | some false ↦ rest
            ]
            else rest)
        else none)
    else some none

abbrev pub search_block : Bytes → List ℕ → M (Option ℕ)
search_block b name = deref (find_record (block_size + 1) b 8 name)

-- How a search over the blocks of a directory ends: an early return, nothing found, or the block, its
-- contents and the record's offset.
pub data Search : Type 0 where
  broken : Search
  absent : Search
  at_record : ℕ → Bytes → ℕ → Search

-- The test `offset>0` behind the walk: a match at offset 0, where the walk comes by only on a damaged
-- block, goes on with the later blocks, and if they have no match the freed block is used.
abbrev pub past_zero : Search → M Search
past_zero broken = pure broken
past_zero absent = undefined
past_zero (at_record p_block_num b offset) = pure (at_record p_block_num b offset)

-- lines 582 to 620: a block that cannot be read is passed over
unfoldable pub remove_loop : ℕ → ℕ → ℕ → Inode → List ℕ → M Search
remove_loop zero l_block_num prev dir name = pure absent
remove_loop (suc rounds) l_block_num prev dir name =
    let rest = λ (p : ℕ). remove_loop rounds (l_block_num + 1) p dir name in
    do
      (p_block_num, prev') ← get_datablock_from_inode dir l_block_num prev
      if le64 p_block_num 0 then pure broken else (do
        read ← read_data_block p_block_num
        elim read [
          | none ↦ rest prev'
          | some b ↦ do
            found ← search_block b name
            elim found [
              | some offset ↦
                  if lt64 0 offset
                  then pure (at_record p_block_num b offset)
                  else (do r ← rest prev'; past_zero r)
              | none ↦ rest prev'
            ]
        ])

-- lines 625 to 635: the block without the record, the later ones moved up
unfoldable pub without_record : Bytes → ℕ → Bytes
without_record b offset =
    let rec_len = load 8 b offset in
    let counted = store 8 b 0 (sub64 (load 8 b 0) rec_len) in
    let front = copy zeros 0 counted 0 offset in
    let next_offset = add64 offset rec_len in
    if lt64 next_offset block_size
    then copy front offset counted next_offset (block_size - next_offset)
    else front

-- lines 636 to 643; the result of the write is ignored
unfoldable pub finish_remove : Inode → Search → M Changed
finish_remove dir broken = pure (false, dir)
finish_remove dir absent = pure (false, dir)
finish_remove dir (at_record p_block_num b offset) = do
  _ ← write_data_block p_block_num (without_record b offset)
  s ← get
  pure (
    true,
    record dir {
      ctime = s.clock % 2 ^ 32;
      mtime = s.clock % 2 ^ 32;
      files_count = sub64 dir.files_count 1;
    },
  )

unfoldable pub remove_from_directory : Inode → List ℕ → M Changed
remove_from_directory dir name =
    if not (s_isdir dir.i_mode)
    then pure (false, dir)
    else if ltb file_name_max_length (length name)
    then pure (false, dir)
    else do found ← remove_loop (rounds_of dir.blocks) 0 0 dir name; finish_remove dir found

-- lines 1101 to 1140: a block with no record is passed over
unfoldable pub lookup_loop : ℕ → ℕ → ℕ → Inode → List ℕ → M Search
lookup_loop zero l_block_num prev dir name = pure absent
lookup_loop (suc rounds) l_block_num prev dir name =
    let rest = λ (p : ℕ). lookup_loop rounds (l_block_num + 1) p dir name in
    do
      (p_block_num, prev') ← get_datablock_from_inode dir l_block_num prev
      if le64 p_block_num 0 then pure broken else (do
        read ← read_data_block p_block_num
        b ← deref read
        if load 8 b 0 == 0 then rest prev' else (do
          found ← search_block b name
          elim found [
            | some offset ↦
                if lt64 0 offset
                then pure (at_record p_block_num b offset)
                else (do r ← rest prev'; past_zero r)
            | none ↦ rest prev'
          ]))

abbrev pub inum_of : Search → ℕ
inum_of broken = minus_one
inum_of absent = minus_one
inum_of (at_record p_block_num b offset) = load 8 b (offset + record_length)

-- lines 1089 to 1156, for a directory that was loaded
unfoldable pub lookup_in : Inode → List ℕ → M ℕ
lookup_in dir name =
    if not (s_isdir dir.i_mode)
    then pure minus_one
    else if ltb file_name_max_length (length name)
    then pure minus_one
    else do found ← lookup_loop (rounds_of dir.blocks) 0 0 dir name; pure (inum_of found)

abbrev pub is_root_path : List ℕ → Bool
is_root_path [] = false
is_root_path (c ∷ []) = c == slash
is_root_path (c ∷ d ∷ cs) = false

-- The recursion goes up the path. The fuel `length path + 2` is never used up.
unfoldable pub get_inode_from : ℕ → List ℕ → M ℕ
get_inode_from zero path = undefined
get_inode_from (suc fuel) path =
    let parent = get_inode_from fuel (copy_parent_path path) in
    if is_root_path path then (λ s. some (s.root_dir_inode_num, s)) else do
      parent_inum ← parent
      if parent_inum == minus_one then pure minus_one else (do
        loaded ← load_inode_from_disk parent_inum
        elim loaded [
          | none ↦ pure minus_one
          | some dir ↦ do name ← deref (copy_file_name path); lookup_in dir name
        ])

unfoldable pub get_inode_of_file : List ℕ → M ℕ
get_inode_of_file path = get_inode_from (length path + 2) path
