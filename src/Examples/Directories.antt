-- ===== src/Examples/Directories.antt =====
-- Runs and instances for directories.
use beach_bytes_file_system.Base.{
  ℕ, ◌+◌, ◌≡◌, refl, true, false, Option, some, List, [], ◌∷◌, ◌++◌, arith, length,
}
use beach_bytes_file_system.Bytes.{Bytes, load, add64}
use beach_bytes_file_system.Config.{block_size}
use beach_bytes_file_system.Directory.{
  write_record, first_record, has_room, find_record, without_record,
}
use beach_bytes_file_system.Directory.Remove.{delete, without_record-delete}
use beach_bytes_file_system.Directory.Records.{Entry, IsDirBlock, lookup, name_eq}
use beach_bytes_file_system.Directory.Lookup.{
  offset_of_entry, find_record-offset_of_entry, inum_at, find_record-lookup,
}
use beach_bytes_file_system.Directory.RoundTrip.{Finds, find_record-write_record}
use beach_bytes_file_system.Directory.Insert.{write_record-append, first_record-IsDirBlock}

abbrev name_a : List ℕ
name_a = 97 ∷ 46 ∷ 99 ∷ []

abbrev name_b : List ℕ
name_b = 98 ∷ []

-- one entry
abbrev small_block : Bytes
small_block = first_record 7 name_a

first_record-IsDirBlock_example : IsDirBlock small_block ((7, name_a) ∷ [])
first_record-IsDirBlock_example = first_record-IsDirBlock 7 name_a (omega arith) (omega arith)

small_block-IsDirBlock : IsDirBlock small_block ((7, name_a) ∷ [])
small_block-IsDirBlock = first_record-IsDirBlock 7 name_a (omega arith) (omega arith)

small_block-has_room : has_room small_block (length name_b + 1) ≡ true
small_block-has_room = let e : load 8 small_block 0 ≡ 20 = small_block-IsDirBlock.count in rw e refl

write_record-append_example :
    IsDirBlock
      (write_record small_block (add64 8 (load 8 small_block 0)) 9 name_b)
      (((7, name_a) ∷ []) ++ ((9, name_b) ∷ []))
write_record-append_example =
    write_record-append small_block ((7, name_a) ∷ []) 9 name_b small_block-IsDirBlock
      small_block-has_room (omega arith) (omega arith)

find_record-lookup_example :
    (r : Option ℕ) × (find_record (block_size + 1) small_block 8 name_a ≡ some r)
    × (inum_at small_block r ≡ lookup name_a ((7, name_a) ∷ []))
find_record-lookup_example =
    find_record-lookup small_block ((7, name_a) ∷ []) name_a small_block-IsDirBlock

-- two entries
abbrev two_entries : List Entry
two_entries = (7, name_a) ∷ (9, name_b) ∷ []

abbrev larger_block : Bytes
larger_block = write_record small_block (add64 8 (load 8 small_block 0)) 9 name_b

larger_block-IsDirBlock : IsDirBlock larger_block two_entries
larger_block-IsDirBlock =
    write_record-append small_block ((7, name_a) ∷ []) 9 name_b small_block-IsDirBlock
      small_block-has_room (omega arith) (omega arith)

larger_block-found : find_record (block_size + 1) larger_block 8 name_a ≡ some (some 8)
unfolding offset_of_entry name_eq
larger_block-found =
    find_record-offset_of_entry larger_block name_a (block_size + 1) 8 two_entries
      larger_block-IsDirBlock.records larger_block-IsDirBlock.zero_after (omega arith) (omega arith)

without_record-delete_example :
    IsDirBlock (without_record larger_block 8) (delete name_a two_entries)
without_record-delete_example =
    without_record-delete larger_block two_entries name_a 8 larger_block-IsDirBlock
      larger_block-found

find_record-write_record_example :
    Finds larger_block name_b (some 9)
    × ((other : List ℕ) (found : Option ℕ)
        → name_eq name_b other ≡ false
        → Finds small_block other found
        → Finds larger_block other found)
unfolding lookup name_eq
find_record-write_record_example =
    find_record-write_record small_block ((7, name_a) ∷ []) 9 name_b small_block-IsDirBlock refl
      small_block-has_room (omega arith) (omega arith)
