-- ===== src/Directory/Contains.antt =====
-- src/inode.cpp, `directory_contains_entry`: the walk goes on to the count of the block, which is not the
-- end of its records but eight bytes before, and a name also matches a longer one that it starts.
use beach_bytes_file_system.Base.{
  ℕ, zero, suc, ◌+◌, Bool, true, false, not, Option, none, some, List, leb, if◌then◌else◌,
}
use beach_bytes_file_system.Bytes.{Bytes, load, add64, lt64, le64}
use beach_bytes_file_system.Config.{Inode, block_size, record_fixed_len}
use beach_bytes_file_system.Machine.{M, pure, ◌>>=◌, deref}
use beach_bytes_file_system.DataBlock.{read_data_block}
use beach_bytes_file_system.BlockMap.{get_datablock_from_inode}
use beach_bytes_file_system.Directory.{s_isdir, rounds_of, same_name}

-- The walk over the records of a block. `none` is an access outside the block, or a loop that never
-- ends: a walk of more than 4096 rounds inside the block repeats a position.
unfoldable pub contains_walk : ℕ → Bytes → ℕ → List ℕ → Option Bool
contains_walk zero b pos name = none
contains_walk (suc rounds) b pos name =
    let rest = contains_walk rounds b (add64 pos (load 8 b pos)) name in
    if lt64 pos (load 8 b 0)
    then (if leb (pos + record_fixed_len) block_size
        then elim (same_name b (pos + record_fixed_len) name) [
          | none ↦ none
          | some true ↦ some true
          | some false ↦ rest
        ]
        else none)
    else some false

unfoldable pub contains_loop : ℕ → ℕ → ℕ → Inode → List ℕ → M Bool
contains_loop zero l_block_num prev dir name = pure false
contains_loop (suc rounds) l_block_num prev dir name =
    let rest = λ (p : ℕ). contains_loop rounds (l_block_num + 1) p dir name in
    do
      (p_block_num, prev') ← get_datablock_from_inode dir l_block_num prev
      if le64 p_block_num 0 then pure false else (do
        read ← read_data_block p_block_num
        b ← deref read
        found ← deref (contains_walk (block_size + 1) b 8 name)
        if found then pure true else rest prev')

unfoldable pub directory_contains_entry : Inode → List ℕ → M Bool
directory_contains_entry dir name =
    if not (s_isdir dir.i_mode)
    then pure false
    else if le64 dir.blocks 0
    then pure false
    else contains_loop (rounds_of dir.blocks) 0 0 dir name
