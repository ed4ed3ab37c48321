-- ===== src/Invariant/Reads.antt =====
-- The functions that only read keep every property of the state.
use beach_bytes_file_system.Base.{ℕ, zero, suc, ◌+◌, ◌==◌, some, List}
use beach_bytes_file_system.Bytes.{lt64, Bytes, load}
use beach_bytes_file_system.Config.{Inode, block_size}
use beach_bytes_file_system.Machine.{Fs}
use beach_bytes_file_system.LayerZero.{fs_read_block}
use beach_bytes_file_system.DataBlock.{read_data_block}
use beach_bytes_file_system.BlockMap.{
  get_cached, get_last_level, get_single, get_double, get_triple, get_datablock_from_inode,
}
use beach_bytes_file_system.InodeTable.{load_inode_from_disk}
use beach_bytes_file_system.Directory.{
  Search, broken, absent, at_record, past_zero, find_record, lookup_loop, lookup_in, get_inode_from,
  get_inode_of_file,
}
use beach_bytes_file_system.Invariant.{
  ends, Ends-if, Preserves, steps, bind, branch, cases, pure_lem, undefined_lem, deref_lem,
}

module _ {I : Fs → Type 0} where
  root_lem : Preserves I (λ s. some (s.root_dir_inode_num, s))
  root_lem = record { keeps = λ s i. ends i }

  pub fs_read_block_lem : (b : ℕ) → Preserves I (fs_read_block b)
  unfolding fs_read_block
  fs_read_block_lem b = record { keeps = λ s i. search (Ends-if, ends) }

  pub read_data_block_lem : (b : ℕ) → Preserves I (read_data_block b)
  unfolding read_data_block
  read_data_block_lem b = search (steps, fs_read_block_lem)

  pub load_inode_from_disk_lem : (n : ℕ) → Preserves I (load_inode_from_disk n)
  unfolding load_inode_from_disk
  load_inode_from_disk_lem n =
      branch _ (bind (fs_read_block_lem _) λ read. cases read pure_lem λ b. pure_lem) pure_lem

  get_cached_lem : (p i : ℕ) → Preserves I (get_cached p i)
  unfolding get_cached
  get_cached_lem p i = search (steps, read_data_block_lem) depth 12 fits 3000

  get_last_level_lem : (b : Bytes) (id i p : ℕ) → Preserves I (get_last_level b id i p)
  unfolding get_last_level
  get_last_level_lem b id i p = search (steps, read_data_block_lem) depth 12 fits 3000

  get_single_lem : (node : Inode) (k p : ℕ) → Preserves I (get_single node k p)
  unfolding get_single
  get_single_lem node k p = search (steps, read_data_block_lem) depth 12 fits 3000

  get_double_lem : (node : Inode) (k p : ℕ) → Preserves I (get_double node k p)
  unfolding get_double
  get_double_lem node k p =
      search (steps, get_cached_lem, get_last_level_lem, read_data_block_lem) depth 12 fits 3000

  get_triple_lem : (node : Inode) (k p : ℕ) → Preserves I (get_triple node k p)
  unfolding get_triple
  get_triple_lem node k p =
      search (steps, get_cached_lem, get_last_level_lem, read_data_block_lem) depth 12 fits 3000

  pub get_datablock_from_inode_lem :
      (node : Inode) (k p : ℕ) → Preserves I (get_datablock_from_inode node k p)
  unfolding get_datablock_from_inode
  get_datablock_from_inode_lem node k p =
      search (steps, get_single_lem, get_double_lem, get_triple_lem) depth 12 fits 3000

  pub past_zero_lem : (r : Search) → Preserves I (past_zero r)
  past_zero_lem broken = pure_lem
  past_zero_lem absent = undefined_lem
  past_zero_lem (at_record num b offset) = pure_lem

  lookup_loop_lem :
      (rounds k p : ℕ) (dir : Inode) (name : List ℕ) → Preserves I (lookup_loop rounds k p dir name)
  unfolding lookup_loop
  lookup_loop_lem zero k p dir name = pure_lem
  lookup_loop_lem (suc rounds) k p dir name =
      let rest : (p' : ℕ) → Preserves I (lookup_loop rounds (k + 1) p' dir name) =
        λ p'. lookup_loop_lem rounds (k + 1) p' dir name in
      bind (get_datablock_from_inode_lem dir k p) λ (num, p'). branch _ pure_lem (
        bind (read_data_block_lem num) λ read. bind (deref_lem read) λ b.
          branch (load 8 b 0 == 0) (rest p') (
            bind (deref_lem (find_record (block_size + 1) b 8 name)) λ found.
              cases found (rest p')
                λ offset. branch (lt64 0 offset) pure_lem (bind (rest p') past_zero_lem)))

  lookup_in_lem : (dir : Inode) (name : List ℕ) → Preserves I (lookup_in dir name)
  unfolding lookup_in
  lookup_in_lem dir name = search (steps, lookup_loop_lem) depth 12 fits 3000

  get_inode_from_lem : (fuel : ℕ) (path : List ℕ) → Preserves I (get_inode_from fuel path)
  unfolding get_inode_from
  get_inode_from_lem zero path = undefined_lem
  get_inode_from_lem (suc fuel) path = branch _ root_lem (
      bind (get_inode_from_lem fuel _) λ parent. branch _ pure_lem (
        bind (load_inode_from_disk_lem parent)
          λ loaded. cases loaded pure_lem λ dir. bind (deref_lem _) λ name. lookup_in_lem dir name))

  pub get_inode_of_file_lem : (path : List ℕ) → Preserves I (get_inode_of_file path)
  unfolding get_inode_of_file
  get_inode_of_file_lem path = get_inode_from_lem _ path
