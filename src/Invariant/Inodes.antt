-- ===== src/Invariant/Inodes.antt =====
-- The inode list and the directories change the state through the functions of `IsKept` only.
use beach_bytes_file_system.Base.{ℕ, zero, suc, ◌+◌, not, List, ltb, length}
use beach_bytes_file_system.Bytes.{lt64, load, add64}
use beach_bytes_file_system.Config.{Inode, file_name_max_length, inodes_per_block, block_size}
use beach_bytes_file_system.Machine.{Fs}
use beach_bytes_file_system.InodeTable.{
  write_inode_to_disk, scan_block, scan_blocks, get_next_free_inode, create_inode,
  free_all_data_blocks_in_inode, delete_inode,
}
use beach_bytes_file_system.Directory.{
  s_isdir, find_record, has_room, add_loop, add_in_new_block, add_directory_entry, remove_loop,
  Search, broken, absent, at_record, finish_remove, remove_from_directory,
}
use beach_bytes_file_system.Invariant.{
  Preserves, bind, branch, guarded, cases, pure_lem, undefined_lem, deref_lem, get_lem,
}
use beach_bytes_file_system.Invariant.Reads.{
  fs_read_block_lem, read_data_block_lem, get_datablock_from_inode_lem, past_zero_lem,
}
use beach_bytes_file_system.Invariant.Blocks.{
  KeepsInodes, IsKept, add_datablock_to_inode_lem, remove_datablocks_range_lem,
}

module _ {I : Fs → Type 0} where
  scan_blocks_lem : (rounds b : ℕ) → Preserves I (scan_blocks rounds b)
  unfolding scan_blocks
  scan_blocks_lem zero b = pure_lem
  scan_blocks_lem (suc rounds) b = bind (fs_read_block_lem b) λ read. cases read pure_lem λ buffer.
      cases (scan_block inodes_per_block buffer 0) (scan_blocks_lem rounds (b + 1))
        λ offset. pure_lem

  get_next_free_inode_lem : Preserves I get_next_free_inode
  unfolding get_next_free_inode
  get_next_free_inode_lem = scan_blocks_lem _ _

module _ {I : Fs → Type 0} (k : KeepsInodes I) where
  pub write_inode_to_disk_lem : (n : ℕ) (node : Inode) → Preserves I (write_inode_to_disk n node)
  unfolding write_inode_to_disk
  write_inode_to_disk_lem n node =
      guarded _
        (λ h. bind (fs_read_block_lem _) λ read. cases read pure_lem λ buffer. k.write_inode n _ h)
        pure_lem

module _ {I : Fs → Type 0} (k : IsKept I) where
  pub create_inode_lem : Preserves I create_inode
  unfolding create_inode
  create_inode_lem = bind get_next_free_inode_lem λ n.
      guarded _
        (λ h. bind (fs_read_block_lem _) λ read.
          cases read pure_lem λ buffer. bind (k.inodes.write_inode n _ h) λ written. pure_lem)
        pure_lem

  free_all_lem : (node : Inode) → Preserves I (free_all_data_blocks_in_inode node)
  unfolding free_all_data_blocks_in_inode
  free_all_lem node = remove_datablocks_range_lem k node 0

  pub delete_inode_lem : (n : ℕ) → Preserves I (delete_inode n)
  unfolding delete_inode
  delete_inode_lem n =
      guarded _
        (λ h. bind (fs_read_block_lem _) λ read.
          cases read pure_lem
            λ buffer. bind (free_all_lem _) λ r. branch _ (k.inodes.write_inode n _ h) pure_lem)
        pure_lem

  add_loop_lem :
      (rounds l p : ℕ) (dir : Inode) (child : ℕ) (name : List ℕ)
      → Preserves I (add_loop rounds l p dir child name)
  unfolding add_loop
  add_loop_lem zero l p dir child name = pure_lem
  add_loop_lem (suc rounds) l p dir child name =
      let rest : (q : ℕ) → Preserves I (add_loop rounds (l + 1) q dir child name) =
        λ q. add_loop_lem rounds (l + 1) q dir child name in
      bind (get_datablock_from_inode_lem dir l p) λ (num, q). branch _ pure_lem (
        bind (read_data_block_lem num) λ read. bind (deref_lem read) λ b.
          branch (has_room b (length name + 1))
            (branch (ltb (add64 8 (load 8 b 0)) block_size)
              (bind (k.write_data num _) λ written. pure_lem) undefined_lem)
            (rest q))

  add_in_new_block_lem :
      (dir : Inode) (child : ℕ) (name : List ℕ) → Preserves I (add_in_new_block dir child name)
  unfolding add_in_new_block
  add_in_new_block_lem dir child name = bind k.allocate λ num. branch _ pure_lem (
      bind (k.write_data num _)
        λ written. branch _ (bind (add_datablock_to_inode_lem k dir num) λ r. pure_lem) pure_lem)

  pub add_directory_entry_lem :
      (dir : Inode) (child : ℕ) (name : List ℕ) → Preserves I (add_directory_entry dir child name)
  unfolding add_directory_entry
  add_directory_entry_lem dir child name = branch (not (s_isdir dir.i_mode)) pure_lem (
      branch (ltb file_name_max_length (length name)) pure_lem (
        bind (add_loop_lem _ _ _ dir child name)
          λ found. cases found (add_in_new_block_lem dir child name) λ changed. pure_lem))

  remove_loop_lem :
      (rounds l p : ℕ) (dir : Inode) (name : List ℕ) → Preserves I (remove_loop rounds l p dir name)
  unfolding remove_loop
  remove_loop_lem zero l p dir name = pure_lem
  remove_loop_lem (suc rounds) l p dir name =
      let rest : (q : ℕ) → Preserves I (remove_loop rounds (l + 1) q dir name) =
        λ q. remove_loop_lem rounds (l + 1) q dir name in
      bind (get_datablock_from_inode_lem dir l p) λ (num, q). branch _ pure_lem (
        bind (read_data_block_lem num) λ read. cases read (rest q) λ b.
          bind (deref_lem (find_record (block_size + 1) b 8 name)) λ found.
            cases found (rest q)
              λ offset. branch (lt64 0 offset) pure_lem (bind (rest q) past_zero_lem))

  finish_remove_lem : (dir : Inode) (r : Search) → Preserves I (finish_remove dir r)
  unfolding finish_remove
  finish_remove_lem dir broken = pure_lem
  finish_remove_lem dir absent = pure_lem
  finish_remove_lem dir (at_record num b offset) =
      bind (k.write_data num _) λ u. bind get_lem λ s. pure_lem

  pub remove_from_directory_lem :
      (dir : Inode) (name : List ℕ) → Preserves I (remove_from_directory dir name)
  unfolding remove_from_directory
  remove_from_directory_lem dir name = branch (not (s_isdir dir.i_mode)) pure_lem (
      branch (ltb file_name_max_length (length name)) pure_lem
        (bind (remove_loop_lem _ _ _ dir name) λ r. finish_remove_lem dir r))
