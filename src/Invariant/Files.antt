-- ===== src/Invariant/Files.antt =====
-- The operations on files, one after the other, keep what the functions of `IsKept` keep.
use beach_bytes_file_system.Base.{ℕ, zero, suc, ◌+◌, not, List, ◌==◌, if◌then◌else◌}
use beach_bytes_file_system.Machine.{Fs}
use beach_bytes_file_system.Bytes.{Bytes, add64, minus_one, le64, lt64}
use beach_bytes_file_system.Config.{Inode}
use beach_bytes_file_system.Directory.{s_isdir}
use beach_bytes_file_system.FileOps.{
  edquot, no_file, owner_writes, now, NodePtr, null, freed, node_at, free_node, inode_of, add_dots,
  fill_new_file, add_child, create_new_file, fs_chmod, fs_mknod, fs_mkdir, drop_link, unlink_from,
  fs_unlink,
}
use beach_bytes_file_system.FileRead.{
  Span, read_file_block, read_loop, read_round, read_blocks, read_inode_at, fs_read,
}
use beach_bytes_file_system.FileWrite.{
  Extent, overwrite_round, old_contents, overwrite_loop, append_round, append_loop, finish_write,
  write_inode_at, fs_write,
}
use beach_bytes_file_system.Invariant.{
  Preserves, bind, branch, cases, pure_lem, undefined_lem, deref_lem, get_lem,
}
use beach_bytes_file_system.Invariant.Reads.{
  read_data_block_lem, get_datablock_from_inode_lem, load_inode_from_disk_lem,
  get_inode_of_file_lem,
}
use beach_bytes_file_system.Invariant.Blocks.{KeepsInodes, IsKept, add_datablock_to_inode_lem}
use beach_bytes_file_system.Invariant.Inodes.{
  write_inode_to_disk_lem, create_inode_lem, delete_inode_lem, add_directory_entry_lem,
  remove_from_directory_lem,
}

module _ {I : Fs → Type 0} where
  pub now_lem : Preserves I now
  now_lem = bind get_lem λ s. pure_lem

  no_file_lem : (r : ℕ) (p : NodePtr) → Preserves I (no_file r p)
  no_file_lem r p = pure_lem

  free_node_lem : (p : NodePtr) → Preserves I (free_node p)
  free_node_lem null = pure_lem
  free_node_lem freed = undefined_lem
  free_node_lem (node_at node) = pure_lem

  read_file_block_lem : (node : Inode) (i p : ℕ) → Preserves I (read_file_block node i p)
  unfolding read_file_block
  read_file_block_lem node i p = bind (get_datablock_from_inode_lem node i p) λ (num, q).
      branch _ pure_lem (bind (read_data_block_lem num) λ read. cases read pure_lem λ b. pure_lem)

  read_loop_lem :
      (rounds i : ℕ) (node : Inode) (span : Span) (p : ℕ) (buff : Bytes) (n : ℕ)
      → Preserves I (read_loop rounds i node span p buff n)
  unfolding read_loop
  read_loop_lem zero i node span p buff n = pure_lem
  read_loop_lem (suc rounds) i node span p buff n =
      bind (read_file_block_lem node (span.start_i_block + i) p) λ read.
        cases read pure_lem λ (b, q).
          read_loop_lem rounds (i + 1) node span q (read_round span i b buff n).0
            (read_round span i b buff n).1

  read_blocks_lem :
      (node : Inode) (offset n : ℕ) (buff : Bytes) → Preserves I (read_blocks node offset n buff)
  unfolding read_blocks
  read_blocks_lem node offset n buff =
      branch _ (bind (read_file_block_lem _ _ _) λ read. cases read pure_lem λ r. pure_lem)
        (read_loop_lem _ _ _ _ _ _ _)

  old_contents_lem : (e : Extent) (i n : ℕ) → Preserves I (old_contents e i n)
  unfolding old_contents
  old_contents_lem e i n = branch _ pure_lem (read_data_block_lem n)

module _ {I : Fs → Type 0} (k : KeepsInodes I) where
  pub fs_chmod_lem : (path : List ℕ) (mode : ℕ) → Preserves I (fs_chmod path mode)
  unfolding fs_chmod
  fs_chmod_lem path mode = bind (get_inode_of_file_lem path) λ n. branch _ pure_lem (
      bind (load_inode_from_disk_lem n)
        λ loaded. cases loaded pure_lem λ node. bind (write_inode_to_disk_lem k n _) λ w. pure_lem)

  read_inode_at_lem :
      (n : ℕ) (node : Inode) (buff : Bytes) (count offset : ℕ)
      → Preserves I (read_inode_at n node buff count offset)
  unfolding read_inode_at
  read_inode_at_lem n node buff count offset = branch (node.file_size == 0) pure_lem (
      branch (le64 node.file_size offset) pure_lem (
        bind (read_blocks_lem _ _ _ _) λ (out, done).
          cases done pure_lem
            λ got. bind get_lem λ s. bind (write_inode_to_disk_lem k n _) λ u. pure_lem))

  pub fs_read_lem :
      (path : List ℕ) (buff : Bytes) (count offset : ℕ)
      → Preserves I (fs_read path buff count offset)
  unfolding fs_read
  fs_read_lem path buff count offset = branch (count == 0) pure_lem (
      branch (lt64 offset 0) pure_lem (
        bind (get_inode_of_file_lem path) λ n. branch _ pure_lem (
          bind (load_inode_from_disk_lem n)
            λ loaded. bind (deref_lem loaded) λ node. read_inode_at_lem n node _ _ _)))

module _ {I : Fs → Type 0} (k : IsKept I) where
  add_dots_lem : (dir : Inode) (n p : ℕ) → Preserves I (add_dots dir n p)
  unfolding add_dots
  add_dots_lem dir n p =
      bind (add_directory_entry_lem k dir n _)
        λ r. branch _ (add_directory_entry_lem k _ p _) pure_lem

  fill_new_file_lem : (c p mode t : ℕ) → Preserves I (fill_new_file c p mode t)
  unfolding fill_new_file
  fill_new_file_lem c p mode t = bind (load_inode_from_disk_lem c) λ loaded.
      cases loaded pure_lem
        λ node. bind (write_inode_to_disk_lem k.inodes c _) λ written. branch _ pure_lem pure_lem

  add_child_lem :
      (parent : Inode) (p : ℕ) (name : List ℕ) (mode : ℕ)
      → Preserves I (add_child parent p name mode)
  unfolding add_child
  add_child_lem parent p name mode = bind (create_inode_lem k) λ c. branch _ pure_lem (
      bind (add_directory_entry_lem k parent c name) λ r.
        branch r.0
          (bind now_lem λ t.
            bind (write_inode_to_disk_lem k.inodes p (record r.1 { mtime = t; ctime = t }))
              λ written. branch written (fill_new_file_lem c p mode t) (no_file_lem minus_one null))
          (bind (delete_inode_lem k c) λ u. no_file_lem edquot null))

  pub create_new_file_lem : (path : List ℕ) (mode : ℕ) → Preserves I (create_new_file path mode)
  unfolding create_new_file
  create_new_file_lem path mode = bind (get_inode_of_file_lem _) λ p. branch _ pure_lem (
      bind (load_inode_from_disk_lem p) λ loaded. cases loaded pure_lem λ parent.
        branch (not (s_isdir parent.i_mode)) pure_lem (
          branch (not (owner_writes parent.i_mode)) pure_lem
            (bind (deref_lem _) λ name. add_child_lem parent p name mode)))

  pub fs_mknod_lem : (path : List ℕ) (mode : ℕ) → Preserves I (fs_mknod path mode)
  unfolding fs_mknod
  fs_mknod_lem path mode = bind (get_inode_of_file_lem path) λ n.
      branch _
        (bind (create_new_file_lem path mode) λ file. bind (free_node_lem file.buff) λ u. pure_lem)
        pure_lem

  pub fs_mkdir_lem : (path : List ℕ) (mode : ℕ) → Preserves I (fs_mkdir path mode)
  unfolding fs_mkdir
  fs_mkdir_lem path mode = bind (get_inode_of_file_lem path) λ n.
      branch _
        (bind (create_new_file_lem path _) λ file.
          branch _ (bind (free_node_lem file.buff) λ u. pure_lem) (
            bind (deref_lem (inode_of file.buff)) λ node.
              bind (add_dots_lem node _ _)
                λ r. branch _ (write_inode_to_disk_lem k.inodes _ _) pure_lem))
        pure_lem

  drop_link_lem :
      (n : ℕ) (node : Inode) (p : ℕ) (parent : Inode) → Preserves I (drop_link n node p parent)
  unfolding drop_link
  drop_link_lem n node p parent =
      bind (branch _ (delete_inode_lem k n) (write_inode_to_disk_lem k.inodes n _))
        λ u. bind (write_inode_to_disk_lem k.inodes p parent) λ v. pure_lem

  unlink_from_lem :
      (path name : List ℕ) (n : ℕ) (node : Inode) → Preserves I (unlink_from path name n node)
  unfolding unlink_from
  unlink_from_lem path name n node = bind (get_inode_of_file_lem path) λ p. branch _ pure_lem (
      bind (load_inode_from_disk_lem p) λ loaded. cases loaded pure_lem λ parent.
        bind (remove_from_directory_lem k parent name)
          λ r. branch _ (drop_link_lem n node p _) pure_lem)

  pub fs_unlink_lem : (path : List ℕ) → Preserves I (fs_unlink path)
  unfolding fs_unlink
  fs_unlink_lem path = bind (get_inode_of_file_lem path) λ n. bind get_lem λ s.
      branch (n == minus_one) pure_lem (
        branch (n == s.root_dir_inode_num) pure_lem (
          bind (deref_lem _) λ name. bind (load_inode_from_disk_lem n) λ loaded.
            cases loaded pure_lem λ node. branch _ pure_lem (unlink_from_lem _ name n node)))

  overwrite_loop_lem :
      (rounds i : ℕ) (node : Inode) (e : Extent) (p : ℕ) (buff : Bytes) (n : ℕ)
      → Preserves I (overwrite_loop rounds i node e p buff n)
  unfolding overwrite_loop
  overwrite_loop_lem zero i node e p buff n = pure_lem
  overwrite_loop_lem (suc rounds) i node e p buff n =
      bind (get_datablock_from_inode_lem node i p) λ (num, q). branch _ pure_lem (
        bind (old_contents_lem e i num) λ read. cases read pure_lem λ b.
          bind (k.write_data num _) λ written. branch (not written) pure_lem (
            branch (i == e.end_i_block) pure_lem
              (overwrite_loop_lem rounds (i + 1) node e q buff (overwrite_round e i b buff n).1)))

  append_loop_lem :
      (rounds i : ℕ) (node : Inode) (e : Extent) (buff : Bytes) (n : ℕ)
      → Preserves I (append_loop rounds i node e buff n)
  unfolding append_loop
  append_loop_lem zero i node e buff n = pure_lem
  append_loop_lem (suc rounds) i node e buff n =
      let rest : (node' : Inode)
          → Preserves I (append_loop rounds (i + 1) node' e buff (append_round e i buff n).1) =
        λ node'. append_loop_lem rounds (i + 1) node' e buff (append_round e i buff n).1 in
      bind k.allocate λ num. branch (le64 num 0) pure_lem (
        bind (add_datablock_to_inode_lem k node num) λ (added, node'). branch (not added) pure_lem (
          branch (le64 e.starting_block i)
            (bind (k.write_data num _) λ written. branch written (rest node') pure_lem)
            (rest node')))

  finish_write_lem :
      (n : ℕ) (node : Inode) (offset count : ℕ) → Preserves I (finish_write n node offset count)
  unfolding finish_write
  finish_write_lem n node offset count = bind now_lem λ t.
      bind
        (write_inode_to_disk_lem k.inodes n (record node {
          file_size = add64 offset count;
          mtime = if count == 0 then node.mtime else t;
        }))
        λ written. pure_lem {a = if written then count else minus_one}

  write_inode_at_lem :
      (n : ℕ) (node : Inode) (buff : Bytes) (count offset : ℕ)
      → Preserves I (write_inode_at n node buff count offset)
  unfolding write_inode_at
  write_inode_at_lem n node buff count offset =
      bind (overwrite_loop_lem _ _ node _ _ buff _) λ (written, completed).
        branch completed
          (bind (append_loop_lem _ _ node _ buff _) λ (node', total). finish_write_lem n node' _ _)
          pure_lem

  pub fs_write_lem :
      (path : List ℕ) (buff : Bytes) (count offset : ℕ)
      → Preserves I (fs_write path buff count offset)
  unfolding fs_write
  fs_write_lem path buff count offset = branch (count == 0) pure_lem (
      branch (lt64 offset 0) pure_lem (
        bind (get_inode_of_file_lem path) λ n. branch _ pure_lem (
          bind (load_inode_from_disk_lem n)
            λ loaded. cases loaded pure_lem λ node. write_inode_at_lem n node buff count offset)))
