-- ===== src/Invariant/Requests.antt =====
-- The operations behind the other requests: truncate, open, access, rename, utimens, getattr and readdir.
use beach_bytes_file_system.Base.{
  ℕ, zero, suc, ◌+◌, ◌-◌, ◌%◌, Bool, true, false, not, ◌&&◌, List, ltb, leb, ◌==◌,
}
use beach_bytes_file_system.Bytes.{Bytes, load, minus_one, add64, lt64, le64}
use beach_bytes_file_system.Config.{Inode, block_size, record_fixed_len, record_length}
use beach_bytes_file_system.Machine.{Fs}
use beach_bytes_file_system.Directory.{s_isdir}
use beach_bytes_file_system.FileOps.{edquot, owner_writes}
use beach_bytes_file_system.FileOpen.{
  grow_to, last_block, clear_tail, set_size, shrink_to, fs_truncate, wants_read, wants_write,
  wants_truncate, wants_create, owner_reads, truncate_opened, open_inode, fs_open_file, fs_access,
  drop_old_name, add_new_name, move_entry, fs_rename,
}
use beach_bytes_file_system.FileStat.{fs_getattr, readdir_block, readdir_loop, fs_readdir}
use beach_bytes_file_system.Fuse.{TimeSpec, fioc_utimens}
use beach_bytes_file_system.Invariant.{
  Preserves, bind, branch, cases, pure_lem, undefined_lem, deref_lem, get_lem,
}
use beach_bytes_file_system.Invariant.Reads.{
  read_data_block_lem, get_datablock_from_inode_lem, load_inode_from_disk_lem,
  get_inode_of_file_lem,
}
use beach_bytes_file_system.Invariant.Blocks.{KeepsInodes, IsKept, remove_datablocks_range_lem}
use beach_bytes_file_system.Invariant.Inodes.{
  write_inode_to_disk_lem, add_directory_entry_lem, remove_from_directory_lem,
}
use beach_bytes_file_system.Invariant.Files.{
  now_lem, create_new_file_lem, fs_unlink_lem, fs_write_lem,
}

module _ {I : Fs → Type 0} where
  pub fs_access_lem : (path : List ℕ) → Preserves I (fs_access path)
  unfolding fs_access
  fs_access_lem path = bind (get_inode_of_file_lem path) λ n. pure_lem

  module _ (uid gid : ℕ) where
    pub fs_getattr_lem : (path : List ℕ) → Preserves I (fs_getattr uid gid path)
    unfolding fs_getattr
    fs_getattr_lem path = bind (get_inode_of_file_lem path) λ n.
        branch _ pure_lem
          (bind (load_inode_from_disk_lem n) λ loaded. cases loaded pure_lem λ node. pure_lem)

    readdir_block_lem :
        (rounds : ℕ) (b : Bytes) (offset : ℕ) → Preserves I (readdir_block uid gid rounds b offset)
    unfolding readdir_block
    readdir_block_lem zero b offset = undefined_lem
    readdir_block_lem (suc rounds) b offset =
        let rec_len = load 2 b offset in
        branch (not (ltb offset (block_size - record_fixed_len))) pure_lem (
          branch (rec_len == 0) pure_lem (
            branch
              (not (
                leb (offset + record_fixed_len + (rec_len + 65536 - record_fixed_len) % 65536)
                  block_size))
              undefined_lem
              (bind (load_inode_from_disk_lem (load 8 b (offset + record_length))) λ loaded.
                cases loaded pure_lem
                  λ node. bind (readdir_block_lem rounds b (offset + rec_len)) λ r. pure_lem)))

    readdir_loop_lem :
        (rounds i p : ℕ) (node : Inode) → Preserves I (readdir_loop uid gid rounds i p node)
    unfolding readdir_loop
    readdir_loop_lem zero i p node = pure_lem
    readdir_loop_lem (suc rounds) i p node =
        bind (get_datablock_from_inode_lem node i p) λ (num, q).
          bind (read_data_block_lem num) λ found. bind (deref_lem found) λ b.
            bind (readdir_block_lem _ b _) λ (calls, completed).
              branch completed (bind (readdir_loop_lem rounds (i + 1) q node) λ r. pure_lem)
                pure_lem

    pub fs_readdir_lem : (path : List ℕ) → Preserves I (fs_readdir uid gid path)
    unfolding fs_readdir
    fs_readdir_lem path = bind (get_inode_of_file_lem path) λ n. branch _ pure_lem (
        bind (load_inode_from_disk_lem n) λ loaded. cases loaded pure_lem λ node.
          branch (s_isdir node.i_mode) (bind (readdir_loop_lem _ _ _ node) λ r. pure_lem) pure_lem)

module _ {I : Fs → Type 0} (k : KeepsInodes I) where
  pub fioc_utimens_lem : (path : List ℕ) (a m : TimeSpec) → Preserves I (fioc_utimens path a m)
  unfolding fioc_utimens
  fioc_utimens_lem path a m = bind (get_inode_of_file_lem path) λ n. branch _ pure_lem (
      bind (load_inode_from_disk_lem n) λ loaded.
        cases loaded pure_lem
          λ node. bind get_lem λ s. bind (write_inode_to_disk_lem k n _) λ written. pure_lem)

module _ {I : Fs → Type 0} (k : IsKept I) where
  grow_to_lem : (path : List ℕ) (node : Inode) (n : ℕ) → Preserves I (grow_to path node n)
  unfolding grow_to
  grow_to_lem path node n = bind (fs_write_lem k path _ _ _) λ r. pure_lem

  clear_tail_lem : (node : Inode) (n : ℕ) → Preserves I (clear_tail node n)
  unfolding clear_tail
  clear_tail_lem node n = bind (get_datablock_from_inode_lem node _ _) λ (num, q).
      branch (le64 num 0) pure_lem (
        bind (read_data_block_lem num) λ found.
          branch ((n - 1) % block_size == block_size - 1) pure_lem
            (bind (deref_lem found) λ b. bind (k.write_data num _) λ u. pure_lem))

  set_size_lem : (n : ℕ) (node : Inode) (size : ℕ) → Preserves I (set_size n node size)
  unfolding set_size
  set_size_lem n node size = bind (write_inode_to_disk_lem k.inodes n _) λ u. pure_lem

  shrink_to_lem : (n : ℕ) (node : Inode) (size : ℕ) → Preserves I (shrink_to n node size)
  unfolding shrink_to
  shrink_to_lem n node size =
      bind
        (branch (lt64 (add64 (last_block size) 1) node.blocks)
          (remove_datablocks_range_lem k node (add64 (last_block size) 1))
          (pure_lem {a = (true, node)}))
        λ (ok, node'). branch (last_block size == minus_one) (set_size_lem n node' 0) (
          bind (clear_tail_lem node' size)
            λ found. branch found (set_size_lem n node' size) pure_lem)

  pub fs_truncate_lem : (path : List ℕ) (size : ℕ) → Preserves I (fs_truncate path size)
  unfolding fs_truncate
  fs_truncate_lem path size = bind (get_inode_of_file_lem path) λ n. branch _ pure_lem (
      bind (load_inode_from_disk_lem n) λ loaded. cases loaded pure_lem λ node.
        branch (not (owner_writes node.i_mode)) pure_lem (
          branch (lt64 size 0) pure_lem (
            branch (size == 0 && node.file_size == 0) pure_lem (
              branch (lt64 node.file_size size) (grow_to_lem path node size)
                (shrink_to_lem n node size)))))

  truncate_opened_lem :
      (path : List ℕ) (n : ℕ) (node : Inode) (created : Bool)
      → Preserves I (truncate_opened path n node created)
  unfolding truncate_opened
  truncate_opened_lem path n node created = bind (fs_truncate_lem path 0) λ r.
      branch (r == minus_one) pure_lem (
        branch created pure_lem (
          bind now_lem λ t.
            bind (write_inode_to_disk_lem k.inodes n (record node { ctime = t; mtime = t }))
              λ u. pure_lem {a = n}))

  open_inode_lem :
      (path : List ℕ) (flags n : ℕ) (created : Bool) → Preserves I (open_inode path flags n created)
  unfolding open_inode
  open_inode_lem path flags n created = bind (load_inode_from_disk_lem n) λ loaded.
      cases loaded pure_lem λ node.
        branch (wants_read flags && not (owner_reads node.i_mode)) pure_lem (
          branch (wants_write flags && not (owner_writes node.i_mode)) pure_lem (
            branch (wants_truncate flags && owner_writes node.i_mode)
              (truncate_opened_lem path n node created) pure_lem))

  pub fs_open_file_lem : (path : List ℕ) (flags : ℕ) → Preserves I (fs_open_file path flags)
  unfolding fs_open_file
  fs_open_file_lem path flags = bind (get_inode_of_file_lem path) λ n.
      branch (not (n == minus_one)) (open_inode_lem path flags n false) (
        branch (wants_create flags)
          (bind (create_new_file_lem k path _) λ file.
            branch (le64 file.result minus_one) pure_lem
              (open_inode_lem path flags file.result true))
          pure_lem)

  drop_old_name_lem : (path : List ℕ) (t : ℕ) → Preserves I (drop_old_name path t)
  unfolding drop_old_name
  drop_old_name_lem path t = bind (get_inode_of_file_lem _) λ p. branch _ pure_lem (
      bind (load_inode_from_disk_lem p) λ loaded. cases loaded pure_lem λ parent.
        bind (deref_lem _) λ name.
          bind (remove_from_directory_lem k parent name) λ (removed, parent1).
            branch removed (bind (write_inode_to_disk_lem k.inodes p _) λ written. pure_lem)
              pure_lem)

  add_new_name_lem :
      (from to : List ℕ) (p : ℕ) (parent : Inode) → Preserves I (add_new_name from to p parent)
  unfolding add_new_name
  add_new_name_lem from to p parent = bind (deref_lem _) λ name.
      bind (get_inode_of_file_lem from) λ n.
        bind (add_directory_entry_lem k parent n name) λ (added, parent1).
          branch added
            (bind now_lem λ t.
              bind (write_inode_to_disk_lem k.inodes p (record parent1 { mtime = t; ctime = t }))
                λ written. branch written (drop_old_name_lem from t) (pure_lem {a = minus_one}))
            (pure_lem {a = edquot})

  move_entry_lem : (from to : List ℕ) → Preserves I (move_entry from to)
  unfolding move_entry
  move_entry_lem from to = bind (get_inode_of_file_lem _) λ p. branch _ pure_lem (
      bind (load_inode_from_disk_lem p) λ loaded.
        cases loaded pure_lem
          λ parent. branch (s_isdir parent.i_mode) (add_new_name_lem from to p parent) pure_lem)

  pub fs_rename_lem : (from to : List ℕ) → Preserves I (fs_rename from to)
  unfolding fs_rename
  fs_rename_lem from to = bind (fs_access_lem from) λ there.
      branch (there == 0)
        (bind (fs_access_lem to) λ taken.
          branch (taken == 0)
            (bind (fs_unlink_lem k to) λ r. branch (r == 0) (move_entry_lem from to) pure_lem)
            (move_entry_lem from to))
        pure_lem
