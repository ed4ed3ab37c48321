-- ===== src/FileOps.antt =====
-- src/linkFuseAndFS.cpp, the operations on files that change the tree: booting, chmod, mknod, mkdir
-- and unlink. A negative result is the 64-bit pattern of the error number.
pub mod Attributes
pub mod Refused
use beach_bytes_file_system.Base.{
  ℕ, ◌+◌, ◌-◌, ◌/◌, ◌%◌, ◌^◌, Bool, true, false, not, ◌&&◌, ◌||◌, Option, none, some, List, [], ◌∷◌,
  leb, ◌==◌, if◌then◌else◌,
}
use beach_bytes_file_system.Bytes.{minus_one, sub64, lt64, le64}
use beach_bytes_file_system.Config.{Inode}
use beach_bytes_file_system.Machine.{M, Fs, pure, undefined, ◌>>=◌, ◌>>◌, get, deref}
use beach_bytes_file_system.LayerZero.{load_fs}
use beach_bytes_file_system.BlockMap.{Changed}
use beach_bytes_file_system.InodeTable.{
  load_inode_from_disk, write_inode_to_disk, create_inode, delete_inode,
}
use beach_bytes_file_system.FilePath.{copy_parent_path, copy_file_name}
use beach_bytes_file_system.Directory.{
  s_isdir, add_directory_entry, remove_from_directory, get_inode_of_file,
}

-- -ENOENT and its like, with the numbers of Linux
abbrev pub error : ℕ → ℕ
error number = 2 ^ 64 - number

abbrev pub enoent : ℕ
enoent = error 2

abbrev pub eacces : ℕ
eacces = error 13

abbrev pub einval : ℕ
einval = error 22

abbrev pub enotempty : ℕ
enotempty = error 39

abbrev pub edquot : ℕ
edquot = error 122

-- S_IFDIR | mode
abbrev pub dir_mode : ℕ → ℕ
dir_mode mode = if (mode / 16384) % 2 == 1 then mode else mode + 16384

-- DEFAULT_PERMISSIONS is 0775
abbrev pub default_permissions : ℕ
default_permissions = 509

-- mode & S_IWUSR
abbrev pub owner_writes : ℕ → Bool
owner_writes mode = (mode / 128) % 2 == 1

abbrev pub dot : List ℕ
dot = b'.' ∷ []

abbrev pub dot_dot : List ℕ
dot_dot = b'.' ∷ b'.' ∷ []

-- time(NULL), in a field of 32 bits
abbrev pub now : M ℕ
now = do s ← get; pure (s.clock % 2 ^ 32)

abbrev pub set_root : ℕ → M (Unit {0})
set_root inum s = some (tt, record s { root_dir_inode_num = inum })

-- the fields that a new root directory gets
abbrev pub new_root : Inode → ℕ → Inode
new_root node curr_time = record node {
  is_allocated = true;
  link_count = 1;
  i_mode = dir_mode default_permissions;
  blocks = 0;
  file_size = 0;
  atime = curr_time;
  ctime = curr_time;
  mtime = curr_time;
  files_count = 0;
}

-- the entries "." and ".." of a directory that was made
unfoldable pub add_dots : Inode → ℕ → ℕ → M Changed
add_dots dir inum parent_inum = do
  (first, dir1) ← add_directory_entry dir inum dot
  if first then add_directory_entry dir1 parent_inum dot_dot else pure (false, dir1)

unfoldable pub make_root : M Bool
make_root = do
  inum ← create_inode
  set_root inum
  loaded ← load_inode_from_disk inum
  curr_time ← now
  elim loaded [
    | none ↦ pure false
    | some node ↦ do
      (added, dir) ← add_dots (new_root node curr_time) inum inum
      if added then write_inode_to_disk inum dir else pure false
  ]

-- the result of load_FS is ignored
unfoldable pub boot_up_file_sytem : M Bool
boot_up_file_sytem = do
  _ ← load_fs
  s ← get
  loaded ← load_inode_from_disk s.root_dir_inode_num
  elim loaded [
    | none ↦ make_root
    | some dir ↦ if dir.is_allocated && le64 2 dir.files_count then pure true else make_root
  ]

unfoldable pub fs_chmod : List ℕ → ℕ → M ℕ
fs_chmod path mode = do
  inum ← get_inode_of_file path
  if inum == minus_one then pure enoent else (do
    loaded ← load_inode_from_disk inum
    elim loaded [
      | none ↦ pure minus_one
      | some node ↦ do
        written ← write_inode_to_disk inum (record node { i_mode = mode })
        pure (if written then 0 else minus_one)
    ])

-- what the caller's pointer to the new inode is after a call of `create_new_file`
pub data NodePtr : Type 0 where
  null : NodePtr
  freed : NodePtr
  node_at : Inode → NodePtr

-- free(node)
abbrev pub free_node : NodePtr → M (Unit {0})
free_node null = pure tt
free_node freed = undefined
free_node (node_at node) = pure tt

-- The result, the caller's inode pointer, and `*parent_inum`, which only a success sets.
pub record NewFile : Type 0 where
  pub result : ℕ
  pub buff : NodePtr
  pub parent_inum : ℕ

abbrev pub no_file : ℕ → NodePtr → M NewFile
no_file result buff = pure (record { result = result; buff = buff; parent_inum = 0 })

abbrev pub new_file : Inode → ℕ → ℕ → Inode
new_file node mode curr_time = record node {
  link_count = 1;
  i_mode = mode;
  blocks = 0;
  file_size = 0;
  atime = curr_time;
  mtime = curr_time;
  ctime = curr_time;
  files_count = 0;
}

-- the new inode is read and filled in; when it cannot be written it is freed
unfoldable pub fill_new_file : ℕ → ℕ → ℕ → ℕ → M NewFile
fill_new_file child_inode_num parent_inode_num mode curr_time = do
  loaded ← load_inode_from_disk child_inode_num
  elim loaded [
    | none ↦ no_file minus_one null
    | some node ↦ do
      let node1 = new_file node mode curr_time in
          do
            written ← write_inode_to_disk child_inode_num node1
            if written
                then pure (record {
                  result = child_inode_num;
                  buff = node_at node1;
                  parent_inum = parent_inode_num;
                })
                else no_file minus_one freed
  ]

-- an inode for the child, and its entry in the parent
unfoldable pub add_child : Inode → ℕ → List ℕ → ℕ → M NewFile
add_child parent_inode parent_inode_num child_name mode = do
  child_inode_num ← create_inode
  if child_inode_num == minus_one then no_file edquot null else (do
    (added, parent1) ← add_directory_entry parent_inode child_inode_num child_name
    if added
        then (do
          curr_time ← now
          written ←
              write_inode_to_disk parent_inode_num
                (record parent1 { mtime = curr_time; ctime = curr_time })
          if written
              then fill_new_file child_inode_num parent_inode_num mode curr_time
              else no_file minus_one null)
        else (do _ ← delete_inode child_inode_num; no_file edquot null))

unfoldable pub create_new_file : List ℕ → ℕ → M NewFile
create_new_file path mode = do
  parent_inode_num ← get_inode_of_file (copy_parent_path path)
  if parent_inode_num == minus_one then no_file enoent null else (do
    loaded ← load_inode_from_disk parent_inode_num
    elim loaded [
      | none ↦ no_file enoent null
      | some parent_inode ↦
          if not (s_isdir parent_inode.i_mode)
          then no_file enoent null
          else if not (owner_writes parent_inode.i_mode)
          then no_file eacces null
          else do
            child_name ← deref (copy_file_name path)
            add_child parent_inode parent_inode_num child_name mode
    ])

unfoldable pub fs_mknod : List ℕ → ℕ → M Bool
fs_mknod path mode = do
  inum ← get_inode_of_file path
  if inum == minus_one
      then (do
        file ← create_new_file path mode
        free_node file.buff
        pure (if le64 file.result minus_one then false else true))
      else pure false

-- the directory that `create_new_file` made, when it made one
abbrev pub inode_of : NodePtr → Option Inode
inode_of null = none
inode_of freed = none
inode_of (node_at node) = some node

unfoldable pub fs_mkdir : List ℕ → ℕ → M Bool
fs_mkdir path mode = do
  inum ← get_inode_of_file path
  if inum == minus_one
      then (do
        file ← create_new_file path (dir_mode mode)
        if le64 file.result minus_one then (do free_node file.buff; pure false) else (do
          node ← deref (inode_of file.buff)
          (added, dir) ← add_dots node file.result file.parent_inum
          if added then write_inode_to_disk file.result dir else pure false))
      else pure false

abbrev pub is_empty_dir : Inode → Bool
is_empty_dir dir = not (lt64 2 dir.files_count)

-- the last lines of fs_unlink, which ignore the results of the writes
unfoldable pub drop_link : ℕ → Inode → ℕ → Inode → M ℕ
drop_link inum node parent_inum parent =
    let node1 = record node { link_count = sub64 node.link_count 1 } in
    do
      _ ← (if node1.link_count == 0 then delete_inode inum else write_inode_to_disk inum node1)
      _ ← write_inode_to_disk parent_inum parent
      pure 0

unfoldable pub unlink_from : List ℕ → List ℕ → ℕ → Inode → M ℕ
unlink_from parent_path child_name inum node = do
  parent_inum ← get_inode_of_file parent_path
  if parent_inum == minus_one then pure minus_one else (do
    loaded ← load_inode_from_disk parent_inum
    elim loaded [
      | none ↦ pure enotempty
      | some parent ↦ do
        (removed, parent1) ← remove_from_directory parent child_name
        if removed then drop_link inum node parent_inum parent1 else pure minus_one
    ])

unfoldable pub fs_unlink : List ℕ → M ℕ
fs_unlink path = do
  inum ← get_inode_of_file path
  s ← get
  if inum == minus_one
      then pure enoent
      else if inum == s.root_dir_inode_num
      then pure eacces
      else do
        child_name ← deref (copy_file_name path)
        loaded ← load_inode_from_disk inum
        elim loaded [
          | none ↦ pure einval
          | some node ↦
              if s_isdir node.i_mode && not (is_empty_dir node)
              then pure enotempty
              else unlink_from (copy_parent_path path) child_name inum node
        ]
