-- ===== src/FileOpen.antt =====
-- src/linkFuseAndFS.cpp, the operations that stand on those of FileOps and FileWrite: truncate, open,
-- access, rename and destroy.
pub mod Truncate
pub mod Reopen
use beach_bytes_file_system.Base.{
  ℕ, zero, suc, ◌+◌, ◌-◌, ◌*◌, ◌/◌, ◌%◌, ◌^◌, Bool, true, false, not, ◌&&◌, ◌||◌, Option, none,
  some, List, ltb, ◌==◌, if◌then◌else◌,
}
use beach_bytes_file_system.Bytes.{Bytes, zeros, copy, minus_one, add64, sub64, lt64, le64}
use beach_bytes_file_system.Config.{Inode, block_size}
use beach_bytes_file_system.Machine.{M, Fs, pure, ◌>>=◌, ◌>>◌, get, deref}
use beach_bytes_file_system.LayerZero.{restart_disk}
use beach_bytes_file_system.DataBlock.{read_data_block, write_data_block}
use beach_bytes_file_system.BlockMap.{get_datablock_from_inode}
use beach_bytes_file_system.Reclaim.{remove_datablocks_range_from_inode}
use beach_bytes_file_system.InodeTable.{load_inode_from_disk, write_inode_to_disk}
use beach_bytes_file_system.FilePath.{copy_parent_path, copy_file_name}
use beach_bytes_file_system.Directory.{
  s_isdir, add_directory_entry, remove_from_directory, get_inode_of_file,
}
use beach_bytes_file_system.FileOps.{
  now, enoent, eacces, einval, edquot, owner_writes, default_permissions, create_new_file,
  fs_unlink,
}
use beach_bytes_file_system.FileWrite.{fs_write}

-- the file grows by a write of zeros at its end
unfoldable pub grow_to : List ℕ → Inode → ℕ → M ℕ
grow_to path node length =
    let bytes_to_add = sub64 length node.file_size in
    do
      written ← fs_write path zeros bytes_to_add node.file_size
      pure (if written == bytes_to_add then 0 else minus_one)

-- the last block that stays; -1 when none does
abbrev pub last_block : ℕ → ℕ
last_block length = if length == 0 then minus_one else (length - 1) / block_size

-- what stands behind the new end in the last block is cleared; the result of the write is ignored
unfoldable pub clear_tail : Inode → ℕ → M Bool
clear_tail node length = do
  (d_block_num, prev) ← get_datablock_from_inode node (last_block length) 0
  if le64 d_block_num 0 then pure false else (do
    read ← read_data_block d_block_num
    if (length - 1) % block_size == block_size - 1 then pure true else (do
      b ← deref read
      _ ← write_data_block d_block_num (
          copy b ((length - 1) % block_size + 1) zeros 0
            (block_size - (length - 1) % block_size - 1))
      pure true))

-- node->fileSize = length, and the inode is written; the result of the write is ignored
unfoldable pub set_size : ℕ → Inode → ℕ → M ℕ
set_size inum node length = do
  _ ← write_inode_to_disk inum (record node { file_size = length })
  pure 0

unfoldable pub shrink_to : ℕ → Inode → ℕ → M ℕ
shrink_to inum node length =
    let first_gone = add64 (last_block length) 1 in
    do
      (_, node') ←
          (if lt64 first_gone node.blocks
            then remove_datablocks_range_from_inode node first_gone
            else pure (true, node))
      if last_block length == minus_one then set_size inum node' 0 else (do
        found ← clear_tail node' length
        if found then set_size inum node' length else pure minus_one)

unfoldable pub fs_truncate : List ℕ → ℕ → M ℕ
fs_truncate path length = do
  inum ← get_inode_of_file path
  if inum == minus_one then pure enoent else (do
    loaded ← load_inode_from_disk inum
    elim loaded [
      | none ↦ pure eacces
      | some node ↦
          if not (owner_writes node.i_mode)
          then pure eacces
          else if lt64 length 0
          then pure einval
          else if length == 0 && node.file_size == 0
          then pure 0
          else if lt64 node.file_size length
          then grow_to path node length
          else shrink_to inum node length
    ])

-- the flags of <fcntl.h>: O_WRONLY, O_RDWR, O_CREAT and O_TRUNC; O_RDONLY is 0
abbrev pub wants_write : ℕ → Bool
wants_write oflag = oflag % 2 == 1 || (oflag / 2) % 2 == 1

abbrev pub wants_read : ℕ → Bool
wants_read oflag = (oflag / 2) % 2 == 1

abbrev pub wants_create : ℕ → Bool
wants_create oflag = (oflag / 64) % 2 == 1

abbrev pub wants_truncate : ℕ → Bool
wants_truncate oflag = (oflag / 512) % 2 == 1

-- mode & S_IRUSR
abbrev pub owner_reads : ℕ → Bool
owner_reads mode = (mode / 256) % 2 == 1

-- S_IFREG | mode
abbrev pub file_mode : ℕ → ℕ
file_mode mode = if (mode / 32768) % 2 == 1 then mode else mode + 32768

-- The file is cut to nothing. An inode that was there before is then written back as it was loaded,
-- with new times.
unfoldable pub truncate_opened : List ℕ → ℕ → Inode → Bool → M ℕ
truncate_opened path inum node created = do
  truncated ← fs_truncate path 0
  if truncated == minus_one then pure minus_one else if created then pure inum else do
    curr_time ← now
    _ ← write_inode_to_disk inum (record node { ctime = curr_time; mtime = curr_time })
    pure inum

unfoldable pub open_inode : List ℕ → ℕ → ℕ → Bool → M ℕ
open_inode path oflag inum created = do
  loaded ← load_inode_from_disk inum
  elim loaded [
    | none ↦ pure eacces
    | some node ↦
        if wants_read oflag && not (owner_reads node.i_mode)
        then pure eacces
        else if wants_write oflag && not (owner_writes node.i_mode)
        then pure eacces
        else if wants_truncate oflag && owner_writes node.i_mode
        then truncate_opened path inum node created
        else pure inum
  ]

unfoldable pub fs_open_file : List ℕ → ℕ → M ℕ
fs_open_file path oflag = do
  inum ← get_inode_of_file path
  if not (inum == minus_one)
      then open_inode path oflag inum false
      else if wants_create oflag
      then (do
        file ← create_new_file path (file_mode default_permissions)
        if le64 file.result minus_one
            then pure file.result
            else open_inode path oflag file.result true)
      else pure enoent

unfoldable pub fs_access : List ℕ → M ℕ
fs_access path = do inum ← get_inode_of_file path; pure (if inum == minus_one then enoent else 0)

-- the entry of `from` goes, once that of `to` is there
unfoldable pub drop_old_name : List ℕ → ℕ → M ℕ
drop_old_name from curr_time = do
  from_parent_inode_num ← get_inode_of_file (copy_parent_path from)
  if from_parent_inode_num == minus_one then pure minus_one else (do
    loaded ← load_inode_from_disk from_parent_inode_num
    elim loaded [
      | none ↦ pure minus_one
      | some parent ↦ do
        from_child_name ← deref (copy_file_name from)
        (removed, parent1) ← remove_from_directory parent from_child_name
        if removed
            then (do
              written ←
                  write_inode_to_disk from_parent_inode_num
                    (record parent1 { mtime = curr_time; ctime = curr_time })
              pure (if written then 0 else minus_one))
            else pure minus_one
    ])

-- the entry of `to` in its parent, for the inode that `from` has now
unfoldable pub add_new_name : List ℕ → List ℕ → ℕ → Inode → M ℕ
add_new_name from to to_parent_inode_num parent = do
  to_child_name ← deref (copy_file_name to)
  inum ← get_inode_of_file from
  (added, parent1) ← add_directory_entry parent inum to_child_name
  if added
      then (do
        curr_time ← now
        written ←
            write_inode_to_disk to_parent_inode_num
              (record parent1 { mtime = curr_time; ctime = curr_time })
        if written then drop_old_name from curr_time else pure minus_one)
      else pure edquot

unfoldable pub move_entry : List ℕ → List ℕ → M ℕ
move_entry from to = do
  to_parent_inode_num ← get_inode_of_file (copy_parent_path to)
  if to_parent_inode_num == minus_one then pure minus_one else (do
    loaded ← load_inode_from_disk to_parent_inode_num
    elim loaded [
      | none ↦ pure minus_one
      | some parent ↦
          if s_isdir parent.i_mode
          then add_new_name from to to_parent_inode_num parent
          else pure minus_one
    ])

unfoldable pub fs_rename : List ℕ → List ℕ → M ℕ
fs_rename from to = do
  from_there ← fs_access from
  if from_there == 0
      then (do
        to_there ← fs_access to
        if to_there == 0
            then (do
              unlink_res ← fs_unlink to
              if unlink_res == 0 then move_entry from to else pure unlink_res)
            else move_entry from to)
      else pure enoent

unfoldable pub fs_destroy : M (Unit {0})
fs_destroy = restart_disk
