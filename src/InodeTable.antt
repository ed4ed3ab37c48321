-- ===== src/InodeTable.antt =====
-- src/inode.cpp, the inode list: inodes stand fifteen to a block in the blocks from 1 on.
pub mod Scan
pub mod Entries
use beach_bytes_file_system.Base.{
  ℕ, zero, suc, ◌+◌, ◌-◌, ◌*◌, ◌/◌, ◌%◌, Bool, true, false, not, ◌&&◌, Option, none, some, ◌==◌,
  if◌then◌else◌,
}
use beach_bytes_file_system.Bytes.{Bytes, load, store, copy, minus_one, le64, lt64}
use beach_bytes_file_system.Config.{
  Inode, inode_block_count, inodes_per_block, size_of_inode, read_inode, inode_image,
}
use beach_bytes_file_system.Machine.{M, pure, ◌>>=◌, ◌>>◌}
use beach_bytes_file_system.LayerZero.{fs_read_block, fs_write_block}
use beach_bytes_file_system.BlockMap.{Changed}
use beach_bytes_file_system.Reclaim.{remove_datablocks_range_from_inode}

abbrev pub inode_num_valid : ℕ → Bool
inode_num_valid inode_num = le64 0 inode_num && lt64 inode_num inode_block_count

-- gen_block_offset, which fills `*block` and `*offset`
abbrev pub block_of : ℕ → ℕ
block_of inode_num = inode_num / inodes_per_block + 1

abbrev pub offset_of : ℕ → ℕ
offset_of inode_num = inode_num % inodes_per_block

-- the address of slot `offset` in a block
abbrev pub slot : ℕ → ℕ
slot offset = size_of_inode * offset

-- `none` is NULL
unfoldable pub load_inode_from_disk : ℕ → M (Option Inode)
load_inode_from_disk inode_num =
    if inode_num_valid inode_num
    then (do
      read ← fs_read_block (block_of inode_num)
      elim read [
        | none ↦ pure none
        | some buffer ↦
            let node = read_inode buffer (slot (offset_of inode_num)) in
            pure (if node.is_allocated then some node else none)
      ])
    else pure none

unfoldable pub write_inode_to_disk : ℕ → Inode → M Bool
write_inode_to_disk inode_num inode =
    if inode_num_valid inode_num
    then (do
      read ← fs_read_block (block_of inode_num)
      elim read [
        | none ↦ pure false
        | some buffer ↦
            fs_write_block (block_of inode_num)
              (copy buffer (slot (offset_of inode_num)) (inode_image inode) 0 size_of_inode)
      ])
    else pure false

-- `!curNode->is_allocated`
abbrev pub slot_free : Bytes → ℕ → Bool
slot_free buffer offset = load 1 buffer (slot offset + 248) == 0

-- the inner loop: the first free slot from `cur_offset` on
unfoldable pub scan_block : ℕ → Bytes → ℕ → Option ℕ
scan_block zero buffer cur_offset = none
scan_block (suc rounds) buffer cur_offset =
    let rest = scan_block rounds buffer (cur_offset + 1) in
    if slot_free buffer cur_offset then some cur_offset else rest

-- while(curBlock < INODE_BLOCK_COUNT), by the rounds that are left
unfoldable pub scan_blocks : ℕ → ℕ → M ℕ
scan_blocks zero cur_block = pure minus_one
scan_blocks (suc rounds) cur_block =
    let rest = scan_blocks rounds (cur_block + 1) in
    do
      read ← fs_read_block cur_block
      elim read [
        | none ↦ pure minus_one
        | some buffer ↦ elim (scan_block inodes_per_block buffer 0) [
          | some cur_offset ↦ pure ((cur_block - 1) * inodes_per_block + cur_offset)
          | none ↦ rest
        ]
      ]

unfoldable pub get_next_free_inode : M ℕ
get_next_free_inode = scan_blocks (inode_block_count - 1) 1

-- `node->linkCount = 0; node->is_allocated = true`, in the buffer
abbrev pub mark_allocated : Bytes → ℕ → Bytes
mark_allocated buffer offset = store 1 (store 8 buffer (slot offset + 104) 0) (slot offset + 248) 1

unfoldable pub create_inode : M ℕ
create_inode = do
  inode_num ← get_next_free_inode
  if inode_num_valid inode_num
      then (do
        read ← fs_read_block (block_of inode_num)
        elim read [
          | none ↦ pure minus_one
          | some buffer ↦ do
            written ←
                fs_write_block (block_of inode_num) (mark_allocated buffer (offset_of inode_num))
            pure (if written then inode_num else minus_one)
        ])
      else pure minus_one

unfoldable pub free_all_data_blocks_in_inode : Inode → M Changed
free_all_data_blocks_in_inode node = remove_datablocks_range_from_inode node 0

-- the resets of `delete_inode`; mode, owner, group and infoLength stay
abbrev pub reset : Inode → Inode
reset node = record node {
  device_id = 0;
  file_serial_num = 0;
  owner_permission = 7;
  group_permission = 7;
  world_permission = 7;
  link_count = 0;
  file_size = 0;
  blocks = 0;
  ctime = 0;
  mtime = 0;
  atime = 0;
  direct_addresses = λ _. 0;
  single_indirect = 0;
  double_indirect = 0;
  triple_indirect = 0;
  is_allocated = false;
  files_count = 0;
}

-- The inode is changed in the buffer that holds its block, and the buffer written back at the end.
unfoldable pub delete_inode : ℕ → M Bool
delete_inode inode_num =
    if inode_num_valid inode_num
    then (do
      read ← fs_read_block (block_of inode_num)
      elim read [
        | none ↦ pure false
        | some buffer ↦ do
          (freed, node) ←
              free_all_data_blocks_in_inode (read_inode buffer (slot (offset_of inode_num)))
          if freed
              then fs_write_block (block_of inode_num) (
                  copy buffer (slot (offset_of inode_num)) (inode_image (reset node)) 0
                    size_of_inode)
              else pure false
      ])
    else pure false
