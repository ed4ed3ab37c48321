-- ===== src/DataBlock.antt =====
-- src/data_block_operation.cpp: data blocks, given out from `maxAlloc` on and then from the free
-- list, whose links are the first words of the free blocks.
pub mod FreeList
pub mod Steps
pub mod Allocate
pub mod Release
pub mod InUse
pub mod Mount
use beach_bytes_file_system.Base.{
  ℕ, zero, suc, ◌+◌, Bool, true, false, not, ◌&&◌, ◌||◌, Option, none, some, ◌==◌, if◌then◌else◌,
}
use beach_bytes_file_system.Bytes.{Bytes, zeros, load, store, minus_one, add64, sub64, lt64, le64}
use beach_bytes_file_system.Config.{Superblock, block_count, inode_block_count, num_of_data_blocks}
use beach_bytes_file_system.Machine.{
  Fs, M, pure, undefined, ◌>>=◌, ◌>>◌, deref, superblock, set_superblock,
}
use beach_bytes_file_system.LayerZero.{fs_read_block, fs_write_block, fs_write_superblock}

abbrev pub is_no_data_block : ℕ → Bool
is_no_data_block index = le64 index inode_block_count || lt64 block_count index

-- `none` is NULL
unfoldable pub read_data_block : ℕ → M (Option Bytes)
read_data_block index = if is_no_data_block index then pure none else fs_read_block index

unfoldable pub write_data_block : ℕ → Bytes → M Bool
write_data_block index buffer =
    if is_no_data_block index then pure false else fs_write_block index buffer

-- `maxAlloc` has not reached its bound: take the block there
unfoldable pub allocate_at_max : Superblock → M ℕ
allocate_at_max sb = do
  set_superblock (record sb { max_alloc = add64 sb.max_alloc 1 })
  cleared ← write_data_block sb.max_alloc zeros
  if cleared
      then (do
        written ← fs_write_superblock
        pure (
            if written then (if sb.max_alloc == 0 then minus_one else sb.max_alloc) else minus_one))
      else pure minus_one

-- else unlink the head of the free list; a failed read returns `false`, which is 0
unfoldable pub allocate_from_list : Superblock → M ℕ
allocate_from_list sb = do
  read ← fs_read_block sb.freelist_head
  elim read [
    | none ↦ pure 0
    | some buffer ↦ do
      set_superblock (record sb { freelist_head = load 8 buffer 0 })
      written ← fs_write_superblock
      pure (
          if written
          then (if sb.freelist_head == 0 then minus_one else sb.freelist_head)
          else minus_one)
  ]

unfoldable pub allocate_data_block : M ℕ
allocate_data_block = do
  sb ← superblock
  if sb.freelist_head == 0 && sb.max_alloc == num_of_data_blocks
      then pure minus_one
      else if not (sb.max_alloc == num_of_data_blocks)
      then allocate_at_max sb
      else allocate_from_list sb

unfoldable pub free_data_block : ℕ → M Bool
free_data_block index = if is_no_data_block index then pure false else do
  sb ← superblock
  if index == sub64 sb.max_alloc 1
      then (do set_superblock (record sb { max_alloc = sub64 sb.max_alloc 1 }); fs_write_superblock)
      else (do
        set_superblock (record sb { freelist_head = index })
        written ← fs_write_superblock
        if written then fs_write_block index (store 8 zeros 0 sb.freelist_head) else pure false)

-- `while (current != 0)`; `none` in the fuel argument's sense is a list that never ends, and
-- `undefined` a block that cannot be read
unfoldable pub free_list_loop : ℕ → ℕ → ℕ → M (Option ℕ)
free_list_loop zero current length = pure none
free_list_loop (suc fuel) current length =
    let rest = λ (next : ℕ). free_list_loop fuel next (add64 length 1) in
    if current == 0 then pure (some length) else do
      block_data ← read_data_block current
      b ← deref block_data
      if load 8 b 0 == 0 then pure (some length) else rest (load 8 b 0)

unfoldable pub get_free_list_length : ℕ → M (Option ℕ)
get_free_list_length fuel = do sb ← superblock; free_list_loop fuel sb.freelist_head 1
