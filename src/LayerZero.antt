-- ===== src/LayerZero.antt =====
-- src/layerZero.cpp: the device, block by block, and the superblock. `inMemory` is the constant
-- false of header/layerZero.h, so only the branches for the device are here.
pub mod Blocks
pub mod Boot
use beach_bytes_file_system.Base.{
  ℕ, zero, suc, ◌+◌, ◌*◌, Bool, true, false, ◌||◌, Option, none, some, ◌==◌, if◌then◌else◌,
}
use beach_bytes_file_system.Bytes.{Bytes, zeros, copy, lt64, le64}
use beach_bytes_file_system.Config.{
  Superblock, block_count, inode_block_count, inodes_per_block, num_of_data_blocks, read_superblock,
  superblock_image,
}
use beach_bytes_file_system.Machine.{
  Fs, M, SuperblockPtr, null, dangling, live, pure, undefined, ◌>>=◌, ◌>>◌, get, set_superblock,
  set_block, superblock_of, superblock,
}

unfoldable pub fs_open : M Bool
fs_open s = some (s.device.opens, s)

unfoldable pub fs_close : M Bool
fs_close s = some (s.device.closes, s)

abbrev pub is_block_out_of_range : ℕ → Bool
is_block_out_of_range blockid = lt64 blockid 0 || le64 block_count blockid

-- `none` when it returns false, which leaves the caller's buffer as it was
unfoldable pub fs_read_block : ℕ → M (Option Bytes)
fs_read_block blockid s =
    if is_block_out_of_range blockid
    then some (none, s)
    else if s.device.readable blockid
    then some (some (s.disk blockid), s)
    else some (none, s)

unfoldable pub fs_write_block : ℕ → Bytes → M Bool
fs_write_block blockid buffer s =
    if is_block_out_of_range blockid
    then some (false, s)
    else if s.device.writable blockid
    then some (true, record s { disk = set_block s.disk blockid buffer })
    else some (false, s)

-- the buffer that `fs_write_superblock` fills
abbrev pub superblock_block : Superblock → Bytes
superblock_block sb = copy zeros 0 (superblock_image sb) 0 40

unfoldable pub fs_write_superblock : M Bool
fs_write_superblock s = elim s.fs_superblock [
  | null ↦ some (false, s)
  | dangling ↦ none
  | live sb ↦ fs_write_block 0 (superblock_block sb) s
]

abbrev pub new_superblock : Superblock
new_superblock = record {
  ilist_size = inode_block_count;
  partition_size = num_of_data_blocks;
  max_alloc = inode_block_count + 1;
  freelist_head = 0;
  inodes_count = inode_block_count * inodes_per_block;
}

unfoldable pub fs_create_superblock : M Bool
fs_create_superblock = do
  set_superblock new_superblock
  if new_superblock.inodes_count == 0 then pure false else fs_write_superblock

-- for(blocknum = 1; blocknum <= INODE_BLOCK_COUNT; blocknum++), by the rounds that are left
unfoldable pub create_ilist_loop : ℕ → ℕ → M Bool
create_ilist_loop zero blocknum = pure true
create_ilist_loop (suc rounds) blocknum = do
  ok ← fs_write_block blocknum zeros
  let rest = create_ilist_loop rounds (blocknum + 1)
  if ok then rest else pure false

unfoldable pub fs_create_ilist : M Bool
fs_create_ilist = create_ilist_loop inode_block_count 1

unfoldable pub fs_init : M Bool
fs_init = do
  _ ← fs_open
  create_superblock ← fs_create_superblock
  if create_superblock
      then (do
        create_inode_list ← fs_create_ilist
        if create_inode_list then (do _ ← fs_close; pure true) else pure false)
      else pure false

-- `main` of src/setupDiskMain.cpp
abbrev pub setup_disk : M ℕ
setup_disk = do _ ← fs_init; pure 0

-- `if(fs_superblock == NULL) malloc`: the block that it points to holds nothing yet
abbrev pub usable : SuperblockPtr → Bool
usable null = true
usable dangling = false
usable (live _) = true

abbrev pub buffer_or_zeros : Option Bytes → Bytes
buffer_or_zeros none = zeros
buffer_or_zeros (some b) = b

unfoldable pub load_fs : M Bool
load_fs = do
  opened ← fs_open
  if opened
      then (do
        s ← get
        buffer ← fs_read_block 0
        let sb = read_superblock (buffer_or_zeros buffer)
        if usable s.fs_superblock
            then (do set_superblock sb; pure (if sb.inodes_count == 0 then false else true))
            else undefined)
      else pure false

unfoldable pub restart_disk : M (Unit {0})
restart_disk = do
  written ← fs_write_superblock
  if written
      then (λ s. some (tt, record s { fs_superblock = dangling })) >> (fs_close >>= λ _. pure tt)
      else pure tt
