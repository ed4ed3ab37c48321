-- ===== src/Config.antt =====
-- header/common_config.h: the constants of the layout, the superblock and the inode, and the images
-- of the two structs in memory. The offsets are those of the x86-64 ABI, where
-- sizeof(superblock) is 40 and sizeof(inodeStruct) is 264.
pub mod Images
pub mod Update
use beach_bytes_file_system.Base.{
  ℕ, ◌+◌, ◌-◌, ◌*◌, ◌/◌, Bool, List, [], ◌∷◌, not, ltb, ◌==◌, if◌then◌else◌,
}
use beach_bytes_file_system.Bytes.{Bytes, zeros, load, store}

abbrev pub block_size : ℕ
block_size = 4096

abbrev pub fs_size : ℕ
fs_size = 1024 * 1024 * 1024 * 40

abbrev pub block_count : ℕ
block_count = fs_size / block_size

abbrev pub num_direct_blocks : ℕ
num_direct_blocks = 10

abbrev pub size_of_inode : ℕ
size_of_inode = 264

abbrev pub inodes_per_block : ℕ
inodes_per_block = block_size / size_of_inode

-- (sType)(BLOCK_COUNT * 0.015)
abbrev pub inode_block_count : ℕ
inode_block_count = block_count * 15 / 1000

abbrev pub num_of_data_blocks : ℕ
num_of_data_blocks = block_count - inode_block_count - 1

abbrev pub file_name_max_length : ℕ
file_name_max_length = 255

abbrev pub record_length : ℕ
record_length = 8

abbrev pub record_fixed_len : ℕ
record_fixed_len = 16

abbrev pub num_of_addresses_per_block : ℕ
num_of_addresses_per_block = 512

abbrev pub num_of_single_indirect : ℕ
num_of_single_indirect = 512

abbrev pub num_of_double_indirect : ℕ
num_of_double_indirect = num_of_single_indirect * num_of_single_indirect

abbrev pub num_of_triple_indirect : ℕ
num_of_triple_indirect = num_of_double_indirect * num_of_single_indirect

pub record Superblock : Type 0 where
  pub ilist_size : ℕ
  pub partition_size : ℕ
  pub max_alloc : ℕ
  pub freelist_head : ℕ
  pub inodes_count : ℕ

-- `owner_id` and `group_id` are the 32 characters of each array read as one number.
pub record Inode : Type 0 where
  pub i_mode : ℕ
  pub info_length : ℕ
  pub device_id : ℕ
  pub file_serial_num : ℕ
  pub owner_id : ℕ
  pub group_id : ℕ
  pub owner_permission : ℕ
  pub group_permission : ℕ
  pub world_permission : ℕ
  pub link_count : ℕ
  pub file_size : ℕ
  pub blocks : ℕ
  pub ctime : ℕ
  pub mtime : ℕ
  pub atime : ℕ
  pub direct_addresses : ℕ → ℕ
  pub single_indirect : ℕ
  pub double_indirect : ℕ
  pub triple_indirect : ℕ
  pub is_allocated : Bool
  pub files_count : ℕ

-- a field of a struct: its size, its offset and its value
abbrev pub Field : Type 0
Field = ℕ × ℕ × ℕ

unfoldable pub store_all : List Field → Bytes
store_all [] = zeros
store_all ((n, o, v) ∷ fs) = store n (store_all fs) o v

abbrev pub superblock_fields : Superblock → List Field
superblock_fields sb =
    (8, 0, sb.ilist_size)
    ∷ (8, 8, sb.partition_size)
    ∷ (8, 16, sb.max_alloc)
    ∷ (8, 24, sb.freelist_head)
    ∷ (8, 32, sb.inodes_count)
    ∷ []

-- (struct superblock*)buffer
unfoldable pub read_superblock : Bytes → Superblock
read_superblock b = record {
  ilist_size = load 8 b 0;
  partition_size = load 8 b 8;
  max_alloc = load 8 b 16;
  freelist_head = load 8 b 24;
  inodes_count = load 8 b 32;
}

abbrev pub byte_of_bool : Bool → ℕ
byte_of_bool c = if c then 1 else 0

abbrev pub inode_fields : Inode → List Field
inode_fields i =
    (4, 0, i.i_mode)
    ∷ (8, 8, i.info_length)
    ∷ (8, 16, i.device_id)
    ∷ (8, 24, i.file_serial_num)
    ∷ (32, 32, i.owner_id)
    ∷ (32, 64, i.group_id)
    ∷ (1, 96, i.owner_permission)
    ∷ (1, 97, i.group_permission)
    ∷ (1, 98, i.world_permission)
    ∷ (8, 104, i.link_count)
    ∷ (8, 112, i.file_size)
    ∷ (8, 120, i.blocks)
    ∷ (4, 128, i.ctime)
    ∷ (4, 132, i.mtime)
    ∷ (4, 136, i.atime)
    ∷ (8, 144, i.direct_addresses 0)
    ∷ (8, 152, i.direct_addresses 1)
    ∷ (8, 160, i.direct_addresses 2)
    ∷ (8, 168, i.direct_addresses 3)
    ∷ (8, 176, i.direct_addresses 4)
    ∷ (8, 184, i.direct_addresses 5)
    ∷ (8, 192, i.direct_addresses 6)
    ∷ (8, 200, i.direct_addresses 7)
    ∷ (8, 208, i.direct_addresses 8)
    ∷ (8, 216, i.direct_addresses 9)
    ∷ (8, 224, i.single_indirect)
    ∷ (8, 232, i.double_indirect)
    ∷ (8, 240, i.triple_indirect)
    ∷ (1, 248, byte_of_bool i.is_allocated)
    ∷ (8, 256, i.files_count)
    ∷ []

-- The struct at an address. The array has ten elements; past them the model has 0.
unfoldable pub read_inode : Bytes → ℕ → Inode
read_inode b base = record {
  i_mode = load 4 b (base + 0);
  info_length = load 8 b (base + 8);
  device_id = load 8 b (base + 16);
  file_serial_num = load 8 b (base + 24);
  owner_id = load 32 b (base + 32);
  group_id = load 32 b (base + 64);
  owner_permission = load 1 b (base + 96);
  group_permission = load 1 b (base + 97);
  world_permission = load 1 b (base + 98);
  link_count = load 8 b (base + 104);
  file_size = load 8 b (base + 112);
  blocks = load 8 b (base + 120);
  ctime = load 4 b (base + 128);
  mtime = load 4 b (base + 132);
  atime = load 4 b (base + 136);
  direct_addresses = λ k. if ltb k num_direct_blocks then load 8 b (base + (144 + 8 * k)) else 0;
  single_indirect = load 8 b (base + 224);
  double_indirect = load 8 b (base + 232);
  triple_indirect = load 8 b (base + 240);
  is_allocated = not (load 1 b (base + 248) == 0);
  files_count = load 8 b (base + 256);
}

-- the bytes of a struct
unfoldable pub superblock_image : Superblock → Bytes
superblock_image sb = store_all (superblock_fields sb)

unfoldable pub inode_image : Inode → Bytes
inode_image i = store_all (inode_fields i)
