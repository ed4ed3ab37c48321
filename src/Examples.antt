-- ===== src/Examples.antt =====
-- A small file system, runs of the operations on it, and each theorem at an input where its
-- hypotheses hold.
mod Blocks
mod Inodes
mod Paths
mod Directories
mod Tree
mod Requests
mod Files
use beach_bytes_file_system.Base.{ℕ, ◌≡◌, refl, true, List, [], ◌∷◌, arith, ◌==◌, if◌then◌else◌}
use beach_bytes_file_system.Bytes.{Bytes, zeros, load, store, copy}
use beach_bytes_file_system.Config.{Superblock, Inode}
use beach_bytes_file_system.Machine.{Fs, Device, live, set_block}
use beach_bytes_file_system.LayerZero.{superblock_block, new_superblock}
use beach_bytes_file_system.LayerZero.Blocks.{IsHealthy}
use beach_bytes_file_system.DataBlock.FreeList.{IsAllocator}

abbrev healthy_device : Device
healthy_device = record { opens = true; closes = true; readable = λ _. true; writable = λ _. true }

-- just formatted
abbrev pub fresh_fs : Fs
fresh_fs = record {
  device = healthy_device;
  disk = set_block (λ _. zeros) 0 (superblock_block new_superblock);
  fs_superblock = live new_superblock;
  root_dir_inode_num = 0;
  clock = 1700000000;
}

pub fresh-IsHealthy : IsHealthy fresh_fs.device
fresh-IsHealthy = record { reads = λ b. refl; writes = λ b. refl }

pub fresh-IsAllocator : IsAllocator fresh_fs new_superblock []
fresh-IsAllocator = record {
  loaded = refl;
  on_disk = refl;
  chain = refl;
  cleared = λ x k m h. cc;
  listed = tt;
  above = omega arith;
  below = omega arith;
}

-- two blocks handed out and the first given back: 157287 is the whole free list
abbrev pub used_superblock : Superblock
used_superblock = record new_superblock { max_alloc = 157289; freelist_head = 157287 }

abbrev pub used_fs : Fs
used_fs = record fresh_fs {
  disk = set_block (λ _. zeros) 0 (superblock_block used_superblock);
  fs_superblock = live used_superblock;
}

pub used-IsAllocator : IsAllocator used_fs used_superblock (157287 ∷ [])
unfolding load
used-IsAllocator = record {
  loaded = refl;
  on_disk = refl;
  chain = (refl, refl);
  cleared = λ x k m h. ground arith;
  listed = (omega arith, omega arith, refl, tt);
  above = omega arith;
  below = omega arith;
}

-- an allocated inode with no blocks
abbrev pub empty_inode : Inode
empty_inode = record {
  i_mode = 33204;
  info_length = 0;
  device_id = 0;
  file_serial_num = 0;
  owner_id = 0;
  group_id = 0;
  owner_permission = 7;
  group_permission = 7;
  world_permission = 7;
  link_count = 1;
  file_size = 0;
  blocks = 0;
  ctime = 10;
  mtime = 10;
  atime = 25;
  direct_addresses = λ _. 0;
  single_indirect = 0;
  double_indirect = 0;
  triple_indirect = 0;
  is_allocated = true;
  files_count = 0;
}
