-- ===== src/LayerZero/Blocks.antt =====
-- What the block operations do with a block that exists, and with one that does not.
use beach_bytes_file_system.Base.{ℕ, ◌^◌, ◌≤◌, ◌<◌, ◌≡◌, true, false, some, arith}
use beach_bytes_file_system.Bytes.{Bytes}
use beach_bytes_file_system.Config.{block_count, Superblock}
use beach_bytes_file_system.Machine.{Fs, Device, live, set_block}
use beach_bytes_file_system.LayerZero.{
  is_block_out_of_range, fs_read_block, fs_write_block, fs_write_superblock, superblock_block,
}

-- the device serves every block
pub record IsHealthy (d : Device) : Type 0 where
  pub reads : (b : ℕ) → d.readable b ≡ true
  pub writes : (b : ℕ) → d.writable b ≡ true

pub in_range : (b : ℕ) → b < block_count → is_block_out_of_range b ≡ false
in_range b h = ground arith

pub out_of_range : (b : ℕ) → block_count ≤ b → b < 2 ^ 64 → is_block_out_of_range b ≡ true
out_of_range b h k = ground arith

module _ (s : Fs) (healthy : IsHealthy s.device) where
  pub fs_read_block-ok : (b : ℕ) → b < block_count → fs_read_block b s ≡ some (some (s.disk b), s)
  unfolding fs_read_block
  fs_read_block-ok b h = rw (in_range b h, healthy.reads b)

  pub fs_write_block-ok :
      (b : ℕ) (buffer : Bytes)
      → b < block_count
      → fs_write_block b buffer s ≡ some (true, record s { disk = set_block s.disk b buffer })
  unfolding fs_write_block
  fs_write_block-ok b buffer h = rw (in_range b h, healthy.writes b)

  pub fs_write_superblock-ok :
      (sb : Superblock)
      → s.fs_superblock ≡ live sb
      → fs_write_superblock s
        ≡ some (true, record s { disk = set_block s.disk 0 (superblock_block sb) })
  unfolding fs_write_superblock
  fs_write_superblock-ok sb e =
      ground (arith, fs_write_block-ok 0 (superblock_block sb) (omega arith))
