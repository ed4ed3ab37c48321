-- ===== src/DataBlock/InUse.antt =====
-- Writing to a block that is in use leaves the allocator as it was.
use beach_bytes_file_system.Base.{ℕ, ◌<◌, ◌≡◌, ◌≢◌, ◌∙◌, true, false, some, List, arith, contains}
use beach_bytes_file_system.Bytes.{Bytes}
use beach_bytes_file_system.Config.{Superblock, inode_block_count, num_of_data_blocks}
use beach_bytes_file_system.Machine.{Fs, set_block}
use beach_bytes_file_system.LayerZero.Blocks.{IsHealthy}
use beach_bytes_file_system.DataBlock.{read_data_block, write_data_block}
use beach_bytes_file_system.DataBlock.FreeList.{in_use, IsAllocator, Chain-set_block}
use beach_bytes_file_system.DataBlock.Steps.{read_data_block-ok, write_data_block-ok}

module _ (s : Fs) (sb : Superblock) (free : List ℕ) (v : IsAllocator s sb free) (b : ℕ)
    (used : in_use sb free b ≡ true) where
  pub in_use-bounds : (inode_block_count < b) × (b < sb.max_alloc) × (contains b free ≡ false)
  in_use-bounds = ground arith

  pub in_use-range : (inode_block_count < b) × (b < num_of_data_blocks)
  in_use-range = omega (arith, in_use-bounds, v.below)

  pub IsAllocator-set_block :
      (buffer : Bytes) → IsAllocator (record s { disk = set_block s.disk b buffer }) sb free
  IsAllocator-set_block buffer =
      let (low, high, out) = in_use-bounds in
      record {
        loaded = v.loaded;
        on_disk = (let ne : 0 ≢ b = omega arith in ground arith) ∙ v.on_disk;
        chain = Chain-set_block s.disk b buffer sb.freelist_head free out v.chain;
        cleared = λ x k m h. ground (arith, v.cleared x k);
        listed = v.listed;
        above = v.above;
        below = v.below;
      }

  pub read-in_use : IsHealthy s.device → read_data_block b s ≡ some (some (s.disk b), s)
  read-in_use h = let (low, high) = in_use-range in read_data_block-ok s h b low (omega arith)

  pub write-in_use :
      (buffer : Bytes)
      → IsHealthy s.device
      → write_data_block b buffer s ≡ some (true, record s { disk = set_block s.disk b buffer })
  write-in_use buffer h =
      let (low, high) = in_use-range in write_data_block-ok s h b buffer low (omega arith)
