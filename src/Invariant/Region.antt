-- ===== src/Invariant/Region.antt =====
-- No request writes outside the partition, whatever is on the disk.
use beach_bytes_file_system.Base.{
  Bool-cases, inl, inr, ℕ, ◌^◌, ◌≤◌, ◌<◌, ◌≡◌, refl, ◌≢◌, ◌∙◌, false, not, ◌&&◌, none, some, List,
  arith, ◌==◌, if◌then◌else◌,
}
use beach_bytes_file_system.Bytes.{Bytes, zeros, load, store, minus_one, add64, sub64}
use beach_bytes_file_system.Config.{Superblock, block_count, num_of_data_blocks}
use beach_bytes_file_system.Machine.{
  Fs, SuperblockPtr, null, dangling, live, superblock, superblock_of, set_superblock,
}
use beach_bytes_file_system.LayerZero.{
  is_block_out_of_range, fs_write_block, fs_write_superblock, superblock_block, fs_close,
  restart_disk,
}
use beach_bytes_file_system.LayerZero.Blocks.{out_of_range}
use beach_bytes_file_system.DataBlock.{
  is_no_data_block, write_data_block, allocate_at_max, allocate_from_list, allocate_data_block,
  free_data_block,
}
use beach_bytes_file_system.Fuse.{Request, serve}
use beach_bytes_file_system.Invariant.{
  Ends, stuck, ends, Ends-if, Preserves, bind, branch, cases, pure_lem, deref_lem,
}
use beach_bytes_file_system.Invariant.Reads.{fs_read_block_lem}
use beach_bytes_file_system.Invariant.Blocks.{IsKept}
use beach_bytes_file_system.Invariant.Serve.{every, handle_lem, serve_lem}

-- the device, the root and what lies behind the partition are those of `s0`
pub record KeepsRegion (s0 s : Fs) : Type 0 where
  pub device : s.device ≡ s0.device
  pub root : s.root_dir_inode_num ≡ s0.root_dir_inode_num
  pub behind : (b : ℕ) → block_count ≤ b → b < 2 ^ 64 → s.disk b ≡ s0.disk b

behind-write : (b c : ℕ) → is_block_out_of_range b ≡ false → block_count ≤ c → c < 2 ^ 64 → c ≢ b
behind-write b c e low high = let out = out_of_range c low high in ground (arith, out)

module _ (s0 : Fs) where
  fs_write_block_lem :
      (b : ℕ) (buffer : Bytes) → Preserves (KeepsRegion s0) (fs_write_block b buffer)
  unfolding fs_write_block
  fs_write_block_lem b buffer = record {
    keeps = λ s k. elim (Bool-cases (is_block_out_of_range b)) [
      | inl e ↦ rw e (ends k)
      | inr e ↦ rw e (
          Ends-if (s.device.writable b)
            (ends (record {
              device = k.device;
              root = k.root;
              behind = λ c low high.
                  (let ne : c ≢ b = behind-write b c e low high in ground arith)
                  ∙ k.behind c low high;
            }))
            (ends k))
    ];
  }

  set_superblock_lem : (sb : Superblock) → Preserves (KeepsRegion s0) (set_superblock sb)
  set_superblock_lem sb = record {
    keeps = λ s k. ends (record { device = k.device; root = k.root; behind = k.behind });
  }

  superblock_lem : Preserves (KeepsRegion s0) superblock
  superblock_lem = record { keeps = λ s k. (deref_lem (superblock_of s.fs_superblock)).keeps s k }

  write_superblock_at :
      (p : SuperblockPtr) (s : Fs)
      → KeepsRegion s0 s
      → Ends (KeepsRegion s0) (elim p [
        | null ↦ some (false, s)
        | dangling ↦ none
        | live sb ↦ fs_write_block 0 (superblock_block sb) s
      ])
  write_superblock_at null s k = ends k
  write_superblock_at dangling s k = stuck
  write_superblock_at (live sb) s k = (fs_write_block_lem 0 (superblock_block sb)).keeps s k

  fs_write_superblock_lem : Preserves (KeepsRegion s0) fs_write_superblock
  unfolding fs_write_superblock
  fs_write_superblock_lem = record { keeps = λ s k. write_superblock_at s.fs_superblock s k }

  write_data_block_lem :
      (b : ℕ) (buffer : Bytes) → Preserves (KeepsRegion s0) (write_data_block b buffer)
  unfolding write_data_block
  write_data_block_lem b buffer = branch _ pure_lem (fs_write_block_lem b buffer)

  allocate_at_max_lem : (sb : Superblock) → Preserves (KeepsRegion s0) (allocate_at_max sb)
  unfolding allocate_at_max
  allocate_at_max_lem sb =
      bind (set_superblock_lem (record sb { max_alloc = add64 sb.max_alloc 1 })) λ u.
        bind (write_data_block_lem sb.max_alloc zeros) λ cleared.
          branch cleared
            (bind fs_write_superblock_lem λ written.
              pure_lem
                {a = if written
                  then (if sb.max_alloc == 0 then minus_one else sb.max_alloc)
                  else minus_one})
            (pure_lem {a = minus_one})

  allocate_from_list_lem : (sb : Superblock) → Preserves (KeepsRegion s0) (allocate_from_list sb)
  unfolding allocate_from_list
  allocate_from_list_lem sb = bind (fs_read_block_lem _) λ found. cases found pure_lem λ buffer.
      bind (set_superblock_lem (record sb { freelist_head = load 8 buffer 0 })) λ u.
        bind fs_write_superblock_lem λ written.
          pure_lem
            {a = if written
              then (if sb.freelist_head == 0 then minus_one else sb.freelist_head)
              else minus_one}

  allocate_data_block_lem : Preserves (KeepsRegion s0) allocate_data_block
  unfolding allocate_data_block
  allocate_data_block_lem = bind superblock_lem λ sb.
      branch (sb.freelist_head == 0 && sb.max_alloc == num_of_data_blocks) pure_lem (
        branch (not (sb.max_alloc == num_of_data_blocks)) (allocate_at_max_lem sb)
          (allocate_from_list_lem sb))

  free_data_block_lem : (b : ℕ) → Preserves (KeepsRegion s0) (free_data_block b)
  unfolding free_data_block
  free_data_block_lem b = branch (is_no_data_block b) pure_lem (
      bind superblock_lem λ sb.
        branch (b == sub64 sb.max_alloc 1)
          (bind (set_superblock_lem _) λ u. fs_write_superblock_lem)
          (bind (set_superblock_lem _) λ u. bind fs_write_superblock_lem λ written.
            branch written (fs_write_block_lem b (store 8 zeros 0 sb.freelist_head))
              (pure_lem {a = false})))

  KeepsRegion-IsKept : IsKept (KeepsRegion s0)
  KeepsRegion-IsKept = record {
    inodes = record { write_inode = λ n buffer valid. fs_write_block_lem _ buffer };
    write_data = write_data_block_lem;
    allocate = allocate_data_block_lem;
    free = free_data_block_lem;
  }

  restart_disk_lem : Preserves (KeepsRegion s0) restart_disk
  unfolding restart_disk fs_close
  restart_disk_lem = bind fs_write_superblock_lem λ written.
      branch written
        (record {
          keeps = λ s k. ends (record { device = k.device; root = k.root; behind = k.behind });
        })
        pure_lem

-- In every state, whatever is on the disk, no request that the program serves writes a block outside
-- the partition, and none changes the device or the root.
pub serve-KeepsRegion :
    (uid gid : ℕ) (qs : List Request) (s : Fs) → Ends (KeepsRegion s) (serve uid gid qs s)
serve-KeepsRegion uid gid qs s =
    (serve_lem uid gid (λ q h. handle_lem uid gid (KeepsRegion-IsKept s) (restart_disk_lem s) q) qs
        (every qs)).keeps
      s (record { device = refl; root = refl; behind = λ b low high. refl })
