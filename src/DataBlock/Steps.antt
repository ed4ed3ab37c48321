-- ===== src/DataBlock/Steps.antt =====
-- The state after each successful path of the allocator, written out.
use beach_bytes_file_system.Base.{ℕ, ◌+◌, ◌-◌, ◌≤◌, ◌<◌, ◌≡◌, refl, ◌≢◌, true, false, some, arith}
use beach_bytes_file_system.Bytes.{Bytes, zeros, load, store, minus_one}
use beach_bytes_file_system.Config.{Superblock, block_count, inode_block_count, num_of_data_blocks}
use beach_bytes_file_system.Machine.{Fs, live, set_block}
use beach_bytes_file_system.LayerZero.{superblock_block}
use beach_bytes_file_system.LayerZero.Blocks.{
  IsHealthy, fs_read_block-ok, fs_write_block-ok, fs_write_superblock-ok,
}
use beach_bytes_file_system.DataBlock.{
  is_no_data_block, read_data_block, write_data_block, allocate_at_max, allocate_from_list,
  allocate_data_block, free_data_block,
}

pub data_block : (b : ℕ) → inode_block_count < b → b < block_count → is_no_data_block b ≡ false
data_block b h k = ground arith

module _ (s : Fs) (healthy : IsHealthy s.device) where
  pub read_data_block-ok :
      (b : ℕ)
      → inode_block_count < b
      → b < block_count
      → read_data_block b s ≡ some (some (s.disk b), s)
  unfolding read_data_block
  read_data_block-ok b h k = rw (data_block b h k) (fs_read_block-ok s healthy b k)

  pub write_data_block-ok :
      (b : ℕ) (buffer : Bytes)
      → inode_block_count < b
      → b < block_count
      → write_data_block b buffer s ≡ some (true, record s { disk = set_block s.disk b buffer })
  unfolding write_data_block
  write_data_block-ok b buffer h k = rw (data_block b h k) (fs_write_block-ok s healthy b buffer k)

-- the superblock's new value in memory and in block 0, over the disk `d`
abbrev pub with_superblock : Fs → (ℕ → Bytes) → Superblock → Fs
with_superblock s d sb = record s {
  disk = set_block d 0 (superblock_block sb);
  fs_superblock = live sb;
}

abbrev pub bump_max : Superblock → Superblock
bump_max sb = record sb { max_alloc = sb.max_alloc + 1 }

abbrev pub pop_list : Fs → Superblock → Superblock
pop_list s sb = record sb { freelist_head = load 8 (s.disk sb.freelist_head) 0 }

abbrev pub drop_max : Superblock → Superblock
drop_max sb = record sb { max_alloc = sb.max_alloc - 1 }

abbrev pub push_list : ℕ → Superblock → Superblock
push_list b sb = record sb { freelist_head = b }

module _ (s : Fs) (sb : Superblock) (healthy : IsHealthy s.device)
    (loaded : s.fs_superblock ≡ live sb) (above : inode_block_count < sb.max_alloc)
    (below : sb.max_alloc ≤ num_of_data_blocks) where
  pub allocate_full :
      sb.freelist_head ≡ 0
      → sb.max_alloc ≡ num_of_data_blocks
      → allocate_data_block s ≡ some (minus_one, s)
  unfolding allocate_data_block allocate_at_max allocate_from_list
  allocate_full e f = ground arith

  pub allocate_fresh :
      sb.max_alloc ≢ num_of_data_blocks
      → allocate_data_block s
        ≡ some (sb.max_alloc, with_superblock s (set_block s.disk sb.max_alloc zeros) (bump_max sb))
  unfolding allocate_data_block allocate_at_max allocate_from_list
  allocate_fresh ne =
      let s1 : Fs = record s { fs_superblock = live (bump_max sb) } in
      let s2 : Fs = record s1 { disk = set_block s.disk sb.max_alloc zeros } in
      let e1 = write_data_block-ok s1 healthy sb.max_alloc zeros (omega arith) (omega arith) in
      let e2 = fs_write_superblock-ok s2 healthy (bump_max sb) refl in ground (arith, e1, e2)

  pub allocate_reused :
      sb.max_alloc ≡ num_of_data_blocks
      → sb.freelist_head ≢ 0
      → sb.freelist_head < block_count
      → allocate_data_block s ≡ some (sb.freelist_head, with_superblock s s.disk (pop_list s sb))
  unfolding allocate_data_block allocate_at_max allocate_from_list
  allocate_reused full ne k =
      let s1 : Fs = record s { fs_superblock = live (pop_list s sb) } in
      let e1 = fs_read_block-ok s healthy sb.freelist_head k in
      let e2 = fs_write_superblock-ok s1 healthy (pop_list s sb) refl in ground (arith, e1, e2)

  pub free_top :
      (b : ℕ)
      → b ≡ sb.max_alloc - 1
      → inode_block_count < b
      → free_data_block b s ≡ some (true, with_superblock s s.disk (drop_max sb))
  unfolding free_data_block
  free_top b e h =
      let s1 : Fs = record s { fs_superblock = live (drop_max sb) } in
      ground (arith, fs_write_superblock-ok s1 healthy (drop_max sb) refl)

  pub free_inner :
      (b : ℕ)
      → b ≢ sb.max_alloc - 1
      → inode_block_count < b
      → b < block_count
      → free_data_block b s
        ≡ some (
          true,
          record s {
            disk =
                set_block
                  (set_block s.disk 0 (superblock_block (push_list b sb)))
                  b
                  (store 8 zeros 0 sb.freelist_head);
            fs_superblock = live (push_list b sb);
          },
        )
  unfolding free_data_block
  free_inner b ne h k =
      let s1 : Fs = record s { fs_superblock = live (push_list b sb) } in
      let d : ℕ → Bytes = set_block s.disk 0 (superblock_block (push_list b sb)) in
      let s2 : Fs = record s1 { disk = d } in
      let link : Bytes = store 8 zeros 0 sb.freelist_head in
      ground (
        arith,
        fs_write_superblock-ok s1 healthy (push_list b sb) refl,
        fs_write_block-ok s2 healthy b link k,
      )
