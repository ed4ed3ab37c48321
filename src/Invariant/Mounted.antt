-- ===== src/Invariant/Mounted.antt =====
-- While the file system is mounted the superblock on the disk is the one in memory.
use beach_bytes_file_system.Base.{
  ℕ, ◌-◌, ◌≤◌, ◌<◌, ◌≡◌, refl, ◌≢◌, ◌∙◌, ◌⊎◌, inl, inr, true, false, none, some, List, arith, ◌==◌,
  Bool-cases,
}
use beach_bytes_file_system.Bytes.{Bytes, zeros, store}
use beach_bytes_file_system.Config.{Superblock, inode_block_count, num_of_data_blocks}
use beach_bytes_file_system.Machine.{Fs, live, set_block}
use beach_bytes_file_system.LayerZero.{
  is_block_out_of_range, fs_read_block, fs_write_block, superblock_block,
}
use beach_bytes_file_system.LayerZero.Blocks.{IsHealthy, fs_write_superblock-ok}
use beach_bytes_file_system.DataBlock.{
  is_no_data_block, allocate_from_list, write_data_block, allocate_data_block, free_data_block,
}
use beach_bytes_file_system.DataBlock.Steps.{
  with_superblock, push_list, pop_list, allocate_fresh, allocate_full, free_top,
}
use beach_bytes_file_system.Fuse.{Request, serve}
use beach_bytes_file_system.Invariant.{pure_lem, Ends, ends, Ends-if, Preserves}
use beach_bytes_file_system.Invariant.Blocks.{IsKept}
use beach_bytes_file_system.Invariant.Serve.{IsServed, All, served_lem, serve_lem}

-- A live superblock that block 0 holds as well, with its bound in the data area, on a healthy device.
pub record IsMounted (s : Fs) : Type 0 where
  pub healthy : IsHealthy s.device
  pub sb : Superblock
  pub loaded : s.fs_superblock ≡ live sb
  pub on_disk : s.disk 0 ≡ superblock_block sb
  pub above : inode_block_count < sb.max_alloc
  pub below : sb.max_alloc ≤ num_of_data_blocks

IsMounted-set_block :
    (s : Fs) (b : ℕ) (buffer : Bytes)
    → b ≢ 0
    → IsMounted s
    → IsMounted (record s { disk = set_block s.disk b buffer })
IsMounted-set_block s b buffer ne m = record {
  healthy = m.healthy;
  sb = m.sb;
  loaded = m.loaded;
  on_disk = ground arith ∙ m.on_disk;
  above = m.above;
  below = m.below;
}

fs_write_block_lem :
    (b : ℕ) (buffer : Bytes) → b ≢ 0 → Preserves IsMounted (fs_write_block b buffer)
unfolding fs_write_block
fs_write_block_lem b buffer ne = record {
  keeps = λ s m.
      Ends-if (is_block_out_of_range b) (ends m)
        (Ends-if (s.device.writable b) (ends (IsMounted-set_block s b buffer ne m)) (ends m));
}

write_data_block_lem : (b : ℕ) (buffer : Bytes) → Preserves IsMounted (write_data_block b buffer)
unfolding write_data_block
write_data_block_lem b buffer = elim (Bool-cases (is_no_data_block b)) [
  | inl e ↦ rw e pure_lem
  | inr e ↦ rw e (fs_write_block_lem b buffer (ground arith))
]

-- a new superblock that is in block 0 as well
with_superblock-IsMounted :
    (s : Fs) (d : ℕ → Bytes) (sb : Superblock)
    → IsHealthy s.device
    → inode_block_count < sb.max_alloc
    → sb.max_alloc ≤ num_of_data_blocks
    → IsMounted (with_superblock s d sb)
with_superblock-IsMounted s d sb h above below = record {
  healthy = h;
  sb = sb;
  loaded = refl;
  on_disk = ground arith;
  above = above;
  below = below;
}

fs_read_block-cases :
    (b : ℕ) (s : Fs)
    → (fs_read_block b s ≡ some (none, s)) ⊎ (fs_read_block b s ≡ some (some (s.disk b), s))
unfolding fs_read_block
fs_read_block-cases b s = elim (Bool-cases (is_block_out_of_range b)) [
  | inl e ↦ inl (rw e)
  | inr e ↦ elim (Bool-cases (s.device.readable b)) [
    | inl f ↦ inr (rw (e, f))
    | inr f ↦ inl (rw (e, f))
  ]
]

module _ (s : Fs) (m : IsMounted s) where
  allocate_unread :
      m.sb.max_alloc ≡ num_of_data_blocks
      → m.sb.freelist_head ≢ 0
      → fs_read_block m.sb.freelist_head s ≡ some (none, s)
      → allocate_data_block s ≡ some (0, s)
  unfolding allocate_data_block allocate_from_list
  allocate_unread full ne e = ground (arith, m.loaded)

  allocate_popped :
      m.sb.max_alloc ≡ num_of_data_blocks
      → m.sb.freelist_head ≢ 0
      → fs_read_block m.sb.freelist_head s ≡ some (some (s.disk m.sb.freelist_head), s)
      → allocate_data_block s
        ≡ some (m.sb.freelist_head, with_superblock s s.disk (pop_list s m.sb))
  unfolding allocate_data_block allocate_from_list
  allocate_popped full ne e =
      let s1 : Fs = record s { fs_superblock = live (pop_list s m.sb) } in
      ground (arith, m.loaded, fs_write_superblock-ok s1 m.healthy (pop_list s m.sb) refl)

  allocate_at_bound : m.sb.max_alloc ≡ num_of_data_blocks → Ends IsMounted (allocate_data_block s)
  allocate_at_bound full = elim (Bool-cases (m.sb.freelist_head == 0)) [
    | inl e ↦
        rw (allocate_full s m.sb m.healthy m.loaded m.above m.below (ground arith) full) (ends m)
    | inr e ↦ elim (fs_read_block-cases m.sb.freelist_head s) [
      | inl f ↦ rw (allocate_unread full (ground arith) f) (ends m)
      | inr f ↦
          rw (allocate_popped full (ground arith) f)
            (ends (with_superblock-IsMounted s _ _ m.healthy m.above m.below))
    ]
  ]

allocate_data_block_lem : Preserves IsMounted allocate_data_block
allocate_data_block_lem = record {
  keeps = λ s m. elim (Bool-cases (m.sb.max_alloc == num_of_data_blocks)) [
    | inl e ↦ allocate_at_bound s m (ground arith)
    | inr e ↦ rw (allocate_fresh s m.sb m.healthy m.loaded m.above m.below (ground arith)) (
        ends (
          with_superblock-IsMounted s _ _ m.healthy (omega (arith, m.above))
            (ground (arith, m.below))))
  ];
}

free_refused : (b : ℕ) (s : Fs) → is_no_data_block b ≡ true → free_data_block b s ≡ some (false, s)
unfolding free_data_block
free_refused b s e = rw e refl

-- the free list gets the block, and then its link is written
free_listed :
    (s : Fs) (m : IsMounted s) (b : ℕ)
    → is_no_data_block b ≡ false
    → b ≢ m.sb.max_alloc - 1
    → free_data_block b s
      ≡ fs_write_block b
          (store 8 zeros 0 m.sb.freelist_head)
          (with_superblock s s.disk (push_list b m.sb))
unfolding free_data_block
free_listed s m b e ne =
    let s1 : Fs = record s { fs_superblock = live (push_list b m.sb) } in
    ground (arith, m.loaded, fs_write_superblock-ok s1 m.healthy (push_list b m.sb) refl)

free_data_block_lem : (b : ℕ) → Preserves IsMounted (free_data_block b)
free_data_block_lem b = record {
  keeps = λ s m. elim (Bool-cases (is_no_data_block b)) [
    | inl e ↦ rw (free_refused b s e) (ends m)
    | inr e ↦ elim (Bool-cases (b == m.sb.max_alloc - 1)) [
      | inl top ↦
          rw (free_top s m.sb m.healthy m.loaded m.above m.below b (ground arith) (ground arith)) (
            ends
              (with_superblock-IsMounted s _ _ m.healthy (ground arith) (omega (arith, m.below))))
      | inr inner ↦ rw (free_listed s m b e (ground arith)) (
          (fs_write_block_lem b _ (ground arith)).keeps _
            (with_superblock-IsMounted s _ _ m.healthy m.above m.below))
    ]
  ];
}

IsMounted-IsKept : IsKept IsMounted
IsMounted-IsKept = record {
  inodes = record { write_inode = λ n buffer valid. fs_write_block_lem _ buffer (omega arith) };
  write_data = write_data_block_lem;
  allocate = allocate_data_block_lem;
  free = free_data_block_lem;
}

-- On a mounted file system, whatever else is on the disk, requests other than `destroy` leave the
-- file system mounted when the program serves them: after each the superblock in block 0 is the one in
-- memory, and its bound on the blocks lies in the data area.
pub serve-IsMounted :
    (uid gid : ℕ) (qs : List Request) (s : Fs)
    → IsMounted s
    → All IsServed qs
    → Ends IsMounted (serve uid gid qs s)
serve-IsMounted uid gid qs s m h =
    (serve_lem uid gid (λ q h. served_lem uid gid IsMounted-IsKept h) qs h).keeps s m
