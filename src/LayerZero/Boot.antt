-- ===== src/LayerZero/Boot.antt =====
-- Making a file system, and mounting it again: what `fs_init`, `load_FS` and `restartDisk` do to the
-- superblock and the inode list.
use beach_bytes_file_system.Base.{
  ℕ, zero, suc, ◌+◌, ◌≤◌, ◌<◌, ◌≡◌, refl, ◌≢◌, ◌∙◌, ◌⊎◌, true, none, some, arith,
}
use beach_bytes_file_system.Bytes.{zeros}
use beach_bytes_file_system.Config.{Superblock, block_count, inode_block_count, read_superblock}
use beach_bytes_file_system.Config.Images.{IsSuperblock, read-superblock_image}
use beach_bytes_file_system.Machine.{
  Fs, null, dangling, live, set_block, Returns, returns, Returns-mono, Returns-bind, ◌>>=◌,
}
use beach_bytes_file_system.LayerZero.{
  create_ilist_loop, fs_create_ilist, fs_create_superblock, fs_init, load_fs, restart_disk,
  new_superblock, superblock_block, fs_open, fs_close,
}
use beach_bytes_file_system.LayerZero.Blocks.{
  IsHealthy, fs_read_block-ok, fs_write_block-ok, fs_write_superblock-ok,
}

-- blocks `b` to `b + n - 1` are zero and the others as before
pub record Cleared (n b : ℕ) (s s' : Fs) : Type 0 where
  pub inside : (j : ℕ) → b ≤ j → j < b + n → s'.disk j ≡ zeros
  pub outside : (j : ℕ) → (j < b) ⊎ (b + n ≤ j) → s'.disk j ≡ s.disk j
  pub pointer : s'.fs_superblock ≡ s.fs_superblock
  pub device : s'.device ≡ s.device

Cleared-first :
    (n b : ℕ) {s s' : Fs}
    → Cleared n (b + 1) (record s { disk = set_block s.disk b zeros }) s'
    → Cleared (suc n) b s s'
Cleared-first n b {s} {s'} c = record {
  inside = λ j p q. first j p q;
  outside = λ j p. c.outside j (omega arith) ∙ ground arith;
  pointer = c.pointer;
  device = c.device;
}
  where
    first : (j : ℕ) → b ≤ j → j < b + suc n → s'.disk j ≡ zeros
    first j p q = ground (arith, c.inside j, c.outside j)

create_ilist_loop-Cleared :
    (n b : ℕ) (s : Fs)
    → IsHealthy s.device
    → b + n ≤ block_count
    → Returns (λ ok s'. (ok ≡ true) × Cleared n b s s') (create_ilist_loop n b s)
unfolding create_ilist_loop
create_ilist_loop-Cleared zero b s h fits = returns (
  refl,
  record {
    inside = λ j p q. absurd (omega arith);
    outside = λ j p. refl;
    pointer = refl;
    device = refl;
  },
)
create_ilist_loop-Cleared (suc n) b s h fits =
    rw (fs_write_block-ok s h b zeros (omega arith), ◌>>=◌)
      (Returns-mono (λ ok s' (e, c). (e, Cleared-first n b c))
        (create_ilist_loop-Cleared n (b + 1) (record s { disk = set_block s.disk b zeros }) h
          (omega arith)))

new-IsSuperblock : IsSuperblock new_superblock
new-IsSuperblock = omega arith

-- what `fs_init` leaves: a superblock in memory and in block 0, and an inode list of zeros
pub record Formatted (s s' : Fs) : Type 0 where
  pub loaded : s'.fs_superblock ≡ live new_superblock
  pub on_disk : s'.disk 0 ≡ superblock_block new_superblock
  pub ilist : (j : ℕ) → 1 ≤ j → j ≤ inode_block_count → s'.disk j ≡ zeros
  pub rest : (j : ℕ) → inode_block_count < j → s'.disk j ≡ s.disk j
  pub device : s'.device ≡ s.device

-- On a healthy device `fs_init` succeeds from any state. It writes the fresh superblock, clears the
-- whole inode list, and leaves every later block alone.
pub fs_init-Formatted :
    (s : Fs) → IsHealthy s.device → Returns (λ ok s'. (ok ≡ true) × Formatted s s') (fs_init s)
unfolding fs_init fs_create_superblock fs_create_ilist fs_open fs_close
fs_init-Formatted s h =
    let s1 : Fs = record s { fs_superblock = live new_superblock } in
    let s2 : Fs = record s1 { disk = set_block s.disk 0 (superblock_block new_superblock) } in
    rw (fs_write_superblock-ok s1 h new_superblock refl, ◌>>=◌)
      (Returns-bind (create_ilist_loop inode_block_count 1) _ s2
        (create_ilist_loop-Cleared inode_block_count 1 s2 h (omega arith))
        λ ok s' (e, c). rw e (
          returns (
            refl,
            record {
              loaded = c.pointer;
              on_disk = c.outside 0 (omega arith);
              ilist = λ j p q. c.inside j p (omega arith);
              rest = λ j p. c.outside j (omega arith) ∙ ground arith;
              device = c.device;
            },
          )))

-- A new process, whose pointer is still NULL, mounts a disk that holds the image of `sb`.
pub load_fs-superblock_block :
    (s : Fs) (sb : Superblock)
    → IsHealthy s.device
    → s.device.opens ≡ true
    → IsSuperblock sb
    → sb.inodes_count ≢ 0
    → s.disk 0 ≡ superblock_block sb
    → load_fs (record s { fs_superblock = null })
      ≡ some (true, record s { fs_superblock = live sb })
unfolding load_fs fs_open
load_fs-superblock_block s sb healthy opens fits inodes on_disk =
    let s0 : Fs = record s { fs_superblock = null } in
    let back : read_superblock (s.disk 0) ≡ sb = rw on_disk (read-superblock_image zeros sb fits) in
    ground (arith, fs_read_block-ok s0 healthy 0 (omega arith), back)

-- the state that `restartDisk` leaves
abbrev unmounted : Fs → Superblock → Fs
unmounted s sb = record s {
  disk = set_block s.disk 0 (superblock_block sb);
  fs_superblock = dangling;
}

restart_disk-ok :
    (s : Fs) (sb : Superblock)
    → IsHealthy s.device
    → s.fs_superblock ≡ live sb
    → restart_disk s ≡ some (tt, unmounted s sb)
unfolding restart_disk fs_close
restart_disk-ok s sb healthy loaded = ground (arith, fs_write_superblock-ok s healthy sb loaded)

-- Unmounting and mounting again in a new process restores the superblock and keeps every block
-- but block 0.
pub load_fs-restart_disk :
    (s : Fs) (sb : Superblock)
    → IsHealthy s.device
    → s.device.opens ≡ true
    → IsSuperblock sb
    → sb.inodes_count ≢ 0
    → s.fs_superblock ≡ live sb
    → Returns
        (λ _ s'.
          (load_fs (record s' { fs_superblock = null })
            ≡ some (true, record s' { fs_superblock = live sb }))
          × ((j : ℕ) → j ≢ 0 → s'.disk j ≡ s.disk j))
        (restart_disk s)
load_fs-restart_disk s sb healthy opens fits inodes loaded =
    rw (restart_disk-ok s sb healthy loaded) (
      returns (
        load_fs-superblock_block (unmounted s sb) sb healthy opens fits inodes refl,
        λ j n. ground arith,
      ))

-- Mounting again in the same process is undefined: `restartDisk` frees `fs_superblock` and leaves
-- the pointer, so `load_FS` copies the superblock into freed memory.
pub load_fs_after_restart :
    (s : Fs) (sb : Superblock)
    → IsHealthy s.device
    → s.device.opens ≡ true
    → s.fs_superblock ≡ live sb
    → (restart_disk >>= λ _. load_fs) s ≡ none
unfolding load_fs fs_open
load_fs_after_restart s sb healthy opens loaded = ground (
  arith,
  restart_disk-ok s sb healthy loaded,
  fs_read_block-ok (unmounted s sb) healthy 0 (omega arith),
)
