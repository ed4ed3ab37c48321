-- ===== src/DataBlock/Mount.antt =====
-- A disk that was made by `fs_init` and is mounted in a new process has a valid block allocator.
use beach_bytes_file_system.Base.{ℕ, ◌≡◌, refl, true, false, [], arith}
use beach_bytes_file_system.Machine.{Fs, null, Returns, returns, Returns-mono}
use beach_bytes_file_system.LayerZero.{fs_init, load_fs, new_superblock}
use beach_bytes_file_system.LayerZero.Blocks.{IsHealthy}
use beach_bytes_file_system.LayerZero.Boot.{fs_init-Formatted, load_fs-superblock_block}
use beach_bytes_file_system.DataBlock.FreeList.{in_use, IsAllocator}

-- On a healthy device `fs_init` leaves a disk that a new process can mount, whatever was on it
-- before: `load_FS` succeeds, and then the allocator is valid, with an empty free list and no block
-- in use.
pub load_fs-fs_init :
    (s : Fs)
    → IsHealthy s.device
    → s.device.opens ≡ true
    → Returns
        (λ ok s1.
          (ok ≡ true)
          × Returns
              (λ ok' s2.
                (ok' ≡ true)
                × IsAllocator s2 new_superblock []
                × ((b : ℕ) → in_use new_superblock [] b ≡ false))
              (load_fs (record s1 { fs_superblock = null })))
        (fs_init s)
load_fs-fs_init s h opens =
    Returns-mono
      (λ ok s1 (e, f). (
        e,
        let h1 : IsHealthy s1.device = rw f.device h in
            let opens1 : s1.device.opens ≡ true = rw f.device opens in
            rw
              (load_fs-superblock_block s1 new_superblock h1 opens1 (omega arith) (omega arith)
                f.on_disk)
              (returns (
                refl,
                record {
                  loaded = refl;
                  on_disk = f.on_disk;
                  chain = refl;
                  cleared = λ x k m low. cc;
                  listed = tt;
                  above = omega arith;
                  below = omega arith;
                },
                λ b. ground arith,
              )),
      ))
      (fs_init-Formatted s h)
