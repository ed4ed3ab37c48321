-- ===== src/Invariant/Looking.antt =====
-- What the requests that only look or only set attributes leave alone, in any state.
use beach_bytes_file_system.Base.{ℕ, ◌≤◌, ◌<◌, ◌≡◌, refl, ◌≢◌, ◌∙◌, true, List, arith}
use beach_bytes_file_system.Config.{block_count, inode_block_count}
use beach_bytes_file_system.Machine.{Fs}
use beach_bytes_file_system.LayerZero.{is_block_out_of_range, fs_write_block}
use beach_bytes_file_system.InodeTable.{block_of, inode_num_valid}
use beach_bytes_file_system.Fuse.{Request, serve}
use beach_bytes_file_system.Invariant.{Ends, ends, Ends-if}
use beach_bytes_file_system.Invariant.Blocks.{KeepsInodes}
use beach_bytes_file_system.Invariant.Serve.{
  IsQuery, IsOnInodes, All, query_lem, on_inodes_lem, serve_lem,
}

-- In every state, whatever is on the disk, getattr, access, readdir and chown requests that the
-- program serves leave the whole state as it was: the disk, the superblock, the root and the device.
pub serve-IsQuery :
    (uid gid : ℕ) (qs : List Request) (s : Fs)
    → All IsQuery qs
    → Ends (λ s'. s' ≡ s) (serve uid gid qs s)
serve-IsQuery uid gid qs s h = (serve_lem uid gid (λ q h. query_lem uid gid h) qs h).keeps s refl

-- the superblock, the blocks outside the inode list, the root and the device are those of `s0`
pub record KeepsData (s0 s : Fs) : Type 0 where
  pub device : s.device ≡ s0.device
  pub superblock : s.fs_superblock ≡ s0.fs_superblock
  pub root : s.root_dir_inode_num ≡ s0.root_dir_inode_num
  pub block_zero : s.disk 0 ≡ s0.disk 0
  pub data_blocks : (b : ℕ) → inode_block_count < b → b ≤ block_count → s.disk b ≡ s0.disk b

block_of-data :
    (n b : ℕ) → inode_num_valid n ≡ true → inode_block_count < b → b ≤ block_count → b ≢ block_of n
block_of-data n b h low high = ground arith

KeepsInodes-KeepsData : (s0 : Fs) → KeepsInodes (KeepsData s0)
unfolding fs_write_block
KeepsInodes-KeepsData s0 = record {
  write_inode = λ n buffer valid. record {
    keeps = λ s k. Ends-if (is_block_out_of_range (block_of n)) (ends k) (
        Ends-if (s.device.writable (block_of n))
          (ends (record {
            device = k.device;
            superblock = k.superblock;
            root = k.root;
            block_zero = (let ne : 0 ≢ block_of n = omega arith in ground arith) ∙ k.block_zero;
            data_blocks = λ b low high.
                (let ne = block_of-data n b valid low high in ground arith)
                ∙ k.data_blocks b low high;
          }))
          (ends k));
  };
}

-- In every state, requests that look only, set a mode or times, or read a file, as many of them as
-- the program serves, leave every data block, the superblock, the root and the device as they were.
pub serve-IsOnInodes :
    (uid gid : ℕ) (qs : List Request) (s : Fs)
    → All IsOnInodes qs
    → Ends (KeepsData s) (serve uid gid qs s)
serve-IsOnInodes uid gid qs s h =
    (serve_lem uid gid (λ q h. on_inodes_lem uid gid (KeepsInodes-KeepsData s) h) qs h).keeps s
      (record {
        device = refl;
        superblock = refl;
        root = refl;
        block_zero = refl;
        data_blocks = λ b low high. refl;
      })
