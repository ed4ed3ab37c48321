-- ===== src/Examples/Files.antt =====
-- Instances for reading, writing and cutting a file: the calls go to the root, whose inode they treat as
-- that of any file with one block.
use beach_bytes_file_system.Base.{ℕ, ◌<◌, ◌≡◌, refl, some, List, [], ◌∷◌, arith}
use beach_bytes_file_system.Bytes.{Bytes, zeros, copy}
use beach_bytes_file_system.Machine.{Returns}
use beach_bytes_file_system.InodeTable.{load_inode_from_disk}
use beach_bytes_file_system.InodeTable.Entries.{OnlyEntry}
use beach_bytes_file_system.DataBlock.FreeList.{IsAllocator}
use beach_bytes_file_system.FilePath.{slash}
use beach_bytes_file_system.Directory.Tree.{root}
use beach_bytes_file_system.FileRead.{fs_read}
use beach_bytes_file_system.FileRead.Buffer.{Reads}
use beach_bytes_file_system.FileRead.Contents.{IsFile}
use beach_bytes_file_system.FileRead.Path.{available, with_atime, fs_read-Reads}
use beach_bytes_file_system.FileWrite.{fs_write}
use beach_bytes_file_system.FileWrite.Blocks.{IsApart}
use beach_bytes_file_system.FileWrite.RoundTrip.{Wrote}
use beach_bytes_file_system.FileWrite.ReadBack.{
  fs_write-Wrote, write_then_read, read_inode_at-write_inode_at,
}
use beach_bytes_file_system.FileOpen.{fs_truncate, fs_open_file}
use beach_bytes_file_system.FileOpen.Truncate.{IsDirectFile, Emptied, fs_truncate-Emptied}
use beach_bytes_file_system.FileOpen.Reopen.{Stale, fs_open_file-Stale}
use beach_bytes_file_system.Examples.{fresh-IsHealthy, used_superblock}
use beach_bytes_file_system.Examples.Tree.{
  top_inode, top-IsInode, tree_fs, tree-IsAllocator, tree-IsDirectory, top-loaded,
}

abbrev path : List ℕ
path = slash ∷ []

-- the bytes 0, 1, 2 and so on
abbrev counting : Bytes
counting j = j

top-IsFile : IsFile tree_fs used_superblock (157287 ∷ []) top_inode
top-IsFile = record { small = tree-IsDirectory.file; used = tree-IsDirectory.used }

top-IsApart : IsApart tree_fs.disk top_inode
top-IsApart = record {
  distinct = λ k l p q ne. absurd (omega arith);
  addresses = λ k p q. absurd (omega arith);
}

fs_write-Wrote_example :
    Returns
      (λ r s'.
        (r ≡ 20)
        × Wrote 0 top_inode 100 20 counting tree_fs s'
        × IsAllocator s' used_superblock (157287 ∷ [])
        × IsFile s' used_superblock (157287 ∷ []) top_inode)
      (fs_write path counting 20 100 tree_fs)
fs_write-Wrote_example =
    fs_write-Wrote tree_fs used_superblock (157287 ∷ []) path 0 top_inode 100 20 counting
      tree-IsAllocator fresh-IsHealthy root top-loaded top-IsFile top-IsApart (omega arith)
      top-IsInode refl (omega arith) (omega arith)

read_inode_at-write_inode_at_example :
    Returns
      (λ (r, end) s'. (r ≡ 20) × ((j : ℕ) → j < 20 → end j ≡ counting j))
      (write_then_read 0 top_inode counting 20 100 zeros tree_fs)
read_inode_at-write_inode_at_example =
    read_inode_at-write_inode_at tree_fs used_superblock (157287 ∷ []) 0 top_inode 100 20 counting
      zeros tree-IsAllocator fresh-IsHealthy top-IsFile top-IsApart (omega arith) top-IsInode refl
      (omega arith) (omega arith)

fs_read-Reads_example :
    Returns
      (λ (r, end) s'.
        (r ≡ available top_inode 4000 200)
        × Reads tree_fs.disk top_inode 4000
            (available top_inode 4000 200)
            (copy counting 0 zeros 0 200)
            end
        × (load_inode_from_disk 0 s' ≡ some (some (with_atime top_inode tree_fs.clock), s'))
        × OnlyEntry 0 tree_fs.disk s'.disk)
      (fs_read path counting 200 4000 tree_fs)
fs_read-Reads_example =
    fs_read-Reads tree_fs used_superblock (157287 ∷ []) path 0 top_inode 4000 200 counting
      tree-IsAllocator fresh-IsHealthy root top-loaded top-IsFile (omega arith) top-IsInode refl
      (omega arith) (omega arith) (omega arith) (omega arith)

top-IsDirectFile : IsDirectFile used_superblock (157287 ∷ []) top_inode
top-IsDirectFile = record {
  few = omega arith;
  some_blocks = omega arith;
  owns = record {
    used = λ k p q. let e : k ≡ 0 = omega arith in rw e refl;
    apart = λ k l p q r. absurd (omega arith);
  };
  size = omega arith;
  signed = omega arith;
  inode = top-IsInode;
  allocated = refl;
  writable = refl;
}

fs_truncate-Emptied_example :
    Returns
      (λ r s'. (r ≡ 0) × Emptied 0 top_inode tree_fs used_superblock (157287 ∷ []) s')
      (fs_truncate path 0 tree_fs)
fs_truncate-Emptied_example =
    fs_truncate-Emptied tree_fs used_superblock (157287 ∷ []) path 0 top_inode tree-IsAllocator
      fresh-IsHealthy root top-loaded (omega arith) top-IsDirectFile

-- O_TRUNC and O_RDWR
fs_open_file-Stale_example :
    Returns (λ q s'. (q ≡ 0) × Stale 0 top_inode s') (fs_open_file path 514 tree_fs)
fs_open_file-Stale_example =
    fs_open_file-Stale tree_fs used_superblock (157287 ∷ []) path 0 top_inode 514 tree-IsAllocator
      fresh-IsHealthy root top-loaded (omega arith) top-IsDirectFile refl refl
