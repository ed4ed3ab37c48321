-- ===== src/FileRead/Path.antt =====
-- Reading a file by its path.
use beach_bytes_file_system.Base.{
  ℕ, ◌+◌, ◌-◌, ◌*◌, ◌%◌, ◌^◌, ◌≤◌, ◌<◌, ◌≡◌, refl, inl, inr, true, false, some, List, arith, ltb,
  ◌==◌, if◌then◌else◌,
}
use beach_bytes_file_system.Bytes.{Bytes, zeros, copy, minus_one, lt64, le64}
use beach_bytes_file_system.Config.{Inode, Superblock, inode_block_count}
use beach_bytes_file_system.Config.Images.{IsInode}
use beach_bytes_file_system.Config.Update.{update-IsInode}
use beach_bytes_file_system.Machine.{Fs, Returns, returns, ◌>>=◌}
use beach_bytes_file_system.LayerZero.Blocks.{IsHealthy}
use beach_bytes_file_system.DataBlock.FreeList.{IsAllocator}
use beach_bytes_file_system.InodeTable.{load_inode_from_disk}
use beach_bytes_file_system.InodeTable.Entries.{OnlyEntry, write_inode_to_disk-disk}
use beach_bytes_file_system.Directory.Tree.{Resolves, get_inode_of_file-Resolves}
use beach_bytes_file_system.FileRead.Buffer.{Reads}
use beach_bytes_file_system.FileRead.Contents.{IsFile, read_blocks-Reads}
use beach_bytes_file_system.FileRead.{read_inode_at, within, fs_read}

-- how many bytes there are from `offset` on, `n` at most
abbrev pub available : Inode → ℕ → ℕ → ℕ
available node offset n = if ltb node.file_size (offset + n) then node.file_size - offset else n

abbrev pub with_atime : Inode → ℕ → Inode
with_atime node clock = record node { atime = clock % 2 ^ 32 }

with_atime-IsInode : (node : Inode) (clock : ℕ) → IsInode node → IsInode (with_atime node clock)
with_atime-IsInode node clock is =
    update-IsInode node node.file_size node.blocks node.ctime node.mtime (clock % 2 ^ 32)
      node.direct_addresses (inl refl) (inl refl) (inl refl) (inl refl) (inr (omega arith))
      (λ k. inl refl) is

module _ (s : Fs) (sb : Superblock) (free : List ℕ) (inum : ℕ) (node : Inode) (offset n : ℕ)
    (out : Bytes) (v : IsAllocator s sb free) (h : IsHealthy s.device) (f : IsFile s sb free node)
    (low : inum < inode_block_count) (is : IsInode node) (alloc : node.is_allocated ≡ true)
    (positive : 0 < n) (short : n < 2 ^ 63) (inside : offset < node.file_size)
    (fits : node.file_size ≤ 4096 * node.blocks) where
  within-available : within node offset n ≡ available node offset n
  within-available = ground (arith, f.small.small)

  pub read_inode_at-Reads :
      Returns
        (λ (r, end) s'.
          (r ≡ available node offset n)
          × Reads s.disk node offset (available node offset n) out end
          × (load_inode_from_disk inum s' ≡ some (some (with_atime node s.clock), s'))
          × OnlyEntry inum s.disk s'.disk)
        (read_inode_at inum node out n offset s)
  unfolding read_inode_at
  read_inode_at-Reads =
      let some_bytes : (node.file_size == 0) ≡ false = ground arith in
      let before_end : le64 node.file_size offset ≡ false = ground (arith, f.small.small) in
      let (end, run, reads) =
        read_blocks-Reads s sb free node offset (available node offset n) out v h f (ground arith)
          (ground arith) in
      let (d', put, back, only) =
        write_inode_to_disk-disk s inum (with_atime node s.clock) h low
          (with_atime-IsInode node s.clock is) alloc in
      rw (some_bytes, before_end, within-available, ◌>>=◌, run, put)
        (returns (refl, reads, back, only))

-- With a valid allocator on a healthy device, and on a tree of directories of up to 522 blocks: let a
-- path have a valid, allocated inode whose blocks, 522 at most, are in use and hold its size. Then
-- `fs_read` of `n` bytes, at least one and below 2 ^ 63, from an offset inside the file returns how many bytes the file has there, `n` at most. They stand at the front of
-- the buffer, then zeros up to `n`, and behind that the buffer is as it was. Only the inode's time of
-- access changes.
pub fs_read-Reads :
    (s : Fs) (sb : Superblock) (free path : List ℕ) (inum : ℕ) (node : Inode) (offset n : ℕ)
    (buff : Bytes)
    → IsAllocator s sb free
    → IsHealthy s.device
    → Resolves s sb free path inum
    → load_inode_from_disk inum s ≡ some (some node, s)
    → IsFile s sb free node
    → inum < inode_block_count
    → IsInode node
    → node.is_allocated ≡ true
    → 0 < n
    → n < 2 ^ 63
    → offset < node.file_size
    → node.file_size ≤ 4096 * node.blocks
    → Returns
        (λ (r, end) s'.
          (r ≡ available node offset n)
          × Reads s.disk node offset (available node offset n) (copy buff 0 zeros 0 n) end
          × (load_inode_from_disk inum s' ≡ some (some (with_atime node s.clock), s'))
          × OnlyEntry inum s.disk s'.disk)
        (fs_read path buff n offset s)
unfolding fs_read
fs_read-Reads s sb free path inum node offset n buff v h r got f low is alloc positive short inside
      fits =
    let some_bytes : (n == 0) ≡ false = ground arith in
    let not_before : lt64 offset 0 ≡ false = ground (arith, f.small.small) in
    let some_inode : (inum == minus_one) ≡ false = ground arith in
    rw
      (
        some_bytes,
        not_before,
        ◌>>=◌,
        get_inode_of_file-Resolves s sb free path inum v h r,
        some_inode,
        got,
      )
      (read_inode_at-Reads s sb free inum node offset n (copy buff 0 zeros 0 n) v h f low is alloc
        positive short inside fits)
