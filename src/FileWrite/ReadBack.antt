-- ===== src/FileWrite/ReadBack.antt =====
-- Writing to a path, and reading back what was written.
use beach_bytes_file_system.Base.{
  ℕ, ◌+◌, ◌*◌, ◌≤◌, ◌<◌, ◌≡◌, ◌∙◌, true, false, some, List, arith, ◌==◌,
}
use beach_bytes_file_system.Bytes.{Bytes, minus_one, lt64}
use beach_bytes_file_system.Config.{Inode, Superblock, inode_block_count}
use beach_bytes_file_system.Config.Images.{IsInode}
use beach_bytes_file_system.Machine.{M, Fs, Returns, Returns-bind, Returns-mono, ◌>>=◌, deref}
use beach_bytes_file_system.LayerZero.Blocks.{IsHealthy}
use beach_bytes_file_system.DataBlock.FreeList.{IsAllocator}
use beach_bytes_file_system.InodeTable.{load_inode_from_disk}
use beach_bytes_file_system.Directory.Tree.{Resolves, get_inode_of_file-Resolves}
use beach_bytes_file_system.FileRead.{read_inode_at}
use beach_bytes_file_system.FileRead.Contents.{IsFile}
use beach_bytes_file_system.FileRead.Path.{available, read_inode_at-Reads}
use beach_bytes_file_system.FileWrite.{write_inode_at, fs_write}
use beach_bytes_file_system.FileWrite.Blocks.{IsApart}
use beach_bytes_file_system.FileWrite.RoundTrip.{
  after_write, after_write-IsInode, Wrote, write_inode_at-Wrote,
}

-- With a valid allocator on a healthy device, and on a tree of directories of up to 522 blocks: let a
-- path have a valid, allocated inode whose blocks, 522 at most, are in use and differ from each other
-- and from its block of addresses. Then `fs_write` of at least one byte inside these blocks returns the
-- number of bytes. The bytes of the file there are those of the buffer and its other bytes stay; the
-- inode gets the end of the data as its size, also when the file was longer, and a new time; no other
-- inode and no other block changes, and the allocator and the file stay valid.
pub fs_write-Wrote :
    (s : Fs) (sb : Superblock) (free path : List ℕ) (inum : ℕ) (node : Inode) (offset n : ℕ)
    (buff : Bytes)
    → IsAllocator s sb free
    → IsHealthy s.device
    → Resolves s sb free path inum
    → load_inode_from_disk inum s ≡ some (some node, s)
    → IsFile s sb free node
    → IsApart s.disk node
    → inum < inode_block_count
    → IsInode node
    → node.is_allocated ≡ true
    → 0 < n
    → offset + n ≤ 4096 * node.blocks
    → Returns
        (λ r s'.
          (r ≡ n)
          × Wrote inum node offset n buff s s'
          × IsAllocator s' sb free
          × IsFile s' sb free node)
        (fs_write path buff n offset s)
unfolding fs_write
fs_write-Wrote s sb free path inum node offset n buff v h r got f apart low is alloc positive fits =
    let some_bytes : (n == 0) ≡ false = ground arith in
    let not_before : lt64 offset 0 ≡ false = ground (arith, f.small.small) in
    let some_inode : (inum == minus_one) ≡ false = ground arith in
    rw
      (
        some_bytes,
        not_before,
        ◌>>=◌,
        get_inode_of_file-Resolves s sb free path inum v h r,
        some_inode,
        got,
      )
      (write_inode_at-Wrote s sb free inum node offset n buff v h f apart low is alloc positive
        fits)

-- write, load the inode again, read the same part into another buffer
abbrev pub write_then_read : ℕ → Inode → Bytes → ℕ → ℕ → Bytes → M (ℕ × Bytes)
write_then_read inum node buff n offset out = do
  _ ← write_inode_at inum node buff n offset
  loaded ← load_inode_from_disk inum
  node' ← deref loaded
  read_inode_at inum node' out n offset

-- With a valid allocator on a healthy device, and for a valid, allocated inode whose blocks, 522 at
-- most, are in use and differ from each other and from its block of addresses: what is written inside
-- the blocks, one byte at least, is read back: the read returns `n`, and the first `n` bytes of its
-- buffer are those that were written.
pub read_inode_at-write_inode_at :
    (s : Fs) (sb : Superblock) (free : List ℕ) (inum : ℕ) (node : Inode) (offset n : ℕ)
    (buff out : Bytes)
    → IsAllocator s sb free
    → IsHealthy s.device
    → IsFile s sb free node
    → IsApart s.disk node
    → inum < inode_block_count
    → IsInode node
    → node.is_allocated ≡ true
    → 0 < n
    → offset + n ≤ 4096 * node.blocks
    → Returns
        (λ (r, end) s'. (r ≡ n) × ((j : ℕ) → j < n → end j ≡ buff j))
        (write_then_read inum node buff n offset out s)
read_inode_at-write_inode_at s sb free inum node offset n buff out v h f apart low is alloc positive
      fits =
    Returns-bind (write_inode_at inum node buff n offset) _ s
      (write_inode_at-Wrote s sb free inum node offset n buff v h f apart low is alloc positive
        fits)
      λ r s' (e, w, v', f').
        let h' : IsHealthy s'.device = rw w.frame h in
        let node' : Inode = after_write node (offset + n) s.clock in
        let file : IsFile s' sb free node' = record {
          small = record { small = f'.small.small; indirect = f'.small.indirect };
          used = f'.used;
        } in
        let all : available node' offset n ≡ n = ground arith in
        let read =
          read_inode_at-Reads s' sb free inum node' offset n out v' h' file low
            (after_write-IsInode node (offset + n) s.clock (omega (arith, f.small.small)) is) alloc
            positive (omega (arith, f.small.small)) (omega arith) fits in
        rw (◌>>=◌, w.found)
          (Returns-mono (λ c s2 q. (q.0 ∙ all, λ j lt. q.1.inside j (rw all lt) ∙ w.inside j lt))
            read)
