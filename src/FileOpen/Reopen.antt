-- ===== src/FileOpen/Reopen.antt =====
-- Opening an existing file with O_TRUNC: the inode that was loaded before the file was cut is written
-- over the one that the cut has left.
use beach_bytes_file_system.Base.{
  ℕ, ◌%◌, ◌^◌, ◌<◌, ◌≡◌, refl, inl, inr, true, false, not, ◌&&◌, some, List, arith, ◌==◌,
}
use beach_bytes_file_system.Bytes.{minus_one}
use beach_bytes_file_system.Config.{Inode, Superblock, inode_block_count}
use beach_bytes_file_system.Config.Images.{IsInode}
use beach_bytes_file_system.Config.Update.{update-IsInode}
use beach_bytes_file_system.Machine.{Fs, Returns, returns, Returns-bind, ◌>>=◌, pure}
use beach_bytes_file_system.LayerZero.Blocks.{IsHealthy}
use beach_bytes_file_system.DataBlock.FreeList.{in_use, IsAllocator}
use beach_bytes_file_system.InodeTable.{load_inode_from_disk, write_inode_to_disk}
use beach_bytes_file_system.InodeTable.Entries.{write_inode_to_disk-disk}
use beach_bytes_file_system.Directory.Tree.{Resolves, get_inode_of_file-Resolves}
use beach_bytes_file_system.FileOps.{now, owner_writes}
use beach_bytes_file_system.FileRead.SameData.{SameData, OnlyEntry-SameData, IsAllocator-same}
use beach_bytes_file_system.FileOpen.{
  fs_truncate, wants_read, wants_write, wants_truncate, owner_reads, truncate_opened, open_inode,
  fs_open_file,
}
use beach_bytes_file_system.FileOpen.Truncate.{IsDirectFile, Emptied, fs_truncate-Emptied}

-- with the times of the call
abbrev pub touched : Inode → ℕ → Inode
touched node t = record node { ctime = t; mtime = t }

-- The inode is back with all its blocks and its old size, and the allocator has these blocks as free.
pub record Stale (inum : ℕ) (node : Inode) (s' : Fs) : Type 0 where
  pub time : ℕ
  pub found : load_inode_from_disk inum s' ≡ some (some (touched node time), s')
  pub sb' : Superblock
  pub free' : List ℕ
  pub allocator : IsAllocator s' sb' free'
  pub lost : (k : ℕ) → k < node.blocks → in_use sb' free' (node.direct_addresses k) ≡ false

touched-IsInode : (node : Inode) (t : ℕ) → t < 256 ^ 4 → IsInode node → IsInode (touched node t)
touched-IsInode node t lt is =
    update-IsInode node node.file_size node.blocks t t node.atime node.direct_addresses (inl refl)
      (inl refl) (inr lt) (inr lt) (inl refl) (λ k. inl refl) is

module _ (s : Fs) (sb : Superblock) (free path : List ℕ) (inum : ℕ) (node : Inode)
    (v : IsAllocator s sb free) (h : IsHealthy s.device) (r : Resolves s sb free path inum)
    (got : load_inode_from_disk inum s ≡ some (some node, s)) (low : inum < inode_block_count)
    (f : IsDirectFile sb free node) where
  written_back :
      (s1 : Fs)
      → Emptied inum node s sb free s1
      → Returns
          (λ q s'. (q ≡ inum) × Stale inum node s')
          ((now >>= λ t. write_inode_to_disk inum (touched node t) >>= λ _. pure inum) s1)
  written_back s1 m =
      let same : SameData m.middle.disk s1.disk =
        OnlyEntry-SameData inum m.middle.disk s1.disk low m.only in
      let v1 : IsAllocator s1 m.freed.sb' m.freed.free' =
        rw m.frame
          (IsAllocator-same m.middle s1.disk m.freed.sb' m.freed.free' same m.freed.valid) in
      let h1 : IsHealthy s1.device = rw (m.frame, m.freed.device) h in
      let t : ℕ = s1.clock % 2 ^ 32 in
      let (d', run, back, only) =
        write_inode_to_disk-disk s1 inum (touched node t) h1 low
          (touched-IsInode node t (omega arith) f.inode) f.allocated in
      rw (◌>>=◌, run)
        (returns (
          refl,
          record {
            time = t;
            found = back;
            sb' = m.freed.sb';
            free' = m.freed.free';
            allocator =
                IsAllocator-same s1 d' m.freed.sb' m.freed.free'
                  (OnlyEntry-SameData inum s1.disk d' low only) v1;
            lost = λ k lt. m.freed.freed k (omega arith) lt;
          },
        ))

  truncate_opened-Stale :
      Returns (λ q s'. (q ≡ inum) × Stale inum node s') (truncate_opened path inum node false s)
  unfolding truncate_opened
  truncate_opened-Stale =
      Returns-bind (fs_truncate path 0) _ s
        (fs_truncate-Emptied s sb free path inum node v h r got low f)
        λ q s1 (e, m). rw e (written_back s1 m)

-- the permissions do not stand in the way
open_inode-truncate_opened :
    (s : Fs) (path : List ℕ) (flags inum : ℕ) (node : Inode)
    → load_inode_from_disk inum s ≡ some (some node, s)
    → owner_reads node.i_mode ≡ true
    → owner_writes node.i_mode ≡ true
    → wants_truncate flags ≡ true
    → open_inode path flags inum false s ≡ truncate_opened path inum node false s
unfolding open_inode
open_inode-truncate_opened s path flags inum node got reads writes cut =
    let no_read : (wants_read flags && not (owner_reads node.i_mode)) ≡ false =
      ground (arith, reads) in
    let no_write : (wants_write flags && not (owner_writes node.i_mode)) ≡ false =
      ground (arith, writes) in
    rw (◌>>=◌, got, no_read, no_write, cut, writes) refl

-- With a valid allocator on a healthy device, and on a tree of directories of up to 522 blocks: opening
-- with O_TRUNC a file as in `fs_truncate-Emptied`, with a valid, allocated inode, a positive size, and
-- one to ten different blocks in use, which its owner may read and write, returns the inode's number,
-- and leaves an inode with the old
-- size and all the old addresses, while every one of these blocks is free to be handed out again.
pub fs_open_file-Stale :
    (s : Fs) (sb : Superblock) (free path : List ℕ) (inum : ℕ) (node : Inode) (flags : ℕ)
    → IsAllocator s sb free
    → IsHealthy s.device
    → Resolves s sb free path inum
    → load_inode_from_disk inum s ≡ some (some node, s)
    → inum < inode_block_count
    → IsDirectFile sb free node
    → owner_reads node.i_mode ≡ true
    → wants_truncate flags ≡ true
    → Returns (λ q s'. (q ≡ inum) × Stale inum node s') (fs_open_file path flags s)
unfolding fs_open_file
fs_open_file-Stale s sb free path inum node flags v h r got low f readable cut =
    let some_inode : (inum == minus_one) ≡ false = ground arith in
    rw
      (
        ◌>>=◌,
        get_inode_of_file-Resolves s sb free path inum v h r,
        some_inode,
        open_inode-truncate_opened s path flags inum node got readable f.writable cut,
      )
      (truncate_opened-Stale s sb free path inum node v h r got low f)
