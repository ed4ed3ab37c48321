-- ===== src/FileOps/Attributes.antt =====
-- Changing the mode of a file.
use beach_bytes_file_system.Base.{ℕ, ◌^◌, ◌<◌, ◌≡◌, refl, true, false, some, List, arith, ◌==◌}
use beach_bytes_file_system.Bytes.{minus_one}
use beach_bytes_file_system.Config.{Inode, Superblock, inode_block_count}
use beach_bytes_file_system.Config.Images.{IsInode}
use beach_bytes_file_system.Machine.{Fs, Returns, returns, Returns-bind, ◌>>=◌}
use beach_bytes_file_system.LayerZero.Blocks.{IsHealthy}
use beach_bytes_file_system.DataBlock.FreeList.{IsAllocator}
use beach_bytes_file_system.InodeTable.{load_inode_from_disk, write_inode_to_disk}
use beach_bytes_file_system.InodeTable.Entries.{OnlyEntry, load_inode-write_inode}
use beach_bytes_file_system.Directory.Tree.{Resolves, get_inode_of_file-Resolves}
use beach_bytes_file_system.FileOps.{fs_chmod}

abbrev pub with_mode : Inode → ℕ → Inode
with_mode node mode = record node { i_mode = mode }

-- On a tree of directories of up to 522 blocks, `fs_chmod` on a path that has an allocated inode
-- returns 0, the inode has the new mode and is otherwise as it was, and no other entry of the inode
-- list and no other block changes.
pub fs_chmod-with_mode :
    (s : Fs) (sb : Superblock) (free path : List ℕ) (inum : ℕ) (node : Inode) (mode : ℕ)
    → IsAllocator s sb free
    → IsHealthy s.device
    → Resolves s sb free path inum
    → inum < inode_block_count
    → load_inode_from_disk inum s ≡ some (some node, s)
    → IsInode node
    → node.is_allocated ≡ true
    → mode < 2 ^ 32
    → Returns
        (λ r s'.
          (r ≡ 0)
          × (load_inode_from_disk inum s' ≡ some (some (with_mode node mode), s'))
          × OnlyEntry inum s.disk s'.disk)
        (fs_chmod path mode s)
unfolding fs_chmod
fs_chmod-with_mode s sb free path inum node mode v h r low got is alloc small =
    let fits : IsInode (with_mode node mode) = record { fits = (small, is.fits.1); ten = is.ten } in
    let some_inode : (inum == minus_one) ≡ false = ground arith in
    rw (◌>>=◌, get_inode_of_file-Resolves s sb free path inum v h r, some_inode, got)
      (Returns-bind (write_inode_to_disk inum (with_mode node mode)) _ s
        (load_inode-write_inode s inum (with_mode node mode) h low fits alloc)
        λ ok s' p. let (done, back, only) = p in rw done (returns (refl, back, only)))
