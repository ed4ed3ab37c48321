-- ===== src/FileOpen/Truncate.antt =====
-- Cutting a file to nothing.
use beach_bytes_file_system.Base.{
  ℕ, ◌^◌, ◌≤◌, ◌<◌, ◌≡◌, refl, ◌⊎◌, inl, inr, true, false, some, List, arith, ltb, ◌==◌, Bool-cases,
}
use beach_bytes_file_system.Bytes.{Bytes, minus_one, lt64, add64}
use beach_bytes_file_system.Config.{Inode, Superblock, inode_block_count, num_direct_blocks}
use beach_bytes_file_system.Config.Images.{IsInode}
use beach_bytes_file_system.Config.Update.{update-IsInode}
use beach_bytes_file_system.Machine.{Fs, Returns, returns, Returns-bind, ◌>>=◌}
use beach_bytes_file_system.LayerZero.Blocks.{IsHealthy}
use beach_bytes_file_system.DataBlock.FreeList.{IsAllocator}
use beach_bytes_file_system.Reclaim.{remove_datablocks_range_from_inode}
use beach_bytes_file_system.Reclaim.Direct.{
  Owns, FreesAll, Forgets, remove_datablocks_range-FreesAll,
}
use beach_bytes_file_system.InodeTable.{load_inode_from_disk}
use beach_bytes_file_system.InodeTable.Entries.{OnlyEntry, write_inode_to_disk-disk}
use beach_bytes_file_system.Directory.Tree.{Resolves, get_inode_of_file-Resolves}
use beach_bytes_file_system.FileOps.{owner_writes}
use beach_bytes_file_system.FileOpen.{last_block, set_size, shrink_to, fs_truncate}

-- a file of at most ten blocks, and not empty, whose blocks are in use and differ from each other
pub record IsDirectFile (sb : Superblock) (free : List ℕ) (node : Inode) : Type 0 where
  pub few : node.blocks ≤ num_direct_blocks
  pub some_blocks : 0 < node.blocks
  pub owns : Owns sb free node.direct_addresses 0 node.blocks
  pub size : 0 < node.file_size
  pub signed : node.file_size < 2 ^ 63
  pub inode : IsInode node
  pub allocated : node.is_allocated ≡ true
  pub writable : owner_writes node.i_mode ≡ true

-- the inode of the empty file, with the addresses `a`
abbrev pub emptied : Inode → (ℕ → ℕ) → Inode
emptied node a = record node { blocks = 0; file_size = 0; direct_addresses = a }

-- The blocks are free, and the inode list has the inode of an empty file with no address of them.
pub record Emptied (inum : ℕ) (node : Inode) (s : Fs) (sb : Superblock) (free : List ℕ) (s' : Fs)
    : Type 0 where
  pub middle : Fs
  pub freed : FreesAll s sb free node.direct_addresses 0 node.blocks middle
  pub addresses : ℕ → ℕ
  pub zeroed : (k : ℕ) → k < node.blocks → addresses k ≡ 0
  pub found : load_inode_from_disk inum s' ≡ some (some (emptied node addresses), s')
  pub only : OnlyEntry inum middle.disk s'.disk
  pub frame : s' ≡ (record middle { disk = s'.disk })

emptied-IsInode :
    (node : Inode) (a : ℕ → ℕ)
    → ((k : ℕ) → (a k ≡ node.direct_addresses k) ⊎ (a k ≡ 0))
    → IsInode node
    → IsInode (emptied node a)
emptied-IsInode node a each is =
    update-IsInode node 0 0 node.ctime node.mtime node.atime a (inr (omega arith))
      (inr (omega arith)) (inl refl) (inl refl) (inl refl) each is

set_size-ok :
    (s : Fs) (inum : ℕ) (node : Inode) (size : ℕ)
    → IsHealthy s.device
    → inum < inode_block_count
    → IsInode (record node { file_size = size })
    → node.is_allocated ≡ true
    → (d' : ℕ → Bytes) × (set_size inum node size s ≡ some (0, record s { disk = d' }))
      × (load_inode_from_disk inum (record s { disk = d' })
          ≡ some (some (record node { file_size = size }), record s { disk = d' }))
      × OnlyEntry inum s.disk d'
unfolding set_size
set_size-ok s inum node size h low is alloc =
    let (d', run, back, only) =
      write_inode_to_disk-disk s inum (record node { file_size = size }) h low is alloc in
    (d', rw (◌>>=◌, run) refl, back, only)

module _ (s : Fs) (sb : Superblock) (free : List ℕ) (inum : ℕ) (node : Inode)
    (v : IsAllocator s sb free) (h : IsHealthy s.device) (f : IsDirectFile sb free node)
    (low : inum < inode_block_count) where
  emptied_lem :
      (s1 : Fs) (node' : Inode)
      → FreesAll s sb free node.direct_addresses 0 node.blocks s1
      → Forgets (record node { blocks = 0 }) 0 node.blocks node'
      → Returns (λ r s'. (r ≡ 0) × Emptied inum node s sb free s') (set_size inum node' 0 s1)
  emptied_lem s1 node' all g =
      let a : ℕ → ℕ = node'.direct_addresses in
      let each : (k : ℕ) → (a k ≡ node.direct_addresses k) ⊎ (a k ≡ 0) = λ k.
        elim (Bool-cases (ltb k node.blocks)) [
          | inl e ↦ inr (g.zeroed k (omega arith) (ground arith))
          | inr e ↦ inl (g.kept k (inr (ground arith)))
        ] in
      let h1 : IsHealthy s1.device = rw all.device h in
      let (d', run, back, only) =
        set_size-ok s1 inum (record node { blocks = 0; direct_addresses = a }) 0 h1 low
          (emptied-IsInode node a each f.inode) f.allocated in
      rw (g.same, run)
        (returns (
          refl,
          record {
            middle = s1;
            freed = all;
            addresses = a;
            zeroed = λ k lt. g.zeroed k (omega arith) lt;
            found = back;
            only = only;
            frame = refl;
          },
        ))

  shrink_to-Emptied :
      Returns (λ r s'. (r ≡ 0) × Emptied inum node s sb free s') (shrink_to inum node 0 s)
  unfolding shrink_to
  shrink_to-Emptied =
      let some_gone : lt64 (add64 (last_block 0) 1) node.blocks ≡ true =
        ground (arith, f.few, f.some_blocks) in
      let none_stays : (last_block 0 == minus_one) ≡ true = refl in
      rw some_gone (
        Returns-bind (remove_datablocks_range_from_inode node 0) _ s
          (remove_datablocks_range-FreesAll s sb free node 0 v h f.few (omega arith) (omega arith)
            f.owns)
          λ c s1 (ok, all, g). emptied_lem s1 c.1 all g)

-- With a valid allocator on a healthy device, and on a tree of directories of up to 522 blocks: cutting
-- a file to length 0, which has a valid, allocated inode, a positive size, and one to ten blocks that
-- are in use and differ from each other, and which its owner may write, returns 0 and gives back exactly its blocks; the inode then has no blocks, no address of those and size 0,
-- and its entry of the inode list is the only one that is written.
pub fs_truncate-Emptied :
    (s : Fs) (sb : Superblock) (free path : List ℕ) (inum : ℕ) (node : Inode)
    → IsAllocator s sb free
    → IsHealthy s.device
    → Resolves s sb free path inum
    → load_inode_from_disk inum s ≡ some (some node, s)
    → inum < inode_block_count
    → IsDirectFile sb free node
    → Returns (λ r s'. (r ≡ 0) × Emptied inum node s sb free s') (fs_truncate path 0 s)
unfolding fs_truncate
fs_truncate-Emptied s sb free path inum node v h r got low f =
    let some_inode : (inum == minus_one) ≡ false = ground arith in
    let not_empty : (node.file_size == 0) ≡ false = ground (arith, f.size) in
    let no_growth : lt64 node.file_size 0 ≡ false = ground (arith, f.signed) in
    rw
      (
        ◌>>=◌,
        get_inode_of_file-Resolves s sb free path inum v h r,
        some_inode,
        got,
        f.writable,
        not_empty,
        no_growth,
      )
      (shrink_to-Emptied s sb free inum node v h f low)
