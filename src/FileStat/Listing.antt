-- ===== src/FileStat/Listing.antt =====
-- Listing a directory: one call of `filler` for each of its entries, in order.
use beach_bytes_file_system.Base.{
  ℕ, zero, suc, ◌+◌, ◌-◌, ◌%◌, ◌≤◌, ◌<◌, ◌≡◌, refl, ◌∙◌, true, false, not, some, ne→==, ◌≢◌, List,
  [], ◌∷◌, ◌++◌, arith, ltb, leb, ◌==◌, length,
}
use beach_bytes_file_system.Bytes.{Bytes, zeros, load, minus_one}
use beach_bytes_file_system.Bytes.Laws.{load-cong, load-zeros}
use beach_bytes_file_system.Config.{Inode, Superblock, block_size}
use beach_bytes_file_system.Machine.{Fs, Returns, returns, ◌>>=◌}
use beach_bytes_file_system.LayerZero.Blocks.{IsHealthy}
use beach_bytes_file_system.DataBlock.FreeList.{IsAllocator}
use beach_bytes_file_system.DataBlock.InUse.{read-in_use}
use beach_bytes_file_system.DataBlock.{read_data_block}
use beach_bytes_file_system.BlockMap.{get_datablock_from_inode}
use beach_bytes_file_system.BlockMap.Small.{nth, get_datablock_from_inode-nth}
use beach_bytes_file_system.InodeTable.{load_inode_from_disk}
use beach_bytes_file_system.Directory.{s_isdir, rounds_of}
use beach_bytes_file_system.Directory.Records.{
  Entry, size, Named, Records, Records-bound, length-le-size,
}
use beach_bytes_file_system.Directory.Find.{IsDirectory, entries_from}
use beach_bytes_file_system.Directory.Tree.{Resolves, get_inode_of_file-Resolves}
use beach_bytes_file_system.FileStat.Shown.{Lists, no_more, next, inode_to_stat-Shows}
use beach_bytes_file_system.FileStat.{
  Filled, bytes_from, inode_to_stat, readdir_block, readdir_loop, fs_readdir,
}

-- a length below 2 ^ 16 is the same word when 16 bits of it are read
load-short : (b : Bytes) (k v : ℕ) → load 8 b k ≡ v → v < 65536 → load 2 b k ≡ v
unfolding load
load-short b k v e lt = omega arith

bytes_from-Named :
    (b : Bytes) (k : ℕ) (name : List ℕ)
    → Named b k name
    → bytes_from b k (length name + 1) ≡ name ++ (0 ∷ [])
bytes_from-Named b k [] n = rw n refl
bytes_from-Named b k (c ∷ cs) (e, n) =
    let more : suc (length cs) + 1 ≡ suc (length cs + 1) = omega arith in
    rw (more, e, bytes_from-Named b (k + 1) cs n) refl

-- the inodes of the entries are allocated, and `nodes` says what they are
abbrev pub Loaded : Fs → (ℕ → Inode) → List Entry → Type 0
Loaded s nodes [] = Unit
Loaded s nodes ((inum, name) ∷ es) =
    (load_inode_from_disk inum s ≡ some (some (nodes inum), s)) × Loaded s nodes es

Loaded-append :
    (s : Fs) (nodes : ℕ → Inode) (es fs : List Entry)
    → Loaded s nodes (es ++ fs)
    → Loaded s nodes es × Loaded s nodes fs
Loaded-append s nodes [] fs l = (tt, l)
Loaded-append s nodes (e ∷ es) fs (l, ls) =
    let (a, b) = Loaded-append s nodes es fs ls in ((l, a), b)

module _ (uid gid : ℕ) (nodes : ℕ → Inode) where
  -- the calls, as the code makes them
  abbrev listed : List Entry → List Filled
  listed [] = []
  listed ((inum, name) ∷ es) =
      (name ++ (0 ∷ []), record (inode_to_stat uid gid (nodes inum)) { st_ino = inum }) ∷ listed es

  listed-append : (es fs : List Entry) → listed (es ++ fs) ≡ listed es ++ listed fs
  listed-append [] fs = refl
  listed-append (e ∷ es) fs = rw (listed-append es fs)

  listed-Lists : (es : List Entry) → Lists uid gid nodes es (listed es)
  listed-Lists [] = no_more
  listed-Lists ((inum, name) ∷ es) =
      next (inode_to_stat-Shows uid gid inum (nodes inum)) (listed-Lists es)

  readdir_block-suc :
      (s : Fs) (b : Bytes) (rounds pos rec_len inum : ℕ) (node : Inode) (calls : List Filled)
      → load 2 b pos ≡ rec_len
      → load 8 b (pos + 8) ≡ inum
      → (not (ltb pos (4096 - 16))) ≡ false
      → (rec_len == 0) ≡ false
      → (not (leb (pos + 16 + (rec_len + 65536 - 16) % 65536) 4096)) ≡ false
      → load_inode_from_disk inum s ≡ some (some node, s)
      → readdir_block uid gid rounds b (pos + rec_len) s ≡ some ((calls, true), s)
      → readdir_block uid gid (suc rounds) b pos s
        ≡ some (
          (
            (
              bytes_from b (pos + 16) ((rec_len + 65536 - 16) % 65536),
              record (inode_to_stat uid gid node) { st_ino = inum },
            )
                ∷ calls,
            true,
          ),
          s,
        )
  unfolding readdir_block
  readdir_block-suc s b rounds pos rec_len inum node calls len num inside some_len whole l ih =
      rw (inside, len, some_len, whole, num, ◌>>=◌, l, len, ih, num, len) refl

  readdir_block-listed :
      (s : Fs) (b : Bytes) (rounds pos : ℕ) (es : List Entry)
      → Records b pos es
      → ((k : ℕ) → pos + size es ≤ k → b k ≡ 0)
      → pos ≤ 4096
      → length es < rounds
      → Loaded s nodes es
      → readdir_block uid gid rounds b pos s ≡ some ((listed es, true), s)
  unfolding readdir_block
  readdir_block-listed s b zero pos es r z low enough l = absurd (omega arith)
  readdir_block-listed s b (suc rounds) pos [] r z low enough l =
      let zero_word : load 2 b pos ≡ 0 =
        load-cong 2 {b = b} {c = zeros} pos (λ j p q. z j (omega arith)) ∙ load-zeros 2 pos in
      ground arith
  readdir_block-listed s b (suc rounds) pos ((inum, name) ∷ es) (len, num, named, fits, rest) z low
        enough (l, ls) =
      let ih =
        readdir_block-listed s b rounds (pos + (17 + length name)) es rest
          (λ k p. z k (omega arith)) fits (omega arith) ls in
      let rec_len = load-short b pos (17 + length name) len (omega arith) in
      let inside : (not (ltb pos (4096 - 16))) ≡ false = ground arith in
      let some_len : (17 + length name == 0) ≡ false = ground arith in
      let name_len : (17 + length name + 65536 - 16) % 65536 ≡ length name + 1 = omega arith in
      let whole : (not (leb (pos + 16 + (17 + length name + 65536 - 16) % 65536) 4096)) ≡ false =
        ground arith in
      readdir_block-suc s b rounds pos (17 + length name) inum (nodes inum) (listed es) rec_len num
        inside some_len whole l ih
      ∙ rw (name_len, bytes_from-Named b (pos + 16) name named) refl

  module _ (s : Fs) (sb : Superblock) (free : List ℕ) (dir : Inode) (es : ℕ → List Entry)
      (v : IsAllocator s sb free) (h : IsHealthy s.device) (d : IsDirectory s sb free dir es) where
    readdir_loop-suc :
        (rounds k : ℕ) (calls later : List Filled) (num : ℕ)
        → get_datablock_from_inode dir k 0 s ≡ some ((num, 0), s)
        → read_data_block num s ≡ some (some (s.disk num), s)
        → readdir_block uid gid (block_size + 1) (s.disk num) 8 s ≡ some ((calls, true), s)
        → readdir_loop uid gid rounds (k + 1) 0 dir s ≡ some ((later, true), s)
        → readdir_loop uid gid (suc rounds) k 0 dir s ≡ some ((calls ++ later, true), s)
    unfolding readdir_loop
    readdir_loop-suc rounds k calls later num at read block rest =
        rw (◌>>=◌, at, read, block, rest) refl

    readdir_loop-listed :
        (rounds k : ℕ)
        → k + rounds ≤ dir.blocks
        → Loaded s nodes (entries_from es k rounds)
        → readdir_loop uid gid rounds k 0 dir s
          ≡ some ((listed (entries_from es k rounds), true), s)
    unfolding readdir_loop
    readdir_loop-listed zero k le l = refl
    readdir_loop-listed (suc rounds) k le l =
        let lt : k < dir.blocks = omega arith in
        let (here, later) = Loaded-append s nodes (es k) (entries_from es (k + 1) rounds) l in
        let d_k = d.entries k lt in
        let block =
          readdir_block-listed s (s.disk (nth s.disk dir k)) (block_size + 1) 8 (es k) d_k.records
            d_k.zero_after (omega arith)
            (omega (
              arith,
              length-le-size (es k),
              Records-bound (s.disk (nth s.disk dir k)) 8 (es k) (omega arith) d_k.records,
            ))
            here in
        readdir_loop-suc rounds k _ _ (nth s.disk dir k)
          (get_datablock_from_inode-nth s sb free dir k 0 v h d.file lt)
          (read-in_use s sb free v (nth s.disk dir k) (d.used k lt) h) block
          (readdir_loop-listed rounds (k + 1) (omega arith) later)
        ∙ rw (listed-append (es k) (entries_from es (k + 1) rounds)) refl

-- With a valid allocator on a healthy device, and on a tree of directories of up to 522 blocks,
-- `fs_readdir` on the path of a directory all of whose entries have allocated inodes returns 0,
-- changes nothing, and calls `filler` once for each entry, block after block and in order, with its
-- name and NUL and each field of the attributes as it shows the entry's inode.
pub fs_readdir-Lists :
    (uid gid : ℕ) (nodes : ℕ → Inode) (s : Fs) (sb : Superblock) (free path : List ℕ) (inum : ℕ)
    (dir : Inode) (es : ℕ → List Entry)
    → IsAllocator s sb free
    → IsHealthy s.device
    → Resolves s sb free path inum
    → inum ≢ minus_one
    → load_inode_from_disk inum s ≡ some (some dir, s)
    → IsDirectory s sb free dir es
    → s_isdir dir.i_mode ≡ true
    → Loaded s nodes (entries_from es 0 dir.blocks)
    → Returns
        (λ (r, calls) s'.
          (r ≡ 0) × (s' ≡ s) × Lists uid gid nodes (entries_from es 0 dir.blocks) calls)
        (fs_readdir uid gid path s)
unfolding fs_readdir
fs_readdir-Lists uid gid nodes s sb free path inum dir es v h r ne got d mode l =
    let some_inode : (inum == minus_one) ≡ false = ne→== ne in
    let all : rounds_of dir.blocks ≡ dir.blocks = ground (arith, d.file.small) in
    let run =
      readdir_loop-listed uid gid nodes s sb free dir es v h d dir.blocks 0 (omega arith) l in
    rw
      (◌>>=◌, get_inode_of_file-Resolves s sb free path inum v h r, some_inode, got, mode, all, run)
      (returns (refl, refl, listed-Lists uid gid nodes (entries_from es 0 dir.blocks)))
