-- ===== src/FileWrite/RoundTrip.antt =====
-- A write inside the blocks of a file: its result, the disk afterwards, and reading the data back.
use beach_bytes_file_system.Base.{
  ℕ, ◌+◌, ◌-◌, ◌*◌, ◌/◌, ◌%◌, ◌^◌, ◌≤◌, ◌<◌, ◌≡◌, refl, ap, ◌∙◌, ◌≢◌, ◌⊎◌, inl, inr, true, false,
  some, List, arith, ◌==◌,
}
use beach_bytes_file_system.Bytes.{Bytes, add64, lt64}
use beach_bytes_file_system.Config.{Inode, Superblock, inode_block_count, read_inode}
use beach_bytes_file_system.Config.Images.{IsInode}
use beach_bytes_file_system.Config.Update.{update-IsInode}
use beach_bytes_file_system.Machine.{Fs, Returns, returns, ◌>>=◌}
use beach_bytes_file_system.LayerZero.Blocks.{IsHealthy}
use beach_bytes_file_system.DataBlock.FreeList.{IsAllocator}
use beach_bytes_file_system.DataBlock.InUse.{in_use-range}
use beach_bytes_file_system.BlockMap.Small.{nth}
use beach_bytes_file_system.InodeTable.{load_inode_from_disk, block_of, offset_of, slot}
use beach_bytes_file_system.InodeTable.Entries.{entry, OnlyEntry, write_inode_to_disk-disk}
use beach_bytes_file_system.Directory.{rounds_of}
use beach_bytes_file_system.FileRead.Buffer.{byte_at}
use beach_bytes_file_system.FileRead.Contents.{IsFile}
use beach_bytes_file_system.FileRead.SameData.{
  SameData, IsAllocator-same, IsFile-same, byte_at-same, OnlyEntry-SameData,
}
use beach_bytes_file_system.FileWrite.Blocks.{IsApart, Overwrites, Overwrites-none}
use beach_bytes_file_system.FileWrite.Parts.{IsInside, at_start}
use beach_bytes_file_system.FileWrite.Overwrite.{IsWritten, with_disk, overwrite_loop-Runs}
use beach_bytes_file_system.FileWrite.{
  extent_of, overwrite_loop, append_loop, finish_write, write_inode_at,
}

-- the inode after a write whose data ends at `size`
abbrev pub after_write : Inode → ℕ → ℕ → Inode
after_write node size clock = record node { file_size = size; mtime = clock % 2 ^ 32 }

-- What a write of `n` bytes of `buff` at `offset` leaves: the bytes of the file, the entries of the
-- inode list, and every other block.
pub record Wrote (inum : ℕ) (node : Inode) (offset n : ℕ) (buff : Bytes) (s s' : Fs) : Type 0 where
  pub inside : (j : ℕ) → j < n → byte_at s'.disk node (offset + j) ≡ buff j
  pub outside :
      (p : ℕ)
      → p < 4096 * node.blocks
      → (p < offset) ⊎ (offset + n ≤ p)
      → byte_at s'.disk node p ≡ byte_at s.disk node p
  pub found : load_inode_from_disk inum s' ≡ some (some (after_write node (offset + n) s.clock), s')
  pub others : (m : ℕ) → m < inode_block_count → m ≢ inum → entry s'.disk m ≡ entry s.disk m
  pub rest :
      (b : ℕ)
      → b ≢ block_of inum
      → ((k : ℕ) → k < node.blocks → b ≢ nth s.disk node k)
      → s'.disk b ≡ s.disk b
  pub frame : s' ≡ with_disk s s'.disk

pub after_write-IsInode :
    (node : Inode) (size clock : ℕ)
    → size < 256 ^ 8
    → IsInode node
    → IsInode (after_write node size clock)
after_write-IsInode node size clock lt is =
    update-IsInode node size node.blocks node.ctime (clock % 2 ^ 32) node.atime
      node.direct_addresses (inr lt) (inl refl) (inl refl) (inr (omega arith)) (inl refl)
      (λ k. inl refl) is

module _ (s : Fs) (sb : Superblock) (free : List ℕ) (inum : ℕ) (node : Inode) (offset n : ℕ)
    (buff : Bytes) (v : IsAllocator s sb free) (h : IsHealthy s.device) (f : IsFile s sb free node)
    (apart : IsApart s.disk node) (low : inum < inode_block_count) (is : IsInode node)
    (alloc : node.is_allocated ≡ true) (positive : 0 < n)
    (fits : offset + n ≤ 4096 * node.blocks) where
  abbrev inside : IsInside node offset n
  inside = record { positive = positive; fits = fits; small = f.small.small }

  start_state : IsWritten node offset n buff inside s sb free h apart 0 s
  start_state = record {
    allocator = v;
    file = f;
    wrote = Overwrites-none s.disk node offset buff;
    frame = refl;
  }

  rounds_left : lt64 (offset / 4096) node.blocks ≡ true
  rounds_left = ground (arith, f.small.small)

  no_append :
      (done : ℕ) (s1 : Fs)
      → append_loop
          (rounds_of (extent_of node n offset).new_blocks_to_be_added)
          1
          node
          (extent_of node n offset)
          buff
          done
          s1
        ≡ some ((node, done), s1)
  unfolding append_loop
  no_append done s1 =
      let none_left : rounds_of (extent_of node n offset).new_blocks_to_be_added ≡ 0 =
        ground (arith, f.small.small) in
      rw none_left refl

  -- the inode is written over the disk `d`, which holds the data
  finish_write-ok :
      (d : ℕ → Bytes)
      → (d' : ℕ → Bytes) × (finish_write inum node offset n (with_disk s d)
          ≡ some (n, with_disk s d'))
        × (load_inode_from_disk inum (with_disk s d')
            ≡ some (some (after_write node (offset + n) s.clock), with_disk s d'))
        × OnlyEntry inum d d'
  unfolding finish_write
  finish_write-ok d =
      let (d', run, back, only) =
        write_inode_to_disk-disk (with_disk s d) inum (after_write node (offset + n) s.clock) h low
          (after_write-IsInode node (offset + n) s.clock (omega (arith, f.small.small)) is) alloc in
      let sum : add64 offset n ≡ offset + n = omega (arith, f.small.small) in
      let some_bytes : (n == 0) ≡ false = ground arith in
      (d', rw (◌>>=◌, sum, some_bytes, run) refl, back, only)

  runs :
      (d1 d2 : ℕ → Bytes)
      → overwrite_loop
          (node.blocks - offset / 4096)
          (offset / 4096)
          node
          (extent_of node n offset)
          0
          buff
          0
          s
        ≡ some ((n, true), with_disk s d1)
      → finish_write inum node offset n (with_disk s d1) ≡ some (n, with_disk s d2)
      → write_inode_at inum node buff n offset s ≡ some (n, with_disk s d2)
  unfolding write_inode_at
  runs d1 d2 run end = rw (◌>>=◌, rounds_left, run, no_append n (with_disk s d1), end) refl

  -- from the disk with the data to the one with the inode as well
  wrote_lem :
      (d1 d2 : ℕ → Bytes)
      → Overwrites s.disk node offset n buff d1
      → IsAllocator (with_disk s d1) sb free
      → IsFile (with_disk s d1) sb free node
      → OnlyEntry inum d1 d2
      → load_inode_from_disk inum (with_disk s d2)
        ≡ some (some (after_write node (offset + n) s.clock), with_disk s d2)
      → Wrote inum node offset n buff s (with_disk s d2)
  wrote_lem d1 d2 o v1 f1 only back =
      let same : SameData d1 d2 = OnlyEntry-SameData inum d1 d2 low only in
      let byte : (p : ℕ) → p < 4096 * node.blocks → byte_at d2 node p ≡ byte_at d1 node p =
        λ p lt. byte_at-same (with_disk s d1) d2 sb free node p same v1 f1 lt in
      record {
        inside = λ j lt. byte (offset + j) (omega arith) ∙ o.inside j lt;
        outside = λ p lt out. byte p lt ∙ o.outside p lt out;
        found = back;
        others = λ m lt ne.
            only.others m ne
            ∙ ap (λ b. read_inode b (slot (offset_of m)))
                (o.rest (block_of m) λ k lt'.
                  let (above, below) =
                    in_use-range s sb free v (nth s.disk node k) (f.used k lt') in
                  omega arith);
        rest = λ b ne out. only.rest b ne ∙ o.rest b out;
        frame = refl;
      }

-- What a write inside the blocks of a file does, once its inode is found.
pub write_inode_at-Wrote :
    (s : Fs) (sb : Superblock) (free : List ℕ) (inum : ℕ) (node : Inode) (offset n : ℕ)
    (buff : Bytes)
    → IsAllocator s sb free
    → IsHealthy s.device
    → IsFile s sb free node
    → IsApart s.disk node
    → inum < inode_block_count
    → IsInode node
    → node.is_allocated ≡ true
    → 0 < n
    → offset + n ≤ 4096 * node.blocks
    → Returns
        (λ r s'.
          (r ≡ n)
          × Wrote inum node offset n buff s s'
          × IsAllocator s' sb free
          × IsFile s' sb free node)
        (write_inode_at inum node buff n offset s)
write_inode_at-Wrote s sb free inum node offset n buff v h f apart low is alloc positive fits =
    let first =
      start_state s sb free inum node offset n buff v h f apart low is alloc positive fits in
    let (s1, run1, w) =
      overwrite_loop-Runs node offset n buff
        (record { positive = positive; fits = fits; small = f.small.small }) s sb free h apart
        (node.blocks - offset / 4096) (offset / 4096) 0 s (omega arith) (at_start refl refl)
        first in
    let v1 : IsAllocator (with_disk s s1.disk) sb free = rw (← w.frame) w.allocator in
    let f1 : IsFile (with_disk s s1.disk) sb free node = record {
      small = w.file.small;
      used = w.file.used;
    } in
    let (d2, run2, back, only) =
      finish_write-ok s sb free inum node offset n buff v h f apart low is alloc positive fits
        s1.disk in
    let same = OnlyEntry-SameData inum s1.disk d2 low only in
    rw
      (runs s sb free inum node offset n buff v h f apart low is alloc positive fits s1.disk d2
        (run1 ∙ ap (λ t. some ((n, true), t)) w.frame) run2)
      (returns (
        refl,
        wrote_lem s sb free inum node offset n buff v h f apart low is alloc positive fits s1.disk
            d2 w.wrote v1 f1 only back,
        IsAllocator-same (with_disk s s1.disk) d2 sb free same v1,
        IsFile-same (with_disk s s1.disk) d2 sb free node same v1 f1,
      ))
