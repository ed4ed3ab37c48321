-- ===== src/FileRead/SameData.antt =====
-- A change of the inode list leaves the allocator and the bytes of every file.
use beach_bytes_file_system.Base.{
  Bool-cases, ℕ, ◌*◌, ◌/◌, ◌%◌, ◌<◌, ◌≡◌, refl, ap, ◌∙◌, inl, inr, List, [], ◌∷◌, arith, ltb,
}
use beach_bytes_file_system.Bytes.{Bytes, load}
use beach_bytes_file_system.Config.{Inode, Superblock, inode_block_count}
use beach_bytes_file_system.Machine.{Fs}
use beach_bytes_file_system.DataBlock.FreeList.{IsAllocator, Chain, IsFree, contains-in_range}
use beach_bytes_file_system.DataBlock.InUse.{in_use-range}
use beach_bytes_file_system.BlockMap.Small.{nth, IsSmallFile}
use beach_bytes_file_system.InodeTable.Entries.{OnlyEntry}
use beach_bytes_file_system.FileRead.Buffer.{byte_at}
use beach_bytes_file_system.FileRead.Contents.{IsFile}

-- the disks agree but for the inode list
pub record SameData (d d' : ℕ → Bytes) : Type 0 where
  pub zero_block : d' 0 ≡ d 0
  pub data_blocks : (b : ℕ) → inode_block_count < b → d' b ≡ d b

Chain-same :
    (d d' : ℕ → Bytes) (head top : ℕ) (free : List ℕ)
    → SameData d d'
    → IsFree top free
    → Chain d head free
    → Chain d' head free
Chain-same d d' head top [] same listed c = c
Chain-same d d' head top (x ∷ xs) same listed c =
    let at : d' x ≡ d x = same.data_blocks x listed.0 in
    (c.0, rw at (Chain-same d d' (load 8 (d x) 0) top xs same listed.3 c.1))

pub IsAllocator-same :
    (s : Fs) (d' : ℕ → Bytes) (sb : Superblock) (free : List ℕ)
    → SameData s.disk d'
    → IsAllocator s sb free
    → IsAllocator (record s { disk = d' }) sb free
IsAllocator-same s d' sb free same v = record {
  loaded = v.loaded;
  on_disk = same.zero_block ∙ v.on_disk;
  chain = Chain-same s.disk d' sb.freelist_head sb.max_alloc free same v.listed v.chain;
  cleared = λ x k m h.
      let (low, high) = contains-in_range sb.max_alloc x free v.listed m in
      let at : d' x ≡ s.disk x = same.data_blocks x low in rw at (v.cleared x k m h);
  listed = v.listed;
  above = v.above;
  below = v.below;
}

nth-same :
    (s : Fs) (d' : ℕ → Bytes) (sb : Superblock) (free : List ℕ) (node : Inode) (k : ℕ)
    → SameData s.disk d'
    → IsAllocator s sb free
    → IsSmallFile sb free node
    → k < node.blocks
    → nth d' node k ≡ nth s.disk node k
nth-same s d' sb free node k same v f lt = elim (Bool-cases (ltb k 10)) [
  | inl e ↦ ground arith
  | inr e ↦
      let (low, high) = in_use-range s sb free v node.single_indirect (f.indirect (ground arith)) in
      let at : d' node.single_indirect ≡ s.disk node.single_indirect =
        same.data_blocks node.single_indirect low in
      rw at refl
]

pub IsFile-same :
    (s : Fs) (d' : ℕ → Bytes) (sb : Superblock) (free : List ℕ) (node : Inode)
    → SameData s.disk d'
    → IsAllocator s sb free
    → IsFile s sb free node
    → IsFile (record s { disk = d' }) sb free node
IsFile-same s d' sb free node same v f = record {
  small = f.small;
  used = λ k lt. rw (nth-same s d' sb free node k same v f.small lt) (f.used k lt);
}

pub byte_at-same :
    (s : Fs) (d' : ℕ → Bytes) (sb : Superblock) (free : List ℕ) (node : Inode) (p : ℕ)
    → SameData s.disk d'
    → IsAllocator s sb free
    → IsFile s sb free node
    → p < 4096 * node.blocks
    → byte_at d' node p ≡ byte_at s.disk node p
byte_at-same s d' sb free node p same v f lt =
    let inside : p / 4096 < node.blocks = omega arith in
    let (low, high) =
      in_use-range s sb free v (nth s.disk node (p / 4096)) (f.used (p / 4096) inside) in
    rw (nth-same s d' sb free node (p / 4096) same v f.small inside)
      (ap (λ b. b (p % 4096)) (same.data_blocks (nth s.disk node (p / 4096)) low))

pub OnlyEntry-SameData :
    (n : ℕ) (d d' : ℕ → Bytes) → n < inode_block_count → OnlyEntry n d d' → SameData d d'
OnlyEntry-SameData n d d' h only = record {
  zero_block = only.rest 0 (omega arith);
  data_blocks = λ b low. only.rest b (omega arith);
}
