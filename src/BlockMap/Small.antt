-- ===== src/BlockMap/Small.antt =====
-- Files of up to 522 blocks: the ten direct blocks and those of the single indirect block. Adding a
-- block appends its number to what `get_datablock_from_inode` reads.
use beach_bytes_file_system.Base.{
  ℕ, ◌+◌, ◌-◌, ◌*◌, ◌^◌, ◌≤◌, ◌<◌, ◌≡◌, refl, sym, ◌≢◌, ◌∙◌, ◌⊎◌, inl, inr, true, false, some, List,
  [], arith, ltb, ◌==◌, if◌then◌else◌, Bool-cases, ==_refl,
}
use beach_bytes_file_system.Bytes.{Bytes, put, minus_one, lt64}
use beach_bytes_file_system.Bytes.Laws.{load-store, load-store_ne}
use beach_bytes_file_system.Config.{
  Inode, Superblock, num_direct_blocks, num_of_single_indirect, num_of_data_blocks,
}
use beach_bytes_file_system.Machine.{
  Fs, set_block, Returns, returns, Returns-bind, Returns-mono, ◌>>=◌,
}
use beach_bytes_file_system.LayerZero.Blocks.{IsHealthy}
use beach_bytes_file_system.DataBlock.{allocate_data_block}
use beach_bytes_file_system.DataBlock.FreeList.{in_use, IsAllocator}
use beach_bytes_file_system.DataBlock.InUse.{
  in_use-range, IsAllocator-set_block, read-in_use, write-in_use,
}
use beach_bytes_file_system.DataBlock.Allocate.{allocate_data_block_lem}
use beach_bytes_file_system.BlockMap.{
  Changed, word, set_word, one_more, enter, add_single, get_single, get_datablock_from_inode,
  add_datablock_to_inode,
}

pub word-set_word : (b : Bytes) (i v : ℕ) → v < 256 ^ 8 → word (set_word b i v) i ≡ v
word-set_word b i v h = load-store 8 b (8 * i) v h

pub word-set_word_ne : (b : Bytes) (i j v : ℕ) → i ≢ j → word (set_word b i v) j ≡ word b j
word-set_word_ne b i j v ne = load-store_ne 8 8 b (8 * i) (8 * j) v (omega arith)

-- the number of the `k`-th block of a file, read off the disk
abbrev pub nth : (ℕ → Bytes) → Inode → ℕ → ℕ
nth d node k =
    if ltb k num_direct_blocks
    then node.direct_addresses k
    else word (d node.single_indirect) (k - num_direct_blocks)

abbrev pub small_limit : ℕ
small_limit = num_direct_blocks + num_of_single_indirect

-- the single indirect block is there as soon as a block needs it
pub record IsSmallFile (sb : Superblock) (free : List ℕ) (node : Inode) : Type 0 where
  pub small : node.blocks ≤ small_limit
  pub indirect : num_direct_blocks < node.blocks → in_use sb free node.single_indirect ≡ true

-- On such a file `get_datablock_from_inode` reads the number, and changes nothing.
pub get_datablock_from_inode-nth :
    (s : Fs) (sb : Superblock) (free : List ℕ) (node : Inode) (k prev : ℕ)
    → IsAllocator s sb free
    → IsHealthy s.device
    → IsSmallFile sb free node
    → k < node.blocks
    → get_datablock_from_inode node k prev s ≡ some ((nth s.disk node k, prev), s)
unfolding get_datablock_from_inode get_single
get_datablock_from_inode-nth s sb free node k prev v h f lt =
    elim (Bool-cases (ltb k num_direct_blocks)) [
      | inl e ↦ ground (arith, f.small)
      | inr e ↦
          let used = f.indirect (ground arith) in
          let (low, high) = in_use-range s sb free v node.single_indirect used in
          ground (arith, f.small, read-in_use s sb free v node.single_indirect used h)
    ]

-- what a successful call has done
pub record Appends (s : Fs) (node : Inode) (num : ℕ) (s' : Fs) (node' : Inode) : Type 0 where
  pub sb' : Superblock
  pub free' : List ℕ
  pub allocator : IsAllocator s' sb' free'
  pub file : IsSmallFile sb' free' node'
  pub counted : node'.blocks ≡ node.blocks + 1
  pub last : nth s'.disk node' node.blocks ≡ num
  pub before : (k : ℕ) → k < node.blocks → nth s'.disk node' k ≡ nth s.disk node k
  pub device : s'.device ≡ s.device

module _ (s : Fs) (sb : Superblock) (free : List ℕ) (node : Inode) (num : ℕ)
    (v : IsAllocator s sb free) (h : IsHealthy s.device) (small : node.blocks < small_limit)
    (fits : num < 256 ^ 8) where
  -- the number goes into the block of addresses, at a place behind those in use
  enter-Appends :
      (node0 : Inode) (s0 : Fs)
      → in_use sb free node.single_indirect ≡ true
      → num_direct_blocks ≤ node.blocks
      → node0.blocks ≡ node.blocks
      → s0.device ≡ s.device
      → ((k : ℕ) → k < node.blocks → nth s.disk node k ≡ nth s0.disk node0 k)
      → Returns
          (λ (ok, node') s'. (ok ≡ true) × Appends s0 node0 num s' node')
          (enter node node.single_indirect (node.blocks - num_direct_blocks) num s)
  unfolding enter
  enter-Appends node0 s0 used ge same dev kept =
      let r : ℕ = node.blocks - num_direct_blocks in
      let block : Bytes = set_word (s.disk node.single_indirect) r num in
      let (low, high) = in_use-range s sb free v node.single_indirect used in
      let direct : ltb node.blocks num_direct_blocks ≡ false = ground arith in
      let before : (k : ℕ)
          → k < node.blocks
          → nth (set_block s.disk node.single_indirect block) (one_more node) k
            ≡ nth s.disk node k =
        λ k lt.
          ground
            (arith, word-set_word_ne (s.disk node.single_indirect) r (k - num_direct_blocks) num) in
      rw
        (
          read-in_use s sb free v node.single_indirect used h,
          write-in_use s sb free v node.single_indirect used block h,
          ◌>>=◌,
        )
        (returns (
          refl,
          record {
            sb' = sb;
            free' = free;
            allocator = IsAllocator-set_block s sb free v node.single_indirect used block;
            file = record { small = omega arith; indirect = λ _. used };
            counted = omega arith;
            last =
                rw (same, ==_refl, direct) (word-set_word (s.disk node.single_indirect) r num fits);
            before = λ k lt. before k (omega arith) ∙ kept k (omega arith);
            device = sym dev;
          },
        ))

  direct-Appends :
      IsSmallFile sb free node
      → node.blocks < num_direct_blocks
      → Appends s node num s
          (one_more (record node { direct_addresses = put node.direct_addresses node.blocks num }))
  direct-Appends f lt = record {
    sb' = sb;
    free' = free;
    allocator = v;
    file = record { small = omega arith; indirect = λ p. absurd (omega arith) };
    counted = omega arith;
    last = ground arith;
    before = λ k p. ground arith;
    device = refl;
  }

-- How a call of `add_datablock_to_inode` ends. It fails only for the eleventh block of a file, and
-- only when every data block is in use.
abbrev pub AddEnds : Fs → Superblock → List ℕ → Inode → ℕ → Changed → Fs → Type 0
AddEnds s sb free node num (ok, node') s' =
    ((ok ≡ false)
      × (node' ≡ node)
      × (s' ≡ s)
      × (node.blocks ≡ num_direct_blocks)
      × (sb.max_alloc ≡ num_of_data_blocks)
      × (free ≡ []))
    ⊎ ((ok ≡ true) × Appends s node num s' node')

-- the first block behind the direct ones: a block of addresses is allocated for it
add_single-first :
    (s : Fs) (sb : Superblock) (free : List ℕ) (node : Inode) (num : ℕ)
    → IsAllocator s sb free
    → IsHealthy s.device
    → node.blocks ≡ num_direct_blocks
    → num < 256 ^ 8
    → Returns (AddEnds s sb free node num) (add_single node 0 num s)
unfolding add_single
add_single-first s sb free node num v h at fits =
    Returns-bind allocate_data_block _ s (allocate_data_block_lem s sb free v h) λ b s1 r. elim r [
      | inl (none_left, full, empty, same) ↦
          rw none_left (returns (inl (refl, refl, same, at, full, empty)))
      | inr a ↦
          let node1 : Inode = record node { single_indirect = b } in
          let (low, high) = in_use-range s1 a.sb' a.free' a.valid b a.now_used in
          let got : (b == minus_one) ≡ false = ground arith in
          let zero_at : node.blocks - num_direct_blocks ≡ 0 = omega arith in
          let h1 : IsHealthy s1.device = rw a.device h in
          let kept : (k : ℕ) → k < node.blocks → nth s1.disk node1 k ≡ nth s.disk node k =
            λ k lt. ground arith in
          let run =
            enter-Appends s1 a.sb' a.free' node1 num a.valid h1 (omega arith) fits node s a.now_used
              (omega arith) refl (sym a.device) kept in
          rw got (Returns-mono (λ c s' e. inr e) (rw zero_at at run))
    ]

-- With a valid allocator on a healthy device a block is appended to a file of fewer than 522 blocks:
-- the number that is added is read back at the end, all earlier ones are read as before, and the
-- block count grows by one. The call fails only for a file of ten blocks, which needs a block of
-- addresses, when `maxAlloc` is at its bound and the free list is empty; then it changes nothing.
pub add_datablock_to_inode-Appends :
    (s : Fs) (sb : Superblock) (free : List ℕ) (node : Inode) (num : ℕ)
    → IsAllocator s sb free
    → IsHealthy s.device
    → IsSmallFile sb free node
    → node.blocks < small_limit
    → num < 256 ^ 8
    → Returns (AddEnds s sb free node num) (add_datablock_to_inode node num s)
unfolding add_datablock_to_inode add_single
add_datablock_to_inode-Appends s sb free node num v h f small fits =
    elim (Bool-cases (ltb node.blocks num_direct_blocks)) [
      | inl e ↦
          let signed : lt64 node.blocks num_direct_blocks ≡ true = ground arith in
          rw (signed, e)
            (returns
              (inr (refl, direct-Appends s sb free node num v h small fits f (ground arith))))
      | inr e ↦
          let ge : num_direct_blocks ≤ node.blocks = ground arith in
          let signed : lt64 node.blocks num_direct_blocks ≡ false = ground arith in
          let near : ltb (node.blocks - num_direct_blocks) num_of_single_indirect ≡ true =
            ground arith in
          rw (signed, near)
            (elim (Bool-cases (node.blocks - num_direct_blocks == 0)) [
              | inl first ↦
                  let at : node.blocks - num_direct_blocks ≡ 0 = ground arith in
                  rw at (add_single-first s sb free node num v h (omega arith) fits)
              | inr later ↦ rw later (
                  Returns-mono (λ c s' r. inr r)
                    (enter-Appends s sb free node num v h small fits node s
                      (f.indirect (ground arith)) ge refl refl (λ k lt. refl)))
            ])
    ]
