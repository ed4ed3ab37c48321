-- ===== src/DataBlock/Release.antt =====
-- `free_data_block` gives one block back, and `getFreeListLength` counts the list.
use beach_bytes_file_system.Base.{
  ℕ, zero, suc, ◌+◌, ◌-◌, ◌%◌, ◌^◌, ◌≤◌, ◌<◌, ◌≡◌, refl, ◌≢◌, ◌⊎◌, inl, inr, true, false, some,
  List, [], ◌∷◌, arith, ◌==◌, if◌then◌else◌, contains, length, Bool-cases, ==_refl,
}
use beach_bytes_file_system.Bytes.{Bytes, zeros, load, store}
use beach_bytes_file_system.Bytes.Laws.{load-store, store-out}
use beach_bytes_file_system.Config.{Superblock, block_count, inode_block_count, num_of_data_blocks}
use beach_bytes_file_system.Machine.{Fs, live, set_block, Returns, returns}
use beach_bytes_file_system.LayerZero.{superblock_block, fs_write_block}
use beach_bytes_file_system.LayerZero.Blocks.{IsHealthy, fs_write_superblock-ok}
use beach_bytes_file_system.DataBlock.{free_data_block, free_list_loop, get_free_list_length}
use beach_bytes_file_system.DataBlock.FreeList.{
  Chain, IsFree, in_use, IsAllocator, Chain-set_block, Chain-set_zero, IsFree-pred,
  not-contains_low, Chain-head_lt,
}
use beach_bytes_file_system.DataBlock.Steps.{
  free_top, free_inner, with_superblock, drop_max, push_list, read_data_block-ok,
}

-- what a successful call has done
pub record Frees (s : Fs) (sb : Superblock) (free : List ℕ) (b : ℕ) (s' : Fs) : Type 0 where
  pub sb' : Superblock
  pub free' : List ℕ
  pub valid : IsAllocator s' sb' free'
  pub now_free : in_use sb' free' b ≡ false
  pub others : (c : ℕ) → c ≢ b → in_use sb' free' c ≡ in_use sb free c
  pub contents : (c : ℕ) → c ≢ 0 → c ≢ b → s'.disk c ≡ s.disk c
  pub device : s'.device ≡ s.device

module _ (s : Fs) (sb : Superblock) (free : List ℕ) (v : IsAllocator s sb free) (b : ℕ)
    (used : in_use sb free b ≡ true) where
  used-bounds : (inode_block_count < b) × (b < sb.max_alloc) × (contains b free ≡ false)
  used-bounds = ground arith

  top-Frees : b ≡ sb.max_alloc - 1 → Frees s sb free b (with_superblock s s.disk (drop_max sb))
  top-Frees e =
      let (low, high, out) = used-bounds in
      let zero_out = not-contains_low sb.max_alloc 0 free v.listed (omega arith) in
      let top : sb.max_alloc ≡ suc b = omega (arith, v.above) in
      let listed : IsFree (suc b) free = rw (← top) v.listed in
      let pred : sb.max_alloc - 1 ≡ b = omega arith in
      record {
        sb' = drop_max sb;
        free' = free;
        valid = record {
          loaded = refl;
          on_disk = refl;
          chain = Chain-set_zero s.disk _ sb.max_alloc sb.freelist_head free v.listed v.chain;
          cleared = λ x k m h. ground (arith, v.cleared x k);
          listed = rw pred (IsFree-pred b free out listed);
          above = omega arith;
          below = omega (arith, v.below);
        };
        now_free = ground arith;
        others = λ c n. ground arith;
        contents = λ c z n. ground arith;
        device = refl;
      }

  head-fits : sb.freelist_head < 256 ^ 8
  head-fits =
      omega
        (arith, Chain-head_lt s.disk sb.max_alloc sb.freelist_head free v.listed v.chain, v.below)

  inner-Frees : Frees s sb free b (record s {
    disk =
        set_block
          (set_block s.disk 0 (superblock_block (push_list b sb)))
          b
          (store 8 zeros 0 sb.freelist_head);
    fs_superblock = live (push_list b sb);
  })
  inner-Frees =
      let (low, high, out) = used-bounds in
      let zero_out = not-contains_low sb.max_alloc 0 free v.listed (omega arith) in
      let link : Bytes = store 8 zeros 0 sb.freelist_head in
      let d : ℕ → Bytes = set_block s.disk 0 (superblock_block (push_list b sb)) in
      let linked : Chain (set_block d b link) (load 8 (set_block d b link b) 0) free =
        rw (==_refl, load-store 8 zeros 0 sb.freelist_head head-fits)
          (Chain-set_block d b link sb.freelist_head free out
            (Chain-set_zero s.disk _ sb.max_alloc sb.freelist_head free v.listed v.chain)) in
      record {
        sb' = push_list b sb;
        free' = b ∷ free;
        valid = record {
          loaded = refl;
          on_disk = ground arith;
          chain = (refl, linked);
          cleared =
              λ x k m h. ground (arith, v.cleared x k, store-out 8 zeros 0 sb.freelist_head k);
          listed = (low, high, out, v.listed);
          above = v.above;
          below = v.below;
        };
        now_free = ground arith;
        others = λ c n. ground arith;
        contents = λ c z n. ground arith;
        device = refl;
      }

-- A block that is in use is given back: the call succeeds, the block is free, and no other data
-- block changes its state or its contents.
pub free_data_block_lem :
    (s : Fs) (sb : Superblock) (free : List ℕ) (b : ℕ)
    → IsAllocator s sb free
    → IsHealthy s.device
    → in_use sb free b ≡ true
    → Returns (λ ok s'. (ok ≡ true) × Frees s sb free b s') (free_data_block b s)
free_data_block_lem s sb free b v h used =
    let (low, high, out) = used-bounds s sb free v b used in
    elim (Bool-cases (b == sb.max_alloc - 1)) [
      | inl e ↦
          rw (free_top s sb h v.loaded v.above v.below b (ground arith) low)
            (returns (refl, top-Frees s sb free v b used (ground arith)))
      | inr e ↦
          rw
            (free_inner s sb h v.loaded v.above v.below b (ground arith) low
              (omega (arith, v.below)))
            (returns (refl, inner-Frees s sb free v b used))
    ]

-- The first number behind the last block passes the test of the number: the call fails only when the
-- link is written, and by then the free list starts at that number.
free_data_block-behind :
    (s : Fs) (sb : Superblock) (free : List ℕ)
    → IsAllocator s sb free
    → IsHealthy s.device
    → free_data_block block_count s
      ≡ some (false, with_superblock s s.disk (push_list block_count sb))
unfolding free_data_block fs_write_block
free_data_block-behind s sb free v h =
    let s1 : Fs = record s { fs_superblock = live (push_list block_count sb) } in
    ground (
      arith,
      v.loaded,
      v.above,
      v.below,
      fs_write_superblock-ok s1 h (push_list block_count sb) refl,
    )

free_data_block-refused :
    (s : Fs) (b : ℕ)
    → (b ≤ inode_block_count) ⊎ ((block_count < b) × (b < 2 ^ 64))
    → free_data_block b s ≡ some (false, s)
unfolding free_data_block
free_data_block-refused s b h = ground arith

-- With a valid allocator on a healthy device, a 64-bit number that is not one of a data block is refused
-- with nothing changed, unless it is the first number behind the last block. The call on that number
-- fails as well, but leaves a superblock, in memory and in block 0, whose free list starts at that
-- number, so that no list of free blocks makes the allocator valid.
pub free_data_block_outside :
    (s : Fs) (sb : Superblock) (free : List ℕ) (b : ℕ)
    → IsAllocator s sb free
    → IsHealthy s.device
    → (b ≤ inode_block_count) ⊎ (block_count ≤ b)
    → b < 2 ^ 64
    → Returns
        (λ ok s'.
          (ok ≡ false)
          × (((b ≢ block_count) × (s' ≡ s))
              ⊎ ((b ≡ block_count)
                  × (s' ≡ with_superblock s s.disk (push_list b sb))
                  × ((free' : List ℕ) → ¬ IsAllocator s' (push_list b sb) free'))))
        (free_data_block b s)
free_data_block_outside s sb free b v h out fits = elim (Bool-cases (b == block_count)) [
  | inl e ↦
      let at : b ≡ block_count = ground arith in
      rw (at, free_data_block-behind s sb free v h)
        (returns (
          refl,
          inr (
            refl,
            refl,
            λ free' w.
                omega
                  (arith, v.below, Chain-head_lt _ sb.max_alloc block_count free' w.listed w.chain),
          ),
        ))
  | inr e ↦
      rw (free_data_block-refused s b (ground arith)) (returns (refl, inl (ground arith, refl)))
]

module _ (s : Fs) (healthy : IsHealthy s.device) (top : ℕ) (bound : top ≤ num_of_data_blocks) where
  free_list_loop-length :
      (fuel : ℕ) (x : ℕ) (xs : List ℕ) (head n : ℕ)
      → Chain s.disk head (x ∷ xs)
      → IsFree top (x ∷ xs)
      → length xs < fuel
      → n + length xs < 2 ^ 63
      → free_list_loop fuel head n s ≡ some (some (n + length xs), s)
  unfolding free_list_loop
  free_list_loop-length zero x xs head n c f enough fits = absurd (omega arith)
  free_list_loop-length (suc fuel) x [] head n c f enough fits =
      ground (arith, read_data_block-ok s healthy head)
  free_list_loop-length (suc fuel) x (y ∷ ys) head n c f enough fits =
      let at : Chain s.disk (load 8 (s.disk head) 0) (y ∷ ys) = rw c.0 c.1 in
      let one : (n + 1) % 2 ^ 64 ≡ n + 1 = omega arith in
      let total : n + 1 + length ys ≡ n + suc (length ys) = omega arith in
      let ih =
        free_list_loop-length fuel y ys (load 8 (s.disk head) 0) (n + 1) at f.3 (omega arith)
          (omega arith) in
      ground (arith, read_data_block-ok s healthy head, one, total, ih, f.3.0)

-- With fuel for the whole list, `getFreeListLength` is the number of free blocks on the list, and 1
-- if there is none.
pub get_free_list_length_lem :
    (s : Fs) (sb : Superblock) (free : List ℕ) (fuel : ℕ)
    → IsAllocator s sb free
    → IsHealthy s.device
    → length free < fuel
    → length free < 2 ^ 63
    → get_free_list_length fuel s ≡ some (some (if length free == 0 then 1 else length free), s)
unfolding get_free_list_length free_list_loop
get_free_list_length_lem s sb [] (suc fuel) v h enough fits = ground (arith, v.loaded, v.chain)
get_free_list_length_lem s sb (x ∷ xs) (suc fuel) v h enough fits =
    let total : 1 + length xs ≡ suc (length xs) = omega arith in
    ground (
      arith,
      v.loaded,
      total,
      free_list_loop-length s h sb.max_alloc v.below (suc fuel) x xs sb.freelist_head 1 v.chain
          v.listed (omega arith) (omega arith),
    )
get_free_list_length_lem s sb free zero v h enough fits = absurd (omega arith)
