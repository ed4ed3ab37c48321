-- ===== src/DataBlock/Allocate.antt =====
-- `allocate_data_block` hands out a block that nobody holds, and touches nobody's block.
use beach_bytes_file_system.Base.{
  ℕ, ◌+◌, ◌≤◌, ◌≡◌, refl, ◌≢◌, ◌⊎◌, inl, inr, true, false, List, [], ◌∷◌, arith, ◌==◌, Bool-cases,
}
use beach_bytes_file_system.Bytes.{zeros, minus_one}
use beach_bytes_file_system.Config.{Superblock, num_of_data_blocks}
use beach_bytes_file_system.Machine.{Fs, set_block, Returns, returns}
use beach_bytes_file_system.LayerZero.Blocks.{IsHealthy}
use beach_bytes_file_system.DataBlock.{allocate_data_block}
use beach_bytes_file_system.DataBlock.FreeList.{
  in_use, IsAllocator, Chain-set_block, IsFree-mono, not-contains_at_top, not-contains_low,
  Chain-set_zero,
}
use beach_bytes_file_system.DataBlock.Steps.{
  allocate_full, allocate_fresh, allocate_reused, with_superblock, bump_max, pop_list,
}

-- what a successful call has done
pub record Allocates (s : Fs) (sb : Superblock) (free : List ℕ) (b : ℕ) (s' : Fs) : Type 0 where
  pub sb' : Superblock
  pub free' : List ℕ
  pub valid : IsAllocator s' sb' free'
  pub was_free : in_use sb free b ≡ false
  pub now_used : in_use sb' free' b ≡ true
  pub others : (c : ℕ) → c ≢ b → in_use sb' free' c ≡ in_use sb free c
  pub contents : (c : ℕ) → c ≢ 0 → c ≢ b → s'.disk c ≡ s.disk c
  pub zeroed : (k : ℕ) → 8 ≤ k → s'.disk b k ≡ 0
  pub device : s'.device ≡ s.device

module _ (s : Fs) (sb : Superblock) (free : List ℕ) (v : IsAllocator s sb free) where
  fresh-Allocates :
      sb.max_alloc ≢ num_of_data_blocks
      → Allocates s sb free sb.max_alloc
          (with_superblock s (set_block s.disk sb.max_alloc zeros) (bump_max sb))
  fresh-Allocates ne =
      let out = not-contains_at_top sb.max_alloc sb.max_alloc free v.listed (omega arith) in
      let zero_out = not-contains_low sb.max_alloc 0 free v.listed (omega arith) in
      record {
        sb' = bump_max sb;
        free' = free;
        valid = record {
          loaded = refl;
          on_disk = refl;
          chain =
              Chain-set_zero _ _ sb.max_alloc sb.freelist_head free v.listed
                (Chain-set_block s.disk sb.max_alloc zeros sb.freelist_head free out v.chain);
          cleared = λ x k e h. ground (arith, v.cleared x k);
          listed = IsFree-mono sb.max_alloc (sb.max_alloc + 1) free (omega arith) v.listed;
          above = omega (arith, v.above);
          below = omega (arith, v.below);
        };
        was_free = ground arith;
        now_used = ground (arith, v.above);
        others = λ c n. ground arith;
        contents = λ c z n. ground arith;
        zeroed = λ k h. ground (arith, v.above);
        device = refl;
      }

reused-Allocates :
    (s : Fs) (sb : Superblock) (x : ℕ) (xs : List ℕ)
    → IsAllocator s sb (x ∷ xs)
    → Allocates s sb (x ∷ xs) sb.freelist_head (with_superblock s s.disk (pop_list s sb))
reused-Allocates s sb x xs v =
    let e : sb.freelist_head ≡ x = v.chain.0 in
    record {
      sb' = pop_list s sb;
      free' = xs;
      valid = record {
        loaded = refl;
        on_disk = refl;
        chain = Chain-set_zero s.disk _ sb.max_alloc _ xs v.listed.3 (rw e v.chain.1);
        cleared =
            λ y k m h. ground (arith, v.cleared y k, not-contains_low sb.max_alloc 0 xs v.listed.3);
        listed = v.listed.3;
        above = v.above;
        below = v.below;
      };
      was_free = ground arith;
      now_used = ground (arith, v.listed);
      others = λ c n. ground arith;
      contents = λ c z n. ground arith;
      zeroed = λ k h. ground (arith, v.cleared x k, v.listed.0);
      device = refl;
    }

pub allocate_data_block_lem :
    (s : Fs) (sb : Superblock) (free : List ℕ)
    → IsAllocator s sb free
    → IsHealthy s.device
    → Returns
        (λ b s'.
          ((b ≡ minus_one) × (sb.max_alloc ≡ num_of_data_blocks) × (free ≡ []) × (s' ≡ s))
          ⊎ Allocates s sb free b s')
        (allocate_data_block s)
allocate_data_block_lem s sb free v h = go free v (Bool-cases (sb.max_alloc == num_of_data_blocks))
  where
    go :
        (free : List ℕ)
        → IsAllocator s sb free
        → ((sb.max_alloc == num_of_data_blocks) ≡ true)
          ⊎ ((sb.max_alloc == num_of_data_blocks) ≡ false)
        → Returns
            (λ b s'.
              ((b ≡ minus_one) × (sb.max_alloc ≡ num_of_data_blocks) × (free ≡ []) × (s' ≡ s))
              ⊎ Allocates s sb free b s')
            (allocate_data_block s)
    go free v (inr e) =
        rw (allocate_fresh s sb h v.loaded v.above v.below (ground arith))
          (returns (inr (fresh-Allocates s sb free v (ground arith))))
    go [] v (inl e) =
        rw (allocate_full s sb h v.loaded v.above v.below v.chain (ground arith))
          (returns (inl (refl, ground arith, refl, refl)))
    go (x ∷ xs) v (inl e) =
        rw
          (allocate_reused s sb h v.loaded v.above v.below (ground arith)
            (omega (arith, v.chain, v.listed)) (omega (arith, v.chain, v.listed, v.below)))
          (returns (inr (reused-Allocates s sb x xs v)))
