-- ===== src/DataBlock/FreeList.antt =====
-- What the allocator's state stands for: the chain of free blocks on the disk, and from it which
-- blocks are in use.
use beach_bytes_file_system.Base.{
  ℕ, suc, ◌≤◌, ◌<◌, ◌≡◌, refl, ◌⊎◌, inl, inr, Bool, true, false, not, ◌&&◌, List, [], ◌∷◌, arith,
  ltb, contains,
}
use beach_bytes_file_system.Bytes.{Bytes, load}
use beach_bytes_file_system.Config.{Superblock, inode_block_count, num_of_data_blocks}
use beach_bytes_file_system.Machine.{Fs, live, set_block}
use beach_bytes_file_system.LayerZero.{superblock_block}

-- from `head` the first words of the free blocks lead through `free` to 0
abbrev pub Chain : (ℕ → Bytes) → ℕ → List ℕ → Type 0
Chain d head [] = head ≡ 0
Chain d head (x ∷ xs) = (head ≡ x) × Chain d (load 8 (d x) 0) xs

-- each lies in the data area below `top`, and none is listed twice
abbrev pub IsFree : ℕ → List ℕ → Type 0
IsFree top [] = Unit
IsFree top (x ∷ xs) = (inode_block_count < x) × (x < top) × (contains x xs ≡ false) × IsFree top xs

-- the data blocks that are handed out
abbrev pub in_use : Superblock → List ℕ → ℕ → Bool
in_use sb free b = ltb inode_block_count b && (ltb b sb.max_alloc && not (contains b free))

-- A free block holds its link and is zero behind it, so a block that is handed out is zero but for
-- its first word.
pub record IsAllocator (s : Fs) (sb : Superblock) (free : List ℕ) : Type 0 where
  pub loaded : s.fs_superblock ≡ live sb
  pub on_disk : s.disk 0 ≡ superblock_block sb
  pub chain : Chain s.disk sb.freelist_head free
  pub cleared : (x k : ℕ) → contains x free ≡ true → 8 ≤ k → s.disk x k ≡ 0
  pub listed : IsFree sb.max_alloc free
  pub above : inode_block_count < sb.max_alloc
  pub below : sb.max_alloc ≤ num_of_data_blocks

pub contains-in_range :
    (top b : ℕ) (free : List ℕ)
    → IsFree top free
    → contains b free ≡ true
    → (inode_block_count < b) × (b < top)
contains-in_range top b [] h e = cc
contains-in_range top b (x ∷ xs) h e = ground (arith, contains-in_range top b xs h.3)

pub not-contains_at_top :
    (top b : ℕ) (free : List ℕ) → IsFree top free → top ≤ b → contains b free ≡ false
not-contains_at_top top b [] h e = refl
not-contains_at_top top b (x ∷ xs) h e = ground (arith, not-contains_at_top top b xs h.3)

-- a write to a block that is not on the chain leaves the chain as it was
pub Chain-set_block :
    (d : ℕ → Bytes) (id : ℕ) (buffer : Bytes) (head : ℕ) (free : List ℕ)
    → contains id free ≡ false
    → Chain d head free
    → Chain (set_block d id buffer) head free
Chain-set_block d id buffer head [] out c = c
Chain-set_block d id buffer head (x ∷ xs) out c =
    ground (arith, Chain-set_block d id buffer (load 8 (d x) 0) xs)

pub IsFree-mono : (top top' : ℕ) (free : List ℕ) → top ≤ top' → IsFree top free → IsFree top' free
IsFree-mono top top' [] h f = tt
IsFree-mono top top' (x ∷ xs) h f = (f.0, omega arith, f.2, IsFree-mono top top' xs h f.3)

-- the top block itself is in use, so the list lies below it
pub IsFree-pred :
    (top : ℕ) (free : List ℕ) → contains top free ≡ false → IsFree (suc top) free → IsFree top free
IsFree-pred top [] out f = tt
IsFree-pred top (x ∷ xs) out f = (f.0, ground arith, f.2, IsFree-pred top xs (ground arith) f.3)

pub not-contains_low :
    (top b : ℕ) (free : List ℕ) → IsFree top free → b ≤ inode_block_count → contains b free ≡ false
not-contains_low top b [] h e = refl
not-contains_low top b (x ∷ xs) h e = ground (arith, not-contains_low top b xs h.3)

-- a write to block 0 is outside the list
pub Chain-set_zero :
    (d : ℕ → Bytes) (buffer : Bytes) (top head : ℕ) (free : List ℕ)
    → IsFree top free
    → Chain d head free
    → Chain (set_block d 0 buffer) head free
Chain-set_zero d buffer top head free h =
    Chain-set_block d 0 buffer head free (not-contains_low top 0 free h (omega arith))

pub Chain-head_lt :
    (d : ℕ → Bytes) (top head : ℕ) (free : List ℕ)
    → IsFree top free
    → Chain d head free
    → (head ≡ 0) ⊎ ((inode_block_count < head) × (head < top))
Chain-head_lt d top head [] h c = inl c
Chain-head_lt d top head (x ∷ xs) h c = inr (omega (arith, c.0, h.0), omega (arith, c.0, h.1))
