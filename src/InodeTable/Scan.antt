-- ===== src/InodeTable/Scan.antt =====
-- `getNextFreeINode` finds the first free inode of the blocks that it scans.
use beach_bytes_file_system.Base.{
  ℕ, zero, suc, ◌+◌, ◌-◌, ◌*◌, ◌/◌, ◌%◌, ◌≤◌, ◌<◌, ◌≡◌, refl, ◌⊎◌, inl, inr, Bool, true, false,
  Option, none, some, arith, ◌==◌, Bool-cases, ltb,
}
use beach_bytes_file_system.Bytes.{Bytes, minus_one}
use beach_bytes_file_system.Config.{inode_block_count, inodes_per_block, block_count}
use beach_bytes_file_system.Machine.{Fs, M, Returns, returns, Returns-mono, pure, ◌>>=◌}
use beach_bytes_file_system.LayerZero.Blocks.{IsHealthy, fs_read_block-ok}
use beach_bytes_file_system.InodeTable.{
  block_of, offset_of, slot_free, scan_block, scan_blocks, get_next_free_inode,
}

-- inode number `n` is free on the disk `d`
abbrev pub is_free : (ℕ → Bytes) → ℕ → Bool
is_free d n = slot_free (d (block_of n)) (offset_of n)

-- the first slot from `k` to `k + n - 1` that is free, if any
abbrev FirstSlot : ℕ → Bytes → ℕ → Option ℕ → Type 0
FirstSlot n b k none = (j : ℕ) → k ≤ j → j < k + n → slot_free b j ≡ false
FirstSlot n b k (some i) =
    (k ≤ i)
    × (i < k + n)
    × (slot_free b i ≡ true)
    × ((j : ℕ) → k ≤ j → j < i → slot_free b j ≡ false)

later_slot :
    (n : ℕ) (b : Bytes) (k : ℕ) (r : Option ℕ)
    → slot_free b k ≡ false
    → FirstSlot n b (k + 1) r
    → FirstSlot (suc n) b k r
later_slot n b k none e h = λ j p q. elim (Bool-cases (j == k)) [
  | inl same ↦ let at : j ≡ k = ground arith in rw at e
  | inr other ↦ h j (ground arith) (omega arith)
]
later_slot n b k (some i) e h = (
  omega arith,
  omega arith,
  h.2,
  λ j p q. elim (Bool-cases (j == k)) [
    | inl same ↦ let at : j ≡ k = ground arith in rw at e
    | inr other ↦ h.3 j (ground arith) q
  ],
)

scan_block-FirstSlot : (n : ℕ) (b : Bytes) (k : ℕ) → FirstSlot n b k (scan_block n b k)
unfolding scan_block
scan_block-FirstSlot zero b k = λ j p q. absurd (omega arith)
scan_block-FirstSlot (suc n) b k = elim (Bool-cases (slot_free b k)) [
  | inl e ↦ rw e (omega arith, omega arith, e, λ j p q. absurd (omega arith))
  | inr e ↦ rw e (later_slot n b k (scan_block n b (k + 1)) e (scan_block-FirstSlot n b (k + 1)))
]

-- the same for the inode numbers from `m` to `top - 1`
abbrev pub FirstFree : (ℕ → Bytes) → ℕ → ℕ → ℕ → Type 0
FirstFree d m top r =
    ((r ≡ minus_one) × ((n : ℕ) → m ≤ n → n < top → is_free d n ≡ false))
    ⊎ ((m ≤ r) × (r < top) × (is_free d r ≡ true) × ((n : ℕ) → m ≤ n → n < r → is_free d n ≡ false))

-- inode `n` of block `c` is slot `n % 15` of that block
in_block :
    (d : ℕ → Bytes) (c n : ℕ)
    → 15 * c ≤ n
    → n < 15 * c + 15
    → is_free d n ≡ slot_free (d (c + 1)) (n - 15 * c)
in_block d c n p q =
    let block : n / 15 + 1 ≡ c + 1 = omega arith in
    let offset : n % 15 ≡ n - 15 * c = omega arith in rw (block, offset)

-- Block `c` has no free slot: what is found behind it is what is found from it on.
skip_block :
    (d : ℕ → Bytes) (c top r : ℕ)
    → FirstSlot 15 (d (c + 1)) 0 none
    → FirstFree d (15 * (c + 1)) top r
    → FirstFree d (15 * c) top r
skip_block d c top r full h = elim h [
  | inl (e, all) ↦ inl (e, λ n p q. used n p (λ l. all n l q))
  | inr (low, high, found, all) ↦ inr (omega arith, high, found, λ n p q. used n p (λ l. all n l q))
]
  where
    used : (n : ℕ) → 15 * c ≤ n → (15 * (c + 1) ≤ n → is_free d n ≡ false) → is_free d n ≡ false
    used n p later = elim (Bool-cases (ltb n (15 * c + 15))) [
      | inl e ↦
          let q : n < 15 * c + 15 = ground arith in
          rw (in_block d c n p q) (full (n - 15 * c) (omega arith) (omega arith))
      | inr e ↦ later (ground arith)
    ]

found_in_block :
    (d : ℕ → Bytes) (c top k : ℕ)
    → 15 * c + 15 ≤ top
    → FirstSlot 15 (d (c + 1)) 0 (some k)
    → FirstFree d (15 * c) top (c * 15 + k)
found_in_block d c top k fits h =
    let at : c * 15 + k - 15 * c ≡ k = omega arith in
    inr (
      omega arith,
      omega arith,
      rw (in_block d c (c * 15 + k) (omega arith) (omega arith), at) h.2,
      λ n p q. rw (in_block d c n p (omega arith)) (h.3 (n - 15 * c) (omega arith) (omega arith)),
    )

scan_step :
    (n c : ℕ) (s : Fs) (x : Option ℕ)
    → FirstSlot 15 (s.disk (c + 1)) 0 x
    → Returns
        (λ r s'. (s' ≡ s) × FirstFree s.disk (15 * (c + 1)) (15 * (c + suc n)) r)
        (scan_blocks n (c + 1 + 1) s)
    → Returns
        (λ r s'. (s' ≡ s) × FirstFree s.disk (15 * c) (15 * (c + suc n)) r)
        (elim x as (λ _. M ℕ) [
          | none ↦ scan_blocks n (c + 1 + 1)
          | some cur_offset ↦ pure ((c + 1 - 1) * inodes_per_block + cur_offset)
        ]
          s)
scan_step n c s none full ih =
    Returns-mono (λ r s' (e, h). (e, skip_block s.disk c (15 * (c + suc n)) r full h)) ih
scan_step n c s (some k) found ih =
    let at : (c + 1 - 1) * 15 + k ≡ c * 15 + k = omega arith in
    rw at (returns (refl, found_in_block s.disk c (15 * (c + suc n)) k (omega arith) found))

scan_blocks-FirstFree :
    (n c : ℕ) (s : Fs)
    → IsHealthy s.device
    → c + n < block_count
    → Returns
        (λ r s'. (s' ≡ s) × FirstFree s.disk (15 * c) (15 * (c + n)) r)
        (scan_blocks n (c + 1) s)
unfolding scan_blocks
scan_blocks-FirstFree zero c s h fits = returns (refl, inl (refl, λ j p q. absurd (omega arith)))
scan_blocks-FirstFree (suc n) c s h fits =
    rw (fs_read_block-ok s h (c + 1) (omega arith), ◌>>=◌)
      (scan_step n c s (scan_block inodes_per_block (s.disk (c + 1)) 0)
        (scan_block-FirstSlot inodes_per_block (s.disk (c + 1)) 0)
        (let at : c + 1 + n ≡ c + suc n = omega arith in
          rw at at (scan_blocks-FirstFree n (c + 1) s h (omega arith))))

-- `getNextFreeINode` changes nothing, and returns the first free inode number of the blocks that it
-- scans, or -1 if none of them is free. The last block of the list is not among them.
pub get_next_free_inode-FirstFree :
    (s : Fs)
    → IsHealthy s.device
    → Returns
        (λ r s'. (s' ≡ s) × FirstFree s.disk 0 (inodes_per_block * (inode_block_count - 1)) r)
        (get_next_free_inode s)
unfolding get_next_free_inode
get_next_free_inode-FirstFree s h =
    scan_blocks-FirstFree (inode_block_count - 1) 0 s h (omega arith)
