-- ===== src/Directory/Find.antt =====
-- A search over the blocks of a directory finds the first entry with the name among the entries of
-- all blocks, in order.
use beach_bytes_file_system.Base.{
  ◌<◌, ℕ, zero, suc, ◌+◌, ◌≤◌, ◌<◌, ◌≡◌, refl, sym, ◌≢◌, ◌∙◌, ◌⊎◌, inl, inr, true, false, Option,
  none, some, List, [], ◌∷◌, ◌++◌, arith, ltb, ◌==◌, length, Bool-cases,
}
use beach_bytes_file_system.Bytes.{Bytes, load, minus_one, le64, lt64}
use beach_bytes_file_system.Config.{Inode, Superblock, block_size, file_name_max_length}
use beach_bytes_file_system.Machine.{Fs, ◌>>=◌}
use beach_bytes_file_system.LayerZero.Blocks.{IsHealthy}
use beach_bytes_file_system.DataBlock.FreeList.{in_use, IsAllocator}
use beach_bytes_file_system.DataBlock.InUse.{in_use-range, read-in_use}
use beach_bytes_file_system.BlockMap.Small.{nth, IsSmallFile, get_datablock_from_inode-nth}
use beach_bytes_file_system.Directory.{
  s_isdir, rounds_of, find_record, Search, absent, at_record, lookup_loop, inum_of, lookup_in,
}
use beach_bytes_file_system.Directory.Records.{Entry, size, IsDirBlock, name_eq, lookup}
use beach_bytes_file_system.Directory.Lookup.{
  inum_at, IsFound, find_record-IsFound, find_record-lookup,
}

-- the entries of `n` blocks from the `k`-th on
abbrev pub entries_from : (ℕ → List Entry) → ℕ → ℕ → List Entry
entries_from es k zero = []
entries_from es k (suc n) = es k ++ entries_from es (k + 1) n

-- a directory of up to 522 blocks, the `k`-th of which holds the records `es k`
pub record IsDirectory (s : Fs) (sb : Superblock) (free : List ℕ) (dir : Inode)
    (es : ℕ → List Entry) : Type 0 where
  pub file : IsSmallFile sb free dir
  pub used : (k : ℕ) → k < dir.blocks → in_use sb free (nth s.disk dir k) ≡ true
  pub entries : (k : ℕ) → k < dir.blocks → IsDirBlock (s.disk (nth s.disk dir k)) (es k)

abbrev pub or_minus_one : Option ℕ → ℕ
or_minus_one none = minus_one
or_minus_one (some inum) = inum

abbrev pub or_else : Option ℕ → Option ℕ → Option ℕ
or_else none b = b
or_else (some a) b = some a

pub lookup-append :
    (name : List ℕ) (es fs : List Entry)
    → lookup name (es ++ fs) ≡ or_else (lookup name es) (lookup name fs)
unfolding lookup
lookup-append name [] fs = refl
lookup-append name ((inum, n) ∷ es) fs = elim (Bool-cases (name_eq n name)) [
  | inl e ↦ rw e refl
  | inr e ↦ rw e (lookup-append name es fs)
]

lookup-empty : (name : List ℕ) (es : List Entry) → size es ≡ 0 → lookup name es ≡ none
unfolding lookup
lookup-empty name [] h = refl
lookup-empty name ((inum, n) ∷ es) h = absurd (omega arith)

module _ (s : Fs) (sb : Superblock) (free : List ℕ) (dir : Inode) (es : ℕ → List Entry)
    (name : List ℕ) (v : IsAllocator s sb free) (h : IsHealthy s.device)
    (d : IsDirectory s sb free dir es) where
  abbrev Finds : ℕ → ℕ → Type 0
  Finds k rounds =
      (r : Search) × (lookup_loop rounds k 0 dir name s ≡ some (r, s))
      × (inum_of r ≡ or_minus_one (lookup name (entries_from es k rounds)))

  module _ (k rounds : ℕ) (lt : k < dir.blocks) where
    abbrev block : Bytes
    block = s.disk (nth s.disk dir k)

    in_range : le64 (nth s.disk dir k) 0 ≡ false
    in_range =
        let (low, high) = in_use-range s sb free v (nth s.disk dir k) (d.used k lt) in ground arith

    -- a block without the name is passed over
    lookup_loop-passed :
        (load 8 block 0 ≡ 0) ⊎ (find_record (block_size + 1) block 8 name ≡ some none)
        → lookup_loop (suc rounds) k 0 dir name s ≡ lookup_loop rounds (k + 1) 0 dir name s
    unfolding lookup_loop
    lookup_loop-passed r =
        rw
          (
            ◌>>=◌,
            get_datablock_from_inode-nth s sb free dir k 0 v h d.file lt,
            in_range,
            read-in_use s sb free v (nth s.disk dir k) (d.used k lt) h,
          )
          (elim r [
            | inl e ↦ rw e refl
            | inr e ↦ elim (Bool-cases (load 8 block 0 == 0)) [
              | inl z ↦ rw z refl
              | inr z ↦ rw (z, e, ◌>>=◌) refl
            ]
          ])

    lookup_loop-found :
        (offset : ℕ)
        → (8 ≤ offset) × (offset < 4096)
        → load 8 block 0 ≢ 0
        → find_record (block_size + 1) block 8 name ≡ some (some offset)
        → lookup_loop (suc rounds) k 0 dir name s
          ≡ some (at_record (nth s.disk dir k) block offset, s)
    unfolding lookup_loop
    lookup_loop-found offset (low, high) ne e =
        let behind : lt64 0 offset ≡ true = ground arith in
        let nonzero : (load 8 block 0 == 0) ≡ false = ground arith in
        rw
          (
            ◌>>=◌,
            get_datablock_from_inode-nth s sb free dir k 0 v h d.file lt,
            in_range,
            read-in_use s sb free v (nth s.disk dir k) (d.used k lt) h,
            nonzero,
            e,
            behind,
          )
          refl

  at_offset :
      (k rounds : ℕ) (lt : k < dir.blocks) (found : Option ℕ)
      → load 8 (s.disk (nth s.disk dir k)) 0 ≢ 0
      → find_record (block_size + 1) (s.disk (nth s.disk dir k)) 8 name ≡ some found
      → IsFound found
      → inum_at (s.disk (nth s.disk dir k)) found ≡ lookup name (es k)
      → (lookup name (es k) ≡ none
          → (load 8 (s.disk (nth s.disk dir k)) 0 ≡ 0)
            ⊎ (find_record (block_size + 1) (s.disk (nth s.disk dir k)) 8 name ≡ some none)
          → Finds k (suc rounds))
      → Finds k (suc rounds)
  at_offset k rounds lt none ne walk is inum skip = skip (sym inum) (inr walk)
  at_offset k rounds lt (some offset) ne walk is inum skip = (
    at_record (nth s.disk dir k) (s.disk (nth s.disk dir k)) offset,
    lookup_loop-found k rounds lt offset is ne walk,
    rw (lookup-append name (es k) (entries_from es (k + 1) rounds), sym inum) refl,
  )

  lookup_loop-Finds : (rounds k : ℕ) → k + rounds ≤ dir.blocks → Finds k rounds
  unfolding lookup_loop lookup
  lookup_loop-Finds zero k le = (absent, refl, refl)
  lookup_loop-Finds (suc rounds) k le =
      let lt : k < dir.blocks = omega arith in
      let d_k = d.entries k lt in
      let (r, run, val) = lookup_loop-Finds rounds (k + 1) (omega arith) in
      let (found, walk, inum) = find_record-lookup (s.disk (nth s.disk dir k)) (es k) name d_k in
      let skip : lookup name (es k) ≡ none
          → (load 8 (s.disk (nth s.disk dir k)) 0 ≡ 0)
            ⊎ (find_record (block_size + 1) (s.disk (nth s.disk dir k)) 8 name ≡ some none)
          → Finds k (suc rounds) =
        λ e w. (
          r,
          lookup_loop-passed k rounds lt w ∙ run,
          rw (lookup-append name (es k) (entries_from es (k + 1) rounds), e) val,
        ) in
      elim (Bool-cases (load 8 (s.disk (nth s.disk dir k)) 0 == 0)) [
        | inl z ↦
            let zero_count : load 8 (s.disk (nth s.disk dir k)) 0 ≡ 0 = ground arith in
            skip (lookup-empty name (es k) (sym d_k.count ∙ zero_count)) (inl zero_count)
        | inr z ↦
            at_offset k rounds lt found (ground arith) walk
              (find_record-IsFound (s.disk (nth s.disk dir k)) (es k) name found d_k walk) inum skip
      ]

-- On a directory of up to 522 blocks the lookup of a name changes nothing and returns the inode
-- number of the first entry with the name, over all its blocks in order, or -1 if there is none.
pub lookup_in-lookup :
    (s : Fs) (sb : Superblock) (free : List ℕ) (dir : Inode) (es : ℕ → List Entry) (name : List ℕ)
    → IsAllocator s sb free
    → IsHealthy s.device
    → IsDirectory s sb free dir es
    → s_isdir dir.i_mode ≡ true
    → length name ≤ 255
    → lookup_in dir name s ≡ some (or_minus_one (lookup name (entries_from es 0 dir.blocks)), s)
unfolding lookup_in
lookup_in-lookup s sb free dir es name v h d mode short =
    let (r, run, val) = lookup_loop-Finds s sb free dir es name v h d dir.blocks 0 (omega arith) in
    let all : rounds_of dir.blocks ≡ dir.blocks = ground (arith, d.file.small) in
    let fits : ltb file_name_max_length (length name) ≡ false = ground arith in
    rw (mode, fits, all, run, ◌>>=◌, val) refl
