-- ===== src/Directory/Adding.antt =====
-- `add_directory_entry` on a directory in which a block has room: the entry goes to the first such
-- block, and the lookup finds it there.
pub mod Found
use beach_bytes_file_system.Base.{
  ℕ, zero, suc, ◌+◌, ◌^◌, ◌≤◌, ◌<◌, ◌≡◌, refl, sym, ap, ◌≢◌, ◌∙◌, inl, inr, true, false, Option,
  none, some, List, [], ◌∷◌, ◌++◌, arith, ltb, ◌==◌, if◌then◌else◌, length, Bool-cases, ==_refl,
  ne→==,
}
use beach_bytes_file_system.Bytes.{Bytes, load, add64, le64}
use beach_bytes_file_system.Config.{Inode, Superblock, block_size, file_name_max_length}
use beach_bytes_file_system.Machine.{Fs, Returns, returns, set_block, ◌>>=◌}
use beach_bytes_file_system.LayerZero.Blocks.{IsHealthy}
use beach_bytes_file_system.DataBlock.FreeList.{IsAllocator}
use beach_bytes_file_system.DataBlock.InUse.{
  in_use-range, read-in_use, write-in_use, IsAllocator-set_block,
}
use beach_bytes_file_system.BlockMap.Small.{nth, get_datablock_from_inode-nth}
use beach_bytes_file_system.Directory.{
  s_isdir, rounds_of, has_room, write_record, add_loop, add_directory_entry, lookup_in,
}
use beach_bytes_file_system.Directory.Records.{
  Entry, size, IsDirBlock, name_eq, lookup, Records-bound,
}
use beach_bytes_file_system.Directory.Insert.{has_room-le, write_record-append}
use beach_bytes_file_system.Directory.RoundTrip.{lookup_last, lookup_others}
use beach_bytes_file_system.Directory.Find.{
  IsDirectory, entries_from, or_minus_one, or_else, lookup-append, lookup_in-lookup,
}
use beach_bytes_file_system.FileWrite.Blocks.{IsApart}

-- the entries with one more behind those of block `j`
abbrev pub with_entry_at : (ℕ → List Entry) → ℕ → Entry → ℕ → List Entry
with_entry_at es j e k = if k == j then es k ++ (e ∷ []) else es k

abbrev pub one_file_more : Inode → Inode
one_file_more dir = record dir { files_count = add64 dir.files_count 1 }

-- block `j` is the first with room for a name
pub record IsFirstRoom (d : ℕ → Bytes) (dir : Inode) (name : List ℕ) (j : ℕ) : Type 0 where
  pub below : j < dir.blocks
  pub room : has_room (d (nth d dir j)) (length name + 1) ≡ true
  pub earlier : (k : ℕ) → k < j → has_room (d (nth d dir k)) (length name + 1) ≡ false

module _ (s : Fs) (sb : Superblock) (free : List ℕ) (dir : Inode) (es : ℕ → List Entry) (inum : ℕ)
    (name : List ℕ) (j : ℕ) (v : IsAllocator s sb free) (h : IsHealthy s.device)
    (d : IsDirectory s sb free dir es) (a : IsApart s.disk dir) (f : IsFirstRoom s.disk dir name j)
    (short : length name ≤ 255) (fits : inum < 256 ^ 8) where
  abbrev pub target : Bytes
  target = s.disk (nth s.disk dir j)

  abbrev pub added : Bytes
  added = write_record target (add64 8 (load 8 target 0)) inum name

  abbrev pub after : Fs
  after = record s { disk = set_block s.disk (nth s.disk dir j) added }

  inside : ltb (add64 8 (load 8 target 0)) block_size ≡ true
  inside =
      let e = d.entries j f.below in
      let bound = Records-bound target 8 (es j) (omega arith) e.records in
      let free_bytes = has_room-le target (size (es j)) (length name) e.count bound short f.room in
      let at : add64 8 (load 8 target 0) ≡ 8 + size (es j) = omega (arith, e.count) in
      rw at (ground arith)

  in_range : (k : ℕ) → k < dir.blocks → le64 (nth s.disk dir k) 0 ≡ false
  in_range k lt =
      let (low, high) = in_use-range s sb free v (nth s.disk dir k) (d.used k lt) in ground arith

  add_loop-passed :
      (rounds k : ℕ)
      → k < j
      → add_loop (suc rounds) k 0 dir inum name s ≡ add_loop rounds (k + 1) 0 dir inum name s
  unfolding add_loop
  add_loop-passed rounds k lt =
      let low : k < dir.blocks = omega (arith, f.below) in
      rw
        (
          ◌>>=◌,
          get_datablock_from_inode-nth s sb free dir k 0 v h d.file low,
          in_range k low,
          read-in_use s sb free v (nth s.disk dir k) (d.used k low) h,
          f.earlier k lt,
        )
        refl

  add_loop-found :
      (rounds : ℕ)
      → add_loop (suc rounds) j 0 dir inum name s ≡ some (some (true, one_file_more dir), after)
  unfolding add_loop
  add_loop-found rounds =
      rw
        (
          ◌>>=◌,
          get_datablock_from_inode-nth s sb free dir j 0 v h d.file f.below,
          in_range j f.below,
          read-in_use s sb free v (nth s.disk dir j) (d.used j f.below) h,
          f.room,
          inside,
          write-in_use s sb free v (nth s.disk dir j) (d.used j f.below) added h,
        )
        refl

  add_loop-after :
      (rounds k : ℕ)
      → k ≤ j
      → j < k + rounds
      → add_loop rounds k 0 dir inum name s ≡ some (some (true, one_file_more dir), after)
  add_loop-after zero k le lt = absurd (omega arith)
  add_loop-after (suc rounds) k le lt = elim (Bool-cases (k == j)) [
    | inl e ↦ let at : k ≡ j = ground arith in rw at (add_loop-found rounds)
    | inr e ↦
        let less : k < j = ground arith in
        add_loop-passed rounds k less ∙ add_loop-after rounds (k + 1) (omega arith) (omega arith)
  ]

  nth-after : (k : ℕ) → k < dir.blocks → nth after.disk dir k ≡ nth s.disk dir k
  nth-after k lt = elim (Bool-cases (ltb k 10)) [
    | inl e ↦ rw e refl
    | inr e ↦
        let ne : nth s.disk dir j ≢ dir.single_indirect = a.addresses j f.below (ground arith) in
        let same : (dir.single_indirect == nth s.disk dir j) ≡ false = ne→== λ q. ne (sym q) in
        rw same refl
  ]

  block-after :
      (k : ℕ)
      → k < dir.blocks
      → IsDirBlock (after.disk (nth s.disk dir k)) (with_entry_at es j (inum, name) k)
  block-after k lt = elim (Bool-cases (k == j)) [
    | inl e ↦
        let at : k ≡ j = ground arith in
        rw (at, ==_refl, ==_refl)
          (write_record-append target (es j) inum name (d.entries j f.below) f.room short fits)
    | inr e ↦
        let apart : (nth s.disk dir k == nth s.disk dir j) ≡ false =
          ne→== (a.distinct k j lt f.below (ground arith)) in
        rw (e, apart) (d.entries k lt)
  ]

  pub after-IsDirectory :
      IsDirectory after sb free (one_file_more dir) (with_entry_at es j (inum, name))
  after-IsDirectory = record {
    file = record { small = d.file.small; indirect = d.file.indirect };
    used = λ k lt. rw (nth-after k lt) (d.used k lt);
    entries = λ k lt. rw (nth-after k lt) (block-after k lt);
  }

  pub add_directory_entry-after :
      s_isdir dir.i_mode ≡ true
      → add_directory_entry dir inum name s ≡ some ((true, one_file_more dir), after)
  unfolding add_directory_entry
  add_directory_entry-after mode =
      let all : rounds_of dir.blocks ≡ dir.blocks = ground (arith, d.file.small) in
      let fit : ltb file_name_max_length (length name) ≡ false = ground arith in
      rw (mode, fit, all, ◌>>=◌, add_loop-after dir.blocks 0 (omega arith) (omega (arith, f.below)))
        refl
