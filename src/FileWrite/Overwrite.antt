-- ===== src/FileWrite/Overwrite.antt =====
-- The overwriting loop puts the data into the blocks that the file has.
use beach_bytes_file_system.Base.{
  ℕ, zero, suc, ◌+◌, ◌-◌, ◌≤◌, ◌<◌, ◌≡◌, refl, ap, sym, ◌∙◌, ◌≢◌, inl, inr, true, false, Option,
  some, List, arith, ◌==◌, Bool-cases, if◌then◌else◌,
}
use beach_bytes_file_system.Bytes.{Bytes, zeros, copy, le64}
use beach_bytes_file_system.Config.{Inode, Superblock}
use beach_bytes_file_system.Machine.{Fs, pure, set_block, ◌>>=◌}
use beach_bytes_file_system.LayerZero.Blocks.{IsHealthy}
use beach_bytes_file_system.DataBlock.{write_data_block}
use beach_bytes_file_system.DataBlock.FreeList.{in_use, IsAllocator}
use beach_bytes_file_system.DataBlock.InUse.{
  in_use-range, IsAllocator-set_block, read-in_use, write-in_use,
}
use beach_bytes_file_system.BlockMap.{get_datablock_from_inode}
use beach_bytes_file_system.BlockMap.Small.{nth, get_datablock_from_inode-nth}
use beach_bytes_file_system.FileRead.Contents.{IsFile}
use beach_bytes_file_system.FileWrite.Blocks.{IsApart, Overwrites, Overwrites-step}
use beach_bytes_file_system.FileWrite.{
  Written, Extent, extent_of, in_middle, overwrite_round, old_contents, overwrite_loop,
}
use beach_bytes_file_system.FileWrite.Parts.{
  IsInside, IsReached, at_start, behind, Part, last, end_block, start_not_middle, Part-at_start,
  Part-middle, Part-at_end,
}

abbrev pub with_disk : Fs → (ℕ → Bytes) → Fs
with_disk s d = record s { disk = d }

-- a round up to the test for the last block
overwrite_loop-suc :
    (node : Inode) (e : Extent) (buff : Bytes) (rounds i done num : ℕ) (s s' : Fs) (b c : Bytes)
    (done' : ℕ)
    → get_datablock_from_inode node i 0 s ≡ some ((num, 0), s)
    → le64 num 0 ≡ false
    → old_contents e i num s ≡ some (some b, s)
    → overwrite_round e i b buff done ≡ (c, done')
    → write_data_block num c s ≡ some (true, s')
    → overwrite_loop (suc rounds) i node e 0 buff done s
      ≡ (if i == e.end_i_block
            then pure (done', true)
            else overwrite_loop rounds (i + 1) node e 0 buff done')
          s'
unfolding overwrite_loop
overwrite_loop-suc node e buff rounds i done num s s' b c done' at there got round put =
    rw (◌>>=◌, at, there, got, round, put, round) refl

module _ (node : Inode) (offset n : ℕ) (buff : Bytes) (g : IsInside node offset n) where
  abbrev ext : Extent
  ext = extent_of node n offset

  abbrev final : ℕ
  final = last node offset n buff g

  abbrev Reached : ℕ → ℕ → Type 0
  Reached = IsReached node offset n buff g

  abbrev PartOf : ℕ → ℕ → Bytes → Bytes → Type 0
  PartOf = Part node offset n buff g

  module _ (s0 : Fs) (sb : Superblock) (free : List ℕ) (healthy : IsHealthy s0.device)
      (apart : IsApart s0.disk node) where
    -- the state with `done` bytes written
    pub record IsWritten (done : ℕ) (s : Fs) : Type 0 where
      pub allocator : IsAllocator s sb free
      pub file : IsFile s sb free node
      pub wrote : Overwrites s0.disk node offset done buff s.disk
      pub frame : s ≡ with_disk s0 s.disk

    module _ (i done : ℕ) (s : Fs) (w : IsWritten done s) (lt : i < node.blocks) where
      abbrev num : ℕ
      num = nth s0.disk node i

      abbrev written : Bytes → Fs
      written c = with_disk s (set_block s.disk num c)

      used : in_use sb free num ≡ true
      used = rw (← w.wrote.blocks i lt) (w.file.used i lt)

      IsHealthy-now : IsHealthy s.device
      IsHealthy-now = rw w.frame healthy

      -- the part of a round keeps the invariant
      written-IsWritten :
          (b : Bytes) (p : PartOf i done (s.disk num) b)
          → IsWritten (done + p.m) (written (copy b p.lo buff done p.m))
      unfolding copy
      written-IsWritten b p =
          let step =
            Overwrites-step s0.disk s.disk node offset done p.m i p.lo buff
              (copy b p.lo buff done p.m) apart w.wrote lt p.at p.room
              (λ j low high.
                let pos : j - p.lo + done ≡ done + (j - p.lo) = omega arith in ground (arith, pos))
              (λ j high out. ground (arith, p.same j high out)) in
          record {
            allocator = IsAllocator-set_block s sb free w.allocator num used _;
            file = record {
              small = w.file.small;
              used = λ k h. rw (step.blocks k h ∙ sym (w.wrote.blocks k h)) (w.file.used k h);
            };
            wrote = step;
            frame =
                ap (λ t. with_disk t (set_block s.disk num (copy b p.lo buff done p.m))) w.frame;
          }

      -- what is taken for the block, and what the round makes of it
      contents :
          Reached i done
          → (b : Bytes) × (old_contents ext i num s ≡ some (some b, s))
            × PartOf i done (s.disk num) b
      unfolding old_contents
      contents (at_start h z) =
          let mid : in_middle ext i ≡ false = rw h (start_not_middle node offset n buff g) in
          (
            s.disk num,
            rw mid (read-in_use s sb free w.allocator num used IsHealthy-now),
            (Part-at_start node offset n buff g) i done (s.disk num) h z,
          )
      contents (behind low le at) = elim (Bool-cases (i == final)) [
        | inl q ↦
            let here : i ≡ final = ground arith in
            let mid : in_middle ext i ≡ false = ground (arith, (end_block node offset n buff g)) in
            (
              s.disk num,
              rw mid (read-in_use s sb free w.allocator num used IsHealthy-now),
              (Part-at_end node offset n buff g) i done (s.disk num) here (omega arith)
                  (omega arith),
            )
        | inr q ↦
            let ne : i ≢ final = ground arith in
            let mid : in_middle ext i ≡ true = ground (arith, (end_block node offset n buff g)) in
            (
              zeros,
              rw mid refl,
              (Part-middle node offset n buff g) i done (s.disk num) low (omega arith) at,
            )
      ]

      number : get_datablock_from_inode node i 0 s ≡ some ((num, 0), s)
      number =
          get_datablock_from_inode-nth s sb free node i 0 w.allocator IsHealthy-now w.file.small lt
          ∙ ap (λ k. some ((k, 0), s)) (w.wrote.blocks i lt)

      positive_num : le64 num 0 ≡ false
      positive_num = let (low, high) = in_use-range s sb free w.allocator num used in ground arith

      round_lem :
          (rounds : ℕ) (b : Bytes) (p : PartOf i done (s.disk num) b)
          → old_contents ext i num s ≡ some (some b, s)
          → overwrite_loop (suc rounds) i node ext 0 buff done s
            ≡ (if i == final
                  then pure (done + p.m, true)
                  else overwrite_loop rounds (i + 1) node ext 0 buff (done + p.m))
                (written (copy b p.lo buff done p.m))
      round_lem rounds b p got = rw (← (end_block node offset n buff g)) (
          overwrite_loop-suc node ext buff rounds i done num s _ b _ _ number positive_num got
            p.round
            (write-in_use s sb free w.allocator num used (copy b p.lo buff done p.m) IsHealthy-now))

    abbrev Runs : ℕ → ℕ → ℕ → Fs → Type 0
    Runs rounds i done s =
        (s' : Fs) × (overwrite_loop rounds i node ext 0 buff done s ≡ some ((n, true), s'))
        × IsWritten n s'

    ends_here :
        (rounds i done' : ℕ) (s1 : Fs) (x : Option (Written × Fs))
        → x
          ≡ (if i == final
                then pure (done', true)
                else overwrite_loop rounds (i + 1) node ext 0 buff done')
              s1
        → i ≡ final
        → done' ≡ n
        → IsWritten done' s1
        → (s' : Fs) × (x ≡ some ((n, true), s')) × IsWritten n s'
    ends_here rounds i done' s1 x run h all w =
        let here : (i == final) ≡ true = ground arith in
        (s1, run ∙ rw (here, all) refl, rw (← all) w)

    i≤last : (i done : ℕ) → Reached i done → i ≤ final
    i≤last i done (at_start h z) = omega arith
    i≤last i done (behind low le at) = le

    pub overwrite_loop-Runs :
        (rounds i done : ℕ) (s : Fs)
        → i + rounds ≡ node.blocks
        → Reached i done
        → IsWritten done s
        → Runs rounds i done s
    overwrite_loop-Runs zero i done s sum r w = let le = i≤last i done r in absurd (omega arith)
    overwrite_loop-Runs (suc rounds) i done s sum r w =
        let (b, got, p) = contents i done s w (omega arith) r in
        let w1 = written-IsWritten i done s w (omega arith) b p in
        let run = round_lem i done s w (omega arith) rounds b p got in
        let s1 : Fs = written i done s w (omega arith) (copy b p.lo buff done p.m) in
        elim p.next [
          | inl (h, all) ↦ ends_here rounds i (done + p.m) s1 _ run h all w1
          | inr (lt, r1) ↦
              let there : (i == final) ≡ false = ground arith in
              let (s', run', w') =
                overwrite_loop-Runs rounds (i + 1) (done + p.m) s1 (omega arith) r1 w1 in
              (s', run ∙ rw there run', w')
        ]
