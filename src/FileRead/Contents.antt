-- ===== src/FileRead/Contents.antt =====
-- Reading gives the bytes of the file: those of its blocks, one after the other.
use beach_bytes_file_system.Base.{
  ℕ, zero, suc, ◌+◌, ◌-◌, ◌*◌, ◌/◌, ◌%◌, ◌≤◌, ◌<◌, ◌≡◌, refl, ◌≢◌, ◌∙◌, inl, inr, true, false, some,
  List, arith, ◌==◌, Bool-cases,
}
use beach_bytes_file_system.Bytes.{Bytes, copy, add64, le64}
use beach_bytes_file_system.Config.{Inode, Superblock}
use beach_bytes_file_system.Machine.{Fs, ◌>>=◌}
use beach_bytes_file_system.LayerZero.Blocks.{IsHealthy}
use beach_bytes_file_system.DataBlock.FreeList.{in_use, IsAllocator}
use beach_bytes_file_system.DataBlock.InUse.{in_use-range, read-in_use}
use beach_bytes_file_system.BlockMap.Small.{nth, IsSmallFile, get_datablock_from_inode-nth}
use beach_bytes_file_system.Directory.{rounds_of}
use beach_bytes_file_system.FileRead.Buffer.{Reads, Reads-copy, Reads-first}
use beach_bytes_file_system.FileRead.{
  read_file_block, Span, span_of, read_round, read_loop, read_blocks,
}

-- a file of up to 522 blocks, all of which are in use
pub record IsFile (s : Fs) (sb : Superblock) (free : List ℕ) (node : Inode) : Type 0 where
  pub small : IsSmallFile sb free node
  pub used : (k : ℕ) → k < node.blocks → in_use sb free (nth s.disk node k) ≡ true

module _ (s : Fs) (sb : Superblock) (free : List ℕ) (node : Inode) (v : IsAllocator s sb free)
    (h : IsHealthy s.device) (f : IsFile s sb free node) where
  read_file_block-ok :
      (k : ℕ)
      → k < node.blocks
      → read_file_block node k 0 s ≡ some (some (s.disk (nth s.disk node k), 0), s)
  unfolding read_file_block
  read_file_block-ok k lt =
      let (low, high) = in_use-range s sb free v (nth s.disk node k) (f.used k lt) in
      let positive : le64 (nth s.disk node k) 0 ≡ false = ground arith in
      rw
        (
          ◌>>=◌,
          get_datablock_from_inode-nth s sb free node k 0 v h f.small lt,
          positive,
          read-in_use s sb free v (nth s.disk node k) (f.used k lt) h,
        )
        refl

  module _ (offset n : ℕ) (buff : Bytes) (positive : 0 < n)
      (fits : offset + n ≤ 4096 * node.blocks) where
    abbrev span : Span
    span = span_of offset n

    blocks_left : span.blocks_to_read ≡ (offset + n - 1) / 4096 - offset / 4096 + 1
    blocks_left = omega (arith, f.small.small)

    abbrev Ends : ℕ → ℕ → Bytes → ℕ → Type 0
    Ends rounds i out done =
        (end : Bytes) × (read_loop rounds i node span 0 out done s ≡ some ((end, some n), s))
        × Reads s.disk node offset n buff end

    abbrev block : ℕ → Bytes
    block i = s.disk (nth s.disk node (offset / 4096 + i))

    read_loop-suc :
        (rounds i : ℕ) (out : Bytes) (done : ℕ)
        → i < span.blocks_to_read
        → read_loop (suc rounds) i node span 0 out done s
          ≡ read_loop rounds
              (i + 1)
              node
              span
              0
              (read_round span i (block i) out done).0
              (read_round span i (block i) out done).1
              s
    unfolding read_loop
    read_loop-suc rounds i out done lt =
        let inside : offset / 4096 + i < node.blocks = omega (arith, blocks_left) in
        rw (◌>>=◌, read_file_block-ok (offset / 4096 + i) inside) refl

    end_lem : (offset + n - 1) % 4096 ≡ span.end_block_offset
    end_lem = omega (arith, f.small.small)

    -- a whole block in the middle
    read_round-middle :
        (i : ℕ) (out : Bytes) (done : ℕ)
        → 1 ≤ i
        → i + 1 < span.blocks_to_read
        → done + offset % 4096 ≡ 4096 * i
        → read_round span i (block i) out done ≡ (copy out done (block i) 0 4096, done + 4096)
    unfolding read_round
    read_round-middle i out done one lt at =
        let first : (i == 0) ≡ false = ground arith in
        let last : (i == span.blocks_to_read - 1) ≡ false = ground arith in
        let small : add64 done 4096 ≡ done + 4096 = omega (arith, blocks_left, f.small.small) in
        rw (first, last, small) refl

    -- the part of the last block that is asked for
    read_round-last :
        (i : ℕ) (out : Bytes) (done : ℕ)
        → 1 ≤ i
        → i + 1 ≡ span.blocks_to_read
        → done + offset % 4096 ≡ 4096 * i
        → read_round span i (block i) out done
          ≡ (copy out done (block i) 0 ((offset + n - 1) % 4096 + 1), n)
    unfolding read_round
    read_round-last i out done one total at =
        let first : (i == 0) ≡ false = ground arith in
        let last : (i == span.blocks_to_read - 1) ≡ true = ground arith in
        let small : add64 done ((offset + n - 1) % 4096 + 1) ≡ n =
          omega (arith, blocks_left, f.small.small) in
        rw (first, last, ← end_lem, small) refl

    read_loop-zero :
        (i : ℕ) (out : Bytes) (done : ℕ)
        → read_loop zero i node span 0 out done s ≡ some ((out, some done), s)
    unfolding read_loop
    read_loop-zero i out done = refl

    -- the rounds behind the first
    read_loop-Ends :
        (rounds i : ℕ) (out : Bytes) (done : ℕ)
        → 1 ≤ i
        → i + suc rounds ≡ span.blocks_to_read
        → done + offset % 4096 ≡ 4096 * i
        → Reads s.disk node offset done buff out
        → Ends (suc rounds) i out done
    read_loop-Ends zero i out done one total at r =
        let m : ℕ = (offset + n - 1) % 4096 + 1 in
        let whole : done + m ≡ n = omega (arith, blocks_left, f.small.small) in
        let r1 =
          Reads-copy s.disk node offset done m (offset / 4096 + i) 0 buff out r
            (λ j p. (omega (arith, blocks_left), omega arith)) in
        (
          copy out done (block i) 0 m,
          read_loop-suc zero i out done (omega arith)
              ∙ rw (read_round-last i out done one total at) (read_loop-zero (i + 1) _ n),
          rw whole at r1,
        )
    read_loop-Ends (suc rounds) i out done one total at r =
        let round = read_round-middle i out done one (omega arith) at in
        let r1 =
          Reads-copy s.disk node offset done 4096 (offset / 4096 + i) 0 buff out r
            (λ j p. (omega arith, omega arith)) in
        let (end, run, all) =
          read_loop-Ends rounds (i + 1) (copy out done (block i) 0 4096) (done + 4096) (omega arith)
            (omega arith) (omega arith) r1 in
        (end, read_loop-suc (suc rounds) i out done (omega arith) ∙ rw round run, all)

    read_round-first :
        read_round span 0 (block 0) buff 0
        ≡ (copy buff 0 (block 0) (offset % 4096) (4096 - offset % 4096), 4096 - offset % 4096)
    unfolding read_round
    read_round-first =
        let small : add64 0 (4096 - offset % 4096) ≡ 4096 - offset % 4096 = omega arith in
        rw small refl

    several : (k : ℕ) → span.blocks_to_read ≡ suc (suc k) → Ends (suc (suc k)) 0 buff 0
    several k e =
        let m : ℕ = 4096 - offset % 4096 in
        let r1 : Reads s.disk node offset m buff (copy buff 0 (block 0) (offset % 4096) m) =
          Reads-first s.disk node offset m (offset / 4096 + 0) (offset % 4096) buff
            (λ j p. (omega arith, omega arith)) in
        let (end, run, all) =
          read_loop-Ends k 1 (copy buff 0 (block 0) (offset % 4096) m) m (omega arith)
            (omega (arith, e)) (omega arith) r1 in
        (end, read_loop-suc (suc k) 0 buff 0 (omega (arith, e)) ∙ rw read_round-first run, all)

-- On a file of up to 522 blocks, reading `n` bytes from `offset` on, all of which lie in its blocks,
-- succeeds and changes no state; it puts these bytes of the file in the first `n` places of the
-- buffer and keeps the rest of the buffer.
pub read_blocks-Reads :
    (s : Fs) (sb : Superblock) (free : List ℕ) (node : Inode) (offset n : ℕ) (buff : Bytes)
    → IsAllocator s sb free
    → IsHealthy s.device
    → IsFile s sb free node
    → 0 < n
    → offset + n ≤ 4096 * node.blocks
    → (end : Bytes) × (read_blocks node offset n buff s ≡ some ((end, some n), s))
      × Reads s.disk node offset n buff end
unfolding read_blocks
read_blocks-Reads s sb free node offset n buff v h f positive fits =
    let left = blocks_left s sb free node v h f offset n buff positive fits in
    elim (Bool-cases ((span_of offset n).blocks_to_read == 1)) [
      | inl e ↦
          let one : (span_of offset n).blocks_to_read ≡ 1 = ground arith in
          let inside : offset / 4096 < node.blocks = omega arith in
          (
            copy buff 0 (s.disk (nth s.disk node (offset / 4096))) (offset % 4096) n,
            rw (e, ◌>>=◌, read_file_block-ok s sb free node v h f (offset / 4096) inside) refl,
            Reads-first s.disk node offset n (offset / 4096) (offset % 4096) buff
                (λ j p. (omega (arith, one, left), omega (arith, one, left))),
          )
      | inr e ↦
          let two : (span_of offset n).blocks_to_read ≢ 1 = ground arith in
          let rounds : (span_of offset n).blocks_to_read
              ≡ suc (suc ((offset + n - 1) / 4096 - offset / 4096 - 1)) =
            omega (arith, left, two) in
          let all : rounds_of (span_of offset n).blocks_to_read
              ≡ suc (suc ((offset + n - 1) / 4096 - offset / 4096 - 1)) =
            ground (arith, rounds, left, f.small.small) in
          rw (e, all) (several s sb free node v h f offset n buff positive fits _ rounds)
    ]
