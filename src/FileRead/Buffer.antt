-- ===== src/FileRead/Buffer.antt =====
-- A buffer that is filled with the bytes of a file.
use beach_bytes_file_system.Base.{
  ℕ, ◌+◌, ◌-◌, ◌/◌, ◌%◌, ◌≤◌, ◌<◌, ◌≡◌, refl, sym, inl, inr, true, ◌&&◌, arith, ltb, leb,
  Bool-cases,
}
use beach_bytes_file_system.Bytes.{Bytes, copy}
use beach_bytes_file_system.Config.{Inode, block_size}
use beach_bytes_file_system.BlockMap.Small.{nth}

-- the byte at position `p` of a file
abbrev pub byte_at : (ℕ → Bytes) → Inode → ℕ → ℕ
byte_at d node p = d (nth d node (p / block_size)) (p % block_size)

-- the buffer `out` is `buff` with the first `n` bytes replaced by those of the file from `offset` on
pub record Reads (d : ℕ → Bytes) (node : Inode) (offset n : ℕ) (buff out : Bytes) : Type 0 where
  pub inside : (j : ℕ) → j < n → out j ≡ byte_at d node (offset + j)
  pub outside : (j : ℕ) → n ≤ j → out j ≡ buff j

pub Reads-copy :
    (d : ℕ → Bytes) (node : Inode) (offset n m k lo : ℕ) (buff out : Bytes)
    → Reads d node offset n buff out
    → ((j : ℕ) → j < m → ((offset + n + j) / 4096 ≡ k) × ((offset + n + j) % 4096 ≡ j + lo))
    → Reads d node offset (n + m) buff (copy out n (d (nth d node k)) lo m)
unfolding copy
Reads-copy d node offset n m k lo buff out r at = record {
  inside = λ j p. elim (Bool-cases (ltb j n)) [
    | inl e ↦ ground (arith, r.inside j)
    | inr e ↦
        let ge : n ≤ j = ground arith in
        let (block, pos) = at (j - n) (omega arith) in
        let same : offset + n + (j - n) ≡ offset + j = omega arith in
        let here : byte_at d node (offset + j) ≡ d (nth d node k) (j - n + lo) =
          rw (← same, block, pos) refl in
        let inside : (leb n j && ltb j (n + m)) ≡ true = ground arith in rw inside (sym here)
  ];
  outside = λ j p. ground (arith, r.outside j);
}

pub Reads-first :
    (d : ℕ → Bytes) (node : Inode) (offset m k lo : ℕ) (buff : Bytes)
    → ((j : ℕ) → j < m → ((offset + j) / 4096 ≡ k) × ((offset + j) % 4096 ≡ j + lo))
    → Reads d node offset m buff (copy buff 0 (d (nth d node k)) lo m)
Reads-first d node offset m k lo buff at =
    let none_yet : Reads d node offset 0 buff buff = record {
      inside = λ j p. absurd (omega arith);
      outside = λ j p. refl;
    } in
    let whole : 0 + m ≡ m = omega arith in
    let shift : offset + 0 ≡ offset = omega arith in
    rw whole at (Reads-copy d node offset 0 m k lo buff buff none_yet (λ j p. rw shift (at j p)))
