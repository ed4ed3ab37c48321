-- ===== src/FileWrite/Blocks.antt =====
-- What one round of the overwriting loop does to the bytes of a file.
use beach_bytes_file_system.Base.{
  ap, ne→==, ==_refl, ℕ, ◌+◌, ◌-◌, ◌*◌, ◌/◌, ◌%◌, ◌≤◌, ◌<◌, ◌≡◌, refl, sym, ◌∙◌, ◌≢◌, ◌⊎◌, inl, inr,
  false, arith, ltb, ◌==◌, Bool-cases,
}
use beach_bytes_file_system.Bytes.{Bytes}
use beach_bytes_file_system.Config.{Inode}
use beach_bytes_file_system.Machine.{set_block}
use beach_bytes_file_system.BlockMap.Small.{nth}
use beach_bytes_file_system.FileRead.Buffer.{byte_at}

-- the blocks of a file differ from each other and from its block of addresses
pub record IsApart (d : ℕ → Bytes) (node : Inode) : Type 0 where
  pub distinct : (k l : ℕ) → k < node.blocks → l < node.blocks → k ≢ l → nth d node k ≢ nth d node l
  pub addresses : (k : ℕ) → k < node.blocks → 10 < node.blocks → nth d node k ≢ node.single_indirect

-- On the disk `d'` the `n` bytes of the file from `offset` on are those of `buff`; its other bytes, its
-- blocks, and what stands in all other blocks are as on `d`.
pub record Overwrites (d : ℕ → Bytes) (node : Inode) (offset n : ℕ) (buff : Bytes) (d' : ℕ → Bytes)
    : Type 0 where
  pub inside : (j : ℕ) → j < n → byte_at d' node (offset + j) ≡ buff j
  pub outside :
      (p : ℕ)
      → p < 4096 * node.blocks
      → (p < offset) ⊎ (offset + n ≤ p)
      → byte_at d' node p ≡ byte_at d node p
  pub blocks : (k : ℕ) → k < node.blocks → nth d' node k ≡ nth d node k
  pub rest : (b : ℕ) → ((k : ℕ) → k < node.blocks → b ≢ nth d node k) → d' b ≡ d b

pub Overwrites-none :
    (d : ℕ → Bytes) (node : Inode) (offset : ℕ) (buff : Bytes) → Overwrites d node offset 0 buff d
Overwrites-none d node offset buff = record {
  inside = λ j h. absurd (omega arith);
  outside = λ p h k. refl;
  blocks = λ k h. refl;
  rest = λ b h. refl;
}

-- One more part of the data, `m` bytes at `lo` in the block `k`.
module _ (d0 d : ℕ → Bytes) (node : Inode) (offset n m k lo : ℕ) (buff c : Bytes)
    (a : IsApart d0 node) (o : Overwrites d0 node offset n buff d) (lt : k < node.blocks)
    (at : 4096 * k + lo ≡ offset + n) (room : lo + m ≤ 4096)
    (new : (j : ℕ) → lo ≤ j → j < lo + m → c j ≡ buff (n + (j - lo)))
    (old : (j : ℕ) → j < 4096 → (j < lo) ⊎ (lo + m ≤ j) → c j ≡ d (nth d0 node k) j) where
  abbrev d' : ℕ → Bytes
  d' = set_block d (nth d0 node k) c

  nth-d' : (l : ℕ) → l < node.blocks → nth d' node l ≡ nth d0 node l
  nth-d' l h = elim (Bool-cases (ltb l 10)) [
    | inl e ↦ ground (arith, o.blocks l h)
    | inr e ↦
        let ne : nth d0 node k ≢ node.single_indirect = a.addresses k lt (ground arith) in
        let same : (node.single_indirect == nth d0 node k) ≡ false = ne→== λ q. ne (sym q) in
        rw same (o.blocks l h)
  ]

  byte_here : (p : ℕ) → p / 4096 ≡ k → byte_at d' node p ≡ c (p % 4096)
  byte_here p e = rw (e, nth-d' k lt, ==_refl) refl

  byte_there :
      (p : ℕ) → p / 4096 < node.blocks → p / 4096 ≢ k → byte_at d' node p ≡ byte_at d node p
  byte_there p h ne =
      let apart : (nth d0 node (p / 4096) == nth d0 node k) ≡ false =
        ne→== (a.distinct (p / 4096) k h lt ne) in
      rw (nth-d' (p / 4096) h, apart, o.blocks (p / 4096) h) refl

  byte_kept :
      (p : ℕ)
      → p < 4096 * node.blocks
      → (p < offset + n) ⊎ (offset + n + m ≤ p)
      → byte_at d' node p ≡ byte_at d node p
  byte_kept p h out = elim (Bool-cases (p / 4096 == k)) [
    | inl e ↦
        let same : p / 4096 ≡ k = ground arith in
        byte_here p same
        ∙ old (p % 4096) (omega arith) (omega arith)
        ∙ rw (same, o.blocks k lt) refl
    | inr e ↦ byte_there p (omega arith) (ground arith)
  ]

  byte_new : (j : ℕ) → n ≤ j → j < n + m → byte_at d' node (offset + j) ≡ buff j
  byte_new j h h' =
      let pos : (offset + j) % 4096 ≡ lo + (j - n) = omega arith in
      let same : n + (lo + (j - n) - lo) ≡ j = omega arith in
      byte_here (offset + j) (omega arith)
      ∙ rw pos (new (lo + (j - n)) (omega arith) (omega arith) ∙ ap buff same)

  pub Overwrites-step : Overwrites d0 node offset (n + m) buff d'
  Overwrites-step = record {
    inside = λ j h. elim (Bool-cases (ltb j n)) [
      | inl e ↦ byte_kept (offset + j) (ground arith) (ground arith) ∙ o.inside j (ground arith)
      | inr e ↦ byte_new j (ground arith) h
    ];
    outside = λ p h out. byte_kept p h (omega arith) ∙ o.outside p h (omega arith);
    blocks = nth-d';
    rest = λ b h. let ne : (b == nth d0 node k) ≡ false = ne→== (h k lt) in rw ne (o.rest b h);
  }
