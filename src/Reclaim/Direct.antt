-- ===== src/Reclaim/Direct.antt =====
-- Freeing the end of a file that has direct blocks alone.
use beach_bytes_file_system.Base.{
  ℕ, zero, suc, ◌+◌, ◌-◌, ◌≤◌, ◌<◌, ◌≡◌, refl, sym, ap, ◌≢◌, ◌∙◌, ◌⊎◌, inl, inr, true, false, List,
  arith, ltb, ◌==◌, Bool-cases,
}
use beach_bytes_file_system.Bytes.{put, lt64, le64}
use beach_bytes_file_system.Config.{Inode, Superblock, num_direct_blocks}
use beach_bytes_file_system.Machine.{Fs, Returns, returns, Returns-bind, Returns-mono, ◌>>=◌}
use beach_bytes_file_system.LayerZero.Blocks.{IsHealthy}
use beach_bytes_file_system.DataBlock.{free_data_block}
use beach_bytes_file_system.DataBlock.FreeList.{in_use, IsAllocator}
use beach_bytes_file_system.DataBlock.Release.{Frees, free_data_block_lem}
use beach_bytes_file_system.Reclaim.{
  direct_loop, after_direct, remove_from_direct, remove_datablocks_range_from_inode,
}

-- the blocks with the indices from `i` to `ending` are in use and different from one another
pub record Owns (sb : Superblock) (free : List ℕ) (addr : ℕ → ℕ) (i ending : ℕ) : Type 0 where
  pub used : (k : ℕ) → i ≤ k → k < ending → in_use sb free (addr k) ≡ true
  pub apart : (k l : ℕ) → i ≤ k → k < l → l < ending → addr k ≢ addr l

-- what freeing the blocks from `i` to `ending` has done to the file system
pub record FreesAll (s : Fs) (sb : Superblock) (free : List ℕ) (addr : ℕ → ℕ) (i ending : ℕ)
    (s' : Fs) : Type 0 where
  pub sb' : Superblock
  pub free' : List ℕ
  pub valid : IsAllocator s' sb' free'
  pub freed : (k : ℕ) → i ≤ k → k < ending → in_use sb' free' (addr k) ≡ false
  pub others :
      (c : ℕ) → ((k : ℕ) → i ≤ k → k < ending → c ≢ addr k) → in_use sb' free' c ≡ in_use sb free c
  pub contents :
      (c : ℕ) → c ≢ 0 → ((k : ℕ) → i ≤ k → k < ending → c ≢ addr k) → s'.disk c ≡ s.disk c
  pub device : s'.device ≡ s.device

-- and to the inode: the addresses are zero there, and all else is as it was
pub record Forgets (node : Inode) (i ending : ℕ) (node' : Inode) : Type 0 where
  pub zeroed : (k : ℕ) → i ≤ k → k < ending → node'.direct_addresses k ≡ 0
  pub kept : (k : ℕ) → (k < i) ⊎ (ending ≤ k) → node'.direct_addresses k ≡ node.direct_addresses k
  pub same : node' ≡ (record node { direct_addresses = node'.direct_addresses })

Owns-next :
    (s : Fs) (sb : Superblock) (free : List ℕ) (node : Inode) (i ending : ℕ) (s1 : Fs)
    → Owns sb free node.direct_addresses i ending
    → i < ending
    → (f : Frees s sb free (node.direct_addresses i) s1)
    → Owns f.sb' f.free' (put node.direct_addresses i 0) (i + 1) ending
Owns-next s sb free node i ending s1 o lt f = record {
  used = λ k p q.
      let e : put node.direct_addresses i 0 k ≡ node.direct_addresses k = ground arith in
      let ne : node.direct_addresses k ≢ node.direct_addresses i =
        λ t. o.apart i k (omega arith) (omega arith) q (sym t) in
      rw e (f.others (node.direct_addresses k) ne ∙ o.used k (omega arith) q);
  apart = λ k l p q r.
      let e : put node.direct_addresses i 0 k ≡ node.direct_addresses k = ground arith in
      let e' : put node.direct_addresses i 0 l ≡ node.direct_addresses l = ground arith in
      λ t. o.apart k l (omega arith) q r (sym e ∙ t ∙ e');
}

FreesAll-first :
    (s : Fs) (sb : Superblock) (free : List ℕ) (node : Inode) (i ending : ℕ) (s1 s' : Fs)
    → Owns sb free node.direct_addresses i ending
    → i < ending
    → (f : Frees s sb free (node.direct_addresses i) s1)
    → FreesAll s1 f.sb' f.free' (put node.direct_addresses i 0) (i + 1) ending s'
    → FreesAll s sb free node.direct_addresses i ending s'
FreesAll-first s sb free node i ending s1 s' o lt f g =
    let later : (k : ℕ) → i + 1 ≤ k → put node.direct_addresses i 0 k ≡ node.direct_addresses k =
      λ k p. ground arith in
    record {
      sb' = g.sb';
      free' = g.free';
      valid = g.valid;
      freed = λ k p q. elim (Bool-cases (k == i)) [
        | inl e ↦
            let at : k ≡ i = ground arith in
            rw at (
              g.others (node.direct_addresses i)
                (λ l r t u. o.apart i l (omega arith) (omega arith) t (u ∙ later l r))
              ∙ f.now_free)
        | inr e ↦
            let above : i + 1 ≤ k = ground arith in
            ap (λ c. in_use g.sb' g.free' c) (sym (later k above)) ∙ g.freed k above q
      ];
      others = λ c out.
          g.others c (λ k p q t. out k (omega arith) q (t ∙ later k p))
          ∙ f.others c (out i (omega arith) lt);
      contents = λ c nz out.
          g.contents c nz (λ k p q t. out k (omega arith) q (t ∙ later k p))
          ∙ f.contents c nz (out i (omega arith) lt);
      device = g.device ∙ f.device;
    }

abbrev with_blocks : Inode → ℕ → Inode
with_blocks node n = record node { blocks = n }

FreesAll-none :
    (s : Fs) (sb : Superblock) (free : List ℕ) (addr : ℕ → ℕ) (i ending : ℕ)
    → IsAllocator s sb free
    → ending ≤ i
    → FreesAll s sb free addr i ending s
FreesAll-none s sb free addr i ending v le = record {
  sb' = sb;
  free' = free;
  valid = v;
  freed = λ k p q. absurd (omega arith);
  others = λ c out. refl;
  contents = λ c nz out. refl;
  device = refl;
}

Forgets-none : (node : Inode) (i ending : ℕ) → ending ≤ i → Forgets node i ending node
Forgets-none node i ending le = record {
  zeroed = λ k p q. absurd (omega arith);
  kept = λ k p. refl;
  same = refl;
}

Forgets-first :
    (node : Inode) (i ending : ℕ) (node' : Inode)
    → i < ending
    → Forgets
        (record node { direct_addresses = put node.direct_addresses i 0 })
        (i + 1)
        ending
        node'
    → Forgets node i ending node'
Forgets-first node i ending node' lt f = record {
  zeroed = λ k p q. elim (Bool-cases (k == i)) [
    | inl e ↦ f.kept k (inl (ground arith)) ∙ ground arith
    | inr e ↦ f.zeroed k (ground arith) q
  ];
  kept = λ k p. f.kept k (omega arith) ∙ ground arith;
  same = f.same;
}

direct_loop-FreesAll :
    (rounds i ending : ℕ) (s : Fs) (sb : Superblock) (free : List ℕ) (node : Inode)
    → IsAllocator s sb free
    → IsHealthy s.device
    → Owns sb free node.direct_addresses i ending
    → ending ≤ i + rounds
    → i + rounds ≤ num_direct_blocks
    → Returns
        (λ (ok, node') s'.
          (ok ≡ true)
          × FreesAll s sb free node.direct_addresses i ending s'
          × Forgets node i ending node')
        (direct_loop rounds i ending node s)
unfolding direct_loop
direct_loop-FreesAll zero i ending s sb free node v h o le ten = returns (
  refl,
  FreesAll-none s sb free node.direct_addresses i ending v (omega arith),
  Forgets-none node i ending (omega arith),
)
direct_loop-FreesAll (suc rounds) i ending s sb free node v h o le ten =
    elim (Bool-cases (ltb i ending)) [
      | inl e ↦
          let lt : i < ending = ground arith in
          let more : lt64 i ending ≡ true = ground arith in
          rw (more, ◌>>=◌)
            (Returns-bind (free_data_block (node.direct_addresses i)) _ s
              (free_data_block_lem s sb free (node.direct_addresses i) v h
                (o.used i (omega arith) lt))
              λ ok s1 p.
                let (e1, f) = p in
                let h1 : IsHealthy s1.device = rw f.device h in
                rw e1 (
                  Returns-mono
                    (λ c s' q. (
                      q.0,
                      FreesAll-first s sb free node i ending s1 s' o lt f q.1,
                      Forgets-first node i ending c.1 lt q.2,
                    ))
                    (direct_loop-FreesAll rounds (i + 1) ending s1 f.sb' f.free'
                      (record node { direct_addresses = put node.direct_addresses i 0 }) f.valid h1
                      (Owns-next s sb free node i ending s1 o lt f) (omega arith) (omega arith))))
      | inr e ↦
          let done : lt64 i ending ≡ false = ground arith in
          let le : ending ≤ i = ground arith in
          rw done (
            returns (
              refl,
              FreesAll-none s sb free node.direct_addresses i ending v le,
              Forgets-none node i ending le,
            ))
    ]

-- A file of at most ten blocks is cut off at the block `start`: the call succeeds, the blocks from
-- there on are free, no other block changes its state or its contents, and the inode has `start`
-- blocks, zeros for the addresses of those that were freed, and is otherwise as it was.
pub remove_datablocks_range-FreesAll :
    (s : Fs) (sb : Superblock) (free : List ℕ) (node : Inode) (start : ℕ)
    → IsAllocator s sb free
    → IsHealthy s.device
    → node.blocks ≤ num_direct_blocks
    → start ≤ node.blocks
    → start < num_direct_blocks
    → Owns sb free node.direct_addresses start node.blocks
    → Returns
        (λ (ok, node') s'.
          (ok ≡ true)
          × FreesAll s sb free node.direct_addresses start node.blocks s'
          × Forgets (record node { blocks = start }) start node.blocks node')
        (remove_datablocks_range_from_inode node start s)
unfolding remove_datablocks_range_from_inode remove_from_direct after_direct
remove_datablocks_range-FreesAll s sb free node start v h small le lt o =
    let not_past : lt64 node.blocks start ≡ false = ground arith in
    let signed : lt64 start num_direct_blocks ≡ true = ground arith in
    let direct : ltb start num_direct_blocks ≡ true = ground arith in
    let last : le64 node.blocks num_direct_blocks ≡ true = ground arith in
    rw (not_past, signed, direct, ◌>>=◌)
      (Returns-bind (direct_loop (num_direct_blocks - start) start node.blocks node) _ s
        (direct_loop-FreesAll (num_direct_blocks - start) start node.blocks s sb free node v h o
          (omega arith) (omega arith))
        λ c s' p.
          let (e, all, f) = p in
          rw (e, last)
            (returns (
              refl,
              all,
              record {
                zeroed = f.zeroed;
                kept = f.kept;
                same = ap (λ n. with_blocks n start) f.same;
              },
            )))
