-- ===== src/FileWrite/Parts.antt =====
-- One round of the overwriting loop: which bytes of the block come from the data.
use beach_bytes_file_system.Base.{
  ℕ, ◌+◌, ◌-◌, ◌*◌, ◌^◌, ◌/◌, ◌%◌, ◌≤◌, ◌<◌, ◌≡◌, refl, ◌≢◌, ◌⊎◌, inl, inr, true, false, arith,
  ◌==◌, Bool-cases, ==_refl,
}
use beach_bytes_file_system.Bytes.{Bytes, zeros, copy, add64}
use beach_bytes_file_system.Config.{Inode}
use beach_bytes_file_system.FileWrite.{Extent, extent_of, first_part, in_middle, overwrite_round}

-- `n` bytes from `offset` on, which lie inside the blocks of a small file
pub record IsInside (node : Inode) (offset n : ℕ) : Type 0 where
  pub positive : 0 < n
  pub fits : offset + n ≤ 4096 * node.blocks
  pub small : node.blocks ≤ 522

module _ (node : Inode) (offset n : ℕ) (buff : Bytes) (g : IsInside node offset n) where
  abbrev pub e : Extent
  e = extent_of node n offset

  abbrev pub last : ℕ
  last = (offset + n - 1) / 4096

  pub end_block : e.end_i_block ≡ last
  end_block = omega (arith, g.positive, g.fits, g.small)

  -- where the loop stands before the round `i`, when `done` bytes are written
  pub data IsReached (i done : ℕ) : Type 0 where
    at_start : i ≡ offset / 4096 → done ≡ 0 → IsReached i done
    behind : offset / 4096 < i → i ≤ last → offset + done ≡ 4096 * i → IsReached i done

  -- What the round does with a block that holds `old` when `b` is taken for it: `m` bytes at `lo` come
  -- from the data.
  pub record Part (i done : ℕ) (old b : Bytes) : Type 0 where
    pub m : ℕ
    pub lo : ℕ
    pub round : overwrite_round e i b buff done ≡ (copy b lo buff done m, done + m)
    pub at : 4096 * i + lo ≡ offset + done
    pub room : lo + m ≤ 4096
    pub same : (j : ℕ) → j < 4096 → (j < lo) ⊎ (lo + m ≤ j) → b j ≡ old j
    pub next : ((i ≡ last) × (done + m ≡ n)) ⊎ ((i < last) × IsReached (i + 1) (done + m))

  pub start_not_middle : in_middle e (offset / 4096) ≡ false
  start_not_middle = ground (arith, g.positive, g.fits, g.small)

  first_part-whole : offset / 4096 ≡ last → first_part e ≡ n
  first_part-whole h = ground (arith, g.positive, g.fits, g.small)

  first_part-rest : offset / 4096 < last → first_part e ≡ 4096 - offset % 4096
  first_part-rest h = ground (arith, g.positive, g.fits, g.small)

  round_first :
      (b : Bytes) (m : ℕ)
      → first_part e ≡ m
      → m < 2 ^ 64
      → overwrite_round e (offset / 4096) b buff 0 ≡ (copy b (offset % 4096) buff 0 m, 0 + m)
  unfolding overwrite_round
  round_first b m h small_m =
      let sum : add64 0 m ≡ 0 + m = omega (arith, g.positive, g.fits, g.small) in
      let start : (offset / 4096 == e.start_i_block) ≡ true = ==_refl _ in
      rw (start_not_middle, start, h, sum) refl

  Part-first : (b : Bytes) → Part (offset / 4096) 0 b b
  Part-first b = elim (Bool-cases (offset / 4096 == last)) [
    | inl q ↦
        let one : offset / 4096 ≡ last = ground (arith, g.positive, g.fits, g.small) in
        record {
          m = n;
          lo = offset % 4096;
          round =
              round_first b n (first_part-whole one) (omega (arith, g.positive, g.fits, g.small));
          at = omega (arith, g.positive, g.fits, g.small);
          room = omega (arith, g.positive, g.fits, g.small);
          same = λ j p out. refl;
          next = inl (one, omega (arith, g.positive, g.fits, g.small));
        }
    | inr q ↦
        let ne : offset / 4096 ≢ last = ground (arith, g.positive, g.fits, g.small) in
        let more : offset / 4096 < last = omega (arith, g.positive, g.fits, g.small) in
        record {
          m = 4096 - offset % 4096;
          lo = offset % 4096;
          round =
              round_first b _ (first_part-rest more) (omega (arith, g.positive, g.fits, g.small));
          at = omega (arith, g.positive, g.fits, g.small);
          room = omega (arith, g.positive, g.fits, g.small);
          same = λ j p out. refl;
          next = inr (
            more,
            behind (omega (arith, g.positive, g.fits, g.small))
                (omega (arith, g.positive, g.fits, g.small))
                (omega (arith, g.positive, g.fits, g.small)),
          );
        }
  ]

  pub Part-at_start : (i done : ℕ) (b : Bytes) → i ≡ offset / 4096 → done ≡ 0 → Part i done b b
  Part-at_start i done b h z = rw (h, z) (Part-first b)

  pub Part-middle :
      (i done : ℕ) (old : Bytes)
      → offset / 4096 < i
      → i < last
      → offset + done ≡ 4096 * i
      → Part i done old zeros
  unfolding overwrite_round
  Part-middle i done old low high at =
      let mid : in_middle e i ≡ true = ground (arith, end_block) in
      let sum : add64 done 4096 ≡ done + 4096 = omega (arith, g.positive, g.fits, g.small) in
      record {
        m = 4096;
        lo = 0;
        round = rw (mid, sum) refl;
        at = omega (arith, g.positive, g.fits, g.small);
        room = omega (arith, g.positive, g.fits, g.small);
        same = λ j p out. absurd (omega (arith, g.positive, g.fits, g.small));
        next = inr (
          high,
          behind (omega (arith, g.positive, g.fits, g.small))
              (omega (arith, g.positive, g.fits, g.small))
              (omega (arith, g.positive, g.fits, g.small)),
        );
      }

  Part-last :
      (done : ℕ) (b : Bytes)
      → offset / 4096 < last
      → offset + done ≡ 4096 * last
      → Part last done b b
  unfolding overwrite_round
  Part-last done b low at =
      let mid : in_middle e last ≡ false = ground (arith, end_block) in
      let start : (last == e.start_i_block) ≡ false = ground (arith, g.positive, g.fits, g.small) in
      let tail : e.end_block_offset + 1 ≡ n - done = omega (arith, g.positive, g.fits, g.small) in
      let sum : add64 done (n - done) ≡ done + (n - done) =
        omega (arith, g.positive, g.fits, g.small) in
      record {
        m = n - done;
        lo = 0;
        round = rw (mid, start, tail, sum) refl;
        at = omega (arith, g.positive, g.fits, g.small);
        room = omega (arith, g.positive, g.fits, g.small);
        same = λ j p out. refl;
        next = inl (refl, omega (arith, g.positive, g.fits, g.small));
      }

  pub Part-at_end :
      (i done : ℕ) (b : Bytes)
      → i ≡ last
      → offset / 4096 < i
      → offset + done ≡ 4096 * i
      → Part i done b b
  Part-at_end i done b h low at = rw h (
      Part-last done b (omega (arith, g.positive, g.fits, g.small))
        (omega (arith, g.positive, g.fits, g.small)))
