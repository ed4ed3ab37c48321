-- ===== src/Bytes/Laws.antt =====
-- Reading back what was written, and what a write leaves alone.

use native.Mathlib.Nat.{pow-suc, add-zero}
use beach_bytes_file_system.Base.{
  ℕ, zero, suc, ◌+◌, ◌-◌, ◌/◌, ◌%◌, ◌^◌, ◌≤◌, ◌<◌, ◌≡◌, refl, ◌⊎◌, arith, ==_refl,
}
use beach_bytes_file_system.Bytes.{Bytes, zeros, put, load, store, copy}

-- the ranges of `n` bytes at `i` and of `m` bytes at `j` do not meet
abbrev pub Apart : ℕ → ℕ → ℕ → ℕ → Type 0
Apart i n j m = (i + n ≤ j) ⊎ (j + m ≤ i)

pub load-cong :
    (n : ℕ) {b c : Bytes} (k : ℕ)
    → ((j : ℕ) → k ≤ j → j < k + n → b j ≡ c j)
    → load n b k ≡ load n c k
unfolding load
load-cong zero k h = refl
load-cong (suc n) k h = omega (
  arith,
  h k (omega arith) (omega arith),
  load-cong n (k + 1) (λ j p q. h j (omega arith) (omega arith)),
)

pub load-shift :
    (n : ℕ) (b c : Bytes) (k l : ℕ)
    → ((j : ℕ) → j < n → b (k + j) ≡ c (l + j))
    → load n b k ≡ load n c l
unfolding load
load-shift zero b c k l h = refl
load-shift (suc n) b c k l h =
    let first : b k ≡ c l = rw (← add-zero k, ← add-zero l) (h 0 (omega arith)) in
    omega (
      arith,
      load-shift n b c (k + 1) (l + 1) λ j p.
          let e : k + 1 + j ≡ k + (j + 1) = omega arith in
          let e' : l + 1 + j ≡ l + (j + 1) = omega arith in rw (e, e') (h (j + 1) (omega arith)),
    )

pub store-out : (n : ℕ) (b : Bytes) (k v j : ℕ) → (j < k) ⊎ (k + n ≤ j) → store n b k v j ≡ b j
unfolding store
store-out zero b k v j h = refl
store-out (suc n) b k v j h = ground (arith, store-out n b (k + 1) (v / 256) j)

pub load-store_ne :
    (m n : ℕ) (b : Bytes) (i j v : ℕ) → Apart i m j n → load n (store m b i v) j ≡ load n b j
load-store_ne m n b i j v h = load-cong n j (λ k p q. store-out m b i v k (omega arith))

div_small : (n v : ℕ) → v < 256 ^ suc n → v / 256 < 256 ^ n
div_small n v h = let e = pow-suc 256 n in omega arith

pub load-store : (n : ℕ) (b : Bytes) (k v : ℕ) → v < 256 ^ n → load n (store n b k v) k ≡ v
unfolding load store
load-store zero b k v h = omega arith
load-store (suc n) b k v h =
    let rest : load n (put (store n b (k + 1) (v / 256)) k (v % 256)) (k + 1)
        ≡ load n (store n b (k + 1) (v / 256)) (k + 1) =
      load-cong n (k + 1) (λ j p q. ground arith) in
    rw (==_refl, rest, load-store n b (k + 1) (v / 256) (div_small n v h)) (omega arith)

pub load-lt : (n : ℕ) (b : Bytes) (k : ℕ) → ((j : ℕ) → b j < 256) → load n b k < 256 ^ n
unfolding load
load-lt zero b k h = omega arith
load-lt (suc n) b k h = omega (arith, pow-suc 256 n, h k, load-lt n b (k + 1) h)

pub load-zeros : (n k : ℕ) → load n zeros k ≡ 0
unfolding load
load-zeros zero k = refl
load-zeros (suc n) k = omega (arith, load-zeros n (k + 1))

pub load-copy :
    (n : ℕ) (b : Bytes) (at : ℕ) (src : Bytes) (len o : ℕ)
    → o + n ≤ len
    → load n (copy b at src 0 len) (at + o) ≡ load n src o
unfolding copy
load-copy n b at src len o h = load-shift n _ src (at + o) o (λ j p. ground (arith, same j p))
  where
    same : (j : ℕ) → j < n → at + o + j - at + 0 ≡ o + j
    same j p = omega arith

pub load-copy_ne :
    (n : ℕ) (b : Bytes) (at : ℕ) (src : Bytes) (start len j : ℕ)
    → Apart at len j n
    → load n (copy b at src start len) j ≡ load n b j
unfolding copy
load-copy_ne n b at src start len j h = load-cong n j (λ k p q. ground arith)

pub copy-out :
    (b : Bytes) (at : ℕ) (src : Bytes) (start len k : ℕ)
    → (k < at) ⊎ (at + len ≤ k)
    → copy b at src start len k ≡ b k
unfolding copy
copy-out b at src start len k h = ground arith
