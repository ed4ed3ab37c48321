-- ===== src/Directory/Records.antt =====
-- What the bytes of a directory block stand for: a list of inode numbers and names, in order.
use beach_bytes_file_system.Base.{
  ℕ, ◌+◌, ◌*◌, ◌≤◌, ◌<◌, ◌≡◌, Bool, true, false, ◌&&◌, Option, none, some, List, [], ◌∷◌, ◌++◌,
  arith, ◌==◌, if◌then◌else◌, length,
}
use beach_bytes_file_system.Bytes.{Bytes, load}
use beach_bytes_file_system.Bytes.Laws.{load-cong}

abbrev pub Entry : Type 0
Entry = ℕ × List ℕ

-- a record: two words, the name and its NUL
abbrev pub entry_size : Entry → ℕ
entry_size (inum, name) = 17 + length name

abbrev pub size : List Entry → ℕ
size [] = 0
size (e ∷ es) = entry_size e + size es

-- the bytes at `k` are the name and its NUL
abbrev pub Named : Bytes → ℕ → List ℕ → Type 0
Named b k [] = b k ≡ 0
Named b k (c ∷ cs) = (b k ≡ c) × Named b (k + 1) cs

-- the records that stand in the block from `pos` on
abbrev pub Records : Bytes → ℕ → List Entry → Type 0
Records b pos [] = Unit
Records b pos ((inum, name) ∷ es) =
    (load 8 b pos ≡ 17 + length name)
    × (load 8 b (pos + 8) ≡ inum)
    × Named b (pos + 16) name
    × (pos + (17 + length name) ≤ 4096)
    × Records b (pos + (17 + length name)) es

-- a block that holds these records and is zero behind them
pub record IsDirBlock (b : Bytes) (es : List Entry) : Type 0 where
  pub count : load 8 b 0 ≡ size es
  pub records : Records b 8 es
  pub zero_after : (k : ℕ) → 8 + size es ≤ k → b k ≡ 0

unfoldable pub name_eq : List ℕ → List ℕ → Bool
name_eq [] [] = true
name_eq (a ∷ m) (b ∷ n) = (a == b) && name_eq m n
name_eq _ _ = false

-- the inode number of the first entry with the name
unfoldable pub lookup : List ℕ → List Entry → Option ℕ
unfolding name_eq
lookup name [] = none
lookup name ((inum, n) ∷ es) = if name_eq n name then some inum else lookup name es

pub Named-cong :
    (b c : Bytes) (k : ℕ) (name : List ℕ)
    → ((j : ℕ) → k ≤ j → j < k + (length name + 1) → b j ≡ c j)
    → Named b k name
    → Named c k name
Named-cong b c k [] h n = ground (arith, h k)
Named-cong b c k (x ∷ xs) h (e, n) =
    (ground (arith, h k), Named-cong b c (k + 1) xs (λ j p q. h j (omega arith) (omega arith)) n)

-- records depend on their own bytes alone
pub Records-cong :
    (b c : Bytes) (pos : ℕ) (es : List Entry)
    → ((j : ℕ) → pos ≤ j → j < pos + size es → b j ≡ c j)
    → Records b pos es
    → Records c pos es
Records-cong b c pos [] h r = tt
Records-cong b c pos ((inum, name) ∷ es) h (len, num, named, fits, rest) = (
  let e = load-cong 8 {b = b} {c = c} pos (λ j p q. h j (omega arith) (omega arith)) in
      omega (arith, e),
  let e = load-cong 8 {b = b} {c = c} (pos + 8) (λ j p q. h j (omega arith) (omega arith)) in
      omega (arith, e),
  Named-cong b c (pos + 16) name (λ j p q. h j (omega arith) (omega arith)) named,
  fits,
  Records-cong b c (pos + (17 + length name)) es (λ j p q. h j (omega arith) (omega arith)) rest,
)

pub Records-bound :
    (b : Bytes) (pos : ℕ) (es : List Entry) → pos ≤ 4096 → Records b pos es → pos + size es ≤ 4096
Records-bound b pos [] h r = omega arith
Records-bound b pos ((inum, name) ∷ es) h (len, num, named, fits, rest) =
    omega (arith, Records-bound b (pos + (17 + length name)) es fits rest)

pub length-le-size : (es : List Entry) → 17 * length es ≤ size es
length-le-size [] = omega arith
length-le-size (e ∷ es) = omega (arith, length-le-size es)

pub size-append : (es fs : List Entry) → size (es ++ fs) ≡ size es + size fs
size-append [] fs = omega arith
size-append (e ∷ es) fs = omega (arith, size-append es fs)

pub Records-append :
    (b : Bytes) (pos : ℕ) (es fs : List Entry)
    → Records b pos es
    → Records b (pos + size es) fs
    → Records b pos (es ++ fs)
Records-append b pos [] fs r t = let e : pos + 0 ≡ pos = omega arith in rw e at t
Records-append b pos ((inum, name) ∷ es) fs (len, num, named, fits, rest) t =
    let e : pos + (17 + length name + size es) ≡ pos + (17 + length name) + size es = omega arith in
    (len, num, named, fits, Records-append b (pos + (17 + length name)) es fs rest (rw e at t))
