-- ===== src/Directory/Lookup.antt =====
-- The walk over a directory block finds the first record with the name, if there is one.
use beach_bytes_file_system.Base.{
  ℕ, zero, suc, ◌+◌, ◌%◌, ◌^◌, ◌≤◌, ◌<◌, ◌≡◌, refl, ◌≢◌, ◌∙◌, inl, inr, false, Option, none, some,
  List, [], ◌∷◌, arith, ◌==◌, if◌then◌else◌, length, Bool-cases,
}
use beach_bytes_file_system.Bytes.Laws.{load-cong, load-zeros}
use beach_bytes_file_system.Bytes.{Bytes, zeros, load}
use beach_bytes_file_system.Config.{block_size}
use beach_bytes_file_system.Directory.{same_name, find_record}
use beach_bytes_file_system.Directory.Records.{
  Entry, size, Named, Records, IsDirBlock, name_eq, lookup, Records-bound, length-le-size,
}

same_name-eq :
    (b : Bytes) (k : ℕ) (n name : List ℕ)
    → Named b k n
    → length n ≡ length name
    → k + length name ≤ 4096
    → same_name b k name ≡ some (name_eq n name)
unfolding same_name name_eq
same_name-eq b k [] [] h e fits = refl
same_name-eq b k [] (c ∷ cs) h e fits = absurd (omega arith)
same_name-eq b k (a ∷ m) [] h e fits = absurd (omega arith)
same_name-eq b k (a ∷ m) (c ∷ cs) (h, hs) e fits =
    ground (arith, same_name-eq b (k + 1) m cs hs (omega arith) (omega arith))

name_eq-length : (n name : List ℕ) → length n ≢ length name → name_eq n name ≡ false
unfolding name_eq
name_eq-length [] [] h = absurd (h refl)
name_eq-length [] (c ∷ cs) h = refl
name_eq-length (a ∷ m) [] h = refl
name_eq-length (a ∷ m) (c ∷ cs) h = ground (arith, name_eq-length m cs (omega arith))

-- the offset of the first record with the name
unfoldable pub offset_of_entry : ℕ → List Entry → List ℕ → Option ℕ
offset_of_entry pos [] name = none
offset_of_entry pos ((inum, n) ∷ es) name =
    if name_eq n name then some pos else offset_of_entry (pos + (17 + length n)) es name

pub find_record-offset_of_entry :
    (b : Bytes) (name : List ℕ) (fuel pos : ℕ) (es : List Entry)
    → Records b pos es
    → ((k : ℕ) → pos + size es ≤ k → b k ≡ 0)
    → pos ≤ 4096
    → length es < fuel
    → find_record fuel b pos name ≡ some (offset_of_entry pos es name)
unfolding find_record offset_of_entry
find_record-offset_of_entry b name zero pos es r z low enough = absurd (omega arith)
find_record-offset_of_entry b name (suc fuel) pos [] r z low enough =
    let zero_word : load 8 b pos ≡ 0 =
      load-cong 8 {b = b} {c = zeros} pos (λ j p q. z j (omega arith)) ∙ load-zeros 8 pos in
    ground arith
find_record-offset_of_entry b name (suc fuel) pos ((inum, n) ∷ es) (len, num, named, fits, rest) z
      low enough =
    let next : (pos + (17 + length n)) % 2 ^ 64 ≡ pos + (17 + length n) = omega arith in
    let ih =
      find_record-offset_of_entry b name fuel (pos + (17 + length n)) es rest
        (λ k p. z k (omega arith)) fits (omega arith) in
    elim (Bool-cases (length n == length name)) [
      | inl e ↦
          let same : length n ≡ length name = ground arith in
          ground (arith, ih, next, same_name-eq b (pos + 16) n name named same (omega arith))
      | inr e ↦
          let differ : length n ≢ length name = ground arith in
          ground (arith, ih, next, name_eq-length n name differ)
    ]

-- the inode number at the offset that was found
abbrev pub inum_at : Bytes → Option ℕ → Option ℕ
inum_at b none = none
inum_at b (some offset) = some (load 8 b (offset + 8))

inum_at-offset :
    (b : Bytes) (pos : ℕ) (es : List Entry) (name : List ℕ)
    → Records b pos es
    → inum_at b (offset_of_entry pos es name) ≡ lookup name es
unfolding offset_of_entry lookup
inum_at-offset b pos [] name r = refl
inum_at-offset b pos ((inum, n) ∷ es) name (len, num, named, fits, rest) =
    elim (Bool-cases (name_eq n name)) [
      | inl e ↦ rw (e, num)
      | inr e ↦ rw e (inum_at-offset b (pos + (17 + length n)) es name rest)
    ]

-- an offset that was found lies behind the count
abbrev pub IsFound : Option ℕ → Type 0
IsFound none = Unit
IsFound (some offset) = (8 ≤ offset) × (offset < 4096)

offset_of_entry-IsFound :
    (b : Bytes) (pos : ℕ) (es : List Entry) (name : List ℕ)
    → 8 ≤ pos
    → Records b pos es
    → IsFound (offset_of_entry pos es name)
unfolding offset_of_entry
offset_of_entry-IsFound b pos [] name low r = tt
offset_of_entry-IsFound b pos ((inum, n) ∷ es) name low (len, num, named, fits, rest) =
    elim (Bool-cases (name_eq n name)) [
      | inl e ↦ rw e (low, omega arith)
      | inr e ↦ rw e (offset_of_entry-IsFound b (pos + (17 + length n)) es name (omega arith) rest)
    ]

pub find_record-IsFound :
    (b : Bytes) (es : List Entry) (name : List ℕ) (r : Option ℕ)
    → IsDirBlock b es
    → find_record (block_size + 1) b 8 name ≡ some r
    → IsFound r
find_record-IsFound b es name r d e =
    let walk =
      find_record-offset_of_entry b name (block_size + 1) 8 es d.records d.zero_after (omega arith)
        (omega (arith, length-le-size es, Records-bound b 8 es (omega arith) d.records)) in
    let same : offset_of_entry 8 es name ≡ r = cc in
    rw (← same) (offset_of_entry-IsFound b 8 es name (omega arith) d.records)

-- In a block that holds the records `es` the walk ends without leaving the block, and what it finds
-- is the inode number of the first record with the name, or nothing if there is none.
pub find_record-lookup :
    (b : Bytes) (es : List Entry) (name : List ℕ)
    → IsDirBlock b es
    → (r : Option ℕ) × (find_record (block_size + 1) b 8 name ≡ some r)
      × (inum_at b r ≡ lookup name es)
find_record-lookup b es name d = (
  offset_of_entry 8 es name,
  find_record-offset_of_entry b name (block_size + 1) 8 es d.records d.zero_after (omega arith)
      (omega (arith, length-le-size es, Records-bound b 8 es (omega arith) d.records)),
  inum_at-offset b 8 es name d.records,
)
