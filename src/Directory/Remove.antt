-- ===== src/Directory/Remove.antt =====
-- Removing a record from a directory block: the later records move up.
use beach_bytes_file_system.Base.{
  ℕ, ◌+◌, ◌-◌, ◌≤◌, ◌<◌, ◌≡◌, refl, sym, ap, ◌∙◌, inl, inr, true, ◌&&◌, some, List, [], ◌∷◌, ◌++◌,
  arith, ltb, leb, if◌then◌else◌, length, Bool-cases,
}
use beach_bytes_file_system.Bytes.{Bytes, load, store, copy, add64, sub64, lt64}
use beach_bytes_file_system.Bytes.Laws.{load-cong, load-shift, load-store, store-out}
use beach_bytes_file_system.Config.{block_size}
use beach_bytes_file_system.Directory.{find_record, without_record}
use beach_bytes_file_system.Directory.Records.{
  Entry, size, Named, Records, IsDirBlock, name_eq, Records-cong, Records-bound, Records-append,
  size-append, length-le-size,
}
use beach_bytes_file_system.Directory.Lookup.{offset_of_entry, find_record-offset_of_entry}

-- the bytes of `c` from `k` on are those of `b` at `d` more
abbrev Shifted : Bytes → Bytes → ℕ → ℕ → ℕ → Type 0
Shifted b c d k n = (j : ℕ) → k ≤ j → j < k + n → c j ≡ b (j + d)

Named-shift :
    (b c : Bytes) (d k l : ℕ) (name : List ℕ)
    → l ≡ k + d
    → Shifted b c d k (length name + 1)
    → Named b l name
    → Named c k name
Named-shift b c d k l [] e h n = h k (omega arith) (omega arith) ∙ ap b (sym e) ∙ n
Named-shift b c d k l (x ∷ xs) e h (first, n) = (
  h k (omega arith) (omega arith) ∙ ap b (sym e) ∙ first,
  Named-shift b c d (k + 1) (l + 1) xs (omega arith) (λ j p q. h j (omega arith) (omega arith)) n,
)

word-shift : (b c : Bytes) (d k l : ℕ) → l ≡ k + d → Shifted b c d k 8 → load 8 c k ≡ load 8 b l
word-shift b c d k l e h = load-shift 8 c b k l λ j p.
    let at : k + j + d ≡ l + j = omega arith in h (k + j) (omega arith) (omega arith) ∙ ap b at

Records-shift :
    (b c : Bytes) (d k l : ℕ) (es : List Entry)
    → l ≡ k + d
    → Shifted b c d k (size es)
    → Records b l es
    → Records c k es
Records-shift b c d k l [] e h r = tt
Records-shift b c d k l ((inum, name) ∷ es) e h (len, num, named, fits, rest) = (
  word-shift b c d k l e (λ j p q. h j (omega arith) (omega arith)) ∙ len,
  word-shift b c d (k + 8) (l + 8) (omega arith) (λ j p q. h j (omega arith) (omega arith)) ∙ num,
  Named-shift b c d (k + 16) (l + 16) name (omega arith) (λ j p q. h j (omega arith) (omega arith))
      named,
  omega arith,
  Records-shift b c d (k + (17 + length name)) (l + (17 + length name)) es (omega arith)
      (λ j p q. h j (omega arith) (omega arith)) rest,
)

Records-split :
    (b : Bytes) (pos : ℕ) (es fs : List Entry)
    → Records b pos (es ++ fs)
    → Records b pos es × Records b (pos + size es) fs
Records-split b pos [] fs r = let e : pos + 0 ≡ pos = omega arith in (tt, rw e r)
Records-split b pos ((inum, name) ∷ es) fs (len, num, named, fits, rest) =
    let e : pos + (17 + length name + size es) ≡ pos + (17 + length name) + size es = omega arith in
    let (front, back) = Records-split b (pos + (17 + length name)) es fs rest in
    ((len, num, named, fits, front), rw e back)

-- the bytes of a block without the record of `r` bytes at `o`
module _ (b : Bytes) (o r : ℕ) (low : 8 ≤ o) (len : load 8 b o ≡ r) (positive : 0 < r)
    (fits : o + r ≤ 4096) where
  next : add64 o r ≡ o + r
  next = omega arith

  without-front : (k : ℕ) → k < o → without_record b o k ≡ store 8 b 0 (sub64 (load 8 b 0) r) k
  unfolding without_record copy
  without-front k p = ground (arith, next, len)

  without-moved : (k : ℕ) → o ≤ k → k + r < 4096 → without_record b o k ≡ b (k + r)
  unfolding without_record copy
  without-moved k p q =
      let at : k - o + (o + r) ≡ k + r = omega arith in
      let kept = store-out 8 b 0 (sub64 (load 8 b 0) r) (k + r) (omega arith) in
      let more : lt64 (o + r) block_size ≡ true = ground arith in
      let inside : (leb o k && ltb k (o + (block_size - (o + r)))) ≡ true = ground arith in
      rw (len, next, more, inside, at) kept

  without-end : (k : ℕ) → o ≤ k → 4096 ≤ k + r → without_record b o k ≡ 0
  unfolding without_record copy
  without-end k p q = ground (arith, next, len)

-- the entries without the first one with the name
unfoldable pub delete : List ℕ → List Entry → List Entry
delete name [] = []
delete name ((inum, n) ∷ es) =
    let rest = delete name es in if name_eq n name then es else (inum, n) ∷ rest

-- where an offset that was found splits the entries
data SplitAt (pos offset : ℕ) (name : List ℕ) (es : List Entry) : Type 0 where
  split_at :
      (pre : List Entry) (e : Entry) (post : List Entry)
      → es ≡ pre ++ (e ∷ post)
      → offset ≡ pos + size pre
      → delete name es ≡ pre ++ post
      → SplitAt pos offset name es

some-inj : {A : Type 0} {a b : A} → some a ≡ some b → a ≡ b
some-inj e = cc

offset_of_entry-SplitAt :
    (pos offset : ℕ) (name : List ℕ) (es : List Entry)
    → offset_of_entry pos es name ≡ some offset
    → SplitAt pos offset name es
unfolding offset_of_entry delete
offset_of_entry-SplitAt pos offset name [] h = cc
offset_of_entry-SplitAt pos offset name ((inum, n) ∷ es) h = elim (Bool-cases (name_eq n name)) [
  | inl e ↦
      let at : pos ≡ offset = some-inj (rw e at h) in
      split_at [] (inum, n) es refl (omega arith) (rw e refl)
  | inr e ↦
      let later : offset_of_entry (pos + (17 + length n)) es name ≡ some offset = rw e at h in
      elim (offset_of_entry-SplitAt (pos + (17 + length n)) offset name es later) [
        | split_at pre x post same at rest ↦
            split_at ((inum, n) ∷ pre) x post (ap (λ t. (inum, n) ∷ t) same) (omega arith)
              (rw (e, rest) refl)
      ]
]

IsDirBlock-without :
    (b : Bytes) (pre post : List Entry) (inum : ℕ) (name : List ℕ)
    → IsDirBlock b (pre ++ ((inum, name) ∷ post))
    → IsDirBlock (without_record b (8 + size pre)) (pre ++ post)
IsDirBlock-without b pre post inum name d =
    let o : ℕ = 8 + size pre in
    let r : ℕ = 17 + length name in
    let (front, (len, num, named, fits, back)) =
      Records-split b 8 pre ((inum, name) ∷ post) d.records in
    let all : size (pre ++ ((inum, name) ∷ post)) ≡ size pre + (r + size post) =
      size-append pre ((inum, name) ∷ post) in
    let left : size (pre ++ post) ≡ size pre + size post = size-append pre post in
    let bound = Records-bound b (o + r) post (omega arith) back in
    let w : Bytes = without_record b o in
    record {
      count =
          load-cong 8 {b = w} 0 (λ j p q.
            without-front b o r (omega arith) len (omega arith) (omega arith) j (omega arith))
          ∙ load-store 8 b 0 (sub64 (load 8 b 0) r) (omega arith)
          ∙ omega (arith, d.count, all, left);
      records =
          Records-append w 8 pre post
            (Records-cong b w 8 pre
              (λ j p q. sym (
                without-front b o r (omega arith) len (omega arith) (omega arith) j (omega arith)
                ∙ store-out 8 b 0 _ j (omega arith)))
              front)
            (Records-shift b w r o (o + r) post refl
              (λ j p q.
                without-moved b o r (omega arith) len (omega arith) (omega arith) j p (omega arith))
              back);
      zero_after = λ k p. elim (Bool-cases (ltb (k + r) 4096)) [
        | inl e ↦
            without-moved b o r (omega arith) len (omega arith) (omega arith) k (omega arith)
              (ground arith)
            ∙ d.zero_after (k + r) (omega arith)
        | inr e ↦
            without-end b o r (omega arith) len (omega arith) (omega arith) k (omega arith)
              (ground arith)
      ];
    }

-- In a block that holds the records `es`, taking out the record that the walk finds for a name leaves
-- a block that holds `es` without the first entry with the name, in the same order.
pub without_record-delete :
    (b : Bytes) (es : List Entry) (name : List ℕ) (offset : ℕ)
    → IsDirBlock b es
    → find_record (block_size + 1) b 8 name ≡ some (some offset)
    → IsDirBlock (without_record b offset) (delete name es)
without_record-delete b es name offset d h =
    let walk =
      find_record-offset_of_entry b name (block_size + 1) 8 es d.records d.zero_after (omega arith)
        (omega (arith, length-le-size es, Records-bound b 8 es (omega arith) d.records)) in
    elim (offset_of_entry-SplitAt 8 offset name es (some-inj (sym walk ∙ h))) [
      | split_at pre (inum, n) post same at rest ↦
          rw (at, rest) (IsDirBlock-without b pre post inum n (rw same at d))
    ]
