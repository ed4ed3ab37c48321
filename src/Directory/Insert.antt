-- ===== src/Directory/Insert.antt =====
-- A record that is added to a directory block stands behind the others, which stay as they were.
use beach_bytes_file_system.Base.{
  ℕ, ◌+◌, ◌-◌, ◌%◌, ◌^◌, ◌≤◌, ◌<◌, ◌≡◌, refl, sym, ap, ◌∙◌, ◌⊎◌, true, List, [], ◌∷◌, ◌++◌, arith,
  length, length-append,
}
use beach_bytes_file_system.Bytes.{Bytes, zeros, load, store, write_bytes, add64, sub64, lt64}
use beach_bytes_file_system.Bytes.Laws.{Apart, load-cong, load-store, load-store_ne, store-out}
use beach_bytes_file_system.Config.{block_size, record_fixed_len}
use beach_bytes_file_system.Directory.{write_record, first_record, has_room}
use beach_bytes_file_system.Directory.Records.{
  Entry, size, Named, Records, IsDirBlock, Named-cong, Records-cong, Records-bound, Records-append,
  size-append,
}

write_bytes-out :
    (b : Bytes) (k : ℕ) (cs : List ℕ) (j : ℕ)
    → (j < k) ⊎ (k + length cs ≤ j)
    → write_bytes b k cs j ≡ b j
unfolding write_bytes
write_bytes-out b k [] j h = refl
write_bytes-out b k (c ∷ cs) j h = ground (arith, write_bytes-out b (k + 1) cs j)

load-write_bytes_ne :
    (n : ℕ) (b : Bytes) (k : ℕ) (cs : List ℕ) (j : ℕ)
    → Apart k (length cs) j n
    → load n (write_bytes b k cs) j ≡ load n b j
load-write_bytes_ne n b k cs j h = load-cong n j (λ i p q. write_bytes-out b k cs i (omega arith))

Named-write_bytes :
    (b : Bytes) (k : ℕ) (name : List ℕ) → Named (write_bytes b k (name ++ (0 ∷ []))) k name
unfolding write_bytes
Named-write_bytes b k [] = ground arith
Named-write_bytes b k (c ∷ cs) = (
  ground arith,
  Named-cong (write_bytes b (k + 1) (cs ++ (0 ∷ []))) _ (k + 1) cs (λ j p q. ground arith)
      (Named-write_bytes b (k + 1) cs),
)

module _ (b : Bytes) (at inum : ℕ) (name : List ℕ) (low : 8 ≤ at) where
  abbrev rec_len : ℕ
  rec_len = 16 + (length name + 1)

  abbrev b1 : Bytes
  b1 = store 8 b at rec_len

  abbrev b2 : Bytes
  b2 = store 8 b1 (at + 8) inum

  abbrev b3 : Bytes
  b3 = store 8 b2 0 (add64 (load 8 b2 0) rec_len)

  with_nul : length (name ++ (0 ∷ [])) ≡ length name + 1
  with_nul = length-append name (0 ∷ [])

  write_record-out :
      (j : ℕ)
      → 8 ≤ j
      → (j < at) ⊎ (at + (17 + length name) ≤ j)
      → write_record b at inum name j ≡ b j
  unfolding write_record
  write_record-out j p h =
      write_bytes-out b3 (at + 16) (name ++ (0 ∷ [])) j (omega (arith, with_nul))
      ∙ store-out 8 b2 0 _ j (omega arith)
      ∙ store-out 8 b1 (at + 8) inum j (omega arith)
      ∙ store-out 8 b at rec_len j (omega arith)

  write_record-count :
      load 8 b 0 + rec_len < 2 ^ 63 → load 8 (write_record b at inum name) 0 ≡ load 8 b 0 + rec_len
  unfolding write_record
  write_record-count small =
      let old : load 8 b2 0 ≡ load 8 b 0 =
        load-store_ne 8 8 b1 (at + 8) 0 inum (omega arith)
        ∙ load-store_ne 8 8 b at 0 rec_len (omega arith) in
      load-write_bytes_ne 8 b3 (at + 16) (name ++ (0 ∷ [])) 0 (omega arith)
      ∙ load-store 8 b2 0 _ (omega arith)
      ∙ omega (arith, old)

  write_record-Records :
      inum < 256 ^ 8
      → at + (17 + length name) ≤ 4096
      → Records (write_record b at inum name) at ((inum, name) ∷ [])
  unfolding write_record
  write_record-Records fits room = (
    load-write_bytes_ne 8 b3 (at + 16) (name ++ (0 ∷ [])) at (omega arith)
        ∙ load-store_ne 8 8 b2 0 at _ (omega arith)
        ∙ load-store_ne 8 8 b1 (at + 8) at inum (omega arith)
        ∙ load-store 8 b at rec_len (omega arith)
        ∙ omega arith,
    load-write_bytes_ne 8 b3 (at + 16) (name ++ (0 ∷ [])) (at + 8) (omega arith)
        ∙ load-store_ne 8 8 b2 0 (at + 8) _ (omega arith)
        ∙ load-store 8 b1 (at + 8) inum fits,
    Named-write_bytes b3 (at + 16) name,
    room,
    tt,
  )

pub has_room-le :
    (b : Bytes) (w len : ℕ)
    → load 8 b 0 ≡ w
    → 8 + w ≤ 4096
    → len ≤ 255
    → has_room b (len + 1) ≡ true
    → 8 + w + (17 + len) ≤ 4096
has_room-le b w len e bound short room =
    let x : add64 8 (load 8 b 0) ≡ 8 + w = omega arith in
    let y : sub64 block_size (8 + w) ≡ 4088 - w = omega arith in
    let z : sub64 (4088 - w) record_fixed_len ≡ (4072 + 2 ^ 64 - w) % 2 ^ 64 = omega arith in
    let v : sub64 ((4072 + 2 ^ 64 - w) % 2 ^ 64) 8 ≡ (4064 + 2 ^ 64 - w) % 2 ^ 64 = omega arith in
    let r : lt64 (len + 1) ((4064 + 2 ^ 64 - w) % 2 ^ 64) ≡ true =
      sym (
        ap (λ t. lt64 (len + 1) t)
          (ap (λ t. sub64 (sub64 (sub64 block_size t) record_fixed_len) 8) x
            ∙ ap (λ t. sub64 (sub64 t record_fixed_len) 8) y
            ∙ ap (λ t. sub64 t 8) z
            ∙ v))
      ∙ room in
    ground arith

-- A record goes behind the others when the test for room passes, and the walk finds it there.
pub write_record-append :
    (b : Bytes) (es : List Entry) (inum : ℕ) (name : List ℕ)
    → IsDirBlock b es
    → has_room b (length name + 1) ≡ true
    → length name ≤ 255
    → inum < 256 ^ 8
    → IsDirBlock (write_record b (add64 8 (load 8 b 0)) inum name) (es ++ ((inum, name) ∷ []))
write_record-append b es inum name d room short fits =
    let bound = Records-bound b 8 es (omega arith) d.records in
    let at : add64 8 (load 8 b 0) ≡ 8 + size es = omega (arith, d.count) in
    let e : size (es ++ ((inum, name) ∷ [])) ≡ size es + (17 + length name) =
      size-append es ((inum, name) ∷ []) ∙ omega arith in
    let free : 8 + size es + (17 + length name) ≤ 4096 =
      has_room-le b (size es) (length name) d.count bound short room in
    rw at (record {
      count =
          write_record-count b (8 + size es) inum name (omega arith) (omega (arith, d.count))
          ∙ omega (arith, d.count);
      records =
          Records-append (write_record b (8 + size es) inum name) 8 es ((inum, name) ∷ [])
            (Records-cong b _ 8 es
              (λ j p q.
                sym (write_record-out b (8 + size es) inum name (omega arith) j p (omega arith)))
              d.records)
            (write_record-Records b (8 + size es) inum name (omega arith) fits free);
      zero_after = λ k p.
          write_record-out b (8 + size es) inum name (omega arith) k (omega arith) (omega arith)
          ∙ d.zero_after k (omega arith);
    })

-- A new block of a directory holds one record and nothing else.
pub first_record-IsDirBlock :
    (inum : ℕ) (name : List ℕ)
    → length name ≤ 255
    → inum < 256 ^ 8
    → IsDirBlock (first_record inum name) ((inum, name) ∷ [])
unfolding first_record
first_record-IsDirBlock inum name short fits =
    let len : ℕ = 16 + (length name + 1) in
    let b1 : Bytes = store 8 zeros 0 len in
    let b2 : Bytes = store 8 b1 8 len in
    let b3 : Bytes = store 8 b2 16 inum in
    let with_nul = length-append name (0 ∷ []) in
    let kept : (k : ℕ) → k + 8 ≤ 24 → load 8 (first_record inum name) k ≡ load 8 b3 k =
      λ k p. load-write_bytes_ne 8 b3 24 (name ++ (0 ∷ [])) k (omega arith) in
    record {
      count =
          kept 0 (omega arith)
          ∙ load-store_ne 8 8 b2 16 0 inum (omega arith)
          ∙ load-store_ne 8 8 b1 8 0 len (omega arith)
          ∙ load-store 8 zeros 0 len (omega arith)
          ∙ omega arith;
      records = (
        kept 8 (omega arith)
            ∙ load-store_ne 8 8 b2 16 8 inum (omega arith)
            ∙ load-store 8 b1 8 len (omega arith)
            ∙ omega arith,
        kept 16 (omega arith) ∙ load-store 8 b2 16 inum fits,
        Named-write_bytes b3 24 name,
        omega arith,
        tt,
      );
      zero_after = λ k p.
          write_bytes-out b3 24 (name ++ (0 ∷ [])) k (omega (arith, with_nul))
          ∙ store-out 8 b2 16 inum k (omega arith)
          ∙ store-out 8 b1 8 len k (omega arith)
          ∙ store-out 8 zeros 0 len k (omega arith);
    }
