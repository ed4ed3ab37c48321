-- ===== src/Directory/RoundTrip.antt =====
-- Adding a record and looking names up afterwards.
use beach_bytes_file_system.Base.{
  ℕ, ◌+◌, ◌^◌, ◌≤◌, ◌<◌, ◌≡◌, refl, sym, ap, ◌∙◌, inl, inr, true, false, Option, none, some, List,
  [], ◌∷◌, ◌++◌, length, Bool-cases, ==_refl,
}
use beach_bytes_file_system.Bytes.{Bytes, load, add64}
use beach_bytes_file_system.Config.{block_size}
use beach_bytes_file_system.Directory.{write_record, has_room, find_record}
use beach_bytes_file_system.Directory.Records.{Entry, IsDirBlock, name_eq, lookup}
use beach_bytes_file_system.Directory.Lookup.{inum_at, find_record-lookup}
use beach_bytes_file_system.Directory.Insert.{write_record-append}

name_eq_refl : (name : List ℕ) → name_eq name name ≡ true
unfolding name_eq
name_eq_refl [] = refl
name_eq_refl (c ∷ cs) = rw (==_refl, name_eq_refl cs) refl

pub lookup_last :
    (name : List ℕ) (es : List Entry) (inum : ℕ)
    → lookup name es ≡ none
    → lookup name (es ++ ((inum, name) ∷ [])) ≡ some inum
unfolding lookup
lookup_last name [] inum h = rw (name_eq_refl name) refl
lookup_last name ((i, n) ∷ es) inum h = elim (Bool-cases (name_eq n name)) [
  | inl e ↦ let e2 : some i ≡ none = rw e at h in cc
  | inr e ↦ let h2 : lookup name es ≡ none = rw e at h in rw e (lookup_last name es inum h2)
]

pub lookup_others :
    (name other : List ℕ) (es : List Entry) (inum : ℕ)
    → name_eq name other ≡ false
    → lookup other (es ++ ((inum, name) ∷ [])) ≡ lookup other es
unfolding lookup
lookup_others name other [] inum h = rw h refl
lookup_others name other ((i, n) ∷ es) inum h = elim (Bool-cases (name_eq n other)) [
  | inl e ↦ rw e refl
  | inr e ↦ rw e (lookup_others name other es inum h)
]

-- the walk over a block finds this number for the name, or that there is none
abbrev pub Finds : Bytes → List ℕ → Option ℕ → Type 0
Finds b name found =
    (r : Option ℕ) × (find_record (block_size + 1) b 8 name ≡ some r) × (inum_at b r ≡ found)

-- After a record was added for a name that the block did not have, the walk finds its inode number
-- under the name, and for every other name what it found before.
pub find_record-write_record :
    (b : Bytes) (es : List Entry) (inum : ℕ) (name : List ℕ)
    → IsDirBlock b es
    → lookup name es ≡ none
    → has_room b (length name + 1) ≡ true
    → length name ≤ 255
    → inum < 256 ^ 8
    → Finds (write_record b (add64 8 (load 8 b 0)) inum name) name (some inum)
      × ((other : List ℕ) (found : Option ℕ)
          → name_eq name other ≡ false
          → Finds b other found
          → Finds (write_record b (add64 8 (load 8 b 0)) inum name) other found)
find_record-write_record b es inum name d fresh room short fits =
    let b' : Bytes = write_record b (add64 8 (load 8 b 0)) inum name in
    let es' : List Entry = es ++ ((inum, name) ∷ []) in
    let d' : IsDirBlock b' es' = write_record-append b es inum name d room short fits in
    let (r, run, val) = find_record-lookup b' es' name d' in
    (
      (r, run, val ∙ lookup_last name es inum fresh),
      λ other found apart before.
          let (r1, run1, val1) = find_record-lookup b' es' other d' in
          let (r0, run0, val0) = before in
          let (r2, run2, val2) = find_record-lookup b es other d in
          let same : r2 ≡ r0 = cc in
          (
            r1,
            run1,
            val1 ∙ lookup_others name other es inum apart ∙ sym val2 ∙ ap (inum_at b) same ∙ val0,
          ),
    )
