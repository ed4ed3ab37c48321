-- ===== src/Config/Images.antt =====
-- A struct that is copied to memory reads back as it was, if each value fits its field.

use beach_bytes_file_system.Base.{
  ℕ, zero, suc, ◌+◌, ◌*◌, ◌^◌, ◌≤◌, ◌<◌, ◌≡◌, refl, ◌∙◌, inl, inr, Bool, not, some, List, [], ◌∷◌,
  arith, ltb, ◌==◌, if◌then◌else◌, get_elem?, Bool-cases,
}
use beach_bytes_file_system.Bytes.{Bytes, load, copy}
use beach_bytes_file_system.Bytes.Laws.{load-cong, load-store, load-store_ne, load-copy}
use beach_bytes_file_system.Config.{
  Superblock, Inode, Field, store_all, superblock_fields, inode_fields, read_superblock, read_inode,
  superblock_image, inode_image, byte_of_bool,
}

-- the fields follow one another from offset `m` on
abbrev pub Ascending : ℕ → List Field → Type 0
Ascending m [] = Unit
Ascending m ((n, o, v) ∷ fs) = (m ≤ o) × Ascending (o + n) fs

abbrev pub Fits : List Field → Type 0
Fits [] = Unit
Fits ((n, o, v) ∷ fs) = (v < 256 ^ n) × Fits fs

field_after :
    (fs : List Field) (m k : ℕ) {n o v : ℕ}
    → Ascending m fs
    → get_elem? fs k ≡ some (n, o, v)
    → m ≤ o
field_after [] m k a e = cc
field_after ((n, o, v) ∷ fs) m zero a e = ground arith
field_after ((n, o, v) ∷ fs) m (suc k) a e = omega (arith, field_after fs (o + n) k a.1 e)

pub load-store_all :
    (fs : List Field) (m k : ℕ) {n o v : ℕ}
    → Ascending m fs
    → Fits fs
    → get_elem? fs k ≡ some (n, o, v)
    → load n (store_all fs) o ≡ v
unfolding store_all
load-store_all [] m k a f e = cc
load-store_all ((n', o', v') ∷ fs) m zero {n} {o} {v} a f e =
    let en : n' ≡ n = ground arith in
    let eo : o' ≡ o = ground arith in
    let ev : v' ≡ v = ground arith in rw (← en, ← eo, ← ev) (load-store n' (store_all fs) o' v' f.0)
load-store_all ((n', o', v') ∷ fs) m (suc k) {n} {o} {v} a f e =
    load-store_ne n' n (store_all fs) o' o v' (inl (field_after fs (o' + n') k a.1 e))
    ∙ load-store_all fs (o' + n') k a.1 f.1 e

-- every value fits its field
pub record IsSuperblock (sb : Superblock) : Type 0 where
  pub fits : Fits (superblock_fields sb)

pub record IsInode (i : Inode) : Type 0 where
  pub fits : Fits (inode_fields i)
  pub ten : (k : ℕ) → 10 ≤ k → i.direct_addresses k ≡ 0

module _ (b : Bytes) (sb : Superblock) (h : IsSuperblock sb) where
  superblock_field :
      (k : ℕ) {n o v : ℕ}
      → get_elem? (superblock_fields sb) k ≡ some (n, o, v)
      → o + n ≤ 40
      → load n (copy b 0 (superblock_image sb) 0 40) o ≡ v
  unfolding superblock_image
  superblock_field k {n} {o} e fits =
      let at : 0 + o ≡ o = omega arith in
      (rw at at (load-copy n b 0 (superblock_image sb) 40 o fits))
      ∙ load-store_all (superblock_fields sb) 0 k (omega arith) h.fits e

  pub read-superblock_image : read_superblock (copy b 0 (superblock_image sb) 0 40) ≡ sb
  unfolding read_superblock
  read-superblock_image = λ j. record {
    ilist_size = superblock_field 0 refl (omega arith) j;
    partition_size = superblock_field 1 refl (omega arith) j;
    max_alloc = superblock_field 2 refl (omega arith) j;
    freelist_head = superblock_field 3 refl (omega arith) j;
    inodes_count = superblock_field 4 refl (omega arith) j;
  }

bool_of_byte : (c : Bool) (n : ℕ) → n ≡ byte_of_bool c → not (n == 0) ≡ c
bool_of_byte c n e = ground arith

module _ (b : Bytes) (base : ℕ) (i : Inode) (h : IsInode i) where
  inode_field :
      (k : ℕ) {n o v : ℕ}
      → get_elem? (inode_fields i) k ≡ some (n, o, v)
      → o + n ≤ 264
      → load n (copy b base (inode_image i) 0 264) (base + o) ≡ v
  unfolding inode_image
  inode_field k {n} {o} e fits =
      load-copy n b base (inode_image i) 264 o fits
      ∙ load-store_all (inode_fields i) 0 k (omega arith) h.fits e

  direct_field :
      (k : ℕ)
      → (if ltb k 10 then load 8 (copy b base (inode_image i) 0 264) (base + (144 + 8 * k)) else 0)
        ≡ i.direct_addresses k
  direct_field zero = inode_field 15 refl (omega arith)
  direct_field (suc zero) = inode_field 16 refl (omega arith)
  direct_field (suc (suc zero)) = inode_field 17 refl (omega arith)
  direct_field (suc (suc (suc zero))) = inode_field 18 refl (omega arith)
  direct_field (suc (suc (suc (suc zero)))) = inode_field 19 refl (omega arith)
  direct_field (suc (suc (suc (suc (suc zero))))) = inode_field 20 refl (omega arith)
  direct_field (suc (suc (suc (suc (suc (suc zero)))))) = inode_field 21 refl (omega arith)
  direct_field (suc (suc (suc (suc (suc (suc (suc zero))))))) = inode_field 22 refl (omega arith)
  direct_field (suc (suc (suc (suc (suc (suc (suc (suc zero)))))))) =
      inode_field 23 refl (omega arith)
  direct_field (suc (suc (suc (suc (suc (suc (suc (suc (suc zero))))))))) =
      inode_field 24 refl (omega arith)
  direct_field (suc (suc (suc (suc (suc (suc (suc (suc (suc (suc k)))))))))) =
      ground (arith, h.ten (suc (suc (suc (suc (suc (suc (suc (suc (suc (suc k)))))))))))

  pub read-inode_image : read_inode (copy b base (inode_image i) 0 264) base ≡ i
  unfolding read_inode
  read-inode_image = λ j. record {
    i_mode = inode_field 0 refl (omega arith) j;
    info_length = inode_field 1 refl (omega arith) j;
    device_id = inode_field 2 refl (omega arith) j;
    file_serial_num = inode_field 3 refl (omega arith) j;
    owner_id = inode_field 4 refl (omega arith) j;
    group_id = inode_field 5 refl (omega arith) j;
    owner_permission = inode_field 6 refl (omega arith) j;
    group_permission = inode_field 7 refl (omega arith) j;
    world_permission = inode_field 8 refl (omega arith) j;
    link_count = inode_field 9 refl (omega arith) j;
    file_size = inode_field 10 refl (omega arith) j;
    blocks = inode_field 11 refl (omega arith) j;
    ctime = inode_field 12 refl (omega arith) j;
    mtime = inode_field 13 refl (omega arith) j;
    atime = inode_field 14 refl (omega arith) j;
    direct_addresses = λ k. direct_field k j;
    single_indirect = inode_field 25 refl (omega arith) j;
    double_indirect = inode_field 26 refl (omega arith) j;
    triple_indirect = inode_field 27 refl (omega arith) j;
    is_allocated = bool_of_byte i.is_allocated _ (inode_field 28 refl (omega arith)) j;
    files_count = inode_field 29 refl (omega arith) j;
  }

-- an inode depends on the 264 bytes at its address alone
pub read_inode-cong :
    (b c : Bytes) (base : ℕ)
    → ((k : ℕ) → base ≤ k → k < base + 264 → b k ≡ c k)
    → read_inode b base ≡ read_inode c base
unfolding read_inode
read_inode-cong b c base h = λ j. record {
  i_mode = field 4 0 (omega arith) j;
  info_length = field 8 8 (omega arith) j;
  device_id = field 8 16 (omega arith) j;
  file_serial_num = field 8 24 (omega arith) j;
  owner_id = field 32 32 (omega arith) j;
  group_id = field 32 64 (omega arith) j;
  owner_permission = field 1 96 (omega arith) j;
  group_permission = field 1 97 (omega arith) j;
  world_permission = field 1 98 (omega arith) j;
  link_count = field 8 104 (omega arith) j;
  file_size = field 8 112 (omega arith) j;
  blocks = field 8 120 (omega arith) j;
  ctime = field 4 128 (omega arith) j;
  mtime = field 4 132 (omega arith) j;
  atime = field 4 136 (omega arith) j;
  direct_addresses = λ k. direct k j;
  single_indirect = field 8 224 (omega arith) j;
  double_indirect = field 8 232 (omega arith) j;
  triple_indirect = field 8 240 (omega arith) j;
  is_allocated = not (field 1 248 (omega arith) j == 0);
  files_count = field 8 256 (omega arith) j;
}
  where
    field : (n o : ℕ) → o + n ≤ 264 → load n b (base + o) ≡ load n c (base + o)
    field n o fits = load-cong n (base + o) (λ k p q. h k (omega arith) (omega arith))

    direct :
        (k : ℕ)
        → (if ltb k 10 then load 8 b (base + (144 + 8 * k)) else 0)
          ≡ (if ltb k 10 then load 8 c (base + (144 + 8 * k)) else 0)
    direct k = elim (Bool-cases (ltb k 10)) [
      | inl e ↦ rw e (field 8 (144 + 8 * k) (ground arith))
      | inr e ↦ rw e
    ]
