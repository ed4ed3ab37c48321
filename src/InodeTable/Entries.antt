-- ===== src/InodeTable/Entries.antt =====
-- What the operations on the inode list do to the entry that they name, and to all others.
use beach_bytes_file_system.Base.{
  ℕ, ◌+◌, ◌*◌, ◌/◌, ◌%◌, ◌≤◌, ◌<◌, ◌≡◌, refl, ◌≢◌, ◌∙◌, ◌⊎◌, inl, inr, true, false, not, Option,
  none, some, arith, ltb, ◌==◌, if◌then◌else◌, Bool-cases, ==_refl,
}
use beach_bytes_file_system.Bytes.{Bytes, load, store, copy, minus_one}
use beach_bytes_file_system.Bytes.Laws.{load-store, load-store_ne, store-out, copy-out}
use beach_bytes_file_system.Config.{
  Inode, inode_block_count, read_inode, inode_image, size_of_inode,
}
use beach_bytes_file_system.Config.Images.{IsInode, read-inode_image, read_inode-cong}
use beach_bytes_file_system.Machine.{Fs, Returns, returns, Returns-bind, ◌>>=◌, set_block}
use beach_bytes_file_system.LayerZero.Blocks.{IsHealthy, fs_read_block-ok, fs_write_block-ok}
use beach_bytes_file_system.InodeTable.{
  inode_num_valid, block_of, offset_of, slot, load_inode_from_disk, write_inode_to_disk,
  mark_allocated, create_inode, get_next_free_inode,
}
use beach_bytes_file_system.InodeTable.Scan.{is_free, get_next_free_inode-FirstFree}

-- what the disk holds for inode `n`
abbrev pub entry : (ℕ → Bytes) → ℕ → Inode
entry d n = read_inode (d (block_of n)) (slot (offset_of n))

-- NULL for an entry that is not allocated
abbrev pub loaded : Inode → Option Inode
loaded node = if node.is_allocated then some node else none

pub valid : {n : ℕ} → n < inode_block_count → inode_num_valid n ≡ true
valid h = ground arith

-- The disks differ at the bytes of entry `n` at most.
pub record OnlyEntry (n : ℕ) (d d' : ℕ → Bytes) : Type 0 where
  pub others : (m : ℕ) → m ≢ n → entry d' m ≡ entry d m
  pub rest : (b : ℕ) → b ≢ block_of n → d' b ≡ d b

-- a change of the block of entry `n` inside its slot
OnlyEntry-set_block :
    (n : ℕ) (d : ℕ → Bytes) (buffer : Bytes)
    → ((k : ℕ)
        → (k < slot (offset_of n)) ⊎ (slot (offset_of n) + 264 ≤ k)
        → buffer k ≡ d (block_of n) k)
    → OnlyEntry n d (set_block d (block_of n) buffer)
OnlyEntry-set_block n d buffer outside = record { others = apart; rest = λ b ne. ground arith }
  where
    apart : (m : ℕ) → m ≢ n → entry (set_block d (block_of n) buffer) m ≡ entry d m
    apart m ne = elim (Bool-cases (m / 15 + 1 == n / 15 + 1)) [
      | inl e ↦
          let at : m / 15 + 1 ≡ n / 15 + 1 = ground arith in
          let slots : m % 15 ≢ n % 15 = omega arith in
          rw (e, at)
            (read_inode-cong buffer (d (n / 15 + 1)) (264 * (m % 15))
              λ k p q. outside k (omega arith))
      | inr e ↦ rw e
    ]

module _ (s : Fs) (healthy : IsHealthy s.device) where
  pub load_inode_from_disk-ok :
      (n : ℕ) → n < inode_block_count → load_inode_from_disk n s ≡ some (loaded (entry s.disk n), s)
  unfolding load_inode_from_disk
  load_inode_from_disk-ok n h =
      rw (valid h, fs_read_block-ok s healthy (block_of n) (omega arith), ◌>>=◌)

  abbrev pub with_entry : ℕ → Inode → Fs
  with_entry n i = record s {
    disk =
        set_block s.disk (block_of n)
          (copy (s.disk (block_of n)) (slot (offset_of n)) (inode_image i) 0 size_of_inode);
  }

  pub write_inode_to_disk-ok :
      (n : ℕ) (i : Inode)
      → n < inode_block_count
      → write_inode_to_disk n i s ≡ some (true, with_entry n i)
  unfolding write_inode_to_disk
  write_inode_to_disk-ok n i h =
      rw (valid h, fs_read_block-ok s healthy (block_of n) (omega arith), ◌>>=◌)
        (fs_write_block-ok s healthy (block_of n) _ (omega arith))

with_entry-OnlyEntry :
    (s : Fs) (healthy : IsHealthy s.device) (n : ℕ) (i : Inode)
    → OnlyEntry n s.disk (with_entry s healthy n i).disk
with_entry-OnlyEntry s healthy n i =
    OnlyEntry-set_block n s.disk _
      (copy-out (s.disk (block_of n)) (slot (offset_of n)) (inode_image i) 0 size_of_inode)

-- the disk after the write of an inode
pub write_inode_to_disk-disk :
    (s : Fs) (n : ℕ) (i : Inode)
    → IsHealthy s.device
    → n < inode_block_count
    → IsInode i
    → i.is_allocated ≡ true
    → (d' : ℕ → Bytes) × (write_inode_to_disk n i s ≡ some (true, record s { disk = d' }))
      × (load_inode_from_disk n (record s { disk = d' }) ≡ some (some i, record s { disk = d' }))
      × OnlyEntry n s.disk d'
write_inode_to_disk-disk s n i healthy h fits alloc =
    let s' : Fs = with_entry s healthy n i in
    let back : entry s'.disk n ≡ i =
      rw ==_refl (read-inode_image (s.disk (block_of n)) (slot (offset_of n)) i fits) in
    (
      s'.disk,
      write_inode_to_disk-ok s healthy n i h,
      load_inode_from_disk-ok s' healthy n h ∙ ground (arith, back, alloc),
      with_entry-OnlyEntry s healthy n i,
    )

-- An allocated inode that is written reads back as it was, and no other entry or block changes.
pub load_inode-write_inode :
    (s : Fs) (n : ℕ) (i : Inode)
    → IsHealthy s.device
    → n < inode_block_count
    → IsInode i
    → i.is_allocated ≡ true
    → Returns
        (λ ok s'.
          (ok ≡ true)
          × (load_inode_from_disk n s' ≡ some (some i, s'))
          × OnlyEntry n s.disk s'.disk)
        (write_inode_to_disk n i s)
load_inode-write_inode s n i healthy h fits alloc =
    let (d', run, back, only) = write_inode_to_disk-disk s n i healthy h fits alloc in
    rw run (returns (refl, back, only))

-- the two stores of `createInode` on the entry
pub entry_marked : Inode → Inode
entry_marked node = record node { link_count = 0; is_allocated = true }

module _ (b : Bytes) (o : ℕ) where
  mark-ne :
      (n k : ℕ)
      → (k + n ≤ 104) ⊎ ((112 ≤ k) × (k + n ≤ 248)) ⊎ (249 ≤ k)
      → load n (mark_allocated b o) (slot o + k) ≡ load n b (slot o + k)
  mark-ne n k apart =
      load-store_ne 1 n (store 8 b (slot o + 104) 0) (slot o + 248) (slot o + k) 1 (omega arith)
      ∙ load-store_ne 8 n b (slot o + 104) (slot o + k) 0 (omega arith)

  mark-link : load 8 (mark_allocated b o) (slot o + 104) ≡ 0
  mark-link =
      load-store_ne 1 8 (store 8 b (slot o + 104) 0) (slot o + 248) (slot o + 104) 1 (omega arith)
      ∙ load-store 8 b (slot o + 104) 0 (omega arith)

  mark-allocated : load 1 (mark_allocated b o) (slot o + 248) ≡ 1
  mark-allocated = load-store 1 (store 8 b (slot o + 104) 0) (slot o + 248) 1 (omega arith)

  mark-direct :
      (k : ℕ)
      → (if ltb k 10 then load 8 (mark_allocated b o) (slot o + (144 + 8 * k)) else 0)
        ≡ (if ltb k 10 then load 8 b (slot o + (144 + 8 * k)) else 0)
  mark-direct k = elim (Bool-cases (ltb k 10)) [
    | inl e ↦ rw e (mark-ne 8 (144 + 8 * k) (ground arith))
    | inr e ↦ rw e
  ]

  read_inode-mark : read_inode (mark_allocated b o) (slot o) ≡ entry_marked (read_inode b (slot o))
  unfolding read_inode entry_marked
  read_inode-mark = λ j. record {
    i_mode = mark-ne 4 0 (omega arith) j;
    info_length = mark-ne 8 8 (omega arith) j;
    device_id = mark-ne 8 16 (omega arith) j;
    file_serial_num = mark-ne 8 24 (omega arith) j;
    owner_id = mark-ne 32 32 (omega arith) j;
    group_id = mark-ne 32 64 (omega arith) j;
    owner_permission = mark-ne 1 96 (omega arith) j;
    group_permission = mark-ne 1 97 (omega arith) j;
    world_permission = mark-ne 1 98 (omega arith) j;
    link_count = mark-link j;
    file_size = mark-ne 8 112 (omega arith) j;
    blocks = mark-ne 8 120 (omega arith) j;
    ctime = mark-ne 4 128 (omega arith) j;
    mtime = mark-ne 4 132 (omega arith) j;
    atime = mark-ne 4 136 (omega arith) j;
    direct_addresses = λ k. mark-direct k j;
    single_indirect = mark-ne 8 224 (omega arith) j;
    double_indirect = mark-ne 8 232 (omega arith) j;
    triple_indirect = mark-ne 8 240 (omega arith) j;
    is_allocated = not (mark-allocated j == 0);
    files_count = mark-ne 8 256 (omega arith) j;
  }

mark-outside :
    (b : Bytes) (o k : ℕ) → (k < slot o) ⊎ (slot o + 264 ≤ k) → mark_allocated b o k ≡ b k
mark-outside b o k h =
    store-out 1 (store 8 b (slot o + 104) 0) (slot o + 248) 1 k (omega arith)
    ∙ store-out 8 b (slot o + 104) 0 k (omega arith)

-- inode `r` was the first free one, and only it has changed: it is allocated and has no link
pub record Creates (s : Fs) (r : ℕ) (s' : Fs) : Type 0 where
  pub in_range : r < inode_block_count
  pub was_free : is_free s.disk r ≡ true
  pub first : (n : ℕ) → n < r → is_free s.disk n ≡ false
  pub made : entry s'.disk r ≡ entry_marked (entry s.disk r)
  pub only : OnlyEntry r s.disk s'.disk

abbrev pub AllUsed : (ℕ → Bytes) → Type 0
AllUsed d = (n : ℕ) → n < inode_block_count → is_free d n ≡ false

create_inode-Creates :
    (s : Fs) (r : ℕ)
    → IsHealthy s.device
    → r < inode_block_count
    → is_free s.disk r ≡ true
    → ((n : ℕ) → n < r → is_free s.disk n ≡ false)
    → Creates s r (record s {
      disk = set_block s.disk (block_of r) (mark_allocated (s.disk (block_of r)) (offset_of r));
    })
create_inode-Creates s r healthy low free first = record {
  in_range = low;
  was_free = free;
  first = first;
  made = rw ==_refl (read_inode-mark (s.disk (block_of r)) (offset_of r));
  only = OnlyEntry-set_block r s.disk _ (mark-outside (s.disk (block_of r)) (offset_of r));
}

-- `createInode` allocates the first free inode number and changes nothing else, or returns -1 with
-- nothing changed, and then every valid inode number is taken.
pub create_inode_lem :
    (s : Fs)
    → IsHealthy s.device
    → Returns
        (λ r s'. ((r ≡ minus_one) × (s' ≡ s) × AllUsed s.disk) ⊎ Creates s r s')
        (create_inode s)
unfolding create_inode
create_inode_lem s healthy =
    Returns-bind get_next_free_inode _ s (get_next_free_inode-FirstFree s healthy)
      λ r s' (e, found). rw e (elim found [
        | inl (none_free, all) ↦
            let bad : inode_num_valid r ≡ false = ground arith in
            rw bad (returns (inl (refl, refl, λ n p. all n (omega arith) (omega arith))))
        | inr (low, high, free, first) ↦ elim (Bool-cases (ltb r inode_block_count)) [
          | inl in_table ↦
              let p : r < inode_block_count = ground arith in
              rw
                (
                  valid p,
                  fs_read_block-ok s healthy (block_of r) (omega arith),
                  fs_write_block-ok s healthy (block_of r) _ (omega arith),
                  ◌>>=◌,
                )
                (returns
                  (inr (create_inode-Creates s r healthy p free (λ n q. first n (omega arith) q))))
          | inr outside ↦
              let bad : inode_num_valid r ≡ false = ground arith in
              rw bad (returns (inl (refl, refl, λ n q. first n (omega arith) (ground arith))))
        ]
      ])
