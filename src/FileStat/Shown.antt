-- ===== src/FileStat/Shown.antt =====
-- What a caller is to see of an inode, field by field, and of the entries of a directory: the promise
-- of `struct stat`, apart from how the code fills it in.
use beach_bytes_file_system.Base.{
  ℕ, ◌+◌, ◌^◌, ◌≤◌, ◌<◌, ◌≡◌, refl, ◌⊎◌, inl, inr, List, [], ◌∷◌, ◌++◌, arith, ltb, Bool-cases,
}
use beach_bytes_file_system.Config.{Inode}
use beach_bytes_file_system.Directory.Records.{Entry}
use beach_bytes_file_system.FileStat.{Stat, Filled, sign_extend, inode_to_stat}

-- A 64-bit time has the value of a 32-bit one, both in two's complement: they are equal from 0 on,
-- and below they are as far from 2 ^ 64 as from 2 ^ 32.
abbrev pub SameTime : ℕ → ℕ → Type 0
SameTime t time = ((t < 2 ^ 31) × (time ≡ t)) ⊎ ((2 ^ 31 ≤ t) × (time + 2 ^ 32 ≡ t + 2 ^ 64))

-- The attributes that show inode `inum` to the user and group of the process. `blocks` counts blocks
-- of 4096 bytes.
pub record Shows (uid gid inum : ℕ) (node : Inode) (st : Stat) : Type 0 where
  pub number : st.st_ino ≡ inum
  pub mode : st.st_mode ≡ node.i_mode
  pub links : st.st_nlink ≡ node.link_count
  pub user : st.st_uid ≡ uid
  pub group : st.st_gid ≡ gid
  pub device : st.st_rdev ≡ 0
  pub size : st.st_size ≡ node.file_size
  pub block_bytes : st.st_blksize ≡ 4096
  pub blocks : st.st_blocks ≡ node.blocks
  pub accessed : SameTime node.atime st.st_atime
  pub modified : SameTime node.mtime st.st_mtime
  pub changed : SameTime node.ctime st.st_ctime

sign_extend-SameTime : (t : ℕ) → SameTime t (sign_extend t)
sign_extend-SameTime t = elim (Bool-cases (ltb t (2 ^ 31))) [
  | inl e ↦ inl (ground arith, rw e refl)
  | inr e ↦ inr (ground arith, rw e (omega arith))
]

pub inode_to_stat-Shows :
    (uid gid inum : ℕ) (node : Inode)
    → Shows uid gid inum node (record (inode_to_stat uid gid node) { st_ino = inum })
unfolding inode_to_stat
inode_to_stat-Shows uid gid inum node = record {
  number = refl;
  mode = refl;
  links = refl;
  user = refl;
  group = refl;
  device = refl;
  size = refl;
  block_bytes = refl;
  blocks = refl;
  accessed = sign_extend-SameTime node.atime;
  modified = sign_extend-SameTime node.mtime;
  changed = sign_extend-SameTime node.ctime;
}

-- The calls of `filler` for a list of entries: one for each, in order, with the name, its NUL and what
-- shows the inode under its number.
pub data Lists (uid gid : ℕ) (nodes : ℕ → Inode) : List Entry → List Filled → Type 0 where
  no_more : Lists uid gid nodes [] []
  next :
      {inum : ℕ} {name : List ℕ} {st : Stat} {es : List Entry} {calls : List Filled}
      → Shows uid gid inum (nodes inum) st
      → Lists uid gid nodes es calls
      → Lists uid gid nodes ((inum, name) ∷ es) ((name ++ (0 ∷ []), st) ∷ calls)
