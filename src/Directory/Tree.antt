-- ===== src/Directory/Tree.antt =====
-- The directory tree on the disk as a relation between paths and inode numbers, and that
-- `get_inode_of_file` computes it.
use beach_bytes_file_system.Base.{
  ℕ, ◌≤◌, ◌≡◌, refl, ◌≢◌, true, false, none, some, List, [], ◌∷◌, arith, ◌==◌, length, Bool-cases,
  inl, inr,
}
use beach_bytes_file_system.Bytes.{minus_one}
use beach_bytes_file_system.Config.{Inode, Superblock}
use beach_bytes_file_system.Machine.{Fs, ◌>>=◌}
use beach_bytes_file_system.LayerZero.Blocks.{IsHealthy}
use beach_bytes_file_system.DataBlock.FreeList.{IsAllocator}
use beach_bytes_file_system.InodeTable.{load_inode_from_disk}
use beach_bytes_file_system.FilePath.{slash, copy_parent_path, copy_file_name}
use beach_bytes_file_system.Directory.{s_isdir, is_root_path, get_inode_of_file}
use beach_bytes_file_system.Directory.Records.{Entry, lookup}
use beach_bytes_file_system.Directory.Find.{
  IsDirectory, entries_from, or_minus_one, lookup_in-lookup,
}
use beach_bytes_file_system.Directory.Resolve.{get_inode_of_file-recursion}

-- What the inode number of a path is: that of the root for "/", the entry with the file name in the
-- directory that the parent is, or -1 if there is no entry, no parent, or no inode of the parent.
pub data Resolves (s : Fs) (sb : Superblock) (free : List ℕ) : List ℕ → ℕ → Type 0 where
  root : Resolves s sb free (slash ∷ []) s.root_dir_inode_num
  entry :
      {path name : List ℕ} {inum : ℕ} {dir : Inode} {es : ℕ → List Entry}
      → is_root_path path ≡ false
      → Resolves s sb free (copy_parent_path path) inum
      → inum ≢ minus_one
      → load_inode_from_disk inum s ≡ some (some dir, s)
      → IsDirectory s sb free dir es
      → s_isdir dir.i_mode ≡ true
      → copy_file_name path ≡ some name
      → length name ≤ 255
      → Resolves s sb free path (or_minus_one (lookup name (entries_from es 0 dir.blocks)))
  no_parent :
      {path : List ℕ}
      → is_root_path path ≡ false
      → Resolves s sb free (copy_parent_path path) minus_one
      → Resolves s sb free path minus_one
  no_inode :
      {path : List ℕ} {inum : ℕ}
      → is_root_path path ≡ false
      → Resolves s sb free (copy_parent_path path) inum
      → load_inode_from_disk inum s ≡ some (none, s)
      → Resolves s sb free path minus_one

at_root : (s : Fs) → get_inode_of_file (slash ∷ []) s ≡ some (s.root_dir_inode_num, s)
at_root s = rw (get_inode_of_file-recursion (slash ∷ [])) refl

-- On a tree of directories of up to 522 blocks each, `get_inode_of_file` changes nothing and returns
-- the number that the tree gives to the path.
pub get_inode_of_file-Resolves :
    (s : Fs) (sb : Superblock) (free path : List ℕ) (inum : ℕ)
    → IsAllocator s sb free
    → IsHealthy s.device
    → Resolves s sb free path inum
    → get_inode_of_file path s ≡ some (inum, s)
get_inode_of_file-Resolves s sb free path inum v h root = at_root s
get_inode_of_file-Resolves s sb free path inum v h
      (entry {inum = p} below r some_parent loaded d mode named short) =
    let up = get_inode_of_file-Resolves s sb free _ _ v h r in
    let go_on : (p == minus_one) ≡ false = ground arith in
    rw (get_inode_of_file-recursion path, below, ◌>>=◌, up, go_on, loaded, named)
      (lookup_in-lookup s sb free _ _ _ v h d mode short)
get_inode_of_file-Resolves s sb free path inum v h (no_parent below r) =
    let up = get_inode_of_file-Resolves s sb free _ _ v h r in
    rw (get_inode_of_file-recursion path, below, up, ◌>>=◌) refl
get_inode_of_file-Resolves s sb free path inum v h (no_inode {inum = p} below r loaded) =
    let up = get_inode_of_file-Resolves s sb free _ _ v h r in
    elim (Bool-cases (p == minus_one)) [
      | inl none_there ↦ rw (get_inode_of_file-recursion path, below, ◌>>=◌, up, none_there) refl
      | inr some_there ↦
          rw (get_inode_of_file-recursion path, below, ◌>>=◌, up, some_there, loaded) refl
    ]
