-- ===== src/FileOps/Refused.antt =====
-- What the operations on files refuse.
use beach_bytes_file_system.Base.{
  ℕ, ◌≡◌, refl, ◌≢◌, ◌⊎◌, inl, inr, true, false, some, List, arith, ◌==◌, if◌then◌else◌, Bool-cases,
}
use beach_bytes_file_system.Bytes.{minus_one}
use beach_bytes_file_system.Config.{Superblock}
use beach_bytes_file_system.Machine.{Fs, ◌>>=◌}
use beach_bytes_file_system.LayerZero.Blocks.{IsHealthy}
use beach_bytes_file_system.DataBlock.FreeList.{IsAllocator}
use beach_bytes_file_system.Directory.Tree.{Resolves, get_inode_of_file-Resolves}
use beach_bytes_file_system.FileOps.{fs_mknod, fs_mkdir, fs_unlink, enoent, eacces}

module _ (s : Fs) (sb : Superblock) (free path : List ℕ) (inum : ℕ) (v : IsAllocator s sb free)
    (h : IsHealthy s.device) (r : Resolves s sb free path inum) where
  -- On a tree of directories of up to 522 blocks, a path that has an inode number can be neither
  -- made as a file nor as a directory: both calls return false and change nothing.
  pub fs_mknod_refused :
      (mode : ℕ)
      → inum ≢ minus_one
      → (fs_mknod path mode s ≡ some (false, s)) × (fs_mkdir path mode s ≡ some (false, s))
  unfolding fs_mknod fs_mkdir
  fs_mknod_refused mode there =
      let some_inode : (inum == minus_one) ≡ false = ground arith in
      let got = get_inode_of_file-Resolves s sb free path inum v h r in
      (rw (◌>>=◌, got, some_inode) refl, rw (◌>>=◌, got, some_inode) refl)

  -- On a tree of directories of up to 522 blocks, a path that has no inode number, or that of the
  -- root directory, cannot be unlinked: the call returns -ENOENT or -EACCES and changes nothing.
  pub fs_unlink_refused :
      (inum ≡ minus_one) ⊎ (inum ≡ s.root_dir_inode_num)
      → fs_unlink path s ≡ some (if inum == minus_one then enoent else eacces, s)
  unfolding fs_unlink
  fs_unlink_refused which =
      let got = get_inode_of_file-Resolves s sb free path inum v h r in
      elim (Bool-cases (inum == minus_one)) [
        | inl e ↦ rw (◌>>=◌, got, e) refl
        | inr e ↦
            let top : (inum == s.root_dir_inode_num) ≡ true = ground arith in
            rw (◌>>=◌, got, e, top) refl
      ]
