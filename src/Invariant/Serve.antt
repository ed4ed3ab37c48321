-- ===== src/Invariant/Serve.antt =====
-- Classes of requests, and what each class keeps.
use beach_bytes_file_system.Base.{ℕ, List, [], ◌∷◌, ◌⊎◌, inl, inr, ◌≡◌, refl}
use beach_bytes_file_system.Bytes.{Bytes}
use beach_bytes_file_system.Machine.{Fs}
use beach_bytes_file_system.LayerZero.{restart_disk}
use beach_bytes_file_system.FileOpen.{fs_destroy}
use beach_bytes_file_system.Fuse.{
  TimeSpec, Request, getattr, mknod, mkdir, unlink, rmdir, rename, chmod, chown, truncate,
  open_file, read, write, readdir, destroy, access, create, utimens, handle, serve,
}
use beach_bytes_file_system.Invariant.{Preserves, bind, pure_lem}
use beach_bytes_file_system.Invariant.Blocks.{KeepsInodes, IsKept}
use beach_bytes_file_system.Invariant.Files.{
  fs_chmod_lem, fs_mknod_lem, fs_mkdir_lem, fs_unlink_lem, fs_read_lem, fs_write_lem,
}
use beach_bytes_file_system.Invariant.Requests.{
  fs_access_lem, fs_getattr_lem, fs_readdir_lem, fioc_utimens_lem, fs_truncate_lem,
  fs_open_file_lem, fs_rename_lem,
}

-- the requests that look only
pub data IsQuery : Request → Type 0 where
  looks_getattr : (path : List ℕ) → IsQuery (getattr path)
  looks_access : (path : List ℕ) → IsQuery (access path)
  looks_readdir : (path : List ℕ) → IsQuery (readdir path)
  looks_chown : (path : List ℕ) → IsQuery (chown path)

-- the requests that write inodes at most
pub data IsOnInodes : Request → Type 0 where
  looks : {q : Request} → IsQuery q → IsOnInodes q
  sets_mode : (path : List ℕ) (mode : ℕ) → IsOnInodes (chmod path mode)
  sets_times : (path : List ℕ) (a m : TimeSpec) → IsOnInodes (utimens path a m)
  reads : (path : List ℕ) (buf : Bytes) (size offset : ℕ) → IsOnInodes (read path buf size offset)

-- the requests that leave the file system mounted: all but `destroy`
pub data IsServed : Request → Type 0 where
  on_inodes : {q : Request} → IsOnInodes q → IsServed q
  makes_node : (path : List ℕ) (mode : ℕ) → IsServed (mknod path mode)
  makes_dir : (path : List ℕ) (mode : ℕ) → IsServed (mkdir path mode)
  unlinks : (path : List ℕ) → IsServed (unlink path)
  removes_dir : (path : List ℕ) → IsServed (rmdir path)
  renames : (from to : List ℕ) → IsServed (rename from to)
  truncates : (path : List ℕ) (size : ℕ) → IsServed (truncate path size)
  opens : (path : List ℕ) (flags : ℕ) → IsServed (open_file path flags)
  writes : (path : List ℕ) (buf : Bytes) (size offset : ℕ) → IsServed (write path buf size offset)
  creates : (path : List ℕ) (mode flags : ℕ) → IsServed (create path mode flags)

pub data All (P : Request → Type 0) : List Request → Type 0 where
  all_done : All P []
  and_all : {q : Request} {qs : List Request} → P q → All P qs → All P (q ∷ qs)

-- no condition
abbrev pub IsAny : Request → Type 0
IsAny q = Unit

pub every : (qs : List Request) → All IsAny qs
every [] = all_done
every (q ∷ qs) = and_all tt (every qs)

pub IsServed-or_destroy : (q : Request) → IsServed q ⊎ (q ≡ destroy)
IsServed-or_destroy (getattr path) = inl (on_inodes (looks (looks_getattr path)))
IsServed-or_destroy (mknod path mode) = inl (makes_node path mode)
IsServed-or_destroy (mkdir path mode) = inl (makes_dir path mode)
IsServed-or_destroy (unlink path) = inl (unlinks path)
IsServed-or_destroy (rmdir path) = inl (removes_dir path)
IsServed-or_destroy (rename from to) = inl (renames from to)
IsServed-or_destroy (chmod path mode) = inl (on_inodes (sets_mode path mode))
IsServed-or_destroy (chown path) = inl (on_inodes (looks (looks_chown path)))
IsServed-or_destroy (truncate path size) = inl (truncates path size)
IsServed-or_destroy (open_file path flags) = inl (opens path flags)
IsServed-or_destroy (read path buf size offset) = inl (on_inodes (reads path buf size offset))
IsServed-or_destroy (write path buf size offset) = inl (writes path buf size offset)
IsServed-or_destroy (readdir path) = inl (on_inodes (looks (looks_readdir path)))
IsServed-or_destroy destroy = inr refl
IsServed-or_destroy (access path) = inl (on_inodes (looks (looks_access path)))
IsServed-or_destroy (create path mode flags) = inl (creates path mode flags)
IsServed-or_destroy (utimens path a m) = inl (on_inodes (sets_times path a m))

module _ {I : Fs → Type 0} (uid gid : ℕ) where
  pub query_lem : {q : Request} → IsQuery q → Preserves I (handle uid gid q)
  unfolding handle
  query_lem (looks_getattr path) = bind (fs_getattr_lem uid gid path) λ r. pure_lem
  query_lem (looks_access path) = bind (fs_access_lem path) λ r. pure_lem
  query_lem (looks_chown path) = pure_lem
  query_lem (looks_readdir path) = bind (fs_readdir_lem uid gid path) λ r. pure_lem

  pub on_inodes_lem : KeepsInodes I → {q : Request} → IsOnInodes q → Preserves I (handle uid gid q)
  unfolding handle
  on_inodes_lem k (looks q) = query_lem q
  on_inodes_lem k (sets_mode path mode) = bind (fs_chmod_lem k path mode) λ r. pure_lem
  on_inodes_lem k (sets_times path a m) = bind (fioc_utimens_lem k path a m) λ r. pure_lem
  on_inodes_lem k (reads path buf size offset) =
      bind (fs_read_lem k path buf size offset) λ r. pure_lem

  pub served_lem : IsKept I → {q : Request} → IsServed q → Preserves I (handle uid gid q)
  unfolding handle
  served_lem k (on_inodes q) = on_inodes_lem k.inodes q
  served_lem k (makes_node path mode) = bind (fs_mknod_lem k path mode) λ r. pure_lem
  served_lem k (makes_dir path mode) = bind (fs_mkdir_lem k path mode) λ r. pure_lem
  served_lem k (unlinks path) = bind (fs_unlink_lem k path) λ r. pure_lem
  served_lem k (removes_dir path) = bind (fs_unlink_lem k path) λ r. pure_lem
  served_lem k (renames from to) = bind (fs_rename_lem k from to) λ r. pure_lem
  served_lem k (truncates path size) = bind (fs_truncate_lem k path size) λ r. pure_lem
  served_lem k (opens path flags) = bind (fs_open_file_lem k path flags) λ r. pure_lem
  served_lem k (writes path buf size offset) =
      bind (fs_write_lem k path buf size offset) λ r. pure_lem
  served_lem k (creates path mode flags) = bind (fs_mknod_lem k path _) λ r. pure_lem

  destroy_lem : Preserves I restart_disk → Preserves I (handle uid gid destroy)
  unfolding handle fs_destroy
  destroy_lem d = bind d λ u. pure_lem

  pub handle_lem :
      IsKept I → Preserves I restart_disk → (q : Request) → Preserves I (handle uid gid q)
  handle_lem k d q = elim (IsServed-or_destroy q) [
    | inl h ↦ served_lem k h
    | inr e ↦ rw e (destroy_lem d)
  ]

  -- requests that each keep a property keep it together
  pub serve_lem :
      {P : Request → Type 0}
      → ((q : Request) → P q → Preserves I (handle uid gid q))
      → (qs : List Request) → All P qs
      → Preserves I (serve uid gid qs)
  unfolding serve
  serve_lem each [] all_done = pure_lem
  serve_lem each (q ∷ qs) (and_all h hs) =
      bind (each _ h) λ r. bind (serve_lem each qs hs) λ rs. pure_lem
