-- ===== src/Fuse.antt =====
-- src/fuse_interface.cpp, the callbacks that libfuse calls: a request is a call of one of them with
-- what it passes on, and `handle` is the table `fioc_oper`. An `int` is its 32-bit pattern.
use beach_bytes_file_system.Base.{
  ℕ, ◌-◌, ◌%◌, ◌^◌, Bool, none, some, List, [], ◌∷◌, ◌==◌, if◌then◌else◌,
}
use beach_bytes_file_system.Bytes.{Bytes, minus_one, le64}
use beach_bytes_file_system.Machine.{M, pure, ◌>>=◌, ◌>>◌, get}
use beach_bytes_file_system.InodeTable.{load_inode_from_disk, write_inode_to_disk}
use beach_bytes_file_system.Directory.{get_inode_of_file}
use beach_bytes_file_system.FileOps.{
  error, enoent, default_permissions, boot_up_file_sytem, fs_chmod, fs_mknod, fs_mkdir, fs_unlink,
}
use beach_bytes_file_system.FileRead.{fs_read}
use beach_bytes_file_system.FileWrite.{fs_write}
use beach_bytes_file_system.FileOpen.{
  wants_create, file_mode, fs_truncate, fs_open_file, fs_access, fs_rename, fs_destroy,
}
use beach_bytes_file_system.FileStat.{Stat, Filled, fs_getattr, fs_readdir}

-- an `sType` that is returned as an `int`
abbrev pub to_int : ℕ → ℕ
to_int n = n % 2 ^ 32

-- `struct timespec`, with the two special values of `tv_nsec`
pub record TimeSpec : Type 0 where
  pub tv_sec : ℕ
  pub tv_nsec : ℕ

abbrev pub utime_now : ℕ
utime_now = 1073741823

abbrev pub utime_omit : ℕ
utime_omit = 1073741822

-- one of the two times of an inode, at the time `seconds`
abbrev pub new_time : TimeSpec → ℕ → ℕ → ℕ
new_time tv old seconds =
    if tv.tv_nsec == utime_now
    then seconds % 2 ^ 32
    else if tv.tv_nsec == utime_omit
    then old
    else tv.tv_sec % 2 ^ 32

-- `clock_gettime` is taken to answer
unfoldable pub fioc_utimens : List ℕ → TimeSpec → TimeSpec → M ℕ
fioc_utimens path access modification = do
  inum ← get_inode_of_file path
  if inum == minus_one then pure (to_int enoent) else (do
    loaded ← load_inode_from_disk inum
    elim loaded [
      | none ↦ pure (to_int (error 5))
      | some inode ↦ do
        s ← get
        written ← write_inode_to_disk inum (record inode {
          atime = new_time access inode.atime s.clock;
          mtime = new_time modification inode.mtime s.clock;
          ctime = s.clock % 2 ^ 32;
        })
        pure (if written then 0 else to_int (error 5))
    ])

pub data Request : Type 0 where
  getattr : List ℕ → Request
  mknod : List ℕ → ℕ → Request
  mkdir : List ℕ → ℕ → Request
  unlink : List ℕ → Request
  rmdir : List ℕ → Request
  rename : List ℕ → List ℕ → Request
  chmod : List ℕ → ℕ → Request
  chown : List ℕ → Request
  truncate : List ℕ → ℕ → Request
  open_file : List ℕ → ℕ → Request
  read : List ℕ → Bytes → ℕ → ℕ → Request
  write : List ℕ → Bytes → ℕ → ℕ → Request
  readdir : List ℕ → Request
  destroy : Request
  access : List ℕ → Request
  create : List ℕ → ℕ → ℕ → Request
  utimens : List ℕ → TimeSpec → TimeSpec → Request

-- the value that the callback returns, with what it left in the caller's memory
pub data Reply : Type 0 where
  status : ℕ → Reply
  attributes : ℕ → Stat → Reply
  contents : ℕ → Bytes → Reply
  listing : ℕ → List Filled → Reply

-- `return -1` for false
abbrev pub status_of : Bool → Reply
status_of ok = status (if ok then 0 else 2 ^ 32 - 1)

-- fioc_open returns 0 in place of the inode number
abbrev pub opened : ℕ → Reply
opened inum = status (if le64 inum minus_one then to_int inum else 0)

abbrev pub create_mode : ℕ → ℕ → ℕ
create_mode mode flags = file_mode (if wants_create flags then mode else default_permissions)

abbrev pub fioc_mknod : List ℕ → ℕ → M Reply
fioc_mknod path mode = do ok ← fs_mknod path mode; pure (status_of ok)

abbrev pub fioc_mkdir : List ℕ → ℕ → M Reply
fioc_mkdir path mode = do ok ← fs_mkdir path mode; pure (status_of ok)

abbrev pub fioc_unlink : List ℕ → M Reply
fioc_unlink path = do r ← fs_unlink path; pure (status (to_int r))

abbrev pub fioc_rmdir : List ℕ → M Reply
fioc_rmdir path = do r ← fs_unlink path; pure (status (to_int r))

abbrev pub fioc_rename : List ℕ → List ℕ → M Reply
fioc_rename from to = do r ← fs_rename from to; pure (status (to_int r))

abbrev pub fioc_chmod : List ℕ → ℕ → M Reply
fioc_chmod path mode = do r ← fs_chmod path mode; pure (status (to_int r))

abbrev pub fioc_chown : List ℕ → M Reply
fioc_chown path = pure (status 0)

abbrev pub fioc_truncate : List ℕ → ℕ → M Reply
fioc_truncate path size = do r ← fs_truncate path size; pure (status (to_int r))

abbrev pub fioc_open : List ℕ → ℕ → M Reply
fioc_open path flags = do inum ← fs_open_file path flags; pure (opened inum)

abbrev pub fioc_read : List ℕ → Bytes → ℕ → ℕ → M Reply
fioc_read path buf size offset = do
  (nbytes, out) ← fs_read path buf size offset
  pure (contents (to_int nbytes) out)

abbrev pub fioc_write : List ℕ → Bytes → ℕ → ℕ → M Reply
fioc_write path buf size offset = do r ← fs_write path buf size offset; pure (status (to_int r))

abbrev pub fioc_destroy : M Reply
fioc_destroy = do fs_destroy; pure (status 0)

abbrev pub fioc_access : List ℕ → M Reply
fioc_access path = do r ← fs_access path; pure (status (to_int r))

abbrev pub fioc_create : List ℕ → ℕ → ℕ → M Reply
fioc_create path mode flags = do ok ← fs_mknod path (create_mode mode flags); pure (status_of ok)

module _ (uid gid : ℕ) where
  abbrev pub fioc_getattr : List ℕ → M Reply
  fioc_getattr path = do (r, st) ← fs_getattr uid gid path; pure (attributes (to_int r) st)

  abbrev pub fioc_readdir : List ℕ → M Reply
  fioc_readdir path = do (r, calls) ← fs_readdir uid gid path; pure (listing (to_int r) calls)

  -- the table `fioc_oper`
  unfoldable pub handle : Request → M Reply
  handle (getattr path) = fioc_getattr path
  handle (mknod path mode) = fioc_mknod path mode
  handle (mkdir path mode) = fioc_mkdir path mode
  handle (unlink path) = fioc_unlink path
  handle (rmdir path) = fioc_rmdir path
  handle (rename from to) = fioc_rename from to
  handle (chmod path mode) = fioc_chmod path mode
  handle (chown path) = fioc_chown path
  handle (truncate path size) = fioc_truncate path size
  handle (open_file path flags) = fioc_open path flags
  handle (read path buf size offset) = fioc_read path buf size offset
  handle (write path buf size offset) = fioc_write path buf size offset
  handle (readdir path) = fioc_readdir path
  handle destroy = fioc_destroy
  handle (access path) = fioc_access path
  handle (create path mode flags) = fioc_create path mode flags
  handle (utimens path a m) = do r ← fioc_utimens path a m; pure (status r)

  -- what libfuse asks for, one request after the other
  unfoldable pub serve : List Request → M (List Reply)
  serve [] = pure []
  serve (q ∷ qs) = do r ← handle q; rs ← serve qs; pure (r ∷ rs)

  -- `main`: without a file system no request is served
  unfoldable pub run_main : List Request → M (List Reply)
  run_main qs = do booted ← boot_up_file_sytem; if booted then serve qs else pure []
