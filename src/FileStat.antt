-- ===== src/FileStat.antt =====
-- src/linkFuseAndFS.cpp, what a caller sees of inodes and directories: getattr and readdir. The user
-- and the group of the process, which `getuid` and `getgid` answer, are arguments.
pub mod Shown
pub mod Listing
pub mod Attributes
use beach_bytes_file_system.Base.{
  ℕ, zero, suc, ◌+◌, ◌-◌, ◌*◌, ◌/◌, ◌%◌, ◌^◌, Bool, true, false, not, Option, none, some, List, [],
  ◌∷◌, ◌++◌, ltb, leb, ◌==◌, if◌then◌else◌,
}
use beach_bytes_file_system.Bytes.{Bytes, load, minus_one}
use beach_bytes_file_system.Config.{Inode, block_size, record_length, record_fixed_len}
use beach_bytes_file_system.Machine.{M, Fs, pure, undefined, ◌>>=◌, ◌>>◌, deref}
use beach_bytes_file_system.DataBlock.{read_data_block}
use beach_bytes_file_system.BlockMap.{get_datablock_from_inode}
use beach_bytes_file_system.InodeTable.{load_inode_from_disk}
use beach_bytes_file_system.Directory.{s_isdir, rounds_of, get_inode_of_file}
use beach_bytes_file_system.FileOps.{error, enoent}

-- the fields of `struct stat` that the program sets
pub record Stat : Type 0 where
  pub st_ino : ℕ
  pub st_mode : ℕ
  pub st_nlink : ℕ
  pub st_uid : ℕ
  pub st_gid : ℕ
  pub st_rdev : ℕ
  pub st_size : ℕ
  pub st_blksize : ℕ
  pub st_blocks : ℕ
  pub st_atime : ℕ
  pub st_mtime : ℕ
  pub st_ctime : ℕ

-- after memset(st, 0, sizeof(struct stat))
abbrev pub no_stat : Stat
no_stat = record {
  st_ino = 0;
  st_mode = 0;
  st_nlink = 0;
  st_uid = 0;
  st_gid = 0;
  st_rdev = 0;
  st_size = 0;
  st_blksize = 0;
  st_blocks = 0;
  st_atime = 0;
  st_mtime = 0;
  st_ctime = 0;
}

-- an int32_t that becomes a time_t
abbrev pub sign_extend : ℕ → ℕ
sign_extend t = if ltb t (2 ^ 31) then t else t + (2 ^ 64 - 2 ^ 32)

-- a call of `filler`: the bytes of the name as they were copied, and the attributes
abbrev pub Filled : Type 0
Filled = List ℕ × Stat

-- memcpy of `n` bytes of a block from `k` on
abbrev pub bytes_from : Bytes → ℕ → ℕ → List ℕ
bytes_from b k zero = []
bytes_from b k (suc n) = b k ∷ bytes_from b (k + 1) n

module _ (uid gid : ℕ) where
  unfoldable pub inode_to_stat : Inode → Stat
  inode_to_stat node = record no_stat {
    st_mode = node.i_mode;
    st_nlink = node.link_count;
    st_uid = uid;
    st_gid = gid;
    st_size = node.file_size;
    st_blksize = block_size;
    st_blocks = node.blocks;
    st_atime = sign_extend node.atime;
    st_ctime = sign_extend node.ctime;
    st_mtime = sign_extend node.mtime;
  }

  -- the result and `*st`
  unfoldable pub fs_getattr : List ℕ → M (ℕ × Stat)
  fs_getattr path = do
    inum ← get_inode_of_file path
    if inum == minus_one then pure (enoent, no_stat) else (do
      loaded ← load_inode_from_disk inum
      elim loaded [
        | none ↦ pure (error 5, no_stat)
        | some node ↦ pure (0, record (inode_to_stat node) { st_ino = inum })
      ])

  -- The walk over the records of a block, whose lengths are read as 16-bit words. The result: the
  -- calls of `filler`, and false for the early `return -ENOTDIR`. Every round moves on, so 4096
  -- rounds reach the end of the block.
  unfoldable pub readdir_block : ℕ → Bytes → ℕ → M (List Filled × Bool)
  readdir_block zero b offset = undefined
  readdir_block (suc rounds) b offset =
      let rec_len = load 2 b offset in
      let name_len = (rec_len + 65536 - record_fixed_len) % 65536 in
      let file_inum = load 8 b (offset + record_length) in
      let rest = readdir_block rounds b (offset + rec_len) in
      if not (ltb offset (block_size - record_fixed_len))
      then pure ([], true)
      else if rec_len == 0
      then pure ([], true)
      else if not (leb (offset + record_fixed_len + name_len) block_size)
      then undefined
      else do
        loaded ← load_inode_from_disk file_inum
        elim loaded [
          | none ↦ pure ([], false)
          | some file_inode ↦ do
            (calls, completed) ← rest
            pure (
              (
                bytes_from b (offset + record_fixed_len) name_len,
                record (inode_to_stat file_inode) { st_ino = file_inum },
              )
                  ∷ calls,
              completed,
            )
        ]

  -- a block that is not there is read through a null pointer
  unfoldable pub readdir_loop : ℕ → ℕ → ℕ → Inode → M (List Filled × Bool)
  readdir_loop zero i_block_num prev node = pure ([], true)
  readdir_loop (suc rounds) i_block_num prev node =
      let rest = λ (p : ℕ). readdir_loop rounds (i_block_num + 1) p node in
      do
        (dblock_num, prev') ← get_datablock_from_inode node i_block_num prev
        read ← read_data_block dblock_num
        b ← deref read
        (calls, completed) ← readdir_block (block_size + 1) b 8
        if completed
            then (do (later, all) ← rest prev'; pure (calls ++ later, all))
            else pure (calls, false)

  -- the result and the calls of `filler`
  unfoldable pub fs_readdir : List ℕ → M (ℕ × List Filled)
  fs_readdir path = do
    inum ← get_inode_of_file path
    if inum == minus_one then pure (enoent, []) else (do
      loaded ← load_inode_from_disk inum
      elim loaded [
        | none ↦ pure (error 20, [])
        | some node ↦
            if s_isdir node.i_mode
            then (do
              (calls, completed) ← readdir_loop (rounds_of node.blocks) 0 0 node
              pure (if completed then 0 else error 20, calls))
            else pure (error 20, [])
      ])
