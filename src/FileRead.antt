-- ===== src/FileRead.antt =====
-- src/linkFuseAndFS.cpp, reading a file: `fs_read` copies block after block into the caller's buffer,
-- which is taken to be large enough.
pub mod Buffer
pub mod Contents
pub mod Path
pub mod SameData
use beach_bytes_file_system.Base.{
  ℕ, zero, suc, ◌+◌, ◌-◌, ◌*◌, ◌/◌, ◌%◌, ◌^◌, Bool, true, false, Option, none, some, List, ltb,
  ◌==◌, if◌then◌else◌,
}
use beach_bytes_file_system.Bytes.{Bytes, zeros, copy, minus_one, add64, sub64, lt64, le64}
use beach_bytes_file_system.Config.{Inode, block_size}
use beach_bytes_file_system.Machine.{M, Fs, pure, ◌>>=◌, ◌>>◌, get, deref}
use beach_bytes_file_system.DataBlock.{read_data_block}
use beach_bytes_file_system.BlockMap.{get_datablock_from_inode}
use beach_bytes_file_system.InodeTable.{load_inode_from_disk, write_inode_to_disk}
use beach_bytes_file_system.Directory.{rounds_of, get_inode_of_file}
use beach_bytes_file_system.FileOps.{error, enoent, einval}

-- a block of the file and the new `prev_block`, or `none` for the early `return -1`
unfoldable pub read_file_block : Inode → ℕ → ℕ → M (Option (Bytes × ℕ))
read_file_block node i prev = do
  (dblock_num, prev') ← get_datablock_from_inode node i prev
  if le64 dblock_num 0 then pure none else (do
    buf_read ← read_data_block dblock_num
    elim buf_read [ none ↦ pure none | some b ↦ pure (some (b, prev')) ])

-- the offsets that `fs_read` works out
pub record Span : Type 0 where
  pub start_i_block : ℕ
  pub start_block_offset : ℕ
  pub end_block_offset : ℕ
  pub blocks_to_read : ℕ

abbrev pub span_of : ℕ → ℕ → Span
span_of offset nbytes =
    let last = sub64 (add64 offset nbytes) 1 in
    record {
      start_i_block = offset / block_size;
      start_block_offset = offset % block_size;
      end_block_offset = last % block_size;
      blocks_to_read = add64 (sub64 (last / block_size) (offset / block_size)) 1;
    }

-- what round `i` copies from its block `b`: the buffer and `bytes_read`
unfoldable pub read_round : Span → ℕ → Bytes → Bytes → ℕ → Bytes × ℕ
read_round span i b buff bytes_read =
    if i == 0
    then (
      copy buff 0 b span.start_block_offset (block_size - span.start_block_offset),
      add64 bytes_read (block_size - span.start_block_offset),
    )
    else if i == span.blocks_to_read - 1
    then (
      copy buff bytes_read b 0 (span.end_block_offset + 1),
      add64 bytes_read (span.end_block_offset + 1),
    )
    else (copy buff bytes_read b 0 block_size, add64 bytes_read block_size)

-- The buffer as the blocks leave it, and `bytes_read` or `none` for the early `return -1`.
abbrev pub Progress : Type 0
Progress = Bytes × Option ℕ

-- for(sType i = 0; i < blocks_to_read; i++)
unfoldable pub read_loop : ℕ → ℕ → Inode → Span → ℕ → Bytes → ℕ → M Progress
read_loop zero i node span prev buff bytes_read = pure (buff, some bytes_read)
read_loop (suc rounds) i node span prev buff bytes_read =
    let rest = λ (p : ℕ) (c : Bytes × ℕ). read_loop rounds (i + 1) node span p c.0 c.1 in
    do
      read ← read_file_block node (span.start_i_block + i) prev
      elim read [
        | none ↦ pure (buff, none)
        | some (b, prev') ↦ rest prev' (read_round span i b buff bytes_read)
      ]

-- one block, or several
unfoldable pub read_blocks : Inode → ℕ → ℕ → Bytes → M Progress
read_blocks node offset nbytes buff =
    let span = span_of offset nbytes in
    if span.blocks_to_read == 1
    then (do
      read ← read_file_block node span.start_i_block 0
      elim read [
        | none ↦ pure (buff, none)
        | some (b, prev) ↦ pure (copy buff 0 b span.start_block_offset nbytes, some nbytes)
      ])
    else read_loop (rounds_of span.blocks_to_read) 0 node span 0 buff 0

-- what is read when `nbytes` would go past the end of the file
abbrev pub within : Inode → ℕ → ℕ → ℕ
within node offset nbytes =
    if ltb node.file_size (add64 offset nbytes) then sub64 node.file_size offset else nbytes

-- lines 747 to 836, for a file that was found; the write of the access time may fail
unfoldable pub read_inode_at : ℕ → Inode → Bytes → ℕ → ℕ → M (ℕ × Bytes)
read_inode_at inum node buff nbytes offset =
    if node.file_size == 0
    then pure (0, buff)
    else if le64 node.file_size offset
    then pure (error 75, buff)
    else do
      (out, done) ← read_blocks node offset (within node offset nbytes) buff
      elim done [
        | none ↦ pure (minus_one, out)
        | some bytes_read ↦ do
          s ← get
          _ ← write_inode_to_disk inum (record node { atime = s.clock % 2 ^ 32 })
          pure (bytes_read, out)
      ]

-- The result and the caller's buffer. The fields of the inode are printed before the test for NULL.
unfoldable pub fs_read : List ℕ → Bytes → ℕ → ℕ → M (ℕ × Bytes)
fs_read path buff nbytes offset =
    if nbytes == 0 then pure (0, buff) else if lt64 offset 0 then pure (einval, buff) else do
      inum ← get_inode_of_file path
      if inum == minus_one then pure (enoent, copy buff 0 zeros 0 nbytes) else (do
        loaded ← load_inode_from_disk inum
        node ← deref loaded
        read_inode_at inum node (copy buff 0 zeros 0 nbytes) nbytes offset)
