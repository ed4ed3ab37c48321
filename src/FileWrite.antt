-- ===== src/FileWrite.antt =====
-- src/linkFuseAndFS.cpp, writing a file: `fs_write` first overwrites blocks that the file has, then
-- appends new ones. The caller's buffer is taken to be large enough.
pub mod Blocks
pub mod Parts
pub mod Overwrite
pub mod RoundTrip
pub mod ReadBack
use beach_bytes_file_system.Base.{
  ℕ, zero, suc, ◌+◌, ◌-◌, ◌*◌, ◌/◌, ◌%◌, ◌^◌, Bool, true, false, not, ◌&&◌, Option, none, some,
  List, ltb, ◌==◌, if◌then◌else◌,
}
use beach_bytes_file_system.Bytes.{Bytes, zeros, copy, minus_one, add64, sub64, lt64, le64}
use beach_bytes_file_system.Config.{Inode, block_size}
use beach_bytes_file_system.Machine.{M, Fs, pure, ◌>>=◌, ◌>>◌, get}
use beach_bytes_file_system.DataBlock.{allocate_data_block, read_data_block, write_data_block}
use beach_bytes_file_system.BlockMap.{get_datablock_from_inode, add_datablock_to_inode}
use beach_bytes_file_system.InodeTable.{load_inode_from_disk, write_inode_to_disk}
use beach_bytes_file_system.Directory.{rounds_of, get_inode_of_file}
use beach_bytes_file_system.FileOps.{now, enoent, einval}

-- the numbers that `fs_write` works out, where the block counts are signed
pub record Extent : Type 0 where
  pub nbytes : ℕ
  pub start_i_block : ℕ
  pub start_block_offset : ℕ
  pub end_i_block : ℕ
  pub end_block_offset : ℕ
  pub new_blocks_to_be_added : ℕ
  pub starting_block : ℕ

abbrev pub extent_of : Inode → ℕ → ℕ → Extent
extent_of node nbytes offset =
    let last = sub64 (add64 offset nbytes) 1 in
    record {
      nbytes = nbytes;
      start_i_block = offset / block_size;
      start_block_offset = offset % block_size;
      end_i_block = last / block_size;
      end_block_offset = last % block_size;
      new_blocks_to_be_added = add64 (sub64 (last / block_size) node.blocks) 1;
      starting_block = add64 (sub64 (offset / block_size) node.blocks) 1;
    }

-- how much of the data goes into its first block
abbrev pub first_part : Extent → ℕ
first_part e =
    if ltb block_size (add64 e.start_block_offset e.nbytes)
    then block_size - e.start_block_offset
    else e.nbytes

-- whether a block is overwritten as a whole, so that it need not be read
abbrev pub in_middle : Extent → ℕ → Bool
in_middle e i = not (i == e.start_i_block) && not (i == e.end_i_block)

-- the new contents of the block `i`, which held `b`, and `bytes_written`
unfoldable pub overwrite_round : Extent → ℕ → Bytes → Bytes → ℕ → Bytes × ℕ
overwrite_round e i b buff bytes_written =
    if in_middle e i
    then (copy b 0 buff bytes_written block_size, add64 bytes_written block_size)
    else if i == e.start_i_block
    then (copy b e.start_block_offset buff 0 (first_part e), add64 bytes_written (first_part e))
    else (
      copy b 0 buff bytes_written (e.end_block_offset + 1),
      add64 bytes_written (e.end_block_offset + 1),
    )

-- read_data_block, for a block that is not overwritten as a whole
unfoldable pub old_contents : Extent → ℕ → ℕ → M (Option Bytes)
old_contents e i dblock_num =
    if in_middle e i then pure (some zeros) else read_data_block dblock_num

-- `bytes_written`, and whether the loop ended without the early `return`
abbrev pub Written : Type 0
Written = ℕ × Bool

-- for(sType i = start_i_block; i < node->blocks && !complete; i++)
unfoldable pub overwrite_loop : ℕ → ℕ → Inode → Extent → ℕ → Bytes → ℕ → M Written
overwrite_loop zero i node e prev buff bytes_written = pure (bytes_written, true)
overwrite_loop (suc rounds) i node e prev buff bytes_written =
    let rest = λ (p n : ℕ). overwrite_loop rounds (i + 1) node e p buff n in
    do
      (dblock_num, prev') ← get_datablock_from_inode node i prev
      if le64 dblock_num 0 then pure (bytes_written, false) else (do
        read ← old_contents e i dblock_num
        elim read [
          | none ↦ pure (bytes_written, false)
          | some b ↦ do
            written ← write_data_block dblock_num (overwrite_round e i b buff bytes_written).0
            if not written
                then pure ((overwrite_round e i b buff bytes_written).1, false)
                else if i == e.end_i_block
                then pure ((overwrite_round e i b buff bytes_written).1, true)
                else rest prev' (overwrite_round e i b buff bytes_written).1
        ])

-- the contents of the `i`-th new block, and `bytes_written`
unfoldable pub append_round : Extent → ℕ → Bytes → ℕ → Bytes × ℕ
append_round e i buff bytes_written =
    if le64 1 e.starting_block && i == e.starting_block
    then (copy zeros e.start_block_offset buff 0 (first_part e), add64 bytes_written (first_part e))
    else if i == e.new_blocks_to_be_added
    then (
      copy zeros 0 buff bytes_written (e.end_block_offset + 1),
      add64 bytes_written (e.end_block_offset + 1),
    )
    else if le64 e.starting_block i
    then (copy zeros 0 buff bytes_written block_size, add64 bytes_written block_size)
    else (zeros, bytes_written)

-- for(sType i = 1; i <= new_blocks_to_be_added; i++): blocks before the data are allocated and not
-- written. The result: the inode and `bytes_written` at the end or at a `break`.
unfoldable pub append_loop : ℕ → ℕ → Inode → Extent → Bytes → ℕ → M (Inode × ℕ)
append_loop zero i node e buff bytes_written = pure (node, bytes_written)
append_loop (suc rounds) i node e buff bytes_written =
    let rest = λ (node' : Inode) (n : ℕ). append_loop rounds (i + 1) node' e buff n in
    do
      new_block_num ← allocate_data_block
      if le64 new_block_num 0 then pure (node, bytes_written) else (do
        (added, node') ← add_datablock_to_inode node new_block_num
        if not added
            then pure (node', bytes_written)
            else if le64 e.starting_block i
            then (do
              written ← write_data_block new_block_num (append_round e i buff bytes_written).0
              if written
                  then rest node' (append_round e i buff bytes_written).1
                  else pure (node', (append_round e i buff bytes_written).1))
            else rest node' (append_round e i buff bytes_written).1)

-- return (bytes_written == 0) ? -1 : bytes_written
abbrev pub or_failure : ℕ → ℕ
or_failure bytes_written = if bytes_written == 0 then minus_one else bytes_written

-- the last lines: the size becomes the end of what was written, whatever it was
unfoldable pub finish_write : ℕ → Inode → ℕ → ℕ → M ℕ
finish_write inum node offset bytes_written = do
  curr_time ← now
  written ← write_inode_to_disk inum (record node {
    file_size = add64 offset bytes_written;
    mtime = if bytes_written == 0 then node.mtime else curr_time;
  })
  pure (if written then bytes_written else minus_one)

-- for a file that was found
unfoldable pub write_inode_at : ℕ → Inode → Bytes → ℕ → ℕ → M ℕ
write_inode_at inum node buff nbytes offset =
    let e = extent_of node nbytes offset in
    do
      (bytes_written, completed) ←
          overwrite_loop
            (if lt64 e.start_i_block node.blocks then node.blocks - e.start_i_block else 0)
            e.start_i_block node e 0 buff 0
      if completed
          then (do
            (node', total) ←
                append_loop (rounds_of e.new_blocks_to_be_added) 1 node e buff bytes_written
            finish_write inum node' offset total)
          else pure (or_failure bytes_written)

unfoldable pub fs_write : List ℕ → Bytes → ℕ → ℕ → M ℕ
fs_write path buff nbytes offset =
    if nbytes == 0 then pure 0 else if lt64 offset 0 then pure einval else do
      inum ← get_inode_of_file path
      if inum == minus_one then pure enoent else (do
        loaded ← load_inode_from_disk inum
        elim loaded [
          | none ↦ pure minus_one
          | some node ↦ write_inode_at inum node buff nbytes offset
        ])
