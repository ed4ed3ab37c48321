-- ===== src/FileStat/Attributes.antt =====
-- What getattr and access answer for a path, whatever the disk holds under its inode number.
use beach_bytes_file_system.Base.{ℕ, ◌≤◌, ◌≡◌, ◌≢◌, ◌⊎◌, true, false}
use beach_bytes_file_system.Bytes.{Bytes, minus_one}
use beach_bytes_file_system.Config.{inode_block_count}
use beach_bytes_file_system.InodeTable.Entries.{entry}
use beach_bytes_file_system.FileOps.{error}
use beach_bytes_file_system.FileStat.{Stat, no_stat}
use beach_bytes_file_system.FileStat.Shown.{Shows}

-- The result and the attributes of getattr and the result of access, by what the disk `d` holds under
-- the number of the path: no number, a number without an allocated inode, or an allocated inode.
pub data Answers (uid gid : ℕ) (d : ℕ → Bytes) (inum : ℕ) : ℕ → Stat → ℕ → Type 0 where
  no_number : inum ≡ minus_one → Answers uid gid d inum (error 2) no_stat (error 2)
  no_inode :
      inum ≢ minus_one
      → (inode_block_count ≤ inum) ⊎ ((entry d inum).is_allocated ≡ false)
      → Answers uid gid d inum (error 5) no_stat 0
  shown :
      {st : Stat}
      → (entry d inum).is_allocated ≡ true
      → Shows uid gid inum (entry d inum) st
      → Answers uid gid d inum 0 st 0
