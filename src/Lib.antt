-- ===== src/Lib.antt =====
-- The BeachBytes file system: a FUSE file system over one block device of 40 GiB in blocks of 4096
-- bytes. Block 0 holds the superblock, the blocks from 1 on the inode list, the rest data.
--
-- The parts, from the device up, and the files that model them:
--
--   header/common_config.h        Config: the constants, `Superblock`, `Inode`. Config/Images has the
--                                 bytes of the two structs and proves that they read back.
--   src/layerZero.cpp             LayerZero: `fs_open` ... `restart_disk`, by the source's names in
--                                 this style (`load_FS` is `load_fs`, `restartDisk` `restart_disk`).
--   src/data_block_operation.cpp  DataBlock: `allocate_data_block`, `free_data_block` and the guarded
--                                 reads and writes. DataBlock/FreeList says what the state stands for.
--   src/inode.cpp                 InodeTable: load, write, find, create and delete an inode.
--                                 BlockMap: `get_datablock_from_inode`, `add_datablock_to_inode`.
--                                 Reclaim: `remove_datablocks_nested` and
--                                 `remove_datablocks_range_from_inode`.
--                                 FilePath: the splitting of paths.
--                                 Directory: `get_inode_of_file`, `add_directory_entry`,
--                                 `remove_from_directory`. Directory/Records says what a block of
--                                 records stands for, Directory/Tree what the tree is.
--   src/linkFuseAndFS.cpp         FileOps: boot, chmod, mknod, mkdir and unlink. FileRead: `fs_read`.
--                                 FileWrite: `fs_write`. FileOpen: truncate, open, access, rename and
--                                 destroy. FileStat: getattr and readdir.
--   src/fuse_interface.cpp        Fuse: the callbacks of the table `fioc_oper`, as the answers of
--                                 `handle` to requests, and `serve` for a sequence of requests.
--   src/setupDiskMain.cpp         `setup_disk` in LayerZero.
--
-- Invariant is about all of these at once: a property of the state that the few functions which
-- write a block or the superblock keep is kept by every request. A run that ends in undefined
-- behaviour leaves no state, and what is said of the requests is said of those that are served.
--
-- Bytes is raw memory: a buffer is a function from offsets to bytes, with the casts and copies that
-- the program applies to it, little-endian. An `sType` is the ℕ of its 64-bit pattern: -1 is
-- 2 ^ 64 - 1, and signed comparisons are written out. Machine has the state, which is the device with
-- its contents and the globals `fs_superblock`, `ROOT_DIR_INODE_NUM`, and the monad of the functions,
-- in which undefined behaviour (a NULL or freed pointer that is used, an access outside an array)
-- ends the run. A function that changes an inode through a pointer returns the new inode.
--
-- The kernel's part is a record of what the device refuses: whether it opens and closes, and which
-- blocks cannot be read or written. A healthy device refuses nothing. Failures that come and go, and
-- partial writes, are not modelled, nor is `inMemory`, which is the constant false. The descriptor
-- `fs_ptr` is not part of the state: a read or a write after `fs_close`, or after an `fs_open` that
-- failed, does what the device says, where the program's `lseek` would fail.
--
-- At these places the model is not the program's bytes. The padding of an inode is written as 0, where
-- the program writes what the struct in memory has there; nothing reads it. `remove_from_single` and
-- `clear_entry` count a block of addresses that cannot be read as undefined at once, the program only
-- when its loop makes a round. On the empty path the program writes two bytes to a buffer of one,
-- which the model does not count as undefined: the paths that FUSE passes start with "/". The
-- messages, and so the read behind the buffer of `printf("%s", buff)` in `fs_write`, are left out.
--
-- Loops with a bound recur on the rounds that are left, so no fuel is involved.
-- These are the exceptions. The fuel of `get_free_list_length` must exceed the length of the
-- list. `get_inode_of_file` recurs on the parent of its path with the fuel length + 2, and every
-- parent is shorter or the root. The walk over the records of a block has 4097 rounds: a longer walk
-- inside the block comes back to a position, so the source's loop does not end either; the walk of
-- `directory_contains_entry` likewise. In that of `fs_readdir` every round moves on, so that 4097
-- rounds pass the end of the block.
--
-- Not modelled: the callbacks that are commented out of `fioc_oper`, which all return -ENOSYS, the
-- test programs, the messages that are printed, and memory that is leaked.
pub mod Base
pub mod Bytes
pub mod Config
pub mod Machine
pub mod LayerZero
pub mod DataBlock
pub mod BlockMap
pub mod Reclaim
pub mod InodeTable
pub mod FilePath
pub mod Directory
pub mod FileOps
pub mod FileRead
pub mod FileWrite
pub mod FileOpen
pub mod FileStat
pub mod Fuse
pub mod Invariant
pub mod Examples
