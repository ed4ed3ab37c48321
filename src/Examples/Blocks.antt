-- ===== src/Examples/Blocks.antt =====
-- Runs and instances for the superblock, the block allocator and the block map.
use beach_bytes_file_system.Base.{
  ltb, ℕ, ◌≡◌, refl, ◌≢◌, ◌⊎◌, inr, true, false, none, some, List, [], ◌∷◌, arith, ◌==◌,
  if◌then◌else◌,
}
use beach_bytes_file_system.Bytes.{Bytes, zeros}
use beach_bytes_file_system.Config.{Inode, block_count}
use beach_bytes_file_system.Machine.{null, live, Returns, ◌>>=◌}
use beach_bytes_file_system.LayerZero.{fs_init, load_fs, restart_disk, new_superblock}
use beach_bytes_file_system.LayerZero.Boot.{
  Formatted, fs_init-Formatted, load_fs-restart_disk, load_fs_after_restart,
}
use beach_bytes_file_system.DataBlock.{free_data_block, get_free_list_length}
use beach_bytes_file_system.DataBlock.FreeList.{in_use, IsAllocator}
use beach_bytes_file_system.DataBlock.Mount.{load_fs-fs_init}
use beach_bytes_file_system.DataBlock.Steps.{with_superblock, push_list}
use beach_bytes_file_system.DataBlock.Release.{
  Frees, free_data_block_lem, free_data_block_outside, get_free_list_length_lem,
}
use beach_bytes_file_system.BlockMap.{get_datablock_from_inode, add_datablock_to_inode}
use beach_bytes_file_system.BlockMap.Small.{
  AddEnds, get_datablock_from_inode-nth, add_datablock_to_inode-Appends,
}
use beach_bytes_file_system.Reclaim.{remove_datablocks_range_from_inode}
use beach_bytes_file_system.Reclaim.Direct.{
  Owns, FreesAll, Forgets, remove_datablocks_range-FreesAll,
}
use beach_bytes_file_system.FileRead.{read_blocks}
use beach_bytes_file_system.FileRead.Buffer.{Reads}
use beach_bytes_file_system.FileRead.Contents.{IsFile, read_blocks-Reads}
use beach_bytes_file_system.Examples.{
  fresh_fs, fresh-IsHealthy, used_fs, used_superblock, used-IsAllocator, empty_inode,
}

fs_init-Formatted_example :
    Returns (λ ok s'. (ok ≡ true) × Formatted fresh_fs s') (fs_init fresh_fs)
fs_init-Formatted_example = fs_init-Formatted fresh_fs fresh-IsHealthy

load_fs-restart_disk_example :
    Returns
      (λ _ s'.
        (load_fs (record s' { fs_superblock = null })
          ≡ some (true, record s' { fs_superblock = live new_superblock }))
        × ((j : ℕ) → j ≢ 0 → s'.disk j ≡ fresh_fs.disk j))
      (restart_disk fresh_fs)
load_fs-restart_disk_example =
    load_fs-restart_disk fresh_fs new_superblock fresh-IsHealthy refl (omega arith) (omega arith)
      refl

load_fs_after_restart_example : (restart_disk >>= λ _. load_fs) fresh_fs ≡ none
load_fs_after_restart_example =
    load_fs_after_restart fresh_fs new_superblock fresh-IsHealthy refl refl

free_data_block_lem_example :
    Returns
      (λ ok s'. (ok ≡ true) × Frees used_fs used_superblock (157287 ∷ []) 157288 s')
      (free_data_block 157288 used_fs)
free_data_block_lem_example =
    free_data_block_lem used_fs used_superblock (157287 ∷ []) 157288 used-IsAllocator
      fresh-IsHealthy refl

free_data_block_outside_example :
    Returns
      (λ ok s'.
        (ok ≡ false)
        × (((block_count ≢ block_count) × (s' ≡ used_fs))
            ⊎ ((block_count ≡ block_count)
                × (s'
                    ≡ with_superblock used_fs used_fs.disk (push_list block_count used_superblock))
                × ((free' : List ℕ)
                    → ¬ IsAllocator s' (push_list block_count used_superblock) free'))))
      (free_data_block block_count used_fs)
free_data_block_outside_example =
    free_data_block_outside used_fs used_superblock (157287 ∷ []) block_count used-IsAllocator
      fresh-IsHealthy (inr (omega arith)) (omega arith)

get_free_list_length_lem_example : get_free_list_length 5 used_fs ≡ some (some 1, used_fs)
get_free_list_length_lem_example =
    get_free_list_length_lem used_fs used_superblock (157287 ∷ []) 5 used-IsAllocator
      fresh-IsHealthy (omega arith) (omega arith)

-- a file of one block, block 157288
abbrev one_block : Inode
one_block = record empty_inode { blocks = 1; direct_addresses = λ k. if k == 0 then 157288 else 0 }

get_datablock_from_inode-nth_example :
    get_datablock_from_inode one_block 0 0 used_fs ≡ some ((157288, 0), used_fs)
get_datablock_from_inode-nth_example =
    get_datablock_from_inode-nth used_fs used_superblock (157287 ∷ []) one_block 0 0
      used-IsAllocator fresh-IsHealthy
      (record { small = omega arith; indirect = λ p. absurd (omega arith) }) (omega arith)

-- a file of ten blocks, which needs its block of addresses next
abbrev ten_blocks : Inode
ten_blocks = record empty_inode { blocks = 10; direct_addresses = λ k. 157288 }

add_datablock_to_inode-Appends_example :
    Returns
      (AddEnds used_fs used_superblock (157287 ∷ []) ten_blocks 157288)
      (add_datablock_to_inode ten_blocks 157288 used_fs)
add_datablock_to_inode-Appends_example =
    add_datablock_to_inode-Appends used_fs used_superblock (157287 ∷ []) ten_blocks 157288
      used-IsAllocator fresh-IsHealthy
      (record { small = omega arith; indirect = λ p. absurd (omega arith) }) (omega arith)
      (omega arith)

load_fs-fs_init_example :
    Returns
      (λ ok s1.
        (ok ≡ true)
        × Returns
            (λ ok' s2.
              (ok' ≡ true)
              × IsAllocator s2 new_superblock []
              × ((b : ℕ) → in_use new_superblock [] b ≡ false))
            (load_fs (record s1 { fs_superblock = null })))
      (fs_init fresh_fs)
load_fs-fs_init_example = load_fs-fs_init fresh_fs fresh-IsHealthy refl

-- a file with the one block that is in use
abbrev direct_file : Inode
direct_file = record empty_inode {
  blocks = 1;
  direct_addresses = λ k. if k == 0 then 157288 else 0;
}

direct_file-Owns : Owns used_superblock (157287 ∷ []) direct_file.direct_addresses 0 1
direct_file-Owns = record {
  used = λ k p q. let e : k ≡ 0 = omega arith in rw e refl;
  apart = λ k l p q r. absurd (omega arith);
}

remove_datablocks_range-FreesAll_example :
    Returns
      (λ (ok, node') s'.
        (ok ≡ true)
        × FreesAll used_fs used_superblock (157287 ∷ []) direct_file.direct_addresses 0 1 s'
        × Forgets (record direct_file { blocks = 0 }) 0 1 node')
      (remove_datablocks_range_from_inode direct_file 0 used_fs)
remove_datablocks_range-FreesAll_example =
    remove_datablocks_range-FreesAll used_fs used_superblock (157287 ∷ []) direct_file 0
      used-IsAllocator fresh-IsHealthy (omega arith) (omega arith) (omega arith) direct_file-Owns

-- a file both of whose blocks are the one that is in use
abbrev repeated_file : Inode
repeated_file = record empty_inode {
  blocks = 2;
  direct_addresses = λ k. if ltb k 2 then 157288 else 0;
}

repeated_file-IsFile : IsFile used_fs used_superblock (157287 ∷ []) repeated_file
repeated_file-IsFile = record {
  small = record { small = omega arith; indirect = λ h. absurd (omega arith) };
  used = λ k p. ground arith;
}

read_blocks-Reads_example :
    (end : Bytes) × (read_blocks repeated_file 4000 200 zeros used_fs
      ≡ some ((end, some 200), used_fs))
    × Reads used_fs.disk repeated_file 4000 200 zeros end
read_blocks-Reads_example =
    read_blocks-Reads used_fs used_superblock (157287 ∷ []) repeated_file 4000 200 zeros
      used-IsAllocator fresh-IsHealthy repeated_file-IsFile (omega arith) (omega arith)
