-- ===== src/Examples/Inodes.antt =====
-- Instances for the inode list.
use beach_bytes_file_system.Base.{◌*◌, ◌-◌, ◌≡◌, refl, ◌⊎◌, true, some, arith}
use beach_bytes_file_system.Bytes.{minus_one}
use beach_bytes_file_system.Config.{inode_block_count, inodes_per_block}
use beach_bytes_file_system.Config.Images.{IsInode}
use beach_bytes_file_system.Machine.{Returns}
use beach_bytes_file_system.InodeTable.{
  write_inode_to_disk, load_inode_from_disk, create_inode, get_next_free_inode,
}
use beach_bytes_file_system.InodeTable.Scan.{FirstFree, get_next_free_inode-FirstFree}
use beach_bytes_file_system.InodeTable.Entries.{
  OnlyEntry, load_inode-write_inode, AllUsed, Creates, create_inode_lem,
}
use beach_bytes_file_system.Examples.{fresh_fs, fresh-IsHealthy, empty_inode}

empty-IsInode : IsInode empty_inode
empty-IsInode = record { fits = omega arith; ten = λ k h. refl }

load_inode-write_inode_example :
    Returns
      (λ ok s'.
        (ok ≡ true)
        × (load_inode_from_disk 16 s' ≡ some (some empty_inode, s'))
        × OnlyEntry 16 fresh_fs.disk s'.disk)
      (write_inode_to_disk 16 empty_inode fresh_fs)
load_inode-write_inode_example =
    load_inode-write_inode fresh_fs 16 empty_inode fresh-IsHealthy (omega arith) empty-IsInode refl

create_inode_lem_example :
    Returns
      (λ r s'. ((r ≡ minus_one) × (s' ≡ fresh_fs) × AllUsed fresh_fs.disk) ⊎ Creates fresh_fs r s')
      (create_inode fresh_fs)
create_inode_lem_example = create_inode_lem fresh_fs fresh-IsHealthy

get_next_free_inode-FirstFree_example :
    Returns
      (λ r s'.
        (s' ≡ fresh_fs) × FirstFree fresh_fs.disk 0 (inodes_per_block * (inode_block_count - 1)) r)
      (get_next_free_inode fresh_fs)
get_next_free_inode-FirstFree_example = get_next_free_inode-FirstFree fresh_fs fresh-IsHealthy
