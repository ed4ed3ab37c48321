-- ===== src/Examples/Tree.antt =====
-- A directory tree with one file, and the lookup of its path.
use beach_bytes_file_system.Base.{
  ℕ, ◌^◌, ◌≤◌, ◌<◌, length, ◌≡◌, refl, ◌∙◌, inr, true, false, some, List, [], ◌∷◌, arith, ltb, ◌==◌,
  if◌then◌else◌,
}
use beach_bytes_file_system.Bytes.{minus_one, zeros, load, store, write_bytes, copy}
use beach_bytes_file_system.Config.{Inode, inode_image}
use beach_bytes_file_system.Config.Images.{IsInode, read-inode_image}
use beach_bytes_file_system.Machine.{Fs, Returns, live, set_block}
use beach_bytes_file_system.LayerZero.{superblock_block}
use beach_bytes_file_system.DataBlock.FreeList.{IsAllocator}
use beach_bytes_file_system.InodeTable.{load_inode_from_disk}
use beach_bytes_file_system.InodeTable.Entries.{OnlyEntry, load_inode_from_disk-ok}
use beach_bytes_file_system.FilePath.{
  slash, copy_parent_path, copy_file_name, get_last_index_of_parent_path, last_index_loop,
}
use beach_bytes_file_system.Directory.{
  add_directory_entry, first_record, lookup_in, get_inode_of_file,
}
use beach_bytes_file_system.Directory.Records.{Entry, lookup, name_eq}
use beach_bytes_file_system.Directory.Insert.{first_record-IsDirBlock}
use beach_bytes_file_system.Directory.Find.{
  IsDirectory, entries_from, or_minus_one, lookup_in-lookup,
}
use beach_bytes_file_system.Directory.Adding.{IsFirstRoom}
use beach_bytes_file_system.Directory.Adding.Found.{Adds, lookup_in-add_directory_entry}
use beach_bytes_file_system.Directory.Tree.{Resolves, root, entry, get_inode_of_file-Resolves}
use beach_bytes_file_system.FileWrite.Blocks.{IsApart}
use beach_bytes_file_system.FileOps.{fs_chmod, fs_mknod, fs_mkdir, fs_unlink, enoent, eacces}
use beach_bytes_file_system.FileOps.Attributes.{with_mode, fs_chmod-with_mode}
use beach_bytes_file_system.FileOps.Refused.{fs_mknod_refused, fs_unlink_refused}
use beach_bytes_file_system.Examples.{fresh_fs, fresh-IsHealthy, used_superblock, empty_inode}

abbrev pub name_a : List ℕ
name_a = 97 ∷ 46 ∷ 99 ∷ []

abbrev pub top_inode : Inode
top_inode = record empty_inode {
  i_mode = 16877;
  file_size = 4096;
  blocks = 1;
  direct_addresses = λ k. if ltb k 10 then 157288 else 0;
  files_count = 1;
}

pub top-IsInode : IsInode top_inode
top-IsInode = record { fits = omega arith; ten = λ k h. ground arith }

-- the root directory is inode 0, with the one block 157288, which has one entry
abbrev pub tree_of : ℕ → List ℕ → Fs
tree_of inum name = record fresh_fs {
  disk =
      set_block
        (set_block (set_block (λ _. zeros) 0 (superblock_block used_superblock)) 1
          (copy zeros 0 (inode_image top_inode) 0 264))
        157288 (first_record inum name);
  fs_superblock = live used_superblock;
}

abbrev pub tree_fs : Fs
tree_fs = tree_of 7 name_a

pub tree_of-IsAllocator :
    (inum : ℕ) (name : List ℕ) → IsAllocator (tree_of inum name) used_superblock (157287 ∷ [])
unfolding load
tree_of-IsAllocator inum name = record {
  loaded = refl;
  on_disk = refl;
  chain = (refl, refl);
  cleared = λ x k m h. ground arith;
  listed = (omega arith, omega arith, refl, tt);
  above = omega arith;
  below = omega arith;
}

pub tree-IsAllocator : IsAllocator tree_fs used_superblock (157287 ∷ [])
tree-IsAllocator = tree_of-IsAllocator 7 name_a

abbrev pub entries_of : ℕ → List ℕ → ℕ → List Entry
entries_of inum name k = (inum, name) ∷ []

abbrev pub tree_entries : ℕ → List Entry
tree_entries = entries_of 7 name_a

pub tree_of-IsDirectory :
    (inum : ℕ) (name : List ℕ)
    → inum < 2 ^ 64
    → length name ≤ 255
    → IsDirectory (tree_of inum name) used_superblock (157287 ∷ []) top_inode (entries_of inum name)
tree_of-IsDirectory inum name small short = record {
  file = record { small = omega arith; indirect = λ h. absurd (omega arith) };
  used = λ k h. let e : k ≡ 0 = omega arith in rw e refl;
  entries = λ k h.
      let e : k ≡ 0 = omega arith in rw e (first_record-IsDirBlock inum name short (omega arith));
}

pub tree-IsDirectory : IsDirectory tree_fs used_superblock (157287 ∷ []) top_inode tree_entries
tree-IsDirectory = tree_of-IsDirectory 7 name_a (omega arith) (omega arith)

pub top_of-loaded :
    (inum : ℕ) (name : List ℕ)
    → load_inode_from_disk 0 (tree_of inum name) ≡ some (some top_inode, tree_of inum name)
top_of-loaded inum name =
    let back = read-inode_image zeros 0 top_inode top-IsInode in
    load_inode_from_disk-ok (tree_of inum name) fresh-IsHealthy 0 (omega arith) ∙ rw back refl

pub top-loaded : load_inode_from_disk 0 tree_fs ≡ some (some top_inode, tree_fs)
top-loaded = top_of-loaded 7 name_a

lookup_in-lookup_example :
    lookup_in top_inode name_a tree_fs
    ≡ some (or_minus_one (lookup name_a (entries_from tree_entries 0 1)), tree_fs)
lookup_in-lookup_example =
    lookup_in-lookup tree_fs used_superblock (157287 ∷ []) top_inode tree_entries name_a
      tree-IsAllocator fresh-IsHealthy tree-IsDirectory refl (omega arith)

pub in_top : Resolves tree_fs used_superblock (157287 ∷ []) (slash ∷ name_a) 7
unfolding copy_parent_path copy_file_name get_last_index_of_parent_path last_index_loop lookup
    name_eq
in_top =
    entry {name = name_a} {inum = 0} {dir = top_inode} {es = tree_entries} refl root (omega arith)
      top-loaded tree-IsDirectory refl refl (omega arith)

get_inode_of_file-Resolves_example : get_inode_of_file (slash ∷ name_a) tree_fs ≡ some (7, tree_fs)
get_inode_of_file-Resolves_example =
    get_inode_of_file-Resolves tree_fs used_superblock (157287 ∷ []) (slash ∷ name_a) 7
      tree-IsAllocator fresh-IsHealthy in_top

fs_chmod-with_mode_example :
    Returns
      (λ r s'.
        (r ≡ 0)
        × (load_inode_from_disk 0 s' ≡ some (some (with_mode top_inode 16832), s'))
        × OnlyEntry 0 tree_fs.disk s'.disk)
      (fs_chmod (slash ∷ []) 16832 tree_fs)
fs_chmod-with_mode_example =
    fs_chmod-with_mode tree_fs used_superblock (157287 ∷ []) (slash ∷ []) 0 top_inode 16832
      tree-IsAllocator fresh-IsHealthy root (omega arith) top-loaded top-IsInode refl (omega arith)

fs_mknod_refused_example :
    (fs_mknod (slash ∷ name_a) 33204 tree_fs ≡ some (false, tree_fs))
    × (fs_mkdir (slash ∷ name_a) 33204 tree_fs ≡ some (false, tree_fs))
fs_mknod_refused_example =
    fs_mknod_refused tree_fs used_superblock (157287 ∷ []) (slash ∷ name_a) 7 tree-IsAllocator
      fresh-IsHealthy in_top 33204 (omega arith)

fs_unlink_refused_example :
    fs_unlink (slash ∷ []) tree_fs ≡ some (if 0 == minus_one then enoent else eacces, tree_fs)
fs_unlink_refused_example =
    fs_unlink_refused tree_fs used_superblock (157287 ∷ []) (slash ∷ []) 0 tree-IsAllocator
      fresh-IsHealthy root (inr refl)

-- "b" is added beside the entry of the root
top-IsFirstRoom : IsFirstRoom tree_fs.disk top_inode (98 ∷ []) 0
unfolding load first_record store write_bytes
top-IsFirstRoom = record {
  below = omega arith;
  room = refl;
  earlier = λ k lt. absurd (omega arith);
}

top-IsApart : IsApart tree_fs.disk top_inode
top-IsApart = record {
  distinct = λ k l p q ne. absurd (ne (omega arith));
  addresses = λ k p q. absurd (omega arith);
}

lookup_in-add_directory_entry_example :
    Returns
      (λ (ok, dir') s'.
        (ok ≡ true)
        × Adds tree_fs used_superblock
            (157287 ∷ [])
            top_inode
            tree_entries
            9
            (98 ∷ [])
            name_a
            0
            s'
            dir')
      (add_directory_entry top_inode 9 (98 ∷ []) tree_fs)
unfolding lookup name_eq
lookup_in-add_directory_entry_example =
    lookup_in-add_directory_entry tree_fs used_superblock (157287 ∷ []) top_inode tree_entries 9
      (98 ∷ []) name_a 0 tree-IsAllocator fresh-IsHealthy tree-IsDirectory top-IsApart
      top-IsFirstRoom refl (omega arith) (omega arith) refl refl (omega arith)
