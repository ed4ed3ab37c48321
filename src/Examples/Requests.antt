-- ===== src/Examples/Requests.antt =====
-- Instances for the requests, on the tree with one entry.
use beach_bytes_file_system.Base.{ℕ, ◌≡◌, refl, List, [], ◌∷◌, arith}
use beach_bytes_file_system.Bytes.{zeros}
use beach_bytes_file_system.Machine.{Fs, Returns}
use beach_bytes_file_system.FilePath.{slash}
use beach_bytes_file_system.Directory.Find.{entries_from}
use beach_bytes_file_system.Directory.Tree.{root}
use beach_bytes_file_system.FileStat.{fs_readdir}
use beach_bytes_file_system.FileStat.Shown.{Lists}
use beach_bytes_file_system.FileStat.Listing.{fs_readdir-Lists}
use beach_bytes_file_system.Fuse.{
  Request, getattr, access, readdir, chmod, read, mkdir, write, unlink, destroy, serve,
}
use beach_bytes_file_system.Invariant.{Ends}
use beach_bytes_file_system.Invariant.Serve.{
  looks_getattr, looks_access, looks_readdir, sets_mode, reads, makes_dir, writes, unlinks,
  all_done, and_all,
}
use beach_bytes_file_system.Invariant.Looking.{serve-IsQuery, KeepsData, serve-IsOnInodes}
use beach_bytes_file_system.Invariant.Region.{KeepsRegion, serve-KeepsRegion}
use beach_bytes_file_system.Invariant.Mounted.{IsMounted, serve-IsMounted}
use beach_bytes_file_system.Examples.{fresh-IsHealthy, used_superblock}
use beach_bytes_file_system.Examples.Tree.{
  name_a, top_inode, tree_of, tree_fs, tree_of-IsAllocator, entries_of, tree_of-IsDirectory,
  top_of-loaded,
}

abbrev top : List ℕ
top = slash ∷ []

abbrev file_path : List ℕ
file_path = slash ∷ name_a

abbrev queries : List Request
queries = getattr top ∷ access file_path ∷ readdir top ∷ []

serve-IsQuery_example : Ends (λ s. s ≡ tree_fs) (serve 1000 100 queries tree_fs)
serve-IsQuery_example = serve-IsQuery 1000 100 queries tree_fs (
    and_all (looks_getattr top)
      (and_all (looks_access file_path) (and_all (looks_readdir top) all_done)))

abbrev changes : List Request
changes = chmod top 16832 ∷ read top zeros 10 0 ∷ []

serve-IsOnInodes_example : Ends (KeepsData tree_fs) (serve 1000 100 changes tree_fs)
serve-IsOnInodes_example =
    serve-IsOnInodes 1000 100 changes tree_fs
      (and_all (sets_mode top 16832) (and_all (reads top zeros 10 0) all_done))

abbrev session : List Request
session = mkdir (slash ∷ 98 ∷ []) 509 ∷ write top zeros 5000 10 ∷ unlink file_path ∷ []

-- the last of them frees the superblock
abbrev whole_session : List Request
whole_session =
    mkdir (slash ∷ 98 ∷ []) 509 ∷ write top zeros 5000 10 ∷ unlink file_path ∷ destroy ∷ []

serve-KeepsRegion_example : Ends (KeepsRegion tree_fs) (serve 1000 100 whole_session tree_fs)
serve-KeepsRegion_example = serve-KeepsRegion 1000 100 whole_session tree_fs

tree-IsMounted : IsMounted tree_fs
tree-IsMounted = record {
  healthy = fresh-IsHealthy;
  sb = used_superblock;
  loaded = refl;
  on_disk = refl;
  above = omega arith;
  below = omega arith;
}

serve-IsMounted_example : Ends IsMounted (serve 1000 100 session tree_fs)
serve-IsMounted_example = serve-IsMounted 1000 100 session tree_fs tree-IsMounted (
    and_all (makes_dir (slash ∷ 98 ∷ []) 509)
      (and_all (writes top zeros 5000 10) (and_all (unlinks file_path) all_done)))

-- the root directory has one entry, "."
abbrev dot_fs : Fs
dot_fs = tree_of 0 (46 ∷ [])

fs_readdir-Lists_example :
    Returns
      (λ (r, calls) s'.
        (r ≡ 0)
        × (s' ≡ dot_fs)
        × Lists 1000 100 (λ _. top_inode) (entries_from (entries_of 0 (46 ∷ [])) 0 1) calls)
      (fs_readdir 1000 100 top dot_fs)
fs_readdir-Lists_example =
    fs_readdir-Lists 1000 100 (λ _. top_inode) dot_fs used_superblock (157287 ∷ []) top 0 top_inode
      (entries_of 0 (46 ∷ [])) (tree_of-IsAllocator 0 (46 ∷ [])) fresh-IsHealthy root (omega arith)
      (top_of-loaded 0 (46 ∷ [])) (tree_of-IsDirectory 0 (46 ∷ []) (omega arith) (omega arith)) refl
      (top_of-loaded 0 (46 ∷ []), tt)
