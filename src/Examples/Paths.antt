-- ===== src/Examples/Paths.antt =====
-- Runs and instances for the splitting of paths.
use Prim.Native.Char.{code}
use Prim.Native.String.{String}
use beach_bytes_file_system.Base.{
  ℕ, ◌≡◌, refl, ◌⊎◌, inl, inr, ◌<◌, some, List, [], ◌∷◌, arith, length,
}
use beach_bytes_file_system.FilePath.{
  slash, copy_parent_path, copy_file_name, get_last_index_of_parent_path, last_index_loop,
}
use beach_bytes_file_system.FilePath.Split.{
  copy_parent_path-append, copy_file_name-append, copy_parent_path-shorter,
}

abbrev codes : String → List ℕ
codes String.[] = []
codes (String.◌∷◌ c s) = code c ∷ codes s

copy_file_name-append_example : copy_file_name (codes "/home/kali/") ≡ some (codes "kali")
copy_file_name-append_example =
    copy_file_name-append (codes "/home") (codes "kali") (slash ∷ []) (omega arith) (inr refl)
      (omega arith)

copy_parent_path-append_example : copy_parent_path (codes "/home/kali") ≡ codes "/home"
copy_parent_path-append_example =
    copy_parent_path-append (codes "/home") (codes "kali") [] (omega arith) (inl refl) (omega arith)

copy_parent_path-shorter_example :
    (copy_parent_path (codes "/home/kali") ≡ slash ∷ [])
    ⊎ (length (copy_parent_path (codes "/home/kali")) < length (codes "/home/kali"))
copy_parent_path-shorter_example = copy_parent_path-shorter (codes "/home/kali")

root_of_top : copy_parent_path (codes "/home") ≡ codes "/"
unfolding copy_parent_path get_last_index_of_parent_path last_index_loop
root_of_top = refl
