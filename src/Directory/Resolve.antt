-- ===== src/Directory/Resolve.antt =====
-- `get_inode_of_file` ends on every path: its fuel is never used up, since every step goes up.
use beach_bytes_file_system.Base.{
  ℕ, zero, suc, ◌+◌, ◌≤◌, ◌≡◌, refl, sym, ap, ◌∙◌, inl, inr, none, some, List, [], ◌∷◌, arith, ◌==◌,
  if◌then◌else◌, length,
}
use beach_bytes_file_system.Bytes.{minus_one}
use beach_bytes_file_system.Machine.{M, pure, ◌>>=◌, deref}
use beach_bytes_file_system.InodeTable.{load_inode_from_disk}
use beach_bytes_file_system.FilePath.{slash, copy_parent_path, copy_file_name}
use beach_bytes_file_system.FilePath.Split.{copy_parent_path-shorter}
use beach_bytes_file_system.Directory.{is_root_path, lookup_in, get_inode_from, get_inode_of_file}

-- lines 1061 to 1156, given the call on the parent path
abbrev pub from_parent : M ℕ → List ℕ → M ℕ
from_parent parent path = if is_root_path path then (λ s. some (s.root_dir_inode_num, s)) else do
  parent_inum ← parent
  if parent_inum == minus_one then pure minus_one else (do
    loaded ← load_inode_from_disk parent_inum
    elim loaded [
      | none ↦ pure minus_one
      | some dir ↦ do name ← deref (copy_file_name path); lookup_in dir name
    ])

get_inode_from-suc :
    (f : ℕ) (path : List ℕ)
    → get_inode_from (suc f) path ≡ from_parent (get_inode_from f (copy_parent_path path)) path
unfolding get_inode_from
get_inode_from-suc f path = refl

get_inode_from-root :
    (f g : ℕ) → get_inode_from (suc f) (slash ∷ []) ≡ get_inode_from (suc g) (slash ∷ [])
unfolding get_inode_from
get_inode_from-root f g = refl

-- any two amounts of fuel that are enough give the same call
get_inode_from-enough :
    (f g : ℕ) (path : List ℕ)
    → length path + 2 ≤ f
    → length path + 2 ≤ g
    → get_inode_from f path ≡ get_inode_from g path
get_inode_from-enough zero g path p q = absurd (omega arith)
get_inode_from-enough (suc zero) g path p q = absurd (omega arith)
get_inode_from-enough (suc (suc f)) zero path p q = absurd (omega arith)
get_inode_from-enough (suc (suc f)) (suc zero) path p q = absurd (omega arith)
get_inode_from-enough (suc (suc f)) (suc (suc g)) path p q =
    let up : get_inode_from (suc f) (copy_parent_path path)
        ≡ get_inode_from (suc g) (copy_parent_path path) =
      elim (copy_parent_path-shorter path) [
        | inl e ↦ rw e (get_inode_from-root f g)
        | inr lt ↦
            get_inode_from-enough (suc f) (suc g) (copy_parent_path path) (omega arith)
              (omega arith)
      ] in
    get_inode_from-suc (suc f) path
    ∙ ap (λ m. from_parent m path) up
    ∙ sym (get_inode_from-suc (suc g) path)

-- The call on a path is the source's recursion, without fuel: "/" is the root directory, any other
-- path is looked up by its name in the directory that its parent is.
pub get_inode_of_file-recursion :
    (path : List ℕ)
    → get_inode_of_file path ≡ from_parent (get_inode_of_file (copy_parent_path path)) path
unfolding get_inode_of_file
get_inode_of_file-recursion path =
    let parent : List ℕ = copy_parent_path path in
    let n : ℕ = length path + length parent + 2 in
    get_inode_from-enough (length path + 2) (suc n) path (omega arith) (omega arith)
    ∙ get_inode_from-suc n path
    ∙ ap (λ m. from_parent m path)
        (get_inode_from-enough n (length parent + 2) parent (omega arith) (omega arith))
