-- ===== src/Directory/Adding/Found.antt =====
-- The lookups in a directory after an entry was added to it.
use beach_bytes_file_system.Base.{
  ℕ, zero, suc, ◌+◌, ◌^◌, ◌≤◌, ◌<◌, ◌≡◌, refl, sym, ap, ◌≢◌, ◌∙◌, inl, inr, true, false, Option,
  none, some, List, [], ◌∷◌, ◌++◌, arith, ◌==◌, length, Bool-cases, ne→==,
}
use beach_bytes_file_system.Config.{Inode, Superblock}
use beach_bytes_file_system.Machine.{Fs, Returns, returns}
use beach_bytes_file_system.LayerZero.Blocks.{IsHealthy}
use beach_bytes_file_system.DataBlock.FreeList.{IsAllocator}
use beach_bytes_file_system.DataBlock.InUse.{IsAllocator-set_block}
use beach_bytes_file_system.BlockMap.Small.{nth}
use beach_bytes_file_system.Directory.{s_isdir, add_directory_entry, lookup_in}
use beach_bytes_file_system.Directory.Records.{Entry, name_eq, lookup}
use beach_bytes_file_system.Directory.RoundTrip.{lookup_last, lookup_others}
use beach_bytes_file_system.Directory.Find.{
  IsDirectory, entries_from, or_minus_one, or_else, lookup-append, lookup_in-lookup,
}
use beach_bytes_file_system.FileWrite.Blocks.{IsApart}
use beach_bytes_file_system.Directory.Adding.{
  with_entry_at, one_file_more, IsFirstRoom, after, after-IsDirectory, add_directory_entry-after,
}

or_else_none :
    (name : List ℕ) (es fs : List Entry)
    → lookup name (es ++ fs) ≡ none
    → (lookup name es ≡ none) × (lookup name fs ≡ none)
or_else_none name es fs e =
    go (lookup name es) (lookup name fs) (sym (lookup-append name es fs) ∙ e)
  where
    go : (x y : Option ℕ) → or_else x y ≡ none → (x ≡ none) × (y ≡ none)
    go none y h = (refl, h)
    go (some n) y h = cc

-- a name that the directory did not have is found
entries_from-new :
    (es : ℕ → List Entry) (inum : ℕ) (name : List ℕ) (j n k : ℕ)
    → lookup name (entries_from es k n) ≡ none
    → k ≤ j
    → j < k + n
    → lookup name (entries_from (with_entry_at es j (inum, name)) k n) ≡ some inum
entries_from-new es inum name j zero k fresh le lt = absurd (omega arith)
entries_from-new es inum name j (suc n) k fresh le lt =
    let later : List Entry = entries_from (with_entry_at es j (inum, name)) (k + 1) n in
    let (here, rest) = or_else_none name (es k) (entries_from es (k + 1) n) fresh in
    elim (Bool-cases (k == j)) [
      | inl e ↦
          rw (e, lookup-append name (es k ++ ((inum, name) ∷ [])) later)
            (rw (lookup_last name (es k) inum here) refl)
      | inr e ↦
          let ih = entries_from-new es inum name j n (k + 1) rest (ground arith) (omega arith) in
          rw (e, lookup-append name (es k) later) (rw (here, ih) refl)
    ]

-- any other name is looked up as before
entries_from-others :
    (es : ℕ → List Entry) (inum : ℕ) (name other : List ℕ) (j n k : ℕ)
    → name_eq name other ≡ false
    → lookup other (entries_from (with_entry_at es j (inum, name)) k n)
      ≡ lookup other (entries_from es k n)
entries_from-others es inum name other j zero k apart = refl
entries_from-others es inum name other j (suc n) k apart =
    let later : List Entry = entries_from (with_entry_at es j (inum, name)) (k + 1) n in
    let ih = entries_from-others es inum name other j n (k + 1) apart in
    let old = lookup-append other (es k) (entries_from es (k + 1) n) in
    elim (Bool-cases (k == j)) [
      | inl e ↦
          rw (e, lookup-append other (es k ++ ((inum, name) ∷ [])) later, old)
            (rw (lookup_others name other (es k) inum apart, ih) refl)
      | inr e ↦ rw (e, lookup-append other (es k) later, old) (rw ih refl)
    ]

-- what a successful call has done, with block `j` as the one that the entry goes to
pub record Adds (s : Fs) (sb : Superblock) (free : List ℕ) (dir : Inode) (es : ℕ → List Entry)
    (inum : ℕ) (name other : List ℕ) (j : ℕ) (s' : Fs) (dir' : Inode) : Type 0 where
  pub counted : dir' ≡ one_file_more dir
  pub allocator : IsAllocator s' sb free
  pub directory : IsDirectory s' sb free dir' (with_entry_at es j (inum, name))
  pub found : lookup_in dir' name s' ≡ some (inum, s')
  pub others :
      (number : ℕ) × (lookup_in dir other s ≡ some (number, s))
      × (lookup_in dir' other s' ≡ some (number, s'))
  pub rest : (b : ℕ) → b ≢ nth s.disk dir j → s'.disk b ≡ s.disk b
  pub device : s'.device ≡ s.device

-- With a valid allocator on a healthy device, on a directory of up to 522 blocks in use, which differ
-- from each other and from its block of addresses and one of which has room for the name,
-- `add_directory_entry` with a 64-bit inode number and a new name of up to 255 bytes succeeds. The entry stands behind those of the first block with room; the lookup finds its
-- inode number under its name, and under any other name of up to 255 bytes what it found before. The
-- count of files grows by one, and no other block changes.
pub lookup_in-add_directory_entry :
    (s : Fs) (sb : Superblock) (free : List ℕ) (dir : Inode) (es : ℕ → List Entry) (inum : ℕ)
    (name other : List ℕ) (j : ℕ)
    → IsAllocator s sb free
    → IsHealthy s.device
    → IsDirectory s sb free dir es
    → IsApart s.disk dir
    → IsFirstRoom s.disk dir name j
    → s_isdir dir.i_mode ≡ true
    → length name ≤ 255
    → inum < 256 ^ 8
    → lookup name (entries_from es 0 dir.blocks) ≡ none
    → name_eq name other ≡ false
    → length other ≤ 255
    → Returns
        (λ (ok, dir') s'. (ok ≡ true) × Adds s sb free dir es inum name other j s' dir')
        (add_directory_entry dir inum name s)
lookup_in-add_directory_entry s sb free dir es inum name other j v h d a f mode short fits fresh
      apart short' =
    let s1 : Fs = after s sb free dir es inum name j v h d a f short fits in
    let es1 : ℕ → List Entry = with_entry_at es j (inum, name) in
    let v1 : IsAllocator s1 sb free =
      IsAllocator-set_block s sb free v (nth s.disk dir j) (d.used j f.below) _ in
    let d1 : IsDirectory s1 sb free (one_file_more dir) es1 =
      after-IsDirectory s sb free dir es inum name j v h d a f short fits in
    rw (add_directory_entry-after s sb free dir es inum name j v h d a f short fits mode) (
      returns (
        refl,
        record {
          counted = refl;
          allocator = v1;
          directory = d1;
          found =
              lookup_in-lookup s1 sb free (one_file_more dir) es1 name v1 h d1 mode short
              ∙ ap (λ r. some (or_minus_one r, s1))
                  (entries_from-new es inum name j dir.blocks 0 fresh (omega arith)
                    (omega (arith, f.below)));
          others = (
            or_minus_one (lookup other (entries_from es 0 dir.blocks)),
            lookup_in-lookup s sb free dir es other v h d mode short',
            lookup_in-lookup s1 sb free (one_file_more dir) es1 other v1 h d1 mode short'
                ∙ ap (λ r. some (or_minus_one r, s1))
                    (entries_from-others es inum name other j dir.blocks 0 apart),
          );
          rest = λ b ne. let e = ne→== ne in rw e refl;
          device = refl;
        },
      ))
