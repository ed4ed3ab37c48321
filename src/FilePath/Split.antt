-- ===== src/FilePath/Split.antt =====
-- The two halves of a path: what is before its last component, and the component.
use beach_bytes_file_system.Base.{
  ℕ, zero, suc, ◌+◌, ◌-◌, ◌≤◌, ◌<◌, ◌≡◌, refl, ◌≢◌, ◌∙◌, ap, ◌⊎◌, inl, inr, Bool, true, false, not,
  ◌&&◌, Option, none, some, List, [], ◌∷◌, ◌++◌, arith, ltb, ◌==◌, if◌then◌else◌, length, take,
  drop, ne→==, length-append, get_elem?-append, take-append, length-take_le, Bool-cases,
}
use beach_bytes_file_system.FilePath.{
  slash, is_slash, last_index_loop, get_last_index_of_parent_path, copy_parent_path, copy_file_name,
  parent_at,
}

-- index `i` is one that the search stops at: a slash that is not the last byte
abbrev pub stops_at : List ℕ → ℕ → Bool
stops_at path i = is_slash path i && not (i == length path - 1)

last_index_loop-skip :
    (path : List ℕ) (m k : ℕ)
    → ((j : ℕ) → m ≤ j → j < m + k → stops_at path j ≡ false)
    → last_index_loop path (m + k) ≡ last_index_loop path m
unfolding last_index_loop
last_index_loop-skip path m zero h = let e : m + 0 ≡ m = omega arith in rw e
last_index_loop-skip path m (suc k) h =
    let e : m + suc k ≡ suc (m + k) = omega arith in
    rw (e, h (m + k) (omega arith) (omega arith))
      (last_index_loop-skip path m k (λ j p q. h j p (omega arith)))

-- The index that is found is such a slash, and lies below the start.
last_index_loop-bound :
    (path : List ℕ) (n i : ℕ) → last_index_loop path n ≡ some i → (i < n) × (stops_at path i ≡ true)
unfolding last_index_loop
last_index_loop-bound path zero i e = cc
last_index_loop-bound path (suc n) i e = elim (Bool-cases (stops_at path n)) [
  | inl hit ↦
      let found : some n ≡ some i = rw hit at e in
      let at : n ≡ i = cc in (omega arith, rw (← at) hit)
  | inr miss ↦
      let later : last_index_loop path n ≡ some i = rw miss at e in
      let (low, hit) = last_index_loop-bound path n i later in (omega arith, hit)
]

first_slash : (p : List ℕ) → stops_at p 0 ≡ true → take 1 p ≡ slash ∷ []
first_slash [] h = cc
first_slash (c ∷ cs) h = ground arith

-- Every parent is "/" or strictly shorter, so walking up from any path ends at "/".
pub copy_parent_path-shorter :
    (path : List ℕ)
    → (copy_parent_path path ≡ slash ∷ []) ⊎ (length (copy_parent_path path) < length path)
unfolding copy_parent_path get_last_index_of_parent_path
copy_parent_path-shorter path = go (last_index_loop path (length path)) refl
  where
    go :
        (r : Option ℕ)
        → last_index_loop path (length path) ≡ r
        → (parent_at path r ≡ slash ∷ []) ⊎ (length (parent_at path r) < length path)
    go none e = inl refl
    go (some zero) e = inl (first_slash path (last_index_loop-bound path (length path) 0 e).1)
    go (some (suc i)) e =
        let (low, hit) = last_index_loop-bound path (length path) (suc i) e in
        inr (omega (arith, length-take_le (suc i) path))

-- a component of a path
abbrev pub NoSlash : List ℕ → Type 0
NoSlash [] = Unit
NoSlash (c ∷ cs) = (c ≢ slash) × NoSlash cs

-- nothing, or one slash behind the path
abbrev pub IsTrailing : List ℕ → Type 0
IsTrailing t = (t ≡ []) ⊎ (t ≡ slash ∷ [])

NoSlash-is_slash :
    (name t : List ℕ) (j : ℕ) → NoSlash name → j < length name → is_slash (name ++ t) j ≡ false
NoSlash-is_slash [] t j h p = absurd (omega arith)
NoSlash-is_slash (c ∷ cs) t zero h p = ground (arith, h.0)
NoSlash-is_slash (c ∷ cs) t (suc j) h p = NoSlash-is_slash cs t j h.1 (omega arith)

parent_at-append :
    (p r : List ℕ)
    → parent_at (p ++ (slash ∷ r)) (some (length p)) ≡ (if length p == 0 then slash ∷ [] else p)
parent_at-append [] r = refl
parent_at-append (x ∷ xs) r = rw (take-append xs (slash ∷ r)) (ground arith)

drop-after : (p r : List ℕ) (c : ℕ) → drop (length p + 1) (p ++ (c ∷ r)) ≡ r
drop-after [] r c = refl
drop-after (x ∷ xs) r c =
    let e : suc (length xs) + 1 ≡ suc (length xs + 1) = omega arith in rw e (drop-after xs r c)

module _ (p name t : List ℕ) (clean : NoSlash name) (trailing : IsTrailing t) where
  abbrev path : List ℕ
  path = p ++ (slash ∷ (name ++ t))

  at_parent : (k : ℕ) → is_slash path (length p + k) ≡ is_slash (slash ∷ (name ++ t)) k
  at_parent k =
      ap (λ o. elim o [ none ↦ false | some c ↦ c == slash ])
        (get_elem?-append p (slash ∷ (name ++ t)) k)

  length-path : length path ≡ length p + 1 + length name + length t
  length-path = omega (arith, length-append p (slash ∷ (name ++ t)), length-append name t)

  stops_at-parent : 0 < length name → stops_at path (length p) ≡ true
  stops_at-parent pos =
      let e : length p + 0 ≡ length p = omega arith in
      let here : is_slash path (length p) ≡ true = rw e at (at_parent 0) in
      let inner : length p ≢ length path - 1 = omega (arith, length-path) in rw (here, ne→== inner)

  length_trailing : length t ≤ 1
  length_trailing = elim trailing [ inl e ↦ rw e (omega arith) | inr e ↦ rw e (omega arith) ]

  stops_at-after : (j : ℕ) → suc (length p) ≤ j → j < length path → stops_at path j ≡ false
  stops_at-after j low high =
      let k : ℕ = j - suc (length p) in
      let e : length p + suc k ≡ j = omega arith in
      let here : is_slash path j ≡ is_slash (name ++ t) k = rw e at (at_parent (suc k)) in
      elim (Bool-cases (ltb k (length name))) [
        | inl inside ↦ rw (here, NoSlash-is_slash name t k clean (ground arith))
        | inr outside ↦
            let last : j ≡ length path - 1 =
              let q : length name ≤ k = ground arith in
              omega (arith, length-path, length_trailing) in
            ground (arith, last)
      ]

  last-index : 0 < length name → get_last_index_of_parent_path path ≡ some (length p)
  unfolding get_last_index_of_parent_path last_index_loop
  last-index pos =
      let size : length path ≡ suc (length p) + (length name + length t) =
        omega (arith, length-path) in
      rw size (
        last_index_loop-skip path (suc (length p)) (length name + length t)
          (λ j low high. stops_at-after j low (omega arith))
        ∙ rw (stops_at-parent pos) refl)

  abbrev end_index : ℕ
  end_index = if is_slash path (length path - 1) then length path - 1 else length path

  end_index-eq : (pos : 0 < length name) → end_index - (length p + 1) ≡ length name
  end_index-eq pos = elim trailing [
    | inl e ↦
        let size : length t ≡ 0 = rw e refl in
        let at : length p + suc (length name - 1) ≡ length path - 1 = omega (arith, length-path) in
        let here : is_slash path (length path - 1) ≡ is_slash (name ++ t) (length name - 1) =
          rw at at (at_parent (suc (length name - 1))) in
        rw (here, NoSlash-is_slash name t (length name - 1) clean (omega arith))
          (omega (arith, length-path))
    | inr e ↦
        let size : length t ≡ 1 = rw e refl in
        let at : length p + suc (length name + 0) ≡ length path - 1 = omega (arith, length-path) in
        let here : is_slash path (length path - 1) ≡ is_slash (name ++ t) (length name + 0) =
          rw at at (at_parent (suc (length name + 0))) in
        let last : is_slash (name ++ t) (length name + 0) ≡ true =
          ap (λ o. elim o [ none ↦ false | some c ↦ c == slash ]) (get_elem?-append name t 0)
          ∙ rw e refl in
        rw (here, last) (omega (arith, length-path))
  ]

  -- The parent of `p/name` and of `p/name/` is `p`, or "/" if `p` is empty.
  pub copy_parent_path-append :
      0 < length name → copy_parent_path path ≡ (if length p == 0 then slash ∷ [] else p)
  unfolding copy_parent_path
  copy_parent_path-append pos = rw (last-index pos) (parent_at-append p (name ++ t))

  -- The file name of `p/name` and of `p/name/` is `name`.
  pub copy_file_name-append : 0 < length name → copy_file_name path ≡ some name
  unfolding copy_file_name
  copy_file_name-append pos =
      let nonempty : (length path == 0) ≡ false = ground (arith, length-path) in
      rw (
        last-index pos,
        nonempty,
        end_index-eq pos,
        drop-after p (name ++ t) slash,
        take-append name t,
      )
