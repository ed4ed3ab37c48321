-- ===== src/Invariant.antt =====
-- Properties of the state that the functions of the program keep: a rule for each construct of the
-- monad, and `search` puts the rules together along the code.
pub mod Reads
pub mod Blocks
pub mod Inodes
pub mod Files
pub mod Requests
pub mod Serve
pub mod Looking
pub mod Region
pub mod Mounted
use beach_bytes_file_system.Base.{
  ℕ, Bool, true, false, Option, none, some, ◌≡◌, refl, if◌then◌else◌,
}
use beach_bytes_file_system.Machine.{M, Fs, pure, undefined, ◌>>=◌, ◌>>◌, get, deref}

-- a call that ends has left a state with `I`
pub data Ends {A : Type 0} (I : Fs → Type 0) : Option (A × Fs) → Type 0 where
  stuck : Ends I none
  ends : {a : A} {s : Fs} → I s → Ends I (some (a, s))

pub record Preserves {A : Type 0} (I : Fs → Type 0) (m : M A) : Type 0 where
  pub keeps : (s : Fs) → I s → Ends I (m s)

Ends-bind :
    {A B : Type 0} (I : Fs → Type 0) (f : A → M B)
    → ((a : A) → Preserves I (f a))
    → (r : Option (A × Fs)) → Ends I r
    → Ends I (elim r [ none ↦ none | some (a, s') ↦ f a s' ])
Ends-bind I f h r stuck = stuck
Ends-bind I f h r (ends i) = (h _).keeps _ i

pub Ends-if :
    {A : Type 0} {I : Fs → Type 0} (c : Bool) {r q : Option (A × Fs)}
    → Ends I r
    → Ends I q
    → Ends I (if c then r else q)
Ends-if true h k = h
Ends-if false h k = k

module _ {I : Fs → Type 0} where
  pub bind :
      {A B : Type 0} {m : M A} {f : A → M B}
      → Preserves I m
      → ((a : A) → Preserves I (f a))
      → Preserves I (m >>= f)
  bind {m} {f} h k = record { keeps = λ s i. Ends-bind I f k (m s) (h.keeps s i) }

  pub branch :
      {A : Type 0} (c : Bool) {m n : M A}
      → Preserves I m
      → Preserves I n
      → Preserves I (if c then m else n)
  branch true h k = h
  branch false h k = k

  -- where the branch is taken only when the test holds
  pub guarded :
      {A : Type 0} (c : Bool) {m n : M A}
      → (c ≡ true → Preserves I m)
      → Preserves I n
      → Preserves I (if c then m else n)
  guarded true h k = h refl
  guarded false h k = k

  pub cases :
      {A B : Type 0} (x : Option A) {m : M B} {f : A → M B}
      → Preserves I m
      → ((a : A) → Preserves I (f a))
      → Preserves I (elim x [ none ↦ m | some a ↦ f a ])
  cases none h k = h
  cases (some a) h k = k a

  pub pure_lem : {A : Type 0} {a : A} → Preserves I (pure a)
  pure_lem = record { keeps = λ s i. ends i }

  pub undefined_lem : {A : Type 0} → Preserves I (undefined {A = A})
  undefined_lem = record { keeps = λ s i. stuck }

  pub get_lem : Preserves I get
  get_lem = record { keeps = λ s i. ends i }

  pub deref_lem : {A : Type 0} (x : Option A) → Preserves I (deref x)
  deref_lem none = record { keeps = λ s i. stuck }
  deref_lem (some a) = record { keeps = λ s i. ends i }

pub ruleset steps = (bind, branch, cases, pure_lem, undefined_lem, get_lem, deref_lem)
