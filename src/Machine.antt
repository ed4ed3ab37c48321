-- ===== src/Machine.antt =====
-- The state that the program's globals and its device make up, and the monad its functions run in.
-- `none` is undefined behaviour of the C++ program: a null or dangling pointer that is dereferenced,
-- or an access outside a buffer. The device is the kernel's: what it refuses to read or write is a
-- part of the state that no function changes, so a call fails or succeeds as the device says.
use beach_bytes_file_system.Base.{ℕ, Bool, Option, none, some, ◌==◌, if◌then◌else◌}
use beach_bytes_file_system.Bytes.{Bytes}
use beach_bytes_file_system.Config.{Superblock}

-- what `open`, `lseek`, `read`, `write` and `close` of /dev/vdb answer
pub record Device : Type 0 where
  pub opens : Bool
  pub closes : Bool
  pub readable : ℕ → Bool
  pub writable : ℕ → Bool

-- the pointer `fs_superblock`
pub data SuperblockPtr : Type 0 where
  null : SuperblockPtr
  dangling : SuperblockPtr
  live : Superblock → SuperblockPtr

pub record Fs : Type 0 where
  pub device : Device
  pub disk : ℕ → Bytes
  pub fs_superblock : SuperblockPtr
  pub root_dir_inode_num : ℕ
  -- what `time(NULL)` answers
  pub clock : ℕ

abbrev pub M : Type 0 → Type 0
M A = Fs → Option (A × Fs)

abbrev pub pure : {A : Type 0} → A → M A
pure a s = some (a, s)

abbrev pub undefined : {A : Type 0} → M A
undefined s = none

infixl 5 ◌>>=◌ ◌>>◌
abbrev pub ◌>>=◌ : {A B : Type 0} → M A → (A → M B) → M B
◌>>=◌ m f s = elim (m s) [ none ↦ none | some (a, s') ↦ f a s' ]

abbrev pub ◌>>◌ : {B : Type 0} → M (Unit {0}) → M B → M B
m >> k = m >>= λ _. k

abbrev pub get : M Fs
get s = some (s, s)

-- `*p` for a pointer that a function returned
abbrev pub deref : {A : Type 0} → Option A → M A
deref none = undefined
deref (some a) = pure a

-- `*fs_superblock`
abbrev pub superblock_of : SuperblockPtr → Option Superblock
superblock_of null = none
superblock_of dangling = none
superblock_of (live sb) = some sb

abbrev pub superblock : M Superblock
superblock s = deref (superblock_of s.fs_superblock) s

-- `fs_superblock->... = ...`, once the pointer has been read through
abbrev pub set_superblock : Superblock → M (Unit {0})
set_superblock sb s = some (tt, record s { fs_superblock = live sb })

abbrev pub set_block : (ℕ → Bytes) → ℕ → Bytes → ℕ → Bytes
set_block d id b j = if j == id then b else d j

-- Total correctness of a call: no undefined behaviour, and a postcondition.
pub data Returns {A : Type 0} (P : A → Fs → Type 0) : Option (A × Fs) → Type 0 where
  returns : {a : A} {s : Fs} → P a s → Returns P (some (a, s))

pub Returns-mono :
    {A : Type 0} {P Q : A → Fs → Type 0} {r : Option (A × Fs)}
    → ((a : A) (s : Fs) → P a s → Q a s)
    → Returns P r
    → Returns Q r
Returns-mono weaken (returns p) = returns (weaken _ _ p)

pub Returns-bind :
    {A B : Type 0} {P : A → Fs → Type 0} {Q : B → Fs → Type 0} (m : M A) (f : A → M B) (s : Fs)
    → Returns P (m s)
    → ((a : A) (s' : Fs) → P a s' → Returns Q (f a s'))
    → Returns Q ((m >>= f) s)
Returns-bind {P} {Q} m f s r next = go (m s) r
  where
    go :
        (x : Option (_ × Fs))
        → Returns P x
        → Returns Q (elim x [ none ↦ none | some (a, s') ↦ f a s' ])
    go x (returns p) = next _ _ p
