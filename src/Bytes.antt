-- ===== src/Bytes.antt =====
-- Raw memory: a buffer of bytes, with the casts, `memcpy` and `memset` that the program applies to
-- it. A machine word is the ℕ of its bit pattern, little-endian as on the x86-64 the program runs
-- on; `sType` is `int64_t`, so a negative value is a pattern of 2 ^ 63 or more.
pub mod Laws
use beach_bytes_file_system.Base.{
  ℕ, zero, suc, ◌+◌, ◌-◌, ◌*◌, ◌/◌, ◌%◌, ◌^◌, Bool, List, [], ◌∷◌, ◌&&◌, ltb, leb, ◌==◌,
  if◌then◌else◌,
}

abbrev pub Bytes : Type 0
Bytes = ℕ → ℕ

-- memset(buffer, 0, BLOCK_SIZE)
abbrev pub zeros : Bytes
zeros = λ _. 0

abbrev pub put : Bytes → ℕ → ℕ → Bytes
put b k v j = if j == k then v else b j

-- the `n`-byte integer at offset `k`
unfoldable pub load : ℕ → Bytes → ℕ → ℕ
load zero b k = 0
load (suc n) b k = b k + 256 * load n b (k + 1)

unfoldable pub store : ℕ → Bytes → ℕ → ℕ → Bytes
store zero b k v = b
store (suc n) b k v = put (store n b (k + 1) (v / 256)) k (v % 256)

-- memcpy(to + at, src + start, n)
unfoldable pub copy : Bytes → ℕ → Bytes → ℕ → ℕ → Bytes
copy b at src start n j = if leb at j && ltb j (at + n) then src (j - at + start) else b j

-- `sType` arithmetic and order
abbrev pub minus_one : ℕ
minus_one = 18446744073709551615

abbrev pub add64 : ℕ → ℕ → ℕ
add64 a b = (a + b) % 2 ^ 64

abbrev pub sub64 : ℕ → ℕ → ℕ
sub64 a b = (a + 2 ^ 64 - b % 2 ^ 64) % 2 ^ 64

-- signed `a < b`
abbrev pub lt64 : ℕ → ℕ → Bool
lt64 a b = ltb ((a + 2 ^ 63) % 2 ^ 64) ((b + 2 ^ 63) % 2 ^ 64)

-- signed `a <= b`
abbrev pub le64 : ℕ → ℕ → Bool
le64 a b = leb ((a + 2 ^ 63) % 2 ^ 64) ((b + 2 ^ 63) % 2 ^ 64)

-- a C string as the bytes before its NUL, written at offset `k`
unfoldable pub write_bytes : Bytes → ℕ → List ℕ → Bytes
write_bytes b k [] = b
write_bytes b k (c ∷ cs) = put (write_bytes b (k + 1) cs) k c

unfoldable pub read_bytes : Bytes → ℕ → ℕ → List ℕ
read_bytes b k zero = []
read_bytes b k (suc n) = b k ∷ read_bytes b (k + 1) n
