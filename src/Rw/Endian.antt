-- ===== src/Rw/Endian.antt =====
-- pkg/rw/integer.go: unsigned integers as big-endian bytes, and encoding/binary as it uses it.
use native.Mathlib.Nat.{pow-suc}
use data_collection.Base.{
  ℕ, zero, suc, ◌+◌, ◌*◌, ◌/◌, ◌%◌, ◌^◌, ◌<◌, ◌≡◌, refl, Bytes, [], ◌∷◌, ◌++◌, arith, length,
  length-append, take, drop, if◌then◌else◌, ltb, Outcome, ok, panic,
}

pub data RwError : Type 0 where
  eof unexpected_eof not_json bad_json short_write : RwError
  remote : Bytes → RwError

-- The last `k` base-256 digits of `v`, the most significant first.
unfoldable pub be_bytes : ℕ → ℕ → Bytes
be_bytes zero v = []
be_bytes (suc k) v = be_bytes k (v / 256) ++ (v % 256) ∷ []

unfoldable pub be_from : ℕ → Bytes → ℕ
be_from acc [] = acc
be_from acc (b ∷ bs) = be_from (acc * 256 + b) bs

abbrev pub be_value : Bytes → ℕ
be_value bs = be_from 0 bs

-- binary.BigEndian.PutUintN: writes to the front of the buffer, and panics if it is too short.
unfoldable pub put_uint : ℕ → Bytes → ℕ → Outcome RwError Bytes
put_uint k buf v = if ltb (length buf) k then panic else ok (be_bytes k v ++ drop k buf)

-- binary.BigEndian.UintN
unfoldable pub get_uint : ℕ → Bytes → Outcome RwError ℕ
get_uint k b = if ltb (length b) k then panic else ok (be_value (take k b))

-- make([]byte, n)
unfoldable pub zeros : ℕ → Bytes
zeros zero = []
zeros (suc n) = 0 ∷ zeros n

unfoldable pub uint64_to_bytes : ℕ → Outcome RwError Bytes
unfolding put_uint zeros
uint64_to_bytes i = put_uint 8 (zeros 4) i

unfoldable pub uint32_to_bytes : ℕ → Outcome RwError Bytes
unfolding put_uint zeros
uint32_to_bytes i = put_uint 4 (zeros 4) i

unfoldable pub uint16_to_bytes : ℕ → Outcome RwError Bytes
unfolding put_uint zeros
uint16_to_bytes i = put_uint 2 (zeros 2) i

unfoldable pub bytes_to_uint64 : Bytes → Outcome RwError ℕ
unfolding get_uint
bytes_to_uint64 b = get_uint 8 b

unfoldable pub bytes_to_uint32 : Bytes → Outcome RwError ℕ
unfolding get_uint
bytes_to_uint32 b = get_uint 4 b

unfoldable pub bytes_to_uint16 : Bytes → Outcome RwError ℕ
unfolding get_uint
bytes_to_uint16 b = get_uint 2 b

pub length-be_bytes : (k v : ℕ) → length (be_bytes k v) ≡ k
unfolding be_bytes
length-be_bytes zero v = refl
length-be_bytes (suc k) v =
    omega
      (arith, length-append (be_bytes k (v / 256)) ((v % 256) ∷ []), length-be_bytes k (v / 256))

be_from-append :
    (acc : ℕ) (xs : Bytes) (b : ℕ) → be_from acc (xs ++ b ∷ []) ≡ be_from acc xs * 256 + b
unfolding be_from
be_from-append acc [] b = refl
be_from-append acc (x ∷ xs) b = be_from-append (acc * 256 + x) xs b

-- A value that fits in `k` bytes is read back from them.
pub be_value-be_bytes : (k v : ℕ) → v < 256 ^ k → be_value (be_bytes k v) ≡ v
unfolding be_bytes be_from
be_value-be_bytes zero v h = omega arith
be_value-be_bytes (suc k) v h =
    let fits : v / 256 < 256 ^ k = omega (arith, pow-suc 256 k) in
    omega
      (arith, be_from-append 0 (be_bytes k (v / 256)) (v % 256), be_value-be_bytes k (v / 256) fits)
