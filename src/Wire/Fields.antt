-- ===== src/Wire/Fields.antt =====
-- Readers of little-endian fields, as encoding/binary reads the structs of types/types.go, and the
-- bytes that a field of a packed C struct of bpf/trace.c has.
use native.Mathlib.Nat.{pow-suc}
use amon.Common.{
  ℕ, zero, suc, ◌+◌, ◌-◌, ◌*◌, ◌/◌, ◌%◌, ◌^◌, ◌≤◌, ◌<◌, ◌≡◌, refl, ℤ, signed, low_bits, [], ◌∷◌,
  ◌++◌, Option, none, some, Bytes, arith, length, pos_part, neg_part,
}

abbrev pub Reader : Type 0 → Type 0
Reader A = Bytes → Option (A × Bytes)

abbrev pub followed_by : {A B : Type 0} → Option (A × Bytes) → (A → Reader B) → Option (B × Bytes)
followed_by none f = none
followed_by (some (a, rest)) f = f a rest

infixl 5 ◌>>=◌
abbrev pub ◌>>=◌ : {A B : Type 0} → Reader A → (A → Reader B) → Reader B
◌>>=◌ r f s = followed_by (r s) f

abbrev pub pure : {A : Type 0} → A → Reader A
pure a s = some (a, s)

-- An unsigned field of `w` bytes.
unfoldable pub read_uint : ℕ → Reader ℕ
read_uint zero s = some (0, s)
read_uint (suc w) [] = none
read_uint (suc w) (b ∷ s) = elim (read_uint w s) [
  | none ↦ none
  | some (n, rest) ↦ some (b + 256 * n, rest)
]

-- A signed field of `w` bytes: the same bits in two's complement.
unfoldable pub read_int : ℕ → Reader ℤ
read_int w = read_uint w >>= λ n. pure (signed (8 * w - 1) n)

-- A `[w]byte` field.
unfoldable pub read_raw : ℕ → Reader Bytes
read_raw zero s = some ([], s)
read_raw (suc w) [] = none
read_raw (suc w) (b ∷ s) = elim (read_raw w s) [
  | none ↦ none
  | some (bs, rest) ↦ some (b ∷ bs, rest)
]

-- The bytes of an unsigned field of a packed struct.
unfoldable pub uint_bytes : ℕ → ℕ → Bytes
uint_bytes zero n = []
uint_bytes (suc w) n = n % 256 ∷ uint_bytes w (n / 256)

unfoldable pub int_bytes : ℕ → ℤ → Bytes
int_bytes w z = uint_bytes w (low_bits (8 * w) z)

pub read_uint-uint_bytes :
    (w n : ℕ) (rest : Bytes) → n < 256 ^ w → read_uint w (uint_bytes w n ++ rest) ≡ some (n, rest)
unfolding read_uint uint_bytes
read_uint-uint_bytes zero n rest h = let e : 0 ≡ n = omega arith in rw e
read_uint-uint_bytes (suc w) n rest h =
    let bound : n < 256 ^ w * 256 = rw pow-suc at h in
    let small : n / 256 < 256 ^ w = omega arith in
    let whole : n % 256 + 256 * (n / 256) ≡ n = omega arith in
    rw (read_uint-uint_bytes w (n / 256) rest small, whole)

pub read_raw-append : (bs rest : Bytes) → read_raw (length bs) (bs ++ rest) ≡ some (bs, rest)
unfolding read_raw
read_raw-append [] rest = refl
read_raw-append (b ∷ bs) rest = rw (read_raw-append bs rest)

pub read_raw_lem :
    (w : ℕ) (bs rest : Bytes) → length bs ≡ w → read_raw w (bs ++ rest) ≡ some (bs, rest)
read_raw_lem w bs rest e = rw (← e) (read_raw-append bs rest)

-- The range of a signed integer of `k + 1` bits.
abbrev pub IsInt : ℕ → ℤ → Type 0
IsInt k z = (pos_part z < 2 ^ k) × (neg_part z ≤ 2 ^ k)

pub read_int-int_bytes_4 :
    (z : ℤ) (rest : Bytes) → IsInt 31 z → read_int 4 (int_bytes 4 z ++ rest) ≡ some (z, rest)
unfolding read_int int_bytes
read_int-int_bytes_4 z rest h =
    let back : signed 31 (low_bits 32 z) ≡ z = ground arith in
    let fits : low_bits 32 z < 256 ^ 4 = ground arith in
    rw (read_uint-uint_bytes 4 (low_bits 32 z) rest fits, back)

pub read_int-int_bytes_8 :
    (z : ℤ) (rest : Bytes) → IsInt 63 z → read_int 8 (int_bytes 8 z ++ rest) ≡ some (z, rest)
unfolding read_int int_bytes
read_int-int_bytes_8 z rest h =
    let back : signed 63 (low_bits 64 z) ≡ z = ground arith in
    let fits : low_bits 64 z < 256 ^ 8 = ground arith in
    rw (read_uint-uint_bytes 8 (low_bits 64 z) rest fits, back)
