-- ===== src/Encoding/Format.antt =====
-- What internal/kvstore/encoding.go writes, value by value, and the values that it can write.
use svacara_db.Prelude.{
  ℕ, ◌^◌, ◌≤◌, ◌<◌, ◌≡◌, ◌≢◌, Bool, List, [], ◌∷◌, ◌++◌, append-nil, append_assoc, All, ◌==◌,
  if◌then◌else◌, ok,
}
use svacara_db.Bytes.{Bytes, IsBytes}
use svacara_db.Bytes.Endian.{be_bytes}
use svacara_db.Encoding.{
  Value, zero_value, type_int64, type_bytes, type_bool, type_float64, flip_top, complement, ge_zero,
  escape_bytes, encode_value, encode_values, encode_key,
}

abbrev pub int_value : ℕ → Value
int_value i = record (zero_value type_int64) { i64 = i }

abbrev pub bytes_value : Bytes → Value
bytes_value s = record (zero_value type_bytes) { str = s }

abbrev pub bool_value : Bool → Value
bool_value b = record (zero_value type_bool) { bool = b }

abbrev pub float_value : ℕ → Value
float_value u = record (zero_value type_float64) { f64 = u }

-- A float64 that is neither -0.0 nor a NaN with a clear sign bit.
abbrev pub IsRegular : ℕ → Type 0
IsRegular u = (u < 2 ^ 64) × (u ≢ 2 ^ 63) × ((u < 2 ^ 63) → u ≤ 0x7ff0_0000_0000_0000)

-- A value of one of the four types, the fields of the other types left at zero.
pub data IsCanonical : Value → Type 0 where
  int64 : (i : ℕ) → i < 2 ^ 64 → IsCanonical (int_value i)
  bytes : (s : Bytes) → IsBytes s → IsCanonical (bytes_value s)
  bool : (b : Bool) → IsCanonical (bool_value b)
  float64 : (u : ℕ) → IsRegular u → IsCanonical (float_value u)

abbrev pub float_word : ℕ → ℕ
float_word u = if ge_zero u then flip_top u else complement u

-- The bytes behind the type byte.
unfoldable pub body : Value → Bytes
body v =
    if v.type == type_int64
    then be_bytes 8 (flip_top v.i64)
    else if v.type == type_bytes
    then escape_bytes v.str ++ 0 ∷ []
    else if v.type == type_bool
    then (if v.bool then 1 else 0) ∷ []
    else be_bytes 8 (float_word v.f64)

unfoldable pub encoding : List Value → Bytes
encoding [] = []
encoding (v ∷ vs) = v.type ∷ (body v ++ encoding vs)

snoc-append : (out xs : Bytes) (t : ℕ) → (out ++ t ∷ []) ++ xs ≡ out ++ t ∷ xs
snoc-append out xs t = rw append_assoc

pub encode_value-body :
    (out : Bytes) (v : Value) → IsCanonical v → encode_value out v ≡ ok (out ++ v.type ∷ body v)
unfolding encode_value body
encode_value-body out v (int64 i h) = rw snoc-append
encode_value-body out v (bytes s h) = rw (append_assoc, append_assoc)
encode_value-body out v (bool b) = rw snoc-append
encode_value-body out v (float64 u h) = rw snoc-append

-- `EncodeValues` appends the encodings of the values to its buffer.
pub encode_values-encoding :
    (out : Bytes) (vs : List Value)
    → All IsCanonical vs
    → encode_values out vs ≡ ok (out ++ encoding vs)
unfolding encode_values encoding
encode_values-encoding out [] h = rw append-nil
encode_values-encoding out (v ∷ vs) (hv, hvs) = rw (
  encode_value-body out v hv,
  encode_values-encoding (out ++ v.type ∷ body v) vs hvs,
  append_assoc,
)

pub encode_key-encoding :
    (prefix : ℕ) (vs : List Value)
    → All IsCanonical vs
    → encode_key [] prefix vs ≡ ok (be_bytes 4 prefix ++ encoding vs)
unfolding encode_key
encode_key-encoding prefix vs h = encode_values-encoding (be_bytes 4 prefix) vs h
