-- ===== src/Encoding.antt =====
-- internal/kvstore/types.go and internal/kvstore/encoding.go: values, and the encoding of keys and
-- rows. A Go int64 and a float64 are their 64-bit patterns. An input slice has no spare capacity, so
-- `in[:8]` of a shorter slice panics.
pub mod Format
pub mod Escape
pub mod RoundTrip
pub mod Order
mod Tests
use svacara_db.Prelude.{
  ℕ, zero, suc, ◌+◌, ◌-◌, ◌/◌, ◌%◌, ◌^◌, Bool, true, false, not, ◌||◌, Option, none, some, List, [],
  ◌∷◌, ◌++◌, length, take, drop, ltb, leb, ◌==◌, if◌then◌else◌, Outcome, ok, panic, stuck, ◌>>=◌,
}
use svacara_db.Prelude.Int.{ℤ, pos, negsuc, eq_ℤ}
use svacara_db.Bytes.{Bytes}
use svacara_db.Bytes.Endian.{be_bytes, be_value}

-- `ValueType` and its constants.
abbrev pub type_int64 : ℕ
type_int64 = 1

abbrev pub type_bytes : ℕ
type_bytes = 2

abbrev pub type_bool : ℕ
type_bool = 3

abbrev pub type_float64 : ℕ
type_float64 = 4

pub record Value : Type 0 where
  pub type : ℕ
  pub i64 : ℕ
  pub str : Bytes
  pub bool : Bool
  pub f64 : ℕ

-- Go's zero value `Value{Type: t}`.
abbrev pub zero_value : ℕ → Value
zero_value t = record { type = t; i64 = 0; str = []; bool = false; f64 = 0 }

unfoldable pub type_by_col_type : ℕ → ℕ
type_by_col_type ct =
    if ct == 1
    then type_int64
    else if ct == 2
    then type_bytes
    else if ct == 3
    then type_bool
    else if ct == 4
    then type_float64
    else 0

-- `u ^ (uint64(1) << 63)`: adding 2 ^ 63 modulo 2 ^ 64 inverts the top bit alone.
abbrev pub flip_top : ℕ → ℕ
flip_top u = (u + 2 ^ 63) % 2 ^ 64

-- `^u`
abbrev pub complement : ℕ → ℕ
complement u = 2 ^ 64 - 1 - u

-- `f >= 0` on the pattern of a float64: false on every NaN, true on both zeros.
abbrev pub ge_zero : ℕ → Bool
ge_zero bits = leb bits 0x7ff0_0000_0000_0000 || (bits == 2 ^ 63)

unfoldable pub escape_bytes : Bytes → Bytes
escape_bytes [] = []
escape_bytes (b ∷ bs) =
    (if b == 0 then 1 ∷ 1 ∷ [] else if b == 1 then 1 ∷ 2 ∷ [] else b ∷ []) ++ escape_bytes bs

-- A byte 1 at the end, or before a byte other than 1 and 2, stays.
unfoldable pub unescape_bytes : Bytes → Bytes
unescape_bytes [] = []
unescape_bytes (b ∷ []) = b ∷ []
unescape_bytes (b ∷ c ∷ rest) =
    let pair = unescape_bytes rest in
    let single = b ∷ unescape_bytes (c ∷ rest) in
    if b == 1 then (if c == 1 then 0 ∷ pair else if c == 2 then 1 ∷ pair else single) else single

-- One round of the loop of `EncodeValues`: the type byte, then the value by its type.
unfoldable pub encode_value : Bytes → Value → Outcome Bytes
encode_value out v =
    let out' = out ++ v.type ∷ [] in
    if v.type == type_int64
    then ok (out' ++ be_bytes 8 (flip_top v.i64))
    else if v.type == type_bytes
    then ok ((out' ++ escape_bytes v.str) ++ 0 ∷ [])
    else if v.type == type_bool
    then ok (out' ++ (if v.bool then 1 else 0) ∷ [])
    else if v.type == type_float64
    then ok (out' ++ be_bytes 8 (if ge_zero v.f64 then flip_top v.f64 else complement v.f64))
    else panic

unfoldable pub encode_values : Bytes → List Value → Outcome Bytes
encode_values out [] = ok out
encode_values out (v ∷ vs) = encode_value out v >>= λ out'. encode_values out' vs

unfoldable pub encode_key : Bytes → ℕ → List Value → Outcome Bytes
encode_key out prefix vals = encode_values (out ++ be_bytes 4 prefix) vals

unfoldable pub encode_key_partial : Bytes → ℕ → List Value → ℤ → Outcome Bytes
encode_key_partial out prefix vals cmp = encode_key out prefix vals >>= λ key.
    ok (if eq_ℤ cmp (pos 1) || eq_ℤ cmp (negsuc 2) then key ++ 0xff ∷ [] else key)

-- `bytes.IndexByte`; `none` is its -1.
abbrev pub index_byte : Bytes → ℕ → Option ℕ
index_byte [] c = none
index_byte (b ∷ bs) c =
    if b == c then some 0 else elim (index_byte bs c) [ none ↦ none | some i ↦ some (suc i) ]

-- `binary.BigEndian.Uint64(in[:8])`, with what is left of the input.
abbrev pub read_u64 : Bytes → Outcome (ℕ × Bytes)
read_u64 input = if ltb (length input) 8 then panic else ok (be_value (take 8 input), drop 8 input)

pub decode_bytes : Bytes → Option ℕ → Outcome (Value × Bytes)
decode_bytes input none = panic
decode_bytes input (some idx) =
    ok (
      record (zero_value type_bytes) { str = unescape_bytes (take idx input) },
      drop (idx + 1) input,
    )

pub decode_bool : Bytes → Outcome (Value × Bytes)
decode_bool [] = panic
decode_bool (b ∷ rest) = ok (record (zero_value type_bool) { bool = not (b == 0) }, rest)

-- One round of the loop of `DecodeValues` behind the type byte `t`.
unfoldable pub decode_value : ℕ → Bytes → Outcome (Value × Bytes)
unfolding decode_bytes decode_bool
decode_value t input =
    if t == type_int64
    then (read_u64 input >>= λ r. ok (record (zero_value type_int64) { i64 = flip_top r.0 }, r.1))
    else if t == type_bytes
    then decode_bytes input (index_byte input 0)
    else if t == type_bool
    then decode_bool input
    else if t == type_float64
    then (read_u64 input >>= λ r. ok (
      record (zero_value type_float64) {
        f64 = if r.0 / 2 ^ 63 == 0 then complement r.0 else flip_top r.0;
      },
      r.1,
    ))
    else panic

unfoldable pub decode_loop : ℕ → Bytes → List Value → Outcome (List Value)
decode_loop fuel [] out = ok out
decode_loop zero (t ∷ input) out = stuck
decode_loop (suc fuel) (t ∷ input) out =
    decode_value t input >>= λ r. decode_loop fuel r.1 (out ++ r.0 ∷ [])

-- Each round takes at least the type byte, so the length of the input is fuel enough.
unfoldable pub decode_values : Bytes → List Value → Outcome (List Value)
unfolding decode_loop
decode_values input out = decode_loop (length input) input out
