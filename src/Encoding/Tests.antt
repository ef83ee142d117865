-- ===== src/Encoding/Tests.antt =====
-- Runs of internal/kvstore/encoding.go, and its theorems at concrete rows.
use svacara_db.Prelude.{
  ◌-◌, ◌^◌, ◌≡◌, refl, true, [], ◌∷◌, List, arith, Ordering, ok, panic, stuck, ◌≢◌, ◌>>=◌,
}
use svacara_db.Bytes.{Bytes}
use svacara_db.Bytes.Endian.{be_bytes, be_value}
use svacara_db.Bytes.Compare.{cmp}
use svacara_db.Encoding.{
  Value, zero_value, encode_value, encode_values, encode_key, decode_value, decode_values,
}
use svacara_db.Encoding.Format.{
  int_value, bytes_value, bool_value, float_value, int64, bytes, bool, float64,
}
use svacara_db.Encoding.RoundTrip.{decode-encode, decode_values-ne-stuck}
use svacara_db.Encoding.Order.{encode_key_order}

-- -5, the string 00 01 02, true and 1.0
abbrev row : List Value
row =
    int_value (2 ^ 64 - 5)
    ∷ bytes_value (0 ∷ 1 ∷ 2 ∷ [])
    ∷ bool_value true
    ∷ float_value 0x3ff0_0000_0000_0000
    ∷ []

decode-encode_example :
    (◌>>=◌ {B = List Value} (encode_values [] row) (λ input. decode_values input [])) ≡ ok row
decode-encode_example =
    decode-encode row
      (int64 _ (omega arith), (bytes _ (omega arith), (bool true, (float64 _ (omega arith), tt))))

abbrev small_key : Bytes
small_key = 0 ∷ 0 ∷ 0 ∷ 7 ∷ 1 ∷ 127 ∷ 255 ∷ 255 ∷ 255 ∷ 255 ∷ 255 ∷ 255 ∷ 251 ∷ []

encode_small : encode_key [] 7 (int_value (2 ^ 64 - 5) ∷ []) ≡ ok small_key
unfolding encode_key encode_values encode_value be_bytes
encode_small = refl

abbrev large_key : Bytes
large_key = 0 ∷ 0 ∷ 0 ∷ 7 ∷ 1 ∷ 128 ∷ 0 ∷ 0 ∷ 0 ∷ 0 ∷ 0 ∷ 0 ∷ 3 ∷ []

encode_large : encode_key [] 7 (int_value 3 ∷ []) ≡ ok large_key
unfolding encode_key encode_values encode_value be_bytes
encode_large = refl

encode_key_order_example : cmp small_key large_key ≡ Ordering.lt
encode_key_order_example =
    encode_key_order 7 7 (int_value (2 ^ 64 - 5) ∷ []) (int_value 3 ∷ []) (omega arith)
      (omega arith) (int64 _ (omega arith), tt) (int64 _ (omega arith), tt) (refl, tt) encode_small
      encode_large

-- The pattern of -0.0 comes back as a NaN.
negative_zero :
    (◌>>=◌ {B = List Value}
      (encode_values [] (float_value (2 ^ 63) ∷ []))
      (λ input. decode_values input []))
    ≡ ok (float_value (2 ^ 64 - 1) ∷ [])
unfolding encode_values encode_value decode_values decode_value be_bytes be_value
negative_zero = refl

untyped : encode_values [] (zero_value 0 ∷ []) ≡ panic
unfolding encode_values encode_value
untyped = refl

decode_values-ne-stuck_example : decode_values (1 ∷ 2 ∷ []) [] ≢ stuck
decode_values-ne-stuck_example = decode_values-ne-stuck (1 ∷ 2 ∷ []) []
