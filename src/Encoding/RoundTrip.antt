-- ===== src/Encoding/RoundTrip.antt =====
-- `DecodeValues` reads back what `EncodeValues` wrote, and ends on every input.
use svacara_db.Prelude.{
  ℕ, zero, suc, ◌+◌, ◌/◌, ◌^◌, ◌≤◌, ◌<◌, ◌≡◌, ◌≢◌, refl, ap, ◌∙◌, arith, true, false, List, [], ◌∷◌,
  ◌++◌, append-nil, append_assoc, All, length, length-append, length-drop, drop, take-append,
  drop-append, ◌==◌, if◌then◌else◌, Bool-cases, Option, none, some, inl, inr, ◌⊎◌, Outcome, ok,
  panic, stuck, ◌>>=◌,
}
use svacara_db.Bytes.{Bytes}
use svacara_db.Bytes.Endian.{be_bytes, length-be_bytes, be_value-be_bytes}
use svacara_db.Encoding.{
  Value, type_int64, type_bytes, type_bool, type_float64, flip_top, complement, escape_bytes,
  read_u64, encode_values, decode_bytes, decode_bool, decode_value, decode_loop, decode_values,
}
use svacara_db.Encoding.Format.{
  IsCanonical, int64, bytes, bool, float64, IsRegular, float_word, body, encoding,
  encode_values-encoding,
}
use svacara_db.Encoding.Escape.{unescape-escape, index_byte-escape}

read_u64-be_bytes :
    (u : ℕ) (rest : Bytes) → u < 2 ^ 64 → read_u64 (be_bytes 8 u ++ rest) ≡ ok (u, rest)
read_u64-be_bytes u rest h =
    rw
      (
        take-append 8 (be_bytes 8 u) rest (length-be_bytes 8 u),
        drop-append 8 (be_bytes 8 u) rest (length-be_bytes 8 u),
        be_value-be_bytes 8 u (omega arith),
        length-append,
        length-be_bytes 8 u,
      )
      (ground arith)

append-cons : (xs : Bytes) (b : ℕ) (ys : Bytes) → xs ++ b ∷ ys ≡ (xs ++ b ∷ []) ++ ys
append-cons xs b ys = rw append_assoc

drop-escape :
    (s rest : Bytes) → drop (length (escape_bytes s) + 1) (escape_bytes s ++ 0 ∷ rest) ≡ rest
drop-escape s rest = rw (append-cons (escape_bytes s) 0 rest) (
    drop-append (length (escape_bytes s) + 1) (escape_bytes s ++ 0 ∷ []) rest
      (length-append (escape_bytes s) (0 ∷ [])))

flip_top_twice : (u : ℕ) → u < 2 ^ 64 → flip_top (flip_top u) ≡ u
flip_top_twice u h = omega arith

float_word_back :
    (u : ℕ)
    → IsRegular u
    → (if float_word u / 2 ^ 63 == 0 then complement (float_word u) else flip_top (float_word u))
      ≡ u
float_word_back u h = ground arith

pub decode_value-body :
    (v : Value) (rest : Bytes) → IsCanonical v → decode_value v.type (body v ++ rest) ≡ ok (v, rest)
unfolding decode_value body
decode_value-body v rest (int64 i h) =
    rw (read_u64-be_bytes (flip_top i) rest (omega arith), flip_top_twice i h)
decode_value-body v rest (bytes s h) =
    rw (← append-cons (escape_bytes s) 0 rest, index_byte-escape s rest)
      (rw (
        take-append (length (escape_bytes s)) (escape_bytes s) (0 ∷ rest) refl,
        drop-escape s rest,
        unescape-escape s,
      ))
decode_value-body v rest (bool true) = refl
decode_value-body v rest (bool false) = refl
decode_value-body v rest (float64 u h) =
    rw (read_u64-be_bytes (float_word u) rest (ground arith), float_word_back u h)

decode_loop_step :
    (v : Value) (vs out : List Value) (fuel : ℕ)
    → IsCanonical v
    → decode_loop (suc fuel) (encoding (v ∷ vs)) out
      ≡ decode_loop fuel (encoding vs) (out ++ v ∷ [])
unfolding decode_loop encoding
decode_loop_step v vs out fuel hv = rw (decode_value-body v (encoding vs) hv)

pub decode_loop-encoding :
    (vs out : List Value) (fuel : ℕ)
    → All IsCanonical vs
    → length (encoding vs) ≤ fuel
    → decode_loop fuel (encoding vs) out ≡ ok (out ++ vs)
unfolding encoding
decode_loop-encoding [] out fuel h hf = rw append-nil (unfold decode_loop in refl)
decode_loop-encoding (v ∷ vs) out zero h hf = absurd (omega arith)
decode_loop-encoding (v ∷ vs) out (suc fuel) (hv, hvs) hf =
    decode_loop_step v vs out fuel hv
    ∙ decode_loop-encoding vs (out ++ v ∷ []) fuel hvs
        (omega (arith, length-append (body v) (encoding vs)))
    ∙ ap ok (append_assoc out (v ∷ []) vs)

pub decode_values-encoding :
    (vs : List Value) → All IsCanonical vs → decode_values (encoding vs) [] ≡ ok vs
unfolding decode_values
decode_values-encoding vs h = decode_loop-encoding vs [] (length (encoding vs)) h (omega arith)

-- `DecodeValues` gives back every list of values that `EncodeValues` accepts: int64, byte strings,
-- Booleans, and float64 other than -0.0 and NaN with a clear sign bit.
pub decode-encode :
    (vs : List Value)
    → All IsCanonical vs
    → (encode_values [] vs >>= λ input. decode_values input []) ≡ ok vs
unfolding decode_values
decode-encode vs h =
    rw (encode_values-encoding [] vs h) (decode_loop-encoding vs [] _ h (omega arith))

read_shrinks :
    (input : Bytes) (mk : ℕ → Value) (v : Value) (rest : Bytes)
    → ◌>>=◌ {B = Value × Bytes} (read_u64 input) (λ r. ok (mk r.0, r.1)) ≡ ok (v, rest)
    → length rest ≤ length input
read_shrinks input mk v rest h = ground (arith, length-drop 8 input)

bytes_shrinks :
    (input : Bytes) (i : Option ℕ) (v : Value) (rest : Bytes)
    → decode_bytes input i ≡ ok (v, rest)
    → length rest ≤ length input
unfolding decode_bytes
bytes_shrinks input none v rest h = ground arith
bytes_shrinks input (some i) v rest h = ground (arith, length-drop (i + 1) input)

bool_shrinks :
    (input : Bytes) (v : Value) (rest : Bytes)
    → decode_bool input ≡ ok (v, rest)
    → length rest ≤ length input
unfolding decode_bool
bool_shrinks [] v rest h = ground arith
bool_shrinks (b ∷ bs) v rest h = ground arith

-- A round of the loop leaves no more input than it had.
decode_value_shrinks :
    (t : ℕ) (input : Bytes) (v : Value) (rest : Bytes)
    → decode_value t input ≡ ok (v, rest)
    → length rest ≤ length input
unfolding decode_value
decode_value_shrinks t input v rest h = elim (Bool-cases (t == type_int64)) [
  | inl e ↦ read_shrinks input _ v rest (rw e at h)
  | inr e ↦ elim (Bool-cases (t == type_bytes)) [
    | inl f ↦ bytes_shrinks input _ v rest (rw (e, f) at h)
    | inr f ↦ elim (Bool-cases (t == type_bool)) [
      | inl g ↦ bool_shrinks input v rest (rw (e, f, g) at h)
      | inr g ↦ elim (Bool-cases (t == type_float64)) [
        | inl k ↦ read_shrinks input _ v rest (rw (e, f, g, k) at h)
        | inr k ↦ absurd (ground (arith, rw (e, f, g, k) at h))
      ]
    ]
  ]
]

decode_value-ne-stuck : (t : ℕ) (input : Bytes) → decode_value t input ≢ stuck
unfolding decode_value
decode_value-ne-stuck t [] h = ground arith
decode_value-ne-stuck t (b ∷ bs) h = ground arith

Outcome-cases : {A : Type 0} (o : Outcome A) → o ≢ stuck → ((a : A) × (o ≡ ok a)) ⊎ (o ≡ panic)
Outcome-cases (ok a) h = inl (a, refl)
Outcome-cases panic h = inr refl
Outcome-cases stuck h = absurd (h refl)

decode_loop-ne-stuck :
    (fuel : ℕ) (input : Bytes) (out : List Value)
    → length input ≤ fuel
    → decode_loop fuel input out ≢ stuck
unfolding decode_loop
decode_loop-ne-stuck fuel [] out h = λ e. cc
decode_loop-ne-stuck zero (t ∷ input) out h = absurd (omega arith)
decode_loop-ne-stuck (suc fuel) (t ∷ input) out h =
    elim (Outcome-cases (decode_value t input) (decode_value-ne-stuck t input)) [
      | inl ((v, rest), e) ↦ rw e (
          decode_loop-ne-stuck fuel rest (out ++ v ∷ [])
            (omega (arith, decode_value_shrinks t input v rest e)))
      | inr e ↦ rw e (λ p. cc)
    ]

-- The loop of `DecodeValues` ends on every input: it returns values or panics.
pub decode_values-ne-stuck : (input : Bytes) (out : List Value) → decode_values input out ≢ stuck
unfolding decode_values
decode_values-ne-stuck input out = decode_loop-ne-stuck (length input) input out (omega arith)
