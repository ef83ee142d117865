-- ===== src/Encoding/Order.antt =====
-- Encoded keys compare as byte strings the way their prefixes and values compare.
use svacara_db.Prelude.{
  ℕ, ◌-◌, ◌^◌, ◌<◌, ◌≡◌, refl, ◌∙◌, arith, Bool, true, false, List, [], ◌∷◌, ◌++◌, append-nil,
  append_assoc, All, ltb, ◌==◌, if◌then◌else◌, compare, Ordering, ok,
}
use svacara_db.Prelude.Int.{ℤ, pos, negsuc, compare_ℤ, signed64}
use svacara_db.Bytes.{Bytes}
use svacara_db.Bytes.Endian.{be_bytes}
use svacara_db.Bytes.Compare.{cmp, cmp_refl, then_cmp, then_cmp_assoc, cmp-cons, cmp-be_bytes}
use svacara_db.Encoding.{Value, type_int64, type_bytes, type_bool, flip_top, encode_key}
use svacara_db.Encoding.Format.{
  IsCanonical, int64, bytes, bool, float64, IsRegular, float_word, body, encoding,
  encode_key-encoding,
}
use svacara_db.Encoding.Escape.{cmp-escape}

abbrev bool_rank : Bool → ℕ
bool_rank false = 0
bool_rank true = 1

-- The order of IEEE 754 on patterns that are neither NaN nor -0.0: sign and magnitude.
abbrev float_rank : ℕ → ℤ
float_rank u = if ltb u (2 ^ 63) then pos u else negsuc (u - 2 ^ 63 - 1)

-- The order of two values of one type: of signed integers, of byte strings, false before true, of
-- floating-point numbers.
abbrev pub value_cmp : Value → Value → Ordering
value_cmp v w =
    if v.type == type_int64
    then compare_ℤ (signed64 v.i64) (signed64 w.i64)
    else if v.type == type_bytes
    then cmp v.str w.str
    else if v.type == type_bool
    then compare (bool_rank v.bool) (bool_rank w.bool)
    else compare_ℤ (float_rank v.f64) (float_rank w.f64)

-- Two rows of the same column types, in the order of their first different values.
abbrev pub values_cmp : List Value → List Value → Ordering
values_cmp [] ws = Ordering.eq
values_cmp (v ∷ vs) [] = Ordering.eq
values_cmp (v ∷ vs) (w ∷ ws) = then_cmp (value_cmp v w) (values_cmp vs ws)

abbrev pub SameTypes : List Value → List Value → Type 0
SameTypes [] [] = Unit {0}
SameTypes [] (w ∷ ws) = ⊥
SameTypes (v ∷ vs) [] = ⊥
SameTypes (v ∷ vs) (w ∷ ws) = (v.type ≡ w.type) × SameTypes vs ws

int_order :
    (a b : ℕ)
    → a < 2 ^ 64
    → b < 2 ^ 64
    → compare (flip_top a) (flip_top b) ≡ compare_ℤ (signed64 a) (signed64 b)
int_order a b ha hb = ground arith

float_order :
    (a b : ℕ)
    → IsRegular a
    → IsRegular b
    → compare (float_word a) (float_word b) ≡ compare_ℤ (float_rank a) (float_rank b)
float_order a b ha hb = ground arith

cmp-body :
    (v w : Value) (r s : Bytes)
    → IsCanonical v
    → IsCanonical w
    → v.type ≡ w.type
    → cmp (body v ++ r) (body w ++ s) ≡ then_cmp (value_cmp v w) (cmp r s)
unfolding body
cmp-body v w r s (int64 i h) (int64 j k) e =
    cmp-be_bytes 8 (flip_top i) (flip_top j) r s (omega arith) (omega arith)
    ∙ rw (int_order i j h k)
cmp-body v w r s (bytes a h) (bytes b k) e = rw (append_assoc, append_assoc) (cmp-escape a b r s)
cmp-body v w r s (bool a) (bool b) e = rw cmp-cons (ground arith)
cmp-body v w r s (float64 i h) (float64 j k) e =
    cmp-be_bytes 8 (float_word i) (float_word j) r s (ground arith) (ground arith)
    ∙ rw (float_order i j h k)
cmp-body v w r s _ _ e = absurd (ground arith)

-- Rows of the same column types, whatever follows them.
cmp-encoding :
    (vs ws : List Value) (r s : Bytes)
    → All IsCanonical vs
    → All IsCanonical ws
    → SameTypes vs ws
    → cmp (encoding vs ++ r) (encoding ws ++ s) ≡ then_cmp (values_cmp vs ws) (cmp r s)
unfolding encoding
cmp-encoding [] [] r s hv hw e = refl
cmp-encoding [] (w ∷ ws) r s hv hw e = absurd e
cmp-encoding (v ∷ vs) [] r s hv hw e = absurd e
cmp-encoding (v ∷ vs) (w ∷ ws) r s (hv, hvs) (hw, hws) (e, es) =
    rw (append_assoc, append_assoc, cmp-cons)
      (rw
        (
          cmp-body v w (encoding vs ++ r) (encoding ws ++ s) hv hw e,
          cmp-encoding vs ws r s hvs hws es,
          then_cmp_assoc,
        )
        (ground arith))

then_cmp-eq : (o : Ordering) → then_cmp o Ordering.eq ≡ o
then_cmp-eq o = ground arith

cmp-rows :
    (vs ws : List Value)
    → All IsCanonical vs
    → All IsCanonical ws
    → SameTypes vs ws
    → cmp (encoding vs) (encoding ws) ≡ values_cmp vs ws
cmp-rows vs ws hv hw e =
    rw (append-nil, append-nil, cmp_refl, then_cmp-eq) at (cmp-encoding vs ws [] [] hv hw e)

-- The keys that `EncodeKey` makes from two prefixes below 2 ^ 32 and two rows of the same column
-- types compare byte by byte (`cmp`) by the prefixes first and then by the values in order. The
-- rows hold no float64 that is -0.0 or a NaN with a clear sign bit.
pub encode_key_order :
    (p q : ℕ) (vs ws : List Value) {k l : Bytes}
    → p < 2 ^ 32
    → q < 2 ^ 32
    → All IsCanonical vs
    → All IsCanonical ws
    → SameTypes vs ws
    → encode_key [] p vs ≡ ok k
    → encode_key [] q ws ≡ ok l
    → cmp k l ≡ then_cmp (compare p q) (values_cmp vs ws)
encode_key_order p q vs ws {k} {l} hp hq hv hw e hk hl =
    let ek : k ≡ be_bytes 4 p ++ encoding vs = cc (encode_key-encoding p vs hv) in
    let el : l ≡ be_bytes 4 q ++ encoding ws = cc (encode_key-encoding q ws hw) in
    rw (
      ek,
      el,
      cmp-be_bytes 4 p q (encoding vs) (encoding ws) (omega arith) (omega arith),
      cmp-rows vs ws hv hw e,
    )
