-- ===== src/Relational/Keys.antt =====
-- The keys of tables and indexes: they begin with the hash of a name, and keys of different hashes
-- are different.
use svacara_db.Prelude.{
  ℕ, zero, suc, ◌+◌, ◌-◌, ◌*◌, ◌%◌, ◌^◌, ◌≤◌, ◌<◌, ◌≡◌, ◌≢◌, refl, sym, ap, ◌∙◌, arith, Bool, true,
  false, Option, none, some, List, [], ◌∷◌, ◌++◌, append-nil, append_assoc, All, length, take, drop,
  take-append, ltb, ◌==◌, Bool-cases, Option-cases, ◌⊎◌, inl, inr, if◌then◌else◌, Outcome, ok,
  panic, stuck,
}
use svacara_db.Prelude
use svacara_db.Bytes.{Bytes}
use svacara_db.Bytes.Endian.{be_bytes, be_value, length-be_bytes, be_value-be_bytes}
use svacara_db.Bytes.Compare.{bytes_eq, eq_of_bytes_eq}
use svacara_db.Encoding.{
  Value, type_int64, type_bytes, type_bool, type_float64, encode_value, encode_key, encode_values,
}
use svacara_db.Encoding.Format.{IsCanonical}
use svacara_db.Relational.{hash_from}

pub All-take : (n : ℕ) (vs : List Value) → All IsCanonical vs → All IsCanonical (take n vs)
All-take zero vs h = tt
All-take (suc n) [] h = tt
All-take (suc n) (v ∷ vs) (hv, h) = (hv, All-take n vs h)

pub All-drop : (n : ℕ) (vs : List Value) → All IsCanonical vs → All IsCanonical (drop n vs)
All-drop zero vs h = h
All-drop (suc n) [] h = tt
All-drop (suc n) (v ∷ vs) (hv, h) = All-drop n vs h

extends_by :
    (out : Bytes) (t : ℕ) (x k : Bytes)
    → ◌≡◌ {A = Outcome Bytes} (ok ((out ++ t ∷ []) ++ x)) (ok k)
    → (r : Bytes) × (k ≡ out ++ r)
extends_by out t x k h = (t ∷ x, ground (arith, append_assoc out (t ∷ []) x))

encode_value-extends :
    (out : Bytes) (v : Value) (k : Bytes) → encode_value out v ≡ ok k → (r : Bytes) × (k ≡ out ++ r)
unfolding encode_value
encode_value-extends out v k h = elim (Bool-cases (v.type == type_int64)) [
  | inl e ↦ extends_by out v.type _ k (rw e at h)
  | inr e ↦ elim (Bool-cases (v.type == type_bytes)) [
    | inl f ↦ extends_by out v.type _ k (rw append_assoc at (rw (e, f) at h))
    | inr f ↦ elim (Bool-cases (v.type == type_bool)) [
      | inl g ↦ extends_by out v.type _ k (rw (e, f, g) at h)
      | inr g ↦ elim (Bool-cases (v.type == type_float64)) [
        | inl i ↦ extends_by out v.type _ k (rw (e, f, g, i) at h)
        | inr i ↦ absurd (ground (arith, rw (e, f, g, i) at h))
      ]
    ]
  ]
]

bind_ok :
    (o : Outcome Bytes) (f : Bytes → Outcome Bytes) (k : Bytes)
    → Prelude.◌>>=◌ o f ≡ ok k
    → (b : Bytes) × (o ≡ ok b) × (f b ≡ ok k)
bind_ok (ok b) f k h = (b, refl, h)
bind_ok panic f k h = absurd (ground arith)
bind_ok stuck f k h = absurd (ground arith)

encode_values-extends :
    (out : Bytes) (vs : List Value) (k : Bytes)
    → encode_values out vs ≡ ok k
    → (r : Bytes) × (k ≡ out ++ r)
unfolding encode_values
encode_values-extends out [] k h = ([], ground (arith, append-nil out))
encode_values-extends out (v ∷ vs) k h =
    let (out', e, f) = bind_ok (encode_value out v) (λ b. encode_values b vs) k h in
    let (x, ex) = encode_value-extends out v out' e in
    let (y, ey) = encode_values-extends out' vs k f in
    (x ++ y, ey ∙ ap (λ l. l ++ y) ex ∙ append_assoc out x y)

-- Keys of different prefixes are different, whatever follows the prefixes.
pub prefixes_differ :
    (p q : ℕ) (r s : Bytes)
    → p < 2 ^ 32
    → q < 2 ^ 32
    → p ≢ q
    → bytes_eq (be_bytes 4 p ++ r) (be_bytes 4 q ++ s) ≡ false
prefixes_differ p q r s hp hq ne =
    elim (Bool-cases (bytes_eq (be_bytes 4 p ++ r) (be_bytes 4 q ++ s))) [
      | inr e ↦ e
      | inl e ↦ absurd (
          ne (
            sym (be_value-be_bytes 4 p (omega arith))
            ∙ ap be_value (
                sym (take-append 4 (be_bytes 4 p) r (length-be_bytes 4 p))
                ∙ ap (take 4) (eq_of_bytes_eq (be_bytes 4 p ++ r) (be_bytes 4 q ++ s) e)
                ∙ take-append 4 (be_bytes 4 q) s (length-be_bytes 4 q))
            ∙ be_value-be_bytes 4 q (omega arith)))
    ]

pub hash_from-lt : (h : ℕ) (name : Bytes) → h < 2 ^ 32 → hash_from h name < 2 ^ 32
unfolding hash_from
hash_from-lt h [] lt = lt
hash_from-lt h (c ∷ name) lt = hash_from-lt ((h * 33 + c) % 2 ^ 32) name (omega arith)

pub encode_key-extends :
    (q : ℕ) (vs : List Value) (k : Bytes)
    → encode_key [] q vs ≡ ok k
    → (r : Bytes) × (k ≡ be_bytes 4 q ++ r)
unfolding encode_key
encode_key-extends q vs k h = encode_values-extends (be_bytes 4 q) vs k h
