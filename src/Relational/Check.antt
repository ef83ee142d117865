-- ===== src/Relational/Check.antt =====
-- What `checkRecord` lets through, and what it never reports.
use svacara_db.Prelude.{
  ℕ, zero, suc, ◌≤◌, ◌≡◌, ◌≢◌, refl, sym, ap, ◌∙◌, arith, false, Option, none, some, List, [], ◌∷◌,
  All, length, drop, ◌==◌, Bool-cases, Option-cases, inl, inr,
}
use mathlib.Core.Path.{subst}
use svacara_db.Bytes.{Bytes}
use svacara_db.Encoding.{Value, type_by_col_type}
use svacara_db.Relational.Result.{Result, value, error, crash, hang, and_then, missing_primary_key}
use svacara_db.Relational.{
  ColumnDef, TableDef, Record, col_index, set, default_vals, place, fill, check_keys, first,
  check_record,
}

and_then-value :
    {A B : Type 0} (r : Result A) (f : A → Result B) (b : B)
    → and_then r f ≡ value b
    → (a : A) × (r ≡ value a) × (f a ≡ value b)
and_then-value (value a) f b h = (a, refl, h)
and_then-value (error e) f b h = absurd (ground arith)
and_then-value crash f b h = absurd (ground arith)
and_then-value hang f b h = absurd (ground arith)

length-set : (vals : List Value) (j : ℕ) (v : Value) → length (set vals j v) ≡ length vals
length-set [] j v = refl
length-set (x ∷ vals) zero v = refl
length-set (x ∷ vals) (suc j) v = ap suc (length-set vals j v)

length-default_vals : (cols : List ColumnDef) → length (default_vals cols) ≡ length cols
length-default_vals [] = refl
length-default_vals (c ∷ cols) = ap suc (length-default_vals cols)

-- A step of the loop found a column and a value for the name.
place-value :
    (vals : List Value) (i : Option ℕ) (given vals' : List Value)
    → place vals i given ≡ value vals'
    → ((j : ℕ) × (i ≡ some j)) × (length vals' ≡ length vals) × (1 ≤ length given)
unfolding place
place-value vals none given vals' h = absurd (ground arith)
place-value vals (some j) [] vals' h = absurd (ground arith)
place-value vals (some j) (v ∷ given) vals' h =
    ((j, refl), ground (arith, length-set vals j v), omega arith)

-- Every name is a column of the table.
abbrev pub AllKnown : List ColumnDef → List Bytes → Type 0
AllKnown cols names = All (λ n. (j : ℕ) × (col_index n cols ≡ some j)) names

fill-value :
    (cols : List ColumnDef) (vals : List Value) (names : List Bytes) (given vals' : List Value)
    → fill cols vals names given ≡ value vals'
    → AllKnown cols names × (length vals' ≡ length vals) × (length names ≤ length given)
unfolding fill
fill-value cols vals [] given vals' h = (tt, ground arith, omega arith)
fill-value cols vals (n ∷ names) [] vals' h =
    let (v1, e, h1) = and_then-value (place vals (col_index n cols) []) _ vals' h in
    absurd (omega (arith, (place-value vals (col_index n cols) [] v1 e).2))
fill-value cols vals (n ∷ names) (g ∷ given) vals' h =
    let (v1, e, h1) = and_then-value (place vals (col_index n cols) (g ∷ given)) _ vals' h in
    let (known, same, enough) = place-value vals (col_index n cols) (g ∷ given) v1 e in
    let (rest, len, fits) = fill-value cols v1 names given vals' h1 in
    ((known, rest), len ∙ same, omega arith)

-- A record that `checkRecord` accepts for a full row names only columns of the table and has a value
-- for each name, and the result has one value for each column.
pub check_record_shape :
    (tdef : TableDef) (rec : Record) (n : ℕ) (vals : List Value)
    → n ≢ tdef.p_keys
    → check_record tdef rec n ≡ value vals
    → AllKnown tdef.cols rec.cols
      × (length vals ≡ length tdef.cols)
      × (length rec.cols ≤ length rec.vals)
unfolding check_record
check_record_shape tdef rec n vals ne h =
    let (v1, e, h1) =
      and_then-value (fill tdef.cols (default_vals tdef.cols) rec.cols rec.vals) _ vals h in
    let off : (n == tdef.p_keys) ≡ false = ground arith in
    let (u, f, h2) = and_then-value (check_keys tdef.p_keys v1) _ vals (rw off at h1) in
    let same : v1 ≡ vals = ground arith in
    let (known, len, enough) =
      fill-value tdef.cols (default_vals tdef.cols) rec.cols rec.vals v1 e in
    (known, ap length (sym same) ∙ len ∙ length-default_vals tdef.cols, enough)

abbrev pub HasType : Value → Type 0
HasType v = v.type ≢ 0

-- A column of one of the four types.
abbrev pub IsDeclared : ColumnDef → Type 0
IsDeclared c = (1 ≤ c.type) × (c.type ≤ 4)

default_vals-HasType :
    (cols : List ColumnDef) → All IsDeclared cols → All HasType (default_vals cols)
unfolding type_by_col_type
default_vals-HasType [] h = tt
default_vals-HasType (c ∷ cols) (hc, h) = (ground arith, default_vals-HasType cols h)

set-HasType :
    (vals : List Value) (j : ℕ) (v : Value)
    → All HasType vals
    → HasType v
    → All HasType (set vals j v)
set-HasType [] j v h hv = tt
set-HasType (x ∷ vals) zero v (hx, h) hv = (hv, h)
set-HasType (x ∷ vals) (suc j) v (hx, h) hv = (hx, set-HasType vals j v h hv)

place-HasType :
    (vals : List Value) (i : Option ℕ) (given vals' : List Value)
    → All HasType vals
    → All HasType given
    → place vals i given ≡ value vals'
    → All HasType vals' × All HasType (drop 1 given)
unfolding place
place-HasType vals none given vals' h hg e = absurd (ground arith)
place-HasType vals (some j) [] vals' h hg e = absurd (ground arith)
place-HasType vals (some j) (v ∷ given) vals' h (hv, hg) e =
    let same : set vals j v ≡ vals' = ground arith in
    (subst (All HasType) same (set-HasType vals j v h hv), hg)

fill-HasType :
    (cols : List ColumnDef) (vals : List Value) (names : List Bytes) (given vals' : List Value)
    → All HasType vals
    → All HasType given
    → fill cols vals names given ≡ value vals'
    → All HasType vals'
unfolding fill
fill-HasType cols vals [] given vals' h hg e =
    let same : vals ≡ vals' = ground arith in subst (All HasType) same h
fill-HasType cols vals (n ∷ names) given vals' h hg e =
    let (v1, f, e1) = and_then-value (place vals (col_index n cols) given) _ vals' e in
    let (h1, hg1) = place-HasType vals (col_index n cols) given v1 h hg f in
    fill-HasType cols v1 names (drop 1 given) vals' h1 hg1 e1

fill-ne-missing :
    (cols : List ColumnDef) (vals : List Value) (names : List Bytes) (given : List Value)
    → fill cols vals names given ≢ error missing_primary_key
unfolding fill place
fill-ne-missing cols vals [] given h = ground arith
fill-ne-missing cols vals (n ∷ names) [] h = ground arith
fill-ne-missing cols vals (n ∷ names) (g ∷ given) h = elim (Option-cases (col_index n cols)) [
  | inl e ↦ ground arith
  | inr (j, e) ↦ fill-ne-missing cols (set vals j g) names given (rw e at h)
]

check_keys-ne-missing :
    (k : ℕ) (vals : List Value) → All HasType vals → check_keys k vals ≢ error missing_primary_key
unfolding check_keys
check_keys-ne-missing zero vals h e = ground arith
check_keys-ne-missing (suc k) [] h e = ground arith
check_keys-ne-missing (suc k) (v ∷ vals) (hv, h) e = ground (arith, check_keys-ne-missing k vals h)

first-ne-missing : (k : ℕ) (vals : List Value) → first k vals ≢ error missing_primary_key
unfolding first
first-ne-missing k vals e = ground arith

and_then-error :
    {A B : Type 0} (r : Result A) (f : A → Result B)
    → r ≢ error missing_primary_key
    → ((a : A) → r ≡ value a → f a ≢ error missing_primary_key)
    → and_then r f ≢ error missing_primary_key
and_then-error (value a) f h k e = k a refl e
and_then-error (error x) f h k e = h (ground arith)
and_then-error crash f h k e = ground arith
and_then-error hang f h k e = ground arith

-- `checkRecord` never reports a missing primary key, whatever columns the record leaves out, where
-- every column of the table has one of the four types and every value of the record has a type.
pub check_record-ne-missing :
    (tdef : TableDef) (rec : Record) (n : ℕ)
    → All IsDeclared tdef.cols
    → All HasType rec.vals
    → check_record tdef rec n ≢ error missing_primary_key
unfolding check_record
check_record-ne-missing tdef rec n hc hv =
    and_then-error (fill tdef.cols (default_vals tdef.cols) rec.cols rec.vals) _
      (fill-ne-missing tdef.cols (default_vals tdef.cols) rec.cols rec.vals)
      λ vals e. elim (Bool-cases (n == tdef.p_keys)) [
        | inl f ↦ rw f (first-ne-missing tdef.p_keys vals)
        | inr f ↦ rw f (
            and_then-error (check_keys tdef.p_keys vals) _
              (check_keys-ne-missing tdef.p_keys vals (
                fill-HasType tdef.cols (default_vals tdef.cols) rec.cols rec.vals vals
                  (default_vals-HasType tdef.cols hc) hv e))
              (λ u g p. ground arith))
      ]
