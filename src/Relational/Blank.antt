-- ===== src/Relational/Blank.antt =====
-- The blank values that `dbDelete` gives to the indexes of a row, and what they lead to.
use svacara_db.Prelude.{
  ℕ, zero, suc, ◌+◌, ◌-◌, ◌≤◌, ◌<◌, ◌≡◌, ◌≢◌, refl, arith, Option, none, some, List, [], ◌∷◌, ◌++◌,
  length, get_elem?, Option-cases, ◌⊎◌, inl, inr, Outcome, ok, panic, stuck,
}
use svacara_db.Bytes.{Bytes}
use svacara_db.Encoding.{Value, zero_value, encode_value, encode_values}
use svacara_db.Relational.Result.{value, crash}
use svacara_db.Relational.{ColumnDef, TableDef, col_index, blanks, index_key_vals, index_cell}

abbrev pub HasBlank : List Value → Type 0
HasBlank [] = ⊥
HasBlank (v ∷ vs) = (v ≡ zero_value 0) ⊎ HasBlank vs

encode_value-ne-stuck : (out : Bytes) (v : Value) → encode_value out v ≢ stuck
unfolding encode_value
encode_value-ne-stuck out v h = ground arith

Outcome-cases : (o : Outcome Bytes) → o ≢ stuck → ((b : Bytes) × (o ≡ ok b)) ⊎ (o ≡ panic)
Outcome-cases (ok b) h = inl (b, refl)
Outcome-cases panic h = inr refl
Outcome-cases stuck h = absurd (h refl)

-- A value of no type makes `EncodeValues` panic, wherever it stands.
pub encode_values-HasBlank :
    (out : Bytes) (vs : List Value) → HasBlank vs → encode_values out vs ≡ panic
unfolding encode_values encode_value
encode_values-HasBlank out [] b = absurd b
encode_values-HasBlank out (v ∷ vs) (inl e) = rw e
encode_values-HasBlank out (v ∷ vs) (inr b) =
    elim (Outcome-cases (encode_value out v) (encode_value-ne-stuck out v)) [
      | inl (out', e) ↦ rw e (encode_values-HasBlank out' vs b)
      | inr e ↦ rw e
    ]

col_index-lt :
    (k : Bytes) (cols : List ColumnDef) (j : ℕ) → col_index k cols ≡ some j → j < length cols
col_index-lt k [] j h = absurd (ground arith)
col_index-lt k (c ∷ cols) j h = elim (Option-cases (col_index k cols)) [
  | inl e ↦ ground arith
  | inr (i, e) ↦ ground (arith, col_index-lt k cols i e)
]

blank_at :
    (keys : List Value) (n j : ℕ) (row : List Value)
    → length keys ≤ j
    → j < length keys + n
    → get_elem? ((keys ++ blanks n) ++ row) j ≡ some (zero_value 0)
blank_at [] zero j row l h = absurd (omega arith)
blank_at [] (suc n) zero row l h = refl
blank_at [] (suc n) (suc j) row l h = blank_at [] n j row (omega arith) (omega arith)
blank_at (v ∷ keys) n zero row l h = absurd (omega arith)
blank_at (v ∷ keys) n (suc j) row l h = blank_at keys n j row (omega arith) (omega arith)

-- Some key of the index is a column at or behind position `n`.
abbrev pub ReachesPast : ℕ → List ColumnDef → List Bytes → Type 0
ReachesPast n cols [] = ⊥
ReachesPast n cols (k ∷ keys) =
    ((j : ℕ) × (col_index k cols ≡ some j) × (n ≤ j)) ⊎ ReachesPast n cols keys

index_cell-cases :
    (row : List Value) (i : Option ℕ) (vals : List Value)
    → (index_cell row i vals ≡ crash)
      ⊎ ((cells : List Value) × (index_cell row i vals ≡ value cells)
          × (HasBlank vals → HasBlank cells))
unfolding index_cell
index_cell-cases row none vals = inr (vals, refl, λ b. b)
index_cell-cases row (some j) vals = elim (Option-cases (get_elem? row j)) [
  | inl e ↦ inl (rw (e, index_cell))
  | inr (v, e) ↦ inr (v ∷ vals, rw (e, index_cell), inr)
]

index_cell-blank :
    (row : List Value) (j : ℕ) (vals : List Value)
    → get_elem? row j ≡ some (zero_value 0)
    → (cells : List Value) × (index_cell row (some j) vals ≡ value cells) × HasBlank cells
unfolding index_cell
index_cell-blank row j vals e = (zero_value 0 ∷ vals, rw (e, index_cell), inl refl)

index_key_vals-cases :
    (tdef : TableDef) (keys : List Bytes) (row : List Value)
    → (index_key_vals tdef keys row ≡ crash)
      ⊎ ((cells : List Value) × (index_key_vals tdef keys row ≡ value cells))
unfolding index_key_vals
index_key_vals-cases tdef [] row = inr ([], refl)
index_key_vals-cases tdef (k ∷ keys) row = elim (index_key_vals-cases tdef keys row) [
  | inl e ↦ inl (rw e)
  | inr (vals, e) ↦ elim (index_cell-cases row (col_index k tdef.cols) vals) [
    | inl f ↦ inl (rw e f)
    | inr (cells, f, g) ↦ inr (cells, rw e f)
  ]
]

module _ (tdef : TableDef) (vals row : List Value) where
  unfoldable pub old_vals : List Value
  old_vals = (vals ++ blanks (length tdef.cols - length vals)) ++ row

  -- What an index on a column behind the primary key is made of when a row goes.
  pub index_key_vals-blank :
      (keys : List Bytes)
      → ReachesPast (length vals) tdef.cols keys
      → (index_key_vals tdef keys old_vals ≡ crash)
        ⊎ ((cells : List Value) × (index_key_vals tdef keys old_vals ≡ value cells)
            × HasBlank cells)
  unfolding index_key_vals old_vals
  index_key_vals-blank [] p = absurd p
  index_key_vals-blank (k ∷ keys) (inl (j, e, l)) =
      let b = col_index-lt k tdef.cols j e in
      elim (index_key_vals-cases tdef keys old_vals) [
        | inl f ↦ inl (rw f)
        | inr (cells, f) ↦
            let (cells', g, hb) =
              index_cell-blank old_vals j cells
                (blank_at vals (length tdef.cols - length vals) j row l (omega arith)) in
            inr (cells', rw (f, e) g, hb)
      ]
  index_key_vals-blank (k ∷ keys) (inr p) = elim (index_key_vals-blank keys p) [
    | inl e ↦ inl (rw e)
    | inr (cells, e, b) ↦ elim (index_cell-cases old_vals (col_index k tdef.cols) cells) [
      | inl f ↦ inl (rw e f)
      | inr (cells', f, g) ↦ inr (cells', rw e f, g b)
    ]
  ]
