-- ===== src/Relational.antt =====
-- internal/relational/types.go and table.go: tables over a store. A table's Go pointer is its entry in
-- the list of tables. An operation takes the definition of its table, as the Go methods do.
pub mod Result
pub mod Check
pub mod Keys
pub mod Blank
pub mod Removal
pub mod Catalog
mod Tests
use svacara_db.Prelude.{
  ℕ, zero, suc, ◌+◌, ◌*◌, ◌-◌, ◌%◌, ◌^◌, Bool, true, false, ◌&&◌, Option, none, some, List, [], ◌∷◌,
  ◌++◌, map, length, take, drop, get_elem?, ltb, ◌==◌, if◌then◌else◌, Ordering,
}
use svacara_db.Prelude.Int.{ℤ}
use svacara_db.Bytes.{Bytes}
use svacara_db.Bytes.Endian.{be_value}
use svacara_db.Bytes.Compare.{cmp, bytes_eq}
use svacara_db.Encoding.{
  Value, zero_value, type_by_col_type, encode_key, encode_key_partial, encode_values, decode_values,
}
use svacara_db.Storage.{Storage}
use Result.{
  DbError, table_exists, no_primary_key, table_not_found, column_not_found, missing_primary_key,
  store_failed, value, error, crash, hang, from_outcome, and_then, M, continue, ◌>>=◌, ◌>>◌, pure,
  lift,
}

pub record ColumnDef : Type 0 where
  pub name : Bytes
  pub type : ℕ

pub record IndexDef : Type 0 where
  pub name : Bytes
  pub keys : List Bytes
  pub unique : Bool

pub record TableDef : Type 0 where
  pub name : Bytes
  pub cols : List ColumnDef
  pub p_keys : ℕ
  pub indexes : List IndexDef
  pub prefix : ℕ

pub record Record : Type 0 where
  pub cols : List Bytes
  pub vals : List Value

-- The loop over `tdef.Cols` that stops at the first column of the name.
abbrev pub col_index : Bytes → List ColumnDef → Option ℕ
col_index col [] = none
col_index col (c ∷ cols) =
    if bytes_eq c.name col
    then some 0
    else elim (col_index col cols) [ none ↦ none | some j ↦ some (suc j) ]

abbrev pub set : List Value → ℕ → Value → List Value
set [] j v = []
set (x ∷ xs) zero v = v ∷ xs
set (x ∷ xs) (suc j) v = x ∷ set xs j v

abbrev pub default_vals : List ColumnDef → List Value
default_vals [] = []
default_vals (c ∷ cols) = zero_value (type_by_col_type c.type) ∷ default_vals cols

-- `vals[j] = rec.Vals[i]`, which panics if the record has fewer values than names.
unfoldable pub place : List Value → Option ℕ → List Value → Result.Result (List Value)
place vals none given = error column_not_found
place vals (some j) [] = crash
place vals (some j) (v ∷ given) = value (set vals j v)

-- The loop over `rec.Cols`; the values are those that the loop has not reached.
unfoldable pub fill :
    List ColumnDef → List Value → List Bytes → List Value → Result.Result (List Value)
unfolding place
fill cols vals [] given = value vals
fill cols vals (col ∷ names) given =
    and_then (place vals (col_index col cols) given) (λ vals'. fill cols vals' names (drop 1 given))

-- The loop over the first `n` values.
unfoldable pub check_keys : ℕ → List Value → Result.Result (Unit {0})
check_keys zero vals = value tt
check_keys (suc n) [] = crash
check_keys (suc n) (v ∷ vals) =
    let rest = check_keys n vals in if v.type == 0 then error missing_primary_key else rest

-- `vals[:k]` of a slice made with the length of `vals`.
unfoldable pub first : ℕ → List Value → Result.Result (List Value)
first k vals = if ltb (length vals) k then crash else value (take k vals)

unfoldable pub check_record : TableDef → Record → ℕ → Result.Result (List Value)
check_record tdef rec n =
    and_then (fill tdef.cols (default_vals tdef.cols) rec.cols rec.vals) λ vals.
      if n == tdef.p_keys
      then first tdef.p_keys vals
      else and_then (check_keys tdef.p_keys vals) (λ _. value vals)

-- `h = ((h << 5) + h) + uint32(c)`
unfoldable pub hash_from : ℕ → Bytes → ℕ
hash_from h [] = h
hash_from h (c ∷ cs) = hash_from ((h * 33 + c) % 2 ^ 32) cs

abbrev pub hash_table_name : Bytes → ℕ
hash_table_name name = hash_from 5381 name

unfoldable pub index_cell : List Value → Option ℕ → List Value → Result.Result (List Value)
index_cell row none vals = value vals
index_cell row (some j) vals = elim (get_elem? row j) [ none ↦ crash | some v ↦ value (v ∷ vals) ]

-- A key that names no column is passed over.
unfoldable pub index_key_vals : TableDef → List Bytes → List Value → Result.Result (List Value)
unfolding index_cell
index_key_vals tdef [] row = value []
index_key_vals tdef (k ∷ keys) row =
    and_then (index_key_vals tdef keys row) (λ vals. index_cell row (col_index k tdef.cols) vals)

abbrev pub index_name : TableDef → IndexDef → Bytes
index_name tdef idx = tdef.name ++ b'_' ∷ idx.name

abbrev pub names : List ColumnDef → List Bytes
names [] = []
names (c ∷ cols) = c.name ∷ names cols

-- `make([]Value, n)`
abbrev pub blanks : ℕ → List Value
blanks zero = []
blanks (suc n) = zero_value 0 ∷ blanks n

abbrev pub no_indexes : TableDef → Bool
no_indexes tdef = elim tdef.indexes [ [] ↦ true | _ ↦ false ]

module _ {S : Type 0} (st : Storage S) where
  abbrev pub kv_set : Bytes → Bytes → M S Unit
  kv_set key val s =
      let (s', done) = st.set s key val in if done then (s', value tt) else (s', error store_failed)

  abbrev pub kv_get : Bytes → M S (Option Bytes)
  kv_get key s = (s, value (st.get s key))

  abbrev pub kv_del : Bytes → M S Bool
  kv_del key s =
      let (s', deleted) = st.del s key in
      elim deleted [ none ↦ (s', error store_failed) | some b ↦ (s', value b) ]

  unfoldable pub update_index : TableDef → IndexDef → List Value → M S Unit
  update_index tdef idx vals = do
    cells ← lift (index_key_vals tdef idx.keys vals)
    ikey ← lift (from_outcome (encode_key [] (hash_table_name (index_name tdef idx)) cells))
    keys ← lift (first tdef.p_keys vals)
    ival ← lift (from_outcome (encode_values [] keys))
    kv_set ikey ival

  unfoldable pub update_indexes : TableDef → List IndexDef → List Value → M S Unit
  update_indexes tdef [] vals = pure tt
  update_indexes tdef (idx ∷ indexes) vals = do
    update_index tdef idx vals
    update_indexes tdef indexes vals

  unfoldable pub delete_index : TableDef → IndexDef → List Value → M S Unit
  delete_index tdef idx vals = do
    cells ← lift (index_key_vals tdef idx.keys vals)
    ikey ← lift (from_outcome (encode_key [] (hash_table_name (index_name tdef idx)) cells))
    deleted ← kv_del ikey
    pure tt

  unfoldable pub delete_indexes : TableDef → List IndexDef → List Value → M S Unit
  delete_indexes tdef [] vals = pure tt
  delete_indexes tdef (idx ∷ indexes) vals = do
    delete_index tdef idx vals
    delete_indexes tdef indexes vals

  -- The end of `dbUpdate`, once the key and the value are there.
  unfoldable pub write_row : TableDef → List Value → Bytes → Bytes → M S Bool
  write_row tdef vals key val = do kv_set key val; update_indexes tdef tdef.indexes vals; pure true

  unfoldable pub insert_row : TableDef → List Value → Bytes → Bytes → M S Bool
  insert_row tdef vals key val = do
    old ← kv_get key
    elim old [ none ↦ write_row tdef vals key val | some v ↦ pure false ]

  -- `mode` 0 is an insert, which does not overwrite.
  unfoldable pub db_update : TableDef → Record → ℕ → M S Bool
  db_update tdef rec mode = do
    vals ← lift (check_record tdef rec (length tdef.cols))
    keys ← lift (first tdef.p_keys vals)
    key ← lift (from_outcome (encode_key [] tdef.prefix keys))
    val ← lift (from_outcome (encode_values [] (drop tdef.p_keys vals)))
    if mode == 0 then insert_row tdef vals key val else write_row tdef vals key val

  -- The indexes of a deleted row: `oldVals` holds the keys, blanks up to the number of columns, and
  -- behind them what `DecodeValues` appends.
  unfoldable pub drop_indexes : TableDef → List Value → Bytes → M S Bool
  drop_indexes tdef vals old = do
    old_vals ←
        lift (from_outcome (decode_values old (vals ++ blanks (length tdef.cols - length vals))))
    delete_indexes tdef tdef.indexes old_vals
    pure true

  unfoldable pub delete_row : TableDef → List Value → Bytes → Bytes → M S Bool
  delete_row tdef vals key old = do
    deleted ← kv_del key
    if deleted
        then (if no_indexes tdef then pure true else drop_indexes tdef vals old)
        else pure false

  unfoldable pub db_delete : TableDef → Record → M S Bool
  db_delete tdef rec = do
    vals ← lift (check_record tdef rec tdef.p_keys)
    key ← lift (from_outcome (encode_key [] tdef.prefix vals))
    old ← kv_get key
    elim old [ none ↦ pure false | some v ↦ delete_row tdef vals key v ]

  -- The record that `dbGet` fills in, or `none` if there is no such row.
  unfoldable pub db_get : TableDef → Record → M S (Option Record)
  db_get tdef rec = do
    vals ← lift (check_record tdef rec tdef.p_keys)
    key ← lift (from_outcome (encode_key [] tdef.prefix vals))
    found ← kv_get key
    elim found [
      | none ↦ pure none
      | some val ↦ (do
        row ← lift (from_outcome (decode_values val []))
        pure (some (record { cols = names tdef.cols; vals = row })))
    ]
