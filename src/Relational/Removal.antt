-- ===== src/Relational/Removal.antt =====
-- Rows removed by `dbDelete`: the tables on which it panics.
use svacara_db.Prelude.{
  ◌-◌, ◌≡◌, sym, ap, arith, Bool, true, false, some, List, ◌∷◌, ◌++◌, All, length, inl, inr,
}
use mathlib.Core.Path.{subst}
use svacara_db.Bytes.{Bytes}
use svacara_db.Bytes.Endian.{be_bytes}
use svacara_db.Encoding.{Value, encode_key, decode_values}
use svacara_db.Encoding.Format.{IsCanonical, encoding, encode_key-encoding}
use svacara_db.Encoding.RoundTrip.{decode_loop-encoding}
use svacara_db.Relational.Blank.{
  encode_values-HasBlank, ReachesPast, old_vals, index_key_vals-blank,
}
use svacara_db.Storage.{Storage}
use svacara_db.Relational.Result.{value, crash}
use svacara_db.Relational.{
  IndexDef, TableDef, Record, blanks, check_record, kv_del, delete_index, delete_indexes,
  drop_indexes, delete_row, db_delete, no_indexes,
}

module _ {S : Type 0} (st : Storage S) where
  db_delete_run :
      (tdef : TableDef) (rec : Record) (keys : List Value) (s : S)
      → check_record tdef rec tdef.p_keys ≡ value keys
      → All IsCanonical keys
      → (old : Bytes) → st.get s (be_bytes 4 tdef.prefix ++ encoding keys) ≡ some old
      → db_delete st tdef rec s
        ≡ delete_row st tdef keys (be_bytes 4 tdef.prefix ++ encoding keys) old s
  unfolding db_delete
  db_delete_run tdef rec keys s c canon old g =
      rw (c, encode_key-encoding tdef.prefix keys canon, g)

  delete_index-crash :
      (tdef : TableDef) (idx : IndexDef) (vals row : List Value) (s : S)
      → ReachesPast (length vals) tdef.cols idx.keys
      → (delete_index st tdef idx (old_vals tdef vals row) s).1 ≡ crash
  unfolding delete_index encode_key
  delete_index-crash tdef idx vals row s p = elim (index_key_vals-blank tdef vals row idx.keys p) [
    | inl e ↦ rw e
    | inr (cells, e, b) ↦ rw (e, encode_values-HasBlank _ cells b)
  ]

  delete_indexes-crash :
      (tdef : TableDef) (idx : IndexDef) (indexes : List IndexDef) (vals row : List Value) (s : S)
      → ReachesPast (length vals) tdef.cols idx.keys
      → (delete_indexes st tdef (idx ∷ indexes) (old_vals tdef vals row) s).1 ≡ crash
  unfolding delete_indexes
  delete_indexes-crash tdef idx indexes vals row s p = rw (delete_index-crash tdef idx vals row s p)

  -- The first index of a deleted row reaches a blank value.
  drop_indexes-crash :
      (tdef : TableDef) (idx : IndexDef) (indexes : List IndexDef) (vals row : List Value) (s : S)
      → tdef.indexes ≡ idx ∷ indexes
      → ReachesPast (length vals) tdef.cols idx.keys
      → All IsCanonical row
      → (drop_indexes st tdef vals (encoding row) s).1 ≡ crash
  unfolding drop_indexes old_vals decode_values
  drop_indexes-crash tdef idx indexes vals row s i p canon =
      let crashes : (delete_indexes st tdef tdef.indexes (old_vals tdef vals row) s).1 ≡ crash =
        subst (λ l. (delete_indexes st tdef l (old_vals tdef vals row) s).1 ≡ crash) (sym i)
          (delete_indexes-crash tdef idx indexes vals row s p) in
      rw (
        decode_loop-encoding row (vals ++ blanks (length tdef.cols - length vals))
            (length (encoding row)) canon (omega arith),
        crashes,
      )

  kv_del-done :
      (k : Bytes) (s : S) (b : Bool)
      → (st.del s k).1 ≡ some b
      → kv_del st k s ≡ ((st.del s k).0, value b)
  kv_del-done k s b e = ground arith

  delete_row-crash :
      (tdef : TableDef) (vals : List Value) (key old : Bytes) (s : S)
      → (st.del s key).1 ≡ some true
      → no_indexes tdef ≡ false
      → (drop_indexes st tdef vals old (st.del s key).0).1 ≡ crash
      → (delete_row st tdef vals key old s).1 ≡ crash
  unfolding delete_row
  delete_row-crash tdef vals key old s d n c = rw (kv_del-done key s true d, n) c

  -- Deleting a row that is there panics if the first index of the table has a key column behind the
  -- primary key. The key passes its checks and is canonical, the stored row is the encoding of
  -- canonical values, and the store removes it without an error.
  pub db_delete_crash :
      (tdef : TableDef) (idx : IndexDef) (indexes : List IndexDef) (rec : Record)
      (keys row : List Value) (s : S)
      → check_record tdef rec tdef.p_keys ≡ value keys
      → All IsCanonical keys
      → All IsCanonical row
      → st.get s (be_bytes 4 tdef.prefix ++ encoding keys) ≡ some (encoding row)
      → (st.del s (be_bytes 4 tdef.prefix ++ encoding keys)).1 ≡ some true
      → tdef.indexes ≡ idx ∷ indexes
      → ReachesPast (length keys) tdef.cols idx.keys
      → (db_delete st tdef rec s).1 ≡ crash
  db_delete_crash tdef idx indexes rec keys row s c canon crow g d i p =
      rw (db_delete_run tdef rec keys s c canon (encoding row) g) (
        delete_row-crash tdef keys _ (encoding row) s d
          (ap (λ l. no_indexes (record tdef { indexes = l })) i)
          (drop_indexes-crash tdef idx indexes keys row _ i p crow))
