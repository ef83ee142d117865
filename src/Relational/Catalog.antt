-- ===== src/Relational/Catalog.antt =====
-- The tables of internal/relational/table.go by name: `CreateTable`, and the methods that look a table
-- up and hand it on.
pub mod Names
use svacara_db.Prelude.{ℕ, Option, none, some, List, [], ◌∷◌, ltb, if◌then◌else◌, Bool, true, false}
use svacara_db.Bytes.{Bytes}
use svacara_db.Bytes.Compare.{bytes_eq}
use svacara_db.Storage.{Storage, is_some}
use svacara_db.Relational.Result.{
  DbError, table_exists, no_primary_key, table_not_found, Result, error, value, M,
}
use svacara_db.Relational.{TableDef, Record, hash_table_name, db_update, db_delete, db_get}

-- A map from names to tables.
abbrev pub Tables : Type 0
Tables = List (Bytes × TableDef)

abbrev pub lookup : Tables → Bytes → Option TableDef
lookup [] j = none
lookup ((k, t) ∷ tables) j = if bytes_eq k j then some t else lookup tables j

abbrev pub insert : Tables → Bytes → TableDef → Tables
insert [] k t = (k, t) ∷ []
insert ((i, u) ∷ tables) k t = if bytes_eq i k then (i, t) ∷ tables else (i, u) ∷ insert tables k t

pub record Db (S : Type 0) : Type 0 where
  pub kv : S
  pub tables : Tables

module _ {S : Type 0} where
  unfoldable pub open_db : S → Db S
  open_db kv = record { kv = kv; tables = [] }

  unfoldable pub table_def : Db S → Bytes → Option TableDef
  table_def db name = lookup db.tables name

  unfoldable pub create_table : Db S → TableDef → Db S × Option DbError
  create_table db tdef =
      if is_some (lookup db.tables tdef.name)
      then (db, some table_exists)
      else if ltb tdef.p_keys 1
      then (db, some no_primary_key)
      else (
        record db {
          tables = insert db.tables tdef.name (record tdef { prefix = hash_table_name tdef.name });
        },
        none,
      )

  -- The lookup at the head of `Get`, `Insert`, `Update` and `Delete`.
  unfoldable pub with_table : {A : Type 0} → Db S → Bytes → (TableDef → M S A) → Db S × Result A
  with_table db table f = elim (lookup db.tables table) [
    | none ↦ (db, error table_not_found)
    | some tdef ↦ (record db { kv = (f tdef db.kv).0 }, (f tdef db.kv).1)
  ]

module _ {S : Type 0} (st : Storage S) where
  unfoldable pub get : Db S → Bytes → Record → Db S × Result (Option Record)
  get db table rec = with_table db table (λ tdef. db_get st tdef rec)

  unfoldable pub insert_record : Db S → Bytes → Record → Db S × Result Bool
  insert_record db table rec = with_table db table (λ tdef. db_update st tdef rec 0)

  unfoldable pub update_record : Db S → Bytes → Record → Db S × Result Bool
  update_record db table rec = with_table db table (λ tdef. db_update st tdef rec 1)

  unfoldable pub delete_record : Db S → Bytes → Record → Db S × Result Bool
  delete_record db table rec = with_table db table (λ tdef. db_delete st tdef rec)
