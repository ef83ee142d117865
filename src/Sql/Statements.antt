-- ===== src/Sql/Statements.antt =====
-- internal/sql/executor.go: the statements that make tables, indexes and rows, over the catalogue.
-- `store` is the key-value store under the tables.
use svacara_db.Prelude.{
  ℕ, ◌≡◌, refl, Bool, Option, none, some, List, [], ◌∷◌, ◌++◌, length, if◌then◌else◌,
}
use svacara_db.Bytes.{Bytes}
use svacara_db.Bytes.Compare.{bytes_eq}
use svacara_db.Storage.{Storage}
use svacara_db.Relational.Result.{DbError, table_not_found, Result, error}
use svacara_db.Relational.{ColumnDef, TableDef}
use svacara_db.Relational.Catalog.{Db, insert, table_def, create_table, insert_record}
use svacara_db.Relational.Catalog.Names.{lookup-insert}
use svacara_db.Sql.{Nodes, eval_nodes, sql_type_to_col_type}

pub record ColSpec : Type 0 where
  pub name : Bytes
  pub type : ℕ

pub record QlCreateTable : Type 0 where
  pub table : Bytes
  pub cols : List ColSpec
  pub p_keys : List Bytes

pub record QlCreateIndex : Type 0 where
  pub table : Bytes
  pub name : Bytes
  pub keys : List Bytes
  pub unique : Bool

pub record QlInsert : Type 0 where
  pub table : Bytes
  pub names : List Bytes
  pub values : Nodes

abbrev pub column_defs : List ColSpec → List ColumnDef
column_defs [] = []
column_defs (c ∷ cols) =
    record { name = c.name; type = sql_type_to_col_type c.type } ∷ column_defs cols

module _ {S : Type 0} where
  unfoldable pub exec_create_table : Db S → QlCreateTable → Db S × Option DbError
  exec_create_table db stmt = create_table db (record {
    name = stmt.table;
    cols = column_defs stmt.cols;
    p_keys = length stmt.p_keys;
    indexes = [];
    prefix = 0;
  })

  -- The definition is changed behind its pointer.
  unfoldable pub exec_create_index : Db S → QlCreateIndex → Db S × Option DbError
  exec_create_index db stmt = elim (table_def db stmt.table) [
    | none ↦ (db, some table_not_found)
    | some tdef ↦ (
      record db {
        tables = insert db.tables stmt.table (record tdef {
          indexes =
              tdef.indexes
              ++ record { name = stmt.name; keys = stmt.keys; unique = stmt.unique } ∷ [];
        });
      },
      none,
    )
  ]

  -- A new index is added behind the others of its table and nothing else changes: every other table is
  -- as it was, and so is the store, so the rows that are there have no entries in it. The table exists.
  pub exec_create_index-table_def :
      (db : Db S) (stmt : QlCreateIndex) (tdef : TableDef) (j : Bytes)
      → table_def db stmt.table ≡ some tdef
      → (table_def (exec_create_index db stmt).0 j ≡ (
          if bytes_eq stmt.table j
          then some (record tdef {
            indexes =
                tdef.indexes
                ++ record { name = stmt.name; keys = stmt.keys; unique = stmt.unique } ∷ [];
          })
          else table_def db j))
        × ((exec_create_index db stmt).0.kv ≡ db.kv)
        × ((exec_create_index db stmt).1 ≡ none)
  unfolding table_def exec_create_index
  exec_create_index-table_def db stmt tdef j h =
      rw (exec_create_index, h) (lookup-insert db.tables stmt.table j _, refl, refl)

module _ {S : Type 0} (store : Storage S) where
  unfoldable pub exec_insert : Db S → QlInsert → Db S × Result Bool
  exec_insert db stmt = elim (table_def db stmt.table) [
    | none ↦ (db, error table_not_found)
    | some tdef ↦
        insert_record store db stmt.table
          (record { cols = stmt.names; vals = eval_nodes stmt.values })
  ]
