-- ===== src/Relational/Tests.antt =====
-- Runs of internal/relational over a store in memory, and its theorems at concrete tables.
use svacara_db.Prelude.{◌≤◌, ◌≡◌, refl, arith, false, none, [], ◌∷◌, length}
use svacara_db.Bytes.{Bytes}
use svacara_db.Bytes.Endian.{be_bytes}
use svacara_db.Encoding.{escape_bytes, type_by_col_type}
use svacara_db.Encoding.Format.{int_value, bytes_value, int64, bytes, body, encoding}
use svacara_db.Storage.Assoc.{Entries, assoc_storage}
use svacara_db.Relational.Result.{value, crash}
use svacara_db.Relational.{
  TableDef, IndexDef, Record, place, fill, check_keys, first, check_record, db_delete,
}
use svacara_db.Relational.Check.{AllKnown, check_record_shape}
use svacara_db.Relational.Removal.{db_delete_crash}
use svacara_db.Relational.Catalog.{open_db, create_table}
use svacara_db.Relational.Catalog.Names.{IsCatalog, create_table-IsCatalog}
use mathlib.Core.Logic.{inl}

abbrev id_col : Bytes
id_col = b'i' ∷ b'd' ∷ []

abbrev name_col : Bytes
name_col = b'n' ∷ []

abbrev by_name : IndexDef
by_name = record { name = b'x' ∷ []; keys = name_col ∷ []; unique = false }

-- (id INT64, n BYTES, PRIMARY KEY (id)), with an index on n
abbrev users : TableDef
users = record {
  name = b'u' ∷ [];
  cols = record { name = id_col; type = 1 } ∷ record { name = name_col; type = 2 } ∷ [];
  p_keys = 1;
  indexes = by_name ∷ [];
  prefix = 177690;
}

abbrev alice : Record
alice = record { cols = id_col ∷ name_col ∷ []; vals = int_value 7 ∷ bytes_value (b'A' ∷ []) ∷ [] }

abbrev by_id : Record
by_id = record { cols = id_col ∷ []; vals = int_value 7 ∷ [] }

alice_checked : check_record users alice 2 ≡ value (int_value 7 ∷ bytes_value (b'A' ∷ []) ∷ [])
unfolding check_record fill place check_keys first type_by_col_type
alice_checked = refl

id_checked : check_record users by_id 1 ≡ value (int_value 7 ∷ [])
unfolding check_record fill place check_keys first type_by_col_type
id_checked = refl

check_record_shape_example :
    AllKnown users.cols alice.cols
    × (length (int_value 7 ∷ bytes_value (b'A' ∷ []) ∷ []) ≡ length users.cols)
    × (length alice.cols ≤ length alice.vals)
check_record_shape_example =
    check_record_shape users alice 2 (int_value 7 ∷ bytes_value (b'A' ∷ []) ∷ []) (omega arith)
      alice_checked

-- A row without its primary key.
abbrev no_id : Record
no_id = record { cols = name_col ∷ []; vals = bytes_value (b'A' ∷ []) ∷ [] }

abbrev alice_key : Bytes
alice_key = 0 ∷ 2 ∷ 182 ∷ 26 ∷ 1 ∷ 128 ∷ 0 ∷ 0 ∷ 0 ∷ 0 ∷ 0 ∷ 0 ∷ 7 ∷ []

abbrev stored : Entries
stored = (alice_key, 2 ∷ b'A' ∷ 0 ∷ []) ∷ []

db_delete_crash_example : (db_delete assoc_storage users by_id stored).1 ≡ crash
unfolding be_bytes body encoding escape_bytes
db_delete_crash_example =
    db_delete_crash assoc_storage users by_name [] by_id (int_value 7 ∷ [])
      (bytes_value (b'A' ∷ []) ∷ []) stored id_checked (int64 7 (omega arith), tt)
      (bytes (b'A' ∷ []) (omega arith), tt) refl refl refl (inl (1, refl, omega arith))

created : (create_table (open_db stored) users).1 ≡ none
unfolding create_table open_db
created = refl

create_table-IsCatalog_example : IsCatalog (create_table (open_db stored) users).0.tables
unfolding open_db
create_table-IsCatalog_example = create_table-IsCatalog (open_db stored) users tt
