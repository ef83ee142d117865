-- ===== src/Sql.antt =====
-- internal/sql: the nodes of parsed expressions (ast.go), the values that the executor takes from
-- them and its statements on tables (executor.go).
pub mod Planner
pub mod Rows
pub mod Aggregate
pub mod Lexer
pub mod Statements
mod Tests
use svacara_db.Prelude.{
  ℕ, zero, suc, ◌+◌, Bool, true, false, Option, none, some, List, [], ◌∷◌, ◌++◌, map, length, ◌==◌,
  if◌then◌else◌,
}
use svacara_db.Prelude.Int.{ℤ}
use svacara_db.Bytes.{Bytes}
use svacara_db.Encoding.{Value, zero_value, type_int64, type_bytes}
use svacara_db.Relational.{ColumnDef, IndexDef, TableDef, Record}

-- The node types of `QLNode`.
abbrev pub ql_ident : ℕ
ql_ident = 1

abbrev pub ql_i64 : ℕ
ql_i64 = 2

abbrev pub ql_str : ℕ
ql_str = 3

abbrev pub ql_and : ℕ
ql_and = 9

abbrev pub ql_lt : ℕ
ql_lt = 12

abbrev pub ql_ne : ℕ
ql_ne = 17

abbrev pub ql_func : ℕ
ql_func = 19

mutual
  -- The fields `Type`, `I64`, `Str`, `Cmp` and `Kids`.
  pub data QlNode : Type 0 where
    node : ℕ → ℕ → Bytes → ℤ → Nodes → QlNode

  pub data Nodes : Type 0 where
    end : Nodes
    kid : QlNode → Nodes → Nodes

abbrev pub node_type : QlNode → ℕ
node_type (node t i s c kids) = t

abbrev pub node_str : QlNode → Bytes
node_str (node t i s c kids) = s

unfoldable pub eval_node : QlNode → Value
eval_node (node t i s c kids) =
    if t == ql_i64
    then record (zero_value type_int64) { i64 = i }
    else if t == ql_str
    then record (zero_value type_bytes) { str = s }
    else if t == ql_ident
    then record (zero_value type_bytes) { str = s }
    else zero_value 0

unfoldable pub eval_nodes : Nodes → List Value
eval_nodes end = []
eval_nodes (kid n ns) = eval_node n ∷ eval_nodes ns

-- The column type of a type that the parser gives: 999 is its float64.
unfoldable pub sql_type_to_col_type : ℕ → ℕ
sql_type_to_col_type t =
    if t == ql_i64
    then 1
    else if t == ql_str
    then 2
    else if t == ql_and
    then 3
    else if t == 999
    then 4
    else 2
