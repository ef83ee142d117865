-- ===== src/Sql/Tests.antt =====
-- Runs of the SQL front end, and the instances of its theorems.
use svacara_db.Prelude.{
  ℕ, ◌≡◌, ◌≢◌, refl, arith, true, false, Ordering, some, List, [], ◌∷◌, All, take, drop, inl, ok,
}
use svacara_db.Prelude.Int.{pos}
use svacara_db.Encoding.{Value, zero_value, type_int64}
use svacara_db.Relational.{IndexDef, TableDef, Record}
use svacara_db.Sql.{QlNode, node, end, kid, ql_ident, ql_i64}
use svacara_db.Sql.Planner.{
  index_match, filter_columns, best_loop, select_index, IsChoice, select_index_best,
}
use svacara_db.Encoding.Order.{value_cmp}
use svacara_db.Sql.Rows.{window, window-take-drop}
use svacara_db.Sql.Aggregate.{cells_in, aggregate_min_max, IsCell, aggregate_min_max_best}
use svacara_db.Storage.Assoc.{Entries}
use svacara_db.Relational.Catalog.{Db, table_def}
use svacara_db.Sql.Statements.{QlCreateIndex}
use svacara_db.Sql.Lexer.Words.{p_keyword-prefix}
use svacara_db.Sql.Lexer.{p_keyword, Parser, new_parser, remaining, p_str}
use svacara_db.Sql.Lexer.Strings.{p_str-quoted}

-- `a = 7`
abbrev a_is_7 : QlNode
a_is_7 =
    node 16 0 [] (pos 0)
      (kid (node ql_ident 0 (97 ∷ []) (pos 0) end) (kid (node ql_i64 7 [] (pos 0) end) end))

abbrev by_b : IndexDef
by_b = record { name = 98 ∷ []; keys = (98 ∷ []) ∷ []; unique = false }

abbrev by_ab : IndexDef
by_ab = record { name = 99 ∷ []; keys = (97 ∷ []) ∷ (98 ∷ []) ∷ []; unique = false }

abbrev indexed : TableDef
indexed = record { name = 116 ∷ []; cols = []; p_keys = 1; indexes = by_b ∷ by_ab ∷ []; prefix = 0 }

filters_a : filter_columns a_is_7 ≡ ok ((97 ∷ []) ∷ [])
unfolding filter_columns
filters_a = refl

selects_ab : select_index indexed a_is_7 ≡ ok (some by_ab)
unfolding select_index filter_columns best_loop index_match
selects_ab = refl

select_index_best_example : IsChoice ((97 ∷ []) ∷ []) indexed.indexes by_ab
select_index_best_example =
    select_index_best indexed a_is_7 ((97 ∷ []) ∷ []) by_ab filters_a selects_ab

abbrev row : ℕ → Record
row n = record { cols = (97 ∷ []) ∷ []; vals = record (zero_value type_int64) { i64 = n } ∷ [] }

abbrev three_rows : List Record
three_rows = row 4 ∷ row 2 ∷ row 9 ∷ []

window-take-drop_example : window 1 1 0 three_rows ≡ take 1 (drop 1 three_rows)
window-take-drop_example = window-take-drop 1 1 three_rows (omega arith) (omega arith)

abbrev a_cells : List Value
a_cells = cells_in (97 ∷ []) three_rows

abbrev least_a : Value
least_a = aggregate_min_max true (97 ∷ []) three_rows

abbrev greatest_a : Value
greatest_a = aggregate_min_max false (97 ∷ []) three_rows

aggregate_min_max_best_example :
    IsCell least_a a_cells
    × All (λ v. value_cmp v least_a ≢ Ordering.lt) a_cells
    × IsCell greatest_a a_cells
    × All (λ v. value_cmp v greatest_a ≢ Ordering.gt) a_cells
aggregate_min_max_best_example =
    aggregate_min_max_best (97 ∷ []) three_rows type_int64 0
      (record (zero_value type_int64) { i64 = 4 }) (inl refl) (refl, (refl, (refl, tt))) refl

-- ` --c\n;`
abbrev commented : Parser
commented = new_parser (32 ∷ 45 ∷ 45 ∷ 99 ∷ 10 ∷ 59 ∷ [])

-- `'it\'s',`
abbrev literal : Parser
literal = new_parser (39 ∷ 105 ∷ 116 ∷ 92 ∷ 39 ∷ 115 ∷ 39 ∷ 44 ∷ [])

p_str-quoted_example :
    ((p_str literal).1 ≡ some (105 ∷ 116 ∷ 39 ∷ 115 ∷ [])) × (remaining (p_str literal).0 ≡ 44 ∷ [])
p_str-quoted_example = p_str-quoted literal 39 (105 ∷ 116 ∷ 39 ∷ 115 ∷ []) (44 ∷ []) (inl refl) refl

-- `nothing`
abbrev nothing : Parser
nothing = new_parser (110 ∷ 111 ∷ 116 ∷ 104 ∷ 105 ∷ 110 ∷ 103 ∷ [])

abbrev one_table : Db Entries
one_table = record { kv = []; tables = (116 ∷ [], indexed) ∷ [] }

-- `CREATE INDEX d ON t (a)`
abbrev makes_d : QlCreateIndex
makes_d = record { table = 116 ∷ []; name = 100 ∷ []; keys = (97 ∷ []) ∷ []; unique = false }

has_table : table_def one_table (116 ∷ []) ≡ some indexed
unfolding table_def
has_table = refl

-- `nothing`
abbrev nothing_parser : Parser
nothing_parser = new_parser (110 ∷ 111 ∷ 116 ∷ 104 ∷ 105 ∷ 110 ∷ 103 ∷ [])

p_keyword-prefix_example :
    ((p_keyword nothing_parser ((110 ∷ 111 ∷ 116 ∷ []) ∷ [])).1 ≡ true)
    × (remaining (p_keyword nothing_parser ((110 ∷ 111 ∷ 116 ∷ []) ∷ [])).0
        ≡ 104 ∷ 105 ∷ 110 ∷ 103 ∷ [])
p_keyword-prefix_example =
    p_keyword-prefix nothing_parser 110 (111 ∷ 116 ∷ []) (104 ∷ 105 ∷ 110 ∷ 103 ∷ [])
      ((omega arith, omega arith), ((omega arith, omega arith), ((omega arith, omega arith), tt)))
      refl
