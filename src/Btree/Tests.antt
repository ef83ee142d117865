-- ===== src/Btree/Tests.antt =====
-- Nodes of two entries, and the instances of the theorems on nodes.
use svacara_db.Prelude.{◌^◌, ◌≤◌, ◌<◌, ◌≡◌, refl, arith, List, [], ◌∷◌, ◌++◌, ok}
use svacara_db.Bytes.Compare.{cmp}
use svacara_db.Btree.Page.{Page, blank}
use svacara_db.Btree.Node.{bnode_leaf, set_header, node_append_kv, node_lookup_le}
use svacara_db.Btree.Node.Layout.{Entry, kv_size, IsNode}
use svacara_db.Btree.Node.Append.{Built, node_append_kv-Built}
use svacara_db.Btree.Node.Lookup.{IsAscending, node_lookup_le-count}
use svacara_db.Btree.Leaf.{set_header-Built, leaf_delete-Built, node_merge-Built}
use svacara_db.Btree.Leaf.Put.{IsPut, insert_in_leaf-IsPut}
use svacara_db.Btree.Leaf.Split.{Halves, node_split2-Halves, node_split2-all_left}
use svacara_db.Btree.Insert.{node_split2}
use svacara_db.Btree.Delete.{leaf_delete, node_merge}

abbrev entry_a : Entry
entry_a = record { ptr = 0; key = 97 ∷ 97 ∷ []; val = 1 ∷ [] }

abbrev entry_c : Entry
entry_c = record { ptr = 0; key = 99 ∷ []; val = 3 ∷ 3 ∷ [] }

abbrev two_entries : List Entry
two_entries = entry_a ∷ entry_c ∷ []

abbrev wide_a : Entry
wide_a = record { ptr = 0; key = 97 ∷ []; val = 1 ∷ 2 ∷ 3 ∷ 4 ∷ 5 ∷ 6 ∷ 7 ∷ 8 ∷ 9 ∷ 10 ∷ [] }

abbrev wide_c : Entry
wide_c = record { ptr = 0; key = 99 ∷ []; val = 1 ∷ 2 ∷ 3 ∷ 4 ∷ 5 ∷ 6 ∷ 7 ∷ 8 ∷ 9 ∷ 10 ∷ [] }

abbrev with_header : Built 4096 bnode_leaf 2 [] (set_header (blank 4096) bnode_leaf 2)
with_header = set_header-Built (blank 4096) bnode_leaf 2 (omega arith) (omega arith) (omega arith)

module _ (a c : Entry) (small_a : kv_size a ≤ 100) (small_c : kv_size c ≤ 100)
    (ptr_a : a.ptr < 2 ^ 64) (ptr_c : c.ptr < 2 ^ 64) where
  abbrev with_first :
      Built with_header.page.size bnode_leaf 2
        (a ∷ [])
        (node_append_kv with_header.page 0 a.ptr a.key a.val)
  with_first =
      node_append_kv-Built with_header.page bnode_leaf 2 [] a with_header.partial (omega arith)
        ptr_a (omega (arith, with_header.same_size))

  abbrev pair_leaf :
      Built with_first.page.size bnode_leaf 2
        (a ∷ c ∷ [])
        (node_append_kv with_first.page 1 c.ptr c.key c.val)
  pair_leaf =
      node_append_kv-Built with_first.page bnode_leaf 2 (a ∷ []) c with_first.partial (omega arith)
        ptr_c (omega (arith, with_first.same_size, with_header.same_size))

abbrev leaf : Page
leaf = (pair_leaf entry_a entry_c (omega arith) (omega arith) (omega arith) (omega arith)).page

leaf-IsNode : IsNode leaf bnode_leaf two_entries
leaf-IsNode =
    (pair_leaf entry_a entry_c (omega arith) (omega arith) (omega arith) (omega arith)).partial

abbrev wide : Page
wide = (pair_leaf wide_a wide_c (omega arith) (omega arith) (omega arith) (omega arith)).page

wide-IsNode : IsNode wide bnode_leaf (wide_a ∷ wide_c ∷ [])
wide-IsNode =
    (pair_leaf wide_a wide_c (omega arith) (omega arith) (omega arith) (omega arith)).partial

leaf-IsAscending : IsAscending two_entries
unfolding cmp
leaf-IsAscending = ((refl, tt), (tt, tt))

found_b : node_lookup_le leaf (98 ∷ []) ≡ ok 0
unfolding cmp
found_b = node_lookup_le-count leaf bnode_leaf two_entries leaf-IsNode leaf-IsAscending (98 ∷ [])

node_lookup_le-count_example : node_lookup_le leaf (99 ∷ 0 ∷ []) ≡ ok 1
unfolding cmp
node_lookup_le-count_example =
    node_lookup_le-count leaf bnode_leaf two_entries leaf-IsNode leaf-IsAscending (99 ∷ 0 ∷ [])

insert_in_leaf-IsPut_example :
    IsPut leaf two_entries leaf-IsNode leaf-IsAscending (98 ∷ []) (7 ∷ []) (omega arith) 0
insert_in_leaf-IsPut_example =
    insert_in_leaf-IsPut leaf two_entries leaf-IsNode leaf-IsAscending (98 ∷ []) (7 ∷ [])
      (omega arith) 0 found_b

leaf_without_a : Built 4096 bnode_leaf 1 (entry_c ∷ []) (leaf_delete leaf 0)
leaf_without_a =
    leaf_delete-Built leaf bnode_leaf two_entries 0 leaf-IsNode (omega arith) (omega arith)

node_merge-Built_example :
    Built 4096 bnode_leaf 4 (two_entries ++ two_entries) (node_merge (blank 4096) leaf leaf)
node_merge-Built_example =
    node_merge-Built (blank 4096) leaf leaf bnode_leaf bnode_leaf two_entries two_entries
      leaf-IsNode leaf-IsNode (omega arith) (omega arith)

node_split2-all_left_example :
    Halves 4096 4096 bnode_leaf two_entries [] (node_split2 (blank 4096) (blank 4096) leaf)
node_split2-all_left_example =
    node_split2-all_left (blank 4096) (blank 4096) leaf bnode_leaf two_entries leaf-IsNode
      (omega arith) (omega arith) (omega arith) (omega arith) (omega arith)

node_split2-Halves_example :
    Halves 8192 4096 bnode_leaf
      (wide_a ∷ [])
      (wide_c ∷ [])
      (node_split2 (blank 8192) (blank 4096) wide)
node_split2-Halves_example =
    node_split2-Halves (blank 8192) (blank 4096) wide bnode_leaf (wide_a ∷ wide_c ∷ []) wide-IsNode
      (omega arith) (omega arith) (omega arith) (omega arith)
