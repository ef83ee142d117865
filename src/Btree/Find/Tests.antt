-- ===== src/Btree/Find/Tests.antt =====
-- A tree of two levels, and a lookup in it.
use svacara_db.Prelude.{ℕ, ◌^◌, ◌≤◌, ◌<◌, ◌≡◌, refl, arith, [], ◌∷◌, some, if◌then◌else◌, ◌==◌, ok}
use svacara_db.Bytes.{Bytes}
use svacara_db.Bytes.Compare.{cmp}
use svacara_db.Btree.{Pager}
use svacara_db.Btree.Page.{Page, blank}
use svacara_db.Btree.Node.{bnode_leaf, bnode_internal, set_header, node_append_kv}
use svacara_db.Btree.Node.Layout.{Entry, kv_size, IsNode}
use svacara_db.Btree.Node.Append.{Built, node_append_kv-Built}
use svacara_db.Btree.Leaf.{set_header-Built}
use svacara_db.Btree.Insert.{is_eq, get, insert}
use svacara_db.Btree.Find.Get.{Stands, get-find}
use svacara_db.Btree.Find.Insert.{insert-put}
use svacara_db.Btree.Leaf.Put.{find}
use svacara_db.Btree.Node.Lookup.{IsAscending}

-- A node of one entry.
abbrev one_header :
    (type : ℕ) → type < 2 ^ 16 → Built 4096 type 1 [] (set_header (blank 4096) type 1)
one_header type l = set_header-Built (blank 4096) type 1 l (omega arith) (omega arith)

abbrev one_entry :
    (type : ℕ) (l : type < 2 ^ 16) (e : Entry)
    → kv_size e ≤ 100
    → e.ptr < 2 ^ 64
    → Built
        (one_header type l).page.size
        type
        1
        (e ∷ [])
        (node_append_kv (one_header type l).page 0 e.ptr e.key e.val)
one_entry type l e small ptr =
    node_append_kv-Built (one_header type l).page type 1 [] e (one_header type l).partial
      (omega arith) ptr (omega (arith, (one_header type l).same_size))

abbrev pair_b : Entry
pair_b = record { ptr = 0; key = 98 ∷ []; val = 5 ∷ [] }

abbrev kid_b : Entry
kid_b = record { ptr = 7; key = 98 ∷ []; val = [] }

abbrev leaf_page : Page
leaf_page = (one_entry bnode_leaf (omega arith) pair_b (omega arith) (omega arith)).page

abbrev root_page : Page
root_page = (one_entry bnode_internal (omega arith) kid_b (omega arith) (omega arith)).page

leaf_page-IsNode : IsNode leaf_page bnode_leaf (pair_b ∷ [])
leaf_page-IsNode = (one_entry bnode_leaf (omega arith) pair_b (omega arith) (omega arith)).partial

root_page-IsNode : IsNode root_page bnode_internal (kid_b ∷ [])
root_page-IsNode =
    (one_entry bnode_internal (omega arith) kid_b (omega arith) (omega arith)).partial

-- Page 7 is the leaf, and every other page the root.
abbrev two_pages : Pager ℕ
two_pages = record {
  get_page = λ t ptr. if ptr == 7 then ok leaf_page else ok root_page;
  new_page = λ t page. ok (t, 8);
  del_page = λ t ptr. ok t;
}

two_pages-Stands : Stands two_pages 0 1 root_page ((kid_b, pair_b ∷ []) ∷ [])
unfolding cmp
two_pages-Stands = (
  root_page-IsNode,
  (tt, tt),
  omega arith,
  ((refl, tt), tt, tt),
  ((leaf_page, refl, (leaf_page-IsNode, (tt, tt), omega arith)), tt),
)

get-find_example : get two_pages 2 0 1 (98 ∷ []) ≡ ok (some (5 ∷ []))
unfolding cmp
get-find_example =
    get-find two_pages 0 1 0 root_page ((kid_b, pair_b ∷ []) ∷ []) (98 ∷ []) refl two_pages-Stands

abbrev pair_a : Entry
pair_a = record { ptr = 0; key = 97 ∷ []; val = 1 ∷ [] }

insert-put_example :
    (page : Page) × (insert two_pages 1 0 7 (97 ∷ []) (1 ∷ []) ≡ ok (0, 8))
    × IsNode page bnode_leaf (pair_a ∷ pair_b ∷ [])
    × IsAscending (pair_a ∷ pair_b ∷ [])
    × ((j : Bytes)
        → find j (pair_a ∷ pair_b ∷ [])
          ≡ (if is_eq (cmp j (97 ∷ [])) then some (1 ∷ []) else find j (pair_b ∷ [])))
unfolding cmp
insert-put_example =
    insert-put two_pages 0 0 6 leaf_page (pair_b ∷ []) (97 ∷ []) (1 ∷ []) leaf_page-IsNode (tt, tt)
      (omega arith) refl refl
