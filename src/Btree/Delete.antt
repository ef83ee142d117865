-- ===== src/Btree/Delete.antt =====
-- internal/btree/delete.go: deletion from nodes and from the tree, and the merge of nodes.
use svacara_db.Prelude.{
  ℕ, zero, suc, ◌+◌, ◌-◌, ◌/◌, Bool, true, false, Option, none, some, [], ◌∷◌, ltb, leb, ◌==◌,
  if◌then◌else◌, Outcome, ok, stuck, ◌>>=◌,
}
use svacara_db.Bytes.{Bytes}
use svacara_db.Bytes.Compare.{cmp}
use svacara_db.Btree.{Pager}
use svacara_db.Btree.Page.{Page, blank}
use svacara_db.Btree.Node.{
  header, page_size, bnode_leaf, bnode_internal, u16, btype, nkeys, nbytes, set_header, get_ptr,
  get_key, node_append_kv, node_append_range, node_lookup_le,
}
use svacara_db.Btree.Insert.{sub16, is_eq, node_replace_kid_n}

unfoldable pub node_merge : Page → Page → Page → Outcome Page
node_merge new left right = do
  type ← btype left
  n ← nkeys left
  m ← nkeys right
  new1 ← set_header new type (u16 (n + m))
  new2 ← node_append_range new1 left 0 0 n
  node_append_range new2 right n 0 m

unfoldable pub node_replace2_kid : Page → Page → ℕ → ℕ → Bytes → Outcome Page
node_replace2_kid new node idx ptr key = do
  n ← nkeys node
  new1 ← set_header new bnode_internal (sub16 n 1)
  new2 ← node_append_range new1 node 0 0 idx
  new3 ← node_append_kv new2 idx ptr key []
  node_append_range new3 node (u16 (idx + 1)) (u16 (idx + 2)) (sub16 n (u16 (idx + 2)))

-- The leaf without entry `idx`.
unfoldable pub leaf_delete : Page → ℕ → Outcome Page
leaf_delete node idx = do
  n ← nkeys node
  new1 ← set_header (blank page_size) bnode_leaf (sub16 n 1)
  new2 ← node_append_range new1 node 0 0 idx
  node_append_range new2 node idx (u16 (idx + 1)) (sub16 n (u16 (idx + 1)))

-- The sibling to merge with, on the left or on the right.
pub data Direction : Type 0 where
  none_fits : Direction
  with_left with_right : Page → Direction

-- Whether two nodes fit into one page, the sum and the difference in uint16.
abbrev pub merges : ℕ → ℕ → Bool
merges sibling updated = leb (sub16 (sibling + updated) header) page_size

module _ {T : Type 0} (pager : Pager T) where
  unfoldable pub try_right : T → Page → ℕ → ℕ → Outcome Direction
  try_right t node idx bytes = do
    n ← nkeys node
    elim (ltb (u16 (idx + 1)) n) [
      | false ↦ ok none_fits
      | true ↦ do
        ptr ← get_ptr node (u16 (idx + 1))
        sibling ← pager.get_page t ptr
        size ← nbytes sibling
        ok (if merges size bytes then with_right sibling else none_fits)
    ]

  unfoldable pub should_merge : T → Page → ℕ → Page → Outcome Direction
  should_merge t node idx updated = do
    bytes ← nbytes updated
    elim (ltb (page_size / 4) bytes) [
      | true ↦ ok none_fits
      | false ↦ elim (ltb 0 idx) [
        | false ↦ try_right t node idx bytes
        | true ↦ do
          ptr ← get_ptr node (idx - 1)
          sibling ← pager.get_page t ptr
          size ← nbytes sibling
          elim (merges size bytes) [
            | true ↦ ok (with_left sibling)
            | false ↦ try_right t node idx bytes
          ]
      ]
    ]

  -- `merged` takes the places `at` and `at + 1` of `node`, and the sibling's page is freed.
  unfoldable pub replace_merged : T → Page → ℕ → ℕ → Page → Outcome (T × Page)
  replace_merged t node at sibling_idx merged = do
    ptr ← get_ptr node sibling_idx
    t1 ← pager.del_page t ptr
    made ← pager.new_page t1 merged
    key ← get_key merged 0
    new ← node_replace2_kid (blank page_size) node at made.1 key
    ok (made.0, new)

  -- The four cases of the `switch` on the direction.
  unfoldable pub after_delete : T → Page → ℕ → Page → Direction → Outcome (T × Page)
  after_delete t node idx updated (with_left sibling) = do
    merged ← node_merge (blank page_size) sibling updated
    replace_merged t node (idx - 1) (idx - 1) merged
  after_delete t node idx updated (with_right sibling) = do
    merged ← node_merge (blank page_size) updated sibling
    replace_merged t node idx (u16 (idx + 1)) merged
  after_delete t node idx updated none_fits = do
    n ← nkeys updated
    elim n [
      | zero ↦ do new ← set_header (blank page_size) bnode_internal 0; ok (t, new)
      | suc m ↦ node_replace_kid_n pager t (blank page_size) node idx (updated ∷ [])
    ]

  -- On fuel, one for each level; `none` is the empty node that stands for an absent key.
  unfoldable pub tree_delete : ℕ → T → Page → Bytes → Outcome (T × Option Page)
  tree_delete zero t node key = stuck
  tree_delete (suc fuel) t node key = do
    idx ← node_lookup_le node key
    type ← btype node
    elim (type == bnode_leaf) [
      | true ↦ do
        k ← get_key node idx
        elim (is_eq (cmp key k)) [
          | false ↦ ok (t, none)
          | true ↦ do new ← leaf_delete node idx; ok (t, some new)
        ]
      | false ↦ elim (type == bnode_internal) [
        | false ↦ ok (t, none)
        | true ↦ do
          kptr ← get_ptr node idx
          kid ← pager.get_page t kptr
          done ← tree_delete fuel t kid key
          elim done.1 [
            | none ↦ ok (done.0, none)
            | some updated ↦ do
              t1 ← pager.del_page done.0 kptr
              direction ← should_merge t1 node idx updated
              made ← after_delete t1 node idx updated direction
              ok (made.0, some made.1)
          ]
      ]
    ]

  -- The state, the new root and whether the key was there.
  unfoldable pub delete : ℕ → T → ℕ → Bytes → Outcome (T × ℕ × Bool)
  delete fuel t zero key = ok (t, zero, false)
  delete fuel t (suc r) key = do
    node ← pager.get_page t (suc r)
    done ← tree_delete fuel t node key
    elim done.1 [
      | none ↦ ok (done.0, suc r, false)
      | some updated ↦ do
        t1 ← pager.del_page done.0 (suc r)
        n ← nkeys updated
        elim n [
          | zero ↦ ok (t1, 0, true)
          | suc m ↦ do made ← pager.new_page t1 updated; ok (made.0, made.1, true)
        ]
    ]
