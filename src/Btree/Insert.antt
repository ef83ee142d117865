-- ===== src/Btree/Insert.antt =====
-- internal/btree/insert.go: insertion into nodes and into the tree, and `Get`.
use svacara_db.Prelude.{
  ℕ, zero, suc, ◌+◌, ◌-◌, ◌*◌, ◌/◌, ◌%◌, ◌^◌, Bool, true, false, ◌&&◌, Option, none, some, List, [],
  ◌∷◌, length, ltb, leb, ◌==◌, if◌then◌else◌, Outcome, ok, stuck, ◌>>=◌, Ordering,
}
use svacara_db.Bytes.{Bytes}
use svacara_db.Bytes.Compare.{cmp}
use svacara_db.Btree.{Pager}
use svacara_db.Btree.Page.{Page, blank, copy_at}
use svacara_db.Btree.Node.{
  page_size, bnode_leaf, bnode_internal, u16, btype, nkeys, nbytes, set_header, get_ptr, offset_pos,
  get_key, get_val, node_append_kv, node_append_range, node_lookup_le,
}

-- A difference of two uint16.
abbrev pub sub16 : ℕ → ℕ → ℕ
sub16 a b = (a + 2 ^ 16 - b) % 2 ^ 16

unfoldable pub leaf_insert : Page → Page → ℕ → Bytes → Bytes → Outcome Page
leaf_insert new old idx key val = do
  n ← nkeys old
  new1 ← set_header new bnode_leaf (u16 (n + 1))
  new2 ← node_append_range new1 old 0 0 idx
  new3 ← node_append_kv new2 idx 0 key val
  node_append_range new3 old (u16 (idx + 1)) idx (sub16 n idx)

unfoldable pub leaf_update : Page → Page → ℕ → Bytes → Bytes → Outcome Page
leaf_update new old idx key val = do
  n ← nkeys old
  new1 ← set_header new bnode_leaf n
  new2 ← node_append_range new1 old 0 0 idx
  new3 ← node_append_kv new2 idx 0 key val
  node_append_range new3 old (u16 (idx + 1)) (u16 (idx + 1)) (sub16 n (u16 (idx + 1)))

-- The loop of `nodeSplit2` from entry `i` on, of `left` entries: the number that stays in the left node.
unfoldable pub split_loop : Page → ℕ → ℕ → ℕ → ℕ → Outcome ℕ
split_loop old total_bytes i accum zero = ok i
split_loop old total_bytes i accum (suc left) = do
  key ← get_key old i
  val ← get_val old i
  let kv_bytes = u16 (4 + u16 (length key) + u16 (length val))
  elim (ltb (total_bytes / 2) (u16 (accum + kv_bytes)) && ltb 0 i) [
    | true ↦ ok i
    | false ↦ split_loop old total_bytes (i + 1) (u16 (accum + kv_bytes)) left
  ]

unfoldable pub node_split2 : Page → Page → Page → Outcome (Page × Page)
node_split2 left right old = do
  n ← nkeys old
  total_bytes ← nbytes old
  split_idx ← split_loop old total_bytes 0 0 n
  type ← btype old
  left1 ← set_header left type split_idx
  left2 ← node_append_range left1 old 0 0 split_idx
  right1 ← set_header right type (sub16 n split_idx)
  right2 ← node_append_range right1 old 0 split_idx (sub16 n split_idx)
  ok (left2, right2)

-- The left half, if it is too long, is split again.
unfoldable pub split_left : Page → Page → Bool → Outcome (List Page)
split_left left right true = ok (left ∷ right ∷ [])
split_left left right false = do
  quarters ← node_split2 (blank page_size) (blank page_size) left
  ok (quarters.0 ∷ quarters.1 ∷ right ∷ [])

unfoldable pub split_pieces : Page → Bool → Outcome (List Page)
split_pieces old true = ok (old ∷ [])
split_pieces old false = do
  halves ← node_split2 (blank (2 * page_size)) (blank page_size) old
  left_bytes ← nbytes halves.0
  split_left halves.0 halves.1 (leb left_bytes page_size)

-- The nodes in use of the array that `nodeSplit3` returns.
unfoldable pub node_split3 : Page → Outcome (List Page)
node_split3 old = do bytes ← nbytes old; split_pieces old (leb bytes page_size)

abbrev pub is_eq : Ordering → Bool
is_eq Ordering.eq = true
is_eq o = false

abbrev pub is_greater : Ordering → Bool
is_greater Ordering.gt = true
is_greater o = false

-- The leaf case of `treeInsert`; `node.nkeys() > 0 &&` guards the reads of the key.
unfoldable pub insert_in_leaf : Page → Page → ℕ → Bytes → Bytes → Outcome Page
insert_in_leaf new node idx key val = do
  n ← nkeys node
  elim n [
    | zero ↦ leaf_insert new node idx key val
    | suc m ↦ do
      k ← get_key node idx
      elim (is_eq (cmp key k)) [
        | true ↦ leaf_update new node idx key val
        | false ↦
            leaf_insert new node (if is_greater (cmp key k) then u16 (idx + 1) else idx) key val
      ]
  ]

module _ {T : Type 0} (pager : Pager T) where
  -- The loop over the kids: each is stored and its pointer and first key are appended.
  unfoldable pub append_kids : T → Page → ℕ → List Page → Outcome (T × Page)
  append_kids t new idx [] = ok (t, new)
  append_kids t new idx (kid ∷ kids) = do
    made ← pager.new_page t kid
    key ← get_key kid 0
    new' ← node_append_kv new idx made.1 key []
    append_kids made.0 new' (u16 (idx + 1)) kids

  unfoldable pub node_replace_kid_n : T → Page → Page → ℕ → List Page → Outcome (T × Page)
  node_replace_kid_n t new old idx kids = do
    n ← nkeys old
    new1 ← set_header new bnode_internal (sub16 (n + length kids) 1)
    new2 ← node_append_range new1 old 0 0 idx
    made ← append_kids t new2 idx kids
    new3 ←
        node_append_range made.1 old (u16 (idx + length kids)) (u16 (idx + 1))
          (sub16 n (u16 (idx + 1)))
    ok (made.0, new3)

  -- On fuel, one for each level. A node of neither type gives the blank page.
  unfoldable pub tree_insert : ℕ → T → Page → Bytes → Bytes → Outcome (T × Page)
  tree_insert zero t node key val = stuck
  tree_insert (suc fuel) t node key val = do
    let new = blank (2 * page_size)
    idx ← node_lookup_le node key
    type ← btype node
    elim (type == bnode_leaf) [
      | true ↦ do leaf ← insert_in_leaf new node idx key val; ok (t, leaf)
      | false ↦ elim (type == bnode_internal) [
        | false ↦ ok (t, new)
        | true ↦ do
          kptr ← get_ptr node idx
          knode ← pager.get_page t kptr
          t1 ← pager.del_page t kptr
          done ← tree_insert fuel t1 knode key val
          split ← node_split3 done.1
          node_replace_kid_n done.0 new node idx split
      ]
    ]

  -- The loop of `Insert` over the nodes of a split root; it clears an offset before it appends.
  unfoldable pub append_halves : T → Page → ℕ → List Page → Outcome (T × Page)
  append_halves t root i [] = ok (t, root)
  append_halves t root i (knode ∷ knodes) = do
    made ← pager.new_page t knode
    pos ← offset_pos root (u16 (i + 1))
    root1 ← copy_at root pos (0 ∷ 0 ∷ [])
    key ← get_key knode 0
    root2 ← node_append_kv root1 i made.1 key []
    append_halves made.0 root2 (u16 (i + 1)) knodes

  -- The new root above a root that was split.
  unfoldable pub grow_root : T → List Page → Outcome (T × ℕ)
  grow_root t split = do
    root ← set_header (blank page_size) bnode_internal (length split)
    made ← append_halves t root 0 split
    pager.new_page made.0 made.1

  -- The root pointer is 0 for an empty tree.
  unfoldable pub insert : ℕ → T → ℕ → Bytes → Bytes → Outcome (T × ℕ)
  insert fuel t zero key val = do
    root ← set_header (blank page_size) bnode_leaf 1
    root' ← node_append_kv root 0 0 key val
    pager.new_page t root'
  insert fuel t (suc r) key val = do
    node ← pager.get_page t (suc r)
    t1 ← pager.del_page t (suc r)
    done ← tree_insert fuel t1 node key val
    split ← node_split3 done.1
    elim split [
      | [] ↦ ok (done.0, 0)
      | first ∷ more ↦ elim more [
        | [] ↦ pager.new_page done.0 first
        | second ∷ others ↦ grow_root done.0 (first ∷ second ∷ others)
      ]
    ]

  -- The loop of `Get`, on fuel: one for each level. A node of neither type loops for ever.
  unfoldable pub get_loop : ℕ → T → Page → Bytes → Outcome (Option Bytes)
  get_loop zero t node key = stuck
  get_loop (suc fuel) t node key = do
    idx ← node_lookup_le node key
    type ← btype node
    elim (type == bnode_leaf) [
      | true ↦ do
        k ← get_key node idx
        elim (is_eq (cmp key k)) [
          | true ↦ do val ← get_val node idx; ok (some val)
          | false ↦ ok none
        ]
      | false ↦ elim (type == bnode_internal) [
        | false ↦ get_loop fuel t node key
        | true ↦ do kptr ← get_ptr node idx; kid ← pager.get_page t kptr; get_loop fuel t kid key
      ]
    ]

  unfoldable pub get : ℕ → T → ℕ → Bytes → Outcome (Option Bytes)
  get fuel t zero key = ok none
  get fuel t (suc r) key = do node ← pager.get_page t (suc r); get_loop fuel t node key
