-- ===== src/Btree/Iterator.antt =====
-- internal/btree/iterator.go: the iterator keeps the nodes from the root down to a leaf and a position
-- in each of them.
use svacara_db.Prelude.{
  ℕ, zero, suc, ◌+◌, Bool, true, false, List, [], ◌∷◌, ◌++◌, length, ltb, ◌==◌, Outcome, ok, panic,
  stuck, ◌>>=◌,
}
use svacara_db.Bytes.{Bytes}
use svacara_db.Btree.{Pager}
use svacara_db.Btree.Page.{Page}
use svacara_db.Btree.Node.{
  bnode_leaf, bnode_internal, u16, btype, nkeys, get_ptr, get_key, get_val, node_lookup_le,
}

pub record BIter : Type 0 where
  pub path : List Page
  pub pos : List ℕ

-- An element of a slice, and a slice with an element changed; out of range both panic.
unfoldable pub at_index : {A : Type 0} → List A → ℕ → Outcome A
at_index [] i = panic
at_index (x ∷ xs) zero = ok x
at_index (x ∷ xs) (suc i) = at_index xs i

unfoldable pub set_index : {A : Type 0} → List A → ℕ → A → Outcome (List A)
set_index [] i y = panic
set_index (x ∷ xs) zero y = ok (y ∷ xs)
set_index (x ∷ xs) (suc i) y = do xs' ← set_index xs i y; ok (x ∷ xs')

-- The last element: index `len - 1`, which is negative for an empty slice.
unfoldable pub last_of : {A : Type 0} → List A → Outcome A
last_of [] = panic
last_of (x ∷ xs) = at_index (x ∷ xs) (length xs)

unfoldable pub valid : BIter → Outcome Bool
valid iter = elim (length iter.path == 0) [
  | true ↦ ok false
  | false ↦ do leaf ← last_of iter.path; p ← last_of iter.pos; n ← nkeys leaf; ok (ltb p n)
]

unfoldable pub iter_key : BIter → Outcome Bytes
iter_key iter = do leaf ← last_of iter.path; p ← last_of iter.pos; get_key leaf p

unfoldable pub iter_val : BIter → Outcome Bytes
iter_val iter = do leaf ← last_of iter.path; p ← last_of iter.pos; get_val leaf p

module _ {T : Type 0} (pager : Pager T) (t : T) where
  -- The loop of `SeekLE`, on fuel: one for each level.
  unfoldable pub seek_loop : ℕ → BIter → Page → Bytes → Outcome BIter
  seek_loop zero iter node key = stuck
  seek_loop (suc fuel) iter node key = do
    idx ← node_lookup_le node key
    let iter' : BIter = record { path = iter.path ++ node ∷ []; pos = iter.pos ++ idx ∷ [] }
    type ← btype node
    elim (type == bnode_leaf) [
      | true ↦ ok iter'
      | false ↦ do ptr ← get_ptr node idx; kid ← pager.get_page t ptr; seek_loop fuel iter' kid key
    ]

  unfoldable pub seek_le : ℕ → ℕ → Bytes → Outcome BIter
  seek_le fuel zero key = ok (record { path = []; pos = [] })
  seek_le fuel (suc r) key = do
    node ← pager.get_page t (suc r)
    seek_loop fuel (record { path = []; pos = [] }) node key

  -- The inner loop of `Next`, down to the first leaf below `child`: it appends to the path.
  unfoldable pub descend : ℕ → BIter → Page → Outcome BIter
  descend zero iter child = stuck
  descend (suc fuel) iter child = do
    type ← btype child
    elim (type == bnode_internal) [
      | false ↦ ok iter
      | true ↦ do
        ptr ← get_ptr child 0
        kid ← pager.get_page t ptr
        descend fuel (record { path = iter.path ++ kid ∷ []; pos = iter.pos ++ 0 ∷ [] }) kid
    ]

  -- The child behind the entry at the level, and its first leaf.
  unfoldable pub next_child : ℕ → BIter → ℕ → Page → ℕ → Outcome BIter
  next_child fuel iter level node p = do
    pos1 ← set_index iter.pos level p
    ptr ← get_ptr node p
    child ← pager.get_page t ptr
    path1 ← set_index iter.path (suc level) child
    pos2 ← set_index pos1 (suc level) 0
    descend fuel (record { path = path1; pos = pos2 }) child

  -- The loop of `Next` over the levels above, from the lowest.
  unfoldable pub climb : ℕ → BIter → ℕ → Outcome BIter
  climb fuel iter zero = ok (record { path = []; pos = [] })
  climb fuel iter (suc level) = do
    node ← at_index iter.path level
    p ← at_index iter.pos level
    n ← nkeys node
    elim (ltb (u16 (p + 1)) n) [
      | true ↦ next_child fuel iter level node (u16 (p + 1))
      | false ↦ climb fuel iter level
    ]

  unfoldable pub next : ℕ → BIter → Outcome BIter
  next fuel iter = elim iter.path [
    | [] ↦ panic
    | root ∷ below ↦ do
      leaf ← at_index iter.path (length below)
      p ← at_index iter.pos (length below)
      n ← nkeys leaf
      elim (ltb (u16 (p + 1)) n) [
        | true ↦ do
          pos ← set_index iter.pos (length below) (u16 (p + 1))
          ok (record { path = iter.path; pos = pos })
        | false ↦ climb fuel iter (length below)
      ]
  ]
