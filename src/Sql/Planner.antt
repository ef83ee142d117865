-- ===== src/Sql/Planner.antt =====
-- internal/sql/planner.go: the columns of a filter and the index that matches most of them.
use svacara_db.Prelude.{
  ℕ, suc, ◌≤◌, ◌≡◌, ◌≢◌, refl, sym, ap, ◌∙◌, arith, Bool, true, false, ◌&&◌, ◌||◌, Option, none,
  some, List, [], ◌∷◌, ◌++◌, All, take, get_elem?, ltb, leb, ◌==◌, Bool-cases, ◌⊎◌, inl, inr,
  if◌then◌else◌, Outcome, ok, panic, ◌>>=◌,
}
use mathlib.Core.Path.{subst}
use svacara_db.Bytes.{Bytes}
use svacara_db.Bytes.Compare.{bytes_eq}
use svacara_db.Relational.{IndexDef, TableDef}
use svacara_db.Sql.{QlNode, node, end, kid, node_type, node_str, ql_and, ql_lt, ql_ne, ql_ident}

-- The test of the second `if`, and what follows it, on the node's type and first child.
abbrev pub compared : ℕ → Option QlNode → Outcome (List Bytes)
compared t none = if leb ql_lt t && leb t ql_ne then panic else ok []
compared t (some n) =
    if leb ql_lt t && leb t ql_ne
    then (if node_type n == ql_ident then ok (node_str n ∷ []) else ok [])
    else ok []

unfoldable pub filter_columns : QlNode → Outcome (List Bytes)
filter_columns (node t i s c end) = if t == ql_and then panic else compared t none
filter_columns (node t i s c (kid l end)) = if t == ql_and then panic else compared t (some l)
filter_columns (node t i s c (kid l (kid r kids))) =
    let left = filter_columns l in
    let right = filter_columns r in
    if t == ql_and then left >>= (λ x. right >>= λ y. ok (x ++ y)) else compared t (some l)

abbrev pub contains_name : Bytes → List Bytes → Bool
contains_name k [] = false
contains_name k (c ∷ cols) = bytes_eq k c || contains_name k cols

unfoldable pub index_match : List Bytes → List Bytes → ℕ
index_match [] cols = 0
index_match (k ∷ keys) cols =
    let rest = index_match keys cols in if contains_name k cols then suc rest else 0

unfoldable pub best_loop : List Bytes → Option IndexDef → ℕ → List IndexDef → Option IndexDef × ℕ
best_loop cols best m [] = (best, m)
best_loop cols best m (idx ∷ indexes) =
    let n = index_match idx.keys cols in
    if ltb m n then best_loop cols (some idx) n indexes else best_loop cols best m indexes

abbrev pub chosen : Option IndexDef × ℕ → Option IndexDef
chosen (best, m) = if ltb 0 m then best else none

-- `cols == nil` of an empty slice that `append` never made is that it has no element.
abbrev pub pick : List IndexDef → List Bytes → Option IndexDef
pick indexes [] = none
pick indexes (c ∷ cols) = chosen (best_loop (c ∷ cols) none 0 indexes)

unfoldable pub select_index : TableDef → QlNode → Outcome (Option IndexDef)
select_index tdef filter =
    if node_type filter == 0
    then ok none
    else filter_columns filter >>= λ cols. ok (pick tdef.indexes cols)

-- `indexMatch` is the length of the longest prefix of the index's columns that the filter compares.
pub index_match_longest :
    (keys cols : List Bytes)
    → All (λ k. contains_name k cols ≡ true) (take (index_match keys cols) keys)
      × ((k : Bytes)
          → get_elem? keys (index_match keys cols) ≡ some k
          → contains_name k cols ≡ false)
unfolding index_match
index_match_longest [] cols = (tt, λ k h. absurd (ground arith))
index_match_longest (x ∷ keys) cols = elim (Bool-cases (contains_name x cols)) [
  | inl e ↦
      let (all, stop) = index_match_longest keys cols in
      (rw (index_match, e) (e, all), λ k h. stop k (rw (index_match, e) at h))
  | inr e ↦ (rw (index_match, e) tt, λ k h. ground arith)
]

-- An index of the list with a match of its own, or the index and the match from before.
record IsBest (cols : List Bytes) (m : ℕ) (indexes : List IndexDef) (best : Option IndexDef)
    (r : Option IndexDef × ℕ) : Type 0 where
  pub least : m ≤ r.1
  pub most : All (λ j. index_match j.keys cols ≤ r.1) indexes
  pub source :
      (r ≡ (best, m))
      ⊎ ((idx : IndexDef) × (at : ℕ) × (r ≡ (some idx, index_match idx.keys cols))
          × (get_elem? indexes at ≡ some idx))

best_loop-IsBest :
    (cols : List Bytes) (best : Option IndexDef) (m : ℕ) (indexes : List IndexDef)
    → IsBest cols m indexes best (best_loop cols best m indexes)
unfolding best_loop
best_loop-IsBest cols best m [] = record { least = omega arith; most = tt; source = inl refl }
best_loop-IsBest cols best m (idx ∷ indexes) =
    elim (Bool-cases (ltb m (index_match idx.keys cols))) [
      | inl e ↦
          let rest = best_loop-IsBest cols (some idx) (index_match idx.keys cols) indexes in
          rw (best_loop, e)
            (record {
              least = ground (arith, rest.least);
              most = (rest.least, rest.most);
              source = elim rest.source [
                | inl same ↦ inr (idx, 0, same, refl)
                | inr (j, at, same, found) ↦ inr (j, suc at, same, found)
              ];
            })
      | inr e ↦
          let rest = best_loop-IsBest cols best m indexes in
          rw (best_loop, e)
            (record {
              least = rest.least;
              most = (ground (arith, rest.least), rest.most);
              source = elim rest.source [
                | inl same ↦ inl same
                | inr (j, at, same, found) ↦ inr (j, suc at, same, found)
              ];
            })
    ]

-- The index stands in the list, matches at least one column, and no index of the list matches more.
pub record IsChoice (cols : List Bytes) (indexes : List IndexDef) (idx : IndexDef) : Type 0 where
  pub listed : (at : ℕ) × (get_elem? indexes at ≡ some idx)
  pub matches : 1 ≤ index_match idx.keys cols
  pub most : All (λ j. index_match j.keys cols ≤ index_match idx.keys cols) indexes

chosen-first : {r : Option IndexDef × ℕ} {idx : IndexDef} → r ≡ (none, 0) → chosen r ≢ some idx
chosen-first {r} {idx} same h =
    let gone : none ≡ some idx = sym (ap chosen same) ∙ h in absurd (ground (arith, gone))

chosen-later :
    (j : IndexDef) (m : ℕ) {idx : IndexDef} → chosen (some j, m) ≡ some idx → (j ≡ idx) × (1 ≤ m)
chosen-later j m h = (ground arith, ground arith)

chosen-IsChoice :
    (cols : List Bytes) (indexes : List IndexDef) (r : Option IndexDef × ℕ) (idx : IndexDef)
    → IsBest cols 0 indexes none r
    → chosen r ≡ some idx
    → IsChoice cols indexes idx
chosen-IsChoice cols indexes r idx b h = elim b.source [
  | inl same ↦ absurd (chosen-first same h)
  | inr (j, at, same, found) ↦
      let (e, m) =
        chosen-later j (index_match j.keys cols) (subst (λ q. chosen q ≡ some idx) same h) in
      let measure : r.1 ≡ index_match idx.keys cols =
        ap (λ q. q.1) same ∙ ap (λ i. index_match i.keys cols) e in
      record {
        listed = (at, found ∙ ap some e);
        matches = subst (λ i. 1 ≤ index_match i.keys cols) e m;
        most = subst (λ n. All (λ i. index_match i.keys cols ≤ n) indexes) measure b.most;
      }
]

pick-IsChoice :
    (cols : List Bytes) (indexes : List IndexDef) (idx : IndexDef)
    → pick indexes cols ≡ some idx
    → IsChoice cols indexes idx
pick-IsChoice [] indexes idx h = absurd (ground arith)
pick-IsChoice (c ∷ cols) indexes idx h =
    chosen-IsChoice (c ∷ cols) indexes _ idx (best_loop-IsBest (c ∷ cols) none 0 indexes) h

ok-injective : {A : Type 0} {a b : A} → ok a ≡ ok b → a ≡ b
ok-injective h = ground arith

-- The index that `selectIndex` returns is in the table's list, matches a column of the filter, and no
-- other index of the list matches more of them. The filter has a type and its columns are `cols`.
pub select_index_best :
    (tdef : TableDef) (filter : QlNode) (cols : List Bytes) (idx : IndexDef)
    → filter_columns filter ≡ ok cols
    → select_index tdef filter ≡ ok (some idx)
    → IsChoice cols tdef.indexes idx
unfolding select_index
select_index_best tdef filter cols idx c h = elim (Bool-cases (node_type filter == 0)) [
  | inl z ↦ absurd (ground (arith, simp z at h))
  | inr z ↦ pick-IsChoice cols tdef.indexes idx (ok-injective (rw (z, c) at h))
]
