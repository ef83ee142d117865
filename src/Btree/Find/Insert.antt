-- ===== src/Btree/Find/Insert.antt =====
-- `Insert` into a tree that is one leaf, and the page that it makes.
use svacara_db.Prelude.{
  ℕ, suc, ◌+◌, ◌-◌, ◌*◌, ◌≤◌, ◌<◌, ◌≡◌, refl, ap, arith, true, some, List, [], ◌∷◌, length, leb,
  ◌==◌, if◌then◌else◌, ok, ◌>>=◌,
}
use svacara_db.Bytes.{Bytes}
use svacara_db.Bytes.Compare.{cmp}
use svacara_db.Btree.{Pager}
use svacara_db.Btree.Page.{Page}
use svacara_db.Btree.Node.{page_size, bnode_leaf, nbytes}
use svacara_db.Btree.Node.Layout.{Entry, kv_size, total, IsNode}
use svacara_db.Btree.Node.Read.{btype-IsPartial}
use svacara_db.Btree.Node.Lookup.{IsAscending, count_le, node_lookup_le-count}
use svacara_db.Btree.Insert.{is_eq, split_pieces, node_split3, tree_insert, insert}
use svacara_db.Btree.Leaf.Put.{put, find, find-put, put-IsAscending, IsPut, insert_in_leaf-IsPut}
use svacara_db.Btree.Leaf.Split.{nbytes-IsNode}

-- The size of a list after an insertion.
put_size :
    (e : Entry) (es : List Entry)
    → (10 * length (put e es) + total (put e es) ≤ 10 + kv_size e + (10 * length es + total es))
      × (0 < length (put e es))
put_size e [] = (omega arith, omega arith)
put_size e (x ∷ es) = ground (arith, put_size e es)

node_split3_small :
    (p : Page) (bytes : ℕ)
    → nbytes p ≡ ok bytes
    → leb bytes page_size ≡ true
    → node_split3 p ≡ ok (p ∷ [])
unfolding node_split3 split_pieces
node_split3_small p bytes e small = rw (node_split3, e) (ap (split_pieces p) small)

node_split3-whole :
    (p : Page) (type : ℕ) (es : List Entry)
    → IsNode p type es
    → 4 + 10 * length es + total es ≤ page_size
    → node_split3 p ≡ ok (p ∷ [])
node_split3-whole p type es h l =
    node_split3_small p (4 + 10 * length es + total es) (nbytes-IsNode p type es h) (ground arith)

module _ {T : Type 0} (pager : Pager T) (t t1 : T) (r : ℕ) (node : Page) (es : List Entry)
    (key val : Bytes) (h : IsNode node bnode_leaf es) (asc : IsAscending es)
    (fits : 4 + 10 * suc (length es) + total es + (4 + length key + length val) ≤ page_size)
    (found : pager.get_page t (suc r) ≡ ok node) (freed : pager.del_page t (suc r) ≡ ok t1) where
  abbrev pair : Entry
  pair = record { ptr = 0; key = key; val = val }

  abbrev idx : ℕ
  idx = if count_le key es == 0 then 0 else count_le key es - 1

  built : IsPut node es h asc key val (omega arith) idx
  built =
      insert_in_leaf-IsPut node es h asc key val (omega arith) idx
        (node_lookup_le-count node bnode_leaf es h asc key)

  -- `Insert` into a tree of one leaf whose keys ascend frees the leaf and makes one page, of whatever
  -- `new_page` answers. That page is a leaf of the old pairs with the new one put into them: its keys
  -- ascend, the key has the value, and every other key has what it had. The leaf with the pair fits
  -- into one page.
  pub insert-put :
      (page : Page) × (insert pager 1 t (suc r) key val ≡ pager.new_page t1 page)
      × IsNode page bnode_leaf (put pair es)
      × IsAscending (put pair es)
      × ((j : Bytes) → find j (put pair es) ≡ (if is_eq (cmp j key) then some val else find j es))
  unfolding insert tree_insert
  insert-put =
      let size = put_size pair es in
      let whole =
        node_split3-whole built.page bnode_leaf (put pair es) built.partial
          (omega (arith, size.0)) in
      let run : tree_insert pager 1 t1 node key val ≡ ok (t1, built.page) =
        rw
          (
            tree_insert,
            node_lookup_le-count node bnode_leaf es h asc key,
            btype-IsPartial node bnode_leaf (length es) es h,
          )
          (ap (λ o. o >>= λ leaf. ok (t1, leaf)) built.run) in
      (
        built.page,
        rw (insert, found, freed, run, whole) refl,
        built.partial,
        put-IsAscending pair es asc,
        λ j. find-put j pair es,
      )
