-- ===== src/Btree/Leaf.antt =====
-- The operations on one node, as operations on its list of entries.
pub mod Put
pub mod Split
use svacara_db.Prelude.{
  ℕ, zero, suc, ◌+◌, ◌-◌, ◌*◌, ◌%◌, ◌^◌, ◌≤◌, ◌<◌, ◌≡◌, refl, sym, ap, ◌∙◌, arith, List, [], ◌∷◌,
  ◌++◌, length, length-append, length-take, length-drop, take, drop, take-append-drop, append_assoc,
  Outcome, ok, ◌>>=◌, inl, inr,
}
use mathlib.Core.Path.{subst}
use svacara_db.Bytes.{Bytes}
use svacara_db.Bytes.Little.{le_bytes, length-le_bytes}
use svacara_db.Btree.Page.{Page, blank, read, overlay, poke, put_le}
use svacara_db.Btree.Page.Overlay.{read-overlay, read-overlay_apart, put_le-ok}
use svacara_db.Btree.Node.{
  page_size, bnode_leaf, u16, nkeys, set_header, node_append_kv, node_append_range,
}
use svacara_db.Btree.Node.Layout.{Entry, kv_size, total, IsPartial, IsNode}
use svacara_db.Btree.Node.Read.{nkeys-IsPartial, btype-IsPartial}
use svacara_db.Btree.Node.Append.{
  Built, Built-cast, read-put, kept, total-append, node_append_kv-Built, node_append_range-Built,
}
use svacara_db.Btree.Insert.{sub16, leaf_insert, leaf_update}
use svacara_db.Btree.Delete.{leaf_delete, node_merge}

-- A header on a page with room for its entries.
pub set_header-Built :
    (p : Page) (type n : ℕ)
    → type < 2 ^ 16
    → 4 + 10 * n ≤ p.size
    → p.size ≤ 2 ^ 15
    → Built p.size type n [] (set_header p type n)
unfolding set_header
set_header-Built p type n t f s =
    let p1 = poke p 0 (le_bytes 2 type) in
    let step1 : put_le 2 p 0 type ≡ ok p1 = put_le-ok 2 p 0 type (omega arith) in
    let step2 : put_le 2 p1 2 n ≡ ok (poke p1 2 (le_bytes 2 n)) =
      put_le-ok 2 p1 2 n (omega arith) in
    record {
      page = poke p1 2 (le_bytes 2 n);
      run = rw (set_header, step1) step2;
      partial = record {
        typed = kept p1.byte 2 (le_bytes 2 n) 0 2 _ (inl (omega arith)) (read-put p.byte 0 2 type);
        counted = read-put p1.byte 2 2 n;
        layout = tt;
        type_small = t;
        room = omega arith;
        fits = omega arith;
        size_small = s;
      };
      same_size = refl;
    }

total-split : (i : ℕ) (es : List Entry) → total (take i es) + total (drop i es) ≡ total es
total-split i es = sym (total-append (take i es) (drop i es)) ∙ ap total (take-append-drop i es)

length-split : (i : ℕ) (es : List Entry) → length (take i es) + length (drop i es) ≡ length es
length-split i es = sym (length-append (take i es) (drop i es)) ∙ ap length (take-append-drop i es)

total-drop : (i : ℕ) (es : List Entry) → total (drop (suc i) es) ≤ total (drop i es)
total-drop zero [] = omega arith
total-drop (suc i) [] = omega arith
total-drop zero (e ∷ es) = omega arith
total-drop (suc i) (e ∷ es) = total-drop i es

take-full : (k : ℕ) (es : List Entry) → length es ≤ k → take k es ≡ es
take-full zero [] l = refl
take-full zero (e ∷ es) l = absurd (omega arith)
take-full (suc k) [] l = refl
take-full (suc k) (e ∷ es) l = ap (λ l. e ∷ l) (take-full k es (omega arith))

-- A chain of steps on pages: the next one goes on from any page as the step before gave.
pub Built-bind :
    {size type n : ℕ} {es fs : List Entry} {o : Outcome Page} {k : Page → Outcome Page}
    → Built size type n es o
    → ((p : Page) → IsPartial p type n es → p.size ≡ size → Built p.size type n fs (k p))
    → Built size type n fs (o >>= k)
Built-bind {size} {type} {n} {es} {fs} {o} {k} b f =
    subst (λ z. Built z type n fs (o >>= k)) b.same_size
      (Built-cast refl (ap (λ x. x >>= k) b.run) (f b.page b.partial b.same_size))

module _ (new old : Page) (type' : ℕ) (os : List Entry) (idx : ℕ) (o : IsNode old type' os)
    (inside : idx ≤ length os) where
  taken : length (take idx os) ≡ idx
  taken = length-take idx os ∙ omega arith

  -- A header, the entries before `idx` of the old node, one more, and the old node's from `src` on.
  pub replace_at : ℕ → ℕ → Entry → ℕ → Outcome Page
  replace_at type n e src = do
    new1 ← set_header new type n
    new2 ← node_append_range new1 old 0 0 idx
    new3 ← node_append_kv new2 idx e.ptr e.key e.val
    node_append_range new3 old (u16 (idx + 1)) src (length os - src)

  pub replace_at-Built :
      (type n : ℕ) (e : Entry) (src : ℕ)
      → type < 2 ^ 16
      → e.ptr < 2 ^ 64
      → src ≤ length os
      → idx + 1 + (length os - src) ≤ n
      → 4 + 10 * n + total (take idx os) + kv_size e + total (drop src os) ≤ new.size
      → new.size ≤ 2 ^ 15
      → Built new.size type n ((take idx os ++ e ∷ []) ++ drop src os) (replace_at type n e src)
  unfolding replace_at
  replace_at-Built type n e src t small at room f s =
      Built-bind (set_header-Built new type n t (omega arith) s) λ p1 h1 s1.
        Built-bind
          (node_append_range-Built idx p1 old type n type' 0 [] os h1 o (omega arith) (omega arith)
            (omega arith))
          λ p2 h2 s2.
            Built-bind
              (Built-cast refl (ap (λ k. node_append_kv p2 k e.ptr e.key e.val) (sym taken)) (
                node_append_kv-Built p2 type n (take idx os) e h2 (omega (arith, taken)) small
                  (omega arith)))
              λ p3 h3 s3. last_range p3 h3 (omega arith)
    where
      last_range :
          (p : Page)
          → IsPartial p type n (take idx os ++ e ∷ [])
          → 4 + 10 * n + total (take idx os) + kv_size e + total (drop src os) ≤ p.size
          → Built p.size type n
              ((take idx os ++ e ∷ []) ++ drop src os)
              (node_append_range p old (u16 (idx + 1)) src (length os - src))
      last_range p h fits =
          let longer : length (take idx os ++ e ∷ []) ≡ idx + 1 =
            length-append (take idx os) (e ∷ []) ∙ omega (arith, taken) in
          let full : take (length os - src) (drop src os) ≡ drop src os =
            take-full (length os - src) (drop src os) (omega (arith, length-drop src os)) in
          let all : total (take (length os - src) (drop src os)) ≡ total (drop src os) =
            ap total full in
          let more : total (take idx os ++ e ∷ []) ≡ total (take idx os) + kv_size e =
            omega (arith, total-append (take idx os) (e ∷ [])) in
          let at_idx : u16 (idx + 1) ≡ length (take idx os ++ e ∷ []) =
            omega (arith, longer, o.fits, o.size_small) in
          Built-cast (ap (λ l. (take idx os ++ e ∷ []) ++ l) full)
            (ap (λ k. node_append_range p old k src (length os - src)) at_idx)
            (node_append_range-Built (length os - src) p old type n type' src
              (take idx os ++ e ∷ []) os h o (omega arith) (omega (arith, longer)) (omega arith))

  -- `leafInsert` puts a pair before entry `idx`, if the pairs fit into the new page.
  pub leaf_insert-Built :
      (key val : Bytes)
      → 4 + 10 * suc (length os) + total os + (4 + length key + length val) ≤ new.size
      → new.size ≤ 2 ^ 15
      → Built new.size bnode_leaf
          (suc (length os))
          (take idx os ++ record { ptr = 0; key = key; val = val } ∷ drop idx os)
          (leaf_insert new old idx key val)
  unfolding leaf_insert replace_at
  leaf_insert-Built key val f s =
      let e : Entry = record { ptr = 0; key = key; val = val } in
      let n : u16 (length os + 1) ≡ suc (length os) = omega (arith, o.fits, o.size_small) in
      let k : sub16 (length os) idx ≡ length os - idx = omega (arith, o.fits, o.size_small) in
      let cut = total-split idx os in
      Built-cast (append_assoc (take idx os) (e ∷ []) (drop idx os))
        (rw (nkeys-IsPartial old type' (length os) os o, n, k) refl)
        (replace_at-Built bnode_leaf (suc (length os)) e idx (omega arith) (omega arith) inside
          (omega arith) (omega arith) s)

  -- `leafUpdate` puts a pair in the place of entry `idx`.
  pub leaf_update-Built :
      (key val : Bytes)
      → idx < length os
      → 4 + 10 * length os + total os + (4 + length key + length val) ≤ new.size
      → new.size ≤ 2 ^ 15
      → Built new.size bnode_leaf
          (length os)
          (take idx os ++ record { ptr = 0; key = key; val = val } ∷ drop (suc idx) os)
          (leaf_update new old idx key val)
  unfolding leaf_update replace_at
  leaf_update-Built key val l f s =
      let e : Entry = record { ptr = 0; key = key; val = val } in
      let src : u16 (idx + 1) ≡ suc idx = omega (arith, o.fits, o.size_small) in
      let k : sub16 (length os) (suc idx) ≡ length os - suc idx =
        omega (arith, o.fits, o.size_small) in
      let cut = total-split idx os in
      let fewer = total-drop idx os in
      Built-cast (append_assoc (take idx os) (e ∷ []) (drop (suc idx) os))
        (rw (nkeys-IsPartial old type' (length os) os o, src, k) refl)
        (replace_at-Built bnode_leaf (length os) e (suc idx) (omega arith) (omega arith) l
          (omega arith) (omega arith) s)

-- A leaf without entry `idx`.
pub leaf_delete-Built :
    (old : Page) (type : ℕ) (os : List Entry) (idx : ℕ)
    → IsNode old type os
    → idx < length os
    → 4 + 10 * length os + total os ≤ page_size
    → Built page_size bnode_leaf
        (length os - 1)
        (take idx os ++ drop (suc idx) os)
        (leaf_delete old idx)
unfolding leaf_delete
leaf_delete-Built old type os idx o l f =
    let n : sub16 (length os) 1 ≡ length os - 1 = omega (arith, o.fits, o.size_small) in
    let src : u16 (idx + 1) ≡ suc idx = omega (arith, o.fits, o.size_small) in
    let k : sub16 (length os) (suc idx) ≡ length os - suc idx =
      omega (arith, o.fits, o.size_small) in
    let taken : length (take idx os) ≡ idx = length-take idx os ∙ omega arith in
    let full : take (length os - suc idx) (drop (suc idx) os) ≡ drop (suc idx) os =
      take-full (length os - suc idx) (drop (suc idx) os)
        (omega (arith, length-drop (suc idx) os)) in
    let all : total (take (length os - suc idx) (drop (suc idx) os)) ≡ total (drop (suc idx) os) =
      ap total full in
    let cut = total-split idx os in
    let fewer = total-drop idx os in
    Built-cast (ap (λ l. take idx os ++ l) full)
      (rw (nkeys-IsPartial old type (length os) os o, n, src, k) refl)
      (Built-bind
        (set_header-Built (blank page_size) bnode_leaf (length os - 1) (omega arith) (omega arith)
          (omega arith))
        λ p1 h1 s1.
          Built-bind
            (node_append_range-Built idx p1 old bnode_leaf (length os - 1) type 0 [] os h1 o
              (omega arith) (omega arith) (omega arith))
            λ p2 h2 s2.
              Built-cast refl
                (ap (λ i. node_append_range p2 old i (suc idx) (length os - suc idx)) (sym taken))
                (node_append_range-Built (length os - suc idx) p2 old bnode_leaf (length os - 1)
                  type (suc idx) (take idx os) os h2 o (omega arith) (omega (arith, taken))
                  (omega arith)))

-- `nodeMerge` of two pages that hold entries ends with a page of the entries of the left one
-- and then those of the right one, if they fit into the new page, of at most 32768 bytes.
pub node_merge-Built :
    (new left right : Page) (type type' : ℕ) (ls rs : List Entry)
    → IsNode left type ls
    → IsNode right type' rs
    → 4 + 10 * (length ls + length rs) + total ls + total rs ≤ new.size
    → new.size ≤ 2 ^ 15
    → Built new.size type (length ls + length rs) (ls ++ rs) (node_merge new left right)
unfolding node_merge
node_merge-Built new left right type type' ls rs hl hr f s =
    let sum : u16 (length ls + length rs) ≡ length ls + length rs = omega arith in
    let all_left : take (length ls) ls ≡ ls = take-full (length ls) ls (omega arith) in
    let all_right : take (length rs) rs ≡ rs = take-full (length rs) rs (omega arith) in
    let tl : total (take (length ls) ls) ≡ total ls = ap total all_left in
    let tr : total (take (length rs) rs) ≡ total rs = ap total all_right in
    Built-cast (ap (λ l. ls ++ l) all_right)
      (rw
        (
          btype-IsPartial left type (length ls) ls hl,
          nkeys-IsPartial left type (length ls) ls hl,
          nkeys-IsPartial right type' (length rs) rs hr,
          sum,
        )
        refl)
      (Built-bind (set_header-Built new type (length ls + length rs) hl.type_small (omega arith) s)
        λ p1 h1 s1.
          Built-bind
            (Built-cast all_left refl (
              node_append_range-Built (length ls) p1 left type (length ls + length rs) type 0 [] ls
                h1 hl (omega arith) (omega arith) (omega arith)))
            λ p2 h2 s2.
              node_append_range-Built (length rs) p2 right type (length ls + length rs) type' 0 ls
                rs h2 hr (omega arith) (omega arith) (omega arith))
