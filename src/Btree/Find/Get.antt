-- ===== src/Btree/Find/Get.antt =====
-- The loop of `Get`, level by level.
use svacara_db.Prelude.{
  ℕ, zero, suc, ◌<◌, ◌≡◌, refl, sym, ap, ◌∙◌, arith, true, false, none, some, List, [], ◌∷◌, map,
  All, length, get_elem?, drop-get_elem?, Bool-cases, ◌⊎◌, inl, inr, ok, ◌>>=◌, Ordering,
}
use mathlib.Core.Path.{subst}
use svacara_db.Bytes.{Bytes}
use svacara_db.Bytes.Compare.{cmp, cmp_refl}
use svacara_db.Btree.{Pager}
use svacara_db.Btree.Page.{Page}
use svacara_db.Btree.Node.{bnode_leaf, bnode_internal, is_le, node_lookup_le, get_val}
use svacara_db.Btree.Node.Layout.{Entry, IsNode}
use svacara_db.Btree.Node.Read.{
  btype-IsPartial, get_key-IsPartial, get_val-IsPartial, get_ptr-IsPartial,
}
use svacara_db.Btree.Node.Lookup.{IsAscending, count_le, count_le-le, node_lookup_le-count}
use svacara_db.Btree.Insert.{is_eq, get_loop, get}
use svacara_db.Btree.Leaf.Put.{find}
use svacara_db.Btree.Find.{flat, IsSeparated, find-flat, find-flat_first}

-- A tree of `n` levels above its leaves. The entry of a kid holds its page and its first key.
abbrev pub Tree : ℕ → Type 0
Tree zero = List Entry
Tree (suc n) = List (Entry × Tree n)

-- The entries of the leaves.
abbrev pub entries : (n : ℕ) → Tree n → List Entry
entries zero es = es
entries (suc n) kids = flat (λ k. k.0) (λ k. entries n k.1) kids

length-map : {A : Type 0} (sep : A → Entry) (ks : List A) → length (map sep ks) ≡ length ks
length-map sep [] = refl
length-map sep (k ∷ ks) = ap suc (length-map sep ks)

get_elem?-map :
    {A : Type 0} (sep : A → Entry) (ks : List A) (i : ℕ) (a : A)
    → get_elem? ks i ≡ some a
    → get_elem? (map sep ks) i ≡ some (sep a)
get_elem?-map sep [] i a h = absurd (ground arith)
get_elem?-map sep (k ∷ ks) zero a h = let same : k ≡ a = ground arith in rw same refl
get_elem?-map sep (k ∷ ks) (suc i) a h = get_elem?-map sep ks i a h

count_cases : (c : ℕ) → (c ≡ 0) ⊎ ((m : ℕ) × (c ≡ suc m))
count_cases zero = inl refl
count_cases (suc m) = inr (m, refl)

-- Where the search goes on: the place that `nodeLookupLE` gives, and the part there.
record Place {A : Type 0} (p : Page) (key : Bytes) (sep : A → Entry) (part : A → List Entry)
    (ks : List A) : Type 0 where
  i : ℕ
  a : A
  at : get_elem? ks i ≡ some a
  run : node_lookup_le p key ≡ ok i
  found : find key (flat sep part ks) ≡ find key (part a)

module _ {A : Type 0} (p : Page) (type : ℕ) (key : Bytes) (sep : A → Entry) (part : A → List Entry)
    (ks : List A) (h : IsNode p type (map sep ks)) (asc : IsAscending (map sep ks))
    (some_kid : 0 < length ks) (s : IsSeparated sep part ks) where
  node_lookup_le-Place : Place p key sep part ks
  node_lookup_le-Place =
      let c = count_le key (map sep ks) in
      let run = node_lookup_le-count p type (map sep ks) h asc key in
      elim (count_cases c) [
        | inl z ↦
            let (a, at, cut) = drop-get_elem? ks 0 some_kid in
            record {
              i = 0;
              a = a;
              at = at;
              run = run ∙ rw z refl;
              found = find-flat_first key sep part ks a asc s at z;
            }
        | inr (m, z) ↦
            let (a, at, cut) =
              drop-get_elem? ks m
                (omega (arith, count_le-le key (map sep ks), length-map sep ks)) in
            record {
              i = m;
              a = a;
              at = at;
              run = run ∙ rw z (ap ok (ground arith));
              found = find-flat key sep part ks m a asc s at z;
            }
      ]

-- A leaf as a tree of one part for each entry.
map_self : (es : List Entry) → map (λ e. e) es ≡ es
map_self [] = refl
map_self (e ∷ es) = ap (λ l. e ∷ l) (map_self es)

flat_self : (es : List Entry) → flat (λ e. e) (λ e. e ∷ []) es ≡ es
flat_self [] = refl
flat_self (e ∷ es) = ap (λ l. e ∷ l) (flat_self es)

IsSeparated-self : (es : List Entry) → IsAscending es → IsSeparated (λ e. e) (λ e. e ∷ []) es
IsSeparated-self [] a = tt
IsSeparated-self (e ∷ es) (b, a) =
    let own : is_le (cmp e.key e.key) ≡ true = ground (arith, cmp_refl e.key) in
    ((own, tt), each es b, IsSeparated-self es a)
  where
    each :
        (xs : List Entry)
        → All (λ x. cmp e.key x.key ≡ Ordering.lt) xs
        → All (λ x. All (λ y. cmp y.key x.key ≡ Ordering.lt) (e ∷ [])) xs
    each [] a = tt
    each (x ∷ xs) (h, a) = ((h, tt), each xs a)

module _ {T : Type 0} (pager : Pager T) (t : T) where
  -- The pages of a tree: each node holds its separators in ascending order, the keys below a separator
  -- are at least that separator and below the next one, and no node is empty.
  abbrev pub Stands : (n : ℕ) → Page → Tree n → Type 0
  Stands zero p es = IsNode p bnode_leaf es × IsAscending es × (0 < length es)
  Stands (suc n) p kids =
      IsNode p bnode_internal (map (λ k. k.0) kids)
      × IsAscending (map (λ k. k.0) kids)
      × (0 < length kids)
      × IsSeparated (λ k. k.0) (λ k. entries n k.1) kids
      × All (λ k. (q : Page) × (pager.get_page t k.0.ptr ≡ ok q) × Stands n q k.1) kids

  get_in_leaf :
      (p : Page) (es : List Entry) (key : Bytes)
      → Stands zero p es
      → get_loop pager 1 t p key ≡ ok (find key es)
  unfolding get_loop
  get_in_leaf p es key (h, asc, l) =
      let at_place =
        node_lookup_le-Place p bnode_leaf key (λ e. e) (λ e. e ∷ []) es
          (subst (IsNode p bnode_leaf) (sym (map_self es)) h)
          (subst IsAscending (sym (map_self es)) asc) l (IsSeparated-self es asc) in
      let e = at_place.a in
      let same : find key es ≡ find key (e ∷ []) =
        ap (find key) (sym (flat_self es)) ∙ at_place.found in
      get_here at_place.i e at_place.at at_place.run same
    where
      get_here :
          (i : ℕ) (e : Entry)
          → get_elem? es i ≡ some e
          → node_lookup_le p key ≡ ok i
          → find key es ≡ find key (e ∷ [])
          → get_loop pager 1 t p key ≡ ok (find key es)
      get_here i e at run same =
          let step : get_loop pager 1 t p key ≡ (elim (is_eq (cmp key e.key)) [
            | true ↦ get_val p i >>= λ val. ok (some val)
            | false ↦ ok none
          ]) =
            rw
              (
                get_loop,
                run,
                btype-IsPartial p bnode_leaf (length es) es h,
                get_key-IsPartial p bnode_leaf (length es) es h i e at,
              )
              refl in
          let val = get_val-IsPartial p bnode_leaf (length es) es h i e at in
          step ∙ elim (Bool-cases (is_eq (cmp key e.key))) [
            | inl c ↦ rw (c, val) (ap ok (sym (same ∙ rw c refl)))
            | inr c ↦ rw c (ap ok (sym (same ∙ rw c refl)))
          ]

  All-at :
      {A : Type 0} (P : A → Type 0) (ks : List A) (i : ℕ) (a : A)
      → get_elem? ks i ≡ some a
      → All P ks
      → P a
  All-at P [] i a h all = absurd (ground arith)
  All-at P (k ∷ ks) zero a h (x, all) = let same : k ≡ a = ground arith in subst P same x
  All-at P (k ∷ ks) (suc i) a h (x, all) = All-at P ks i a h all

  get_in_node :
      (n : ℕ) (p q : Page) (kids : List (Entry × Tree n)) (key : Bytes) (i : ℕ) (k : Entry × Tree n)
      → IsNode p bnode_internal (map (λ k. k.0) kids)
      → get_elem? kids i ≡ some k
      → node_lookup_le p key ≡ ok i
      → pager.get_page t k.0.ptr ≡ ok q
      → get_loop pager (suc (suc n)) t p key ≡ get_loop pager (suc n) t q key
  unfolding get_loop
  get_in_node n p q kids key i k h at run page =
      let es = map (λ k. k.0) kids in
      let ptr =
        get_ptr-IsPartial p bnode_internal (length es) es h i k.0
          (get_elem?-map (λ k. k.0) kids i k at) in
      rw (get_loop, run, btype-IsPartial p bnode_internal (length es) es h, ptr, page) refl

  -- On a tree that stands on its pages, the loop of `Get` ends without a panic with the value of the key
  -- among the entries of all the leaves, with one unit of fuel for each level.
  pub get_loop-find :
      (n : ℕ) (p : Page) (tree : Tree n) (key : Bytes)
      → Stands n p tree
      → get_loop pager (suc n) t p key ≡ ok (find key (entries n tree))
  get_loop-find zero p es key s = get_in_leaf p es key s
  get_loop-find (suc n) p kids key (h, asc, l, s, below) =
      let at_place =
        node_lookup_le-Place p bnode_internal key (λ k. k.0) (λ k. entries n k.1) kids h asc l s in
      let k = at_place.a in
      let (q, page, stands) =
        All-at (λ k. (q : Page) × (pager.get_page t k.0.ptr ≡ ok q) × Stands n q k.1) kids
          at_place.i k at_place.at below in
      get_in_node n p q kids key at_place.i k h at_place.at at_place.run page
      ∙ get_loop-find n q k.1 key stands
      ∙ ap ok (sym at_place.found)

  -- `Get` on a tree that stands on its pages ends without a panic, with one unit of fuel for each level,
  -- and gives the value of the key among the entries of all the leaves, or nothing if no leaf has it.
  pub get-find :
      (n r : ℕ) (p : Page) (tree : Tree n) (key : Bytes)
      → pager.get_page t (suc r) ≡ ok p
      → Stands n p tree
      → get pager (suc n) t (suc r) key ≡ ok (find key (entries n tree))
  unfolding get
  get-find n r p tree key page s = rw (get, page) (get_loop-find n p tree key s)
