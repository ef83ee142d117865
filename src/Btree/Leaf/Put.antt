-- ===== src/Btree/Leaf/Put.antt =====
-- A leaf as a map: insertion into its entries in the order of keys, and lookup.
use svacara_db.Prelude.{
  ℕ, zero, suc, ◌+◌, ◌-◌, ◌*◌, ◌≤◌, ◌<◌, ◌≡◌, refl, sym, ap, ◌∙◌, arith, true, false, Option, none,
  some, List, [], ◌∷◌, ◌++◌, All, length, get_elem?, get_elem?-lt, drop-get_elem?, take, drop,
  if◌then◌else◌, Bool-cases, ◌⊎◌, inl, inr, Outcome, ok, Ordering,
}
use mathlib.Core.Path.{subst}
use svacara_db.Bytes.{Bytes}
use svacara_db.Bytes.Compare.{cmp, cmp_refl, cmp_flip, cmp_trans, eq_of_cmp}
use svacara_db.Btree.Page.{Page, blank}
use svacara_db.Btree.Node.{page_size, bnode_leaf, u16, is_le, nkeys, node_lookup_le}
use svacara_db.Btree.Node.Layout.{Entry, total, IsNode}
use svacara_db.Btree.Node.Read.{nkeys-IsPartial, get_key-IsPartial}
use svacara_db.Btree.Node.Append.{Built, Built-cast}
use svacara_db.Btree.Node.Lookup.{
  IsAscending, count_le, count_le-le, below_count, node_lookup_le-count,
}
use svacara_db.Btree.Insert.{is_eq, is_greater, insert_in_leaf, leaf_insert, leaf_update}
use svacara_db.Btree.Leaf.{leaf_insert-Built, leaf_update-Built}

-- Insertion that keeps the order and replaces an entry of the same key.
abbrev pub put : Entry → List Entry → List Entry
put e [] = e ∷ []
put e (x ∷ es) = elim (cmp e.key x.key) [
  | Ordering.lt ↦ e ∷ x ∷ es
  | Ordering.eq ↦ e ∷ es
  | Ordering.gt ↦ x ∷ put e es
]

-- The value of a key in a list of entries.
abbrev pub find : Bytes → List Entry → Option Bytes
find key [] = none
find key (x ∷ es) = if is_eq (cmp key x.key) then some x.val else find key es

-- What is found after an insertion.
pub find-put :
    (j : Bytes) (e : Entry) (es : List Entry)
    → find j (put e es) ≡ (if is_eq (cmp j e.key) then some e.val else find j es)
find-put j e [] = refl
find-put j e (x ∷ es) = ground (
  arith,
  find-put j e es,
  eq_of_cmp e.key x.key,
  eq_of_cmp j x.key,
  eq_of_cmp j e.key,
  cmp_refl e.key,
  cmp_flip j e.key,
  cmp_flip j x.key,
  cmp_flip e.key x.key,
)

All-put : (P : Entry → Type 0) (e : Entry) (es : List Entry) → P e → All P es → All P (put e es)
All-put P e [] h a = (h, tt)
All-put P e (x ∷ es) h (k, a) =
    elim (cmp e.key x.key)
      as (λ c.
        All P (elim c [
          | Ordering.lt ↦ e ∷ x ∷ es
          | Ordering.eq ↦ e ∷ es
          | Ordering.gt ↦ x ∷ put e es
        ])) [
          | Ordering.lt ↦ (h, (k, a))
          | Ordering.eq ↦ (h, a)
          | Ordering.gt ↦ (k, All-put P e es h a)
        ]

All-imp : (P Q : Entry → Type 0) (es : List Entry) → ((x : Entry) → P x → Q x) → All P es → All Q es
All-imp P Q [] f a = tt
All-imp P Q (x ∷ es) f (k, a) = (f x k, All-imp P Q es f a)

above : (e x : Entry) → cmp e.key x.key ≡ Ordering.gt → cmp x.key e.key ≡ Ordering.lt
above e x h = ground (arith, cmp_flip e.key x.key)

-- Insertion keeps the keys ascending.
pub put-IsAscending : (e : Entry) (es : List Entry) → IsAscending es → IsAscending (put e es)
put-IsAscending e [] a = (tt, tt)
put-IsAscending e (x ∷ es) (b, a) =
    (elim (cmp e.key x.key)
        as (λ c.
          cmp e.key x.key ≡ c
          → IsAscending (elim c [
            | Ordering.lt ↦ e ∷ x ∷ es
            | Ordering.eq ↦ e ∷ es
            | Ordering.gt ↦ x ∷ put e es
          ])) [
            | Ordering.lt ↦
                λ h. ((h, All-imp _ _ es (λ y k. cmp_trans e.key x.key y.key h k) b), (b, a))
            | Ordering.eq ↦ λ h. (
              All-imp _ _ es
                  (λ y k.
                    subst (λ key. cmp key y.key ≡ Ordering.lt) (sym (eq_of_cmp e.key x.key h)) k)
                  b,
              a,
            )
            | Ordering.gt ↦ λ h. (
              All-put (λ y. cmp x.key y.key ≡ Ordering.lt) e es (above e x h) b,
              put-IsAscending e es a,
            )
          ])
      refl

count-first :
    (x : Entry) (es : List Entry)
    → All (λ y. cmp x.key y.key ≡ Ordering.lt) es
    → count_le x.key es ≡ 0
count-first x [] a = refl
count-first x (y ∷ es) (h, a) = ground (arith, cmp_flip x.key y.key)

Ordering-cases : (o : Ordering) → (o ≡ Ordering.lt) ⊎ (o ≡ Ordering.eq) ⊎ (o ≡ Ordering.gt)
Ordering-cases Ordering.lt = inl refl
Ordering-cases Ordering.eq = inr (inl refl)
Ordering-cases Ordering.gt = inr (inr refl)

count-cons :
    (key : Bytes) (x : Entry) (es : List Entry)
    → is_le (cmp x.key key) ≡ true
    → count_le key (x ∷ es) ≡ suc (count_le key es)
count-cons key x es t = rw t refl

le_of_flip :
    (e x : Entry)
    → ((cmp e.key x.key ≡ Ordering.lt → is_le (cmp x.key e.key) ≡ false))
      × ((cmp e.key x.key ≡ Ordering.eq → is_le (cmp x.key e.key) ≡ true))
      × (cmp e.key x.key ≡ Ordering.gt → is_le (cmp x.key e.key) ≡ true)
le_of_flip e x = (
  λ h. ground (arith, cmp_flip e.key x.key),
  λ h. ground (arith, cmp_flip e.key x.key),
  λ h. ground (arith, cmp_flip e.key x.key),
)

-- The keys behind an equal one are greater.
count-equal :
    (e x : Entry) (es : List Entry)
    → All (λ y. cmp x.key y.key ≡ Ordering.lt) es
    → cmp e.key x.key ≡ Ordering.eq
    → count_le e.key (x ∷ es) ≡ 1
count-equal e x es b h =
    count-cons e.key x es ((le_of_flip e x).1 h)
    ∙ ap suc (ap (λ k. count_le k es) (eq_of_cmp e.key x.key h) ∙ count-first x es b)

-- Where a new key goes: behind the entries that are at most it.
put-insert :
    (e : Entry) (es : List Entry)
    → IsAscending es
    → ((i : ℕ) (x : Entry)
        → count_le e.key es ≡ suc i
        → get_elem? es i ≡ some x
        → is_eq (cmp e.key x.key) ≡ false)
    → put e es ≡ take (count_le e.key es) es ++ e ∷ drop (count_le e.key es) es
put-insert e [] a h = refl
put-insert e (x ∷ es) (b, a) h = elim (Ordering-cases (cmp e.key x.key)) [
  | inl c ↦ rw (put, count_le, c, (le_of_flip e x).0 c) refl
  | inr (inl c) ↦ let hit = h 0 x (count-equal e x es b c) refl in absurd (ground (arith, hit))
  | inr (inr c) ↦
      let t = (le_of_flip e x).2 c in
      rw (put, count_le, c, t)
        (ap (λ l. x ∷ l)
          (put-insert e es a (λ i y n at. h (suc i) y (count-cons e.key x es t ∙ ap suc n) at)))
]

-- Where a key goes that is there.
put-update :
    (e : Entry) (es : List Entry) (i : ℕ) (x : Entry)
    → IsAscending es
    → count_le e.key es ≡ suc i
    → get_elem? es i ≡ some x
    → is_eq (cmp e.key x.key) ≡ true
    → put e es ≡ take i es ++ e ∷ drop (suc i) es
put-update e [] i x a c at h = absurd (ground arith)
put-update e (y ∷ es) zero x (b, a) c at h =
    let same : y ≡ x = ground arith in
    let hit : cmp e.key y.key ≡ Ordering.eq =
      subst (λ z. cmp e.key z.key ≡ Ordering.eq) (sym same) (ground arith) in
    rw (put, hit) refl
put-update e (y ∷ es) (suc i) x (b, a) c at h = elim (Ordering-cases (cmp e.key y.key)) [
  | inl t ↦ let low = (le_of_flip e y).0 t in absurd (ground (arith, low))
  | inr (inl t) ↦ let one = count-equal e y es b t in absurd (ground (arith, one))
  | inr (inr t) ↦
      let n = count-cons e.key y es ((le_of_flip e y).2 t) in
      rw (put, t) (ap (λ l. y ∷ l) (put-update e es i x a (omega (arith, n, c)) at h))
]

-- A leaf with entries: the key at the index decides.
leaf_run :
    (new node : Page) (es : List Entry) (idx : ℕ) (x : Entry) (key val : Bytes)
    → IsNode node bnode_leaf es
    → get_elem? es idx ≡ some x
    → insert_in_leaf new node idx key val ≡ (elim (is_eq (cmp key x.key)) [
      | true ↦ leaf_update new node idx key val
      | false ↦
          leaf_insert new node (if is_greater (cmp key x.key) then u16 (idx + 1) else idx) key val
    ])
unfolding insert_in_leaf
leaf_run new node es idx x key val h at =
    let l = get_elem?-lt es idx x at in
    let more : length es ≡ suc (length es - 1) = omega arith in
    let n : nkeys node ≡ ok (suc (length es - 1)) =
      nkeys-IsPartial node bnode_leaf (length es) es h ∙ ap ok more in
    rw (insert_in_leaf, n, get_key-IsPartial node bnode_leaf (length es) es h idx x at) refl

start_run :
    (new node : Page) (es : List Entry) (key val : Bytes)
    → IsNode node bnode_leaf es
    → count_le key es ≡ 0
    → insert_in_leaf new node 0 key val ≡ leaf_insert new node 0 key val
unfolding insert_in_leaf
start_run new node [] key val h z = rw (insert_in_leaf, nkeys-IsPartial node bnode_leaf 0 [] h) refl
start_run new node (x ∷ es) key val h z =
    let low : cmp key x.key ≡ Ordering.lt = ground (arith, cmp_flip x.key key) in
    let differs : is_eq (cmp key x.key) ≡ false = ground (arith, low) in
    let stays : is_greater (cmp key x.key) ≡ false = ground (arith, low) in
    leaf_run new node (x ∷ es) 0 x key val h refl ∙ rw (differs, stays) refl

length-at :
    (i : ℕ) (e : Entry) (es : List Entry)
    → i ≤ length es
    → length (take i es ++ e ∷ drop i es) ≡ suc (length es)
length-at zero e es l = refl
length-at (suc i) e [] l = absurd (omega arith)
length-at (suc i) e (x ∷ es) l = ap suc (length-at i e es (omega arith))

length-over :
    (i : ℕ) (e : Entry) (es : List Entry)
    → i < length es
    → length (take i es ++ e ∷ drop (suc i) es) ≡ length es
length-over i e [] l = absurd (omega arith)
length-over zero e (x ∷ es) l = refl
length-over (suc i) e (x ∷ es) l = ap suc (length-over i e es (omega arith))

same_entry :
    (es : List Entry) (i j : ℕ) (x y : Entry)
    → get_elem? es i ≡ some x
    → get_elem? es j ≡ some y
    → i ≡ j
    → x ≡ y
same_entry es i j x y a b e =
    let both : some x ≡ some y = sym a ∙ ap (get_elem? es) e ∙ b in ground arith

-- The entries that were built, counted.
counted :
    (size n : ℕ) (xs ys : List Entry) (a b : Outcome Page)
    → length xs ≡ n
    → ys ≡ xs
    → a ≡ b
    → Built size bnode_leaf n xs b
    → Built size bnode_leaf (length ys) ys a
counted size n xs ys a b l e f h =
    subst (λ m. Built size bnode_leaf m ys a) (sym (ap length e ∙ l)) (Built-cast (sym e) f h)

count-cases : (n : ℕ) → (n ≡ 0) ⊎ ((m : ℕ) × (n ≡ suc m))
count-cases zero = inl refl
count-cases (suc m) = inr (m, refl)

ok-injective : {x y : ℕ} → ok x ≡ ok y → x ≡ y
ok-injective e = ground arith

module _ (node : Page) (es : List Entry) (h : IsNode node bnode_leaf es) (a : IsAscending es)
    (key val : Bytes)
    (fits : 4 + 10 * suc (length es) + total es + (4 + length key + length val)
      ≤ 2 * page_size) where
  abbrev pub entry : Entry
  entry = record { ptr = 0; key = key; val = val }

  abbrev pub new : Page
  new = blank (2 * page_size)

  -- A node of `put entry es`, in a page of twice the size.
  abbrev pub IsPut : ℕ → Type 0
  IsPut idx =
      Built (2 * page_size) bnode_leaf (length (put entry es)) (put entry es)
        (insert_in_leaf new node idx key val)

  at_start : count_le key es ≡ 0 → IsPut 0
  at_start z =
      counted (2 * page_size) (suc (length es)) (entry ∷ es) (put entry es) _ _ refl
        (put-insert entry es a (λ i x c at. absurd (omega (arith, z, c)))
          ∙ ap (λ k. take k es ++ entry ∷ drop k es) z)
        (start_run new node es key val h z)
        (leaf_insert-Built new node bnode_leaf es 0 h (omega arith) key val fits (omega arith))

  at_equal :
      (m : ℕ) (x : Entry)
      → count_le key es ≡ suc m
      → get_elem? es m ≡ some x
      → is_eq (cmp key x.key) ≡ true
      → IsPut m
  at_equal m x c at t =
      let l = get_elem?-lt es m x at in
      counted (2 * page_size) (length es) (take m es ++ entry ∷ drop (suc m) es) (put entry es) _ _
        (length-over m entry es l) (put-update entry es m x a c at t)
        (leaf_run new node es m x key val h at ∙ rw t refl)
        (leaf_update-Built new node bnode_leaf es m h (omega arith) key val l (omega arith)
          (omega arith))

  at_greater :
      (m : ℕ) (x : Entry)
      → count_le key es ≡ suc m
      → get_elem? es m ≡ some x
      → is_eq (cmp key x.key) ≡ false
      → IsPut m
  at_greater m x c at t =
      let l = get_elem?-lt es m x at in
      let le = below_count key es m x at (omega arith) in
      let more : is_greater (cmp key x.key) ≡ true = ground (arith, cmp_flip x.key key) in
      let next : u16 (m + 1) ≡ suc m = omega (arith, h.fits, h.size_small) in
      counted (2 * page_size) (suc (length es)) (take (suc m) es ++ entry ∷ drop (suc m) es)
        (put entry es) _ _ (length-at (suc m) entry es l)
        (put-insert entry es a (λ i y n at'.
            subst (λ z. is_eq (cmp key z.key) ≡ false)
              (same_entry es m i x y at at' (omega (arith, c, n))) t)
          ∙ ap (λ k. take k es ++ entry ∷ drop k es) c)
        (leaf_run new node es m x key val h at ∙ rw (t, more, next) refl)
        (leaf_insert-Built new node bnode_leaf es (suc m) h l key val fits (omega arith))

  -- The leaf case of `treeInsert`, from the index of `nodeLookupLE` on, makes a leaf that holds the
  -- entries of the old one with the pair put into the order of the keys, in the place of a pair of the
  -- same key if there is one. The pairs fit into the two pages that it makes.
  pub insert_in_leaf-IsPut : (idx : ℕ) → node_lookup_le node key ≡ ok idx → IsPut idx
  insert_in_leaf-IsPut idx found =
      let spec = sym found ∙ node_lookup_le-count node bnode_leaf es h a key in
      elim (count-cases (count_le key es)) [
        | inl z ↦
            let place : idx ≡ 0 = ok-injective (rw z at spec) in
            subst IsPut (sym place) (at_start z)
        | inr (m, c) ↦
            let at_place = ok-injective spec in
            let place : idx ≡ m = ground (arith, at_place, c) in
            let l = count_le-le key es in
            let (x, at, cut) = drop-get_elem? es m (omega arith) in
            subst IsPut (sym place) (elim (Bool-cases (is_eq (cmp key x.key))) [
              | inl t ↦ at_equal m x c at t
              | inr t ↦ at_greater m x c at t
            ])
      ]
