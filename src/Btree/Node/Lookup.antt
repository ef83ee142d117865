-- ===== src/Btree/Node/Lookup.antt =====
-- `nodeLookupLE` on a node whose keys ascend.
use svacara_db.Prelude.{
  ℕ, zero, suc, ◌+◌, ◌-◌, ◌/◌, ◌≤◌, ◌<◌, ◌≡◌, refl, sym, ap, ◌∙◌, arith, true, false, List, [], ◌∷◌,
  All, length, get_elem?, drop-get_elem?, some, ok, ltb, ◌==◌, if◌then◌else◌, Bool-cases, inl, inr,
  Ordering,
}
use svacara_db.Bytes.{Bytes}
use svacara_db.Bytes.Compare.{cmp, cmp_trans, cmp_flip}
use svacara_db.Btree.Page.{Page}
use svacara_db.Btree.Node.{u16, is_le, lookup_loop, node_lookup_le}
use svacara_db.Btree.Node.Layout.{Entry, IsNode}
use svacara_db.Btree.Node.Read.{nkeys-IsPartial, get_key-IsPartial}

-- Every key is below every later key.
abbrev pub IsAscending : List Entry → Type 0
IsAscending [] = Unit {0}
IsAscending (e ∷ es) = All (λ x. cmp e.key x.key ≡ Ordering.lt) es × IsAscending es

-- The number of entries at the head whose keys are at most the key.
abbrev pub count_le : Bytes → List Entry → ℕ
count_le key [] = 0
count_le key (e ∷ es) = let n = count_le key es in if is_le (cmp e.key key) then suc n else 0

pub count_le-le : (key : Bytes) (es : List Entry) → count_le key es ≤ length es
count_le-le key [] = omega arith
count_le-le key (e ∷ es) = ground (arith, count_le-le key es)

pub below_count :
    (key : Bytes) (es : List Entry) (i : ℕ) (e : Entry)
    → get_elem? es i ≡ some e
    → i < count_le key es
    → is_le (cmp e.key key) ≡ true
below_count key [] i e h l = absurd (ground arith)
below_count key (x ∷ es) zero e h l = ground arith
below_count key (x ∷ es) (suc i) e h l = ground (arith, below_count key es i e)

pub greater :
    (a b key : Bytes)
    → is_le (cmp a key) ≡ false
    → cmp a b ≡ Ordering.lt
    → is_le (cmp b key) ≡ false
greater a b key h l = ground (arith, cmp_flip a key, cmp_flip b key, cmp_trans key a b)

All-get_elem? :
    (P : Entry → Type 0) (es : List Entry) (i : ℕ) (e : Entry)
    → get_elem? es i ≡ some e
    → All P es
    → P e
All-get_elem? P [] i e h a = absurd (ground arith)
All-get_elem? P (x ∷ es) zero e h (a, r) = let same : x ≡ e = ground arith in rw (sym same) a
All-get_elem? P (x ∷ es) (suc i) e h (a, r) = All-get_elem? P es i e h r

pub above_count :
    (key : Bytes) (es : List Entry) (i : ℕ) (e : Entry)
    → IsAscending es
    → get_elem? es i ≡ some e
    → count_le key es ≤ i
    → is_le (cmp e.key key) ≡ false
above_count key [] i e a h l = absurd (ground arith)
above_count key (x ∷ es) zero e a h l = ground arith
above_count key (x ∷ es) (suc i) e (b, a) h l = elim (Bool-cases (is_le (cmp x.key key))) [
  | inl t ↦ above_count key es i e a h (ground arith)
  | inr t ↦
      greater x.key e.key key t (All-get_elem? (λ y. cmp x.key y.key ≡ Ordering.lt) es i e h b)
]

module _ (p : Page) (type : ℕ) (es : List Entry) (h : IsNode p type es) (a : IsAscending es)
    (key : Bytes) where
  -- A round of the loop, at the entry in the middle.
  lookup_round :
      (fuel lo hi : ℕ) (e : Entry)
      → lo < hi
      → get_elem? es (lo + (hi - lo) / 2) ≡ some e
      → lookup_loop (suc fuel) p key lo hi ≡ (elim (is_le (cmp e.key key)) [
        | true ↦ lookup_loop fuel p key (u16 (lo + (hi - lo) / 2 + 1)) hi
        | false ↦ lookup_loop fuel p key lo (lo + (hi - lo) / 2)
      ])
  unfolding lookup_loop
  lookup_round fuel lo hi e l at =
      let mid = lo + (hi - lo) / 2 in
      let test : ltb lo hi ≡ true = ground arith in
      let key_is = get_key-IsPartial p type (length es) es h mid e at in
      rw (lookup_loop, test, key_is) refl

  split_at :
      (i : ℕ) (e : Entry)
      → get_elem? es i ≡ some e
      → is_le (cmp e.key key) ≡ true
      → i < count_le key es
  split_at i e at c = ground (arith, above_count key es i e a at)

  split_above :
      (i : ℕ) (e : Entry)
      → get_elem? es i ≡ some e
      → is_le (cmp e.key key) ≡ false
      → count_le key es ≤ i
  split_above i e at c = ground (arith, below_count key es i e at)

  lookup_loop-count :
      (fuel lo hi : ℕ)
      → hi - lo < fuel
      → lo ≤ count_le key es
      → count_le key es ≤ hi
      → hi ≤ length es
      → lookup_loop fuel p key lo hi ≡ ok (count_le key es)
  lookup_loop-count zero lo hi f l m b = absurd (omega arith)
  lookup_loop-count (suc fuel) lo hi f l m b = elim (Bool-cases (ltb lo hi)) [
    | inr t ↦ unfold lookup_loop in rw (lookup_loop, t) (ap ok (ground arith))
    | inl t ↦
        let inside : lo < hi = ground arith in
        let mid = lo + (hi - lo) / 2 in
        let (e, at, cut) = drop-get_elem? es mid (omega arith) in
        let round = lookup_round fuel lo hi e inside at in
        elim (Bool-cases (is_le (cmp e.key key))) [
          | inl c ↦
              let low = split_at mid e at c in
              let wrap : u16 (mid + 1) ≡ suc mid = omega (arith, h.fits, h.size_small) in
              round ∙ rw (c, wrap) (lookup_loop-count fuel (suc mid) hi (omega arith) low m b)
          | inr c ↦
              let high = split_above mid e at c in
              round ∙ rw c (lookup_loop-count fuel lo mid (omega arith) l high (omega arith))
        ]
  ]

  -- On a page that holds entries with ascending keys, `nodeLookupLE` ends, without a panic, at
  -- the last entry whose key is at most the key, and at 0 if there is none.
  pub node_lookup_le-count :
      node_lookup_le p key ≡ ok (if count_le key es == 0 then 0 else count_le key es - 1)
  unfolding node_lookup_le
  node_lookup_le-count =
      rw
        (
          nkeys-IsPartial p type (length es) es h,
          lookup_loop-count (suc (length es)) 0 (length es) (omega arith) (omega arith)
              (count_le-le key es) (omega arith),
        )
        refl
