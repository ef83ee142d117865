-- ===== src/Btree/Node/Read.antt =====
-- The methods that read a node, on a page that holds entries.
use svacara_db.Prelude.{
  ℕ, zero, suc, ◌+◌, ◌*◌, ◌^◌, ◌≤◌, ◌<◌, ◌≡◌, refl, ap, ◌∙◌, arith, List, [], ◌∷◌, length,
  get_elem?, get_elem?-lt, some, ok,
}
use mathlib.Core.Path.{subst}
use svacara_db.Btree.Page.{Page, get_le, slice}
use svacara_db.Btree.Page.Overlay.{get_le-read, slice-ok}
use svacara_db.Btree.Node.{
  u16, btype, nkeys, get_ptr, offset_pos, get_offset, kv_pos, get_key, get_val,
}
use svacara_db.Btree.Node.Layout.{Entry, kv_size, total, Holds, Layout, IsPartial}

moved : (p : Page) {i j a b : ℕ} → i ≡ j → a ≡ b → get_offset p i ≡ ok a → get_offset p j ≡ ok b
moved p {i} {j} {a} {b} x y e = subst (λ k. get_offset p k ≡ ok b) x (e ∙ ap ok y)

-- What the methods of a node read off.
module _ (p : Page) (type n : ℕ) (es : List Entry) (h : IsPartial p type n es) where
  pub btype-IsPartial : btype p ≡ ok type
  unfolding btype
  btype-IsPartial = get_le-read 2 p 0 type (omega (arith, h.fits)) h.type_small h.typed

  pub nkeys-IsPartial : nkeys p ≡ ok n
  unfolding nkeys
  nkeys-IsPartial =
      get_le-read 2 p 2 n (omega (arith, h.fits)) (omega (arith, h.fits, h.size_small)) h.counted

  -- Where the offset before entry `suc i` stands.
  pub offset_pos-IsPartial : (i : ℕ) → i < n → offset_pos p (suc i) ≡ ok (4 + 8 * n + 2 * i)
  unfolding offset_pos
  offset_pos-IsPartial i l = rw nkeys-IsPartial (ap ok (omega (arith, h.fits, h.size_small)))

  get_offset-suc :
      (i off : ℕ) (e : Entry)
      → i < n
      → off + kv_size e < 2 ^ 16
      → Holds p.byte n i off e
      → get_offset p (suc i) ≡ ok (off + kv_size e)
  unfolding get_offset
  get_offset-suc i off e l b k =
      rw (offset_pos-IsPartial i l)
        (get_le-read 2 p (4 + 8 * n + 2 * i) (off + kv_size e) (omega (arith, h.fits)) b k.end_at)

  -- The offsets add up.
  offset_after :
      (i off : ℕ) (xs : List Entry)
      → i + length xs ≤ n
      → off + total xs < 2 ^ 16
      → get_offset p i ≡ ok off
      → Layout p.byte n i off xs
      → get_offset p (i + length xs) ≡ ok (off + total xs)
  offset_after i off [] l b e t = moved p (omega arith) (omega arith) e
  offset_after i off (x ∷ xs) l b e (k, t) = moved p (omega arith) (omega arith) (
      offset_after (suc i) (off + kv_size x) xs (omega arith) (omega arith)
        (get_offset-suc i off x (omega arith) (omega arith) k) t)

  pub offset-IsPartial : get_offset p (length es) ≡ ok (total es)
  offset-IsPartial = moved p (omega arith) (omega arith) (
      offset_after 0 0 es (omega (arith, h.room)) (omega (arith, h.fits, h.size_small))
        (unfold get_offset in refl) h.layout)

  pub kv_pos-IsPartial : kv_pos p (length es) ≡ ok (4 + 10 * n + total es)
  unfolding kv_pos
  kv_pos-IsPartial =
      rw (nkeys-IsPartial, offset-IsPartial) (ap ok (omega (arith, h.fits, h.size_small)))

  -- An entry of the list stands somewhere in the page.
  record Stands (i : ℕ) (e : Entry) (bound : ℕ) : Type 0 where
    pub off : ℕ
    pub offset_is : get_offset p i ≡ ok off
    pub holds : Holds p.byte n i off e
    pub inside : off + kv_size e ≤ bound

  Layout-Stands :
      (i off : ℕ) (xs : List Entry) (j : ℕ) (e : Entry)
      → i + length xs ≤ n
      → off + total xs < 2 ^ 16
      → get_offset p i ≡ ok off
      → Layout p.byte n i off xs
      → get_elem? xs j ≡ some e
      → Stands (i + j) e (off + total xs)
  Layout-Stands i off [] j e l b o t q = absurd (ground arith)
  Layout-Stands i off (x ∷ xs) zero e l b o (k, t) q =
      let same : x ≡ e = ground arith in
      let index : i ≡ i + 0 = omega arith in
      subst (λ m. Stands m e (off + total (x ∷ xs))) index
        (record {
          off = off;
          offset_is = o;
          holds = subst (Holds p.byte n i off) same k;
          inside = subst (λ y. off + kv_size y ≤ off + total (x ∷ xs)) same (omega arith);
        })
  Layout-Stands i off (x ∷ xs) (suc j) e l b o (k, t) q =
      let index : suc i + j ≡ i + suc j = omega arith in
      let s =
        Layout-Stands (suc i) (off + kv_size x) xs j e (omega arith) (omega arith)
          (get_offset-suc i off x (omega arith) (omega arith) k) t q in
      subst (λ m. Stands m e (off + total (x ∷ xs))) index
        (record {
          off = s.off;
          offset_is = s.offset_is;
          holds = s.holds;
          inside = omega (arith, s.inside);
        })

  module _ (i : ℕ) (e : Entry) (q : get_elem? es i ≡ some e) where
    stands : Stands i e (total es)
    stands =
        let index : 0 + i ≡ i = omega arith in
        let bound : 0 + total es ≡ total es = omega arith in
        subst (λ m. Stands m e (total es)) index
          (subst (Stands (0 + i) e) bound (
            Layout-Stands 0 0 es i e (omega (arith, h.room)) (omega (arith, h.fits, h.size_small))
              (unfold get_offset in refl) h.layout q))

    kv_pos-Stands : kv_pos p i ≡ ok (4 + 10 * n + stands.off)
    unfolding kv_pos
    kv_pos-Stands =
        rw (nkeys-IsPartial, stands.offset_is)
          (ap ok (omega (arith, h.fits, h.size_small, stands.inside)))

    klen-Stands : get_le 2 p (4 + 10 * n + stands.off) ≡ ok (length e.key)
    klen-Stands =
        get_le-read 2 p _ (length e.key) (omega (arith, h.fits, stands.inside))
          (omega (arith, h.fits, h.size_small, stands.inside)) stands.holds.klen_at

    vlen-Stands : get_le 2 p (4 + 10 * n + stands.off + 2) ≡ ok (length e.val)
    vlen-Stands =
        get_le-read 2 p _ (length e.val) (omega (arith, h.fits, stands.inside))
          (omega (arith, h.fits, h.size_small, stands.inside)) stands.holds.vlen_at

    -- Entry `i` is read back.
    pub get_ptr-IsPartial : get_ptr p i ≡ ok e.ptr
    unfolding get_ptr
    get_ptr-IsPartial =
        let l = get_elem?-lt es i e q in
        let wrap : u16 (4 + 8 * i) ≡ 4 + 8 * i = omega (arith, h.room, h.fits, h.size_small) in
        ap (get_le 8 p) wrap
        ∙ get_le-read 8 p (4 + 8 * i) e.ptr (omega (arith, h.room, h.fits)) stands.holds.ptr_small
            stands.holds.ptr_at

    pub get_key-IsPartial : get_key p i ≡ ok e.key
    unfolding get_key
    get_key-IsPartial =
        let pos = 4 + 10 * n + stands.off in
        let wrap : u16 (pos + 4) ≡ pos + 4 = omega (arith, h.fits, h.size_small, stands.inside) in
        rw (kv_pos-Stands, klen-Stands)
          (ap (λ x. slice p x (length e.key)) wrap
            ∙ slice-ok p (pos + 4) (length e.key) (omega (arith, h.fits, stands.inside))
            ∙ ap ok stands.holds.key_at)

    pub get_val-IsPartial : get_val p i ≡ ok e.val
    unfolding get_val
    get_val-IsPartial =
        let pos = 4 + 10 * n + stands.off in
        let wrap2 : u16 (pos + 2) ≡ pos + 2 = omega (arith, h.fits, h.size_small, stands.inside) in
        let wrap : u16 (pos + 4 + length e.key) ≡ pos + 4 + length e.key =
          omega (arith, h.fits, h.size_small, stands.inside) in
        let vlen : get_le 2 p (u16 (pos + 2)) ≡ ok (length e.val) =
          ap (get_le 2 p) wrap2 ∙ vlen-Stands in
        rw (kv_pos-Stands, klen-Stands, vlen)
          (ap (λ x. slice p x (length e.val)) wrap
            ∙ slice-ok p (pos + 4 + length e.key) (length e.val)
                (omega (arith, h.fits, stands.inside))
            ∙ ap ok stands.holds.val_at)

    pub ptr_small-IsPartial : e.ptr < 2 ^ 64
    ptr_small-IsPartial = stands.holds.ptr_small
