-- ===== src/Btree/Node/Append.antt =====
-- `nodeAppendKV` and `nodeAppendRange` add entries behind those that a page holds.
use svacara_db.Prelude.{
  ℕ, zero, suc, ◌+◌, ◌*◌, ◌^◌, ◌≤◌, ◌<◌, ◌≡◌, refl, sym, ap, ◌∙◌, arith, List, [], ◌∷◌, ◌++◌,
  length, length-append, take, drop, drop-get_elem?, append_assoc, append-nil, Outcome, ok, ◌⊎◌,
  inl, inr,
}
use mathlib.Core.Path.{subst}
use svacara_db.Bytes.{Bytes}
use svacara_db.Bytes.Little.{le_bytes, length-le_bytes}
use svacara_db.Btree.Page.{Page, read, overlay, poke}
use svacara_db.Btree.Page.Overlay.{read-overlay_apart}
use svacara_db.Btree.Node.{u16}
use svacara_db.Btree.Page.{put_le, copy_at}
use svacara_db.Btree.Page.Overlay.{read-overlay, put_le-ok, copy_at-ok}
use svacara_db.Btree.Node.{set_ptr, set_offset, put_kv, node_append_kv, node_append_range}
use svacara_db.Btree.Node.Layout.{
  Entry, kv_size, total, Holds, Layout, IsPartial, IsNode, poke-IsPartial,
}
use svacara_db.Btree.Node.Read.{
  offset_pos-IsPartial, offset-IsPartial, kv_pos-IsPartial, ptr_small-IsPartial, get_ptr-IsPartial,
  get_key-IsPartial, get_val-IsPartial,
}

pub read-put : (f : ℕ → ℕ) (pos n v : ℕ) → read (overlay pos (le_bytes n v) f) pos n ≡ le_bytes n v
read-put f pos n v =
    subst (λ m. read (overlay pos (le_bytes n v) f) pos m ≡ le_bytes n v) (length-le_bytes n v)
      (read-overlay pos (le_bytes n v) f)

-- A read survives a write elsewhere.
pub kept :
    (f : ℕ → ℕ) (pos : ℕ) (bs : Bytes) (at n : ℕ) (xs : Bytes)
    → (at + n ≤ pos) ⊎ (pos + length bs ≤ at)
    → read f at n ≡ xs
    → read (overlay pos bs f) at n ≡ xs
kept f pos bs at n xs apart e = read-overlay_apart pos bs f at n apart ∙ e

module _ (p : Page) (type n : ℕ) (es : List Entry) (e : Entry) (h : IsPartial p type n es)
    (more : length es < n) (ptr_small : e.ptr < 2 ^ 64)
    (fits : 4 + 10 * n + total es + kv_size e ≤ p.size) where
  abbrev at_ptr : ℕ
  at_ptr = 4 + 8 * length es

  abbrev at_kv : ℕ
  at_kv = 4 + 10 * n + total es

  abbrev at_end : ℕ
  at_end = 4 + 8 * n + 2 * length es

  -- The pages after each write.
  abbrev page1 : Page
  page1 = poke p at_ptr (le_bytes 8 e.ptr)

  abbrev page2 : Page
  page2 = poke page1 at_kv (le_bytes 2 (length e.key))

  abbrev page3 : Page
  page3 = poke page2 (at_kv + 2) (le_bytes 2 (length e.val))

  abbrev page4 : Page
  page4 = poke page3 (at_kv + 4) e.key

  abbrev page5 : Page
  page5 = poke page4 (at_kv + 4 + length e.key) e.val

  abbrev page6 : Page
  page6 = poke page5 at_end (le_bytes 2 (total es + kv_size e))

  page1-IsPartial : IsPartial page1 type n es
  page1-IsPartial =
      poke-IsPartial p type n at_ptr es (le_bytes 8 e.ptr) h
        (inl (omega arith, omega (arith, length-le_bytes 8 e.ptr)))

  page5-IsPartial : IsPartial page5 type n es
  page5-IsPartial =
      poke-IsPartial page4 type n _ es e.val
        (poke-IsPartial page3 type n _ es e.key
          (poke-IsPartial page2 type n _ es (le_bytes 2 (length e.val))
            (poke-IsPartial page1 type n _ es (le_bytes 2 (length e.key)) page1-IsPartial
              (inr (inr (omega arith))))
            (inr (inr (omega arith))))
          (inr (inr (omega arith))))
        (inr (inr (omega arith)))

  page6-IsPartial : IsPartial page6 type n es
  page6-IsPartial =
      poke-IsPartial page5 type n at_end es (le_bytes 2 (total es + kv_size e)) page5-IsPartial
        (inr (inl (omega arith, omega (arith, length-le_bytes 2 (total es + kv_size e)))))

  length_le : (v : ℕ) → length (le_bytes 2 v) ≡ 2
  length_le v = length-le_bytes 2 v

  -- What the later writes leave of the pair.
  klen_kept : read page5.byte at_kv 2 ≡ le_bytes 2 (length e.key)
  klen_kept = kept page4.byte _ e.val at_kv 2 _ (inl (omega arith)) (
      kept page3.byte _ e.key at_kv 2 _ (inl (omega arith)) (
        kept page2.byte _ (le_bytes 2 (length e.val)) at_kv 2 _ (inl (omega arith))
          (read-put page1.byte at_kv 2 (length e.key))))

  vlen_kept : read page5.byte (at_kv + 2) 2 ≡ le_bytes 2 (length e.val)
  vlen_kept = kept page4.byte _ e.val (at_kv + 2) 2 _ (inl (omega arith)) (
      kept page3.byte _ e.key (at_kv + 2) 2 _ (inl (omega arith))
        (read-put page2.byte (at_kv + 2) 2 (length e.val)))

  key_kept : read page5.byte (at_kv + 4) (length e.key) ≡ e.key
  key_kept =
      kept page4.byte _ e.val (at_kv + 4) (length e.key) _ (inl (omega arith))
        (read-overlay (at_kv + 4) e.key page3.byte)

  ptr_kept : read page5.byte at_ptr 8 ≡ le_bytes 8 e.ptr
  ptr_kept = kept page4.byte _ e.val at_ptr 8 _ (inl (omega arith)) (
      kept page3.byte _ e.key at_ptr 8 _ (inl (omega arith)) (
        kept page2.byte _ (le_bytes 2 (length e.val)) at_ptr 8 _ (inl (omega arith)) (
          kept page1.byte _ (le_bytes 2 (length e.key)) at_ptr 8 _ (inl (omega arith))
            (read-put p.byte at_ptr 8 e.ptr))))

  last_kept :
      (at m : ℕ) (xs : Bytes)
      → (at + m ≤ at_end) ⊎ (at_end + 2 ≤ at)
      → read page5.byte at m ≡ xs
      → read page6.byte at m ≡ xs
  last_kept at m xs (inl l) r = kept page5.byte at_end _ at m xs (inl l) r
  last_kept at m xs (inr l) r =
      kept page5.byte at_end _ at m xs (inr (omega (arith, length_le (total es + kv_size e)))) r

  page6-Holds : Holds page6.byte n (length es) (total es) e
  page6-Holds = record {
    ptr_at = last_kept at_ptr 8 _ (inl (omega arith)) ptr_kept;
    klen_at = last_kept at_kv 2 _ (inr (omega arith)) klen_kept;
    vlen_at = last_kept (at_kv + 2) 2 _ (inr (omega arith)) vlen_kept;
    key_at = last_kept (at_kv + 4) (length e.key) _ (inr (omega arith)) key_kept;
    val_at =
        last_kept (at_kv + 4 + length e.key) (length e.val) _ (inr (omega arith))
          (read-overlay (at_kv + 4 + length e.key) e.val page4.byte);
    end_at = read-put page5.byte at_end 2 (total es + kv_size e);
    ptr_small = ptr_small;
  }

  put_kv-ok : put_kv page1 at_kv e.key e.val ≡ ok page5
  unfolding put_kv
  put_kv-ok =
      let k : u16 (length e.key) ≡ length e.key = omega (arith, h.size_small) in
      let v : u16 (length e.val) ≡ length e.val = omega (arith, h.size_small) in
      let at2 : u16 (at_kv + 2) ≡ at_kv + 2 = omega (arith, h.size_small) in
      let at4 : u16 (at_kv + 4) ≡ at_kv + 4 = omega (arith, h.size_small) in
      let at5 : u16 (at_kv + 4 + length e.key) ≡ at_kv + 4 + length e.key =
        omega (arith, h.size_small) in
      let step1 : put_le 2 page1 at_kv (length e.key) ≡ ok page2 =
        put_le-ok 2 page1 at_kv _ (omega arith) in
      let step2 : put_le 2 page2 (at_kv + 2) (length e.val) ≡ ok page3 =
        put_le-ok 2 page2 (at_kv + 2) _ (omega arith) in
      let step3 : copy_at page3 (at_kv + 4) e.key ≡ ok page4 =
        copy_at-ok page3 (at_kv + 4) e.key (omega arith) in
      let step4 : copy_at page4 (at_kv + 4 + length e.key) e.val ≡ ok page5 =
        copy_at-ok page4 (at_kv + 4 + length e.key) e.val (omega arith) in
      rw (put_kv, k, v, at2, at4, at5, step1, step2, step3) step4

  append_run : node_append_kv p (length es) e.ptr e.key e.val ≡ ok page6
  unfolding node_append_kv set_ptr set_offset
  append_run =
      let w : u16 (4 + 8 * length es) ≡ at_ptr = omega (arith, h.size_small) in
      let step1 : put_le 8 p at_ptr e.ptr ≡ ok page1 = put_le-ok 8 p at_ptr e.ptr (omega arith) in
      let next : u16 (length es + 1) ≡ suc (length es) = omega (arith, h.size_small) in
      let size : u16 (total es + 4 + u16 (length e.key + length e.val)) ≡ total es + kv_size e =
        omega (arith, h.size_small) in
      let pos = kv_pos-IsPartial page1 type n es page1-IsPartial in
      let off = offset-IsPartial page5 type n es page5-IsPartial in
      let end = offset_pos-IsPartial page5 type n es page5-IsPartial (length es) more in
      let step6 : put_le 2 page5 at_end (total es + kv_size e) ≡ ok page6 =
        put_le-ok 2 page5 at_end _ (omega arith) in
      rw (node_append_kv, w, step1, pos, put_kv-ok, off, next, end, size) step6

-- A page that an operation gives, with the entries that it holds.
pub record Built (size type n : ℕ) (es : List Entry) (o : Outcome Page) : Type 0 where
  pub page : Page
  pub run : o ≡ ok page
  pub partial : IsPartial page type n es
  pub same_size : page.size ≡ size

pub total-append : (xs ys : List Entry) → total (xs ++ ys) ≡ total xs + total ys
total-append [] ys = omega arith
total-append (x ∷ xs) ys = omega (arith, total-append xs ys)

Layout-snoc :
    (f : ℕ → ℕ) (n i off j at : ℕ) (es : List Entry) (e : Entry)
    → j ≡ i + length es
    → at ≡ off + total es
    → Layout f n i off es
    → Holds f n j at e
    → Layout f n i off (es ++ e ∷ [])
Layout-snoc f n i off j at [] e x y t h =
    let index : j ≡ i = omega arith in
    let place : at ≡ off = omega arith in
    (subst (λ k. Holds f n i k e) place (subst (λ k. Holds f n k at e) index h), tt)
Layout-snoc f n i off j at (a ∷ es) e x y (k, t) h =
    (k, Layout-snoc f n (suc i) (off + kv_size a) j at es e (omega arith) (omega arith) t h)

-- One pair is added.
pub node_append_kv-Built :
    (p : Page) (type n : ℕ) (es : List Entry) (e : Entry)
    → IsPartial p type n es
    → length es < n
    → e.ptr < 2 ^ 64
    → 4 + 10 * n + total es + kv_size e ≤ p.size
    → Built p.size type n (es ++ e ∷ []) (node_append_kv p (length es) e.ptr e.key e.val)
node_append_kv-Built p type n es e h more small fits =
    let q = page6-IsPartial p type n es e h more small fits in
    record {
      page = page6 p type n es e h more small fits;
      run = append_run p type n es e h more small fits;
      partial = record {
        typed = q.typed;
        counted = q.counted;
        layout =
            Layout-snoc _ n 0 0 (length es) (total es) es e (omega arith) (omega arith) q.layout
              (page6-Holds p type n es e h more small fits);
        type_small = q.type_small;
        room = omega (arith, length-append es (e ∷ []));
        fits = omega (arith, total-append es (e ∷ []));
        size_small = q.size_small;
      };
      same_size = refl;
    }

pub Built-cast :
    {size type n : ℕ} {xs ys : List Entry} {a b : Outcome Page}
    → xs ≡ ys
    → a ≡ b
    → Built size type n xs b
    → Built size type n ys a
Built-cast {size} {type} {n} {xs} {ys} {a} {b} e f h = record {
  page = h.page;
  run = f ∙ h.run;
  partial = subst (IsPartial h.page type n) e h.partial;
  same_size = h.same_size;
}

-- A range of another node is added.
pub node_append_range-Built :
    (k : ℕ) (p old : Page) (type n type' src : ℕ) (es os : List Entry)
    → IsPartial p type n es
    → IsNode old type' os
    → src + k ≤ length os
    → length es + k ≤ n
    → 4 + 10 * n + total es + total (take k (drop src os)) ≤ p.size
    → Built p.size type n (es ++ take k (drop src os)) (node_append_range p old (length es) src k)
unfolding node_append_range
node_append_range-Built zero p old type n type' src es os h o l r f =
    Built-cast (sym (append-nil es)) refl
      (record { page = p; run = refl; partial = h; same_size = refl })
node_append_range-Built (suc k) p old type n type' src es os h o l r f =
    let (e, at, cut) = drop-get_elem? os src (omega arith) in
    let cons : take (suc k) (drop src os) ≡ e ∷ take k (drop (suc src) os) =
      ap (take (suc k)) cut in
    let sum : total (take (suc k) (drop src os)) ≡ kv_size e + total (take k (drop (suc src) os)) =
      ap total cons in
    let small = ptr_small-IsPartial old type' (length os) os o src e at in
    let first = node_append_kv-Built p type n es e h (omega arith) small (omega arith) in
    let grown : total (es ++ e ∷ []) ≡ total es + kv_size e =
      omega (arith, total-append es (e ∷ [])) in
    let longer : length (es ++ e ∷ []) ≡ length es + 1 = length-append es (e ∷ []) in
    let later =
      node_append_range-Built k first.page old type n type' (suc src) (es ++ e ∷ []) os
        first.partial o (omega arith) (omega arith) (omega (arith, first.same_size)) in
    let dst_next : u16 (length es + 1) ≡ length (es ++ e ∷ []) =
      omega (arith, h.fits, h.size_small) in
    let src_next : u16 (src + 1) ≡ suc src = omega (arith, o.fits, o.size_small) in
    let run : node_append_range p old (length es) src (suc k)
        ≡ node_append_range first.page old (length (es ++ e ∷ [])) (suc src) k =
      rw
        (
          node_append_range,
          get_ptr-IsPartial old type' (length os) os o src e at,
          get_key-IsPartial old type' (length os) os o src e at,
          get_val-IsPartial old type' (length os) os o src e at,
          first.run,
          dst_next,
          src_next,
        )
        refl in
    subst
      (λ z.
        Built z type n (es ++ take (suc k) (drop src os))
          (node_append_range p old (length es) src (suc k)))
      first.same_size
      (Built-cast
        (append_assoc es (e ∷ []) (take k (drop (suc src) os)) ∙ ap (λ l. es ++ l) (sym cons)) run
        later)
