-- ===== src/Btree/Node/Layout.antt =====
-- What the bytes of a node stand for: its entries in order.
use svacara_db.Prelude.{
  ℕ, suc, ◌+◌, ◌*◌, ◌^◌, ◌≤◌, ◌<◌, ◌≡◌, sym, ◌∙◌, arith, List, [], ◌∷◌, length, ◌⊎◌, inl, inr,
}
use svacara_db.Bytes.{Bytes}
use svacara_db.Bytes.Little.{le_bytes}
use svacara_db.Btree.Page.{Page, read, overlay, poke}
use svacara_db.Btree.Page.Overlay.{read-agree, overlay-below, overlay-above}

pub record Entry : Type 0 where
  pub ptr : ℕ
  pub key : Bytes
  pub val : Bytes

abbrev pub kv_size : Entry → ℕ
kv_size e = 4 + length e.key + length e.val

abbrev pub total : List Entry → ℕ
total [] = 0
total (e ∷ es) = kv_size e + total es

-- Entry `i` of `n`, whose pair begins `off` bytes behind the offsets.
pub record Holds (f : ℕ → ℕ) (n i off : ℕ) (e : Entry) : Type 0 where
  pub ptr_at : read f (4 + 8 * i) 8 ≡ le_bytes 8 e.ptr
  pub klen_at : read f (4 + 10 * n + off) 2 ≡ le_bytes 2 (length e.key)
  pub vlen_at : read f (4 + 10 * n + off + 2) 2 ≡ le_bytes 2 (length e.val)
  pub key_at : read f (4 + 10 * n + off + 4) (length e.key) ≡ e.key
  pub val_at : read f (4 + 10 * n + off + 4 + length e.key) (length e.val) ≡ e.val
  pub end_at : read f (4 + 8 * n + 2 * i) 2 ≡ le_bytes 2 (off + kv_size e)
  pub ptr_small : e.ptr < 2 ^ 64

abbrev pub Layout : (ℕ → ℕ) → ℕ → ℕ → ℕ → List Entry → Type 0
Layout f n i off [] = Unit {0}
Layout f n i off (e ∷ es) = Holds f n i off e × Layout f n (suc i) (off + kv_size e) es

-- A node with room for `n` entries, of which the entries `es` have been written.
pub record IsPartial (p : Page) (type n : ℕ) (es : List Entry) : Type 0 where
  pub typed : read p.byte 0 2 ≡ le_bytes 2 type
  pub counted : read p.byte 2 2 ≡ le_bytes 2 n
  pub layout : Layout p.byte n 0 0 es
  pub type_small : type < 2 ^ 16
  pub room : length es ≤ n
  pub fits : 4 + 10 * n + total es ≤ p.size
  pub size_small : p.size ≤ 2 ^ 15

-- A complete node.
abbrev pub IsNode : Page → ℕ → List Entry → Type 0
IsNode p type es = IsPartial p type (length es) es

abbrev pub Agree : (ℕ → ℕ) → (ℕ → ℕ) → ℕ → ℕ → Type 0
Agree f g lo hi = (i : ℕ) → lo ≤ i → i < hi → f i ≡ g i

module _ (f g : ℕ → ℕ) where
  Agree-read :
      (lo hi pos n : ℕ) (bs : Bytes)
      → Agree f g lo hi
      → lo ≤ pos
      → pos + n ≤ hi
      → read f pos n ≡ bs
      → read g pos n ≡ bs
  Agree-read lo hi pos n bs a l h e =
      sym (read-agree f g pos n (λ i x y. a i (omega arith) (omega arith))) ∙ e

  Holds-Agree :
      (n i off : ℕ) (e : Entry)
      → Agree f g (4 + 8 * i) (4 + 8 * i + 8)
      → Agree f g (4 + 8 * n + 2 * i) (4 + 8 * n + 2 * i + 2)
      → Agree f g (4 + 10 * n + off) (4 + 10 * n + off + kv_size e)
      → Holds f n i off e
      → Holds g n i off e
  Holds-Agree n i off e ptrs offs kvs h = record {
    ptr_at = Agree-read _ _ _ _ _ ptrs (omega arith) (omega arith) h.ptr_at;
    klen_at = Agree-read _ _ _ _ _ kvs (omega arith) (omega arith) h.klen_at;
    vlen_at = Agree-read _ _ _ _ _ kvs (omega arith) (omega arith) h.vlen_at;
    key_at = Agree-read _ _ _ _ _ kvs (omega arith) (omega arith) h.key_at;
    val_at = Agree-read _ _ _ _ _ kvs (omega arith) (omega arith) h.val_at;
    end_at = Agree-read _ _ _ _ _ offs (omega arith) (omega arith) h.end_at;
    ptr_small = h.ptr_small;
  }

  narrow : (lo hi lo' hi' : ℕ) → lo ≤ lo' → hi' ≤ hi → Agree f g lo hi → Agree f g lo' hi'
  narrow lo hi lo' hi' a b h i x y = h i (omega arith) (omega arith)

  pub Layout-Agree :
      (n i off : ℕ) (es : List Entry)
      → Agree f g (4 + 8 * i) (4 + 8 * (i + length es))
      → Agree f g (4 + 8 * n + 2 * i) (4 + 8 * n + 2 * (i + length es))
      → Agree f g (4 + 10 * n + off) (4 + 10 * n + off + total es)
      → Layout f n i off es
      → Layout g n i off es
  Layout-Agree n i off [] ptrs offs kvs h = tt
  Layout-Agree n i off (e ∷ es) ptrs offs kvs (h, hs) = (
    Holds-Agree n i off e (narrow _ _ _ _ (omega arith) (omega arith) ptrs)
        (narrow _ _ _ _ (omega arith) (omega arith) offs)
        (narrow _ _ _ _ (omega arith) (omega arith) kvs) h,
    Layout-Agree n (suc i) (off + kv_size e) es (narrow _ _ _ _ (omega arith) (omega arith) ptrs)
        (narrow _ _ _ _ (omega arith) (omega arith) offs)
        (narrow _ _ _ _ (omega arith) (omega arith) kvs) hs,
  )

-- A part of the page where nothing of the entries stands.
abbrev pub IsFree : ℕ → List Entry → ℕ → ℕ → Type 0
IsFree n es pos m =
    ((4 + 8 * length es ≤ pos) × (pos + m ≤ 4 + 8 * n))
    ⊎ ((4 + 8 * n + 2 * length es ≤ pos) × (pos + m ≤ 4 + 10 * n))
    ⊎ (4 + 10 * n + total es ≤ pos)

untouched :
    (f : ℕ → ℕ) (pos : ℕ) (bs : Bytes) (i : ℕ)
    → (i < pos) ⊎ (pos + length bs ≤ i)
    → f i ≡ overlay pos bs f i
untouched f pos bs i (inl l) = sym (overlay-below pos bs f i l)
untouched f pos bs i (inr l) = sym (overlay-above pos bs f i l)

module _ (n : ℕ) (es : List Entry) (pos m i : ℕ) (room : length es ≤ n) where
  free-header : IsFree n es pos m → i < 4 → (i < pos) ⊎ (pos + m ≤ i)
  free-header (inl (a, b)) l = inl (omega arith)
  free-header (inr (inl (a, b))) l = inl (omega arith)
  free-header (inr (inr a)) l = inl (omega arith)

  free-ptrs : IsFree n es pos m → i < 4 + 8 * length es → (i < pos) ⊎ (pos + m ≤ i)
  free-ptrs (inl (a, b)) l = inl (omega arith)
  free-ptrs (inr (inl (a, b))) l = inl (omega arith)
  free-ptrs (inr (inr a)) l = inl (omega arith)

  free-offsets :
      IsFree n es pos m → 4 + 8 * n ≤ i → i < 4 + 8 * n + 2 * length es → (i < pos) ⊎ (pos + m ≤ i)
  free-offsets (inl (a, b)) k l = inr (omega arith)
  free-offsets (inr (inl (a, b))) k l = inl (omega arith)
  free-offsets (inr (inr a)) k l = inl (omega arith)

  free-pairs :
      IsFree n es pos m → 4 + 10 * n ≤ i → i < 4 + 10 * n + total es → (i < pos) ⊎ (pos + m ≤ i)
  free-pairs (inl (a, b)) k l = inr (omega arith)
  free-pairs (inr (inl (a, b))) k l = inr (omega arith)
  free-pairs (inr (inr a)) k l = inl (omega arith)

pub poke-IsPartial :
    (p : Page) (type n pos : ℕ) (es : List Entry) (bs : Bytes)
    → IsPartial p type n es
    → IsFree n es pos (length bs)
    → IsPartial (poke p pos bs) type n es
poke-IsPartial p type n pos es bs h free =
    let f = p.byte in
    let g = overlay pos bs f in
    let same = untouched f pos bs in
    let head : Agree f g 0 4 = λ i a b. same i (free-header n es pos (length bs) i h.room free b) in
    record {
      typed = sym (read-agree f g 0 2 (λ i a b. head i a (omega arith))) ∙ h.typed;
      counted = sym (read-agree f g 2 2 (λ i a b. head i (omega arith) (omega arith))) ∙ h.counted;
      layout =
          Layout-Agree f g n 0 0 es
            (λ i a b. same i (free-ptrs n es pos (length bs) i h.room free (omega arith)))
            (λ i a b.
              same i (free-offsets n es pos (length bs) i h.room free (omega arith) (omega arith)))
            (λ i a b.
              same i (free-pairs n es pos (length bs) i h.room free (omega arith) (omega arith)))
            h.layout;
      type_small = h.type_small;
      room = h.room;
      fits = h.fits;
      size_small = h.size_small;
    }
