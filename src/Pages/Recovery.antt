-- ===== src/Pages/Recovery.antt =====
-- internal/storage/recovery.go: the meta page with a checksum at its end.
use svacara_db.Prelude.{
  ℕ, ◌+◌, ◌-◌, ◌^◌, ◌≤◌, ◌<◌, ◌≡◌, ◌≢◌, ◌*◌, zero, suc, List, get_elem?, refl, ap, ◌∙◌, arith, Bool,
  true, false, Option, none, some, [], ◌∷◌, length, ◌==◌, Outcome, ok, ◌>>=◌, ◌⊎◌, inl, inr,
}
use svacara_db.Bytes.{Bytes}
use svacara_db.Bytes.Little.{le_bytes, length-le_bytes}
use svacara_db.Btree.Page.{Page, read, overlay, poke, get_le, put_le, slice}
use svacara_db.Btree.Page.Overlay.{
  read-overlay, read-overlay_apart, get_le-read, put_le-ok, slice-ok, copy_at-ok,
}
use svacara_db.Btree.Node.Append.{read-put}
use svacara_db.Pages.Meta.{Meta, meta_sig, write_meta, read_meta}

abbrev pub checksum_off : ℕ
checksum_off = 4096 - 4

module _ (crc : Bytes → ℕ) where
  unfoldable pub checksum : Page → Outcome ℕ
  checksum page = do bytes ← slice page 4 (checksum_off - 4); ok (crc bytes)

  unfoldable pub write_meta_full : Page → Meta → Outcome Page
  write_meta_full page m = do
    page1 ← write_meta page m
    sum ← checksum page1
    put_le 4 page1 checksum_off sum

  unfoldable pub verify_meta : Page → Outcome Bool
  verify_meta page = do
    stored ← get_le 4 page checksum_off
    computed ← checksum page
    ok (stored == computed)

  unfoldable pub read_meta_safe : Page → Outcome (Option Meta)
  read_meta_safe page = do
    sound ← verify_meta page
    elim sound [ false ↦ ok none | true ↦ read_meta page ]

-- The fields are machine words.
pub record IsWords (m : Meta) : Type 0 where
  pub root_word : m.root < 2 ^ 64
  pub flushed_word : m.flushed < 2 ^ 64
  pub head_page_word : m.head_page < 2 ^ 64
  pub head_seq_word : m.head_seq < 2 ^ 64
  pub tail_page_word : m.tail_page < 2 ^ 64
  pub tail_seq_word : m.tail_seq < 2 ^ 64

-- Words that are written one behind the other.
abbrev words : ℕ → List ℕ → (ℕ → ℕ) → ℕ → ℕ
words pos [] f = f
words pos (v ∷ vs) f = words (pos + 8) vs (overlay pos (le_bytes 8 v) f)

words-apart :
    (pos : ℕ) (vs : List ℕ) (f : ℕ → ℕ) (at n : ℕ)
    → (at + n ≤ pos) ⊎ (pos + 8 * length vs ≤ at)
    → read (words pos vs f) at n ≡ read f at n
words-apart pos [] f at n apart = refl
words-apart pos (v ∷ vs) f at n apart =
    let (later, first) = cases apart in
    words-apart (pos + 8) vs (overlay pos (le_bytes 8 v) f) at n later
    ∙ read-overlay_apart pos (le_bytes 8 v) f at n first
  where
    cases :
        (at + n ≤ pos) ⊎ (pos + 8 * length (v ∷ vs) ≤ at)
        → ((at + n ≤ pos + 8) ⊎ (pos + 8 + 8 * length vs ≤ at))
          × ((at + n ≤ pos) ⊎ (pos + length (le_bytes 8 v) ≤ at))
    cases (inl l) = (inl (omega arith), inl l)
    cases (inr l) = (inr (omega arith), inr (omega (arith, length-le_bytes 8 v)))

words-at :
    (pos : ℕ) (vs : List ℕ) (f : ℕ → ℕ) (i v : ℕ)
    → get_elem? vs i ≡ some v
    → read (words pos vs f) (pos + 8 * i) 8 ≡ le_bytes 8 v
words-at pos [] f i v h = absurd (ground arith)
words-at pos (w ∷ vs) f zero v h =
    let same : w ≡ v = ground arith in
    ap (λ at. read (words pos (w ∷ vs) f) at 8) (omega arith)
    ∙ words-apart (pos + 8) vs (overlay pos (le_bytes 8 w) f) pos 8 (inl (omega arith))
    ∙ read-put f pos 8 w
    ∙ ap (le_bytes 8) same
words-at pos (w ∷ vs) f (suc i) v h =
    ap (λ at. read (words pos (w ∷ vs) f) at 8) (omega arith)
    ∙ words-at (pos + 8) vs (overlay pos (le_bytes 8 w) f) i v h

module _ (crc : Bytes → ℕ) (page : Page) (m : Meta) (room : 4096 ≤ page.size) where
  abbrev fields : List ℕ
  fields = m.root ∷ m.flushed ∷ m.head_page ∷ m.head_seq ∷ m.tail_page ∷ m.tail_seq ∷ []

  -- The page that `WriteMeta` leaves.
  abbrev filled : Page
  filled = record page { byte = words 16 fields (overlay 0 meta_sig page.byte) }

  write_meta-filled : write_meta page m ≡ ok filled
  unfolding write_meta
  write_meta-filled =
      let f0 = overlay 0 meta_sig page.byte in
      let f1 = overlay 16 (le_bytes 8 m.root) f0 in
      let f2 = overlay 24 (le_bytes 8 m.flushed) f1 in
      let f3 = overlay 32 (le_bytes 8 m.head_page) f2 in
      let f4 = overlay 40 (le_bytes 8 m.head_seq) f3 in
      rw
        (
          slice-ok page 0 16 (omega arith),
          copy_at-ok page 0 meta_sig (omega arith),
          put_le-ok 8 (record page { byte = f0 }) 16 m.root (omega arith),
          put_le-ok 8 (record page { byte = f1 }) 24 m.flushed (omega arith),
          put_le-ok 8 (record page { byte = f2 }) 32 m.head_page (omega arith),
          put_le-ok 8 (record page { byte = f3 }) 40 m.head_seq (omega arith),
          put_le-ok 8 (record page { byte = f4 }) 48 m.tail_page (omega arith),
        )
        (put_le-ok 8 _ 56 m.tail_seq (omega arith))

  abbrev covered : Bytes
  covered = read filled.byte 4 4088

  abbrev sealed : Page
  sealed = poke filled 4092 (le_bytes 4 (crc covered))

  write_meta_full-sealed : write_meta_full crc page m ≡ ok sealed
  unfolding write_meta_full checksum
  write_meta_full-sealed =
      rw (write_meta-filled, slice-ok filled 4 4088 (omega arith))
        (put_le-ok 4 filled 4092 (crc covered) (omega arith))

  sealed-below : (at n : ℕ) → at + n ≤ 4092 → read sealed.byte at n ≡ read filled.byte at n
  sealed-below at n l = read-overlay_apart 4092 (le_bytes 4 (crc covered)) filled.byte at n (inl l)

  sig-sealed : slice sealed 0 16 ≡ ok meta_sig
  sig-sealed =
      slice-ok sealed 0 16 (omega arith)
      ∙ ap ok (
          sealed-below 0 16 (omega arith)
          ∙ words-apart 16 fields (overlay 0 meta_sig page.byte) 0 16 (inl (omega arith))
          ∙ read-overlay 0 meta_sig page.byte)

  field-sealed :
      (i v : ℕ)
      → get_elem? fields i ≡ some v
      → i < 6
      → v < 2 ^ 64
      → get_le 8 sealed (16 + 8 * i) ≡ ok v
  field-sealed i v h l w = get_le-read 8 sealed (16 + 8 * i) v (omega arith) (omega arith) (
      sealed-below (16 + 8 * i) 8 (omega arith)
      ∙ words-at 16 fields (overlay 0 meta_sig page.byte) i v h)

  read_meta-sealed : IsWords m → read_meta sealed ≡ ok (some m)
  unfolding read_meta
  read_meta-sealed w =
      rw
        (
          sig-sealed,
          field-sealed 0 m.root refl (omega arith) w.root_word,
          field-sealed 1 m.flushed refl (omega arith) w.flushed_word,
          field-sealed 2 m.head_page refl (omega arith) w.head_page_word,
          field-sealed 3 m.head_seq refl (omega arith) w.head_seq_word,
          field-sealed 4 m.tail_page refl (omega arith) w.tail_page_word,
          field-sealed 5 m.tail_seq refl (omega arith) w.tail_seq_word,
        )
        refl

  verify_meta-sealed : ((bs : Bytes) → crc bs < 2 ^ 32) → verify_meta crc sealed ≡ ok true
  unfolding verify_meta checksum
  verify_meta-sealed small =
      let sum : get_le 4 sealed 4092 ≡ ok (crc covered) =
        get_le-read 4 sealed 4092 (crc covered) (omega arith) (omega (arith, small covered))
          (read-put filled.byte 4092 4 (crc covered)) in
      let bytes : slice sealed 4 4088 ≡ ok covered =
        slice-ok sealed 4 4088 (omega arith) ∙ ap ok (sealed-below 4 4088 (omega arith)) in
      let same : (crc covered == crc covered) ≡ true = ground arith in rw (sum, bytes, same) refl

  -- What `WriteMetaFull` writes on a page, `ReadMetaSafe` reads back, and neither panics: the page has
  -- 4096 bytes, the fields are machine words and the checksum has 32 bits.
  pub read_meta_safe-write_meta_full :
      IsWords m
      → ((bs : Bytes) → crc bs < 2 ^ 32)
      → (p : Page) × (write_meta_full crc page m ≡ ok p)
        × (p.size ≡ page.size)
        × (read_meta_safe crc p ≡ ok (some m))
  unfolding read_meta_safe
  read_meta_safe-write_meta_full w small = (
    sealed,
    write_meta_full-sealed,
    refl,
    rw (read_meta_safe, verify_meta-sealed small) (read_meta-sealed w),
  )

  -- A byte of the page changed behind the signature's first four and before the checksum, with another
  -- checksum of the bytes: `ReadMetaSafe` refuses the page.
  pub read_meta_safe-damaged :
      (p : Page)
      → ((bs : Bytes) → crc bs < 2 ^ 32)
      → p.size ≡ page.size
      → read p.byte 4092 4 ≡ read sealed.byte 4092 4
      → crc (read p.byte 4 4088) ≢ crc covered
      → read_meta_safe crc p ≡ ok none
  unfolding read_meta_safe verify_meta checksum
  read_meta_safe-damaged p small size kept_sum differs =
      let sum : get_le 4 p 4092 ≡ ok (crc covered) =
        get_le-read 4 p 4092 (crc covered) (omega arith) (omega (arith, small covered))
          (kept_sum ∙ read-put filled.byte 4092 4 (crc covered)) in
      let bytes : slice p 4 4088 ≡ ok (read p.byte 4 4088) = slice-ok p 4 4088 (omega arith) in
      let other : (crc covered == crc (read p.byte 4 4088)) ≡ false = ground arith in
      rw (sum, bytes, other) refl
