-- ===== src/Pages/Meta.antt =====
-- internal/storage/page.go: the meta page, which is page 0 of the file.
use svacara_db.Prelude.{ℕ, ◌+◌, true, false, Option, none, some, [], ◌∷◌, Outcome, ok, ◌>>=◌}
use svacara_db.Bytes.{Bytes}
use svacara_db.Bytes.Compare.{bytes_eq}
use svacara_db.Btree.Page.{Page, get_le, put_le, slice, copy_at}

abbrev pub sig_size : ℕ
sig_size = 16

-- `SvacaraDB01` and five zeros
abbrev pub meta_sig : Bytes
meta_sig = 83 ∷ 118 ∷ 97 ∷ 99 ∷ 97 ∷ 114 ∷ 97 ∷ 68 ∷ 66 ∷ 48 ∷ 49 ∷ 0 ∷ 0 ∷ 0 ∷ 0 ∷ 0 ∷ []

abbrev pub off_root : ℕ
off_root = sig_size

abbrev pub off_used : ℕ
off_used = sig_size + 8

abbrev pub off_free : ℕ
off_free = sig_size + 16

pub record Meta : Type 0 where
  pub root : ℕ
  pub flushed : ℕ
  pub head_page : ℕ
  pub head_seq : ℕ
  pub tail_page : ℕ
  pub tail_seq : ℕ

unfoldable pub write_meta : Page → Meta → Outcome Page
write_meta page m = do
  sig ← slice page 0 sig_size
  p0 ← copy_at page 0 meta_sig
  p1 ← put_le 8 p0 off_root m.root
  p2 ← put_le 8 p1 off_used m.flushed
  p3 ← put_le 8 p2 off_free m.head_page
  p4 ← put_le 8 p3 (off_free + 8) m.head_seq
  p5 ← put_le 8 p4 (off_free + 16) m.tail_page
  put_le 8 p5 (off_free + 24) m.tail_seq

unfoldable pub read_meta : Page → Outcome (Option Meta)
read_meta page = do
  sig ← slice page 0 sig_size
  elim (bytes_eq sig meta_sig) [
    | false ↦ ok none
    | true ↦ do
      root ← get_le 8 page off_root
      flushed ← get_le 8 page off_used
      head_page ← get_le 8 page off_free
      head_seq ← get_le 8 page (off_free + 8)
      tail_page ← get_le 8 page (off_free + 16)
      tail_seq ← get_le 8 page (off_free + 24)
      ok (
          some (record {
            root = root;
            flushed = flushed;
            head_page = head_page;
            head_seq = head_seq;
            tail_page = tail_page;
            tail_seq = tail_seq;
          }))
  ]
