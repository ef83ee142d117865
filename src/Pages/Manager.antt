-- ===== src/Pages/Manager.antt =====
-- internal/storage/page.go: the page manager. It reads pages through the mapping of the file, and keeps
-- new pages and changed pages in memory until `FlushPages` writes them. An int and an int64 are their
-- 64-bit patterns.
use svacara_db.Prelude.{
  ℕ, zero, suc, ◌+◌, ◌-◌, ◌*◌, ◌/◌, ◌%◌, ◌^◌, Bool, true, false, ◌&&◌, Option, none, some, List, [],
  ◌∷◌, ◌++◌, length, ltb, ◌==◌, if◌then◌else◌, Outcome, ok, panic, stuck, ◌>>=◌,
}
use svacara_db.Bytes.{Bytes}
use svacara_db.Btree.Page.{Page, blank, read, copy_at}
use svacara_db.Pages.{Disk, written, write_error}
use svacara_db.Pages.Meta.{read_meta}
use svacara_db.Pages.Recovery.{verify_meta}

abbrev pub page_size : ℕ
page_size = 4096

-- `MaxChunkMB << 20`
abbrev pub max_chunk : ℕ
max_chunk = 64 * 2 ^ 20

-- A mapped part of the file: its position and its length.
pub record Chunk : Type 0 where
  pub base : ℕ
  pub len : ℕ

pub record PageMgr : Type 0 where
  pub total : ℕ
  pub chunks : List Chunk
  pub flushed : ℕ
  pub temp : List Page
  pub updates : List (ℕ × Page)

abbrev pub new_page_mgr : PageMgr
new_page_mgr = record { total = 0; chunks = []; flushed = 0; temp = []; updates = [] }

-- The map `updates`: a lookup, an assignment and `delete`.
unfoldable pub find_page : List (ℕ × Page) → ℕ → Option Page
find_page [] ptr = none
find_page ((k, p) ∷ rest) ptr = let later = find_page rest ptr in if k == ptr then some p else later

unfoldable pub set_page : List (ℕ × Page) → ℕ → Page → List (ℕ × Page)
set_page [] ptr page = (ptr, page) ∷ []
set_page ((k, p) ∷ rest) ptr page =
    let later = set_page rest ptr page in if k == ptr then (k, page) ∷ rest else (k, p) ∷ later

unfoldable pub delete_page : List (ℕ × Page) → ℕ → List (ℕ × Page)
delete_page [] ptr = []
delete_page ((k, p) ∷ rest) ptr =
    let later = delete_page rest ptr in if k == ptr then later else (k, p) ∷ later

unfoldable pub alloc : PageMgr → Page → PageMgr × ℕ
alloc pm page = (record pm { temp = pm.temp ++ page ∷ [] }, (pm.flushed + length pm.temp) % 2 ^ 64)

unfoldable pub free : PageMgr → ℕ → PageMgr
free pm ptr = record pm { updates = delete_page pm.updates ptr }

abbrev pub clear_updates : PageMgr → PageMgr
clear_updates pm = record pm { updates = []; temp = [] }

abbrev pub reset_to : PageMgr → ℕ → PageMgr
reset_to pm flushed = record pm { flushed = flushed; temp = []; updates = [] }

-- `a < b` on int, which is signed.
abbrev pub int_ltb : ℕ → ℕ → Bool
int_ltb a b = ltb ((a + 2 ^ 63) % 2 ^ 64) ((b + 2 ^ 63) % 2 ^ 64)

-- `alloc *= 2` until the file of `size` bytes is covered, on fuel.
unfoldable pub grow_alloc : ℕ → ℕ → ℕ → ℕ → Outcome ℕ
grow_alloc zero total size chunk = stuck
grow_alloc (suc fuel) total size chunk =
    let rest = grow_alloc fuel total size (chunk * 2 % 2 ^ 64) in
    if int_ltb ((total + chunk) % 2 ^ 64) size then rest else ok chunk

-- The first value of `alloc`.
abbrev pub first_chunk : ℕ → ℕ
first_chunk total = if int_ltb total max_chunk then max_chunk else total

-- The manager with one more part of the file mapped.
abbrev pub with_chunk : PageMgr → ℕ → PageMgr
with_chunk pm chunk = record pm {
  total = (pm.total + chunk) % 2 ^ 64;
  chunks = pm.chunks ++ record { base = pm.total; len = chunk } ∷ [];
}

-- The buffer of all the new pages, one behind the other.
unfoldable pub joined : List Page → Page
joined [] = blank 0
joined (p ∷ ps) = record {
  size = p.size + (joined ps).size;
  byte = λ i. if ltb i p.size then p.byte i else (joined ps).byte (i - p.size);
}

pub data FlushError : Type 0 where
  mmap_error : FlushError
  page_error : ℕ → FlushError
  short_page : ℕ → ℕ → FlushError
  temp_error : FlushError
  short_temp : ℕ → FlushError

-- What `FlushPages` returns: the number of pages, or an error.
pub data Flush : Type 0 where
  flushed_pages : ℕ → Flush
  flush_error : FlushError → Flush

module _ {D : Type 0} (disk : Disk D) where
  unfoldable pub read_chunks : D → ℕ → List Chunk → ℕ → Outcome Page
  read_chunks d start [] ptr = panic
  read_chunks d start (c ∷ cs) ptr =
      let later = read_chunks d (start + c.len / page_size) cs ptr in
      if ltb ptr (start + c.len / page_size)
      then disk.load d (c.base + page_size * (ptr - start))
      else later

  unfoldable pub read_page : D → PageMgr → ℕ → Outcome Page
  read_page d pm ptr = elim (find_page pm.updates ptr) [
    | some node ↦ ok node
    | none ↦ read_chunks d 0 pm.chunks ptr
  ]

  -- The copy of the page that stands in `updates`, which the caller can change in place.
  unfoldable pub write_page : D → PageMgr → ℕ → Outcome (PageMgr × Page)
  write_page d pm ptr = elim (find_page pm.updates ptr) [
    | some node ↦ ok (pm, node)
    | none ↦ do
      old ← read_page d pm ptr
      existing ← copy_at (blank page_size) 0 (read old.byte 0 old.size)
      ok (record pm { updates = set_page pm.updates ptr existing }, existing)
  ]

  unfoldable pub extend_mmap : ℕ → D → PageMgr → ℕ → Outcome (PageMgr × Bool)
  extend_mmap fuel d pm size = elim (int_ltb pm.total size) [
    | false ↦ ok (pm, true)
    | true ↦ do
      chunk ← grow_alloc fuel pm.total size (first_chunk pm.total)
      let mapped = disk.map_file d pm.total chunk
      ok (if mapped then with_chunk pm chunk else pm, mapped)
  ]

  -- The loop over `updates`; the iteration order of a Go map is not fixed, and here it is the list's.
  unfoldable pub flush_updates : D → List (ℕ × Page) → ℕ → D × Flush
  flush_updates d [] count = (d, flushed_pages count)
  flush_updates d ((ptr, page) ∷ rest) count =
      let done = disk.write_at d page (ptr * page_size % 2 ^ 64) in
      elim done.1 [
        | write_error ↦ (done.0, flush_error (page_error ptr))
        | written n ↦ elim (n == page_size) [
          | false ↦ (done.0, flush_error (short_page ptr n))
          | true ↦ flush_updates done.0 rest (count + 1)
        ]
      ]

  -- The new pages are written in one piece behind the flushed ones.
  unfoldable pub flush_temp : D → PageMgr → ℕ → D × PageMgr × Flush
  flush_temp d pm count = elim pm.temp [
    | [] ↦ (d, pm, flushed_pages count)
    | page ∷ pages ↦
        let buf = joined (page ∷ pages) in
        let done = disk.write_at d buf (pm.flushed * page_size % 2 ^ 64) in
        elim done.1 [
          | write_error ↦ (done.0, pm, flush_error temp_error)
          | written n ↦ elim (n == buf.size) [
            | false ↦ (done.0, pm, flush_error (short_temp n))
            | true ↦ (
              done.0,
              record pm { flushed = (pm.flushed + suc (length pages)) % 2 ^ 64; temp = [] },
              flushed_pages (count + suc (length pages)),
            )
          ]
        ]
  ]

  abbrev pub nothing_to_flush : PageMgr → Bool
  nothing_to_flush pm = (length pm.temp == 0) && (length pm.updates == 0)

  -- The rest of `FlushPages` after the loop over `updates`, and after `ExtendMMap`.
  unfoldable pub after_updates : PageMgr → D × Flush → D × PageMgr × Flush
  after_updates pm (d, flush_error e) = (d, pm, flush_error e)
  after_updates pm (d, flushed_pages count) = flush_temp d pm count

  unfoldable pub after_extend : D → PageMgr × Bool → D × PageMgr × Flush
  after_extend d (pm, false) = (d, pm, flush_error mmap_error)
  after_extend d (pm, true) = after_updates pm (flush_updates d pm.updates 0)

  unfoldable pub flush_pages : ℕ → D → PageMgr → Outcome (D × PageMgr × Flush)
  flush_pages fuel d pm = elim (nothing_to_flush pm) [
    | true ↦ ok (d, pm, flushed_pages 0)
    | false ↦ do
      grown ← extend_mmap fuel d pm ((pm.flushed + length pm.temp) % 2 ^ 64 * page_size % 2 ^ 64)
      ok (after_extend d grown)
  ]

  -- `Recover`: the manager, or `none` for an error.
  unfoldable pub recover : (Bytes → ℕ) → D → PageMgr → Outcome (Option PageMgr)
  recover crc d pm = do
    meta ← read_page d pm 0
    sound ← verify_meta crc meta
    elim sound [
      | false ↦ ok none
      | true ↦ do
        found ← read_meta meta
        elim found [ none ↦ ok none | some m ↦ ok (some (reset_to pm m.flushed)) ]
    ]
