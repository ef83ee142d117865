-- ===== src/Kv.antt =====
-- internal/kvstore/kv.go: the store of one file. Its tree reads and makes pages through the free list
-- and the page manager; `Set` and `Del` end with `updateOrRevert`, which writes the pages and then the
-- meta page. The disk and the checksum are parameters, and so is the fuel, one for each level of the
-- tree and one for each doubling of the mapping.
pub mod Update
pub mod FreePages
pub mod LostList
pub mod Recovered
mod Tests
use svacara_db.Prelude.{
  ℕ, zero, suc, ◌+◌, Bool, true, false, Option, none, some, ◌==◌, ◌⊎◌, inl, inr, if◌then◌else◌,
  Outcome, ok, panic, stuck, ◌>>=◌,
}
use svacara_db.Bytes.{Bytes}
use svacara_db.Btree.{Pager}
use svacara_db.Btree.Page.{Page, blank, read, copy_at}
use svacara_db.Btree.Insert.{insert, get}
use svacara_db.Btree.Delete.{delete}
use svacara_db.Btree.Iterator.{BIter, seek_le}
use svacara_db.Btree.FreeList.{ListPages, FreeList, pop_head, push_tail}
use svacara_db.Pages.{Disk, WriteResult, written, write_error}
use svacara_db.Pages.Meta.{Meta}
use svacara_db.Pages.Recovery.{write_meta_full, read_meta_safe}
use svacara_db.Pages.Manager.{
  PageMgr, FlushError, Flush, flushed_pages, flush_error, new_page_mgr, set_page, alloc,
  clear_updates, reset_to, read_page, write_page, extend_mmap, flush_pages,
}

pub data SyncMode : Type 0 where
  sync_off sync_normal sync_full : SyncMode

pub record Kv (D : Type 0) : Type 0 where
  pub disk_state : D
  pub root : ℕ
  pub free : FreeList
  pub mgr : PageMgr
  pub mode : SyncMode
  pub failed : Bool

-- The errors of `updateOrRevert`, in the order in which it can return them.
pub data UpdateError : Type 0 where
  recover_meta recover_fsync : UpdateError
  flush_failed : FlushError → UpdateError
  fsync1 write_meta_failed fsync2 : UpdateError

pub data OpenError : Type 0 where
  file_error mmap_failed not_valid : OpenError

abbrev pub meta_of : ℕ → ℕ → FreeList → Meta
meta_of root flushed fl = record {
  root = root;
  flushed = flushed;
  head_page = fl.head_page;
  head_seq = fl.head_seq;
  tail_page = fl.tail_page;
  tail_seq = fl.tail_seq;
}

abbrev pub free_of : Meta → FreeList
free_of m = record {
  head_page = m.head_page;
  head_seq = m.head_seq;
  tail_page = m.tail_page;
  tail_seq = m.tail_seq;
  max_seq = 0;
}

module _ {D : Type 0} (crc : Bytes → ℕ) (disk : Disk D) where
  -- The functions of `db.free`.
  unfoldable pub list_pages : D → ListPages PageMgr
  list_pages d = record {
    page_of = read_page disk d;
    add_page = λ pm page. ok (alloc pm page);
    set_page = write_page disk d;
    store = λ pm ptr page. record pm { updates = set_page pm.updates ptr page };
  }

  -- `tree.NewPage`: a page of the free list is overwritten in place, and without one the file grows.
  unfoldable pub kv_new_page : Kv D → Page → Outcome (Kv D × ℕ)
  kv_new_page kv node = do
    popped ← pop_head (list_pages kv.disk_state) kv.mgr kv.free
    let kv1 = record kv { mgr = popped.0; free = popped.1 }
    elim (popped.2 == 0) [
      | true ↦ let added = alloc kv1.mgr node in ok (record kv1 { mgr = added.0 }, added.1)
      | false ↦ do
        got ← write_page disk kv.disk_state kv1.mgr popped.2
        page ← copy_at got.1 0 (read node.byte 0 node.size)
        ok (
          record kv1 { mgr = record got.0 { updates = set_page got.0.updates popped.2 page } },
          popped.2,
        )
    ]

  -- `tree.DelPage`
  unfoldable pub kv_del_page : Kv D → ℕ → Outcome (Kv D)
  kv_del_page kv ptr = do
    pushed ← push_tail (list_pages kv.disk_state) kv.mgr kv.free ptr
    ok (record kv { mgr = pushed.0; free = pushed.1 })

  unfoldable pub page_read : Kv D → ℕ → Outcome Page
  page_read kv ptr = read_page disk kv.disk_state kv.mgr ptr

  unfoldable pub tree_pager : Pager (Kv D)
  tree_pager = record { get_page = page_read; new_page = kv_new_page; del_page = kv_del_page }

  -- `Open` after the file has been opened: `size` is its size, or `none` if it could not be opened.
  unfoldable pub open_file : ℕ → D → SyncMode → PageMgr → Outcome (Kv D ⊎ OpenError)
  open_file size d mode pm = do
    page ← read_page disk d pm 0
    found ← read_meta_safe crc page
    elim found [
      | none ↦ ok (inr not_valid)
      | some m ↦ ok (
          inl (record {
            disk_state = d;
            root = m.root;
            free = free_of m;
            mgr = reset_to pm m.flushed;
            mode = mode;
            failed = false;
          }))
    ]

  unfoldable pub open_kv : ℕ → D → Option ℕ → SyncMode → Outcome (Kv D ⊎ OpenError)
  open_kv fuel d none mode = ok (inr file_error)
  open_kv fuel d (some zero) mode = ok (
      inl (record {
        disk_state = d;
        root = 0;
        free = record { head_page = 0; head_seq = 0; tail_page = 0; tail_seq = 0; max_seq = 0 };
        mgr = reset_to new_page_mgr 1;
        mode = mode;
        failed = false;
      }))
  open_kv fuel d (some (suc size)) mode = do
    grown ← extend_mmap disk fuel d new_page_mgr (suc size)
    elim grown.1 [ false ↦ ok (inr mmap_failed) | true ↦ open_file (suc size) d mode grown.0 ]

  unfoldable pub build_meta : Kv D → ℕ → ℕ → Outcome Page
  build_meta kv root flushed = write_meta_full crc (blank 4096) (meta_of root flushed kv.free)

  unfoldable pub save_meta : Kv D → Outcome Page
  save_meta kv = write_meta_full crc (blank 4096) (meta_of kv.root kv.mgr.flushed kv.free)

  abbrev pub rollback : Kv D → ℕ → ℕ → Kv D
  rollback kv root flushed = record kv {
    root = root;
    mgr = clear_updates (reset_to kv.mgr flushed);
  }

  abbrev pub Updated : Type 0
  Updated = Outcome (Kv D × Option UpdateError)

  -- The error paths that go back to the state before the update.
  abbrev pub revert : Kv D → ℕ → ℕ → UpdateError → Updated
  revert kv root flushed e = ok (record (rollback kv root flushed) { failed = true }, some e)

  -- After a failed update the old meta page is written again first.
  unfoldable pub heal_sync : Kv D → D × Bool → Updated
  heal_sync kv (d, false) = ok (record kv { disk_state = d }, some recover_fsync)
  heal_sync kv (d, true) = ok (record kv { disk_state = d; failed = false }, none)

  unfoldable pub heal_write : Kv D → D × WriteResult → Updated
  heal_write kv (d, write_error) = ok (record kv { disk_state = d }, some recover_meta)
  heal_write kv (d, written n) = heal_sync kv (disk.sync d)

  unfoldable pub heal : Kv D → ℕ → ℕ → Updated
  heal kv root flushed = elim kv.failed [
    | false ↦ ok (kv, none)
    | true ↦ do
      meta ← build_meta kv root flushed
      heal_write kv (disk.write_at kv.disk_state meta 0)
  ]

  abbrev pub is_off : SyncMode → Bool
  is_off sync_off = true
  is_off m = false

  unfoldable pub first_sync : Kv D → ℕ → ℕ → D × Bool → Updated
  first_sync kv root flushed (d, false) = revert (record kv { disk_state = d }) root flushed fsync1
  first_sync kv root flushed (d, true) =
      ok (record kv { disk_state = d; mgr = clear_updates kv.mgr }, none)

  unfoldable pub after_flush : Kv D → ℕ → ℕ → Flush → Updated
  after_flush kv root flushed (flush_error e) = revert kv root flushed (flush_failed e)
  after_flush kv root flushed (flushed_pages n) = elim (is_off kv.mode) [
    | true ↦ ok (record kv { mgr = clear_updates kv.mgr }, none)
    | false ↦ first_sync kv root flushed (disk.sync kv.disk_state)
  ]

  -- The pages go to the file before the meta page.
  unfoldable pub write_pages : ℕ → Kv D → ℕ → ℕ → Updated
  write_pages fuel kv root flushed = do
    done ← flush_pages disk fuel kv.disk_state kv.mgr
    after_flush (record kv { disk_state = done.0; mgr = done.1 }) root flushed done.2

  -- A failure of the last `Fsync` keeps the new state.
  unfoldable pub last_sync : Kv D → D × Bool → Updated
  last_sync kv (d, false) = ok (record kv { disk_state = d; failed = true }, some fsync2)
  last_sync kv (d, true) = ok (record kv { disk_state = d }, none)

  unfoldable pub after_meta : Kv D → ℕ → ℕ → D × WriteResult → Updated
  after_meta kv root flushed (d, write_error) =
      revert (record kv { disk_state = d }) root flushed write_meta_failed
  after_meta kv root flushed (d, written n) = elim (is_off kv.mode) [
    | true ↦ ok (record kv { disk_state = d }, none)
    | false ↦ last_sync (record kv { disk_state = d }) (disk.sync d)
  ]

  unfoldable pub write_root : Kv D → ℕ → ℕ → Updated
  write_root kv root flushed = do
    meta ← save_meta kv
    after_meta kv root flushed (disk.write_at kv.disk_state meta 0)

  -- The next step is taken if there was no error.
  unfoldable pub unless_error : (Kv D → Updated) → Kv D × Option UpdateError → Updated
  unless_error step (kv, none) = step kv
  unless_error step (kv, some e) = ok (kv, some e)

  unfoldable pub update_or_revert : ℕ → Kv D → ℕ → ℕ → Updated
  update_or_revert fuel kv root flushed = do
    healed ← heal kv root flushed
    pages ← unless_error (λ kv1. write_pages fuel kv1 root flushed) healed
    unless_error (λ kv2. write_root kv2 root flushed) pages

  unfoldable pub kv_get : ℕ → Kv D → Bytes → Outcome (Option Bytes)
  kv_get fuel kv key = get tree_pager fuel kv kv.root key

  unfoldable pub kv_set : ℕ → Kv D → Bytes → Bytes → Updated
  kv_set fuel kv key val = do
    made ← insert tree_pager fuel kv kv.root key val
    update_or_revert fuel (record made.0 { root = made.1 }) kv.root kv.mgr.flushed

  -- The state, whether the key was there, and the error.
  unfoldable pub kv_del : ℕ → Kv D → Bytes → Outcome (Kv D × Bool × Option UpdateError)
  kv_del fuel kv key = do
    made ← delete tree_pager fuel kv kv.root key
    elim made.2 [
      | false ↦ ok (record made.0 { root = made.1 }, false, none)
      | true ↦ do
        done ← update_or_revert fuel (record made.0 { root = made.1 }) kv.root kv.mgr.flushed
        ok (done.0, true, done.1)
    ]

  unfoldable pub kv_seek : ℕ → Kv D → Bytes → Outcome BIter
  kv_seek fuel kv key = seek_le tree_pager kv fuel kv.root key
