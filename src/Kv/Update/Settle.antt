-- ===== src/Kv/Update/Settle.antt =====
-- The steps of `updateOrRevert`, one after the other.
use svacara_db.Prelude.{ℕ, ◌+◌, ◌^◌, ◌<◌, ◌≡◌, List, length}
use svacara_db.Bytes.{Bytes}
use svacara_db.Btree.Page.{Page}
use svacara_db.Btree.FreeList.{FreeList}
use svacara_db.Pages.{Disk}
use svacara_db.Pages.Manager.{PageMgr, Flush, flushed_pages, flush_error}
use svacara_db.Kv.{Kv}
use svacara_db.Kv.Update.{Writes, Appends, Written}

-- The words of a meta page, less the number of flushed pages.
pub record IsWordState (root : ℕ) (fl : FreeList) : Type 0 where
  pub root_word : root < 2 ^ 64
  pub head_page_word : fl.head_page < 2 ^ 64
  pub head_seq_word : fl.head_seq < 2 ^ 64
  pub tail_page_word : fl.tail_page < 2 ^ 64
  pub tail_seq_word : fl.tail_seq < 2 ^ 64

module _ {D : Type 0} (crc : Bytes → ℕ) (disk : Disk D) (small : (bs : Bytes) → crc bs < 2 ^ 32)
    (root flushed : ℕ) (old_word : flushed < 2 ^ 64) where
  -- What the steps of the flush leave if they end without an error.
  abbrev Wrote : D → List (ℕ × Page) → D × Flush → Type 0
  Wrote d us (d', flush_error e) = Unit {0}
  Wrote d us (d', flushed_pages n) = Writes disk d us d'

  abbrev Appended : D → PageMgr → D × PageMgr × Flush → Type 0
  Appended d pm (d', pm', flush_error e) = Unit {0}
  Appended d pm (d', pm', flushed_pages n) =
      Appends disk d pm.flushed pm.temp d' × (pm'.flushed ≡ pm.flushed + length pm.temp)

  abbrev Flushes : D → PageMgr → D × PageMgr × Flush → Type 0
  Flushes d pm (d', pm', flush_error e) = Unit {0}
  Flushes d pm (d', pm', flushed_pages n) =
      Written disk d pm d' × (pm'.flushed ≡ pm.flushed + length pm.temp)
