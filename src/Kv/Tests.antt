-- ===== src/Kv/Tests.antt =====
-- Runs of the store over a disk of pages, and the instances of its theorems.
use svacara_db.Prelude.{◌≡◌, refl, arith, false, some, [], ◌∷◌, ok, ◌>>=◌, All}
use svacara_db.Bytes.Little.{le_value}
use svacara_db.Btree.Page.{Page, blank, read, get_le}
use svacara_db.Btree.FreeList.{FreeList, get_next, pop_head, push_tail}
use svacara_db.Btree.FreeList.Queue.{slot_page}
use svacara_db.Pages.Manager.{PageMgr, new_page_mgr, find_page, set_page, write_page}
use svacara_db.Kv.FreePages.{pop_head-push_tail}
use svacara_db.Kv.LostList.{push_op, pop_op, Every, run_list, run_list-IsLost}
use svacara_db.Pages.Samples.{PageList, list_disk, byte_sum, byte_sum_small}
use svacara_db.Pages.Recovery.{
  IsWords, write_meta_full, read_meta_safe, read_meta_safe-write_meta_full,
}
use svacara_db.Kv.{Kv, sync_full, meta_of, list_pages, open_kv}
use svacara_db.Kv.Update.{Returns, OnDisk}
use svacara_db.Kv.Recovered.{Reopened, open_kv-Reopened}

-- The root was set to page 1, which stands in memory.
abbrev changed : Kv PageList
changed = record {
  disk_state = [];
  root = 1;
  free = record { head_page = 0; head_seq = 0; tail_page = 0; tail_seq = 0; max_seq = 0 };
  mgr = record { total = 0; chunks = []; flushed = 1; temp = blank 4096 ∷ []; updates = [] };
  mode = sync_full;
  failed = false;
}

changed-IsWords : IsWords (meta_of 1 2 changed.free)
changed-IsWords = record {
  root_word = omega arith;
  flushed_word = omega arith;
  head_page_word = omega arith;
  head_seq_word = omega arith;
  tail_page_word = omega arith;
  tail_seq_word = omega arith;
}

abbrev sealed_meta :
    (p : Page) × (write_meta_full byte_sum (blank 4096) (meta_of 1 2 changed.free) ≡ ok p)
    × (p.size ≡ 4096)
    × (read_meta_safe byte_sum p ≡ ok (some (meta_of 1 2 changed.free)))
sealed_meta =
    read_meta_safe-write_meta_full byte_sum (blank 4096) (meta_of 1 2 changed.free) (omega arith)
      changed-IsWords byte_sum_small

-- The store after an update, with its meta page in the file.
abbrev saved : Kv PageList
saved = record changed {
  disk_state = (0, sealed_meta.0) ∷ [];
  mgr = record { total = 0; chunks = []; flushed = 2; temp = []; updates = [] };
}

saved-OnDisk : OnDisk byte_sum list_disk saved
saved-OnDisk = sealed_meta.3

open_kv-Reopened_example :
    Returns
      (Reopened byte_sum list_disk saved 8192)
      (open_kv byte_sum list_disk 14 saved.disk_state (some 8192) sync_full)
open_kv-Reopened_example =
    open_kv-Reopened byte_sum list_disk 13 saved 8191 sync_full (omega arith) (omega arith)
      saved-OnDisk

-- A list of one page from which 63 pointers have been taken.
abbrev worn_list : FreeList
worn_list = record { head_page = 1; head_seq = 63; tail_page = 1; tail_seq = 63; max_seq = 0 }

abbrev listed : PageMgr
listed = record new_page_mgr { flushed = 2; updates = (1, blank 4096) ∷ [] }

pop_head-push_tail_example :
    (push_tail (list_pages byte_sum list_disk []) listed worn_list 9
      >>= (λ r. pop_head (list_pages byte_sum list_disk []) r.0 r.1))
    ≡ ok (
      record listed { updates = (1, slot_page (blank 4096) 63 9) ∷ [] },
      record worn_list { head_page = 0; head_seq = 64; tail_seq = 64 },
      9,
    )
unfolding write_page find_page set_page get_next get_le read le_value
pop_head-push_tail_example =
    pop_head-push_tail byte_sum list_disk [] listed listed worn_list (blank 4096) 9 0
      (λ z. ground arith) refl refl (omega arith) refl (omega arith) (omega arith) refl
      (λ z. ground arith)

run_list-IsLost_example : Every (All (λ ptr. ptr ≡ 0)) (
    run_list byte_sum list_disk [] listed
      (record worn_list { head_page = 0; head_seq = 64; tail_seq = 64 })
      (pop_op ∷ push_op 9 ∷ pop_op ∷ []))
run_list-IsLost_example =
    run_list-IsLost byte_sum list_disk [] listed
      (record worn_list { head_page = 0; head_seq = 64; tail_seq = 64 })
      (pop_op ∷ push_op 9 ∷ pop_op ∷ []) (refl, (λ z. ground arith), omega arith, omega arith)
