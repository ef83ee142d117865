-- ===== src/Kv/FreePages.antt =====
-- The free list over the page manager, as `Open` puts the two together.
use svacara_db.Prelude.{
  ℕ, ◌^◌, ◌≤◌, ◌<◌, ◌≡◌, ◌≢◌, refl, arith, true, some, List, [], ◌∷◌, ◌==◌, Bool-cases, inl, inr,
  ok, ◌>>=◌,
}
use svacara_db.Bytes.{Bytes}
use svacara_db.Btree.Page.{Page}
use svacara_db.Btree.FreeList.{FreeList, get_next, pop_head, push_tail}
use svacara_db.Btree.FreeList.Queue.{slot_page, popped_list, pop_head-pushed}
use svacara_db.Pages.{Disk}
use svacara_db.Pages.Manager.{PageMgr, find_page, set_page, read_page, write_page}
use svacara_db.Kv.{list_pages}

find_page-set_page :
    (us : List (ℕ × Page)) (ptr : ℕ) (page : Page)
    → find_page (set_page us ptr page) ptr ≡ some page
unfolding find_page set_page
find_page-set_page [] ptr page = let same : (ptr == ptr) ≡ true = ground arith in rw same refl
find_page-set_page ((k, p) ∷ us) ptr page = elim (Bool-cases (k == ptr)) [
  | inl e ↦ rw (find_page, set_page, e, e) refl
  | inr e ↦ rw (find_page, set_page, e, e) (find_page-set_page us ptr page)
]

module _ {D : Type 0} (crc : Bytes → ℕ) (disk : Disk D) (d : D) where
  -- The manager with a page stored in it.
  abbrev with_page : PageMgr → ℕ → Page → PageMgr
  with_page pm ptr page = record pm { updates = set_page pm.updates ptr page }

  read_page-with_page :
      (pm : PageMgr) (ptr : ℕ) (page : Page)
      → read_page disk d (with_page pm ptr page) ptr ≡ ok page
  unfolding read_page
  read_page-with_page pm ptr page =
      let found = find_page-set_page pm.updates ptr page in rw (read_page, found) refl

  write_page-with_page :
      (pm : PageMgr) (ptr : ℕ) (page : Page)
      → write_page disk d (with_page pm ptr page) ptr ≡ ok (with_page pm ptr page, page)
  unfolding write_page
  write_page-with_page pm ptr page =
      let found = find_page-set_page pm.updates ptr page in rw (write_page, found) refl

  -- A pointer that is pushed onto a list of one page, all of whose slots have been taken, is the next
  -- one to be popped, over the store's own page manager. At most 63 pointers have been taken before;
  -- the 64th makes the page behind the head the head, which is none if no page follows. The tail
  -- page has 4096 bytes, and does not follow itself.
  pub pop_head-push_tail :
      (pm pm1 : PageMgr) (fl : FreeList) (node : Page) (ptr next : ℕ)
      → fl.tail_page ≢ 0
      → fl.head_page ≡ fl.tail_page
      → fl.head_seq ≡ fl.tail_seq
      → fl.tail_seq ≤ 63
      → write_page disk d pm fl.tail_page ≡ ok (pm1, node)
      → 4096 ≤ node.size
      → ptr < 2 ^ 64
      → get_next node ≡ ok next
      → next ≢ fl.head_page
      → (push_tail (list_pages crc disk d) pm fl ptr
          >>= (λ r. pop_head (list_pages crc disk d) r.0 r.1))
        ≡ ok (
          with_page pm1 fl.tail_page (slot_page node fl.tail_seq ptr),
          popped_list (list_pages crc disk d) pm fl next,
          ptr,
        )
  unfolding list_pages
  pop_head-push_tail pm pm1 fl node ptr next has_tail one_page empty few got room word behind
        other =
      pop_head-pushed (list_pages crc disk d) pm fl pm1 node ptr next has_tail one_page empty few
        got room word behind other (read_page-with_page pm1 fl.tail_page)
        (write_page-with_page pm1 fl.tail_page)
