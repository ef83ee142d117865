-- ===== src/Btree/FreeList.antt =====
-- internal/btree/freelist.go: the pages that are free again, in a linked list of pages.
pub mod Queue
use svacara_db.Prelude.{
  ℕ, zero, suc, ◌+◌, ◌-◌, ◌*◌, ◌/◌, ◌%◌, ◌^◌, Bool, true, false, leb, ◌==◌, if◌then◌else◌, Outcome,
  ok, ◌>>=◌,
}
use svacara_db.Btree.Page.{Page, blank, get_le, put_le}

abbrev pub list_header : ℕ
list_header = 8

-- `(BTREE_PAGE_SIZE - FREE_LIST_HEADER) / 8`
abbrev pub list_cap : ℕ
list_cap = 511

unfoldable pub get_next : Page → Outcome ℕ
get_next node = get_le 8 node 0

unfoldable pub set_next : Page → ℕ → Outcome Page
set_next node next = put_le 8 node 0 next

unfoldable pub slot_get : Page → ℕ → Outcome ℕ
slot_get node idx = get_le 8 node (list_header + idx * 8)

unfoldable pub slot_set : Page → ℕ → ℕ → Outcome Page
slot_set node idx ptr = put_le 8 node (list_header + idx * 8) ptr

-- The functions that the list is given, over the state `T` of the pages' owner. `set_page` gives a page
-- that the list changes in place, which `store` does.
pub record ListPages (T : Type 0) : Type 0 where
  pub page_of : T → ℕ → Outcome Page
  pub add_page : T → Page → Outcome (T × ℕ)
  pub set_page : T → ℕ → Outcome (T × Page)
  pub store : T → ℕ → Page → T

pub record FreeList : Type 0 where
  pub head_page : ℕ
  pub head_seq : ℕ
  pub tail_page : ℕ
  pub tail_seq : ℕ
  pub max_seq : ℕ

abbrev pub set_max_seq : FreeList → FreeList
set_max_seq fl = record fl { max_seq = fl.tail_seq }

module _ {T : Type 0} (pages : ListPages T) where
  -- The page behind the head becomes the head, once 64 pointers have been taken from it.
  unfoldable pub leave_head : T → FreeList → ℕ → Outcome (T × FreeList)
  leave_head t fl next = do
    let head_seq = if next == 0 then fl.head_seq else 0
    elim (next == fl.head_page) [
      | true ↦ ok (t, record fl { head_page = next; head_seq = head_seq })
      | false ↦ do
        touched ← pages.set_page t fl.head_page
        ok (touched.0, record fl { head_page = next; head_seq = head_seq })
    ]

  -- The state, the list and the pointer, which is 0 if there is none.
  unfoldable pub pop_head : T → FreeList → Outcome (T × FreeList × ℕ)
  pop_head t fl = elim (fl.head_page == 0) [
    | true ↦ ok (t, fl, 0)
    | false ↦ do
      node ← pages.page_of t fl.head_page
      ptr ← slot_get node fl.head_seq
      let fl1 = record fl { head_seq = (fl.head_seq + 1) % 2 ^ 64 }
      next ← get_next node
      elim (leb list_cap (fl1.head_seq * 8 % 2 ^ 64)) [
        | false ↦ ok (t, fl1, ptr)
        | true ↦ do left ← leave_head t fl1 next; ok (left.0, left.1, ptr)
      ]
  ]

  -- The first page of an empty list.
  unfoldable pub first_page : T → FreeList → Outcome (T × FreeList)
  first_page t fl = elim (fl.tail_page == 0) [
    | false ↦ ok (t, fl)
    | true ↦ do
      fresh ← set_next (blank 4096) 0
      made ← pages.add_page t fresh
      ok (made.0, record fl { tail_page = made.1; head_page = made.1 })
  ]

  -- A page behind a full tail.
  unfoldable pub grow_tail : T → FreeList → Page → Outcome (T × FreeList)
  grow_tail t fl node = do
    fresh ← set_next (blank 4096) 0
    made ← pages.add_page t fresh
    node' ← set_next node made.1
    ok (pages.store made.0 fl.tail_page node', record fl { tail_page = made.1 })

  unfoldable pub push_tail : T → FreeList → ℕ → Outcome (T × FreeList)
  push_tail t fl ptr = do
    started ← first_page t fl
    let fl1 = started.1
    got ← pages.set_page started.0 fl1.tail_page
    node ← slot_set got.1 (fl1.tail_seq % list_cap) ptr
    let t2 = pages.store got.0 fl1.tail_page node
    let fl2 = record fl1 { tail_seq = (fl1.tail_seq + 1) % 2 ^ 64 }
    elim (fl2.tail_seq % list_cap == 0) [ false ↦ ok (t2, fl2) | true ↦ grow_tail t2 fl2 node ]
