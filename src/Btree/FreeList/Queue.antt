-- ===== src/Btree/FreeList/Queue.antt =====
-- What is pushed onto the free list and popped from it.
use svacara_db.Prelude.{
  ℕ, ◌+◌, ◌*◌, ◌%◌, ◌^◌, ◌≤◌, ◌<◌, ◌≡◌, ◌≢◌, refl, sym, ap, ◌∙◌, arith, true, false, ltb, leb,
  if◌then◌else◌, Bool-cases, inl, inr, ◌==◌, ok, ◌>>=◌,
}
use svacara_db.Bytes.Little.{le_bytes}
use svacara_db.Btree.Page.{Page, read, get_le, poke}
use svacara_db.Btree.Page.Overlay.{get_le-read, put_le-ok, read-overlay_apart}
use svacara_db.Btree.Node.Append.{read-put}
use svacara_db.Btree.FreeList.{
  ListPages, FreeList, list_cap, get_next, slot_get, slot_set, leave_head, pop_head, first_page,
  push_tail,
}

abbrev pub slot_page : Page → ℕ → ℕ → Page
slot_page node idx ptr = poke node (8 + idx * 8) (le_bytes 8 ptr)

slot_set-ok :
    (node : Page) (idx ptr : ℕ)
    → 16 + idx * 8 ≤ node.size
    → slot_set node idx ptr ≡ ok (slot_page node idx ptr)
unfolding slot_set
slot_set-ok node idx ptr l = put_le-ok 8 node (8 + idx * 8) ptr (omega arith)

slot_get-slot_page :
    (node : Page) (idx ptr : ℕ)
    → 16 + idx * 8 ≤ node.size
    → ptr < 2 ^ 64
    → slot_get (slot_page node idx ptr) idx ≡ ok ptr
unfolding slot_get
slot_get-slot_page node idx ptr l w =
    get_le-read 8 (slot_page node idx ptr) (8 + idx * 8) ptr (omega arith) (omega arith)
      (read-put node.byte (8 + idx * 8) 8 ptr)

get_next-slot_page :
    (node : Page) (idx ptr next : ℕ)
    → get_next node ≡ ok next
    → get_next (slot_page node idx ptr) ≡ ok next
unfolding get_next get_le
get_next-slot_page node idx ptr next h =
    let same : read (slot_page node idx ptr).byte 0 8 ≡ read node.byte 0 8 =
      read-overlay_apart (8 + idx * 8) (le_bytes 8 ptr) node.byte 0 8 (inl (omega arith)) in
    rw (get_next, get_le, same) h

module _ {T : Type 0} (pages : ListPages T) (t : T) (fl : FreeList) where
  pop_head-slot :
      (page : Page) (ptr next : ℕ)
      → fl.head_page ≢ 0
      → fl.head_seq < 63
      → pages.page_of t fl.head_page ≡ ok page
      → slot_get page fl.head_seq ≡ ok ptr
      → get_next page ≡ ok next
      → pop_head pages t fl ≡ ok (t, record fl { head_seq = fl.head_seq + 1 }, ptr)
  unfolding pop_head
  pop_head-slot page ptr next there few at slot behind =
      let head_there : (fl.head_page == 0) ≡ false = ground arith in
      let next_seq : (fl.head_seq + 1) % 2 ^ 64 ≡ fl.head_seq + 1 = omega arith in
      let early : leb list_cap ((fl.head_seq + 1) % 2 ^ 64 * 8 % 2 ^ 64) ≡ false = ground arith in
      rw (pop_head, head_there, at, slot, behind, early)
        (ap (λ k. ok (t, record fl { head_seq = k }, ptr)) next_seq)

  -- After 64 pointers the page behind the head is the next head.
  pop_head-leave :
      (page : Page) (ptr next : ℕ)
      → fl.head_page ≢ 0
      → fl.head_seq ≡ 63
      → pages.page_of t fl.head_page ≡ ok page
      → slot_get page fl.head_seq ≡ ok ptr
      → get_next page ≡ ok next
      → next ≢ fl.head_page
      → pages.set_page t fl.head_page ≡ ok (t, page)
      → pop_head pages t fl
        ≡ ok (t, record fl { head_page = next; head_seq = if next == 0 then 64 else 0 }, ptr)
  unfolding pop_head leave_head
  pop_head-leave page ptr next there last at slot behind other touched =
      let head_there : (fl.head_page == 0) ≡ false = ground arith in
      let not_head : (next == fl.head_page) ≡ false = ground arith in
      let late : leb list_cap ((fl.head_seq + 1) % 2 ^ 64 * 8 % 2 ^ 64) ≡ true = ground arith in
      let next_seq : (fl.head_seq + 1) % 2 ^ 64 ≡ 64 = omega arith in
      rw (pop_head, head_there, at, slot, behind, late, leave_head, not_head, touched, next_seq)
        refl

module _ {T : Type 0} (pages : ListPages T) (t : T) (fl : FreeList) where
  module _ (t1 : T) (node : Page) (ptr : ℕ) (has_tail : fl.tail_page ≢ 0)
      (got : pages.set_page t fl.tail_page ≡ ok (t1, node)) (room : 4096 ≤ node.size)
      (word : ptr < 2 ^ 64) where
    abbrev pub stored : T
    stored = pages.store t1 fl.tail_page (slot_page node (fl.tail_seq % list_cap) ptr)

    push_tail-slot :
        (fl.tail_seq + 1) % list_cap ≢ 0
        → fl.tail_seq + 1 < 2 ^ 64
        → push_tail pages t fl ptr ≡ ok (stored, record fl { tail_seq = fl.tail_seq + 1 })
    unfolding push_tail first_page
    push_tail-slot more small =
        let tail_there : (fl.tail_page == 0) ≡ false = ground arith in
        let next_seq : (fl.tail_seq + 1) % 2 ^ 64 ≡ fl.tail_seq + 1 = omega arith in
        let not_full : ((fl.tail_seq + 1) % list_cap == 0) ≡ false = ground arith in
        rw
          (
            push_tail,
            first_page,
            tail_there,
            got,
            slot_set-ok node (fl.tail_seq % list_cap) ptr (omega arith),
            next_seq,
            not_full,
          )
          (ap (λ k. ok (stored, record fl { tail_seq = k })) next_seq)

  -- The list after a pop from the page that a push has just filled.
  abbrev pub popped_list : ℕ → FreeList
  popped_list next =
      if ltb fl.head_seq 63
      then record fl { head_seq = fl.head_seq + 1; tail_seq = fl.tail_seq + 1 }
      else record fl {
        head_page = next;
        head_seq = if next == 0 then 64 else 0;
        tail_seq = fl.tail_seq + 1;
      }

  -- A push and a pop of a list of one page, whose slots have all been taken.
  pub pop_head-pushed :
      (t1 : T) (node : Page) (ptr next : ℕ)
      → fl.tail_page ≢ 0
      → fl.head_page ≡ fl.tail_page
      → fl.head_seq ≡ fl.tail_seq
      → fl.tail_seq ≤ 63
      → pages.set_page t fl.tail_page ≡ ok (t1, node)
      → 4096 ≤ node.size
      → ptr < 2 ^ 64
      → get_next node ≡ ok next
      → next ≢ fl.head_page
      → ((page : Page) → pages.page_of (pages.store t1 fl.tail_page page) fl.tail_page ≡ ok page)
      → ((page : Page)
          → pages.set_page (pages.store t1 fl.tail_page page) fl.tail_page
            ≡ ok (pages.store t1 fl.tail_page page, page))
      → (push_tail pages t fl ptr >>= (λ r. pop_head pages r.0 r.1))
        ≡ ok (pages.store t1 fl.tail_page (slot_page node fl.tail_seq ptr), popped_list next, ptr)
  pop_head-pushed t1 node ptr next has_tail one_page empty few got room word behind other reads
        touches =
      let idx : fl.tail_seq % list_cap ≡ fl.tail_seq = omega arith in
      let page = slot_page node fl.tail_seq ptr in
      let t2 = pages.store t1 fl.tail_page page in
      let pushed : push_tail pages t fl ptr ≡ ok (t2, record fl { tail_seq = fl.tail_seq + 1 }) =
        push_tail-slot t1 node ptr has_tail got room word (ground arith) (omega arith)
        ∙ ap
            (λ k. ok (
              pages.store t1 fl.tail_page (slot_page node k ptr),
              record fl { tail_seq = fl.tail_seq + 1 },
            ))
            idx in
      let slot : slot_get page fl.head_seq ≡ ok ptr =
        ap (slot_get page) empty ∙ slot_get-slot_page node fl.tail_seq ptr (omega arith) word in
      let next_kept = get_next-slot_page node fl.tail_seq ptr next behind in
      let at : pages.page_of t2 fl.head_page ≡ ok page =
        ap (pages.page_of t2) one_page ∙ reads page in
      let touched : pages.set_page t2 fl.head_page ≡ ok (t2, page) =
        ap (pages.set_page t2) one_page ∙ touches page in
      let there : fl.head_page ≢ 0 = λ z. has_tail (sym one_page ∙ z) in
      ap (λ z. z >>= λ r. pop_head pages r.0 r.1) pushed ∙ elim (Bool-cases (ltb fl.head_seq 63)) [
        | inl c ↦
            pop_head-slot pages t2 (record fl { tail_seq = fl.tail_seq + 1 }) page ptr next there
              (ground arith) at slot next_kept
            ∙ rw c refl
        | inr c ↦
            let last : fl.head_seq ≡ 63 = ground (arith, empty) in
            pop_head-leave pages t2 (record fl { tail_seq = fl.tail_seq + 1 }) page ptr next there
              last at slot next_kept other touched
            ∙ rw c refl
      ]
