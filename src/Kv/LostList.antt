-- ===== src/Kv/LostList.antt =====
-- The free list after its head is gone: sequences of `PushTail` and `PopHead` over the page manager.
use svacara_db.Prelude.{
  ℕ, suc, ◌+◌, ◌%◌, ◌^◌, ◌<◌, ◌≡◌, ◌≢◌, refl, arith, true, false, List, [], ◌∷◌, length,
  length-append, All, ◌==◌, Bool-cases, Option-cases, inl, inr, Outcome, ok, panic, stuck, ◌>>=◌,
}
use svacara_db.Bytes.{Bytes}
use svacara_db.Btree.Page.{Page, blank, read, copy_at}
use svacara_db.Btree.FreeList.{
  FreeList, list_cap, set_next, slot_set, pop_head, first_page, grow_tail, push_tail,
}
use svacara_db.Pages.{Disk}
use svacara_db.Pages.Manager.{PageMgr, page_size, find_page, set_page, alloc, read_page, write_page}
use svacara_db.Kv.{list_pages}

pub data ListOp : Type 0 where
  push_op : ℕ → ListOp
  pop_op : ListOp

-- What holds of the value, if the code ends with one.
abbrev pub Every : {A : Type 0} → (A → Type 0) → Outcome A → Type 0
Every P (ok x) = P x
Every P panic = Unit {0}
Every P stuck = Unit {0}

Every-bind :
    {A B : Type 0} (Q : A → Type 0) (P : B → Type 0) (o : Outcome A) (k : A → Outcome B)
    → Every Q o
    → ((x : A) → Q x → Every P (k x))
    → Every P (o >>= k)
Every-bind Q P (ok x) k q f = f x q
Every-bind Q P panic k q f = tt
Every-bind Q P stuck k q f = tt

abbrev Any : {A : Type 0} → A → Type 0
Any x = Unit {0}

Every-Any : {A : Type 0} (o : Outcome A) → Every Any o
Every-Any (ok x) = tt
Every-Any panic = tt
Every-Any stuck = tt

abbrev pages_of : PageMgr → ℕ
pages_of pm = pm.flushed + length pm.temp

abbrev Kept : PageMgr → PageMgr → Type 0
Kept pm pm' = pages_of pm' ≡ pages_of pm

-- The list has a tail but no head, and page numbers are left for `n` more pages.
abbrev pub IsLost : PageMgr → FreeList → ℕ → Type 0
IsLost pm fl n =
    (fl.head_page ≡ 0)
    × (fl.tail_page ≢ 0)
    × (0 < pm.flushed + length pm.temp)
    × (pm.flushed + length pm.temp + n < 2 ^ 64)

module _ {D : Type 0} (crc : Bytes → ℕ) (disk : Disk D) (d : D) where
  -- The pointers that the list gives out during a sequence of calls.
  unfoldable pub run_list : PageMgr → FreeList → List ListOp → Outcome (List ℕ)
  run_list pm fl [] = ok []
  run_list pm fl (push_op ptr ∷ ops) = do
    pushed ← push_tail (list_pages crc disk d) pm fl ptr
    run_list pushed.0 pushed.1 ops
  run_list pm fl (pop_op ∷ ops) = do
    popped ← pop_head (list_pages crc disk d) pm fl
    rest ← run_list popped.0 popped.1 ops
    ok (popped.2 ∷ rest)

  write_page-Kept : (pm : PageMgr) (ptr : ℕ) → Every (λ r. Kept pm r.0) (write_page disk d pm ptr)
  unfolding write_page
  write_page-Kept pm ptr = elim (Option-cases (find_page pm.updates ptr)) [
    | inr (node, e) ↦ rw (write_page, e) refl
    | inl e ↦
        rw (write_page, e)
          (Every-bind Any (λ r. Kept pm r.0) (read_page disk d pm ptr) _
            (Every-Any (read_page disk d pm ptr))
            λ old o.
              Every-bind Any (λ r. Kept pm r.0)
                (copy_at (blank page_size) 0 (read old.byte 0 old.size)) _
                (Every-Any (copy_at (blank page_size) 0 (read old.byte 0 old.size))) λ page p. refl)
  ]

  grow_tail-IsLost :
      (pm : PageMgr) (fl : FreeList) (node : Page) (n : ℕ)
      → IsLost pm fl (suc n)
      → Every (λ r. IsLost r.0 r.1 n) (grow_tail (list_pages crc disk d) pm fl node)
  unfolding grow_tail list_pages alloc
  grow_tail-IsLost pm fl node n (head, tail, some_page, room) =
      Every-bind Any (λ r. IsLost r.0 r.1 n) (set_next (blank 4096) 0) _
        (Every-Any (set_next (blank 4096) 0))
        λ fresh f.
          let count = length-append pm.temp (fresh ∷ []) in
          let made = (pm.flushed + length pm.temp) % 2 ^ 64 in
          Every-bind Any (λ r. IsLost r.0 r.1 n) (set_next node made) _
            (Every-Any (set_next node made))
            λ node' g. (head, omega arith, omega (arith, count), omega (arith, count))

  push_tail-IsLost :
      (pm : PageMgr) (fl : FreeList) (ptr n : ℕ)
      → IsLost pm fl (suc n)
      → Every (λ r. IsLost r.0 r.1 n) (push_tail (list_pages crc disk d) pm fl ptr)
  unfolding push_tail first_page list_pages
  push_tail-IsLost pm fl ptr n (head, tail, some_page, room) =
      let tail_there : (fl.tail_page == 0) ≡ false = ground arith in
      rw (push_tail, first_page, tail_there)
        (Every-bind (λ r. Kept pm r.0) (λ r. IsLost r.0 r.1 n) (write_page disk d pm fl.tail_page) _
          (write_page-Kept pm fl.tail_page)
          λ got kept.
            Every-bind Any (λ r. IsLost r.0 r.1 n) (slot_set got.1 (fl.tail_seq % list_cap) ptr) _
              (Every-Any (slot_set got.1 (fl.tail_seq % list_cap) ptr))
              λ node s. stored got.0 node kept)
    where
      stored :
          (pm' : PageMgr) (node : Page)
          → Kept pm pm'
          → Every {A = PageMgr × FreeList}
              (λ r. IsLost r.0 r.1 n)
              (elim ((fl.tail_seq + 1) % 2 ^ 64 % list_cap == 0) [
                | false ↦ ok (
                  record pm' { updates = set_page pm'.updates fl.tail_page node },
                  record fl { tail_seq = (fl.tail_seq + 1) % 2 ^ 64 },
                )
                | true ↦
                    grow_tail
                      (list_pages crc disk d)
                      (record pm' { updates = set_page pm'.updates fl.tail_page node })
                      (record fl { tail_seq = (fl.tail_seq + 1) % 2 ^ 64 })
                      node
              ])
      stored pm' node kept = elim (Bool-cases ((fl.tail_seq + 1) % 2 ^ 64 % list_cap == 0)) [
        | inr t ↦ rw t (head, tail, omega (arith, kept), omega (arith, kept))
        | inl t ↦ rw t (
            grow_tail-IsLost (record pm' { updates = set_page pm'.updates fl.tail_page node })
              (record fl { tail_seq = (fl.tail_seq + 1) % 2 ^ 64 }) node n
              (head, tail, omega (arith, kept), omega (arith, kept)))
      ]

  -- Once the list has a tail but no head, as after the 64th pop from its only page, no sequence of
  -- pushes and pops that ends without a panic gets a pointer out of it again: each pop gives 0. Page
  -- numbers are left for a new page at each call.
  pub run_list-IsLost :
      (pm : PageMgr) (fl : FreeList) (ops : List ListOp)
      → IsLost pm fl (length ops)
      → Every (All (λ ptr. ptr ≡ 0)) (run_list pm fl ops)
  unfolding run_list pop_head
  run_list-IsLost pm fl [] lost = tt
  run_list-IsLost pm fl (push_op ptr ∷ ops) lost =
      Every-bind (λ r. IsLost r.0 r.1 (length ops)) (All (λ ptr. ptr ≡ 0))
        (push_tail (list_pages crc disk d) pm fl ptr) _
        (push_tail-IsLost pm fl ptr (length ops) lost) λ r l. run_list-IsLost r.0 r.1 ops l
  run_list-IsLost pm fl (pop_op ∷ ops) (head, tail, some_page, room) =
      let none_left : (fl.head_page == 0) ≡ true = ground arith in
      rw (run_list, pop_head, none_left)
        (Every-bind (All (λ ptr. ptr ≡ 0)) (All (λ ptr. ptr ≡ 0)) (run_list pm fl ops) _
          (run_list-IsLost pm fl ops (head, tail, some_page, omega arith))
          λ rest zeros. (refl, zeros))
