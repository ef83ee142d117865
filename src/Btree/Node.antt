-- ===== src/Btree/Node.antt =====
-- internal/btree/node.go: the layout of a node. After the header stand the pointers of 8 bytes, the
-- offsets of 2 bytes that say where each pair ends, and the pairs: two lengths, a key and a value.
-- Positions are computed in uint16.
pub mod Layout
pub mod Read
pub mod Append
pub mod Lookup
use svacara_db.Prelude.{
  ℕ, zero, suc, ◌+◌, ◌-◌, ◌*◌, ◌/◌, ◌%◌, ◌^◌, Bool, true, false, length, ltb, ◌==◌, if◌then◌else◌,
  Outcome, ok, panic, stuck, ◌>>=◌, Ordering,
}
use svacara_db.Bytes.{Bytes}
use svacara_db.Bytes.Compare.{cmp}
use svacara_db.Btree.Page.{Page, get_le, put_le, slice, copy_at}

abbrev pub header : ℕ
header = 4

abbrev pub page_size : ℕ
page_size = 4096

abbrev pub bnode_internal : ℕ
bnode_internal = 1

abbrev pub bnode_leaf : ℕ
bnode_leaf = 2

-- A uint16 result.
abbrev pub u16 : ℕ → ℕ
u16 n = n % 2 ^ 16

unfoldable pub btype : Page → Outcome ℕ
btype node = get_le 2 node 0

unfoldable pub nkeys : Page → Outcome ℕ
nkeys node = get_le 2 node 2

unfoldable pub set_header : Page → ℕ → ℕ → Outcome Page
set_header node type n = do node' ← put_le 2 node 0 type; put_le 2 node' 2 n

unfoldable pub get_ptr : Page → ℕ → Outcome ℕ
get_ptr node idx = get_le 8 node (u16 (header + 8 * idx))

unfoldable pub set_ptr : Page → ℕ → ℕ → Outcome Page
set_ptr node idx val = put_le 8 node (u16 (header + 8 * idx)) val

unfoldable pub offset_pos : Page → ℕ → Outcome ℕ
offset_pos node idx = do n ← nkeys node; ok (u16 (header + 8 * n + 2 * u16 (idx + 2 ^ 16 - 1)))

unfoldable pub get_offset : Page → ℕ → Outcome ℕ
get_offset node zero = ok 0
get_offset node (suc i) = do pos ← offset_pos node (suc i); get_le 2 node pos

unfoldable pub set_offset : Page → ℕ → ℕ → Outcome Page
set_offset node idx offset = do pos ← offset_pos node idx; put_le 2 node pos offset

unfoldable pub kv_pos : Page → ℕ → Outcome ℕ
kv_pos node idx = do
  n ← nkeys node
  offset ← get_offset node idx
  ok (u16 (header + 8 * n + 2 * n + offset))

unfoldable pub nbytes : Page → Outcome ℕ
nbytes node = do n ← nkeys node; kv_pos node n

unfoldable pub get_key : Page → ℕ → Outcome Bytes
get_key node idx = do
  pos ← kv_pos node idx
  klen ← get_le 2 node pos
  slice node (u16 (pos + 4)) klen

unfoldable pub get_val : Page → ℕ → Outcome Bytes
get_val node idx = do
  pos ← kv_pos node idx
  klen ← get_le 2 node pos
  vlen ← get_le 2 node (u16 (pos + 2))
  slice node (u16 (pos + 4 + klen)) vlen

-- The pair itself, from position `pos` on.
unfoldable pub put_kv : Page → ℕ → Bytes → Bytes → Outcome Page
put_kv new pos key val = do
  new1 ← put_le 2 new pos (u16 (length key))
  new2 ← put_le 2 new1 (u16 (pos + 2)) (u16 (length val))
  new3 ← copy_at new2 (u16 (pos + 4)) key
  copy_at new3 (u16 (pos + 4 + u16 (length key))) val

unfoldable pub node_append_kv : Page → ℕ → ℕ → Bytes → Bytes → Outcome Page
node_append_kv new idx ptr key val = do
  new1 ← set_ptr new idx ptr
  pos ← kv_pos new1 idx
  new2 ← put_kv new1 pos key val
  offset ← get_offset new2 idx
  set_offset new2 (u16 (idx + 1)) (u16 (offset + 4 + u16 (length key + length val)))

unfoldable pub node_append_range : Page → Page → ℕ → ℕ → ℕ → Outcome Page
node_append_range new old dst src zero = ok new
node_append_range new old dst src (suc n) = do
  ptr ← get_ptr old src
  key ← get_key old src
  val ← get_val old src
  new' ← node_append_kv new dst ptr key val
  node_append_range new' old (u16 (dst + 1)) (u16 (src + 1)) n

-- `cmp(a, b) <= 0`
abbrev pub is_le : Ordering → Bool
is_le Ordering.gt = false
is_le o = true

unfoldable pub lookup_loop : ℕ → Page → Bytes → ℕ → ℕ → Outcome ℕ
lookup_loop zero node key lo hi = stuck
lookup_loop (suc fuel) node key lo hi =
    if ltb lo hi
    then (do
      let mid = lo + (hi - lo) / 2
      k ← get_key node mid
      elim (is_le (cmp k key)) [
        | true ↦ lookup_loop fuel node key (u16 (mid + 1)) hi
        | false ↦ lookup_loop fuel node key lo mid
      ])
    else ok lo

-- The range shrinks in each round, so one more than its length is fuel enough.
unfoldable pub node_lookup_le : Page → Bytes → Outcome ℕ
node_lookup_le node key = do
  n ← nkeys node
  lo ← lookup_loop (suc n) node key 0 n
  ok (if lo == 0 then 0 else lo - 1)
