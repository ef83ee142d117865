-- ===== src/Btree/Page.antt =====
-- Go byte slices that are written in place: a length and the byte at each index. A read or a write of
-- encoding/binary past the end panics; `copy` cuts what it copies at the end. `node[pos:][:n]` is a read
-- of `n` bytes, without spare capacity.
pub mod Overlay
use svacara_db.Prelude.{
  ℕ, zero, suc, ◌+◌, ◌-◌, [], ◌∷◌, length, take, ltb, ◌==◌, if◌then◌else◌, Outcome, ok, panic,
}
use svacara_db.Bytes.{Bytes}
use svacara_db.Bytes.Little.{le_bytes, le_value}

pub record Page : Type 0 where
  pub size : ℕ
  pub byte : ℕ → ℕ

-- `make([]byte, n)`
abbrev pub blank : ℕ → Page
blank n = record { size = n; byte = λ i. 0 }

unfoldable pub read : (ℕ → ℕ) → ℕ → ℕ → Bytes
read f pos zero = []
read f pos (suc n) = f pos ∷ read f (suc pos) n

unfoldable pub overlay : ℕ → Bytes → (ℕ → ℕ) → ℕ → ℕ
overlay pos [] f i = f i
overlay pos (b ∷ bs) f i = let later = overlay (suc pos) bs f i in if i == pos then b else later

abbrev pub poke : Page → ℕ → Bytes → Page
poke p pos bs = record p { byte = overlay pos bs p.byte }

-- `binary.LittleEndian.Uint16(p[pos:])` and its kin, for `n` bytes.
unfoldable pub get_le : ℕ → Page → ℕ → Outcome ℕ
get_le n p pos = if ltb p.size (pos + n) then panic else ok (le_value (read p.byte pos n))

unfoldable pub put_le : ℕ → Page → ℕ → ℕ → Outcome Page
put_le n p pos v = if ltb p.size (pos + n) then panic else ok (poke p pos (le_bytes n v))

-- `p[pos:][:n]`
unfoldable pub slice : Page → ℕ → ℕ → Outcome Bytes
slice p pos n = if ltb p.size (pos + n) then panic else ok (read p.byte pos n)

-- `copy(p[pos:], bs)`
unfoldable pub copy_at : Page → ℕ → Bytes → Outcome Page
copy_at p pos bs = if ltb p.size pos then panic else ok (poke p pos (take (p.size - pos) bs))
