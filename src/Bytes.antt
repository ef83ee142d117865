-- ===== src/Bytes.antt =====
-- Byte strings, and encoding/binary's fixed-width numbers in both byte orders.
pub mod Endian
pub mod Little
pub mod Compare
use svacara_db.Prelude.{ℕ, ◌<◌, List, All}

-- A Go `[]byte` or `string`: the list of its bytes.
abbrev pub Bytes : Type 0
Bytes = List ℕ

abbrev pub IsByte : ℕ → Type 0
IsByte b = b < 256

abbrev pub IsBytes : Bytes → Type 0
IsBytes = All IsByte
