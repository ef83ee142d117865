-- ===== src/Pages.antt =====
-- internal/storage: the pages of the database file. The file and its memory mapping are a parameter,
-- over the state `D` of the disk, and so is the CRC of hash/crc32.
pub mod Meta
pub mod Recovery
pub mod Manager
pub mod Mapping
pub mod Flushing
pub mod Samples
mod Tests
use svacara_db.Prelude.{ℕ, Bool, Outcome}
use svacara_db.Btree.Page.{Page}

-- What a call of `WriteAt` returns: the number of bytes, or an error.
pub data WriteResult : Type 0 where
  written : ℕ → WriteResult
  write_error : WriteResult

-- `write_at` is the file's `WriteAt`; `sync` is `Fsync`, with whether there was no error; `map_file` is
-- `Mmap`, with whether there was no error; `load` reads a page of the mapping at a position, which
-- faults past the end of the file.
pub record Disk (D : Type 0) : Type 0 where
  pub write_at : D → Page → ℕ → D × WriteResult
  pub sync : D → D × Bool
  pub map_file : D → ℕ → ℕ → Bool
  pub load : D → ℕ → Outcome Page
