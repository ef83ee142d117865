-- ===== src/Pages/Samples.antt =====
-- A disk as a list of the pages at their positions, and a checksum, for runs.
use svacara_db.Prelude.{
  ℕ, ◌+◌, ◌^◌, ◌<◌, ◌%◌, arith, true, List, [], ◌∷◌, ◌==◌, if◌then◌else◌, Outcome, ok, panic,
}
use svacara_db.Bytes.{Bytes}
use svacara_db.Btree.Page.{Page}
use svacara_db.Pages.{Disk, written}

abbrev pub PageList : Type 0
PageList = List (ℕ × Page)

abbrev pub load_page : PageList → ℕ → Outcome Page
load_page [] pos = panic
load_page ((k, p) ∷ rest) pos = let later = load_page rest pos in if k == pos then ok p else later

abbrev pub list_disk : Disk PageList
list_disk = record {
  write_at = λ d p pos. ((pos, p) ∷ d, written p.size);
  sync = λ d. (d, true);
  map_file = λ d pos len. true;
  load = load_page;
}

-- The sum of the bytes, as a checksum.
abbrev pub byte_sum : Bytes → ℕ
byte_sum bs = total bs % 2 ^ 32
  where
    total : Bytes → ℕ
    total [] = 0
    total (b ∷ bs) = b + total bs

pub byte_sum_small : (bs : Bytes) → byte_sum bs < 2 ^ 32
byte_sum_small bs = omega arith
