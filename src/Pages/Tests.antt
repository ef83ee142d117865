-- ===== src/Pages/Tests.antt =====
-- Instances of the theorems on pages.
use svacara_db.Prelude.{◌+◌, ◌*◌, ◌^◌, ◌≡◌, refl, arith, some, [], ◌∷◌, ok}
use svacara_db.Btree.Page.{Page, blank}
use svacara_db.Pages.Meta.{Meta}
use svacara_db.Pages.Recovery.{
  IsWords, write_meta_full, read_meta_safe, read_meta_safe-write_meta_full,
}
use svacara_db.Pages.Manager.{PageMgr, new_page_mgr, max_chunk, find_page, read_page, extend_mmap}
use svacara_db.Pages.Manager.{joined}
use svacara_db.Pages.Flushing.{joined-page}
use svacara_db.Pages.Mapping.{IsMapped, Extended, read_page_flat, extend_mmap-Extended}
use svacara_db.Pages.Samples.{list_disk, byte_sum, byte_sum_small}

abbrev first_meta : Meta
first_meta = record {
  root = 1;
  flushed = 2;
  head_page = 0;
  head_seq = 0;
  tail_page = 0;
  tail_seq = 0;
}

first_meta-IsWords : IsWords first_meta
first_meta-IsWords = record {
  root_word = omega arith;
  flushed_word = omega arith;
  head_page_word = omega arith;
  head_seq_word = omega arith;
  tail_page_word = omega arith;
  tail_seq_word = omega arith;
}

read_meta_safe-write_meta_full_example :
    (p : Page) × (write_meta_full byte_sum (blank 4096) first_meta ≡ ok p)
    × (p.size ≡ 4096)
    × (read_meta_safe byte_sum p ≡ ok (some first_meta))
read_meta_safe-write_meta_full_example =
    read_meta_safe-write_meta_full byte_sum (blank 4096) first_meta (omega arith) first_meta-IsWords
      byte_sum_small

-- A manager with one chunk, over a file with one page.
abbrev mapped : PageMgr
mapped = record {
  total = max_chunk;
  chunks = record { base = 0; len = max_chunk } ∷ [];
  flushed = 2;
  temp = [];
  updates = [];
}

mapped-IsMapped : IsMapped mapped
mapped-IsMapped = (16384, refl, refl, refl)

read_page_flat_example : read_page list_disk ((4096, blank 4096) ∷ []) mapped 1 ≡ ok (blank 4096)
unfolding find_page
read_page_flat_example =
    read_page_flat list_disk ((4096, blank 4096) ∷ []) mapped 1 mapped-IsMapped refl

extend_mmap-Extended_example :
    Extended list_disk [] new_page_mgr (2 ^ 28) (extend_mmap list_disk 29 [] new_page_mgr (2 ^ 28))
extend_mmap-Extended_example =
    extend_mmap-Extended list_disk [] 28 new_page_mgr (2 ^ 28) refl (omega arith) (omega arith)
      (omega arith)

second_page :
    (joined (blank 4096 ∷ record { size = 4096; byte = λ i. 7 } ∷ [])).byte (4096 * 1 + 5) ≡ 7
second_page =
    joined-page (blank 4096 ∷ record { size = 4096; byte = λ i. 7 } ∷ []) 1 5
      (record { size = 4096; byte = λ i. 7 }) (refl, (refl, tt)) refl (omega arith)
