-- ===== src/Storage/Assoc.antt =====
-- A store in memory that meets the interface and never fails, for runs of its clients.
use svacara_db.Prelude.{true, Option, none, some, List, [], ◌∷◌, if◌then◌else◌}
use svacara_db.Bytes.{Bytes}
use svacara_db.Bytes.Compare.{bytes_eq}
use svacara_db.Storage.{Storage, is_some}

abbrev pub Entries : Type 0
Entries = List (Bytes × Bytes)

abbrev pub lookup : Entries → Bytes → Option Bytes
lookup [] j = none
lookup ((k, v) ∷ m) j = if bytes_eq k j then some v else lookup m j

abbrev pub remove : Entries → Bytes → Entries
remove [] k = []
remove ((i, v) ∷ m) k = let rest = remove m k in if bytes_eq i k then rest else (i, v) ∷ rest

abbrev pub assoc_storage : Storage Entries
assoc_storage = record {
  get = lookup;
  set = λ m k v. ((k, v) ∷ m, true);
  del = λ m k. (remove m k, some (is_some (lookup m k)));
  seek = λ m k. m;
  tree_root = λ m. 1;
}
