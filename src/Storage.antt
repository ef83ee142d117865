-- ===== src/Storage.antt =====
-- internal/kvstore/interface.go: the interface `Storage` between the stores and their clients, which
-- are transactions, pooled connections and tables. `S` is the state of the store. What `Seek`
-- returns is the list of pairs that the iterator has still to show.
pub mod Assoc
use svacara_db.Prelude.{ℕ, ◌≡◌, Bool, true, false, Option, none, some, List, if◌then◌else◌}
use svacara_db.Bytes.{Bytes}
use svacara_db.Bytes.Compare.{bytes_eq}

-- `set` returns whether there was no error, and `del` whether the key was there, or `none` for an
-- error.
pub record Storage (S : Type 0) : Type 0 where
  pub get : S → Bytes → Option Bytes
  pub set : S → Bytes → Bytes → S × Bool
  pub del : S → Bytes → S × Option Bool
  pub seek : S → Bytes → List (Bytes × Bytes)
  pub tree_root : S → ℕ

abbrev pub is_some {ℓ} : {A : Type ℓ} → Option A → Bool
is_some none = false
is_some (some a) = true
