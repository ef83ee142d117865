-- ===== src/Shard.antt =====
-- internal/shard/shard.go: a store over several files, each key in the one that the strategy chooses. The
-- stores are those of internal/kvstore, over a disk `D` for each; the CRC of hash/crc32 and the opening of
-- a file are parameters, and `fuel` bounds the height of the trees.
pub mod Route
mod Tests
use svacara_db.Prelude.{
  ℕ, zero, suc, ◌+◌, ◌-◌, ◌%◌, Bool, true, false, ◌&&◌, Option, none, some, List, [], ◌∷◌, ◌++◌,
  length, get_elem?, ◌==◌, if◌then◌else◌, Outcome, ok, panic, ◌>>=◌, ◌⊎◌, inl, inr, Ordering,
}
use svacara_db.Bytes.{Bytes}
use svacara_db.Bytes.Compare.{cmp}
use svacara_db.Btree.Page.{Page}
use svacara_db.Btree.Iterator.{BIter}
use svacara_db.Pages.{Disk}
use svacara_db.Kv.{Kv, UpdateError, page_read, kv_get, kv_set, kv_del, kv_seek}

pub data ShardStrategy : Type 0 where
  hash_shard range_shard other_strategy : ShardStrategy

pub record RangeBound : Type 0 where
  pub start : Bytes
  pub end : Bytes
  pub shard : ℕ

pub record ShardConfig : Type 0 where
  pub strategy : ShardStrategy
  pub shards : ℕ
  pub ranges : List RangeBound

-- `single` stores hold one file, in `singleKV`, and the others a list of them.
pub data Db (S : Type 0) : Type 0 where
  single : S → Db S
  sharded : ShardConfig → List S → Db S

-- `string(key) >= r.Start && string(key) <= r.End`
abbrev pub not_below : Ordering → Bool
not_below Ordering.lt = false
not_below o = true

abbrev pub not_above : Ordering → Bool
not_above Ordering.gt = false
not_above o = true

abbrev pub in_range : Bytes → RangeBound → Bool
in_range key r = not_below (cmp key r.start) && not_above (cmp key r.end)

-- The loop over the ranges; without a match the last shard is taken.
unfoldable pub range_shard_for : Bytes → List RangeBound → ℕ → ℕ
range_shard_for key [] count = count - 1
range_shard_for key (r ∷ rs) count =
    let later = range_shard_for key rs count in if in_range key r then r.shard else later

unfoldable pub set_shard : {S : Type 0} → List S → ℕ → S → List S
set_shard [] i s = []
set_shard (x ∷ xs) zero s = s ∷ xs
set_shard (x ∷ xs) (suc i) s = x ∷ set_shard xs i s

module _ {D : Type 0} (crc : Bytes → ℕ) (disk : Disk D) (fuel : ℕ) where
  -- The `switch` on the strategy, with `count` stores. `int(h)` is positive, since an int has 64 bits; a
  -- remainder by 0 panics.
  unfoldable pub route : ShardStrategy → List RangeBound → ℕ → Bytes → Outcome ℕ
  route hash_shard ranges count key = if count == 0 then panic else ok (crc key % count)
  route range_shard ranges count key = ok (range_shard_for key ranges count)
  route other_strategy ranges count key = ok 0

  unfoldable pub shard_for_key : Db (Kv D) → Bytes → Outcome ℕ
  shard_for_key (single s) key = ok 0
  shard_for_key (sharded config shards) key =
      route config.strategy config.ranges (length shards) key

  -- The index into the slice of stores panics out of range.
  unfoldable pub pick : List (Kv D) → ℕ → Outcome (Kv D)
  pick [] i = panic
  pick (s ∷ ss) zero = ok s
  pick (s ∷ ss) (suc i) = pick ss i

  unfoldable pub shard_of : Db (Kv D) → Bytes → Outcome (Kv D)
  shard_of (single s) key = ok s
  shard_of (sharded config shards) key = do
    i ← shard_for_key (sharded config shards) key
    pick shards i

  unfoldable pub shard_get : Db (Kv D) → Bytes → Outcome (Option Bytes)
  shard_get db key = do s ← shard_of db key; kv_get crc disk fuel s key

  -- The store that was changed is put back in its place.
  unfoldable pub put_back : Db (Kv D) → Bytes → Kv D → Outcome (Db (Kv D))
  put_back (single s) key s' = ok (single s')
  put_back (sharded config shards) key s' = do
    i ← shard_for_key (sharded config shards) key
    ok (sharded config (set_shard shards i s'))

  unfoldable pub shard_set : Db (Kv D) → Bytes → Bytes → Outcome (Db (Kv D) × Option UpdateError)
  shard_set db key val = do
    s ← shard_of db key
    done ← kv_set crc disk fuel s key val
    db' ← put_back db key done.0
    ok (db', done.1)

  unfoldable pub shard_del : Db (Kv D) → Bytes → Outcome (Db (Kv D) × Bool × Option UpdateError)
  shard_del db key = do
    s ← shard_of db key
    done ← kv_del crc disk fuel s key
    db' ← put_back db key done.0
    ok (db', done.1, done.2)

  unfoldable pub shard_seek : Db (Kv D) → Bytes → Outcome BIter
  shard_seek db key = do s ← shard_of db key; kv_seek crc disk fuel s key

  unfoldable pub shard_tree_root : Db (Kv D) → ℕ
  shard_tree_root (single s) = s.root
  shard_tree_root (sharded config shards) = 0

  unfoldable pub shard_page_read : Db (Kv D) → ℕ → Outcome Page
  shard_page_read (single s) ptr = page_read crc disk s ptr
  shard_page_read (sharded config shards) ptr = panic

  -- The opening of the files, in order, until one fails.
  unfoldable pub open_all : (Bytes → Option (Kv D)) → List Bytes → Option (List (Kv D))
  open_all open_path [] = some []
  open_all open_path (p ∷ ps) = elim (open_path p) [
    | none ↦ none
    | some s ↦ elim (open_all open_path ps) [ none ↦ none | some ss ↦ some (s ∷ ss) ]
  ]

  -- `OpenSharded` of the files that the directory lists: `cfg.Shards` is set after the configuration
  -- has been copied, and `first` is the path for an empty directory.
  unfoldable pub open_sharded :
      (Bytes → Option (Kv D)) → Bytes → List Bytes → ShardConfig → Option (Db (Kv D))
  open_sharded open_path first paths cfg =
      let files = if length paths == 0 then first ∷ [] else paths in
      elim (open_all open_path files) [ none ↦ none | some shards ↦ some (sharded cfg shards) ]
