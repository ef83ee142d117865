-- ===== src/Transaction.antt =====
-- internal/transaction/tx.go: transactions over a store and their manager. A method returns the new
-- manager and the new transaction. The mutex makes each method one step. A Go map is an association
-- list, in the order in which `range` visits it.
pub mod Ranges
pub mod Versions
pub mod Conflict
pub mod Effect
pub mod Life
mod Tests
use svacara_db.Prelude.{
  ℕ, zero, suc, ◌+◌, ◌%◌, ◌^◌, Bool, true, false, not, ◌&&◌, ◌||◌, Option, none, some, List, [],
  ◌∷◌, ◌++◌, map, length, drop, ltb, leb, ◌==◌, if◌then◌else◌, Ordering,
}
use mathlib.Core.List.{reverse}
use svacara_db.Bytes.{Bytes}
use svacara_db.Bytes.Compare.{cmp, bytes_eq}
use svacara_db.Storage.{Storage, is_some}

abbrev pub read_committed : ℕ
read_committed = 1

abbrev pub snapshot_isolation : ℕ
snapshot_isolation = 2

abbrev pub serializable : ℕ
serializable = 3

-- `stop` is empty for a range with no upper end, as for Go's `nil`.
pub record KeyRange : Type 0 where
  pub start : Bytes
  pub stop : Bytes

pub record CommittedTx : Type 0 where
  pub version : ℕ
  pub writes : List KeyRange

-- A pending `none` is Go's nil value, which marks a deletion.
pub record Tx : Type 0 where
  pub version : ℕ
  pub isolation : ℕ
  pub pending : List (Bytes × Option Bytes)
  pub reads : List KeyRange
  pub snapshot_root : ℕ
  pub committed : Bool
  pub aborted : Bool

pub record Manager (S : Type 0) : Type 0 where
  pub kv : S
  pub version : ℕ
  pub ongoing : List ℕ
  pub history : List CommittedTx
  pub min_ver : ℕ

pub data CommitError : Type 0 where
  already_finished serialization_conflict commit_del commit_set : CommitError

-- A map from versions to `true`.
abbrev pub contains : ℕ → List ℕ → Bool
contains v [] = false
contains v (x ∷ xs) = (x == v) || contains v xs

abbrev pub include : ℕ → List ℕ → List ℕ
include v xs = if contains v xs then xs else xs ++ v ∷ []

abbrev pub exclude : ℕ → List ℕ → List ℕ
exclude v [] = []
exclude v (x ∷ xs) = let rest = exclude v xs in if x == v then rest else x ∷ rest

-- `tx.pending[k]` and `tx.pending[k] = v`.
abbrev pub lookup : List (Bytes × Option Bytes) → Bytes → Option (Option Bytes)
lookup [] j = none
lookup ((k, v) ∷ m) j = if bytes_eq k j then some v else lookup m j

abbrev pub insert : List (Bytes × Option Bytes) → Bytes → Option Bytes → List (Bytes × Option Bytes)
insert [] k v = (k, v) ∷ []
insert ((i, w) ∷ m) k v = if bytes_eq i k then (i, v) ∷ m else (i, w) ∷ insert m k v

abbrev pub is_gt : Ordering → Bool
is_gt Ordering.gt = true
is_gt Ordering.eq = false
is_gt Ordering.lt = false

abbrev pub is_empty : Bytes → Bool
is_empty [] = true
is_empty (b ∷ bs) = false

unfoldable pub key_range_overlap : KeyRange → KeyRange → Bool
key_range_overlap a b =
    if not (is_empty b.stop) && is_gt (cmp a.start b.stop)
    then false
    else if not (is_empty a.stop) && is_gt (cmp b.start a.stop)
    then false
    else true

-- The two loops of `rangesOverlap`.
unfoldable pub overlaps_any : KeyRange → List KeyRange → Bool
overlaps_any r [] = false
overlaps_any r (w ∷ writes) = key_range_overlap r w || overlaps_any r writes

unfoldable pub ranges_overlap : List KeyRange → List KeyRange → Bool
ranges_overlap [] writes = false
ranges_overlap (r ∷ reads) writes = overlaps_any r writes || ranges_overlap reads writes

abbrev pub version_before : ℕ → ℕ → Bool
version_before a b = ltb a b

-- The loop over the history from its end, which breaks at the first entry that is not newer.
unfoldable pub conflict_loop : Tx → List CommittedTx → Bool
conflict_loop tx [] = false
conflict_loop tx (h ∷ older) =
    let rest = conflict_loop tx older in
    if not (version_before tx.version h.version)
    then false
    else if ranges_overlap tx.reads h.writes
    then true
    else rest

unfoldable pub detect_conflicts : Tx → List CommittedTx → Bool
detect_conflicts tx history = conflict_loop tx (reverse history)

unfoldable pub min_loop : ℕ → List ℕ → ℕ
min_loop min [] = min
min_loop min (v ∷ vs) = min_loop (if ltb v min then v else min) vs

-- The index of the first entry that is at least `minVer`, and 0 if there is none.
unfoldable pub trim_cut : ℕ → ℕ → List CommittedTx → ℕ
trim_cut min_ver i [] = 0
trim_cut min_ver i (h ∷ hs) =
    let rest = trim_cut min_ver (i + 1) hs in if leb min_ver h.version then i else rest

abbrev pub point : Bytes → KeyRange
point k = record { start = k; stop = k }

abbrev no_pending : Tx → Bool
no_pending tx = elim tx.pending [ [] ↦ true | _ ↦ false ]

module _ {S : Type 0} where
  unfoldable pub new_manager : S → Manager S
  new_manager kv = record { kv = kv; version = 0; ongoing = []; history = []; min_ver = 0 }

  unfoldable pub update_min_ver : Manager S → Manager S
  update_min_ver m = record m { min_ver = min_loop m.version m.ongoing }

  unfoldable pub trim_history : Manager S → Manager S
  trim_history m = record m { history = drop (trim_cut m.min_ver 0 m.history) m.history }

  abbrev pub finish : Manager S → ℕ → Manager S
  finish m ver = record m { ongoing = exclude ver m.ongoing }

  unfoldable pub abort : Manager S → Tx → Manager S × Tx
  abort m tx =
      if tx.committed || tx.aborted
      then (m, tx)
      else (update_min_ver (finish m tx.version), record tx { aborted = true })

  -- The end of `Commit` after the writes: their error, or the bookkeeping.
  unfoldable pub settle : Manager S → Tx → Option CommitError → Manager S × Tx × Option CommitError
  settle m tx (some e) = (m, tx, some e)
  settle m tx none =
      (trim_history (update_min_ver (finish m tx.version)), record tx { committed = true }, none)

module _ {S : Type 0} (st : Storage S) where
  unfoldable pub begin : Manager S → ℕ → Manager S × Tx
  begin m isolation =
      let ver = (m.version + 1) % 2 ^ 64 in
      (
        record m { version = ver; ongoing = include ver m.ongoing },
        record {
          version = ver;
          isolation = isolation;
          pending = [];
          reads = [];
          snapshot_root = st.tree_root m.kv;
          committed = false;
          aborted = false;
        },
      )

  -- `range tx.pending` at the end of `Commit`: the writes up to the first error.
  unfoldable pub apply_pending : S → List (Bytes × Option Bytes) → S × Option CommitError
  apply_pending kv [] = (kv, none)
  apply_pending kv ((k, none) ∷ rest) =
      let (kv', deleted) = st.del kv k in
      let more = apply_pending kv' rest in if is_some deleted then more else (kv', some commit_del)
  apply_pending kv ((k, some v) ∷ rest) =
      let (kv', done) = st.set kv k v in
      let more = apply_pending kv' rest in if done then more else (kv', some commit_set)

  -- The end of `Commit` for a transaction that has writes.
  unfoldable pub commit_writes : Manager S → Tx → Manager S × Tx × Option CommitError
  unfolding settle
  commit_writes m tx =
      let entry : CommittedTx = record {
        version = tx.version;
        writes = map (λ w. point w.0) tx.pending;
      } in
      let (kv', failed) = apply_pending m.kv tx.pending in
      let m' = record m { kv = kv'; history = m.history ++ entry ∷ [] } in settle m' tx failed

  unfoldable pub commit : Manager S → Tx → Manager S × Tx × Option CommitError
  commit m tx =
      if tx.committed || tx.aborted
      then (m, tx, some already_finished)
      else if leb serializable tx.isolation && detect_conflicts tx m.history
      then (finish m tx.version, record tx { aborted = true }, some serialization_conflict)
      else if no_pending tx
      then (update_min_ver (finish m tx.version), record tx { committed = true }, none)
      else commit_writes m tx

  -- The methods of a transaction that go to the live store, whose state is `kv`.
  unfoldable pub tx_get : S → Tx → Bytes → Tx × Option Bytes
  tx_get kv tx key = (
    record tx { reads = tx.reads ++ point key ∷ [] },
    elim (lookup tx.pending key) [ some val ↦ val | none ↦ st.get kv key ],
  )

  unfoldable pub tx_seek : S → Tx → Bytes → Tx × List (Bytes × Bytes)
  tx_seek kv tx key =
      (record tx { reads = tx.reads ++ record { start = key; stop = [] } ∷ [] }, st.seek kv key)

unfoldable pub tx_set : Tx → Bytes → Option Bytes → Tx
tx_set tx key val = record tx { pending = insert tx.pending key val }

unfoldable pub tx_del : Tx → Bytes → Tx
tx_del tx key = record tx { pending = insert tx.pending key none }
