-- ===== src/Transaction/Tests.antt =====
-- Runs of internal/transaction/tx.go over a store in memory, and its theorems at concrete inputs.
use svacara_db.Prelude.{ℕ, ◌≡◌, ◌↔◌, inl, inr, refl, arith, true, false, some, [], ◌∷◌}
use svacara_db.Bytes.{Bytes}
use svacara_db.Bytes.Compare.{cmp}
use svacara_db.Storage.Assoc.{Entries, assoc_storage}
use svacara_db.Transaction.{
  CommittedTx, Tx, Manager, already_finished, serialization_conflict, key_range_overlap,
  overlaps_any, ranges_overlap, conflict_loop, detect_conflicts, trim_cut, trim_history, point,
  new_manager, begin, commit,
}
use svacara_db.Transaction.Ranges.{Holds, key_range_overlap_iff}
use svacara_db.Transaction.Versions.{detect_conflicts-trim_history}
use svacara_db.Transaction.Conflict.{newer_overlap, detect_conflicts_sorted, detect_conflicts_sound}
use svacara_db.Transaction.Effect.{IsConflicted, IsRefused, commit_conflict_iff}
use svacara_db.Transaction.Life.{System, IsConsistent, Reach, begun, next, start}
use svacara_db.Transaction.Life.Keeps.{Reach-IsConsistent}

abbrev a_key : Bytes
a_key = b'a' ∷ []

abbrev b_key : Bytes
b_key = b'b' ∷ []

-- A scan from "a" and a write to "b".
key_range_overlap_iff_example :
    (key_range_overlap (record { start = a_key; stop = [] }) (point b_key) ≡ true)
    ↔ ((x : Bytes) × (Holds (record { start = a_key; stop = [] }) x × Holds (point b_key) x))
unfolding cmp
key_range_overlap_iff_example =
    key_range_overlap_iff (record { start = a_key; stop = [] }) (point b_key) (refl, inl refl)
      (refl, inr refl)

abbrev writes_a : ℕ → CommittedTx
writes_a v = record { version = v; writes = point a_key ∷ [] }

-- A serializable transaction of version 2 that has read "a" and writes "b".
abbrev reader : Tx
reader = record {
  version = 2;
  isolation = 3;
  pending = (b_key, some (7 ∷ [])) ∷ [];
  reads = point a_key ∷ [];
  snapshot_root = 1;
  committed = false;
  aborted = false;
}

abbrev busy : Manager Entries
busy = record {
  kv = [];
  version = 3;
  ongoing = 2 ∷ [];
  history = writes_a 1 ∷ writes_a 3 ∷ [];
  min_ver = 2;
}

detect_conflicts-trim_history_example :
    detect_conflicts reader (trim_history busy).history ≡ detect_conflicts reader busy.history
detect_conflicts-trim_history_example = detect_conflicts-trim_history busy reader (omega arith)

trimmed : (trim_history busy).history ≡ writes_a 3 ∷ []
unfolding trim_history trim_cut
trimmed = refl

detect_conflicts_sorted_example :
    detect_conflicts reader (writes_a 1 ∷ writes_a 3 ∷ [])
    ≡ newer_overlap reader (writes_a 1 ∷ writes_a 3 ∷ [])
detect_conflicts_sorted_example =
    detect_conflicts_sorted reader (writes_a 1 ∷ writes_a 3 ∷ []) (omega arith)

found_conflict : detect_conflicts reader (writes_a 1 ∷ writes_a 3 ∷ []) ≡ true
unfolding detect_conflicts conflict_loop ranges_overlap overlaps_any key_range_overlap cmp
found_conflict = refl

detect_conflicts_sound_example : newer_overlap reader (writes_a 1 ∷ writes_a 3 ∷ []) ≡ true
detect_conflicts_sound_example =
    detect_conflicts_sound reader (writes_a 1 ∷ writes_a 3 ∷ []) found_conflict

abbrev quiet : Manager Entries
quiet = record {
  kv = (a_key, 1 ∷ []) ∷ [];
  version = 2;
  ongoing = 2 ∷ [];
  history = [];
  min_ver = 0;
}

busy_refuses : (commit assoc_storage busy reader).2 ≡ some serialization_conflict
unfolding commit detect_conflicts conflict_loop ranges_overlap overlaps_any key_range_overlap cmp
busy_refuses = refl

commit_conflict_iff_example :
    (((commit assoc_storage busy reader).2 ≡ some serialization_conflict)
      ↔ IsConflicted assoc_storage busy reader)
    × (IsRefused assoc_storage busy reader ↔ IsConflicted assoc_storage busy reader)
commit_conflict_iff_example = commit_conflict_iff assoc_storage busy reader (omega arith)

abbrev ended : Tx
ended = record reader { committed = true }

ended_refused : (commit assoc_storage busy ended).2 ≡ some already_finished
unfolding commit
ended_refused = refl

abbrev one_begun : System Entries
one_begun = record {
  mgr = (begin assoc_storage (new_manager []) 3).0;
  txs = (begin assoc_storage (new_manager []) 3).1 ∷ [];
}

one_reached : Reach assoc_storage [] one_begun
one_reached =
    next begun
      (start (record { mgr = new_manager []; txs = [] }) 3 (unfold new_manager in omega arith))

Reach-IsConsistent_example : IsConsistent one_begun
Reach-IsConsistent_example = Reach-IsConsistent assoc_storage [] one_begun one_reached
