-- ===== src/Transaction/Effect.antt =====
-- What a transaction reads, and when its commit is refused.
use svacara_db.Prelude.{
  ℕ, ◌≡◌, ◌≢◌, ◌≤◌, ◌↔◌, refl, sym, ap, ◌∙◌, arith, true, false, Option, none, some, List, [], ◌∷◌,
  if◌then◌else◌,
}
use svacara_db.Bytes.{Bytes}
use svacara_db.Bytes.Compare.{bytes_eq, bytes_eq_refl, eq_of_bytes_eq}
use svacara_db.Storage.{Storage}
use svacara_db.Transaction.Conflict.{IsSorted, newer_overlap, detect_conflicts_sorted}
use svacara_db.Transaction.{
  serializable, Tx, Manager, already_finished, serialization_conflict, lookup, insert, contains,
  exclude, finish, detect_conflicts, apply_pending, commit, commit_writes, tx_get, tx_set,
}

lookup-insert :
    (m : List (Bytes × Option Bytes)) (k j : Bytes) (v : Option Bytes)
    → lookup (insert m k v) j ≡ (if bytes_eq k j then some v else lookup m j)
lookup-insert [] k j v = refl
lookup-insert ((i, w) ∷ m) k j v = ground (
  arith,
  lookup-insert m k j v,
  eq_of_bytes_eq i k,
  eq_of_bytes_eq i j,
  eq_of_bytes_eq k j,
  bytes_eq_refl i,
  bytes_eq_refl k,
)

module _ {S : Type 0} (st : Storage S) where
  -- A read in a transaction returns the last pending write of its key, and else what the store
  -- holds; a pending deletion reads as absent.
  pub tx_get-tx_set :
      (kv : S) (tx : Tx) (k j : Bytes) (v : Option Bytes)
      → (tx_get st kv (tx_set tx k v) j).1 ≡ (if bytes_eq k j then v else (tx_get st kv tx j).1)
  unfolding tx_get tx_set
  tx_get-tx_set kv tx k j v = ground (arith, lookup-insert tx.pending k j v)

  commit_writes-error :
      (m : Manager S) (tx : Tx) → (commit_writes st m tx).2 ≡ (apply_pending st m.kv tx.pending).1
  unfolding commit_writes
  commit_writes-error m tx = ground arith

contains-exclude : (v : ℕ) (xs : List ℕ) → contains v (exclude v xs) ≡ false
contains-exclude v [] = refl
contains-exclude v (x ∷ xs) = ground (arith, contains-exclude v xs)

module _ {S : Type 0} (st : Storage S) where
  apply_pending-error :
      (kv : S) (pending : List (Bytes × Option Bytes))
      → ((apply_pending st kv pending).1 ≢ some already_finished)
        × ((apply_pending st kv pending).1 ≢ some serialization_conflict)
  unfolding apply_pending
  apply_pending-error kv [] = ground arith
  apply_pending-error kv ((k, none) ∷ rest) =
      ground (arith, apply_pending-error (st.del kv k).0 rest)
  apply_pending-error kv ((k, some v) ∷ rest) =
      ground (arith, apply_pending-error (st.set kv k v).0 rest)

  -- A transaction that has not ended and whose reads a newer entry has overwritten.
  abbrev pub IsConflicted : Manager S → Tx → Type 0
  IsConflicted m tx =
      (tx.committed ≡ false)
      × (tx.aborted ≡ false)
      × (serializable ≤ tx.isolation)
      × (newer_overlap tx m.history ≡ true)

  conflict_to :
      (m : Manager S) (tx : Tx)
      → detect_conflicts tx m.history ≡ newer_overlap tx m.history
      → (commit st m tx).2 ≡ some serialization_conflict
      → IsConflicted m tx
  unfolding commit
  conflict_to m tx d h =
      let c : detect_conflicts tx m.history ≡ true =
        ground (arith, commit_writes-error st m tx, apply_pending-error m.kv tx.pending) in
      (
        ground arith,
        ground arith,
        ground (arith, commit_writes-error st m tx, apply_pending-error m.kv tx.pending),
        sym d ∙ c,
      )

  conflict_from :
      (m : Manager S) (tx : Tx)
      → detect_conflicts tx m.history ≡ newer_overlap tx m.history
      → IsConflicted m tx
      → commit st m tx
        ≡ (finish m tx.version, record tx { aborted = true }, some serialization_conflict)
  unfolding commit
  conflict_from m tx d (c, a, l, o) =
      let found : detect_conflicts tx m.history ≡ true = d ∙ o in ground arith

  -- A commit that reports a conflict, aborts the transaction, takes it out of the ongoing ones, and
  -- leaves the store and the history as they were.
  abbrev pub IsRefused : Manager S → Tx → Type 0
  IsRefused m tx =
      ((commit st m tx).2 ≡ some serialization_conflict)
      × ((commit st m tx).0.kv ≡ m.kv)
      × ((commit st m tx).0.history ≡ m.history)
      × ((commit st m tx).1.aborted ≡ true)
      × (contains tx.version (commit st m tx).0.ongoing ≡ false)

  -- Over a history in the order of versions, a commit reports a conflict exactly if the transaction
  -- has not ended, is serializable, and read in a range in which a newer entry of the history wrote;
  -- and exactly then it also aborts the transaction, takes it out of the ongoing ones, and leaves the
  -- store and the history as they were.
  pub commit_conflict_iff :
      (m : Manager S) (tx : Tx)
      → IsSorted m.history
      → (((commit st m tx).2 ≡ some serialization_conflict) ↔ IsConflicted m tx)
        × (IsRefused m tx ↔ IsConflicted m tx)
  commit_conflict_iff m tx sorted =
      let d = detect_conflicts_sorted tx m.history sorted in
      (
        (conflict_to m tx d, λ c. ap (λ r. r.2) (conflict_from m tx d c)),
        (
          λ r. conflict_to m tx d r.0,
          λ c.
              rw (conflict_from m tx d c)
                (refl, refl, refl, refl, contains-exclude tx.version m.ongoing),
        ),
      )
