-- ===== src/Transaction/Life.antt =====
-- The life of transactions under one manager: any interleaving of `Begin`, the methods of the
-- transactions, `Commit` and `Abort`, and what holds in every state that it reaches.
pub mod Keeps
use svacara_db.Prelude.{
  ℕ, zero, suc, ◌+◌, ◌%◌, ◌^◌, ◌≤◌, ◌<◌, ◌≡◌, ◌≢◌, refl, sym, ap, ◌∙◌, arith, Bool, true, false,
  not, ◌&&◌, ◌||◌, Option, none, some, List, [], ◌∷◌, ◌++◌, All, ==_iff, ==_refl, ◌==◌, Bool-cases,
  ◌⊎◌, inl, inr, if◌then◌else◌,
}
use mathlib.Core.Path.{subst}
use svacara_db.Bytes.{Bytes}
use svacara_db.Storage.{Storage}
use svacara_db.Transaction.Versions.{update_min_ver_least, min_loop-le}
use svacara_db.Transaction.{
  Tx, Manager, CommitError, contains, include, exclude, finish, new_manager, begin, commit,
  commit_writes, abort, tx_get, tx_seek, tx_set, tx_del, update_min_ver, trim_history,
}

abbrev pub is_active : Tx → Bool
is_active tx = not (tx.committed || tx.aborted)

-- Some transaction of the list has version `v` and has not ended.
abbrev pub active_in : ℕ → List Tx → Bool
active_in v [] = false
active_in v (tx ∷ txs) = ((tx.version == v) && is_active tx) || active_in v txs

-- The versions of the list are different.
abbrev pub IsFresh : ℕ → List Tx → Type 0
IsFresh v txs = All (λ u. u.version ≢ v) txs

abbrev pub HasDistinct : List Tx → Type 0
HasDistinct [] = Unit {0}
HasDistinct (tx ∷ txs) = IsFresh tx.version txs × HasDistinct txs

-- What a client does with its transaction between `Begin` and the end.
pub data Action : Type 0 where
  read_key scan_from : Bytes → Action
  write_key : Bytes → Option Bytes → Action
  delete_key : Bytes → Action

-- The manager, and the transactions that it has begun.
pub record System (S : Type 0) : Type 0 where
  pub mgr : Manager S
  pub txs : List Tx

pub record IsConsistent {S : Type 0} (s : System S) : Type 0 where
  -- the ongoing versions are those of the transactions that have not ended
  pub ongoing_active : (v : ℕ) → contains v s.mgr.ongoing ≡ active_in v s.txs
  pub distinct : HasDistinct s.txs
  pub bounded : All (λ t. t.version ≤ s.mgr.version) s.txs
  -- `minVer` is at most every ongoing version
  pub lower : (v : ℕ) → contains v s.mgr.ongoing ≡ true → s.mgr.min_ver ≤ v
  pub lower_version : s.mgr.min_ver ≤ s.mgr.version

module _ {S : Type 0} (st : Storage S) where
  unfoldable pub act : S → Tx → Action → Tx
  act kv tx (read_key k) = (tx_get st kv tx k).0
  act kv tx (scan_from k) = (tx_seek st kv tx k).0
  act kv tx (write_key k v) = tx_set tx k v
  act kv tx (delete_key k) = tx_del tx k

  -- One step; `outside` is a write to the store by another client.
  pub data Step : System S → System S → Type 0 where
    start :
        (s : System S) (isolation : ℕ)
        → s.mgr.version + 1 < 2 ^ 64
        → Step s (record {
          mgr = (begin st s.mgr isolation).0;
          txs = (begin st s.mgr isolation).1 ∷ s.txs;
        })
    use_tx :
        (m : Manager S) (pre : List Tx) (tx : Tx) (post : List Tx) (a : Action)
        → Step
            (record { mgr = m; txs = pre ++ tx ∷ post })
            (record { mgr = m; txs = pre ++ act m.kv tx a ∷ post })
    commit_tx :
        (m : Manager S) (pre : List Tx) (tx : Tx) (post : List Tx)
        → Step
            (record { mgr = m; txs = pre ++ tx ∷ post })
            (record { mgr = (commit st m tx).0; txs = pre ++ (commit st m tx).1 ∷ post })
    abort_tx :
        (m : Manager S) (pre : List Tx) (tx : Tx) (post : List Tx)
        → Step
            (record { mgr = m; txs = pre ++ tx ∷ post })
            (record { mgr = (abort m tx).0; txs = pre ++ (abort m tx).1 ∷ post })
    outside : (s : System S) (kv : S) → Step s (record s { mgr = record s.mgr { kv = kv } })

  pub data Reach (kv : S) : System S → Type 0 where
    begun : Reach kv (record { mgr = new_manager kv; txs = [] })
    next : {s t : System S} → Reach kv s → Step s t → Reach kv t
