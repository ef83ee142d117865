-- ===== src/Pool/Session.antt =====
-- The transaction of a connection: `Begin`, `Commit` and `Abort` in a row.
use svacara_db.Prelude.{ℕ, ◌≡◌, refl, none, some, Option-cases, inl, inr, ==_refl}
use svacara_db.Storage.{Storage}
use svacara_db.Transaction.{Tx, begin, commit}
use svacara_db.Pool.{
  Pool, done, already_in_progress, not_in_progress, conn_begin, conn_commit, conn_abort,
}

module _ {S : Type 0} (st : Storage S) where
  conn_begin-busy :
      (p : Pool S) (id isolation : ℕ) (tx : Tx)
      → (p.cells id).tx ≡ some tx
      → conn_begin st p id isolation ≡ (p, already_in_progress)
  unfolding conn_begin
  conn_begin-busy p id isolation tx e = rw (conn_begin, e) refl

  conn_begin-idle :
      (p : Pool S) (id isolation : ℕ)
      → (p.cells id).tx ≡ none
      → ((conn_begin st p id isolation).1 ≡ done)
        × (((conn_begin st p id isolation).0.cells id).tx ≡ some (begin st p.mgr isolation).1)
        × (conn_commit st p id ≡ (p, not_in_progress))
  unfolding conn_begin conn_commit
  conn_begin-idle p id isolation e = rw (conn_begin, conn_commit, e, ==_refl id) (refl, refl, refl)

  conn_commit-keeps :
      (p : Pool S) (id : ℕ) (tx : Tx)
      → (p.cells id).tx ≡ some tx
      → ((conn_commit st p id).0.cells id).tx ≡ some (commit st p.mgr tx).1
  unfolding conn_commit
  conn_commit-keeps p id tx e = rw (conn_commit, e, ==_refl id) refl

  conn_abort-clears : (p : Pool S) (id : ℕ) → ((conn_abort p id).cells id).tx ≡ none
  unfolding conn_abort
  conn_abort-clears p id = elim (Option-cases (p.cells id).tx) [
    | inl e ↦ rw (conn_abort, e) e
    | inr (tx, e) ↦ rw (conn_abort, e, ==_refl id) refl
  ]

  -- After a `Commit`, whatever it answered, the connection refuses `Begin` and is as it was before
  -- that `Begin`. A transaction was in progress.
  pub conn_begin-conn_commit :
      (p : Pool S) (id isolation : ℕ) (tx : Tx)
      → (p.cells id).tx ≡ some tx
      → conn_begin st (conn_commit st p id).0 id isolation
        ≡ ((conn_commit st p id).0, already_in_progress)
  conn_begin-conn_commit p id isolation tx e =
      conn_begin-busy (conn_commit st p id).0 id isolation _ (conn_commit-keeps p id tx e)

  -- After an `Abort`, `Commit` on the connection is refused without a change, and `Begin` succeeds
  -- with the transaction that the manager gives.
  pub conn_begin-conn_abort :
      (p : Pool S) (id isolation : ℕ)
      → ((conn_begin st (conn_abort p id) id isolation).1 ≡ done)
        × (((conn_begin st (conn_abort p id) id isolation).0.cells id).tx
            ≡ some (begin st (conn_abort p id).mgr isolation).1)
        × (conn_commit st (conn_abort p id) id ≡ (conn_abort p id, not_in_progress))
  conn_begin-conn_abort p id isolation =
      conn_begin-idle (conn_abort p id) id isolation (conn_abort-clears p id)
