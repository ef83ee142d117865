-- ===== src/Pool/Release.antt =====
-- `Release` and the leases.
use svacara_db.Prelude.{
  ℕ, ◌≤◌, ◌≡◌, ◌≢◌, refl, ap, ◌∙◌, arith, false, Option, none, [], ◌∷◌, ◌++◌, ◌==◌, Bool-cases,
  Option-cases, inl, inr,
}
use svacara_db.Pool.{Pool, Conn, store, release, end_tx}
use svacara_db.Pool.Lease.{IsSound, store-own, freed}
use svacara_db.Pool.{transaction_mode}
use svacara_db.Transaction.{Tx}
use svacara_db.Pool.Distinct.{All-snoc, All-map, HasDistinct-snoc}

store-in_use :
    (cells : ℕ → Conn) (id j : ℕ) (tx : Option Tx)
    → (store cells id (record (cells id) { tx = tx }) j).in_use ≡ (cells j).in_use
store-in_use cells id j tx = elim (Bool-cases (id == j)) [
  | inl e ↦ rw e (ap (λ i. (cells i).in_use) (ground arith))
  | inr e ↦ rw e refl
]

module _ {S : Type 0} where
  end_tx-same :
      (p : Pool S) (id : ℕ)
      → ((end_tx p id).free ≡ p.free)
        × ((end_tx p id).next_id ≡ p.next_id)
        × ((j : ℕ) → ((end_tx p id).cells j).in_use ≡ (p.cells j).in_use)
  unfolding end_tx
  end_tx-same p id = elim (Option-cases (p.cells id).tx) [
    | inl e ↦ rw (end_tx, e) (refl, refl, λ j. refl)
    | inr (tx, e) ↦ elim (Bool-cases (p.config.mode == transaction_mode)) [
      | inl m ↦ rw (end_tx, e, m) (refl, refl, λ j. store-in_use p.cells id j none)
      | inr m ↦ rw (end_tx, e, m) (refl, refl, λ j. refl)
    ]
  ]

  -- `Release` keeps a pool sound, also when the connection has been released before. The connection
  -- is one that the pool has made.
  pub release-IsSound :
      (p : Pool S) (id now : ℕ) → id ≤ p.next_id → IsSound p → IsSound (release p id now)
  unfolding release
  release-IsSound p id now b s = elim (Bool-cases (p.cells id).in_use) [
    | inr u ↦ rw (release, u) s
    | inl u ↦
        let (free, next, used) = end_tx-same p id in
        let back : Conn = record ((end_tx p id).cells id) { in_use = false; last_used = now } in
        let other = All-map _ (λ i. i ≢ id) p.free (λ i (w, l) e. absurd (ground arith)) s.idle in
        let idle =
          All-map _ _ p.free
            (λ i (w, l). (freed (end_tx p id).cells id i back refl (used i ∙ w), l)) s.idle in
        let sound : IsSound (record (end_tx p id) {
          cells = store (end_tx p id).cells id back;
          free = (end_tx p id).free ++ id ∷ [];
        }) =
          record {
            idle =
                rw (free, next)
                  (All-snoc _ p.free id idle
                    (ap (λ c. c.in_use) (store-own (end_tx p id).cells id back), b));
            distinct = rw free (HasDistinct-snoc p.free id s.distinct other);
            unborn = λ i l.
                freed (end_tx p id).cells id i back refl (used i ∙ s.unborn i (rw next at l));
          } in
        rw (release, u) sound
  ]
