-- ===== src/Pool/Fresh.antt =====
-- A new pool is sound.
use svacara_db.Prelude.{
  ℕ, zero, suc, ◌+◌, ◌%◌, ◌^◌, ◌≤◌, ◌<◌, ◌≡◌, ◌≢◌, refl, ap, arith, false, none,
}
use svacara_db.Pool.{Pool, Conn, Config, with_defaults, create_conn, create_conns, new_pool, store}
use svacara_db.Pool.Distinct.{HasDistinct-snoc, All-map, All-snoc}
use svacara_db.Pool.Lease.{IsSound, store-own, freed}

module _ {S : Type 0} where
  create_conn-IsSound :
      (p : Pool S) (now : ℕ) → p.next_id + 1 < 2 ^ 64 → IsSound p → IsSound (create_conn p now).0
  unfolding create_conn
  create_conn-IsSound p now w s =
      let id = (p.next_id + 1) % 2 ^ 64 in
      let e : id ≡ p.next_id + 1 = omega arith in
      let c : Conn = record {
        id = id;
        tx = none;
        created_at = now;
        last_used = now;
        in_use = false;
      } in
      let idle = λ (i : ℕ) (h : (p.cells i).in_use ≡ false). freed p.cells id i c refl h in
      record {
        idle =
            All-snoc _ p.free id
              (All-map _ (λ i. ((store p.cells id c i).in_use ≡ false) × (i ≤ id)) p.free
                (λ i (u, l). (idle i u, omega arith)) s.idle)
              (ap (λ d. d.in_use) (store-own p.cells id c), omega arith);
        distinct =
            HasDistinct-snoc p.free id s.distinct
              (All-map _ (λ j. j ≢ id) p.free (λ j (u, l) h. absurd (omega arith)) s.idle);
        unborn = λ i l. idle i (s.unborn i (omega arith));
      }

  create_conns-IsSound :
      (n : ℕ) (p : Pool S) (now : ℕ)
      → p.next_id + n < 2 ^ 64
      → IsSound p
      → IsSound (create_conns n p now)
  unfolding create_conns
  create_conns-IsSound zero p now w s = s
  create_conns-IsSound (suc n) p now w s =
      create_conns-IsSound n (create_conn p now).0 now (unfold create_conn in omega arith)
        (create_conn-IsSound p now (omega arith) s)

  -- `NewPool` makes a sound pool, if `MinConns`, or its default, is below 2^64.
  pub new_pool-IsSound :
      (kv : S) (config : Config) (now : ℕ)
      → (with_defaults config).min_conns < 2 ^ 64
      → IsSound (new_pool kv config now)
  unfolding new_pool
  new_pool-IsSound kv config now w =
      create_conns-IsSound (with_defaults config).min_conns _ now (omega arith)
        (record { idle = tt; distinct = tt; unborn = λ i l. refl })
