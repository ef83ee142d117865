-- ===== src/Pool/Tests.antt =====
-- Runs of the pool over the store in memory, and the instances of its theorems.
use svacara_db.Prelude.{
  ◌-◌, get_elem?, ◌+◌, ◌^◌, ◌≤◌, ◌<◌, ◌≡◌, ◌≢◌, refl, arith, false, some, [], ok, panic, stuck,
}
use svacara_db.Storage.Assoc.{Entries, assoc_storage}
use svacara_db.Transaction.{begin}
use svacara_db.Pool.{
  Pool, Config, session_mode, new_pool, acquire, release, conn_begin, create_conn, create_conns,
  acquire_loop, lease, found_or_grow,
}
use svacara_db.Pool.Lease.{IsSound, IsLeased, acquire_exclusive, acquire-ne-stuck}
use svacara_db.Pool.Release.{release-IsSound}
use svacara_db.Pool.Fresh.{new_pool-IsSound}
use svacara_db.Pool.Expired.{acquire_expired}

abbrev pooling : Config
pooling = record {
  max_conns = 3;
  min_conns = 1;
  max_idle_time = 100;
  max_lifetime = 1000;
  mode = session_mode;
}

abbrev fresh : Pool Entries
fresh = new_pool [] pooling 5

fresh-IsSound : IsSound fresh
fresh-IsSound = new_pool-IsSound [] pooling 5 (omega arith)

abbrev leased : Pool Entries
leased = lease fresh 50 0 1

first_acquired : acquire fresh 50 ≡ ok (leased, some 1)
unfolding acquire acquire_loop new_pool create_conns create_conn found_or_grow
first_acquired = refl

fresh-counts : fresh.next_id + 1 < 2 ^ 64
unfolding new_pool create_conns create_conn
fresh-counts = omega arith

acquire_exclusive_example : IsLeased fresh leased 1 × IsSound leased
acquire_exclusive_example =
    acquire_exclusive fresh leased 50 1 fresh-counts fresh-IsSound first_acquired

acquire-ne-stuck_example : acquire fresh 50 ≢ stuck
acquire-ne-stuck_example = acquire-ne-stuck fresh 50

one_made : 1 ≤ leased.next_id
unfolding new_pool create_conns create_conn lease
one_made = omega arith

release-IsSound_example : IsSound (release leased 1 60)
release-IsSound_example = release-IsSound leased 1 60 one_made acquire_exclusive_example.1

fresh_open : fresh.closed ≡ false
unfolding new_pool create_conns create_conn
fresh_open = refl

fresh_free : get_elem? fresh.free 0 ≡ some 1
unfolding new_pool create_conns create_conn
fresh_free = refl

fresh_old : fresh.config.max_lifetime < 2000 - (fresh.cells 1).created_at
unfolding new_pool create_conns create_conn
fresh_old = omega arith

acquire_expired_example : acquire fresh 2000 ≡ panic
acquire_expired_example = acquire_expired fresh 2000 1 fresh_open fresh_free fresh_old

abbrev begun : Pool Entries
begun = (conn_begin assoc_storage fresh 1 3).0

begun_tx : (begun.cells 1).tx ≡ some (begin assoc_storage fresh.mgr 3).1
unfolding conn_begin new_pool create_conns create_conn
begun_tx = refl
