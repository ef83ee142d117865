-- ===== src/Pool.antt =====
-- internal/pool/pool.go: a pool of connections. A `*Conn` is the number of its cell, so the lists of all
-- and of free connections share the cells. Times are numbers, and `now` is what `time.Now()` gives.
mod Distinct
pub mod Acquire
pub mod Lease
pub mod Release
pub mod Fresh
pub mod Expired
pub mod Session
mod Tests
use svacara_db.Prelude.{
  ℕ, zero, suc, ◌+◌, ◌-◌, ◌*◌, ◌%◌, ◌^◌, Bool, true, false, not, ◌&&◌, Option, none, some, List, [],
  ◌∷◌, ◌++◌, length, take, drop, get_elem?, ltb, ◌==◌, if◌then◌else◌, Outcome, ok, panic, stuck,
  ◌>>=◌,
}
use svacara_db.Bytes.{Bytes}
use svacara_db.Storage.{Storage}
use svacara_db.Transaction.{
  Tx, Manager, CommitError, new_manager, begin, commit, abort, tx_get, tx_set,
}

abbrev pub session_mode : ℕ
session_mode = 0

abbrev pub transaction_mode : ℕ
transaction_mode = 1

pub record Conn : Type 0 where
  pub id : ℕ
  pub tx : Option Tx
  pub created_at : ℕ
  pub last_used : ℕ
  pub in_use : Bool

pub record Config : Type 0 where
  pub max_conns : ℕ
  pub min_conns : ℕ
  pub max_idle_time : ℕ
  pub max_lifetime : ℕ
  pub mode : ℕ

pub record Pool (S : Type 0) : Type 0 where
  pub config : Config
  pub mgr : Manager S
  pub cells : ℕ → Conn
  pub conns : List ℕ
  pub free : List ℕ
  pub next_id : ℕ
  pub closed : Bool

-- `c.field = v` through a pointer.
abbrev pub store : (ℕ → Conn) → ℕ → Conn → ℕ → Conn
store cells i c j = if i == j then c else cells j

abbrev pub or_default : ℕ → ℕ → ℕ
or_default n d = if n == 0 then d else n

-- A second, in the nanoseconds of `time.Duration`.
abbrev pub second : ℕ
second = 1000000000

abbrev pub with_defaults : Config → Config
with_defaults c = record c {
  max_conns = or_default c.max_conns 50;
  min_conns = or_default c.min_conns 2;
  max_idle_time = or_default c.max_idle_time (600 * second);
  max_lifetime = or_default c.max_lifetime (3600 * second);
}

abbrev pub remove_at : ℕ → List ℕ → List ℕ
remove_at i xs = take i xs ++ drop (suc i) xs

abbrev pub drop_last : List ℕ → List ℕ
drop_last xs = take (length xs - 1) xs

module _ {S : Type 0} where
  unfoldable pub create_conn : Pool S → ℕ → Pool S × ℕ
  create_conn p now =
      let id = (p.next_id + 1) % 2 ^ 64 in
      let c : Conn = record {
        id = id;
        tx = none;
        created_at = now;
        last_used = now;
        in_use = false;
      } in
      (
        record p {
          cells = store p.cells id c;
          conns = p.conns ++ id ∷ [];
          free = p.free ++ id ∷ [];
          next_id = id;
        },
        id,
      )

  unfoldable pub create_conns : ℕ → Pool S → ℕ → Pool S
  create_conns zero p now = p
  create_conns (suc n) p now = create_conns n (create_conn p now).0 now

  -- `createConn` reads the clock for each connection; here they share one reading.
  unfoldable pub new_pool : S → Config → ℕ → Pool S
  new_pool kv config now =
      let config' = with_defaults config in
      let blank : Conn = record {
        id = 0;
        tx = none;
        created_at = 0;
        last_used = 0;
        in_use = false;
      } in
      create_conns config'.min_conns
        (record {
          config = config';
          mgr = new_manager kv;
          cells = λ i. blank;
          conns = [];
          free = [];
          next_id = 0;
          closed = false;
        })
        now

  -- `append(p.conns[:idx], p.conns[idx+1:]...)`, which panics past the end.
  unfoldable pub remove_conn : Pool S → ℕ → Outcome (Pool S)
  remove_conn p idx =
      if ltb (length p.conns) (idx + 1)
      then panic
      else ok (record p { conns = remove_at idx p.conns })

  -- The two tests at the head of the loop of `Acquire`.
  abbrev pub is_expired : Pool S → ℕ → Conn → Bool
  is_expired p now c =
      if ltb p.config.max_idle_time (now - c.last_used) && ltb p.config.min_conns (length p.conns)
      then true
      else ltb p.config.max_lifetime (now - c.created_at)

  unfoldable pub lease : Pool S → ℕ → ℕ → ℕ → Pool S
  lease p now i id = record p {
    cells = store p.cells id (record (p.cells id) { in_use = true; last_used = now });
    free = remove_at i p.free;
  }

  -- The loop of `Acquire` from index `i` on. Both `i--; continue` go on at the same index.
  unfoldable pub acquire_loop : ℕ → Pool S → ℕ → ℕ → Outcome (Pool S × Option ℕ)
  acquire_loop zero p now i = stuck
  acquire_loop (suc fuel) p now i = elim (get_elem? p.free i) [
    | none ↦ ok (p, none)
    | some id ↦
        let again = remove_conn p i >>= λ p'. acquire_loop fuel p' now i in
        let further = acquire_loop fuel p now (i + 1) in
        if is_expired p now (p.cells id)
        then again
        else if not (p.cells id).in_use
        then ok (lease p now i id, some id)
        else further
  ]

  -- A new connection, in use at once.
  unfoldable pub take_new : Pool S → ℕ → Pool S × ℕ
  take_new p now =
      let (p', id) = create_conn p now in
      (
        record p' {
          cells = store p'.cells id (record (p'.cells id) { in_use = true });
          free = drop_last p'.free;
        },
        id,
      )

  -- What `Acquire` does when the loop found no connection.
  unfoldable pub grow : Pool S → ℕ → Pool S × Option ℕ
  grow p now =
      if ltb (length p.conns) p.config.max_conns
      then ((take_new p now).0, some (take_new p now).1)
      else (p, none)

  unfoldable pub found_or_grow : ℕ → Pool S × Option ℕ → Pool S × Option ℕ
  found_or_grow now (p, some id) = (p, some id)
  found_or_grow now (p, none) = grow p now

  -- `none` is an error: the pool is closed or exhausted. A round removes a connection or goes on to the
  -- next free one.
  unfoldable pub acquire : Pool S → ℕ → Outcome (Pool S × Option ℕ)
  acquire p now =
      if p.closed
      then ok (p, none)
      else (acquire_loop (length p.conns + length p.free + 1) p now 0 >>= λ r.
          ok (found_or_grow now r))

  -- The transaction of a connection that goes back in transaction mode.
  unfoldable pub end_tx : Pool S → ℕ → Pool S
  end_tx p id = elim (p.cells id).tx [
    | none ↦ p
    | some tx ↦
        (if p.config.mode == transaction_mode
          then record p {
            mgr = (abort p.mgr tx).0;
            cells = store p.cells id (record (p.cells id) { tx = none });
          }
          else p)
  ]

  unfoldable pub release : Pool S → ℕ → ℕ → Pool S
  release p id now =
      let p' = end_tx p id in
      if not (p.cells id).in_use then p else record p' {
        cells = store p'.cells id (record (p'.cells id) { in_use = false; last_used = now });
        free = p'.free ++ id ∷ [];
      }

  unfoldable pub close : Pool S → Pool S
  close p = record p { closed = true; conns = []; free = [] }

  abbrev pub put_tx : Pool S → ℕ → Option Tx → Pool S
  put_tx p id tx = record p { cells = store p.cells id (record (p.cells id) { tx = tx }) }

  unfoldable pub conn_abort : Pool S → ℕ → Pool S
  conn_abort p id = elim (p.cells id).tx [
    | none ↦ p
    | some tx ↦ record (put_tx p id none) { mgr = (abort p.mgr tx).0 }
  ]

-- What `Begin` and `Commit` of a connection answer.
pub data Reply : Type 0 where
  done already_in_progress not_in_progress : Reply
  failed : CommitError → Reply

abbrev pub commit_reply : Option CommitError → Reply
commit_reply none = done
commit_reply (some e) = failed e

module _ {S : Type 0} (st : Storage S) where
  unfoldable pub conn_begin : Pool S → ℕ → ℕ → Pool S × Reply
  conn_begin p id isolation = elim (p.cells id).tx [
    | some tx ↦ (p, already_in_progress)
    | none ↦ (
      record (put_tx p id (some (begin st p.mgr isolation).1)) {
        mgr = (begin st p.mgr isolation).0;
      },
      done,
    )
  ]

  unfoldable pub conn_commit : Pool S → ℕ → Pool S × Reply
  conn_commit p id = elim (p.cells id).tx [
    | none ↦ (p, not_in_progress)
    | some tx ↦ (
      record (put_tx p id (some (commit st p.mgr tx).1)) { mgr = (commit st p.mgr tx).0 },
      commit_reply (commit st p.mgr tx).2,
    )
  ]

  -- `c.db` is the store of the manager.
  unfoldable pub conn_get : Pool S → ℕ → Bytes → Pool S × Option Bytes
  conn_get p id key = elim (p.cells id).tx [
    | none ↦ (p, st.get p.mgr.kv key)
    | some tx ↦ (put_tx p id (some (tx_get st p.mgr.kv tx key).0), (tx_get st p.mgr.kv tx key).1)
  ]

  -- The result says whether there was no error.
  unfoldable pub conn_set : Pool S → ℕ → Bytes → Bytes → Pool S × Bool
  conn_set p id key val = elim (p.cells id).tx [
    | none ↦ (
      record p { mgr = record p.mgr { kv = (st.set p.mgr.kv key val).0 } },
      (st.set p.mgr.kv key val).1,
    )
    | some tx ↦ (put_tx p id (some (tx_set tx key (some val))), true)
  ]
