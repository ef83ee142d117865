-- ===== src/Shard/Route.antt =====
-- Which shard a write and a read reach, and the write of one shard among the others.
use svacara_db.Prelude.{
  ℕ, zero, suc, ◌≡◌, ◌≢◌, refl, sym, ap, ◌∙◌, arith, List, [], ◌∷◌, length, ◌==◌, if◌then◌else◌,
  Bool-cases, Outcome, ok, panic, stuck, ◌>>=◌, inl, inr, Option,
}
use svacara_db.Bytes.{Bytes}
use svacara_db.Pages.{Disk}
use svacara_db.Kv.{Kv, UpdateError, kv_get, kv_set}
use svacara_db.Shard.{
  ShardConfig, Db, sharded, set_shard, route, shard_for_key, pick, shard_of, shard_get, put_back,
  shard_set,
}

module _ {D : Type 0} (crc : Bytes → ℕ) (disk : Disk D) (fuel : ℕ) where
  length-set_shard : (ss : List (Kv D)) (i : ℕ) (s : Kv D) → length (set_shard ss i s) ≡ length ss
  unfolding set_shard
  length-set_shard [] i s = refl
  length-set_shard (x ∷ xs) zero s = refl
  length-set_shard (x ∷ xs) (suc i) s = ap suc (length-set_shard xs i s)

  pick-set_shard :
      (ss : List (Kv D)) (i : ℕ) (s t : Kv D)
      → pick crc disk fuel ss i ≡ ok s
      → pick crc disk fuel (set_shard ss i t) i ≡ ok t
  unfolding pick set_shard
  pick-set_shard [] i s t h = absurd (ground arith)
  pick-set_shard (x ∷ xs) zero s t h = refl
  pick-set_shard (x ∷ xs) (suc i) s t h = pick-set_shard xs i s t h

  pick-set_shard_other :
      (ss : List (Kv D)) (i j : ℕ) (t : Kv D)
      → i ≢ j
      → pick crc disk fuel (set_shard ss i t) j ≡ pick crc disk fuel ss j
  unfolding pick set_shard
  pick-set_shard_other [] i j t n = refl
  pick-set_shard_other (x ∷ xs) zero zero t n = absurd (n refl)
  pick-set_shard_other (x ∷ xs) zero (suc j) t n = refl
  pick-set_shard_other (x ∷ xs) (suc i) zero t n = refl
  pick-set_shard_other (x ∷ xs) (suc i) (suc j) t n =
      pick-set_shard_other xs i j t (λ e. n (ap suc e))

  -- The shard of a key depends only on the number of the stores.
  shard_for_key-length :
      (config : ShardConfig) (ss ts : List (Kv D)) (key : Bytes)
      → length ss ≡ length ts
      → shard_for_key crc disk fuel (sharded config ss) key
        ≡ shard_for_key crc disk fuel (sharded config ts) key
  unfolding shard_for_key
  shard_for_key-length config ss ts key l =
      ap (λ n. route crc disk fuel config.strategy config.ranges n key) l

  module _ (config : ShardConfig) (ss : List (Kv D)) (key : Bytes) (i : ℕ) (s : Kv D)
      (at : shard_for_key crc disk fuel (sharded config ss) key ≡ ok i)
      (found : pick crc disk fuel ss i ≡ ok s) where
    same_route :
        (s' : Kv D) (j : Bytes)
        → shard_for_key crc disk fuel (sharded config (set_shard ss i s')) j
          ≡ shard_for_key crc disk fuel (sharded config ss) j
    same_route s' j =
        shard_for_key-length config (set_shard ss i s') ss j (length-set_shard ss i s')

    abbrev after_set : Kv D × Option UpdateError → Outcome (Db (Kv D) × Option UpdateError)
    after_set done = do
      db' ← put_back crc disk fuel (sharded config ss) key done.0
      ok (db', done.1)

    shard_set-run :
        (val : Bytes)
        → shard_set crc disk fuel (sharded config ss) key val
          ≡ (kv_set crc disk fuel s key val >>= after_set)
    unfolding shard_set shard_of
    shard_set-run val = rw (shard_set, shard_of, at, found) refl

    after_set-run :
        (done : Kv D × Option UpdateError)
        → after_set done ≡ ok (sharded config (set_shard ss i done.0), done.1)
    unfolding put_back set_shard
    after_set-run done = rw (put_back, at) refl

    get_here :
        (s' : Kv D) (j : Bytes)
        → shard_for_key crc disk fuel (sharded config ss) j ≡ ok i
        → shard_get crc disk fuel (sharded config (set_shard ss i s')) j ≡ kv_get crc disk fuel s' j
    unfolding shard_get shard_of
    get_here s' j h =
        rw (shard_get, shard_of, same_route s' j, h, pick-set_shard ss i s s' found) refl

    get_there :
        (s' : Kv D) (j : Bytes) (k : ℕ)
        → shard_for_key crc disk fuel (sharded config ss) j ≡ ok k
        → i ≢ k
        → shard_get crc disk fuel (sharded config (set_shard ss i s')) j
          ≡ shard_get crc disk fuel (sharded config ss) j
    unfolding shard_get shard_of
    get_there s' j k h n =
        rw (shard_get, shard_of, same_route s' j, h, pick-set_shard_other ss i k s' n) refl

    get_after :
        (o : Outcome (Kv D × Option UpdateError)) (j : Bytes) (k : ℕ)
        → shard_for_key crc disk fuel (sharded config ss) j ≡ ok k
        → (o >>= after_set >>= λ r. shard_get crc disk fuel r.0 j) ≡ (
            o >>= λ r.
            if i == k
            then kv_get crc disk fuel r.0 j
            else shard_get crc disk fuel (sharded config ss) j)
    get_after panic j k h = refl
    get_after stuck j k h = refl
    get_after (ok (s', e)) j k h =
        ap (λ o. o >>= λ r. shard_get crc disk fuel r.0 j) (after_set-run (s', e))
        ∙ elim (Bool-cases (i == k)) [
          | inl t ↦
              let same : i ≡ k = ground arith in get_here s' j (h ∙ ap ok (sym same)) ∙ rw t refl
          | inr t ↦ let apart : i ≢ k = ground arith in get_there s' j k h apart ∙ rw t refl
        ]

    -- A write goes to the store of its key alone: a read of a key of the same shard afterwards
    -- is `Get` of that store after its own `Set`, and a read of a key of another shard is as
    -- before, for every result of the `Set`, panics included. The key has a store in the list, and
    -- the other one a shard number.
    pub shard_get-shard_set :
        (val j : Bytes) (k : ℕ)
        → shard_for_key crc disk fuel (sharded config ss) j ≡ ok k
        → (shard_set crc disk fuel (sharded config ss) key val >>= λ r.
            shard_get crc disk fuel r.0 j)
          ≡ (kv_set crc disk fuel s key val >>= λ r.
              if i == k
              then kv_get crc disk fuel r.0 j
              else shard_get crc disk fuel (sharded config ss) j)
    shard_get-shard_set val j k h =
        ap (λ o. o >>= λ r. shard_get crc disk fuel r.0 j) (shard_set-run val)
        ∙ get_after (kv_set crc disk fuel s key val) j k h
