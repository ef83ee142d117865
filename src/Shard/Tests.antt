-- ===== src/Shard/Tests.antt =====
-- A write and a read over three shards.
use svacara_db.Prelude.{ℕ, ◌≡◌, refl, true, false, List, [], ◌∷◌, ◌>>=◌}
use svacara_db.Bytes.{Bytes}
use svacara_db.Pages.Manager.{new_page_mgr, reset_to}
use svacara_db.Pages.Samples.{PageList, list_disk}
use svacara_db.Kv.{Kv, sync_full, kv_get, kv_set}
use svacara_db.Shard.{
  ShardConfig, hash_shard, sharded, route, shard_for_key, pick, shard_get, shard_set,
}
use svacara_db.Shard.Route.{shard_get-shard_set}

-- The first byte stands for the checksum.
abbrev first_byte : Bytes → ℕ
first_byte [] = 0
first_byte (b ∷ bs) = b

abbrev by_hash : ShardConfig
by_hash = record { strategy = hash_shard; shards = 4; ranges = [] }

-- A store over an empty file.
abbrev empty_store : Kv PageList
empty_store = record {
  disk_state = [];
  root = 0;
  free = record { head_page = 0; head_seq = 0; tail_page = 0; tail_seq = 0; max_seq = 0 };
  mgr = reset_to new_page_mgr 1;
  mode = sync_full;
  failed = false;
}

-- The second one has a failed update behind it.
abbrev three : List (Kv PageList)
three = empty_store ∷ record empty_store { failed = true } ∷ empty_store ∷ []

shard_get-shard_set_example :
    (shard_set first_byte list_disk 20 (sharded by_hash three) (7 ∷ []) (1 ∷ []) >>= λ r.
    shard_get first_byte list_disk 20 r.0 (4 ∷ []))
    ≡ (kv_set first_byte list_disk 20 (record empty_store { failed = true }) (7 ∷ []) (1 ∷ [])
        >>= λ r. kv_get first_byte list_disk 20 r.0 (4 ∷ []))
unfolding shard_for_key route pick
shard_get-shard_set_example =
    shard_get-shard_set first_byte list_disk 20 by_hash three (7 ∷ []) 1
      (record empty_store { failed = true }) refl refl (1 ∷ []) (4 ∷ []) 1 refl
