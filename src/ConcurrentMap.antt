-- ===== src/ConcurrentMap.antt =====
-- memdb/concurrentmap.go: a map split into shards by the hash of the key. Every method locks the one
-- shard that it touches, so a method is a step; `Keys` locks the shards one by one, and is modelled
-- where no other method comes between.
pub mod Shards
pub mod Laws
pub mod KeyList
use redis_go.Prelude.{
  ℕ, zero, suc, ◌+◌, ◌-◌, ◌%◌, ◌^◌, ◌≤◌, Bool, true, false, ◌||◌, Option, none, some, List, [], ◌∷◌,
  ◌++◌, Bytes, length, ltb, ◌==◌, if◌then◌else◌,
}
use redis_go.Prelude.Int.{ℤ, pos, negsuc}
use redis_go.Prelude.Outcome.{Outcome, ok, panic, stuck}
use redis_go.Util.{hash_key}
use redis_go.GoMap.{GoMap, get, put, remove, keys, has, is_some}

abbrev pub max_con_size : ℕ
max_con_size = 2 ^ 31 - 1

-- `count` is the field of the same name, which is never negative
pub record ConcurrentMap (V : Type 0) : Type 0 where
  pub table : List (GoMap V)
  pub size : ℕ
  pub count : ℕ

-- the size that a new map gets
abbrev pub fit_size : ℤ → ℕ
fit_size (negsuc n) = max_con_size
fit_size (pos n) = if (n == 0) || ltb max_con_size n then max_con_size else n

-- empty strings, where fewer keys were found than were counted
abbrev pad : ℕ → List Bytes
pad zero = []
pad (suc n) = [] ∷ pad n

module _ {V : Type 0} where
  abbrev pub empty_shards : ℕ → List (GoMap V)
  empty_shards zero = []
  empty_shards (suc n) = [] ∷ empty_shards n

  pub new_concurrent_map : ℤ → ConcurrentMap V
  new_concurrent_map size = record {
    table = empty_shards (fit_size size);
    size = fit_size size;
    count = 0;
  }

  pub get_key_pos : ConcurrentMap V → Bytes → ℕ
  get_key_pos m key = hash_key key % m.size

  -- `m.table[pos]`; the position is within the table (`get_key_pos-lt`)
  unfoldable pub shard_at : List (GoMap V) → ℕ → GoMap V
  shard_at [] i = []
  shard_at (s ∷ ts) zero = s
  shard_at (s ∷ ts) (suc i) = shard_at ts i

  unfoldable pub set_shard : List (GoMap V) → ℕ → GoMap V → List (GoMap V)
  set_shard [] i s = []
  set_shard (t ∷ ts) zero s = s ∷ ts
  set_shard (t ∷ ts) (suc i) s = t ∷ set_shard ts i s

  pub get_shard : ConcurrentMap V → Bytes → GoMap V
  get_shard m key = shard_at m.table (get_key_pos m key)

  -- the write of a shard that a method has changed in place
  write_shard : ConcurrentMap V → Bytes → GoMap V → ConcurrentMap V
  write_shard m key s = record m { table = set_shard m.table (get_key_pos m key) s }

  -- `Set`: the new map, and the number of keys added
  pub set : ConcurrentMap V → Bytes → V → ConcurrentMap V × ℕ
  set m key value =
      let shard = get_shard m key in
      let written = write_shard m key (put key value shard) in
      if has key shard then (written, 0) else (record written { count = m.count + 1 }, 1)

  pub set_if_exist : ConcurrentMap V → Bytes → V → ConcurrentMap V × ℕ
  set_if_exist m key value =
      let shard = get_shard m key in
      if has key shard then (write_shard m key (put key value shard), 1) else (m, 0)

  pub set_if_not_exist : ConcurrentMap V → Bytes → V → ConcurrentMap V × ℕ
  set_if_not_exist m key value =
      let shard = get_shard m key in
      if has key shard
      then (m, 0)
      else (record (write_shard m key (put key value shard)) { count = m.count + 1 }, 1)

  -- `Get`: `none` where the second result is false
  pub lookup : ConcurrentMap V → Bytes → Option V
  lookup m key = get key (get_shard m key)

  pub delete : ConcurrentMap V → Bytes → ConcurrentMap V × ℕ
  delete m key =
      let shard = get_shard m key in
      if has key shard
      then (record (write_shard m key (remove key shard)) { count = m.count - 1 }, 1)
      else (m, 0)

  pub len : ConcurrentMap V → ℕ
  len m = m.count

  pub clear : ConcurrentMap V → ConcurrentMap V
  clear m = new_concurrent_map (pos m.size)

  -- every key, shard by shard
  all_keys : List (GoMap V) → List Bytes
  all_keys [] = []
  all_keys (s ∷ ts) = keys s ++ all_keys ts

  -- `Keys` fills a slice of `count` strings; it panics where there are more keys
  pub key_list : ConcurrentMap V → Outcome (List Bytes)
  key_list m =
      let found = all_keys m.table in
      if ltb m.count (length found) then panic else ok (found ++ pad (m.count - length found))
