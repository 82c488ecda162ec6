-- ===== src/MemDb.antt =====
-- memdb/db.go: the database, its keys with a time to live, and the timers that SetTTL starts.
-- A command runs alone between the locks that it takes, and reads the clock once. Pointers of the
-- database (`*List`, `*Set`, …) are addresses of objects.
pub mod Expiry
pub mod Reply
pub mod Sound
pub mod Keys
pub mod KeyInfo
pub mod Strings
pub mod Counters
pub mod SetString
pub mod Objects
pub mod Sets
pub mod Streams
pub mod Hashes
pub mod Command
use redis_go.Prelude.{
  ℕ, suc, ◌+◌, Bool, true, false, Option, none, some, List, [], ◌∷◌, Bytes, ◌==◌, if◌then◌else◌,
}
use redis_go.Prelude.Int.{ℤ, ltb_ℤ}
use redis_go.ConcurrentMap.{ConcurrentMap, new_concurrent_map, set, lookup, delete}

-- what `any` holds in the database
pub data Value : Type 0 where
  bytes_value : Bytes → Value
  list_ref set_ref hash_ref sorted_set_ref stream_ref : ℕ → Value

-- the second at which a key expires, and the channel that cancels its timer
pub record TtlInfo : Type 0 where
  pub value : ℤ
  pub cancel : ℕ

-- a goroutine of `SetTTL` that waits for its time or for its channel
pub record Timer : Type 0 where
  pub channel : ℕ
  pub key : Bytes

pub record MemDb : Type 0 where
  pub db : ConcurrentMap Value
  pub ttl_keys : ConcurrentMap TtlInfo
  pub timers : List Timer
  pub next_channel : ℕ

pub new_mem_db : ℤ → MemDb
new_mem_db shard_num = record {
  db = new_concurrent_map shard_num;
  ttl_keys = new_concurrent_map shard_num;
  timers = [];
  next_channel = 0;
}

-- `CheckTTL` at a time: false if the key is expired, and then it is deleted
expire_at : ℤ → Bytes → MemDb → Option TtlInfo → MemDb × Bool
expire_at now key m none = (m, true)
expire_at now key m (some ttl) =
    if ltb_ℤ now ttl.value
    then (m, true)
    else (record m { db = (delete m.db key).0; ttl_keys = (delete m.ttl_keys key).0 }, false)

pub check_ttl : ℤ → Bytes → MemDb → MemDb × Bool
unfolding expire_at
check_ttl now key m = expire_at now key m (lookup m.ttl_keys key)

-- `close(cancel)`: the goroutine that waits on the channel returns
pub close : ℕ → List Timer → List Timer
close c [] = []
close c (t ∷ ts) = if t.channel == c then close c ts else t ∷ close c ts

-- the old timer of a key is cancelled, if there is one
cancel_old : Bytes → MemDb → Option TtlInfo → MemDb
cancel_old key m none = m
cancel_old key m (some ttl) = record m {
  timers = close ttl.cancel m.timers;
  ttl_keys = (delete m.ttl_keys key).0;
}

-- the entry of `ttlKeys` with a new channel, and its goroutine
start_timer : Bytes → ℤ → MemDb → MemDb
start_timer key value m = record m {
  ttl_keys = (set m.ttl_keys key (record { value = value; cancel = m.next_channel })).0;
  timers = record { channel = m.next_channel; key = key } ∷ m.timers;
  next_channel = m.next_channel + 1;
}

set_ttl_of : Bytes → ℤ → MemDb → Option Value → MemDb × ℕ
unfolding cancel_old start_timer
set_ttl_of key value m none = (m, 0)
set_ttl_of key value m (some v) =
    (start_timer key value (cancel_old key m (lookup m.ttl_keys key)), 1)

pub set_ttl : Bytes → ℤ → MemDb → MemDb × ℕ
unfolding set_ttl_of
set_ttl key value m = set_ttl_of key value m (lookup m.db key)

del_ttl_of : Bytes → MemDb → Option TtlInfo → MemDb × ℕ
del_ttl_of key m none = (m, 0)
del_ttl_of key m (some ttl) = (
  record m { timers = close ttl.cancel m.timers; ttl_keys = (delete m.ttl_keys key).0 },
  (delete m.ttl_keys key).1,
)

pub del_ttl : Bytes → MemDb → MemDb × ℕ
unfolding del_ttl_of
del_ttl key m = del_ttl_of key m (lookup m.ttl_keys key)

-- `time.After` fires at a goroutine that is not cancelled
pub fire : ℤ → Timer → MemDb → MemDb
fire now t m = (check_ttl now t.key (record m { timers = close t.channel m.timers })).0
