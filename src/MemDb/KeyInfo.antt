-- ===== src/MemDb/KeyInfo.antt =====
-- memdb/keys.go: PERSIST, TTL, TYPE, RENAME and PING.
pub mod Laws
pub mod Sound
use redis_go.Prelude.{
  ℕ, Bool, true, false, Option, none, some, List, [], ◌∷◌, ◌++◌, Bytes, codes, if◌then◌else◌,
}
use redis_go.Prelude.Int.{ℤ, pos, negsuc, neg64, add64}
use redis_go.Prelude.Outcome.{panic}
use redis_go.ConcurrentMap.{set, lookup, delete}
use redis_go.Resp.Structure.{RedisData, string_data, bulk_data, int_data, error_data}
use redis_go.MemDb.{
  Value, bytes_value, list_ref, set_ref, hash_ref, sorted_set_ref, stream_ref, TtlInfo, MemDb,
  check_ttl, del_ttl,
}
use redis_go.MemDb.Reply.{Reply, reply, reply_int, reply_error, named}

persist_alive : Bytes → MemDb × Bool → Reply
persist_alive key (m, false) = reply_int m 0
persist_alive key (m, true) = let (m', n) = del_ttl key m in reply_int m' n

abbrev persist_usage : Bytes
persist_usage = codes "error: cmdName is not persist or command args number is invalid"

pub persist_key : ℤ → List Bytes → MemDb → Reply
unfolding persist_alive
persist_key now [] m = panic
persist_key now (c ∷ key ∷ []) m =
    if named c (codes "persist")
    then persist_alive key (check_ttl now key m)
    else reply_error m persist_usage
persist_key now (c ∷ args) m = reply_error m persist_usage

ttl_of : ℤ → MemDb → Option Value → Option TtlInfo → Reply
ttl_of now m none ttl = reply m (int_data (negsuc 1))
ttl_of now m (some v) none = reply m (int_data (negsuc 0))
ttl_of now m (some v) (some ttl) = reply m (int_data (add64 ttl.value (neg64 now)))

ttl_alive : ℤ → Bytes → MemDb × Bool → Reply
unfolding ttl_of
ttl_alive now key (m, false) = reply m (int_data (negsuc 1))
ttl_alive now key (m, true) = ttl_of now m (lookup m.db key) (lookup m.ttl_keys key)

abbrev ttl_usage : Bytes
ttl_usage = codes "error: cmdName is not ttl or command args number is invalid"

pub ttl_key : ℤ → List Bytes → MemDb → Reply
unfolding ttl_alive
ttl_key now [] m = panic
ttl_key now (c ∷ key ∷ []) m =
    if named c (codes "ttl")
    then ttl_alive now key (check_ttl now key m)
    else reply_error m ttl_usage
ttl_key now (c ∷ args) m = reply_error m ttl_usage

pub type_of : Option Value → RedisData
type_of none = string_data (codes "none")
type_of (some (bytes_value s)) = string_data (codes "string")
type_of (some (list_ref a)) = string_data (codes "list")
type_of (some (set_ref a)) = string_data (codes "set")
type_of (some (hash_ref a)) = string_data (codes "hash")
type_of (some (sorted_set_ref a)) = error_data (codes "unknown error: server error")
type_of (some (stream_ref a)) = error_data (codes "unknown error: server error")

type_alive : Bytes → MemDb × Bool → Reply
unfolding type_of
type_alive key (m, false) = reply m (bulk_data (some (codes "none")))
type_alive key (m, true) = reply m (type_of (lookup m.db key))

abbrev type_usage : Bytes
type_usage = codes "error: cmdName is not type or command args number is invalid"

pub type_key : ℤ → List Bytes → MemDb → Reply
unfolding type_alive
type_key now [] m = panic
type_key now (c ∷ key ∷ []) m =
    if named c (codes "type")
    then type_alive key (check_ttl now key m)
    else reply_error m type_usage
type_key now (c ∷ args) m = reply_error m type_usage

-- both names are deleted, and then the new one is set
pub move_key : Bytes → Bytes → Value → MemDb → MemDb
move_key old new v m = record m {
  db = (set (delete (delete m.db old).0 new).0 new v).0;
  ttl_keys = (delete (delete m.ttl_keys old).0 new).0;
}

rename_value : Bytes → Bytes → MemDb → Option Value → Reply
unfolding move_key
rename_value old new m none = reply_error m (codes "error: " ++ old ++ codes " not exist")
rename_value old new m (some v) = reply (move_key old new v m) (string_data (codes "OK"))

rename_alive : Bytes → Bytes → MemDb × Bool → Reply
unfolding rename_value
rename_alive old new (m, false) = reply_error m (codes "error: " ++ old ++ codes " not exist")
rename_alive old new (m, true) = rename_value old new m (lookup m.db old)

abbrev rename_usage : Bytes
rename_usage = codes "error: cmdName is not rename or command args number is invalid"

pub rename_key : ℤ → List Bytes → MemDb → Reply
unfolding rename_alive
rename_key now [] m = panic
rename_key now (c ∷ old ∷ new ∷ []) m =
    if named c (codes "rename")
    then rename_alive old new (check_ttl now old m)
    else reply_error m rename_usage
rename_key now (c ∷ args) m = reply_error m rename_usage

pub ping_keys : List Bytes → MemDb → Reply
ping_keys (c ∷ []) m = reply m (string_data (codes "PONG"))
ping_keys (c ∷ text ∷ []) m = reply m (bulk_data (some text))
ping_keys [] m = panic
ping_keys (c ∷ a ∷ b ∷ args) m =
    reply_error m (codes "error: wrong number of arguments for 'ping' command")
