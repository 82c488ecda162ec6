-- ===== src/MemDb/Keys.antt =====
-- memdb/keys.go: DEL, EXISTS, KEYS and EXPIRE.
pub mod Laws
pub mod Sound
pub mod Exists
pub mod Expire
use redis_go.Prelude.{
  ℕ, zero, suc, ◌+◌, Bool, true, false, not, ◌||◌, ◌&&◌, Option, none, some, List, [], ◌∷◌, ◌++◌,
  Bytes, codes, to_lower, bytes_equal, length, if◌then◌else◌,
}
use redis_go.Prelude.Int.{ℤ, pos, negsuc, add64, neg64, ltb_ℤ}
use redis_go.Prelude.Outcome.{Outcome, ok, panic, stuck, ◌>>=◌}
use redis_go.Strconv.{atoi}
use redis_go.Util.Pattern.{patten_match}
use redis_go.GoMap.{is_some}
use redis_go.ConcurrentMap.{set, lookup, delete, key_list}
use redis_go.Resp.Structure.{
  RedisData, string_data, bulk_data, int_data, error_data, array_data, Elements, nil, cons,
}
use redis_go.MemDb.Reply.{Reply, reply, reply_int, reply_error, named}
use redis_go.MemDb.{
  Value, bytes_value, list_ref, set_ref, hash_ref, TtlInfo, MemDb, check_ttl, set_ttl, del_ttl,
}

pub del_loop : List Bytes → MemDb → ℕ → MemDb × ℕ
del_loop [] m n = (m, n)
del_loop (key ∷ ks) m n =
    let (db, removed) = delete m.db key in
    del_loop ks (record m { db = db; ttl_keys = (delete m.ttl_keys key).0 }) (n + removed)

del_keys : ℤ → List Bytes → MemDb → Reply
unfolding del_loop
del_keys now [] m = panic
del_keys now (key ∷ ks) m =
    let (m', alive) = check_ttl now key m in
    let (m'', n) = del_loop (key ∷ ks) m' 0 in if alive then reply_int m'' n else reply_int m' 0

pub del_key : ℤ → List Bytes → MemDb → Reply
unfolding del_keys
del_key now [] m = panic
del_key now (c ∷ args) m =
    if named c (codes "del")
    then del_keys now args m
    else reply_error m (codes "Protocol error: cmdName is not del")

pub exists_loop : ℤ → List Bytes → MemDb → ℕ → MemDb × ℕ
exists_loop now [] m n = (m, n)
exists_loop now (key ∷ ks) m n =
    let (m', alive) = check_ttl now key m in
    exists_loop now ks m' (if alive && is_some (lookup m'.db key) then n + 1 else n)

exists_keys : ℤ → List Bytes → MemDb → Reply
unfolding exists_loop
exists_keys now args m = let (m', n) = exists_loop now args m 0 in reply_int m' n

pub exists_key : ℤ → List Bytes → MemDb → Reply
unfolding exists_keys
exists_key now [] m = panic
exists_key now (c ∷ []) m = reply_error m (codes "Protocol error: cmdName is not exists")
exists_key now (c ∷ k ∷ ks) m =
    if named c (codes "exists")
    then exists_keys now (k ∷ ks) m
    else reply_error m (codes "Protocol error: cmdName is not exists")

-- `append(res, d)`, in the order of the loop
keys_loop : ℤ → Bytes → List Bytes → MemDb → Outcome (MemDb × Elements)
keys_loop now pattern [] m = ok (m, nil)
keys_loop now pattern (key ∷ ks) m = do
  let (m', alive) = check_ttl now key m
  matched ← (if alive then patten_match pattern key else ok false)
  (m'', found) ← keys_loop now pattern ks m'
  ok (m'', if matched then cons (bulk_data (some key)) found else found)

pub keys_key : ℤ → List Bytes → MemDb → Reply
unfolding keys_loop
keys_key now (c ∷ pattern ∷ []) m =
    if named c (codes "keys")
    then (do
      all ← key_list m.db
      (m', found) ← keys_loop now pattern all m
      reply m' (array_data found))
    else reply_error m
        (codes "error: keys function get invalid command " ++ c ++ codes " " ++ pattern)
keys_key now (c ∷ a ∷ b ∷ args) m =
    reply_error m (codes "error: keys function get invalid command " ++ c ++ codes " " ++ a)
keys_key now _ m = panic

-- `m.SetTTL` under a condition
set_ttl_if : Bool → Bytes → ℤ → MemDb → Reply
set_ttl_if test key ttl m =
    let (m', n) = set_ttl key ttl m in if test then reply_int m' n else reply_int m 0

-- a condition on the old time to live; false where there is none
old_ttl : (ℤ → Bool) → Option TtlInfo → Bool
old_ttl test none = false
old_ttl test (some info) = test info.value

pub expire_option : Bytes → Bytes → ℤ → MemDb → Reply
unfolding set_ttl_if old_ttl
expire_option opt key ttl m =
    let old = lookup m.ttl_keys key in
    if bytes_equal opt (codes "nx")
    then set_ttl_if (not (is_some old)) key ttl m
    else if bytes_equal opt (codes "xx")
    then set_ttl_if (is_some old) key ttl m
    else if bytes_equal opt (codes "gt")
    then set_ttl_if (old_ttl (λ v. ltb_ℤ v ttl) old) key ttl m
    else if bytes_equal opt (codes "lt")
    then set_ttl_if (old_ttl (λ v. ltb_ℤ ttl v) old) key ttl m
    else if bytes_equal opt []
    then set_ttl_if true key ttl m
    else reply_error m (codes "ERR Unsupported option " ++ opt ++ codes ", except nx, xx, gt, lt")

expire_seconds : ℤ → Bytes → Bytes → Bytes → Option ℤ → MemDb → Reply
unfolding expire_option
expire_seconds now key text opt none m =
    reply_error m (codes "error: " ++ text ++ codes " is not int")
expire_seconds now key text opt (some v) m =
    let (m', alive) = check_ttl now key m in
    if alive then expire_option opt key (add64 now v) m' else reply_int m' 0

abbrev expire_usage : Bytes
expire_usage = codes "error: cmdName is not expire or command args number is invalid"

pub expire_key : ℤ → List Bytes → MemDb → Reply
unfolding expire_seconds
expire_key now [] m = panic
expire_key now (c ∷ key ∷ seconds ∷ []) m =
    if named c (codes "expire")
    then expire_seconds now key seconds [] (atoi seconds) m
    else reply_error m expire_usage
expire_key now (c ∷ key ∷ seconds ∷ opt ∷ []) m =
    if named c (codes "expire")
    then expire_seconds now key seconds (to_lower opt) (atoi seconds) m
    else reply_error m expire_usage
expire_key now (c ∷ args) m = reply_error m expire_usage
