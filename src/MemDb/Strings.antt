-- ===== src/MemDb/Strings.antt =====
-- memdb/string.go: GET, SETRANGE, MGET, MSET, SETEX, SETNX, STRLEN and APPEND.
pub mod Laws
pub mod Sound
use redis_go.Prelude.{
  ℕ, zero, suc, ◌+◌, ◌-◌, Bool, true, false, Option, none, some, List, [], ◌∷◌, ◌++◌, Bytes, codes,
  length, take, ltb, if◌then◌else◌,
}
use redis_go.Prelude.Int.{ℤ, pos, negsuc, add64}
use redis_go.Prelude.Outcome.{panic}
use redis_go.Strconv.{atoi}
use redis_go.ConcurrentMap.{set, set_if_not_exist, lookup}
use redis_go.Resp.Structure.{RedisData, string_data, bulk_data, array_data, Elements, nil, cons}
use redis_go.MemDb.{Value, bytes_value, MemDb, set_ttl, del_ttl}
use redis_go.MemDb.Reply.{
  Reply, reply, reply_int, reply_nil, reply_error, named, invalid, wrong_type, server_error,
}

-- `m.db.Set(key, []byte)`
abbrev pub set_bytes : MemDb → Bytes → Bytes → MemDb
set_bytes m key s = record m { db = (set m.db key (bytes_value s)).0 }

-- The value of a key: there is none, a byte slice, or a value of another type.
pub data Held : Type 0 where
  absent wrong : Held
  bytes : Bytes → Held

abbrev pub held_value : Option Value → Held
held_value none = absent
held_value (some (bytes_value s)) = bytes s
held_value (some v) = wrong

abbrev pub held : MemDb → Bytes → Held
held m key = held_value (lookup m.db key)

get_held : MemDb → Held → Reply
get_held m absent = reply_nil m
get_held m wrong = reply_error m wrong_type
get_held m (bytes s) = reply m (bulk_data (some s))

pub get_string : List Bytes → MemDb → Reply
unfolding get_held
get_string [] m = panic
get_string (c ∷ key ∷ []) m =
    if named c (codes "get") then get_held m (held m key) else reply_error m server_error
get_string (c ∷ args) m =
    if named c (codes "get") then reply_error m invalid else reply_error m server_error

abbrev zeros : ℕ → Bytes
zeros zero = []
zeros (suc n) = 0 ∷ zeros n

-- the zeros up to the offset, or the old bytes before it
abbrev pub written_at : ℕ → Bytes → Bytes → Bytes
written_at offset old text =
    if ltb (length old) offset
    then old ++ zeros (offset - length old) ++ text
    else take offset old ++ text

set_range_held : ℕ → Bytes → Bytes → MemDb → Held → Reply
set_range_held offset key text m absent =
    let s = written_at offset [] text in reply_int (set_bytes m key s) (length s)
set_range_held offset key text m wrong = reply_error m wrong_type
set_range_held offset key text m (bytes old) =
    let s = written_at offset old text in reply_int (set_bytes m key s) (length s)

abbrev offset_error : Bytes
offset_error = codes "error: offset is not a integer or less than 0"

set_range_at : Option ℤ → Bytes → Bytes → MemDb → Reply
unfolding set_range_held
set_range_at none key text m = reply_error m offset_error
set_range_at (some (negsuc n)) key text m = reply_error m offset_error
set_range_at (some (pos n)) key text m = set_range_held n key text m (held m key)

pub set_range_string : List Bytes → MemDb → Reply
unfolding set_range_at
set_range_string [] m = panic
set_range_string (c ∷ key ∷ offset ∷ text ∷ []) m =
    if named c (codes "setrange")
    then set_range_at (atoi offset) key text m
    else reply_error m server_error
set_range_string (c ∷ args) m =
    if named c (codes "setrange") then reply_error m invalid else reply_error m server_error

abbrev pub bulk_of : Held → RedisData
bulk_of (bytes s) = bulk_data (some s)
bulk_of _ = bulk_data none

pub m_get_loop : MemDb → List Bytes → Elements
m_get_loop m [] = nil
m_get_loop m (key ∷ ks) = cons (bulk_of (held m key)) (m_get_loop m ks)

pub m_get_string : List Bytes → MemDb → Reply
unfolding m_get_loop
m_get_string [] m = panic
m_get_string (c ∷ []) m =
    if named c (codes "mget") then reply_error m invalid else reply_error m server_error
m_get_string (c ∷ k ∷ ks) m =
    if named c (codes "mget")
    then reply m (array_data (m_get_loop m (k ∷ ks)))
    else reply_error m server_error

-- the keys and values of MSET; `none` where a value is missing
unfoldable pub pairs : List Bytes → Option (List (Bytes × Bytes))
pairs [] = some []
pairs (key ∷ []) = none
pairs (key ∷ text ∷ args) = elim (pairs args) [ none ↦ none | some ps ↦ some ((key, text) ∷ ps) ]

pub m_set_loop : List (Bytes × Bytes) → MemDb → MemDb
m_set_loop [] m = m
m_set_loop ((key, text) ∷ ps) m = m_set_loop ps (set_bytes (del_ttl key m).0 key text)

m_set_pairs : Option (List (Bytes × Bytes)) → MemDb → Reply
unfolding m_set_loop
m_set_pairs none m = reply_error m invalid
m_set_pairs (some []) m = reply_error m invalid
m_set_pairs (some ps) m = reply (m_set_loop ps m) (string_data (codes "OK"))

pub m_set_string : List Bytes → MemDb → Reply
unfolding m_set_pairs pairs
m_set_string [] m = panic
m_set_string (c ∷ args) m =
    if named c (codes "mset") then m_set_pairs (pairs args) m else reply_error m server_error

set_ex_at : ℤ → Option ℤ → Bytes → Bytes → Bytes → MemDb → Reply
set_ex_at now none seconds key text m =
    reply_error m (codes "error: " ++ seconds ++ codes " is not a integer")
set_ex_at now (some ex) seconds key text m =
    reply (set_ttl key (add64 now ex) (set_bytes m key text)).0 (string_data (codes "OK"))

pub set_ex_string : ℤ → List Bytes → MemDb → Reply
unfolding set_ex_at
set_ex_string now [] m = panic
set_ex_string now (c ∷ key ∷ seconds ∷ text ∷ []) m =
    if named c (codes "setex")
    then set_ex_at now (atoi seconds) seconds key text m
    else reply_error m server_error
set_ex_string now (c ∷ args) m =
    if named c (codes "setex") then reply_error m invalid else reply_error m server_error

pub set_nx_string : List Bytes → MemDb → Reply
set_nx_string [] m = panic
set_nx_string (c ∷ key ∷ text ∷ []) m =
    let (db, n) = set_if_not_exist m.db key (bytes_value text) in
    if named c (codes "setnx")
    then reply_int (record m { db = db }) n
    else reply_error m server_error
set_nx_string (c ∷ args) m =
    if named c (codes "setnx") then reply_error m invalid else reply_error m server_error

str_len_held : MemDb → Held → Reply
str_len_held m absent = reply_int m 0
str_len_held m wrong = reply_error m wrong_type
str_len_held m (bytes s) = reply_int m (length s)

pub str_len_string : List Bytes → MemDb → Reply
unfolding str_len_held
str_len_string [] m = panic
str_len_string (c ∷ key ∷ []) m =
    if named c (codes "strlen") then str_len_held m (held m key) else reply_error m server_error
str_len_string (c ∷ args) m =
    if named c (codes "strlen") then reply_error m invalid else reply_error m server_error

append_held : Bytes → Bytes → MemDb → Held → Reply
append_held key text m absent = reply_int (set_bytes m key text) (length text)
append_held key text m wrong = reply_error m wrong_type
append_held key text m (bytes s) = reply_int (set_bytes m key (s ++ text)) (length (s ++ text))

pub append_string : List Bytes → MemDb → Reply
unfolding append_held
append_string [] m = panic
append_string (c ∷ key ∷ text ∷ []) m =
    if named c (codes "append")
    then append_held key text m (held m key)
    else reply_error m server_error
append_string (c ∷ args) m =
    if named c (codes "append") then reply_error m invalid else reply_error m server_error
