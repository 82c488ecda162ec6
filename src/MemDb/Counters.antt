-- ===== src/MemDb/Counters.antt =====
-- memdb/string.go: INCR, INCRBY, DECR and DECRBY, on 64-bit integers that wrap around.
pub mod Laws
pub mod Sound
use redis_go.Prelude.{
  Bool, true, false, Option, none, some, List, [], ◌∷◌, Bytes, codes, if◌then◌else◌,
}
use redis_go.Prelude.Int.{ℤ, pos, negsuc, add64, neg64}
use redis_go.Prelude.Outcome.{panic}
use redis_go.Strconv.{itoa, atoi}
use redis_go.Resp.Structure.{int_data}
use redis_go.MemDb.{MemDb}
use redis_go.MemDb.Reply.{Reply, reply, reply_error, named, invalid, wrong_type, server_error}
use redis_go.MemDb.Strings.{Held, absent, wrong, bytes, held, set_bytes}

abbrev not_integer : Bytes
not_integer = codes "value is not an integer"

abbrev not_increment : Bytes
not_increment = codes "commands invalid: increment value is not an integer"

-- the new value is printed and stored, and it is the reply
store_int : MemDb → Bytes → ℤ → Reply
store_int m key n = reply (set_bytes m key (itoa n)) (int_data n)

add_to : MemDb → Bytes → ℤ → Option ℤ → Reply
unfolding store_int
add_to m key inc none = reply_error m not_integer
add_to m key inc (some n) = store_int m key (add64 n inc)

-- the part that the four commands share: `first` where the key is absent, else the value plus `inc`
add_held : MemDb → Bytes → ℤ → ℤ → Held → Reply
unfolding add_to
add_held m key first inc absent = store_int m key first
add_held m key first inc wrong = reply_error m wrong_type
add_held m key first inc (bytes s) = add_to m key inc (atoi s)

pub incr_string : List Bytes → MemDb → Reply
unfolding add_held
incr_string [] m = panic
incr_string (c ∷ key ∷ []) m =
    if named c (codes "incr")
    then add_held m key (pos 1) (pos 1) (held m key)
    else reply_error m server_error
incr_string (c ∷ args) m =
    if named c (codes "incr") then reply_error m invalid else reply_error m server_error

pub decr_string : List Bytes → MemDb → Reply
unfolding add_held
decr_string [] m = panic
decr_string (c ∷ key ∷ []) m =
    if named c (codes "decr")
    then add_held m key (negsuc 0) (negsuc 0) (held m key)
    else reply_error m server_error
decr_string (c ∷ args) m =
    if named c (codes "decr") then reply_error m invalid else reply_error m server_error

incr_by : MemDb → Bytes → Option ℤ → Reply
unfolding add_held
incr_by m key none = reply_error m not_increment
incr_by m key (some inc) = add_held m key inc inc (held m key)

pub incr_by_string : List Bytes → MemDb → Reply
unfolding incr_by
incr_by_string [] m = panic
incr_by_string (c ∷ key ∷ inc ∷ []) m =
    if named c (codes "incrby") then incr_by m key (atoi inc) else reply_error m server_error
incr_by_string (c ∷ args) m =
    if named c (codes "incrby") then reply_error m invalid else reply_error m server_error

decr_by : MemDb → Bytes → Option ℤ → Reply
unfolding add_held
decr_by m key none = reply_error m not_increment
decr_by m key (some dec) = add_held m key (neg64 dec) (neg64 dec) (held m key)

pub decr_by_string : List Bytes → MemDb → Reply
unfolding decr_by
decr_by_string [] m = panic
decr_by_string (c ∷ key ∷ dec ∷ []) m =
    if named c (codes "decrby") then decr_by m key (atoi dec) else reply_error m server_error
decr_by_string (c ∷ args) m =
    if named c (codes "decrby") then reply_error m invalid else reply_error m server_error
