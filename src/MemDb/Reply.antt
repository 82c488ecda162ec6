-- ===== src/MemDb/Reply.antt =====
-- What the command handlers of memdb/ return: the database and the reply, or a panic.
use redis_go.Prelude.{Bool, Option, some, none, Bytes, to_lower, bytes_equal, ℕ, codes}
use redis_go.Prelude.Int.{pos}
use redis_go.Prelude.Outcome.{Outcome, ok}
use redis_go.Resp.Structure.{RedisData, bulk_data, int_data, error_data}
use redis_go.MemDb.{MemDb}

-- The reply may be a nil interface.
abbrev pub Reply : Type 0
Reply = Outcome (MemDb × Option RedisData)

abbrev pub reply : MemDb → RedisData → Reply
reply m d = ok (m, some d)

abbrev pub reply_int : MemDb → ℕ → Reply
reply_int m n = reply m (int_data (pos n))

abbrev pub reply_error : MemDb → Bytes → Reply
reply_error m text = reply m (error_data text)

-- `strings.ToLower(string(cmd[0])) == name`
abbrev pub named : Bytes → Bytes → Bool
named c name = bytes_equal (to_lower c) name

abbrev pub reply_nil : MemDb → Reply
reply_nil m = reply m (bulk_data none)

abbrev pub invalid : Bytes
invalid = codes "error: commands is invalid"

abbrev pub wrong_type : Bytes
wrong_type = codes "WRONGTYPE Operation against a key holding the wrong kind of value"

abbrev pub server_error : Bytes
server_error = codes "Server error"
