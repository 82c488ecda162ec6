-- ===== src/MemDb/Command.antt =====
-- memdb/command.go and `ExecCommand` of memdb/db.go: the table of commands, and the commands of
-- memdb/keys.go and memdb/string.go that are modelled, as they are registered. ExecCommand has the table
-- as an argument, so that it may have any other commands.
pub mod Dispatch
pub mod Sound
use redis_go.Prelude.{
  Bool, Option, none, some, List, [], ◌∷◌, ◌++◌, Bytes, codes, to_lower, bytes_equal, if◌then◌else◌,
}
use redis_go.Prelude.Int.{ℤ}
use redis_go.Prelude.Outcome.{ok}
use redis_go.GoMap
use redis_go.GoMap.{GoMap, put}
use redis_go.MemDb.{MemDb}
use redis_go.MemDb.Reply.{Reply, reply_error}
use redis_go.MemDb.Keys.{del_key, exists_key, keys_key, expire_key}
use redis_go.MemDb.KeyInfo.{persist_key, ttl_key, type_key, rename_key, ping_keys}
use redis_go.MemDb.Strings.{
  get_string, set_range_string, m_get_string, m_set_string, set_ex_string, set_nx_string,
  str_len_string, append_string,
}
use redis_go.MemDb.Counters.{incr_string, decr_string, incr_by_string, decr_by_string}
use redis_go.MemDb.SetString.{set_string}

-- `cmdExecutor`, with the clock in place of the context, and without the connection
abbrev pub Executor : Type 0
Executor = ℤ → List Bytes → MemDb → Reply

-- an executor that does not read the clock
abbrev timeless : (List Bytes → MemDb → Reply) → Executor
timeless f now = f

abbrev pub CmdTable : Type 0
CmdTable = GoMap Executor

-- `RegisterCommand`
unfoldable pub register_command : Bytes → Executor → CmdTable → CmdTable
register_command name f t = put name f t

-- calls of `RegisterCommand`, one behind another
unfoldable pub register_all : List (Bytes × Executor) → CmdTable → CmdTable
register_all [] t = t
register_all ((name, f) ∷ cs) t = register_all cs (register_command name f t)

-- the calls of `RegisterCommand` in `RegisterKeyCommands`
abbrev pub key_commands : List (Bytes × Executor)
key_commands =
    (codes "ping", timeless ping_keys)
    ∷ (codes "del", del_key)
    ∷ (codes "exists", exists_key)
    ∷ (codes "keys", keys_key)
    ∷ (codes "expire", expire_key)
    ∷ (codes "persist", persist_key)
    ∷ (codes "ttl", ttl_key)
    ∷ (codes "type", type_key)
    ∷ (codes "rename", rename_key)
    ∷ []

-- those in `RegisterStringCommands`, but for `getrange` and `incrbyfloat`
abbrev pub string_commands : List (Bytes × Executor)
string_commands =
    (codes "set", set_string)
    ∷ (codes "get", timeless get_string)
    ∷ (codes "setrange", timeless set_range_string)
    ∷ (codes "mget", timeless m_get_string)
    ∷ (codes "mset", timeless m_set_string)
    ∷ (codes "setex", set_ex_string)
    ∷ (codes "setnx", timeless set_nx_string)
    ∷ (codes "strlen", timeless str_len_string)
    ∷ (codes "incr", timeless incr_string)
    ∷ (codes "incrby", timeless incr_by_string)
    ∷ (codes "decr", timeless decr_string)
    ∷ (codes "decrby", timeless decr_by_string)
    ∷ (codes "append", timeless append_string)
    ∷ []

-- the table with these, and with those that it had
abbrev pub cmd_table : CmdTable → CmdTable
cmd_table others = register_all string_commands (register_all key_commands others)

exec_found : Option Executor → Bytes → Executor
exec_found none name now cmd m = reply_error m (codes "ERR unknown command " ++ name)
exec_found (some f) name now cmd m = f now cmd m

-- An empty command gets no reply.
pub exec_command : CmdTable → ℤ → List Bytes → MemDb → Reply
unfolding exec_found
exec_command t now [] m = ok (m, none)
exec_command t now (c ∷ args) m =
    exec_found (GoMap.get (to_lower c) t) (to_lower c) now (c ∷ args) m
