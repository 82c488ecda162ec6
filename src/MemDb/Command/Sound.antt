-- ===== src/MemDb/Command/Sound.antt =====
-- Every command keeps the invariant of the database.
use redis_go.Prelude.{inl, inr, Bool-cases, All, List, [], ◌∷◌, Bytes, to_lower, bytes_equal}
use redis_go.Prelude.Int.{ℤ}
use redis_go.MemDb.{MemDb}
use redis_go.MemDb.Expiry.{IsSound}
use redis_go.MemDb.Sound.{Keeps}
use redis_go.MemDb.Keys.Sound.{del_key-Keeps, exists_key-Keeps, keys_key-Keeps, expire_key-Keeps}
use redis_go.MemDb.KeyInfo.Sound.{
  ping_keys-Keeps, persist_key-Keeps, ttl_key-Keeps, type_key-Keeps, rename_key-Keeps,
}
use redis_go.MemDb.Strings.Sound.{
  get_string-Keeps, set_range_string-Keeps, m_get_string-Keeps, m_set_string-Keeps,
  set_ex_string-Keeps, set_nx_string-Keeps, str_len_string-Keeps, append_string-Keeps,
}
use redis_go.MemDb.Counters.Sound.{
  incr_string-Keeps, decr_string-Keeps, incr_by_string-Keeps, decr_by_string-Keeps,
}
use redis_go.MemDb.SetString.Sound.{set_string-Keeps}
use redis_go.GoMap
use redis_go.GoMap.{put}
use redis_go.MemDb.Command.{
  Executor, CmdTable, register_command, register_all, key_commands, string_commands, cmd_table,
  exec_found, exec_command,
}

-- an executor that keeps the invariant, whatever the command is
abbrev IsKeeper : Bytes × Executor → Type 0
IsKeeper (name, f) = (m : MemDb) → IsSound m → (now : ℤ) (cmd : List Bytes) → Keeps (f now cmd m)

key_commands-IsKeeper : All IsKeeper key_commands
key_commands-IsKeeper = (
  λ m h now. ping_keys-Keeps m h,
  (
    del_key-Keeps,
    (
      exists_key-Keeps,
      (
        keys_key-Keeps,
        (
          expire_key-Keeps,
          (persist_key-Keeps, (ttl_key-Keeps, (type_key-Keeps, (rename_key-Keeps, tt)))),
        ),
      ),
    ),
  ),
)

string_commands-IsKeeper : All IsKeeper string_commands
string_commands-IsKeeper = (
  set_string-Keeps,
  (
    λ m h now. get_string-Keeps m h,
    (
      λ m h now. set_range_string-Keeps m h,
      (
        λ m h now. m_get_string-Keeps m h,
        (
          λ m h now. m_set_string-Keeps m h,
          (
            set_ex_string-Keeps,
            (
              λ m h now. set_nx_string-Keeps m h,
              (
                λ m h now. str_len_string-Keeps m h,
                (
                  λ m h now. incr_string-Keeps m h,
                  (
                    λ m h now. incr_by_string-Keeps m h,
                    (
                      λ m h now. decr_string-Keeps m h,
                      (
                        λ m h now. decr_by_string-Keeps m h,
                        (λ m h now. append_string-Keeps m h, tt),
                      ),
                    ),
                  ),
                ),
              ),
            ),
          ),
        ),
      ),
    ),
  ),
)

put-IsKeeper :
    (name : Bytes) (f : Executor) (t : CmdTable)
    → IsKeeper (name, f)
    → All IsKeeper t
    → All IsKeeper (put name f t)
unfolding put
put-IsKeeper name f [] k all = (k, tt)
put-IsKeeper name f ((n, g) ∷ t) k (l, all) = elim (Bool-cases (bytes_equal n name)) [
  | inl same ↦ rw same (k, all)
  | inr other ↦ rw other (l, put-IsKeeper name f t k all)
]

register_all-IsKeeper :
    (cs : List (Bytes × Executor)) (t : CmdTable)
    → All IsKeeper cs
    → All IsKeeper t
    → All IsKeeper (register_all cs t)
unfolding register_all register_command
register_all-IsKeeper [] t ks all = all
register_all-IsKeeper ((n, f) ∷ cs) t (k, ks) all =
    register_all-IsKeeper cs (put n f t) ks (put-IsKeeper n f t k all)

get-Keeps :
    (t : CmdTable) (name : Bytes)
    → All IsKeeper t
    → (m : MemDb) → IsSound m
    → (now : ℤ) (cmd : List Bytes) → Keeps (exec_found (GoMap.get name t) name now cmd m)
unfolding GoMap.get exec_found
get-Keeps [] name all m h now cmd = h
get-Keeps ((n, f) ∷ t) name (k, all) m h now cmd = elim (Bool-cases (bytes_equal n name)) [
  | inl same ↦ rw same (k m h now cmd)
  | inr other ↦ rw other (get-Keeps t name all m h now cmd)
]

-- With the modelled commands and any others that keep the invariant, a command keeps it, whatever bytes
-- it is: its reply comes with a sound database, or it panics; no loop of it runs out of fuel.
pub exec_command-Keeps :
    (others : CmdTable) (now : ℤ) (cmd : List Bytes) (m : MemDb)
    → All IsKeeper others
    → IsSound m
    → Keeps (exec_command (cmd_table others) now cmd m)
unfolding exec_command
exec_command-Keeps others now [] m all h = h
exec_command-Keeps others now (c ∷ args) m all h =
    get-Keeps (cmd_table others) (to_lower c)
      (register_all-IsKeeper string_commands (register_all key_commands others)
        string_commands-IsKeeper
        (register_all-IsKeeper key_commands others key_commands-IsKeeper all))
      m h now (c ∷ args)
