-- ===== src/MemDb/Command/Dispatch.antt =====
-- Which executor a command comes to.
use redis_go.Prelude.{
  ◌≡◌, Option, none, some, List, [], ◌∷◌, ◌++◌, Bytes, codes, to_lower, bytes_equal, if◌then◌else◌,
}
use redis_go.Prelude.Int.{ℤ}
use redis_go.GoMap
use redis_go.MemDb.{MemDb}
use redis_go.MemDb.Reply.{Reply, reply_error}
use redis_go.MemDb.Command.{Executor}

-- the last executor that the calls register under the name
abbrev pub last_executor : List (Bytes × Executor) → Bytes → Option Executor → Option Executor
last_executor [] name old = old
last_executor ((n, f) ∷ cs) name old =
    last_executor cs name (if bytes_equal n name then some f else old)

-- what is replied for a command, by its executor
abbrev pub Runs : Option Executor → ℤ → Bytes → List Bytes → MemDb → Reply → Type 0
Runs (some f) now c args m r = r ≡ f now (c ∷ args) m
Runs none now c args m r = r ≡ reply_error m (codes "ERR unknown command " ++ to_lower c)
