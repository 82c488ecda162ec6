-- ===== src/MemDb/Sound.antt =====
-- What it is for a command to keep the invariant of the database.
use redis_go.Prelude.{Bytes}
use redis_go.Prelude.Int.{ℤ}
use redis_go.Prelude.Outcome.{ok, panic, stuck}
use redis_go.ConcurrentMap.{set, set_if_not_exist, delete}
use redis_go.ConcurrentMap.Laws.{set_lem, set_if_not_exist_lem, delete_lem}
use redis_go.MemDb.{Value, MemDb, check_ttl, set_ttl, del_ttl}
use redis_go.MemDb.Reply.{Reply}
use redis_go.MemDb.Expiry.{IsSound, check_ttl_lem, set_ttl_lem, del_ttl_lem}

-- the reply comes with a sound database, or the call panics; it never runs out of fuel
abbrev pub Keeps : Reply → Type 0
Keeps (ok (m, r)) = IsSound m
Keeps panic = Unit
Keeps stuck = ⊥

module _ (m : MemDb) (key : Bytes) (h : IsSound m) where
  pub check_ttl-IsSound : (now : ℤ) → IsSound (check_ttl now key m).0
  check_ttl-IsSound now = (check_ttl_lem now key m key h).0

  pub set_ttl-IsSound : (t : ℤ) → IsSound (set_ttl key t m).0
  set_ttl-IsSound t = (set_ttl_lem key t m key h).0

  pub del_ttl-IsSound : IsSound (del_ttl key m).0
  del_ttl-IsSound = (del_ttl_lem key m key h).0

  pub set-IsSound : (v : Value) → IsSound (record m { db = (set m.db key v).0 })
  set-IsSound v = record { db = (set_lem m.db key h.db v key).0; ttl_keys = h.ttl_keys }

  pub set_if_not_exist-IsSound :
      (v : Value) → IsSound (record m { db = (set_if_not_exist m.db key v).0 })
  set_if_not_exist-IsSound v = record {
    db = (set_if_not_exist_lem m.db key h.db v key).0;
    ttl_keys = h.ttl_keys;
  }

  pub delete-IsSound :
      IsSound (record m { db = (delete m.db key).0; ttl_keys = (delete m.ttl_keys key).0 })
  delete-IsSound = record {
    db = (delete_lem m.db key h.db key).0;
    ttl_keys = (delete_lem m.ttl_keys key h.ttl_keys key).0;
  }
