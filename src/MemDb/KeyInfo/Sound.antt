-- ===== src/MemDb/KeyInfo/Sound.antt =====
-- PERSIST, TTL, TYPE, RENAME and PING keep the invariant of the database.
use redis_go.Prelude.{arith, Bool, true, false, Option, none, some, List, [], ◌∷◌, Bytes}
use redis_go.Prelude.Int.{ℤ}
use redis_go.ConcurrentMap.{lookup}
use redis_go.MemDb.{Value, TtlInfo, MemDb, check_ttl}
use redis_go.MemDb.Expiry.{IsSound}
use redis_go.MemDb.Sound.{Keeps, check_ttl-IsSound, del_ttl-IsSound}
use redis_go.MemDb.KeyInfo.{
  persist_alive, persist_key, ttl_of, ttl_alive, ttl_key, type_alive, type_key, rename_value,
  rename_alive, rename_key, ping_keys,
}
use redis_go.MemDb.KeyInfo.Laws.{move_key_lem}

persist_alive-Keeps : (key : Bytes) (r : MemDb × Bool) → IsSound r.0 → Keeps (persist_alive key r)
unfolding persist_alive
persist_alive-Keeps key (m, false) h = h
persist_alive-Keeps key (m, true) h = del_ttl-IsSound m key h

ttl_of-Keeps :
    (now : ℤ) (m : MemDb) (v : Option Value) (t : Option TtlInfo)
    → IsSound m
    → Keeps (ttl_of now m v t)
unfolding ttl_of
ttl_of-Keeps now m none t h = h
ttl_of-Keeps now m (some v) none h = h
ttl_of-Keeps now m (some v) (some t) h = h

ttl_alive-Keeps :
    (now : ℤ) (key : Bytes) (r : MemDb × Bool) → IsSound r.0 → Keeps (ttl_alive now key r)
unfolding ttl_alive
ttl_alive-Keeps now key (m, false) h = h
ttl_alive-Keeps now key (m, true) h = ttl_of-Keeps now m (lookup m.db key) (lookup m.ttl_keys key) h

type_alive-Keeps : (key : Bytes) (r : MemDb × Bool) → IsSound r.0 → Keeps (type_alive key r)
unfolding type_alive
type_alive-Keeps key (m, false) h = h
type_alive-Keeps key (m, true) h = h

rename_value-Keeps :
    (old new : Bytes) (m : MemDb) (v : Option Value) → IsSound m → Keeps (rename_value old new m v)
unfolding rename_value
rename_value-Keeps old new m none h = h
rename_value-Keeps old new m (some v) h = (move_key_lem old new v m [] h).0

rename_alive-Keeps :
    (old new : Bytes) (r : MemDb × Bool) → IsSound r.0 → Keeps (rename_alive old new r)
unfolding rename_alive
rename_alive-Keeps old new (m, false) h = h
rename_alive-Keeps old new (m, true) h = rename_value-Keeps old new m (lookup m.db old) h

module _ (m : MemDb) (h : IsSound m) where
  pub ping_keys-Keeps : (cmd : List Bytes) → Keeps (ping_keys cmd m)
  unfolding ping_keys
  ping_keys-Keeps [] = tt
  ping_keys-Keeps (c ∷ []) = h
  ping_keys-Keeps (c ∷ text ∷ []) = h
  ping_keys-Keeps (c ∷ text ∷ a ∷ args) = h

  pub persist_key-Keeps : (now : ℤ) (cmd : List Bytes) → Keeps (persist_key now cmd m)
  unfolding persist_key
  persist_key-Keeps now [] = tt
  persist_key-Keeps now (c ∷ []) = h
  persist_key-Keeps now (c ∷ key ∷ []) =
      ground (arith, persist_alive-Keeps key (check_ttl now key m) (check_ttl-IsSound m key h now))
  persist_key-Keeps now (c ∷ key ∷ a ∷ args) = h

  pub ttl_key-Keeps : (now : ℤ) (cmd : List Bytes) → Keeps (ttl_key now cmd m)
  unfolding ttl_key
  ttl_key-Keeps now [] = tt
  ttl_key-Keeps now (c ∷ []) = h
  ttl_key-Keeps now (c ∷ key ∷ []) =
      ground (arith, ttl_alive-Keeps now key (check_ttl now key m) (check_ttl-IsSound m key h now))
  ttl_key-Keeps now (c ∷ key ∷ a ∷ args) = h

  pub type_key-Keeps : (now : ℤ) (cmd : List Bytes) → Keeps (type_key now cmd m)
  unfolding type_key
  type_key-Keeps now [] = tt
  type_key-Keeps now (c ∷ []) = h
  type_key-Keeps now (c ∷ key ∷ []) =
      ground (arith, type_alive-Keeps key (check_ttl now key m) (check_ttl-IsSound m key h now))
  type_key-Keeps now (c ∷ key ∷ a ∷ args) = h

  pub rename_key-Keeps : (now : ℤ) (cmd : List Bytes) → Keeps (rename_key now cmd m)
  unfolding rename_key
  rename_key-Keeps now [] = tt
  rename_key-Keeps now (c ∷ []) = h
  rename_key-Keeps now (c ∷ old ∷ []) = h
  rename_key-Keeps now (c ∷ old ∷ new ∷ []) =
      ground
        (arith, rename_alive-Keeps old new (check_ttl now old m) (check_ttl-IsSound m old h now))
  rename_key-Keeps now (c ∷ old ∷ new ∷ a ∷ args) = h
