-- ===== src/Tests/Database.antt =====
-- Keys that expire, DEL, RENAME and PERSIST.
use redis_go.Prelude.{◌≡◌, true, false, not, ◌&&◌, none, some, [], ◌∷◌, codes, if◌then◌else◌}
use redis_go.Prelude.Int.{pos}
use redis_go.GoMap.{is_some}
use redis_go.MemDb.{MemDb, check_ttl, set_ttl}
use redis_go.MemDb.Reply.{reply_int}
use redis_go.MemDb.Expiry.{IsSound, value_of, ttl_at, is_due, check_ttl_lem, set_ttl_lem}
use redis_go.MemDb.Keys.{del_key}
use redis_go.MemDb.Keys.Laws.{present_keys, del_key_lem}
use redis_go.Tests.Data.{key_a, key_b, a_db, a_db-IsSound, a_db-not_due, due_db, due_db-IsSound}

check_ttl_lem_example :
    let due = is_due (pos 9) (ttl_at due_db key_a) in
    let m' = (check_ttl (pos 9) key_a due_db).0 in
    IsSound m'
    × ((check_ttl (pos 9) key_a due_db).1 ≡ not due)
    × (value_of m' key_b ≡ (if due && false then none else value_of due_db key_b))
    × (ttl_at m' key_b ≡ (if due && false then none else ttl_at due_db key_b))
check_ttl_lem_example = check_ttl_lem (pos 9) key_a due_db key_b due_db-IsSound

set_ttl_lem_example :
    let there = is_some (value_of a_db key_a) in
    let m' = (set_ttl key_a (pos 8) a_db).0 in
    IsSound m'
    × ((set_ttl key_a (pos 8) a_db).1 ≡ (if there then 1 else 0))
    × (value_of m' key_a ≡ value_of a_db key_a)
    × (ttl_at m' key_a ≡ (if there && true then some (pos 8) else ttl_at a_db key_a))
set_ttl_lem_example = set_ttl_lem key_a (pos 8) a_db key_a a_db-IsSound

del_key_lem_example :
    (m' : MemDb) × (del_key (pos 5) (codes "DEL" ∷ key_a ∷ key_b ∷ []) a_db
      ≡ reply_int m' (present_keys (key_a ∷ key_b ∷ []) (λ i. is_some (value_of a_db i))))
    × IsSound m'
    × (value_of m' key_b ≡ none)
    × (ttl_at m' key_b ≡ none)
del_key_lem_example = del_key_lem (pos 5) key_a (key_b ∷ []) a_db key_b a_db-IsSound a_db-not_due
