-- ===== src/Tests/Data.antt =====
-- The keys, maps and databases of the tests.
use redis_go.Prelude.{◌≡◌, refl, ◌∙◌, true, false, none, some, [], Bytes, codes}
use redis_go.Prelude.Int.{pos}
use redis_go.Strconv.{itoa}
use redis_go.GoMap.{is_some}
use redis_go.ConcurrentMap.{ConcurrentMap, new_concurrent_map}
use redis_go.ConcurrentMap.Laws.{IsValid, new_concurrent_map_lem}
use redis_go.MemDb.{bytes_value, MemDb, new_mem_db, set_ttl}
use redis_go.MemDb.Expiry.{
  IsSound, value_of, ttl_at, is_due, new_mem_db-IsSound, new_mem_db_lem, set_ttl_lem,
}
use redis_go.MemDb.Strings.{Held, held, set_bytes}
use redis_go.MemDb.Strings.Laws.{set_bytes_lem, held-set_bytes}

abbrev pub key_a : Bytes
key_a = codes "a"

abbrev pub key_b : Bytes
key_b = codes "b"

abbrev pub map_4 : ConcurrentMap Bytes
map_4 = new_concurrent_map (pos 4)

pub map_4-IsValid : IsValid map_4
map_4-IsValid = (new_concurrent_map_lem (pos 4) []).0

-- a new database
abbrev pub empty_db : MemDb
empty_db = new_mem_db (pos 4)

pub empty_db-IsSound : IsSound empty_db
empty_db-IsSound = new_mem_db-IsSound (pos 4)

-- a database with the print of 7 at the key `a`
abbrev pub a_db : MemDb
a_db = set_bytes empty_db key_a (itoa (pos 7))

pub a_db-IsSound : IsSound a_db
a_db-IsSound = (set_bytes_lem empty_db key_a (itoa (pos 7)) key_a empty_db-IsSound).0

pub a_db-value : value_of a_db key_a ≡ some (bytes_value (itoa (pos 7)))
a_db-value = (set_bytes_lem empty_db key_a (itoa (pos 7)) key_a empty_db-IsSound).1

pub a_db-held : held a_db key_a ≡ Held.bytes (itoa (pos 7))
a_db-held = held-set_bytes empty_db key_a (itoa (pos 7)) empty_db-IsSound

pub a_db-there : is_some (value_of a_db key_a) ≡ true
a_db-there = rw a_db-value refl

pub a_db-ttl : ttl_at a_db key_a ≡ none
a_db-ttl = (new_mem_db_lem (pos 4) key_a).1

pub a_db-not_due : is_due (pos 5) (ttl_at a_db key_a) ≡ false
a_db-not_due = rw a_db-ttl refl

-- the same key, which expires at the second 9
abbrev pub due_db : MemDb
due_db = (set_ttl key_a (pos 9) a_db).0

pub due_db-IsSound : IsSound due_db
due_db-IsSound = (set_ttl_lem key_a (pos 9) a_db key_a a_db-IsSound).0

pub due_db-ttl : ttl_at due_db key_a ≡ some (pos 9)
due_db-ttl =
    let (a, b, c, d) = set_ttl_lem key_a (pos 9) a_db key_a a_db-IsSound in d ∙ rw a_db-there refl

pub due_db-due : is_due (pos 9) (ttl_at due_db key_a) ≡ true
due_db-due = rw due_db-ttl refl
