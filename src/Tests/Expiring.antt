-- ===== src/Tests/Expiring.antt =====
-- EXISTS, and EXPIRE with TTL.
use redis_go.Prelude.{◌≡◌, [], ◌∷◌, codes, arith}
use redis_go.Prelude.Int.{pos}
use redis_go.Strconv.{itoa}
use redis_go.Strconv.RoundTrip.{atoi-itoa}
use redis_go.Resp.Structure.{int_data}
use redis_go.MemDb.{MemDb}
use redis_go.MemDb.Reply.{reply, reply_int}
use redis_go.MemDb.Expiry.{IsSound, value_of, ttl_at}
use redis_go.MemDb.Keys.{expire_key}
use redis_go.MemDb.KeyInfo.{ttl_key}
use redis_go.MemDb.Keys.Expire.{expire-ttl}
use redis_go.Tests.Data.{key_a, key_b, a_db, a_db-IsSound, a_db-there, a_db-not_due}

expire-ttl_example :
    (m' : MemDb) × (expire_key (pos 5) (codes "EXPIRE" ∷ key_a ∷ itoa (pos 10) ∷ []) a_db
      ≡ reply_int m' 1)
    × IsSound m'
    × (value_of m' key_b ≡ value_of a_db key_b)
    × (ttl_at m' key_b ≡ ttl_at a_db key_b)
    × (m'' : MemDb) × (ttl_key (pos 7) (codes "TTL" ∷ key_a ∷ []) m' ≡ reply m'' (int_data (pos 8)))
expire-ttl_example =
    expire-ttl 5 7 10 key_a (itoa (pos 10)) key_b a_db a_db-IsSound a_db-not_due a_db-there
      (atoi-itoa (pos 10) (omega arith)) (omega arith) (omega arith)
