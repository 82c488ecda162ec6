-- ===== src/MemDb/Keys/Expire.antt =====
-- EXPIRE, and then TTL.
use redis_go.Prelude.{
  ℕ, ◌+◌, ◌-◌, ◌<◌, ◌≡◌, refl, ap, ◌∙◌, true, false, some, [], ◌∷◌, Bytes, codes, bytes_equal,
  bytes_equal_refl, if◌then◌else◌, arith,
}
use redis_go.Prelude.Int.{ℤ, pos, add64, neg64, half_range, wrap, ◌+ℤ◌}
use redis_go.Strconv.{atoi}
use redis_go.GoMap.{is_some}
use redis_go.Resp.Structure.{int_data}
use redis_go.MemDb.{MemDb, check_ttl, set_ttl}
use redis_go.MemDb.Reply.{reply, reply_int}
use redis_go.MemDb.Expiry.{IsSound, value_of, ttl_at, is_due, check_ttl_lem, set_ttl_lem}
use redis_go.MemDb.Keys.{set_ttl_if, expire_option, expire_seconds, expire_key}
use redis_go.MemDb.KeyInfo.{ttl_key}
use redis_go.MemDb.KeyInfo.Laws.{ttl_key_lem}

add64-pos : (a c : ℕ) → a + c < half_range → add64 (pos a) (pos c) ≡ pos (a + c)
unfolding add64 wrap ◌+ℤ◌
add64-pos a c h = ground arith

sub64-pos : (t b : ℕ) → b < t → t < half_range → add64 (pos t) (neg64 (pos b)) ≡ pos (t - b)
unfolding add64 neg64 wrap ◌+ℤ◌
sub64-pos t b h k = ground arith

-- EXPIRE with no option, on a sound database, which stays sound, at a key that is there and not expired,
-- with a number of seconds that reaches a second of 64 bits: the reply is 1, the key expires at that many
-- seconds from now, no other time to expire and no value changes. TTL answers at each later second
-- how many seconds are left, until the time has come.
pub expire-ttl :
    (now later seconds : ℕ) (key text j : Bytes) (m : MemDb)
    → IsSound m
    → is_due (pos now) (ttl_at m key) ≡ false
    → is_some (value_of m key) ≡ true
    → atoi text ≡ some (pos seconds)
    → now + seconds < half_range
    → later < now + seconds
    → (m' : MemDb) × (expire_key (pos now) (codes "EXPIRE" ∷ key ∷ text ∷ []) m ≡ reply_int m' 1)
      × IsSound m'
      × (value_of m' j ≡ value_of m j)
      × (ttl_at m' j ≡ (if bytes_equal key j then some (pos (now + seconds)) else ttl_at m j))
      × (m'' : MemDb) × (ttl_key (pos later) (codes "TTL" ∷ key ∷ []) m'
          ≡ reply m'' (int_data (pos (now + seconds - later))))
unfolding expire_key expire_seconds expire_option set_ttl_if
expire-ttl now later seconds key text j m h due there e lt before =
    let m1 = (check_ttl (pos now) key m).0 in
    let t : ℤ = pos (now + seconds) in
    let m2 = (set_ttl key t m1).0 in
    let (s1, alive, v1, t1) = check_ttl_lem (pos now) key m j h in
    let (s1', alive', v1', t1') = check_ttl_lem (pos now) key m key h in
    let (s2, n2, v2, t2) = set_ttl_lem key t m1 j s1 in
    let (s2', n2', v2', t2') = set_ttl_lem key t m1 key s1 in
    let there1 : is_some (value_of m1 key) ≡ true = ground (arith, v1', due, there) in
    let ttl2 : ttl_at m2 key ≡ some t = t2' ∙ rw (there1, bytes_equal_refl key) refl in
    (
      m2,
      rw (e, alive, due, add64-pos now seconds lt, n2, there1) refl,
      s2,
      ground (arith, v2, v1, due),
      ground (arith, t2, t1, due, there1),
      (check_ttl (pos later) key m2).0,
      ttl_key_lem (pos later) t key m2 s2 ttl2 (ground arith) (ground (arith, v2', there1))
          ∙ ap (λ z. reply (check_ttl (pos later) key m2).0 (int_data z))
              (sub64-pos (now + seconds) later before lt),
    )
