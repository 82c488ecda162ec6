-- ===== src/MemDb/Hashes/Reads/Laws.antt =====
-- What HGET reads.
use redis_go.Prelude.{
  ◌≡◌, ◌≢◌, refl, sym, ap, ◌∙◌, false, Option, none, some, [], ◌∷◌, Bytes, codes,
}
use redis_go.Prelude.Int.{ℤ}
use redis_go.Resp.Structure.{RedisData, bulk_data}
use redis_go.GoMap
use redis_go.HashStruct.{Hash, new_hash, get_field}
use redis_go.MemDb.Expiry.{ttl_at, is_due, check_ttl_lem}
use redis_go.MemDb.Objects.{Found, absent, wrong, at, checked}
use redis_go.MemDb.Hashes.{HashDb, found, answer}
use redis_go.MemDb.Hashes.Reads.{read_hash, read_found, bulk_or_nil, h_get_hash}
use redis_go.MemDb.Hashes.Laws.{IsWell, hash_of, hash_found, or_new, found-checked, hash_of-checked}
use redis_go.MemDb.Hashes.Writes.{}

read_found_lem :
    (missing : RedisData) (f : Hash → RedisData) (m : HashDb) (o : Found)
    → o ≢ wrong
    → read_found missing f m o ≡ answer m (elim (hash_found m o) [ none ↦ missing | some h ↦ f h ])
unfolding read_found
read_found_lem missing f m absent n = refl
read_found_lem missing f m wrong n = absurd (n refl)
read_found_lem missing f m (at a) n = refl

or_new_reply :
    (o : Option Hash) (field : Bytes)
    → (elim o [ none ↦ bulk_data none | some h ↦ bulk_or_nil (get_field h field) ])
      ≡ bulk_or_nil (get_field (or_new o) field)
unfolding get_field new_hash GoMap.get
or_new_reply none field = refl
or_new_reply (some h) field = refl

-- HGET, on a well-formed database, of a key that is not expired and holds a hash or nothing replies the
-- field's bytes, or nil where the field is not there or is empty.
pub h_get_hash_lem :
    (now : ℤ) (key field : Bytes) (m : HashDb)
    → IsWell m
    → is_due now (ttl_at m.mem key) ≡ false
    → found m.mem key ≢ wrong
    → h_get_hash now (codes "HGET" ∷ key ∷ field ∷ []) m
      ≡ answer (checked now key m) (bulk_or_nil (get_field (or_new (hash_of m key)) field))
unfolding h_get_hash read_hash
h_get_hash_lem now key field m well due n =
    let (s, alive, v, t) = check_ttl_lem now key m.mem key well.sound in
    let same = found-checked now key key m well.sound due in
    rw (alive, due)
      (read_found_lem (bulk_data none) (λ h. bulk_or_nil (get_field h field)) (checked now key m)
          (found (checked now key m).mem key) (λ w. n (sym same ∙ w))
        ∙ ap (answer (checked now key m)) (
            or_new_reply (hash_of (checked now key m) key) field
            ∙ ap (λ o. bulk_or_nil (get_field (or_new o) field))
                (hash_of-checked now key key m well.sound due)))
