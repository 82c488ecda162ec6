-- ===== src/MemDb/Hashes/RoundTrip.antt =====
-- HSET, and then HGET.
use redis_go.Prelude.{
  ◌≡◌, ◌≢◌, refl, ap, ◌∙◌, false, Option, none, some, List, [], ◌∷◌, Bytes, codes, bytes_equal_refl,
  arith,
}
use redis_go.Prelude.Int.{ℤ}
use redis_go.GoMap
use redis_go.Resp.Structure.{string_data}
use redis_go.HashStruct.{Hash, new_hash, get_field, or_nil}
use redis_go.MemDb.Expiry.{ttl_at, is_due}
use redis_go.MemDb.Strings.{pairs}
use redis_go.MemDb.Objects.{Found, absent, wrong, at, checked}
use redis_go.MemDb.Hashes.{HashDb, found, answer}
use redis_go.MemDb.Hashes.Reads.{bulk_or_nil, h_get_hash}
use redis_go.MemDb.Hashes.Reads.Laws.{h_get_hash_lem}
use redis_go.MemDb.Hashes.Writes.{set_fields, h_set_hash}
use redis_go.MemDb.Hashes.Writes.SetFields.{
  last_field, set_fields_lem, field_in, field_of, h_set_hash-set_fields,
}
use redis_go.MemDb.Hashes.Laws.{IsWell, hash_of, hash_found, or_new}

hash_found-some : (m : HashDb) (o : Found) (h : Hash) → hash_found m o ≡ some h → o ≢ wrong
hash_found-some m absent h e = ground arith
hash_found-some m wrong h e = ground arith
hash_found-some m (at a) h e = λ w. ground arith

get_field-set_fields :
    (ps : List (Bytes × Bytes)) (o : Option Hash) (f : Bytes)
    → get_field (set_fields ps (or_new o)) f ≡ or_nil (last_field ps f (field_in o f))
unfolding get_field new_hash GoMap.get
get_field-set_fields ps none f = ap or_nil (set_fields_lem ps new_hash f)
get_field-set_fields ps (some h) f = ap or_nil (set_fields_lem ps h f)

-- HSET, with a value behind each field, and then HGET, on a well-formed database at a key that is
-- expired at neither time and holds a hash or nothing: HGET replies the last value that HSET gave the
-- field, the old one if it gave none, and nil if that is empty or the field was not there.
pub h_set-h_get :
    (now later : ℤ) (key field value : Bytes) (more : List Bytes) (ps : List (Bytes × Bytes))
    (f : Bytes) (m : HashDb)
    → IsWell m
    → is_due now (ttl_at m.mem key) ≡ false
    → is_due later (ttl_at m.mem key) ≡ false
    → found m.mem key ≢ wrong
    → pairs more ≡ some ps
    → (m' : HashDb) × (h_set_hash now (codes "HSET" ∷ key ∷ field ∷ value ∷ more) m
        ≡ answer m' (string_data (codes "OK")))
      × (m'' : HashDb) × (h_get_hash later (codes "HGET" ∷ key ∷ f ∷ []) m'
          ≡ answer m''
              (bulk_or_nil (or_nil (last_field ((field, value) ∷ ps) f (field_of m key f)))))
h_set-h_get now later key field value more ps f m well due due' n e =
    let (m', r, well', hs, t) =
      h_set_hash-set_fields now key field value more ps m key well due n e in
    let h : hash_of m' key ≡ some (set_fields ((field, value) ∷ ps) (or_new (hash_of m key))) =
      hs ∙ rw (bytes_equal_refl key) refl in
    let due2 : is_due later (ttl_at m'.mem key) ≡ false = ap (is_due later) t ∙ due' in
    let got =
      h_get_hash_lem later key f m' well' due2 (hash_found-some m' (found m'.mem key) _ h) in
    let read = get_field-set_fields ((field, value) ∷ ps) (hash_of m key) f in
    (
      m',
      r,
      checked later key m',
      got
          ∙ ap (answer (checked later key m'))
              (ap (λ o. bulk_or_nil (get_field (or_new o) f)) h ∙ ap bulk_or_nil read),
    )
