-- ===== src/MemDb/Hashes/Writes/Increment.antt =====
-- What HINCRBY leaves at every key.
use redis_go.Prelude.{
  ℕ, ◌≡◌, ◌≢◌, refl, sym, ap, ◌∙◌, false, some, [], ◌∷◌, Bytes, codes, bytes_equal, if◌then◌else◌,
  arith,
}
use redis_go.Prelude.Int.{ℤ, IsInt64, add64}
use redis_go.Strconv.{itoa, atoi}
use redis_go.Resp.Structure.{int_data}
use redis_go.HashStruct.{Hash, set_field, get_field}
use redis_go.HashStruct.Increment.{Prints, incr_by_lem}
use redis_go.MemDb.Expiry.{ttl_at, is_due}
use redis_go.MemDb.Objects.{wrong, checked}
use redis_go.MemDb.Hashes.{HashDb, found, hash_at, write_hash, open_hash, answer}
use redis_go.MemDb.Hashes.Writes.{incr_reply, incr_at, incr_parsed, h_incr_by_hash}
use redis_go.MemDb.Hashes.Writes.SetFields.{on_hash_lem}
use redis_go.MemDb.Hashes.Laws.{
  IsWell, hash_of, or_new, found-checked, hash_of-checked, checked-IsWell, open_hash_lem,
  write_hash-IsWell, write_hash_lem,
}

incr_at_lem :
    (field : Bytes) (incr n : ℤ) (m : HashDb) (a : ℕ)
    → IsInt64 incr
    → Prints (get_field (hash_at m a) field) n
    → incr_at field incr m a
      ≡ answer
          (write_hash m a (set_field (hash_at m a) field (itoa (add64 n incr))))
          (int_data (add64 n incr))
unfolding incr_at incr_reply
incr_at_lem field incr n m a k p = rw (incr_by_lem (hash_at m a) field incr n k p) refl

-- HINCRBY, on a well-formed database, which stays so, at a key that is not expired and holds a hash or
-- nothing, where the field prints an integer or is empty or not there, which counts as 0: the reply is
-- the sum, as a 64-bit integer that wraps around, the field prints it, and no other field and no other
-- key's hash changes.
pub h_incr_by_hash_lem :
    (now : ℤ) (key field text : Bytes) (incr n : ℤ) (m : HashDb) (j : Bytes)
    → IsWell m
    → is_due now (ttl_at m.mem key) ≡ false
    → found m.mem key ≢ wrong
    → atoi text ≡ some incr
    → IsInt64 incr
    → Prints (get_field (or_new (hash_of m key)) field) n
    → let sum = add64 n incr in
      (m' : HashDb) × (h_incr_by_hash now (codes "HINCRBY" ∷ key ∷ field ∷ text ∷ []) m
        ≡ answer m' (int_data sum))
      × IsWell m'
      × (hash_of m' j ≡ (
          if bytes_equal key j
          then some (set_field (or_new (hash_of m key)) field (itoa sum))
          else hash_of m j))
unfolding h_incr_by_hash incr_parsed
h_incr_by_hash_lem now key field text incr n m j well due right e k p =
    let m1 : HashDb = checked now key m in
    let well1 = checked-IsWell now key m well due in
    let same = found-checked now key key m well.sound due in
    let same_key : hash_of m1 key ≡ hash_of m key = hash_of-checked now key key m well.sound due in
    let same_j : hash_of m1 j ≡ hash_of m j = hash_of-checked now key j m well.sound due in
    let (a, o, well2, f, h, hs, t) = open_hash_lem key j m1 well1 (λ w. right (sym same ∙ w)) in
    let m2 : HashDb = (open_hash key m1).0 in
    let old : hash_at m2 a ≡ or_new (hash_of m key) = h ∙ ap or_new same_key in
    let h' : Hash = set_field (hash_at m2 a) field (itoa (add64 n incr)) in
    (
      write_hash m2 a h',
      rw e (on_hash_lem key m1 a (incr_at field incr) o)
          ∙ incr_at_lem field incr n m2 a k (rw old p),
      write_hash-IsWell a h' m2 well2,
      ground (arith, write_hash_lem key j a h' m2 well2 f, old, hs, same_key, same_j),
    )
