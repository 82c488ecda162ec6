-- ===== src/MemDb/Hashes/Writes/SetFields.antt =====
-- What HSET leaves at every key.
use redis_go.Prelude.{
  ℕ, ◌≡◌, ◌≢◌, refl, sym, ap, ◌∙◌, false, Option, none, some, List, [], ◌∷◌, Bytes, codes,
  bytes_equal, if◌then◌else◌, arith,
}
use redis_go.Prelude.Int.{ℤ}
use redis_go.GoMap
use redis_go.GoMap.Laws.{get-put}
use redis_go.Resp.Structure.{string_data}
use redis_go.HashStruct.{Hash, new_hash, set_field}
use redis_go.MemDb.Expiry.{ttl_at, is_due}
use redis_go.MemDb.Strings.{pairs}
use redis_go.MemDb.Objects.{wrong, checked}
use redis_go.MemDb.Hashes.{HashDb, HashReply, found, hash_at, write_hash, open_hash, answer}
use redis_go.MemDb.Hashes.Writes.{set_fields, h_set_pairs, h_set_hash, on_hash}
use redis_go.MemDb.Hashes.Laws.{
  IsWell, hash_of, or_new, found-checked, hash_of-checked, ttl-checked, checked-IsWell,
  open_hash_lem, write_hash-IsWell, write_hash_lem,
}

-- the last value that the pairs give a field
abbrev pub last_field : List (Bytes × Bytes) → Bytes → Option Bytes → Option Bytes
last_field [] f old = old
last_field ((g, v) ∷ ps) f old = last_field ps f (if bytes_equal g f then some v else old)

pub set_fields_lem :
    (ps : List (Bytes × Bytes)) (h : Hash) (f : Bytes)
    → GoMap.get f (set_fields ps h).table ≡ last_field ps f (GoMap.get f h.table)
unfolding set_field
set_fields_lem [] h f = refl
set_fields_lem ((g, v) ∷ ps) h f =
    set_fields_lem ps (set_field h g v) f ∙ ap (last_field ps f) (get-put g f v h.table)

pub on_hash_lem :
    (key : Bytes) (m : HashDb) (a : ℕ) (f : HashDb → ℕ → HashReply)
    → (open_hash key m).1 ≡ some a
    → on_hash key m f ≡ f (open_hash key m).0 a
on_hash_lem key m a f o = rw (o, on_hash) refl

-- the same, in terms of the loop
pub h_set_hash-set_fields :
    (now : ℤ) (key field value : Bytes) (more : List Bytes) (ps : List (Bytes × Bytes)) (m : HashDb)
    (j : Bytes)
    → IsWell m
    → is_due now (ttl_at m.mem key) ≡ false
    → found m.mem key ≢ wrong
    → pairs more ≡ some ps
    → (m' : HashDb) × (h_set_hash now (codes "HSET" ∷ key ∷ field ∷ value ∷ more) m
        ≡ answer m' (string_data (codes "OK")))
      × IsWell m'
      × (hash_of m' j ≡ (
          if bytes_equal key j
          then some (set_fields ((field, value) ∷ ps) (or_new (hash_of m key)))
          else hash_of m j))
      × (ttl_at m'.mem j ≡ ttl_at m.mem j)
unfolding h_set_hash h_set_pairs
h_set_hash-set_fields now key field value more ps m j well due n e =
    let m1 : HashDb = checked now key m in
    let well1 = checked-IsWell now key m well due in
    let same = found-checked now key key m well.sound due in
    let same_key : hash_of m1 key ≡ hash_of m key = hash_of-checked now key key m well.sound due in
    let same_j : hash_of m1 j ≡ hash_of m j = hash_of-checked now key j m well.sound due in
    let (a, o, well2, f, h, hs, t) = open_hash_lem key j m1 well1 (λ w. n (sym same ∙ w)) in
    let m2 : HashDb = (open_hash key m1).0 in
    let h' : Hash = set_fields ((field, value) ∷ ps) (hash_at m2 a) in
    (
      write_hash m2 a h',
      rw e (
          on_hash_lem key m1 a
            (λ x b.
              answer (write_hash x b (set_fields ((field, value) ∷ ps) (hash_at x b)))
                (string_data (codes "OK")))
            o),
      write_hash-IsWell a h' m2 well2,
      ground (arith, write_hash_lem key j a h' m2 well2 f, h, hs, same_key, same_j),
      t ∙ ttl-checked now key j m well.sound due,
    )

-- what a hash that may not be there has in a field
abbrev pub field_in : Option Hash → Bytes → Option Bytes
field_in none f = none
field_in (some h) f = GoMap.get f h.table

-- what a key's hash has in a field
abbrev pub field_of : HashDb → Bytes → Bytes → Option Bytes
field_of m key f = field_in (hash_of m key) f

field_in-or_new : (o : Option Hash) (f : Bytes) → GoMap.get f (or_new o).table ≡ field_in o f
unfolding new_hash GoMap.get
field_in-or_new none f = refl
field_in-or_new (some h) f = refl

-- HSET, with a value behind each field, on a well-formed database, which stays so, at a key that is not
-- expired and holds a hash or nothing: in the key's hash each field has the last value that the command
-- gives it, or what it had before, if anything; the hash of every other key stays as it was, so no two
-- keys share a hash; no time to expire changes; and the reply is OK.
pub h_set_hash_lem :
    (now : ℤ) (key field value : Bytes) (more : List Bytes) (ps : List (Bytes × Bytes)) (m : HashDb)
    (j : Bytes)
    → IsWell m
    → is_due now (ttl_at m.mem key) ≡ false
    → found m.mem key ≢ wrong
    → pairs more ≡ some ps
    → (m' : HashDb) × (h : Hash) × (h_set_hash now (codes "HSET" ∷ key ∷ field ∷ value ∷ more) m
        ≡ answer m' (string_data (codes "OK")))
      × IsWell m'
      × (hash_of m' j ≡ (if bytes_equal key j then some h else hash_of m j))
      × ((f : Bytes) → GoMap.get f h.table ≡ last_field ((field, value) ∷ ps) f (field_of m key f))
      × (ttl_at m'.mem j ≡ ttl_at m.mem j)
h_set_hash_lem now key field value more ps m j well due n e =
    let (m', reply, well', hashes, ttl) =
      h_set_hash-set_fields now key field value more ps m j well due n e in
    (
      m',
      set_fields ((field, value) ∷ ps) (or_new (hash_of m key)),
      reply,
      well',
      hashes,
      λ f.
          set_fields_lem ((field, value) ∷ ps) (or_new (hash_of m key)) f
          ∙ ap (last_field ((field, value) ∷ ps) f) (field_in-or_new (hash_of m key) f),
      ttl,
    )
