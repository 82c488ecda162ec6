-- ===== src/Tests/Hashing.antt =====
-- The commands on hashes.
use redis_go.Prelude.{◌≡◌, ◌≢◌, refl, ap, false, some, List, [], ◌∷◌, Bytes, codes, arith}
use redis_go.Prelude.Int.{pos}
use redis_go.Resp.Structure.{string_data}
use redis_go.GoMap
use redis_go.HashStruct.{Hash, or_nil}
use redis_go.MemDb.Expiry.{ttl_at, is_due, new_mem_db_lem}
use redis_go.MemDb.Strings.{pairs}
use redis_go.MemDb.Objects.{absent, wrong}
use redis_go.MemDb.Hashes.{HashDb, found, found_value, answer}
use redis_go.MemDb.Hashes.Reads.{bulk_or_nil, h_get_hash}
use redis_go.MemDb.Hashes.Writes.{h_set_hash}
use redis_go.MemDb.Hashes.Writes.SetFields.{last_field, field_of, h_set_hash_lem}
use redis_go.MemDb.Hashes.RoundTrip.{h_set-h_get}
use redis_go.MemDb.Hashes.Laws.{IsWell, hash_of}
use redis_go.Tests.Data.{key_a, empty_db, empty_db-IsSound}

-- a new database, with no hash
abbrev no_hash : HashDb
no_hash = record { mem = empty_db; objects = [] }

no_hash-absent : (k : Bytes) → found no_hash.mem k ≡ absent
no_hash-absent k = ap found_value (new_mem_db_lem (pos 4) k).0

no_hash-IsWell : IsWell no_hash
no_hash-IsWell = record {
  sound = empty_db-IsSound;
  inside = λ k a e. let n = no_hash-absent k in ground arith;
  apart = λ k j a e f. let n = no_hash-absent k in ground arith;
}

no_hash-not_due : is_due (pos 5) (ttl_at no_hash.mem key_a) ≡ false
no_hash-not_due = ap (is_due (pos 5)) (new_mem_db_lem (pos 4) key_a).1

no_hash-right : found no_hash.mem key_a ≢ wrong
no_hash-right e = let n = no_hash-absent key_a in ground arith

-- `g y` behind `f x`
abbrev more_fields : List Bytes
more_fields = codes "g" ∷ codes "y" ∷ []

abbrev two_fields : List (Bytes × Bytes)
two_fields = (codes "f", codes "x") ∷ (codes "g", codes "y") ∷ []

more_fields-pairs : pairs more_fields ≡ some ((codes "g", codes "y") ∷ [])
unfolding pairs
more_fields-pairs = refl

h_set_hash_lem_example :
    (m' : HashDb) × (h : Hash) × (h_set_hash
        (pos 5)
        (codes "HSET" ∷ key_a ∷ codes "f" ∷ codes "x" ∷ more_fields)
        no_hash
      ≡ answer m' (string_data (codes "OK")))
    × IsWell m'
    × (hash_of m' key_a ≡ some h)
    × ((f : Bytes) → GoMap.get f h.table ≡ last_field two_fields f (field_of no_hash key_a f))
    × (ttl_at m'.mem key_a ≡ ttl_at no_hash.mem key_a)
h_set_hash_lem_example =
    h_set_hash_lem (pos 5) key_a (codes "f") (codes "x") more_fields ((codes "g", codes "y") ∷ [])
      no_hash key_a no_hash-IsWell no_hash-not_due no_hash-right more_fields-pairs

h_set-h_get_example :
    (m' : HashDb) × (h_set_hash
        (pos 5)
        (codes "HSET" ∷ key_a ∷ codes "f" ∷ codes "x" ∷ more_fields)
        no_hash
      ≡ answer m' (string_data (codes "OK")))
    × (m'' : HashDb) × (h_get_hash (pos 5) (codes "HGET" ∷ key_a ∷ codes "g" ∷ []) m'
        ≡ answer m'' (
            bulk_or_nil
              (or_nil (last_field two_fields (codes "g") (field_of no_hash key_a (codes "g"))))))
h_set-h_get_example =
    h_set-h_get (pos 5) (pos 5) key_a (codes "f") (codes "x") more_fields
      ((codes "g", codes "y") ∷ []) (codes "g") no_hash no_hash-IsWell no_hash-not_due
      no_hash-not_due no_hash-right more_fields-pairs
