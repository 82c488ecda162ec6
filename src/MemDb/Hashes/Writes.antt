-- ===== src/MemDb/Hashes/Writes.antt =====
-- memdb/hash.go: HSET, HSETNX, HINCRBY and HDEL.
pub mod SetFields
pub mod Increment
use redis_go.Prelude.{
  ℕ, ◌+◌, Bool, true, false, Option, none, some, List, [], ◌∷◌, ◌++◌, Bytes, codes, if◌then◌else◌,
}
use redis_go.Prelude.Int.{ℤ, pos}
use redis_go.Prelude.Outcome.{panic}
use redis_go.Strconv.{atoi}
use redis_go.ConcurrentMap.{delete}
use redis_go.Resp.Structure.{string_data, int_data}
use redis_go.HashStruct.{Hash, set_field, exist, del_field, is_empty, incr_by}
use redis_go.MemDb.{MemDb, check_ttl, del_ttl}
use redis_go.MemDb.Reply.{named, wrong_type}
use redis_go.MemDb.Strings.{pairs}
use redis_go.MemDb.Objects.{Found, absent, wrong, at, checked}
use redis_go.MemDb.Hashes.{
  HashDb, found, hash_at, write_hash, open_hash, HashReply, answer, answer_int, answer_error,
  refuse,
}

-- behind the opening of the hash
abbrev pub on_hash : Bytes → HashDb → (HashDb → ℕ → HashReply) → HashReply
on_hash key m f = elim (open_hash key m).1 [
  | none ↦ answer_error (open_hash key m).0 wrong_type
  | some a ↦ f (open_hash key m).0 a
]

abbrev pub set_fields : List (Bytes × Bytes) → Hash → Hash
set_fields [] h = h
set_fields ((f, v) ∷ ps) h = set_fields ps (set_field h f v)

h_set_pairs : ℤ → Bytes → Option (List (Bytes × Bytes)) → HashDb → HashReply
h_set_pairs now key none m = refuse (codes "hset") (codes "hset") m
h_set_pairs now key (some ps) m =
    on_hash key (checked now key m)
      (λ m' a. answer (write_hash m' a (set_fields ps (hash_at m' a))) (string_data (codes "OK")))

pub h_set_hash : ℤ → List Bytes → HashDb → HashReply
unfolding h_set_pairs refuse pairs
h_set_hash now [] m = panic
h_set_hash now (c ∷ key ∷ field ∷ value ∷ more) m =
    if named c (codes "hset")
    then h_set_pairs now key (pairs (field ∷ value ∷ more)) m
    else refuse c (codes "hset") m
h_set_hash now (c ∷ args) m = refuse c (codes "hset") m

set_nx_at : Bytes → Bytes → HashDb → ℕ → HashReply
set_nx_at field value m a =
    if exist (hash_at m a) field
    then answer_int m 0
    else answer_int (write_hash m a (set_field (hash_at m a) field value)) 1

pub h_set_nx_hash : ℤ → List Bytes → HashDb → HashReply
unfolding set_nx_at refuse
h_set_nx_hash now [] m = panic
h_set_nx_hash now (c ∷ key ∷ field ∷ value ∷ []) m =
    if named c (codes "hsetnx")
    then on_hash key (checked now key m) (set_nx_at field value)
    else refuse c (codes "hsetnx") m
h_set_nx_hash now (c ∷ args) m = refuse c (codes "hsetnx") m

incr_reply : HashDb → Option ℤ → HashReply
incr_reply m none = answer_error m (codes "value is not an integer")
incr_reply m (some n) = answer m (int_data n)

incr_at : Bytes → ℤ → HashDb → ℕ → HashReply
unfolding incr_reply
incr_at field incr m a =
    let (h, res) = incr_by (hash_at m a) field incr in incr_reply (write_hash m a h) res

incr_parsed : ℤ → Bytes → Bytes → Option ℤ → HashDb → HashReply
unfolding incr_at
incr_parsed now key field none m = answer_error m (codes "incr value must be an integer")
incr_parsed now key field (some incr) m = on_hash key (checked now key m) (incr_at field incr)

pub h_incr_by_hash : ℤ → List Bytes → HashDb → HashReply
unfolding incr_parsed refuse
h_incr_by_hash now [] m = panic
h_incr_by_hash now (c ∷ key ∷ field ∷ incr ∷ []) m =
    if named c (codes "hincrby")
    then incr_parsed now key field (atoi incr) m
    else refuse c (codes "hincrby") m
h_incr_by_hash now (c ∷ args) m = refuse c (codes "hincrby") m

pub del_fields : List Bytes → Hash → ℕ → Hash × ℕ
del_fields [] h n = (h, n)
del_fields (f ∷ fs) h n = let (h', d) = del_field h f in del_fields fs h' (n + d)

-- the deferred function: an empty hash is taken out of the database
drop_key : Bytes → HashDb → HashDb
drop_key key m = record m { mem = (del_ttl key (record m.mem { db = (delete m.mem.db key).0 })).0 }

del_at : Bytes → List Bytes → HashDb → ℕ → HashReply
unfolding drop_key
del_at key fs m a =
    let (h, n) = del_fields fs (hash_at m a) 0 in
    let m' = write_hash m a h in
    if is_empty h then answer_int (drop_key key m') n else answer_int m' n

del_found : Bytes → List Bytes → HashDb → Found → HashReply
unfolding del_at
del_found key fs m absent = answer_int m 0
del_found key fs m wrong = answer_error m wrong_type
del_found key fs m (at a) = del_at key fs m a

-- HDEL does not test the time to expire.
pub h_del_hash : List Bytes → HashDb → HashReply
unfolding del_found refuse
h_del_hash [] m = panic
h_del_hash (c ∷ key ∷ field ∷ more) m =
    if named c (codes "hdel")
    then del_found key (field ∷ more) m (found m.mem key)
    else refuse c (codes "hdel") m
h_del_hash (c ∷ args) m = refuse c (codes "hdel") m
