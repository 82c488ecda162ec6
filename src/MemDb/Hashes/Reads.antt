-- ===== src/MemDb/Hashes/Reads.antt =====
-- memdb/hash.go: HEXISTS, HGET, HGETALL, HKEYS, HVALS, HLEN, HSTRLEN and HMGET.
pub mod Laws
use redis_go.Prelude.{
  ℕ, ◌+◌, Bool, true, false, Option, none, some, List, [], ◌∷◌, ◌++◌, Bytes, codes, if◌then◌else◌,
}
use redis_go.Prelude.Int.{ℤ, pos}
use redis_go.Prelude.Outcome.{panic}
use redis_go.Resp.Structure.{RedisData, bulk_data, int_data, array_data, Elements, nil, cons}
use redis_go.HashStruct.{Hash, get_field, exist, fields, values, str_len}
use redis_go.HashStruct
use redis_go.MemDb.{MemDb, check_ttl}
use redis_go.MemDb.Reply.{named, wrong_type}
use redis_go.MemDb.Objects.{Found, absent, wrong, at}
use redis_go.MemDb.Hashes.{
  HashDb, found, hash_at, HashReply, answer, answer_int, answer_error, empty_array, refuse,
  zero_reply,
}

-- What the commands that read share: the test of the time to expire, the key's value, and its type.
-- `missing` is the reply where there is no key.
read_found : RedisData → (Hash → RedisData) → HashDb → Found → HashReply
read_found missing f m absent = answer m missing
read_found missing f m wrong = answer_error m wrong_type
read_found missing f m (at a) = answer m (f (hash_at m a))

pub read_hash : ℤ → Bytes → RedisData → (Hash → RedisData) → HashDb → HashReply
unfolding read_found
read_hash now key missing f m =
    let (mem, alive) = check_ttl now key m.mem in
    let m' : HashDb = record m { mem = mem } in
    if alive then read_found missing f m' (found mem key) else answer m' missing

-- a command that is named right reads
abbrev reads : Bytes → Bytes → ℤ → Bytes → RedisData → (Hash → RedisData) → HashDb → HashReply
reads c name now key missing f m =
    if named c name then read_hash now key missing f m else refuse c name m

abbrev pub bulk_or_nil : Bytes → RedisData
bulk_or_nil [] = bulk_data none
bulk_or_nil (c ∷ s) = bulk_data (some (c ∷ s))

abbrev bulks : List Bytes → Elements
bulks [] = nil
bulks (s ∷ ss) = cons (bulk_data (some s)) (bulks ss)

abbrev entries : List (Bytes × Bytes) → Elements
entries [] = nil
entries ((k, v) ∷ m) = cons (bulk_data (some k)) (cons (bulk_data (some v)) (entries m))

abbrev m_get : Hash → List Bytes → Elements
m_get h [] = nil
m_get h (f ∷ fs) = cons (bulk_or_nil (get_field h f)) (m_get h fs)

pub h_exists_hash : ℤ → List Bytes → HashDb → HashReply
unfolding read_hash refuse
h_exists_hash now [] m = panic
h_exists_hash now (c ∷ key ∷ field ∷ []) m =
    reads c (codes "hexists") now key zero_reply
      (λ h. if exist h field then int_data (pos 1) else zero_reply) m
h_exists_hash now (c ∷ args) m = refuse c (codes "hexists") m

pub h_get_hash : ℤ → List Bytes → HashDb → HashReply
unfolding read_hash refuse
h_get_hash now [] m = panic
h_get_hash now (c ∷ key ∷ field ∷ []) m =
    reads c (codes "hget") now key (bulk_data none) (λ h. bulk_or_nil (get_field h field)) m
h_get_hash now (c ∷ args) m = refuse c (codes "hget") m

pub h_get_all_hash : ℤ → List Bytes → HashDb → HashReply
unfolding read_hash refuse
h_get_all_hash now [] m = panic
h_get_all_hash now (c ∷ key ∷ []) m =
    reads c (codes "hgetall") now key empty_array (λ h. array_data (entries h.table)) m
h_get_all_hash now (c ∷ args) m = refuse c (codes "hgetall") m

pub h_keys_hash : ℤ → List Bytes → HashDb → HashReply
unfolding read_hash refuse
h_keys_hash now [] m = panic
h_keys_hash now (c ∷ key ∷ []) m =
    reads c (codes "hkeys") now key empty_array (λ h. array_data (bulks (fields h))) m
h_keys_hash now (c ∷ args) m = refuse c (codes "hkeys") m

pub h_vals_hash : ℤ → List Bytes → HashDb → HashReply
unfolding read_hash refuse
h_vals_hash now [] m = panic
h_vals_hash now (c ∷ key ∷ []) m =
    reads c (codes "hvals") now key empty_array (λ h. array_data (bulks (values h))) m
h_vals_hash now (c ∷ args) m = refuse c (codes "hvals") m

pub h_len_hash : ℤ → List Bytes → HashDb → HashReply
unfolding read_hash refuse
h_len_hash now [] m = panic
h_len_hash now (c ∷ key ∷ []) m =
    reads c (codes "hlen") now key zero_reply (λ h. int_data (pos (HashStruct.len h))) m
h_len_hash now (c ∷ args) m = refuse c (codes "hlen") m

pub h_str_len_hash : ℤ → List Bytes → HashDb → HashReply
unfolding read_hash refuse
h_str_len_hash now [] m = panic
h_str_len_hash now (c ∷ key ∷ field ∷ []) m =
    reads c (codes "hstrlen") now key zero_reply (λ h. int_data (pos (str_len h field))) m
h_str_len_hash now (c ∷ args) m = refuse c (codes "hstrlen") m

pub h_m_get_hash : ℤ → List Bytes → HashDb → HashReply
unfolding read_hash refuse
h_m_get_hash now [] m = panic
h_m_get_hash now (c ∷ key ∷ field ∷ more) m =
    reads c (codes "hmget") now key empty_array (λ h. array_data (m_get h (field ∷ more))) m
h_m_get_hash now (c ∷ args) m = refuse c (codes "hmget") m
