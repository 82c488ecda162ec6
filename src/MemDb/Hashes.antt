-- ===== src/MemDb/Hashes.antt =====
-- memdb/hash.go: the hashes that the database points to, and what its commands share. HINCRBYFLOAT and
-- HRANDFIELD are not modelled.
pub mod Reads
pub mod Writes
pub mod Laws
pub mod RoundTrip
use redis_go.Prelude.{
  ℕ, zero, suc, ◌+◌, refl, Bool, true, false, Option, none, some, List, [], ◌∷◌, ◌++◌, Bytes, codes,
  length, if◌then◌else◌,
}
use redis_go.Prelude.Int.{ℤ, pos}
use redis_go.Prelude.Outcome.{Outcome, ok}
use redis_go.ConcurrentMap.{set, lookup}
use redis_go.Resp.Structure.{RedisData, int_data, error_data, array_data, nil}
use redis_go.HashStruct.{Hash, new_hash}
use redis_go.MemDb.{Value, hash_ref, MemDb}
use redis_go.MemDb.Objects
use redis_go.MemDb.Objects.{Found, absent, wrong, at, Kind, Store, object_at, write, add_object}
use redis_go.MemDb.Reply.{named, wrong_type}

abbrev pub found_value : Option Value → Found
found_value none = absent
found_value (some (hash_ref a)) = at a
found_value (some v) = wrong

abbrev pub hash_kind : Kind Hash
hash_kind = record {
  empty = new_hash;
  ref = hash_ref;
  found_value = found_value;
  found_ref = λ a. refl;
}

abbrev pub HashDb : Type 0
HashDb = Store Hash

abbrev pub found : MemDb → Bytes → Found
found m key = Objects.found hash_kind m key

abbrev pub hash_at : HashDb → ℕ → Hash
hash_at m a = object_at hash_kind m a

-- a method that changes the hash at an address
abbrev pub write_hash : HashDb → ℕ → Hash → HashDb
write_hash m a h = write m a h

-- `m.db.Set(key, NewHash())`
abbrev pub add_hash : Bytes → HashDb → HashDb
add_hash key m = add_object hash_kind key new_hash m

-- What the commands that write share: the key's hash, which is made where the key is absent; `none` where
-- the value is of another type.
pub open_found : Bytes → HashDb → Found → HashDb × Option ℕ
open_found key m absent = (add_hash key m, some (length m.objects))
open_found key m wrong = (m, none)
open_found key m (at a) = (m, some a)

pub open_hash : Bytes → HashDb → HashDb × Option ℕ
unfolding open_found
open_hash key m = open_found key m (found m.mem key)

abbrev pub HashReply : Type 0
HashReply = Outcome (HashDb × Option RedisData)

abbrev pub answer : HashDb → RedisData → HashReply
answer m d = ok (m, some d)

abbrev pub answer_int : HashDb → ℕ → HashReply
answer_int m n = answer m (int_data (pos n))

abbrev pub answer_error : HashDb → Bytes → HashReply
answer_error m text = answer m (error_data text)

abbrev pub empty_array : RedisData
empty_array = array_data nil

-- the replies of a command with a wrong name, or a wrong number of arguments
pub refuse : Bytes → Bytes → HashDb → HashReply
refuse c name m =
    if named c name
    then answer_error m (codes "wrong number of arguments for '" ++ name ++ codes "' command")
    else answer_error m (codes "server error")

abbrev pub zero_reply : RedisData
zero_reply = int_data (pos 0)
