-- ===== src/MemDb/Hashes/Laws.antt =====
-- The heap of hashes: no two keys share a hash, and a write changes one key's hash alone.
use redis_go.Prelude.{
  ℕ, ◌≡◌, ◌≢◌, refl, sym, ap, ◌∙◌, true, false, Option, none, some, Bytes, bytes_equal,
  bytes_equal_iff, bytes_equal_refl, length, if◌then◌else◌, arith,
}
use redis_go.Prelude.Int.{ℤ}
use redis_go.HashStruct.{Hash, new_hash}
use redis_go.MemDb.Expiry.{IsSound, ttl_at, is_due, check_ttl_lem}
use redis_go.MemDb.Objects.{Found, absent, wrong, at, checked}
use redis_go.MemDb.Objects.Laws
use redis_go.MemDb.Objects.Laws.{
  object_found, object_of, nth-last, write-IsWell, write_lem, found-add_object, add_object-IsWell,
  object_of-add_object,
}
use redis_go.MemDb.Hashes.{hash_kind, HashDb, found, hash_at, write_hash, open_found, open_hash}

abbrev pub hash_found : HashDb → Found → Option Hash
hash_found m f = object_found hash_kind m f

-- the hash of a key
abbrev pub hash_of : HashDb → Bytes → Option Hash
hash_of m key = object_of hash_kind m key

abbrev pub or_new : Option Hash → Hash
or_new none = new_hash
or_new (some h) = h

abbrev pub IsWell : HashDb → Type 0
IsWell m = Laws.IsWell hash_kind m

pub write_hash-IsWell : (a : ℕ) (h : Hash) (m : HashDb) → IsWell m → IsWell (write_hash m a h)
write_hash-IsWell a h m well = write-IsWell hash_kind a h m well

pub write_hash_lem :
    (key j : Bytes) (a : ℕ) (h : Hash) (m : HashDb)
    → IsWell m
    → found m.mem key ≡ at a
    → hash_of (write_hash m a h) j ≡ (if bytes_equal key j then some h else hash_of m j)
write_hash_lem key j a h m well e = write_lem hash_kind key j a h m well e

same_found :
    (key j : Bytes) (m : HashDb) → bytes_equal key j ≡ true → found m.mem j ≡ found m.mem key
same_found key j m e = ap (found m.mem) (sym ((bytes_equal_iff key j).0 e))

-- what a writing command finds behind `open_hash`
abbrev pub Opens : Bytes → Bytes → HashDb → HashDb × Option ℕ → Type 0
Opens key j m (m', o) =
    (a : ℕ) × (o ≡ some a)
    × IsWell m'
    × (found m'.mem key ≡ at a)
    × (hash_at m' a ≡ or_new (hash_of m key))
    × (hash_of m' j ≡ (if bytes_equal key j then some (or_new (hash_of m key)) else hash_of m j))
    × (ttl_at m'.mem j ≡ ttl_at m.mem j)

open_found_lem :
    (key j : Bytes) (m : HashDb) (o : Found)
    → IsWell m
    → found m.mem key ≡ o
    → o ≢ wrong
    → Opens key j m (open_found key m o)
unfolding open_found
open_found_lem key j m absent well f n = (
  length m.objects,
  refl,
  add_object-IsWell hash_kind key new_hash m well,
  found-add_object hash_kind key key new_hash m well ∙ rw (bytes_equal_refl key) refl,
  rw f (nth-last new_hash new_hash m.objects),
  rw f (object_of-add_object hash_kind key j new_hash m well),
  refl,
)
open_found_lem key j m wrong well f n = absurd (n refl)
open_found_lem key j m (at a) well f n =
    (a, refl, well, f, rw f refl, rw f (ground (arith, same_found key j m)), refl)

pub open_hash_lem :
    (key j : Bytes) (m : HashDb)
    → IsWell m
    → found m.mem key ≢ wrong
    → Opens key j m (open_hash key m)
unfolding open_hash
open_hash_lem key j m well n = open_found_lem key j m (found m.mem key) well refl n

-- the test of the time to expire at a key that is not expired leaves the times
pub ttl-checked :
    (now : ℤ) (key j : Bytes) (m : HashDb)
    → IsSound m.mem
    → is_due now (ttl_at m.mem key) ≡ false
    → ttl_at (checked now key m).mem j ≡ ttl_at m.mem j
ttl-checked now key j m h due =
    let (a, b, c, d) = check_ttl_lem now key m.mem j h in ground (arith, d, due)

pub checked-IsWell :
    (now : ℤ) (key : Bytes) (m : HashDb)
    → IsWell m
    → is_due now (ttl_at m.mem key) ≡ false
    → IsWell (checked now key m)
checked-IsWell now key m well due = Laws.checked-IsWell hash_kind now key m well due

pub hash_of-checked :
    (now : ℤ) (key j : Bytes) (m : HashDb)
    → IsSound m.mem
    → is_due now (ttl_at m.mem key) ≡ false
    → hash_of (checked now key m) j ≡ hash_of m j
hash_of-checked now key j m h due = Laws.object_of-checked hash_kind now key j m h due

pub found-checked :
    (now : ℤ) (key j : Bytes) (m : HashDb)
    → IsSound m.mem
    → is_due now (ttl_at m.mem key) ≡ false
    → found (checked now key m).mem j ≡ found m.mem j
found-checked now key j m h due = Laws.found-checked hash_kind now key j m h due
