-- ===== src/ConcurrentMap/KeyList.antt =====
-- `Keys` of a valid map.
use redis_go.Prelude.{
  ℕ, zero, suc, ◌-◌, ◌≡◌, refl, true, false, not, ◌||◌, List, [], ◌∷◌, ◌++◌, Bytes, append-nil,
  length, length-append, ltb, arith,
}
use redis_go.Prelude.Outcome.{ok}
use redis_go.GoMap.{GoMap, get, keys, is_some}
use redis_go.GoMap.Laws.{length-keys, contains, contains-keys}
use redis_go.ConcurrentMap.{
  ConcurrentMap, get_key_pos, shard_at, get_shard, lookup, all_keys, key_list, len,
}
use redis_go.ConcurrentMap.Shards.{total}
use redis_go.ConcurrentMap.Laws.{IsValid}

contains-append :
    (k : Bytes) (l r : List Bytes) → contains k (l ++ r) ≡ (contains k l || contains k r)
contains-append k [] r = refl
contains-append k (j ∷ l) r = ground (arith, contains-append k l r)

module _ {V : Type 0} where
  contains-all_keys :
      (k : Bytes) (ts : List (GoMap V)) (i : ℕ)
      → is_some (get k (shard_at ts i)) ≡ true
      → contains k (all_keys ts) ≡ true
  unfolding shard_at all_keys get
  contains-all_keys k [] i h = ground arith
  contains-all_keys k (t ∷ ts) zero h =
      ground (arith, contains-append k (keys t) (all_keys ts), contains-keys k t)
  contains-all_keys k (t ∷ ts) (suc i) h =
      ground (arith, contains-append k (keys t) (all_keys ts), contains-all_keys k ts i h)

  length-all_keys : (ts : List (GoMap V)) → length (all_keys ts) ≡ total ts
  unfolding all_keys
  length-all_keys [] = refl
  length-all_keys (t ∷ ts) =
      omega (arith, length-append (keys t) (all_keys ts), length-keys t, length-all_keys ts)

  -- the slice is filled exactly
  exact : (m : ConcurrentMap V) → IsValid m → key_list m ≡ ok (all_keys m.table)
  unfolding key_list
  exact m h =
      let n : ℕ = length (all_keys m.table) in
      let e : m.count ≡ n = omega (arith, h.counted, length-all_keys m.table) in
      let fits : ltb m.count n ≡ false = ground arith in
      let full : m.count - n ≡ 0 = omega arith in rw (fits, full, append-nil)

  -- On a valid map `Keys` does not panic, its result has as many strings as `Len` says, and a key that
  -- `Get` finds is among them.
  pub key_list_lem :
      (m : ConcurrentMap V) (k : Bytes)
      → IsValid m
      → (ks : List Bytes) × (key_list m ≡ ok ks)
        × (length ks ≡ len m)
        × ((not (is_some (lookup m k)) || contains k ks) ≡ true)
  unfolding len lookup get_shard
  key_list_lem m k h = (
    all_keys m.table,
    exact m h,
    omega (arith, h.counted, length-all_keys m.table),
    ground (arith, contains-all_keys k m.table (get_key_pos m k)),
  )
