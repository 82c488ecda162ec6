-- ===== src/ConcurrentMap/Laws.antt =====
-- The invariant of the sharded map, and each method as a change to one map.
use redis_go.Prelude.{
  ℕ, ◌+◌, ◌-◌, ◌<◌, ◌≡◌, refl, ap, sym, ◌∙◌, true, Option, none, some, Bytes, bytes_equal,
  bytes_equal_iff, length, if◌then◌else◌, arith, All, not, ◌&&◌, inl, inr, Bool-cases,
}
use redis_go.Prelude.Int.{ℤ, pos, negsuc}
use redis_go.GoMap.{GoMap, get, put, remove, has, is_some, IsUnique}
use redis_go.GoMap.Laws.{
  bit, get-put, get-remove, put-IsUnique, remove-IsUnique, length-put, length-remove,
}
use redis_go.ConcurrentMap.{
  ConcurrentMap, new_concurrent_map, fit_size, get_key_pos, get_shard, write_shard, set,
  set_if_exist, set_if_not_exist, lookup, delete,
}
use redis_go.ConcurrentMap.Shards.{
  length-set_shard, shard_at-set_shard, shard_at-IsUnique, set_shard-IsUnique, total,
  total-set_shard, shard_at-le-total, shard_at-empty_shards, length-empty_shards,
  total-empty_shards, empty_shards-IsUnique,
}

fit_size_pos : (size : ℤ) → 0 < fit_size size
fit_size_pos (pos n) = ground arith
fit_size_pos (negsuc n) = omega arith

module _ {V : Type 0} where
  -- There is a shard, the table has `size` shards, no shard holds a key twice, and `count` is the number of
  -- keys.
  pub record IsValid (m : ConcurrentMap V) : Type 0 where
    pub sized : length m.table ≡ m.size
    pub inhabited : 0 < m.size
    pub unique : All IsUnique m.table
    pub counted : m.count ≡ total m.table

  pub get_key_pos-lt :
      (m : ConcurrentMap V) (key : Bytes) → IsValid m → get_key_pos m key < length m.table
  unfolding get_key_pos
  get_key_pos-lt m key h = grind arith

  module _ (m : ConcurrentMap V) (key : Bytes) (valid : IsValid m) where
    get_shard-IsUnique : IsUnique (get_shard m key)
    unfolding get_shard
    get_shard-IsUnique = shard_at-IsUnique m.table (get_key_pos m key) valid.unique

    -- a shard is written, and the count is made right
    write_shard-IsValid :
        (s : GoMap V) (c : ℕ)
        → IsUnique s
        → c + length (get_shard m key) ≡ m.count + length s
        → IsValid (record (write_shard m key s) { count = c })
    unfolding write_shard get_shard
    write_shard-IsValid s c u h = record {
      sized = length-set_shard m.table (get_key_pos m key) s ∙ valid.sized;
      inhabited = valid.inhabited;
      unique = set_shard-IsUnique m.table (get_key_pos m key) s valid.unique u;
      counted = omega (
        arith,
        total-set_shard m.table (get_key_pos m key) s (get_key_pos-lt m key valid),
        valid.counted,
      );
    }

    -- what is read behind the write of a shard that differs at one key
    lookup-write_shard :
        (s : GoMap V) (c : ℕ) (o : Option V) (j : Bytes)
        → get j s ≡ (if bytes_equal key j then o else get j (get_shard m key))
        → lookup (record (write_shard m key s) { count = c }) j
          ≡ (if bytes_equal key j then o else lookup m j)
    unfolding write_shard lookup get_shard get_key_pos
    lookup-write_shard s c o j h = ground (
      arith,
      shard_at-set_shard m.table (get_key_pos m key) (get_key_pos m j) s
          (get_key_pos-lt m key valid),
      bytes_equal_iff key j,
    )

    put_shard-IsValid :
        (v : V) (c : ℕ)
        → c + bit (has key (get_shard m key)) ≡ m.count + 1
        → IsValid (record (write_shard m key (put key v (get_shard m key))) { count = c })
    put_shard-IsValid v c h =
        write_shard-IsValid _ c (put-IsUnique key v (get_shard m key) get_shard-IsUnique)
          (omega (arith, length-put key v (get_shard m key)))

    lookup-put_shard :
        (v : V) (c : ℕ) (j : Bytes)
        → lookup (record (write_shard m key (put key v (get_shard m key))) { count = c }) j
          ≡ (if bytes_equal key j then some v else lookup m j)
    lookup-put_shard v c j =
        lookup-write_shard (put key v (get_shard m key)) c (some v) j
          (get-put key j v (get_shard m key))

    -- On a valid map `Set` keeps the invariant, and is the write of one key: every key is read as
    -- before, but for the key that was set. It counts the key as added exactly if the map had it not.
    pub set_lem :
        (v : V) (j : Bytes)
        → IsValid (set m key v).0
          × (lookup (set m key v).0 j ≡ (if bytes_equal key j then some v else lookup m j))
          × ((set m key v).1 + bit (is_some (lookup m key)) ≡ 1)
    unfolding set write_shard lookup
    set_lem v j = elim (Bool-cases (has key (get_shard m key))) [
      | inl old ↦ rw old (put_shard-IsValid v m.count (rw old), lookup-put_shard v m.count j, refl)
      | inr new ↦ rw new (
        put_shard-IsValid v (m.count + 1) (rw new (omega arith)),
        lookup-put_shard v (m.count + 1) j,
        refl,
      )
    ]

    -- On a valid map `SetIfExist` keeps the invariant, writes the key if the map has it, and nothing
    -- otherwise, and returns 1 exactly if it wrote.
    pub set_if_exist_lem :
        (v : V) (j : Bytes)
        → IsValid (set_if_exist m key v).0
          × (lookup (set_if_exist m key v).0 j
              ≡ (if is_some (lookup m key) && bytes_equal key j then some v else lookup m j))
          × ((set_if_exist m key v).1 ≡ bit (is_some (lookup m key)))
    unfolding set_if_exist write_shard lookup
    set_if_exist_lem v j = elim (Bool-cases (has key (get_shard m key))) [
      | inl old ↦ rw old (put_shard-IsValid v m.count (rw old), lookup-put_shard v m.count j, refl)
      | inr new ↦ rw new (valid, refl, refl)
    ]

    -- On a valid map `SetIfNotExist` keeps the invariant, writes the key if the map has it not, and nothing
    -- otherwise, and returns 1 exactly if it wrote.
    pub set_if_not_exist_lem :
        (v : V) (j : Bytes)
        → IsValid (set_if_not_exist m key v).0
          × (lookup (set_if_not_exist m key v).0 j
              ≡ (if not (is_some (lookup m key)) && bytes_equal key j then some v else lookup m j))
          × ((set_if_not_exist m key v).1 + bit (is_some (lookup m key)) ≡ 1)
    unfolding set_if_not_exist write_shard lookup
    set_if_not_exist_lem v j = elim (Bool-cases (has key (get_shard m key))) [
      | inl old ↦ rw old (valid, refl, refl)
      | inr new ↦ rw new (
        put_shard-IsValid v (m.count + 1) (rw new (omega arith)),
        lookup-put_shard v (m.count + 1) j,
        refl,
      )
    ]

    remove_shard-IsValid :
        has key (get_shard m key) ≡ true
        → IsValid
            (record (write_shard m key (remove key (get_shard m key))) { count = m.count - 1 })
    unfolding get_shard
    remove_shard-IsValid old =
        write_shard-IsValid _ (m.count - 1)
          (remove-IsUnique key (get_shard m key) get_shard-IsUnique)
          (omega (
            arith,
            length-remove key (get_shard m key),
            ap bit old,
            valid.counted,
            shard_at-le-total m.table (get_key_pos m key),
          ))

    -- On a valid map `Delete` keeps the invariant, takes one key away and leaves every other as it was,
    -- and returns 1 exactly if there was one.
    pub delete_lem :
        (j : Bytes)
        → IsValid (delete m key).0
          × (lookup (delete m key).0 j ≡ (if bytes_equal key j then none else lookup m j))
          × ((delete m key).1 ≡ bit (is_some (lookup m key)))
    unfolding delete write_shard lookup
    delete_lem j = elim (Bool-cases (has key (get_shard m key))) [
      | inl old ↦ rw old (
        remove_shard-IsValid old,
        lookup-write_shard (remove key (get_shard m key)) (m.count - 1) none j
            (get-remove key j (get_shard m key) get_shard-IsUnique),
        refl,
      )
      | inr new ↦ rw new (valid, ground (arith, bytes_equal_iff key j), refl)
    ]

  -- A new map is valid and empty, whatever size is asked for: out of range it is the largest size.
  pub new_concurrent_map_lem :
      (size : ℤ) (j : Bytes)
      → IsValid (new_concurrent_map {V = V} size)
        × (lookup (new_concurrent_map {V = V} size) j ≡ none)
  unfolding new_concurrent_map lookup get_shard get
  new_concurrent_map_lem size j = (
    record {
      sized = length-empty_shards V (fit_size size);
      inhabited = fit_size_pos size;
      unique = empty_shards-IsUnique V (fit_size size);
      counted = sym (total-empty_shards V (fit_size size));
    },
    rw (shard_at-empty_shards V (fit_size size)),
  )
