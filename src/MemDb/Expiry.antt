-- ===== src/MemDb/Expiry.antt =====
-- The invariant of the database, and what expiry, SetTTL, DelTTL and a timer do to every key.
use redis_go.Prelude.{
  ◌≡◌, Bool, false, not, ◌&&◌, Option, none, some, [], Bytes, bytes_equal, bytes_equal_iff,
  if◌then◌else◌, arith,
}
use redis_go.Prelude.Int.{ℤ, ltb_ℤ}
use redis_go.GoMap.{is_some}
use redis_go.ConcurrentMap.{lookup, delete}
use redis_go.ConcurrentMap.Laws.{IsValid, set_lem, delete_lem, new_concurrent_map_lem}
use redis_go.MemDb.{
  Value, TtlInfo, MemDb, new_mem_db, expire_at, check_ttl, cancel_old, start_timer, set_ttl_of,
  set_ttl, del_ttl_of, del_ttl,
}

pub record IsSound (m : MemDb) : Type 0 where
  pub db : IsValid m.db
  pub ttl_keys : IsValid m.ttl_keys

-- what a key holds, and when it expires
abbrev pub value_of : MemDb → Bytes → Option Value
value_of m key = lookup m.db key

abbrev pub ttl_at : MemDb → Bytes → Option ℤ
ttl_at m key = elim (lookup m.ttl_keys key) [ none ↦ none | some info ↦ some info.value ]

-- the time of expiry has come
abbrev pub is_due : ℤ → Option ℤ → Bool
is_due now none = false
is_due now (some t) = not (ltb_ℤ now t)

pub new_mem_db-IsSound : (n : ℤ) → IsSound (new_mem_db n)
unfolding new_mem_db
new_mem_db-IsSound n = record {
  db = (new_concurrent_map_lem n []).0;
  ttl_keys = (new_concurrent_map_lem n []).0;
}

pub new_mem_db_lem :
    (n : ℤ) (j : Bytes) → (value_of (new_mem_db n) j ≡ none) × (ttl_at (new_mem_db n) j ≡ none)
unfolding new_mem_db
new_mem_db_lem n j =
    ((new_concurrent_map_lem n j).1, ground (arith, (new_concurrent_map_lem {V = TtlInfo} n j).1))

-- On a sound database, which stays sound, `CheckTTL` returns false exactly for a key whose time has
-- come. Then the key and its time are gone; otherwise, and for every other key, nothing changes.
pub check_ttl_lem :
    (now : ℤ) (key : Bytes) (m : MemDb) (j : Bytes)
    → IsSound m
    → let due = is_due now (ttl_at m key) in
      let m' = (check_ttl now key m).0 in
      IsSound m'
      × ((check_ttl now key m).1 ≡ not due)
      × (value_of m' j ≡ (if due && bytes_equal key j then none else value_of m j))
      × (ttl_at m' j ≡ (if due && bytes_equal key j then none else ttl_at m j))
unfolding check_ttl expire_at
check_ttl_lem now key m j h =
    ground (arith, delete_lem m.db key h.db j, delete_lem m.ttl_keys key h.ttl_keys j)

-- On a sound database, which stays sound, `SetTTL` returns 1 exactly if the key exists, and then the
-- key expires at that time. No value changes, and no other key's time.
pub set_ttl_lem :
    (key : Bytes) (t : ℤ) (m : MemDb) (j : Bytes)
    → IsSound m
    → let there = is_some (value_of m key) in
      let m' = (set_ttl key t m).0 in
      IsSound m'
      × ((set_ttl key t m).1 ≡ (if there then 1 else 0))
      × (value_of m' j ≡ value_of m j)
      × (ttl_at m' j ≡ (if there && bytes_equal key j then some t else ttl_at m j))
unfolding set_ttl set_ttl_of cancel_old start_timer
set_ttl_lem key t m j h =
    let info : TtlInfo = record { value = t; cancel = m.next_channel } in
    ground (
      arith,
      delete_lem m.ttl_keys key h.ttl_keys j,
      set_lem m.ttl_keys key h.ttl_keys info j,
      set_lem (delete m.ttl_keys key).0 key (delete_lem m.ttl_keys key h.ttl_keys j).0 info j,
    )

-- On a sound database, which stays sound, `DelTTL` returns 1 exactly if the key had a time to expire
-- at, and takes it away. No value changes, and no other key's time.
pub del_ttl_lem :
    (key : Bytes) (m : MemDb) (j : Bytes)
    → IsSound m
    → let m' = (del_ttl key m).0 in
      IsSound m'
      × ((del_ttl key m).1 ≡ (if is_some (ttl_at m key) then 1 else 0))
      × (value_of m' j ≡ value_of m j)
      × (ttl_at m' j ≡ (if bytes_equal key j then none else ttl_at m j))
unfolding del_ttl del_ttl_of
del_ttl_lem key m j h =
    ground (arith, delete_lem m.ttl_keys key h.ttl_keys j, bytes_equal_iff key j)
