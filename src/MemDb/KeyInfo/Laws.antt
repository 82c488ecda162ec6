-- ===== src/MemDb/KeyInfo/Laws.antt =====
-- What RENAME does to both names, and what TTL answers behind EXPIRE and behind PERSIST.
use redis_go.Prelude.{
  ◌≡◌, refl, ◌∙◌, ap, true, false, ◌||◌, Option, none, some, [], ◌∷◌, Bytes, codes, bytes_equal,
  bytes_equal_refl, if◌then◌else◌, arith,
}
use redis_go.Prelude.Int.{ℤ, add64, neg64, negsuc}
use redis_go.GoMap.{is_some}
use redis_go.Resp.Structure.{string_data, int_data}
use redis_go.ConcurrentMap.{lookup, delete}
use redis_go.ConcurrentMap.Laws.{set_lem, delete_lem}
use redis_go.MemDb.{Value, TtlInfo, MemDb, check_ttl, del_ttl}
use redis_go.MemDb.Reply.{reply, reply_int}
use redis_go.MemDb.Expiry.{IsSound, value_of, ttl_at, is_due, check_ttl_lem, del_ttl_lem}
use redis_go.MemDb.KeyInfo.{
  rename_key, rename_alive, rename_value, move_key, persist_key, persist_alive, ttl_key, ttl_of,
  ttl_alive,
}

-- what `move_key` leaves at each key
pub move_key_lem :
    (old new : Bytes) (v : Value) (m : MemDb) (j : Bytes)
    → IsSound m
    → IsSound (move_key old new v m)
      × (value_of (move_key old new v m) j ≡ (
          if bytes_equal new j then some v else if bytes_equal old j then none else value_of m j))
      × (ttl_at (move_key old new v m) j
          ≡ (if bytes_equal new j || bytes_equal old j then none else ttl_at m j))
unfolding move_key
move_key_lem old new v m j h =
    let (a1, a2, a3) = delete_lem m.db old h.db j in
    let (b1, b2, b3) = delete_lem m.ttl_keys old h.ttl_keys j in
    let (c1, c2, c3) = delete_lem (delete m.db old).0 new a1 j in
    let (d1, d2, d3) = delete_lem (delete m.ttl_keys old).0 new b1 j in
    let (e1, e2, e3) = set_lem (delete (delete m.db old).0 new).0 new c1 v j in
    (record { db = e1; ttl_keys = d1 }, ground arith, ground arith)

-- RENAME, on a sound database, of a key that is there and not expired: the database stays sound, the
-- new name holds what the old one held, whatever it held before, the old name is gone unless it is the
-- new one, neither has a time to expire, and every other key keeps both.
pub rename_key_lem :
    (now : ℤ) (old new : Bytes) (v : Value) (m : MemDb) (j : Bytes)
    → IsSound m
    → is_due now (ttl_at m old) ≡ false
    → value_of m old ≡ some v
    → (m' : MemDb) × (rename_key now (codes "RENAME" ∷ old ∷ new ∷ []) m
        ≡ reply m' (string_data (codes "OK")))
      × IsSound m'
      × (value_of m' j ≡ (
          if bytes_equal new j then some v else if bytes_equal old j then none else value_of m j))
      × (ttl_at m' j ≡ (if bytes_equal new j || bytes_equal old j then none else ttl_at m j))
unfolding rename_key rename_alive rename_value
rename_key_lem now old new v m j h due there =
    let m1 = (check_ttl now old m).0 in
    let (s, alive, w, t) = check_ttl_lem now old m j h in
    let (s0, alive0, w0, t0) = check_ttl_lem now old m old h in
    let (s', v', t') = move_key_lem old new v m1 j s in
    let same : value_of m1 old ≡ some v = ground (arith, w0, due, there) in
    (
      move_key old new v m1,
      rw (alive, due, same) refl,
      s',
      ground (arith, w, due),
      ground (arith, t, due),
    )

ttl_of-forever :
    (now : ℤ) (m : MemDb) (v : Option Value) (t : Option TtlInfo)
    → is_some v ≡ true
    → is_some t ≡ false
    → ttl_of now m v t ≡ reply m (int_data (negsuc 0))
unfolding ttl_of
ttl_of-forever now m v t a b = ground arith

-- PERSIST, then TTL at any time, on a sound database and a key that is there and not expired at the
-- first: PERSIST answers 1 exactly if the key had a time to expire at, and TTL answers -1.
pub persist-ttl :
    (now later : ℤ) (key : Bytes) (m : MemDb)
    → IsSound m
    → is_due now (ttl_at m key) ≡ false
    → is_some (value_of m key) ≡ true
    → (m' : MemDb) × (persist_key now (codes "PERSIST" ∷ key ∷ []) m
        ≡ reply_int m' (if is_some (ttl_at m key) then 1 else 0))
      × (m'' : MemDb) × (ttl_key later (codes "TTL" ∷ key ∷ []) m'
          ≡ reply m'' (int_data (negsuc 0)))
unfolding persist_key persist_alive ttl_key ttl_alive ttl_of
persist-ttl now later key m h due there =
    let (s1, alive, v1, t1) = check_ttl_lem now key m key h in
    let m1 = (check_ttl now key m).0 in
    let (s2, n2, v2, t2) = del_ttl_lem key m1 key s1 in
    let m2 = (del_ttl key m1).0 in
    let (s3, alive3, v3, t3) = check_ttl_lem later key m2 key s2 in
    let m3 = (check_ttl later key m2).0 in
    let forever : ttl_at m2 key ≡ none = t2 ∙ rw (bytes_equal_refl key) refl in
    let v1' : value_of m1 key ≡ value_of m key = ground (arith, v1, due) in
    let t1' : ttl_at m1 key ≡ ttl_at m key = ground (arith, t1, due) in
    let due3 : is_due later (ttl_at m2 key) ≡ false = rw forever refl in
    let v3' : is_some (value_of m3 key) ≡ true = ground (arith, v3, due3, v2, v1', there) in
    let t3' : is_some (lookup m3.ttl_keys key) ≡ false = ground (arith, t3, due3, forever) in
    (
      m2,
      rw (alive, due, n2, t1') refl,
      m3,
      rw (alive3, due3)
          (ttl_of-forever later m3 (lookup m3.db key) (lookup m3.ttl_keys key) v3' t3'),
    )

ttl_of-until :
    (now : ℤ) (m : MemDb) (v : Option Value) (o : Option TtlInfo) (t : ℤ)
    → is_some v ≡ true
    → (elim o [ none ↦ none | some info ↦ some info.value ]) ≡ some t
    → ttl_of now m v o ≡ reply m (int_data (add64 t (neg64 now)))
unfolding ttl_of
ttl_of-until now m none o t a b = ground arith
ttl_of-until now m (some v) none t a b = ground arith
ttl_of-until now m (some v) (some info) t a b =
    ap (λ (z : Option ℤ). reply m (int_data (add64 (elim z [ none ↦ t | some x ↦ x ]) (neg64 now))))
      b

-- TTL at a key that is there and expires at a later second
pub ttl_key_lem :
    (now t : ℤ) (key : Bytes) (m : MemDb)
    → IsSound m
    → ttl_at m key ≡ some t
    → is_due now (some t) ≡ false
    → is_some (value_of m key) ≡ true
    → ttl_key now (codes "TTL" ∷ key ∷ []) m
      ≡ reply (check_ttl now key m).0 (int_data (add64 t (neg64 now)))
unfolding ttl_key ttl_alive
ttl_key_lem now t key m h at due there =
    let m1 = (check_ttl now key m).0 in
    let (s1, alive, v1, t1) = check_ttl_lem now key m key h in
    let due' : is_due now (ttl_at m key) ≡ false = ap (is_due now) at ∙ due in
    let v1' : is_some (value_of m1 key) ≡ true = ground (arith, v1, due', there) in
    let t1' : ttl_at m1 key ≡ some t = t1 ∙ rw due' at in
    rw (alive, due') (ttl_of-until now m1 (lookup m1.db key) (lookup m1.ttl_keys key) t v1' t1')
