-- ===== src/MemDb/Keys/Laws.antt =====
-- What DEL leaves, and what EXISTS and KEYS answer.
use redis_go.Prelude.{
  ℕ, ◌+◌, ◌≡◌, refl, ap, Bool, true, false, not, ◌&&◌, none, List, [], ◌∷◌, Bytes, codes,
  bytes_equal, if◌then◌else◌, arith,
}
use redis_go.Prelude.Int.{ℤ}
use redis_go.GoMap.{is_some}
use redis_go.GoMap.Laws.{contains, bit}
use redis_go.ConcurrentMap.{delete}
use redis_go.ConcurrentMap.Laws.{delete_lem}
use redis_go.MemDb.{MemDb, check_ttl}
use redis_go.MemDb.Reply.{reply_int}
use redis_go.MemDb.Expiry.{IsSound, value_of, ttl_at, is_due, check_ttl_lem}
use redis_go.MemDb.Keys.{del_loop, del_keys, del_key}

-- how many of the keys are there, where each is taken away when it is counted
abbrev pub present_keys : List Bytes → (Bytes → Bool) → ℕ
present_keys [] there = 0
present_keys (k ∷ ks) there =
    bit (there k) + present_keys ks (λ j. not (bytes_equal k j) && there j)

del_loop_lem :
    (ks : List Bytes) (m : MemDb) (n : ℕ) (j : Bytes)
    → IsSound m
    → let m' = (del_loop ks m n).0 in
      IsSound m'
      × (value_of m' j ≡ (if contains j ks then none else value_of m j))
      × (ttl_at m' j ≡ (if contains j ks then none else ttl_at m j))
unfolding del_loop
del_loop_lem [] m n j h = (h, refl, refl)
del_loop_lem (k ∷ ks) m n j h =
    let (s1, v1, n1) = delete_lem m.db k h.db j in
    let (s2, v2, n2) = delete_lem m.ttl_keys k h.ttl_keys j in
    let m' : MemDb = record m { db = (delete m.db k).0; ttl_keys = (delete m.ttl_keys k).0 } in
    let (s3, v3, t3) =
      del_loop_lem ks m' (n + (delete m.db k).1) j (record { db = s1; ttl_keys = s2 }) in
    (s3, ground arith, ground arith)

del_loop-count :
    (ks : List Bytes) (m : MemDb) (n : ℕ) (there : Bytes → Bool)
    → IsSound m
    → ((j : Bytes) → is_some (value_of m j) ≡ there j)
    → (del_loop ks m n).1 ≡ n + present_keys ks there
unfolding del_loop
del_loop-count [] m n there h same = omega arith
del_loop-count (k ∷ ks) m n there h same =
    let (s1, v1, n1) = delete_lem m.db k h.db k in
    let (s2, v2, n2) = delete_lem m.ttl_keys k h.ttl_keys k in
    let m' : MemDb = record m { db = (delete m.db k).0; ttl_keys = (delete m.ttl_keys k).0 } in
    let rest =
      del_loop-count ks m' (n + (delete m.db k).1) (λ j. not (bytes_equal k j) && there j)
        (record { db = s1; ttl_keys = s2 })
        (λ j. ground (arith, delete_lem m.db k h.db j, same j)) in
    omega (arith, rest, n1, ap bit (same k))

-- DEL, on a sound database, of keys of which the first is not expired: the database stays sound, all of
-- them are gone, with their times to expire, every other key keeps both, and the reply is how many
-- there were.
pub del_key_lem :
    (now : ℤ) (k : Bytes) (ks : List Bytes) (m : MemDb) (j : Bytes)
    → IsSound m
    → is_due now (ttl_at m k) ≡ false
    → (m' : MemDb) × (del_key now (codes "DEL" ∷ k ∷ ks) m
        ≡ reply_int m' (present_keys (k ∷ ks) (λ i. is_some (value_of m i))))
      × IsSound m'
      × (value_of m' j ≡ (if contains j (k ∷ ks) then none else value_of m j))
      × (ttl_at m' j ≡ (if contains j (k ∷ ks) then none else ttl_at m j))
unfolding del_key del_keys
del_key_lem now k ks m j h due =
    let m1 = (check_ttl now k m).0 in
    let (s, alive, v, t) = check_ttl_lem now k m j h in
    let (s', v', t') = del_loop_lem (k ∷ ks) m1 0 j s in
    let counted =
      del_loop-count (k ∷ ks) m1 0 (λ i. is_some (value_of m i)) s
        (λ i. let (a, b, c, d) = check_ttl_lem now k m i h in rw (c, due) refl) in
    let n : (del_loop (k ∷ ks) m1 0).1 ≡ present_keys (k ∷ ks) (λ i. is_some (value_of m i)) =
      omega (arith, counted) in
    (
      (del_loop (k ∷ ks) m1 0).0,
      rw (alive, due, n) refl,
      s',
      ground (arith, v, due, v'),
      ground (arith, t, due, t'),
    )

-- DEL, on a sound database, of keys of which the first is expired: only the first is taken away, and
-- the reply is 0, whatever the other keys hold.
pub del_key-expired :
    (now : ℤ) (k : Bytes) (ks : List Bytes) (m : MemDb) (j : Bytes)
    → IsSound m
    → is_due now (ttl_at m k) ≡ true
    → (m' : MemDb) × (del_key now (codes "DEL" ∷ k ∷ ks) m ≡ reply_int m' 0)
      × (value_of m' j ≡ (if bytes_equal k j then none else value_of m j))
unfolding del_key del_keys
del_key-expired now k ks m j h due =
    let (s, alive, v, t) = check_ttl_lem now k m j h in
    ((check_ttl now k m).0, rw (alive, due) refl, ground (arith, v, due))
