-- ===== src/MemDb/Keys/Sound.antt =====
-- DEL, EXISTS, KEYS and EXPIRE keep the invariant of the database.
use redis_go.Prelude.{
  ℕ, ◌+◌, ◌≢◌, arith, Bool, true, false, not, ◌&&◌, Option, none, some, List, [], ◌∷◌, Bytes,
  to_lower, if◌then◌else◌,
}
use redis_go.Prelude.Int.{ℤ, add64, ltb_ℤ}
use redis_go.Prelude.Outcome.{Outcome, ok, panic, stuck, ◌>>=◌}
use redis_go.Strconv.{atoi}
use redis_go.Util.Pattern.{patten_match}
use redis_go.Util.Pattern.Stars.{patten_match-Runs}
use redis_go.GoMap.{is_some}
use redis_go.ConcurrentMap.{delete, lookup}
use redis_go.ConcurrentMap.KeyList.{key_list_lem}
use redis_go.Resp.Structure.{Elements, array_data}
use redis_go.MemDb.{MemDb, check_ttl}
use redis_go.MemDb.Reply.{reply}
use redis_go.MemDb.Expiry.{IsSound}
use redis_go.MemDb.Sound.{Keeps, check_ttl-IsSound, set_ttl-IsSound, delete-IsSound}
use redis_go.MemDb.Keys.{
  del_loop, del_keys, del_key, exists_loop, exists_keys, exists_key, keys_loop, keys_key,
  set_ttl_if, old_ttl, expire_option, expire_seconds, expire_key,
}

del_loop-IsSound : (ks : List Bytes) (m : MemDb) (n : ℕ) → IsSound m → IsSound (del_loop ks m n).0
unfolding del_loop
del_loop-IsSound [] m n h = h
del_loop-IsSound (k ∷ ks) m n h =
    del_loop-IsSound ks _ (n + (delete m.db k).1) (delete-IsSound m k h)

exists_loop-IsSound :
    (now : ℤ) (ks : List Bytes) (m : MemDb) (n : ℕ) → IsSound m → IsSound (exists_loop now ks m n).0
unfolding exists_loop
exists_loop-IsSound now [] m n h = h
exists_loop-IsSound now (k ∷ ks) m n h =
    let (m', alive) = check_ttl now k m in
    exists_loop-IsSound now ks m' (if alive && is_some (lookup m'.db k) then n + 1 else n)
      (check_ttl-IsSound m k h now)

-- what the loop of KEYS leaves
abbrev KeepsLoop : Outcome (MemDb × Elements) → Type 0
KeepsLoop (ok (m, ds)) = IsSound m
KeepsLoop panic = Unit
KeepsLoop stuck = ⊥

after_match :
    (o : Outcome Bool) (f : Bool → Outcome (MemDb × Elements))
    → o ≢ stuck
    → ((b : Bool) → KeepsLoop (f b))
    → KeepsLoop (o >>= f)
after_match (ok b) f n h = h b
after_match panic f n h = tt
after_match stuck f n h = ground arith

after_rest :
    (o : Outcome (MemDb × Elements)) (f : MemDb × Elements → Elements)
    → KeepsLoop o
    → KeepsLoop (o >>= (λ r. ok (r.0, f r)))
after_rest (ok (m, ds)) f h = h
after_rest panic f h = tt
after_rest stuck f h = h

match_runs : (alive : Bool) (p k : Bytes) → (if alive then patten_match p k else ok false) ≢ stuck
match_runs true p k = patten_match-Runs p k
match_runs false p k = λ e. ground arith

keys_loop-Keeps :
    (now : ℤ) (p : Bytes) (ks : List Bytes) (m : MemDb)
    → IsSound m
    → KeepsLoop (keys_loop now p ks m)
unfolding keys_loop
keys_loop-Keeps now p [] m h = h
keys_loop-Keeps now p (k ∷ ks) m h =
    let (m', alive) = check_ttl now k m in
    after_match (if alive then patten_match p k else ok false) _ (match_runs alive p k) (λ b.
      after_rest (keys_loop now p ks m') _
        (keys_loop-Keeps now p ks m' (check_ttl-IsSound m k h now)))

module _ (m : MemDb) (h : IsSound m) (now : ℤ) where
  pub del_key-Keeps : (cmd : List Bytes) → Keeps (del_key now cmd m)
  unfolding del_key del_keys
  del_key-Keeps [] = tt
  del_key-Keeps (c ∷ []) = ground arith
  del_key-Keeps (c ∷ k ∷ ks) = ground (
    arith,
    check_ttl-IsSound m k h now,
    del_loop-IsSound (k ∷ ks) (check_ttl now k m).0 0 (check_ttl-IsSound m k h now),
  )

  pub exists_key-Keeps : (cmd : List Bytes) → Keeps (exists_key now cmd m)
  unfolding exists_key exists_keys
  exists_key-Keeps [] = tt
  exists_key-Keeps (c ∷ []) = h
  exists_key-Keeps (c ∷ k ∷ ks) = ground (arith, exists_loop-IsSound now (k ∷ ks) m 0 h)

  set_ttl_if-Keeps : (b : Bool) (key : Bytes) (t : ℤ) → Keeps (set_ttl_if b key t m)
  unfolding set_ttl_if
  set_ttl_if-Keeps true key t = set_ttl-IsSound m key h t
  set_ttl_if-Keeps false key t = h

  expire_option-Keeps : (opt key : Bytes) (t : ℤ) → Keeps (expire_option opt key t m)
  unfolding expire_option
  expire_option-Keeps opt key t =
      let old = lookup m.ttl_keys key in
      ground (
        arith,
        set_ttl_if-Keeps (not (is_some old)) key t,
        set_ttl_if-Keeps (is_some old) key t,
        set_ttl_if-Keeps (old_ttl (λ v. ltb_ℤ v t) old) key t,
        set_ttl_if-Keeps (old_ttl (λ v. ltb_ℤ t v) old) key t,
        set_ttl_if-Keeps true key t,
      )

module _ (m : MemDb) (h : IsSound m) (now : ℤ) where
  expire_seconds-Keeps :
      (key text opt : Bytes) (v : Option ℤ) → Keeps (expire_seconds now key text opt v m)
  unfolding expire_seconds
  expire_seconds-Keeps key text opt none = h
  expire_seconds-Keeps key text opt (some v) = ground (
    arith,
    check_ttl-IsSound m key h now,
    expire_option-Keeps (check_ttl now key m).0 (check_ttl-IsSound m key h now) now opt key
        (add64 now v),
  )

  pub expire_key-Keeps : (cmd : List Bytes) → Keeps (expire_key now cmd m)
  unfolding expire_key
  expire_key-Keeps [] = tt
  expire_key-Keeps (c ∷ []) = h
  expire_key-Keeps (c ∷ key ∷ []) = h
  expire_key-Keeps (c ∷ key ∷ n ∷ []) = ground (arith, expire_seconds-Keeps key n [] (atoi n))
  expire_key-Keeps (c ∷ key ∷ n ∷ opt ∷ []) =
      ground (arith, expire_seconds-Keeps key n (to_lower opt) (atoi n))
  expire_key-Keeps (c ∷ key ∷ n ∷ opt ∷ a ∷ args) = h

  keys_found :
      (o : Outcome (MemDb × Elements))
      → KeepsLoop o
      → Keeps (o >>= (λ r. reply r.0 (array_data r.1)))
  keys_found (ok (m', ds)) k = k
  keys_found panic k = tt
  keys_found stuck k = k

  pub keys_key-Keeps : (cmd : List Bytes) → Keeps (keys_key now cmd m)
  unfolding keys_key
  keys_key-Keeps [] = tt
  keys_key-Keeps (c ∷ []) = tt
  keys_key-Keeps (c ∷ p ∷ []) =
      let (ks, all, n, k) = key_list_lem m.db [] h.db in
      let found = keys_found (keys_loop now p ks m) (keys_loop-Keeps now p ks m h) in
      rw all (ground (arith, found))
  keys_key-Keeps (c ∷ p ∷ a ∷ args) = h
