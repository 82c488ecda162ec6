-- ===== src/MemDb/Counters/Sound.antt =====
-- The counters keep the invariant of the database.
use redis_go.Prelude.{arith, Option, none, some, List, [], ◌∷◌, Bytes}
use redis_go.Prelude.Int.{ℤ, pos, negsuc, neg64}
use redis_go.Strconv.{atoi}
use redis_go.MemDb.{MemDb}
use redis_go.MemDb.Expiry.{IsSound}
use redis_go.MemDb.Sound.{Keeps, set-IsSound}
use redis_go.MemDb.Strings.{Held, absent, wrong, bytes, held}
use redis_go.MemDb.Counters.{
  store_int, add_to, add_held, incr_string, decr_string, incr_by, incr_by_string, decr_by,
  decr_by_string,
}

module _ (m : MemDb) (h : IsSound m) where
  add_to-Keeps : (key : Bytes) (inc : ℤ) (n : Option ℤ) → Keeps (add_to m key inc n)
  unfolding add_to store_int
  add_to-Keeps key inc none = h
  add_to-Keeps key inc (some n) = set-IsSound m key h _

  add_held-Keeps : (key : Bytes) (first inc : ℤ) (o : Held) → Keeps (add_held m key first inc o)
  unfolding add_held store_int
  add_held-Keeps key first inc absent = set-IsSound m key h _
  add_held-Keeps key first inc wrong = h
  add_held-Keeps key first inc (bytes s) = add_to-Keeps key inc (atoi s)

  incr_by-Keeps : (key : Bytes) (n : Option ℤ) → Keeps (incr_by m key n)
  unfolding incr_by
  incr_by-Keeps key none = h
  incr_by-Keeps key (some n) = add_held-Keeps key n n (held m key)

  decr_by-Keeps : (key : Bytes) (n : Option ℤ) → Keeps (decr_by m key n)
  unfolding decr_by
  decr_by-Keeps key none = h
  decr_by-Keeps key (some n) = add_held-Keeps key (neg64 n) (neg64 n) (held m key)

  pub incr_string-Keeps : (cmd : List Bytes) → Keeps (incr_string cmd m)
  unfolding incr_string
  incr_string-Keeps [] = tt
  incr_string-Keeps (c ∷ []) = ground arith
  incr_string-Keeps (c ∷ key ∷ []) = ground (arith, add_held-Keeps key (pos 1) (pos 1) (held m key))
  incr_string-Keeps (c ∷ key ∷ a ∷ args) = ground arith

  pub decr_string-Keeps : (cmd : List Bytes) → Keeps (decr_string cmd m)
  unfolding decr_string
  decr_string-Keeps [] = tt
  decr_string-Keeps (c ∷ []) = ground arith
  decr_string-Keeps (c ∷ key ∷ []) =
      ground (arith, add_held-Keeps key (negsuc 0) (negsuc 0) (held m key))
  decr_string-Keeps (c ∷ key ∷ a ∷ args) = ground arith

  pub incr_by_string-Keeps : (cmd : List Bytes) → Keeps (incr_by_string cmd m)
  unfolding incr_by_string
  incr_by_string-Keeps [] = tt
  incr_by_string-Keeps (c ∷ []) = ground arith
  incr_by_string-Keeps (c ∷ key ∷ []) = ground arith
  incr_by_string-Keeps (c ∷ key ∷ inc ∷ []) = ground (arith, incr_by-Keeps key (atoi inc))
  incr_by_string-Keeps (c ∷ key ∷ inc ∷ a ∷ args) = ground arith

  pub decr_by_string-Keeps : (cmd : List Bytes) → Keeps (decr_by_string cmd m)
  unfolding decr_by_string
  decr_by_string-Keeps [] = tt
  decr_by_string-Keeps (c ∷ []) = ground arith
  decr_by_string-Keeps (c ∷ key ∷ []) = ground arith
  decr_by_string-Keeps (c ∷ key ∷ dec ∷ []) = ground (arith, decr_by-Keeps key (atoi dec))
  decr_by_string-Keeps (c ∷ key ∷ dec ∷ a ∷ args) = ground arith
